-- ===== src/Chat/Wire/Examples.antt =====
-- The wire format's theorems at concrete messages, over a small JSON of association lists.
use chatdesktop.Prelude.{◌≡◌, refl, pos, some, [], ◌∷◌, map, arith}
use chatdesktop.Chat.Entity.{MessageType}
use chatdesktop.Chat.Wire.{
  type_to_string, content_to_json, payload_to_json, MessageItemDto, MessageDto, dto_to_json,
  dto_from_json,
}
use chatdesktop.Chat.Wire.SmallJson.{json, json_laws, picture, sent_picture}
use chatdesktop.Chat.Wire.RoundTrip.{wire_item, dto_from_json-dto_to_json}

abbrev item : MessageItemDto json
item = record {
  id = "m1";
  sender_id = "u1";
  recipient_id = "u2";
  body = picture json;
  sent_at = "2024-01-02";
}

abbrev page : MessageDto json
page = record {
  messages = item ∷ [];
  page = pos 1;
  limit = pos 20;
  total = pos 1;
  total_pages = pos 1;
}

lower : (t : MessageType) → json.plain (type_to_string json t) ≡ type_to_string json t
lower t = refl

dto_from_json-dto_to_json_example :
    dto_from_json json (dto_to_json json page)
    ≡ some (record page {
      messages = map (wire_item json (json_laws (sent_picture ∷ [])) lower) page.messages;
    })
unfolding payload_to_json content_to_json type_to_string
dto_from_json-dto_to_json_example =
    dto_from_json-dto_to_json json (json_laws (sent_picture ∷ [])) lower page
      (((omega arith, omega arith, omega arith), refl), tt)
      (omega arith, omega arith, omega arith, omega arith)

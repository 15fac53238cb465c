-- ===== src/Chat/Wire.antt =====
-- src/features/chat/data/dto/message_payload_dto.hpp with `fromArray` of
-- src/core/network/json_serializer.hpp: messages as JSON. Qt's JSON types are a parameter with the
-- laws of their documentation; the texts of errors are left out.
mod RoundTrip
mod Batches
pub mod SmallJson
mod Examples
use chatdesktop.Prelude.{
  ℕ, ◌<◌, ◌≤◌, ◌^◌, ◌≡◌, ℤ, pos, negsuc, le, String, Bool, true, false, not, ◌&&◌, ◌||◌, Option,
  none, some, List, [], ◌∷◌, map, str_eq, is_empty, if◌then◌else◌,
}
use chatdesktop.Chat.Entity.{
  MessageType, text, voice, video, location, image, file, sticker, Content, Payload, MessageItem,
}

-- What an `int` holds, and the whole numbers that a `double`, and so a number of JSON, holds exactly.
abbrev pub IsInt : ℤ → Type 0
IsInt (pos n) = n < 2 ^ 31
IsInt (negsuc n) = n < 2 ^ 31

abbrev pub IsExact : ℤ → Type 0
IsExact (pos n) = n < 2 ^ 53
IsExact (negsuc n) = n < 2 ^ 53

-- Whether a message belongs to an album.
abbrev pub in_batch : String → ℤ → Bool
in_batch batch index = not (is_empty batch) && le (pos 0) index

-- `QJsonValue`, `QJsonObject` and `QJsonDocument`. `parse` answers an object, or none for a parse
-- error or another document; `print` is the compact form. `plain` is `trimmed().toLower()`.
pub record JsonApi : Type 1 where
  pub Value : Type 0
  pub Object : Type 0
  pub missing : Value
  pub of_string : String → Value
  pub of_int : ℤ → Value
  pub of_object : Object → Value
  pub of_array : List Value → Value
  pub to_string : Value → String
  pub to_int : ℤ → Value → ℤ
  pub to_long : Value → ℤ
  pub to_object : Value → Object
  pub to_array : Value → List Value
  pub is_string : Value → Bool
  pub is_object : Value → Bool
  pub is_array : Value → Bool
  pub empty : Object
  pub insert : Object → String → Value → Object
  pub value : Object → String → Value
  pub parse : String → Option Object
  pub print : Object → String
  pub plain : String → String

module _ (json : JsonApi) where
  open json use {
    Value, Object, missing, of_string, of_int, of_object, of_array, to_string, to_int, to_long,
    to_object, to_array, is_string, is_object, is_array, empty, insert, value, parse, print, plain,
  }

  -- What the code relies on.
  pub record JsonLaws : Type 0 where
    pub value-insert :
        (o : Object) (k : String) (v : Value) (j : String)
        → value (insert o k v) j ≡ (if str_eq k j then v else value o j)
    pub value-empty : (k : String) → value empty k ≡ missing
    pub to_string-of_string : (s : String) → to_string (of_string s) ≡ s
    pub to_string-missing : to_string missing ≡ ""
    pub to_int-of_int : (d n : ℤ) → IsInt n → to_int d (of_int n) ≡ n
    pub to_int-missing : (d : ℤ) → to_int d missing ≡ d
    pub to_long-of_int : (n : ℤ) → IsExact n → to_long (of_int n) ≡ n
    pub to_long-missing : to_long missing ≡ pos 0
    pub to_object-of_object : (o : Object) → to_object (of_object o) ≡ o
    pub is_object-of_object : (o : Object) → is_object (of_object o) ≡ true
    pub to_array-of_array : (vs : List Value) → to_array (of_array vs) ≡ vs
    pub is_array-of_array : (vs : List Value) → is_array (of_array vs) ≡ true
    pub is_string-of_object : (o : Object) → is_string (of_object o) ≡ false

  -- What is printed is read back as the same object.
  abbrev pub PrintsBack : Object → Type 0
  PrintsBack o = parse (print o) ≡ some o

  unfoldable pub type_to_string : MessageType → String
  type_to_string text = "text"
  type_to_string voice = "voice"
  type_to_string video = "video"
  type_to_string location = "location"
  type_to_string image = "image"
  type_to_string file = "file"
  type_to_string sticker = "sticker"

  unfoldable pub type_of_plain : String → MessageType
  type_of_plain v =
      if str_eq v "text"
      then text
      else if str_eq v "voice"
      then voice
      else if str_eq v "video"
      then video
      else if str_eq v "location"
      then location
      else if str_eq v "image"
      then image
      else if str_eq v "file"
      then file
      else if str_eq v "sticker"
      then sticker
      else text

  unfoldable pub type_from_string : String → MessageType
  type_from_string s = type_of_plain (plain s)

  abbrev is_voice : MessageType → Bool
  is_voice voice = true
  is_voice text = false
  is_voice video = false
  is_voice location = false
  is_voice image = false
  is_voice file = false
  is_voice sticker = false

  pub record ContentDto : Type 0 where
    pub type : MessageType
    pub body_text : String
    pub media_url : String
    pub file_name : String
    pub file_size : ℤ
    pub duration : ℤ

  abbrev pub no_content_dto : ContentDto
  no_content_dto = record {
    type = text;
    body_text = "";
    media_url = "";
    file_name = "";
    file_size = pos 0;
    duration = pos 0;
  }

  unfoldable pub content_to_json : ContentDto → Object
  content_to_json c =
      let o1 = insert empty "type" (of_string (type_to_string c.type)) in
      let o2 = insert o1 "text" (of_string c.body_text) in
      let o3 = insert o2 "media_url" (of_string c.media_url) in
      let o4 = insert o3 "file_name" (of_string c.file_name) in
      let o5 = insert o4 "fileSize" (of_int c.file_size) in
      if is_voice c.type then insert o5 "duration" (of_int c.duration) else o5

  unfoldable pub content_from_json : Object → ContentDto
  content_from_json o = record {
    type = type_from_string (to_string (value o "type"));
    body_text = to_string (value o "text");
    media_url = to_string (value o "media_url");
    file_name = to_string (value o "file_name");
    file_size = to_long (value o "fileSize");
    duration = to_long (value o "duration");
  }

  unfoldable pub content_to_domain : ContentDto → Content
  content_to_domain c = record {
    type = c.type;
    body_text = c.body_text;
    media_url = c.media_url;
    file_name = c.file_name;
    file_size = c.file_size;
    duration = c.duration;
    localpath = "";
  }

  pub record PayloadDto : Type 0 where
    pub message_id : String
    pub sender_id : String
    pub receiver_id : String
    pub reply_message_id : String
    pub timestamp : String
    pub content : ContentDto
    pub attachment_batch_id : String
    pub attachment_index : ℤ

  unfoldable pub payload_to_json : PayloadDto → Object
  payload_to_json p =
      let o1 = insert empty "message_id" (of_string p.message_id) in
      let o2 = insert o1 "sender_id" (of_string p.sender_id) in
      let o3 = insert o2 "receiver_id" (of_string p.receiver_id) in
      let o4 = insert o3 "reply_message_id" (of_string p.reply_message_id) in
      let o5 = insert o4 "timestamp" (of_string p.timestamp) in
      let o6 = insert o5 "content" (of_object (content_to_json p.content)) in
      if in_batch p.attachment_batch_id p.attachment_index
      then insert (insert o6 "attachment_batch_id" (of_string p.attachment_batch_id))
          "attachment_index" (of_int p.attachment_index)
      else o6

  -- A single object in an array is what older payloads hold.
  unfoldable pub content_of_array : List Value → ContentDto
  content_of_array [] = no_content_dto
  content_of_array (v ∷ []) = content_from_json (to_object v)
  content_of_array (v ∷ (u ∷ vs)) = no_content_dto

  unfoldable pub content_of_value : Value → ContentDto
  content_of_value v =
      if is_object v
      then content_from_json (to_object v)
      else if is_array v
      then content_of_array (to_array v)
      else no_content_dto

  unfoldable pub payload_from_json : Object → PayloadDto
  payload_from_json o = record {
    message_id = to_string (value o "message_id");
    sender_id = to_string (value o "sender_id");
    receiver_id = to_string (value o "receiver_id");
    reply_message_id = to_string (value o "reply_message_id");
    timestamp = to_string (value o "timestamp");
    content = content_of_value (value o "content");
    attachment_batch_id = to_string (value o "attachment_batch_id");
    attachment_index = to_int (negsuc 0) (value o "attachment_index");
  }

  unfoldable pub to_json_string : PayloadDto → String
  to_json_string p = print (payload_to_json p)

  abbrev is_single_object : List Value → Bool
  is_single_object [] = false
  is_single_object (v ∷ []) = is_object v
  is_single_object (v ∷ (u ∷ vs)) = false

  unfoldable pub payload_from_object : Option Object → Option PayloadDto
  payload_from_object none = none
  payload_from_object (some o) =
      let v = value o "content" in
      if not (is_object v) && not (is_array v && is_single_object (to_array v))
      then none
      else some (payload_from_json o)

  unfoldable pub from_json_string : String → Option PayloadDto
  from_json_string s = payload_from_object (parse s)

  unfoldable pub payload_to_domain : PayloadDto → Payload
  payload_to_domain p = record {
    is_mine = false;
    message_id = p.message_id;
    sender_id = p.sender_id;
    receiver_id = p.receiver_id;
    reply_message_id = p.reply_message_id;
    timestamp = p.timestamp;
    content = content_to_domain p.content;
    attachment_batch_id = p.attachment_batch_id;
    attachment_index = p.attachment_index;
  }

  pub record MessageItemDto : Type 0 where
    pub id : String
    pub sender_id : String
    pub recipient_id : String
    pub body : PayloadDto
    pub sent_at : String

  unfoldable pub item_to_json : MessageItemDto → Object
  item_to_json m =
      let o1 = insert empty "id" (of_string m.id) in
      let o2 = insert o1 "sender_id" (of_string m.sender_id) in
      let o3 = insert o2 "recipient_id" (of_string m.recipient_id) in
      let o4 = insert o3 "body" (of_object (payload_to_json m.body)) in
      insert o4 "sent_at" (of_string m.sent_at)

  unfoldable pub item_with_body : Object → Option PayloadDto → Option MessageItemDto
  item_with_body o none = none
  item_with_body o (some body) = some (record {
    id = to_string (value o "id");
    sender_id = to_string (value o "sender_id");
    recipient_id = to_string (value o "recipient_id");
    body = body;
    sent_at = to_string (value o "sent_at");
  })

  unfoldable pub item_from_json : Object → Option MessageItemDto
  item_from_json o =
      let v = value o "body" in
      if not (is_string v) && not (is_object v)
      then none
      else if is_object v
      then item_with_body o (from_json_string (print (to_object v)))
      else item_with_body o (from_json_string (to_string v))

  -- The members that `toDomain` leaves at their defaults are `false` here.
  unfoldable pub item_to_domain : MessageItemDto → MessageItem
  item_to_domain m = record {
    id = m.id;
    sender_id = m.sender_id;
    recipient_id = m.recipient_id;
    body = payload_to_domain m.body;
    sent_at = m.sent_at;
    is_mine = false;
    sending = false;
    send_success = false;
  }

  pub record MessageDto : Type 0 where
    pub messages : List MessageItemDto
    pub page : ℤ
    pub limit : ℤ
    pub total : ℤ
    pub total_pages : ℤ

  unfoldable pub dto_to_json : MessageDto → Object
  dto_to_json d =
      let o1 =
        insert empty "messages" (of_array (map (λ m. of_object (item_to_json m)) d.messages)) in
      let o2 = insert o1 "page" (of_int d.page) in
      let o3 = insert o2 "limit" (of_int d.limit) in
      let o4 = insert o3 "total" (of_int d.total) in insert o4 "total_pages" (of_int d.total_pages)

  abbrev cons_found :
      Option MessageItemDto → Option (List MessageItemDto) → Option (List MessageItemDto)
  cons_found none ms = none
  cons_found (some m) none = none
  cons_found (some m) (some ms) = some (m ∷ ms)

  -- `JsonSerializer::fromArray`: the first item that is no object, or not valid, ends it.
  unfoldable pub from_array : List Value → Option (List MessageItemDto)
  from_array [] = some []
  from_array (v ∷ vs) =
      let rest = from_array vs in
      if not (is_object v) then none else cons_found (item_from_json (to_object v)) rest

  abbrev dto_with : Object → Option (List MessageItemDto) → Option MessageDto
  dto_with o none = none
  dto_with o (some ms) = some (record {
    messages = ms;
    page = to_int (pos 0) (value o "page");
    limit = to_int (pos 0) (value o "limit");
    total = to_int (pos 0) (value o "total");
    total_pages = to_int (pos 0) (value o "total_pages");
  })

  -- A missing member is no array.
  unfoldable pub dto_from_json : Object → Option MessageDto
  dto_from_json o =
      let v = value o "messages" in
      if not (is_array v) then none else dto_with o (from_array (to_array v))

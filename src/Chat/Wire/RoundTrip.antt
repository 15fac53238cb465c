-- ===== src/Chat/Wire/RoundTrip.antt =====
-- What is printed as JSON reads back as it was.
use chatdesktop.Prelude.{
  ◌≡◌, refl, ap, inl, inr, pos, negsuc, some, List, [], ◌∷◌, map, if◌then◌else◌, Bool-cases, All,
}
use chatdesktop.Chat.Entity.{MessageType, text, voice, video, location, image, file, sticker}
use chatdesktop.Chat.Wire.{
  PrintsBack, IsInt, IsExact, JsonApi, JsonLaws, type_to_string, type_of_plain, type_from_string,
  is_voice, ContentDto, content_to_json, content_from_json, content_of_value, PayloadDto, in_batch,
  payload_to_json, payload_from_json, to_json_string, payload_from_object, from_json_string,
  MessageItemDto, item_to_json, item_from_json, item_with_body, MessageDto, dto_to_json,
  dto_from_json, from_array,
}

module _ (json : JsonApi) (laws : JsonLaws json)
    (lower : (t : MessageType) → json.plain (type_to_string json t) ≡ type_to_string json t) where
  type-round_trip : (t : MessageType) → type_from_string json (type_to_string json t) ≡ t
  unfolding type_from_string type_of_plain type_to_string
  type-round_trip text = rw (lower text) refl
  type-round_trip voice = rw (lower voice) refl
  type-round_trip video = rw (lower video) refl
  type-round_trip location = rw (lower location) refl
  type-round_trip image = rw (lower image) refl
  type-round_trip file = rw (lower file) refl
  type-round_trip sticker = rw (lower sticker) refl

  -- What the wire keeps of a content: a duration belongs to voice messages only.
  abbrev pub wire_content : ContentDto json → ContentDto json
  wire_content c = record c { duration = if is_voice json c.type then c.duration else pos 0 }

  pub content-round_trip :
      (c : ContentDto json)
      → IsExact c.file_size
      → IsExact c.duration
      → content_from_json json (content_to_json json c) ≡ wire_content c
  unfolding content_to_json content_from_json
  content-round_trip c hs hd = elim (Bool-cases (is_voice json c.type)) [
    | inl v ↦ rw (v) simp (
      laws.value-insert,
      laws.to_string-of_string,
      type-round_trip,
      laws.to_long-of_int c.file_size hs,
      laws.to_long-of_int c.duration hd,
    )
    | inr n ↦ rw (n) simp (
      laws.value-insert,
      laws.value-empty,
      laws.to_string-of_string,
      type-round_trip,
      laws.to_long-of_int c.file_size hs,
      laws.to_long-missing,
    )
  ]

  content_of-of_object :
      (o : json.Object) → content_of_value json (json.of_object o) ≡ content_from_json json o
  unfolding content_of_value
  content_of-of_object o = simp (laws.is_object-of_object, laws.to_object-of_object)

  -- A message outside an album comes back without one.
  abbrev pub wire_payload : PayloadDto json → PayloadDto json
  wire_payload p = record p {
    content = wire_content p.content;
    attachment_batch_id =
        if in_batch p.attachment_batch_id p.attachment_index then p.attachment_batch_id else "";
    attachment_index =
        if in_batch p.attachment_batch_id p.attachment_index then p.attachment_index else negsuc 0;
  }

  -- What the numbers of a message are taken to fit into.
  abbrev pub FitsWire : PayloadDto json → Type 0
  FitsWire p = IsExact p.content.file_size × IsExact p.content.duration × IsInt p.attachment_index

  pub payload-round_trip :
      (p : PayloadDto json)
      → FitsWire p
      → payload_from_json json (payload_to_json json p) ≡ wire_payload p
  unfolding payload_to_json payload_from_json
  payload-round_trip p (hs, hd, hi) =
      elim (Bool-cases (in_batch p.attachment_batch_id p.attachment_index)) [
        | inl v ↦ rw (v) simp (
          laws.value-insert,
          laws.to_string-of_string,
          content_of-of_object,
          content-round_trip p.content hs hd,
          laws.to_int-of_int (negsuc 0) p.attachment_index hi,
        )
        | inr n ↦ rw (n) simp (
          laws.value-insert,
          laws.value-empty,
          laws.to_string-of_string,
          laws.to_string-missing,
          content_of-of_object,
          content-round_trip p.content hs hd,
          laws.to_int-missing,
        )
      ]

  content_member :
      (p : PayloadDto json)
      → json.value (payload_to_json json p) "content"
        ≡ json.of_object (content_to_json json p.content)
  unfolding payload_to_json
  content_member p = elim (Bool-cases (in_batch p.attachment_batch_id p.attachment_index)) [
    | inl v ↦ rw (v) simp (laws.value-insert)
    | inr n ↦ rw (n) simp (laws.value-insert)
  ]

  read_printed :
      (p : PayloadDto json)
      → FitsWire p
      → PrintsBack json (payload_to_json json p)
      → from_json_string json (json.print (payload_to_json json p)) ≡ some (wire_payload p)
  unfolding from_json_string payload_from_object
  read_printed p h back =
      rw (back, content_member p, laws.is_object-of_object (content_to_json json p.content))
        (ap some (payload-round_trip p h))

  -- A message sent as text reads back as it was, but for what the format leaves out: the duration of
  -- what is no voice message, and a batch without an identifier or an index. The sizes and the
  -- duration are taken to stay within 2 ^ 53, the index an `int`, and the JSON object to be read back as
  -- it was printed.
  pub from_json_string-to_json_string :
      (p : PayloadDto json)
      → FitsWire p
      → PrintsBack json (payload_to_json json p)
      → from_json_string json (to_json_string json p) ≡ some (wire_payload p)
  unfolding to_json_string
  from_json_string-to_json_string p h back = read_printed p h back

  abbrev pub wire_item : MessageItemDto json → MessageItemDto json
  wire_item m = record m { body = wire_payload m.body }

  item-round_trip :
      (m : MessageItemDto json)
      → FitsWire m.body
      → PrintsBack json (payload_to_json json m.body)
      → item_from_json json (item_to_json json m) ≡ some (wire_item m)
  unfolding item_from_json item_to_json item_with_body
  item-round_trip m h back = simp (
    laws.value-insert,
    laws.is_object-of_object,
    laws.is_string-of_object,
    laws.to_object-of_object,
    laws.to_string-of_string,
    read_printed m.body h back,
  )

  -- What a page's messages are taken to fulfil.
  abbrev pub FitsItems : List (MessageItemDto json) → Type 0
  FitsItems ms = All (λ m. FitsWire m.body × PrintsBack json (payload_to_json json m.body)) ms

  items-round_trip :
      (ms : List (MessageItemDto json))
      → FitsItems ms
      → from_array json (map (λ m. json.of_object (item_to_json json m)) ms)
        ≡ some (map wire_item ms)
  unfolding from_array
  items-round_trip [] h = refl
  items-round_trip (m ∷ ms) (h, hs) = simp (
    laws.is_object-of_object,
    laws.to_object-of_object,
    item-round_trip m h.0 h.1,
    items-round_trip ms hs,
  )

  abbrev pub FitsPage : MessageDto json → Type 0
  FitsPage d = IsInt d.page × IsInt d.limit × IsInt d.total × IsInt d.total_pages

  -- A page of the history reads back as it was, every message as a message alone does, in the order
  -- it was written in. The sizes and durations are taken to stay within 2 ^ 53, the other numbers
  -- to fit an `int`, and each message's object to be read back as it was printed.
  pub dto_from_json-dto_to_json :
      (d : MessageDto json)
      → FitsItems d.messages
      → FitsPage d
      → dto_from_json json (dto_to_json json d)
        ≡ some (record d { messages = map wire_item d.messages })
  unfolding dto_from_json dto_to_json
  dto_from_json-dto_to_json d hm (hp, hl, ht, hg) = simp (
    laws.value-insert,
    laws.is_array-of_array,
    laws.to_array-of_array,
    items-round_trip d.messages hm,
    laws.to_int-of_int (pos 0) d.page hp,
    laws.to_int-of_int (pos 0) d.limit hl,
    laws.to_int-of_int (pos 0) d.total ht,
    laws.to_int-of_int (pos 0) d.total_pages hg,
  )

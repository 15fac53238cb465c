-- ===== src/Chat/HistoryCache.antt =====
-- src/features/chat/data/repository/message_history_cache.hpp: the pages of a conversation and the
-- live messages that no page has brought yet. `MessageCache` is an interface; the mutex makes each
-- operation atomic.
mod Pending
mod Refines
mod Unserved
mod Examples
use chatdesktop.Prelude.{
  ℤ, pos, le, succ, int_eq, String, Bool, true, false, not, ◌&&◌, ◌||◌, Option, none, some, List,
  [], ◌∷◌, ◌++◌, any_of, is_empty, str_eq, length, ◌==◌, if◌then◌else◌,
}
use chatdesktop.Chat.Wire.{JsonApi, MessageItemDto, MessageDto, dto_to_json, dto_from_json}

-- What the code uses of `QString` and of `MessageCache`. `before c s` is `s.section(c, 0, 0)`,
-- `without c s` is `s.remove(c)`, and `secret_of` the Base64 text of a JSON array of two.
pub record CacheApi : Type 1 where
  pub before : String → String → String
  pub without : String → String → String
  pub secret_of : String → String → String
  pub Cache : Type 0
  pub read_page : String → String → ℤ → Cache → Option String × Cache
  pub read_pending : String → String → Cache → Option String × Cache
  pub save_page : String → String → String → ℤ → Cache → Bool × Cache
  pub save_pending : String → String → String → Cache → Bool × Cache

module _ (json : JsonApi) (api : CacheApi) where
  open api use {before, without, secret_of, Cache, read_page, read_pending, save_page, save_pending}

  unfoldable pub conversation_id : String → String
  conversation_id id = without "-" (before "@" (before "/" id))

  unfoldable pub secret : String → String → String
  secret account conversation = secret_of (conversation_id account) (conversation_id conversation)

  abbrev pub same_message : MessageItemDto json → MessageItemDto json → Bool
  same_message left right =
      (not (is_empty left.body.message_id) && str_eq left.body.message_id right.body.message_id)
      || (not (is_empty left.id) && str_eq left.id right.id)

  abbrev pub no_page : ℤ → MessageDto json
  no_page page = record {
    messages = [];
    page = page;
    limit = pos 200;
    total = pos 0;
    total_pages = pos 0;
  }

  unfoldable pub page_or : ℤ → Option (MessageDto json) → MessageDto json
  page_or page none = no_page page
  page_or page (some d) = if int_eq d.page page then d else no_page page

  unfoldable pub decode_object : Option json.Object → Option (MessageDto json)
  decode_object none = none
  decode_object (some o) = dto_from_json json o

  unfoldable pub decode : Option String → Option (MessageDto json)
  decode none = none
  decode (some s) = decode_object (json.parse s)

  -- `readSnapshot` of a page and of the live messages.
  unfoldable pub read_snapshot : String → String → ℤ → Bool → Cache → MessageDto json × Cache
  read_snapshot account conversation page live c =
      let text =
        if live
        then read_pending (conversation_id conversation) (secret account conversation) c
        else read_page (conversation_id conversation) (secret account conversation) page c in
      (page_or page (decode text.0), text.1)

  unfoldable pub encode : MessageDto json → String
  encode d = json.print (dto_to_json json d)

  unfoldable pub write_snapshot : String → String → MessageDto json → Bool → Cache → Bool × Cache
  write_snapshot account conversation response live c =
      if is_empty (conversation_id account) || is_empty (conversation_id conversation)
      then (false, c)
      else if live
      then save_pending (encode response) (conversation_id conversation)
          (secret account conversation) c
      else save_page (encode response) (conversation_id conversation) (secret account conversation)
          response.page c

  unfoldable pub append_live : List (MessageItemDto json) → MessageDto json → MessageDto json
  append_live [] d = d
  append_live (m ∷ ms) d = append_live ms (
      if any_of (λ item. same_message item m) d.messages
      then d
      else record d { messages = d.messages ++ (m ∷ []); total = succ d.total })

  abbrev pub is_nil : List (MessageItemDto json) → Bool
  is_nil [] = true
  is_nil (m ∷ ms) = false

  abbrev pub at_least_one : ℤ → ℤ
  at_least_one n = if le (pos 1) n then n else pos 1

  unfoldable pub count_pages : MessageDto json → MessageDto json
  count_pages d =
      if is_nil d.messages then d else record d { total_pages = at_least_one d.total_pages }

  unfoldable pub read : String → String → ℤ → Cache → MessageDto json × Cache
  read account conversation page c =
      let result = read_snapshot account conversation page false c in
      if int_eq page (pos 1)
      then (let live = read_snapshot account conversation (pos 1) true result.1 in
          (count_pages (append_live live.0.messages result.0), live.1))
      else result

  -- `removeIf`: the messages that the response has.
  unfoldable pub remove_served :
      List (MessageItemDto json) → List (MessageItemDto json) → List (MessageItemDto json)
  remove_served served [] = []
  remove_served served (m ∷ ms) =
      let rest = remove_served served ms in
      if any_of (λ item. same_message item m) served then rest else m ∷ rest

  unfoldable pub save_response : String → String → MessageDto json → Cache → Bool × Cache
  save_response account conversation response c =
      let written = write_snapshot account conversation response false c in
      let live = read_snapshot account conversation (pos 1) true written.1 in
      let left = remove_served response.messages live.0.messages in
      if not written.0
      then written
      else if length left == length live.0.messages
      then (true, live.1)
      else write_snapshot account conversation (record live.0 { messages = left }) true live.1

  -- The message in the place of the first that is the same, or at the end.
  unfoldable pub put : MessageItemDto json → List (MessageItemDto json) → List (MessageItemDto json)
  put m [] = m ∷ []
  put m (x ∷ xs) = let rest = put m xs in if same_message x m then m ∷ xs else x ∷ rest

  unfoldable pub save_message : String → String → MessageItemDto json → Cache → Bool × Cache
  save_message account conversation m c =
      let live = read_snapshot account conversation (pos 1) true c in
      write_snapshot account conversation (record live.0 { messages = put m live.0.messages }) true
        live.1

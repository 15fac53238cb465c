-- ===== src/Chat/HistoryCache/Examples.antt =====
-- A conversation in which a message is saved and a page without it comes.
use chatdesktop.Prelude.{
  ◌≡◌, refl, pos, negsuc, String, true, false, Option, none, some, List, [], ◌∷◌, str_eq,
  if◌then◌else◌, ℕ, suc, ◌==◌, is_some,
}
use chatdesktop.Chat.Entity.{text}
use chatdesktop.Chat.Wire.{
  JsonApi, MessageItemDto, MessageDto, dto_to_json, dto_from_json, item_to_json, item_from_json,
  payload_to_json, payload_from_json, content_to_json, content_from_json, type_to_string,
  type_from_string, type_of_plain, from_json_string, payload_from_object, content_of_value,
  item_with_body, from_array,
}
use chatdesktop.Chat.Wire.SmallJson.{json_of, no_json, Members}
use chatdesktop.Chat.HistoryCache.{
  CacheApi, conversation_id, secret, read_snapshot, read, page_or, decode, decode_object, encode,
  write_snapshot, save_message, save_response, put, remove_served,
}
use chatdesktop.Storage.MessageCache
use chatdesktop.Storage.MessageCache.{StorageApi, Cache}
use chatdesktop.Chat.HistoryCache.Pending.{live_text, WorksAlong, Action, saves, serves, run, step}
use chatdesktop.Chat.HistoryCache.Refines.{ReadsBack, ReadsAlong}
use chatdesktop.Chat.HistoryCache.Unserved.{PageLeavesLive, shows, saved_message-shows}

abbrev hello : (json : JsonApi) → String → MessageItemDto json
hello json id = record {
  id = id;
  sender_id = "u1";
  recipient_id = "u2";
  body = record {
    message_id = id;
    sender_id = "u1";
    receiver_id = "u2";
    reply_message_id = "";
    timestamp = "";
    content = record {
      type = text;
      body_text = "hello";
      media_url = "";
      file_name = "";
      file_size = pos 0;
      duration = pos 0;
    };
    attachment_batch_id = "";
    attachment_index = negsuc 0;
  };
  sent_at = "";
}

abbrev page_of : (json : JsonApi) → List (MessageItemDto json) → MessageDto json
page_of json ms = record {
  messages = ms;
  page = pos 1;
  limit = pos 200;
  total = pos 0;
  total_pages = pos 0;
}

abbrev written : Members
written = dto_to_json no_json (page_of no_json (hello no_json "m1" ∷ []))

abbrev body_written : Members
body_written = payload_to_json no_json (hello no_json "m1").body

abbrev json : JsonApi
json = json_of (written ∷ (body_written ∷ []))

-- A file: its records by number, and its roots.
record File : Type 0 where
  count : ℕ
  texts : ℕ → String
  names : List (String × ℕ)

abbrev root_of : String → List (String × ℕ) → Option ℕ
root_of name [] = none
root_of name (x ∷ xs) = if str_eq x.0 name then some x.1 else root_of name xs

abbrev in_file : Option File → File
in_file none = record { count = 0; texts = λ i. ""; names = [] }
in_file (some f) = f

abbrev Files : Type 0
Files = String → Option File

-- A store knows its path and its roots.
abbrev Opened : Type 0
Opened = String × List (String × ℕ)

abbrev put_file : Files → String → File → Files
put_file d path f p = if str_eq path p then some f else d p

abbrev files : StorageApi
files = record {
  Disk = Files;
  Handle = Opened;
  exists = λ d p. is_some (d p);
  make_directory = λ d. (true, d);
  file_path = λ name key. name;
  page_root = λ p. "1";
  open_file = λ p d. (some (p, (in_file (d p)).names), put_file d p (in_file (d p)));
  root = λ h r. root_of r h.1;
  ids = λ h. [];
  set_root = λ r id s.
      let f = in_file (s.1 s.0.0) in
      let names = (r, id) ∷ f.names in
      (some true, ((s.0.0, names), put_file s.1 s.0.0 (record f { names = names })));
  insert = λ text s.
      let f = in_file (s.1 s.0.0) in
      (
        some f.count,
        (
          s.0,
          put_file s.1 s.0.0 (record f {
            count = suc f.count;
            texts = λ i. if i == f.count then text else f.texts i;
          }),
        ),
      );
  update = λ id text s.
      let f = in_file (s.1 s.0.0) in
      (
        some true,
        (s.0, put_file s.1 s.0.0 (record f { texts = λ i. if i == id then text else f.texts i })),
      );
  get = λ id s. (some (some ((in_file (s.1 s.0.0)).texts id)), s);
  remove = λ id s. (some false, s);
  sync = λ s. (some true, s);
}

-- `MessageCache` on these files.
abbrev api : CacheApi
api = record {
  before = λ c s. s;
  without = λ c s. s;
  secret_of = λ a b. b;
  Cache = Cache files;
  read_page = λ n k p c. MessageCache.read_page files n k p c;
  read_pending = λ n k c. MessageCache.read_pending files n k c;
  save_page = λ t n k p c. MessageCache.save_page files t n k p c;
  save_pending = λ t n k c. MessageCache.save_pending files t n k c;
}

abbrev no_cache : Cache files
no_cache = record { opened = []; disk = λ p. none }

abbrev m1 : MessageItemDto json
m1 = hello json "m1"

abbrev m2 : MessageItemDto json
m2 = hello json "m2"

abbrev history : List (Action json api)
history = saves m1 ∷ (serves (page_of json (m2 ∷ [])) ∷ [])

one-ReadsBack : ReadsBack json api "u1" "u2" (m1 ∷ [])
unfolding decode decode_object encode dto_to_json dto_from_json item_to_json item_from_json
    payload_to_json payload_from_json content_to_json content_from_json type_to_string
    type_from_string type_of_plain from_json_string payload_from_object content_of_value
    item_with_body from_array
one-ReadsBack = refl

along : ReadsAlong json api "u1" "u2" history []
unfolding put remove_served
along = (one-ReadsBack, (one-ReadsBack, tt))

works : WorksAlong json api "u1" "u2" history no_cache
unfolding run step save_message save_response read_snapshot write_snapshot page_or put remove_served
    conversation_id secret decode decode_object encode dto_to_json dto_from_json item_to_json
    item_from_json payload_to_json payload_from_json content_to_json content_from_json
    type_to_string type_from_string type_of_plain from_json_string payload_from_object
    content_of_value item_with_body from_array MessageCache.erase MessageCache.push_store
    MessageCache.opened_new MessageCache.open_found MessageCache.open_store MessageCache.finish
    MessageCache.with_opened MessageCache.with_store MessageCache.and_then MessageCache.synced
    MessageCache.save_root MessageCache.in_directory MessageCache.save_snapshot
    MessageCache.read_root MessageCache.read_snapshot MessageCache.read_page
    MessageCache.read_pending MessageCache.save_page MessageCache.save_pending
works = ((λ t h. refl), ((refl, refl, (λ t h. refl)), tt))

answered : (run json api "u1" "u2" history no_cache).0 ≡ true
unfolding run step save_message save_response read_snapshot write_snapshot page_or put remove_served
    conversation_id secret decode decode_object encode dto_to_json dto_from_json item_to_json
    item_from_json payload_to_json payload_from_json content_to_json content_from_json
    type_to_string type_from_string type_of_plain from_json_string payload_from_object
    content_of_value item_with_body from_array MessageCache.erase MessageCache.push_store
    MessageCache.opened_new MessageCache.open_found MessageCache.open_store MessageCache.finish
    MessageCache.with_opened MessageCache.with_store MessageCache.and_then MessageCache.synced
    MessageCache.save_root MessageCache.in_directory MessageCache.save_snapshot
    MessageCache.read_root MessageCache.read_snapshot MessageCache.read_page
    MessageCache.read_pending MessageCache.save_page MessageCache.save_pending
answered = refl

page_left : PageLeavesLive json api "u1" "u2" (run json api "u1" "u2" history no_cache).1
unfolding run step save_message save_response read_snapshot write_snapshot page_or put remove_served
    conversation_id secret decode decode_object encode dto_to_json dto_from_json item_to_json
    item_from_json payload_to_json payload_from_json content_to_json content_from_json
    type_to_string type_from_string type_of_plain from_json_string payload_from_object
    content_of_value item_with_body from_array MessageCache.erase MessageCache.push_store
    MessageCache.opened_new MessageCache.open_found MessageCache.open_store MessageCache.finish
    MessageCache.with_opened MessageCache.with_store MessageCache.and_then MessageCache.synced
    MessageCache.save_root MessageCache.in_directory MessageCache.save_snapshot
    MessageCache.read_root MessageCache.read_snapshot MessageCache.read_page
    MessageCache.read_pending MessageCache.save_page MessageCache.save_pending
page_left = refl

nothing_waits : (live_text json api "u1" "u2" no_cache).0 ≡ none
unfolding run step save_message save_response read_snapshot write_snapshot page_or put remove_served
    conversation_id secret decode decode_object encode dto_to_json dto_from_json item_to_json
    item_from_json payload_to_json payload_from_json content_to_json content_from_json
    type_to_string type_from_string type_of_plain from_json_string payload_from_object
    content_of_value item_with_body from_array MessageCache.erase MessageCache.push_store
    MessageCache.opened_new MessageCache.open_found MessageCache.open_store MessageCache.finish
    MessageCache.with_opened MessageCache.with_store MessageCache.and_then MessageCache.synced
    MessageCache.save_root MessageCache.in_directory MessageCache.save_snapshot
    MessageCache.read_root MessageCache.read_snapshot MessageCache.read_page
    MessageCache.read_pending MessageCache.save_page MessageCache.save_pending
nothing_waits = refl

saved_message-shows_example :
    shows json api
      (read json api "u1" "u2" (pos 1) (run json api "u1" "u2" history no_cache).1).0.messages
      m1
    ≡ true
saved_message-shows_example =
    saved_message-shows json api "u1" "u2" m1 [] (serves (page_of json (m2 ∷ [])) ∷ []) no_cache
      works page_left along nothing_waits answered refl (refl, tt)

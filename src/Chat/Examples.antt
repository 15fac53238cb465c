-- ===== src/Chat/Examples.antt =====
-- The theorems on the message list and on sending at concrete messages and files.
use chatdesktop.Prelude.{
  ℕ, suc, ◌≡◌, ◌≢◌, refl, pos, String, true, false, not, none, List, [], ◌∷◌, map, get_elem?,
  any_of, is_empty, arith,
}
use mathlib.Core.Option.{map as map_option}
use chatdesktop.Chat.Entity.{MessageItem, MessageResponse, no_payload}
use chatdesktop.Chat.MessageList.{Dates, MessagingVm, apply_fetched_messages, next_request}
use chatdesktop.Chat.MessageList.Operations.{
  fetches, deletes, asks_older, resets, run_actions, on_fetch_result, apply_next_page,
  fetch_message, reset_model,
}
use chatdesktop.Chat.MessageList.Laws.{Shown, rows_after}
use chatdesktop.Chat.MessageList.History.{run_actions-Shown, stale_ignored}
use chatdesktop.Chat.MessageList.Refresh.{served, apply_fetched-served}
use chatdesktop.Chat.SendMessage.{
  attachment_payload, AttachmentItem, Env, Ending, canceled, result, thrown, Call, pending,
  send_attachments, start_uploads, settle_all, new_batch, token_canceled, usable,
}
use chatdesktop.Chat.SendMessage.Laws.{
  settle_all_once, settle_all_pending, send_attachments-pending, call_for, last_error, succeeded,
}

abbrev dates : Dates
dates = record { display_date = λ t. t; section_for = λ t. "Today" }

abbrev message : String → MessageItem
message name = record {
  id = name;
  sender_id = "a";
  recipient_id = "b";
  body = record no_payload { timestamp = name };
  sent_at = "";
  is_mine = false;
  sending = false;
  send_success = true;
}

abbrev page : List MessageItem → MessageResponse
page ms = record { messages = ms; page = pos 1; limit = pos 20; total = pos 2; total_pages = pos 1 }

abbrev vm : MessagingVm
vm = record {
  messages = [];
  page = pos 0;
  limit = pos 0;
  total = pos 0;
  total_pages = pos 0;
  display_dates = [];
  sections = [];
  active_conversation = "c";
  displayed_conversation = "c";
  fetch_request_id = 1;
  loading = false;
  image_urls = [];
  log = [];
}

abbrev vm2 : MessagingVm
vm2 = record vm {
  messages = message "1" ∷ message "2" ∷ [];
  display_dates = "1" ∷ "2" ∷ [];
  sections = "Today" ∷ "Today" ∷ [];
}

vm-Shown : Shown dates vm
unfolding rows_after
vm-Shown = (refl, (refl, refl))

run_actions-Shown_example :
    Shown dates
      (run_actions dates vm (fetches "d" ∷ deletes (pos 0 ∷ []) ∷ asks_older ∷ resets ∷ []))
run_actions-Shown_example =
    run_actions-Shown dates vm (fetches "d" ∷ deletes (pos 0 ∷ []) ∷ asks_older ∷ resets ∷ [])
      vm-Shown

stale_ignored_example :
    let fetched = fetch_message dates "d" vm2 in
    let reset = reset_model dates vm2 in
    ((on_fetch_result dates (page []) 1 fetched ≡ fetched)
      × (apply_next_page dates (page []) 1 fetched ≡ fetched))
    × ((on_fetch_result dates (page []) 1 reset ≡ reset)
        × (apply_next_page dates (page []) 1 reset ≡ reset))
stale_ignored_example = stale_ignored dates vm2 "d" (page []) 1 one_is_not_two
  where
    one_is_not_two : 1 ≢ next_request vm2
    one_is_not_two = omega arith

apply_fetched-served_example :
    map served (apply_fetched_messages dates (page (message "2" ∷ message "3" ∷ [])) 1 vm2).messages
    ≡ map served (message "2" ∷ message "3" ∷ [])
apply_fetched-served_example =
    apply_fetched-served dates (page (message "2" ∷ message "3" ∷ [])) vm2

abbrev endings : List (String × Ending)
endings = ("x", result "") ∷ ("y", thrown) ∷ ("z", canceled) ∷ []

settle_all_once_example :
    let done = settle_all endings (new_batch 3) in
    (done.results ≡ last_error "" endings ∷ [])
    × ((done.is_finished ≡ true) × (done.settled ≡ map (λ p. (p.0, succeeded p.1)) endings))
settle_all_once_example = settle_all_once endings (omega arith)

settle_all_pending_example :
    ((settle_all endings (new_batch 4)).results ≡ [])
    × ((settle_all endings (new_batch 4)).is_finished ≡ false)
settle_all_pending_example = settle_all_pending endings 4 (omega arith)

abbrev env : Env
env = record {
  is_local_file = λ u. true;
  to_local_file = λ u. u;
  fully_encoded = λ u. u;
  is_file = λ p. true;
  is_readable = λ p. true;
  size = λ p. pos 10;
  file_name = λ p. p;
  uuid = λ n. "id";
  now = "0";
  current_user_id = "me";
}

abbrev attachments : List AttachmentItem
attachments =
    record { id = "1"; url = "/a"; compress = true }
    ∷ record { id = "2"; url = "/b"; compress = false }
    ∷ []

abbrev calls : List Call
calls =
    call_for env "you" "hi" none "id" 0 1 (record { id = "1"; url = "/a"; compress = true })
    ∷ call_for env "you" "hi" none "id" 1 2 (record { id = "2"; url = "/b"; compress = false })
    ∷ []

sends : send_attachments env "you" attachments "hi" none none ≡ pending calls
unfolding send_attachments token_canceled usable start_uploads attachment_payload
sends = refl

send_attachments-pending_example :
    (is_empty "you" ≡ false)
    × ((token_canceled env none ≡ false)
        × ((any_of (λ a. not (usable env a)) attachments ≡ false)
            × ((i : ℕ)
                → get_elem? calls i
                  ≡ map_option
                      (call_for env "you" "hi" none (env.uuid 0) i (suc i))
                      (get_elem? attachments i))))
send_attachments-pending_example =
    send_attachments-pending env "you" attachments "hi" none none sends

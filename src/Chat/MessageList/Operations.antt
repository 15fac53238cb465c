-- ===== src/Chat/MessageList/Operations.antt =====
-- The other operations of the list model in
-- src/features/chat/presentation/viewmodel/messaging_vm.cpp, and what the event loop may run.
use chatdesktop.Prelude.{
  ℕ, suc, ◌-◌, ℤ, pos, negsuc, succ, lt, le, String, Bool, true, false, not, ◌&&◌, ◌||◌, Option,
  none, some, List, [], ◌∷◌, ◌++◌, map, length, get_elem?, str_eq, is_empty, ltb, ◌==◌,
  if◌then◌else◌,
}
use chatdesktop.Chat.Entity.{MessageItem, MessageResponse}
use chatdesktop.Chat.MessageList.{
  rows_inserted, rows_removed, data_changed, model_reset, message_changed, image_urls_changed,
  older_messages_loaded, Dates, MessagingVm, emit, set_is_loading, remove_at, set_at, next_request,
  date_of, section_of, set_page, apply_fetched_messages,
}

-- What the event loop may run, in any order.
pub data Action : Type 0 where
  fetches : String → Action
  answered finished_next : MessageResponse → ℕ → Action
  finished : ℕ → Action
  asks_older : Action
  inserts : MessageItem → Action
  deletes : List ℤ → Action
  marks : String → Bool → Action
  resets : Action

module _ (dates : Dates) where
  -- `fetchNextMessage` up to the request: the page asked for, if one is.
  unfoldable pub fetch_next_message : MessagingVm → Option ℤ × MessagingVm
  fetch_next_message vm =
      if vm.loading
      then (none, vm)
      else if is_empty vm.active_conversation || (lt vm.page (pos 1) || le vm.total_pages vm.page)
      then (none, emit vm (older_messages_loaded 0))
      else (some (succ vm.page), set_is_loading vm true)

  -- Its continuation: the older page before the rows, when it has any.
  unfoldable pub prepend_page : MessageResponse → MessagingVm → MessagingVm
  prepend_page r vm =
      if length r.messages == 0
      then vm
      else emit
          (record vm {
            messages = r.messages ++ vm.messages;
            display_dates = map (date_of dates) r.messages ++ vm.display_dates;
            sections = map (section_of dates) r.messages ++ vm.sections;
          })
          (rows_inserted 0 (length r.messages - 1))

  unfoldable pub apply_next_page : MessageResponse → ℕ → MessagingVm → MessagingVm
  apply_next_page r request_id vm =
      if not (request_id == vm.fetch_request_id)
      then vm
      else if lt r.page (pos 1)
      then emit (set_is_loading vm false) (older_messages_loaded 0)
      else emit (set_is_loading (set_page dates (prepend_page r vm) r) false)
          (older_messages_loaded (length r.messages))

  unfoldable pub insert_message : MessageItem → MessagingVm → MessagingVm
  insert_message m vm =
      let row = length vm.messages in
      emit
        (emit
          (record vm {
            messages = vm.messages ++ (m ∷ []);
            display_dates = vm.display_dates ++ (date_of dates m ∷ []);
            sections = vm.sections ++ (section_of dates m ∷ []);
          })
          (rows_inserted row row))
        message_changed

  abbrev pub remove_row : ℕ → MessagingVm → MessagingVm
  remove_row row vm =
      emit
        (record vm {
          messages = remove_at row vm.messages;
          display_dates = remove_at row vm.display_dates;
          sections = remove_at row vm.sections;
        })
        (rows_removed row row)

  -- The loop over the sorted rows.
  unfoldable pub delete_rows : List ℤ → MessagingVm → MessagingVm
  delete_rows [] vm = vm
  delete_rows (negsuc n ∷ rows) vm = delete_rows rows vm
  delete_rows (pos row ∷ rows) vm =
      delete_rows rows (if ltb row (length vm.messages) then remove_row row vm else vm)

  -- `std::sort` with `std::greater`, and `std::unique` with `erase`.
  unfoldable pub insert_greater : ℤ → List ℤ → List ℤ
  insert_greater x [] = x ∷ []
  insert_greater x (y ∷ ys) =
      let rest = insert_greater x ys in if lt x y then y ∷ rest else x ∷ y ∷ ys

  unfoldable pub sort_greater : List ℤ → List ℤ
  sort_greater [] = []
  sort_greater (x ∷ xs) = insert_greater x (sort_greater xs)

  unfoldable pub unique_from : ℤ → List ℤ → List ℤ
  unique_from x [] = []
  unique_from x (y ∷ ys) =
      let rest = unique_from y ys in if not (lt x y) && not (lt y x) then rest else y ∷ rest

  unfoldable pub unique : List ℤ → List ℤ
  unique [] = []
  unique (x ∷ xs) = x ∷ unique_from x xs

  unfoldable pub delete_message : List ℤ → MessagingVm → MessagingVm
  delete_message rows vm = delete_rows (unique (sort_greater rows)) vm

  abbrev pub set_sending : Bool → Option MessageItem → ℕ → MessagingVm → MessagingVm
  set_sending sending none row vm = vm
  set_sending sending (some m) row vm =
      emit (record vm { messages = set_at row (record m { sending = sending }) vm.messages })
        (data_changed row)

  -- The row of the first message with this wire id, from the start of the list.
  abbrev pub find_wire : String → List MessageItem → ℕ
  find_wire id [] = 0
  find_wire id (m ∷ ms) =
      let rest = find_wire id ms in if str_eq m.body.message_id id then 0 else suc rest

  unfoldable pub update_message_sending_status : String → Bool → MessagingVm → MessagingVm
  update_message_sending_status id sending vm =
      let row = find_wire id vm.messages in set_sending sending (get_elem? vm.messages row) row vm

  -- What `resetModel` does to these members; first, the rows between begin and end.
  unfoldable pub clear_rows : MessagingVm → MessagingVm
  clear_rows vm =
      emit
        (record vm {
          messages = [];
          page = pos 0;
          limit = pos 0;
          total = pos 0;
          total_pages = pos 0;
          display_dates = [];
          sections = [];
        })
        (model_reset 0)

  abbrev pub forget_conversation : MessagingVm → MessagingVm
  forget_conversation vm = record vm {
    fetch_request_id = next_request vm;
    active_conversation = "";
    displayed_conversation = "";
  }

  unfoldable pub reset_model : MessagingVm → MessagingVm
  reset_model vm =
      let closed =
        set_is_loading (clear_rows (set_is_loading (forget_conversation vm) true)) false in
      emit (emit (record closed { image_urls = [] }) image_urls_changed) (older_messages_loaded 0)

  -- What `fetchMessage` does to them before the answer; the id is the one already normalised.
  unfoldable pub fetch_message : String → MessagingVm → MessagingVm
  fetch_message conversation_id vm =
      set_is_loading
        (record vm { fetch_request_id = next_request vm; active_conversation = conversation_id })
        true

  -- Its `resultReadyAt` and `finished` slots.
  unfoldable pub on_fetch_result : MessageResponse → ℕ → MessagingVm → MessagingVm
  on_fetch_result r request_id vm =
      if not (request_id == vm.fetch_request_id)
      then vm
      else apply_fetched_messages dates r request_id (set_is_loading vm false)

  unfoldable pub on_fetch_finished : ℕ → MessagingVm → MessagingVm
  on_fetch_finished request_id vm =
      if request_id == vm.fetch_request_id then set_is_loading vm false else vm

  unfoldable pub act : MessagingVm → Action → MessagingVm
  act vm (fetches id) = fetch_message id vm
  act vm (answered r n) = on_fetch_result r n vm
  act vm (finished_next r n) = apply_next_page r n vm
  act vm (finished n) = on_fetch_finished n vm
  act vm asks_older = (fetch_next_message vm).1
  act vm (inserts m) = insert_message m vm
  act vm (deletes rows) = delete_message rows vm
  act vm (marks id sending) = update_message_sending_status id sending vm
  act vm resets = reset_model vm

  unfoldable pub run_actions : MessagingVm → List Action → MessagingVm
  run_actions vm [] = vm
  run_actions vm (a ∷ rest) = run_actions (act vm a) rest

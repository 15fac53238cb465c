-- ===== src/Chat/MessageList/History.antt =====
-- What holds of the list after whatever the event loop has run, and which answers it ignores.
use chatdesktop.Prelude.{
  String, ℕ, ◌≡◌, refl, sym, ◌∙◌, inl, inr, ◌≢◌, lt, le, pos, Bool, true, false, ◌||◌, Option, none,
  some, List, [], ◌∷◌, get_elem?, arith, Bool-cases, is_empty, ◌==◌,
}
use chatdesktop.Chat.Entity.{MessageItem, MessageResponse}
use chatdesktop.Chat.MessageList.{
  data_changed, model_reset, image_urls_changed, older_messages_loaded, Dates, MessagingVm, emit,
  set_is_loading, date_of, section_of, set_at, next_request,
}
use chatdesktop.Chat.MessageList.Operations.{
  fetch_next_message, apply_next_page, delete_message, unique, sort_greater,
  update_message_sending_status, reset_model, clear_rows, forget_conversation, fetch_message,
  on_fetch_result, on_fetch_finished, Action, fetches, answered, finished_next, finished,
  asks_older, inserts, deletes, marks, resets, act, run_actions, set_sending, find_wire,
}
use chatdesktop.Chat.MessageList.Rows.{set_at-map, length-set_at}
use chatdesktop.Chat.MessageList.Laws.{
  rows_step, rows_after-snoc, Shown, quiet, loud, set_is_loading-Shown, insert_message-Shown,
  delete_rows-Shown, apply_next_page-Shown, apply_fetched-Shown,
}

module _ (dates : Dates) where
  set_sending-Shown :
      (sending : Bool) (row : ℕ) (vm : MessagingVm) (o : Option MessageItem)
      → get_elem? vm.messages row ≡ o
      → Shown dates vm
      → Shown dates (set_sending dates sending o row vm)
  unfolding rows_step
  set_sending-Shown sending row vm none e v = v
  set_sending-Shown sending row vm (some m) e (d, (c, r)) =
      let new = record m { sending = sending } in
      (
        d ∙ sym (set_at-map (date_of dates) row m new vm.messages e refl),
        (
          c ∙ sym (set_at-map (section_of dates) row m new vm.messages e refl),
          loud dates (record vm { messages = set_at row new vm.messages }) (data_changed row) _ r
              (sym (length-set_at row new vm.messages)),
        ),
      )

  fetch_next-Shown :
      (vm : MessagingVm) → Shown dates vm → Shown dates (fetch_next_message dates vm).1
  unfolding fetch_next_message rows_step
  fetch_next-Shown vm v = elim (Bool-cases vm.loading) [
    | inl e ↦ simp e v
    | inr e ↦
        elim (Bool-cases
          (is_empty vm.active_conversation || (lt vm.page (pos 1) || le vm.total_pages vm.page))) [
            | inl e1 ↦ simp (e, e1) (quiet dates vm (older_messages_loaded 0) (λ n. refl) v)
            | inr e1 ↦ simp (e, e1) (set_is_loading-Shown dates vm true v)
          ]
  ]

  clear_rows-Shown : (vm : MessagingVm) → Shown dates (clear_rows dates vm)
  unfolding clear_rows rows_step
  clear_rows-Shown vm = (refl, (refl, rows_after-snoc 0 vm.log (model_reset 0)))

  reset_model-Shown : (vm : MessagingVm) → Shown dates vm → Shown dates (reset_model dates vm)
  unfolding reset_model rows_step
  reset_model-Shown vm v =
      let opened = set_is_loading (forget_conversation dates vm) true in
      let closed = set_is_loading (clear_rows dates opened) false in
      let blank = record closed { image_urls = [] } in
      quiet dates (emit blank image_urls_changed) (older_messages_loaded 0) (λ n. refl)
        (quiet dates blank image_urls_changed (λ n. refl)
          (set_is_loading-Shown dates (clear_rows dates opened) false (clear_rows-Shown opened)))

  on_fetch_result-Shown :
      (r : MessageResponse) (n : ℕ) (vm : MessagingVm)
      → Shown dates vm
      → Shown dates (on_fetch_result dates r n vm)
  unfolding on_fetch_result
  on_fetch_result-Shown r n vm v = elim (Bool-cases (n == vm.fetch_request_id)) [
    | inl e ↦ simp e (
        apply_fetched-Shown dates r n (set_is_loading vm false)
          (set_is_loading-Shown dates vm false v))
    | inr e ↦ simp e v
  ]

  on_fetch_finished-Shown :
      (n : ℕ) (vm : MessagingVm) → Shown dates vm → Shown dates (on_fetch_finished dates n vm)
  unfolding on_fetch_finished
  on_fetch_finished-Shown n vm v = elim (Bool-cases (n == vm.fetch_request_id)) [
    | inl e ↦ simp e (set_is_loading-Shown dates vm false v)
    | inr e ↦ simp e v
  ]

  act-Shown : (vm : MessagingVm) (a : Action) → Shown dates vm → Shown dates (act dates vm a)
  unfolding act fetch_message delete_message update_message_sending_status
  act-Shown vm (fetches id) v = set_is_loading-Shown dates _ true v
  act-Shown vm (answered r n) v = on_fetch_result-Shown r n vm v
  act-Shown vm (finished_next r n) v = apply_next_page-Shown dates r n vm v
  act-Shown vm (finished n) v = on_fetch_finished-Shown n vm v
  act-Shown vm asks_older v = fetch_next-Shown vm v
  act-Shown vm (inserts m) v = insert_message-Shown dates m vm v
  act-Shown vm (deletes rows) v =
      delete_rows-Shown dates (unique dates (sort_greater dates rows)) vm v
  act-Shown vm (marks id sending) v =
      set_sending-Shown sending (find_wire dates id vm.messages) vm _ refl v
  act-Shown vm resets v = reset_model-Shown vm v

  -- From a list whose rows show their messages' dates and sections, and whose views know its number
  -- of rows, any sequence of actions of the event loop leads to such a list again.
  pub run_actions-Shown :
      (vm : MessagingVm) (actions : List Action)
      → Shown dates vm
      → Shown dates (run_actions dates vm actions)
  unfolding run_actions
  run_actions-Shown vm [] v = v
  run_actions-Shown vm (a ∷ rest) v = run_actions-Shown (act dates vm a) rest (act-Shown vm a v)

  set_is_loading-request :
      (vm : MessagingVm) (b : Bool) → (set_is_loading vm b).fetch_request_id ≡ vm.fetch_request_id
  unfolding set_is_loading
  set_is_loading-request vm true = ground arith
  set_is_loading-request vm false = ground arith

  fetch-request :
      (vm : MessagingVm) (id : String)
      → (fetch_message dates id vm).fetch_request_id ≡ next_request vm
  unfolding fetch_message
  fetch-request vm id = set_is_loading-request _ true

  reset-request : (vm : MessagingVm) → (reset_model dates vm).fetch_request_id ≡ next_request vm
  unfolding reset_model clear_rows
  reset-request vm = set_is_loading-request _ false ∙ set_is_loading-request _ true

  ignored :
      (vm : MessagingVm) (r : MessageResponse) (n k : ℕ)
      → vm.fetch_request_id ≡ k
      → n ≢ k
      → (on_fetch_result dates r n vm ≡ vm) × (apply_next_page dates r n vm ≡ vm)
  unfolding on_fetch_result apply_next_page
  ignored vm r n k e h =
      let b : (n == vm.fetch_request_id) ≡ false = ground arith in (simp b refl, simp b refl)

  -- After a fetch or a reset, the answer to an earlier request and an older page that was asked for
  -- before leave the view model as it is.
  pub stale_ignored :
      (vm : MessagingVm) (id : String) (r : MessageResponse) (n : ℕ)
      → n ≢ next_request vm
      → let fetched = fetch_message dates id vm in
        let reset = reset_model dates vm in
        ((on_fetch_result dates r n fetched ≡ fetched)
          × (apply_next_page dates r n fetched ≡ fetched))
        × ((on_fetch_result dates r n reset ≡ reset) × (apply_next_page dates r n reset ≡ reset))
  stale_ignored vm id r n h = (
    ignored (fetch_message dates id vm) r n _ (fetch-request vm id) h,
    ignored (reset_model dates vm) r n _ (reset-request vm) h,
  )

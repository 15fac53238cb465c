-- ===== src/Chat/MessageList/Laws.antt =====
-- After any sequence of what the event loop runs, each row shows the date and the section of its
-- message, and the row signals sent so far account for the number of rows.
use chatdesktop.Prelude.{
  lt, ◌&&◌, str_eq, is_empty, ℕ, suc, ◌+◌, ◌-◌, ◌≡◌, refl, sym, ap, ◌∙◌, inl, inr, ℤ, pos, negsuc,
  Bool, true, false, not, Option, none, some, List, [], ◌∷◌, ◌++◌, map, length, length-append,
  length-take, take, drop, get_elem?, arith, Bool-cases, ltb, ◌==◌,
}
use chatdesktop.Chat.Entity.{MessageItem, MessageResponse}
use chatdesktop.Chat.MessageList.{
  Signal, rows_inserted, rows_removed, row_moved, data_changed, model_reset, message_changed,
  initial_messages_loaded, is_loading_changed, image_urls_changed, older_messages_loaded, Dates,
  MessagingVm, emit, set_is_loading, find_row, carry_path, carry_found, date_of, section_of,
  insert_row, move_row, refill_row, show_page, set_page, place, reconcile, truncate,
  apply_fetched_messages, insert_at, remove_at, set_at, move,
}
use chatdesktop.Chat.MessageList.Operations.{
  prepend_page, apply_next_page, insert_message, delete_rows,
}
use chatdesktop.Chat.MessageList.Rows.{
  map-insert_at, map-remove_at, map-set_at, map-take, map_append, map-move, length-insert_at,
  length-set_at, length-remove_at, length-move,
}

-- The number of rows that a view has after a signal.
unfoldable pub rows_step : ℕ → Signal → ℕ
rows_step n (rows_inserted first last) = n + (last + 1 - first)
rows_step n (rows_removed first last) = n - (last + 1 - first)
rows_step n (row_moved from to) = n
rows_step n (data_changed row) = n
rows_step n (model_reset rows) = rows
rows_step n message_changed = n
rows_step n initial_messages_loaded = n
rows_step n is_loading_changed = n
rows_step n image_urls_changed = n
rows_step n (older_messages_loaded count) = n

unfoldable pub rows_after : ℕ → List Signal → ℕ
rows_after n [] = n
rows_after n (s ∷ ss) = rows_after (rows_step n s) ss

pub rows_after-snoc :
    (n : ℕ) (ss : List Signal) (s : Signal)
    → rows_after n (ss ++ (s ∷ [])) ≡ rows_step (rows_after n ss) s
unfolding rows_after
rows_after-snoc n [] s = refl
rows_after-snoc n (t ∷ ss) s = rows_after-snoc (rows_step n t) ss s

module _ (dates : Dates) where
  -- What the views of the list see: the dates, the sections and the number of rows.
  abbrev pub Shown : MessagingVm → Type 0
  Shown vm =
      (vm.display_dates ≡ map (date_of dates) vm.messages)
      × ((vm.sections ≡ map (section_of dates) vm.messages)
          × (rows_after 0 vm.log ≡ length vm.messages))

  -- A signal that says nothing of the row count.
  pub quiet :
      (vm : MessagingVm) (s : Signal) → ((n : ℕ) → rows_step n s ≡ n) → Shown vm → Shown (emit vm s)
  quiet vm s h (d, (c, r)) = (d, (c, rows_after-snoc 0 vm.log s ∙ (h (rows_after 0 vm.log) ∙ r)))

  -- A signal for a change of the rows.
  pub loud :
      (vm : MessagingVm) (s : Signal) (n : ℕ)
      → rows_after 0 vm.log ≡ n
      → rows_step n s ≡ length vm.messages
      → rows_after 0 (vm.log ++ (s ∷ [])) ≡ length vm.messages
  loud vm s n e h = rows_after-snoc 0 vm.log s ∙ (ap (λ k. rows_step k s) e ∙ h)

  pub set_is_loading-Shown : (vm : MessagingVm) (b : Bool) → Shown vm → Shown (set_is_loading vm b)
  unfolding set_is_loading rows_step
  set_is_loading-Shown vm true v = elim (Bool-cases vm.loading) [
    | inl e ↦ simp e v
    | inr e ↦ simp e (quiet (record vm { loading = true }) is_loading_changed (λ n. refl) v)
  ]
  set_is_loading-Shown vm false v = elim (Bool-cases vm.loading) [
    | inl e ↦ simp e (quiet (record vm { loading = false }) is_loading_changed (λ n. refl) v)
    | inr e ↦ simp e v
  ]

  carry-date :
      (previous incoming : MessageItem)
      → date_of dates (carry_path previous incoming) ≡ date_of dates incoming
  unfolding carry_path
  carry-date previous incoming = ground arith

  carry-section :
      (previous incoming : MessageItem)
      → section_of dates (carry_path previous incoming) ≡ section_of dates incoming
  unfolding carry_path
  carry-section previous incoming = ground arith

  carry_found-dates :
      (o : Option MessageItem) (m : MessageItem)
      → (date_of dates (carry_found o m) ≡ date_of dates m)
        × (section_of dates (carry_found o m) ≡ section_of dates m)
  carry_found-dates none m = (refl, refl)
  carry_found-dates (some p) m = (carry-date p m, carry-section p m)

  insert_row-Shown :
      (row : ℕ) (m : MessageItem) (vm : MessagingVm) → Shown vm → Shown (insert_row dates row m vm)
  unfolding insert_row rows_step
  insert_row-Shown row m vm (d, (c, r)) = (
    ap (insert_at row (date_of dates m)) d ∙ sym (map-insert_at (date_of dates) row m vm.messages),
    (
      ap (insert_at row (section_of dates m)) c
          ∙ sym (map-insert_at (section_of dates) row m vm.messages),
      loud (record vm { messages = insert_at row m vm.messages }) (rows_inserted row row) _ r
          (omega (arith, length-insert_at row m vm.messages)),
    ),
  )

  move_row-Shown : (i j : ℕ) (vm : MessagingVm) → Shown vm → Shown (move_row dates i j vm)
  unfolding move_row rows_step
  move_row-Shown i j vm (d, (c, r)) = (
    ap (move i j) d ∙ sym (map-move (date_of dates) i j vm.messages),
    (
      ap (move i j) c ∙ sym (map-move (section_of dates) i j vm.messages),
      loud (record vm { messages = move i j vm.messages }) (row_moved i j) _ r
          (sym (length-move i j vm.messages)),
    ),
  )

  refill_row-Shown :
      (row : ℕ) (m : MessageItem) (vm : MessagingVm) → Shown vm → Shown (refill_row dates row m vm)
  unfolding refill_row rows_step
  refill_row-Shown row m vm (d, (c, r)) =
      let new = carry_found (get_elem? vm.messages row) m in
      let same = carry_found-dates (get_elem? vm.messages row) m in
      (
        ap (set_at row (date_of dates m)) d
            ∙ (ap (λ x. set_at row x (map (date_of dates) vm.messages)) (sym same.0)
                ∙ sym (map-set_at (date_of dates) row new vm.messages)),
        (
          ap (set_at row (section_of dates m)) c
              ∙ (ap (λ x. set_at row x (map (section_of dates) vm.messages)) (sym same.1)
                  ∙ sym (map-set_at (section_of dates) row new vm.messages)),
          loud (record vm { messages = set_at row new vm.messages }) (data_changed row) _ r
              (sym (length-set_at row new vm.messages)),
        ),
      )

  place-Shown :
      (existing row : ℕ) (m : MessageItem) (vm : MessagingVm)
      → Shown vm
      → Shown (place dates existing row m vm)
  unfolding place
  place-Shown existing row m vm v = elim (Bool-cases (existing == length vm.messages)) [
    | inl e ↦ simp e (insert_row-Shown row m vm v)
    | inr e ↦ elim (Bool-cases (existing == row)) [
      | inl e1 ↦ simp (e, e1) (refill_row-Shown row m vm v)
      | inr e1 ↦
          simp (e, e1)
            (refill_row-Shown row m (move_row dates existing row vm)
              (move_row-Shown existing row vm v))
    ]
  ]

  reconcile-Shown :
      (row : ℕ) (ms : List MessageItem) (vm : MessagingVm)
      → Shown vm
      → Shown (reconcile dates row ms vm)
  unfolding reconcile
  reconcile-Shown row [] vm v = v
  reconcile-Shown row (m ∷ ms) vm v =
      reconcile-Shown (suc row) ms _
        (place-Shown (row + find_row m.id (drop row vm.messages)) row m vm v)

  truncate-Shown : (n : ℕ) (vm : MessagingVm) → Shown vm → Shown (truncate dates n vm)
  unfolding truncate rows_step
  truncate-Shown n vm (d, (c, r)) = elim (Bool-cases (ltb n (length vm.messages))) [
    | inl e ↦ simp e (
      (ap (take n) d ∙ sym (map-take (date_of dates) n vm.messages)),
      (
        (ap (take n) c ∙ sym (map-take (section_of dates) n vm.messages)),
        loud (record vm { messages = take n vm.messages }) _ _ r
            (ground (arith, length-take n vm.messages)),
      ),
    )
    | inr e ↦ simp e (d, (c, r))
  ]

  pub insert_message-Shown :
      (m : MessageItem) (vm : MessagingVm) → Shown vm → Shown (insert_message dates m vm)
  unfolding insert_message rows_step
  insert_message-Shown m vm (d, (c, r)) =
      let vm1 = record vm {
        messages = vm.messages ++ (m ∷ []);
        display_dates = vm.display_dates ++ (date_of dates m ∷ []);
        sections = vm.sections ++ (section_of dates m ∷ []);
        log = vm.log ++ (rows_inserted (length vm.messages) (length vm.messages) ∷ []);
      } in
      quiet vm1 message_changed (λ n. refl)
        (
          (ap (λ l. l ++ (date_of dates m ∷ [])) d
              ∙ sym (map_append (date_of dates) vm.messages (m ∷ []))),
          (
            (ap (λ l. l ++ (section_of dates m ∷ [])) c
                ∙ sym (map_append (section_of dates) vm.messages (m ∷ []))),
            loud (record vm { messages = vm.messages ++ (m ∷ []) }) _ _ r
                (omega (arith, length-append vm.messages (m ∷ []))),
          ),
        )

  pub delete_rows-Shown :
      (rows : List ℤ) (vm : MessagingVm) → Shown vm → Shown (delete_rows dates rows vm)
  unfolding delete_rows rows_step
  delete_rows-Shown [] vm v = v
  delete_rows-Shown (negsuc n ∷ rows) vm v = delete_rows-Shown rows vm v
  delete_rows-Shown (pos row ∷ rows) vm (d, (c, r)) =
      elim (Bool-cases (ltb row (length vm.messages))) [
        | inl e ↦ simp e (
            delete_rows-Shown rows _ (
              (ap (remove_at row) d ∙ sym (map-remove_at (date_of dates) row vm.messages)),
              (
                (ap (remove_at row) c ∙ sym (map-remove_at (section_of dates) row vm.messages)),
                loud (record vm { messages = remove_at row vm.messages }) _ _ r
                    (let h = length-remove_at row vm.messages (ground arith) in ground (arith, h)),
              ),
            ))
        | inr e ↦ simp e (delete_rows-Shown rows vm (d, (c, r)))
      ]

  prepend_page-Shown :
      (r : MessageResponse) (vm : MessagingVm) → Shown vm → Shown (prepend_page dates r vm)
  unfolding prepend_page rows_step
  prepend_page-Shown r vm (d, (c, n)) = elim (Bool-cases (length r.messages == 0)) [
    | inl e ↦ simp e (d, (c, n))
    | inr e ↦ simp e (
      ap (◌++◌ (map (date_of dates) r.messages)) d
          ∙ sym (map_append (date_of dates) r.messages vm.messages),
      (
        ap (◌++◌ (map (section_of dates) r.messages)) c
            ∙ sym (map_append (section_of dates) r.messages vm.messages),
        loud (record vm { messages = r.messages ++ vm.messages })
            (rows_inserted 0 (length r.messages - 1)) _ n
            (let h = length-append r.messages vm.messages in ground (arith, h)),
      ),
    )
  ]

  pub apply_next_page-Shown :
      (r : MessageResponse) (n : ℕ) (vm : MessagingVm)
      → Shown vm
      → Shown (apply_next_page dates r n vm)
  unfolding apply_next_page rows_step
  apply_next_page-Shown r n vm v = elim (Bool-cases (n == vm.fetch_request_id)) [
    | inr e ↦ simp e v
    | inl e ↦ elim (Bool-cases (lt r.page (pos 1))) [
      | inl e1 ↦
          simp (e, e1)
            (quiet (set_is_loading vm false) (older_messages_loaded 0) (λ n. refl)
              (set_is_loading-Shown vm false v))
      | inr e1 ↦
          simp (e, e1)
            (let vm1 = set_page dates (prepend_page dates r vm) r in
              quiet (set_is_loading vm1 false) (older_messages_loaded (length r.messages))
                (λ n. refl) (set_is_loading-Shown vm1 false (prepend_page-Shown r vm v)))
    ]
  ]

  show_page-Shown : (r : MessageResponse) (vm : MessagingVm) → Shown (show_page dates r vm)
  unfolding show_page rows_step
  show_page-Shown r vm = (refl, (refl, rows_after-snoc 0 vm.log (model_reset (length r.messages))))

  pub apply_fetched-Shown :
      (r : MessageResponse) (n : ℕ) (vm : MessagingVm)
      → Shown vm
      → Shown (apply_fetched_messages dates r n vm)
  unfolding apply_fetched_messages rows_step
  apply_fetched-Shown r n vm v = elim (Bool-cases (n == vm.fetch_request_id)) [
    | inr e ↦ simp e v
    | inl e ↦
        elim (Bool-cases (
          str_eq vm.displayed_conversation vm.active_conversation
          && not (is_empty vm.displayed_conversation))) [
            | inl e1 ↦
                simp (e, e1)
                  (let vm1 =
                      set_page dates
                        (truncate dates (length r.messages) (reconcile dates 0 r.messages vm)) r in
                    quiet (set_is_loading vm1 false) message_changed (λ n. refl)
                      (set_is_loading-Shown vm1 false (
                        truncate-Shown (length r.messages) (reconcile dates 0 r.messages vm)
                          (reconcile-Shown 0 r.messages vm v))))
            | inr e1 ↦
                simp (e, e1)
                  (let vm1 = set_is_loading (show_page dates r vm) false in
                    quiet (emit vm1 initial_messages_loaded) message_changed (λ n. refl)
                      (quiet vm1 initial_messages_loaded (λ n. refl)
                        (set_is_loading-Shown (show_page dates r vm) false (show_page-Shown r vm))))
          ]
  ]

-- ===== src/Chat/MessageList/Refresh.antt =====
-- The reconciling loop of `applyFetchedMessages`: in place, it ends with the incoming messages.
use chatdesktop.Prelude.{
  ℕ, suc, ◌+◌, ◌-◌, ◌≤◌, ◌<◌, ◌≡◌, refl, sym, ap, ◌∙◌, inl, inr, Bool, true, false, not, ◌&&◌,
  Option, none, some, List, [], ◌∷◌, ◌++◌, map, length, length-drop, take, drop, get_elem?, str_eq,
  is_empty, append_assoc, append-nil, arith, Bool-cases, ltb, ◌==◌, String,
}
use chatdesktop.Chat.Entity.{MessageItem, MessageResponse}
use chatdesktop.Chat.MessageList.{
  Dates, MessagingVm, find_row, carry_path, carry_found, insert_row, move_row, refill_row, place,
  reconcile, truncate, set_page, show_page, apply_fetched_messages, set_is_loading, set_at, move,
}
use chatdesktop.Chat.MessageList.Rows.{
  map_append, length-insert_at, length-set_at, length-move, take-insert_at, take-set_at, take-move,
  take_all,
}

-- A message without its device-only path: what the server sent.
abbrev pub served : MessageItem → MessageItem
served m = record m { body = record m.body { content = record m.body.content { localpath = "" } } }

carry_path-served : (p m : MessageItem) → served (carry_path p m) ≡ served m
unfolding carry_path
carry_path-served p m = ground arith

carry_found-served :
    (o : Option MessageItem) (m : MessageItem) → served (carry_found o m) ≡ served m
carry_found-served none m = refl
carry_found-served (some p) m = carry_path-served p m

find_row-le : (id : String) (ms : List MessageItem) → find_row id ms ≤ length ms
find_row-le id [] = omega arith
find_row-le id (m ∷ ms) = let h = find_row-le id ms in ground arith

module _ (dates : Dates) where
  -- After one row, the rows up to it show what the server sent for it.
  place-served :
      (k row : ℕ) (m : MessageItem) (vm : MessagingVm)
      → row ≤ length vm.messages
      → k ≤ length vm.messages - row
      → (suc row ≤ length (place dates (row + k) row m vm).messages)
        × (map served (take (suc row) (place dates (row + k) row m vm).messages)
            ≡ map served (take row vm.messages) ++ (served m ∷ []))
  unfolding place insert_row refill_row move_row
  place-served k row m vm h hk = elim (Bool-cases ((row + k) == length vm.messages)) [
    | inl e ↦ simp e (
      omega (arith, length-insert_at row m vm.messages),
      ap (map served) (take-insert_at row m vm.messages h)
          ∙ map_append served (take row vm.messages) (m ∷ []),
    )
    | inr e ↦ elim (Bool-cases ((row + k) == row)) [
      | inl e1 ↦ simp (e, e1) (refilled row m vm.messages (ground arith))
      | inr e1 ↦
          simp (e, e1)
            (let moved = move (row + k) row vm.messages in
              let l = length-move (row + k) row vm.messages in
              let r = refilled row m moved (ground arith) in
              (
                r.0,
                r.1
                    ∙ ap (λ t. map served t ++ (served m ∷ []))
                        (take-move (row + k) row vm.messages (omega arith) (ground arith)),
              ))
    ]
  ]
    where
      refilled :
          (row : ℕ) (m : MessageItem) (ms : List MessageItem)
          → row < length ms
          → (suc row ≤ length (set_at row (carry_found (get_elem? ms row) m) ms))
            × (map served (take (suc row) (set_at row (carry_found (get_elem? ms row) m) ms))
                ≡ map served (take row ms) ++ (served m ∷ []))
      refilled row m ms h =
          let new = carry_found (get_elem? ms row) m in
          (
            omega (arith, length-set_at row new ms),
            ap (map served) (take-set_at row new ms h)
                ∙ (map_append served (take row ms) (new ∷ [])
                    ∙ ap (λ x. map served (take row ms) ++ (x ∷ []))
                        (carry_found-served (get_elem? ms row) m)),
          )

  reconcile-served :
      (row : ℕ) (ms : List MessageItem) (vm : MessagingVm)
      → row ≤ length vm.messages
      → (row + length ms ≤ length (reconcile dates row ms vm).messages)
        × (map served (take (row + length ms) (reconcile dates row ms vm).messages)
            ≡ map served (take row vm.messages) ++ map served ms)
  unfolding reconcile
  reconcile-served row [] vm h =
      let e : row + 0 ≡ row = omega arith in
      (
        omega arith,
        ap (λ n. map served (take n vm.messages)) e
            ∙ sym (append-nil (map served (take row vm.messages))),
      )
  reconcile-served row (m ∷ ms) vm h =
      let k = find_row m.id (drop row vm.messages) in
      let next = place dates (row + k) row m vm in
      let p =
        place-served k row m vm h
          (omega (arith, find_row-le m.id (drop row vm.messages), length-drop row vm.messages)) in
      let r = reconcile-served (suc row) ms next p.0 in
      let e : row + suc (length ms) ≡ suc row + length ms = omega arith in
      (
        omega (arith, r.0),
        ap (λ n. map served (take n (reconcile dates (suc row) ms next).messages)) e
            ∙ (r.1
                ∙ (ap (λ l. l ++ map served ms) p.1
                    ∙ append_assoc (map served (take row vm.messages)) (served m ∷ [])
                        (map served ms))),
      )

  truncate-messages :
      (n : ℕ) (vm : MessagingVm) → (truncate dates n vm).messages ≡ take n vm.messages
  unfolding truncate
  truncate-messages n vm = elim (Bool-cases (ltb n (length vm.messages))) [
    | inl e ↦ simp e refl
    | inr e ↦ simp e (sym (take_all n vm.messages (ground arith)))
  ]

  set_is_loading-messages :
      (vm : MessagingVm) (b : Bool) → (set_is_loading vm b).messages ≡ vm.messages
  unfolding set_is_loading
  set_is_loading-messages vm true = ground arith
  set_is_loading-messages vm false = ground arith

  -- An answer to the current request leaves exactly the messages that the server sent, in its
  -- order, whether the conversation was on display or not; only device paths may differ.
  pub apply_fetched-served :
      (r : MessageResponse) (vm : MessagingVm)
      → map served (apply_fetched_messages dates r vm.fetch_request_id vm).messages
        ≡ map served r.messages
  unfolding apply_fetched_messages show_page
  apply_fetched-served r vm =
      let none_before : length r.messages ≡ 0 + length r.messages = omega arith in
      let here : (vm.fetch_request_id == vm.fetch_request_id) ≡ true = ground arith in
      elim (Bool-cases (
        str_eq vm.displayed_conversation vm.active_conversation
        && not (is_empty vm.displayed_conversation))) [
          | inl e ↦
              simp (here, e)
                (ap (map served) (
                    set_is_loading-messages
                      (set_page dates
                        (truncate dates (length r.messages) (reconcile dates 0 r.messages vm)) r)
                      false
                    ∙ truncate-messages (length r.messages) (reconcile dates 0 r.messages vm))
                  ∙ (ap (λ n. map served (take n (reconcile dates 0 r.messages vm).messages))
                        none_before
                      ∙ (reconcile-served 0 r.messages vm (omega arith)).1))
          | inr e ↦
              simp (here, e)
                (ap (map served) (set_is_loading-messages (show_page dates r vm) false))
        ]

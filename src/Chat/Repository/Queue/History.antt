-- ===== src/Chat/Repository/Queue/History.antt =====
-- The send queue after any history of its operations.
use chatdesktop.Prelude.{
  ℕ, ◌≡◌, refl, sym, ap, ◌∙◌, subst, String, Bool, true, false, not, Option, none, some, List, [],
  ◌∷◌, ◌++◌, map, length, append_assoc, append-nil, arith, if_elim, ◌==◌, if◌then◌else◌,
}
use chatdesktop.Upload.Cancellation.{FutureApi, Token, Futures}
use chatdesktop.Chat.Repository.Queue.{
  has_task, Reaction, Entry, SendEnding, canceled, returned, thrown, Settlement, canceled_with,
  answered, excepted, Repo, new_repo, settle, next_process, enqueue, track_with, settlement_of,
  on_watched, first_watcher, on_connected_changed, run_deferred, cancel_token, cancel_file_upload,
  cancel_found, find_task, send_files, Op, sends, sends_file, ends, connects, wakes, cancels,
  cancels_upload, Tasks, cancel_tasks, drain, destroy, step, run, token_canceled,
}
use chatdesktop.Chat.Repository.Queue.Ledger.{
  map_snoc, ran_snoc, ran, promises, settled_promises, Ledger, settle-line, no_watched, next-Ledger,
}

module _ (api : FutureApi) (throws : ℕ → Bool) where
  enqueue-Ledger :
      (e : Entry) (r : Repo api throws)
      → Ledger api throws r
      → Ledger api throws (enqueue api throws e r)
  unfolding enqueue track_with
  enqueue-Ledger e r v = after e.cancellation
    where
      line :
          settled_promises api throws r
            ++ (promises api throws r.watched ++ promises api throws (r.queue ++ (e ∷ [])))
          ≡ r.enqueued ++ (e.promise ∷ [])
      line =
          ap (λ l. settled_promises api throws r ++ (promises api throws r.watched ++ l))
            (map_snoc (λ x. x.promise) r.queue e)
          ∙ (ap (λ l. settled_promises api throws r ++ l)
                (sym (
                  append_assoc (promises api throws r.watched) (promises api throws r.queue)
                    (e.promise ∷ [])))
              ∙ (sym (
                    append_assoc (settled_promises api throws r)
                      (promises api throws r.watched ++ promises api throws r.queue)
                      (e.promise ∷ []))
                  ∙ ap (λ l. l ++ (e.promise ∷ [])) v.in_order))

      after :
          (c : Option ℕ)
          → Ledger api throws (
              next_process api throws (record (track_with api throws r c e.promise) {
                queue = (track_with api throws r c e.promise).queue ++ (e ∷ []);
                enqueued = (track_with api throws r c e.promise).enqueued ++ (e.promise ∷ []);
              }))
      after none = next-Ledger api throws _ line v.ran_once v.one_in_flight
      after (some t) = next-Ledger api throws _ line v.ran_once v.one_in_flight

  ran_ended :
      (ending : SendEnding) (p : ℕ) (ss : List (ℕ × Settlement))
      → ran (ss ++ ((p, settlement_of api throws ending) ∷ [])) ≡ ran ss ++ (p ∷ [])
  unfolding settlement_of
  ran_ended canceled p ss = ran_snoc ss p canceled_with
  ran_ended (returned o) p ss = ran_snoc ss p (answered o)
  ran_ended thrown p ss = ran_snoc ss p excepted

  first_watcher-Ledger :
      (ending : SendEnding) (es : List Entry) (r : Repo api throws)
      → r.watched ≡ es
      → Ledger api throws r
      → Ledger api throws (first_watcher api throws ending es r)
  unfolding first_watcher on_watched settle
  first_watcher-Ledger ending [] r w v = v
  first_watcher-Ledger ending (e ∷ others) r w v =
      next-Ledger api throws _
        (settle-line api throws e (settlement_of api throws ending) r.settled
            (promises api throws others ++ promises api throws r.queue)
          ∙ (ap
                (λ l.
                  settled_promises api throws r
                  ++ (promises api throws l ++ promises api throws r.queue))
                (sym w)
              ∙ v.in_order))
        (ap (λ l. l ++ promises api throws others) (ran_ended ending e.promise r.settled)
          ∙ (append_assoc (ran r.settled) (e.promise ∷ []) (promises api throws others)
              ∙ (ap (λ l. ran r.settled ++ promises api throws l) (sym w) ∙ v.ran_once)))
        (ground (arith, ap length w, v.one_in_flight))

  cancel_token-Ledger :
      (t : ℕ) (r : Repo api throws)
      → Ledger api throws r
      → Ledger api throws (cancel_token api throws t r).1
  unfolding cancel_token
  cancel_token-Ledger t r v = record {
    in_order = v.in_order;
    ran_once = v.ran_once;
    one_in_flight = v.one_in_flight;
    awake = v.awake;
  }

  cancel_found-Ledger :
      (o : Option ℕ) (r : Repo api throws)
      → Ledger api throws r
      → Ledger api throws (cancel_found api throws o r).1
  unfolding cancel_found
  cancel_found-Ledger none r v = v
  cancel_found-Ledger (some t) r v = cancel_token-Ledger t r v

  run_deferred-Ledger :
      (r : Repo api throws) → Ledger api throws r → Ledger api throws (run_deferred api throws r)
  unfolding run_deferred
  run_deferred-Ledger r v =
      if_elim (Ledger api throws) (r.deferred == 0) (λ e. v)
        (λ e. next-Ledger api throws _ v.in_order v.ran_once v.one_in_flight)

  send_files-Ledger :
      (id : String) (given : Option ℕ) (fresh p : ℕ) (usable : Bool) (r : Repo api throws)
      → Ledger api throws r
      → Ledger api throws (send_files api throws id given fresh p usable r).1
  unfolding send_files
  send_files-Ledger id given fresh p usable r v =
      if_elim (λ (x : Reaction × Repo api throws). Ledger api throws x.1)
        (token_canceled api throws r given) (λ c. v)
        (λ c.
          if_elim (λ (x : Reaction × Repo api throws). Ledger api throws x.1) (has_task id r.tasks)
            (λ d. v)
            (λ d.
              if_elim (λ (x : Reaction × Repo api throws). Ledger api throws x.1) (not usable)
                (λ u. v)
                (λ u. enqueue-Ledger _ _ (record {
                  in_order = v.in_order;
                  ran_once = v.ran_once;
                  one_in_flight = v.one_in_flight;
                  awake = v.awake;
                }))))

  step-Ledger :
      (r : Repo api throws) (o : Op api throws)
      → Ledger api throws r
      → Ledger api throws (step api throws r o)
  unfolding step on_connected_changed cancel_file_upload
  step-Ledger r (sends p) v = enqueue-Ledger _ r v
  step-Ledger r (sends_file id given fresh p usable) v =
      send_files-Ledger id given fresh p usable r v
  step-Ledger r (ends ending) v = first_watcher-Ledger ending r.watched r refl v
  step-Ledger r (connects b) v = next-Ledger api throws _ v.in_order v.ran_once v.one_in_flight
  step-Ledger r wakes v = run_deferred-Ledger r v
  step-Ledger r (cancels t) v = cancel_token-Ledger t r v
  step-Ledger r (cancels_upload id) v = cancel_found-Ledger (find_task api throws id r.tasks) r v

  run-Ledger_from :
      (r : Repo api throws) (os : List (Op api throws))
      → Ledger api throws r
      → Ledger api throws (run api throws r os)
  unfolding run
  run-Ledger_from r [] v = v
  run-Ledger_from r (o ∷ os) v = run-Ledger_from (step api throws r o) os (step-Ledger r o v)

  run-Ledger :
      (tokens : ℕ → Token) (futures : Futures api) (os : List (Op api throws))
      → Ledger api throws (run api throws (new_repo api throws tokens futures) os)
  run-Ledger tokens futures os =
      run-Ledger_from _ os
        (record { in_order = refl; ran_once = refl; one_in_flight = refl; awake = λ a b c. refl })

  -- The first three parts of the ledger.
  pub record IsOrderly (r : Repo api throws) : Type 0 where
    pub in_order :
        settled_promises api throws r
          ++ (promises api throws r.watched ++ promises api throws r.queue)
        ≡ r.enqueued
    pub ran_once : ran r.settled ++ promises api throws r.watched ≡ r.started
    pub one_in_flight : length r.watched ≡ (if r.processing then 1 else 0)

  -- After any history of a new repository, the promises settled, in flight and queued are those
  -- enqueued, in order, each once; those settled without being skipped and those in flight are the
  -- ones started, in order; and one is in flight exactly while the repository is processing, and
  -- else none.
  pub run-IsOrderly :
      (tokens : ℕ → Token) (futures : Futures api) (os : List (Op api throws))
      → IsOrderly (run api throws (new_repo api throws tokens futures) os)
  run-IsOrderly tokens futures os =
      let v = run-Ledger tokens futures os in
      record { in_order = v.in_order; ran_once = v.ran_once; one_in_flight = v.one_in_flight }

  settled_all :
      (r : Repo api throws)
      → Ledger api throws r
      → r.processing ≡ false
      → r.connected ≡ true
      → r.deferred ≡ 0
      → (r.queue ≡ []) × (settled_promises api throws r ≡ r.enqueued)
  settled_all r v idle up still =
      let none_waits = v.awake idle up still in
      let none_flies =
        no_watched api throws r.watched (v.one_in_flight ∙ ap (λ b. if b then 1 else 0) idle) in
      let line =
        ap (λ es. settled_promises api throws r ++ es)
          (ap (λ es. promises api throws es ++ promises api throws r.queue) none_flies
            ∙ ap (promises api throws) none_waits) in
      (none_waits, sym (append-nil (settled_promises api throws r)) ∙ sym line ∙ v.in_order)

  -- No entry is left waiting: after any history of a new repository, if nothing is in flight, the
  -- connection is up and no deferred call is pending, then the queue is empty and the promises
  -- settled are all those that were enqueued, in order.
  pub run_settled :
      (tokens : ℕ → Token) (futures : Futures api) (os : List (Op api throws)) (r : Repo api throws)
      → run api throws (new_repo api throws tokens futures) os ≡ r
      → r.processing ≡ false
      → r.connected ≡ true
      → r.deferred ≡ 0
      → (r.queue ≡ []) × (settled_promises api throws r ≡ r.enqueued)
  run_settled tokens futures os r e =
      settled_all r (subst (Ledger api throws) e (run-Ledger tokens futures os))

  cancel_tasks-same :
      (ts : Tasks) (r : Repo api throws)
      → ((cancel_tasks api throws ts r).queue ≡ r.queue)
        × ((cancel_tasks api throws ts r).settled ≡ r.settled)
  unfolding cancel_tasks cancel_token
  cancel_tasks-same [] r = (refl, refl)
  cancel_tasks-same (t ∷ ts) r = cancel_tasks-same ts (cancel_token api throws t.1 r).1

  -- The answers that the destructor gives.
  abbrev pub canceled_answers : List Entry → List (ℕ × Settlement)
  canceled_answers es = map (λ e. (e.promise, canceled_with)) es

  drain_lem :
      (es : List Entry) (r : Repo api throws)
      → ((drain api throws es r).queue ≡ [])
        × ((drain api throws es r).settled ≡ r.settled ++ canceled_answers es)
  unfolding drain
  drain_lem [] r = (refl, sym (append-nil r.settled))
  drain_lem (e ∷ es) r =
      let rest =
        drain_lem es (record r { settled = r.settled ++ ((e.promise, canceled_with) ∷ []) }) in
      (
        rest.0,
        rest.1 ∙ append_assoc r.settled ((e.promise, canceled_with) ∷ []) (canceled_answers es),
      )

  -- The destructor leaves no queued promise unfinished: the queue is empty, and every entry of it has
  -- been answered as cancelled, in order, after what was answered before.
  pub destroy_settles :
      (r : Repo api throws)
      → ((destroy api throws r).queue ≡ [])
        × ((destroy api throws r).settled ≡ r.settled ++ canceled_answers r.queue)
  unfolding destroy
  destroy_settles r =
      let same = cancel_tasks-same r.tasks r in
      let quiet = cancel_tasks api throws r.tasks r in
      let d = drain_lem quiet.queue quiet in
      (
        d.0,
        d.1
            ∙ (ap (λ ss. ss ++ canceled_answers quiet.queue) same.1
                ∙ ap (λ es. r.settled ++ canceled_answers es) same.0),
      )

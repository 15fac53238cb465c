-- ===== src/Chat/Repository/Queue/Ledger.antt =====
-- What holds of the send queue between operations, and `nextProcess`.
use chatdesktop.Prelude.{
  ℕ, ◌≡◌, refl, sym, ap, ◌∙◌, inl, inr, Bool, true, false, List, [], ◌∷◌, ◌++◌, map, length,
  append_assoc, append-nil, arith, if_elim, Bool-cases, if◌then◌else◌,
}
use chatdesktop.Upload.Cancellation.{FutureApi}
use chatdesktop.Chat.Repository.Queue.{
  Entry, Settlement, skipped, canceled_with, answered, excepted, Repo, settle, skip_canceled,
  start_entry, start_head, next_process, is_empty_queue, token_canceled,
}

pub map_snoc {ℓ κ} :
    {A : Type ℓ} {B : Type κ} (f : A → B) (xs : List A) (x : A)
    → map f (xs ++ (x ∷ [])) ≡ map f xs ++ (f x ∷ [])
map_snoc f [] x = refl
map_snoc f (y ∷ ys) x = ap (◌∷◌ (f y)) (map_snoc f ys x)

abbrev pub was_started : Settlement → Bool
was_started skipped = false
was_started canceled_with = true
was_started (answered o) = true
was_started excepted = true

-- The promises of the settled entries that had been started.
abbrev pub ran : List (ℕ × Settlement) → List ℕ
ran [] = []
ran ((p, how) ∷ ss) = if was_started how then p ∷ ran ss else ran ss

pub ran_snoc :
    (ss : List (ℕ × Settlement)) (p : ℕ) (how : Settlement)
    → ran (ss ++ ((p, how) ∷ [])) ≡ (if was_started how then ran ss ++ (p ∷ []) else ran ss)
ran_snoc [] p how = ground arith
ran_snoc ((q, h) ∷ ss) p how = ground (arith, ran_snoc ss p how)

module _ (api : FutureApi) (throws : ℕ → Bool) where
  abbrev pub promises : List Entry → List ℕ
  promises es = map (λ e. e.promise) es

  abbrev pub settled_promises : Repo api throws → List ℕ
  settled_promises r = map (λ s. s.0) r.settled

  -- The settled, the watched and the queued entries are those enqueued, in order; the settled ones
  -- that were not skipped and the watched ones are those started; one is watched exactly while the
  -- repository is processing; and an idle, connected repository with no call pending has no queue.
  pub record Ledger (r : Repo api throws) : Type 0 where
    pub in_order : settled_promises r ++ (promises r.watched ++ promises r.queue) ≡ r.enqueued
    pub ran_once : ran r.settled ++ promises r.watched ≡ r.started
    pub one_in_flight : length r.watched ≡ (if r.processing then 1 else 0)
    pub awake : r.processing ≡ false → r.connected ≡ true → r.deferred ≡ 0 → r.queue ≡ []

  record Skips (es : List Entry) (r s : Repo api throws) : Type 0 where
    line : settled_promises s ++ promises s.queue ≡ settled_promises r ++ promises es
    runs : ran s.settled ≡ ran r.settled
    watched : s.watched ≡ r.watched
    processing : s.processing ≡ r.processing
    enqueued : s.enqueued ≡ r.enqueued
    started : s.started ≡ r.started

  skip-Skips : (es : List Entry) (r : Repo api throws) → Skips es r (skip_canceled api throws es r)
  unfolding skip_canceled settle
  skip-Skips [] r = record {
    line = refl;
    runs = refl;
    watched = refl;
    processing = refl;
    enqueued = refl;
    started = refl;
  }
  skip-Skips (e ∷ es) r =
      let ih = skip-Skips es (settle api throws e skipped r) in
      elim (Bool-cases (token_canceled api throws r e.cancellation)) [
        | inl c ↦ simp c (record {
          line =
              ih.line
              ∙ (ap (λ l. l ++ promises es) (map_snoc (λ s. s.0) r.settled (e.promise, skipped))
                  ∙ append_assoc (settled_promises r) (e.promise ∷ []) (promises es));
          runs = ih.runs ∙ ran_snoc r.settled e.promise skipped;
          watched = ih.watched;
          processing = ih.processing;
          enqueued = ih.enqueued;
          started = ih.started;
        })
        | inr c ↦ simp c (record {
          line = refl;
          runs = refl;
          watched = refl;
          processing = refl;
          enqueued = refl;
          started = refl;
        })
      ]

  -- Before the head is started: the ledger without its last clause, and nothing in flight.
  record Idle (r : Repo api throws) : Type 0 where
    in_order : settled_promises r ++ promises r.queue ≡ r.enqueued
    ran_once : ran r.settled ≡ r.started
    no_watcher : r.watched ≡ []
    idle : r.processing ≡ false

  -- The entry at the head of the line passes to the settled ones.
  pub settle-line :
      (e : Entry) (how : Settlement) (ss : List (ℕ × Settlement)) (rest : List ℕ)
      → map (λ s. s.0) (ss ++ ((e.promise, how) ∷ [])) ++ rest
        ≡ map (λ s. s.0) ss ++ (e.promise ∷ rest)
  settle-line e how ss rest =
      ap (λ l. l ++ rest) (map_snoc (λ s. s.0) ss (e.promise, how))
      ∙ append_assoc (map (λ s. s.0) ss) (e.promise ∷ []) rest

  start_entry-Ledger :
      (e : Entry) (es : List Entry) (r : Repo api throws)
      → r.queue ≡ e ∷ es
      → Idle r
      → Ledger (start_entry api throws e es r)
  unfolding start_entry settle
  start_entry-Ledger e es r q v =
      let line : settled_promises r ++ (e.promise ∷ promises es) ≡ r.enqueued =
        ap (λ l. settled_promises r ++ promises l) (sym q) ∙ v.in_order in
      elim (Bool-cases (throws e.promise)) [
        | inl t ↦ simp t (record {
          in_order = simp v.no_watcher (settle-line e excepted r.settled (promises es) ∙ line);
          ran_once = simp v.no_watcher (
              append-nil _
              ∙ (ran_snoc r.settled e.promise excepted
                  ∙ ap (λ l. l ++ (e.promise ∷ [])) v.ran_once));
          one_in_flight = ap length v.no_watcher;
          awake = λ a b c. cc;
        })
        | inr t ↦ simp t (record {
          in_order = simp v.no_watcher line;
          ran_once = simp v.no_watcher (ap (λ l. l ++ (e.promise ∷ [])) v.ran_once);
          one_in_flight = simp v.no_watcher refl;
          awake = λ a b c. cc;
        })
      ]

  start_head-Ledger :
      (es : List Entry) (r : Repo api throws)
      → r.queue ≡ es
      → Idle r
      → Ledger (start_head api throws es r)
  unfolding start_head
  start_head-Ledger [] r q v = record {
    in_order = simp v.no_watcher v.in_order;
    ran_once = simp v.no_watcher (append-nil _ ∙ v.ran_once);
    one_in_flight = simp (v.no_watcher, v.idle) refl;
    awake = λ a b c. q;
  }
  start_head-Ledger (e ∷ es) r q v =
      if_elim Ledger r.connected (λ c. start_entry-Ledger e es r q v)
        (λ c. record {
          in_order = simp v.no_watcher v.in_order;
          ran_once = simp v.no_watcher (append-nil _ ∙ v.ran_once);
          one_in_flight = simp (v.no_watcher, v.idle) refl;
          awake = λ a b k. cc;
        })

  skip-Idle : (r : Repo api throws) → Idle r → Idle (skip_canceled api throws r.queue r)
  skip-Idle r v =
      let s = skip-Skips r.queue r in
      record {
        in_order = s.line ∙ (v.in_order ∙ sym s.enqueued);
        ran_once = s.runs ∙ (v.ran_once ∙ sym s.started);
        no_watcher = s.watched ∙ v.no_watcher;
        idle = s.processing ∙ v.idle;
      }

  -- `nextProcess` from an idle repository restores the ledger.
  Idle-next : (r : Repo api throws) → Idle r → Ledger (next_process api throws r)
  unfolding next_process
  Idle-next r v = elim (Bool-cases (is_empty_queue r.queue)) [
    | inl e ↦
        simp (v.idle, e)
          (record {
            in_order = simp v.no_watcher v.in_order;
            ran_once = simp v.no_watcher (append-nil _ ∙ v.ran_once);
            one_in_flight = simp (v.no_watcher, v.idle) refl;
            awake = λ a b c. nothing_queued r.queue e;
          })
    | inr e ↦
        simp (v.idle, e)
          (start_head-Ledger (skip_canceled api throws r.queue r).queue _ refl (skip-Idle r v))
  ]
    where
      nothing_queued : (es : List Entry) → is_empty_queue es ≡ true → es ≡ []
      nothing_queued [] h = refl
      nothing_queued (x ∷ es) h = cc

  -- And while it is processing, it does nothing.
  next-busy : (r : Repo api throws) → r.processing ≡ true → next_process api throws r ≡ r
  unfolding next_process
  next-busy r h = simp h refl

  busy-Ledger :
      (r : Repo api throws)
      → r.processing ≡ true
      → (settled_promises r ++ (promises r.watched ++ promises r.queue) ≡ r.enqueued)
      → (ran r.settled ++ promises r.watched ≡ r.started)
      → length r.watched ≡ 1
      → Ledger (next_process api throws r)
  busy-Ledger r h a b c =
      simp (next-busy r h)
        (record { in_order = a; ran_once = b; one_in_flight = simp h c; awake = λ i. cc })

  pub no_watched : (es : List Entry) → length es ≡ 0 → es ≡ []
  no_watched [] h = refl
  no_watched (x ∷ es) h = ground arith

  -- `nextProcess` keeps all but the last clause, and makes the last one hold.
  pub next-Ledger :
      (r : Repo api throws)
      → settled_promises r ++ (promises r.watched ++ promises r.queue) ≡ r.enqueued
      → ran r.settled ++ promises r.watched ≡ r.started
      → length r.watched ≡ (if r.processing then 1 else 0)
      → Ledger (next_process api throws r)
  next-Ledger r a b c = elim (Bool-cases r.processing) [
    | inl h ↦ busy-Ledger r h a b (c ∙ simp h refl)
    | inr h ↦
        let w = no_watched r.watched (c ∙ simp h refl) in
        Idle-next r (record {
          in_order = (simp w at a);
          ran_once = sym (append-nil _) ∙ (simp w at b);
          no_watcher = w;
          idle = h;
        })
  ]

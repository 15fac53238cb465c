-- ===== src/Chat/HistoryCache/Unserved.antt =====
-- A message that was saved is shown until a page brings it.
use chatdesktop.Prelude.{
  ◌≡◌, refl, sym, ap, ◌∙◌, subst, ◌⊎◌, inl, inr, pos, String, Bool, true, false, Option, none, List,
  [], ◌∷◌, ◌++◌, any_of, All, if_elim, Bool-cases,
}
use chatdesktop.Chat.Wire.{JsonApi, MessageItemDto, MessageDto}
use chatdesktop.Chat.HistoryCache.{
  CacheApi, same_message, page_or, decode, read_snapshot, append_live, count_pages, is_nil, read,
  remove_served, put,
}
use chatdesktop.Chat.HistoryCache.Pending.{
  live_text, WorksAlong, Action, saves, serves, run, replay,
}
use chatdesktop.Chat.HistoryCache.Refines.{Live, ReadsAlong, read-Live, run-Live_from, none-Live}

module _ (json : JsonApi) (api : CacheApi) where
  abbrev Stands : MessageItemDto json → List (MessageItemDto json) → Type 0
  Stands m [] = true ≡ false
  Stands m (x ∷ xs) = (x ≡ m) ⊎ Stands m xs

  -- Whether some message is the same as `m`.
  abbrev pub shows : List (MessageItemDto json) → MessageItemDto json → Bool
  shows ms m = any_of (λ item. same_message json api item m) ms

  -- An action that does not touch `m`: it saves another message, or a page without it.
  abbrev pub Leaves : MessageItemDto json → Action json api → Type 0
  Leaves m (saves x) = same_message json api m x ≡ false
  Leaves m (serves d) = shows d.messages m ≡ false

  Stands-put :
      (m : MessageItemDto json) (ms : List (MessageItemDto json)) → Stands m (put json api m ms)
  unfolding put
  Stands-put m [] = inl refl
  Stands-put m (x ∷ xs) =
      if_elim (Stands m) (same_message json api x m) (λ e. inl refl) (λ e. inr (Stands-put m xs))

  Stands-put_other :
      (m x : MessageItemDto json) (ms : List (MessageItemDto json))
      → same_message json api m x ≡ false
      → Stands m ms
      → Stands m (put json api x ms)
  unfolding put
  Stands-put_other m x [] e h = inr h
  Stands-put_other m x (y ∷ ys) e (inl h) =
      if_elim (Stands m) (same_message json api y x)
        (λ k.
          let differs =
            sym k ∙ (ap (λ (w : MessageItemDto json). same_message json api w x) h ∙ e) in
          absurd (cc))
        (λ k. inl h)
  Stands-put_other m x (y ∷ ys) e (inr h) =
      if_elim (Stands m) (same_message json api y x) (λ k. inr h)
        (λ k. inr (Stands-put_other m x ys e h))

  Stands-remove_served :
      (m : MessageItemDto json) (served ms : List (MessageItemDto json))
      → shows served m ≡ false
      → Stands m ms
      → Stands m (remove_served json api served ms)
  unfolding remove_served
  Stands-remove_served m served [] e h = h
  Stands-remove_served m served (y ∷ ys) e (inl h) =
      if_elim (Stands m) (shows served y)
        (λ k. let differs = sym k ∙ (ap (shows served) h ∙ e) in absurd (cc)) (λ k. inl h)
  Stands-remove_served m served (y ∷ ys) e (inr h) =
      if_elim (Stands m) (shows served y) (λ k. Stands-remove_served m served ys e h)
        (λ k. inr (Stands-remove_served m served ys e h))

  Stands-replay :
      (m : MessageItemDto json) (os : List (Action json api)) (ms : List (MessageItemDto json))
      → All (Leaves m) os
      → Stands m ms
      → Stands m (replay json api os ms)
  unfolding replay
  Stands-replay m [] ms l h = h
  Stands-replay m (saves x ∷ os) ms (l, ls) h =
      Stands-replay m os (put json api x ms) ls (Stands-put_other m x ms l h)
  Stands-replay m (serves d ∷ os) ms (l, ls) h =
      Stands-replay m os (remove_served json api d.messages ms) ls
        (Stands-remove_served m d.messages ms l h)

  saved-Stands :
      (m : MessageItemDto json) (ps : List (Action json api)) (ms : List (MessageItemDto json))
      → All (Leaves m) ps
      → Stands m (replay json api (saves m ∷ ps) ms)
  unfolding replay
  saved-Stands m ps ms l = Stands-replay m ps (put json api m ms) l (Stands-put m ms)

  replay-append :
      (os ps : List (Action json api)) (ms : List (MessageItemDto json))
      → replay json api (os ++ ps) ms ≡ replay json api ps (replay json api os ms)
  unfolding replay
  replay-append [] ps ms = refl
  replay-append (saves x ∷ os) ps ms = replay-append os ps (put json api x ms)
  replay-append (serves d ∷ os) ps ms = replay-append os ps (remove_served json api d.messages ms)

  shows-append :
      (m : MessageItemDto json) (xs ys : List (MessageItemDto json))
      → shows xs m ≡ true
      → shows (xs ++ ys) m ≡ true
  shows-append m [] ys h = absurd (cc)
  shows-append m (x ∷ xs) ys h = elim (Bool-cases (same_message json api x m)) [
    | inl e ↦ rw (e) refl
    | inr e ↦ let tail : shows xs m ≡ true = simp e at h in rw (e) (shows-append m xs ys tail)
  ]

  shows_snoc :
      (m x : MessageItemDto json) (xs : List (MessageItemDto json))
      → same_message json api x m ≡ true
      → shows (xs ++ (x ∷ [])) m ≡ true
  shows_snoc m x [] h = rw (h) refl
  shows_snoc m x (y ∷ ys) h = elim (Bool-cases (same_message json api y m)) [
    | inl e ↦ rw (e) refl
    | inr e ↦ rw (e) (shows_snoc m x ys h)
  ]

  append_live-shows :
      (m : MessageItemDto json) (ms : List (MessageItemDto json)) (d : MessageDto json)
      → shows d.messages m ≡ true
      → shows (append_live json api ms d).messages m ≡ true
  unfolding append_live
  append_live-shows m [] d h = h
  append_live-shows m (x ∷ xs) d h = append_live-shows m xs _ (
      if_elim (λ (d : MessageDto json). shows d.messages m ≡ true) (shows d.messages x) (λ k. h)
        (λ k. shows-append m d.messages (x ∷ []) h))

  append_live-Stands :
      (m : MessageItemDto json) (ms : List (MessageItemDto json)) (d : MessageDto json)
      → same_message json api m m ≡ true
      → Stands m ms
      → shows (append_live json api ms d).messages m ≡ true
  unfolding append_live
  append_live-Stands m [] d e h = absurd (cc)
  append_live-Stands m (x ∷ xs) d e (inl h) = append_live-shows m xs _ (
      if_elim (λ (d : MessageDto json). shows d.messages m ≡ true) (shows d.messages x)
        (λ k. ap (shows d.messages) (sym h) ∙ k)
        (λ k.
          shows_snoc m x d.messages
            (ap (λ (w : MessageItemDto json). same_message json api w m) h ∙ e)))
  append_live-Stands m (x ∷ xs) d e (inr h) = append_live-Stands m xs _ e h

  count_pages-messages : (d : MessageDto json) → (count_pages json api d).messages ≡ d.messages
  unfolding count_pages
  count_pages-messages d =
      if_elim (λ (x : MessageDto json). x.messages ≡ d.messages) (is_nil json api d.messages)
        (λ e. refl) (λ e. refl)

module _ (json : JsonApi) (api : CacheApi) (account conversation : String) where
  -- Reading the first page leaves the live messages to be read.
  abbrev pub PageLeavesLive : api.Cache → Type 0
  PageLeavesLive c =
      (live_text json api account conversation
        (read_snapshot json api account conversation (pos 1) false c).1).0
      ≡ (live_text json api account conversation c).0

  read-shows :
      (m : MessageItemDto json) (c : api.Cache) (ms : List (MessageItemDto json))
      → Live json api account conversation c ms
      → PageLeavesLive c
      → same_message json api m m ≡ true
      → Stands json api m ms
      → shows json api (read json api account conversation (pos 1) c).0.messages m ≡ true
  unfolding read
  read-shows m c ms h leaves e stands =
      let result = read_snapshot json api account conversation (pos 1) false c in
      let live =
        read-Live json api account conversation result.1 ms
          (ap (λ (t : Option String). page_or json api (pos 1) (decode json api t)) leaves ∙ h) in
      let shown =
        append_live-Stands json api m
          (read_snapshot json api account conversation (pos 1) true result.1).0.messages result.0 e
          (subst (λ (d : MessageDto json). Stands json api m d.messages) (sym live) stands) in
      ap (λ xs. shows json api xs m) (count_pages-messages json api _) ∙ shown

  -- A message that waits is shown, as long as the cache works: in every state on the way a read of the
  -- live messages gives what was last written, and reading the page at the end leaves them. Once a
  -- message with an identifier has been saved, and until a page that has it is saved or a message that
  -- it is the same as, the first page of its conversation shows it, whatever else was saved before and
  -- after. The conversation is taken to start without live messages, everything saved to answer true,
  -- and the texts of the lists on the way to be read back as them.
  pub saved_message-shows :
      (m : MessageItemDto json) (os ps : List (Action json api)) (c : api.Cache)
      → WorksAlong json api account conversation (os ++ (saves m ∷ ps)) c
      → PageLeavesLive (run json api account conversation (os ++ (saves m ∷ ps)) c).1
      → ReadsAlong json api account conversation (os ++ (saves m ∷ ps)) []
      → (live_text json api account conversation c).0 ≡ none
      → (run json api account conversation (os ++ (saves m ∷ ps)) c).0 ≡ true
      → same_message json api m m ≡ true
      → All (Leaves json api m) ps
      → shows json api
          (read json api account conversation
            (pos 1)
            (run json api account conversation (os ++ (saves m ∷ ps)) c).1).0.messages
          m
        ≡ true
  saved_message-shows m os ps c works page along start ok e leaves =
      let history = os ++ (saves m ∷ ps) in
      let live =
        run-Live_from json api account conversation history c [] works along
          (none-Live json api account conversation c start) ok in
      read-shows m (run json api account conversation history c).1 (replay json api history []) live
        page e
        (subst (Stands json api m) (sym (replay-append json api os (saves m ∷ ps) []))
          (saved-Stands json api m ps (replay json api os []) leaves))

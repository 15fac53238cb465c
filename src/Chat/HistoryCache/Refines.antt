-- ===== src/Chat/HistoryCache/Refines.antt =====
-- The live messages in the encrypted cache are the list of the specification.
use chatdesktop.Prelude.{
  ◌≡◌, refl, sym, ap, ◌∙◌, subst, pos, String, Bool, true, false, not, ◌||◌, Option, none, some,
  List, [], ◌∷◌, length, is_empty, ◌==◌, ==_iff, if◌then◌else◌, if_elim, and_true,
}
use chatdesktop.Chat.Wire.{JsonApi, MessageItemDto, MessageDto}
use chatdesktop.Chat.HistoryCache.{
  CacheApi, conversation_id, page_or, decode, read_snapshot, encode, write_snapshot, remove_served,
  save_response, put, save_message,
}
use chatdesktop.Chat.HistoryCache.Pending.{
  live_text, Rereads, ReadsWritten, WorksFor, WorksAlong, Action, saves, serves, step, run, replay,
  live_page, remove_served-same,
}

module _ (json : JsonApi) (api : CacheApi) (account conversation : String) where
  -- A read of the live messages gives these.
  abbrev pub Live : api.Cache → List (MessageItemDto json) → Type 0
  Live c ms =
      page_or json api (pos 1) (decode json api (live_text json api account conversation c).0)
      ≡ live_page json api ms

  -- The text of these live messages reads back as them.
  abbrev pub ReadsBack : List (MessageItemDto json) → Type 0
  ReadsBack ms =
      decode json api (some (encode json api (live_page json api ms)))
      ≡ some (live_page json api ms)

  -- And so does what the specification makes of them, after each action.
  abbrev pub ReadsAlong : List (Action json api) → List (MessageItemDto json) → Type 0
  ReadsAlong [] ms = Unit
  ReadsAlong (saves m ∷ os) ms = ReadsBack (put json api m ms) × ReadsAlong os (put json api m ms)
  ReadsAlong (serves d ∷ os) ms =
      ReadsBack (remove_served json api d.messages ms)
      × ReadsAlong os (remove_served json api d.messages ms)

  abbrev page_of_text : Option String → MessageDto json
  page_of_text t = page_or json api (pos 1) (decode json api t)

  pub read-Live :
      (c : api.Cache) (ms : List (MessageItemDto json))
      → Live c ms
      → (read_snapshot json api account conversation (pos 1) true c).0 ≡ live_page json api ms
  unfolding read_snapshot
  read-Live c ms h = h

  reread-Live :
      (c : api.Cache) (ms : List (MessageItemDto json))
      → Rereads json api account conversation c
      → Live c ms
      → Live (read_snapshot json api account conversation (pos 1) true c).1 ms
  unfolding read_snapshot
  reread-Live c ms k h = ap page_of_text k ∙ h

  read_snapshot-state :
      (c : api.Cache)
      → (read_snapshot json api account conversation (pos 1) true c).1
        ≡ (live_text json api account conversation c).1
  unfolding read_snapshot
  read_snapshot-state c = refl

  write-Live :
      (c : api.Cache) (ms : List (MessageItemDto json))
      → ReadsWritten json api account conversation c
      → ReadsBack ms
      → (write_snapshot json api account conversation (live_page json api ms) true c).0 ≡ true
      → Live (write_snapshot json api account conversation (live_page json api ms) true c).1 ms
  unfolding write_snapshot page_or
  write-Live c ms k back =
      if_elim (λ (s : Bool × api.Cache). s.0 ≡ true → Live s.1 ms)
        (is_empty (conversation_id json api account)
          || is_empty (conversation_id json api conversation))
        (λ e h. absurd (cc))
        (λ e h.
          ap page_of_text (k (encode json api (live_page json api ms)) h)
          ∙ ap (page_or json api (pos 1)) back)

  -- The live messages `l` that were read, changed and written again.
  store_changed :
      (f : List (MessageItemDto json) → List (MessageItemDto json)) (l : MessageDto json)
      (c : api.Cache) (ms : List (MessageItemDto json))
      → ReadsWritten json api account conversation c
      → ReadsBack (f ms)
      → live_page json api ms ≡ l
      → (write_snapshot json api account conversation
          (record l { messages = f l.messages })
          true
          c).0
        ≡ true
      → Live
          (write_snapshot json api account conversation
            (record l { messages = f l.messages })
            true
            c).1
          (f ms)
  store_changed f l c ms k back e =
      subst
        (λ (l : MessageDto json).
          (write_snapshot json api account conversation (record l { messages = f l.messages }) true
              c).0
            ≡ true
          → Live
              (write_snapshot json api account conversation (record l { messages = f l.messages })
                true c).1
              (f ms))
        e (write-Live c (f ms) k back)

  save_message-Live :
      (m : MessageItemDto json) (c : api.Cache) (ms : List (MessageItemDto json))
      → WorksFor json api account conversation (saves m) c
      → ReadsBack (put json api m ms)
      → Live c ms
      → (save_message json api account conversation m c).0 ≡ true
      → Live (save_message json api account conversation m c).1 (put json api m ms)
  unfolding save_message
  save_message-Live m c ms works back h ok =
      let live = read_snapshot json api account conversation (pos 1) true c in
      let there =
        subst (ReadsWritten json api account conversation) (sym (read_snapshot-state c)) works in
      store_changed (put json api m) live.0 live.1 ms there back (sym (read-Live c ms h)) ok

  serve-Live :
      (d l : MessageDto json) (c : api.Cache) (ms : List (MessageItemDto json))
      → ReadsWritten json api account conversation c
      → ReadsBack (remove_served json api d.messages ms)
      → live_page json api ms ≡ l
      → Live c ms
      → let left = remove_served json api d.messages l.messages in
        let s =
          if length left == length l.messages
          then (true, c)
          else write_snapshot json api account conversation (record l { messages = left }) true c in
        s.0 ≡ true → Live s.1 (remove_served json api d.messages ms)
  serve-Live d l c ms k back e h =
      let left = remove_served json api d.messages in
      if_elim (λ (s : Bool × api.Cache). s.0 ≡ true → Live s.1 (left ms))
        (length (left l.messages) == length l.messages)
        (λ same ok.
          let unchanged = remove_served-same json api d.messages ms (
            subst (λ (l : MessageDto json). length (left l.messages) ≡ length l.messages) (sym e)
              ((==_iff (length (left l.messages)) (length l.messages)).0 same)) in
          subst (Live c) (sym unchanged) h)
        (λ differs. store_changed left l c ms k back e)

  save_response-Live :
      (d : MessageDto json) (c : api.Cache) (ms : List (MessageItemDto json))
      → WorksFor json api account conversation (serves d) c
      → ReadsBack (remove_served json api d.messages ms)
      → Live c ms
      → (save_response json api account conversation d c).0 ≡ true
      → Live
          (save_response json api account conversation d c).1
          (remove_served json api d.messages ms)
  unfolding save_response
  save_response-Live d c ms (k, k1, k2) back h =
      let written = write_snapshot json api account conversation d false c in
      let live = read_snapshot json api account conversation (pos 1) true written.1 in
      let before : Live written.1 ms = ap page_of_text k ∙ h in
      let there =
        subst (ReadsWritten json api account conversation) (sym (read_snapshot-state written.1))
          k2 in
      if_elim
        (λ (s : Bool × api.Cache). s.0 ≡ true → Live s.1 (remove_served json api d.messages ms))
        (not written.0) (λ e ok. absurd (cc))
        (λ e.
          serve-Live d live.0 live.1 ms there back (sym (read-Live written.1 ms before))
            (reread-Live written.1 ms k1 before))

  pub run-Live_from :
      (os : List (Action json api)) (c : api.Cache) (ms : List (MessageItemDto json))
      → WorksAlong json api account conversation os c
      → ReadsAlong os ms
      → Live c ms
      → (run json api account conversation os c).0 ≡ true
      → Live (run json api account conversation os c).1 (replay json api os ms)
  unfolding run replay step
  run-Live_from [] c ms works back h ok = h
  run-Live_from (saves m ∷ os) c ms (now, works) (back, along) h ok =
      let s = save_message json api account conversation m c in
      let answers = and_true s.0 (run json api account conversation os s.1).0 ok in
      run-Live_from os s.1 (put json api m ms) works along
        (save_message-Live m c ms now back h answers.0) answers.1
  run-Live_from (serves d ∷ os) c ms (now, works) (back, along) h ok =
      let s = save_response json api account conversation d c in
      let answers = and_true s.0 (run json api account conversation os s.1).0 ok in
      run-Live_from os s.1 (remove_served json api d.messages ms) works along
        (save_response-Live d c ms now back h answers.0) answers.1

  pub none-Live : (c : api.Cache) → (live_text json api account conversation c).0 ≡ none → Live c []
  unfolding page_or decode
  none-Live c h = ap page_of_text h

-- ===== src/Chat/HistoryCache/Pending.antt =====
-- The live messages of a conversation, through any history of saved pages and messages.
use chatdesktop.Prelude.{
  suc, ◌≤◌, ◌≡◌, refl, ap, pos, String, Bool, true, false, ◌&&◌, Option, some, List, [], ◌∷◌,
  any_of, length, if_elim, arith,
}
use chatdesktop.Chat.Wire.{JsonApi, MessageItemDto, MessageDto}
use chatdesktop.Chat.HistoryCache.{
  CacheApi, same_message, no_page, remove_served, save_response, put, save_message, conversation_id,
  secret, write_snapshot,
}

module _ (json : JsonApi) (api : CacheApi) where
  -- What happens to the cache of a conversation.
  pub data Action : Type 0 where
    saves : MessageItemDto json → Action
    serves : MessageDto json → Action

  unfoldable pub step : String → String → Action → api.Cache → Bool × api.Cache
  step account conversation (saves m) c = save_message json api account conversation m c
  step account conversation (serves d) c = save_response json api account conversation d c

  -- Whether every action answered true, and the cache after them.
  unfoldable pub run : String → String → List Action → api.Cache → Bool × api.Cache
  run account conversation [] c = (true, c)
  run account conversation (o ∷ os) c =
      let s = step account conversation o c in
      let rest = run account conversation os s.1 in (s.0 && rest.0, rest.1)

  -- The specification: a list, where a message replaces the one it is the same as, and a page takes
  -- away those that it has.
  unfoldable pub replay : List Action → List (MessageItemDto json) → List (MessageItemDto json)
  replay [] ms = ms
  replay (saves m ∷ os) ms = replay os (put json api m ms)
  replay (serves d ∷ os) ms = replay os (remove_served json api d.messages ms)

  abbrev pub live_page : List (MessageItemDto json) → MessageDto json
  live_page ms = record (no_page json api (pos 1)) { messages = ms }

  length-remove_served :
      (served ms : List (MessageItemDto json))
      → length (remove_served json api served ms) ≤ length ms
  unfolding remove_served
  length-remove_served served [] = omega arith
  length-remove_served served (m ∷ ms) =
      if_elim (λ (xs : List (MessageItemDto json)). length xs ≤ suc (length ms))
        (any_of (λ item. same_message json api item m) served)
        (λ e. omega (arith, length-remove_served served ms))
        (λ e. omega (arith, length-remove_served served ms))

  pub remove_served-same :
      (served ms : List (MessageItemDto json))
      → length (remove_served json api served ms) ≡ length ms
      → remove_served json api served ms ≡ ms
  unfolding remove_served
  remove_served-same served [] = λ h. refl
  remove_served-same served (m ∷ ms) =
      if_elim (λ (xs : List (MessageItemDto json)). length xs ≡ suc (length ms) → xs ≡ m ∷ ms)
        (any_of (λ item. same_message json api item m) served)
        (λ e h. absurd (omega (arith, length-remove_served served ms)))
        (λ e h. ap (◌∷◌ m) (remove_served-same served ms (omega arith)))

-- When `MessageCache` does for one conversation what it was asked: what a read of the live messages
-- gives stays what was last written. A read that fails gives none, and is no such read.
module _ (json : JsonApi) (api : CacheApi) (account conversation : String) where
  abbrev pub live_text : api.Cache → Option String × api.Cache
  live_text c =
      api.read_pending (conversation_id json api conversation)
        (secret json api account conversation) c

  -- A second read gives what the first gave.
  abbrev pub Rereads : api.Cache → Type 0
  Rereads c = (live_text (live_text c).1).0 ≡ (live_text c).0

  -- Live messages that were saved with success are read.
  abbrev pub ReadsWritten : api.Cache → Type 0
  ReadsWritten c =
      (t : String)
      → (api.save_pending t (conversation_id json api conversation)
          (secret json api account conversation) c).0
        ≡ true
      → (live_text
          (api.save_pending t (conversation_id json api conversation)
            (secret json api account conversation) c).1).0
        ≡ some t

  abbrev pub page_written : MessageDto json → api.Cache → api.Cache
  page_written d c = (write_snapshot json api account conversation d false c).1

  -- It works where an action uses it.
  abbrev pub WorksFor : Action json api → api.Cache → Type 0
  WorksFor (saves m) c = ReadsWritten (live_text c).1
  WorksFor (serves d) c =
      ((live_text (page_written d c)).0 ≡ (live_text c).0)
      × Rereads (page_written d c)
      × ReadsWritten (live_text (page_written d c)).1

  abbrev pub WorksAlong : List (Action json api) → api.Cache → Type 0
  WorksAlong [] c = Unit
  WorksAlong (o ∷ os) c = WorksFor o c × WorksAlong os (step json api account conversation o c).1

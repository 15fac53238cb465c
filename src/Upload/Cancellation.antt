-- ===== src/Upload/Cancellation.antt =====
-- src/features/chat/domain/repository/upload_cancellation.hpp: the cancellation token of one send.
-- The mutex makes each operation atomic, so an interleaving of threads is a list of operations.
pub mod Laws
use chatdesktop.Prelude.{
  ℕ, ◌==◌, ◌≡◌, Bool, true, false, not, ◌&&◌, ◌||◌, List, [], ◌∷◌, ◌++◌, if◌then◌else◌,
}

-- `QFuture` as the code uses it: a shared state that can be asked and cancelled.
pub record FutureApi : Type 1 where
  pub Future : Type 0
  pub is_finished : Future → Bool
  pub is_canceled : Future → Bool
  pub cancel : Future → Future
  pub cancel-is_canceled : (f : Future) → is_finished f ≡ false → is_canceled (cancel f) ≡ true
  pub cancel_keeps : (f : Future) → is_canceled f ≡ true → is_canceled (cancel f) ≡ true

-- The members of the token; a canceler is named by the future that it captures.
pub record Token : Type 0 where
  pub canceled : Bool
  pub committed : Bool
  pub cancelers : List ℕ

abbrev pub new_token : Token
new_token = record { canceled = false; committed = false; cancelers = [] }

module _ (api : FutureApi) where
  open api use {Future, is_finished, cancel as cancel_future}

  -- The futures by name: copies of a `QFuture` share one state.
  abbrev pub Futures : Type 0
  Futures = ℕ → Future

  pub update_future : Futures → ℕ → Future → Futures
  update_future fs i f j = if j == i then f else fs j

  -- The lambda that `track` stores.
  pub run_canceler : Futures → ℕ → Futures
  unfolding update_future
  run_canceler fs i =
      if not (is_finished (fs i)) then update_future fs i (cancel_future (fs i)) else fs

  pub run_cancelers : Futures → List ℕ → Futures
  run_cancelers fs [] = fs
  run_cancelers fs (i ∷ is) = run_cancelers (run_canceler fs i) is

  unfoldable pub track : Token × Futures → ℕ → Token × Futures
  unfolding update_future
  track (t, fs) i = (
    if not t.canceled && not t.committed
        then record t { cancelers = t.cancelers ++ (i ∷ []) }
        else t,
    if t.canceled then update_future fs i (cancel_future (fs i)) else fs,
  )

  unfoldable pub cancel : Token × Futures → Bool × (Token × Futures)
  cancel (t, fs) =
      if t.committed || t.canceled
      then (false, (t, fs))
      else (true, (record t { canceled = true; cancelers = [] }, run_cancelers fs t.cancelers))

  unfoldable pub try_commit : Token × Futures → Bool × (Token × Futures)
  try_commit (t, fs) =
      if t.canceled
      then (false, (t, fs))
      else (true, (record t { committed = true; cancelers = [] }, fs))

  pub data Op : Type 0 where
    tracks : ℕ → Op
    cancels : Op
    commits : Op
    -- The computation behind a future moves on by itself.
    progresses : ℕ → Future → Op

  unfoldable pub step : Token × Futures → Op → Token × Futures
  unfolding track cancel try_commit update_future
  step s (tracks i) = track s i
  step s cancels = (cancel s).1
  step s commits = (try_commit s).1
  step (t, fs) (progresses i f) = (t, update_future fs i f)

  unfoldable pub run : Token × Futures → List Op → Token × Futures
  run s [] = s
  run s (o ∷ os) = run (step s o) os

unfoldable pub is_canceled : Token → Bool
is_canceled t = t.canceled

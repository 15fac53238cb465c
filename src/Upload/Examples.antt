-- ===== src/Upload/Examples.antt =====
-- The theorems on the cancellation token at concrete futures.
use chatdesktop.Prelude.{◌≡◌, refl, true, false, [], ◌∷◌}
use chatdesktop.Upload.Cancellation.{
  Token, new_token, cancel, try_commit, tracks, cancels, commits, run, track, step,
}
use chatdesktop.Upload.FlagFutures.{api, futures}
use chatdesktop.Upload.Cancellation.Laws.{Inv, run-Inv, cancel_stops, try_commit_final}

run-Inv_example : Inv (run api (new_token, futures) (tracks 1 ∷ cancels ∷ commits ∷ [])).0
run-Inv_example = run-Inv api futures (tracks 1 ∷ cancels ∷ commits ∷ [])

abbrev tracked : Token
tracked = record { canceled = false; committed = false; cancelers = 1 ∷ 2 ∷ [] }

cancel_succeeds : (cancel api (tracked, futures)).0 ≡ true
unfolding cancel
cancel_succeeds = refl

cancel_stops_example : api.is_canceled ((cancel api (tracked, futures)).1.1 2) ≡ true
cancel_stops_example = cancel_stops api (tracked, futures) 2 refl cancel_succeeds refl

commit_succeeds : (try_commit api (run api (new_token, futures) (tracks 1 ∷ []))).0 ≡ true
unfolding try_commit run step track
commit_succeeds = refl

try_commit_final_example :
    let s =
      run api (try_commit api (run api (new_token, futures) (tracks 1 ∷ []))).1 (tracks 2 ∷ []) in
    cancel api s ≡ (false, s)
try_commit_final_example =
    try_commit_final api futures (tracks 1 ∷ []) (tracks 2 ∷ []) commit_succeeds

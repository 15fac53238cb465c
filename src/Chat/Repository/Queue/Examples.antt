-- ===== src/Chat/Repository/Queue/Examples.antt =====
-- Concrete histories of the send queue: a file that is cancelled before it starts, a send that
-- fails, and a repository that is destroyed while a send waits.
use chatdesktop.Prelude.{ℕ, ◌≡◌, refl, Bool, true, none, List, [], ◌∷◌, ◌++◌, ◌==◌}
use chatdesktop.Upload.FlagFutures.{api, futures}
use chatdesktop.Upload.Cancellation.{Token, new_token}
use chatdesktop.Chat.Repository.Queue.{
  returned, Repo, new_repo, Op, sends, sends_file, ends, first_watcher, run_deferred,
  on_connected_changed, next_process, enqueue, track_with, token_canceled, start_head,
  skip_canceled, start_entry, on_watched, settle, release, settlement_of, connects, wakes,
  cancels_upload, run, step, destroy,
}
use chatdesktop.Chat.Repository.Queue.Ledger.{settled_promises}
use chatdesktop.Chat.Repository.Queue.History.{
  IsOrderly, run-IsOrderly, run_settled, canceled_answers, destroy_settles,
}

-- Starting the entry of promise 3 throws.
abbrev throws : ℕ → Bool
throws p = p == 3

abbrev tokens : ℕ → Token
tokens t = new_token

abbrev ops : List (Op api throws)
ops =
    sends 1
    ∷ (sends_file "f" none 7 2 true
        ∷ (sends 3
            ∷ (sends 4
                ∷ (connects true ∷ (cancels_upload "f" ∷ (ends (returned none) ∷ (wakes ∷ [])))))))

run-IsOrderly_example :
    IsOrderly api throws (run api throws (new_repo api throws tokens futures) ops)
run-IsOrderly_example = run-IsOrderly api throws tokens futures ops

abbrev all_ops : List (Op api throws)
all_ops = connects true ∷ (sends 1 ∷ (sends 3 ∷ (ends (returned none) ∷ (wakes ∷ []))))

abbrev done : Repo api throws
done = run api throws (new_repo api throws tokens futures) all_ops

run_settled_example : (done.queue ≡ []) × (settled_promises api throws done ≡ done.enqueued)
unfolding run step first_watcher run_deferred on_connected_changed next_process enqueue track_with
    token_canceled start_head skip_canceled start_entry on_watched settle release settlement_of
run_settled_example = run_settled api throws tokens futures all_ops done refl refl refl refl

abbrev waiting : Repo api throws
waiting =
    run api throws (new_repo api throws tokens futures)
      (sends 1 ∷ (sends_file "f" none 7 2 true ∷ []))

destroy_settles_example :
    ((destroy api throws waiting).queue ≡ [])
    × ((destroy api throws waiting).settled
        ≡ waiting.settled ++ canceled_answers api throws waiting.queue)
destroy_settles_example = destroy_settles api throws waiting

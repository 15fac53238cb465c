-- ===== src/Upload/Cancellation/Laws.antt =====
-- What holds of the token after any history, and what a successful `cancel` or `tryCommit` means.
use chatdesktop.Prelude.{
  ℕ, ◌==◌, ==_iff, ◌≡◌, refl, inl, inr, true, false, ◌&&◌, ◌||◌, List, [], ◌∷◌, arith, any_of,
  Bool-cases,
}
use chatdesktop.Upload.Cancellation.{
  FutureApi, Token, new_token, Futures, run_canceler, run_cancelers, track, cancel, try_commit, Op,
  tracks, cancels, commits, progresses, step, run,
}

-- A token is never both cancelled and committed, and keeps no canceler once it is either.
pub record Inv (t : Token) : Type 0 where
  pub exclusive : (t.canceled && t.committed) ≡ false
  pub released : (t.canceled || t.committed) ≡ true → t.cancelers ≡ []

module _ (api : FutureApi) where
  pub step-Inv : (s : Token × Futures api) (o : Op api) → Inv s.0 → Inv (step api s o).0
  unfolding step track cancel try_commit
  step-Inv (t, fs) (tracks i) v = ground arith
  step-Inv (t, fs) cancels v = ground arith
  step-Inv (t, fs) commits v = ground arith
  step-Inv (t, fs) (progresses i f) v = v

  pub run-Inv_from : (s : Token × Futures api) (os : List (Op api)) → Inv s.0 → Inv (run api s os).0
  unfolding run
  run-Inv_from s [] v = v
  run-Inv_from s (o ∷ os) v = run-Inv_from (step api s o) os (step-Inv s o v)

  -- After any sequence of operations on a fresh token it is not both cancelled and committed, and
  -- it holds no canceler if it is one of the two.
  pub run-Inv : (fs : Futures api) (os : List (Op api)) → Inv (run api (new_token, fs) os).0
  run-Inv fs os =
      run-Inv_from (new_token, fs) os (record { exclusive = refl; released = λ e. refl })

  run_canceler_keeps :
      (fs : Futures api) (j i : ℕ)
      → api.is_canceled (fs i) ≡ true
      → api.is_canceled (run_canceler api fs j i) ≡ true
  unfolding run_canceler
  run_canceler_keeps fs j i h = ground (arith, api.cancel_keeps (fs i), ==_iff i j)

  run_canceler_hits :
      (fs : Futures api) (i : ℕ)
      → api.is_finished (fs i) ≡ false
      → api.is_canceled (run_canceler api fs i i) ≡ true
  unfolding run_canceler
  run_canceler_hits fs i h = ground (arith, api.cancel-is_canceled (fs i))

  run_cancelers_keep :
      (is : List ℕ) (fs : Futures api) (i : ℕ)
      → api.is_canceled (fs i) ≡ true
      → api.is_canceled (run_cancelers api fs is i) ≡ true
  unfolding run_cancelers
  run_cancelers_keep [] fs i h = h
  run_cancelers_keep (j ∷ is) fs i h =
      run_cancelers_keep is (run_canceler api fs j) i (run_canceler_keeps fs j i h)

  run_canceler_other :
      (fs : Futures api) (j i : ℕ) → (j == i) ≡ false → run_canceler api fs j i ≡ fs i
  unfolding run_canceler
  run_canceler_other fs j i h = ground arith

  run_cancelers_hit :
      (is : List ℕ) (fs : Futures api) (i : ℕ)
      → any_of (λ j. j == i) is ≡ true
      → api.is_finished (fs i) ≡ false
      → api.is_canceled (run_cancelers api fs is i) ≡ true
  unfolding run_cancelers
  run_cancelers_hit [] fs i m h = cc
  run_cancelers_hit (j ∷ is) fs i m h = elim (Bool-cases (j == i)) [
    | inl e ↦
        let e' : j ≡ i = (==_iff j i).0 e in
        rw e' (run_cancelers_keep is (run_canceler api fs i) i (run_canceler_hits fs i h))
    | inr e ↦
        run_cancelers_hit is (run_canceler api fs j) i (ground arith)
          (rw (run_canceler_other fs j i e) h)
  ]

  -- When `cancel` returns true, each registered future that had not finished is cancelled.
  pub cancel_stops :
      (s : Token × Futures api) (i : ℕ)
      → any_of (λ j. j == i) s.0.cancelers ≡ true
      → (cancel api s).0 ≡ true
      → api.is_finished (s.1 i) ≡ false
      → api.is_canceled ((cancel api s).1.1 i) ≡ true
  unfolding cancel
  cancel_stops (t, fs) i m c h = ground (arith, run_cancelers_hit t.cancelers fs i)

  step-committed :
      (s : Token × Futures api) (o : Op api)
      → Inv s.0
      → s.0.committed ≡ true
      → (step api s o).0.committed ≡ true
  unfolding step track cancel try_commit
  step-committed (t, fs) (tracks i) v h = ground arith
  step-committed (t, fs) cancels v h = ground arith
  step-committed (t, fs) commits v h = ground arith
  step-committed (t, fs) (progresses i f) v h = h

  pub committed-run :
      (s : Token × Futures api) (os : List (Op api))
      → Inv s.0
      → s.0.committed ≡ true
      → (run api s os).0.committed ≡ true
  unfolding run
  committed-run s [] v h = h
  committed-run s (o ∷ os) v h =
      committed-run (step api s o) os (step-Inv s o v) (step-committed s o v h)

  pub commit-Inv : (s : Token × Futures api) → Inv s.0 → Inv (try_commit api s).1.0
  unfolding step
  commit-Inv s v = step-Inv s commits v

  pub commit-committed :
      (s : Token × Futures api)
      → (try_commit api s).0 ≡ true
      → (try_commit api s).1.0.committed ≡ true
  unfolding try_commit
  commit-committed (t, fs) h = ground arith

  pub cancel_refused : (s : Token × Futures api) → s.0.committed ≡ true → cancel api s ≡ (false, s)
  unfolding cancel
  cancel_refused (t, fs) h = rw h

  -- After a `tryCommit` that returned true, whatever operations follow, `cancel` returns false and
  -- changes neither the token nor any future.
  pub try_commit_final :
      (fs : Futures api) (before after : List (Op api))
      → (try_commit api (run api (new_token, fs) before)).0 ≡ true
      → let s = run api (try_commit api (run api (new_token, fs) before)).1 after in
        cancel api s ≡ (false, s)
  try_commit_final fs before after h =
      let s0 = run api (new_token, fs) before in
      let s1 = (try_commit api s0).1 in
      cancel_refused (run api s1 after)
        (committed-run s1 after (commit-Inv s0 (run-Inv fs before)) (commit-committed s0 h))

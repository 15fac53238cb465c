-- ===== src/Voip/CallVm/Stale.antt =====
-- A permission that is granted too late starts no call.
use chatdesktop.Prelude.{
  ℕ, ◌+◌, ◌*◌, ◌^◌, ◌<◌, ◌≡◌, ◌≢◌, refl, sym, ◌∙◌, subst, String, Bool, true, false, not, Option,
  none, some, List, [], ◌∷◌, length, All, All-map, is_empty, ◌==◌, if_elim, arith,
}
use chatdesktop.Voip.CallVm.{
  Status, Dialog, microphone, camera, request_of, next_request, nth_dialog, CallVm, new_call_vm,
  emit, call, on_answer, answer_found, decline, clear_local, clear_remote, clear_connection_state,
  reset, Op, answers, step, run,
}
use chatdesktop.Voip.CallVm.Fresh.{
  next_small, AllFound, nth_dialog-AllFound, Fresh, clear_frames-Fresh, step-Fresh,
}

neq : (a b : ℕ) → a ≢ b → (a == b) ≡ false
neq a b h = ground arith

module _ {Frame : Type 0} (no_frame : Frame) (trimmed : String → String) where
  run-Fresh :
      (n : ℕ) (os : List (Op no_frame trimmed)) (vm : CallVm no_frame trimmed)
      → n + 2 * length os < 2 ^ 64
      → Fresh no_frame trimmed n vm
      → Fresh no_frame trimmed (n + 2 * length os) (run no_frame trimmed os vm)
  unfolding run
  run-Fresh n [] vm l (b, h) = (omega arith, h)
  run-Fresh n (o ∷ os) vm l h =
      let k =
        run-Fresh (n + 2) os (step no_frame trimmed o vm) (omega arith)
          (step-Fresh no_frame trimmed n o vm (omega arith) h) in
      (omega (arith, k.0), k.1)

  -- No open dialog belongs to the current request.
  abbrev Late : CallVm no_frame trimmed → Type 0
  Late vm = All (λ d. request_of d ≢ vm.permission_request) vm.dialogs

  next-Late :
      (n : ℕ) (vm : CallVm no_frame trimmed)
      → n + 1 < 2 ^ 64
      → Fresh no_frame trimmed n vm
      → Late (record vm { permission_request = next_request vm.permission_request })
  next-Late n vm l (b, h) =
      let e = next_small vm.permission_request (omega arith) in
      All-map vm.dialogs (λ d k. omega (arith, e)) h

  -- `reset` or `declineCall`.
  abbrev pub hang_up : Bool → CallVm no_frame trimmed → CallVm no_frame trimmed
  hang_up true vm = reset no_frame trimmed vm
  hang_up false vm = decline no_frame trimmed vm

  hang_up-Late :
      (n : ℕ) (b : Bool) (vm : CallVm no_frame trimmed)
      → n + 1 < 2 ^ 64
      → Fresh no_frame trimmed n vm
      → Late (hang_up b vm)
  unfolding reset decline clear_connection_state emit call
  hang_up-Late n false vm l h = next-Late n vm l h
  hang_up-Late n true vm l h =
      let cleared =
        clear_remote no_frame trimmed
          (clear_local no_frame trimmed (record vm { accept_remote_video = false })) in
      let late =
        next-Late n cleared l
          (clear_frames-Fresh no_frame trimmed n (record vm { accept_remote_video = false }) h) in
      if_elim Late (not (is_empty cleared.connection_state)) (λ e. late) (λ e. late)

  on_answer_late :
      (d : Dialog) (result cam : Status) (vm : CallVm no_frame trimmed)
      → request_of d ≢ vm.permission_request
      → on_answer no_frame trimmed d result cam vm ≡ vm
  unfolding on_answer
  on_answer_late (microphone n video c) result cam vm h = simp (neq n vm.permission_request h)
  on_answer_late (camera n c) result cam vm h = simp (neq n vm.permission_request h)

  -- Nothing has happened to the use case and to the user since `vm`.
  abbrev Quiet : CallVm no_frame trimmed → CallVm no_frame trimmed → Type 0
  Quiet vm w = (w.calls ≡ vm.calls) × (w.signals ≡ vm.signals) × Late w

  answer_found-Late :
      (o : Option (Dialog × List Dialog)) (result cam : Status) (vm : CallVm no_frame trimmed)
      → AllFound (λ d. request_of d ≢ vm.permission_request) o
      → Late vm
      → Quiet vm (answer_found no_frame trimmed o result cam vm)
  unfolding answer_found
  answer_found-Late none result cam vm f late = (refl, refl, late)
  answer_found-Late (some x) result cam vm f late =
      subst (Quiet vm) (sym (on_answer_late x.0 result cam (record vm { dialogs = x.1 }) f.0))
        (refl, refl, f.1)

  -- The answers that dialogs give, with the state of the camera's permission.
  abbrev pub replies : List (ℕ × (Status × Status)) → List (Op no_frame trimmed)
  replies [] = []
  replies (r ∷ rs) = answers r.0 r.1.0 r.1.1 ∷ replies rs

  replies-Late :
      (rs : List (ℕ × (Status × Status))) (vm : CallVm no_frame trimmed)
      → Late vm
      → Quiet vm (run no_frame trimmed (replies rs) vm)
  unfolding run step
  replies-Late [] vm late = (refl, refl, late)
  replies-Late (r ∷ rs) vm late =
      let one =
        answer_found-Late (nth_dialog r.0 vm.dialogs) r.1.0 r.1.1 vm
          (nth_dialog-AllFound (λ d. request_of d ≢ vm.permission_request) r.0 vm.dialogs late)
          late in
      let rest =
        replies-Late rs (answer_found no_frame trimmed (nth_dialog r.0 vm.dialogs) r.1.0 r.1.1 vm)
          one.2 in
      (rest.0 ∙ one.0, rest.1 ∙ one.1, rest.2)

  -- A permission that is answered after the call was reset or declined does nothing: whatever
  -- happened before, no answer to the dialogs that are still open reaches the use case or the user.
  -- The history is taken to be short enough that the request counter does not wrap around.
  pub late_replies_ignored :
      (os : List (Op no_frame trimmed)) (b : Bool) (rs : List (ℕ × (Status × Status)))
      → 2 * length os + 1 < 2 ^ 64
      → let hung_up = hang_up b (run no_frame trimmed os (new_call_vm no_frame trimmed)) in
        ((run no_frame trimmed (replies rs) hung_up).calls ≡ hung_up.calls)
        × ((run no_frame trimmed (replies rs) hung_up).signals ≡ hung_up.signals)
  late_replies_ignored os b rs l =
      let vm = run no_frame trimmed os (new_call_vm no_frame trimmed) in
      let fresh = run-Fresh 0 os (new_call_vm no_frame trimmed) (omega arith) (omega arith, tt) in
      let q =
        replies-Late rs (hang_up b vm)
          (hang_up-Late (0 + 2 * length os) b vm (omega arith) fresh) in
      (q.0, q.1)

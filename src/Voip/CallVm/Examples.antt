-- ===== src/Voip/CallVm/Examples.antt =====
-- A call that is reset while the system still asks for the microphone.
use chatdesktop.Prelude.{ℕ, ◌≡◌, String, true, List, [], ◌∷◌, arith}
use chatdesktop.Voip.CallVm.{
  CallVm, new_call_vm, granted, undetermined, requests_call, starts_call, run, Op,
}
use chatdesktop.Voip.CallVm.Stale.{hang_up, replies, late_replies_ignored}

abbrev as_is : String → String
as_is s = s

abbrev asked : List (Op {Frame = ℕ} 0 as_is)
asked =
    requests_call undetermined granted "bob" "Bob" ∷ (starts_call undetermined granted true ∷ [])

abbrev hung_up : CallVm {Frame = ℕ} 0 as_is
hung_up = hang_up 0 as_is true (run 0 as_is asked (new_call_vm 0 as_is))

late_replies_ignored_example :
    ((run 0 as_is
        (replies 0 as_is ((1, (granted, granted)) ∷ ((0, (granted, granted)) ∷ [])))
        hung_up).calls
      ≡ hung_up.calls)
    × ((run 0 as_is
          (replies 0 as_is ((1, (granted, granted)) ∷ ((0, (granted, granted)) ∷ [])))
          hung_up).signals
        ≡ hung_up.signals)
late_replies_ignored_example =
    late_replies_ignored 0 as_is asked true
      ((1, (granted, granted)) ∷ ((0, (granted, granted)) ∷ [])) (omega arith)

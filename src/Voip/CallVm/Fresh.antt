-- ===== src/Voip/CallVm/Fresh.antt =====
-- The open dialogs belong to requests up to the current one, as long as the counter does not wrap.
use chatdesktop.Prelude.{
  ℕ, zero, suc, ◌+◌, ◌^◌, ◌≤◌, ◌<◌, ◌≡◌, String, Bool, true, false, not, Option, none, some, List,
  [], ◌∷◌, ◌++◌, All, All-append, All-map, is_empty, str_eq, ◌==◌, if_elim, arith,
}
use chatdesktop.Voip.CallVm.{
  CallState, idle, calling, ringing, connected, reconnect, reject, hand_up, exchange, Status,
  granted, denied, undetermined, call_window_requested, Completion, starts, prepares, accepts,
  Dialog, microphone, camera, request_of, next_request, cons_rest, nth_dialog, CallVm, emit, call,
  put_frame, complete, check_camera, on_microphone_granted, check_microphone, with_call_permissions,
  on_microphone_answer, on_camera_answer, on_answer, answer_found, start_call, request_call,
  decline, clear_local, clear_remote, clear_connection_state, reset, accept, set_connection_state,
  set_call_state, end_connection, on_propose_received, on_call_state_change, on_local_frame,
  on_remote_frame, same_sink, set_local_video_sink, set_remote_video_sink, Op, starts_call,
  requests_call, accepts_call, answers, declines, resets, ends, proposes, changes, shows_local,
  shows_remote, sets_local_sink, sets_remote_sink, step, state_number,
}

pub next_small : (n : ℕ) → n + 1 < 2 ^ 64 → next_request n ≡ n + 1
next_small n h = ground arith

module _ (P : Dialog → Type 0) where
  abbrev pub AllFound : Option (Dialog × List Dialog) → Type 0
  AllFound none = Unit
  AllFound (some x) = P x.0 × All P x.1

  AllFound-cons_rest :
      (d : Dialog) (o : Option (Dialog × List Dialog)) → P d → AllFound o → AllFound (cons_rest d o)
  AllFound-cons_rest d none p h = tt
  AllFound-cons_rest d (some x) p h = (h.0, (p, h.1))

  pub nth_dialog-AllFound : (i : ℕ) (ds : List Dialog) → All P ds → AllFound (nth_dialog i ds)
  nth_dialog-AllFound i [] h = tt
  nth_dialog-AllFound zero (d ∷ ds) h = h
  nth_dialog-AllFound (suc i) (d ∷ ds) (h, hs) =
      AllFound-cons_rest d (nth_dialog i ds) h (nth_dialog-AllFound i ds hs)

raise : {T : Type 0} {x : ℕ} (m n : ℕ) → m ≤ n → (x ≤ m) × T → (x ≤ n) × T
raise m n l (b, h) = (omega arith, h)

module _ {Frame : Type 0} (no_frame : Frame) (trimmed : String → String) where
  -- All open dialogs belong to requests up to the current one, and that is at most `n`.
  abbrev pub Fresh : ℕ → CallVm no_frame trimmed → Type 0
  Fresh n vm =
      (vm.permission_request ≤ n) × All (λ d. request_of d ≤ vm.permission_request) vm.dialogs

  complete-Fresh :
      (n : ℕ) (c : Completion) (vm : CallVm no_frame trimmed)
      → Fresh n vm
      → Fresh n (complete no_frame trimmed c vm)
  unfolding complete call
  complete-Fresh n (starts receiver video) vm h = h
  complete-Fresh n prepares vm h = h
  complete-Fresh n accepts vm h = h

  on_microphone_granted-Fresh :
      (n : ℕ) (cam : Status) (video : Bool) (c : Completion) (vm : CallVm no_frame trimmed)
      → Fresh n vm
      → Fresh n (on_microphone_granted no_frame trimmed cam video c vm)
  unfolding on_microphone_granted check_camera emit
  on_microphone_granted-Fresh n cam false c vm h = complete-Fresh n c vm h
  on_microphone_granted-Fresh n granted true c vm h = complete-Fresh n c vm h
  on_microphone_granted-Fresh n denied true c vm h = h
  on_microphone_granted-Fresh n undetermined true c vm (b, h) = (
    b,
    All-append (λ d. request_of d ≤ vm.permission_request) vm.dialogs
        (camera vm.permission_request c ∷ []) h (omega arith, tt),
  )

  next-Fresh :
      (n : ℕ) (vm : CallVm no_frame trimmed)
      → n + 1 < 2 ^ 64
      → Fresh n vm
      → Fresh (n + 1) (record vm { permission_request = next_request vm.permission_request })
  next-Fresh n vm l (b, h) =
      let e = next_small vm.permission_request (omega arith) in
      (omega (arith, e), All-map vm.dialogs (λ d k. omega (arith, e)) h)

  with_permissions-Fresh :
      (n : ℕ) (mic cam : Status) (video : Bool) (c : Completion) (vm : CallVm no_frame trimmed)
      → n + 1 < 2 ^ 64
      → Fresh n vm
      → Fresh (n + 1) (with_call_permissions no_frame trimmed mic cam video c vm)
  unfolding with_call_permissions check_microphone emit
  with_permissions-Fresh n granted cam video c vm l h =
      on_microphone_granted-Fresh (n + 1) cam video c _ (next-Fresh n vm l h)
  with_permissions-Fresh n denied cam video c vm l h = next-Fresh n vm l h
  with_permissions-Fresh n undetermined cam video c vm l h =
      let k = next-Fresh n vm l h in
      (
        k.0,
        All-append (λ d. request_of d ≤ next_request vm.permission_request) vm.dialogs
            (microphone (next_request vm.permission_request) video c ∷ []) k.1 (omega arith, tt),
      )

  put_frame-Fresh :
      (n : ℕ) (sink : Option ℕ) (frame : Frame) (vm : CallVm no_frame trimmed)
      → Fresh n vm
      → Fresh n (put_frame no_frame trimmed sink frame vm)
  unfolding put_frame
  put_frame-Fresh n none frame vm h = h
  put_frame-Fresh n (some sink) frame vm h = h

  pub clear_frames-Fresh :
      (n : ℕ) (vm : CallVm no_frame trimmed)
      → Fresh n vm
      → Fresh n (clear_remote no_frame trimmed (clear_local no_frame trimmed vm))
  unfolding clear_remote clear_local emit
  clear_frames-Fresh n vm h =
      put_frame-Fresh n _ no_frame _
        (put_frame-Fresh n vm.local_sink no_frame (record vm { local_frame = no_frame }) h)

  clear_connection-Fresh :
      (n : ℕ) (vm : CallVm no_frame trimmed)
      → Fresh n vm
      → Fresh n (clear_connection_state no_frame trimmed vm)
  unfolding clear_connection_state emit
  clear_connection-Fresh n vm h =
      if_elim (Fresh n) (not (is_empty vm.connection_state)) (λ e. h) (λ e. h)

  reset-Fresh :
      (n : ℕ) (vm : CallVm no_frame trimmed)
      → n + 1 < 2 ^ 64
      → Fresh n vm
      → Fresh (n + 1) (reset no_frame trimmed vm)
  unfolding reset call
  reset-Fresh n vm l h = clear_connection-Fresh (n + 1) _ (
      next-Fresh n
        (clear_remote no_frame trimmed
          (clear_local no_frame trimmed (record vm { accept_remote_video = false })))
        l (clear_frames-Fresh n (record vm { accept_remote_video = false }) h))

  set_connection_state-Fresh :
      (n : ℕ) (state : String) (vm : CallVm no_frame trimmed)
      → Fresh n vm
      → Fresh n (set_connection_state no_frame trimmed state vm)
  unfolding set_connection_state emit
  set_connection_state-Fresh n state vm h =
      if_elim (Fresh n) (str_eq state vm.connection_state) (λ e. h) (λ e. h)

  on_call_state_change-Fresh :
      (n : ℕ) (state : CallState) (vm : CallVm no_frame trimmed)
      → Fresh n vm
      → Fresh n (on_call_state_change no_frame trimmed state vm)
  unfolding on_call_state_change set_call_state emit
  on_call_state_change-Fresh n idle vm h = h
  on_call_state_change-Fresh n calling vm h = set_connection_state-Fresh n "Calling" vm h
  on_call_state_change-Fresh n ringing vm h =
      set_connection_state-Fresh n "Ringing" _
        (if_elim (Fresh n) (state_number ringing == state_number vm.call_state) (λ e. h) (λ e. h))
  on_call_state_change-Fresh n connected vm h = set_connection_state-Fresh n "Connected" vm h
  on_call_state_change-Fresh n reconnect vm h = set_connection_state-Fresh n "Reconnect" vm h
  on_call_state_change-Fresh n reject vm h = set_connection_state-Fresh n "Reject" vm h
  on_call_state_change-Fresh n hand_up vm h = set_connection_state-Fresh n "Hand up" vm h
  on_call_state_change-Fresh n exchange vm h = set_connection_state-Fresh n "Exchange" vm h

  on_microphone_answer-Fresh :
      (n : ℕ) (result cam : Status) (video : Bool) (c : Completion) (vm : CallVm no_frame trimmed)
      → Fresh n vm
      → Fresh n (on_microphone_answer no_frame trimmed result cam video c vm)
  unfolding on_microphone_answer emit
  on_microphone_answer-Fresh n granted cam video c vm h =
      on_microphone_granted-Fresh n cam video c vm h
  on_microphone_answer-Fresh n denied cam video c vm h = h
  on_microphone_answer-Fresh n undetermined cam video c vm h = h

  on_camera_answer-Fresh :
      (n : ℕ) (result : Status) (c : Completion) (vm : CallVm no_frame trimmed)
      → Fresh n vm
      → Fresh n (on_camera_answer no_frame trimmed result c vm)
  unfolding on_camera_answer emit
  on_camera_answer-Fresh n granted c vm h = complete-Fresh n c vm h
  on_camera_answer-Fresh n denied c vm h = h
  on_camera_answer-Fresh n undetermined c vm h = h

  on_answer-Fresh :
      (n : ℕ) (d : Dialog) (result cam : Status) (vm : CallVm no_frame trimmed)
      → Fresh n vm
      → Fresh n (on_answer no_frame trimmed d result cam vm)
  unfolding on_answer
  on_answer-Fresh n (microphone k video c) result cam vm h =
      if_elim (Fresh n) (not (k == vm.permission_request)) (λ e. h)
        (λ e. on_microphone_answer-Fresh n result cam video c vm h)
  on_answer-Fresh n (camera k c) result cam vm h =
      if_elim (Fresh n) (not (k == vm.permission_request)) (λ e. h)
        (λ e. on_camera_answer-Fresh n result c vm h)

  answer_found-Fresh :
      (n : ℕ) (o : Option (Dialog × List Dialog)) (result cam : Status)
      (vm : CallVm no_frame trimmed)
      → AllFound (λ d. request_of d ≤ vm.permission_request) o
      → Fresh n vm
      → Fresh n (answer_found no_frame trimmed o result cam vm)
  unfolding answer_found
  answer_found-Fresh n none result cam vm f h = h
  answer_found-Fresh n (some x) result cam vm f h =
      on_answer-Fresh n x.0 result cam (record vm { dialogs = x.1 }) (h.0, f.1)

  set_sinks-Fresh :
      (n : ℕ) (sink : Option ℕ) (vm : CallVm no_frame trimmed)
      → Fresh n vm
      → Fresh n (set_local_video_sink no_frame trimmed sink vm)
        × Fresh n (set_remote_video_sink no_frame trimmed sink vm)
  unfolding set_local_video_sink set_remote_video_sink emit
  set_sinks-Fresh n sink vm h = (
    if_elim (Fresh n) (same_sink no_frame trimmed vm.local_sink sink) (λ e. h)
        (λ e.
          put_frame-Fresh n sink vm.local_frame
            (record (put_frame no_frame trimmed vm.local_sink no_frame vm) { local_sink = sink })
            (put_frame-Fresh n vm.local_sink no_frame vm h)),
    if_elim (Fresh n) (same_sink no_frame trimmed vm.remote_sink sink) (λ e. h)
        (λ e.
          put_frame-Fresh n sink vm.remote_frame
            (record (put_frame no_frame trimmed vm.remote_sink no_frame vm) { remote_sink = sink })
            (put_frame-Fresh n vm.remote_sink no_frame vm h)),
  )

  pub step-Fresh :
      (n : ℕ) (o : Op no_frame trimmed) (vm : CallVm no_frame trimmed)
      → n + 2 < 2 ^ 64
      → Fresh n vm
      → Fresh (n + 2) (step no_frame trimmed o vm)
  unfolding step start_call request_call accept decline end_connection on_propose_received
      on_local_frame on_remote_frame emit call
  step-Fresh n (starts_call mic cam video) vm l h =
      if_elim (Fresh (n + 2)) (is_empty (trimmed vm.receiver_id))
        (λ e. raise n (n + 2) (omega arith) h)
        (λ e.
          raise (n + 1) (n + 2) (omega arith) (
            with_permissions-Fresh n mic cam video (starts vm.receiver_id video) vm (omega arith)
              h))
  step-Fresh n (requests_call mic cam receiver user) vm l h =
      if_elim (Fresh (n + 2)) (is_empty (trimmed receiver)) (λ e. raise n (n + 2) (omega arith) h)
        (λ e.
          let asked = record vm {
            permission_request = next_request vm.permission_request;
            receiver_id = receiver;
            user_name = user;
            signals = vm.signals ++ (call_window_requested receiver user ∷ []);
          } in
          raise (n + 1 + 1) (n + 2) (omega arith) (
            with_permissions-Fresh (n + 1) mic cam true prepares asked (omega arith)
              (next-Fresh n vm (omega arith) h)))
  step-Fresh n (accepts_call mic cam) vm l h =
      raise (n + 1) (n + 2) (omega arith)
        (with_permissions-Fresh n mic cam vm.incoming_video accepts vm (omega arith) h)
  step-Fresh n (answers i result cam) vm l h = raise n (n + 2) (omega arith) (
      answer_found-Fresh n (nth_dialog i vm.dialogs) result cam vm
        (nth_dialog-AllFound (λ d. request_of d ≤ vm.permission_request) i vm.dialogs h.1) h)
  step-Fresh n declines vm l h =
      raise (n + 1) (n + 2) (omega arith) (next-Fresh n vm (omega arith) h)
  step-Fresh n resets vm l h =
      raise (n + 1) (n + 2) (omega arith) (reset-Fresh n vm (omega arith) h)
  step-Fresh n ends vm l h =
      raise n (n + 2) (omega arith)
        (set_connection_state-Fresh n "" (record vm { connection_state = "" }) h)
  step-Fresh n (proposes sender video) vm l h = raise n (n + 2) (omega arith) h
  step-Fresh n (changes state) vm l h =
      raise n (n + 2) (omega arith) (on_call_state_change-Fresh n state vm h)
  step-Fresh n (shows_local frame) vm l h = raise n (n + 2) (omega arith) (
      if_elim (Fresh n) vm.accept_remote_video
        (λ e. put_frame-Fresh n vm.local_sink frame (record vm { local_frame = frame }) h) (λ e. h))
  step-Fresh n (shows_remote frame) vm l h = raise n (n + 2) (omega arith) (
      if_elim (Fresh n) vm.accept_remote_video
        (λ e. put_frame-Fresh n vm.remote_sink frame (record vm { remote_frame = frame }) h)
        (λ e. h))
  step-Fresh n (sets_local_sink sink) vm l h =
      raise n (n + 2) (omega arith) (set_sinks-Fresh n sink vm h).0
  step-Fresh n (sets_remote_sink sink) vm l h =
      raise n (n + 2) (omega arith) (set_sinks-Fresh n sink vm h).1

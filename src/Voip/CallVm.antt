-- ===== src/Voip/CallVm.antt =====
-- src/features/voip/presentation/viewmodel/call_vm.cpp: the state of a call as QML sees it. What the
-- system says of a permission, now or in a dialog, comes with each operation; the calls of the use
-- case, the signals and the frames put on a sink are logs. The use case is never null, since the
-- constructor calls it. The media devices are only forwarded to and left out.
mod Fresh
mod Stale
mod Examples
use chatdesktop.Prelude.{
  ℕ, zero, suc, ◌+◌, ◌%◌, ◌^◌, String, Bool, true, false, not, Option, none, some, List, [], ◌∷◌,
  ◌++◌, is_empty, str_eq, ◌==◌, if◌then◌else◌,
}

pub data CallState : Type 0 where
  idle calling ringing connected reconnect reject hand_up exchange : CallState

abbrev pub state_number : CallState → ℕ
state_number idle = 0
state_number calling = 1
state_number ringing = 2
state_number connected = 3
state_number reconnect = 4
state_number reject = 5
state_number hand_up = 6
state_number exchange = 7

-- `Qt::PermissionStatus`.
pub data Status : Type 0 where
  granted denied undetermined : Status

-- What is asked of the use case.
pub data UseCall : Type 0 where
  execute : String → Bool → UseCall
  prepare : UseCall
  accept_call : UseCall
  decline_call : UseCall
  end_call : UseCall

pub data Signal : Type 0 where
  call_failed : String → Signal
  local_video_frame_changed : Signal
  remote_video_frame_changed : Signal
  local_video_sink_changed : Signal
  remote_video_sink_changed : Signal
  call_window_requested : String → String → Signal
  propose_received : String → Bool → Signal
  connection_state_changed : Signal
  call_state_changed : Signal

-- What a caller of `withCallPermissions` does when all is granted.
pub data Completion : Type 0 where
  starts : String → Bool → Completion
  prepares : Completion
  accepts : Completion

-- A permission that was asked for, with the request it belongs to.
pub data Dialog : Type 0 where
  microphone : ℕ → Bool → Completion → Dialog
  camera : ℕ → Completion → Dialog

abbrev pub request_of : Dialog → ℕ
request_of (microphone n video c) = n
request_of (camera n c) = n

-- `++` on a `quint64`.
abbrev pub next_request : ℕ → ℕ
next_request n = (n + 1) % 2 ^ 64

abbrev pub cons_rest : Dialog → Option (Dialog × List Dialog) → Option (Dialog × List Dialog)
cons_rest e none = none
cons_rest e (some x) = some (x.0, e ∷ x.1)

-- A dialog and the others.
abbrev pub nth_dialog : ℕ → List Dialog → Option (Dialog × List Dialog)
nth_dialog i [] = none
nth_dialog zero (d ∷ ds) = some (d, ds)
nth_dialog (suc i) (d ∷ ds) = cons_rest d (nth_dialog i ds)

module _ {Frame : Type 0} (no_frame : Frame) (trimmed : String → String) where
  -- The members of the view model, the open dialogs and the logs.
  pub record CallVm : Type 0 where
    pub local_frame : Frame
    pub local_sink : Option ℕ
    pub remote_frame : Frame
    pub remote_sink : Option ℕ
    pub accept_remote_video : Bool
    pub incoming_video : Bool
    pub permission_request : ℕ
    pub receiver_id : String
    pub user_name : String
    pub connection_state : String
    pub call_state : CallState
    pub dialogs : List Dialog
    pub calls : List UseCall
    pub signals : List Signal
    pub shown : List (ℕ × Frame)

  abbrev pub new_call_vm : CallVm
  new_call_vm = record {
    local_frame = no_frame;
    local_sink = none;
    remote_frame = no_frame;
    remote_sink = none;
    accept_remote_video = false;
    incoming_video = false;
    permission_request = 0;
    receiver_id = "";
    user_name = "";
    connection_state = "";
    call_state = idle;
    dialogs = [];
    calls = [];
    signals = [];
    shown = [];
  }

  unfoldable pub emit : Signal → CallVm → CallVm
  emit s vm = record vm { signals = vm.signals ++ (s ∷ []) }

  unfoldable pub call : UseCall → CallVm → CallVm
  call u vm = record vm { calls = vm.calls ++ (u ∷ []) }

  unfoldable pub put_frame : Option ℕ → Frame → CallVm → CallVm
  put_frame none frame vm = vm
  put_frame (some sink) frame vm = record vm { shown = vm.shown ++ ((sink, frame) ∷ []) }

  unfoldable pub complete : Completion → CallVm → CallVm
  complete (starts receiver video) vm =
      call (execute receiver video) (record vm { accept_remote_video = true })
  complete prepares vm = call prepare (record vm { accept_remote_video = true })
  complete accepts vm = call accept_call (record vm { accept_remote_video = true })

  -- What `withCallPermissions` does with the microphone granted; `cam` is the state of the camera's
  -- permission.
  unfoldable pub check_camera : Status → Completion → CallVm → CallVm
  check_camera granted c vm = complete c vm
  check_camera denied c vm =
      emit
        (call_failed
          "Camera access is denied. Allow camera access in system settings to make video calls.")
        vm
  check_camera undetermined c vm = record vm {
    dialogs = vm.dialogs ++ (camera vm.permission_request c ∷ []);
  }

  unfoldable pub on_microphone_granted : Status → Bool → Completion → CallVm → CallVm
  on_microphone_granted cam video c vm = if not video then complete c vm else check_camera cam c vm

  unfoldable pub check_microphone : Status → Status → Bool → Completion → CallVm → CallVm
  check_microphone granted cam video c vm = on_microphone_granted cam video c vm
  check_microphone denied cam video c vm =
      emit
        (call_failed
          "Microphone access is denied. Allow microphone access in system settings to make calls.")
        vm
  check_microphone undetermined cam video c vm = record vm {
    dialogs = vm.dialogs ++ (microphone vm.permission_request video c ∷ []);
  }

  unfoldable pub with_call_permissions : Status → Status → Bool → Completion → CallVm → CallVm
  with_call_permissions mic cam video c vm =
      check_microphone mic cam video c
        (record vm { permission_request = next_request vm.permission_request })

  unfoldable pub on_microphone_answer : Status → Status → Bool → Completion → CallVm → CallVm
  on_microphone_answer granted cam video c vm = on_microphone_granted cam video c vm
  on_microphone_answer denied cam video c vm =
      emit (call_failed "Microphone access is required for calls.") vm
  on_microphone_answer undetermined cam video c vm =
      emit (call_failed "Microphone access is required for calls.") vm

  unfoldable pub on_camera_answer : Status → Completion → CallVm → CallVm
  on_camera_answer granted c vm = complete c vm
  on_camera_answer denied c vm = emit (call_failed "Camera access is required for video calls.") vm
  on_camera_answer undetermined c vm =
      emit (call_failed "Camera access is required for video calls.") vm

  -- The callbacks of `requestPermission`: `result` is the answer, `cam` as before.
  unfoldable pub on_answer : Dialog → Status → Status → CallVm → CallVm
  on_answer (microphone n video c) result cam vm =
      if not (n == vm.permission_request) then vm else on_microphone_answer result cam video c vm
  on_answer (camera n c) result cam vm =
      if not (n == vm.permission_request) then vm else on_camera_answer result c vm

  unfoldable pub answer_found : Option (Dialog × List Dialog) → Status → Status → CallVm → CallVm
  answer_found none result cam vm = vm
  answer_found (some x) result cam vm = on_answer x.0 result cam (record vm { dialogs = x.1 })

  unfoldable pub start_call : Status → Status → Bool → CallVm → CallVm
  start_call mic cam video vm =
      if is_empty (trimmed vm.receiver_id)
      then emit (call_failed "Cannot start call: no recipient or call service") vm
      else with_call_permissions mic cam video (starts vm.receiver_id video) vm

  unfoldable pub request_call : Status → Status → String → String → CallVm → CallVm
  request_call mic cam receiver user vm =
      if is_empty (trimmed receiver)
      then vm
      else with_call_permissions mic cam true prepares (
          emit (call_window_requested receiver user) (record vm {
            permission_request = next_request vm.permission_request;
            receiver_id = receiver;
            user_name = user;
          }))

  unfoldable pub decline : CallVm → CallVm
  decline vm =
      call decline_call (record vm { permission_request = next_request vm.permission_request })

  unfoldable pub clear_local : CallVm → CallVm
  clear_local vm =
      emit local_video_frame_changed
        (put_frame vm.local_sink no_frame (record vm { local_frame = no_frame }))

  unfoldable pub clear_remote : CallVm → CallVm
  clear_remote vm =
      emit remote_video_frame_changed
        (put_frame vm.remote_sink no_frame (record vm { remote_frame = no_frame }))

  unfoldable pub clear_connection_state : CallVm → CallVm
  clear_connection_state vm =
      if not (is_empty vm.connection_state)
      then emit connection_state_changed (record vm { connection_state = "" })
      else vm

  unfoldable pub reset : CallVm → CallVm
  reset vm =
      let cleared = clear_remote (clear_local (record vm { accept_remote_video = false })) in
      let ended =
        call end_call
          (record cleared { permission_request = next_request cleared.permission_request }) in
      record (clear_connection_state ended) {
        incoming_video = false;
        receiver_id = "";
        user_name = "";
      }

  unfoldable pub accept : Status → Status → CallVm → CallVm
  accept mic cam vm = with_call_permissions mic cam vm.incoming_video accepts vm

  unfoldable pub set_connection_state : String → CallVm → CallVm
  set_connection_state state vm =
      if str_eq state vm.connection_state
      then vm
      else emit connection_state_changed (record vm { connection_state = state })

  unfoldable pub set_call_state : CallState → CallVm → CallVm
  set_call_state state vm =
      if state_number state == state_number vm.call_state
      then vm
      else emit call_state_changed (record vm { call_state = state })

  unfoldable pub end_connection : CallVm → CallVm
  end_connection vm = set_connection_state "" (record vm { connection_state = "" })

  unfoldable pub on_propose_received : String → Bool → CallVm → CallVm
  on_propose_received sender video vm =
      emit (propose_received sender video) (call prepare (record vm { incoming_video = video }))

  -- The states of the signalling are these but for `idle`, which it does not have.
  unfoldable pub on_call_state_change : CallState → CallVm → CallVm
  on_call_state_change idle vm = vm
  on_call_state_change calling vm = set_connection_state "Calling" vm
  on_call_state_change ringing vm = set_connection_state "Ringing" (set_call_state ringing vm)
  on_call_state_change connected vm = set_connection_state "Connected" vm
  on_call_state_change reconnect vm = set_connection_state "Reconnect" vm
  on_call_state_change reject vm = set_connection_state "Reject" vm
  on_call_state_change hand_up vm = set_connection_state "Hand up" vm
  on_call_state_change exchange vm = set_connection_state "Exchange" vm

  unfoldable pub on_local_frame : Frame → CallVm → CallVm
  on_local_frame frame vm =
      if vm.accept_remote_video
      then emit local_video_frame_changed
          (put_frame vm.local_sink frame (record vm { local_frame = frame }))
      else vm

  unfoldable pub on_remote_frame : Frame → CallVm → CallVm
  on_remote_frame frame vm =
      if vm.accept_remote_video
      then emit remote_video_frame_changed
          (put_frame vm.remote_sink frame (record vm { remote_frame = frame }))
      else vm

  abbrev pub same_sink : Option ℕ → Option ℕ → Bool
  same_sink none none = true
  same_sink none (some n) = false
  same_sink (some m) none = false
  same_sink (some m) (some n) = m == n

  unfoldable pub set_local_video_sink : Option ℕ → CallVm → CallVm
  set_local_video_sink sink vm =
      if same_sink vm.local_sink sink
      then vm
      else emit local_video_sink_changed (
          put_frame sink vm.local_frame
            (record (put_frame vm.local_sink no_frame vm) { local_sink = sink }))

  unfoldable pub set_remote_video_sink : Option ℕ → CallVm → CallVm
  set_remote_video_sink sink vm =
      if same_sink vm.remote_sink sink
      then vm
      else emit remote_video_sink_changed (
          put_frame sink vm.remote_frame
            (record (put_frame vm.remote_sink no_frame vm) { remote_sink = sink }))

  -- What may happen, with the states of the permissions at that time.
  pub data Op : Type 0 where
    starts_call : Status → Status → Bool → Op
    requests_call : Status → Status → String → String → Op
    accepts_call : Status → Status → Op
    answers : ℕ → Status → Status → Op
    declines : Op
    resets : Op
    ends : Op
    proposes : String → Bool → Op
    changes : CallState → Op
    shows_local : Frame → Op
    shows_remote : Frame → Op
    sets_local_sink : Option ℕ → Op
    sets_remote_sink : Option ℕ → Op

  unfoldable pub step : Op → CallVm → CallVm
  step (starts_call mic cam video) vm = start_call mic cam video vm
  step (requests_call mic cam receiver user) vm = request_call mic cam receiver user vm
  step (accepts_call mic cam) vm = accept mic cam vm
  step (answers i result cam) vm = answer_found (nth_dialog i vm.dialogs) result cam vm
  step declines vm = decline vm
  step resets vm = reset vm
  step ends vm = end_connection vm
  step (proposes sender video) vm = on_propose_received sender video vm
  step (changes state) vm = on_call_state_change state vm
  step (shows_local frame) vm = on_local_frame frame vm
  step (shows_remote frame) vm = on_remote_frame frame vm
  step (sets_local_sink sink) vm = set_local_video_sink sink vm
  step (sets_remote_sink sink) vm = set_remote_video_sink sink vm

  unfoldable pub run : List Op → CallVm → CallVm
  run [] vm = vm
  run (o ∷ os) vm = run os (step o vm)

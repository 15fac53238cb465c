-- ===== src/Voip/Jingle.antt =====
-- src/features/voip/signaling/jingle_service.cpp: the signalling of a call on its own thread. The
-- XMPP client, its Jingle extension and the WebRTC client are logs of what is asked of them; what
-- they answer comes with each operation. The use of a WebRTC client or of an extension that is not
-- there is a crash. Devices and frames, which are only passed on, are left out.
mod Media
mod Prepared
mod Examples
use chatdesktop.Prelude.{
  ℕ, String, Bool, true, false, not, ◌&&◌, ◌||◌, List, [], ◌∷◌, ◌++◌, is_empty, str_eq,
  if◌then◌else◌,
}
use chatdesktop.Voip.IceServer.{IceServer, ExternalService, ice_servers}

-- What the code uses of `QXmppUtils`, `QString` and `QRegularExpression`: `with_domain` appends `@`
-- and the account's domain, `is_jid` and `has_video` are the matches of the two patterns.
pub record JidApi : Type 0 where
  pub bare : String → String
  pub resource : String → String
  pub trimmed : String → String
  pub has_at : String → Bool
  pub with_domain : String → String
  pub is_jid : String → Bool
  pub own_jid : String
  pub has_video : String → Bool
  pub number : ℕ → String

pub data CallState : Type 0 where
  calling ringing connected reconnect reject hand_up exchange : CallState

pub data ConnectionState : Type 0 where
  checking connecting connected disconnect : ConnectionState

pub data Signal : Type 0 where
  signaling_failed : String → Signal
  call_state_change : CallState → Signal
  connection_state_change : ConnectionState → Signal
  accept_received : String → String → Signal
  propose_received : String → Bool → Signal
  session_terminate : Signal

-- What is asked of the Jingle extension and of service discovery.
pub data Stanza : Type 0 where
  propose : String → Bool → Stanza
  send_accept : Stanza
  send_reject : Stanza
  send_ringing : Stanza
  terminate_session : Stanza
  session_initiate : String → String → List IceServer → Stanza
  session_accept : String → Stanza
  request_services : Stanza

-- What is asked of a WebRTC client.
pub data RtcCall : Type 0 where
  created : RtcCall
  prepared : RtcCall
  initialized : RtcCall
  set_camera_enabled : Bool → RtcCall
  set_enable_speaker : Bool → RtcCall
  create_local_camera_track : RtcCall
  create_peer_connection : List IceServer → RtcCall
  create_offer : RtcCall
  create_answer : RtcCall
  set_remote_sdp : String → String → RtcCall
  set_remote_candidate : String → RtcCall
  close_connection : RtcCall
  destroyed : RtcCall

module _ (api : JidApi) where
  open api use {bare, resource, trimmed, has_at, with_domain, is_jid, own_jid, has_video, number}

  pub record Jingle : Type 0 where
    pub has_client : Bool
    pub has_webrtc : Bool
    pub media_prepared : Bool
    pub call_started : Bool
    pub video_call : Bool
    pub recipient_id : String
    pub crashed : Bool
    pub signals : List Signal
    pub stanzas : List Stanza
    pub rtc_calls : List RtcCall

  unfoldable pub emit : Signal → Jingle → Jingle
  emit s j = record j { signals = j.signals ++ (s ∷ []) }

  unfoldable pub send : Stanza → Jingle → Jingle
  send s j = record j { stanzas = j.stanzas ++ (s ∷ []) }

  -- `m_webrtc->...`.
  unfoldable pub rtc : RtcCall → Jingle → Jingle
  rtc c j =
      if j.has_webrtc
      then record j { rtc_calls = j.rtc_calls ++ (c ∷ []) }
      else record j { crashed = true }

  -- `m_webrtc.reset()`.
  unfoldable pub drop_webrtc : Jingle → Jingle
  drop_webrtc j =
      if j.has_webrtc
      then record j { has_webrtc = false; rtc_calls = j.rtc_calls ++ (destroyed ∷ []) }
      else j

  unfoldable pub create_webrtc_client : Jingle → Jingle
  create_webrtc_client j = rtc created (record j { media_prepared = false; has_webrtc = true })

  abbrev pub no_jingle : Jingle
  no_jingle = record {
    has_client = false;
    has_webrtc = false;
    media_prepared = false;
    call_started = false;
    video_call = false;
    recipient_id = "";
    crashed = false;
    signals = [];
    stanzas = [];
    rtc_calls = [];
  }

  -- The constructor.
  unfoldable pub new_jingle : Jingle
  new_jingle = create_webrtc_client no_jingle

  unfoldable pub ensure_webrtc : Jingle → Jingle
  ensure_webrtc j = if not j.has_webrtc then create_webrtc_client j else j

  -- `ok` is what `initialize` of the WebRTC client returns.
  unfoldable pub initialize_media : Bool → Jingle → Bool × Jingle
  initialize_media ok j =
      let asked = rtc initialized j in
      if not ok
      then (
        false,
        emit (signaling_failed "Cannot initialize WebRTC for the call")
            (drop_webrtc (rtc (set_camera_enabled false) asked)),
      )
      else (true, record asked { media_prepared = true })

  unfoldable pub prepare_media : Bool → Bool → Jingle → Bool × Jingle
  prepare_media ok video j =
      let ready = rtc (set_camera_enabled video) (ensure_webrtc j) in
      if ready.media_prepared then (true, ready) else initialize_media ok ready

  unfoldable pub prepare : Bool → Jingle → Jingle
  prepare ok j =
      if j.call_started then j else (prepare_media ok false (rtc prepared (ensure_webrtc j))).1

  -- With a client that is not null.
  unfoldable pub initialize : Jingle → Jingle
  initialize j = if j.has_client then j else record j { has_client = true }

  -- `isConnected`; `up` is what the client says.
  unfoldable pub is_connected : Bool → Jingle → Bool × Jingle
  is_connected up j =
      if not j.has_client || not up
      then (false, emit (signaling_failed "Cannot accept call: XMPP is not connected") j)
      else (true, j)

  unfoldable pub on_accept_received : String → String → Jingle → Jingle
  on_accept_received peer mid j =
      if not (str_eq (bare peer) (bare j.recipient_id))
      then j
      else if is_empty (resource peer)
      then emit (signaling_failed "Cannot start session: acceptance is missing the peer resource") j
      else emit (accept_received peer mid)
          (send request_services (record j { recipient_id = peer }))

  -- `ok` is what `createPeerConnection` returns.
  unfoldable pub on_external_services : List ExternalService → Bool → Jingle → Jingle
  on_external_services services ok j =
      let asked = rtc (create_peer_connection (ice_servers number services)) j in
      if not j.has_webrtc
      then j
      else if not ok
      then emit (signaling_failed "Cannot create the peer connection for the local offer") asked
      else rtc create_offer asked

  -- The callback of `createOffer`.
  unfoldable pub on_offer_created : String → List IceServer → Jingle → Jingle
  on_offer_created sdp ices j =
      if j.has_client then send (session_initiate j.recipient_id sdp ices) j else j

  -- `peer_ok` and `sdp_ok` are what `createPeerConnection` and `setRemoteSdp` return.
  unfoldable pub on_remote_offer : String → List IceServer → Bool → Bool → Jingle → Jingle
  on_remote_offer offer ices peer_ok sdp_ok j =
      let asked =
        rtc (create_peer_connection ices)
          (rtc (set_camera_enabled (j.video_call && has_video offer)) j) in
      let applied = rtc (set_remote_sdp "offer" offer) asked in
      if not j.has_webrtc
      then emit (signaling_failed "Cannot answer: WebRTC is not initialized") j
      else if not peer_ok
      then emit (signaling_failed "Cannot create the peer connection for the remote offer") asked
      else if not sdp_ok
      then emit (signaling_failed "Cannot apply the remote SDP offer") applied
      else applied

  -- The callback of `setRemoteSdp`, and the one of `createAnswer`.
  unfoldable pub on_offer_applied : Jingle → Jingle
  on_offer_applied j = if not j.has_webrtc then j else rtc create_answer j

  unfoldable pub on_answer_created : String → Jingle → Jingle
  on_answer_created sdp j = if j.has_client then send (session_accept sdp) j else j

  unfoldable pub on_remote_answer : String → Bool → Jingle → Jingle
  on_remote_answer answer ok j =
      let applied = rtc (set_remote_sdp "answer" answer) j in
      if not j.has_webrtc
      then emit (signaling_failed "Cannot apply the remote SDP answer") j
      else if not ok
      then emit (signaling_failed "Cannot apply the remote SDP answer") applied
      else applied

  unfoldable pub on_exchange_ice_candidate : String → Jingle → Jingle
  on_exchange_ice_candidate candidate j = rtc (set_remote_candidate candidate) j

  unfoldable pub on_connection_state : ConnectionState → Jingle → Jingle
  on_connection_state checking j = emit (connection_state_change checking) j
  on_connection_state connecting j = emit (connection_state_change connecting) j
  on_connection_state connected j =
      emit (connection_state_change connected) (emit (call_state_change connected) j)
  on_connection_state disconnect j =
      emit (connection_state_change disconnect) (emit (call_state_change reconnect) j)

  unfoldable pub accept_connected : Bool → Jingle → Jingle
  accept_connected ok j =
      let media = prepare_media ok j.video_call j in
      if not media.0 then media.1 else send send_accept (record media.1 { call_started = true })

  unfoldable pub accept_call : Bool → Bool → Jingle → Jingle
  accept_call up ok j = let r = is_connected up j in if r.0 then accept_connected ok r.1 else r.1

  unfoldable pub close_webrtc : Jingle → Jingle
  close_webrtc j =
      if j.has_webrtc
      then drop_webrtc
          (rtc close_connection (rtc (set_enable_speaker false) (rtc (set_camera_enabled false) j)))
      else j

  unfoldable pub end_call : Bool → Jingle → Jingle
  end_call up j =
      let told = if j.call_started && j.has_client && up then send terminate_session j else j in
      record (close_webrtc told) { media_prepared = false; call_started = false }

  unfoldable pub reject_call : Bool → Jingle → Jingle
  reject_call up j =
      let r = is_connected up j in
      if r.0
      then record (drop_webrtc (send send_reject r.1)) {
        media_prepared = false;
        call_started = false;
      }
      else r.1

  -- `m_jingle->ringing()`.
  unfoldable pub ring : Jingle → Jingle
  ring j = if j.has_client then send send_ringing j else record j { crashed = true }

  abbrev pub full_recipient : String → String
  full_recipient r = if not (is_empty r) && not (has_at r) then with_domain r else r

  unfoldable pub propose_call : String → Bool → Bool → Jingle → Jingle
  propose_call recipient video ok j =
      let called =
        emit (call_state_change calling)
          (record j { recipient_id = recipient; video_call = video }) in
      let media = prepare_media ok video called in
      if not media.0
      then media.1
      else send (propose recipient video)
          (rtc create_local_camera_track (record media.1 { call_started = true }))

  unfoldable pub start_call : String → Bool → Bool → Bool → Jingle → Jingle
  start_call receiver video up ok j =
      let recipient = full_recipient (bare (trimmed receiver)) in
      if not j.has_client || not up
      then emit (signaling_failed "Cannot start call: XMPP is not connected") j
      else if not (is_jid recipient)
      then emit (signaling_failed "Cannot start call: invalid recipient") j
      else if str_eq recipient own_jid
      then emit (signaling_failed "Cannot call your own account") j
      else propose_call recipient video ok j

  unfoldable pub on_propose_received : String → Bool → Jingle → Jingle
  on_propose_received sender video j =
      emit (propose_received sender video) (record j { video_call = video })

  unfoldable pub on_terminate_received : Jingle → Jingle
  on_terminate_received j = emit session_terminate j

  pub data Op : Type 0 where
    prepares : Bool → Op
    initializes : Op
    starts : String → Bool → Bool → Bool → Op
    accepts : Bool → Bool → Op
    ends : Bool → Op
    rejects : Bool → Op
    rings : Op
    proposed : String → Bool → Op
    accepted : String → String → Op
    terminated : Op
    discovered : List ExternalService → Bool → Op
    offer_created : String → List IceServer → Op
    offered : String → List IceServer → Bool → Bool → Op
    offer_applied : Op
    answer_created : String → Op
    answered : String → Bool → Op
    candidate : String → Op
    connection : ConnectionState → Op

  unfoldable pub step : Op → Jingle → Jingle
  step (prepares ok) j = prepare ok j
  step initializes j = initialize j
  step (starts receiver video up ok) j = start_call receiver video up ok j
  step (accepts up ok) j = accept_call up ok j
  step (ends up) j = end_call up j
  step (rejects up) j = reject_call up j
  step rings j = ring j
  step (proposed sender video) j = on_propose_received sender video j
  step (accepted peer mid) j = on_accept_received peer mid j
  step terminated j = on_terminate_received j
  step (discovered services ok) j = on_external_services services ok j
  step (offer_created sdp ices) j = on_offer_created sdp ices j
  step (offered offer ices peer_ok sdp_ok) j = on_remote_offer offer ices peer_ok sdp_ok j
  step offer_applied j = on_offer_applied j
  step (answer_created sdp) j = on_answer_created sdp j
  step (answered answer ok) j = on_remote_answer answer ok j
  step (candidate c) j = on_exchange_ice_candidate c j
  step (connection state) j = on_connection_state state j

  unfoldable pub run : List Op → Jingle → Jingle
  run [] j = j
  run (o ∷ os) j = run os (step o j)

-- ===== src/Voip/Jingle/Prepared.antt =====
-- The service stays in its phases, whatever happens to it.
use chatdesktop.Prelude.{
  ◌≡◌, refl, sym, ◌∙◌, String, Bool, true, not, ◌&&◌, List, [], ◌∷◌, is_empty, str_eq, if_elim,
  not-false, and_true,
}
use chatdesktop.Voip.IceServer.{IceServer, ExternalService, ice_servers}
use chatdesktop.Voip.Jingle.{
  JidApi, Jingle, set_camera_enabled, send_reject, create_offer, create_answer,
  create_peer_connection, set_remote_sdp, emit, send, rtc, create_webrtc_client, new_jingle,
  initialize, is_connected, on_accept_received, on_external_services, on_offer_created,
  on_remote_offer, on_offer_applied, on_answer_created, on_remote_answer, on_connection_state,
  checking, connecting, connected, disconnect, accept_call, end_call, reject_call,
  on_propose_received, on_terminate_received, Op, prepares, initializes, starts, accepts, ends,
  rejects, rings, proposed, accepted, terminated, discovered, offer_created, offered, offer_applied,
  answer_created, answered, candidate, connection, step, run, ring, on_exchange_ice_candidate,
  set_remote_candidate,
}
use chatdesktop.Voip.Jingle.Media.{
  gone, fresh, At, InPhase, prepare-InPhase, accept_connected-InPhase, is_connected-same,
  start_call-InPhase, rtc-At, drop_webrtc-gone, close_webrtc-gone,
}

module _ (api : JidApi) where
  reject_call-InPhase :
      (up : Bool) (j : Jingle api) → InPhase api j → InPhase api (reject_call api up j)
  unfolding reject_call send
  reject_call-InPhase up j h =
      let same = is_connected-same api up j h in
      if_elim (InPhase api) (is_connected api up j).0
        (λ e. (
          gone,
          drop_webrtc-gone api same.0 (send api send_reject (is_connected api up j).1) same.1,
        ))
        (λ e. same)

  end_call-gone : (up : Bool) (j : Jingle api) → InPhase api j → At api gone (end_call api up j)
  unfolding end_call send
  end_call-gone up j (p, h) =
      close_webrtc-gone api p _
        (if_elim (At api p) (j.call_started && j.has_client && up) (λ e. h) (λ e. h))

  on_external_services-InPhase :
      (services : List ExternalService) (ok : Bool) (j : Jingle api)
      → InPhase api j
      → InPhase api (on_external_services api services ok j)
  unfolding on_external_services emit
  on_external_services-InPhase services ok j h =
      let peer = create_peer_connection (ice_servers api.number services) in
      if_elim (InPhase api) (not j.has_webrtc) (λ n. h)
        (λ n.
          let there = sym h.1.0 ∙ not-false j.has_webrtc n in
          let asked = rtc-At api h.0 peer j there h.1 in
          if_elim (InPhase api) (not ok) (λ k. (h.0, asked))
            (λ k. (h.0, rtc-At api h.0 create_offer (rtc api peer j) there asked)))

  on_remote_offer-InPhase :
      (offer : String) (ices : List IceServer) (peer_ok sdp_ok : Bool) (j : Jingle api)
      → InPhase api j
      → InPhase api (on_remote_offer api offer ices peer_ok sdp_ok j)
  unfolding on_remote_offer emit
  on_remote_offer-InPhase offer ices peer_ok sdp_ok j h =
      let camera = set_camera_enabled (j.video_call && api.has_video offer) in
      let peer = create_peer_connection ices in
      if_elim (InPhase api) (not j.has_webrtc) (λ n. h)
        (λ n.
          let there = sym h.1.0 ∙ not-false j.has_webrtc n in
          let asked =
            rtc-At api h.0 peer (rtc api camera j) there (rtc-At api h.0 camera j there h.1) in
          let applied =
            rtc-At api h.0 (set_remote_sdp "offer" offer) (rtc api peer (rtc api camera j)) there
              asked in
          if_elim (InPhase api) (not peer_ok) (λ k. (h.0, asked))
            (λ k. if_elim (InPhase api) (not sdp_ok) (λ l. (h.0, applied)) (λ l. (h.0, applied))))

  on_remote_answer-InPhase :
      (answer : String) (ok : Bool) (j : Jingle api)
      → InPhase api j
      → InPhase api (on_remote_answer api answer ok j)
  unfolding on_remote_answer emit
  on_remote_answer-InPhase answer ok j h =
      if_elim (InPhase api) (not j.has_webrtc) (λ n. h)
        (λ n.
          let there = sym h.1.0 ∙ not-false j.has_webrtc n in
          let applied = rtc-At api h.0 (set_remote_sdp "answer" answer) j there h.1 in
          if_elim (InPhase api) (not ok) (λ k. (h.0, applied)) (λ k. (h.0, applied)))

  -- `onExchangeIceCandidateReceived` and `ringing` do not look whether what they use is there.
  abbrev pub is_usable : Op api → Jingle api → Bool
  is_usable rings j = j.has_client
  is_usable (candidate c) j = j.has_webrtc
  is_usable o j = true

  -- What these two use is there whenever they run.
  unfoldable pub all_usable : List (Op api) → Jingle api → Bool
  all_usable [] j = true
  all_usable (o ∷ os) j = is_usable o j && all_usable os (step api o j)

  step-InPhase :
      (o : Op api) (j : Jingle api)
      → is_usable o j ≡ true
      → InPhase api j
      → InPhase api (step api o j)
  unfolding step ring on_exchange_ice_candidate initialize on_accept_received on_offer_created
      on_offer_applied on_answer_created on_connection_state on_propose_received
      on_terminate_received accept_call emit send
  step-InPhase (prepares ok) j g h = prepare-InPhase api ok j h
  step-InPhase initializes j g h = if_elim (InPhase api) j.has_client (λ e. h) (λ e. h)
  step-InPhase (starts receiver video up ok) j g h = start_call-InPhase api receiver video up ok j h
  step-InPhase (accepts up ok) j g h =
      let same = is_connected-same api up j h in
      if_elim (InPhase api) (is_connected api up j).0
        (λ e. accept_connected-InPhase api ok (is_connected api up j).1 same) (λ e. same)
  step-InPhase (ends up) j g h = (gone, end_call-gone up j h)
  step-InPhase (rejects up) j g h = reject_call-InPhase up j h
  step-InPhase rings j g h = if_elim (InPhase api) j.has_client (λ e. h) (λ e. absurd (cc))
  step-InPhase (proposed sender video) j g h = h
  step-InPhase (accepted peer mid) j g h =
      if_elim (InPhase api) (not (str_eq (api.bare peer) (api.bare j.recipient_id))) (λ e. h)
        (λ e. if_elim (InPhase api) (is_empty (api.resource peer)) (λ k. h) (λ k. h))
  step-InPhase terminated j g h = h
  step-InPhase (discovered services ok) j g h = on_external_services-InPhase services ok j h
  step-InPhase (offer_created sdp ices) j g h = if_elim (InPhase api) j.has_client (λ e. h) (λ e. h)
  step-InPhase (offered offer ices peer_ok sdp_ok) j g h =
      on_remote_offer-InPhase offer ices peer_ok sdp_ok j h
  step-InPhase offer_applied j g h =
      if_elim (InPhase api) (not j.has_webrtc) (λ n. h)
        (λ n. (h.0, rtc-At api h.0 create_answer j (sym h.1.0 ∙ not-false j.has_webrtc n) h.1))
  step-InPhase (answer_created sdp) j g h = if_elim (InPhase api) j.has_client (λ e. h) (λ e. h)
  step-InPhase (answered answer ok) j g h = on_remote_answer-InPhase answer ok j h
  step-InPhase (candidate c) j g h =
      (h.0, rtc-At api h.0 (set_remote_candidate c) j (sym h.1.0 ∙ g) h.1)
  step-InPhase (connection checking) j g h = h
  step-InPhase (connection connecting) j g h = h
  step-InPhase (connection connected) j g h = h
  step-InPhase (connection disconnect) j g h = h

  run-InPhase_from :
      (os : List (Op api)) (j : Jingle api)
      → all_usable os j ≡ true
      → InPhase api j
      → InPhase api (run api os j)
  unfolding run all_usable
  run-InPhase_from [] j g h = h
  run-InPhase_from (o ∷ os) j g h =
      let both = and_true (is_usable o j) (all_usable os (step api o j)) g in
      run-InPhase_from os (step api o j) both.1 (step-InPhase o j both.0 h)

  new-InPhase : InPhase api (new_jingle api)
  unfolding new_jingle create_webrtc_client rtc
  new-InPhase = (fresh, (refl, refl, refl, refl))

  -- After any history of the service in which an ICE candidate arrives only while there is a WebRTC
  -- client, and `ringing` is called only with a Jingle extension, nothing that is gone has been used,
  -- and the service is in one of four phases: without a WebRTC client, with one that is not
  -- initialized, with media prepared, or in a call with media prepared. So a call that has started
  -- has its media, and media that are prepared have their client.
  pub run-InPhase :
      (os : List (Op api))
      → all_usable os (new_jingle api) ≡ true
      → InPhase api (run api os (new_jingle api))
  run-InPhase os g = run-InPhase_from os (new_jingle api) g new-InPhase

  -- Whatever happened before under the same conditions, `endCall` leaves no WebRTC client, no
  -- prepared media and no started call, and uses nothing that is gone.
  end_call-releases :
      (os : List (Op api)) (up : Bool)
      → all_usable os (new_jingle api) ≡ true
      → At api gone (end_call api up (run api os (new_jingle api)))
  end_call-releases os up g = end_call-gone up (run api os (new_jingle api)) (run-InPhase os g)

-- ===== src/Voip/Jingle/Examples.antt =====
-- A call that is started, answered and ended.
use chatdesktop.Prelude.{◌≡◌, refl, true, List, [], ◌∷◌}
use chatdesktop.Voip.Jingle.{
  emit, send, rtc, drop_webrtc, create_webrtc_client, ensure_webrtc, initialize_media,
  prepare_media, prepare, initialize, is_connected, on_accept_received, on_external_services,
  on_offer_created, on_remote_offer, on_offer_applied, on_answer_created, on_remote_answer,
  on_exchange_ice_candidate, on_connection_state, accept_connected, accept_call, close_webrtc,
  end_call, reject_call, ring, propose_call, start_call, on_propose_received, on_terminate_received,
  step, candidate, rings, JidApi, Op, new_jingle, run, initializes, starts, accepted, discovered,
  offer_created, answered, prepares,
}
use chatdesktop.Voip.Jingle.Media.{InPhase}
use chatdesktop.Voip.Jingle.Prepared.{run-InPhase, all_usable}

abbrev jid_api : JidApi
jid_api = record {
  bare = λ s. s;
  resource = λ s. s;
  trimmed = λ s. s;
  has_at = λ s. true;
  with_domain = λ s. s;
  is_jid = λ s. true;
  own_jid = "me@localhost";
  has_video = λ s. true;
  number = λ n. "";
}

abbrev history : List (Op jid_api)
history =
    initializes
    ∷ (starts "bob@localhost" true true true
        ∷ (accepted "bob@localhost" "1"
            ∷ (discovered [] true
                ∷ (offer_created "v=0" []
                    ∷ (candidate "c" ∷ (rings ∷ (answered "v=0" true ∷ (prepares true ∷ []))))))))

usable : all_usable jid_api history (new_jingle jid_api) ≡ true
unfolding all_usable emit send rtc drop_webrtc create_webrtc_client new_jingle ensure_webrtc
    initialize_media prepare_media prepare initialize is_connected on_accept_received
    on_external_services on_offer_created on_remote_offer on_offer_applied on_answer_created
    on_remote_answer on_exchange_ice_candidate on_connection_state accept_connected accept_call
    close_webrtc end_call reject_call ring propose_call start_call on_propose_received
    on_terminate_received step
usable = refl

run-InPhase_example : InPhase jid_api (run jid_api history (new_jingle jid_api))
run-InPhase_example = run-InPhase jid_api history usable

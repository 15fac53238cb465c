-- ===== src/Voip/Jingle/Media.antt =====
-- The phases of the service: what there is of the media at any time.
use chatdesktop.Prelude.{
  ◌≡◌, refl, sym, ◌∙◌, String, Bool, true, false, not, ◌||◌, str_eq, if_elim, not-false,
}
use chatdesktop.Voip.Jingle.{
  JidApi, Jingle, RtcCall, prepared, call_state_change, calling, create_local_camera_track,
  full_recipient, emit, send, rtc, drop_webrtc, create_webrtc_client, ensure_webrtc,
  initialize_media, prepare_media, prepare, is_connected, accept_connected, close_webrtc,
  propose_call, start_call,
}

-- No WebRTC client, one that is not initialized, one that is, and one in a call.
pub data Phase : Type 0 where
  gone fresh ready active : Phase

abbrev pub webrtc_in : Phase → Bool
webrtc_in gone = false
webrtc_in fresh = true
webrtc_in ready = true
webrtc_in active = true

abbrev pub prepared_in : Phase → Bool
prepared_in gone = false
prepared_in fresh = false
prepared_in ready = true
prepared_in active = true

abbrev pub started_in : Phase → Bool
started_in gone = false
started_in fresh = false
started_in ready = false
started_in active = true

module _ (api : JidApi) where
  abbrev pub At : Phase → Jingle api → Type 0
  At p j =
      (j.has_webrtc ≡ webrtc_in p)
      × (j.media_prepared ≡ prepared_in p)
      × (j.call_started ≡ started_in p)
      × (j.crashed ≡ false)

  -- The phase after the media were prepared, and whether they are.
  prepare_media-At :
      (p : Phase) (ok video : Bool) (j : Jingle api)
      → At p j
      → (q : Phase) × (At q (prepare_media api ok video j).1
          × ((prepare_media api ok video j).0 ≡ prepared_in q))
  unfolding prepare_media ensure_webrtc create_webrtc_client initialize_media rtc drop_webrtc emit
  prepare_media-At gone true video j (w, m, s, c) =
      (ready, simp (w, s, c) ((refl, refl, refl, refl), refl))
  prepare_media-At gone false video j (w, m, s, c) =
      (gone, simp (w, s, c) ((refl, refl, refl, refl), refl))
  prepare_media-At fresh true video j (w, m, s, c) =
      (ready, simp (w, m, s, c) ((refl, refl, refl, refl), refl))
  prepare_media-At fresh false video j (w, m, s, c) =
      (gone, simp (w, m, s, c) ((refl, refl, refl, refl), refl))
  prepare_media-At ready ok video j (w, m, s, c) =
      (ready, simp (w, m, s, c) ((refl, refl, refl, refl), refl))
  prepare_media-At active ok video j (w, m, s, c) =
      (active, simp (w, m, s, c) ((refl, refl, refl, refl), refl))

  pub rtc-At :
      (p : Phase) (c : RtcCall) (j : Jingle api) → webrtc_in p ≡ true → At p j → At p (rtc api c j)
  unfolding rtc
  rtc-At p c j e (w, m, s, k) =
      if_elim (At p) j.has_webrtc (λ there. (w, m, s, k)) (λ none_there. absurd (cc))

  ensure_webrtc-At :
      (p : Phase) (j : Jingle api)
      → At p j
      → (q : Phase) × (At q (ensure_webrtc api j) × (webrtc_in q ≡ true))
  unfolding ensure_webrtc create_webrtc_client rtc
  ensure_webrtc-At gone j (w, m, s, c) = (fresh, simp (w, s, c) ((refl, refl, refl, refl), refl))
  ensure_webrtc-At fresh j (w, m, s, c) =
      (fresh, simp (w, m, s, c) ((refl, refl, refl, refl), refl))
  ensure_webrtc-At ready j (w, m, s, c) =
      (ready, simp (w, m, s, c) ((refl, refl, refl, refl), refl))
  ensure_webrtc-At active j (w, m, s, c) =
      (active, simp (w, m, s, c) ((refl, refl, refl, refl), refl))

  pub drop_webrtc-gone :
      (p : Phase) (j : Jingle api)
      → At p j
      → At gone (record (drop_webrtc api j) { media_prepared = false; call_started = false })
  unfolding drop_webrtc
  drop_webrtc-gone gone j (w, m, s, c) = simp (w, c) (refl, refl, refl, refl)
  drop_webrtc-gone fresh j (w, m, s, c) = simp (w, c) (refl, refl, refl, refl)
  drop_webrtc-gone ready j (w, m, s, c) = simp (w, c) (refl, refl, refl, refl)
  drop_webrtc-gone active j (w, m, s, c) = simp (w, c) (refl, refl, refl, refl)

  pub close_webrtc-gone :
      (p : Phase) (j : Jingle api)
      → At p j
      → At gone (record (close_webrtc api j) { media_prepared = false; call_started = false })
  unfolding close_webrtc drop_webrtc rtc
  close_webrtc-gone gone j (w, m, s, c) = simp (w, c) (refl, refl, refl, refl)
  close_webrtc-gone fresh j (w, m, s, c) = simp (w, c) (refl, refl, refl, refl)
  close_webrtc-gone ready j (w, m, s, c) = simp (w, c) (refl, refl, refl, refl)
  close_webrtc-gone active j (w, m, s, c) = simp (w, c) (refl, refl, refl, refl)

  -- Some phase.
  abbrev pub InPhase : Jingle api → Type 0
  InPhase j = (p : Phase) × At p j

  pub prepare-InPhase : (ok : Bool) (j : Jingle api) → InPhase j → InPhase (prepare api ok j)
  unfolding prepare
  prepare-InPhase ok j (p, h) =
      if_elim InPhase j.call_started (λ e. (p, h))
        (λ e.
          let there = ensure_webrtc-At p j h in
          let media =
            prepare_media-At there.0 ok false (rtc api prepared (ensure_webrtc api j))
              (rtc-At there.0 prepared (ensure_webrtc api j) there.1.1 there.1.0) in
          (media.0, media.1.0))

  -- With the media prepared, a call is active.
  started-At :
      (q : Phase) (j : Jingle api)
      → prepared_in q ≡ true
      → At q j
      → At active (record j { call_started = true })
  started-At gone j e h = absurd (cc)
  started-At fresh j e h = absurd (cc)
  started-At ready j e (w, m, s, c) = (w, m, refl, c)
  started-At active j e (w, m, s, c) = (w, m, refl, c)

  pub accept_connected-InPhase :
      (ok : Bool) (j : Jingle api) → InPhase j → InPhase (accept_connected api ok j)
  unfolding accept_connected send
  accept_connected-InPhase ok j (p, h) =
      let media = prepare_media-At p ok j.video_call j h in
      if_elim InPhase (not (prepare_media api ok j.video_call j).0) (λ e. (media.0, media.1.0))
        (λ e. (
          active,
          started-At media.0 (prepare_media api ok j.video_call j).1 (sym media.1.1 ∙ not-false _ e)
              media.1.0,
        ))

  pub is_connected-same :
      (up : Bool) (j : Jingle api) → InPhase j → InPhase (is_connected api up j).1
  unfolding is_connected emit
  is_connected-same up j h =
      if_elim (λ (r : Bool × Jingle api). InPhase r.1) (not j.has_client || not up) (λ e. h)
        (λ e. h)

  propose_call-InPhase :
      (recipient : String) (video ok : Bool) (j : Jingle api)
      → InPhase j
      → InPhase (propose_call api recipient video ok j)
  unfolding propose_call send emit
  propose_call-InPhase recipient video ok j (p, h) =
      let called =
        emit api (call_state_change calling)
          (record j { recipient_id = recipient; video_call = video }) in
      let media = prepare_media-At p ok video called h in
      if_elim InPhase (not (prepare_media api ok video called).0) (λ e. (media.0, media.1.0))
        (λ e. (
          active,
          rtc-At active create_local_camera_track
              (record (prepare_media api ok video called).1 { call_started = true }) refl
              (started-At media.0 (prepare_media api ok video called).1
                (sym media.1.1 ∙ not-false _ e) media.1.0),
        ))

  pub start_call-InPhase :
      (receiver : String) (video up ok : Bool) (j : Jingle api)
      → InPhase j
      → InPhase (start_call api receiver video up ok j)
  unfolding start_call emit
  start_call-InPhase receiver video up ok j h =
      if_elim InPhase (not j.has_client || not up) (λ e. h)
        (λ e.
          if_elim InPhase (not (api.is_jid (full_recipient api (api.bare (api.trimmed receiver)))))
            (λ k. h)
            (λ k.
              if_elim InPhase
                (str_eq (full_recipient api (api.bare (api.trimmed receiver))) api.own_jid) (λ l. h)
                (λ l.
                  propose_call-InPhase (full_recipient api (api.bare (api.trimmed receiver))) video
                    ok j h)))

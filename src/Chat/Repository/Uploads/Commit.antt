-- ===== src/Chat/Repository/Uploads/Commit.antt =====
-- A file is sent once and for good, or not at all.
use chatdesktop.Prelude.{
  ℕ, ◌≡◌, refl, sym, ap, ◌∙◌, ◌⊎◌, inl, inr, String, Bool, true, false, not, ◌&&◌, ◌||◌, Option,
  none, some, List, [], ◌∷◌, ◌++◌, is_empty, if◌then◌else◌, if_elim, not-false,
}
use chatdesktop.Chat.Wire.{JsonApi}
use chatdesktop.Upload.Cancellation.{
  FutureApi, Token, new_token, Futures, Op, tracks, run, track, cancel, try_commit, is_canceled,
  step,
}
use chatdesktop.Upload.Cancellation.Laws.{
  Inv, step-Inv, run-Inv_from, run-Inv, committed-run, commit-Inv, commit-committed, cancel_refused,
}
use chatdesktop.Chat.Repository.Uploads.{
  MediaApi, Outcome, is_sent, is_image, is_voice_message, Task, begin_upload, cache_voice, measure,
  on_prepared, send_committed, on_uploaded, Env, after_upload, after_prepared, prepared_path,
  with_path, upload_file,
}

exclusive_committed : (a b : Bool) → (a && b) ≡ false → b ≡ true → a ≡ false
exclusive_committed true b h e = sym e ∙ h
exclusive_committed false b h e = refl

module _ (json : JsonApi) (media : MediaApi) (api : FutureApi) where
  -- How it ends: with nothing sent, or with the message sent and the token committed.
  abbrev Ends : Outcome × ((Token × Futures api) × Task) → Type 0
  Ends r =
      Inv r.1.0.0
      × (((is_sent r.0 ≡ false) × (r.1.1.sent ≡ []))
          ⊎ ((is_sent r.0 ≡ true) × (r.1.0.0.committed ≡ true) × (r.1.1.sent ≡ r.1.1.message ∷ [])))

  -- Before the upload, nothing is sent.
  abbrev Unsent : Option Outcome × Task → Type 0
  Unsent r = r.1.sent ≡ []

  track-Inv : (s : Token × Futures api) (i : ℕ) → Inv s.0 → Inv (track api s i).0
  unfolding step
  track-Inv s i v = step-Inv api s (tracks i) v

  send_committed-sent :
      (url : String) (t : Task)
      → t.sent ≡ []
      → (send_committed json media api url t).sent
        ≡ (send_committed json media api url t).message ∷ []
  unfolding send_committed
  send_committed-sent url t h =
      ap (λ ms. ms ++ ((send_committed json media api url t).message ∷ [])) h

  on_uploaded-Ends :
      (error url : String) (s : Token × Futures api) (t : Task)
      → Inv s.0
      → t.sent ≡ []
      → Ends (on_uploaded json media api error url s t)
  unfolding on_uploaded
  on_uploaded-Ends error url s t v h =
      if_elim Ends (not (is_empty error)) (λ e. (v, inl (refl, h)))
        (λ e.
          if_elim Ends (not (media.is_valid_url url) || is_empty url) (λ k. (v, inl (refl, h)))
            (λ k.
              if_elim Ends (not (try_commit api s).0) (λ l. (commit-Inv api s v, inl (refl, h)))
                (λ l. (
                  commit-Inv api s v,
                  inr (refl, commit-committed api s (not-false _ l), send_committed-sent url t h),
                ))))

  measure-Unsent : (path : String) (t : Task) → t.sent ≡ [] → Unsent (measure json media api path t)
  unfolding measure cache_voice begin_upload
  measure-Unsent path t h =
      if_elim Unsent (media.is_cache_path path) (λ e. h)
        (λ e.
          if_elim Unsent (is_voice_message t.message.content.type)
            (λ k.
              if_elim Unsent
                (not (
                  media.save_file
                    (media.voice_path t.message.message_id (media.suffix path) t.message.sender_id)
                    path))
                (λ l. h) (λ l. h))
            (λ k. h))

  on_prepared-Unsent :
      (canceled : Bool) (path : String) (t : Task)
      → t.sent ≡ []
      → Unsent (on_prepared json media api canceled path t)
  unfolding on_prepared
  on_prepared-Unsent canceled path t h =
      if_elim Unsent canceled (λ e. h)
        (λ e.
          if_elim Unsent (is_empty path) (λ k. h)
            (λ k. measure-Unsent (media.to_local path) (record t { file_path = path }) h))

  -- The preparation never ends with a send of its own.
  abbrev Stops : Option Outcome → Type 0
  Stops none = Unit
  Stops (some o) = is_sent o ≡ false

  measure-Stops : (path : String) (t : Task) → Stops (measure json media api path t).0
  unfolding measure cache_voice begin_upload
  measure-Stops path t =
      if_elim (λ (r : Option Outcome × Task). Stops r.0) (media.is_cache_path path) (λ e. tt)
        (λ e.
          if_elim (λ (r : Option Outcome × Task). Stops r.0)
            (is_voice_message t.message.content.type)
            (λ k.
              if_elim (λ (r : Option Outcome × Task). Stops r.0)
                (not (
                  media.save_file
                    (media.voice_path t.message.message_id (media.suffix path) t.message.sender_id)
                    path))
                (λ l. refl) (λ l. tt))
            (λ k. tt))

  on_prepared-Stops :
      (canceled : Bool) (path : String) (t : Task)
      → Stops (on_prepared json media api canceled path t).0
  unfolding on_prepared
  on_prepared-Stops canceled path t =
      if_elim (λ (r : Option Outcome × Task). Stops r.0) canceled (λ e. refl)
        (λ e.
          if_elim (λ (r : Option Outcome × Task). Stops r.0) (is_empty path) (λ k. refl)
            (λ k. measure-Stops (media.to_local path) (record t { file_path = path })))

  after_upload-Ends :
      (u : Option (String × String)) (s : Token × Futures api) (t : Task)
      → Inv s.0
      → t.sent ≡ []
      → Ends (after_upload json media api u s t)
  unfolding after_upload
  after_upload-Ends none s t v h = (v, inl (refl, h))
  after_upload-Ends (some u) s t v h = on_uploaded-Ends u.0 u.1 s t v h

  after_prepared-Ends :
      (e : Env json media api) (s : Token × Futures api) (r : Option Outcome × Task)
      → Inv s.0
      → Unsent r
      → Stops r.0
      → Ends (after_prepared json media api e s r)
  unfolding after_prepared
  after_prepared-Ends e s (some o, t) v h q = (v, inl (q, h))
  after_prepared-Ends e s (none, t) v h q =
      after_upload-Ends e.uploaded (run api (track api s e.upload) e.meanwhile) t
        (run-Inv_from api (track api s e.upload) e.meanwhile (track-Inv s e.upload v)) h

  with_path-Ends :
      (e : Env json media api) (s : Token × Futures api) (path : Option String) (t : Task)
      → Inv s.0
      → t.sent ≡ []
      → Ends (with_path json media api e s path t)
  unfolding with_path
  with_path-Ends e s none t v h = (v, inl (refl, h))
  with_path-Ends e s (some path) t v h =
      after_prepared-Ends e s (on_prepared json media api (is_canceled s.0) path t) v
        (on_prepared-Unsent (is_canceled s.0) path t h) (on_prepared-Stops (is_canceled s.0) path t)

  upload_file-Ends :
      (e : Env json media api) (s : Token × Futures api) (t : Task)
      → Inv s.0
      → t.sent ≡ []
      → Ends (upload_file json media api e s t)
  unfolding upload_file
  upload_file-Ends e s t v h =
      let compresses = is_image t.message.content.type in
      let begun = if compresses then track api s e.compression else s in
      with_path-Ends e (run api begun e.before)
        (prepared_path json media api compresses e.compressed t.file_path) t
        (run-Inv_from api begun e.before (
          if_elim (λ (s : Token × Futures api). Inv s.0) compresses
            (λ k. track-Inv s e.compression v) (λ k. v)))
        h

  Ends-final :
      (r : Outcome × ((Token × Futures api) × Task)) (later : List (Op api))
      → Ends r
      → let s = run api r.1.0 later in
        ((is_sent r.0 ≡ false) × (r.1.1.sent ≡ []))
        ⊎ ((is_sent r.0 ≡ true)
            × (r.1.1.sent ≡ r.1.1.message ∷ [])
            × (r.1.0.0.canceled ≡ false)
            × (cancel api s ≡ (false, s)))
  Ends-final r later (v, inl x) = inl x
  Ends-final r later (v, inr x) = inr (
    x.0,
    x.2,
    exclusive_committed r.1.0.0.canceled r.1.0.0.committed v.exclusive x.1,
    cancel_refused api (run api r.1.0 later) (committed-run api r.1.0 later v x.1),
  )

  -- A file that the queue sends ends in one of two ways, however the compression and the upload end
  -- and whatever happens to its token before, between the steps and afterwards. Either no message was
  -- sent, and the outcome says so. Or the one message was sent, the token is not cancelled, and every
  -- later `cancel` answers false and changes nothing. The token is taken to be new before the
  -- operations `os`, and the task not to have sent anything.
  pub upload_file_final :
      (fs : Futures api) (os later : List (Op api)) (e : Env json media api) (t : Task)
      → t.sent ≡ []
      → let r = upload_file json media api e (run api (new_token, fs) os) t in
        let s = run api r.1.0 later in
        ((is_sent r.0 ≡ false) × (r.1.1.sent ≡ []))
        ⊎ ((is_sent r.0 ≡ true)
            × (r.1.1.sent ≡ r.1.1.message ∷ [])
            × (r.1.0.0.canceled ≡ false)
            × (cancel api s ≡ (false, s)))
  upload_file_final fs os later e t h =
      Ends-final (upload_file json media api e (run api (new_token, fs) os) t) later
        (upload_file-Ends e (run api (new_token, fs) os) t (run-Inv api fs os) h)

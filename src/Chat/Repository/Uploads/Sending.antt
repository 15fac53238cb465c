-- ===== src/Chat/Repository/Uploads/Sending.antt =====
-- When a file is sent.
use chatdesktop.Prelude.{
  ◌≡◌, refl, sym, ap, ◌∙◌, String, Bool, true, false, not, ◌&&◌, ◌||◌, Option, none, some, is_empty,
  if◌then◌else◌, if_elim,
}
use chatdesktop.Chat.Wire.{JsonApi}
use chatdesktop.Upload.Cancellation.{FutureApi, Token, Futures, run, track, try_commit, is_canceled}
use chatdesktop.Chat.Repository.Uploads.{
  MediaApi, Outcome, canceled_future, ready, is_sent, is_image, is_voice_message, Task,
  begin_upload, cache_voice, measure, on_prepared, on_uploaded, Env, after_upload, after_prepared,
  prepared_path, with_path, upload_file,
}

module _ {R : Type 0} (f : R → Bool) {x y : R} (c : Bool) where
  -- A guard that ends with `x`.
  guarded : (b : Bool) → f x ≡ false → f y ≡ c → f (if not b then x else y) ≡ (b && c)
  guarded true h k = k
  guarded false h k = h

  -- And one that is an error itself.
  refused : (b : Bool) → f x ≡ false → f y ≡ c → f (if b then x else y) ≡ (not b && c)
  refused true h k = h
  refused false h k = k

module _ {R : Type 0} (f : R → Bool) {x z w y : R} (c : Bool) where
  -- Three ways to go on and one to stop.
  cached_or :
      (a v k : Bool)
      → f x ≡ c
      → f z ≡ false
      → f w ≡ c
      → f y ≡ c
      → f (if a then x else if v then (if not k then z else w) else y) ≡ ((a || (not v || k)) && c)
  cached_or true v k hx hz hw hy = hx
  cached_or false true true hx hz hw hy = hw
  cached_or false true false hx hz hw hy = hz
  cached_or false false k hx hz hw hy = hy

and_right : (a : Bool) → (a && true) ≡ a
and_right true = refl
and_right false = refl

not_or : (a b : Bool) → not (not a || b) ≡ (a && not b)
not_or true b = refl
not_or false b = refl

and_assoc : (a b c : Bool) → ((a && b) && c) ≡ (a && (b && c))
and_assoc true b c = refl
and_assoc false b c = refl

module _ (json : JsonApi) (media : MediaApi) (api : FutureApi) where
  -- The server took the file and gave a URL.
  abbrev pub is_uploaded : Option (String × String) → Bool
  is_uploaded none = false
  is_uploaded (some u) = is_empty u.0 && (media.is_valid_url u.1 && not (is_empty u.1))

  -- A recording outside the cache is copied into it.
  abbrev pub is_cached : String → Task → Bool
  is_cached path t =
      media.is_cache_path path
      || (not (is_voice_message t.message.content.type)
          || media.save_file
              (media.voice_path t.message.message_id (media.suffix path) t.message.sender_id) path)

  abbrev pub path_goes_out : Env json media api → Token × Futures api → Option String → Task → Bool
  path_goes_out e s none t = false
  path_goes_out e s (some path) t =
      not (is_canceled s.0)
      && (not (is_empty path)
          && (is_cached (media.to_local path) t
              && (is_uploaded e.uploaded
                  && not (is_canceled (run api (track api s e.upload) e.meanwhile).0))))

  -- The file is compressed where it has to be, nobody cancels before the upload begins or before it
  -- is committed, and the copy and the upload succeed.
  abbrev pub goes_out : Env json media api → Token × Futures api → Task → Bool
  goes_out e s t =
      let compresses = is_image t.message.content.type in
      let begun = if compresses then track api s e.compression else s in
      path_goes_out e (run api begun e.before)
        (prepared_path json media api compresses e.compressed t.file_path) t

  commit_iff : (s : Token × Futures api) → (try_commit api s).0 ≡ not (is_canceled s.0)
  unfolding try_commit is_canceled
  commit_iff (t, fs) =
      if_elim (λ (r : Bool × (Token × Futures api)). r.0 ≡ not t.canceled) t.canceled
        (λ e. rw e refl) (λ e. rw e refl)

  abbrev result_sent : Outcome × ((Token × Futures api) × Task) → Bool
  result_sent r = is_sent r.0

  on_uploaded_iff :
      (error url : String) (s : Token × Futures api) (t : Task)
      → is_sent (on_uploaded json media api error url s t).0 ≡ (
          (is_empty error && (media.is_valid_url url && not (is_empty url)))
          && not (is_canceled s.0))
  unfolding on_uploaded
  on_uploaded_iff error url s t =
      let valid = media.is_valid_url url && not (is_empty url) in
      guarded result_sent (valid && not (is_canceled s.0)) (is_empty error) refl (
        refused result_sent (not (is_canceled s.0)) (not (media.is_valid_url url) || is_empty url)
          refl
          (guarded result_sent true (try_commit api s).0 refl refl
            ∙ (and_right (try_commit api s).0 ∙ commit_iff s))
        ∙ ap (λ b. b && not (is_canceled s.0)) (not_or (media.is_valid_url url) (is_empty url)))
      ∙ sym (and_assoc (is_empty error) valid (not (is_canceled s.0)))

  -- What the outcome hangs on once the upload begins.
  abbrev delivered : Env json media api → Token × Futures api → Bool
  delivered e s =
      is_uploaded e.uploaded && not (is_canceled (run api (track api s e.upload) e.meanwhile).0)

  abbrev end_of : Env json media api → Token × Futures api → Option Outcome × Task → Bool
  end_of e s r = is_sent (after_prepared json media api e s r).0

  after_upload_iff :
      (u : Option (String × String)) (s : Token × Futures api) (t : Task)
      → is_sent (after_upload json media api u s t).0 ≡ (is_uploaded u && not (is_canceled s.0))
  unfolding after_upload
  after_upload_iff none s t = refl
  after_upload_iff (some u) s t = on_uploaded_iff u.0 u.1 s t

  uploading_iff :
      (e : Env json media api) (s : Token × Futures api) (t : Task)
      → end_of e s (none, t) ≡ delivered e s
  unfolding after_prepared
  uploading_iff e s t = after_upload_iff e.uploaded (run api (track api s e.upload) e.meanwhile) t

  stopped :
      (e : Env json media api) (s : Token × Futures api) (t : Task) (o : Outcome)
      → is_sent o ≡ false
      → end_of e s (some o, t) ≡ false
  unfolding after_prepared
  stopped e s t o h = h

  measure_iff :
      (e : Env json media api) (s : Token × Futures api) (path : String) (t : Task)
      → end_of e s (measure json media api path t) ≡ (is_cached path t && delivered e s)
  unfolding measure cache_voice begin_upload
  measure_iff e s path t =
      cached_or (end_of e s) (delivered e s) (media.is_cache_path path)
        (is_voice_message t.message.content.type)
        (media.save_file
          (media.voice_path t.message.message_id (media.suffix path) t.message.sender_id) path)
        (uploading_iff e s _) (stopped e s t _ refl) (uploading_iff e s _) (uploading_iff e s _)

  on_prepared_iff :
      (e : Env json media api) (s : Token × Futures api) (canceled : Bool) (path : String)
      (t : Task)
      → end_of e s (on_prepared json media api canceled path t) ≡ (
          not canceled
          && (not (is_empty path) && (is_cached (media.to_local path) t && delivered e s)))
  unfolding on_prepared
  on_prepared_iff e s canceled path t =
      refused (end_of e s)
        (not (is_empty path) && (is_cached (media.to_local path) t && delivered e s)) canceled
        (stopped e s t canceled_future refl)
        (refused (end_of e s) (is_cached (media.to_local path) t && delivered e s) (is_empty path)
          (stopped e s t (ready "Could not compress image. No message was sent.") refl)
          (measure_iff e s (media.to_local path) (record t { file_path = path })))

  with_path_iff :
      (e : Env json media api) (s : Token × Futures api) (path : Option String) (t : Task)
      → is_sent (with_path json media api e s path t).0 ≡ path_goes_out e s path t
  unfolding with_path
  with_path_iff e s none t = refl
  with_path_iff e s (some path) t = on_prepared_iff e s (is_canceled s.0) path t

  -- A file is sent exactly when it was compressed, if it is an image, nobody had cancelled by the
  -- time the upload begins, its recording was copied, if it is one outside the cache, the upload
  -- brought a valid URL without an error, and nobody had cancelled by the time of the commit.
  pub upload_file_iff :
      (e : Env json media api) (s : Token × Futures api) (t : Task)
      → is_sent (upload_file json media api e s t).0 ≡ goes_out e s t
  unfolding upload_file
  upload_file_iff e s t =
      let compresses = is_image t.message.content.type in
      let begun = if compresses then track api s e.compression else s in
      with_path_iff e (run api begun e.before)
        (prepared_path json media api compresses e.compressed t.file_path) t

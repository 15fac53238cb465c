-- ===== src/Chat/Repository/Uploads.antt =====
-- What `sendFiles` of src/features/chat/data/repository/message_repository_impl.cpp does when the
-- queue starts its entry: compress, upload, commit and send, with the cancellation token between the
-- steps, and src/features/chat/data/mapping/message_payload_mapper.hpp. The files, the media cache
-- and the URLs are parameters.
mod Commit
mod Sending
mod Examples
use chatdesktop.Prelude.{
  ℕ, ℤ, String, Bool, true, false, not, ◌&&◌, ◌||◌, Option, none, some, List, [], ◌∷◌, ◌++◌,
  is_empty, if◌then◌else◌,
}
use chatdesktop.Chat.Entity.{
  MessageType, text, voice, video, location, image, file, sticker, Content, Payload, MessageItem,
}
use chatdesktop.Chat.Wire.{JsonApi, ContentDto, PayloadDto, MessageItemDto, item_to_domain}
use chatdesktop.Upload.Cancellation.{
  FutureApi, Token, Futures, Op, run, track, try_commit, is_canceled,
}

-- `QUrl`, `QFileInfo` and `MediaCache`. `local_url` is the text of `QUrl::fromLocalFile`, `to_local`
-- the path of a URL, and `save_file` answers whether the copy was made.
pub record MediaApi : Type 0 where
  pub local_url : String → String
  pub to_local : String → String
  pub suffix : String → String
  pub is_valid_url : String → Bool
  pub encoded : String → String
  pub is_cache_path : String → Bool
  pub cached_size : String → ℤ
  pub local_size : String → ℤ
  pub voice_path : String → String → String → String
  pub save_file : String → String → Bool

-- How the future of `sendFiles` ends, or that it is the future of `sendMessageNow`.
pub data Outcome : Type 0 where
  canceled_future : Outcome
  ready : String → Outcome
  sends_now : Outcome

abbrev pub is_sent : Outcome → Bool
is_sent canceled_future = false
is_sent (ready s) = false
is_sent sends_now = true

abbrev pub is_image : MessageType → Bool
is_image image = true
is_image text = false
is_image voice = false
is_image video = false
is_image location = false
is_image file = false
is_image sticker = false

abbrev pub is_voice_message : MessageType → Bool
is_voice_message voice = true
is_voice_message text = false
is_voice_message video = false
is_voice_message location = false
is_voice_message image = false
is_voice_message file = false
is_voice_message sticker = false

abbrev pub is_file : MessageType → Bool
is_file file = true
is_file text = false
is_file voice = false
is_file video = false
is_file location = false
is_file image = false
is_file sticker = false

-- `FileUploadTask` with the message, and logs of the uploads, the signals and the messages sent.
pub record Task : Type 0 where
  pub message : Payload
  pub file_path : String
  pub uploads : List String
  pub linked : List (String × String)
  pub updated : List MessageItem
  pub sent : List Payload

module _ (json : JsonApi) (media : MediaApi) (api : FutureApi) where
  open media use {
    local_url, to_local, suffix, is_valid_url, encoded, is_cache_path, cached_size, local_size,
    voice_path, save_file,
  }

  unfoldable pub content_to_dto : Content → ContentDto json
  content_to_dto c = record {
    type = c.type;
    body_text = c.body_text;
    media_url = c.media_url;
    file_name = c.file_name;
    file_size = c.file_size;
    duration = c.duration;
  }

  unfoldable pub payload_to_dto : Payload → PayloadDto json
  payload_to_dto p = record {
    message_id = p.message_id;
    sender_id = p.sender_id;
    receiver_id = p.receiver_id;
    reply_message_id = p.reply_message_id;
    timestamp = p.timestamp;
    content = content_to_dto p.content;
    attachment_batch_id = p.attachment_batch_id;
    attachment_index = p.attachment_index;
  }

  -- The item that `messageSent` and `messageUpdated` carry.
  unfoldable pub message_item : Payload → MessageItem
  message_item p = item_to_domain json (record {
    id = p.message_id;
    sender_id = p.sender_id;
    recipient_id = p.receiver_id;
    body = payload_to_dto p;
    sent_at = "";
  })

  -- From `task->future = ...` on, with the content that the message has by then.
  unfoldable pub begin_upload : Content → Task → Option Outcome × Task
  begin_upload content t = (
    none,
    record t {
      message = record t.message { content = content };
      uploads = t.uploads ++ (t.file_path ∷ []);
    },
  )

  unfoldable pub cache_voice : String → Task → Option Outcome × Task
  cache_voice path t =
      let cached = voice_path t.message.message_id (suffix path) t.message.sender_id in
      let content = t.message.content in
      if not (save_file cached path)
      then (some (ready "Unable to cache voice recording."), t)
      else begin_upload (record content { file_size = local_size path; localpath = cached }) t

  unfoldable pub measure : String → Task → Option Outcome × Task
  measure path t =
      let content = t.message.content in
      if is_cache_path path
      then begin_upload (record content { file_size = cached_size path }) t
      else if is_voice_message content.type
      then cache_voice path t
      else begin_upload (record content { file_size = local_size path }) t

  -- The continuation of `prepared`, the state of the token given.
  unfoldable pub on_prepared : Bool → String → Task → Option Outcome × Task
  on_prepared canceled path t =
      if canceled
      then (some canceled_future, t)
      else if is_empty path
      then (some (ready "Could not compress image. No message was sent."), t)
      else measure (to_local path) (record t { file_path = path })

  -- After `tryCommit`.
  unfoldable pub link_file : String → Task → Task
  link_file url t =
      if is_file t.message.content.type
      then record t { linked = t.linked ++ ((url, to_local t.file_path) ∷ []) }
      else t

  unfoldable pub with_local_path : String → MessageItem → MessageItem
  with_local_path path m =
      let body = m.body in
      let content = body.content in
      record m { body = record body { content = record content { localpath = path } } }

  unfoldable pub send_committed : String → Task → Task
  send_committed url t =
      let linked = link_file url t in
      let content = t.message.content in
      let p = t.message in
      let message = record p { content = record content { media_url = encoded url } } in
      record linked {
        message = message;
        updated = t.updated ++ (with_local_path content.localpath (message_item message) ∷ []);
        sent = t.sent ++ (message ∷ []);
      }

  -- The continuation of the upload.
  unfoldable pub on_uploaded :
      String → String → Token × Futures api → Task → Outcome × ((Token × Futures api) × Task)
  on_uploaded error url s t =
      let commit = try_commit api s in
      if not (is_empty error)
      then (ready error, (s, t))
      else if not (is_valid_url url) || is_empty url
      then (ready "File upload returned an invalid URL.", (s, t))
      else if not commit.0
      then (canceled_future, (commit.1, t))
      else (sends_now, (commit.1, send_committed url t))

  -- What happens around the steps: how the compression and the upload end, `none` for a cancelled
  -- future, the names of their futures, and what others do to the token meanwhile.
  pub record Env : Type 0 where
    pub compression : ℕ
    pub compressed : Option String
    pub before : List (Op api)
    pub upload : ℕ
    pub uploaded : Option (String × String)
    pub meanwhile : List (Op api)

  unfoldable pub after_upload :
      Option (String × String)
      → Token × Futures api
      → Task
      → Outcome × ((Token × Futures api) × Task)
  after_upload none s t = (canceled_future, (s, t))
  after_upload (some u) s t = on_uploaded u.0 u.1 s t

  unfoldable pub after_prepared :
      Env → Token × Futures api → Option Outcome × Task → Outcome × ((Token × Futures api) × Task)
  after_prepared e s (some o, t) = (o, (s, t))
  after_prepared e s (none, t) =
      after_upload e.uploaded (run api (track api s e.upload) e.meanwhile) t

  abbrev pub compressed_url : String → String
  compressed_url path = if is_empty path then "" else local_url path

  unfoldable pub prepared_path : Bool → Option String → String → Option String
  prepared_path false compressed path = some path
  prepared_path true none path = none
  prepared_path true (some compressed) path = some (compressed_url compressed)

  unfoldable pub with_path :
      Env → Token × Futures api → Option String → Task → Outcome × ((Token × Futures api) × Task)
  with_path e s none t = (canceled_future, (s, t))
  with_path e s (some path) t = after_prepared e s (on_prepared (is_canceled s.0) path t)

  -- The function that the entry of the queue starts.
  unfoldable pub upload_file :
      Env → Token × Futures api → Task → Outcome × ((Token × Futures api) × Task)
  upload_file e s t =
      let compresses = is_image t.message.content.type in
      let begun = if compresses then track api s e.compression else s in
      with_path e (run api begun e.before) (prepared_path compresses e.compressed t.file_path) t

-- ===== src/Chat/SendMessage.antt =====
-- src/features/chat/domain/usecase/send_message_usecase.cpp: what is sent, and how the uploads of a
-- batch settle into one result. Files, clocks, random ids and the repository's futures are
-- parameters; a future that has finished is an `Ending`, handled in the order of the event loop.
pub mod Laws
use chatdesktop.Prelude.{
  ℕ, zero, suc, ◌+◌, ◌-◌, ℤ, pos, negsuc, lt, le, String, Bool, true, false, not, ◌&&◌, ◌||◌,
  Option, none, some, List, [], ◌∷◌, ◌++◌, length, is_empty, ◌==◌, if◌then◌else◌, any_of,
}
use chatdesktop.Chat.Entity.{
  MessageType, text, voice, image, file, sticker, Content, Payload, no_content, no_payload,
}
use chatdesktop.Upload.Cancellation.{Token, is_canceled}

-- `domain::AttachmentItem`, of which sending reads these members; the URL by its text.
pub record AttachmentItem : Type 0 where
  pub id : String
  pub url : String
  pub compress : Bool

-- What `QUrl`, `QFileInfo`, `QUuid`, the clock and the repository answer. Ids are counted.
pub record Env : Type 0 where
  pub is_local_file : String → Bool
  pub to_local_file : String → String
  pub fully_encoded : String → String
  pub is_file : String → Bool
  pub is_readable : String → Bool
  pub size : String → ℤ
  pub file_name : String → String
  pub uuid : ℕ → String
  pub now : String
  pub current_user_id : String

-- A finished future of `sendImage` or `sendFiles`: cancelled, a result, or an exception.
pub data Ending : Type 0 where
  canceled : Ending
  result : String → Ending
  thrown : Ending

-- The calls of the repository.
pub data Call : Type 0 where
  send_image send_files : Payload → AttachmentItem → Call
  send_voice : Payload → String → Call
  send_message send_sticker : Payload → Call

-- What `sendAttachments` returns: a future with this result, a cancelled one, or a pending one after
-- it made these calls.
pub data Sent : Type 0 where
  ready : String → Sent
  canceled_future : Sent
  pending : List Call → Sent

module _ (env : Env) where
  unfoldable pub usable : AttachmentItem → Bool
  usable a =
      let path = env.to_local_file a.url in
      env.is_local_file a.url
      && (env.is_file path && (env.is_readable path && lt (pos 0) (env.size path)))

  -- The payload of one attachment; its own id is `fresh`.
  unfoldable pub attachment_payload :
      String → String → Bool → String → ℕ → String → AttachmentItem → Payload
  attachment_payload receiver caption images batch_id index fresh a =
      let path = env.to_local_file a.url in
      record no_payload {
        is_mine = true;
        attachment_batch_id = batch_id;
        attachment_index = pos index;
        sender_id = env.current_user_id;
        receiver_id = receiver;
        message_id = fresh;
        timestamp = env.now;
        content = record no_content {
          type = if images then image else file;
          body_text = caption;
          media_url = a.url;
          file_name = env.file_name path;
          file_size = env.size path;
        };
      }

  unfoldable pub value_or : Option Bool → Bool → Bool
  value_or none b = b
  value_or (some o) b = o

  -- The loop that starts the uploads; `ids` counts the ids drawn.
  unfoldable pub start_uploads :
      String → String → Option Bool → String → ℕ → ℕ → List AttachmentItem → List Call
  start_uploads receiver caption override batch_id index ids [] = []
  start_uploads receiver caption override batch_id index ids (a ∷ rest) =
      let images = value_or override a.compress in
      let payload = attachment_payload receiver caption images batch_id index (env.uuid ids) a in
      (if images then send_image payload a else send_files payload a)
      ∷ start_uploads receiver caption override batch_id (suc index) (suc ids) rest

  unfoldable pub token_canceled : Option Token → Bool
  token_canceled none = false
  token_canceled (some t) = is_canceled t

  unfoldable pub send_attachments :
      String → List AttachmentItem → String → Option Token → Option Bool → Sent
  send_attachments receiver attachments caption cancellation override =
      if is_empty receiver || length attachments == 0
      then ready "Select attachments and a recipient before sending."
      else if token_canceled cancellation
      then canceled_future
      else if any_of (λ a. not (usable a)) attachments
      then ready "Attachment is missing, empty, or unreadable."
      else pending (start_uploads receiver caption override (env.uuid 0) 0 1 attachments)

  unfoldable pub send_image_files : String → List AttachmentItem → String → Option Token → Sent
  unfolding send_attachments
  send_image_files receiver attachments caption cancellation =
      send_attachments receiver attachments caption cancellation (some true)

  unfoldable pub send_plain_files : String → List AttachmentItem → String → Option Token → Sent
  unfolding send_attachments
  send_plain_files receiver attachments caption cancellation =
      send_attachments receiver attachments caption cancellation (some false)

  unfoldable pub send_selected_attachments :
      String → List AttachmentItem → String → Option Token → Sent
  unfolding send_attachments
  send_selected_attachments receiver attachments caption cancellation =
      send_attachments receiver attachments caption cancellation none

  unfoldable pub send_voice_message : String → String → ℤ → String → Sent
  send_voice_message receiver url duration message_id =
      let path = env.to_local_file url in
      if is_empty receiver
        || (not (env.is_local_file url)
            || (not (env.is_file path) || (le (env.size path) (pos 0) || le duration (pos 0))))
      then ready "Record audio before sending a voice message."
      else pending (
          send_voice
            (record no_payload {
              is_mine = true;
              sender_id = env.current_user_id;
              receiver_id = receiver;
              message_id = if is_empty message_id then env.uuid 0 else message_id;
              timestamp = env.now;
              content = record no_content {
                type = voice;
                body_text = "Voice message";
                file_size = env.size path;
                file_name = env.file_name path;
                duration = duration;
                media_url = env.fully_encoded url;
                localpath = path;
              };
            })
            url
          ∷ [])

  unfoldable pub execute : String → String → Call
  execute receiver msg = send_message (record no_payload {
    sender_id = env.current_user_id;
    receiver_id = receiver;
    message_id = env.uuid 0;
    timestamp = env.now;
    content = record no_content { type = text; body_text = msg };
  })

  unfoldable pub send_sticker_message : String → String → Call
  send_sticker_message receiver path = send_sticker (record no_payload {
    sender_id = env.current_user_id;
    receiver_id = receiver;
    message_id = env.uuid 0;
    timestamp = env.now;
    content = record no_content { type = sticker; media_url = path };
  })

-- The shared state of a batch's watchers, the promise and the `fileUploadSettled` signals.
pub record Batch : Type 0 where
  pub remaining : ℕ
  pub error : String
  pub results : List String
  pub is_finished : Bool
  pub settled : List (String × Bool)

abbrev pub new_batch : ℕ → Batch
new_batch n = record { remaining = n; error = ""; results = []; is_finished = false; settled = [] }

-- The error that an ending leaves, given the one before, and whether it was a success.
unfoldable pub judge : Ending → String → String × Bool
judge canceled e = ("Upload canceled.", false)
judge (result s) e = if is_empty s then (e, true) else (s, false)
judge thrown e = ("File upload failed. Please retry.", false)

-- The slot of `finished`, on the attachment's id.
unfoldable pub on_upload_finished : String → Ending → Batch → Batch
on_upload_finished id ending b =
    let verdict = judge ending b.error in
    let left = b.remaining - 1 in
    let noted = record b {
      remaining = left;
      error = verdict.0;
      settled = b.settled ++ ((id, verdict.1) ∷ []);
    } in
    if left == 0
    then record noted { results = noted.results ++ (verdict.0 ∷ []); is_finished = true }
    else noted

unfoldable pub settle_all : List (String × Ending) → Batch → Batch
settle_all [] b = b
settle_all ((id, e) ∷ rest) b = settle_all rest (on_upload_finished id e b)

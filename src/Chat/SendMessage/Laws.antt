-- ===== src/Chat/SendMessage/Laws.antt =====
-- What a batch of attachments sends, and the one result that its uploads settle into.
use chatdesktop.Prelude.{
  ℕ, zero, suc, ◌+◌, ◌-◌, ◌<◌, ◌≡◌, ◌≢◌, refl, sym, ap, ◌∙◌, String, Bool, true, false, not, Option,
  List, [], ◌∷◌, ◌++◌, map, length, get_elem?, is_empty, ◌==◌, any_of, append_assoc, append-nil,
  arith, if◌then◌else◌, pos,
}
use mathlib.Core.Option.{map as map_option}
use chatdesktop.Upload.Cancellation.{Token}
use chatdesktop.Chat.Entity.{Payload, no_content, image, file}
use chatdesktop.Chat.SendMessage.{
  AttachmentItem, Env, Ending, canceled, result, thrown, Call, send_image, send_files, pending,
  usable, attachment_payload, value_or, start_uploads, token_canceled, send_attachments, Batch,
  new_batch, judge, on_upload_finished, settle_all,
}

-- Whether an ending is a success, and the error that it reports.
unfoldable pub succeeded : Ending → Bool
succeeded canceled = false
succeeded (result s) = is_empty s
succeeded thrown = false

unfoldable pub error_of : Ending → String
error_of canceled = "Upload canceled."
error_of (result s) = s
error_of thrown = "File upload failed. Please retry."

-- The error of the last upload that failed, or the text given when none did.
unfoldable pub last_error : String → List (String × Ending) → String
unfolding succeeded error_of
last_error e [] = e
last_error e ((id, end) ∷ rest) = last_error (if succeeded end then e else error_of end) rest

judge-verdict :
    (end : Ending) (e : String)
    → judge end e ≡ (if succeeded end then e else error_of end, succeeded end)
unfolding judge succeeded error_of
judge-verdict canceled e = refl
judge-verdict (result s) e = ground arith
judge-verdict thrown e = refl

abbrev verdicts : List (String × Ending) → List (String × Bool)
verdicts es = map (λ p. (p.0, succeeded p.1)) es

-- The batch after an ending that is not the last.
abbrev noted : String → Ending → ℕ → Batch → Batch
noted id end left b = record b {
  remaining = left;
  error = if succeeded end then b.error else error_of end;
  settled = b.settled ++ ((id, succeeded end) ∷ []);
}

on_upload-noted :
    (id : String) (end : Ending) (n : ℕ) (b : Batch)
    → b.remaining ≡ suc (suc n)
    → on_upload_finished id end b ≡ noted id end (suc n) b
unfolding on_upload_finished
on_upload-noted id end n b h =
    let e : b.remaining - 1 ≡ suc n = omega arith in
    let f : (suc n == 0) ≡ false = ground arith in simp (judge-verdict end b.error, e, f) refl

-- With as many watchers left as endings to come.
settle_from :
    (es : List (String × Ending)) (b : Batch)
    → b.remaining ≡ length es
    → (length es ≢ 0 → (settle_all es b).results ≡ b.results ++ (last_error b.error es ∷ []))
      × ((length es ≢ 0 → (settle_all es b).is_finished ≡ true)
          × ((settle_all es b).settled ≡ b.settled ++ verdicts es))
unfolding settle_all on_upload_finished last_error
settle_from [] b h = (λ n. ground arith, (λ n. ground arith, sym (append-nil b.settled)))
settle_from ((id, end) ∷ []) b h =
    simp (judge-verdict end b.error, h) (λ n. refl, (λ n. refl, refl))
settle_from ((id, end) ∷ (p ∷ rest)) b h =
    let next = noted id end (suc (length rest)) b in
    let r = settle_from (p ∷ rest) next refl in
    let e = on_upload-noted id end (length rest) b h in
    (
      λ n. ap (λ c. (settle_all (p ∷ rest) c).results) e ∙ r.0 (omega arith),
      (
        λ n. ap (λ c. (settle_all (p ∷ rest) c).is_finished) e ∙ r.1.0 (omega arith),
        ap (λ c. (settle_all (p ∷ rest) c).settled) e
            ∙ (r.1.1 ∙ append_assoc b.settled ((id, succeeded end) ∷ []) (verdicts (p ∷ rest))),
      ),
    )

-- When all uploads of a batch that is not empty have ended, its promise is finished with one
-- result, the error of the last upload that failed, or empty; and each upload was reported once,
-- with its success, in the order of the endings.
pub settle_all_once :
    (es : List (String × Ending))
    → length es ≢ 0
    → let done = settle_all es (new_batch (length es)) in
      (done.results ≡ last_error "" es ∷ [])
      × ((done.is_finished ≡ true) × (done.settled ≡ map (λ p. (p.0, succeeded p.1)) es))
settle_all_once es h =
    let r = settle_from es (new_batch (length es)) refl in (r.0 h, (r.1.0 h, r.1.1))

settle_short :
    (es : List (String × Ending)) (b : Batch)
    → length es < b.remaining
    → ((settle_all es b).results ≡ b.results) × ((settle_all es b).is_finished ≡ b.is_finished)
unfolding settle_all
settle_short [] b h = (refl, refl)
settle_short ((id, end) ∷ rest) b h =
    let n = b.remaining - 2 in
    let e = on_upload-noted id end n b (omega arith) in
    let r = settle_short rest (noted id end (suc n) b) (omega arith) in
    (
      ap (λ c. (settle_all rest c).results) e ∙ r.0,
      ap (λ c. (settle_all rest c).is_finished) e ∙ r.1,
    )

-- While fewer uploads have ended than the batch has, its promise has no result and is not finished.
pub settle_all_pending :
    (es : List (String × Ending)) (n : ℕ)
    → length es < n
    → ((settle_all es (new_batch n)).results ≡ [])
      × ((settle_all es (new_batch n)).is_finished ≡ false)
settle_all_pending es n h = settle_short es (new_batch n) h

module _ (env : Env) where
  -- The call for an attachment: as an image or as a file, with its batch, its place and its own id.
  abbrev pub call_for : String → String → Option Bool → String → ℕ → ℕ → AttachmentItem → Call
  call_for receiver caption override batch_id index fresh a =
      let images = value_or env override a.compress in
      let payload : Payload = record {
        is_mine = true;
        message_id = env.uuid fresh;
        sender_id = env.current_user_id;
        receiver_id = receiver;
        reply_message_id = "";
        timestamp = env.now;
        content = record no_content {
          type = if images then image else file;
          body_text = caption;
          media_url = a.url;
          file_name = env.file_name (env.to_local_file a.url);
          file_size = env.size (env.to_local_file a.url);
        };
        attachment_batch_id = batch_id;
        attachment_index = pos index;
      } in
      if images then send_image payload a else send_files payload a

  start_uploads-get :
      (receiver caption : String) (override : Option Bool) (batch_id : String) (index ids : ℕ)
      (attachments : List AttachmentItem) (i : ℕ)
      → get_elem? (start_uploads env receiver caption override batch_id index ids attachments) i
        ≡ map_option
            (call_for receiver caption override batch_id (index + i) (ids + i))
            (get_elem? attachments i)
  unfolding start_uploads attachment_payload
  start_uploads-get receiver caption override batch_id index ids [] i = refl
  start_uploads-get receiver caption override batch_id index ids (a ∷ rest) zero =
      let e : index + 0 ≡ index = omega arith in
      let f : ids + 0 ≡ ids = omega arith in simp (e, f) refl
  start_uploads-get receiver caption override batch_id index ids (a ∷ rest) (suc i) =
      let e : index + suc i ≡ suc index + i = omega arith in
      let f : ids + suc i ≡ suc ids + i = omega arith in
      rw (e, f) (start_uploads-get receiver caption override batch_id (suc index) (suc ids) rest i)

  -- When the calls are made, a receiver is named, nothing was cancelled, every attachment is a
  -- readable local file that is not empty, and the call at each position sends the attachment there,
  -- under the batch's id, with that position as its index and an id of its own.
  pub send_attachments-pending :
      (receiver : String) (attachments : List AttachmentItem) (caption : String)
      (token : Option Token) (override : Option Bool) {calls : List Call}
      → send_attachments env receiver attachments caption token override ≡ pending calls
      → (is_empty receiver ≡ false)
        × ((token_canceled env token ≡ false)
            × ((any_of (λ a. not (usable env a)) attachments ≡ false)
                × ((i : ℕ)
                    → get_elem? calls i
                      ≡ map_option
                          (call_for receiver caption override (env.uuid 0) i (suc i))
                          (get_elem? attachments i))))
  unfolding send_attachments
  send_attachments-pending receiver attachments caption token override {calls} h =
      let e : start_uploads env receiver caption override (env.uuid 0) 0 1 attachments ≡ calls =
        ground arith in
      (
        ground arith,
        (
          ground arith,
          (
            ground arith,
            (λ i.
                ap (λ l. get_elem? l i) (sym e)
                ∙ (let f : 0 + i ≡ i = omega arith in
                    let g : 1 + i ≡ suc i = omega arith in
                    rw (f, g) at
                      (start_uploads-get receiver caption override (env.uuid 0) 0 1 attachments
                        i))),
          ),
        ),
      )

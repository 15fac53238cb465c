-- ===== src/Chat/Repository/Uploads/Examples.antt =====
-- A picture that is compressed and uploaded while somebody cancels too late.
use chatdesktop.Prelude.{◌≡◌, refl, ◌⊎◌, pos, true, false, some, [], ◌∷◌}
use chatdesktop.Chat.Entity.{image, no_payload, no_content}
use chatdesktop.Chat.Wire.SmallJson.{no_json}
use chatdesktop.Upload.FlagFutures.{api, futures}
use chatdesktop.Upload.Cancellation.{
  new_token, tracks, cancels, run, step, track, is_canceled, cancel,
}
use chatdesktop.Chat.Repository.Uploads.{MediaApi, is_sent, Task, Env, prepared_path, upload_file}
use chatdesktop.Chat.Repository.Uploads.Commit.{upload_file_final}
use chatdesktop.Chat.Repository.Uploads.Sending.{goes_out, upload_file_iff}

abbrev media : MediaApi
media = record {
  local_url = λ s. s;
  to_local = λ s. s;
  suffix = λ s. s;
  is_valid_url = λ s. true;
  encoded = λ s. s;
  is_cache_path = λ s. true;
  cached_size = λ s. pos 10;
  local_size = λ s. pos 10;
  voice_path = λ a b c. a;
  save_file = λ a b. true;
}

abbrev task : Task
task = record {
  message = record no_payload { message_id = "m1"; content = record no_content { type = image } };
  file_path = "file:///p.png";
  uploads = [];
  linked = [];
  updated = [];
  sent = [];
}

abbrev env : Env no_json media api
env = record {
  compression = 1;
  compressed = some "/cache/p.png";
  before = [];
  upload = 2;
  uploaded = some ("", "https://x/p.png");
  meanwhile = tracks 3 ∷ [];
}

upload_file_final_example :
    let r = upload_file no_json media api env (run api (new_token, futures) []) task in
    let s = run api r.1.0 (cancels ∷ []) in
    ((is_sent r.0 ≡ false) × (r.1.1.sent ≡ []))
    ⊎ ((is_sent r.0 ≡ true)
        × (r.1.1.sent ≡ r.1.1.message ∷ [])
        × (r.1.0.0.canceled ≡ false)
        × (cancel api s ≡ (false, s)))
upload_file_final_example =
    upload_file_final no_json media api futures [] (cancels ∷ []) env task refl

picture_goes_out : goes_out no_json media api env (new_token, futures) task ≡ true
unfolding run track step is_canceled prepared_path
picture_goes_out = refl

upload_file_iff_example :
    is_sent (upload_file no_json media api env (new_token, futures) task).0
    ≡ goes_out no_json media api env (new_token, futures) task
upload_file_iff_example = upload_file_iff no_json media api env (new_token, futures) task

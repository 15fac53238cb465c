-- ===== src/Chat/Repository/Queue.antt =====
-- The send queue of src/features/chat/data/repository/message_repository_impl.cpp: `enqueue`,
-- `nextProcess` with its watcher's slot, `cancelFileUpload`, the destructor, and the guards of
-- `sendFiles`. A promise and its future are named by a number. Whether starting an entry throws is a
-- parameter; a deferred `invokeMethod` is counted and may run at any time.
mod Ledger
mod History
mod Examples
use chatdesktop.Prelude.{
  ℕ, suc, ◌-◌, String, Bool, true, false, not, ◌&&◌, ◌||◌, Option, none, some, List, [], ◌∷◌, ◌++◌,
  map, any_of, str_eq, ◌==◌, if◌then◌else◌,
}
use chatdesktop.Upload.Cancellation.{FutureApi, Token, Futures, is_canceled, track, cancel}

-- `SendQueueEntry`: the promise, the token and the upload task, by name.
pub record Entry : Type 0 where
  pub promise : ℕ
  pub cancellation : Option ℕ
  pub task : Option String

-- How the future that `start` returned ends.
pub data SendEnding : Type 0 where
  canceled : SendEnding
  returned : Option String → SendEnding
  thrown : SendEnding

-- How a promise of the queue was finished.
pub data Settlement : Type 0 where
  skipped : Settlement
  canceled_with : Settlement
  answered : Option String → Settlement
  excepted : Settlement

pub data Reaction : Type 0 where
  canceled_future : Reaction
  ready : String → Reaction
  queued : Reaction

-- `FileUploadTask`s by id, with the name of the token.
abbrev pub Tasks : Type 0
Tasks = List (String × ℕ)

abbrev pub has_task : String → Tasks → Bool
has_task id ts = any_of (λ t. str_eq t.0 id) ts

unfoldable pub remove_id : String → Tasks → Tasks
remove_id id [] = []
remove_id id (t ∷ ts) = let rest = remove_id id ts in if str_eq t.0 id then rest else t ∷ rest

-- `if (upload.task) m_uploadTasks.remove(upload.task->id);`
unfoldable pub release : Option String → Tasks → Tasks
release none ts = ts
release (some id) ts = remove_id id ts

abbrev pub is_empty_queue : List Entry → Bool
is_empty_queue [] = true
is_empty_queue (e ∷ es) = false

module _ (api : FutureApi) (throws : ℕ → Bool) where
  -- The members of the repository that the queue uses, the watchers that have not fired, and logs of
  -- what was enqueued, started and settled.
  pub record Repo : Type 0 where
    pub queue : List Entry
    pub processing : Bool
    pub watched : List Entry
    pub tasks : Tasks
    pub connected : Bool
    pub deferred : ℕ
    pub tokens : ℕ → Token
    pub futures : Futures api
    pub enqueued : List ℕ
    pub started : List ℕ
    pub settled : List (ℕ × Settlement)

  abbrev pub new_repo : (ℕ → Token) → Futures api → Repo
  new_repo tokens futures = record {
    queue = [];
    processing = false;
    watched = [];
    tasks = [];
    connected = false;
    deferred = 0;
    tokens = tokens;
    futures = futures;
    enqueued = [];
    started = [];
    settled = [];
  }

  -- `promise->finish()` after what `how` says, and the release of the task.
  unfoldable pub settle : Entry → Settlement → Repo → Repo
  settle e how r = record r {
    settled = r.settled ++ ((e.promise, how) ∷ []);
    tasks = release e.task r.tasks;
  }

  unfoldable pub token_canceled : Repo → Option ℕ → Bool
  token_canceled r none = false
  token_canceled r (some t) = is_canceled (r.tokens t)

  -- The `while` loop over the queue's head; the tokens do not change in it.
  unfoldable pub skip_canceled : List Entry → Repo → Repo
  skip_canceled [] r = record r { queue = [] }
  skip_canceled (e ∷ es) r =
      let rest = skip_canceled es (settle e skipped r) in
      if token_canceled r e.cancellation then rest else record r { queue = e ∷ es }

  -- From `m_processing = true` on.
  unfoldable pub start_entry : Entry → List Entry → Repo → Repo
  start_entry e es r =
      let begun = record r {
        queue = es;
        processing = true;
        started = r.started ++ (e.promise ∷ []);
      } in
      if throws e.promise
      then record (settle e excepted begun) { processing = false; deferred = suc r.deferred }
      else record begun { watched = r.watched ++ (e ∷ []) }

  unfoldable pub start_head : List Entry → Repo → Repo
  start_head [] r = r
  start_head (e ∷ es) r = if r.connected then start_entry e es r else r

  unfoldable pub next_process : Repo → Repo
  next_process r =
      let skipped = skip_canceled r.queue r in
      if r.processing || is_empty_queue r.queue then r else start_head skipped.queue skipped

  -- `enqueue`; the new promise's future is tracked by the token.
  unfoldable pub track_with : Repo → Option ℕ → ℕ → Repo
  track_with r none p = r
  track_with r (some t) p =
      let s = track api (r.tokens t, r.futures) p in
      record r { tokens = λ k. if k == t then s.0 else r.tokens k; futures = s.1 }

  unfoldable pub enqueue : Entry → Repo → Repo
  enqueue e r =
      let tracked = track_with r e.cancellation e.promise in
      next_process (record tracked {
        queue = tracked.queue ++ (e ∷ []);
        enqueued = tracked.enqueued ++ (e.promise ∷ []);
      })

  -- The settlement that the watcher's slot makes of the future's ending.
  unfoldable pub settlement_of : SendEnding → Settlement
  settlement_of canceled = canceled_with
  settlement_of (returned o) = answered o
  settlement_of thrown = excepted

  -- The slot of a watcher, the entry that it captured and the other watchers given.
  unfoldable pub on_watched : Entry → List Entry → SendEnding → Repo → Repo
  on_watched e others ending r =
      next_process
        (record (settle e (settlement_of ending) r) { watched = others; processing = false })

  unfoldable pub first_watcher : SendEnding → List Entry → Repo → Repo
  first_watcher ending [] r = r
  first_watcher ending (e ∷ others) r = on_watched e others ending r

  -- `XmppManager::connectedChanged`.
  unfoldable pub on_connected_changed : Bool → Repo → Repo
  on_connected_changed b r = next_process (record r { connected = b })

  unfoldable pub run_deferred : Repo → Repo
  run_deferred r =
      if r.deferred == 0 then r else next_process (record r { deferred = r.deferred - 1 })

  -- Somebody cancels a token, the use case or `cancelFileUpload`.
  unfoldable pub cancel_token : ℕ → Repo → Bool × Repo
  cancel_token t r =
      let s = cancel api (r.tokens t, r.futures) in
      (s.0, record r { tokens = λ k. if k == t then s.1.0 else r.tokens k; futures = s.1.1 })

  unfoldable pub find_task : String → Tasks → Option ℕ
  find_task id [] = none
  find_task id (t ∷ ts) = let rest = find_task id ts in if str_eq t.0 id then some t.1 else rest

  unfoldable pub cancel_found : Option ℕ → Repo → Bool × Repo
  cancel_found none r = (false, r)
  cancel_found (some t) r = cancel_token t r

  unfoldable pub cancel_file_upload : String → Repo → Bool × Repo
  cancel_file_upload id r = cancel_found (find_task id r.tasks) r

  abbrev pub token_or : Option ℕ → ℕ → ℕ
  token_or none fresh = fresh
  token_or (some t) fresh = t

  -- `sendFiles` with the names of the new promise and of the token to use; `usable` is the test of
  -- the attachment's file.
  unfoldable pub send_files : String → Option ℕ → ℕ → ℕ → Bool → Repo → Reaction × Repo
  send_files id given fresh promise usable r =
      let token = token_or given fresh in
      if token_canceled r given
      then (canceled_future, r)
      else if has_task id r.tasks
      then (ready "File upload is already queued or in progress.", r)
      else if not usable
      then (ready "File is missing, empty, or unreadable.", r)
      else (
        queued,
        enqueue (record { promise = promise; cancellation = some token; task = some id })
            (record r { tasks = r.tasks ++ ((id, token) ∷ []) }),
      )

  -- The destructor: every token of a task, then the queue.
  unfoldable pub cancel_tasks : Tasks → Repo → Repo
  cancel_tasks [] r = r
  cancel_tasks (t ∷ ts) r = cancel_tasks ts (cancel_token t.1 r).1

  unfoldable pub drain : List Entry → Repo → Repo
  drain [] r = record r { queue = [] }
  drain (e ∷ es) r =
      drain es (record r { settled = r.settled ++ ((e.promise, canceled_with) ∷ []) })

  unfoldable pub destroy : Repo → Repo
  destroy r = let quiet = cancel_tasks r.tasks r in drain quiet.queue quiet

  -- What may happen to the repository, in any order.
  pub data Op : Type 0 where
    sends : ℕ → Op
    sends_file : String → Option ℕ → ℕ → ℕ → Bool → Op
    ends : SendEnding → Op
    connects : Bool → Op
    wakes : Op
    cancels : ℕ → Op
    cancels_upload : String → Op

  unfoldable pub step : Repo → Op → Repo
  step r (sends p) = enqueue (record { promise = p; cancellation = none; task = none }) r
  step r (sends_file id given fresh p usable) = (send_files id given fresh p usable r).1
  step r (ends ending) = first_watcher ending r.watched r
  step r (connects b) = on_connected_changed b r
  step r wakes = run_deferred r
  step r (cancels t) = (cancel_token t r).1
  step r (cancels_upload id) = (cancel_file_upload id r).1

  unfoldable pub run : Repo → List Op → Repo
  run r [] = r
  run r (o ∷ os) = run (step r o) os

-- ===== src/Storage/MessageCache.antt =====
-- src/core/storage/message_cache.cpp: the snapshots of conversations in encrypted files, of which a
-- few are kept open. `LocalStorage` is an interface, and so are the files and their names; an
-- operation that throws answers none. The mutex makes each operation atomic.
mod Bounded
mod History
mod Examples
use chatdesktop.Prelude.{
  ℕ, zero, suc, ◌-◌, ℤ, pos, lt, String, Bool, true, false, not, Option, none, some, List, [], ◌∷◌,
  ◌++◌, length, leb, take, str_eq, if◌then◌else◌,
}

pub record StorageApi : Type 1 where
  pub Disk : Type 0
  pub Handle : Type 0
  pub exists : Disk → String → Bool
  pub make_directory : Disk → Bool × Disk
  pub file_path : String → String → String
  pub page_root : ℤ → String
  pub open_file : String → Disk → Option Handle × Disk
  pub root : Handle → String → Option ℕ
  pub ids : Handle → List ℕ
  pub set_root : String → ℕ → Handle × Disk → Option Bool × (Handle × Disk)
  pub insert : String → Handle × Disk → Option ℕ × (Handle × Disk)
  pub update : ℕ → String → Handle × Disk → Option Bool × (Handle × Disk)
  pub get : ℕ → Handle × Disk → Option (Option String) × (Handle × Disk)
  pub remove : ℕ → Handle × Disk → Option Bool × (Handle × Disk)
  pub sync : Handle × Disk → Option Bool × (Handle × Disk)

module _ (api : StorageApi) where
  open api use {
    Disk, Handle, exists, make_directory, file_path, page_root, open_file, root, ids, set_root,
    insert, update, get, remove, sync,
  }

  abbrev pub max_open_stores : ℕ
  max_open_stores = 8

  -- `openStores`, the most recent first, and the files.
  pub record Cache : Type 0 where
    pub opened : List (String × Handle)
    pub disk : Disk

  abbrev pub find_store : String → List (String × Handle) → Option Handle
  find_store path [] = none
  find_store path (x ∷ xs) = if str_eq x.0 path then some x.1 else find_store path xs

  unfoldable pub erase : String → List (String × Handle) → List (String × Handle)
  erase path [] = []
  erase path (x ∷ xs) = let rest = erase path xs in if str_eq x.0 path then xs else x ∷ rest

  -- With the new handle in front, and the last one closed when there are too many.
  unfoldable pub push_store : String → Handle → List (String × Handle) → List (String × Handle)
  push_store path h xs =
      (path, h) ∷ (if leb max_open_stores (length xs) then take (length xs - 1) xs else xs)

  unfoldable pub opened_new :
      String → Option Handle × Disk → List (String × Handle) → Option Handle × Cache
  opened_new path (none, d) xs = (none, record { opened = xs; disk = d })
  opened_new path (some h, d) xs = (some h, record { opened = push_store path h xs; disk = d })

  unfoldable pub open_found : String → Option Handle → Cache → Option Handle × Cache
  open_found path none c = opened_new path (open_file path c.disk) c.opened
  open_found path (some h) c =
      if exists c.disk path
      then (some h, record c { opened = (path, h) ∷ erase path c.opened })
      else opened_new path (open_file path c.disk) (erase path c.opened)

  unfoldable pub open_store : String → Cache → Option Handle × Cache
  open_store path c = open_found path (find_store path c.opened) c

  -- The store in front after its operation; what it throws closes all stores.
  abbrev pub put_front : Handle → List (String × Handle) → List (String × Handle)
  put_front h [] = []
  put_front h (x ∷ xs) = (x.0, h) ∷ xs

  unfoldable pub finish : {A : Type 0} → A → Option A × (Handle × Disk) → Cache → A × Cache
  finish failed (none, (h, d)) c = (failed, record { opened = []; disk = d })
  finish failed (some a, (h, d)) c = (a, record { opened = put_front h c.opened; disk = d })

  unfoldable pub with_opened :
      {A : Type 0}
      → A
      → (Handle × Disk → Option A × (Handle × Disk))
      → Option Handle × Cache
      → A × Cache
  with_opened failed f (none, c) = (failed, record c { opened = [] })
  with_opened failed f (some h, c) = finish failed (f (h, c.disk)) c

  unfoldable pub with_store :
      {A : Type 0} → A → (Handle × Disk → Option A × (Handle × Disk)) → String → Cache → A × Cache
  with_store failed f path c = with_opened failed f (open_store path c)

  -- The next operation of a store, unless one before it threw.
  unfoldable pub and_then :
      {A B : Type 0}
      → Option A × (Handle × Disk)
      → (A → Handle × Disk → Option B × (Handle × Disk))
      → Option B × (Handle × Disk)
  and_then (none, s) f = (none, s)
  and_then (some a, s) f = f a s

  unfoldable pub synced : Handle × Disk → Option Bool × (Handle × Disk)
  synced s = and_then (sync s) (λ a t. (some true, t))

  unfoldable pub save_batch : String → Handle × Disk → Option Bool × (Handle × Disk)
  save_batch text s = and_then (insert text s) (λ id t. synced t)

  unfoldable pub save_root :
      String → String → Option ℕ → Handle × Disk → Option Bool × (Handle × Disk)
  save_root text name none s =
      and_then (insert text s) (λ id t. and_then (set_root name id t) (λ a u. synced u))
  save_root text name (some id) s =
      and_then (update id text s) (λ found t. if found then synced t else (some false, t))

  unfoldable pub in_directory : (Cache → Bool × Cache) → Cache → Bool × Cache
  in_directory f c =
      let made = make_directory c.disk in
      let there = record c { disk = made.1 } in if not made.0 then (false, there) else f there

  unfoldable pub save : String → String → String → Cache → Bool × Cache
  save text name key c = in_directory (with_store false (save_batch text) (file_path name key)) c

  unfoldable pub save_snapshot : String → String → String → String → Cache → Bool × Cache
  save_snapshot text name key r c =
      in_directory (with_store false (λ s. save_root text r (root s.0 r) s) (file_path name key)) c

  unfoldable pub save_page : String → String → String → ℤ → Cache → Bool × Cache
  save_page text name key page c =
      if lt page (pos 1) then (false, c) else save_snapshot text name key (page_root page) c

  unfoldable pub save_pending : String → String → String → Cache → Bool × Cache
  save_pending text name key c = save_snapshot text name key "pending-messages" c

  unfoldable pub read_root : Option ℕ → Handle × Disk → Option (Option String) × (Handle × Disk)
  read_root none s = (some none, s)
  read_root (some id) s = get id s

  unfoldable pub read_snapshot : String → String → String → Cache → Option String × Cache
  read_snapshot name key r c =
      if not (exists c.disk (file_path name key))
      then (none, c)
      else with_store none (λ s. read_root (root s.0 r) s) (file_path name key) c

  unfoldable pub read_page : String → String → ℤ → Cache → Option String × Cache
  read_page name key page c =
      if lt page (pos 1) then (none, c) else read_snapshot name key (page_root page) c

  unfoldable pub read_pending : String → String → Cache → Option String × Cache
  read_pending name key c = read_snapshot name key "pending-messages" c

  unfoldable pub cons_batch : String → Option (List String) → Option (List String)
  cons_batch x none = none
  cons_batch x (some xs) = some (x ∷ xs)

  -- A record that is missing ends the reading.
  unfoldable pub read_more :
      Option String
      → Handle × Disk
      → Option (Option (List String)) × (Handle × Disk)
      → Option (Option (List String)) × (Handle × Disk)
  read_more none s rest = (some none, s)
  read_more (some x) s rest = and_then rest (λ xs u. (some (cons_batch x xs), u))

  unfoldable pub read_batches :
      List ℕ → Handle × Disk → Option (Option (List String)) × (Handle × Disk)
  read_batches [] s = (some (some []), s)
  read_batches (id ∷ is) s = and_then (get id s) (λ text t. read_more text t (read_batches is t))

  unfoldable pub read : String → String → Cache → Option (List String) × Cache
  read name key c =
      if not (exists c.disk (file_path name key))
      then (some [], c)
      else with_store none (λ s. read_batches (ids s.0) s) (file_path name key) c

  unfoldable pub remove_all : List ℕ → Handle × Disk → Option Bool × (Handle × Disk)
  remove_all [] s = synced s
  remove_all (id ∷ is) s =
      and_then (remove id s) (λ found t. if not found then (some false, t) else remove_all is t)

  unfoldable pub clear : String → String → Cache → Bool × Cache
  clear name key c =
      if not (exists c.disk (file_path name key))
      then (true, c)
      else with_store false (λ s. remove_all (ids s.0) s) (file_path name key) c

  unfoldable pub close_all : Cache → Cache
  close_all c = record c { opened = [] }

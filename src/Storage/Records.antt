-- ===== src/Storage/Records.antt =====
-- The operations of src/core/storage/local_storage.cpp on records and named roots. `m_mu` makes each
-- public operation atomic. The head of `free` is the back of `m_free`.
pub mod Directory
pub mod Chains
pub mod Writing
pub mod Reading
use chatdesktop.Prelude.{
  ℕ, zero, suc, ◌+◌, ◌-◌, ◌/◌, ◌%◌, ◌^◌, max, ◌≡◌, Bool, true, false, not, ◌&&◌, ◌||◌, Option, none,
  some, List, [], ◌∷◌, ◌++◌, map, ◌==◌, if◌then◌else◌, length, take, drop, is_some,
}
use chatdesktop.Storage.Bytes.{Bytes}
use chatdesktop.Storage.Device.{
  World, Device, Blk, Result, ok, err, ◌>>=◌, Run, done, fail, and_then, Error, chain_loop,
  unexpected_type, reserved_tag, not_open, no_such_record, cap, write_block, read_block, sync_fd,
}
use chatdesktop.Storage.Maps.{
  Key, nat_key, bytes_key, lookup, insert_or_assign, erase, set_insert, set_erase,
}
use Directory.{serialize_roots}

pub record HeadInfo : Type 0 where
  pub tag : ℕ
  pub next : ℕ

pub record Pool : Type 0 where
  pub free : List ℕ
  pub nblocks : ℕ

pub record Store : Type 0 where
  pub dev : Device
  pub pool : Pool
  pub open pool use *
  pub head : List (ℕ × HeadInfo)
  pub by_tag : List (ℕ × List ℕ)
  pub roots : List (Bytes × ℕ)
  pub dir_id : ℕ
  pub dir_dirty : Bool
  pub is_open : Bool

abbrev pub dir_tag : ℕ
dir_tag = 0xffff_ffff

abbrev pub first_or_zero : List ℕ → ℕ
first_or_zero [] = 0
first_or_zero (i ∷ is) = i

-- `++` on a `uint64_t`.
unfoldable pub incremented : ℕ → ℕ
incremented n = (n + 1) % 2 ^ 64

-- `alloc`: the last free block, or one more at the end of the file.
unfoldable pub alloc : Pool → ℕ × Pool
alloc p = elim p.free [
  | [] ↦ (incremented p.nblocks, record p { nblocks = incremented p.nblocks })
  | id ∷ rest ↦ (id, record p { free = rest })
]

unfoldable pub alloc_many : ℕ → Pool → List ℕ × Pool
unfolding alloc
alloc_many zero p = ([], p)
alloc_many (suc n) p = let (id, p') = alloc p in let (ids, p'') = alloc_many n p' in (id ∷ ids, p'')

-- `m_free.push_back` for each block, in order.
unfoldable pub recycle : List ℕ → List ℕ → List ℕ
recycle [] free = free
recycle (id ∷ ids) free = recycle ids (id ∷ free)

abbrev pub tagged : ℕ → List (ℕ × List ℕ) → List ℕ
tagged tag by_tag = elim (lookup tag by_tag) [ none ↦ [] | some ids ↦ ids ]

-- `m_byTag[tag].insert(id)`, and the removal with its test for an empty set.
unfoldable pub index_add : ℕ → ℕ → List (ℕ × List ℕ) → List (ℕ × List ℕ)
index_add tag id by_tag = insert_or_assign tag (set_insert id (tagged tag by_tag)) by_tag

abbrev no_ids : List ℕ → Bool
no_ids [] = true
no_ids (i ∷ is) = false

unfoldable pub index_remove : ℕ → ℕ → List (ℕ × List ℕ) → List (ℕ × List ℕ)
index_remove tag id by_tag = elim (lookup tag by_tag) [
  | none ↦ by_tag
  | some ids ↦
      let left = set_erase id ids in
      if no_ids left then erase tag by_tag else insert_or_assign tag left by_tag
]

unfoldable pub drop_roots : ℕ → List (Bytes × ℕ) → List (Bytes × ℕ)
drop_roots id [] = []
drop_roots id ((name, target) ∷ rs) =
    if target == id then drop_roots id rs else (name, target) ∷ drop_roots id rs

abbrev pub points_to : ℕ → List (Bytes × ℕ) → Bool
points_to id [] = false
points_to id ((name, target) ∷ rs) = target == id || points_to id rs

-- `removeLocked` after the free mark is on the device: the indices, then the directory.
unfoldable pub forget : Store → ℕ → HeadInfo → List ℕ → Store
forget s id hi old = record s {
  pool = record s.pool { free = recycle (id ∷ old) s.free };
  head = erase id s.head;
  by_tag = index_remove hi.tag id s.by_tag;
  roots = drop_roots id s.roots;
  dir_dirty = s.dir_dirty || points_to id s.roots;
}

module _ (w : World) where
  unfoldable pub chunks : ℕ → ℕ
  chunks bytes = max 1 ((bytes + cap w - 1) / cap w)

  abbrev pub sync_if : Bool → Device → Run Device (Unit {0})
  sync_if flag d = if flag then sync_fd w d else done tt d

  -- The loop `for (i = n; i-- > 1;)`: the last continuation block is written first.
  unfoldable pub write_continuations : List ℕ → Bytes → Device → Run Device (Unit {0})
  write_continuations [] bytes d = done tt d
  write_continuations (i ∷ is) bytes d =
      and_then (write_continuations is (drop (cap w) bytes) d)
        λ _ d'. write_block w i 2 0 (first_or_zero is) (take (cap w) bytes) d'

  -- Continuation blocks first, the head last.
  unfoldable pub write_chain : ℕ → List ℕ → Bytes → ℕ → Device → Run Device (Unit {0})
  write_chain id is bytes tag d = and_then (write_continuations is (drop (cap w) bytes) d) λ _ d1.
      and_then (sync_if (w.durable && not (no_ids is)) d1) λ _ d2.
        and_then (write_block w id 1 tag (first_or_zero is) (take (cap w) bytes) d2)
          λ _ d3. sync_if w.durable d3

  -- The rest of the chain; the fuel is what `guard` leaves, at first `m_nblocks + 1`.
  unfoldable pub read_chain : ℕ → Device → ℕ → ℕ → Result Bytes
  read_chain zero d id current = if current == 0 then ok [] else err chain_loop
  read_chain (suc f) d id current = if current == 0 then ok [] else elim (read_block w d current) [
    | err e ↦ err e
    | ok b ↦
        if b.type == (if current == id then 1 else 2)
        then read_chain f d id b.next >>= (λ rest. ok (b.data_bytes ++ rest))
        else err unexpected_type
  ]

  unfoldable pub get_locked : Store → ℕ → Result (Option Bytes)
  get_locked s id = elim (lookup id s.head) [
    | none ↦ ok none
    | some hi ↦ read_chain (incremented s.nblocks) s.dev id id >>= (λ bytes. ok (some bytes))
  ]

  unfoldable pub old_continuations : ℕ → Device → ℕ → Result (List ℕ)
  old_continuations zero d current = if current == 0 then ok [] else err chain_loop
  old_continuations (suc f) d current =
      if current == 0 then ok [] else elim (read_block w d current) [
        | err e ↦ err e
        | ok b ↦ old_continuations f d b.next >>= (λ rest. ok (current ∷ rest))
      ]

  -- `insertLocked` after the write of its chain.
  unfoldable pub finish_insert : Store → Pool → ℕ → List ℕ → ℕ → Run Device (Unit {0}) → Run Store ℕ
  finish_insert s pool id is tag (fail e d) = fail e (record s { dev = d; pool = pool })
  finish_insert s pool id is tag (done _ d) = done id (record s {
    dev = d;
    pool = pool;
    head = insert_or_assign id (record { tag = tag; next = first_or_zero is }) s.head;
    by_tag = index_add tag id s.by_tag;
  })

  unfoldable pub insert_locked : Bytes → ℕ → Store → Run Store ℕ
  insert_locked bytes tag s =
      let (id, p1) = alloc s.pool in
      let (is, p2) = alloc_many (chunks (length bytes) - 1) p1 in
      finish_insert s p2 id is tag (write_chain id is bytes tag s.dev)

  -- `updateLocked` after the write of the new chain.
  unfoldable pub finish_update :
      Store → Pool → ℕ → HeadInfo → List ℕ → List ℕ → Run Device (Unit {0}) → Run Store (Unit {0})
  finish_update s pool id hi old is (fail e d) = fail e (record s { dev = d; pool = pool })
  finish_update s pool id hi old is (done _ d) = done tt (record s {
    dev = d;
    pool = record pool { free = recycle old pool.free };
    head = insert_or_assign id (record hi { next = first_or_zero is }) s.head;
  })

  unfoldable pub update_from : Store → ℕ → HeadInfo → Bytes → Result (List ℕ) → Run Store (Unit {0})
  update_from s id hi bytes (err e) = fail e s
  update_from s id hi bytes (ok old) =
      let (is, pool) = alloc_many (chunks (length bytes) - 1) s.pool in
      finish_update s pool id hi old is (write_chain id is bytes hi.tag s.dev)

  -- `m_head[id]` makes an empty entry where there is none.
  abbrev pub entry_or_new : Option HeadInfo → HeadInfo
  entry_or_new none = record { tag = 0; next = 0 }
  entry_or_new (some hi) = hi

  unfoldable pub update_locked : ℕ → Bytes → Store → Run Store (Unit {0})
  update_locked id bytes s =
      let hi = entry_or_new (lookup id s.head) in
      update_from (record s { head = insert_or_assign id hi s.head }) id hi bytes
        (old_continuations (suc s.nblocks) s.dev hi.next)

  unfoldable pub save_directory : Store → Run Store (Unit {0})
  save_directory s =
      let out = serialize_roots s.roots in
      if s.dir_id == 0
      then and_then (insert_locked out dir_tag s) (λ id s'. done tt (record s' { dir_id = id }))
      else update_locked s.dir_id out s

  unfoldable pub flush_directory : Store → Run Store (Unit {0})
  flush_directory s =
      if s.dir_dirty then save_directory (record s { dir_dirty = false }) else done tt s

  unfoldable pub finish_remove :
      Store → ℕ → HeadInfo → List ℕ → Run Device (Unit {0}) → Run Store (Unit {0})
  finish_remove s id hi old (fail e d) = fail e (record s { dev = d })
  finish_remove s id hi old (done _ d) = flush_directory (forget (record s { dev = d }) id hi old)

  unfoldable pub remove_from : Store → ℕ → HeadInfo → Result (List ℕ) → Run Store (Unit {0})
  remove_from s id hi (err e) = fail e s
  remove_from s id hi (ok old) =
      finish_remove s id hi old
        (and_then (write_block w id 0 0 0 [] s.dev) (λ _ d. sync_if w.durable d))

  unfoldable pub remove_locked : ℕ → Store → Run Store (Unit {0})
  remove_locked id s = elim (lookup id s.head) [
    | none ↦ done tt s
    | some hi ↦ remove_from s id hi (old_continuations (suc s.nblocks) s.dev hi.next)
  ]

  -- The public operations.
  unfoldable pub insert : Bytes → ℕ → Store → Run Store ℕ
  insert bytes tag s =
      if tag == dir_tag
      then fail reserved_tag s
      else if not s.is_open
      then fail not_open s
      else insert_locked bytes tag s

  abbrev pub is_record : Store → ℕ → Bool
  is_record s id = not (id == s.dir_id) && is_some (lookup id s.head)

  unfoldable pub get : Store → ℕ → Result (Option Bytes)
  get s id = get_locked s id

  unfoldable pub update : ℕ → Bytes → Store → Run Store Bool
  update id bytes s =
      if not (is_record s id)
      then done false s
      else and_then (update_locked id bytes s) (λ _ s'. done true s')

  unfoldable pub remove : ℕ → Store → Run Store Bool
  remove id s =
      if not (is_record s id)
      then done false s
      else and_then (remove_locked id s) (λ _ s'. done true s')

  unfoldable pub exists : Store → ℕ → Bool
  exists s id = is_record s id

  unfoldable pub ids : Store → ℕ → List ℕ
  ids s tag = if tag == dir_tag then [] else tagged tag s.by_tag

  -- `forEach`: what `fn` is called with, in order.
  visits : Store → List ℕ → Result (List (ℕ × Bytes))
  visits s [] = ok []
  visits s (id ∷ is) = elim (get s id) [
    | err e ↦ err e
    | ok none ↦ visits s is
    | ok (some bytes) ↦ visits s is >>= (λ rest. ok ((id, bytes) ∷ rest))
  ]

  unfoldable pub for_each : Store → ℕ → Result (List (ℕ × Bytes))
  unfolding visits ids
  for_each s tag = visits s (ids s tag)

  unfoldable pub set_root : Bytes → ℕ → Store → Run Store (Unit {0})
  set_root name id s =
      if not (is_record s id)
      then fail no_such_record s
      else save_directory (record s { roots = insert_or_assign name id s.roots })

  unfoldable pub root : Store → Bytes → Option ℕ
  root s name = lookup name s.roots

  unfoldable pub remove_root : Bytes → Store → Run Store Bool
  remove_root name s =
      if not (is_some (lookup name s.roots))
      then done false s
      else and_then (save_directory (record s { roots = erase name s.roots }))
          (λ _ s'. done true s')

  unfoldable pub record_count : Store → ℕ
  record_count s = length s.head - (if s.dir_id == 0 then 0 else 1)

  unfoldable pub sync : Store → Run Store (Unit {0})
  sync s = if not s.is_open then fail not_open s else elim (sync_fd w s.dev) [
    | fail e d ↦ fail e (record s { dev = d })
    | done _ d ↦ done tt (record s { dev = d })
  ]

-- ===== src/Storage/Api.antt =====
-- The public operations of src/core/storage/local_storage.cpp, by what `get` answers before and after.
-- What an identifier reads as is what `get` gives where no read fails; the operations themselves run
-- in a world where any read may.
use chatdesktop.Prelude.{
  ℕ, ◌+◌, ◌<◌, ◌^◌, ◌≡◌, refl, ◌∙◌, sym, ap, none, some, List, ◌==◌, ◌&&◌, ◌⊎◌, not, if◌then◌else◌,
  arith, length, true, false, Option-cases, Bool-cases, inl, inr, ==_iff, is_some, subst,
}
use chatdesktop.Storage.Bytes.{Bytes}
use chatdesktop.Storage.Device.{World, Run, done, ok, err, read_failed, calm, and_then}
use chatdesktop.Storage.Device.Laws.{IsSane, IsAtomic}
use chatdesktop.Storage.Maps.{nat_key}
use chatdesktop.Storage.Records.{
  Store, chunks, dir_tag, get, insert, update, remove, drop_roots, update_locked, remove_locked,
}
use chatdesktop.Storage.Records.Directory.{serialize_roots}
use chatdesktop.Storage.Contents.{
  Entry, find_entry, content, Represents, Settles, Settles-map, settled, thrown, get-Walks,
  get-content, Stored-find,
}
use chatdesktop.Storage.Contents.Insert.{insert_locked-Settles}
use chatdesktop.Storage.Contents.Update.{remove_entry, find-remove_other, update_locked-Settles}
use chatdesktop.Storage.Contents.Remove.{DirectoryReady, remove_locked-Settles}

module _ (w : World) (sane : IsSane w) (s : Store) (m : List Entry) (v : Represents w s m) where
  -- `get` on a well-formed store gives the record's bytes, or nothing where there is no record,
  -- unless the system fails to read a block: then it throws that, and never anything else.
  pub get_total :
      (j : ℕ)
      → (get w s j ≡ ok (content (find_entry j m)))
        ⊎ ((get w s j ≡ err read_failed) × ((k : ℕ) × (w.reads s.dev.clock k ≡ false)))
  unfolding get
  get_total j = get-Walks w s m v w.reads j

  same_table :
      (s' : Store) (n : List Entry) (j : ℕ)
      → Represents w s' n
      → find_entry j n ≡ find_entry j m
      → get (calm w) s' j ≡ get (calm w) s j
  unfolding get
  same_table s' n j v' e =
      get-content w s' n v' j ∙ ap (λ o. ok (content o)) e ∙ sym (get-content w s m v j)

  -- On an open well-formed store, with a tag that is not the reserved one and block numbers that
  -- stay below 2 ^ 64 - 1: after `insert` returns `id`, that identifier was unused, it reads as the
  -- inserted bytes, and every other identifier reads as before. If `insert` throws, every
  -- identifier reads as before. The store stays well formed in both cases. What is read is meant
  -- without failing reads.
  pub get-insert :
      (bytes : Bytes) (tag : ℕ)
      → s.is_open ≡ true
      → tag < dir_tag
      → s.nblocks + chunks w (length bytes) + 1 < 2 ^ 64
      → Settles
          (λ id s'.
            (get (calm w) s id ≡ ok none)
            × ((j : ℕ)
                → get (calm w) s' j ≡ (if id == j then ok (some bytes) else get (calm w) s j))
            × ((n : List Entry) × Represents w s' n))
          (λ s'. ((j : ℕ) → get (calm w) s' j ≡ get (calm w) s j) × Represents w s' m)
          (insert w bytes tag s)
  unfolding insert get
  get-insert bytes tag opened ht hr =
      let e : (tag == dir_tag) ≡ false = ground arith in
      simp (e, opened)
        (Settles-map (insert_locked-Settles w sane s m tag bytes v (omega arith) hr)
          (λ id s' (fresh, is, rep). (
            get-content w s m v id ∙ ap (λ o. ok (content o)) fresh,
            λ j. ground (arith, get-content w s m v j, get-content w s' _ rep j),
            (_, rep),
          ))
          (λ s' rep. (λ j. same_table s' m j rep refl, rep)))

  unchanged : (j : ℕ) → get (calm w) s j ≡ get (calm w) s j
  unchanged j = refl

  -- A record in the table, met by the identifier that the caller has.
  renamed_update :
      (id : ℕ) (bytes : Bytes) (r : Entry)
      → find_entry id m ≡ some r
      → s.nblocks + chunks w (length bytes) + 1 < 2 ^ 64
      → Settles
          (λ _ s'.
            ((j : ℕ) → get (calm w) s' j ≡ (if id == j then ok (some bytes) else get (calm w) s j))
            × ((n : List Entry) × Represents w s' n))
          (λ s'. IsAtomic w → w.durable ≡ false → ((j : ℕ) → get (calm w) s' j ≡ get (calm w) s j))
          (update_locked w id bytes s)
  unfolding get
  renamed_update id bytes r found hr =
      let same = (Stored-find w s.dev id m r v.stored found).1 in
      subst
        (λ (i : ℕ).
          Settles
            (λ _ s'.
              ((j : ℕ) → get (calm w) s' j ≡ (if i == j then ok (some bytes) else get (calm w) s j))
              × ((n : List Entry) × Represents w s' n))
            (λ s'.
              IsAtomic w → w.durable ≡ false → ((j : ℕ) → get (calm w) s' j ≡ get (calm w) s j))
            (update_locked w i bytes s))
        same
        (Settles-map
          (update_locked-Settles w sane s m r bytes v
            (subst (λ i. find_entry i m ≡ some r) (sym same) found) hr)
          (λ u s' (is, rep). (
            λ j. ground (
              arith,
              get-content w s m v j,
              get-content w s' _ rep j,
              find-remove_other r.id j m,
            ),
            (_, rep),
          ))
          (λ s' keep a off j. same_table s' m j (keep a off) refl))

  update-Settles :
      (id : ℕ) (bytes : Bytes)
      → s.nblocks + chunks w (length bytes) + 1 < 2 ^ 64
      → Settles
          (λ found s'.
            (found ≡ (not (id == s.dir_id) && is_some (find_entry id m)))
            × ((j : ℕ)
                → get (calm w) s' j
                  ≡ (if found && (id == j) then ok (some bytes) else get (calm w) s j))
            × ((n : List Entry) × Represents w s' n))
          (λ s'. IsAtomic w → w.durable ≡ false → ((j : ℕ) → get (calm w) s' j ≡ get (calm w) s j))
          (update w id bytes s)
  unfolding update
  update-Settles id bytes hr = elim (Bool-cases (id == s.dir_id)) [
    | inl dir ↦ simp dir (settled (refl, unchanged, (m, v)))
    | inr other ↦ elim (Option-cases (find_entry id m)) [
      | inl missing ↦ simp (other, v.heads id, missing) (settled (refl, unchanged, (m, v)))
      | inr (r, found) ↦
          simp (other, v.heads id, found) (after (renamed_update id bytes r found hr))
    ]
  ]
    where
      after :
          {run : Run Store (Unit {0})}
          → Settles
              (λ _ s'.
                ((j : ℕ)
                  → get (calm w) s' j ≡ (if id == j then ok (some bytes) else get (calm w) s j))
                × ((n : List Entry) × Represents w s' n))
              (λ s'.
                IsAtomic w → w.durable ≡ false → ((j : ℕ) → get (calm w) s' j ≡ get (calm w) s j))
              run
          → Settles
              (λ found s'.
                (found ≡ true)
                × ((j : ℕ)
                    → get (calm w) s' j
                      ≡ (if found && (id == j) then ok (some bytes) else get (calm w) s j))
                × ((n : List Entry) × Represents w s' n))
              (λ s'.
                IsAtomic w → w.durable ≡ false → ((j : ℕ) → get (calm w) s' j ≡ get (calm w) s j))
              (and_then run (λ _ s'. done true s'))
      after (settled (g, rep)) = settled (refl, g, rep)
      after (thrown f) = thrown f

  -- On a well-formed store whose block numbers stay below 2 ^ 64 - 1, `update` answers whether the
  -- record exists and is not the directory. If it does, it then reads as the new bytes; every
  -- other identifier reads as before, and all do after an answer of false. The store stays well
  -- formed. What is read is meant without failing reads.
  pub get-update :
      (id : ℕ) (bytes : Bytes)
      → s.nblocks + chunks w (length bytes) + 1 < 2 ^ 64
      → Settles
          (λ found s'.
            (found ≡ (not (id == s.dir_id) && is_some (find_entry id m)))
            × ((j : ℕ)
                → get (calm w) s' j
                  ≡ (if found && (id == j) then ok (some bytes) else get (calm w) s j))
            × ((n : List Entry) × Represents w s' n))
          (λ s'. Unit {0})
          (update w id bytes s)
  get-update id bytes hr = Settles-map (update-Settles id bytes hr) (λ found s' h. h) (λ s' h. tt)

  -- On a well-formed store whose block numbers stay below 2 ^ 64 - 1, when block writes are atomic and
  -- there are no final syncs, an `update` that throws leaves every identifier as it read before;
  -- one that returns true changes only its record. What is read is meant without failing reads.
  pub get-update_atomic :
      IsAtomic w
      → w.durable ≡ false
      → (id : ℕ) (bytes : Bytes) → s.nblocks + chunks w (length bytes) + 1 < 2 ^ 64
      → Settles
          (λ found s'.
            (j : ℕ)
            → get (calm w) s' j
              ≡ (if found && (id == j) then ok (some bytes) else get (calm w) s j))
          (λ s'. (j : ℕ) → get (calm w) s' j ≡ get (calm w) s j)
          (update w id bytes s)
  get-update_atomic a off id bytes hr =
      Settles-map (update-Settles id bytes hr) (λ found s' h. h.1) (λ s' h. h a off)

  -- What `removeLocked` leaves to be read: nothing at `id`, all else but the directory as before.
  abbrev pub Removed : ℕ → Store → Type 0
  Removed id s' =
      (get (calm w) s' id ≡ ok none)
      × ((j : ℕ)
          → (j == id) ≡ false
          → (j == s.dir_id) ≡ false
          → get (calm w) s' j ≡ get (calm w) s j)
      × ((n : List Entry) × Represents w s' n)

  -- What a failed `removeLocked` leaves: every record that is neither `id` nor the directory.
  abbrev RemovalFailed : ℕ → Store → Type 0
  RemovalFailed id s' =
      IsAtomic w
      → w.durable ≡ false
      → (j : ℕ) → (j == id) ≡ false
      → get (calm w) s' j ≡ get (calm w) s j

  renamed_remove :
      (id : ℕ) (r : Entry)
      → find_entry id m ≡ some r
      → DirectoryReady s m id
      → (id == s.dir_id) ≡ false
      → s.nblocks + chunks w (length (serialize_roots (drop_roots id s.roots))) + 1 < 2 ^ 64
      → Settles (λ _ s'. Removed id s') (RemovalFailed id) (remove_locked w id s)
  unfolding get
  renamed_remove id r found ready ne hr =
      let same = (Stored-find w s.dev id m r v.stored found).1 in
      subst
        (λ (i : ℕ).
          find_entry i m ≡ some r
          → DirectoryReady s m i
          → (i == s.dir_id) ≡ false
          → s.nblocks + chunks w (length (serialize_roots (drop_roots i s.roots))) + 1 < 2 ^ 64
          → Settles (λ _ s'. Removed i s') (RemovalFailed i) (remove_locked w i s))
        same
        (λ found ready ne hr.
          Settles-map (remove_locked-Settles w sane s m v r found ready ne hr)
            (λ u s' (n, rep, lacks). (
              get-content w s' n rep r.id ∙ ap (λ o. ok (content o)) lacks.gone,
              λ j a b. same_table s' n j rep (lacks.kept j a b),
              (n, rep),
            ))
            (λ s' keeps a off j h. failed r s' j h (keeps a off)))
        found ready ne hr
    where
      failed :
          (r : Entry) (s' : Store) (j : ℕ)
          → (j == r.id) ≡ false
          → Represents w s' m ⊎ Represents w s' (remove_entry r.id m)
          → get (calm w) s' j ≡ get (calm w) s j
      failed r s' j h (inl rep) = same_table s' m j rep refl
      failed r s' j h (inr rep) =
          same_table s' (remove_entry r.id m) j rep
            (find-remove_other r.id j m (ground (arith, ==_iff r.id j)))

  remove-Settles :
      (id : ℕ)
      → DirectoryReady s m id
      → s.nblocks + chunks w (length (serialize_roots (drop_roots id s.roots))) + 1 < 2 ^ 64
      → Settles
          (λ found s'.
            (found ≡ (not (id == s.dir_id) && is_some (find_entry id m)))
            × (found ≡ true → Removed id s')
            × (found ≡ false → s' ≡ s))
          (RemovalFailed id)
          (remove w id s)
  unfolding remove
  remove-Settles id ready hr = elim (Bool-cases (id == s.dir_id)) [
    | inl dir ↦ simp dir (settled (refl, λ e. absurd (cc), λ e. refl))
    | inr other ↦ elim (Option-cases (find_entry id m)) [
      | inl missing ↦
          simp (other, v.heads id, missing) (settled (refl, λ e. absurd (cc), λ e. refl))
      | inr (r, found) ↦
          simp (other, v.heads id, found) (after (renamed_remove id r found ready other hr))
    ]
  ]
    where
      after :
          {run : Run Store (Unit {0})}
          → Settles (λ _ s'. Removed id s') (RemovalFailed id) run
          → Settles
              (λ found s'.
                (found ≡ true) × (found ≡ true → Removed id s') × (found ≡ false → s' ≡ s))
              (RemovalFailed id)
              (and_then run (λ _ s'. done true s'))
      after (settled g) = settled (refl, λ e. g, λ e. absurd (cc))
      after (thrown f) = thrown f

  -- On a well-formed store whose block numbers stay below 2 ^ 64 - 1, `remove` answers whether the
  -- record exists and is not the directory; if not, nothing changes. If it does, it then reads as
  -- absent, every other record but the directory as before, and the store stays well formed. A
  -- root that names the record needs a directory to be rewritten. What is read is meant without
  -- failing reads.
  pub get-remove :
      (id : ℕ)
      → DirectoryReady s m id
      → s.nblocks + chunks w (length (serialize_roots (drop_roots id s.roots))) + 1 < 2 ^ 64
      → Settles
          (λ found s'.
            (found ≡ (not (id == s.dir_id) && is_some (find_entry id m)))
            × (found ≡ true → Removed id s')
            × (found ≡ false → s' ≡ s))
          (λ s'. Unit {0})
          (remove w id s)
  get-remove id ready hr = Settles-map (remove-Settles id ready hr) (λ found s' h. h) (λ s' h. tt)

  -- On a well-formed store whose block numbers stay below 2 ^ 64 - 1, with a directory to rewrite if a
  -- root names the record, when block writes are atomic and there are no final syncs, a `remove`
  -- that throws leaves every record but the one to be removed as it read before. What is read is
  -- meant without failing reads.
  pub get-remove_atomic :
      IsAtomic w
      → w.durable ≡ false
      → (id : ℕ) → DirectoryReady s m id
      → s.nblocks + chunks w (length (serialize_roots (drop_roots id s.roots))) + 1 < 2 ^ 64
      → Settles
          (λ found s'. found ≡ (not (id == s.dir_id) && is_some (find_entry id m)))
          (λ s'. (j : ℕ) → (j == id) ≡ false → get (calm w) s' j ≡ get (calm w) s j)
          (remove w id s)
  get-remove_atomic a off id ready hr =
      Settles-map (remove-Settles id ready hr) (λ found s' h. h.0) (λ s' h. h a off)

-- ===== src/Storage/Contents/Remove.antt =====
-- `removeLocked` of src/core/storage/local_storage.cpp takes one record out of the table, and then
-- writes the directory if a root named the record.
use chatdesktop.Prelude.{
  ℕ, suc, ◌+◌, ◌≤◌, ◌<◌, ◌^◌, ◌≡◌, refl, ◌∙◌, none, some, List, [], ◌∷◌, ◌==◌, ◌||◌, ◌⊎◌, arith,
  length, false, Bool-cases, inl, inr, ==_iff,
}
use chatdesktop.Storage.Device.{World, Device, Run, and_then, write_block}
use chatdesktop.Storage.Device.Laws.{IsSane, IsAtomic, blk, Wrote, stored, lost, write_block-Wrote}
use chatdesktop.Storage.Maps.{lookup, lookup-erase, nat_key}
use chatdesktop.Storage.Records.{
  Store, HeadInfo, first_or_zero, chunks, sync_if, save_directory, forget, flush_directory,
  finish_remove, remove_from, remove_locked, drop_roots, points_to,
}
use chatdesktop.Storage.Records.Directory.{serialize_roots}
use chatdesktop.Storage.Records.Chains.{count, count-recycle, Ends, returns, throws, bind}
use chatdesktop.Storage.Records.Reading.{old_continuations-Continues}
use chatdesktop.Storage.Records.Writing.{sync_if-Ends}
use chatdesktop.Storage.Contents.{
  Entry, find_entry, uses, Represents, Settles, Settles-map, settled, thrown, Stored-frame,
  Stored-find, conts-find,
}
use chatdesktop.Storage.Contents.Insert.{slot-le}
use chatdesktop.Storage.Contents.Update.{
  remove_entry, find-remove_self, find-remove_other, uses-remove, Stored-remove,
  update_locked-Settles,
}

-- The directory record, if a root that will be dropped makes the code write it.
abbrev pub DirectoryReady : Store → List Entry → ℕ → Type 0
DirectoryReady s m id =
    ((s.dir_dirty || points_to id s.roots) ≡ false)
    ⊎ ((q : Entry) × (s.dir_id ≡ q.id) × (find_entry q.id m ≡ some q))

-- The table `n` is `m` without record `id`, up to the directory record `dir`.
pub record Lacks (id dir : ℕ) (m n : List Entry) : Type 0 where
  pub gone : find_entry id n ≡ none
  pub kept : (j : ℕ) → (j == id) ≡ false → (j == dir) ≡ false → find_entry j n ≡ find_entry j m

-- `Represents` does not read the roots, the tag index and the flags.
same_contents :
    (w : World) (t : Store) (n : List Entry)
    → Represents w t n
    → Represents w (record t { dir_dirty = false }) n
same_contents w t n v = record {
  stored = v.stored;
  heads = v.heads;
  owned = v.owned;
  room = v.room;
}

-- Writing the directory over its old record.
pub save_directory-update :
    (w : World) (sane : IsSane w) (t : Store) (n : List Entry) (q : Entry)
    → Represents w t n
    → t.dir_id ≡ q.id
    → find_entry q.id n ≡ some q
    → t.nblocks + chunks w (length (serialize_roots t.roots)) + 1 < 2 ^ 64
    → Settles
        (λ _ s'.
          (is : List ℕ) × Represents w s'
            (record q { conts = is; bytes = serialize_roots t.roots } ∷ remove_entry q.id n))
        (λ s'. IsAtomic w → w.durable ≡ false → Represents w s' n)
        (save_directory w t)
unfolding save_directory
save_directory-update w sane t n q v dir found hr =
    let ((h, ht), _, _) = Stored-find w t.dev q.id n q v.stored found in
    let ne = h.0 in
    let e : (q.id == 0) ≡ false = ground arith in
    simp (dir, e) (update_locked-Settles w sane t n q (serialize_roots t.roots) v found hr)

module _ (w : World) (sane : IsSane w) where
  module _ (s : Store) (m : List Entry) (v : Represents w s m) (r : Entry)
      (found : find_entry r.id m ≡ some r) where
    abbrev rest : List Entry
    rest = remove_entry r.id m

    rest-uses : (i : ℕ) → uses i rest + count i (r.id ∷ r.conts) ≡ uses i m
    rest-uses i = uses-remove r.id i m r found

    rest_untouched : (j : ℕ) → 1 ≤ uses j rest → (j == r.id) ≡ false
    rest_untouched j h = elim (Bool-cases (j == r.id)) [
      | inr e ↦ e
      | inl e ↦
          let same : j ≡ r.id = (==_iff j r.id).0 e in
          absurd (ground (arith, rest-uses j, v.owned j, slot-le s.nblocks j, same))
    ]

    -- After the free mark and the removal from the indices.
    forget-Represents :
        (d : Device)
        → ((j : ℕ) → (j == r.id) ≡ false → d.blocks j ≡ s.dev.blocks j)
        → Represents w
            (forget
              (record s { dev = d })
              r.id
              (record { tag = r.tag; next = first_or_zero r.conts })
              r.conts)
            rest
    unfolding forget
    forget-Represents d keep = record {
      stored =
          Stored-frame w s.dev d rest (λ j u. keep j (rest_untouched j u))
            (Stored-remove w s.dev r.id m v.stored);
      heads = λ j. ground (
        arith,
        lookup-erase r.id j s.head,
        v.heads j,
        ==_iff r.id j,
        find-remove_self r.id m,
        find-remove_other r.id j m,
        v.owned r.id,
        slot-le s.nblocks r.id,
      );
      owned = λ i. omega (arith, rest-uses i, v.owned i, count-recycle (r.id ∷ r.conts) s.free i);
      room = v.room;
    }

    rest-Lacks : Lacks r.id s.dir_id m rest
    rest-Lacks = record {
      gone = find-remove_self r.id m (omega (arith, v.owned r.id, slot-le s.nblocks r.id));
      kept = λ j a b. find-remove_other r.id j m (ground (arith, ==_iff r.id j));
    }

    -- A directory write after the removal.
    flush-Settles :
        (t : Store)
        → Represents w t rest
        → (t.dir_dirty ≡ false)
          ⊎ ((q : Entry) × (t.dir_id ≡ q.id) × (s.dir_id ≡ q.id) × (find_entry q.id rest ≡ some q))
        → t.nblocks + chunks w (length (serialize_roots t.roots)) + 1 < 2 ^ 64
        → Settles
            (λ _ s'. (n : List Entry) × Represents w s' n × Lacks r.id s.dir_id m n)
            (λ s'. IsAtomic w → w.durable ≡ false → Represents w s' rest)
            (flush_directory w t)
    unfolding flush_directory
    flush-Settles t rep (inl clean) hr = simp clean (settled (rest, rep, rest-Lacks))
    flush-Settles t rep (inr (q, dir, dir', there)) hr = elim (Bool-cases t.dir_dirty) [
      | inl dirty ↦ simp dirty (
          Settles-map
            (save_directory-update w sane (record t { dir_dirty = false }) rest q
              (same_contents w t rest rep) dir there hr)
            (λ a s' (is, now). (
              record q { conts = is; bytes = serialize_roots t.roots } ∷ remove_entry q.id rest,
              now,
              record {
                gone =
                    ground
                      (arith, rest-Lacks.gone, find-remove_other q.id r.id rest, ==_iff q.id r.id);
                kept = λ j a b. ground (
                  arith,
                  rest-Lacks.kept j,
                  find-remove_other q.id j rest,
                  ==_iff q.id j,
                  ==_iff j s.dir_id,
                );
              },
            ))
            (λ s' keep. keep))
      | inr clean ↦ simp clean (settled (rest, rep, rest-Lacks))
    ]

    mark_free-Ends :
        Ends
          (λ d. (j : ℕ) → (j == r.id) ≡ false → d.blocks j ≡ s.dev.blocks j)
          (λ d. IsAtomic w → w.durable ≡ false → (j : ℕ) → d.blocks j ≡ s.dev.blocks j)
          (and_then (write_block w r.id 0 0 0 [] s.dev) (λ _ d. sync_if w w.durable d))
    mark_free-Ends =
        bind _
          (marked (
            write_block-Wrote w sane r.id 0 0 0 [] (omega arith) (omega arith) (omega arith)
              (omega arith) s.dev))
          λ d keep.
            sync_if-Ends w sane w.durable d (λ d' same j h. same j ∙ keep j h)
              (λ d' on same a off. cc)
      where
        marked :
            {run : Run Device (Unit {0})}
            → Wrote w r.id (blk 0 0 0 []) s.dev run
            → Ends
                (λ d. (j : ℕ) → (j == r.id) ≡ false → d.blocks j ≡ s.dev.blocks j)
                (λ d. IsAtomic w → w.durable ≡ false → (j : ℕ) → d.blocks j ≡ s.dev.blocks j)
                run
        marked (stored rd keep) = returns keep
        marked (lost keep atomic) = throws (λ a off j. atomic a j)

    abbrev after_mark : Device → Store
    after_mark d =
        forget (record s { dev = d }) r.id (record { tag = r.tag; next = first_or_zero r.conts })
          r.conts

    -- The directory record survives the removal of another.
    ready_rest :
        (d : Device)
        → DirectoryReady s m r.id
        → (r.id == s.dir_id) ≡ false
        → ((after_mark d).dir_dirty ≡ false)
          ⊎ ((q : Entry) × ((after_mark d).dir_id ≡ q.id)
              × (s.dir_id ≡ q.id)
              × (find_entry q.id rest ≡ some q))
    unfolding forget
    ready_rest d (inl clean) ne = inl clean
    ready_rest d (inr (q, dir, there)) ne =
        inr (q, dir, dir, find-remove_other r.id q.id m (ground arith) ∙ there)

    roots_after : (d : Device) → (after_mark d).roots ≡ drop_roots r.id s.roots
    unfolding forget
    roots_after d = refl

    nblocks_after : (d : Device) → (after_mark d).nblocks ≡ s.nblocks
    unfolding forget
    nblocks_after d = refl

    finish_remove-Settles :
        {run : Run Device (Unit {0})}
        → DirectoryReady s m r.id
        → (r.id == s.dir_id) ≡ false
        → s.nblocks + chunks w (length (serialize_roots (drop_roots r.id s.roots))) + 1 < 2 ^ 64
        → Ends
            (λ d. (j : ℕ) → (j == r.id) ≡ false → d.blocks j ≡ s.dev.blocks j)
            (λ d. IsAtomic w → w.durable ≡ false → (j : ℕ) → d.blocks j ≡ s.dev.blocks j)
            run
        → Settles
            (λ _ s'. (n : List Entry) × Represents w s' n × Lacks r.id s.dir_id m n)
            (λ s'. IsAtomic w → w.durable ≡ false → Represents w s' m ⊎ Represents w s' rest)
            (finish_remove w s r.id
              (record { tag = r.tag; next = first_or_zero r.conts })
              r.conts
              run)
    unfolding finish_remove
    finish_remove-Settles ready ne hr (returns {d} keep) =
        Settles-map
          (flush-Settles (after_mark d) (forget-Represents d keep) (ready_rest d ready ne)
            (rw (roots_after d, nblocks_after d) hr))
          (λ a s' h. h) (λ s' keeps a off. inr (keeps a off))
    finish_remove-Settles ready ne hr (throws {d} same) = thrown (λ a off. inl (record {
      stored = Stored-frame w s.dev d m (λ j u. same a off j) v.stored;
      heads = v.heads;
      owned = v.owned;
      room = v.room;
    }))

    -- `removeLocked` of a record in the table: if it returns, the record is gone and every other
    -- record but the directory is as before; if it throws, writes are atomic and there are no final
    -- syncs, the table is unchanged or lacks just that record.
    pub remove_locked-Settles :
        DirectoryReady s m r.id
        → (r.id == s.dir_id) ≡ false
        → s.nblocks + chunks w (length (serialize_roots (drop_roots r.id s.roots))) + 1 < 2 ^ 64
        → Settles
            (λ _ s'. (n : List Entry) × Represents w s' n × Lacks r.id s.dir_id m n)
            (λ s'. IsAtomic w → w.durable ≡ false → Represents w s' m ⊎ Represents w s' rest)
            (remove_locked w r.id s)
    unfolding remove_locked remove_from
    remove_locked-Settles ready ne hr =
        let ((h, ht), _, _) = Stored-find w s.dev r.id m r v.stored found in
        let (apart, len) = conts-find w s m v r.id r found in
        let hi : HeadInfo = record { tag = r.tag; next = first_or_zero r.conts } in
        let head : lookup r.id s.head ≡ some hi = rw (v.heads r.id, found) in
        elim (old_continuations-Continues w r.conts (suc s.nblocks) s.dev _ h.2 (omega arith)) [
          | inl walk ↦
              rw (head, remove_locked) (rw walk (finish_remove-Settles ready ne hr mark_free-Ends))
          | inr (stops, _) ↦ rw (head, remove_locked) (rw stops (thrown (λ a off. inl v)))
        ]

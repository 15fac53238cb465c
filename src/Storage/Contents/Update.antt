-- ===== src/Storage/Contents/Update.antt =====
-- `updateLocked` of src/core/storage/local_storage.cpp replaces the content of one record.
use chatdesktop.Prelude.{
  ℕ, suc, ◌+◌, ◌-◌, ◌*◌, ◌≤◌, ◌<◌, ◌^◌, ◌≡◌, refl, none, some, List, [], ◌∷◌, ◌==◌, if◌then◌else◌,
  All, arith, length, false, Bool-cases, inl, inr, ==_iff,
}
use chatdesktop.Storage.Bytes.{Bytes}
use chatdesktop.Storage.Device.{World, Device, Run, ok, cap}
use chatdesktop.Storage.Device.Laws.{IsSane, IsAtomic}
use chatdesktop.Storage.Maps.{lookup, insert_or_assign, lookup-insert, nat_key}
use chatdesktop.Storage.Records.{
  Pool, Store, HeadInfo, first_or_zero, alloc_many, chunks, finish_update, update_from,
  update_locked,
}
use chatdesktop.Storage.Records.Chains.{
  count, slot, alloc_many-nblocks, alloc_many_exact, length-alloc_many, count-recycle, Ends,
  returns, throws,
}
use chatdesktop.Storage.Records.Reading.{old_continuations-Continues}
use chatdesktop.Storage.Records.Writing.{Chained, Aborted, write_chain-Ends}
use chatdesktop.Storage.Contents.{
  Entry, find_entry, uses, Stored, Represents, Settles, Settles-map, settled, thrown, Stored-frame,
  Stored-find, conts-find,
}
use chatdesktop.Storage.Contents.Insert.{blocks-IsBlock, slot-le, chunks_fit, chunks_positive}

-- The table without the record.
abbrev pub remove_entry : ℕ → List Entry → List Entry
remove_entry id [] = []
remove_entry id (r ∷ m) = if r.id == id then m else r ∷ remove_entry id m

find-none : (id : ℕ) (m : List Entry) → uses id m ≡ 0 → find_entry id m ≡ none
find-none id [] h = refl
find-none id (r ∷ m) h = ground (arith, find-none id m)

pub find-remove_self :
    (id : ℕ) (m : List Entry) → uses id m ≤ 1 → find_entry id (remove_entry id m) ≡ none
find-remove_self id [] h = refl
find-remove_self id (r ∷ m) h = ground (arith, find-remove_self id m, find-none id m)

pub find-remove_other :
    (id j : ℕ) (m : List Entry)
    → (id == j) ≡ false
    → find_entry j (remove_entry id m) ≡ find_entry j m
find-remove_other id j [] h = refl
find-remove_other id j (r ∷ m) h =
    ground (arith, find-remove_other id j m, ==_iff r.id id, ==_iff r.id j)

pub uses-remove :
    (id i : ℕ) (m : List Entry) (r : Entry)
    → find_entry id m ≡ some r
    → uses i (remove_entry id m) + count i (r.id ∷ r.conts) ≡ uses i m
uses-remove id i [] r e = absurd (cc)
uses-remove id i (x ∷ m) r e = elim (Bool-cases (x.id == id)) [
  | inl hit ↦ let same : x ≡ r = cc (rw hit at e) in rw hit (rw same (omega arith))
  | inr miss ↦ rw miss (omega (arith, uses-remove id i m r (rw miss at e)))
]

pub Stored-remove :
    (w : World) (d : Device) (id : ℕ) (m : List Entry)
    → All (Stored w d) m
    → All (Stored w d) (remove_entry id m)
Stored-remove w d id [] h = tt
Stored-remove w d id (r ∷ m) h = elim (Bool-cases (r.id == id)) [
  | inl hit ↦ rw hit h.1
  | inr miss ↦ rw miss (h.0, Stored-remove w d id m h.1)
]

module _ (w : World) (sane : IsSane w) where
  module _ (s : Store) (m : List Entry) (v : Represents w s m) (p : Pool) (r : Entry) (is : List ℕ)
      (bytes : Bytes) (found : find_entry r.id m ≡ some r)
      (exact : (i : ℕ)
        → count i is + count i p.free + slot s.nblocks i ≡ count i s.free + slot p.nblocks i)
      (room : p.nblocks + 1 < 2 ^ 64) where
    abbrev left : List Entry
    left = remove_entry r.id m

    left-uses : (i : ℕ) → uses i left + count i (r.id ∷ r.conts) ≡ uses i m
    left-uses i = uses-remove r.id i m r found

    chain_small : (i : ℕ) → count i (r.id ∷ is) ≤ slot p.nblocks i
    chain_small i = omega (arith, exact i, v.owned i, left-uses i)

    left_untouched : (j : ℕ) → 1 ≤ uses j left → count j (r.id ∷ is) ≡ 0
    left_untouched j h = omega (arith, exact j, v.owned j, left-uses j, slot-le p.nblocks j)

    all_untouched : (j : ℕ) → 1 ≤ uses j m → count j is ≡ 0
    all_untouched j h = omega (arith, exact j, v.owned j, slot-le p.nblocks j)

    pub renewed : Entry
    renewed = record r { conts = is; bytes = bytes }

    finish_update-Settles :
        {run : Run Device (Unit {0})}
        → r.tag < 2 ^ 32
        → Ends (Chained w sane r.id r.tag is bytes s.dev) (Aborted w sane r.id is s.dev) run
        → Settles
            (λ _ s'. Represents w s' (record r { conts = is; bytes = bytes } ∷ left))
            (λ s'. IsAtomic w → w.durable ≡ false → Represents w s' m)
            (finish_update w s p r.id
              (record { tag = r.tag; next = first_or_zero r.conts })
              r.conts
              is
              run)
    unfolding finish_update
    finish_update-Settles ht (returns {d} (h, spares)) = settled (record {
      stored = (
        (h, ht),
        Stored-frame w s.dev d left (λ j u. spares j (left_untouched j u))
            (Stored-remove w s.dev r.id m v.stored),
      );
      heads = λ j. ground (
        arith,
        lookup-insert r.id j (record { tag = r.tag; next = first_or_zero is }) s.head,
        v.heads j,
        find-remove_other r.id j m,
      );
      owned = λ i. omega (arith, exact i, v.owned i, left-uses i, count-recycle r.conts p.free i);
      room = room;
    })
    finish_update-Settles ht (throws {d} (_, spares)) = thrown (λ a off. record {
      stored = Stored-frame w s.dev d m (λ j u. spares a off j (all_untouched j u)) v.stored;
      heads = v.heads;
      owned = λ i. omega (arith, exact i, v.owned i);
      room = room;
    })

  -- The empty entry that `m_head[id]` may make is none where the record is there.
  touched :
      (s : Store) (m : List Entry) (id : ℕ) (hi : HeadInfo)
      → Represents w s m
      → lookup id s.head ≡ some hi
      → Represents w (record s { head = insert_or_assign id hi s.head }) m
  touched s m id hi v e = record {
    stored = v.stored;
    heads = λ j. ground (arith, lookup-insert id j hi s.head, v.heads j, ==_iff id j);
    owned = v.owned;
    room = v.room;
  }

  update_from-Settles :
      (s : Store) (m : List Entry) (r : Entry) (bytes : Bytes)
      → Represents w s m
      → find_entry r.id m ≡ some r
      → r.tag < 2 ^ 32
      → s.nblocks + chunks w (length bytes) + 1 < 2 ^ 64
      → Settles
          (λ _ s'.
            (is : List ℕ) × Represents w s'
              (record r { conts = is; bytes = bytes } ∷ remove_entry r.id m))
          (λ s'. IsAtomic w → w.durable ≡ false → Represents w s' m)
          (update_from w s r.id
            (record { tag = r.tag; next = first_or_zero r.conts })
            bytes
            (ok r.conts))
  unfolding update_from
  update_from-Settles s m r bytes v found ht hr =
      let k = chunks w (length bytes) - 1 in
      let p = (alloc_many k s.pool).1 in
      let is = (alloc_many k s.pool).0 in
      let positive = chunks_positive w (length bytes) in
      let below : s.nblocks + k < 2 ^ 64 = omega (arith, positive) in
      let exact : (i : ℕ)
          → count i is + count i p.free + slot s.nblocks i ≡ count i s.free + slot p.nblocks i =
        λ i. alloc_many_exact k s.pool i below in
      let room : p.nblocks + 1 < 2 ^ 64 =
        omega (arith, alloc_many-nblocks k s.pool below, positive) in
      let small = chain_small s m v p r is bytes found exact room in
      let (hid, his) = blocks-IsBlock p.nblocks (r.id ∷ is) (omega (arith, room)) small in
      let fits : length bytes ≤ suc (length is) * cap w =
        rw (length-alloc_many k s.pool) (chunks_fit w sane (length bytes)) in
      Settles-map
        (finish_update-Settles s m v p r is bytes found exact room ht (
          write_chain-Ends w sane r.id r.tag is bytes s.dev hid his
            (λ j. omega (arith, small j, slot-le p.nblocks j)) ht fits))
        (λ a s' rep. (is, rep)) (λ s' keep. keep)

  -- `updateLocked` of a record in the table: if it returns, the record has the new bytes and the
  -- rest of the table is as before; if it throws, writes are atomic and there are no final syncs,
  -- the table is unchanged.
  pub update_locked-Settles :
      (s : Store) (m : List Entry) (r : Entry) (bytes : Bytes)
      → Represents w s m
      → find_entry r.id m ≡ some r
      → s.nblocks + chunks w (length bytes) + 1 < 2 ^ 64
      → Settles
          (λ _ s'.
            (is : List ℕ) × Represents w s'
              (record r { conts = is; bytes = bytes } ∷ remove_entry r.id m))
          (λ s'. IsAtomic w → w.durable ≡ false → Represents w s' m)
          (update_locked w r.id bytes s)
  unfolding update_locked update_from
  update_locked-Settles s m r bytes v found hr =
      let ((h, ht), _, _) = Stored-find w s.dev r.id m r v.stored found in
      let (apart, len) = conts-find w s m v r.id r found in
      let hi : HeadInfo = record { tag = r.tag; next = first_or_zero r.conts } in
      let head : lookup r.id s.head ≡ some hi = rw (v.heads r.id, found) in
      let same = touched s m r.id hi v head in
      let t = record s { head = insert_or_assign r.id hi s.head } in
      elim (old_continuations-Continues w r.conts (suc s.nblocks) s.dev _ h.2 (omega arith)) [
        | inl walk ↦
            rw (head, update_locked) (rw walk (update_from-Settles t m r bytes same found ht hr))
        | inr (stops, _) ↦
            rw (head, update_locked) (rw (stops, update_from) (thrown (λ a off. same)))
      ]

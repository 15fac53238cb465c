-- ===== src/Storage/Contents/Insert.antt =====
-- `insertLocked` of src/core/storage/local_storage.cpp adds one record to the table.
use chatdesktop.Prelude.{
  ℕ, zero, suc, ◌+◌, ◌-◌, ◌*◌, ◌/◌, max, ◌≤◌, ◌<◌, ◌^◌, ◌≡◌, none, List, [], ◌∷◌, All, arith,
  length, Option-cases, inl, inr,
}
use chatdesktop.Storage.Bytes.{Bytes}
use chatdesktop.Storage.Device.{World, Device, Run, cap}
use chatdesktop.Storage.Device.Laws.{IsSane}
use chatdesktop.Storage.Maps.{lookup-insert, nat_key}
use chatdesktop.Storage.Records.{
  Pool, Store, first_or_zero, alloc, alloc_many, chunks, finish_insert, insert_locked,
}
use chatdesktop.Storage.Records.Chains.{
  count, slot, alloc-nblocks, alloc_exact, alloc_many-nblocks, alloc_many_exact, length-alloc_many,
  Ends, returns, throws,
}
use chatdesktop.Storage.Records.Writing.{IsBlock, cap_bounds, Chained, Aborted, write_chain-Ends}
use chatdesktop.Storage.Contents.{
  Entry, find_entry, uses, Represents, Settles, Settles-map, settled, thrown, Stored-frame,
  Stored-find,
}

slot-IsBlock : (n i : ℕ) → n < 2 ^ 64 → 1 ≤ slot n i → IsBlock i
slot-IsBlock n i h k = ground arith

pub blocks-IsBlock :
    (n : ℕ) (xs : List ℕ) → n < 2 ^ 64 → ((i : ℕ) → count i xs ≤ slot n i) → All IsBlock xs
blocks-IsBlock n [] h k = tt
blocks-IsBlock n (x ∷ xs) h k =
    (slot-IsBlock n x h (ground (arith, k x)), blocks-IsBlock n xs h (λ i. omega (arith, k i)))

pub slot-le : (n i : ℕ) → slot n i ≤ 1
slot-le n i = ground arith

div_up : (n c : ℕ) → 1 ≤ c → n ≤ (n + c - 1) / c * c
div_up n c h = grind arith

suc-max : (q : ℕ) → suc (max 1 q - 1) ≡ max 1 q
suc-max q = omega arith

mul-max : (n q c : ℕ) → n ≤ q * c → n ≤ max 1 q * c
mul-max n zero c h = omega arith
mul-max n (suc q) c h = let e : max 1 (suc q) ≡ suc q = omega arith in rw e h

pub chunks_positive : (w : World) (n : ℕ) → 1 ≤ chunks w n
unfolding chunks
chunks_positive w n = omega arith

module _ (w : World) (sane : IsSane w) where
  -- `chunks` blocks have room for the data.
  pub chunks_fit : (n : ℕ) → n ≤ suc (chunks w n - 1) * cap w
  unfolding chunks
  chunks_fit n = rw suc-max (mul-max n _ (cap w) (div_up n (cap w) (cap_bounds w sane).0))

  -- A table with one more record, whose blocks come from the allocation.
  module _ (s : Store) (m : List Entry) (v : Represents w s m) (p : Pool) (r : Entry)
      (exact : (i : ℕ)
        → count i (r.id ∷ r.conts) + count i p.free + slot s.nblocks i
          ≡ count i s.free + slot p.nblocks i)
      (room : p.nblocks + 1 < 2 ^ 64) where
    new_owned : (i : ℕ) → uses i (r ∷ m) + count i p.free ≤ slot p.nblocks i
    new_owned i = omega (arith, exact i, v.owned i)

    new_blocks : (i : ℕ) → count i (r.id ∷ r.conts) ≤ slot p.nblocks i
    new_blocks i = omega (arith, new_owned i)

    old_untouched : (j : ℕ) → 1 ≤ uses j m → count j (r.id ∷ r.conts) ≡ 0
    old_untouched j h = omega (arith, new_owned j, slot-le p.nblocks j)

    free_elsewhere : find_entry r.id m ≡ none
    free_elsewhere = elim (Option-cases (find_entry r.id m)) [
      | inl e ↦ e
      | inr (q, e) ↦
          let (_, id, le) = Stored-find w s.dev r.id m q v.stored e in
          absurd (ground (arith, le r.id, old_untouched r.id, id))
    ]

    -- The store after the write: with the record if it returned, as before if it threw.
    finish_insert-Settles :
        {run : Run Device (Unit {0})}
        → r.tag < 2 ^ 32
        → Ends
            (Chained w sane r.id r.tag r.conts r.bytes s.dev)
            (Aborted w sane r.id r.conts s.dev)
            run
        → Settles
            (λ a s'. (find_entry a m ≡ none) × Represents w s' (record r { id = a } ∷ m))
            (λ s'. Represents w s' m)
            (finish_insert w s p r.id r.conts r.tag run)
    unfolding finish_insert
    finish_insert-Settles ht (returns {d} (h, spares)) = settled (
      free_elsewhere,
      record {
        stored = ((h, ht), Stored-frame w s.dev d m (λ j u. spares j (old_untouched j u)) v.stored);
        heads = λ j. ground (
          arith,
          lookup-insert r.id j (record { tag = r.tag; next = first_or_zero r.conts }) s.head,
          v.heads j,
        );
        owned = new_owned;
        room = room;
      },
    )
    finish_insert-Settles ht (throws {d} (spares, _)) = thrown (record {
      stored = Stored-frame w s.dev d m (λ j u. spares j (old_untouched j u)) v.stored;
      heads = v.heads;
      owned = λ i. omega (arith, new_owned i);
      room = room;
    })

  -- `insertLocked` on a store that represents a table: if it returns, the identifier is new and the
  -- table has one more record, with the tag and the bytes; if it throws, the table is unchanged.
  pub insert_locked-Settles :
      (s : Store) (m : List Entry) (tag : ℕ) (bytes : Bytes)
      → Represents w s m
      → tag < 2 ^ 32
      → s.nblocks + chunks w (length bytes) + 1 < 2 ^ 64
      → Settles
          (λ a s'.
            (find_entry a m ≡ none)
            × (is : List ℕ) × Represents w s'
                (record { id = a; tag = tag; conts = is; bytes = bytes } ∷ m))
          (λ s'. Represents w s' m)
          (insert_locked w bytes tag s)
  unfolding insert_locked
  insert_locked-Settles s m tag bytes v ht hr =
      let k = chunks w (length bytes) - 1 in
      let p1 = (alloc s.pool).1 in
      let p2 = (alloc_many k p1).1 in
      let r : Entry = record {
        id = (alloc s.pool).0;
        tag = tag;
        conts = (alloc_many k p1).0;
        bytes = bytes;
      } in
      let positive = chunks_positive w (length bytes) in
      let first = alloc-nblocks s.pool (omega (arith, positive)) in
      let fits_more : p1.nblocks + k < 2 ^ 64 = omega (arith, positive, first) in
      let exact : (i : ℕ)
          → count i (r.id ∷ r.conts) + count i p2.free + slot s.nblocks i
            ≡ count i s.free + slot p2.nblocks i =
        λ i. omega (
          arith,
          alloc_exact s.pool i (omega (arith, positive)),
          alloc_many_exact k p1 i fits_more,
        ) in
      let room : p2.nblocks + 1 < 2 ^ 64 =
        omega (arith, first, alloc_many-nblocks k p1 fits_more, positive) in
      let small = new_blocks s m v p2 r exact room in
      let (hid, his) = blocks-IsBlock p2.nblocks (r.id ∷ r.conts) (omega (arith, room)) small in
      let fits : length bytes ≤ suc (length r.conts) * cap w =
        rw (length-alloc_many k p1) (chunks_fit (length bytes)) in
      Settles-map
        (finish_insert-Settles s m v p2 r exact room ht (
          write_chain-Ends w sane r.id tag r.conts bytes s.dev hid his
            (λ j. omega (arith, small j, slot-le p2.nblocks j)) ht fits))
        (λ a s' (fresh, rep). (fresh, r.conts, rep)) (λ s' rep. rep)

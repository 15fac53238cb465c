-- ===== src/Storage/Records/Reading.antt =====
-- The two walks of src/core/storage/local_storage.cpp along a chain: `getLocked` and `oldContinuations`.
use chatdesktop.Prelude.{
  ℕ, zero, suc, ◌+◌, ◌≤◌, ◌≡◌, refl, List, [], ◌∷◌, ◌==◌, true, false, if◌then◌else◌, length, drop,
  arith, take-append-drop, ap, Bool, Bool-cases, ◌⊎◌, inl, inr,
}
use chatdesktop.Storage.Bytes.{Bytes}
use chatdesktop.Storage.Device.{
  World, Device, Result, ok, err, read_failed, cap, read_block, stored_block, open_block,
  decode_block, with_reads,
}
use chatdesktop.Storage.Records.{first_or_zero, read_chain, old_continuations}
use chatdesktop.Storage.Maps.{nat_key}
use chatdesktop.Storage.Records.Chains.{count, slot, Continues, Holds}

-- The elements of a list other than `n`.
others : ℕ → List ℕ → List ℕ
others n [] = []
others n (x ∷ xs) = if x == n then others n xs else x ∷ others n xs

count-others : (n i : ℕ) (xs : List ℕ) → count i (others n xs) ≡ (if i == n then 0 else count i xs)
unfolding others
count-others n i [] = ground arith
count-others n i (x ∷ xs) = ground (arith, count-others n i xs)

length-others : (n : ℕ) (xs : List ℕ) → length xs ≡ count n xs + length (others n xs)
unfolding others
length-others n [] = omega arith
length-others n (x ∷ xs) = ground (arith, length-others n xs)

-- Distinct blocks of a file with `n` blocks are at most `n`.
pub length-le_of_count : (n : ℕ) (xs : List ℕ) → ((i : ℕ) → count i xs ≤ slot n i) → length xs ≤ n
length-le_of_count n [] h = omega arith
length-le_of_count zero (x ∷ xs) h = absurd (ground (arith, h x))
length-le_of_count (suc n) (x ∷ xs) h =
    let ih =
      length-le_of_count n (others (suc n) (x ∷ xs))
        (λ i. ground (arith, count-others (suc n) i (x ∷ xs), h i)) in
    ground (arith, ih, length-others (suc n) (x ∷ xs), h (suc n))

module _ (w : World) where
  -- What a block reads as does not depend on which reads fail.
  read_block-cases :
      (reads : ℕ → ℕ → Bool) (d : Device) (id : ℕ)
      → (read_block (with_reads reads w) d id ≡ stored_block w d id)
        ⊎ ((read_block (with_reads reads w) d id ≡ err read_failed) × (reads d.clock id ≡ false))
  unfolding read_block stored_block open_block decode_block
  read_block-cases reads d id = elim (Bool-cases (reads d.clock id)) [
    | inl e ↦ inl (rw (e) refl)
    | inr e ↦ inr (rw (e) refl, e)
  ]

  -- A walk that reads all it needs, or that stops at a block whose read fails.
  abbrev pub Walks : {A : Type 0} → (ℕ → ℕ → Bool) → Device → Result A → A → Type 0
  Walks reads d r a = (r ≡ ok a) ⊎ ((r ≡ err read_failed) × ((j : ℕ) × (reads d.clock j ≡ false)))

  read_continuations :
      (reads : ℕ → ℕ → Bool) (is : List ℕ) (f id : ℕ) (d : Device) (bytes : Bytes)
      → Continues w d is bytes
      → count id is ≡ 0
      → length is ≤ f
      → Walks reads d (read_chain (with_reads reads w) f d id (first_or_zero is)) bytes
  unfolding read_chain
  read_continuations reads [] zero id d bytes c n h = inl (rw c)
  read_continuations reads [] (suc f) id d bytes c n h = inl (rw c)
  read_continuations reads (i ∷ is) zero id d bytes c n h = absurd (omega arith)
  read_continuations reads (i ∷ is) (suc f) id d bytes (ne, rd, c) n h =
      let e1 : (i == 0) ≡ false = ground arith in
      let e2 : (i == id) ≡ false = ground arith in
      elim (read_block-cases reads d i) [
        | inr (bad, at) ↦ inr (rw (e1, bad) refl, (i, at))
        | inl good ↦
            elim (read_continuations reads is f id d (drop (cap w) bytes) c (omega arith)
              (omega arith)) [
                | inl ih ↦
                    inl (rw (e1, good, rd, e2) (rw ih (ap ok (take-append-drop (cap w) bytes))))
                | inr (ih, why) ↦ inr (rw (e1, good, rd, e2) (rw ih refl), why)
              ]
      ]

  -- Walking a record's chain with enough fuel gives its bytes, unless a read fails.
  pub read_chain-Holds :
      (reads : ℕ → ℕ → Bool) (f id tag : ℕ) (is : List ℕ) (d : Device) (bytes : Bytes)
      → Holds w d id tag is bytes
      → count id is ≡ 0
      → length is ≤ f
      → Walks reads d (read_chain (with_reads reads w) (suc f) d id id) bytes
  unfolding read_chain
  read_chain-Holds reads f id tag is d bytes (ne, rd, c) n h =
      let e1 : (id == 0) ≡ false = ground arith in
      let e2 : (id == id) ≡ true = ground arith in
      elim (read_block-cases reads d id) [
        | inr (bad, at) ↦ inr (rw (e1, bad) refl, (id, at))
        | inl good ↦ elim (read_continuations reads is f id d (drop (cap w) bytes) c n h) [
          | inl rest ↦
              inl (rw (e1, good, rd, e2) (rw rest (ap ok (take-append-drop (cap w) bytes))))
          | inr (rest, why) ↦ inr (rw (e1, good, rd, e2) (rw rest refl), why)
        ]
      ]

  -- The walk along the continuation blocks lists exactly them, unless a read fails.
  pub old_continuations-Continues :
      (is : List ℕ) (f : ℕ) (d : Device) (bytes : Bytes)
      → Continues w d is bytes
      → length is ≤ f
      → Walks w.reads d (old_continuations w f d (first_or_zero is)) is
  unfolding old_continuations
  old_continuations-Continues [] zero d bytes c h = inl refl
  old_continuations-Continues [] (suc f) d bytes c h = inl refl
  old_continuations-Continues (i ∷ is) zero d bytes c h = absurd (omega arith)
  old_continuations-Continues (i ∷ is) (suc f) d bytes (ne, rd, c) h =
      let e1 : (i == 0) ≡ false = ground arith in
      elim (read_block-cases w.reads d i) [
        | inr (bad, at) ↦ inr (rw (e1, bad) refl, (i, at))
        | inl good ↦
            elim (old_continuations-Continues is f d (drop (cap w) bytes) c (omega arith)) [
              | inl ih ↦ inl (rw (e1, good, rd) (rw ih refl))
              | inr (ih, why) ↦ inr (rw (e1, good, rd) (rw ih refl), why)
            ]
      ]

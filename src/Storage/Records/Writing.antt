-- ===== src/Storage/Records/Writing.antt =====
-- `writeChain` of src/core/storage/local_storage.cpp: the chain that it leaves, and what a failure spares.
use chatdesktop.Prelude.{
  ℕ, suc, ◌*◌, ◌^◌, ◌≤◌, ◌<◌, ◌≡◌, refl, ◌∙◌, List, [], ◌∷◌, ◌==◌, ◌&&◌, true, false, Bool, not,
  length, take, drop, arith, length-drop, length-take, All, Bool-cases, inl, inr, ==_iff, ap,
}
use chatdesktop.Storage.Bytes.{Bytes}
use chatdesktop.Storage.Device.{World, Device, Run, cap, sync_fd}
use chatdesktop.Storage.Device.Laws.{IsSane, IsAtomic, blk, Wrote, stored, lost, write_block-Wrote}
use chatdesktop.Storage.Records.{first_or_zero, write_continuations, write_chain, sync_if, no_ids}
use chatdesktop.Storage.Records.Chains.{
  count, Ends, returns, throws, bind, Continues, Holds, Spares, Continues-frame, Holds-frame,
}

-- Block numbers that a chain may use.
abbrev pub IsBlock : ℕ → Type 0
IsBlock i = (1 ≤ i) × (i < 2 ^ 64)

first_or_zero-lt : (is : List ℕ) → All IsBlock is → first_or_zero is < 2 ^ 64
first_or_zero-lt [] h = omega arith
first_or_zero-lt (i ∷ is) h = h.0.1

not_first : (i j : ℕ) (is : List ℕ) → count j (i ∷ is) ≡ 0 → (j == i) ≡ false
not_first i j is h = ground arith

not_rest : (i j : ℕ) (is : List ℕ) → count j (i ∷ is) ≡ 0 → count j is ≡ 0
not_rest i j is h = omega arith

apart : (i j : ℕ) (is : List ℕ) → count i is ≡ 0 → 1 ≤ count j is → (j == i) ≡ false
apart i j is h k = elim (Bool-cases (j == i)) [
  | inl e ↦ let e' : j ≡ i = (==_iff j i).0 e in absurd (omega (arith, ap (λ x. count x is) e'))
  | inr e ↦ e
]

empty_of_length : (bytes : Bytes) → length bytes ≡ 0 → bytes ≡ []
empty_of_length [] h = refl
empty_of_length (b ∷ bytes) h = absurd (omega arith)

count_self : (i : ℕ) (is : List ℕ) → count i (i ∷ is) ≡ suc (count i is)
count_self i is = ground arith

fresh_head : (i : ℕ) (is : List ℕ) → ((j : ℕ) → count j (i ∷ is) ≤ 1) → count i is ≡ 0
fresh_head i is h = omega (arith, h i, count_self i is)

module _ (w : World) (sane : IsSane w) where
  pub cap_bounds : (1 ≤ cap w) × (cap w < 2 ^ 32)
  cap_bounds = let lower = sane.block_size_lower in let upper = sane.block_size_upper in omega arith

  Spares-cons :
      (d d' e : Device) (i : ℕ) (is : List ℕ)
      → Spares w is d d'
      → ((j : ℕ) → (j == i) ≡ false → e.blocks j ≡ d'.blocks j)
      → Spares w (i ∷ is) d e
  Spares-cons d d' e i is s keep j h = keep j (not_first i j is h) ∙ s j (not_rest i j is h)

  add_head :
      (d d' : Device) (i : ℕ) (is : List ℕ) (bytes : Bytes) {r : Run Device (Unit {0})}
      → 1 ≤ i
      → count i is ≡ 0
      → Continues w d' is (drop (cap w) bytes) × Spares w is d d'
      → Wrote w i (blk 2 0 (first_or_zero is) (take (cap w) bytes)) d' r
      → Ends (λ e. Continues w e (i ∷ is) bytes × Spares w (i ∷ is) d e) (Spares w (i ∷ is) d) r
  add_head d d' i is bytes hi fresh (c, s) (stored {d' = e} rd keep) = returns (
    (
      omega arith,
      rd,
      Continues-frame w d' e is (drop (cap w) bytes) (λ j h. keep j (apart i j is fresh h)) c,
    ),
    Spares-cons d d' e i is s keep,
  )
  add_head d d' i is bytes hi fresh (c, s) (lost {d' = e} keep atomic) =
      throws (Spares-cons d d' e i is s keep)

  weaken :
      (d : Device) (i : ℕ) (is : List ℕ) (bytes : Bytes) {r : Run Device (Unit {0})}
      → Ends (λ d'. Continues w d' is bytes × Spares w is d d') (Spares w is d) r
      → Ends (λ d'. Continues w d' is bytes × Spares w is d d') (Spares w (i ∷ is) d) r
  weaken d i is bytes (returns s) = returns s
  weaken d i is bytes (throws f) = throws (λ j h. f j (not_rest i j is h))

  length-take-le : (bytes : Bytes) → length (take (cap w) bytes) ≤ cap w
  length-take-le bytes = omega (arith, length-take (cap w) bytes)

  pub write_continuations-Ends :
      (is : List ℕ) (bytes : Bytes) (d : Device)
      → All IsBlock is
      → ((i : ℕ) → count i is ≤ 1)
      → length bytes ≤ length is * cap w
      → Ends
          (λ d'. Continues w d' is bytes × Spares w is d d')
          (Spares w is d)
          (write_continuations w is bytes d)
  unfolding write_continuations
  write_continuations-Ends [] bytes d hb hc hl =
      returns (empty_of_length bytes (omega arith), λ j h. refl)
  write_continuations-Ends (i ∷ is) bytes d hb hc hl =
      let len : length (drop (cap w) bytes) ≤ length is * cap w =
        grind (arith, length-drop (cap w) bytes) in
      bind _
        (weaken d i is (drop (cap w) bytes)
          (write_continuations-Ends is (drop (cap w) bytes) d hb.1 (λ j. omega (arith, hc j)) len))
        λ d' s. add_head d d' i is bytes hb.0.0 (fresh_head i is hc) s (
          write_block-Wrote w sane i 2 0 (first_or_zero is) (take (cap w) bytes) (omega arith)
            (omega arith) (first_or_zero-lt is hb.1) (length-take-le bytes) d')

  -- What a completed `writeChain` leaves.
  abbrev pub Chained : ℕ → ℕ → List ℕ → Bytes → Device → Device → Type 0
  Chained id tag is bytes d d' = Holds w d' id tag is bytes × Spares w (id ∷ is) d d'

  -- What a failed one spares: all blocks but the new continuation blocks, if writes are atomic.
  abbrev pub Aborted : ℕ → List ℕ → Device → Device → Type 0
  Aborted id is d d' = Spares w (id ∷ is) d d' × (IsAtomic w → w.durable ≡ false → Spares w is d d')

  pub sync_if-Ends :
      {S F : Device → Type 0} (flag : Bool) (d : Device)
      → ((d' : Device) → ((j : ℕ) → d'.blocks j ≡ d.blocks j) → S d')
      → ((d' : Device) → flag ≡ true → ((j : ℕ) → d'.blocks j ≡ d.blocks j) → F d')
      → Ends S F (sync_if w flag d)
  unfolding sync_fd
  sync_if-Ends false d s f = returns (s d (λ j. refl))
  sync_if-Ends true d s f = elim (Bool-cases (w.syncs d.clock)) [
    | inl e ↦ rw e (returns (s _ (λ j. refl)))
    | inr e ↦ rw e (throws (f _ refl (λ j. refl)))
  ]

  module _ (id tag : ℕ) (is : List ℕ) (bytes : Bytes) (d : Device) where
    -- The state between the continuation blocks and the head.
    abbrev Prepared : Device → Type 0
    Prepared d' = Continues w d' is (drop (cap w) bytes) × Spares w is d d'

    Aborted-of_Spares : (d' : Device) → Spares w is d d' → Aborted id is d d'
    Aborted-of_Spares d' s = (λ j h. s j (not_rest id j is h), λ a b. s)

    prepare :
        {r : Run Device (Unit {0})}
        → Ends Prepared (Spares w is d) r
        → Ends Prepared (Aborted id is d) r
    prepare (returns s) = returns s
    prepare (throws {d = d'} f) = throws (Aborted-of_Spares d' f)

    Prepared-same :
        (d1 d2 : Device) → ((j : ℕ) → d2.blocks j ≡ d1.blocks j) → Prepared d1 → Prepared d2
    Prepared-same d1 d2 same (c, s) =
        (Continues-frame w d1 d2 is (drop (cap w) bytes) (λ j h. same j) c, λ j h. same j ∙ s j h)

    Chained-same :
        (d1 d2 : Device)
        → ((j : ℕ) → d2.blocks j ≡ d1.blocks j)
        → Chained id tag is bytes d d1
        → Chained id tag is bytes d d2
    Chained-same d1 d2 same (c, s) =
        (Holds-frame w d1 d2 id tag is bytes (λ j h. same j) c, λ j h. same j ∙ s j h)

    put_head :
        (d2 : Device) {r : Run Device (Unit {0})}
        → 1 ≤ id
        → count id is ≡ 0
        → Prepared d2
        → Wrote w id (blk 1 tag (first_or_zero is) (take (cap w) bytes)) d2 r
        → Ends (Chained id tag is bytes d) (Aborted id is d) r
    put_head d2 hi fresh (c, s) (stored {d' = e} rd keep) = returns (
      (
        omega arith,
        rd,
        Continues-frame w d2 e is (drop (cap w) bytes) (λ j h. keep j (apart id j is fresh h)) c,
      ),
      Spares-cons d d2 e id is s keep,
    )
    put_head d2 hi fresh (c, s) (lost {d' = e} keep atomic) =
        throws (Spares-cons d d2 e id is s keep, λ a b j h. atomic a j ∙ s j h)

    -- `writeChain` over distinct numbered blocks with room for the data, with a 32-bit tag and a
    -- geometry that opening accepts: if it returns, the record is on the device and no other block
    -- changed; if it throws, no block outside the chain changed, and with atomic writes and no
    -- final sync the head block did not change either.
    pub write_chain-Ends :
        IsBlock id
        → All IsBlock is
        → ((j : ℕ) → count j (id ∷ is) ≤ 1)
        → tag < 2 ^ 32
        → length bytes ≤ suc (length is) * cap w
        → Ends (Chained id tag is bytes d) (Aborted id is d) (write_chain w id is bytes tag d)
    unfolding write_chain
    write_chain-Ends hid hb hc ht hl =
        let fresh = fresh_head id is hc in
        let len : length (drop (cap w) bytes) ≤ length is * cap w =
          grind (arith, length-drop (cap w) bytes) in
        bind _
          (prepare
            (write_continuations-Ends is (drop (cap w) bytes) d hb (λ j. omega (arith, hc j)) len))
          λ d1 p1.
            bind _
              (sync_if-Ends (w.durable && not (no_ids is)) d1
                (λ d2 same. Prepared-same d1 d2 same p1)
                (λ d2 on same. Aborted-of_Spares d2 (Prepared-same d1 d2 same p1).1))
              λ d2 p2.
                bind _
                  (put_head d2 hid.0 fresh p2 (
                    write_block-Wrote w sane id 1 tag (first_or_zero is) (take (cap w) bytes)
                      (omega arith) ht (first_or_zero-lt is hb) (length-take-le bytes) d2))
                  λ d3 p3.
                    sync_if-Ends w.durable d3 (λ d4 same. Chained-same d3 d4 same p3)
                      (λ d4 on same. ((Chained-same d3 d4 same p3).1, λ a off. cc))

-- ===== src/Storage/Records/Chains.antt =====
-- Chains of blocks on the device: what `writeChain` leaves, and what the two walks read.
use chatdesktop.Prelude.{
  ℕ, zero, suc, ◌+◌, ◌≤◌, ◌<◌, ◌^◌, ◌≡◌, refl, ◌≢◌, ◌∙◌, ap, List, [], ◌∷◌, leb, ◌==◌, ◌&&◌,
  if◌then◌else◌, length, take, drop, arith,
}
use chatdesktop.Storage.Bytes.{Bytes}
use chatdesktop.Storage.Device.{
  World, Device, ok, Run, done, fail, and_then, Error, cap, stored_block,
}
use chatdesktop.Storage.Device.Laws.{blk, stored_block-same}
use chatdesktop.Storage.Records.{Pool, incremented, alloc, alloc_many, recycle, first_or_zero}

-- How often a block stands in a list, and whether `i` is a block of a file with `n` blocks.
abbrev pub count : ℕ → List ℕ → ℕ
count a [] = 0
count a (x ∷ xs) = (if x == a then 1 else 0) + count a xs

abbrev pub slot : ℕ → ℕ → ℕ
slot n i = if leb 1 i && leb i n then 1 else 0

pub incremented_small : (n : ℕ) → n + 1 < 2 ^ 64 → incremented n ≡ suc n
unfolding incremented
incremented_small n h = ground arith

pub alloc-nblocks :
    (p : Pool)
    → p.nblocks + 1 < 2 ^ 64
    → (p.nblocks ≤ (alloc p).1.nblocks) × ((alloc p).1.nblocks ≤ p.nblocks + 1)
unfolding alloc
alloc-nblocks p h = ground (arith, incremented_small p.nblocks h)

pub alloc_exact :
    (p : Pool) (i : ℕ)
    → p.nblocks + 1 < 2 ^ 64
    → (if (alloc p).0 == i then 1 else 0) + count i (alloc p).1.free + slot p.nblocks i
      ≡ count i p.free + slot (alloc p).1.nblocks i
unfolding alloc
alloc_exact p i h = go p.free refl
  where
    go :
        (free : List ℕ)
        → p.free ≡ free
        → (if (alloc p).0 == i then 1 else 0) + count i (alloc p).1.free + slot p.nblocks i
          ≡ count i p.free + slot (alloc p).1.nblocks i
    go [] e = rw (e, alloc) (rw (incremented_small p.nblocks h) (ground arith))
    go (x ∷ xs) e = rw (e, alloc) (ground arith)

-- While the block numbers stay below 2 ^ 64, allocation hands out free blocks and blocks beyond the
-- end, each once.
pub alloc_many_exact :
    (n : ℕ) (p : Pool) (i : ℕ)
    → p.nblocks + n < 2 ^ 64
    → count i (alloc_many n p).0 + count i (alloc_many n p).1.free + slot p.nblocks i
      ≡ count i p.free + slot (alloc_many n p).1.nblocks i
unfolding alloc_many
alloc_many_exact zero p i h = omega arith
alloc_many_exact (suc n) p i h =
    let grows = alloc-nblocks p (omega arith) in
    omega (
      arith,
      alloc_exact p i (omega arith),
      alloc_many_exact n (alloc p).1 i (omega (arith, grows)),
    )

-- Allocation extends the file by one block at most for each block that it hands out.
pub alloc_many-nblocks :
    (n : ℕ) (p : Pool)
    → p.nblocks + n < 2 ^ 64
    → (p.nblocks ≤ (alloc_many n p).1.nblocks) × ((alloc_many n p).1.nblocks ≤ p.nblocks + n)
unfolding alloc_many
alloc_many-nblocks zero p h = omega arith
alloc_many-nblocks (suc n) p h =
    let grows = alloc-nblocks p (omega arith) in
    omega (arith, grows, alloc_many-nblocks n (alloc p).1 (omega (arith, grows)))

pub length-alloc_many : (n : ℕ) (p : Pool) → length (alloc_many n p).0 ≡ n
unfolding alloc_many
length-alloc_many zero p = refl
length-alloc_many (suc n) p = ap suc (length-alloc_many n (alloc p).1)

pub count-recycle :
    (is free : List ℕ) (i : ℕ) → count i (recycle is free) ≡ count i is + count i free
unfolding recycle
count-recycle [] free i = omega arith
count-recycle (x ∷ is) free i = omega (arith, count-recycle is (x ∷ free) i)

-- Outcomes of a run on the device: one condition if it returns, one if it throws.
pub data Ends (S F : Device → Type 0) : Run Device (Unit {0}) → Type 0 where
  returns : {d : Device} → S d → Ends S F (done tt d)
  throws : {e : Error} {d : Device} → F d → Ends S F (fail e d)

pub bind :
    {S T F : Device → Type 0} {r : Run Device (Unit {0})}
    (k : Unit {0} → Device → Run Device (Unit {0}))
    → Ends S F r
    → ((d : Device) → S d → Ends T F (k tt d))
    → Ends T F (and_then r k)
bind k (returns s) next = next _ s
bind k (throws f) next = throws f

module _ (w : World) where
  -- The continuation blocks `is` hold `bytes` in order, each linked to the next.
  abbrev pub Continues : Device → List ℕ → Bytes → Type 0
  Continues d [] bytes = bytes ≡ []
  Continues d (i ∷ is) bytes =
      (i ≢ 0)
      × (stored_block w d i ≡ ok (blk 2 0 (first_or_zero is) (take (cap w) bytes)))
      × Continues d is (drop (cap w) bytes)

  -- Record `id` with tag `tag` holds `bytes`, in its head block and the blocks `is`.
  abbrev pub Holds : Device → ℕ → ℕ → List ℕ → Bytes → Type 0
  Holds d id tag is bytes =
      (id ≢ 0)
      × (stored_block w d id ≡ ok (blk 1 tag (first_or_zero is) (take (cap w) bytes)))
      × Continues d is (drop (cap w) bytes)

  -- Nothing outside `is` changed.
  abbrev pub Spares : List ℕ → Device → Device → Type 0
  Spares is d d' = (j : ℕ) → count j is ≡ 0 → d'.blocks j ≡ d.blocks j

  pub Continues-frame :
      (d d' : Device) (is : List ℕ) (bytes : Bytes)
      → ((j : ℕ) → 1 ≤ count j is → d'.blocks j ≡ d.blocks j)
      → Continues d is bytes
      → Continues d' is bytes
  Continues-frame d d' [] bytes same c = c
  Continues-frame d d' (i ∷ is) bytes same (n, r, c) = (
    n,
    stored_block-same w d d' i (same i (ground arith)) ∙ r,
    Continues-frame d d' is (drop (cap w) bytes) (λ j h. same j (ground arith)) c,
  )

  pub Holds-frame :
      (d d' : Device) (id tag : ℕ) (is : List ℕ) (bytes : Bytes)
      → ((j : ℕ) → 1 ≤ count j (id ∷ is) → d'.blocks j ≡ d.blocks j)
      → Holds d id tag is bytes
      → Holds d' id tag is bytes
  Holds-frame d d' id tag is bytes same (n, r, c) = (
    n,
    stored_block-same w d d' id (same id (ground arith)) ∙ r,
    Continues-frame d d' is (drop (cap w) bytes) (λ j h. same j (ground arith)) c,
  )

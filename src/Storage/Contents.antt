-- ===== src/Storage/Contents.antt =====
-- The abstract view of a store of src/core/storage/local_storage.cpp: a table of records. `Represents`
-- is the invariant that ties the device, the free list and `m_head` to it.
pub mod Insert
pub mod Update
pub mod Remove
use chatdesktop.Prelude.{
  ℕ, suc, ◌+◌, ◌≤◌, ◌<◌, ◌^◌, ◌≡◌, refl, ◌∙◌, Bool, true, ◌≢◌, Option, none, some, List, [], ◌∷◌,
  ◌==◌, if◌then◌else◌, All, arith, length, inl, inr, Option-cases, Bool-cases, ==_iff, subst,
}
use chatdesktop.Storage.Bytes.{Bytes}
use chatdesktop.Storage.Device.{World, Device, Result, ok, with_reads, calm, Run, done, fail, Error}
use chatdesktop.Storage.Maps.{lookup, nat_key}
use chatdesktop.Storage.Records.{Store, HeadInfo, first_or_zero, get_locked}
use chatdesktop.Storage.Records.Chains.{count, slot, Holds, Holds-frame, incremented_small}
use chatdesktop.Storage.Records.Reading.{length-le_of_count, Walks, read_chain-Holds}

pub record Entry : Type 0 where
  pub id : ℕ
  pub tag : ℕ
  pub conts : List ℕ
  pub bytes : Bytes

abbrev pub find_entry : ℕ → List Entry → Option Entry
find_entry j [] = none
find_entry j (r ∷ m) = if r.id == j then some r else find_entry j m

abbrev pub head_info : Option Entry → Option HeadInfo
head_info none = none
head_info (some r) = some (record { tag = r.tag; next = first_or_zero r.conts })

abbrev pub content : Option Entry → Option Bytes
content none = none
content (some r) = some r.bytes

-- How many records block `i` belongs to.
abbrev pub uses : ℕ → List Entry → ℕ
uses i [] = 0
uses i (r ∷ m) = count i (r.id ∷ r.conts) + uses i m

abbrev pub Stored : World → Device → Entry → Type 0
Stored w d r = Holds w d r.id r.tag r.conts r.bytes × (r.tag < 2 ^ 32)

-- The table's records are on the device, `m_head` lists their heads, and each block belongs to at
-- most one record or stands once in the free list.
pub record Represents (w : World) (s : Store) (m : List Entry) : Type 0 where
  pub stored : All (Stored w s.dev) m
  pub heads : (j : ℕ) → lookup j s.head ≡ head_info (find_entry j m)
  pub owned : (i : ℕ) → uses i m + count i s.free ≤ slot s.nblocks i
  pub room : s.nblocks + 1 < 2 ^ 64

-- The two ways in which an operation on a store ends.
pub data Settles {A : Type 0} (S : A → Store → Type 0) (F : Store → Type 0)
    : Run Store A → Type 0 where
  settled : {a : A} {s : Store} → S a s → Settles S F (done a s)
  thrown : {e : Error} {s : Store} → F s → Settles S F (fail e s)

pub Settles-map :
    {A : Type 0} {S T : A → Store → Type 0} {F G : Store → Type 0} {r : Run Store A}
    → Settles S F r
    → ((a : A) (s : Store) → S a s → T a s)
    → ((s : Store) → F s → G s)
    → Settles T G r
Settles-map (settled h) f g = settled (f _ _ h)
Settles-map (thrown h) f g = thrown (g _ h)

module _ (w : World) where
  pub Stored-frame :
      (d d' : Device) (m : List Entry)
      → ((j : ℕ) → 1 ≤ uses j m → d'.blocks j ≡ d.blocks j)
      → All (Stored w d) m
      → All (Stored w d') m
  Stored-frame d d' [] same h = tt
  Stored-frame d d' (r ∷ m) same ((h, t), hs) = (
    (Holds-frame w d d' r.id r.tag r.conts r.bytes (λ j u. same j (omega arith)) h, t),
    Stored-frame d d' m (λ j u. same j (omega arith)) hs,
  )

  pub Stored-find :
      (d : Device) (j : ℕ) (m : List Entry) (r : Entry)
      → All (Stored w d) m
      → find_entry j m ≡ some r
      → Stored w d r × (r.id ≡ j) × ((i : ℕ) → count i (r.id ∷ r.conts) ≤ uses i m)
  Stored-find d j [] r h e = absurd (cc)
  Stored-find d j (x ∷ m) r (h, hs) e = elim (Bool-cases (x.id == j)) [
    | inl hit ↦
        let same : x ≡ r = cc (rw hit at e) in
        subst
          (λ (q : Entry).
            Stored w d q × (q.id ≡ j) × ((i : ℕ) → count i (q.id ∷ q.conts) ≤ uses i (x ∷ m)))
          same (h, (==_iff x.id j).0 hit, λ i. omega arith)
    | inr miss ↦
        let (st, id, le) = Stored-find d j m r hs (rw miss at e) in
        (st, id, λ i. omega (arith, le i))
  ]

  module _ (s : Store) (m : List Entry) (v : Represents w s m) where
    -- The blocks of one record are distinct blocks of the file.
    pub owned-find :
        (j : ℕ) (r : Entry)
        → find_entry j m ≡ some r
        → (i : ℕ) → count i (r.id ∷ r.conts) ≤ slot s.nblocks i
    owned-find j r e i = omega (arith, (Stored-find s.dev j m r v.stored e).2 i, v.owned i)

    pub conts-find :
        (j : ℕ) (r : Entry)
        → find_entry j m ≡ some r
        → (count r.id r.conts ≡ 0) × (length r.conts ≤ s.nblocks)
    conts-find j r e =
        let own = owned-find j r e in
        (ground (arith, own r.id), length-le_of_count s.nblocks r.conts (λ i. omega (arith, own i)))

    -- Reading any identifier gives the content that the table has for it, unless a read fails.
    pub get-Walks :
        (reads : ℕ → ℕ → Bool) (j : ℕ)
        → Walks w reads s.dev (get_locked (with_reads reads w) s j) (content (find_entry j m))
    unfolding get_locked
    get-Walks reads j = elim (Option-cases (find_entry j m)) [
      | inl e ↦ inl (rw (v.heads j, get_locked) (rw e))
      | inr (r, e) ↦
          let ((h, t), id, _) = Stored-find s.dev j m r v.stored e in
          let (apart, len) = conts-find j r e in
          let fuel = incremented_small s.nblocks v.room in
          elim (read_chain-Holds w reads s.nblocks r.id r.tag r.conts s.dev r.bytes h apart len) [
            | inl walk ↦ inl (rw (v.heads j, get_locked) (rw (e, ← id, fuel) (rw walk)))
            | inr (stops, why) ↦
                inr (rw (v.heads j, get_locked) (rw (e, ← id, fuel) (rw stops)), why)
          ]
    ]

    -- Where no read fails.
    pub get-content : (j : ℕ) → get_locked (calm w) s j ≡ ok (content (find_entry j m))
    get-content j = elim (get-Walks (λ t id. true) j) [
      | inl e ↦ e
      | inr (e, (k, why)) ↦ absurd (cc)
    ]

-- ===== src/Storage/Maps.antt =====
-- `std::map` and `std::unordered_map` as association lists in key order, `std::set` of numbers as
-- an ascending list. A key that a map holds stands in it once.
use chatdesktop.Prelude.{
  ℕ, ◌≡◌, refl, ◌↔◌, Bool, true, false, ◌&&◌, Option, none, some, List, [], ◌∷◌, ltb, ◌==◌, ==_iff,
  if◌then◌else◌, arith,
}

pub record Key (K : Type 0) : Type 0 where
  pub beq : K → K → Bool
  pub beq_iff : (a b : K) → (beq a b ≡ true) ↔ (a ≡ b)
  pub blt : K → K → Bool

instance abbrev pub nat_key : Key ℕ
nat_key = record { beq = ◌==◌; beq_iff = ==_iff; blt = ltb }

module _ {K : Type 0} ⦃k : Key K⦄ {V : Type 0} where
  unfoldable pub lookup : K → List (K × V) → Option V
  lookup a [] = none
  lookup a ((b, v) ∷ m) = if k.beq b a then some v else lookup a m

  -- `m[a] = v`
  unfoldable pub insert_or_assign : K → V → List (K × V) → List (K × V)
  insert_or_assign a v [] = (a, v) ∷ []
  insert_or_assign a v ((b, w) ∷ m) =
      let rest = insert_or_assign a v m in
      if k.beq b a then (a, v) ∷ m else if k.blt a b then (a, v) ∷ (b, w) ∷ m else (b, w) ∷ rest

  unfoldable pub erase : K → List (K × V) → List (K × V)
  erase a [] = []
  erase a ((b, v) ∷ m) = if k.beq b a then erase a m else (b, v) ∷ erase a m

  pub lookup-insert :
      (a b : K) (v : V) (m : List (K × V))
      → lookup b (insert_or_assign a v m) ≡ (if k.beq a b then some v else lookup b m)
  unfolding lookup insert_or_assign
  lookup-insert a b v [] = refl
  lookup-insert a b v ((c, w) ∷ m) =
      ground (arith, k.beq_iff a b, k.beq_iff c a, k.beq_iff c b, lookup-insert a b v m)

  pub lookup-erase :
      (a b : K) (m : List (K × V)) → lookup b (erase a m) ≡ (if k.beq a b then none else lookup b m)
  unfolding lookup erase
  lookup-erase a b [] = ground arith
  lookup-erase a b ((c, w) ∷ m) =
      ground (arith, k.beq_iff a b, k.beq_iff c a, k.beq_iff c b, lookup-erase a b m)

-- `std::set<std::uint64_t>`
unfoldable pub set_insert : ℕ → List ℕ → List ℕ
set_insert a [] = a ∷ []
set_insert a (b ∷ s) = if ltb a b then a ∷ b ∷ s else if a == b then b ∷ s else b ∷ set_insert a s

unfoldable pub set_erase : ℕ → List ℕ → List ℕ
set_erase a [] = []
set_erase a (b ∷ s) = if a == b then set_erase a s else b ∷ set_erase a s

unfoldable pub has : ℕ → List ℕ → Bool
has a [] = false
has a (b ∷ s) = if a == b then true else has a s

pub has-set_insert :
    (a c : ℕ) (s : List ℕ) → has c (set_insert a s) ≡ (if c == a then true else has c s)
unfolding has set_insert
has-set_insert a c [] = refl
has-set_insert a c (b ∷ s) = ground (arith, has-set_insert a c s)

pub has-set_erase :
    (a c : ℕ) (s : List ℕ) → has c (set_erase a s) ≡ (if c == a then false else has c s)
unfolding has set_erase
has-set_erase a c [] = ground arith
has-set_erase a c (b ∷ s) = ground (arith, has-set_erase a c s)

-- Ascending, so without repetition.
abbrev pub IsAscending : List ℕ → Type 0
IsAscending [] = Unit {0}
IsAscending (a ∷ []) = Unit {0}
IsAscending (a ∷ b ∷ s) = (ltb a b ≡ true) × IsAscending (b ∷ s)

set_insert_under :
    (b a : ℕ) (s : List ℕ) → ltb b a ≡ true → IsAscending (b ∷ s) → IsAscending (b ∷ set_insert a s)
unfolding set_insert
set_insert_under b a [] h v = (h, tt)
set_insert_under b a (c ∷ s) h v = ground (arith, set_insert_under c a s)

pub set_insert-IsAscending : (a : ℕ) (s : List ℕ) → IsAscending s → IsAscending (set_insert a s)
unfolding set_insert
set_insert-IsAscending a [] v = tt
set_insert-IsAscending a (b ∷ s) v = ground (arith, set_insert_under b a s)

-- `std::string` keys: equality and the order of `std::map`.
abbrev pub bytes_eq : List ℕ → List ℕ → Bool
bytes_eq [] [] = true
bytes_eq [] (b ∷ ys) = false
bytes_eq (a ∷ xs) [] = false
bytes_eq (a ∷ xs) (b ∷ ys) = a == b && bytes_eq xs ys

abbrev pub bytes_lt : List ℕ → List ℕ → Bool
bytes_lt xs [] = false
bytes_lt [] (b ∷ ys) = true
bytes_lt (a ∷ xs) (b ∷ ys) = if a == b then bytes_lt xs ys else ltb a b

pub bytes_eq_iff : (xs ys : List ℕ) → (bytes_eq xs ys ≡ true) ↔ (xs ≡ ys)
bytes_eq_iff [] [] = (λ e. refl, λ e. refl)
bytes_eq_iff [] (b ∷ ys) = (λ e. cc, λ e. cc)
bytes_eq_iff (a ∷ xs) [] = (λ e. cc, λ e. cc)
bytes_eq_iff (a ∷ xs) (b ∷ ys) =
    let ih = bytes_eq_iff xs ys in (ground (arith, ih), ground (arith, ih))

instance abbrev pub bytes_key : Key (List ℕ)
bytes_key = record { beq = bytes_eq; beq_iff = bytes_eq_iff; blt = bytes_lt }

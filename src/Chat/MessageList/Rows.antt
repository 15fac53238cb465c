-- ===== src/Chat/MessageList/Rows.antt =====
-- Insertion, removal, replacement and moves of list elements against `map`, `length` and `take`.
use chatdesktop.Prelude.{
  ℕ, zero, suc, ◌≤◌, ◌<◌, ◌≡◌, refl, ap, ◌∙◌, inl, inr, some, List, [], ◌∷◌, ◌++◌, map, length,
  take, get_elem?, arith, Option-cases,
}
use mathlib.Core.Option.{map as map_option}
use chatdesktop.Chat.MessageList.{insert_at, remove_at, set_at, move}

module _ {ℓ κ} {A : Type ℓ} {B : Type κ} (f : A → B) where
  pub map-insert_at :
      (i : ℕ) (x : A) (xs : List A) → map f (insert_at i x xs) ≡ insert_at i (f x) (map f xs)
  map-insert_at zero x xs = refl
  map-insert_at (suc i) x [] = refl
  map-insert_at (suc i) x (y ∷ ys) = ap (◌∷◌ (f y)) (map-insert_at i x ys)

  pub map-remove_at : (i : ℕ) (xs : List A) → map f (remove_at i xs) ≡ remove_at i (map f xs)
  map-remove_at zero [] = refl
  map-remove_at (suc i) [] = refl
  map-remove_at zero (y ∷ ys) = refl
  map-remove_at (suc i) (y ∷ ys) = ap (◌∷◌ (f y)) (map-remove_at i ys)

  pub map-set_at : (i : ℕ) (x : A) (xs : List A) → map f (set_at i x xs) ≡ set_at i (f x) (map f xs)
  map-set_at zero x [] = refl
  map-set_at (suc i) x [] = refl
  map-set_at zero x (y ∷ ys) = refl
  map-set_at (suc i) x (y ∷ ys) = ap (◌∷◌ (f y)) (map-set_at i x ys)

  pub get_elem-map : (xs : List A) (i : ℕ) → get_elem? (map f xs) i ≡ map_option f (get_elem? xs i)
  get_elem-map [] i = refl
  get_elem-map (x ∷ xs) zero = refl
  get_elem-map (x ∷ xs) (suc i) = get_elem-map xs i

  pub map-take : (n : ℕ) (xs : List A) → map f (take n xs) ≡ take n (map f xs)
  map-take zero xs = refl
  map-take (suc n) [] = refl
  map-take (suc n) (x ∷ xs) = ap (◌∷◌ (f x)) (map-take n xs)

  pub map_append : (xs ys : List A) → map f (xs ++ ys) ≡ map f xs ++ map f ys
  map_append [] ys = refl
  map_append (x ∷ xs) ys = ap (◌∷◌ (f x)) (map_append xs ys)

  -- Writing back what an element shows already changes nothing.
  pub set_at-map :
      (i : ℕ) (x y : A) (xs : List A)
      → get_elem? xs i ≡ some x
      → f y ≡ f x
      → map f (set_at i y xs) ≡ map f xs
  set_at-map i x y [] e h = cc
  set_at-map zero x y (z ∷ zs) e h = cc
  set_at-map (suc i) x y (z ∷ zs) e h = ap (◌∷◌ (f z)) (set_at-map i x y zs e h)

  pub map-move : (i j : ℕ) (xs : List A) → map f (move i j xs) ≡ move i j (map f xs)
  unfolding move
  map-move i j xs = elim (Option-cases (get_elem? xs i)) [
    | inl e ↦ rw (get_elem-map xs i, e) refl
    | inr (x, e) ↦
        rw (get_elem-map xs i, e)
          (map-insert_at j x (remove_at i xs) ∙ ap (insert_at j (f x)) (map-remove_at i xs))
  ]

module _ {ℓ} {A : Type ℓ} where
  pub length-insert_at : (i : ℕ) (x : A) (xs : List A) → length (insert_at i x xs) ≡ suc (length xs)
  length-insert_at zero x xs = refl
  length-insert_at (suc i) x [] = refl
  length-insert_at (suc i) x (y ∷ ys) = ap suc (length-insert_at i x ys)

  pub length-set_at : (i : ℕ) (x : A) (xs : List A) → length (set_at i x xs) ≡ length xs
  length-set_at zero x [] = refl
  length-set_at (suc i) x [] = refl
  length-set_at zero x (y ∷ ys) = refl
  length-set_at (suc i) x (y ∷ ys) = ap suc (length-set_at i x ys)

  pub length-remove_at :
      (i : ℕ) (xs : List A) → i < length xs → suc (length (remove_at i xs)) ≡ length xs
  length-remove_at zero [] h = omega arith
  length-remove_at (suc i) [] h = omega arith
  length-remove_at zero (y ∷ ys) h = refl
  length-remove_at (suc i) (y ∷ ys) h = ap suc (length-remove_at i ys (omega arith))

  pub get_elem-lt : (xs : List A) (i : ℕ) {x : A} → get_elem? xs i ≡ some x → i < length xs
  get_elem-lt [] i e = cc
  get_elem-lt (x ∷ xs) zero e = omega arith
  get_elem-lt (x ∷ xs) (suc i) e = omega (arith, get_elem-lt xs i e)

  pub length-move : (i j : ℕ) (xs : List A) → length (move i j xs) ≡ length xs
  unfolding move
  length-move i j xs = elim (Option-cases (get_elem? xs i)) [
    | inl e ↦ rw e refl
    | inr (x, e) ↦ rw e (
        omega (
          arith,
          length-insert_at j x (remove_at i xs),
          length-remove_at i xs (get_elem-lt xs i e),
        ))
  ]

  pub take-insert_at :
      (i : ℕ) (x : A) (xs : List A)
      → i ≤ length xs
      → take (suc i) (insert_at i x xs) ≡ take i xs ++ (x ∷ [])
  take-insert_at zero x [] h = refl
  take-insert_at zero x (y ∷ ys) h = refl
  take-insert_at (suc i) x [] h = ground arith
  take-insert_at (suc i) x (y ∷ ys) h = ap (◌∷◌ y) (take-insert_at i x ys (omega arith))

  pub take-insert_at_before :
      (i : ℕ) (x : A) (xs : List A) → i ≤ length xs → take i (insert_at i x xs) ≡ take i xs
  take-insert_at_before zero x xs h = refl
  take-insert_at_before (suc i) x [] h = ground arith
  take-insert_at_before (suc i) x (y ∷ ys) h =
      ap (◌∷◌ y) (take-insert_at_before i x ys (omega arith))

  pub take-remove_at : (n i : ℕ) (xs : List A) → n ≤ i → take n (remove_at i xs) ≡ take n xs
  take-remove_at zero i xs h = refl
  take-remove_at (suc n) i [] h = refl
  take-remove_at (suc n) zero (y ∷ ys) h = ground arith
  take-remove_at (suc n) (suc i) (y ∷ ys) h = ap (◌∷◌ y) (take-remove_at n i ys (omega arith))

  pub take-set_at :
      (i : ℕ) (x : A) (xs : List A)
      → i < length xs
      → take (suc i) (set_at i x xs) ≡ take i xs ++ (x ∷ [])
  take-set_at i x [] h = ground arith
  take-set_at zero x (y ∷ ys) h = refl
  take-set_at (suc i) x (y ∷ ys) h = ap (◌∷◌ y) (take-set_at i x ys (omega arith))

  pub take_all : (n : ℕ) (xs : List A) → length xs ≤ n → take n xs ≡ xs
  take_all zero [] h = refl
  take_all (suc n) [] h = refl
  take_all zero (x ∷ xs) h = ground arith
  take_all (suc n) (x ∷ xs) h = ap (◌∷◌ x) (take_all n xs (omega arith))

  pub take-move : (i j : ℕ) (xs : List A) → j ≤ i → i < length xs → take j (move i j xs) ≡ take j xs
  unfolding move
  take-move i j xs h b = elim (Option-cases (get_elem? xs i)) [
    | inl e ↦ rw e refl
    | inr (x, e) ↦ rw e (
        take-insert_at_before j x (remove_at i xs) (omega (arith, length-remove_at i xs b))
        ∙ take-remove_at j i xs h)
  ]

-- ===== src/Storage/MessageCache/Bounded.antt =====
-- However the cache is used, it keeps eight files open at most, and none of them twice.
use chatdesktop.Prelude.{
  ℕ, zero, suc, ◌-◌, ◌≤◌, ◌≡◌, refl, ap, subst, inl, inr, String, Bool, true, false, Option, none,
  some, List, [], ◌∷◌, length, leb, take, length-take, str_eq, str_eq_iff, Bool-cases,
  if◌then◌else◌, if_elim, arith,
}
use chatdesktop.Storage.MessageCache.{
  StorageApi, Cache, find_store, erase, push_store, opened_new, open_found, open_store, put_front,
  finish, with_opened, with_store, max_open_stores,
}

module _ (api : StorageApi) where
  abbrev Stores : Type 0
  Stores = List (String × api.Handle)

  abbrev pub Distinct : Stores → Type 0
  Distinct [] = Unit
  Distinct (x ∷ xs) = (find_store api x.0 xs ≡ none) × Distinct xs

  -- At most eight stores, no file twice.
  abbrev pub IsBounded : Stores → Type 0
  IsBounded xs = (length xs ≤ 8) × Distinct xs

  find_cons :
      (q : String) (x : String × api.Handle) (xs : Stores)
      → find_store api q (x ∷ xs) ≡ none
      → find_store api q xs ≡ none
  find_cons q x xs =
      if_elim (λ (o : Option api.Handle). o ≡ none → find_store api q xs ≡ none) (str_eq x.0 q)
        (λ e h. absurd (cc)) (λ e h. h)

  keep_if :
      (b : Bool) (h : api.Handle) {o p : Option api.Handle}
      → (o ≡ none → p ≡ none)
      → (if b then some h else o) ≡ none
      → (if b then some h else p) ≡ none
  keep_if true h f e = absurd (cc)
  keep_if false h f e = f e

  erase-find :
      (path q : String) (xs : Stores)
      → find_store api q xs ≡ none
      → find_store api q (erase api path xs) ≡ none
  unfolding erase
  erase-find path q [] h = refl
  erase-find path q (x ∷ xs) h =
      if_elim (λ (ys : Stores). find_store api q ys ≡ none) (str_eq x.0 path)
        (λ e. find_cons q x xs h) (λ e. keep_if (str_eq x.0 q) x.1 (erase-find path q xs) h)

  find-take :
      (n : ℕ) (q : String) (xs : Stores)
      → find_store api q xs ≡ none
      → find_store api q (take n xs) ≡ none
  find-take zero q xs h = refl
  find-take (suc n) q [] h = refl
  find-take (suc n) q (x ∷ xs) h = keep_if (str_eq x.0 q) x.1 (find-take n q xs) h

  take-Distinct : (n : ℕ) (xs : Stores) → Distinct xs → Distinct (take n xs)
  take-Distinct zero xs h = tt
  take-Distinct (suc n) [] h = tt
  take-Distinct (suc n) (x ∷ xs) (h, hs) = (find-take n x.0 xs h, take-Distinct n xs hs)

  erase-Distinct : (path : String) (xs : Stores) → Distinct xs → Distinct (erase api path xs)
  unfolding erase
  erase-Distinct path [] h = tt
  erase-Distinct path (x ∷ xs) (h, hs) =
      if_elim Distinct (str_eq x.0 path) (λ e. hs)
        (λ e. (erase-find path x.0 xs h, erase-Distinct path xs hs))

  find-erase :
      (path : String) (xs : Stores) → Distinct xs → find_store api path (erase api path xs) ≡ none
  unfolding erase
  find-erase path [] h = refl
  find-erase path (x ∷ xs) (h, hs) =
      if_elim (λ (ys : Stores). find_store api path ys ≡ none) (str_eq x.0 path)
        (λ e. subst (λ q. find_store api q xs ≡ none) ((str_eq_iff x.0 path).0 e) h)
        (λ e. rw (e) (find-erase path xs hs))

  erase_found :
      (path : String) (xs : Stores) (h : api.Handle)
      → find_store api path xs ≡ some h
      → suc (length (erase api path xs)) ≡ length xs
  unfolding erase
  erase_found path [] h e = absurd (cc)
  erase_found path (x ∷ xs) h e = elim (Bool-cases (str_eq x.0 path)) [
    | inl y ↦ rw (y) refl
    | inr n ↦
        let found : find_store api path xs ≡ some h = simp n at e in
        rw (n) (ap suc (erase_found path xs h found))
  ]

  push_store-IsBounded :
      (path : String) (h : api.Handle) (xs : Stores)
      → IsBounded xs
      → find_store api path xs ≡ none
      → IsBounded (push_store api path h xs)
  unfolding push_store
  push_store-IsBounded path h xs (l, d) absent =
      if_elim (λ (ys : Stores). IsBounded ((path, h) ∷ ys)) (leb (max_open_stores api) (length xs))
        (λ e. (
          omega (arith, length-take (length xs - 1) xs),
          (find-take (length xs - 1) path xs absent, take-Distinct (length xs - 1) xs d),
        ))
        (λ e. (ground arith, (absent, d)))

  opened_new-IsBounded :
      (path : String) (r : Option api.Handle × api.Disk) (xs : Stores)
      → IsBounded xs
      → find_store api path xs ≡ none
      → IsBounded (opened_new api path r xs).1.opened
  unfolding opened_new
  opened_new-IsBounded path (none, d) xs h absent = h
  opened_new-IsBounded path (some k, d) xs h absent = push_store-IsBounded path k xs h absent

  open_found-IsBounded :
      (path : String) (o : Option api.Handle) (c : Cache api)
      → find_store api path c.opened ≡ o
      → IsBounded c.opened
      → IsBounded (open_found api path o c).1.opened
  unfolding open_found
  open_found-IsBounded path none c e h =
      opened_new-IsBounded path (api.open_file path c.disk) c.opened h e
  open_found-IsBounded path (some k) c e (l, d) =
      let shorter = erase_found path c.opened k e in
      let rest = erase-Distinct path c.opened d in
      let absent = find-erase path c.opened d in
      if_elim (λ (r : Option api.Handle × Cache api). IsBounded r.1.opened) (api.exists c.disk path)
        (λ there. (omega (arith, shorter), (absent, rest)))
        (λ gone.
          opened_new-IsBounded path (api.open_file path c.disk) (erase api path c.opened)
            (omega (arith, shorter), rest) absent)

  open_store-IsBounded :
      (path : String) (c : Cache api)
      → IsBounded c.opened
      → IsBounded (open_store api path c).1.opened
  unfolding open_store
  open_store-IsBounded path c h = open_found-IsBounded path (find_store api path c.opened) c refl h

  put_front-IsBounded :
      (k : api.Handle) (xs : Stores) → IsBounded xs → IsBounded (put_front api k xs)
  put_front-IsBounded k [] h = h
  put_front-IsBounded k (x ∷ xs) h = h

  pub none_open : IsBounded []
  none_open = (omega arith, tt)

  module _ {A : Type 0} (failed : A) where
    finish-IsBounded :
        (r : Option A × (api.Handle × api.Disk)) (c : Cache api)
        → IsBounded c.opened
        → IsBounded (finish api failed r c).1.opened
    unfolding finish
    finish-IsBounded (none, s) c h = none_open
    finish-IsBounded (some a, s) c h = put_front-IsBounded s.0 c.opened h

    with_opened-IsBounded :
        (f : api.Handle × api.Disk → Option A × (api.Handle × api.Disk))
        (r : Option api.Handle × Cache api)
        → IsBounded r.1.opened
        → IsBounded (with_opened api failed f r).1.opened
    unfolding with_opened
    with_opened-IsBounded f (none, c) h = none_open
    with_opened-IsBounded f (some k, c) h = finish-IsBounded (f (k, c.disk)) c h

    pub with_store-IsBounded :
        (f : api.Handle × api.Disk → Option A × (api.Handle × api.Disk)) (path : String)
        (c : Cache api)
        → IsBounded c.opened
        → IsBounded (with_store api failed f path c).1.opened
    unfolding with_store
    with_store-IsBounded f path c h =
        with_opened-IsBounded f (open_store api path c) (open_store-IsBounded path c h)

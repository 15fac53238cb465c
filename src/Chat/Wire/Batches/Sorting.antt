-- ===== src/Chat/Wire/Batches/Sorting.antt =====
-- The stable sort of a batch, and sums over the messages as a way to count them.
use chatdesktop.Prelude.{
  ℕ, zero, suc, ◌+◌, ◌<◌, ◌≡◌, refl, ap, ℤ, pos, negsuc, lt, true, false, List, [], ◌∷◌, length,
  get_or, All, if_elim, arith,
}
use chatdesktop.Chat.Entity.{MessageItem, no_message}
use chatdesktop.Chat.Wire.Batches.{gather, insert_stable, stable_sort, set_at, scatter}
use chatdesktop.Chat.Wire.Batches.Places.{Distinct, length-set_at, gather-set_at}

-- The first message is not after the one that follows.
abbrev Leads : MessageItem → List MessageItem → Type 0
Leads m [] = Unit
Leads m (n ∷ ns) = lt n.body.attachment_index m.body.attachment_index ≡ false

abbrev pub InOrder : List MessageItem → Type 0
InOrder [] = Unit
InOrder (m ∷ ms) = Leads m ms × InOrder ms

lt_asym : (a b : ℤ) → lt a b ≡ true → lt b a ≡ false
lt_asym (pos a) (pos b) h = ground arith
lt_asym (pos a) (negsuc b) h = absurd (cc)
lt_asym (negsuc a) (pos b) h = refl
lt_asym (negsuc a) (negsuc b) h = ground arith

Leads-insert_stable :
    (n m : MessageItem) (ms : List MessageItem)
    → lt m.body.attachment_index n.body.attachment_index ≡ false
    → Leads n ms
    → Leads n (insert_stable m ms)
unfolding insert_stable
Leads-insert_stable n m [] h l = h
Leads-insert_stable n m (k ∷ ks) h l =
    if_elim (λ ms. Leads n ms) (lt k.body.attachment_index m.body.attachment_index) (λ e. l)
      (λ e. h)

insert_stable-InOrder :
    (m : MessageItem) (ms : List MessageItem) → InOrder ms → InOrder (insert_stable m ms)
unfolding insert_stable
insert_stable-InOrder m [] h = (tt, tt)
insert_stable-InOrder m (n ∷ ns) (l, h) =
    if_elim InOrder (lt n.body.attachment_index m.body.attachment_index)
      (λ e. (
        Leads-insert_stable n m ns (lt_asym n.body.attachment_index m.body.attachment_index e) l,
        insert_stable-InOrder m ns h,
      ))
      (λ e. (e, (l, h)))

pub stable_sort-InOrder : (ms : List MessageItem) → InOrder (stable_sort ms)
unfolding stable_sort
stable_sort-InOrder [] = tt
stable_sort-InOrder (m ∷ ms) = insert_stable-InOrder m (stable_sort ms) (stable_sort-InOrder ms)

length-insert_stable :
    (m : MessageItem) (ms : List MessageItem) → length (insert_stable m ms) ≡ suc (length ms)
unfolding insert_stable
length-insert_stable m [] = refl
length-insert_stable m (n ∷ ns) =
    if_elim (λ (ms : List MessageItem). length ms ≡ suc (suc (length ns)))
      (lt n.body.attachment_index m.body.attachment_index) (λ e. ap suc (length-insert_stable m ns))
      (λ e. refl)

pub length-stable_sort : (ms : List MessageItem) → length (stable_sort ms) ≡ length ms
unfolding stable_sort
length-stable_sort [] = refl
length-stable_sort (m ∷ ms) =
    omega (arith, length-insert_stable m (stable_sort ms), length-stable_sort ms)

abbrev pub total : (MessageItem → ℕ) → List MessageItem → ℕ
total f [] = 0
total f (m ∷ ms) = f m + total f ms

module _ (f : MessageItem → ℕ) where
  total-insert_stable :
      (m : MessageItem) (ms : List MessageItem) → total f (insert_stable m ms) ≡ f m + total f ms
  unfolding insert_stable
  total-insert_stable m [] = refl
  total-insert_stable m (n ∷ ns) =
      if_elim (λ (ms : List MessageItem). total f ms ≡ f m + (f n + total f ns))
        (lt n.body.attachment_index m.body.attachment_index)
        (λ e. omega (arith, total-insert_stable m ns)) (λ e. refl)

  pub total-stable_sort : (ms : List MessageItem) → total f (stable_sort ms) ≡ total f ms
  unfolding stable_sort
  total-stable_sort [] = refl
  total-stable_sort (m ∷ ms) =
      omega (arith, total-insert_stable m (stable_sort ms), total-stable_sort ms)

  total-set_at :
      (ms : List MessageItem) (p : ℕ) (v : MessageItem)
      → p < length ms
      → total f (set_at ms p v) + f (get_or ms p no_message) ≡ total f ms + f v
  unfolding set_at
  total-set_at [] p v h = absurd (omega arith)
  total-set_at (m ∷ ms) zero v h = omega arith
  total-set_at (m ∷ ms) (suc p) v h = let e = total-set_at ms p v (omega arith) in omega (arith, e)

  pub total-scatter :
      (ps : List ℕ) (vs ms : List MessageItem)
      → Distinct ps
      → All (λ p. p < length ms) ps
      → length vs ≡ length ps
      → total f (scatter ps vs ms) + total f (gather ps ms) ≡ total f ms + total f vs
  unfolding gather scatter
  total-scatter [] [] ms d b e = refl
  total-scatter [] (v ∷ vs) ms d b e = absurd (omega arith)
  total-scatter (p ∷ ps) [] ms d b e = absurd (omega arith)
  total-scatter (p ∷ ps) (v ∷ vs) ms (d, ds) (b, bs) e =
      let rest =
        total-scatter ps vs (set_at ms p v) ds (rw (length-set_at ms p v) bs) (omega arith) in
      let same = ap (total f) (gather-set_at ps ms p v d) in
      let here = total-set_at ms p v b in omega (arith, rest, same, here)

-- ===== src/Chat/Wire/Batches/Keys.antt =====
-- The places of an album: reordering moves messages only between places of the same album.
use chatdesktop.Prelude.{
  ℕ, zero, suc, ◌≡◌, refl, sym, ap, ◌∙◌, subst, lt, String, Bool, true, ◌&&◌, List, [], ◌∷◌, map,
  get_or, All, str_eq, if_elim, arith,
}
use chatdesktop.Chat.Entity.{MessageItem, no_message}
use chatdesktop.Chat.Wire.{in_batch}
use chatdesktop.Chat.Wire.Batches.{
  Batch, gather, insert_stable, stable_sort, set_at, scatter, reorder,
}
use chatdesktop.Chat.Wire.Batches.Places.{Apart, Distinct, get_or-set_at_other, get_or-scatter}
use chatdesktop.Chat.Wire.Batches.Order.{Parted}

-- Whether a message is one of the album `batch` of `sender`.
abbrev pub in_album : String → String → MessageItem → Bool
in_album sender batch m =
    in_batch m.body.attachment_batch_id m.body.attachment_index
    && (str_eq m.sender_id sender && str_eq m.body.attachment_batch_id batch)

abbrev pub HasKey : Batch → MessageItem → Type 0
HasKey g m =
    (in_batch m.body.attachment_batch_id m.body.attachment_index ≡ true)
    × (m.sender_id ≡ g.sender_id)
    × (m.body.attachment_batch_id ≡ g.batch_id)

-- Every batch stands at places of its own messages.
abbrev pub Uniform : List Batch → List MessageItem → Type 0
Uniform gs ms = All (λ (g : Batch). All (λ p. HasKey g (get_or ms p no_message)) g.positions) gs

in_album-HasKey :
    (s b : String) (g : Batch) (m n : MessageItem)
    → HasKey g m
    → HasKey g n
    → in_album s b m ≡ in_album s b n
in_album-HasKey s b g m n (im, sm, bm) (jn, sn, bn) = rw (im, jn, sm, sn, bm, bn) refl

flags_set_at :
    (s b : String) (ms : List MessageItem) (p : ℕ) (v : MessageItem)
    → in_album s b v ≡ in_album s b (get_or ms p no_message)
    → map (in_album s b) (set_at ms p v) ≡ map (in_album s b) ms
unfolding set_at
flags_set_at s b [] p v e = refl
flags_set_at s b (m ∷ ms) zero v e = ap (λ x. x ∷ map (in_album s b) ms) e
flags_set_at s b (m ∷ ms) (suc p) v e = ap (λ xs. in_album s b m ∷ xs) (flags_set_at s b ms p v e)

-- What stands elsewhere keeps its key.
HasKey-set_at :
    (g : Batch) (ps : List ℕ) (ms : List MessageItem) (p : ℕ) (v : MessageItem)
    → Apart p ps
    → All (λ q. HasKey g (get_or ms q no_message)) ps
    → All (λ q. HasKey g (get_or (set_at ms p v) q no_message)) ps
HasKey-set_at g [] ms p v a h = tt
HasKey-set_at g (q ∷ qs) ms p v (a, bs) (h, hs) = (
  subst (HasKey g) (sym (get_or-set_at_other ms p q v (omega arith))) h,
  HasKey-set_at g qs ms p v bs hs,
)

flags_scatter :
    (s b : String) (g : Batch) (ps : List ℕ) (vs ms : List MessageItem)
    → Distinct ps
    → All (HasKey g) vs
    → All (λ p. HasKey g (get_or ms p no_message)) ps
    → map (in_album s b) (scatter ps vs ms) ≡ map (in_album s b) ms
unfolding scatter
flags_scatter s b g [] vs ms d k h = refl
flags_scatter s b g (p ∷ ps) [] ms d k h = refl
flags_scatter s b g (p ∷ ps) (v ∷ vs) ms (d, ds) (k, ks) (h, hs) =
    flags_scatter s b g ps vs (set_at ms p v) ds ks (HasKey-set_at g ps ms p v d hs)
    ∙ flags_set_at s b ms p v (in_album-HasKey s b g v (get_or ms p no_message) k h)

HasKey-gather :
    (g : Batch) (ps : List ℕ) (ms : List MessageItem)
    → All (λ p. HasKey g (get_or ms p no_message)) ps
    → All (HasKey g) (gather ps ms)
unfolding gather
HasKey-gather g [] ms h = tt
HasKey-gather g (p ∷ ps) ms (h, hs) = (h, HasKey-gather g ps ms hs)

HasKey-insert_stable :
    (g : Batch) (m : MessageItem) (ms : List MessageItem)
    → HasKey g m
    → All (HasKey g) ms
    → All (HasKey g) (insert_stable m ms)
unfolding insert_stable
HasKey-insert_stable g m [] k h = (k, tt)
HasKey-insert_stable g m (n ∷ ns) k (h, hs) =
    if_elim (All (HasKey g)) (lt n.body.attachment_index m.body.attachment_index)
      (λ e. (h, HasKey-insert_stable g m ns k hs)) (λ e. (k, (h, hs)))

HasKey-stable_sort :
    (g : Batch) (ms : List MessageItem) → All (HasKey g) ms → All (HasKey g) (stable_sort ms)
unfolding stable_sort
HasKey-stable_sort g [] h = tt
HasKey-stable_sort g (m ∷ ms) (h, hs) =
    HasKey-insert_stable g m (stable_sort ms) h (HasKey-stable_sort g ms hs)

HasKey-scatter :
    (g : Batch) (qs ps : List ℕ) (vs ms : List MessageItem)
    → All (λ q. Apart q ps) qs
    → All (λ q. HasKey g (get_or ms q no_message)) qs
    → All (λ q. HasKey g (get_or (scatter ps vs ms) q no_message)) qs
HasKey-scatter g [] ps vs ms a h = tt
HasKey-scatter g (q ∷ qs) ps vs ms (a, bs) (h, hs) =
    (subst (HasKey g) (sym (get_or-scatter ps vs ms q a)) h, HasKey-scatter g qs ps vs ms bs hs)

Uniform-scatter :
    (g : Batch) (gs : List Batch) (vs ms : List MessageItem)
    → All (λ (h : Batch). All (λ q. Apart q h.positions) g.positions) gs
    → Uniform gs ms
    → Uniform gs (scatter g.positions vs ms)
Uniform-scatter g [] vs ms a u = tt
Uniform-scatter g (h ∷ hs) vs ms (a, bs) (u, us) = (
  HasKey-scatter h h.positions g.positions vs ms (flip g.positions h.positions a) u,
  Uniform-scatter g hs vs ms bs us,
)
  where
    flip_one :
        (q : ℕ) (qs ps : List ℕ)
        → Apart q ps
        → All (λ p. Apart p qs) ps
        → All (λ p. Apart p (q ∷ qs)) ps
    flip_one q qs [] k l = tt
    flip_one q qs (p ∷ ps) (k, ks) (l, ls) = ((omega arith, l), flip_one q qs ps ks ls)

    nothing : (ps : List ℕ) → All (λ p. Apart p []) ps
    nothing [] = tt
    nothing (p ∷ ps) = (tt, nothing ps)

    flip : (qs ps : List ℕ) → All (λ q. Apart q ps) qs → All (λ p. Apart p qs) ps
    flip [] ps k = nothing ps
    flip (q ∷ qs) ps (k, ks) = flip_one q qs ps k (flip qs ps ks)

-- Every place keeps its album.
pub flags_reorder :
    (s b : String) (gs : List Batch) (ms : List MessageItem)
    → Parted gs
    → Uniform gs ms
    → map (in_album s b) (reorder gs ms) ≡ map (in_album s b) ms
unfolding reorder
flags_reorder s b [] ms p u = refl
flags_reorder s b (g ∷ gs) ms (d, a, p) (u, us) =
    let vs = stable_sort (gather g.positions ms) in
    flags_reorder s b gs (scatter g.positions vs ms) p (Uniform-scatter g gs vs ms a us)
    ∙ flags_scatter s b g g.positions vs ms d
        (HasKey-stable_sort g (gather g.positions ms) (HasKey-gather g g.positions ms u)) u

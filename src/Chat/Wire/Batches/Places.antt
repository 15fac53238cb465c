-- ===== src/Chat/Wire/Batches/Places.antt =====
-- Reading and writing the messages at the positions of a batch.
use chatdesktop.Prelude.{
  ℕ, zero, suc, ◌<◌, ◌≡◌, ◌≢◌, refl, ap, ◌∙◌, List, [], ◌∷◌, length, get_or, All, arith,
}
use chatdesktop.Chat.Entity.{MessageItem, no_message}
use chatdesktop.Chat.Wire.Batches.{gather, set_at, scatter}

abbrev pub Apart : ℕ → List ℕ → Type 0
Apart q ps = All (λ p. p ≢ q) ps

abbrev pub Distinct : List ℕ → Type 0
Distinct [] = Unit
Distinct (p ∷ ps) = Apart p ps × Distinct ps

pub length-set_at :
    (ms : List MessageItem) (p : ℕ) (v : MessageItem) → length (set_at ms p v) ≡ length ms
unfolding set_at
length-set_at [] p v = refl
length-set_at (m ∷ ms) zero v = refl
length-set_at (m ∷ ms) (suc p) v = ap suc (length-set_at ms p v)

pub get_or-set_at :
    (ms : List MessageItem) (p : ℕ) (v : MessageItem)
    → p < length ms
    → get_or (set_at ms p v) p no_message ≡ v
unfolding set_at
get_or-set_at [] p v h = absurd (omega arith)
get_or-set_at (m ∷ ms) zero v h = refl
get_or-set_at (m ∷ ms) (suc p) v h = get_or-set_at ms p v (omega arith)

pub get_or-set_at_other :
    (ms : List MessageItem) (p q : ℕ) (v : MessageItem)
    → p ≢ q
    → get_or (set_at ms p v) q no_message ≡ get_or ms q no_message
unfolding set_at
get_or-set_at_other [] p q v h = refl
get_or-set_at_other (m ∷ ms) zero zero v h = absurd (h refl)
get_or-set_at_other (m ∷ ms) zero (suc q) v h = refl
get_or-set_at_other (m ∷ ms) (suc p) zero v h = refl
get_or-set_at_other (m ∷ ms) (suc p) (suc q) v h = get_or-set_at_other ms p q v (omega arith)

pub gather-set_at :
    (ps : List ℕ) (ms : List MessageItem) (q : ℕ) (v : MessageItem)
    → Apart q ps
    → gather ps (set_at ms q v) ≡ gather ps ms
unfolding gather
gather-set_at [] ms q v h = refl
gather-set_at (p ∷ ps) ms q v (h, hs) =
    rw (get_or-set_at_other ms q p v (omega arith), gather-set_at ps ms q v hs) refl

pub length-gather : (ps : List ℕ) (ms : List MessageItem) → length (gather ps ms) ≡ length ps
unfolding gather
length-gather [] ms = refl
length-gather (p ∷ ps) ms = ap suc (length-gather ps ms)

pub length-scatter :
    (ps : List ℕ) (vs ms : List MessageItem) → length (scatter ps vs ms) ≡ length ms
unfolding scatter
length-scatter [] vs ms = refl
length-scatter (p ∷ ps) [] ms = refl
length-scatter (p ∷ ps) (v ∷ vs) ms = length-scatter ps vs (set_at ms p v) ∙ length-set_at ms p v

pub get_or-scatter :
    (ps : List ℕ) (vs ms : List MessageItem) (q : ℕ)
    → Apart q ps
    → get_or (scatter ps vs ms) q no_message ≡ get_or ms q no_message
unfolding scatter
get_or-scatter [] vs ms q h = refl
get_or-scatter (p ∷ ps) [] ms q h = refl
get_or-scatter (p ∷ ps) (v ∷ vs) ms q (h, hs) =
    get_or-scatter ps vs (set_at ms p v) q hs ∙ get_or-set_at_other ms p q v h

pub gather-scatter_other :
    (qs ps : List ℕ) (vs ms : List MessageItem)
    → All (λ q. Apart q ps) qs
    → gather qs (scatter ps vs ms) ≡ gather qs ms
unfolding gather
gather-scatter_other [] ps vs ms h = refl
gather-scatter_other (q ∷ qs) ps vs ms (h, hs) =
    rw (get_or-scatter ps vs ms q h, gather-scatter_other qs ps vs ms hs) refl

pub gather-scatter :
    (ps : List ℕ) (vs ms : List MessageItem)
    → Distinct ps
    → All (λ p. p < length ms) ps
    → length vs ≡ length ps
    → gather ps (scatter ps vs ms) ≡ vs
unfolding gather scatter
gather-scatter [] [] ms d b e = refl
gather-scatter [] (v ∷ vs) ms d b e = absurd (omega arith)
gather-scatter (p ∷ ps) [] ms d b e = absurd (omega arith)
gather-scatter (p ∷ ps) (v ∷ vs) ms (d, ds) (b, bs) e =
    rw
      (
        get_or-scatter ps vs (set_at ms p v) p d,
        get_or-set_at ms p v b,
        gather-scatter ps vs (set_at ms p v) ds (rw (length-set_at ms p v) bs) (omega arith),
      )
      refl

-- ===== src/Chat/Wire/Batches/Albums.antt =====
-- Every album of a page is shown in its order.
use chatdesktop.Prelude.{
  ℕ, suc, ◌≡◌, refl, sym, ap, ◌∙◌, subst, inl, inr, String, Bool, true, false, ◌&&◌, List, [], ◌∷◌,
  ◌++◌, map, length, get_or, All-append, str_eq, str_eq_iff, if◌then◌else◌, if_elim, and_true,
  Bool-cases, append_assoc, append-nil,
}
use chatdesktop.Chat.Entity.{MessageItem, no_message}
use chatdesktop.Chat.Wire.{JsonApi, in_batch, MessageDto}
use chatdesktop.Chat.Wire.Batches.{Batch, add_position, collect, gather, reorder, to_domain}
use chatdesktop.Chat.Wire.Batches.Sorting.{InOrder}
use chatdesktop.Chat.Wire.Batches.Order.{Sorted, collect_whole, reorder-Sorted, items}
use chatdesktop.Chat.Wire.Batches.Keys.{in_album, HasKey, Uniform, flags_reorder}

-- The messages of an album, in the order they are shown in.
abbrev pub album : String → String → List MessageItem → List MessageItem
album s b [] = []
album s b (m ∷ ms) = if in_album s b m then m ∷ album s b ms else album s b ms

-- Where the flags are set, counted from `i`.
places : ℕ → List Bool → List ℕ
places i [] = []
places i (b ∷ bs) = if b then i ∷ places (suc i) bs else places (suc i) bs

get_or-append :
    (pre : List MessageItem) (m : MessageItem) (ms : List MessageItem)
    → get_or (pre ++ (m ∷ ms)) (length pre) no_message ≡ m
get_or-append [] m ms = refl
get_or-append (p ∷ ps) m ms = get_or-append ps m ms

length_snoc :
    (pre : List MessageItem) (m : MessageItem) → length (pre ++ (m ∷ [])) ≡ suc (length pre)
length_snoc [] m = refl
length_snoc (p ∷ ps) m = ap suc (length_snoc ps m)

gather-places :
    (s b : String) (pre ms : List MessageItem) (i : ℕ)
    → length pre ≡ i
    → gather (places i (map (in_album s b) ms)) (pre ++ ms) ≡ album s b ms
unfolding gather places
gather-places s b pre [] i e = refl
gather-places s b pre (m ∷ ms) i e =
    let rest =
      ap (gather (places (suc i) (map (in_album s b) ms))) (sym (append_assoc pre (m ∷ []) ms))
      ∙ gather-places s b (pre ++ (m ∷ [])) ms (suc i) (length_snoc pre m ∙ ap suc e) in
    let here = ap (λ k. get_or (pre ++ (m ∷ ms)) k no_message) (sym e) ∙ get_or-append pre m ms in
    elim (Bool-cases (in_album s b m)) [
      | inl y ↦ rw (y, here, rest) refl
      | inr n ↦ rw (n, rest) refl
    ]

abbrev is_of : String → String → Batch → Bool
is_of s b g = str_eq g.sender_id s && str_eq g.batch_id b

-- The places that are collected for an album.
positions_of : String → String → List Batch → List ℕ
positions_of s b [] = []
positions_of s b (g ∷ gs) = if is_of s b g then g.positions else positions_of s b gs

InOrder-positions_of :
    (s b : String) (gs : List Batch) (ms : List MessageItem)
    → Sorted gs ms
    → InOrder (gather (positions_of s b gs) ms)
unfolding positions_of gather
InOrder-positions_of s b [] ms h = tt
InOrder-positions_of s b (g ∷ gs) ms (h, hs) =
    if_elim (λ ps. InOrder (gather ps ms)) (is_of s b g) (λ e. h)
      (λ e. InOrder-positions_of s b gs ms hs)

is_of_eq : (s b : String) (g : Batch) → is_of s b g ≡ true → (g.sender_id ≡ s) × (g.batch_id ≡ b)
is_of_eq s b g h =
    let both = and_true (str_eq g.sender_id s) (str_eq g.batch_id b) h in
    ((str_eq_iff g.sender_id s).0 both.0, (str_eq_iff g.batch_id b).0 both.1)

str_eq_refl : (s : String) → str_eq s s ≡ true
str_eq_refl s = (str_eq_iff s s).1 refl

-- What is of two albums is of one.
is_of_one :
    (s b t c : String) (g : Batch)
    → is_of s b g ≡ true
    → is_of t c g ≡ false
    → (str_eq t s && str_eq c b) ≡ false
is_of_one s b t c g h k = elim (Bool-cases (str_eq t s && str_eq c b)) [
  | inl y ↦
      let of = is_of_eq s b g h in
      let both = and_true (str_eq t s) (str_eq c b) y in
      let e1 = of.0 ∙ sym ((str_eq_iff t s).0 both.0) in
      let e2 = of.1 ∙ sym ((str_eq_iff c b).0 both.1) in
      let yes : is_of t c g ≡ true = rw (e1, e2, str_eq_refl t, str_eq_refl c) refl in absurd (cc)
  | inr n ↦ n
]

appended :
    (x : Bool) (ps qs : List ℕ) (i : ℕ)
    → (if x then ps ++ (i ∷ []) else qs) ≡ (if x then ps else qs) ++ (if x then i ∷ [] else [])
appended true ps qs i = refl
appended false ps qs i = sym (append-nil qs)

-- A new position goes to its own album and to no other.
positions_of-add_position :
    (s b t c : String) (i : ℕ) (gs : List Batch)
    → positions_of s b (add_position t c i gs)
      ≡ positions_of s b gs ++ (if str_eq t s && str_eq c b then i ∷ [] else [])
unfolding positions_of add_position
positions_of-add_position s b t c i [] = refl
positions_of-add_position s b t c i (g ∷ gs) =
    if_elim
      (λ (hs : List Batch).
        positions_of s b hs
        ≡ positions_of s b (g ∷ gs) ++ (if str_eq t s && str_eq c b then i ∷ [] else []))
      (is_of t c g) hit (miss (positions_of-add_position s b t c i gs))
  where
    hit :
        is_of t c g ≡ true
        → positions_of s b (record g { positions = g.positions ++ (i ∷ []) } ∷ gs)
          ≡ positions_of s b (g ∷ gs) ++ (if str_eq t s && str_eq c b then i ∷ [] else [])
    hit e =
        let of = is_of_eq t c g e in
        rw (sym of.0, sym of.1) (appended (is_of s b g) g.positions (positions_of s b gs) i)

    miss :
        positions_of s b (add_position t c i gs)
          ≡ positions_of s b gs ++ (if str_eq t s && str_eq c b then i ∷ [] else [])
        → is_of t c g ≡ false
        → positions_of s b (g ∷ add_position t c i gs)
          ≡ positions_of s b (g ∷ gs) ++ (if str_eq t s && str_eq c b then i ∷ [] else [])
    miss rest e = elim (Bool-cases (is_of s b g)) [
      | inl y ↦ rw (y, is_of_one s b t c g y e) (sym (append-nil g.positions))
      | inr n ↦ rw (n) rest
    ]

positions_of-collect :
    (s b : String) (ms : List MessageItem) (i : ℕ) (gs : List Batch)
    → positions_of s b (collect i ms gs) ≡ positions_of s b gs ++ places i (map (in_album s b) ms)
unfolding collect places
positions_of-collect s b [] i gs = sym (append-nil (positions_of s b gs))
positions_of-collect s b (m ∷ ms) i gs =
    if_elim
      (λ (hs : List Batch).
        positions_of s b (collect (suc i) ms hs)
        ≡ positions_of s b gs ++ places i (map (in_album s b) (m ∷ ms)))
      (in_batch m.body.attachment_batch_id m.body.attachment_index)
      (λ e.
        positions_of-collect s b ms (suc i)
          (add_position m.sender_id m.body.attachment_batch_id i gs)
        ∙ (ap (λ ps. ps ++ places (suc i) (map (in_album s b) ms))
              (positions_of-add_position s b m.sender_id m.body.attachment_batch_id i gs)
            ∙ rw (e) (
                joined (str_eq m.sender_id s && str_eq m.body.attachment_batch_id b)
                  (positions_of s b gs) (places (suc i) (map (in_album s b) ms)) i)))
      (λ e. positions_of-collect s b ms (suc i) gs ∙ rw (e) refl)
  where
    joined :
        (x : Bool) (ps qs : List ℕ) (i : ℕ)
        → (ps ++ (if x then i ∷ [] else [])) ++ qs ≡ ps ++ (if x then i ∷ qs else qs)
    joined true ps qs i = append_assoc ps (i ∷ []) qs
    joined false ps qs i = ap (λ rs. rs ++ qs) (append-nil ps)

add_position-Uniform :
    (t c : String) (i : ℕ) (gs : List Batch) (whole : List MessageItem)
    → HasKey (record { sender_id = t; batch_id = c; positions = [] }) (get_or whole i no_message)
    → Uniform gs whole
    → Uniform (add_position t c i gs) whole
unfolding add_position
add_position-Uniform t c i [] whole k u = ((k, tt), tt)
add_position-Uniform t c i (g ∷ gs) whole k (u, us) =
    if_elim (λ (hs : List Batch). Uniform hs whole) (is_of t c g)
      (λ e.
        let of = is_of_eq t c g e in
        (
          All-append (λ p. HasKey g (get_or whole p no_message)) g.positions (i ∷ []) u
              ((k.0, k.1 ∙ sym of.0, k.2 ∙ sym of.1), tt),
          us,
        ))
      (λ e. (u, add_position-Uniform t c i gs whole k us))

collect-Uniform :
    (pre ms : List MessageItem) (i : ℕ) (gs : List Batch)
    → length pre ≡ i
    → Uniform gs (pre ++ ms)
    → Uniform (collect i ms gs) (pre ++ ms)
unfolding collect
collect-Uniform pre [] i gs e u = u
collect-Uniform pre (m ∷ ms) i gs e u =
    let next = append_assoc pre (m ∷ []) ms in
    let here = ap (λ k. get_or (pre ++ (m ∷ ms)) k no_message) (sym e) ∙ get_or-append pre m ms in
    let go : (hs : List Batch)
        → Uniform hs (pre ++ (m ∷ ms))
        → Uniform (collect (suc i) ms hs) (pre ++ (m ∷ ms)) =
      λ hs v.
        subst (λ whole. Uniform (collect (suc i) ms hs) whole) next
          (collect-Uniform (pre ++ (m ∷ [])) ms (suc i) hs (length_snoc pre m ∙ ap suc e)
            (subst (Uniform hs) (sym next) v)) in
    if_elim (λ (hs : List Batch). Uniform (collect (suc i) ms hs) (pre ++ (m ∷ ms)))
      (in_batch m.body.attachment_batch_id m.body.attachment_index)
      (λ y. go (add_position m.sender_id m.body.attachment_batch_id i gs) (
        add_position-Uniform m.sender_id m.body.attachment_batch_id i gs (pre ++ (m ∷ ms))
          (subst
            (HasKey (record {
              sender_id = m.sender_id;
              batch_id = m.body.attachment_batch_id;
              positions = [];
            }))
            (sym here) (y, refl, refl))
          u))
      (λ n. go gs u)

-- In a page as the chat receives it, the messages that one sender put into one album stand in the
-- order of their attachment indices.
pub to_domain-InOrder :
    (json : JsonApi) (d : MessageDto json) (sender batch : String)
    → InOrder (album sender batch ((to_domain json d).messages))
unfolding to_domain places positions_of
to_domain-InOrder json d s b =
    let ms = items json d in
    let gs = collect 0 ms [] in
    let whole = collect_whole ms in
    let same = flags_reorder s b gs ms whole.1 (collect-Uniform [] ms 0 [] refl tt) in
    let found = positions_of-collect s b ms 0 [] in
    let shown =
      ap (λ ps. gather ps (reorder gs ms)) (found ∙ ap (places 0) (sym same))
      ∙ gather-places s b [] (reorder gs ms) 0 refl in
    subst InOrder shown
      (InOrder-positions_of s b gs (reorder gs ms) (reorder-Sorted gs ms whole.0 whole.1))

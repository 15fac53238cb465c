-- ===== src/Chat/Wire/Batches/Order.antt =====
-- `MessageDto::toDomain` on all the albums of a page.
use chatdesktop.Prelude.{
  ℕ, suc, ◌+◌, ◌<◌, ◌≡◌, ◌≢◌, refl, sym, ◌∙◌, subst, String, ◌&&◌, List, [], ◌∷◌, ◌++◌, map, length,
  All, All-map, All-append, str_eq, if_elim, arith,
}
use chatdesktop.Chat.Entity.{MessageItem}
use chatdesktop.Chat.Wire.{JsonApi, in_batch, MessageDto, item_to_domain}
use chatdesktop.Chat.Wire.Batches.{
  Batch, add_position, collect, gather, stable_sort, scatter, reorder, to_domain,
}
use chatdesktop.Chat.Wire.Batches.Places.{
  Apart, Distinct, length-gather, length-scatter, gather-scatter, gather-scatter_other,
}
use chatdesktop.Chat.Wire.Batches.Sorting.{
  InOrder, stable_sort-InOrder, length-stable_sort, total, total-stable_sort, total-scatter,
}

abbrev pub Below : ℕ → List ℕ → Type 0
Below n ps = All (λ p. p < n) ps

abbrev pub Bound : ℕ → List Batch → Type 0
Bound n gs = All (λ (g : Batch). Below n g.positions) gs

-- No position stands twice.
abbrev pub Parted : List Batch → Type 0
Parted [] = Unit
Parted (g ∷ gs) =
    Distinct g.positions
    × All (λ (h : Batch). All (λ q. Apart q h.positions) g.positions) gs
    × Parted gs

add_position-All :
    (P : List ℕ → Type 0) (s b : String) (i : ℕ) (gs : List Batch)
    → P (i ∷ [])
    → ((ps : List ℕ) → P ps → P (ps ++ (i ∷ [])))
    → All (λ (g : Batch). P g.positions) gs
    → All (λ (g : Batch). P g.positions) (add_position s b i gs)
unfolding add_position
add_position-All P s b i [] one more h = (one, tt)
add_position-All P s b i (g ∷ gs) one more (h, hs) =
    if_elim (All (λ (g : Batch). P g.positions)) (str_eq g.sender_id s && str_eq g.batch_id b)
      (λ e. (more g.positions h, hs)) (λ e. (h, add_position-All P s b i gs one more hs))

Below-suc : (n : ℕ) (ps : List ℕ) → Below n ps → Below (suc n) ps
Below-suc n ps h = All-map ps (λ p l. omega arith) h

Bound-add_position :
    (s b : String) (i : ℕ) (gs : List Batch) → Bound i gs → Bound (suc i) (add_position s b i gs)
Bound-add_position s b i gs h =
    add_position-All (Below (suc i)) s b i gs (omega arith, tt)
      (λ ps l. All-append (λ p. p < suc i) ps (i ∷ []) l (omega arith, tt))
      (All-map gs (λ g l. Below-suc i g.positions l) h)

Below-Apart : (i : ℕ) (ps : List ℕ) → Below i ps → Apart i ps
Below-Apart i ps h = All-map ps (λ p l. omega arith) h

Distinct-snoc : (i : ℕ) (ps : List ℕ) → Below i ps → Distinct ps → Distinct (ps ++ (i ∷ []))
Distinct-snoc i [] h d = (tt, tt)
Distinct-snoc i (p ∷ ps) (h, hs) (d, ds) =
    (All-append (λ q. q ≢ p) ps (i ∷ []) d (omega arith, tt), Distinct-snoc i ps hs ds)

-- A position above all others is apart from every batch.
Apart-snoc :
    (i : ℕ) (ps : List ℕ)
    → Below i ps
    → (hs : List ℕ) → All (λ q. Apart q hs) ps
    → All (λ q. Apart q (hs ++ (i ∷ []))) ps
Apart-snoc i [] l hs a = tt
Apart-snoc i (p ∷ ps) (l, ls) hs (a, bs) =
    (All-append (λ q. q ≢ p) hs (i ∷ []) a (omega arith, tt), Apart-snoc i ps ls hs bs)

Parted-add_position :
    (s b : String) (i : ℕ) (gs : List Batch)
    → Bound i gs
    → Parted gs
    → Parted (add_position s b i gs)
unfolding add_position
Parted-add_position s b i [] l p = ((tt, tt), tt, tt)
Parted-add_position s b i (g ∷ gs) (l, ls) (d, a, p) =
    if_elim Parted (str_eq g.sender_id s && str_eq g.batch_id b)
      (λ e. (Distinct-snoc i g.positions l d, apart_all gs ls a, p))
      (λ e. (
        d,
        add_position-All (λ hs. All (λ q. Apart q hs) g.positions) s b i gs
            (All-map g.positions (λ q k. (omega arith, tt)) l)
            (λ hs k. Apart-snoc i g.positions l hs k) a,
        Parted-add_position s b i gs ls p,
      ))
  where
    apart_all :
        (hs : List Batch)
        → Bound i hs
        → All (λ (h : Batch). All (λ q. Apart q h.positions) g.positions) hs
        → All (λ (h : Batch). All (λ q. Apart q h.positions) (g.positions ++ (i ∷ []))) hs
    apart_all [] k a = tt
    apart_all (h ∷ hs) (k, ks) (a, bs) = (
      All-append (λ q. Apart q h.positions) g.positions (i ∷ []) a
          (Below-Apart i h.positions k, tt),
      apart_all hs ks bs,
    )

add_zero : (i : ℕ) → i + 0 ≡ i
add_zero i = omega arith

pub add_suc : (i n : ℕ) → i + suc n ≡ suc i + n
add_suc i n = omega arith

collect_lem :
    (ms : List MessageItem) (i : ℕ) (gs : List Batch)
    → Bound i gs
    → Parted gs
    → Bound (i + length ms) (collect i ms gs) × Parted (collect i ms gs)
unfolding collect
collect_lem [] i gs l p = (rw (add_zero i) l, p)
collect_lem (m ∷ ms) i gs l p = rw (add_suc i (length ms)) (
    if_elim
      (λ hs. Bound (suc i + length ms) (collect (suc i) ms hs) × Parted (collect (suc i) ms hs))
      (in_batch m.body.attachment_batch_id m.body.attachment_index)
      (λ e.
        collect_lem ms (suc i) (add_position m.sender_id m.body.attachment_batch_id i gs)
          (Bound-add_position m.sender_id m.body.attachment_batch_id i gs l)
          (Parted-add_position m.sender_id m.body.attachment_batch_id i gs l p))
      (λ e. collect_lem ms (suc i) gs (All-map gs (λ g k. Below-suc i g.positions k) l) p))

pub zero_add : (n : ℕ) → 0 + n ≡ n
zero_add n = omega arith

pub collect_whole :
    (ms : List MessageItem) → Bound (length ms) (collect 0 ms []) × Parted (collect 0 ms [])
collect_whole ms =
    let h = collect_lem ms 0 [] tt tt in
    (subst (λ n. Bound n (collect 0 ms [])) (zero_add (length ms)) h.0, h.1)

-- What one batch's messages become.
scatter_sorted-total :
    (f : MessageItem → ℕ) (ps : List ℕ) (ms : List MessageItem)
    → Distinct ps
    → Below (length ms) ps
    → total f (scatter ps (stable_sort (gather ps ms)) ms) ≡ total f ms
scatter_sorted-total f ps ms d b =
    let vs = stable_sort (gather ps ms) in
    let sorted = total-stable_sort f (gather ps ms) in
    let moved =
      total-scatter f ps vs ms d b (length-stable_sort (gather ps ms) ∙ length-gather ps ms) in
    omega (arith, sorted, moved)

-- The messages that each batch has.
abbrev pub Sorted : List Batch → List MessageItem → Type 0
Sorted gs ms = All (λ (g : Batch). InOrder (gather g.positions ms)) gs

reorder-total :
    (f : MessageItem → ℕ) (gs : List Batch) (ms : List MessageItem)
    → Bound (length ms) gs
    → Parted gs
    → total f (reorder gs ms) ≡ total f ms
unfolding reorder
reorder-total f [] ms b p = refl
reorder-total f (g ∷ gs) ms (b, bs) (d, a, p) =
    reorder-total f gs (scatter g.positions (stable_sort (gather g.positions ms)) ms)
      (rw (length-scatter g.positions (stable_sort (gather g.positions ms)) ms) bs) p
    ∙ scatter_sorted-total f g.positions ms d b

-- A batch that shares no position with others reads as before.
gather-reorder :
    (gs : List Batch) (ps : List ℕ) (ms : List MessageItem)
    → All (λ (h : Batch). All (λ q. Apart q h.positions) ps) gs
    → gather ps (reorder gs ms) ≡ gather ps ms
unfolding reorder
gather-reorder [] ps ms a = refl
gather-reorder (g ∷ gs) ps ms (a, bs) =
    gather-reorder gs ps (scatter g.positions (stable_sort (gather g.positions ms)) ms) bs
    ∙ gather-scatter_other ps g.positions (stable_sort (gather g.positions ms)) ms a

pub reorder-Sorted :
    (gs : List Batch) (ms : List MessageItem)
    → Bound (length ms) gs
    → Parted gs
    → Sorted gs (reorder gs ms)
unfolding reorder
reorder-Sorted [] ms b p = tt
reorder-Sorted (g ∷ gs) ms (b, bs) (d, a, p) =
    let vs = stable_sort (gather g.positions ms) in
    let next = scatter g.positions vs ms in
    let own =
      gather-reorder gs g.positions next a
      ∙ gather-scatter g.positions vs ms d b
          (length-stable_sort (gather g.positions ms) ∙ length-gather g.positions ms) in
    (
      subst InOrder (sym own) (stable_sort-InOrder (gather g.positions ms)),
      reorder-Sorted gs next (rw (length-scatter g.positions vs ms) bs) p,
    )

module _ (json : JsonApi) (d : MessageDto json) where
  abbrev pub items : List MessageItem
  items = map (item_to_domain json) d.messages

  -- A page brings exactly its messages to the chat, each as often as it came: a sum over them, of
  -- whatever is read of a message, is the same before and after the albums are ordered.
  pub total-to_domain :
      (f : MessageItem → ℕ) → total f ((to_domain json d).messages) ≡ total f items
  unfolding to_domain
  total-to_domain f =
      let h = collect_whole items in reorder-total f (collect 0 items []) items h.0 h.1

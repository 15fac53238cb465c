-- ===== src/Chat/Wire/Batches.antt =====
-- src/features/chat/data/dto/message_payload_dto.hpp: `MessageDto::toDomain`, which brings the
-- messages of an album into the order they were chosen in.
mod Places
mod Sorting
mod Order
mod Keys
mod Albums
mod Examples
use chatdesktop.Prelude.{
  ℕ, zero, suc, ℤ, lt, String, Bool, ◌&&◌, List, [], ◌∷◌, ◌++◌, map, get_or, str_eq, if◌then◌else◌,
}
use chatdesktop.Chat.Entity.{MessageItem, MessageResponse, no_message}
use chatdesktop.Chat.Wire.{JsonApi, in_batch, MessageDto, item_to_domain}

-- An entry of `batches`: where the messages of one sender's batch stand.
pub record Batch : Type 0 where
  pub sender_id : String
  pub batch_id : String
  pub positions : List ℕ

unfoldable pub add_position : String → String → ℕ → List Batch → List Batch
add_position sender batch i [] =
    record { sender_id = sender; batch_id = batch; positions = i ∷ [] } ∷ []
add_position sender batch i (g ∷ gs) =
    let rest = add_position sender batch i gs in
    if str_eq g.sender_id sender && str_eq g.batch_id batch
    then record g { positions = g.positions ++ (i ∷ []) } ∷ gs
    else g ∷ rest

unfoldable pub collect : ℕ → List MessageItem → List Batch → List Batch
collect i [] gs = gs
collect i (m ∷ ms) gs = collect (suc i) ms (
    if in_batch m.body.attachment_batch_id m.body.attachment_index
    then add_position m.sender_id m.body.attachment_batch_id i gs
    else gs)

unfoldable pub gather : List ℕ → List MessageItem → List MessageItem
gather [] ms = []
gather (p ∷ ps) ms = get_or ms p no_message ∷ gather ps ms

-- `std::stable_sort` by the index: what is equal keeps its order.
unfoldable pub insert_stable : MessageItem → List MessageItem → List MessageItem
insert_stable m [] = m ∷ []
insert_stable m (n ∷ ns) =
    let rest = insert_stable m ns in
    if lt n.body.attachment_index m.body.attachment_index then n ∷ rest else m ∷ (n ∷ ns)

unfoldable pub stable_sort : List MessageItem → List MessageItem
stable_sort [] = []
stable_sort (m ∷ ms) = insert_stable m (stable_sort ms)

unfoldable pub set_at : List MessageItem → ℕ → MessageItem → List MessageItem
set_at [] p v = []
set_at (m ∷ ms) zero v = v ∷ ms
set_at (m ∷ ms) (suc p) v = m ∷ set_at ms p v

unfoldable pub scatter : List ℕ → List MessageItem → List MessageItem → List MessageItem
scatter [] vs ms = ms
scatter (p ∷ ps) [] ms = ms
scatter (p ∷ ps) (v ∷ vs) ms = scatter ps vs (set_at ms p v)

unfoldable pub reorder : List Batch → List MessageItem → List MessageItem
reorder [] ms = ms
reorder (g ∷ gs) ms = reorder gs (scatter g.positions (stable_sort (gather g.positions ms)) ms)

unfoldable pub to_domain : (json : JsonApi) → MessageDto json → MessageResponse
to_domain json d =
    let ms = map (item_to_domain json) d.messages in
    record {
      messages = reorder (collect 0 ms []) ms;
      page = d.page;
      limit = d.limit;
      total = d.total;
      total_pages = d.total_pages;
    }

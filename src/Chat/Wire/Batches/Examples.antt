-- ===== src/Chat/Wire/Batches/Examples.antt =====
-- A page with two messages of an album in the wrong order.
use chatdesktop.Prelude.{◌≡◌, refl, String, ℤ, pos, negsuc, List, [], ◌∷◌}
use chatdesktop.Chat.Entity.{MessageItem}
use chatdesktop.Chat.Wire.{MessageItemDto, MessageDto, item_to_domain, payload_to_domain}
use chatdesktop.Chat.Wire.SmallJson.{json, picture}
use chatdesktop.Chat.Wire.Batches.{
  add_position, collect, gather, insert_stable, stable_sort, set_at, scatter, reorder, to_domain,
}
use chatdesktop.Chat.Wire.Batches.Sorting.{InOrder, total}
use chatdesktop.Chat.Wire.Batches.Albums.{album, to_domain-InOrder}
use chatdesktop.Chat.Wire.Batches.Order.{items, total-to_domain}

abbrev with_index : String → ℤ → MessageItemDto json
with_index id i = record {
  id = id;
  sender_id = "u1";
  recipient_id = "u2";
  body = record (picture json) { message_id = id; attachment_index = i };
  sent_at = "";
}

abbrev two_pictures : MessageDto json
two_pictures = record {
  messages = with_index "b" (pos 1) ∷ (with_index "x" (negsuc 0) ∷ (with_index "a" (pos 0) ∷ []));
  page = pos 1;
  limit = pos 20;
  total = pos 3;
  total_pages = pos 1;
}

abbrev ids : List MessageItem → List String
ids [] = []
ids (m ∷ ms) = m.id ∷ ids ms

album_reordered : ids (to_domain json two_pictures).messages ≡ "a" ∷ ("x" ∷ ("b" ∷ []))
unfolding to_domain collect add_position reorder scatter set_at gather stable_sort insert_stable
    item_to_domain payload_to_domain
album_reordered = refl

total-to_domain_example :
    total (λ m. 1) ((to_domain json two_pictures).messages)
    ≡ total (λ m. 1) (items json two_pictures)
total-to_domain_example = total-to_domain json two_pictures (λ m. 1)

to_domain-InOrder_example : InOrder (album "u1" "b1" ((to_domain json two_pictures).messages))
to_domain-InOrder_example = to_domain-InOrder json two_pictures "u1" "b1"

-- ===== src/Chat/MessageList.antt =====
-- The list model of src/features/chat/presentation/viewmodel/messaging_vm.cpp: the messages shown, with
-- a display date and a section for each, and what its operations do to them.
-- The date formatting is a parameter. The row signals of `QAbstractListModel` go to a log.
pub mod Operations
pub mod Rows
pub mod Refresh
pub mod Laws
pub mod History
use chatdesktop.Prelude.{
  ℕ, zero, suc, ◌+◌, ◌-◌, ◌%◌, ◌^◌, ℤ, pos, negsuc, succ, lt, le, String, Bool, true, false, not,
  ◌&&◌, ◌||◌, Option, none, some, List, [], ◌∷◌, ◌++◌, map, length, drop, take, get_elem?, str_eq,
  is_empty, ltb, ◌==◌, if◌then◌else◌,
}
use chatdesktop.Chat.Entity.{MessageItem, MessageResponse}

pub data Signal : Type 0 where
  rows_inserted : ℕ → ℕ → Signal
  rows_removed : ℕ → ℕ → Signal
  row_moved : ℕ → ℕ → Signal
  data_changed : ℕ → Signal
  -- `endResetModel`, with the row count that the views then read.
  model_reset : ℕ → Signal
  message_changed initial_messages_loaded is_loading_changed image_urls_changed : Signal
  older_messages_loaded : ℕ → Signal

module _ {ℓ} {A : Type ℓ} where
  -- `QList::insert`, `remove`, `move` and assignment to an element, in range.
  abbrev pub insert_at : ℕ → A → List A → List A
  insert_at zero x xs = x ∷ xs
  insert_at (suc i) x [] = x ∷ []
  insert_at (suc i) x (y ∷ ys) = y ∷ insert_at i x ys

  abbrev pub remove_at : ℕ → List A → List A
  remove_at i [] = []
  remove_at zero (y ∷ ys) = ys
  remove_at (suc i) (y ∷ ys) = y ∷ remove_at i ys

  abbrev pub set_at : ℕ → A → List A → List A
  set_at i x [] = []
  set_at zero x (y ∷ ys) = x ∷ ys
  set_at (suc i) x (y ∷ ys) = y ∷ set_at i x ys

  abbrev move_found : ℕ → ℕ → List A → Option A → List A
  move_found from to xs none = xs
  move_found from to xs (some x) = insert_at to x (remove_at from xs)

  unfoldable pub move : ℕ → ℕ → List A → List A
  move from to xs = move_found from to xs (get_elem? xs from)

-- How dates are shown: `formateConversationDate` and `sectionForDate`, on one day.
pub record Dates : Type 0 where
  pub display_date : String → String
  pub section_for : String → String

-- The members of the view model that its list operations touch.
pub record MessagingVm : Type 0 where
  pub messages : List MessageItem
  pub page : ℤ
  pub limit : ℤ
  pub total : ℤ
  pub total_pages : ℤ
  pub display_dates : List String
  pub sections : List String
  pub active_conversation : String
  pub displayed_conversation : String
  pub fetch_request_id : ℕ
  pub loading : Bool
  pub image_urls : List String
  pub log : List Signal

abbrev pub emit : MessagingVm → Signal → MessagingVm
emit vm s = record vm { log = vm.log ++ (s ∷ []) }

unfoldable pub set_is_loading : MessagingVm → Bool → MessagingVm
set_is_loading vm true =
    if vm.loading then vm else emit (record vm { loading = true }) is_loading_changed
set_is_loading vm false =
    if vm.loading then emit (record vm { loading = false }) is_loading_changed else vm

-- `++m_fetchRequestId` on a `quint64`.
abbrev pub next_request : MessagingVm → ℕ
next_request vm = (vm.fetch_request_id + 1) % 2 ^ 64

-- The `while` loop: the first row from the start of `xs` with this id, or the number of rows.
abbrev pub find_row : String → List MessageItem → ℕ
find_row id [] = 0
find_row id (m ∷ ms) = let rest = find_row id ms in if str_eq m.id id then 0 else suc rest

-- The local path that an unchanged file keeps.
unfoldable pub carry_path : MessageItem → MessageItem → MessageItem
carry_path previous incoming =
    let new = incoming.body.content in
    let old = previous.body.content in
    if is_empty new.localpath && str_eq new.media_url old.media_url
    then record incoming {
      body = record incoming.body { content = record new { localpath = old.localpath } };
    }
    else incoming

abbrev carry_found : Option MessageItem → MessageItem → MessageItem
carry_found none incoming = incoming
carry_found (some previous) incoming = carry_path previous incoming

module _ (dates : Dates) where
  abbrev pub date_of : MessageItem → String
  date_of m = dates.display_date m.body.timestamp

  abbrev pub section_of : MessageItem → String
  section_of m = dates.section_for m.body.timestamp

  -- One row of the reconciling loop of `applyFetchedMessages`, the row it was found at given:
  -- a row the list lacks, a move of the row that it has, and the new contents of that row.
  unfoldable pub insert_row : ℕ → MessageItem → MessagingVm → MessagingVm
  insert_row row incoming vm =
      emit
        (record vm {
          messages = insert_at row incoming vm.messages;
          display_dates = insert_at row (date_of incoming) vm.display_dates;
          sections = insert_at row (section_of incoming) vm.sections;
        })
        (rows_inserted row row)

  unfoldable pub move_row : ℕ → ℕ → MessagingVm → MessagingVm
  move_row existing row vm =
      emit
        (record vm {
          messages = move existing row vm.messages;
          display_dates = move existing row vm.display_dates;
          sections = move existing row vm.sections;
        })
        (row_moved existing row)

  unfoldable pub refill_row : ℕ → MessageItem → MessagingVm → MessagingVm
  refill_row row incoming vm =
      emit
        (record vm {
          messages = set_at row (carry_found (get_elem? vm.messages row) incoming) vm.messages;
          display_dates = set_at row (date_of incoming) vm.display_dates;
          sections = set_at row (section_of incoming) vm.sections;
        })
        (data_changed row)

  unfoldable pub place : ℕ → ℕ → MessageItem → MessagingVm → MessagingVm
  place existing row incoming vm =
      if existing == length vm.messages
      then insert_row row incoming vm
      else refill_row row incoming (if existing == row then vm else move_row existing row vm)

  unfoldable pub reconcile : ℕ → List MessageItem → MessagingVm → MessagingVm
  reconcile row [] vm = vm
  reconcile row (incoming ∷ is) vm =
      reconcile (suc row) is
        (place (row + find_row incoming.id (drop row vm.messages)) row incoming vm)

  -- The rows past the incoming ones go.
  unfoldable pub truncate : ℕ → MessagingVm → MessagingVm
  truncate n vm =
      if ltb n (length vm.messages)
      then emit
          (record vm {
            messages = take n vm.messages;
            display_dates = take n vm.display_dates;
            sections = take n vm.sections;
          })
          (rows_removed n (length vm.messages - 1))
      else vm

  abbrev pub set_page : MessagingVm → MessageResponse → MessagingVm
  set_page vm r = record vm {
    page = r.page;
    limit = r.limit;
    total = r.total;
    total_pages = r.total_pages;
  }

  -- The reset of the model when the conversation was not the one on display.
  unfoldable pub show_page : MessageResponse → MessagingVm → MessagingVm
  show_page r vm =
      emit
        (record (set_page vm r) {
          messages = r.messages;
          display_dates = map date_of r.messages;
          sections = map section_of r.messages;
          displayed_conversation = vm.active_conversation;
        })
        (model_reset (length r.messages))

  unfoldable pub apply_fetched_messages : MessageResponse → ℕ → MessagingVm → MessagingVm
  apply_fetched_messages r request_id vm =
      if not (request_id == vm.fetch_request_id)
      then vm
      else if str_eq vm.displayed_conversation vm.active_conversation
          && not (is_empty vm.displayed_conversation)
      then emit
          (set_is_loading (set_page (truncate (length r.messages) (reconcile 0 r.messages vm)) r)
            false)
          message_changed
      else emit (emit (set_is_loading (show_page r vm) false) initial_messages_loaded)
          message_changed

-- ===== src/Storage/Examples.antt =====
-- The theorems on the record store at a concrete device, with a cipher that only appends a tag.
use chatdesktop.Prelude.{
  ℕ, ◌+◌, ◌-◌, ◌^◌, ◌<◌, ◌≡◌, ◌≢◌, refl, ap, sym, ◌∙◌, true, false, not, ◌&&◌, is_some, none, some,
  List, [], ◌∷◌, ◌++◌, length, take, replicate, take_append, length-append, ◌==◌, if◌then◌else◌,
  arith, subst, inl, ◌⊎◌,
}
use chatdesktop.Storage.Bytes.{Bytes, w32, w64, r32, r64}
use chatdesktop.Storage.Device.{
  Crypto, written, torn, World, Device, ok, encode_block, decode_block, write_block, stored_block,
  calm, err, read_failed, aead_decrypt, subkey, open_block,
}
use chatdesktop.Storage.Device.Laws.{IsSane, blk, Wrote, write_block-Wrote, decode-encode}
use chatdesktop.Storage.Maps.{lookup, bytes_key}
use chatdesktop.Storage.Records.{
  Pool, Store, alloc_many, chunks, get, insert, update, remove, drop_roots, write_chain,
}
use chatdesktop.Storage.Records.Directory.{serialize_roots, serialize_entries, parse_roots}
use chatdesktop.Storage.Records.Chains.{count, slot, alloc_many_exact, Ends}
use chatdesktop.Storage.Records.Writing.{write_chain-Ends, Chained, Aborted}
use chatdesktop.Storage.Contents.{Entry, Represents, Settles, content, find_entry}
use chatdesktop.Storage.Api.{
  get_total, get-insert, get-update, get-remove, get-update_atomic, get-remove_atomic, Removed,
}
use chatdesktop.Storage.DirectoryLaws.{parse-serialize_roots}

abbrev tag_bytes : Bytes
tag_bytes = replicate 16 0

untag : Bytes → Bytes
untag sealed = take (length sealed - 16) sealed

opens :
    (plain : Bytes) {sealed : Bytes}
    → some (plain ++ tag_bytes) ≡ some sealed
    → some (untag sealed) ≡ some plain
unfolding untag
opens plain {sealed} e =
    let same : plain ++ tag_bytes ≡ sealed = cc in
    subst (λ (s : Bytes). some (take (length s - 16) s) ≡ some plain) same
      (let n : length (plain ++ tag_bytes) - 16 ≡ length plain =
          omega (arith, length-append plain tag_bytes) in
        rw (n, take_append plain tag_bytes) refl)

sealed_length :
    (plain : Bytes) {sealed : Bytes}
    → some (plain ++ tag_bytes) ≡ some sealed
    → length sealed ≡ length plain + 16
sealed_length plain {sealed} e =
    let same : plain ++ tag_bytes ≡ sealed = cc in
    ap length (sym same) ∙ length-append plain tag_bytes

abbrev crypto : Crypto
crypto = record {
  hmac = λ k m. some (replicate 32 0);
  gcm_encrypt = λ k iv ad plain. some (plain ++ tag_bytes);
  gcm_decrypt = λ k iv ad sealed. some (untag sealed);
  gcm_decrypt-encrypt = λ k iv ad plain e. opens plain e;
  length-gcm_encrypt = λ k iv ad plain e. sealed_length plain e;
}

abbrev w : World
w = record {
  crypto = crypto;
  key = replicate 32 7;
  block_size = 128;
  durable = false;
  outcomes = λ t. written (replicate 24 0);
  syncs = λ t. true;
  reads = λ t j. true;
}

same_nonce : (nonce : Bytes) → written (replicate 24 0) ≡ written nonce → replicate 24 0 ≡ nonce
same_nonce nonce e = cc

sane : IsSane w
sane = record {
  block_size_lower = omega arith;
  block_size_upper = omega arith;
  nonces = λ t nonce e. ap length (sym (same_nonce nonce e));
}

abbrev raw : Bytes
raw = replicate 24 0 ++ (encode_block w 1 7 0 (5 ∷ []) ++ tag_bytes)

abbrev dev : Device
dev = record { blocks = λ j. if j == 1 then some raw else none; clock = 0 }

raw_parses : stored_block w dev 1 ≡ ok (blk 1 7 0 (5 ∷ []))
unfolding stored_block open_block aead_decrypt subkey decode_block encode_block untag w32 w64 r32
    r64
raw_parses = refl

abbrev entry : Entry
entry = record { id = 1; tag = 7; conts = []; bytes = 5 ∷ [] }

abbrev store : Store
store = record {
  dev = dev;
  pool = record { free = []; nblocks = 1 };
  head = (1, record { tag = 7; next = 0 }) ∷ [];
  by_tag = (7, 1 ∷ []) ∷ [];
  roots = [];
  dir_id = 0;
  dir_dirty = false;
  is_open = true;
}

represents : Represents w store (entry ∷ [])
unfolding lookup
represents = record {
  stored = (((omega arith, raw_parses, refl), omega arith), tt);
  heads = λ j. ground arith;
  owned = λ i. ground arith;
  room = omega arith;
}

get_total_example :
    (get w store 1 ≡ ok (content (find_entry 1 (entry ∷ []))))
    ⊎ ((get w store 1 ≡ err read_failed) × ((k : ℕ) × (w.reads 0 k ≡ false)))
get_total_example = get_total w sane store (entry ∷ []) represents 1

room_for_one : 1 + chunks w 1 + 1 < 2 ^ 64
unfolding chunks
room_for_one = omega arith

room_for_directory : 1 + chunks w (length (serialize_roots (drop_roots 1 []))) + 1 < 2 ^ 64
unfolding chunks drop_roots serialize_roots serialize_entries w32
room_for_directory = omega arith

get-insert_example :
    Settles
      (λ id s'.
        (get (calm w) store id ≡ ok none)
        × ((j : ℕ)
            → get (calm w) s' j ≡ (if id == j then ok (some (9 ∷ [])) else get (calm w) store j))
        × ((n : List Entry) × Represents w s' n))
      (λ s'. ((j : ℕ) → get (calm w) s' j ≡ get (calm w) store j) × Represents w s' (entry ∷ []))
      (insert w (9 ∷ []) 3 store)
get-insert_example =
    get-insert w sane store (entry ∷ []) represents (9 ∷ []) 3 refl (omega arith) room_for_one

get-update_example :
    Settles
      (λ found s'.
        (found ≡ (not (1 == 0) && is_some (find_entry 1 (entry ∷ []))))
        × ((j : ℕ)
            → get (calm w) s' j
              ≡ (if found && (1 == j) then ok (some (9 ∷ [])) else get (calm w) store j))
        × ((n : List Entry) × Represents w s' n))
      (λ s'. Unit {0})
      (update w 1 (9 ∷ []) store)
get-update_example = get-update w sane store (entry ∷ []) represents 1 (9 ∷ []) room_for_one

get-remove_example :
    Settles
      (λ found s'.
        (found ≡ (not (1 == 0) && is_some (find_entry 1 (entry ∷ []))))
        × (found ≡ true → Removed w sane store (entry ∷ []) represents 1 s')
        × (found ≡ false → s' ≡ store))
      (λ s'. Unit {0})
      (remove w 1 store)
get-remove_example = get-remove w sane store (entry ∷ []) represents 1 (inl refl) room_for_directory

write_block-Wrote_example : Wrote w 1 (blk 1 7 0 (5 ∷ [])) dev (write_block w 1 1 7 0 (5 ∷ []) dev)
write_block-Wrote_example =
    write_block-Wrote w sane 1 1 7 0 (5 ∷ []) (omega arith) (omega arith) (omega arith)
      (omega arith) dev

decode-encode_example : decode_block w (encode_block w 1 7 0 (5 ∷ [])) ≡ ok (blk 1 7 0 (5 ∷ []))
decode-encode_example =
    decode-encode w 1 7 0 (5 ∷ []) (omega arith) (omega arith) (omega arith) (omega arith)
      (omega arith)

alloc_many_exact_example :
    (let p : Pool = record { free = 2 ∷ []; nblocks = 4 } in
      count 2 (alloc_many 3 p).0 + count 2 (alloc_many 3 p).1.free + slot 4 2
      ≡ 1 + slot (alloc_many 3 p).1.nblocks 2)
alloc_many_exact_example =
    alloc_many_exact 3 (record { free = 2 ∷ []; nblocks = 4 }) 2 (omega arith)

write_chain-Ends_example :
    Ends
      (Chained w sane 2 7 (3 ∷ []) (replicate 100 1) dev)
      (Aborted w sane 2 (3 ∷ []) dev)
      (write_chain w 2 (3 ∷ []) (replicate 100 1) 7 dev)
write_chain-Ends_example =
    write_chain-Ends w sane 2 7 (3 ∷ []) (replicate 100 1) dev (omega arith, omega arith)
      ((omega arith, omega arith), tt) (λ j. ground arith) (omega arith) (omega arith)

parse-serialize_roots_example :
    (loaded : List (Bytes × ℕ)) × (parse_roots (serialize_roots ((65 ∷ [], 1) ∷ [])) ≡ ok loaded)
    × ((name : Bytes) → lookup name loaded ≡ lookup name ((65 ∷ [], 1) ∷ []))
unfolding lookup
parse-serialize_roots_example =
    parse-serialize_roots ((65 ∷ [], 1) ∷ []) (omega arith, omega arith, refl, tt) (omega arith)

no_tear : (nonce left : Bytes) → written (replicate 24 0) ≢ torn nonce (some left)
no_tear nonce left e = cc

get-update_atomic_example :
    Settles
      (λ found s'.
        (j : ℕ)
        → get (calm w) s' j
          ≡ (if found && (1 == j) then ok (some (9 ∷ [])) else get (calm w) store j))
      (λ s'. (j : ℕ) → get (calm w) s' j ≡ get (calm w) store j)
      (update w 1 (9 ∷ []) store)
get-update_atomic_example =
    get-update_atomic w sane store (entry ∷ []) represents (λ t nonce left. no_tear nonce left) refl
      1 (9 ∷ []) room_for_one

get-remove_atomic_example :
    Settles
      (λ found s'. found ≡ (not (1 == 0) && is_some (find_entry 1 (entry ∷ []))))
      (λ s'. (j : ℕ) → (j == 1) ≡ false → get (calm w) s' j ≡ get (calm w) store j)
      (remove w 1 store)
get-remove_atomic_example =
    get-remove_atomic w sane store (entry ∷ []) represents (λ t nonce left. no_tear nonce left) refl
      1 (inl refl) room_for_directory

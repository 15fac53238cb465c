-- ===== src/Storage/Device.antt =====
-- Block I/O of src/core/storage/local_storage.cpp: geometry, sealing, `writeBlock` and `readBlock`.
-- The file is seen block by block: `pwriteFull` and `preadFull` move whole blocks of `bs` bytes at
-- `blockOffset`, and those ranges are disjoint. Randomness, OpenSSL and the outcome of the system
-- calls are parameters; `clock` counts the writes and syncs so far.
pub mod Laws
use chatdesktop.Prelude.{
  ℕ, suc, ◌+◌, ◌-◌, ◌*◌, ◌≡◌, refl, ◌⊎◌, inl, inr, Bool, true, false, ◌||◌, Option, none, some,
  List, [], ◌∷◌, ◌++◌, ltb, ◌==◌, if◌then◌else◌, length, take, drop, replicate,
}
use chatdesktop.Storage.Bytes.{Bytes, w32, w64, r32, r64}

-- What the code throws, one name for each message.
pub data Error : Type 0 where
  read_failed write_failed sync_failed random_failed hmac_failed encryption_failed : Error
  authentication_failed malformed_block chain_loop unexpected_type : Error
  reserved_tag not_open no_such_record corrupt_directory missing_directory broken_chain : Error

pub data Result {ℓ} (A : Type ℓ) : Type ℓ where
  ok : A → Result A
  err : Error → Result A

infixl 5 ◌>>=◌
abbrev pub ◌>>=◌ {ℓ κ} : {A : Type ℓ} {B : Type κ} → Result A → (A → Result B) → Result B
ok a >>= f = f a
err e >>= f = err e

abbrev pub or_throw {ℓ} : {A : Type ℓ} → Option A → Error → Result A
or_throw none e = err e
or_throw (some a) e = ok a

-- `HMAC(EVP_sha256(), …)` and AES-256-GCM of OpenSSL. A result of `gcm_encrypt` is the ciphertext
-- followed by the tag; `none` is a call that failed or a tag that does not match.
pub record Crypto : Type 0 where
  pub hmac : Bytes → Bytes → Option Bytes
  pub gcm_encrypt : Bytes → Bytes → Bytes → Bytes → Option Bytes
  pub gcm_decrypt : Bytes → Bytes → Bytes → Bytes → Option Bytes
  pub gcm_decrypt-encrypt :
      (key iv ad plain : Bytes) {sealed : Bytes}
      → gcm_encrypt key iv ad plain ≡ some sealed
      → gcm_decrypt key iv ad sealed ≡ some plain
  pub length-gcm_encrypt :
      (key iv ad plain : Bytes) {sealed : Bytes}
      → gcm_encrypt key iv ad plain ≡ some sealed
      → length sealed ≡ length plain + 16

-- One `writeBlock`: it draws this nonce and all bytes reach the file; it draws one and the write
-- fails, perhaps after it changed the block; or there is no randomness.
pub data Outcome : Type 0 where
  written : Bytes → Outcome
  torn : Bytes → Option Bytes → Outcome
  no_random : Outcome

-- The members that only opening a store sets, and the environment. `outcomes` and `syncs` go by the
-- number of the write or sync; `reads t j` tells whether `preadFull` of block `j` gives its bytes
-- after `t` of them; a read that is repeated before the next write or sync ends in the same way.
pub record World : Type 0 where
  pub crypto : Crypto
  pub key : Bytes
  pub block_size : ℕ
  pub durable : Bool
  pub outcomes : ℕ → Outcome
  pub syncs : ℕ → Bool
  pub reads : ℕ → ℕ → Bool

abbrev pub nonce_size : ℕ
nonce_size = 24

abbrev pub tag_size : ℕ
tag_size = 16

abbrev pub block_header : ℕ
block_header = 17

-- The file's blocks by number, and the number of writes and syncs so far.
pub record Device : Type 0 where
  pub blocks : ℕ → Option Bytes
  pub clock : ℕ

-- A block as `readBlock` gives it; `data` is its `used` bytes.
pub record Blk : Type 0 where
  pub type : ℕ
  pub tag : ℕ
  pub next : ℕ
  pub data_bytes : Bytes

-- An exception leaves what was written before it.
pub data Run {ℓ} (S : Type 0) (A : Type ℓ) : Type ℓ where
  done : A → S → Run S A
  fail : Error → S → Run S A

abbrev pub and_then {ℓ κ} :
    {S : Type 0} {A : Type ℓ} {B : Type κ} → Run S A → (A → S → Run S B) → Run S B
and_then (done a s) k = k a s
and_then (fail e s) k = fail e s

pub Result-cases {ℓ} :
    {A : Type ℓ} (r : Result A) → ((a : A) × (r ≡ ok a)) ⊎ ((e : Error) × (r ≡ err e))
Result-cases (ok a) = inl (a, refl)
Result-cases (err e) = inr (e, refl)

-- `aeadEncrypt` and `aeadDecrypt`, with `subkey` inlined as in the code's first step.
abbrev zero_iv : Bytes
zero_iv = replicate 12 0

unfoldable pub subkey : Crypto → Bytes → Bytes → Result Bytes
subkey c key nonce = do
  out ← or_throw (c.hmac key nonce) hmac_failed
  if length out == 32 then ok out else err hmac_failed

unfoldable pub aead_encrypt : Crypto → Bytes → Bytes → Bytes → Bytes → Result Bytes
aead_encrypt c key nonce ad plain = do
  sk ← subkey c key nonce
  or_throw (c.gcm_encrypt sk zero_iv ad plain) encryption_failed

-- `false` is `none`; the subkey may still throw.
unfoldable pub aead_decrypt : Crypto → Bytes → Bytes → Bytes → Bytes → Result (Option Bytes)
aead_decrypt c key nonce ad sealed =
    if ltb (length sealed) tag_size
    then ok none
    else do sk ← subkey c key nonce; ok (c.gcm_decrypt sk zero_iv ad sealed)

module _ (w : World) where
  -- `setGeometry`: plaintext bytes and data bytes per block.
  abbrev pub plain_size : ℕ
  plain_size = w.block_size - nonce_size - tag_size

  abbrev pub cap : ℕ
  cap = plain_size - block_header

  abbrev pub block_offset : ℕ → ℕ
  block_offset id = w.block_size + (id - 1) * w.block_size

  -- The plaintext of a block: header, data, zeros.
  unfoldable pub encode_block : ℕ → ℕ → ℕ → Bytes → Bytes
  encode_block type tag next data_bytes =
      type
      ∷ (w32 tag
          ++ (w64 next
              ++ (w32 (length data_bytes)
                  ++ (data_bytes ++ replicate (cap - length data_bytes) 0))))

  unfoldable pub decode_block : Bytes → Result Blk
  decode_block [] = err malformed_block
  decode_block (type ∷ rest) =
      let used = r32 (drop 12 rest) in
      if ltb 2 type || ltb cap used
      then err malformed_block
      else ok (record {
        type = type;
        tag = r32 rest;
        next = r64 (drop 4 rest);
        data_bytes = take used (drop 16 rest);
      })

  abbrev tick : Device → Device
  tick d = record d { clock = suc d.clock }

  -- The block's content afterwards, if the write changed it.
  unfoldable pub put_block : Device → ℕ → Option Bytes → Device
  put_block d id none = tick d
  put_block d id (some raw) = record {
    blocks = λ j. if j == id then some raw else d.blocks j;
    clock = suc d.clock;
  }

  seal_and_write : Device → ℕ → Bytes → Result Bytes → Option (Option Bytes) → Run Device (Unit {0})
  unfolding put_block
  seal_and_write d id nonce (err e) cut = fail e (tick d)
  seal_and_write d id nonce (ok sealed) none = done tt (put_block d id (some (nonce ++ sealed)))
  seal_and_write d id nonce (ok sealed) (some left) = fail write_failed (put_block d id left)

  unfoldable pub write_block : ℕ → ℕ → ℕ → ℕ → Bytes → Device → Run Device (Unit {0})
  unfolding seal_and_write
  write_block id type tag next data_bytes d =
      let seal = λ (nonce : Bytes).
        aead_encrypt w.crypto w.key nonce (w64 id) (encode_block type tag next data_bytes) in
      elim (w.outcomes d.clock) [
        | no_random ↦ fail random_failed (tick d)
        | written nonce ↦ seal_and_write d id nonce (seal nonce) none
        | torn nonce left ↦ seal_and_write d id nonce (seal nonce) (some left)
      ]

  unfoldable pub open_block : ℕ → Bytes → Result Blk
  open_block id raw = do
    opened ← aead_decrypt w.crypto w.key (take nonce_size raw) (w64 id) (drop nonce_size raw)
    plain ← or_throw opened authentication_failed
    decode_block plain

  -- A block in the file, by what `readBlock` makes of it.
  unfoldable pub stored_block : Device → ℕ → Result Blk
  unfolding open_block
  stored_block d id = do
    raw ← or_throw (d.blocks id) read_failed
    if length raw == w.block_size then open_block id raw else err read_failed

  unfoldable pub read_block : Device → ℕ → Result Blk
  read_block d id = if w.reads d.clock id then stored_block d id else err read_failed

  unfoldable pub sync_fd : Device → Run Device (Unit {0})
  sync_fd d = if w.syncs d.clock then done tt (tick d) else fail sync_failed (tick d)

-- The same store where no read fails.
abbrev pub with_reads : (ℕ → ℕ → Bool) → World → World
with_reads reads w = record w { reads = reads }

abbrev pub calm : World → World
calm w = with_reads (λ t id. true) w

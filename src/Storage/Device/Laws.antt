-- ===== src/Storage/Device/Laws.antt =====
-- What reading gives after a write, at the block written and at every other.
use chatdesktop.Prelude.{
  ℕ, ◌+◌, ◌-◌, ◌^◌, ◌≤◌, ◌<◌, ◌≡◌, refl, ◌≢◌, ◌++◌, arith, length, take, drop, replicate,
  length-append, length-replicate, take_append, drop_append, some, none, true, false, Option, ◌==◌,
  ltb, inl, inr, Option-cases,
}
use chatdesktop.Storage.Bytes.{Bytes, w32, w64, r32-w32, r64-w64}
use chatdesktop.Storage.Device.{
  World, Device, Blk, Result, ok, err, Run, done, fail, Error, Outcome, written, torn, no_random,
  cap, plain_size, encode_block, decode_block, write_block, stored_block, put_block, seal_and_write,
  aead_encrypt, aead_decrypt, subkey, open_block, zero_iv, or_throw, nonce_size, Result-cases,
}

-- The geometry that `createHeader` and `loadHeader` accept, and nonces of the size asked for.
pub record IsSane (w : World) : Type 0 where
  pub block_size_lower : 128 ≤ w.block_size
  pub block_size_upper : w.block_size ≤ 2 ^ 20
  pub nonces : (t : ℕ) (nonce : Bytes) → w.outcomes t ≡ written nonce → length nonce ≡ 24

-- No write leaves a block half changed.
abbrev pub IsAtomic : World → Type 0
IsAtomic w = (t : ℕ) (nonce raw : Bytes) → w.outcomes t ≢ torn nonce (some raw)

abbrev pub blk : ℕ → ℕ → ℕ → Bytes → Blk
blk type tag next data_bytes = record {
  type = type;
  tag = tag;
  next = next;
  data_bytes = data_bytes;
}

module _ (w : World) where
  drop_tag : (t : ℕ) (n : ℕ) (r : Bytes) → drop 4 (w32 t ++ (w64 n ++ r)) ≡ w64 n ++ r
  unfolding w32
  drop_tag t n r = refl

  drop_next : (t n u : ℕ) (r : Bytes) → drop 12 (w32 t ++ (w64 n ++ (w32 u ++ r))) ≡ w32 u ++ r
  unfolding w32 w64
  drop_next t n u r = refl

  drop_used : (t n u : ℕ) (r : Bytes) → drop 16 (w32 t ++ (w64 n ++ (w32 u ++ r))) ≡ r
  unfolding w32 w64
  drop_used t n u r = refl

  -- For a type up to 2, a 32-bit tag, a 64-bit link and data that fit the block, the plaintext
  -- that `writeBlock` builds parses to the fields that it was built from.
  pub decode-encode :
      (type tag next : ℕ) (data_bytes : Bytes)
      → type ≤ 2
      → tag < 2 ^ 32
      → next < 2 ^ 64
      → length data_bytes ≤ cap w
      → cap w < 2 ^ 32
      → decode_block w (encode_block w type tag next data_bytes) ≡ ok (blk type tag next data_bytes)
  unfolding decode_block encode_block
  decode-encode type tag next data_bytes ht hg hn hd hc =
      let pad : Bytes = replicate (cap w - length data_bytes) 0 in
      let small : length data_bytes < 2 ^ 32 = omega arith in
      let e1 : ltb 2 type ≡ false = ground arith in
      let e2 : ltb (cap w) (length data_bytes) ≡ false = ground arith in
      rw (
        drop_next tag next (length data_bytes) (data_bytes ++ pad),
        drop_used tag next (length data_bytes) (data_bytes ++ pad),
        drop_tag tag next (w32 (length data_bytes) ++ (data_bytes ++ pad)),
        r32-w32 (length data_bytes) (data_bytes ++ pad) small,
        r32-w32 tag _ hg,
        r64-w64 next _ hn,
        take_append data_bytes pad,
        e1,
        e2,
      )

  length-encode_block :
      (type tag next : ℕ) (data_bytes : Bytes)
      → length data_bytes ≤ cap w
      → 128 ≤ w.block_size
      → length (encode_block w type tag next data_bytes) ≡ plain_size w
  unfolding encode_block w32 w64
  length-encode_block type tag next data_bytes h hb = omega (
    arith,
    length-append data_bytes (replicate (cap w - length data_bytes) 0),
    length-replicate {A = ℕ} (cap w - length data_bytes) 0,
  )

  -- What was sealed under a key, a nonce and associated data opens under the same.
  aead_decrypt-encrypt :
      (nonce ad plain sealed : Bytes)
      → aead_encrypt w.crypto w.key nonce ad plain ≡ ok sealed
      → (aead_decrypt w.crypto w.key nonce ad sealed ≡ ok (some plain))
        × (length sealed ≡ length plain + 16)
  unfolding aead_encrypt aead_decrypt
  aead_decrypt-encrypt nonce ad plain sealed e = elim (Result-cases (subkey w.crypto w.key nonce)) [
    | inr (x, bad) ↦ cc (rw bad at e)
    | inl (sk, good) ↦ elim (Option-cases (w.crypto.gcm_encrypt sk zero_iv ad plain)) [
      | inl stuck ↦ absurd (cc (rw (good, stuck) at e))
      | inr (c, sealing) ↦
          let same : c ≡ sealed = cc (rw (good, sealing) at e) in
          let len : length sealed ≡ length plain + 16 =
            w.crypto.length-gcm_encrypt sk zero_iv ad plain (rw same at sealing) in
          let opens : w.crypto.gcm_decrypt sk zero_iv ad sealed ≡ some plain =
            w.crypto.gcm_decrypt-encrypt sk zero_iv ad plain (rw same at sealing) in
          (rw (good, opens) (ground arith), len)
    ]
  ]

  pub stored_block-same :
      (d d' : Device) (j : ℕ) → d'.blocks j ≡ d.blocks j → stored_block w d' j ≡ stored_block w d j
  unfolding stored_block
  stored_block-same d d' j e = rw e

  read_sealed :
      (sane : IsSane w) (d : Device) (id : ℕ) (nonce sealed plain : Bytes) (b : Blk)
      → length nonce ≡ 24
      → length plain ≡ plain_size w
      → aead_encrypt w.crypto w.key nonce (w64 id) plain ≡ ok sealed
      → decode_block w plain ≡ ok b
      → stored_block w (put_block w d id (some (nonce ++ sealed))) id ≡ ok b
  unfolding stored_block open_block put_block
  read_sealed sane d id nonce sealed plain b hn hp he hb =
      let (opens, len) = aead_decrypt-encrypt nonce (w64 id) plain sealed he in
      let lower = sane.block_size_lower in
      let total : length (nonce ++ sealed) ≡ w.block_size =
        omega (arith, length-append nonce sealed) in
      let here : (id == id) ≡ true = ground arith in
      let whole : (length (nonce ++ sealed) == w.block_size) ≡ true = ground arith in
      let front : take nonce_size (nonce ++ sealed) ≡ nonce =
        rw (← hn) (take_append nonce sealed) in
      let back : drop nonce_size (nonce ++ sealed) ≡ sealed =
        rw (← hn) (drop_append nonce sealed) in
      rw (here, or_throw) (rw whole (rw (front, back, opens) hb))

  -- A block stays as it was, and so reads the same.
  abbrev pub Keeps : ℕ → Device → Device → Type 0
  Keeps id d d' = (j : ℕ) → (j == id) ≡ false → d'.blocks j ≡ d.blocks j

  -- The two ways in which writing block `id` can end.
  pub data Wrote (id : ℕ) (b : Blk) (d : Device) : Run Device (Unit {0}) → Type 0 where
    stored : {d' : Device} → stored_block w d' id ≡ ok b → Keeps id d d' → Wrote id b d (done tt d')
    lost :
        {d' : Device} {e : Error}
        → Keeps id d d'
        → (IsAtomic w → (j : ℕ) → d'.blocks j ≡ d.blocks j)
        → Wrote id b d (fail e d')

  put_block-Keeps : (d : Device) (id : ℕ) (left : Option Bytes) → Keeps id d (put_block w d id left)
  unfolding put_block
  put_block-Keeps d id none j e = refl
  put_block-Keeps d id (some raw) j e = rw e

  put_block-none : (d : Device) (id j : ℕ) → (put_block w d id none).blocks j ≡ d.blocks j
  unfolding put_block
  put_block-none d id j = refl

  module _ (sane : IsSane w) (id type tag next : ℕ) (data_bytes : Bytes) (ht : type ≤ 2)
      (hg : tag < 2 ^ 32) (hn : next < 2 ^ 64) (hd : length data_bytes ≤ cap w) where
    abbrev plain : Bytes
    plain = encode_block w type tag next data_bytes

    plain-decodes : decode_block w plain ≡ ok (blk type tag next data_bytes)
    plain-decodes =
        let upper = sane.block_size_upper in
        decode-encode type tag next data_bytes ht hg hn hd (omega arith)

    seal_and_write-Wrote :
        (d : Device) (nonce : Bytes)
        → w.outcomes d.clock ≡ written nonce
        → (r : Result Bytes) → aead_encrypt w.crypto w.key nonce (w64 id) plain ≡ r
        → Wrote id (blk type tag next data_bytes) d (seal_and_write w d id nonce r none)
    unfolding seal_and_write
    seal_and_write-Wrote d nonce o (ok sealed) e =
        stored
          (read_sealed sane d id nonce sealed plain _ (sane.nonces d.clock nonce o)
            (length-encode_block type tag next data_bytes hd sane.block_size_lower) e plain-decodes)
          (put_block-Keeps d id (some (nonce ++ sealed)))
    seal_and_write-Wrote d nonce o (err x) e = lost (λ j k. refl) (λ a j. refl)

    seal_and_write-torn :
        (d : Device) (nonce : Bytes) (left : Option Bytes)
        → w.outcomes d.clock ≡ torn nonce left
        → (r : Result Bytes)
        → Wrote id (blk type tag next data_bytes) d (seal_and_write w d id nonce r (some left))
    unfolding seal_and_write
    seal_and_write-torn d nonce none o (ok sealed) =
        lost (put_block-Keeps d id none) (λ a j. put_block-none d id j)
    seal_and_write-torn d nonce (some raw) o (ok sealed) =
        lost (put_block-Keeps d id (some raw)) (λ a j. absurd (a d.clock nonce raw o))
    seal_and_write-torn d nonce left o (err x) = lost (λ j k. refl) (λ a j. refl)

    write_block-split :
        (d : Device) (o : Outcome)
        → w.outcomes d.clock ≡ o
        → Wrote id (blk type tag next data_bytes) d (write_block w id type tag next data_bytes d)
    unfolding write_block
    write_block-split d (written nonce) e =
        rw (e, write_block) (seal_and_write-Wrote d nonce e _ refl)
    write_block-split d (torn nonce left) e =
        rw (e, write_block) (seal_and_write-torn d nonce left e _)
    write_block-split d no_random e = rw (e, write_block) (lost (λ j k. refl) (λ a j. refl))

    -- For a type up to 2, a 32-bit tag, a 64-bit link, data that fit the block and a geometry that
    -- opening accepts, `writeBlock` leaves every other block alone. If it returns, the block as it is
    -- in the file parses to what was written; if it throws and writes are atomic, no block changed.
    pub write_block-Wrote :
        (d : Device)
        → Wrote id (blk type tag next data_bytes) d (write_block w id type tag next data_bytes d)
    write_block-Wrote d = write_block-split d (w.outcomes d.clock) refl

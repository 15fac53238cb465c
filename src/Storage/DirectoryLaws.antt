-- ===== src/Storage/DirectoryLaws.antt =====
-- The directory of src/core/storage/local_storage.cpp: `loadDirectory` reads what `saveDirectoryLocked` wrote.
use chatdesktop.Prelude.{
  ℕ, ◌+◌, ◌<◌, ◌^◌, ◌≡◌, refl, none, List, [], ◌∷◌, ◌++◌, ltb, if◌then◌else◌, arith, length, drop,
  length-append, take_append, drop_append, false, is_some,
}
use chatdesktop.Storage.Bytes.{Bytes, w32, w64, r32-w32, r64-w64}
use chatdesktop.Storage.Device.{ok}
use chatdesktop.Storage.Maps.{bytes_key, bytes_eq_iff, lookup, insert_or_assign, lookup-insert}
use chatdesktop.Storage.Records.Directory.{
  serialize_entries, serialize_roots, parse_entries, parse_roots,
}

-- Sizes that fit the fields, and each name once.
abbrev pub IsDirectory : List (Bytes × ℕ) → Type 0
IsDirectory [] = Unit {0}
IsDirectory ((name, id) ∷ rs) =
    (length name < 2 ^ 32) × (id < 2 ^ 64) × (lookup name rs ≡ none) × IsDirectory rs

-- The map after the loop, from the entries read.
abbrev load : List (Bytes × ℕ) → List (Bytes × ℕ) → List (Bytes × ℕ)
load [] acc = acc
load ((name, id) ∷ rs) acc = load rs (insert_or_assign name id acc)

length-w32 : (v : ℕ) (rest : Bytes) → length (w32 v ++ rest) ≡ 4 + length rest
unfolding w32
length-w32 v rest = omega arith

length-w64 : (v : ℕ) (rest : Bytes) → length (w64 v ++ rest) ≡ 8 + length rest
unfolding w64
length-w64 v rest = omega arith

drop-w32 : (v : ℕ) (rest : Bytes) → drop 4 (w32 v ++ rest) ≡ rest
unfolding w32
drop-w32 v rest = refl

drop-w64 : (v : ℕ) (rest : Bytes) → drop 8 (w64 v ++ rest) ≡ rest
unfolding w64
drop-w64 v rest = refl

parse-serialize_entries :
    (rs acc : List (Bytes × ℕ))
    → IsDirectory rs
    → parse_entries (length rs) (serialize_entries rs) acc ≡ ok (load rs acc)
unfolding parse_entries serialize_entries
parse-serialize_entries [] acc h = refl
parse-serialize_entries ((name, id) ∷ rs) acc (hn, hi, _, hs) =
    let tail = serialize_entries rs in
    let after = name ++ (w64 id ++ tail) in
    let e1 : ltb (length (w32 (length name) ++ after)) 4 ≡ false =
      ground (arith, length-w32 (length name) after) in
    let e2 : ltb (length after) (length name + 8) ≡ false =
      ground (arith, length-append name (w64 id ++ tail), length-w64 id tail) in
    rw (e1, r32-w32 (length name) after hn, drop-w32 (length name) after)
      (rw
        (
          e2,
          take_append name (w64 id ++ tail),
          drop_append name (w64 id ++ tail),
          r64-w64 id tail hi,
          drop-w64 id tail,
        )
        (parse-serialize_entries rs (insert_or_assign name id acc) hs))

lookup-load :
    (rs acc : List (Bytes × ℕ)) (k : Bytes)
    → IsDirectory rs
    → lookup k (load rs acc) ≡ (if is_some (lookup k rs) then lookup k rs else lookup k acc)
unfolding lookup
lookup-load [] acc k h = refl
lookup-load ((name, id) ∷ rs) acc k (_, _, once, hs) = ground (
  arith,
  lookup-load rs (insert_or_assign name id acc) k hs,
  lookup-insert name k id acc,
  bytes_eq_iff name k,
)

-- For fewer than 2 ^ 32 roots with distinct names, each shorter than 2 ^ 32 bytes, and 64-bit
-- identifiers, loading the saved directory succeeds, and the roots it gives are those saved.
pub parse-serialize_roots :
    (rs : List (Bytes × ℕ))
    → IsDirectory rs
    → length rs < 2 ^ 32
    → (loaded : List (Bytes × ℕ)) × (parse_roots (serialize_roots rs) ≡ ok loaded)
      × ((name : Bytes) → lookup name loaded ≡ lookup name rs)
unfolding parse_roots serialize_roots lookup
parse-serialize_roots rs h hl = (
  load rs [],
  let e : ltb (length (w32 (length rs) ++ serialize_entries rs)) 4 ≡ false =
        ground (arith, length-w32 (length rs) (serialize_entries rs)) in
      rw
        (
          e,
          r32-w32 (length rs) (serialize_entries rs) hl,
          drop-w32 (length rs) (serialize_entries rs),
        )
        (parse-serialize_entries rs [] h),
  λ name. ground (arith, lookup-load rs [] name h),
)

-- ===== src/Storage/Records/Directory.antt =====
-- The directory record of src/core/storage/local_storage.cpp: the named roots as bytes, and back.
use chatdesktop.Prelude.{
  ℕ, zero, suc, ◌+◌, List, [], ◌∷◌, ◌++◌, ltb, if◌then◌else◌, length, take, drop,
}
use chatdesktop.Storage.Bytes.{Bytes, w32, w64, r32, r64}
use chatdesktop.Storage.Device.{Result, ok, err, corrupt_directory}
use chatdesktop.Storage.Maps.{bytes_key, insert_or_assign}

unfoldable pub serialize_entries : List (Bytes × ℕ) → Bytes
serialize_entries [] = []
serialize_entries ((name, id) ∷ rs) =
    w32 (length name) ++ (name ++ (w64 id ++ serialize_entries rs))

-- `saveDirectoryLocked`: the bytes that it stores.
unfoldable pub serialize_roots : List (Bytes × ℕ) → Bytes
serialize_roots rs = w32 (length rs) ++ serialize_entries rs

-- `loadDirectory` after the record is read: `need` before each read, entries into the map.
unfoldable pub parse_entries : ℕ → Bytes → List (Bytes × ℕ) → Result (List (Bytes × ℕ))
parse_entries zero p roots = ok roots
parse_entries (suc n) p roots =
    let len = r32 p in
    let after = drop 4 p in
    let rest =
      parse_entries n (drop 8 (drop len after))
        (insert_or_assign (take len after) (r64 (drop len after)) roots) in
    if ltb (length p) 4
    then err corrupt_directory
    else if ltb (length after) (len + 8)
    then err corrupt_directory
    else rest

unfoldable pub parse_roots : Bytes → Result (List (Bytes × ℕ))
parse_roots p =
    if ltb (length p) 4 then err corrupt_directory else parse_entries (r32 p) (drop 4 p) []

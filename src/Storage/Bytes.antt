-- ===== src/Storage/Bytes.antt =====
-- The little-endian helpers of src/core/storage/local_storage.cpp. A byte string is a list of numbers
-- below 256; `|=` of bytes shifted to disjoint places is their sum.
use chatdesktop.Prelude.{ℕ, ◌+◌, ◌*◌, ◌/◌, ◌%◌, ◌^◌, ◌<◌, ◌≡◌, List, [], ◌∷◌, ◌++◌, arith, get_or}

abbrev pub Bytes : Type 0
Bytes = List ℕ

-- `std::uint8_t(v >> (8 * i))`
abbrev pub byte_at : ℕ → ℕ → ℕ
byte_at v i = v / 2 ^ (8 * i) % 256

unfoldable pub w32 : ℕ → Bytes
w32 v = byte_at v 0 ∷ byte_at v 1 ∷ byte_at v 2 ∷ byte_at v 3 ∷ []

unfoldable pub w64 : ℕ → Bytes
w64 v =
    byte_at v 0
    ∷ byte_at v 1
    ∷ byte_at v 2
    ∷ byte_at v 3
    ∷ byte_at v 4
    ∷ byte_at v 5
    ∷ byte_at v 6
    ∷ byte_at v 7
    ∷ []

-- `std::uint32_t(p[i]) << (8 * i)`; the code checks the length before it reads.
abbrev pub place : Bytes → ℕ → ℕ
place p i = get_or p i 0 * 2 ^ (8 * i)

unfoldable pub r32 : Bytes → ℕ
r32 p = place p 0 + place p 1 + place p 2 + place p 3

unfoldable pub r64 : Bytes → ℕ
r64 p =
    place p 0 + place p 1 + place p 2 + place p 3 + place p 4 + place p 5 + place p 6 + place p 7

-- Reading back the four bytes that `w32` wrote gives the value, whatever follows them.
pub r32-w32 : (v : ℕ) (rest : Bytes) → v < 2 ^ 32 → r32 (w32 v ++ rest) ≡ v
unfolding r32 w32
r32-w32 v rest h = omega arith

pub r64-w64 : (v : ℕ) (rest : Bytes) → v < 2 ^ 64 → r64 (w64 v ++ rest) ≡ v
unfolding r64 w64
r64-w64 v rest h = omega arith

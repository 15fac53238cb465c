-- ===== src/Prelude/Texts.antt =====
-- `QString` and `std::string` as the native `String`, with the code points of a text.
use Prim.Native.String.{String}
use mathlib.Core.Path.{◌≡◌}
use mathlib.Core.Logic.{◌↔◌}
use mathlib.Core.Bool.{Bool, true}
use text.Mathlib.Text.{◌==◌ as string_eq}
use text.Mathlib.TextEquality.{eq_iff}

-- Equality of texts, with the library's law.
abbrev pub str_eq : String → String → Bool
str_eq a b = string_eq a b

pub str_eq_iff : (a b : String) → (str_eq a b ≡ true) ↔ (a ≡ b)
str_eq_iff a b = eq_iff a b

abbrev pub is_empty : String → Bool
is_empty s = str_eq s ""

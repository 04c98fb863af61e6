-- ===== src/Base/Text.antt =====
-- Text as lists of bytes.
use Prim.Native.Nat.{ℕ}
use Prim.Native.Char.{code}
use Prim.Native.String.{String}
use mathlib.Core.Bool.{Bool, true, false, ◌&&◌}
use mathlib.Core.List.{List, [], ◌∷◌}
use pg_what_is_happening.Base.Tests.{◌==◌}

abbrev pub Bytes : Type 0
Bytes = List ℕ

-- The code points of a literal, which are its bytes, since every literal here is ASCII.
abbrev pub codes : String → Bytes
codes String.[] = []
codes (String.◌∷◌ c s) = code c ∷ codes s

-- Whether two C strings are equal.
abbrev pub streq : Bytes → Bytes → Bool
streq [] [] = true
streq [] (_ ∷ _) = false
streq (_ ∷ _) [] = false
streq (a ∷ s) (b ∷ t) = a == b && streq s t

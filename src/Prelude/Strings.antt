-- ===== src/Prelude/Strings.antt =====
-- Python's `str.strip`, and slices from the front, on texts of characters.
use Prim.Native.Nat.{ℕ, zero, suc}
use Prim.Native.Char.{Char, code}
use Prim.Native.String.{String, [], ◌∷◌}
use mathlib.Core.Bool.{Bool, true, ◌&&◌, ◌||◌}
use netherbrain.Prelude.Tests.{if◌then◌else◌, leb, ltb, eqb}

abbrev pub between : ℕ → ℕ → ℕ → Bool
between a b n = leb a n && leb n b

-- `str.isspace` of one character: the white space of Unicode that `strip` removes.
unfoldable pub is_space : Char → Bool
is_space c =
    between 9 13 (code c)
    || between 28 32 (code c)
    || eqb (code c) 133
    || eqb (code c) 160
    || eqb (code c) 5760
    || between 8192 8202 (code c)
    || between 8232 8233 (code c)
    || eqb (code c) 8239
    || eqb (code c) 8287
    || eqb (code c) 12288

unfoldable pub lstrip : String → String
lstrip [] = []
lstrip (c ∷ s) = let rest = lstrip s in if is_space c then rest else c ∷ s

cons_unless_blank : Char → String → String
cons_unless_blank c [] = if is_space c then [] else c ∷ []
cons_unless_blank c (d ∷ s) = c ∷ d ∷ s

unfoldable pub rstrip : String → String
unfolding cons_unless_blank
rstrip [] = []
rstrip (c ∷ s) = cons_unless_blank c (rstrip s)

-- `s.strip()`.
unfoldable pub strip : String → String
strip s = lstrip (rstrip s)

-- `s[n:]`.
unfoldable pub drop_chars : ℕ → String → String
drop_chars zero s = s
drop_chars (suc n) [] = []
drop_chars (suc n) (c ∷ s) = drop_chars n s

-- `s[:n]`.
unfoldable pub take_chars : ℕ → String → String
take_chars zero s = []
take_chars (suc n) [] = []
take_chars (suc n) (c ∷ s) = c ∷ take_chars n s

-- `s.isascii()`.
unfoldable pub is_ascii : String → Bool
is_ascii [] = true
is_ascii (c ∷ s) = ltb (code c) 128 && is_ascii s

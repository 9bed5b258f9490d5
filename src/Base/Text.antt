-- ===== src/Base/Text.antt =====
-- Go strings as lists of bytes.
use Prim.Native.Nat.{ℕ, suc, ◌+◌, ◌/◌, ◌%◌}
use Prim.Native.Char.{code}
use Prim.Native.String.{String}
use mathlib.Core.Bool.{◌&&◌}
use mathlib.Core.List.{List, [], ◌∷◌, ◌++◌}
use filmstund.Base.Tests.{ltb, leb, if◌then◌else◌}

abbrev pub Text : Type 0
Text = List ℕ

-- The bytes of a literal, which is ASCII wherever it is used.
abbrev pub bytes : String → Text
bytes String.[] = []
bytes (String.◌∷◌ c s) = code c ∷ bytes s

-- The bytes of a code point below 2048 in UTF-8, and of a literal of such code points.
abbrev pub utf8_code : ℕ → Text
utf8_code c = if ltb c 128 then c ∷ [] else (192 + c / 64) ∷ (128 + c % 64) ∷ []

abbrev pub utf8 : String → Text
utf8 String.[] = []
utf8 (String.◌∷◌ c s) = utf8_code (code c) ++ utf8 s

-- `char_length` of PostgreSQL: the characters of a text in UTF-8, whose further bytes are from 128 to
-- 191.
abbrev pub char_length : Text → ℕ
char_length [] = 0
char_length (c ∷ t) = let rest = char_length t in if leb 128 c && ltb c 192 then rest else suc rest

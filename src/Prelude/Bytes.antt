-- ===== src/Prelude/Bytes.antt =====
-- Texts: the bytes of a C string, without the final zero.
use Prim.Native.Char.{code}
use Prim.Native.String.{String}
use Prim.Native.Nat.{ℕ}
use mathlib.Core.Bool.{Bool, true, false, ◌&&◌}
use mathlib.Core.Option.{Option, none, some}
use mathlib.Core.List.{List, [], ◌∷◌}
use coremio.Prelude.Tests.{◌==◌, if◌then◌else◌}

abbrev pub Text : Type 0
Text = List ℕ

-- the bytes of a literal
abbrev pub codes : String → Text
codes String.[] = []
codes (String.◌∷◌ c s) = code c ∷ codes s

-- the C string at the start of some bytes
abbrev pub c_string : List ℕ → Text
c_string [] = []
c_string (b ∷ bytes) = let rest = c_string bytes in if b == 0 then [] else b ∷ rest

abbrev pub starts_with : Text → Text → Bool
starts_with [] text = true
starts_with (n ∷ needle) [] = false
starts_with (n ∷ needle) (c ∷ text) = n == c && starts_with needle text

abbrev pub before : ℕ → Option Text → Option Text
before c none = none
before c (some text) = some (c ∷ text)

-- `strstr` and `strchr`, of a needle that is not empty: the text before its first occurrence
abbrev pub find_before : Text → Text → Option Text
find_before needle [] = none
find_before needle (c ∷ text) =
    let later = find_before needle text in
    if starts_with needle (c ∷ text) then some [] else before c later

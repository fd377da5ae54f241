-- ===== src/Strings.antt =====
-- Trimming a string: src/local.string.c, include/coremio/local.string.h. A string is the list of its bytes,
-- without the final zero.
pub mod Trim
mod Examples
use mathlib.Core.List.{reverse}
use coremio.Prelude.{
  ℕ, Bool, true, false, ◌||◌, List, [], ◌∷◌, Option, none, some, ◌==◌, ltb, length, if◌then◌else◌,
}

-- `d_space_character`
unfoldable pub is_space : ℕ → Bool
is_space c = c == 32 || c == 9

-- `d_space_character` or `d_final_character`
unfoldable pub is_blank : ℕ → Bool
unfolding is_space
is_blank c = is_space c || (c == 0 || (c == 10 || c == 13))

-- the result, or the use of the byte before the string
pub data Trimmed : Type 0 where
  trimmed : List ℕ → Trimmed
  read_before : Trimmed

-- the first loop of `f_string_trim`: the string from `begin` on
unfoldable pub skip_front : List ℕ → List ℕ
unfolding is_space
skip_front [] = []
skip_front (c ∷ cs) = let rest = skip_front cs in if is_space c then rest else c ∷ cs

-- the second loop, on the bytes from `final` back to `begin`; where none is left `final` stands before
-- `begin`, on a space that was skipped or before the string
unfoldable pub strip_back : (skipped : Bool) → List ℕ → Option (List ℕ)
unfolding is_blank
strip_back true [] = some []
strip_back false [] = none
strip_back skipped (c ∷ cs) =
    let rest = strip_back skipped cs in if is_blank c then rest else some (c ∷ cs)

-- the second loop and the move of what is left to the front
unfoldable pub finish : (skipped : Bool) → List ℕ → Trimmed
unfolding strip_back
finish skipped begin = elim (strip_back skipped (reverse begin)) [
  | none ↦ read_before
  | some kept ↦ trimmed (reverse kept)
]

-- `f_string_trim`, of a string that is not null
unfoldable pub trim : List ℕ → Trimmed
unfolding skip_front finish
trim cs = let begin = skip_front cs in finish (ltb (length begin) (length cs)) begin

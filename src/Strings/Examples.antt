-- ===== src/Strings/Examples.antt =====
-- Short strings: tests of `f_string_trim`, and instances of the theorems on it.
use coremio.Prelude.{◌≡◌, refl, [], ◌∷◌, ◌++◌}
use coremio.Strings.{is_space, is_blank, trimmed, read_before, skip_front, strip_back, finish, trim}
use coremio.Strings.Trim.{all, trim-append, trim-read_before}

-- " a\n", and what a string of spaces gives
test_trim : trim (32 ∷ 97 ∷ 10 ∷ []) ≡ trimmed (97 ∷ [])
unfolding trim finish skip_front strip_back is_space is_blank
test_trim = refl

test_trim_spaces : trim (32 ∷ 32 ∷ []) ≡ trimmed []
unfolding trim finish skip_front strip_back is_space is_blank
test_trim_spaces = refl

trim-append_example : trim ((32 ∷ []) ++ ((97 ∷ 98 ∷ []) ++ 10 ∷ [])) ≡ trimmed (97 ∷ 98 ∷ [])
unfolding all is_space is_blank
trim-append_example =
    trim-append (32 ∷ []) (97 ∷ 98 ∷ []) (10 ∷ []) 97 (98 ∷ []) (97 ∷ []) 98 refl refl refl refl
      refl refl

trim-read_before_example : trim (10 ∷ []) ≡ read_before
unfolding all is_space is_blank
trim-read_before_example = trim-read_before (10 ∷ []) refl refl

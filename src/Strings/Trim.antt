-- ===== src/Strings/Trim.antt =====
-- What trimming gives.
use mathlib.Core.List.{reverse, reverse-append, reverse-reverse, reverse-cons}
use coremio.Prelude.{
  ℕ, ◌≡◌, ◌≢◌, refl, sym, ap, ◌∙◌, Bool, true, false, ◌&&◌, List, [], ◌∷◌, ◌++◌, none, some, ltb,
  length, arith, Bool-cases, inl, inr,
}
use coremio.Strings.{is_space, is_blank, trimmed, read_before, skip_front, strip_back, finish, trim}

unfoldable pub all : (ℕ → Bool) → List ℕ → Bool
all test [] = true
all test (c ∷ cs) = test c && all test cs

-- whether the first byte passes the test
abbrev pub starts : (ℕ → Bool) → List ℕ → Bool
starts test [] = false
starts test (c ∷ cs) = test c

skip_front-append :
    (front : List ℕ) (c : ℕ) (cs : List ℕ)
    → all is_space front ≡ true
    → is_space c ≡ false
    → skip_front (front ++ c ∷ cs) ≡ c ∷ cs
unfolding skip_front all
skip_front-append [] c cs h solid = rw (solid, skip_front) refl
skip_front-append (f ∷ front) c cs h solid = elim (Bool-cases (is_space f)) [
  | inl s ↦ rw (s, skip_front) (skip_front-append front c cs (rw s at h) solid)
  | inr s ↦ absurd (false≢true (rw s at h))
]
  where
    false≢true : false ≢ true
    false≢true = ground arith

strip_back-append :
    (skipped : Bool) (back : List ℕ) (d : ℕ) (ds : List ℕ)
    → all is_blank back ≡ true
    → is_blank d ≡ false
    → strip_back skipped (back ++ d ∷ ds) ≡ some (d ∷ ds)
unfolding strip_back all
strip_back-append skipped [] d ds h solid = rw (solid, strip_back) refl
strip_back-append skipped (b ∷ back) d ds h solid = elim (Bool-cases (is_blank b)) [
  | inl s ↦ rw (s, strip_back) (strip_back-append skipped back d ds (rw s at h) solid)
  | inr s ↦ absurd (false≢true (rw s at h))
]
  where
    false≢true : false ≢ true
    false≢true = ground arith

all-append : (test : ℕ → Bool) (xs ys : List ℕ) → all test (xs ++ ys) ≡ (all test xs && all test ys)
unfolding all
all-append test [] ys = refl
all-append test (x ∷ xs) ys = ground (arith, all-append test xs ys)

all-reverse : (test : ℕ → Bool) (xs : List ℕ) → all test (reverse xs) ≡ all test xs
unfolding all
all-reverse test [] = refl
all-reverse test (x ∷ xs) =
    rw (reverse-cons x xs, all-append test (reverse xs) (x ∷ []), all-reverse test xs)
      (swapped (all test xs) (test x))
  where
    swapped : (a b : Bool) → (a && (b && true)) ≡ (b && a)
    swapped a b = ground arith

-- Trimming a string of spaces and tabs, a core, and spaces, tabs and line ends, where the core does not start
-- with a space or a tab and does not end with any of them, gives the core.
pub trim-append :
    (front core back : List ℕ) (c : ℕ) (cs : List ℕ) (ds : List ℕ) (d : ℕ)
    → all is_space front ≡ true
    → all is_blank back ≡ true
    → core ≡ c ∷ cs
    → is_space c ≡ false
    → core ≡ ds ++ d ∷ []
    → is_blank d ≡ false
    → trim (front ++ (core ++ back)) ≡ trimmed core
unfolding trim
trim-append front core back c cs ds d spaces blanks head solid tail_is ends =
    ap (λ b. finish (ltb (length b) (length (front ++ (core ++ back)))) b) begins
    ∙ finished (ltb (length (core ++ back)) (length (front ++ (core ++ back))))
  where
    begins : skip_front (front ++ (core ++ back)) ≡ core ++ back
    begins = rw head (skip_front-append front c (cs ++ back) spaces solid)

    backwards : reverse (core ++ back) ≡ reverse back ++ d ∷ reverse ds
    backwards =
        reverse-append core back
        ∙ ap (λ xs. reverse back ++ xs) (ap reverse tail_is ∙ reverse-append ds (d ∷ []))

    finished : (skipped : Bool) → finish skipped (core ++ back) ≡ trimmed core
    finished skipped =
        rw
          (
            backwards,
            strip_back-append skipped (reverse back) d (reverse ds)
                (all-reverse is_blank back ∙ blanks) ends,
            finish,
          )
          (ap trimmed (
            reverse-cons d (reverse ds)
            ∙ ap (λ xs. xs ++ d ∷ []) (reverse-reverse ds)
            ∙ sym tail_is))

strip_back-none : (cs : List ℕ) → all is_blank cs ≡ true → strip_back false cs ≡ none
unfolding strip_back all
strip_back-none [] h = refl
strip_back-none (c ∷ cs) h = elim (Bool-cases (is_blank c)) [
  | inl s ↦ rw (s, strip_back) (strip_back-none cs (rw s at h))
  | inr s ↦ absurd (false≢true (rw s at h))
]
  where
    false≢true : false ≢ true
    false≢true = ground arith

-- Trimming an empty string, or one of spaces, tabs and line ends that starts with a line end, uses the byte before
-- the string.
pub trim-read_before :
    (cs : List ℕ) → all is_blank cs ≡ true → starts is_space cs ≡ false → trim cs ≡ read_before
unfolding trim
trim-read_before cs blanks start =
    ap (λ b. finish (ltb (length b) (length cs)) b) (stays cs start)
    ∙ ap (λ b. finish b cs) (same (length cs))
    ∙ rw (strip_back-none (reverse cs) (all-reverse is_blank cs ∙ blanks), finish) refl
  where
    same : (n : ℕ) → ltb n n ≡ false
    same n = ground arith

    stays : (cs : List ℕ) → starts is_space cs ≡ false → skip_front cs ≡ cs
    stays [] h = unfold skip_front in refl
    stays (c ∷ cs) h = rw (h, skip_front) refl

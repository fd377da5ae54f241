-- ===== src/Dictionary/Find.antt =====
-- Looking a key up in a tree of entries that are ordered by their evaluation.
use coremio.Prelude.{
  ltb→lt, ℕ, ◌≡◌, ◌≢◌, refl, sym, ap, ◌∙◌, Bool, true, false, ◌&&◌, Option, none, some, List, [],
  ◌∷◌, ◌++◌, ◌<◌, ◌≤◌, arith, ltb, ◌==◌, ==_iff, if◌then◌else◌, Bool-cases, inl, inr, ◌↔◌,
}
use coremio.RedBlackTree.{Tree, leaf, node}
use coremio.RedBlackTree.Inorder.{inorder}
use coremio.Dictionary.{Key, Entry, same_key, get_recursive, evaluate}

pub same_key_iff : (a b : Key) → (same_key a b ≡ true) ↔ (a ≡ b)
unfolding same_key
same_key_iff [] [] = (λ h. refl, λ h. refl)
same_key_iff [] (b ∷ bs) = ground arith
same_key_iff (a ∷ cs) [] = ground arith
same_key_iff (a ∷ cs) (b ∷ bs) = ground (arith, same_key_iff cs bs)

module _ {A : Type 0} where
  -- the entry of a key, if there is one
  unfoldable pub find : Key → List (ℕ × Entry A) → Option (Entry A)
  find key [] = none
  find key ((v, e) ∷ es) = if same_key e.key key then some e else find key es

  -- each node is evaluated by its key, and no two evaluations are equal
  abbrev pub Above : ℕ → List (ℕ × Entry A) → Type 0
  Above v [] = Unit
  Above v ((w, e) ∷ es) = (v < w) × Above v es

  abbrev pub Distinct : List (ℕ × Entry A) → Type 0
  Distinct [] = Unit
  Distinct ((v, e) ∷ es) = (v ≡ evaluate e.key) × Above v es × Distinct es

  pub find-append :
      (key : Key) (es fs : List (ℕ × Entry A))
      → find key es ≡ none
      → find key (es ++ fs) ≡ find key fs
  unfolding find
  find-append key [] fs h = refl
  find-append key ((v, e) ∷ es) fs h = ground (arith, find-append key es fs)

  find-append_none :
      (key : Key) (es fs : List (ℕ × Entry A))
      → find key fs ≡ none
      → find key (es ++ fs) ≡ find key es
  unfolding find
  find-append_none key [] fs h = h
  find-append_none key ((v, e) ∷ es) fs h = ground (arith, find-append_none key es fs)

  same_key-false :
      (e : Entry A) (key : Key) → evaluate e.key ≢ evaluate key → same_key e.key key ≡ false
  same_key-false e key h = elim (Bool-cases (same_key e.key key)) [
    | inl t ↦ absurd (h (ap evaluate ((same_key_iff e.key key).0 t)))
    | inr f ↦ f
  ]

  -- a key is not among entries that are all evaluated above it, or all below it
  find-Above :
      (key : Key) (v : ℕ) (es : List (ℕ × Entry A))
      → Above v es
      → Distinct es
      → evaluate key ≤ v
      → find key es ≡ none
  unfolding find
  find-Above key v [] a d h = refl
  find-Above key v ((w, f) ∷ es) a d h =
      rw (same_key-false f key (omega (arith, a.0, d.0))) (find-Above key v es a.1 d.2 h)

  Above-at :
      (w v : ℕ) (es : List (ℕ × Entry A)) (e : Entry A) (fs : List (ℕ × Entry A))
      → Above w (es ++ (v, e) ∷ fs)
      → w < v
  Above-at w v [] e fs a = a.0
  Above-at w v ((u, f) ∷ es) e fs a = Above-at w v es e fs a.1

  find_below :
      (key : Key) (v : ℕ) (es : List (ℕ × Entry A)) (e : Entry A) (fs : List (ℕ × Entry A))
      → Distinct (es ++ (v, e) ∷ fs)
      → v ≤ evaluate key
      → find key es ≡ none
  unfolding find
  find_below key v [] e fs d h = refl
  find_below key v ((w, f) ∷ es) e fs d h =
      rw (same_key-false f key (omega (arith, d.0, Above-at w v es e fs d.1)))
        (find_below key v es e fs d.2 h)

  Above-append : (w : ℕ) (es fs : List (ℕ × Entry A)) → Above w (es ++ fs) → Above w es × Above w fs
  Above-append w [] fs a = (tt, a)
  Above-append w ((u, f) ∷ es) fs a = let (b, c) = Above-append w es fs a.1 in ((a.0, b), c)

  append-Distinct : (es fs : List (ℕ × Entry A)) → Distinct (es ++ fs) → Distinct es × Distinct fs
  append-Distinct [] fs d = (tt, d)
  append-Distinct ((v, e) ∷ es) fs d =
      let (a, b) = append-Distinct es fs d.2 in ((d.0, (Above-append v es fs d.1).0, a), b)

  -- Where no two nodes have equal evaluations, the search from the root finds the entry of a key exactly if
  -- the tree holds one.
  pub get_recursive-find :
      (t : Tree (Entry A)) (key : Key)
      → Distinct (inorder t)
      → get_recursive t key (evaluate key) ≡ find key (inorder t)
  unfolding get_recursive find inorder
  get_recursive-find leaf key d = refl
  get_recursive-find (node c v e l r) key d =
      let (dl, dr) = append-Distinct (inorder l) ((v, e) ∷ inorder r) d in
      let low = find_below key v (inorder l) e (inorder r) d in
      let high = find-Above key v (inorder r) dr.1 dr.2 in
      elim (Bool-cases (same_key e.key key)) [
        | inl s ↦
            let same : v ≡ evaluate key = dr.0 ∙ ap evaluate ((same_key_iff e.key key).0 s) in
            rw ((==_iff v (evaluate key)).1 same, s, get_recursive)
              (sym (find-append key (inorder l) _ (low (omega arith)) ∙ (rw (s, find) refl)))
        | inr n ↦ elim (Bool-cases (ltb (evaluate key) v)) [
          | inl lt ↦
              rw (not_here v (evaluate key) (same_key e.key key) n, lt, get_recursive)
                (get_recursive-find l key dl
                  ∙ sym (
                      find-append_none key (inorder l) _
                        (rw (n, find) (high (omega (arith, ltb→lt (evaluate key) v lt))))))
          | inr ge ↦
              rw (not_here v (evaluate key) (same_key e.key key) n, ge, get_recursive)
                (get_recursive-find r key dr.2
                  ∙ sym (find-append key (inorder l) _ (low (ground arith)) ∙ rw (n, find) refl))
        ]
      ]
    where
      not_here : (v k : ℕ) (b : Bool) → b ≡ false → (v == k && b) ≡ false
      not_here v k b h = ground arith

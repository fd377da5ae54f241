-- ===== src/LinkedList/Remove/Places.antt =====
-- One run of `f_list_remove` for each place of the node in its list.
use coremio.Prelude.{ℕ, suc, ◌%◌, ◌≡◌, ◌≢◌, false, some, [], ◌∷◌, ◌==◌, arith, size_mod, decrement}
use coremio.LinkedList.Heap.{
  Ptr, null, Node, node_of, Header, header_of, Store, Ensures, Keeps, commands,
}
use coremio.LinkedList.{remove}

-- one run for each place of the node: `p` and `q` are its neighbours, if it has them
module _ (s : Store) (l x : Ptr) (h : Header) (hl : l ≢ null) (hh : s.list l ≡ some h)
    (hx : x ≢ null) where
  pub remove_only_run :
      s.node x ≡ some (node_of l null null)
      → Ensures
          (λ r s'.
            (r ≡ x)
            × (s'.list l ≡ some (header_of null null (decrement h.entries)))
            × (s'.node x ≡ some (node_of null null null))
            × Keeps s s' l (x ∷ []))
          (remove l x s)
  unfolding remove commands
  remove_only_run e = ground arith

  pub remove_first_run :
      (q : Ptr) (n : Node)
      → s.node x ≡ some (node_of l q null)
      → q ≢ null
      → (q == x) ≡ false
      → s.node q ≡ some n
      → Ensures
          (λ r s'.
            (r ≡ x)
            × (s'.list l ≡ some (record h { head = q; entries = decrement h.entries }))
            × (s'.node x ≡ some (node_of null null null))
            × (s'.node q ≡ some (record n { previous = null }))
            × Keeps s s' l (x ∷ q ∷ []))
          (remove l x s)
  unfolding remove commands
  remove_first_run q n e hq ne f = ground arith

  pub remove_last_run :
      (p : Ptr) (n : Node)
      → s.node x ≡ some (node_of l null p)
      → p ≢ null
      → (p == x) ≡ false
      → s.node p ≡ some n
      → Ensures
          (λ r s'.
            (r ≡ x)
            × (s'.list l ≡ some (record h { tail = p; entries = decrement h.entries }))
            × (s'.node x ≡ some (node_of null null null))
            × (s'.node p ≡ some (record n { next = null }))
            × Keeps s s' l (x ∷ p ∷ []))
          (remove l x s)
  unfolding remove commands
  remove_last_run p n e hp ne f = ground arith

  pub remove_inner_run :
      (p q : Ptr) (n m : Node)
      → s.node x ≡ some (node_of l q p)
      → p ≢ null
      → (p == x) ≡ false
      → s.node p ≡ some n
      → q ≢ null
      → (q == x) ≡ false
      → s.node q ≡ some m
      → (p == q) ≡ false
      → Ensures
          (λ r s'.
            (r ≡ x)
            × (s'.list l ≡ some (record h { entries = decrement h.entries }))
            × (s'.node x ≡ some (node_of null null null))
            × (s'.node p ≡ some (record n { next = q }))
            × (s'.node q ≡ some (record m { previous = p }))
            × Keeps s s' l (x ∷ p ∷ q ∷ []))
          (remove l x s)
  unfolding remove commands
  remove_inner_run p q n m e hp np fp hq nq fq d = ground arith

pub decrement-suc : (n : ℕ) → decrement (suc n % size_mod) ≡ n % size_mod
decrement-suc n = omega arith

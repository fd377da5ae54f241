-- ===== src/Dictionary/Visit.antt =====
-- Visiting and freeing the entries of a dictionary, each once.
use mathlib.Core.List.{Perm, perm_middle, append_assoc}
use mathlib.Core.List.Perm
use coremio.Prelude.{
  ◌≡◌, refl, sym, ap, ◌∙◌, Bool, true, false, some, List, [], ◌∷◌, ◌++◌, append-nil,
}
use coremio.RedBlackTree.{Tree, leaf, node, free_recursive, delete_each}
use coremio.RedBlackTree
use coremio.RedBlackTree.Inorder.{inorder}
use coremio.RedBlackTree.Free.{items, items-node, free_recursive-perm}
use coremio.Dictionary.{
  Entry, Dictionary, Release, called, freed_key, freed_node, node_delete, free, foreach_pre_order,
  foreach,
}

-- the callback on each entry of a list, from the first to the last
unfoldable pub visit_all {ℓ} : {A : Type 0} {S : Type ℓ} → (A → S → S) → List A → S → S
visit_all visit [] s = s
visit_all visit (e ∷ es) s = visit_all visit es (visit e s)

visit_all-append :
    {A S : Type 0} (visit : A → S → S) (es fs : List A) (s : S)
    → visit_all visit (es ++ fs) s ≡ visit_all visit fs (visit_all visit es s)
unfolding visit_all
visit_all-append visit [] fs s = refl
visit_all-append visit (e ∷ es) fs s = visit_all-append visit es fs (visit e s)

module _ {A : Type 0} where
  unfoldable pub pre_order : Tree (Entry A) → List (Entry A)
  pre_order leaf = []
  pre_order (node c v e l r) = e ∷ (pre_order l ++ pre_order r)

  pre_order-perm : (t : Tree (Entry A)) → Perm (pre_order t) (items t)
  unfolding pre_order
  pre_order-perm leaf = unfold items inorder in Perm.refl []
  pre_order-perm (node c v e l r) = rw items-node (
      Perm.trans
        (Perm.append (Perm.refl (e ∷ [])) (Perm.append (pre_order-perm l) (pre_order-perm r)))
        (Perm.symm (perm_middle {a = e} (items l) (items r))))

  pub foreach_pre_order-visit_all :
      {S : Type 0} (visit : Entry A → S → S) (t : Tree (Entry A)) (s : S)
      → foreach_pre_order (some visit) t s ≡ visit_all visit (pre_order t) s
  unfolding foreach_pre_order visit_all pre_order
  foreach_pre_order-visit_all visit leaf s = refl
  foreach_pre_order-visit_all visit (node c v e l r) s =
      foreach_pre_order-visit_all visit r (foreach_pre_order (some visit) l (visit e s))
      ∙ ap (λ p. visit_all visit (pre_order r) p) (foreach_pre_order-visit_all visit l (visit e s))
      ∙ sym (visit_all-append visit (pre_order l) (pre_order r) (visit e s))

  -- There is one order of the entries, each of them once, in which the visit of a dictionary hands them to
  -- any callback.
  foreach-visit_all :
      (d : Dictionary A)
      → (order : List (Entry A)) × Perm order (items d.root)
        × ((S : Type 0) (visit : Entry A → S → S) (payload : S)
            → foreach d (some visit) payload ≡ visit_all visit order payload)
  unfolding foreach
  foreach-visit_all d = (
    pre_order d.root,
    pre_order-perm d.root,
    λ S visit payload. foreach_pre_order-visit_all visit d.root payload,
  )

  -- the steps that release one entry
  unfoldable pub releases : Bool → Entry A → List (Release A)
  releases true e = called e ∷ freed_key e.key ∷ freed_node e.key ∷ []
  releases false e = freed_key e.key ∷ freed_node e.key ∷ []

  unfoldable pub release_all : Bool → List (Entry A) → List (Release A)
  unfolding releases
  release_all b [] = []
  release_all b (e ∷ es) = releases b e ++ release_all b es

  node_delete-releases :
      (b : Bool) (e : Entry A) (steps : List (Release A))
      → node_delete b e steps ≡ steps ++ releases b e
  unfolding node_delete releases
  node_delete-releases true e steps = append_assoc steps (called e ∷ []) _
  node_delete-releases false e steps = refl

  delete_each-release_all :
      (b : Bool) (es : List (Entry A)) (steps : List (Release A))
      → delete_each (node_delete b) es steps ≡ steps ++ release_all b es
  unfolding delete_each release_all
  delete_each-release_all b [] steps = sym (append-nil steps)
  delete_each-release_all b (e ∷ es) steps =
      delete_each-release_all b es (node_delete b e steps)
      ∙ ap (λ s. s ++ release_all b es) (node_delete-releases b e steps)
      ∙ append_assoc steps (releases b e) (release_all b es)

  -- Freeing a dictionary releases each of its entries once, one after the other: the callback first if there is
  -- one, then the key, then the node.
  pub free-release_all :
      (has_callback : Bool) (d : Dictionary A)
      → (order : List (Entry A)) × Perm order (items d.root)
        × (free has_callback d ≡ release_all has_callback order)
  unfolding free RedBlackTree.free
  free-release_all b d = (
    free_recursive d.root,
    free_recursive-perm d.root,
    delete_each-release_all b (free_recursive d.root) [],
  )

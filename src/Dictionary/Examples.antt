-- ===== src/Dictionary/Examples.antt =====
-- Small dictionaries: tests of src/dictionary.c, and instances of the theorems on it.
use mathlib.Core.List.{Perm}
use coremio.Prelude.{ℕ, ◌≡◌, refl, sym, true, none, some, List, [], ◌∷◌, arith}
use coremio.RedBlackTree.{leaf, node, black}
use coremio.RedBlackTree.Inorder.{inorder}
use coremio.RedBlackTree.Free.{items}
use coremio.Dictionary.{
  Key, Entry, Dictionary, Created, evaluate, hash_from, char_value, initialize_custom,
  get_recursive, get_if_exists, get_or_create_informed, free,
}
use coremio.Dictionary.Find.{find, Distinct, get_recursive-find}
use coremio.Dictionary.Create.{WellFormed, NoCollision, Provided, get_or_create_informed-Provided}
use coremio.Dictionary.Visit.{release_all, free-release_all}
use coremio.Dictionary.Collision.{collision-lost}

-- "ao", "c-" and "b"
abbrev key_ao : Key
key_ao = 97 ∷ 111 ∷ []

abbrev key_c_dash : Key
key_c_dash = 99 ∷ 45 ∷ []

abbrev key_b : Key
key_b = 98 ∷ []

test_evaluate : evaluate key_ao ≡ evaluate key_c_dash
unfolding evaluate hash_from char_value
test_evaluate = refl

abbrev entry_b : Entry ℕ
entry_b = record { key = key_b; content = 0 }

abbrev with_b : Dictionary ℕ
with_b = record {
  root = node black (evaluate key_b) entry_b leaf leaf;
  zeroed = 0;
  node_initialize = none;
}

with_b-Distinct : Distinct (inorder with_b.root)
unfolding inorder
with_b-Distinct = (refl, tt, tt)

with_b-WellFormed : WellFormed with_b
with_b-WellFormed = record {
  balanced = record { root_black = refl; rules = ((λ h. (refl, refl)), refl, tt, tt) };
  distinct = with_b-Distinct;
}

NoCollision-ao : NoCollision key_ao (inorder with_b.root)
unfolding inorder evaluate hash_from char_value
NoCollision-ao = ((λ h. absurd (omega (arith, h))), tt)

get_or_create_informed-Provided_example :
    (c : Created ℕ) × (get_or_create_informed true true with_b key_ao ≡ some c)
    × Provided true true with_b key_ao c
get_or_create_informed-Provided_example =
    get_or_create_informed-Provided true true with_b key_ao with_b-WellFormed NoCollision-ao

get_recursive-find_example :
    get_recursive with_b.root key_b (evaluate key_b) ≡ find key_b (inorder with_b.root)
get_recursive-find_example = get_recursive-find with_b.root key_b with_b-Distinct

free-release_all_example :
    (order : List (Entry ℕ)) × Perm order (items with_b.root)
    × (free true with_b ≡ release_all true order)
free-release_all_example = free-release_all true with_b

collision-lost_example :
    (a b : Created ℕ) × (get_or_create_informed true true (initialize_custom 0 none) key_ao
      ≡ some a)
    × (get_or_create_informed true true a.dictionary key_c_dash ≡ some b)
    × (b.is_created ≡ true)
    × (get_if_exists b.dictionary key_c_dash ≡ none)
collision-lost_example = collision-lost 0 none key_ao key_c_dash (λ e. cc) (sym test_evaluate)

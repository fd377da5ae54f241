-- ===== src/Dictionary.antt =====
-- The dictionary: src/dictionary.c, include/coremio/dictionary.h. A key is the list of its bytes,
-- without the final zero. A node holds its key and the content that follows `s_dictionary_node`
-- in the structure of the client.
pub mod Find
pub mod Create
pub mod Visit
pub mod Collision
mod Examples
use coremio.Prelude.{
  ℕ, ◌+◌, ◌-◌, ◌*◌, ◌%◌, ◌^◌, Bool, true, false, not, ◌&&◌, Option, none, some, List, [], ◌∷◌, ◌++◌,
  ltb, ◌==◌, if◌then◌else◌,
}
use coremio.RedBlackTree
use coremio.RedBlackTree.{Tree, leaf, node}

abbrev pub Key : Type 0
Key = List ℕ

-- a `char` as a `long int`, in two's complement; `char` is signed
unfoldable pub char_value : ℕ → ℕ
char_value c = if ltb c 128 then c else c + (2 ^ 64 - 256)

-- the loop of `p_dictionary_evaluate_string`, on the 64 bits of the hash
unfoldable pub hash_from : ℕ → Key → ℕ
unfolding char_value
hash_from hash [] = hash
hash_from hash (c ∷ key) = hash_from (((hash * 32 + hash) + char_value c) % 2 ^ 64) key

-- `p_dictionary_evaluate_string`, as the distance from `LONG_MIN`
unfoldable pub evaluate : Key → ℕ
unfolding hash_from
evaluate key = (hash_from 5381 key + 2 ^ 63) % 2 ^ 64

-- `strcmp(a, b) == 0`
unfoldable pub same_key : Key → Key → Bool
same_key [] [] = true
same_key (a ∷ cs) (b ∷ bs) = a == b && same_key cs bs
same_key _ _ = false

-- `s_dictionary_node`
pub record Entry (A : Type 0) : Type 0 where
  pub key : Key
  pub content : A

-- `s_dictionary`: the tree, the content of a zeroed node, and the callback for a new node, which
-- writes its content; `none` is a null pointer
pub record Dictionary (A : Type 0) : Type 0 where
  pub root : Tree (Entry A)
  pub zeroed : A
  pub node_initialize : Option (Entry A → A)

-- what `f_dictionary_get_or_create_informed` returns, with the dictionary after it
pub record Created (A : Type 0) : Type 0 where
  pub dictionary : Dictionary A
  pub result : Option (Entry A)
  pub is_created : Bool

-- the steps of `p_dictionary_node_delete`: the callback, and the two calls of `d_free`
pub data Release (A : Type 0) : Type 0 where
  called : Entry A → Release A
  freed_key freed_node : Key → Release A

module _ {A : Type 0} where
  -- `f_dictionary_initialize_custom`
  unfoldable pub initialize_custom : A → Option (Entry A → A) → Dictionary A
  initialize_custom zeroed callback = record {
    root = leaf;
    zeroed = zeroed;
    node_initialize = callback;
  }

  -- `f_dictionary_initialize`
  unfoldable pub initialize : A → Dictionary A
  unfolding initialize_custom
  initialize zeroed = initialize_custom zeroed none

  -- `p_dictionary_get_recursive`
  unfoldable pub get_recursive : Tree (Entry A) → Key → ℕ → Option (Entry A)
  unfolding same_key
  get_recursive leaf key evaluation = none
  get_recursive (node c value e l r) key evaluation =
      elim (value == evaluation && same_key e.key key) [
        | true ↦ some e
        | false ↦ elim (ltb evaluation value) [
          | true ↦ get_recursive l key evaluation
          | false ↦ get_recursive r key evaluation
        ]
      ]

  -- `f_dictionary_get_if_exists`
  unfoldable pub get_if_exists : Dictionary A → Key → Option (Entry A)
  unfolding get_recursive
  get_if_exists d key = get_recursive d.root key (evaluate key)

  -- a node that is zeroed, given its key and handed to the callback
  unfoldable pub new_entry : Dictionary A → Key → Entry A
  new_entry d key = elim d.node_initialize [
    | none ↦ record { key = key; content = d.zeroed }
    | some callback ↦ record {
      key = key;
      content = callback (record { key = key; content = d.zeroed });
    }
  ]

  -- the new node of a key, inserted; `none` is the use of a null pointer
  unfoldable pub create : Dictionary A → Key → Option (Created A)
  unfolding new_entry
  create d key = elim (RedBlackTree.insert d.root (evaluate key) (new_entry d key)) [
    | none ↦ none
    | some t ↦ some (record {
      dictionary = record d { root = t };
      result = some (new_entry d key);
      is_created = true;
    })
  ]

  -- `f_dictionary_get_or_create_informed`; the flags say whether the allocations of the node and of
  -- its key succeed
  unfoldable pub get_or_create_informed :
      (node_memory key_memory : Bool) → Dictionary A → Key → Option (Created A)
  unfolding create get_if_exists
  get_or_create_informed node_memory key_memory d key = elim (get_if_exists d key) [
    | some e ↦ some (record { dictionary = d; result = some e; is_created = false })
    | none ↦
        if node_memory && key_memory
        then create d key
        else some (record { dictionary = d; result = none; is_created = false })
  ]

  -- `f_dictionary_get_or_create`: the dictionary and the entry
  unfoldable pub get_or_create :
      (node_memory key_memory : Bool)
      → Dictionary A
      → Key
      → Option (Dictionary A × Option (Entry A))
  unfolding get_or_create_informed
  get_or_create node_memory key_memory d key =
      elim (get_or_create_informed node_memory key_memory d key) [
        | none ↦ none
        | some c ↦ some (c.dictionary, c.result)
      ]

  -- `p_dictionary_node_delete`, as the steps after the ones before it; the flag says whether the
  -- dictionary has a callback
  unfoldable pub node_delete : Bool → Entry A → List (Release A) → List (Release A)
  node_delete has_callback e steps =
      (if has_callback then steps ++ called e ∷ [] else steps)
      ++ freed_key e.key ∷ freed_node e.key ∷ []

  -- `f_dictionary_free`
  unfoldable pub free : Bool → Dictionary A → List (Release A)
  unfolding node_delete
  free has_callback d = RedBlackTree.free (some (node_delete has_callback)) d.root []

module _ {A S : Type 0} where
  -- `p_dictionary_foreach_pre_order`; the callback acts on the payload
  unfoldable pub foreach_pre_order : Option (Entry A → S → S) → Tree (Entry A) → S → S
  foreach_pre_order visit leaf payload = payload
  foreach_pre_order none (node c v e l r) payload =
      foreach_pre_order none r (foreach_pre_order none l payload)
  foreach_pre_order (some visit) (node c v e l r) payload =
      foreach_pre_order (some visit) r (foreach_pre_order (some visit) l (visit e payload))

  -- `f_dictionary_foreach`
  unfoldable pub foreach : Dictionary A → Option (Entry A → S → S) → S → S
  unfolding foreach_pre_order
  foreach d visit payload = foreach_pre_order visit d.root payload

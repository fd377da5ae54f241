-- ===== src/Server/Addresses.antt =====
-- The lists of addresses of a server, and which addresses they match. An address of a connection is a number, its
-- bytes in the order of the host. `inet_pton` and `atoi` are the C library's; a list is the texts of the nodes of
-- its array, where an empty text is a free one.
use Prim.Native.Nat.{bit_and}
use coremio.Prelude.{
  ℕ, zero, suc, ◌+◌, ◌-◌, ◌*◌, ◌/◌, Bool, true, false, Option, none, some, List, [], ◌∷◌,
  if◌then◌else◌, ltb, leb, ◌==◌, Text, find_before, length, take, drop,
}
use coremio.Server.Mask.{mask_of}
use coremio.Server.{Result, noice}

-- `inet_pton`, as a number in the order of the host, and `atoi`, as a word of 32 bits
pub record Network : Type 0 where
  pub inet_pton : Text → Option ℕ
  pub atoi : Text → ℕ

-- `d_server_address_length`, `d_server_whiteblack_list_bucket_size` and `d_server_whiteblack_list_node_size`
abbrev pub address_length : ℕ
address_length = 16

abbrev pub bucket_size : ℕ
bucket_size = 5

abbrev pub node_size : ℕ
node_size = 20

-- whether two addresses are the same under a mask
abbrev pub same_under : ℕ → ℕ → Option ℕ → Bool
same_under mask incoming none = false
same_under mask incoming (some verification) = bit_and incoming mask == bit_and verification mask

-- whether an address is another
abbrev pub same_address : ℕ → Option ℕ → Bool
same_address incoming none = false
same_address incoming (some verification) = incoming == verification

module _ (network : Network) where
  -- `p_server_address_matches`
  unfoldable pub address_matches : ℕ → Text → Bool
  address_matches incoming address = elim (find_before (47 ∷ []) address) [
    | none ↦ same_address incoming (network.inet_pton address)
    | some lead ↦
        let mask = network.atoi (drop (length lead + 1) address) in
        if ltb (length lead) (address_length + 1)
        then (if leb mask 32
            then same_under (mask_of mask) incoming (network.inet_pton lead)
            else false)
        else false
  ]

  -- the loop over the white list: whether the address is allowed, and whether the list is empty
  unfoldable pub white_list : ℕ → List Text → Bool × Bool
  unfolding address_matches
  white_list incoming [] = (false, true)
  white_list incoming ([] ∷ nodes) = white_list incoming nodes
  white_list incoming ((c ∷ cs) ∷ nodes) =
      let (allowed, is_empty) = white_list incoming nodes in
      (if address_matches incoming (c ∷ cs) then true else allowed, false)

  -- the loop over the black list
  unfoldable pub black_list : ℕ → List Text → Bool
  unfolding address_matches
  black_list incoming [] = true
  black_list incoming ([] ∷ nodes) = black_list incoming nodes
  black_list incoming ((c ∷ cs) ∷ nodes) =
      let rest = black_list incoming nodes in
      if address_matches incoming (c ∷ cs) then false else rest

  -- whether a connection is allowed
  unfoldable pub is_allowed : (white black : List Text) → ℕ → Bool
  unfolding white_list black_list
  is_allowed white black incoming =
      let (allowed, is_empty) = white_list incoming white in
      if allowed then true else if is_empty then black_list incoming black else false

-- free nodes
unfoldable pub free_nodes : ℕ → List Text
free_nodes zero = []
free_nodes (suc n) = [] ∷ free_nodes n

-- the loop that looks for a free node, from an index on, and writes the address to it. The array grows behind its
-- last node if `memory` says so; if not, `f_array_validate_access` gives the array as it is, and `none` is the use
-- of a node behind its end.
unfoldable pub put_first : (index : ℕ) → (memory : ℕ → Bool) → Text → List Text → Option (List Text)
unfolding free_nodes
put_first index memory address [] =
    if memory index
    then some (
        take (node_size - 1) address
        ∷ free_nodes ((index / bucket_size + 1) * bucket_size - index - 1))
    else none
put_first index memory address ([] ∷ nodes) = some (take (node_size - 1) address ∷ nodes)
put_first index memory address ((c ∷ cs) ∷ nodes) =
    elim (put_first (index + 1) memory address nodes) [
      | none ↦ none
      | some nodes' ↦ some ((c ∷ cs) ∷ nodes')
    ]

-- `f_server_append_to_whitelist` and `f_server_append_to_blacklist`, on the list if there is one
unfoldable pub append_address :
    (memory : ℕ → Bool) → Text → Option (List Text) → Option (Result × Option (List Text))
unfolding put_first
append_address memory address none = some (noice, none)
append_address memory address (some nodes) = elim (put_first 0 memory address nodes) [
  | none ↦ none
  | some nodes' ↦ some (noice, some nodes')
]

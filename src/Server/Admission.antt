-- ===== src/Server/Admission.antt =====
-- Which connections the lists of addresses allow.
use Prim.Native.Nat.{bit_and}
use coremio.Prelude.{
  ℕ, zero, suc, ◌+◌, ◌-◌, ◌*◌, ◌/◌, ◌^◌, ◌≤◌, ◌<◌, ◌≡◌, ◌↔◌, refl, sym, ap, ◌∙◌, Bool, true, false,
  not, ◌&&◌, ◌||◌, some, List, [], ◌∷◌, if◌then◌else◌, ltb, leb, ==_iff, inl, inr, Bool-cases,
  arith, Text, find_before, length, take, drop,
}
use coremio.Server.{noice}
use coremio.Server.Mask.{mask_of, mask_of_iff}
use coremio.Server.Addresses.{
  Network, bucket_size, address_matches, white_list, black_list, is_allowed, free_nodes, put_first,
  append_address,
}

-- the addresses of a list
abbrev pub entries : List Text → List Text
entries [] = []
entries ([] ∷ nodes) = entries nodes
entries ((c ∷ cs) ∷ nodes) = (c ∷ cs) ∷ entries nodes

-- where an array grew
entries-free_nodes : (n : ℕ) → entries (free_nodes n) ≡ []
unfolding free_nodes
entries-free_nodes zero = refl
entries-free_nodes (suc n) = entries-free_nodes n

module _ (network : Network) where
  -- whether an address of a list matches
  abbrev pub any_matches : ℕ → List Text → Bool
  any_matches incoming [] = false
  any_matches incoming (a ∷ addresses) =
      address_matches network incoming a || any_matches incoming addresses

  -- a white list that is not empty decides; else the black list does
  abbrev pub admitted : (white black : List Text) → ℕ → Bool
  admitted [] black incoming = not (any_matches incoming black)
  admitted (w ∷ white) black incoming = any_matches incoming (w ∷ white)

  abbrev pub is_nil : List Text → Bool
  is_nil [] = true
  is_nil (a ∷ addresses) = false

  white_list-entries :
      (incoming : ℕ) (nodes : List Text)
      → white_list network incoming nodes
        ≡ (any_matches incoming (entries nodes), is_nil (entries nodes))
  unfolding white_list
  white_list-entries incoming [] = refl
  white_list-entries incoming ([] ∷ nodes) = white_list-entries incoming nodes
  white_list-entries incoming ((c ∷ cs) ∷ nodes) =
      rw (white_list-entries incoming nodes)
        (elim (Bool-cases (address_matches network incoming (c ∷ cs))) [
          | inl m ↦ rw m refl
          | inr m ↦ rw m refl
        ])

  black_list-entries :
      (incoming : ℕ) (nodes : List Text)
      → black_list network incoming nodes ≡ not (any_matches incoming (entries nodes))
  unfolding black_list
  black_list-entries incoming [] = refl
  black_list-entries incoming ([] ∷ nodes) = black_list-entries incoming nodes
  black_list-entries incoming ((c ∷ cs) ∷ nodes) =
      rw (black_list-entries incoming nodes)
        (elim (Bool-cases (address_matches network incoming (c ∷ cs))) [
          | inl m ↦ rw m refl
          | inr m ↦ rw m refl
        ])

  is_allowed-admitted :
      (white black : List Text) (incoming : ℕ)
      → is_allowed network white black incoming ≡ admitted (entries white) (entries black) incoming
  unfolding is_allowed
  is_allowed-admitted white black incoming =
      rw (white_list-entries incoming white, is_allowed) (by_white (entries white))
    where
      when : (b : Bool) → (if b then true else false) ≡ b
      when true = refl
      when false = refl

      by_white :
          (es : List Text)
          → (if any_matches incoming es
              then true
              else if is_nil es
              then black_list network incoming black
              else false)
            ≡ admitted es (entries black) incoming
      by_white [] = black_list-entries incoming black
      by_white (e ∷ es) = when (any_matches incoming (e ∷ es))

  -- an address in a free node is one more address
  put_first-entries :
      (index : ℕ) (memory : ℕ → Bool) (c : ℕ) (cs : Text) (nodes : List Text) (incoming : ℕ)
      → ((i : ℕ) → memory i ≡ true)
      → (nodes' : List Text) × (put_first index memory (c ∷ cs) nodes ≡ some nodes')
        × (any_matches incoming (entries nodes') ≡ (
            address_matches network incoming (take 19 (c ∷ cs))
            || any_matches incoming (entries nodes)))
        × (is_nil (entries nodes') ≡ false)
  unfolding put_first
  put_first-entries index memory c cs [] incoming given = (
    take 19 (c ∷ cs) ∷ free_nodes ((index / bucket_size + 1) * bucket_size - index - 1),
    rw (given index, put_first) refl,
    rw (entries-free_nodes ((index / bucket_size + 1) * bucket_size - index - 1)) refl,
    refl,
  )
  put_first-entries index memory c cs ([] ∷ nodes) incoming given =
      (take 19 (c ∷ cs) ∷ nodes, refl, refl, refl)
  put_first-entries index memory c cs ((d ∷ ds) ∷ nodes) incoming given =
      let (nodes', done, matches, not_nil) =
        put_first-entries (index + 1) memory c cs nodes incoming given in
      (
        (d ∷ ds) ∷ nodes',
        rw (done, put_first) refl,
        ap (λ b. address_matches network incoming (d ∷ ds) || b) matches
            ∙ swap (address_matches network incoming (d ∷ ds))
                (address_matches network incoming (take 19 (c ∷ cs)))
                (any_matches incoming (entries nodes)),
        refl,
      )
    where
      swap : (a b c : Bool) → (a || (b || c)) ≡ (b || (a || c))
      swap a b c = ground arith

  -- Appending an address that is not empty, where the array can grow, puts its first 19 bytes on the list. On the
  -- white list: the connections are then allowed that it matches or that an address matched before, and no others.
  -- On the black list: those it matches are no longer allowed, unless the white list has an address, and for all
  -- others nothing changes.
  pub append_address-is_allowed :
      (memory : ℕ → Bool) (c : ℕ) (cs : Text) (white black : List Text) (incoming : ℕ)
      → ((i : ℕ) → memory i ≡ true)
      → ((white' : List Text) × (append_address memory (c ∷ cs) (some white)
            ≡ some (noice, some white'))
          × (is_allowed network white' black incoming ≡ (
              address_matches network incoming (take 19 (c ∷ cs))
              || any_matches incoming (entries white))))
        × ((black' : List Text) × (append_address memory (c ∷ cs) (some black)
              ≡ some (noice, some black'))
            × (is_allowed network white black' incoming ≡ (
                is_allowed network white black incoming
                && (not (is_nil (entries white))
                    || not (address_matches network incoming (take 19 (c ∷ cs)))))))
  unfolding append_address
  append_address-is_allowed memory c cs white black incoming given =
      let (white', white_done, white_matches, white_not_nil) =
        put_first-entries 0 memory c cs white incoming given in
      let (black', black_done, black_matches, black_not_nil) =
        put_first-entries 0 memory c cs black incoming given in
      (
        (
          white',
          rw (white_done, append_address) refl,
          is_allowed-admitted white' black incoming
              ∙ by_white (entries white') white_not_nil
              ∙ white_matches,
        ),
        (
          black',
          rw (black_done, append_address) refl,
          is_allowed-admitted white black' incoming
              ∙ by_black (entries white) (entries black) (entries black') black_matches
              ∙ ap (λ b. b && (not (is_nil (entries white)) || not new))
                  (sym (is_allowed-admitted white black incoming)),
        ),
      )
    where
      new : Bool
      new = address_matches network incoming (take 19 (c ∷ cs))

      false≢true : false ≡ true → ⊥
      false≢true e = ground arith

      by_white :
          (es : List Text)
          → is_nil es ≡ false
          → admitted es (entries black) incoming ≡ any_matches incoming es
      by_white [] e = absurd (false≢true (sym e))
      by_white (e ∷ es) h = refl

      negate : (m n : Bool) → not (m || n) ≡ (not n && not m)
      negate m n = ground arith

      keep : (b : Bool) → b ≡ (b && true)
      keep b = ground arith

      by_black :
          (ws es es' : List Text)
          → any_matches incoming es' ≡ (new || any_matches incoming es)
          → admitted ws es' incoming ≡ (admitted ws es incoming && (not (is_nil ws) || not new))
      by_black [] es es' e = ap not e ∙ negate new (any_matches incoming es)
      by_black (w ∷ ws) es es' e = keep (any_matches incoming (w ∷ ws))

  -- An address with a mask of at most 32, behind a `/` that stands in front of no more than 16 bytes, matches exactly
  -- the connections whose leading bits, as many as the mask says, are those of the address.
  pub address_matches_iff :
      (address lead : Text) (incoming verification : ℕ)
      → find_before (47 ∷ []) address ≡ some lead
      → length lead ≤ 16
      → network.inet_pton lead ≡ some verification
      → network.atoi (drop (length lead + 1) address) ≤ 32
      → incoming < 2 ^ 32
      → verification < 2 ^ 32
      → (address_matches network incoming address ≡ true) ↔ (
          incoming / 2 ^ (32 - network.atoi (drop (length lead + 1) address))
          ≡ verification / 2 ^ (32 - network.atoi (drop (length lead + 1) address)))
  unfolding address_matches
  address_matches_iff address lead incoming verification split short resolved small in_size
        verification_size =
      rw (split, lt (length lead) short, le mask small, resolved, address_matches)
        (
          (λ e. bits.0 (
              (==_iff (bit_and incoming (mask_of mask)) (bit_and verification (mask_of mask))).0
                e)),
          (λ e.
              (==_iff (bit_and incoming (mask_of mask)) (bit_and verification (mask_of mask))).1
                (bits.1 e)),
        )
    where
      mask : ℕ
      mask = network.atoi (drop (length lead + 1) address)

      lt : (n : ℕ) → n ≤ 16 → ltb n 17 ≡ true
      lt n h = ground arith

      le : (n : ℕ) → n ≤ 32 → leb n 32 ≡ true
      le n h = ground arith

      bits :
          (bit_and incoming (mask_of mask) ≡ bit_and verification (mask_of mask))
          ↔ (incoming / 2 ^ (32 - mask) ≡ verification / 2 ^ (32 - mask))
      bits = mask_of_iff mask incoming verification small in_size verification_size

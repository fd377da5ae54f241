-- ===== src/HttpPayload/Unserialize/Progress.antt =====
-- The parser ends, uses no null pointer, and stays inside of the buffer.
use coremio.Prelude.{
  ℕ, zero, suc, ◌+◌, ◌-◌, ◌*◌, ◌<◌, ◌≤◌, ◌≡◌, ◌≢◌, refl, ap, Bool, true, false, ◌&&◌, ◌||◌, Option,
  none, some, [], ◌∷◌, map, ltb, leb, ◌==◌, if◌then◌else◌, Bool-cases, inl, inr, ◌⊎◌, arith, Text,
  c_string, find_before, length, length-take, take, drop, List,
}
use coremio.RedBlackTree.Rules.{IsRedBlack}
use coremio.HttpPayload.{
  Headers, Step, header_a, header_b, header_c, key_value, key_value_again, payload, completed,
  number, Payload, Library, method_from_keyword, is_undefined, set_header,
}
use coremio.HttpPayload.Balanced.{Option-cases, Sets, set_header-Sets}
use coremio.HttpPayload.Unserialize.{
  new_line, Allocations, Block, block, skip, strip, behind_colon, Stepped, step_a, component_b,
  step_b, step_c, header_line, step_key_value, step_payload, ends_early, content_length, round,
  round_at, Parse, parsed, incomplete, faulted, out_of_fuel, unended, is_terminated, ending, rounds,
  unserialize,
}
use coremio.HttpPayload.Unserialize.Blocks.{BlockFits, block-BlockFits}

-- how far a step is from the last
abbrev pub rank : Step → ℕ
rank header_a = 6
rank header_b = 5
rank header_c = 4
rank key_value_again = 3
rank key_value = 2
rank payload = 1
rank completed = 0

-- what each round that goes on makes smaller
abbrev pub measure : Text → Payload → ℕ → ℕ
measure raw p shift = 8 * (length raw - shift) + rank p.step

-- the result of a round that uses no null pointer
pub record Advance (p : Payload) (raw : Text) (shift : ℕ) (p' : Payload) (shift' : ℕ) : Type 0 where
  pub balanced : IsRedBlack p'.configuration.root
  pub forward : shift ≤ shift'
  pub inside : shift' ≤ length raw
  pub moved : (p'.step ≡ p.step) ⊎ (measure raw p' shift' < measure raw p shift)

abbrev pub Advances : Payload → Text → ℕ → Stepped → Type 0
Advances p raw shift none = ⊥
Advances p raw shift (some (p', shift')) = Advance p raw shift p' shift'

module _ (library : Library) (memory : Allocations) (p : Payload) (raw : Text) (shift : ℕ)
    (balanced : IsRedBlack p.configuration.root) (h : shift ≤ length raw) where
  -- a block of a needle that is not empty
  cut : ℕ → Text → Block
  cut n needle = block (memory 0 shift) raw (n ∷ needle) shift

  fits : (n : ℕ) (needle : Text) → BlockFits raw shift (cut n needle)
  unfolding cut
  fits n needle = block-BlockFits (memory 0 shift) raw n needle shift h

  -- no step is made
  stays : (shift' : ℕ) → shift ≤ shift' → shift' ≤ length raw → Advance p raw shift p shift'
  stays shift' f i = record { balanced = balanced; forward = f; inside = i; moved = inl refl }

  -- a step of a lower rank is made
  lowers :
      (p' : Payload) (shift' : ℕ)
      → IsRedBlack p'.configuration.root
      → shift ≤ shift'
      → shift' ≤ length raw
      → rank p'.step < rank p.step
      → Advance p raw shift p' shift'
  lowers p' shift' b f i l = record {
    balanced = b;
    forward = f;
    inside = i;
    moved = inr (omega (arith, f, i, l));
  }

  step_a-Advances : p.step ≡ header_a → Advances p raw shift (step_a library memory p raw shift)
  unfolding step_a cut
  step_a-Advances at = elim (Option-cases (cut 32 []).text) [
    | inl gone ↦
        rw (gone, step_a) (stays (cut 32 []).shift (fits 32 []).forward (fits 32 []).inside)
    | inr (t, e) ↦ elim (Bool-cases (is_undefined (method_from_keyword t))) [
      | inl u ↦
          rw (e, u, step_a)
            (lowers _ (cut 32 []).shift balanced (fits 32 []).forward (fits 32 []).inside
              (omega (arith, ap rank at)))
      | inr u ↦
          rw (e, u, step_a)
            (lowers _ (cut 32 []).shift balanced (fits 32 []).forward (fits 32 []).inside
              (omega (arith, ap rank at)))
    ]
  ]

  step_c-Advances : p.step ≡ header_c → Advances p raw shift (step_c library memory p raw shift)
  unfolding step_c cut
  step_c-Advances at = elim (Option-cases (cut 13 (10 ∷ [])).text) [
    | inl gone ↦ elim (Option-cases (cut 13 (10 ∷ [])).session) [
      | inl nothing ↦
          rw (gone, nothing, step_c)
            (stays (cut 13 (10 ∷ [])).shift (fits 13 (10 ∷ [])).forward (fits 13 (10 ∷ [])).inside)
      | inr (n, e) ↦
          rw (gone, e, step_c)
            (lowers _ (cut 13 (10 ∷ [])).shift balanced (fits 13 (10 ∷ [])).forward
              (fits 13 (10 ∷ [])).inside (omega (arith, ap rank at)))
    ]
    | inr (t, e) ↦ elim (Bool-cases (is_undefined p.enumerated_method)) [
      | inl u ↦
          rw (e, u, step_c)
            (lowers _ (cut 13 (10 ∷ [])).shift balanced (fits 13 (10 ∷ [])).forward
              (fits 13 (10 ∷ [])).inside (omega (arith, ap rank at)))
      | inr u ↦
          rw (e, u, step_c)
            (lowers _ (cut 13 (10 ∷ [])).shift balanced (fits 13 (10 ∷ [])).forward
              (fits 13 (10 ∷ [])).inside (omega (arith, ap rank at)))
    ]
  ]

  component_b-Advances :
      (early : Bool)
      → p.step ≡ header_b
      → Advances p raw shift (component_b library memory early p raw shift)
  unfolding component_b cut
  component_b-Advances early at =
      settled early (block (memory 0 shift) raw (if early then new_line else 32 ∷ []) shift)
        (fits_either early)
    where
      fits_either :
          (early : Bool)
          → BlockFits raw shift
              (block (memory 0 shift) raw (if early then new_line else 32 ∷ []) shift)
      fits_either true = fits 13 (10 ∷ [])
      fits_either false = fits 32 []

      below : (early : Bool) → rank (if early then key_value else header_c) ≤ 4
      below true = omega arith
      below false = omega arith

      settled :
          (early : Bool) (b : Block)
          → BlockFits raw shift b
          → Advances p raw shift (elim b.text [
            | none ↦ some (record p { premature = early }, b.shift)
            | some text ↦ some (
              (if is_undefined p.enumerated_method
                  then (let code = library.atoi text in
                      record p {
                        premature = early;
                        step = if early then key_value else header_c;
                        status_code = if leb 100 code && ltb code 600 then code else p.status_code;
                      })
                  else record p {
                    premature = early;
                    step = if early then key_value else header_c;
                    path = some text;
                  }),
              b.shift,
            )
          ])
      settled early b f = elim (Option-cases b.text) [
        | inl gone ↦ rw gone (record {
          balanced = balanced;
          forward = f.forward;
          inside = f.inside;
          moved = inl refl;
        })
        | inr (t, e) ↦ elim (Bool-cases (is_undefined p.enumerated_method)) [
          | inl u ↦
              rw (e, u)
                (lowers _ b.shift balanced f.forward f.inside
                  (omega (arith, ap rank at, below early)))
          | inr u ↦
              rw (e, u)
                (lowers _ b.shift balanced f.forward f.inside
                  (omega (arith, ap rank at, below early)))
        ]
      ]

  step_b-Advances : p.step ≡ header_b → Advances p raw shift (step_b library memory p raw shift)
  unfolding step_b
  step_b-Advances at = elim (Bool-cases (ltb shift (length raw))) [
    | inr outside ↦ rw (outside, step_b) (stays shift (omega arith) h)
    | inl within ↦ elim (Option-cases (find_before (32 ∷ []) (c_string (drop shift raw)))) [
      | inl gone ↦ rw (within, gone, step_b) (stays shift (omega arith) h)
      | inr (spaced, e) ↦
          rw (within, e, step_b)
            (component_b-Advances (ends_early library memory raw (shift + length spaced)) at)
    ]
  ]

  -- what a header line does
  abbrev Lined : Option Payload → Type 0
  Lined none = ⊥
  Lined (some p') =
      IsRedBlack p'.configuration.root × ((p'.step ≡ p.step) ⊎ (p'.step ≡ key_value_again))

  header_line-Lined : (line : Text) → Lined (header_line library memory p line shift)
  unfolding header_line
  header_line-Lined line = elim (Option-cases (behind_colon line)) [
    | inl gone ↦ rw (gone, header_line) (balanced, inl refl)
    | inr (rest, e) ↦ elim (Option-cases (find_before (58 ∷ []) line)) [
      | inl gone ↦ rw (e, gone, header_line) (balanced, inl refl)
      | inr (key, f) ↦ rw (e, f, header_line) (keyed key (strip (skip rest)))
    ]
  ]
    where
      stored :
          (o : Option (Headers × Bool))
          → Sets o
          → Lined (elim o [
            | none ↦ none
            | some (d, true) ↦ some (record p { configuration = d; step = key_value_again })
            | some (d, false) ↦ some (record p { configuration = d })
          ])
      stored none s = s
      stored (some (d, true)) s = (s, inr refl)
      stored (some (d, false)) s = (s, inl refl)

      keyed :
          (key value : Text)
          → Lined (elim key [
            | [] ↦ some p
            | k ∷ ks ↦ elim value [
              | [] ↦ some p
              | v ∷ vs ↦
                  elim (set_header
                    (memory 1 shift)
                    (memory 2 shift)
                    p.configuration
                    (map library.tolower (k ∷ ks))
                    (v ∷ vs)) [
                      | none ↦ none
                      | some (d, true) ↦
                          some (record p { configuration = d; step = key_value_again })
                      | some (d, false) ↦ some (record p { configuration = d })
                    ]
            ]
          ])
      keyed [] value = (balanced, inl refl)
      keyed (k ∷ ks) [] = (balanced, inl refl)
      keyed (k ∷ ks) (v ∷ vs) = stored _ (
          set_header-Sets (memory 1 shift) (memory 2 shift) p.configuration
            (map library.tolower (k ∷ ks)) (v ∷ vs) balanced)

  step_key_value-Advances :
      p.step ≡ key_value → Advances p raw shift (step_key_value library memory p raw shift)
  unfolding step_key_value cut
  step_key_value-Advances at = elim (Option-cases (cut 13 (10 ∷ [])).text) [
    | inl gone ↦ elim (Option-cases (cut 13 (10 ∷ [])).session) [
      | inl nothing ↦
          rw (gone, nothing, step_key_value)
            (stays (cut 13 (10 ∷ [])).shift (fits 13 (10 ∷ [])).forward (fits 13 (10 ∷ [])).inside)
      | inr (n, e) ↦
          rw (gone, e, step_key_value)
            (lowers _ (cut 13 (10 ∷ [])).shift balanced (fits 13 (10 ∷ [])).forward
              (fits 13 (10 ∷ [])).inside (omega (arith, ap rank at)))
    ]
    | inr (t, e) ↦
        rw (e, step_key_value)
          (lined (header_line library memory p t shift) (header_line-Lined t)
            ((fits 13 (10 ∷ [])).consumed t e))
  ]
    where
      lined :
          (o : Option Payload)
          → Lined o
          → shift < (cut 13 (10 ∷ [])).shift
          → Advances p raw shift
              (elim o [ none ↦ none | some p' ↦ some (p', (cut 13 (10 ∷ [])).shift) ])
      lined none l c = l
      lined (some p') (b, inl same) c = record {
        balanced = b;
        forward = (fits 13 (10 ∷ [])).forward;
        inside = (fits 13 (10 ∷ [])).inside;
        moved = inl same;
      }
      lined (some p') (b, inr again) c = record {
        balanced = b;
        forward = (fits 13 (10 ∷ [])).forward;
        inside = (fits 13 (10 ∷ [])).inside;
        moved = inr (omega (arith, c, (fits 13 (10 ∷ [])).inside, ap rank again, ap rank at));
      }

  step_payload-Advances :
      p.step ≡ payload → Advances p raw shift (step_payload library memory p raw shift)
  unfolding step_payload
  step_payload-Advances at = elim (Bool-cases (ltb 0 (content_length library memory p))) [
    | inr empty ↦
        rw (empty, step_payload)
          (lowers _ shift balanced (omega arith) h (omega (arith, ap rank at)))
    | inl filled ↦
        elim (Bool-cases (
          ltb shift (length raw)
          && (leb (content_length library memory p) (length raw - shift) && memory 3 shift))) [
            | inl here ↦
                rw (filled, here, step_payload)
                  (lowers _ (shift + content_length library memory p) balanced (omega arith)
                    (reaches (content_length library memory p) (memory 3 shift) here)
                    (omega (arith, ap rank at)))
            | inr waits ↦ rw (filled, waits, step_payload) (stays shift (omega arith) h)
          ]
  ]
    where
      reaches :
          (n : ℕ) (m : Bool)
          → (ltb shift (length raw) && (leb n (length raw - shift) && m)) ≡ true
          → shift + n ≤ length raw
      reaches n m e = ground arith

  -- A round uses no null pointer, and goes on only with less left to do.
  round-Advances : Advances p raw shift (round library memory p raw shift)
  unfolding round
  round-Advances = by_step p.step refl
    where
      by_step :
          (s : Step) → p.step ≡ s → Advances p raw shift (round_at library memory s p raw shift)
      by_step header_a at = step_a-Advances at
      by_step header_b at = step_b-Advances at
      by_step header_c at = step_c-Advances at
      by_step key_value at = step_key_value-Advances at
      by_step key_value_again at =
          lowers _ shift balanced (omega arith) h (omega (arith, ap rank at))
      by_step payload at = step_payload-Advances at
      by_step completed at = stays shift (omega arith) h

-- the end of a parse that used no null pointer and had the fuel, with the offset inside of the buffer
pub record Ended (raw : Text) (shift : ℕ) (p' : Payload) (shift' : ℕ) : Type 0 where
  pub balanced : IsRedBlack p'.configuration.root
  pub forward : shift ≤ shift'
  pub inside : shift' ≤ length raw

-- `parsed` is the end of a complete message, `incomplete` that of one which is not
abbrev pub Ends : Text → ℕ → Parse → Type 0
Ends raw shift (parsed p shift') = Ended raw shift p shift' × (p.step ≡ completed)
Ends raw shift (incomplete p shift') = Ended raw shift p shift' × (p.step ≢ completed)
Ends raw shift unended = ⊥
Ends raw shift faulted = ⊥
Ends raw shift out_of_fuel = ⊥

pub number-completed :
    (s : Step)
    → ((number s == 6) ≡ true → s ≡ completed) × ((number s == 6) ≡ false → s ≢ completed)
number-completed header_a = (λ e. ground arith, λ e f. ground arith)
number-completed header_b = (λ e. ground arith, λ e f. ground arith)
number-completed header_c = (λ e. ground arith, λ e f. ground arith)
number-completed key_value = (λ e. ground arith, λ e f. ground arith)
number-completed key_value_again = (λ e. ground arith, λ e f. ground arith)
number-completed payload = (λ e. ground arith, λ e f. ground arith)
number-completed completed = (λ e. refl, λ e f. ground arith)

ending-Ends :
    (raw : Text) (shift : ℕ) (p : Payload) (shift' : ℕ)
    → Ended raw shift p shift'
    → Ends raw shift (ending p shift')
ending-Ends raw shift p shift' e = elim (Bool-cases (number p.step == 6)) [
  | inl over ↦ rw over (e, (number-completed p.step).0 over)
  | inr more ↦ rw more (e, (number-completed p.step).1 more)
]

module _ (library : Library) (memory : Allocations) where
  rounds-Ends :
      (k : ℕ) (p : Payload) (raw : Text) (start shift : ℕ)
      → IsRedBlack p.configuration.root
      → start ≤ shift
      → shift ≤ length raw
      → measure raw p shift < k
      → Ends raw start (rounds library memory k p raw shift)
  unfolding rounds
  rounds-Ends zero p raw start shift b f h m = absurd (omega (arith, m))
  rounds-Ends (suc k) p raw start shift b f h m =
      after (λ p' shift' b' f' h' m'. rounds-Ends k p' raw start shift' b' f' h' m')
        (round library memory p raw shift) (round-Advances library memory p raw shift b h)
    where
      same_number : (m n : ℕ) → (m == n || m == 6) ≡ false → m ≢ n
      same_number m n e f = ground arith

      smaller :
          (p' : Payload) (shift' : ℕ)
          → (p'.step ≡ p.step) ⊎ (measure raw p' shift' < measure raw p shift)
          → number p'.step ≢ number p.step
          → measure raw p' shift' < k
      smaller p' shift' (inl same) n = absurd (n (ap number same))
      smaller p' shift' (inr less) n = omega (arith, less, m)

      Again : Type 0
      Again =
          (p' : Payload) (shift' : ℕ)
          → IsRedBlack p'.configuration.root
          → start ≤ shift'
          → shift' ≤ length raw
          → measure raw p' shift' < k
          → Ends raw start (rounds library memory k p' raw shift')

      after :
          Again
          → (o : Stepped) → Advances p raw shift o
          → Ends raw start (elim o [
            | none ↦ faulted
            | some (p', shift') ↦ elim (number p'.step == number p.step || number p'.step == 6) [
              | true ↦ ending p' shift'
              | false ↦ rounds library memory k p' raw shift'
            ]
          ])
      after again none a = a
      after again (some (p', shift')) a =
          elim (Bool-cases (number p'.step == number p.step || number p'.step == 6)) [
            | inl stops ↦ rw stops (
                ending-Ends raw start p' shift' (record {
                  balanced = a.balanced;
                  forward = omega (arith, f, a.forward);
                  inside = a.inside;
                }))
            | inr goes ↦ rw goes (
                again p' shift' a.balanced (omega (arith, f, a.forward)) a.inside
                  (smaller p' shift' a.moved (same_number (number p'.step) (number p.step) goes)))
          ]

  -- a byte behind the buffer is a byte of the region
  is_terminated-le :
      (size : ℕ) (region : List ℕ) → is_terminated size region ≡ true → size ≤ length region
  unfolding is_terminated
  is_terminated-le zero region h = omega arith
  is_terminated-le (suc size) [] h = absurd (false≢true h)
    where
      false≢true : false ≡ true → ⊥
      false≢true h = ground arith
  is_terminated-le (suc size) (b ∷ region) h = omega (arith, is_terminated-le size region h)

  -- With fuel for eight rounds and more a byte, the parse of a buffer that a zero follows, from an offset inside of
  -- it, ends, whatever the buffer holds and whichever allocations fail: it uses no null pointer, keeps the headers
  -- balanced, and leaves the offset inside of the buffer. It returns `NOICE` exactly if the step it ends in is the
  -- one of a complete message.
  pub unserialize-Ends :
      (k : ℕ) (p : Payload) (region : List ℕ) (buffer_size shift : ℕ)
      → IsRedBlack p.configuration.root
      → is_terminated buffer_size region ≡ true
      → shift ≤ buffer_size
      → 8 * buffer_size + 6 < k
      → Ends
          (take buffer_size region)
          shift
          (unserialize library memory k p region buffer_size shift)
  unfolding unserialize
  unserialize-Ends k p region buffer_size shift b ends h fuel =
      elim (Bool-cases (ltb (number p.step) 6 && ltb shift buffer_size)) [
        | inl goes ↦
            rw (goes, ends, unserialize)
              (rounds-Ends k p raw shift shift b (omega arith) (omega (arith, h, size))
                (omega (arith, fuel, size, rank-le p.step)))
        | inr over ↦
            rw (over, unserialize)
              (ending-Ends raw shift p shift
                (record { balanced = b; forward = omega arith; inside = omega (arith, h, size) }))
      ]
    where
      raw : Text
      raw = take buffer_size region

      size : length raw ≡ buffer_size
      size = length-take buffer_size region (is_terminated-le buffer_size region ends)

      rank-le : (s : Step) → rank s ≤ 6
      rank-le s = ground arith

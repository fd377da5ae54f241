-- ===== src/HttpPayload/Transfer/Safety.antt =====
-- The buffer of `f_http_payload_read`: no write behind its end, and a zero behind what was received.
use mathlib.Core.Path.{subst}
use coremio.Prelude.{
  ℕ, zero, suc, ◌+◌, ◌-◌, ◌*◌, ◌<◌, ◌≤◌, ◌≡◌, refl, ap, Bool, true, false, Option, none, some, List,
  [], ◌∷◌, ◌++◌, if◌then◌else◌, leb, ◌==◌, ==_iff, Bool-cases, ◌⊎◌, inl, inr, arith, length,
  length-append, length-drop, length-take, take, drop,
}
use coremio.GrowingArray.{fresh}
use coremio.RedBlackTree.Rules.{IsRedBlack}
use coremio.HttpPayload.{completed, Payload, Library, number}
use coremio.HttpPayload.Balanced.{Option-cases}
use coremio.HttpPayload.Unserialize.{
  Allocations, Parse, parsed, incomplete, faulted, out_of_fuel, unended, is_terminated, unserialize,
}
use coremio.HttpPayload.Unserialize.Progress.{Ends, unserialize-Ends, number-completed}
use coremio.HttpPayload.Transfer.{
  increment_size, Answer, Reading, Transfer, complete, failed, without_memory, not_initialized,
  waiting, unterminated, overran, crashed, bytes_of, zero_from, write_from, residual_space,
  needs_space, grown, shifted, parse, verdict, receive, read_round, read,
}

-- all bytes from an offset on are zero
abbrev pub ZeroFrom : ℕ → List ℕ → Type 0
ZeroFrom n [] = Unit
ZeroFrom zero (b ∷ bytes) = (b ≡ 0) × ZeroFrom zero bytes
ZeroFrom (suc n) (b ∷ bytes) = ZeroFrom n bytes

-- a buffer of a length with zeros from an offset on
record Zeroed (size n : ℕ) (o : Option (List ℕ)) : Type 0 where
  bytes : List ℕ
  is_some : o ≡ some bytes
  same_size : length bytes ≡ n
  zeroed : ZeroFrom size bytes

-- the first byte stays in front
kept_byte :
    (size n b : ℕ) (o : Option (List ℕ))
    → Zeroed size n o
    → Zeroed (suc size) (suc n) (elim o [ none ↦ none | some rest ↦ some (b ∷ rest) ])
kept_byte size n b o z = rw z.is_some (record {
  bytes = b ∷ z.bytes;
  is_some = refl;
  same_size = ap suc z.same_size;
  zeroed = z.zeroed;
})

zero_from-Zeroed :
    (offset n : ℕ) (bytes : List ℕ)
    → offset + n ≡ length bytes
    → Zeroed offset (length bytes) (zero_from offset n bytes)
unfolding zero_from
zero_from-Zeroed zero zero [] h = record {
  bytes = [];
  is_some = refl;
  same_size = refl;
  zeroed = tt;
}
zero_from-Zeroed zero zero (b ∷ bytes) h = absurd (omega (arith, h))
zero_from-Zeroed zero (suc n) [] h = absurd (omega (arith, h))
zero_from-Zeroed zero (suc n) (b ∷ bytes) h =
    let z = zero_from-Zeroed zero n bytes (omega (arith, h)) in
    rw z.is_some (record {
      bytes = 0 ∷ z.bytes;
      is_some = refl;
      same_size = ap suc z.same_size;
      zeroed = (refl, z.zeroed);
    })
zero_from-Zeroed (suc offset) n [] h = absurd (omega (arith, h))
zero_from-Zeroed (suc offset) n (b ∷ bytes) h =
    kept_byte offset (length bytes) b _ (zero_from-Zeroed offset n bytes (omega (arith, h)))

write_from-Zeroed :
    (offset end : ℕ) (written bytes : List ℕ)
    → end ≡ offset + length written
    → end ≤ length bytes
    → ZeroFrom offset bytes
    → Zeroed end (length bytes) (write_from offset written bytes)
unfolding write_from
write_from-Zeroed zero zero [] bytes e h z = record {
  bytes = bytes;
  is_some = refl;
  same_size = refl;
  zeroed = z;
}
write_from-Zeroed zero (suc end) [] bytes e h z = absurd (omega (arith, e))
write_from-Zeroed zero end (w ∷ written) [] e h z = absurd (omega (arith, e, h))
write_from-Zeroed zero zero (w ∷ written) (b ∷ bytes) e h z = absurd (omega (arith, e))
write_from-Zeroed zero (suc end) (w ∷ written) (b ∷ bytes) e h z =
    kept_byte end (length bytes) w _
      (write_from-Zeroed zero end written bytes (omega (arith, e)) (omega (arith, h)) z.1)
write_from-Zeroed (suc offset) end written [] e h z = absurd (omega (arith, e, h))
write_from-Zeroed (suc offset) zero written (b ∷ bytes) e h z = absurd (omega (arith, e))
write_from-Zeroed (suc offset) (suc end) written (b ∷ bytes) e h z =
    kept_byte end (length bytes) b _
      (write_from-Zeroed offset end written bytes (omega (arith, e)) (omega (arith, h)) z)

is_terminated-ZeroFrom :
    (size : ℕ) (bytes : List ℕ)
    → size < length bytes
    → ZeroFrom size bytes
    → is_terminated size bytes ≡ true
unfolding is_terminated
is_terminated-ZeroFrom zero [] h z = absurd (omega (arith, h))
is_terminated-ZeroFrom zero (b ∷ bytes) h z = (==_iff b 0).1 z.0
is_terminated-ZeroFrom (suc size) [] h z = absurd (omega (arith, h))
is_terminated-ZeroFrom (suc size) (b ∷ bytes) h z =
    is_terminated-ZeroFrom size bytes (omega (arith, h)) z

fresh-ZeroFrom : (n : ℕ) → ZeroFrom zero (fresh (λ _. 0) n)
unfolding fresh
fresh-ZeroFrom zero = tt
fresh-ZeroFrom (suc n) = (refl, fresh-ZeroFrom n)

length-fresh : (garbage : ℕ → ℕ) (n : ℕ) → length (fresh garbage n) ≡ n
unfolding fresh
length-fresh garbage zero = refl
length-fresh garbage (suc n) = ap suc (length-fresh (λ i. garbage (suc i)) n)

append-ZeroFrom :
    (size : ℕ) (bytes zeros : List ℕ)
    → size ≤ length bytes
    → ZeroFrom size bytes
    → ZeroFrom zero zeros
    → ZeroFrom size (bytes ++ zeros)
append-ZeroFrom zero [] zeros h z y = y
append-ZeroFrom (suc size) [] zeros h z y = absurd (omega (arith, h))
append-ZeroFrom zero (b ∷ bytes) zeros h z y =
    (z.0, append-ZeroFrom zero bytes zeros (omega arith) z.1 y)
append-ZeroFrom (suc size) (b ∷ bytes) zeros h z y =
    append-ZeroFrom size bytes zeros (omega (arith, h)) z y

drop-ZeroFrom :
    (shift size : ℕ) (bytes : List ℕ)
    → shift ≤ size
    → ZeroFrom size bytes
    → ZeroFrom (size - shift) (drop shift bytes)
drop-ZeroFrom zero size bytes h z = subst (λ n. ZeroFrom n bytes) (minus_zero size) z
  where
    minus_zero : (n : ℕ) → n ≡ n - 0
    minus_zero n = omega arith
drop-ZeroFrom (suc shift) size [] h z = tt
drop-ZeroFrom (suc shift) zero (b ∷ bytes) h z = absurd (omega (arith, h))
drop-ZeroFrom (suc shift) (suc size) (b ∷ bytes) h z =
    subst (λ n. ZeroFrom n (drop shift bytes)) (the_same shift size)
      (drop-ZeroFrom shift size bytes (omega (arith, h)) z)
  where
    the_same : (a b : ℕ) → b - a ≡ suc b - suc a
    the_same a b = omega arith

-- what each round keeps: zeros behind what was received, inside of the buffer
pub record Ready (r : Reading) : Type 0 where
  pub inside : r.payload_size ≤ length (bytes_of r.buffer)
  pub zeroed : ZeroFrom r.payload_size (bytes_of r.buffer)
  pub parsed_before : r.shift ≤ r.payload_size
  pub balanced : IsRedBlack r.payload.configuration.root

-- `f_read` gives as many bytes as it is asked for at most
abbrev pub Fits : ℕ → Option (List ℕ) → Type 0
Fits n none = Unit
Fits n (some bytes) = length bytes ≤ n

abbrev pub KeepsSize : List (Bool × Answer) → Type 0
KeepsSize [] = Unit
KeepsSize ((can_grow, answer) ∷ answers) = ((n : ℕ) → Fits n (answer n)) × KeepsSize answers

-- an end with none of the faults
abbrev pub IsSafe : Transfer → Type 0
IsSafe (complete r) = Ready r × (r.payload.step ≡ completed)
IsSafe (failed r) = Ready r
IsSafe (without_memory r) = Ready r
IsSafe (not_initialized r) = ⊥
IsSafe (waiting r) = Ready r
IsSafe unterminated = ⊥
IsSafe overran = ⊥
IsSafe crashed = ⊥

grown-Zeroed :
    (garbage : ℕ → ℕ) (buffer : Option (List ℕ)) (size : ℕ)
    → size ≤ length (bytes_of buffer)
    → ZeroFrom size (bytes_of buffer)
    → Zeroed size (length (bytes_of buffer) + increment_size) (grown garbage buffer size)
unfolding grown
grown-Zeroed garbage buffer size h z =
    subst (λ n. Zeroed size n (grown garbage buffer size)) total
      (zero_from-Zeroed size (residual_space buffer size + increment_size)
        (bytes_of buffer ++ fresh garbage increment_size) (omega (arith, total, residual buffer h)))
  where
    total :
        length (bytes_of buffer ++ fresh garbage increment_size)
        ≡ length (bytes_of buffer) + increment_size
    total = omega (
      arith,
      length-append (bytes_of buffer) (fresh garbage increment_size),
      length-fresh garbage increment_size,
    )

    residual :
        (b : Option (List ℕ))
        → size ≤ length (bytes_of b)
        → size + residual_space b size ≡ length (bytes_of b)
    residual none h = omega (arith, h)
    residual (some bytes) h = omega (arith, h)

module _ (library : Library) (memory : Allocations) (garbage : ℕ → ℕ) where
  shifted-Ready :
      (r : Reading) (bytes : List ℕ) (p : Payload) (shift : ℕ)
      → r.payload_size ≤ length bytes
      → ZeroFrom r.payload_size bytes
      → shift ≤ r.payload_size
      → IsRedBlack p.configuration.root
      → Ready (shifted r bytes shift p)
  unfolding shifted
  shifted-Ready r bytes p shift h z s b = record {
    inside = omega (
      arith,
      h,
      s,
      length-append (drop shift bytes) (fresh (λ _. 0) shift),
      length-drop shift bytes,
      length-fresh (λ _. 0) shift,
    );
    zeroed =
        append-ZeroFrom (r.payload_size - shift) (drop shift bytes) (fresh (λ _. 0) shift)
          (omega (arith, h, s, length-drop shift bytes))
          (drop-ZeroFrom shift r.payload_size bytes s z) (fresh-ZeroFrom shift);
    parsed_before = omega arith;
    balanced = b;
  }

  verdict-IsSafe : (r : Reading) → Ready r → IsSafe (verdict r)
  unfolding verdict
  verdict-IsSafe r e = elim (Bool-cases (number r.payload.step == 6)) [
    | inl over ↦ rw (over, verdict) (e, (number-completed r.payload.step).0 over)
    | inr more ↦ rw (more, verdict) e
  ]

  parse-IsSafe :
      (r : Reading) (bytes : List ℕ)
      → r.payload_size < length bytes
      → ZeroFrom r.payload_size bytes
      → r.shift ≤ r.payload_size
      → IsRedBlack r.payload.configuration.root
      → IsSafe (parse library memory garbage r bytes)
  unfolding parse
  parse-IsSafe r bytes h z s b =
      by_end
        (unserialize library memory (8 * r.payload_size + 7) r.payload bytes r.payload_size r.shift)
        (unserialize-Ends library memory (8 * r.payload_size + 7) r.payload bytes r.payload_size
          r.shift b (is_terminated-ZeroFrom r.payload_size bytes h z) s (omega arith))
    where
      raw_size : length (take r.payload_size bytes) ≡ r.payload_size
      raw_size = length-take r.payload_size bytes (omega (arith, h))

      by_end :
          (o : Parse)
          → Ends (take r.payload_size bytes) r.shift o
          → IsSafe (elim o [
            | parsed p shift ↦ verdict (shifted r bytes shift p)
            | incomplete p shift ↦ verdict (shifted r bytes shift p)
            | unended ↦ unterminated
            | faulted ↦ crashed
            | out_of_fuel ↦ crashed
          ])
      by_end (parsed p shift) (e, at) = verdict-IsSafe (shifted r bytes shift p) (
          shifted-Ready r bytes p shift (omega (arith, h)) z (omega (arith, e.inside, raw_size))
            e.balanced)
      by_end (incomplete p shift) (e, at) = verdict-IsSafe (shifted r bytes shift p) (
          shifted-Ready r bytes p shift (omega (arith, h)) z (omega (arith, e.inside, raw_size))
            e.balanced)
      by_end unended e = e
      by_end faulted e = e
      by_end out_of_fuel e = e

  receive-IsSafe :
      (answer : Answer) (r : Reading) (bytes : List ℕ)
      → ((n : ℕ) → Fits n (answer n))
      → r.payload_size < length bytes
      → ZeroFrom r.payload_size bytes
      → Ready r
      → IsSafe (receive library memory garbage answer r bytes)
  unfolding receive
  receive-IsSafe answer r bytes fits h z ready =
      elim (Option-cases (answer (length bytes - r.payload_size - 1))) [
        | inl fails ↦ rw (fails, receive) ready
        | inr (got, e) ↦
            let end = r.payload_size + length got in
            let in_front : end + 1 ≤ length bytes = omega (
              arith,
              h,
              subst (λ o. Fits (length bytes - r.payload_size - 1) o) e
                  (fits (length bytes - r.payload_size - 1)),
            ) in
            let filled =
              write_from-Zeroed r.payload_size end got bytes refl (omega (arith, in_front)) z in
            let next : Reading = record r { payload_size = end } in
            rw (e, filled.is_some, receive)
              (parse-IsSafe next filled.bytes (omega (arith, in_front, filled.same_size))
                filled.zeroed (omega (arith, ready.parsed_before)) ready.balanced)
      ]

  read_round-IsSafe :
      (can_grow : Bool) (answer : Answer) (r : Reading)
      → ((n : ℕ) → Fits n (answer n))
      → Ready r
      → IsSafe (read_round library memory garbage can_grow answer r)
  unfolding read_round
  read_round-IsSafe can_grow answer r fits ready =
      rw (enough r.payload_size (length (bytes_of r.buffer)) ready.inside, read_round)
        (elim (Bool-cases (needs_space r.buffer r.payload_size)) [
          | inl needs ↦ rw needs (by_memory (Bool-cases can_grow))
          | inr has_space ↦ rw has_space (
              receive-IsSafe answer r (bytes_of r.buffer) fits (space r.buffer has_space)
                ready.zeroed ready)
        ])
    where
      enough : (a b : ℕ) → a ≤ b → leb a b ≡ true
      enough a b h = ground arith

      space :
          (b : Option (List ℕ))
          → needs_space b r.payload_size ≡ false
          → r.payload_size < length (bytes_of b)
      space none h = ground arith
      space (some bytes) h = ground arith

      larger :
          Zeroed r.payload_size
            (length (bytes_of r.buffer) + increment_size)
            (grown garbage r.buffer r.payload_size)
      larger = grown-Zeroed garbage r.buffer r.payload_size ready.inside ready.zeroed

      next : Reading
      next = record r { buffer = some larger.bytes }

      by_memory :
          (can_grow ≡ true) ⊎ (can_grow ≡ false)
          → IsSafe (
              if can_grow
              then elim (grown garbage r.buffer r.payload_size) [
                | none ↦ overran
                | some bytes ↦
                    receive library memory garbage answer (record r { buffer = some bytes }) bytes
              ]
              else without_memory r)
      by_memory (inr n) = rw n ready
      by_memory (inl y) =
          rw (y, larger.is_some)
            (receive-IsSafe answer next larger.bytes fits
              (omega (arith, larger.same_size, ready.inside)) larger.zeroed
              (record {
                inside = omega (arith, larger.same_size, ready.inside);
                zeroed = larger.zeroed;
                parsed_before = ready.parsed_before;
                balanced = ready.balanced;
              }))

  -- From a buffer whose bytes behind those received are zero, or from no buffer, and with an `f_read` that gives
  -- no more bytes than it is asked for: whatever it gives, and whichever allocations fail, `f_http_payload_read`
  -- never writes behind its buffer, the strings it parses always end inside the buffer, the parser never uses a
  -- null pointer and ends, and a message it reports as complete is complete. The bytes behind those received
  -- are zero again.
  pub read-IsSafe :
      (answers : List (Bool × Answer)) (r : Reading)
      → KeepsSize answers
      → Ready r
      → IsSafe (read library memory garbage answers r)
  unfolding read
  read-IsSafe [] r keeps ready = ready
  read-IsSafe ((can_grow, answer) ∷ answers) r (fits, keeps) ready =
      after (λ r' ready'. read-IsSafe answers r' keeps ready')
        (read_round library memory garbage can_grow answer r)
        (read_round-IsSafe can_grow answer r fits ready)
    where
      after :
          ((r' : Reading) → Ready r' → IsSafe (read library memory garbage answers r'))
          → (t : Transfer) → IsSafe t
          → IsSafe (elim t [
            | waiting r' ↦ read library memory garbage answers r'
            | complete r' ↦ complete r'
            | failed r' ↦ failed r'
            | without_memory r' ↦ without_memory r'
            | not_initialized r' ↦ not_initialized r'
            | unterminated ↦ unterminated
            | overran ↦ overran
            | crashed ↦ crashed
          ])
      after again (complete r') s = s
      after again (failed r') s = s
      after again (without_memory r') s = s
      after again (not_initialized r') s = s
      after again (waiting r') s = again r' s
      after again unterminated s = s
      after again overran s = s
      after again crashed s = s

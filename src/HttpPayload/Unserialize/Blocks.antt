-- ===== src/HttpPayload/Unserialize/Blocks.antt =====
-- A block that is cut off ends inside of the buffer.
use coremio.Prelude.{
  ℕ, suc, ◌+◌, ◌<◌, ◌≤◌, ◌≡◌, Bool, true, false, none, some, List, [], ◌∷◌, ltb, if◌then◌else◌,
  Bool-cases, inl, inr, arith, Text, c_string, starts_with, find_before, length, drop, length-drop,
}
use coremio.HttpPayload.Balanced.{Option-cases}
use coremio.HttpPayload.Unserialize.{Block, block}

starts_with-length :
    (needle text : Text) → starts_with needle text ≡ true → length needle ≤ length text
starts_with-length [] text h = omega arith
starts_with-length (n ∷ needle) [] h = ground arith
starts_with-length (n ∷ needle) (c ∷ text) h = ground (arith, starts_with-length needle text)

find_before-length :
    (needle text found : Text)
    → find_before needle text ≡ some found
    → length found + length needle ≤ length text
find_before-length needle [] found h = ground arith
find_before-length needle (c ∷ text) found h = elim (Bool-cases (starts_with needle (c ∷ text))) [
  | inl here ↦ front found (rw here at h) (starts_with-length needle (c ∷ text) here)
  | inr later ↦ elim (Option-cases (find_before needle text)) [
    | inl gone ↦ absurd (none≢some found (rw (later, gone) at h))
    | inr (xs, e) ↦ behind xs found (rw (later, e) at h) (find_before-length needle text xs e)
  ]
]
  where
    front :
        (found : Text)
        → some [] ≡ some found
        → length needle ≤ suc (length text)
        → length found + length needle ≤ suc (length text)
    front found h l = ground arith

    none≢some : (found : Text) → none ≡ some found → ⊥
    none≢some found h = ground arith

    behind :
        (xs found : Text)
        → some (c ∷ xs) ≡ some found
        → length xs + length needle ≤ length text
        → length found + length needle ≤ suc (length text)
    behind xs found h l = ground arith

c_string-length : (bytes : List ℕ) → length (c_string bytes) ≤ length bytes
c_string-length [] = omega arith
c_string-length (b ∷ bytes) = ground (arith, c_string-length bytes)

pub record BlockFits (raw : Text) (shift : ℕ) (b : Block) : Type 0 where
  pub forward : shift ≤ b.shift
  pub inside : b.shift ≤ length raw
  pub consumed : (t : Text) → b.text ≡ some t → shift < b.shift

pub block-BlockFits :
    (memory : Bool) (raw : Text) (n : ℕ) (needle : Text) (shift : ℕ)
    → shift ≤ length raw
    → BlockFits raw shift (block memory raw (n ∷ needle) shift)
unfolding block
block-BlockFits memory raw n needle shift h = elim (Bool-cases (ltb shift (length raw))) [
  | inr outside ↦
      rw (outside, block)
        (record { forward = omega arith; inside = h; consumed = λ t e. absurd (none≢some t e) })
  | inl within ↦ elim (Option-cases (find_before (n ∷ needle) (c_string (drop shift raw)))) [
    | inl gone ↦
        rw (within, gone, block)
          (record { forward = omega arith; inside = h; consumed = λ t e. absurd (none≢some t e) })
    | inr (found, e) ↦ rw (within, e, block) (at_block found (room found e) memory)
  ]
]
  where
    none≢some : (t : Text) → none ≡ some t → ⊥
    none≢some t h = ground arith

    room :
        (found : Text)
        → find_before (n ∷ needle) (c_string (drop shift raw)) ≡ some found
        → length found + length (n ∷ needle) + shift ≤ length raw
    room found e = omega (
      arith,
      find_before-length (n ∷ needle) (c_string (drop shift raw)) found e,
      c_string-length (drop shift raw),
      length-drop shift raw,
      h,
    )

    at_block :
        (found : Text)
        → length found + length (n ∷ needle) + shift ≤ length raw
        → (m : Bool)
        → BlockFits raw shift (elim found [
          | [] ↦ record {
            text = none;
            shift = shift + length (n ∷ needle);
            session = some (length (n ∷ needle));
          }
          | c ∷ cs ↦
              if m
              then record {
                text = some (c ∷ cs);
                shift = shift + length (c ∷ cs) + length (n ∷ needle);
                session = some (length (c ∷ cs) + length (n ∷ needle));
              }
              else record {
                text = none;
                shift = shift + length (n ∷ needle);
                session = some (length (n ∷ needle));
              }
        ])
    at_block [] fits m = record {
      forward = omega arith;
      inside = omega (arith, fits);
      consumed = λ t e. absurd (none≢some t e);
    }
    at_block (c ∷ cs) fits true = record {
      forward = omega arith;
      inside = omega (arith, fits);
      consumed = λ t e. omega arith;
    }
    at_block (c ∷ cs) fits false = record {
      forward = omega arith;
      inside = omega (arith, fits);
      consumed = λ t e. absurd (none≢some t e);
    }

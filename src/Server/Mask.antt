-- ===== src/Server/Mask.antt =====
-- A mask of leading ones keeps the leading bits.
use Prim.Native.Nat.{min, bit_and, digits, bit_and-bitwise}
use native.Mathlib.Nat.{pow-suc, pow-succ', div-div-eq-div-mul}
use mathlib.Core.Path.{subst}
use coremio.Prelude.{
  Bool, true, ◌&&◌, ◌↔◌, ltb, ◌==◌, ==_iff, if◌then◌else◌, ℕ, zero, suc, ◌+◌, ◌-◌, ◌*◌, ◌/◌, ◌%◌,
  ◌^◌, ◌≤◌, ◌<◌, ◌≡◌, refl, sym, ap, ◌∙◌, arith,
}

and_digits-fuel :
    (n m a b : ℕ) → a ≤ n → a ≤ m → digits (λ b. zero) min n a b ≡ digits (λ b. zero) min m a b
and_digits-fuel zero zero a b p q = refl
and_digits-fuel zero (suc m) zero b p q = refl
and_digits-fuel zero (suc m) (suc a) b p q = absurd (omega arith)
and_digits-fuel (suc n) zero zero b p q = refl
and_digits-fuel (suc n) zero (suc a) b p q = absurd (omega arith)
and_digits-fuel (suc n) (suc m) zero b p q = refl
and_digits-fuel (suc n) (suc m) (suc a) b p q =
    omega (arith, and_digits-fuel n m (suc a / 2) (b / 2) (omega arith) (omega arith))

-- the lowest digit
bit_and_step : (a b : ℕ) → bit_and a b ≡ bit_and (a / 2) (b / 2) * 2 + min (a % 2) (b % 2)
bit_and_step zero b = omega (arith, bit_and-bitwise 0 b, bit_and-bitwise 0 (b / 2))
bit_and_step (suc a) b = omega (
  arith,
  bit_and-bitwise (suc a) b,
  bit_and-bitwise (suc a / 2) (b / 2),
  and_digits-fuel a (suc a / 2) (suc a / 2) (b / 2) (omega arith) (omega arith),
)

-- `m` ones
ones : ℕ → ℕ
ones zero = 0
ones (suc m) = ones m * 2 + 1

-- `k` zeros behind a number, and the last `k` digits off
doubled : ℕ → ℕ → ℕ
doubled zero x = x
doubled (suc k) x = doubled k x * 2

halved : ℕ → ℕ → ℕ
halved zero x = x
halved (suc k) x = halved k (x / 2)

-- whether a number has `m` digits at most
Below : ℕ → ℕ → Type 0
Below zero x = x ≡ 0
Below (suc m) x = Below m (x / 2)

bit_and-zero : (m x : ℕ) → Below m x → bit_and x 0 ≡ 0
unfolding Below
bit_and-zero zero x h = rw h (bit_and-bitwise 0 0)
bit_and-zero (suc m) x h = omega (arith, bit_and_step x 0, bit_and-zero m (x / 2) h)

bit_and-ones : (m x : ℕ) → Below m x → bit_and x (ones m) ≡ x
unfolding ones Below
bit_and-ones zero x h = rw h (bit_and-bitwise 0 0)
bit_and-ones (suc m) x h = omega (
  arith,
  bit_and_step x (ones m * 2 + 1),
  bit_and-ones m (x / 2) h,
  ap (λ y. bit_and (x / 2) y) same,
)
  where
    same : (ones m * 2 + 1) / 2 ≡ ones m
    same = omega arith

bit_and-doubled : (k x c : ℕ) → bit_and x (doubled k c) ≡ doubled k (bit_and (halved k x) c)
unfolding doubled halved
bit_and-doubled zero x c = refl
bit_and-doubled (suc k) x c = omega (
  arith,
  bit_and_step x (doubled k c * 2),
  bit_and-doubled k (x / 2) c,
  ap (λ y. bit_and (x / 2) y) same,
)
  where
    same : (doubled k c * 2) / 2 ≡ doubled k c
    same = omega arith

doubled-cancel : (k a b : ℕ) → doubled k a ≡ doubled k b → a ≡ b
unfolding doubled
doubled-cancel zero a b h = h
doubled-cancel (suc k) a b h = doubled-cancel k a b (omega (arith, h))

<-Below : (m x : ℕ) → x < 2 ^ m → Below m x
unfolding Below
<-Below zero x h = omega (arith, h)
<-Below (suc m) x h = <-Below m (x / 2) (omega (arith, h, pow-suc 2 m))

halved-Below : (k m n x : ℕ) → k + m ≡ n → Below n x → Below m (halved k x)
unfolding Below halved
halved-Below zero m n x e h = subst (λ n. Below n x) (same m n e) h
  where
    same : (m n : ℕ) → 0 + m ≡ n → n ≡ m
    same m n e = omega (arith, e)
halved-Below (suc k) m zero x e h = absurd (omega (arith, e))
halved-Below (suc k) m (suc n) x e h = halved-Below k m n (x / 2) (omega (arith, e)) h

halved-div : (k x : ℕ) → halved k x ≡ x / 2 ^ k
unfolding halved
halved-div zero x = omega arith
halved-div (suc k) x =
    halved-div k (x / 2) ∙ div-div-eq-div-mul x 2 (2 ^ k) ∙ ap (λ d. x / d) (sym (pow-succ' 2 k))

-- the mask of `m` leading ones, of 32
abbrev pub mask_of : ℕ → ℕ
mask_of m = if ltb 0 m then (2 ^ 32 - 1) * 2 ^ (32 - m) % 2 ^ 32 else m

all_below : ℕ → (ℕ → Bool) → Bool
all_below zero p = true
all_below (suc n) p = p n && all_below n p

all_below_at : (n : ℕ) (p : ℕ → Bool) (x : ℕ) → all_below n p ≡ true → x < n → p x ≡ true
unfolding all_below
all_below_at zero p x h lt = absurd (omega arith)
all_below_at (suc n) p x h lt = ground (arith, all_below_at n p x)

mask_of_table : all_below 33 (λ m. mask_of m == doubled (32 - m) (ones m)) ≡ true
unfolding all_below doubled ones
mask_of_table = refl

mask_of_lem : (m : ℕ) → m ≤ 32 → mask_of m ≡ doubled (32 - m) (ones m)
mask_of_lem m h = (==_iff (mask_of m) (doubled (32 - m) (ones m))).0 (
    all_below_at 33 (λ m. mask_of m == doubled (32 - m) (ones m)) m mask_of_table
      (omega (arith, h)))

masked :
    (m x : ℕ) → m ≤ 32 → x < 2 ^ 32 → bit_and x (mask_of m) ≡ doubled (32 - m) (x / 2 ^ (32 - m))
masked m x h small =
    ap (bit_and x) (mask_of_lem m h)
    ∙ bit_and-doubled (32 - m) x (ones m)
    ∙ ap (doubled (32 - m)) (
        bit_and-ones m (halved (32 - m) x)
          (halved-Below (32 - m) m 32 x (omega (arith, h)) (<-Below 32 x small))
        ∙ halved-div (32 - m) x)

-- two addresses agree under the mask exactly if their leading bits are the same
pub mask_of_iff :
    (m a b : ℕ)
    → m ≤ 32
    → a < 2 ^ 32
    → b < 2 ^ 32
    → (bit_and a (mask_of m) ≡ bit_and b (mask_of m)) ↔ (a / 2 ^ (32 - m) ≡ b / 2 ^ (32 - m))
mask_of_iff m a b h sa sb = (
  λ e.
      doubled-cancel (32 - m) (a / 2 ^ (32 - m)) (b / 2 ^ (32 - m))
        (sym (masked m a h sa) ∙ e ∙ masked m b h sb),
  λ e. masked m a h sa ∙ ap (doubled (32 - m)) e ∙ sym (masked m b h sb),
)

-- ===== src/Prelude/Bits.antt =====
-- `bit_and`, `bit_or` and shifts at variables: a number is read bit by bit.
use Prim.Native.Nat.{
  ℕ, zero, suc, ◌+◌, ◌-◌, ◌*◌, ◌/◌, ◌%◌, ◌^◌, ◌≤◌, ◌<◌, min, max, bit_and, bit_or, digits, bitwise,
  bit_and-bitwise, bit_or-bitwise,
}
use mathlib.Core.Path.{◌≡◌, refl, ap, ◌∙◌}
use native.Mathlib.Omega.{arith}
use native.Mathlib.Nat.{pow-suc, one-le-pow}
use nebula_desk.Prelude.Tests.{ltb, ◌==◌, if◌then◌else◌}

-- The native operations are recursions on binary digits with fuel; any fuel that suffices agrees.
module _ (edge : ℕ → ℕ) (op : ℕ → ℕ → ℕ) where
  digits_agree : (n m a b : ℕ) → a ≤ n → a ≤ m → digits edge op n a b ≡ digits edge op m a b
  digits_agree zero zero a b p q = refl
  digits_agree zero (suc m) zero b p q = refl
  digits_agree zero (suc m) (suc a) b p q = absurd (omega arith)
  digits_agree (suc n) zero zero b p q = refl
  digits_agree (suc n) zero (suc a) b p q = absurd (omega arith)
  digits_agree (suc n) (suc m) zero b p q = refl
  digits_agree (suc n) (suc m) (suc a) b p q =
      rw (digits_agree n m (suc a / 2) (b / 2) (omega arith) (omega arith))

  bitwise-suc :
      (a b : ℕ)
      → bitwise edge op (suc a) b ≡ bitwise edge op (suc a / 2) (b / 2) * 2 + op (suc a % 2) (b % 2)
  bitwise-suc a b =
      omega (arith, digits_agree a (suc a / 2) (suc a / 2) (b / 2) (omega arith) (omega arith))

bit_or-digit : (a b : ℕ) → bit_or a b ≡ bit_or (a / 2) (b / 2) * 2 + max (a % 2) (b % 2)
bit_or-digit zero b = simp bit_or-bitwise (omega arith)
bit_or-digit (suc a) b = simp bit_or-bitwise (bitwise-suc (λ y. y) max a b)

bit_and-digit : (a b : ℕ) → bit_and a b ≡ bit_and (a / 2) (b / 2) * 2 + min (a % 2) (b % 2)
bit_and-digit zero b = simp bit_and-bitwise (omega arith)
bit_and-digit (suc a) b = simp bit_and-bitwise (bitwise-suc (λ y. 0) min a b)

-- The bit of `n` at place `k`, 0 or 1.
pub bit : ℕ → ℕ → ℕ
bit zero n = n % 2
bit (suc k) n = bit k (n / 2)

pub bit-le_one : (k n : ℕ) → bit k n ≤ 1
unfolding bit
bit-le_one zero n = omega arith
bit-le_one (suc k) n = bit-le_one k (n / 2)

pub bit-bit_or : (k a b : ℕ) → bit k (bit_or a b) ≡ max (bit k a) (bit k b)
unfolding bit
bit-bit_or zero a b = omega (arith, bit_or-digit a b)
bit-bit_or (suc k) a b = ap (bit k) (omega (arith, bit_or-digit a b)) ∙ bit-bit_or k (a / 2) (b / 2)

pub bit-bit_and : (k a b : ℕ) → bit k (bit_and a b) ≡ min (bit k a) (bit k b)
unfolding bit
bit-bit_and zero a b = omega (arith, bit_and-digit a b)
bit-bit_and (suc k) a b =
    ap (bit k) (omega (arith, bit_and-digit a b)) ∙ bit-bit_and k (a / 2) (b / 2)

pub bit-zero : (k : ℕ) → bit k 0 ≡ 0
unfolding bit
bit-zero zero = refl
bit-zero (suc k) = bit-zero k

double_half : (n : ℕ) → n * 2 / 2 ≡ n
double_half n = omega arith

pub bit-pow : (j k : ℕ) → bit j (2 ^ k) ≡ (if j == k then 1 else 0)
unfolding bit
bit-pow zero zero = refl
bit-pow zero (suc k) = rw pow-suc (ground arith)
bit-pow (suc j) zero = bit-zero j ∙ ground arith
bit-pow (suc j) (suc k) = ap (bit j) (rw pow-suc (double_half (2 ^ k))) ∙ bit-pow j k ∙ ground arith

pub bit-shift : (j s n : ℕ) → bit j (n * 2 ^ s) ≡ (if ltb j s then 0 else bit (j - s) n)
unfolding bit
bit-shift j zero n = ground arith
bit-shift zero (suc s) n = rw pow-suc (ground arith)
bit-shift (suc j) (suc s) n = ap (bit j) (rw pow-suc (omega arith)) ∙ bit-shift j s n ∙ ground arith

pow_pos : (w : ℕ) → 0 < 2 ^ w
pow_pos w = one-le-pow w 2 (omega arith)

half_mod : (n p : ℕ) → 0 < p → n % (p * 2) / 2 ≡ n / 2 % p
half_mod n p h = grind arith

pub bit-mod : (j w n : ℕ) → bit j (n % 2 ^ w) ≡ (if ltb j w then bit j n else 0)
unfolding bit
bit-mod j zero n = ap (bit j) (omega arith) ∙ bit-zero j ∙ ground arith
bit-mod zero (suc w) n = rw pow-suc (grind (arith, pow_pos w))
bit-mod (suc j) (suc w) n =
    ap (bit j) (rw pow-suc (half_mod n (2 ^ w) (pow_pos w))) ∙ bit-mod j w (n / 2) ∙ ground arith

bit_and-zero_below : (m n : ℕ) → n ≤ m → bit_and n 0 ≡ 0
bit_and-zero_below m zero h = refl
bit_and-zero_below zero (suc n) h = absurd (omega arith)
bit_and-zero_below (suc m) (suc n) h =
    omega (arith, bit_and-digit (suc n) 0, bit_and-zero_below m (suc n / 2) (omega arith))

-- Masking with one bit shows whether it is set.
pub bit_and-pow : (n k : ℕ) → bit_and n (2 ^ k) ≡ bit k n * 2 ^ k
unfolding bit
bit_and-pow n zero =
    omega (arith, bit_and-digit n 1, bit_and-zero_below (n / 2) (n / 2) (omega arith))
bit_and-pow n (suc k) =
    bit_and-digit n (2 ^ suc k)
    ∙ rw (pow-suc, double_half (2 ^ k), bit_and-pow (n / 2) k) (grind arith)

-- The test `n & (1 << k) == 0`.
pub mask_test : (n k : ℕ) → (bit_and n (2 ^ k) == 0) ≡ (bit k n == 0)
mask_test n k = grind (arith, bit_and-pow n k, pow_pos k, bit-le_one k n)

bit_or-zero_below : (m n : ℕ) → n ≤ m → bit_or n 0 ≡ n
bit_or-zero_below m zero h = refl
bit_or-zero_below zero (suc n) h = absurd (omega arith)
bit_or-zero_below (suc m) (suc n) h =
    omega (arith, bit_or-digit (suc n) 0, bit_or-zero_below m (suc n / 2) (omega arith))

even_part : (n p : ℕ) → (n * (p * 2) / 2 ≡ n * p) × (n * (p * 2) % 2 ≡ 0)
even_part n p = (grind arith, grind arith)

-- `(a << k) | b` with `b` below `2 ^ k`.
pub bit_or-add : (k a b : ℕ) → b < 2 ^ k → bit_or (a * 2 ^ k) b ≡ a * 2 ^ k + b
bit_or-add zero a zero h = omega (arith, bit_or-zero_below (a * 1) (a * 1) (omega arith))
bit_or-add zero a (suc b) h = absurd (omega arith)
bit_or-add (suc k) a b h =
    let h' : b < 2 ^ k * 2 = rw pow-suc at h in
    rw pow-suc (
      rw
        (
          bit_or-digit (a * (2 ^ k * 2)) b,
          (even_part a (2 ^ k)).0,
          (even_part a (2 ^ k)).1,
          bit_or-add k a (b / 2) (omega arith),
        )
        (grind arith))

bit-ext_at : (n a b : ℕ) → a ≤ n → b ≤ n → ((k : ℕ) → bit k a ≡ bit k b) → a ≡ b
unfolding bit
bit-ext_at zero a b p q h = omega arith
bit-ext_at (suc n) a b p q h =
    let halves : a / 2 ≡ b / 2 =
      bit-ext_at n (a / 2) (b / 2) (omega arith) (omega arith) (λ k. h (suc k)) in
    let low : a % 2 ≡ b % 2 = h 0 in omega arith

-- Numbers with the same bits are equal.
pub bit-ext : (a b : ℕ) → ((k : ℕ) → bit k a ≡ bit k b) → a ≡ b
bit-ext a b h = bit-ext_at (a + b) a b (omega arith) (omega arith) h

pub bit_and-absorb : (a b : ℕ) → bit_and (bit_and a b) b ≡ bit_and a b
bit_and-absorb a b =
    bit-ext (bit_and (bit_and a b) b) (bit_and a b)
      λ k. omega (arith, bit-bit_and k (bit_and a b) b, bit-bit_and k a b)

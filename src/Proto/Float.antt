-- ===== src/Proto/Float.antt =====
-- IEEE 754 single precision numbers by their 32 bits, as far as the wire format uses them: the
-- test for a finite value, the order, and `f32::clamp`.
use nebula_desk.Prelude.{
  ℕ, ◌+◌, ◌%◌, ◌^◌, ltb, leb, ◌==◌, if◌then◌else◌, Bool, true, false, not, ◌&&◌, ◌||◌, ◌≡◌, arith,
}

-- The bits without the sign.
abbrev pub magnitude : ℕ → ℕ
magnitude v = v % 2 ^ 31

abbrev pub is_negative : ℕ → Bool
is_negative v = leb (2 ^ 31) v

-- The bits of an infinity, which all finite magnitudes lie below and all NaNs above.
abbrev pub infinity : ℕ
infinity = 0x7f80_0000

unfoldable pub is_finite : ℕ → Bool
is_finite v = ltb (magnitude v) infinity

-- `a < b`, false where one is NaN; the two zeros are equal.
unfoldable pub float_lt : ℕ → ℕ → Bool
float_lt a b =
    if ltb infinity (magnitude a) || ltb infinity (magnitude b)
    then false
    else if is_negative a
    then (if is_negative b
        then ltb (magnitude b) (magnitude a)
        else not (magnitude a + magnitude b == 0))
    else if is_negative b
    then false
    else ltb (magnitude a) (magnitude b)

abbrev pub zero_f32 : ℕ
zero_f32 = 0

abbrev pub one_f32 : ℕ
one_f32 = 0x3f80_0000

-- `self.clamp(low, high)`
unfoldable pub clamp : ℕ → ℕ → ℕ → ℕ
clamp low high v =
    let v' = if float_lt v low then low else v in if float_lt high v' then high else v'

-- A finite value that is neither below 0 nor above 1.
pub record InUnit (v : ℕ) : Type 0 where
  pub finite : is_finite v ≡ true
  pub low : float_lt v zero_f32 ≡ false
  pub high : float_lt one_f32 v ≡ false

pub clamp-InUnit : (v : ℕ) → is_finite v ≡ true → InUnit (clamp zero_f32 one_f32 v)
unfolding clamp is_finite float_lt
clamp-InUnit v h = ground arith

pub clamp_unit : (v : ℕ) → InUnit v → clamp zero_f32 one_f32 v ≡ v
unfolding clamp
clamp_unit v u = ground arith

-- `a <= b` and `a == b`, false where one is NaN.
unfoldable pub float_le : ℕ → ℕ → Bool
unfolding float_lt
float_le a b =
    not (ltb infinity (magnitude a)) && not (ltb infinity (magnitude b)) && not (float_lt b a)

unfoldable pub float_eq : ℕ → ℕ → Bool
float_eq a b =
    not (ltb infinity (magnitude a))
    && not (ltb infinity (magnitude b))
    && (a == b || magnitude a + magnitude b == 0)

-- ===== src/Proto/Readers.antt =====
-- What the integer readers do with the bytes that the writers put down, and with any others.
use nebula_desk.Prelude.{
  ℕ, ◌+◌, ◌^◌, ◌≤◌, ◌<◌, List, [], ◌∷◌, ◌++◌, length, drop, ltb, Bool, true, false, ◌≡◌, refl,
  arith, sym, All, All-take, All-drop, take-append-drop, length-append, length-take, length-drop,
  take-append, drop-append, Bool-cases, inl, inr, ap, ◌∙◌, subst,
}
use nebula_desk.Prelude.{take as first}
use nebula_desk.Prelude.Bytes.{
  IsByte, to_le, from_le, length-to_le, from_le-to_le, to_le-from_le, from_le-lt,
}
use native.Mathlib.Nat.{mod-eq_of_lt}
use nebula_desk.Proto.{ProtoError, truncated, Result, ok, err, ◌>>=◌, refuse, take, read_int}

take_front : (n : ℕ) (xs ys : List ℕ) → length xs ≡ n → take n (xs ++ ys) ≡ ok (xs, ys)
unfolding take
take_front n xs ys h =
    rw (← h) (ground (arith, length-append xs ys, take-append xs ys, drop-append xs ys))

-- A reader gives back the integer that was written, and leaves what follows.
pub read_int-to_le :
    (n v : ℕ) (rest : List ℕ) → v < 256 ^ n → read_int n (to_le n v ++ rest) ≡ ok (v, rest)
unfolding read_int
read_int-to_le n v rest h =
    rw (take_front n (to_le n v) rest (length-to_le n v)) (rw (from_le-to_le n v h))

pub read_u8-cons : (b : ℕ) (rest : List ℕ) → b < 256 → read_int 1 (b ∷ rest) ≡ ok (b, rest)
read_u8-cons b rest h =
    let one : to_le 1 b ≡ b ∷ [] = unfold to_le in rw (mod-eq_of_lt h) in
    rw one at (read_int-to_le 1 b rest h)

-- A reader refuses what is too short, with both lengths.
pub read_int_short :
    (n : ℕ) (buf : List ℕ) → length buf < n → read_int n buf ≡ err (truncated n (length buf))
unfolding read_int take
read_int_short n buf h = ground arith

read_int_long :
    (n : ℕ) (buf : List ℕ)
    → n ≤ length buf
    → read_int n buf ≡ ok (from_le (first n buf), drop n buf)
unfolding read_int take
read_int_long n buf h = ground arith

split_parts :
    (n : ℕ) (buf : List ℕ)
    → All IsByte buf
    → n ≤ length buf
    → (buf ≡ to_le n (from_le (first n buf)) ++ drop n buf)
      × (from_le (first n buf) < 256 ^ n)
      × All IsByte (drop n buf)
      × (length buf ≡ n + length (drop n buf))
split_parts n buf bytes h =
    let size : length (first n buf) ≡ n = omega (arith, length-take n buf) in
    let front : All IsByte (first n buf) = All-take IsByte n buf bytes in
    let whole : to_le n (from_le (first n buf)) ≡ first n buf =
      ap (λ (k : ℕ). to_le k (from_le (first n buf))) (sym size)
      ∙ to_le-from_le (first n buf) front in
    (
      rw whole (sym (take-append-drop n buf)),
      (rw size at (from_le-lt (first n buf) front)),
      All-drop IsByte n buf bytes,
      omega (arith, length-drop n buf),
    )

-- What a reader accepts is the written form of what it returns.
pub read_int-eq_ok :
    (n : ℕ) (buf : List ℕ) {v : ℕ} {rest : List ℕ}
    → All IsByte buf
    → read_int n buf ≡ ok (v, rest)
    → (buf ≡ to_le n v ++ rest) × (v < 256 ^ n) × All IsByte rest × (length buf ≡ n + length rest)
read_int-eq_ok n buf {v} {rest} bytes h = elim (Bool-cases (ltb (length buf) n)) [
  | inl short ↦ cc (read_int_short n buf (ground arith))
  | inr long ↦
      let value : v ≡ from_le (first n buf) = cc (read_int_long n buf (ground arith)) in
      let left : rest ≡ drop n buf = cc (read_int_long n buf (ground arith)) in
      rw (value, left) (split_parts n buf bytes (ground arith))
]

-- Inversion of a chain that succeeds, one step at a time: the last argument takes what the step
-- shows and the success of the rest of the chain.
module _ {ℓ κ} {B : Type ℓ} {P : Type κ} {b : B} where
  pub bind_inv {μ} :
      {A : Type μ} (m : Result A) (f : A → Result B)
      → (m >>= f) ≡ ok b
      → ((a : A) → m ≡ ok a → f a ≡ ok b → P)
      → P
  bind_inv (ok a) f h k = k a refl h
  bind_inv (err e) f h k = cc

  pub refuse_inv :
      (test : Bool) (e : ProtoError) (f : Unit {0} → Result B)
      → (refuse test e >>= f) ≡ ok b
      → (test ≡ false → f tt ≡ ok b → P)
      → P
  refuse_inv true e f h k = cc
  refuse_inv false e f h k = k refl h

  pub read_inv :
      (n : ℕ) (buf : List ℕ) (f : ℕ × List ℕ → Result B)
      → All IsByte buf
      → (read_int n buf >>= f) ≡ ok b
      → ((v : ℕ) (rest : List ℕ)
          → buf ≡ to_le n v ++ rest
          → v < 256 ^ n
          → All IsByte rest
          → f (v, rest) ≡ ok b
          → P)
      → P
  read_inv n buf f bytes h k = bind_inv (read_int n buf) f h (λ r e g.
      let (whole, small, rest_bytes, _) = read_int-eq_ok n buf bytes e in
      k r.0 r.1 whole small rest_bytes g)

-- The end of a chain: what holds of the value that it returns holds of the result.
pub ok_inv {ℓ κ} : {A : Type ℓ} (P : A → Type κ) (a : A) {b : A} → ok a ≡ ok b → P a → P b
ok_inv P a {b} h p = let same : a ≡ b = cc in subst P same p

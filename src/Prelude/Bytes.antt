-- ===== src/Prelude/Bytes.antt =====
-- Little-endian and big-endian integers over lists of bytes: `to_le_bytes`, `from_le_bytes` and
-- their `be` forms of the standard library.
use Prim.Native.Nat.{ℕ, zero, suc, ◌+◌, ◌*◌, ◌/◌, ◌%◌, ◌^◌, ◌<◌}
use mathlib.Core.Path.{◌≡◌, refl, sym, ap, ◌∙◌}
use mathlib.Core.List.{List, [], ◌∷◌, reverse, reverse-reverse, reverse-cons}
use native.Mathlib.Omega.{arith}
use native.Mathlib.Nat.{pow-suc}
use mathlib.Core.Bool.{Bool, true, false, ◌&&◌}
use nebula_desk.Prelude.Tests.{◌==◌}
use nebula_desk.Prelude.Lists.{length, length-append, All, All-append}

abbrev pub IsByte : ℕ → Type 0
IsByte b = b < 256

-- The lowest `k` bytes of `v`, lowest first.
unfoldable pub to_le : ℕ → ℕ → List ℕ
to_le zero v = []
to_le (suc k) v = v % 256 ∷ to_le k (v / 256)

unfoldable pub from_le : List ℕ → ℕ
from_le [] = 0
from_le (b ∷ bs) = b + 256 * from_le bs

pub length-to_le : (k v : ℕ) → length (to_le k v) ≡ k
unfolding to_le
length-to_le zero v = refl
length-to_le (suc k) v = ap suc (length-to_le k (v / 256))

pub to_le-IsByte : (k v : ℕ) → All IsByte (to_le k v)
unfolding to_le
to_le-IsByte zero v = tt
to_le-IsByte (suc k) v = (omega arith, to_le-IsByte k (v / 256))

pub from_le-to_le : (k v : ℕ) → v < 256 ^ k → from_le (to_le k v) ≡ v
unfolding to_le from_le
from_le-to_le zero v h = omega arith
from_le-to_le (suc k) v h =
    let h' : v < 256 ^ k * 256 = rw pow-suc at h in
    omega (arith, from_le-to_le k (v / 256) (omega arith))

pub to_le-from_le : (bs : List ℕ) → All IsByte bs → to_le (length bs) (from_le bs) ≡ bs
unfolding to_le from_le
to_le-from_le [] h = refl
to_le-from_le (b ∷ bs) (hb, hbs) =
    let low : (b + 256 * from_le bs) % 256 ≡ b = omega arith in
    let high : (b + 256 * from_le bs) / 256 ≡ from_le bs = omega arith in
    rw (low, high, to_le-from_le bs hbs)

pub from_le-lt : (bs : List ℕ) → All IsByte bs → from_le bs < 256 ^ length bs
unfolding from_le
from_le-lt [] h = omega arith
from_le-lt (b ∷ bs) (hb, hbs) = rw pow-suc (omega (arith, from_le-lt bs hbs))

-- The network order of the standard library's `to_be_bytes`.
unfoldable pub to_be : ℕ → ℕ → List ℕ
to_be k v = reverse (to_le k v)

unfoldable pub from_be : List ℕ → ℕ
from_be bs = from_le (reverse bs)

pub from_be-to_be : (k v : ℕ) → v < 256 ^ k → from_be (to_be k v) ≡ v
unfolding to_be from_be
from_be-to_be k v h = rw reverse-reverse (from_le-to_le k v h)

length-reverse : (bs : List ℕ) → length (reverse bs) ≡ length bs
length-reverse [] = refl
length-reverse (b ∷ bs) =
    ap length (reverse-cons b bs)
    ∙ omega (arith, length-append (reverse bs) (b ∷ []), length-reverse bs)

All-reverse : (bs : List ℕ) → All IsByte bs → All IsByte (reverse bs)
All-reverse [] h = tt
All-reverse (b ∷ bs) h =
    rw reverse-cons (All-append IsByte (reverse bs) (b ∷ []) (All-reverse bs h.1) (h.0, tt))

pub length-to_be : (k v : ℕ) → length (to_be k v) ≡ k
unfolding to_be
length-to_be k v = length-reverse (to_le k v) ∙ length-to_le k v

pub to_be-IsByte : (k v : ℕ) → All IsByte (to_be k v)
unfolding to_be
to_be-IsByte k v = All-reverse (to_le k v) (to_le-IsByte k v)

pub to_be-from_be : (bs : List ℕ) → All IsByte bs → to_be (length bs) (from_be bs) ≡ bs
unfolding to_be from_be
to_be-from_be bs h =
    ap (λ k. reverse (to_le k (from_le (reverse bs)))) (sym (length-reverse bs))
    ∙ ap reverse (to_le-from_le (reverse bs) (All-reverse bs h))
    ∙ reverse-reverse bs

-- Equality of byte sequences.
abbrev pub same_bytes : List ℕ → List ℕ → Bool
same_bytes [] [] = true
same_bytes (a ∷ x) (b ∷ y) = a == b && same_bytes x y
same_bytes _ _ = false

pub same_bytes-≡ : (x y : List ℕ) → same_bytes x y ≡ true → x ≡ y
same_bytes-≡ [] [] h = refl
same_bytes-≡ [] (b ∷ y) h = cc
same_bytes-≡ (a ∷ x) [] h = cc
same_bytes-≡ (a ∷ x) (b ∷ y) h =
    let first : a ≡ b = ground arith in let rest : x ≡ y = same_bytes-≡ x y (ground arith) in cc

pub same_bytes_refl : (x : List ℕ) → same_bytes x x ≡ true
same_bytes_refl [] = refl
same_bytes_refl (a ∷ x) = let rest = same_bytes_refl x in ground arith

-- ===== src/Prelude/Maps.antt =====
-- Maps as association lists with numbers as keys: a key is written once, at its place.
use Prim.Native.Nat.{ℕ}
use mathlib.Core.Path.{◌≡◌, refl, sym, ◌∙◌, subst}
use mathlib.Core.Logic.{◌≢◌, inl, inr}
use mathlib.Core.Bool.{Bool, true, false}
use mathlib.Core.List.{List, [], ◌∷◌}
use mathlib.Core.Option.{Option, none, some}
use native.Mathlib.Omega.{arith}
use nebula_desk.Prelude.Tests.{◌==◌, if◌then◌else◌, Bool-cases}

abbrev pub Map {ℓ} : Type ℓ → Type ℓ
Map V = List (ℕ × V)

module _ {ℓ} {V : Type ℓ} where
  unfoldable pub lookup : ℕ → Map V → Option V
  lookup k [] = none
  lookup k ((j, v) ∷ m) = if j == k then some v else lookup k m

  unfoldable pub insert : ℕ → V → Map V → Map V
  insert k v [] = (k, v) ∷ []
  insert k v ((j, w) ∷ m) = if j == k then (k, v) ∷ m else (j, w) ∷ insert k v m

  unfoldable pub erase : ℕ → Map V → Map V
  erase k [] = []
  erase k ((j, w) ∷ m) = if j == k then erase k m else (j, w) ∷ erase k m

  abbrev pub has : ℕ → Map V → Bool
  has k m = elim (lookup k m) [ none ↦ false | some v ↦ true ]

module _ {ℓ} {V : Type ℓ} where
  pub lookup-insert_self : (k : ℕ) (v : V) (m : Map V) → lookup k (insert k v m) ≡ some v
  unfolding lookup insert
  lookup-insert_self k v [] = ground arith
  lookup-insert_self k v ((j, w) ∷ m) = let rest = lookup-insert_self k v m in ground arith

  pub lookup-insert_ne :
      (k j : ℕ) (v : V) (m : Map V) → k ≢ j → lookup j (insert k v m) ≡ lookup j m
  unfolding lookup insert
  lookup-insert_ne k j v [] h = ground arith
  lookup-insert_ne k j v ((i, w) ∷ m) h = let rest = lookup-insert_ne k j v m h in ground arith

  pub lookup-erase_self : (k : ℕ) (m : Map V) → lookup k (erase k m) ≡ none
  unfolding lookup erase
  lookup-erase_self k [] = refl
  lookup-erase_self k ((j, w) ∷ m) = let rest = lookup-erase_self k m in ground arith

  pub lookup-erase_ne : (k j : ℕ) (m : Map V) → k ≢ j → lookup j (erase k m) ≡ lookup j m
  unfolding lookup erase
  lookup-erase_ne k j [] h = refl
  lookup-erase_ne k j ((i, w) ∷ m) h = let rest = lookup-erase_ne k j m h in ground arith

-- No key is there twice.
abbrev pub Keyed {ℓ} : {V : Type ℓ} → Map V → Type ℓ
Keyed [] = Unit
Keyed ((k, v) ∷ m) = (lookup k m ≡ none) × Keyed m

module _ {ℓ} {V : Type ℓ} where
  lookup-insert-none :
      (k j : ℕ) (v : V) (m : Map V) → lookup j m ≡ none → j ≢ k → lookup j (insert k v m) ≡ none
  lookup-insert-none k j v m h ne = lookup-insert_ne k j v m (λ e. ne (sym e)) ∙ h

  lookup-erase-none : (k j : ℕ) (m : Map V) → lookup j m ≡ none → lookup j (erase k m) ≡ none
  unfolding lookup erase
  lookup-erase-none k j [] h = refl
  lookup-erase-none k j ((i, w) ∷ m) h =
      let rest = lookup-erase-none k j m (ground arith) in ground arith

  pub insert-Keyed : (k : ℕ) (v : V) (m : Map V) → Keyed m → Keyed (insert k v m)
  unfolding insert lookup
  insert-Keyed k v [] h = (refl, tt)
  insert-Keyed k v ((j, w) ∷ m) h = elim (Bool-cases (j == k)) [
    | inl same ↦
        let e : j ≡ k = ground arith in
        let put : insert k v ((j, w) ∷ m) ≡ (k, v) ∷ m = rw same refl in
        rw put (subst (λ i. lookup i m ≡ none) e h.0, h.1)
    | inr other ↦
        let put : insert k v ((j, w) ∷ m) ≡ (j, w) ∷ insert k v m = rw other refl in
        rw put (lookup-insert-none k j v m h.0 (λ e. ground arith), insert-Keyed k v m h.1)
  ]

  pub erase-Keyed : (k : ℕ) (m : Map V) → Keyed m → Keyed (erase k m)
  unfolding erase
  erase-Keyed k [] h = tt
  erase-Keyed k ((j, w) ∷ m) h = elim (Bool-cases (j == k)) [
    | inl same ↦
        let put : erase k ((j, w) ∷ m) ≡ erase k m = rw same refl in rw put (erase-Keyed k m h.1)
    | inr other ↦
        let put : erase k ((j, w) ∷ m) ≡ (j, w) ∷ erase k m = rw other refl in
        rw put (lookup-erase-none k j m h.0, erase-Keyed k m h.1)
  ]

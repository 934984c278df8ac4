-- ===== src/Proto/Transfer/SafeName.antt =====
-- The check of a file name that the peer offers.
use nebula_desk.Prelude.{
  ℕ, ◌≤◌, ◌<◌, List, [], ◌∷◌, leb, ◌==◌, Bool, true, false, not, ◌&&◌, ◌≡◌, ◌≢◌, ◌↔◌, ◌⊎◌, inl, inr,
  refl, arith, length, All,
}
use nebula_desk.Proto.Transfer.{has_byte, is_dots, starts_with_dot, has_drive, has_safe_name}

-- A byte that no path separator and no terminator of a C string is.
abbrev pub IsPlain : ℕ → Type 0
IsPlain b = (b ≢ b'/') × (b ≢ 0x5c) × (b ≢ 0)

abbrev pub NotHidden : List ℕ → Type 0
NotHidden [] = Unit
NotHidden (a ∷ name) = a ≢ b'.'

abbrev pub NoDrive : List ℕ → Type 0
NoDrive (a ∷ b ∷ name) = b ≢ b':'
NoDrive _ = Unit

pub record IsSafe (name : List ℕ) : Type 0 where
  pub some_bytes : 0 < length name
  pub few_bytes : length name ≤ 255
  pub plain : All IsPlain name
  pub visible : NotHidden name
  pub no_drive : NoDrive name

IsPlain-bytes :
    (name : List ℕ)
    → has_byte b'/' name ≡ false
    → has_byte 0x5c name ≡ false
    → has_byte 0 name ≡ false
    → All IsPlain name
unfolding has_byte
IsPlain-bytes [] p q r = tt
IsPlain-bytes (b ∷ name) p q r = (
  (λ e. ground arith, λ e. ground arith, λ e. ground arith),
  IsPlain-bytes name (ground arith) (ground arith) (ground arith),
)

has_byte_plain :
    (b : ℕ) (name : List ℕ)
    → (b ≡ b'/') ⊎ (b ≡ 0x5c) ⊎ (b ≡ 0)
    → All IsPlain name
    → has_byte b name ≡ false
unfolding has_byte
has_byte_plain b [] h p = refl
has_byte_plain b (c ∷ name) h p = ground (arith, has_byte_plain b name h p.1)

dots_hidden :
    (name : List ℕ) → NotHidden name → (is_dots name ≡ false) × (starts_with_dot name ≡ false)
unfolding is_dots starts_with_dot
dots_hidden [] h = (refl, refl)
dots_hidden (a ∷ []) h = (ground arith, ground arith)
dots_hidden (a ∷ b ∷ []) h = (ground arith, ground arith)
dots_hidden (a ∷ b ∷ c ∷ name) h = (refl, ground arith)

not_hidden : (name : List ℕ) → starts_with_dot name ≡ false → NotHidden name
unfolding starts_with_dot
not_hidden [] h = tt
not_hidden (a ∷ name) h = λ e. ground arith

drive_absent : (name : List ℕ) → (has_drive name ≡ false) ↔ NoDrive name
unfolding has_drive
drive_absent [] = (λ h. tt, λ h. refl)
drive_absent (a ∷ []) = (λ h. tt, λ h. refl)
drive_absent (a ∷ b ∷ name) = (λ h e. ground arith, λ h. ground arith)

-- A conjunction of the tests as they stand, and the facts that they say.
module _ (n : ℕ) (dots slash back nul hidden drive : Bool) where
  abbrev Tests : Type 0
  Tests =
      (not (n == 0)
        && leb n 255
        && not dots
        && not slash
        && not back
        && not nul
        && not hidden
        && not drive)
      ≡ true

  abbrev Facts : Type 0
  Facts =
      (0 < n)
      × (n ≤ 255)
      × (slash ≡ false)
      × (back ≡ false)
      × (nul ≡ false)
      × (hidden ≡ false)
      × (drive ≡ false)

  tests-Facts : Tests → Facts
  tests-Facts h = ground arith

  facts-Tests : dots ≡ false → Facts → Tests
  facts-Tests d h = ground arith

-- A name passes the check exactly when it is one plain path component: 1 to 255 bytes, no slash,
-- no backslash and no zero byte, not beginning with a dot, and with no colon in second place.
pub has_safe_name-IsSafe : (name : List ℕ) → (has_safe_name name ≡ true) ↔ IsSafe name
unfolding has_safe_name
has_safe_name-IsSafe name = (forward, backward)
  where
    forward : has_safe_name name ≡ true → IsSafe name
    forward h =
        let f : Facts (length name) (is_dots name) (has_byte b'/' name) (has_byte 0x5c name)
            (has_byte 0 name) (starts_with_dot name) (has_drive name) =
          tests-Facts _ (is_dots name) _ _ _ _ _ h in
        record {
          some_bytes = f.0;
          few_bytes = f.1;
          plain = IsPlain-bytes name f.2 f.3 f.4;
          visible = not_hidden name f.5;
          no_drive = (drive_absent name).0 f.6;
        }

    backward : IsSafe name → has_safe_name name ≡ true
    backward s =
        facts-Tests (length name) (is_dots name) (has_byte b'/' name) (has_byte 0x5c name)
          (has_byte 0 name) (starts_with_dot name) (has_drive name) (dots_hidden name s.visible).0
          (
            s.some_bytes,
            s.few_bytes,
            has_byte_plain b'/' name (inl refl) s.plain,
            has_byte_plain 0x5c name (inr (inl refl)) s.plain,
            has_byte_plain 0 name (inr (inr refl)) s.plain,
            (dots_hidden name s.visible).1,
            (drive_absent name).1 s.no_drive,
          )

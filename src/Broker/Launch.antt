-- ===== src/Broker/Launch.antt =====
-- What a ticket may launch (crates/nebula-common/src/application.rs), and the claims of a ticket
-- (crates/nebula-common/src/ticket.rs). `version_of` stands for the hash of the serialized launch, and
-- `encoded_len` for the length of that serialization. Texts are bytes; ids, and the ticket id, which
-- are only compared, are numbers. Times are seconds of the Unix epoch.
use nebula_desk.Prelude.{
  ℕ, ◌+◌, ◌-◌, ◌*◌, List, [], ◌∷◌, length, ltb, leb, ◌==◌, Bool, true, false, not, ◌&&◌, ◌||◌,
  Option, none, some,
}
use nebula_desk.Prelude.Bytes.{same_bytes}

abbrev pub Text : Type 0
Text = List ℕ

abbrev pub clock_skew : ℕ
clock_skew = 30

pub record SessionPolicy : Type 0 where
  pub clipboard : Bool
  pub file_transfer : Bool
  pub audio : Bool
  pub input : Bool

abbrev pub view_only : SessionPolicy
view_only = record { clipboard = false; file_transfer = false; audio = false; input = false }

abbrev pub full : SessionPolicy
full = record { clipboard = true; file_transfer = true; audio = true; input = true }

pub data SessionRole : Type 0 where
  viewer controller admin : SessionRole

unfoldable pub max_policy : SessionRole → SessionPolicy
max_policy viewer = view_only
max_policy controller = full
max_policy admin = full

abbrev same_bool : Bool → Bool → Bool
same_bool true b = b
same_bool false b = not b

unfoldable pub same_policy : SessionPolicy → SessionPolicy → Bool
same_policy p q =
    same_bool p.clipboard q.clipboard
    && (same_bool p.file_transfer q.file_transfer
        && (same_bool p.audio q.audio && same_bool p.input q.input))

unfoldable pub application_policy : SessionPolicy → SessionPolicy
application_policy policy = record {
  clipboard = false;
  audio = false;
  file_transfer = false;
  input = policy.input;
}

pub record ApplicationLaunch : Type 0 where
  pub launch_path : Text
  pub launch_args : List Text
  pub working_dir : Option Text

abbrev pub is_ascii_alphabetic : ℕ → Bool
is_ascii_alphabetic b = (leb 65 b && leb b 90) || (leb 97 b && leb b 122)

abbrev pub is_hexdigit : ℕ → Bool
is_hexdigit b = (leb 48 b && leb b 57) || ((leb 65 b && leb b 70) || (leb 97 b && leb b 102))

-- A rooted path of Unix, a network path or a drive path of Windows.
unfoldable pub absolute : Text → Bool
absolute [] = false
absolute (a ∷ []) = a == b'/'
absolute (a ∷ b ∷ []) = a == b'/' || (a == 92 && b == 92)
absolute (a ∷ b ∷ c ∷ rest) =
    a == b'/'
    || ((a == 92 && b == 92) || (b == b':' && (is_ascii_alphabetic a && (c == 92 || c == b'/'))))

abbrev pub contains_nul : Text → Bool
contains_nul [] = false
contains_nul (b ∷ rest) = b == 0 || contains_nul rest

unfoldable pub text : Text → Bool
text s = leb (length s) 4096 && not (contains_nul s)

unfoldable pub all_text : List Text → Bool
unfolding text
all_text [] = true
all_text (s ∷ rest) = text s && all_text rest

abbrev pub total_len : List Text → ℕ
total_len [] = 0
total_len (s ∷ rest) = length s + total_len rest

unfoldable pub dir_fits : Option Text → Bool
unfolding absolute text
dir_fits none = true
dir_fits (some s) = absolute s && text s

module _ (encoded_len : ApplicationLaunch → Option ℕ) where
  abbrev pub encoding_fits : ApplicationLaunch → Bool
  encoding_fits launch = elim (encoded_len launch) [ none ↦ false | some n ↦ leb n (16 * 1024) ]

  -- `ApplicationLaunch::validate`
  unfoldable pub valid_launch : ApplicationLaunch → Bool
  unfolding absolute text all_text dir_fits
  valid_launch launch =
      absolute launch.launch_path
      && (text launch.launch_path
          && (leb (length launch.launch_args) 64
              && (all_text launch.launch_args
                  && (leb (total_len launch.launch_args) (16 * 1024)
                      && (dir_fits launch.working_dir && encoding_fits launch)))))

pub data LaunchTarget : Type 0 where
  desktop : LaunchTarget
  application : ℕ → Text → ApplicationLaunch → LaunchTarget

unfoldable pub is_application : LaunchTarget → Bool
is_application desktop = false
is_application (application resource_id version launch) = true

abbrev pub all_hex : Text → Bool
all_hex [] = true
all_hex (b ∷ rest) = is_hexdigit b && all_hex rest

module _ (encoded_len : ApplicationLaunch → Option ℕ) (version_of : ApplicationLaunch → Text) where
  -- `LaunchTarget::validate`
  unfoldable pub valid_target : LaunchTarget → ℕ → SessionPolicy → Bool
  unfolding valid_launch same_policy application_policy
  valid_target desktop resource policy = true
  valid_target (application resource_id version launch) resource policy =
      resource_id == resource
      && (length version == 64
          && (all_hex version
              && (same_bytes version (version_of launch)
                  && (same_policy policy (application_policy policy)
                      && valid_launch encoded_len launch))))

-- The issuer and the audience are looked at when the ticket is verified, and not later.
pub record TicketClaims : Type 0 where
  pub jti : ℕ
  pub iat : ℕ
  pub exp : ℕ
  pub sid : ℕ
  pub tid : ℕ
  pub uid : ℕ
  pub mid : ℕ
  pub rid : ℕ
  pub role : SessionRole
  pub policy : SessionPolicy
  pub launch_target : LaunchTarget
  pub agent_key : Text
  pub relay_addr : Text
  pub relay_pin : Text

unfoldable pub is_valid_at : TicketClaims → ℕ → Bool
is_valid_at claims now = leb claims.iat (now + clock_skew) && ltb now (claims.exp + clock_skew)

unfoldable pub remaining_secs : TicketClaims → ℕ → ℕ
remaining_secs claims now = claims.exp - now

-- ===== src/Proto/Channel.antt =====
-- Logical channels and their carriers (crates/ndp-proto/src/channel.rs).
use nebula_desk.Prelude.{
  ℕ, ◌<◌, List, [], ◌∷◌, ◌==◌, if◌then◌else◌, Bool, true, false, ◌≡◌, refl, arith, String,
}
use nebula_desk.Proto.{Result, ok, err, invalid_value, number}

pub data Channel : Type 0 where
  control video audio input clipboard file : Channel

pub Channel-discrete : Discrete Channel
Channel-discrete = hlevel

-- `Channel::ALL`
abbrev pub all : List Channel
all = control ∷ video ∷ audio ∷ input ∷ clipboard ∷ file ∷ []

unfoldable pub id : Channel → ℕ
id control = 0
id video = 1
id audio = 2
id input = 3
id clipboard = 4
id file = 5

unfoldable pub from_id : ℕ → Result Channel
from_id id =
    if id == 0
    then ok control
    else if id == 1
    then ok video
    else if id == 2
    then ok audio
    else if id == 3
    then ok input
    else if id == 4
    then ok clipboard
    else if id == 5
    then ok file
    else err (invalid_value "channel" (number id))

unfoldable pub is_unreliable : Channel → Bool
is_unreliable audio = true
is_unreliable _ = false

unfoldable pub is_stream_per_message : Channel → Bool
is_stream_per_message video = true
is_stream_per_message clipboard = true
is_stream_per_message file = true
is_stream_per_message _ = false

unfoldable pub name : Channel → String
name control = "control"
name video = "video"
name audio = "audio"
name input = "input"
name clipboard = "clipboard"
name file = "file"

unfoldable pub priority : Channel → ℕ
priority input = 40
priority control = 30
priority video = 20
priority clipboard = 10
priority file = 0
priority audio = 20

abbrev pub keyframe_priority : ℕ
keyframe_priority = 25

pub from_id-id : (c : Channel) → from_id (id c) ≡ ok c
unfolding from_id id
from_id-id control = refl
from_id-id _ = refl

pub id-from_id : (n : ℕ) {c : Channel} → from_id n ≡ ok c → id c ≡ n
unfolding from_id id
id-from_id n h = ground arith

pub id-lt : (c : Channel) → id c < 6
unfolding id
id-lt control = omega arith
id-lt _ = omega arith

pub id-injective : (c d : Channel) → id c ≡ id d → c ≡ d
unfolding id
id-injective c d h = ground arith

-- ===== src/Proto/Caps.antt =====
-- Capabilities and their negotiation (crates/ndp-proto/src/caps.rs). `DisplayGeometry::pixel_size`
-- multiplies floating point numbers and is left out.
pub mod Negotiate
use nebula_desk.Prelude.{
  ℕ, min, max, List, [], ◌∷◌, leb, ltb, ◌==◌, if◌then◌else◌, Bool, true, false, not, ◌&&◌, ◌||◌,
  Option, none, some, bit_and, bit_or,
}
use nebula_desk.Proto.Float.{float_le}

pub data VideoCodec : Type 0 where
  hevc h264 av1 : VideoCodec

pub data AudioCodec : Type 0 where
  opus : AudioCodec

pub record DisplayGeometry : Type 0 where
  pub width : ℕ  -- u32
  pub height : ℕ  -- u32
  pub scale : ℕ  -- f32
  pub refresh_hz : ℕ  -- u32

-- 0.5 and 4.0 by their bits.
abbrev pub half_f32 : ℕ
half_f32 = 0x3f00_0000

abbrev pub four_f32 : ℕ
four_f32 = 0x4080_0000

unfoldable pub geometry_is_valid : DisplayGeometry → Bool
geometry_is_valid g =
    ltb 0 g.width
    && ltb 0 g.height
    && leb g.width 16384
    && leb g.height 16384
    && float_le half_f32 g.scale
    && float_le g.scale four_f32
    && ltb 0 g.refresh_hz
    && leb g.refresh_hz 480

pub record AudioParams : Type 0 where
  pub sample_rate : ℕ  -- u32
  pub channels : ℕ  -- u8
  pub frame_ms : ℕ  -- u8

pub record ColorCaps : Type 0 where
  pub bit_depth : ℕ  -- u8
  pub full_range : Bool
  pub hdr : Bool

-- `FeatureFlags`, a u32.
unfoldable pub contains : ℕ → ℕ → Bool
contains self other = bit_and self other == other

unfoldable pub intersect : ℕ → ℕ → ℕ
intersect self other = bit_and self other

unfoldable pub union : ℕ → ℕ → ℕ
union self other = bit_or self other

pub record Caps : Type 0 where
  pub video_codecs : List VideoCodec
  pub audio_codecs : List AudioCodec
  pub displays : List DisplayGeometry
  pub audio : AudioParams
  pub color : ColorCaps
  pub max_bitrate_bps : ℕ  -- u32
  pub features : ℕ

abbrev pub same_video : VideoCodec → VideoCodec → Bool
same_video hevc hevc = true
same_video h264 h264 = true
same_video av1 av1 = true
same_video _ _ = false

abbrev pub same_audio : AudioCodec → AudioCodec → Bool
same_audio opus opus = true

module _ {ℓ} {A : Type ℓ} where
  -- `contains` of a slice, by an equality test.
  abbrev pub mem : (A → A → Bool) → A → List A → Bool
  mem same c [] = false
  mem same c (d ∷ ds) = same d c || mem same c ds

  -- `self.iter().filter(|c| peer.contains(c))`
  abbrev pub common : (A → A → Bool) → List A → List A → List A
  common same [] peer = []
  common same (c ∷ cs) peer =
      let rest = common same cs peer in if mem same c peer then c ∷ rest else rest

  abbrev pub is_empty : List A → Bool
  is_empty [] = true
  is_empty (x ∷ xs) = false

  abbrev pub first : List A → Option A
  first [] = none
  first (x ∷ xs) = some x

abbrev pub all_valid : List DisplayGeometry → Bool
unfolding geometry_is_valid
all_valid [] = true
all_valid (g ∷ gs) = geometry_is_valid g && all_valid gs

-- The capabilities that a negotiation with a common video codec returns.
unfoldable pub settled : Caps → Caps → Caps
unfolding intersect
settled self peer = record {
  video_codecs = common same_video self.video_codecs peer.video_codecs;
  audio_codecs = common same_audio self.audio_codecs peer.audio_codecs;
  displays = self.displays;
  audio = record {
    sample_rate = min self.audio.sample_rate peer.audio.sample_rate;
    channels = min self.audio.channels peer.audio.channels;
    frame_ms = max self.audio.frame_ms peer.audio.frame_ms;
  };
  color = record {
    bit_depth = min self.color.bit_depth peer.color.bit_depth;
    full_range = self.color.full_range && peer.color.full_range;
    hdr = self.color.hdr && peer.color.hdr;
  };
  max_bitrate_bps = min self.max_bitrate_bps peer.max_bitrate_bps;
  features = intersect self.features peer.features;
}

-- `self` is the client, `peer` the agent.
unfoldable pub negotiate : Caps → Caps → Option Caps
unfolding settled
negotiate self peer =
    if is_empty (common same_video self.video_codecs peer.video_codecs)
    then none
    else some (settled self peer)

unfoldable pub primary_video_codec : Caps → Option VideoCodec
primary_video_codec self = first self.video_codecs

unfoldable pub is_valid : Caps → Bool
is_valid self =
    not (is_empty self.video_codecs)
    && not (is_empty self.displays)
    && all_valid self.displays
    && leb 100000 self.max_bitrate_bps

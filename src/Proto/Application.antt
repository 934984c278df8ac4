-- ===== src/Proto/Application.antt =====
-- Application windows (crates/ndp-proto/src/application.rs): the descriptor of a frame, the
-- messages with their checks, and in a child the registry of surfaces.
pub mod Registry
use nebula_desk.Prelude.{
  ℕ, ◌+◌, List, [], ◌∷◌, ◌++◌, leb, ltb, ◌==◌, if◌then◌else◌, Bool, true, false, not, ◌&&◌, ◌||◌,
  Option, none, some,
}
use nebula_desk.Prelude.Bytes.{to_le}
use nebula_desk.Proto.{
  ProtoError, Result, ok, err, ◌>>=◌, ◌>>◌, refuse, invalid_value, text, read_u32,
}
use nebula_desk.Proto.Float.{is_finite, float_le, zero_f32, one_f32}
use nebula_desk.Proto.Input
use nebula_desk.Proto.Input.{InputEvent, decode, is_pointer}

abbrev pub application_protocol_version : ℕ
application_protocol_version = 1

abbrev pub max_application_surfaces : ℕ
max_application_surfaces = 32

abbrev pub max_surface_title_bytes : ℕ
max_surface_title_bytes = 1024

abbrev pub max_surface_dimension : ℕ
max_surface_dimension = 16384

abbrev pub surface_frame_info_len : ℕ
surface_frame_info_len = 8

abbrev pub invalid : ProtoError
invalid = invalid_value "application message" (text "invalid surface state")

pub record SurfaceFrameInfo : Type 0 where
  pub geometry_generation : ℕ  -- u32
  pub surface_sequence : ℕ  -- u32

unfoldable pub frame_to_bytes : SurfaceFrameInfo → List ℕ
frame_to_bytes f = to_le 4 f.geometry_generation ++ to_le 4 f.surface_sequence

unfoldable pub frame_split : List ℕ → Result (SurfaceFrameInfo × List ℕ)
frame_split payload = do
  (geometry_generation, c1) ← read_u32 payload
  (surface_sequence, c2) ← read_u32 c1
  refuse (geometry_generation == 0) invalid
  ok (record { geometry_generation = geometry_generation; surface_sequence = surface_sequence }, c2)

unfoldable pub frame_payload : SurfaceFrameInfo → List ℕ → List ℕ
unfolding frame_to_bytes
frame_payload f bitstream = frame_to_bytes f ++ bitstream

pub record SurfaceInfo : Type 0 where
  pub surface_id : ℕ  -- u8
  pub geometry_generation : ℕ  -- u32
  pub title : List ℕ  -- the characters of the string
  pub width : ℕ  -- u32
  pub height : ℕ  -- u32
  pub scale : ℕ  -- f32
  pub parent_surface_id : Option ℕ  -- u8
  pub modal : Bool
  pub minimized : Bool

-- `str::len`: the bytes of the UTF-8 form.
unfoldable pub utf8_len : List ℕ → ℕ
utf8_len [] = 0
utf8_len (c ∷ title) =
    (if ltb c 0x80 then 1 else if ltb c 0x800 then 2 else if ltb c 0x1_0000 then 3 else 4)
    + utf8_len title

-- `title.chars().any(char::is_control)`: the category Cc.
unfoldable pub has_control : List ℕ → Bool
has_control [] = false
has_control (c ∷ title) = ltb c 0x20 || (leb 0x7f c && ltb c 0xa0) || has_control title

unfoldable pub valid_size : ℕ → ℕ → Bool
valid_size width height =
    leb 1 width
    && leb width max_surface_dimension
    && (leb 1 height && leb height max_surface_dimension)

-- `is_some_and(|p| p >= MAX_APPLICATION_SURFACES || p == self.surface_id)`
unfoldable pub bad_parent : ℕ → Option ℕ → Bool
bad_parent surface_id none = false
bad_parent surface_id (some p) = leb max_application_surfaces p || p == surface_id

-- The scale lies between 0.25 and 8.0.
abbrev pub quarter_f32 : ℕ
quarter_f32 = 0x3e80_0000

abbrev pub eight_f32 : ℕ
eight_f32 = 0x4100_0000

unfoldable pub validate_surface : SurfaceInfo → Result (Unit {0})
validate_surface s =
    refuse
      (leb max_application_surfaces s.surface_id
        || s.geometry_generation == 0
        || ltb max_surface_title_bytes (utf8_len s.title)
        || has_control s.title
        || not (valid_size s.width s.height)
        || not (is_finite s.scale)
        || not (float_le quarter_f32 s.scale && float_le s.scale eight_f32)
        || bad_parent s.surface_id s.parent_surface_id)
      invalid

pub data FailureReason : Type 0 where
  launch_failed backend_unavailable permission_denied isolation_unavailable : FailureReason
  surface_limit_reached surface_unavailable protocol_mismatch : FailureReason

pub data HostOs : Type 0 where
  unknown_os macos windows linux : HostOs

pub data KeyboardProfile : Type 0 where
  physical editing terminal : KeyboardProfile

-- The fields of each message, in the order of the source.
pub data Message : Type 0 where
  startup_failed : FailureReason → Message
  surface_gone : ℕ → FailureReason → Message  -- `SurfaceUnavailable`
  hello : ℕ → ℕ → HostOs → KeyboardProfile → Message  -- protocol_version, max_surfaces
  surface_upsert : SurfaceInfo → Message
  surface_remove : ℕ → Message
  focus : ℕ → ℕ → Message  -- surface_id, geometry_generation
  resize : ℕ → ℕ → ℕ → ℕ → Message  -- and width, height
  close : ℕ → ℕ → Message
  minimize : ℕ → ℕ → Message
  request_keyframe : ℕ → ℕ → Message
  input : ℕ → ℕ → List ℕ → Message  -- and the bytes of the event

unfoldable pub command_target : Message → Option (ℕ × ℕ)
command_target (focus id generation) = some (id, generation)
command_target (resize id generation width height) = some (id, generation)
command_target (close id generation) = some (id, generation)
command_target (minimize id generation) = some (id, generation)
command_target (request_keyframe id generation) = some (id, generation)
command_target (input id generation event) = some (id, generation)
command_target _ = none

unfoldable pub in_unit : ℕ → Bool
in_unit v = float_le zero_f32 v && float_le v one_f32

-- The checks of a command: its target, then what a resize and an input carry.
unfoldable pub validate_target : ℕ → ℕ → Result (Unit {0})
validate_target id generation = refuse (leb max_application_surfaces id || generation == 0) invalid

unfoldable pub validate_input : ℕ → List ℕ → Result (Unit {0})
unfolding in_unit
validate_input id event = do
  (e, rest) ← decode event
  refuse
      (not (e.display == id)
        || not (is_finite e.x)
        || not (is_finite e.y)
        || not (is_finite e.scroll_x)
        || not (is_finite e.scroll_y)
        || is_pointer e.kind && (not (in_unit e.x) || not (in_unit e.y)))
      invalid

unfoldable pub validate : Message → Result (Unit {0})
unfolding validate_target
validate (startup_failed reason) = ok tt
validate (hello version max_surfaces os profile) =
    refuse
      (not (version == application_protocol_version)
        || not (leb 1 max_surfaces && leb max_surfaces max_application_surfaces))
      invalid
validate (surface_upsert surface) = validate_surface surface
validate (surface_remove id) = refuse (leb max_application_surfaces id) invalid
validate (surface_gone id reason) = refuse (leb max_application_surfaces id) invalid
validate (focus id generation) = validate_target id generation
validate (resize id generation width height) =
    validate_target id generation >> refuse (not (valid_size width height)) invalid
validate (close id generation) = validate_target id generation
validate (minimize id generation) = validate_target id generation
validate (request_keyframe id generation) = validate_target id generation
validate (input id generation event) = validate_target id generation >> validate_input id event

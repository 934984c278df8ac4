-- ===== src/Proto/Application/Registry.antt =====
-- `SurfaceRegistry`: the surfaces that an application shows. The sorted map of the live surfaces
-- is an association list, since only lookups and one search over all values read it.
pub mod Steps
pub mod Forest
pub mod Ids
pub mod Retired
pub mod Commands
use nebula_desk.Prelude.{
  ℕ, zero, suc, List, [], ◌∷◌, leb, ltb, ◌==◌, if◌then◌else◌, Bool, true, false, not, ◌&&◌, ◌||◌,
  Option, none, some,
}
use nebula_desk.Proto.{Result, ok, err, ◌>>=◌, ◌>>◌, refuse}
use nebula_desk.Proto.Float.{float_eq}
use nebula_desk.Proto.Application.{
  SurfaceInfo, SurfaceFrameInfo, Message, hello, unknown_os, physical, invalid, validate,
  validate_surface, command_target, application_protocol_version, max_application_surfaces,
}

abbrev pub Live : Type 0
Live = List (ℕ × SurfaceInfo)

pub record Registry : Type 0 where
  pub max_surfaces : ℕ  -- u8
  pub used : ℕ → Bool  -- one slot for each of the 32 ids
  pub live : Live

unfoldable pub get : ℕ → Live → Option SurfaceInfo
get id [] = none
get id ((k, s) ∷ live) = if k == id then some s else get id live

unfoldable pub insert : ℕ → SurfaceInfo → Live → Live
insert id s [] = (id, s) ∷ []
insert id s ((k, t) ∷ live) = if k == id then (id, s) ∷ live else (k, t) ∷ insert id s live

unfoldable pub erase : ℕ → Live → Live
erase id [] = []
erase id ((k, t) ∷ live) = if k == id then erase id live else (k, t) ∷ erase id live

unfoldable pub is_none : Option SurfaceInfo → Bool
is_none none = true
is_none (some s) = false

unfoldable pub new : ℕ → Result Registry
new max_surfaces = do
  validate (hello application_protocol_version max_surfaces unknown_os physical)
  ok (record { max_surfaces = max_surfaces; used = λ _. false; live = [] })

-- The checks against an earlier state of the same surface: the generation does not fall, and a
-- new geometry has a new generation.
unfoldable pub outdated : SurfaceInfo → Option SurfaceInfo → Bool
outdated surface none = false
outdated surface (some previous) =
    let changed_geometry =
      not (previous.width == surface.width)
      || not (previous.height == surface.height)
      || not (float_eq previous.scale surface.scale) in
    ltb surface.geometry_generation previous.geometry_generation
    || changed_geometry && surface.geometry_generation == previous.geometry_generation

-- The walk up the parents, `rounds` steps at most: the parent that is left.
unfoldable pub walk : ℕ → ℕ → Live → Option ℕ → Result (Option ℕ)
walk zero id live parent = ok parent
walk (suc rounds) id live none = ok none
walk (suc rounds) id live (some parent_id) =
    if parent_id == id then err invalid else elim (get parent_id live) [
      | none ↦ err invalid
      | some s ↦ walk rounds id live s.parent_surface_id
    ]

unfoldable pub is_some : Option ℕ → Bool
is_some none = false
is_some (some p) = true

-- A slot of the array `used` is set.
abbrev pub mark : (ℕ → Bool) → ℕ → ℕ → Bool
mark used id k = if k == id then true else used k

unfoldable pub upsert : Registry → SurfaceInfo → Result Registry
unfolding is_none outdated is_some
upsert r surface = do
  validate_surface surface
  let id = surface.surface_id
  refuse (leb r.max_surfaces id || r.used id && is_none (get id r.live)) invalid
  refuse (outdated surface (get id r.live)) invalid
  parent ← walk max_application_surfaces id r.live surface.parent_surface_id
  refuse (is_some parent) invalid
  ok (record r { used = mark r.used id; live = insert id surface r.live })

unfoldable pub is_parent : ℕ → Option ℕ → Bool
is_parent id none = false
is_parent id (some p) = p == id

unfoldable pub any_child : ℕ → Live → Bool
unfolding is_parent
any_child id [] = false
any_child id ((k, s) ∷ live) = is_parent id s.parent_surface_id || any_child id live

unfoldable pub remove : Registry → ℕ → Result Registry
unfolding any_child is_none
remove r id = do
  refuse (any_child id r.live || is_none (get id r.live)) invalid
  ok (record r { live = erase id r.live })

unfoldable pub live_surface : Registry → ℕ → Result SurfaceInfo
live_surface r id = elim (get id r.live) [ none ↦ err invalid | some s ↦ ok s ]

unfoldable pub validate_frame : Registry → ℕ → SurfaceFrameInfo → Result SurfaceInfo
unfolding live_surface
validate_frame r id frame = do
  surface ← live_surface r id
  refuse
      (frame.geometry_generation == 0
        || not (frame.geometry_generation == surface.geometry_generation))
      invalid
  ok surface

unfoldable pub target_of : Message → Result (ℕ × ℕ)
target_of message = elim (command_target message) [ none ↦ err invalid | some t ↦ ok t ]

unfoldable pub validate_command : Registry → Message → Result SurfaceInfo
unfolding live_surface target_of
validate_command r message = do
  validate message
  (id, generation) ← target_of message
  surface ← live_surface r id
  refuse (not (generation == surface.geometry_generation)) invalid
  ok surface

-- ===== src/Proto/Application/Registry/Commands.antt =====
-- What the registry accepts of commands and frames, and the descriptor that a frame carries.
use nebula_desk.Prelude.{
  ℕ, ◌<◌, ◌≡◌, ap, ◌∙◌, ◌≢◌, inl, inr, List, ◌==◌, false, not, ◌||◌, some, arith, subst,
  Option-cases, ◌^◌, append_assoc,
}
use nebula_desk.Proto.{ok}
use nebula_desk.Proto.Readers.{read_int-to_le, bind_inv, refuse_inv}
use nebula_desk.Proto.Application.{
  SurfaceInfo, Message, frame_split, frame_payload, frame_to_bytes, SurfaceFrameInfo, invalid,
  validate,
}
use nebula_desk.Proto.Application.Registry.{
  Registry, get, live_surface, target_of, validate_command, validate_frame,
}

live_surface-eq_ok :
    (r : Registry) (id : ℕ) {s : SurfaceInfo} → live_surface r id ≡ ok s → get id r.live ≡ some s
unfolding live_surface
live_surface-eq_ok r id {s} h = elim (Option-cases (get id r.live)) [
  | inl missing ↦ ground arith
  | inr (t, found) ↦ ground arith
]

-- A command that is accepted names a live surface and carries that surface's generation.
pub validate_command-eq_ok :
    (r : Registry) (message : Message) {s : SurfaceInfo}
    → validate_command r message ≡ ok s
    → (id : ℕ) × (target_of message ≡ ok (id, s.geometry_generation))
      × (get id r.live ≡ some s)
      × (validate message ≡ ok tt)
unfolding validate_command live_surface
validate_command-eq_ok r message {s} h = bind_inv (validate message) _ h λ u valid g1.
    bind_inv (target_of message) _ g1 λ target aimed g2.
      bind_inv (live_surface r target.0) _ g2 λ surface found g3.
        refuse_inv (not (target.1 == surface.geometry_generation)) invalid _ g3 λ current g4.
          let this : surface ≡ s = cc in
          let same : target.1 ≡ surface.geometry_generation = ground arith in
          subst
            (λ (q : SurfaceInfo).
              (id : ℕ) × (target_of message ≡ ok (id, q.geometry_generation))
              × (get id r.live ≡ some q)
              × (validate message ≡ ok tt))
            this
            (
              target.0,
              aimed ∙ ap (λ g. ok (target.0, g)) same,
              live_surface-eq_ok r target.0 found,
              valid,
            )

-- A frame that is accepted is for a live surface, at its current generation, which is not zero.
pub validate_frame-eq_ok :
    (r : Registry) (id : ℕ) (frame : SurfaceFrameInfo) {s : SurfaceInfo}
    → validate_frame r id frame ≡ ok s
    → (get id r.live ≡ some s)
      × (frame.geometry_generation ≡ s.geometry_generation)
      × (frame.geometry_generation ≢ 0)
unfolding validate_frame
validate_frame-eq_ok r id frame {s} h = bind_inv (live_surface r id) _ h λ surface found g1.
    refuse_inv
      (frame.geometry_generation == 0
        || not (frame.geometry_generation == surface.geometry_generation))
      invalid _ g1
      λ current g2.
        let this : surface ≡ s = cc in
        subst
          (λ (q : SurfaceInfo).
            (get id r.live ≡ some q)
            × (frame.geometry_generation ≡ q.geometry_generation)
            × (frame.geometry_generation ≢ 0))
          this (live_surface-eq_ok r id found, ground arith, ground arith)

-- Splitting a frame payload gives back its descriptor and the bitstream, where the generation is not zero.
pub frame_split-frame_payload :
    (f : SurfaceFrameInfo) (bitstream : List ℕ)
    → 0 < f.geometry_generation
    → f.geometry_generation < 2 ^ 32
    → f.surface_sequence < 2 ^ 32
    → frame_split (frame_payload f bitstream) ≡ ok (f, bitstream)
unfolding frame_split frame_payload frame_to_bytes
frame_split-frame_payload f bitstream pos g s =
    let current : f.geometry_generation == 0 ≡ false = ground arith in
    simp append_assoc (
      rw (
        read_int-to_le 4 f.geometry_generation _ g,
        read_int-to_le 4 f.surface_sequence _ s,
        current,
      ))

-- ===== src/Proto/Input/Batch.antt =====
-- Batches of input events: the loop ends, and reads back what was encoded.
use nebula_desk.Prelude.{
  ℕ, zero, suc, ◌+◌, ◌*◌, ◌%◌, ◌≤◌, ◌<◌, List, [], ◌∷◌, ◌++◌, ◌==◌, ◌≡◌, ◌≢◌, refl, arith, All,
  All-append, append_assoc, append-nil, length, length-append, none, some, Bool-cases, inl, inr,
  ◌⊎◌, ap, ◌∙◌,
}
use nebula_desk.Prelude.Bytes.{IsByte}
use nebula_desk.Proto.{ProtoError, Result, ok, err}
use nebula_desk.Proto.Input.{
  InputEvent, to_bytes, decode, decode_loop, decode_batch, encode_batch, input_event_len,
}
use nebula_desk.Proto.Input.RoundTrip.{
  IsEvent, InWords, decode-to_bytes, length-to_bytes, decode-Decoded,
}

pub length-encode_batch : (es : List InputEvent) → length (encode_batch es) ≡ 32 * length es
unfolding encode_batch
length-encode_batch [] = refl
length-encode_batch (e ∷ es) =
    rw (length-append (to_bytes e) (encode_batch es))
      (omega (arith, length-to_bytes e, length-encode_batch es))

Result-cases {ℓ} :
    {A : Type ℓ} (r : Result A) → ((a : A) × (r ≡ ok a)) ⊎ ((e : ProtoError) × (r ≡ err e))
Result-cases (ok a) = inl (a, refl)
Result-cases (err e) = inr (e, refl)

decode_loop_ends :
    (fuel : ℕ) (buf : List ℕ) (out : List InputEvent)
    → All IsByte buf
    → length buf ≤ fuel
    → decode_loop fuel buf out ≢ none
unfolding decode_loop
decode_loop_ends fuel [] out b h = λ e. cc
decode_loop_ends zero (x ∷ buf) out b h = absurd (omega arith)
decode_loop_ends (suc fuel) (x ∷ buf) out b h = elim (Result-cases (decode (x ∷ buf))) [
  | inl ((e, rest), d) ↦
      let step = decode-Decoded (x ∷ buf) b d in
      rw (d, decode_loop)
        (decode_loop_ends fuel rest (out ++ (e ∷ [])) step.bytes (omega (arith, step.taken)))
  | inr (x', d) ↦ rw (d, decode_loop) (λ e. cc)
]

-- Decoding a batch ends on every buffer of bytes: the loop never runs out of fuel.
pub decode_batch-ne-none : (buf : List ℕ) → All IsByte buf → decode_batch buf ≢ none
unfolding decode_batch
decode_batch-ne-none buf b = ground (arith, decode_loop_ends (length buf) buf [] b)

abbrev pub IsClean : InputEvent → Type 0
IsClean e = IsEvent e × InWords e

decode_loop_step :
    (fuel : ℕ) (buf : List ℕ) (out : List InputEvent) {e : InputEvent} {rest : List ℕ}
    → 0 < length buf
    → decode buf ≡ ok (e, rest)
    → decode_loop (suc fuel) buf out ≡ decode_loop fuel rest (out ++ (e ∷ []))
unfolding decode_loop
decode_loop_step fuel [] out h d = absurd (omega arith)
decode_loop_step fuel (b ∷ buf) out h d = rw (d, decode_loop)

decode_loop-encode_batch :
    (es : List InputEvent) (fuel : ℕ) (out : List InputEvent)
    → All IsClean es
    → length (encode_batch es) ≤ fuel
    → decode_loop fuel (encode_batch es) out ≡ some (ok (out ++ es))
decode_loop-encode_batch [] fuel out c h = unfold encode_batch decode_loop in rw append-nil
decode_loop-encode_batch (e ∷ es) zero out c h =
    absurd (omega (arith, length-encode_batch (e ∷ es)))
decode_loop-encode_batch (e ∷ es) (suc fuel) out c h =
    let size : length (encode_batch (e ∷ es)) ≡ 32 * length (e ∷ es) =
      length-encode_batch (e ∷ es) in
    decode_loop_step fuel (encode_batch (e ∷ es)) out {e = e} {rest = encode_batch es} (omega arith)
      (unfold encode_batch in decode-to_bytes e (encode_batch es) c.0.0 c.0.1)
    ∙ decode_loop-encode_batch es fuel (out ++ (e ∷ [])) c.1 (omega (arith, length-encode_batch es))
    ∙ ap (λ l. some (ok l)) (append_assoc out (e ∷ []) es)

-- A batch of events whose fields are in range decodes to the events that were encoded, in their
-- order.
pub decode_batch-encode_batch :
    (es : List InputEvent) → All IsClean es → decode_batch (encode_batch es) ≡ some (ok es)
unfolding decode_batch
decode_batch-encode_batch es c =
    let whole : length (encode_batch es) % input_event_len ≡ 0 =
      omega (arith, length-encode_batch es) in
    rw whole (decode_loop-encode_batch es (length (encode_batch es)) [] c (omega arith))

decode_loop_checked :
    (fuel : ℕ) (buf : List ℕ) (out : List InputEvent) {es : List InputEvent}
    → All IsByte buf
    → All IsEvent out
    → decode_loop fuel buf out ≡ some (ok es)
    → All IsEvent es × (32 * length es ≡ 32 * length out + length buf)
unfolding decode_loop
decode_loop_checked fuel [] out {es} b c h =
    let same : out ≡ es = cc in rw (← same) (c, omega arith)
decode_loop_checked zero (x ∷ buf) out b c h = cc
decode_loop_checked (suc fuel) (x ∷ buf) out {es} b c h = elim (Result-cases (decode (x ∷ buf))) [
  | inl ((e, rest), d) ↦
      let step = decode-Decoded (x ∷ buf) b d in
      let (all, size) =
        decode_loop_checked fuel rest (out ++ (e ∷ [])) step.bytes
          (All-append IsEvent out (e ∷ []) c (step.event, tt)) (rw (d, decode_loop) at h) in
      (all, omega (arith, step.taken, length-append out (e ∷ [])))
  | inr (x', d) ↦ let failed : some (err x') ≡ some (ok es) = rw (d, decode_loop) at h in cc
]

-- Every event of a batch that is accepted passed the checks, and the batch is all used: it has one
-- event for each 32 bytes.
pub decode_batch_checked :
    (buf : List ℕ) {es : List InputEvent}
    → All IsByte buf
    → decode_batch buf ≡ some (ok es)
    → All IsEvent es × (32 * length es ≡ length buf)
unfolding decode_batch
decode_batch_checked buf {es} b h = elim (Bool-cases (length buf % input_event_len == 0)) [
  | inl whole ↦
      let (all, size) = decode_loop_checked (length buf) buf [] b tt (rw whole at h) in
      (all, omega arith)
  | inr odd ↦ cc
]

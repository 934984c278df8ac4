-- ===== src/Proto/Input/Coalesce.antt =====
-- `coalesce` of crates/ndp-proto/src/input.rs: runs of pointer movements are shortened to their
-- last one. The output vector is kept last event first while it grows.
use nebula_desk.Prelude.{
  List, [], ◌∷◌, ◌++◌, ◌==◌, if◌then◌else◌, Bool, true, false, ◌&&◌, ◌≡◌, refl, arith, Bool-cases,
  inl, inr, ap, ◌∙◌, sym, append_assoc, append-nil, ◌⊎◌, subst,
}
use mathlib.Core.List.{reverse, reverse-append, reverse-reverse}
use nebula_desk.Proto.Input.{
  InputKind, mouse_move, mouse_drag, MouseButton, InputEvent, kind_to_u8, button_to_u8,
  is_coalescible,
}

-- The guard of the match: `prev` is overwritten by `e`.
unfoldable pub supersedes : InputEvent → InputEvent → Bool
supersedes e prev =
    kind_to_u8 prev.kind == kind_to_u8 e.kind
    && is_coalescible e.kind
    && button_to_u8 prev.button == button_to_u8 e.button
    && prev.pointer_id == e.pointer_id
    && prev.display == e.display

unfoldable pub add_event : List InputEvent → InputEvent → List InputEvent
add_event [] e = e ∷ []
add_event (prev ∷ out) e = if supersedes e prev then e ∷ out else e ∷ prev ∷ out

unfoldable pub coalesce_loop : List InputEvent → List InputEvent → List InputEvent
coalesce_loop out [] = out
coalesce_loop out (e ∷ events) = coalesce_loop (add_event out e) events

unfoldable pub coalesce : List InputEvent → List InputEvent
coalesce events = reverse (coalesce_loop [] events)

-- When an event is out of date once the next one of the batch is known: both are movements of the
-- same kind, of the same pointer on the same display, with the same button.
pub record Stale (e next : InputEvent) : Type 0 where
  pub kind : e.kind ≡ next.kind
  pub movement : (e.kind ≡ mouse_move) ⊎ (e.kind ≡ mouse_drag)
  pub button : e.button ≡ next.button
  pub pointer_id : e.pointer_id ≡ next.pointer_id
  pub display : e.display ≡ next.display

-- What is to be left of a batch, read from its front: an event goes just when the one right behind it
-- in the batch makes it out of date, and the others stay, unchanged and in their order.
pub data Kept : List InputEvent → List InputEvent → Type 0 where
  nothing : Kept [] []
  last_one : {e : InputEvent} → Kept (e ∷ []) (e ∷ [])
  goes :
      {e next : InputEvent} {es out : List InputEvent}
      → Stale e next
      → Kept (next ∷ es) out
      → Kept (e ∷ next ∷ es) out
  stays :
      {e next : InputEvent} {es out : List InputEvent}
      → ¬ Stale e next
      → Kept (next ∷ es) out
      → Kept (e ∷ next ∷ es) (e ∷ out)

reverse-cons {ℓ} : {A : Type ℓ} (x : A) (xs : List A) → reverse (x ∷ xs) ≡ reverse xs ++ (x ∷ [])
reverse-cons x xs = reverse-append (x ∷ []) xs

kind_to_u8-injective : (a b : InputKind) → kind_to_u8 a ≡ kind_to_u8 b → a ≡ b
unfolding kind_to_u8
kind_to_u8-injective a b h = ground arith

button_to_u8-injective : (a b : MouseButton) → button_to_u8 a ≡ button_to_u8 b → a ≡ b
unfolding button_to_u8
button_to_u8-injective a b h = ground arith

is_coalescible_inv : (k : InputKind) → is_coalescible k ≡ true → (k ≡ mouse_move) ⊎ (k ≡ mouse_drag)
unfolding is_coalescible
is_coalescible_inv k h = ground arith

supersedes-Stale : (e prev : InputEvent) → supersedes e prev ≡ true → Stale prev e
unfolding supersedes
supersedes-Stale e prev h =
    let same : prev.kind ≡ e.kind = kind_to_u8-injective prev.kind e.kind (ground arith) in
    let moves = is_coalescible_inv e.kind (ground arith) in
    record {
      kind = same;
      movement = elim moves [ inl m ↦ inl (same ∙ m) | inr m ↦ inr (same ∙ m) ];
      button = button_to_u8-injective prev.button e.button (ground arith);
      pointer_id = ground arith;
      display = ground arith;
    }

Stale-supersedes : (e prev : InputEvent) → Stale prev e → supersedes e prev ≡ true
unfolding supersedes is_coalescible
Stale-supersedes e prev stale =
    let kinds = ap kind_to_u8 stale.kind in
    let buttons = ap button_to_u8 stale.button in
    let pointers = stale.pointer_id in
    let displays = stale.display in
    let moves : is_coalescible e.kind ≡ true = elim stale.movement [
      | inl m ↦ ap is_coalescible (sym stale.kind ∙ m)
      | inr m ↦ ap is_coalescible (sym stale.kind ∙ m)
    ] in
    ground arith

-- The loop behind an event that was written last.
coalesce_loop-Kept :
    (e : InputEvent) (out es : List InputEvent)
    → (kept : List InputEvent) × Kept (e ∷ es) kept
      × (coalesce_loop (e ∷ out) es ≡ reverse kept ++ out)
unfolding coalesce_loop add_event
coalesce_loop-Kept e out [] = (e ∷ [], last_one, refl)
coalesce_loop-Kept e out (next ∷ es) = elim (Bool-cases (supersedes next e)) [
  | inl new ↦
      let (kept, rule, done) = coalesce_loop-Kept next out es in
      (kept, goes (supersedes-Stale next e new) rule, rw new done)
  | inr other ↦
      let (kept, rule, done) = coalesce_loop-Kept next (e ∷ out) es in
      let fresh : ¬ Stale e next =
        λ stale. true_false (sym (Stale-supersedes next e stale) ∙ other) in
      (
        e ∷ kept,
        stays fresh rule,
        rw other (
            done
            ∙ sym (append_assoc (reverse kept) (e ∷ []) out)
            ∙ ap (λ l. l ++ out) (sym (reverse-cons e kept))),
      )
]
  where
    true_false : true ≡ false → ⊥
    true_false h = cc

-- No event of a batch is made out of date by the next one.
abbrev pub Settled : List InputEvent → Type 0
Settled [] = Unit
Settled (e ∷ []) = Unit
Settled (e ∷ next ∷ es) = (¬ Stale e next) × Settled (next ∷ es)

-- The event before a batch is not made out of date by its first one.
abbrev Fresh : InputEvent → List InputEvent → Type 0
Fresh e [] = Unit
Fresh e (next ∷ es) = ¬ Stale e next

Stale-before : {e prev next : InputEvent} → Stale e next → Stale prev next → Stale prev e
Stale-before s t = record {
  kind = t.kind ∙ sym s.kind;
  movement = t.movement;
  button = t.button ∙ sym s.button;
  pointer_id = t.pointer_id ∙ sym s.pointer_id;
  display = t.display ∙ sym s.display;
}

Kept-Settled :
    {es out : List InputEvent}
    → Kept es out
    → Settled out × ((prev : InputEvent) → Fresh prev es → Settled (prev ∷ out))
Kept-Settled nothing = (tt, λ prev fresh. tt)
Kept-Settled last_one = (tt, λ prev fresh. (fresh, tt))
Kept-Settled (goes stale rule) =
    let (settled, before) = Kept-Settled rule in
    (settled, λ prev fresh. before prev (λ old. fresh (Stale-before stale old)))
Kept-Settled (stays {e} other rule) =
    let (settled, before) = Kept-Settled rule in
    (before e other, λ prev fresh. (fresh, before e other))

coalesce_lem : (es : List InputEvent) → Kept es (coalesce es)
unfolding coalesce coalesce_loop add_event
coalesce_lem [] = nothing
coalesce_lem (e ∷ es) =
    let (kept, rule, done) = coalesce_loop-Kept e [] es in
    subst (Kept (e ∷ es))
      (sym (ap reverse (done ∙ append-nil (reverse kept)) ∙ reverse-reverse kept)) rule

-- Coalescing drops an event of a batch just when the event right behind it in the batch is a movement
-- of the same kind, pointer, display and button; all other events, movements or not, are kept
-- unchanged and in their order. In what is left, no event is made out of date by the next one.
pub coalesce-Kept : (es : List InputEvent) → Kept es (coalesce es) × Settled (coalesce es)
coalesce-Kept es = (coalesce_lem es, (Kept-Settled (coalesce_lem es)).0)

coalesce_loop-append :
    (out es : List InputEvent) (e : InputEvent)
    → coalesce_loop out (es ++ (e ∷ [])) ≡ add_event (coalesce_loop out es) e
unfolding coalesce_loop
coalesce_loop-append out [] e = refl
coalesce_loop-append out (x ∷ es) e = coalesce_loop-append (add_event out x) es e

add_event_last :
    (out : List InputEvent) (e : InputEvent)
    → (tail : List InputEvent) × (add_event out e ≡ e ∷ tail)
unfolding add_event
add_event_last [] e = ([], refl)
add_event_last (prev ∷ out) e = elim (Bool-cases (supersedes e prev)) [
  | inl h ↦ (out, rw h)
  | inr h ↦ (prev ∷ out, rw h)
]

-- The last event of a batch is the last event of what is left, with all its fields: no pointer
-- ends at an outdated place.
pub coalesce_last :
    (es : List InputEvent) (e : InputEvent)
    → (front : List InputEvent) × (coalesce (es ++ (e ∷ [])) ≡ front ++ (e ∷ []))
unfolding coalesce
coalesce_last es e =
    let (tail, ends) = add_event_last (coalesce_loop [] es) e in
    (reverse tail, ap reverse (coalesce_loop-append [] es e ∙ ends) ∙ reverse-cons e tail)

-- ===== src/Proto/Application/Registry/Ids.antt =====
-- The ids and the generations of a registry over any sequence of upserts and removals.
use nebula_desk.Prelude.{
  ℕ, ◌≤◌, ◌<◌, ◌≡◌, refl, sym, ap, ◌∙◌, ◌≢◌, inl, inr, ◌==◌, Bool, true, false, ◌&&◌, Option, none,
  some, arith, subst, Bool-cases,
}
use nebula_desk.Proto.{ok}
use nebula_desk.Proto.Application.{SurfaceInfo}
use nebula_desk.Proto.Application.Registry.{Registry, get, is_none, outdated, upsert, remove}
use nebula_desk.Proto.Application.Registry.Steps.{
  get-insert_self, get-insert_ne, get-erase_self, get-erase_ne, upsert-Upserted, remove-eq_ok,
}

pub data Reaches (r : Registry) : Registry → Type 0 where
  here : Reaches r r
  upserted :
      {q r' : Registry} (surface : SurfaceInfo)
      → Reaches r q
      → upsert q surface ≡ ok r'
      → Reaches r r'
  removed : {q r' : Registry} (id : ℕ) → Reaches r q → remove q id ≡ ok r' → Reaches r r'

-- A predicate that both accepted steps preserve holds in all that can be reached.
pub Reaches-preserves :
    (P : Registry → Type 0)
    → ((q : Registry) (s : SurfaceInfo) (r' : Registry) → P q → upsert q s ≡ ok r' → P r')
    → ((q : Registry) (id : ℕ) (r' : Registry) → P q → remove q id ≡ ok r' → P r')
    → {r r' : Registry} → P r
    → Reaches r r'
    → P r'
Reaches-preserves P up down start here = start
Reaches-preserves P up down start (upserted {q} {r'} s path h) =
    up q s r' (Reaches-preserves P up down start path) h
Reaches-preserves P up down start (removed {q} {r'} id path h) =
    down q id r' (Reaches-preserves P up down start path) h

-- Every live surface is filed under its own id, which has been marked and is in range.
pub record IsFiled (r : Registry) (k : ℕ) (s : SurfaceInfo) : Type 0 where
  pub own_id : s.surface_id ≡ k
  pub marked : r.used k ≡ true
  pub in_range : k < r.max_surfaces

abbrev pub AllFiled : Registry → Type 0
AllFiled r = (k : ℕ) (s : SurfaceInfo) → get k r.live ≡ some s → IsFiled r k s

pub upsert-AllFiled :
    (q : Registry) (surface : SurfaceInfo) (r' : Registry)
    → AllFiled q
    → upsert q surface ≡ ok r'
    → AllFiled r'
upsert-AllFiled q surface r' filed h =
    let u = upsert-Upserted q surface h in
    let id = surface.surface_id in
    subst AllFiled (sym u.result) λ k s found. elim (Bool-cases (k == id)) [
      | inl same ↦
          let e : id ≡ k = ground arith in
          let this : surface ≡ s = cc (e, found, get-insert_self id surface q.live) in
          record {
            own_id = ap (λ (x : SurfaceInfo). x.surface_id) (sym this) ∙ e;
            marked = ground arith;
            in_range = let bound = u.in_range in ground arith;
          }
      | inr other ↦
          let e : id ≢ k = ground arith in
          let old = filed k s (sym (get-insert_ne id k surface q.live e) ∙ found) in
          record {
            own_id = old.own_id;
            marked = let m = old.marked in ground arith;
            in_range = old.in_range;
          }
    ]

pub remove-AllFiled :
    (q : Registry) (id : ℕ) (r' : Registry) → AllFiled q → remove q id ≡ ok r' → AllFiled r'
remove-AllFiled q id r' filed h =
    let (_, _, result) = remove-eq_ok q id h in
    subst AllFiled (sym result) λ k s found.
      let other : id ≢ k = λ e. cc (e, found, get-erase_self id q.live) in
      let old = filed k s (sym (get-erase_ne id k q.live other) ∙ found) in
      record { own_id = old.own_id; marked = old.marked; in_range = old.in_range }

-- Surface `b` may be shown after `a` under one id: its generation is no lower, and within one
-- generation the size is the same.
pub record NotBefore (a b : SurfaceInfo) : Type 0 where
  pub rises : a.geometry_generation ≤ b.geometry_generation
  pub same_size :
      a.geometry_generation ≡ b.geometry_generation → (a.width ≡ b.width) × (a.height ≡ b.height)

outdated-NotBefore : (a b : SurfaceInfo) → outdated b (some a) ≡ false → NotBefore a b
unfolding outdated
outdated-NotBefore a b h = record {
  rises = ground arith;
  same_size = λ e. (ground arith, ground arith);
}

NotBefore-trans : (a b c : SurfaceInfo) → NotBefore a b → NotBefore b c → NotBefore a c
NotBefore-trans a b c h k =
    let low = h.rises in
    let high = k.rises in
    record {
      rises = omega arith;
      same_size = λ e.
          let (w1, h1) = h.same_size (omega arith) in
          let (w2, h2) = k.same_size (omega arith) in (w1 ∙ w2, h1 ∙ h2);
    }

-- What is known of an id from the moment that surface `a` was shown under it.
record Follows (a : SurfaceInfo) (id : ℕ) (r : Registry) : Type 0 where
  marked : r.used id ≡ true
  later : (b : SurfaceInfo) → get id r.live ≡ some b → NotBefore a b

NotBefore-next :
    (a s : SurfaceInfo) (marked : Bool) (before : Option SurfaceInfo)
    → marked ≡ true
    → marked && is_none before ≡ false
    → outdated s before ≡ false
    → ((p : SurfaceInfo) → before ≡ some p → NotBefore a p)
    → NotBefore a s
unfolding is_none
NotBefore-next a s marked none m reuse fresh later = ground arith
NotBefore-next a s marked (some p) m reuse fresh later =
    NotBefore-trans a p s (later p refl) (outdated-NotBefore p s fresh)

Follows-upsert :
    (a : SurfaceInfo) (id : ℕ) (q : Registry) (s : SurfaceInfo) (r' : Registry)
    → Follows a id q
    → upsert q s ≡ ok r'
    → Follows a id r'
unfolding is_none
Follows-upsert a id q s r' f h =
    let u = upsert-Upserted q s h in
    let m = f.marked in
    let reuse = u.not_reused in
    let fresh = u.not_outdated in
    subst (Follows a id) (sym u.result) (record {
      marked = ground arith;
      later = λ b found. elim (Bool-cases (s.surface_id == id)) [
        | inl same ↦
            let e : s.surface_id ≡ id = ground arith in
            let this : s ≡ b = cc (e, found, get-insert_self s.surface_id s q.live) in
            subst (NotBefore a) this (
              NotBefore-next a s (q.used s.surface_id) (get s.surface_id q.live) (ap q.used e ∙ m)
                reuse fresh λ p before. f.later p (ap (λ k. get k q.live) (sym e) ∙ before))
        | inr other ↦
            f.later b (sym (get-insert_ne s.surface_id id s q.live (ground arith)) ∙ found)
      ];
    })

Follows-remove :
    (a : SurfaceInfo) (id : ℕ) (q : Registry) (k : ℕ) (r' : Registry)
    → Follows a id q
    → remove q k ≡ ok r'
    → Follows a id r'
Follows-remove a id q k r' f h =
    let (_, _, result) = remove-eq_ok q k h in
    subst (Follows a id) (sym result) (record {
      marked = f.marked;
      later = λ b found.
          let other : k ≢ id = λ e. cc (e, found, get-erase_self k q.live) in
          f.later b (sym (get-erase_ne k id q.live other) ∙ found);
    })

-- Where every live surface is filed under its own marked id: whatever upserts and removals a
-- registry accepts after it showed surface `a` under an id, a
-- surface that is live under that id has a generation that is no lower than that of `a`, and the
-- same width and height if the generation is the same.
pub Reaches-NotBefore :
    (r : Registry) {r' : Registry} (id : ℕ) (a b : SurfaceInfo)
    → AllFiled r
    → Reaches r r'
    → get id r.live ≡ some a
    → get id r'.live ≡ some b
    → NotBefore a b
Reaches-NotBefore r {r'} id a b filed path shown found =
    let refl_of : (c : SurfaceInfo) → get id r.live ≡ some c → NotBefore a c = λ c again.
      let same : a ≡ c = cc in
      subst (NotBefore a) same (record { rises = omega arith; same_size = λ _. (refl, refl) }) in
    let start : Follows a id r = record { marked = (filed id a shown).marked; later = refl_of } in
    let last : Follows a id r' =
      Reaches-preserves (Follows a id) (Follows-upsert a id) (λ q k q'. Follows-remove a id q k q')
        start path in
    last.later b found

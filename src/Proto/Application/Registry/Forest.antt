-- ===== src/Proto/Application/Registry/Forest.antt =====
-- The parents of the live surfaces of a registry form a forest.
use nebula_desk.Prelude.{
  ℕ, zero, suc, ◌≡◌, sym, ap, ◌∙◌, ◌≢◌, inl, inr, ◌==◌, false, Option, none, some, arith, subst,
  Bool-cases, Option-cases,
}
use nebula_desk.Proto.{ok}
use nebula_desk.Proto.Application.{SurfaceInfo, max_application_surfaces}
use nebula_desk.Proto.Application.Registry.{
  Live, Registry, get, insert, erase, walk, any_child, upsert, remove,
}
use nebula_desk.Proto.Application.Registry.Steps.{
  get-insert_self, get-insert_ne, get-erase_self, get-erase_ne, any_child_none, upsert-Upserted,
  remove-eq_ok,
}

-- The chain of parents from here reaches a surface without parent, over live surfaces only.
pub data Ends (live : Live) : Option ℕ → Type 0 where
  root : Ends live none
  above :
      (p : ℕ) (s : SurfaceInfo)
      → get p live ≡ some s
      → Ends live s.parent_surface_id
      → Ends live (some p)

abbrev pub IsForest : Live → Type 0
IsForest live = (k : ℕ) (s : SurfaceInfo) → get k live ≡ some s → Ends live s.parent_surface_id

-- A chain that ends and does not meet `id`.
data Avoids (id : ℕ) (live : Live) : Option ℕ → Type 0 where
  away_root : Avoids id live none
  away :
      (p : ℕ) (s : SurfaceInfo)
      → id ≢ p
      → get p live ≡ some s
      → Avoids id live s.parent_surface_id
      → Avoids id live (some p)

walk-Avoids :
    (rounds id : ℕ) (live : Live) (parent : Option ℕ)
    → walk rounds id live parent ≡ ok none
    → Avoids id live parent
unfolding walk
walk-Avoids zero id live none h = away_root
walk-Avoids zero id live (some p) h = cc
walk-Avoids (suc rounds) id live none h = away_root
walk-Avoids (suc rounds) id live (some p) h = elim (Bool-cases (p == id)) [
  | inl same ↦ ground arith
  | inr other ↦ elim (Option-cases (get p live)) [
    | inl missing ↦ ground arith
    | inr (s, found) ↦
        away p s (ground arith) found
          (walk-Avoids rounds id live s.parent_surface_id (ground arith))
  ]
]

Avoids-insert :
    (id : ℕ) (surface : SurfaceInfo) (live : Live) {parent : Option ℕ}
    → Avoids id live parent
    → Ends (insert id surface live) parent
Avoids-insert id surface live away_root = root
Avoids-insert id surface live (away p s other found rest) =
    above p s (get-insert_ne id p surface live other ∙ found) (Avoids-insert id surface live rest)

Ends-insert :
    (id : ℕ) (surface : SurfaceInfo) (live : Live) {parent : Option ℕ}
    → Ends (insert id surface live) surface.parent_surface_id
    → Ends live parent
    → Ends (insert id surface live) parent
Ends-insert id surface live top root = root
Ends-insert id surface live top (above p s found rest) = elim (Bool-cases (id == p)) [
  | inl same ↦
      let here : id ≡ p = ground arith in
      subst (λ q. Ends (insert id surface live) (some q)) here
        (above id surface (get-insert_self id surface live) top)
  | inr other ↦
      above p s (get-insert_ne id p surface live (ground arith) ∙ found)
        (Ends-insert id surface live top rest)
]

insert-IsForest :
    (id : ℕ) (surface : SurfaceInfo) (live : Live)
    → Avoids id live surface.parent_surface_id
    → IsForest live
    → IsForest (insert id surface live)
insert-IsForest id surface live clear forest k s found =
    let top = Avoids-insert id surface live clear in
    elim (Bool-cases (id == k)) [
      | inl same ↦
          let here : id ≡ k = ground arith in
          let this : surface ≡ s = cc (here, found, get-insert_self id surface live) in
          subst (λ (q : SurfaceInfo). Ends (insert id surface live) q.parent_surface_id) this top
      | inr other ↦
          let before : get k live ≡ some s =
            sym (get-insert_ne id k surface live (ground arith)) ∙ found in
          Ends-insert id surface live top (forest k s before)
    ]

Ends-erase :
    (id : ℕ) (live : Live) {parent : Option ℕ}
    → any_child id live ≡ false
    → parent ≢ some id
    → Ends live parent
    → Ends (erase id live) parent
Ends-erase id live alone other root = root
Ends-erase id live alone other (above p s found rest) =
    let away_from : id ≢ p = λ e. other (ap some (sym e)) in
    above p s (get-erase_ne id p live away_from ∙ found)
      (Ends-erase id live alone (any_child_none id p live alone found) rest)

-- After an accepted upsert the chain of parents of every live surface still ends at a surface
-- without parent, if it did before.
pub upsert-IsForest :
    (r : Registry) (surface : SurfaceInfo) {r' : Registry}
    → IsForest r.live
    → upsert r surface ≡ ok r'
    → IsForest r'.live
upsert-IsForest r surface {r'} forest h =
    let u = upsert-Upserted r surface h in
    let id = surface.surface_id in
    let clear = walk-Avoids max_application_surfaces id r.live surface.parent_surface_id u.rooted in
    subst (λ (q : Registry). IsForest q.live) (sym u.result)
      (insert-IsForest id surface r.live clear forest)

-- If the parents form a forest, an accepted removal leaves no surface whose chain of parents is
-- cut off.
pub remove-IsForest :
    (r : Registry) (id : ℕ) {r' : Registry}
    → IsForest r.live
    → remove r id ≡ ok r'
    → IsForest r'.live
remove-IsForest r id {r'} forest h =
    let (alone, _, result) = remove-eq_ok r id h in
    subst (λ (q : Registry). IsForest q.live) (sym result)
      λ k s found.
        let other : id ≢ k = λ e. cc (e, found, get-erase_self id r.live) in
        let before : get k r.live ≡ some s = sym (get-erase_ne id k r.live other) ∙ found in
        Ends-erase id r.live alone (any_child_none id k r.live alone before) (forest k s before)

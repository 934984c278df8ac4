-- ===== src/Proto/Application/Registry/Steps.antt =====
-- What an accepted step of `SurfaceRegistry` has checked, and lookups after it.
use nebula_desk.Prelude.{
  ℕ, ◌≡◌, refl, sym, ap, ◌∙◌, ◌≢◌, inl, inr, [], ◌∷◌, leb, ◌==◌, Bool, false, ◌&&◌, ◌||◌, Option,
  none, some, arith, Bool-cases,
}
use nebula_desk.Proto.{ok}
use nebula_desk.Proto.Readers.{bind_inv, refuse_inv}
use nebula_desk.Proto.Application.{SurfaceInfo, invalid, validate_surface, max_application_surfaces}
use nebula_desk.Proto.Application.Registry.{
  Live, Registry, get, insert, erase, is_none, outdated, walk, is_some, mark, upsert, is_parent,
  any_child, remove,
}

pub get-insert_self : (id : ℕ) (s : SurfaceInfo) (live : Live) → get id (insert id s live) ≡ some s
unfolding get insert
get-insert_self id s [] = ground arith
get-insert_self id s ((k, t) ∷ live) = let rest = get-insert_self id s live in ground arith

pub get-insert_ne :
    (id k : ℕ) (s : SurfaceInfo) (live : Live) → id ≢ k → get k (insert id s live) ≡ get k live
unfolding get insert
get-insert_ne id k s [] h = ground arith
get-insert_ne id k s ((j, t) ∷ live) h = let rest = get-insert_ne id k s live h in ground arith

pub get-erase_self : (id : ℕ) (live : Live) → get id (erase id live) ≡ none
unfolding get erase
get-erase_self id [] = refl
get-erase_self id ((k, t) ∷ live) = let rest = get-erase_self id live in ground arith

pub get-erase_ne : (id k : ℕ) (live : Live) → id ≢ k → get k (erase id live) ≡ get k live
unfolding get erase
get-erase_ne id k [] h = refl
get-erase_ne id k ((j, t) ∷ live) h = let rest = get-erase_ne id k live h in ground arith

has_child :
    (id : ℕ) (parent : Option ℕ)
    → parent ≡ some id
    → (b : Bool) → (is_parent id parent || b) ≢ false
unfolding is_parent
has_child id none e b = cc
has_child id (some p) e b = ground arith

is_some-false : (o : Option ℕ) → is_some o ≡ false → o ≡ none
unfolding is_some
is_some-false none h = refl
is_some-false (some p) h = cc

ok_inj : {A : Type 0} {a b : A} → ok a ≡ ok b → a ≡ b
ok_inj h = cc

-- No live surface names a surface without children as its parent.
pub any_child_none :
    (id k : ℕ) (live : Live) {s : SurfaceInfo}
    → any_child id live ≡ false
    → get k live ≡ some s
    → s.parent_surface_id ≢ some id
unfolding get any_child is_parent
any_child_none id k [] h g = cc
any_child_none id k ((j, t) ∷ live) {s} h g = elim (Bool-cases (j == k)) [
  | inl here ↦
      let same : t ≡ s = ground arith in
      λ e.
        let parent : t.parent_surface_id ≡ some id =
          ap (λ (q : SurfaceInfo). q.parent_surface_id) same ∙ e in
        has_child id t.parent_surface_id parent (any_child id live) h
  | inr there ↦ any_child_none id k live {s = s} (ground arith) (ground arith)
]

-- The facts that an accepted `upsert` has established, and its result.
pub record Upserted (r : Registry) (surface : SurfaceInfo) (r' : Registry) : Type 0 where
  pub valid : validate_surface surface ≡ ok tt
  pub in_range : leb r.max_surfaces surface.surface_id ≡ false
  pub not_reused : r.used surface.surface_id && is_none (get surface.surface_id r.live) ≡ false
  pub not_outdated : outdated surface (get surface.surface_id r.live) ≡ false
  pub rooted :
      walk max_application_surfaces surface.surface_id r.live surface.parent_surface_id ≡ ok none
  pub result : r' ≡ record r {
    used = mark r.used surface.surface_id;
    live = insert surface.surface_id surface r.live;
  }

pub upsert-Upserted :
    (r : Registry) (surface : SurfaceInfo) {r' : Registry}
    → upsert r surface ≡ ok r'
    → Upserted r surface r'
unfolding upsert
upsert-Upserted r surface {r'} g0 =
    let id = surface.surface_id in
    bind_inv (validate_surface surface) _ g0 λ u valid g1.
      refuse_inv (leb r.max_surfaces id || r.used id && is_none (get id r.live)) invalid _ g1
        λ free g2. refuse_inv (outdated surface (get id r.live)) invalid _ g2 λ fresh g3.
          bind_inv (walk max_application_surfaces id r.live surface.parent_surface_id) _ g3
            λ parent rooted g4. refuse_inv (is_some parent) invalid _ g4 λ root g5. record {
              valid = valid;
              in_range = ground arith;
              not_reused = ground arith;
              not_outdated = fresh;
              rooted = rooted ∙ ap ok (is_some-false parent root);
              result = sym (ok_inj g5);
            }

pub remove-eq_ok :
    (r : Registry) (id : ℕ) {r' : Registry}
    → remove r id ≡ ok r'
    → (any_child id r.live ≡ false)
      × (get id r.live ≢ none)
      × (r' ≡ record r { live = erase id r.live })
unfolding remove is_none
remove-eq_ok r id {r'} h =
    refuse_inv (any_child id r.live || is_none (get id r.live)) invalid _ h
      λ alone g. (ground arith, ground arith, sym (ok_inj g))

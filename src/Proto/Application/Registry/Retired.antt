-- ===== src/Proto/Application/Registry/Retired.antt =====
-- The ids whose surface was removed, over any later sequence of steps.
use nebula_desk.Prelude.{
  ℕ, ◌≡◌, sym, ap, ◌∙◌, ◌≢◌, inl, inr, ◌==◌, true, ◌&&◌, none, arith, subst, Bool-cases,
  Option-cases,
}
use nebula_desk.Proto.{ok}
use nebula_desk.Proto.Application.{SurfaceInfo}
use nebula_desk.Proto.Application.Registry.{Registry, get, erase, is_none, upsert, remove}
use nebula_desk.Proto.Application.Registry.Steps.{
  get-insert_ne, get-erase_self, get-erase_ne, upsert-Upserted, remove-eq_ok,
}
use nebula_desk.Proto.Application.Registry.Ids.{Reaches, Reaches-preserves, AllFiled}

record Retired (id : ℕ) (r : Registry) : Type 0 where
  marked : r.used id ≡ true
  gone : get id r.live ≡ none

Retired-upsert :
    (id : ℕ) (q : Registry) (s : SurfaceInfo) (r' : Registry)
    → Retired id q
    → upsert q s ≡ ok r'
    → (id ≢ s.surface_id) × Retired id r'
unfolding is_none
Retired-upsert id q s r' f h =
    let u = upsert-Upserted q s h in
    let m = f.marked in
    let gone = f.gone in
    let other : id ≢ s.surface_id = λ e.
      let marked : q.used s.surface_id ≡ true = cc in
      let reuse = u.not_reused in
      let none_there : get s.surface_id q.live ≡ none = cc in
      let both : q.used s.surface_id && is_none (get s.surface_id q.live) ≡ true =
        rw (marked, none_there) in
      cc in
    (
      other,
      subst (Retired id) (sym u.result) (record {
        marked = ground arith;
        gone = get-insert_ne s.surface_id id s q.live (λ e. other (sym e)) ∙ gone;
      }),
    )

Retired-remove :
    (id : ℕ) (q : Registry) (k : ℕ) (r' : Registry)
    → Retired id q
    → remove q k ≡ ok r'
    → Retired id r'
Retired-remove id q k r' f h =
    let (_, _, result) = remove-eq_ok q k h in
    let gone = f.gone in
    subst (Retired id) (sym result) (record {
      marked = f.marked;
      gone = elim (Bool-cases (k == id)) [
        | inl same ↦
            let e : k ≡ id = ground arith in
            ap (λ j. get j (erase k q.live)) (sym e) ∙ get-erase_self k q.live
        | inr other ↦ get-erase_ne k id q.live (ground arith) ∙ gone
      ];
    })

-- Where every live surface is filed under its own marked id: an id whose surface was removed is
-- never live again, and no later upsert under it is accepted.
pub removed_not_reused :
    (r : Registry) (id : ℕ) {removed_from r' : Registry}
    → AllFiled r
    → remove r id ≡ ok removed_from
    → Reaches removed_from r'
    → (get id r'.live ≡ none)
      × ((s : SurfaceInfo) (r'' : Registry) → s.surface_id ≡ id → upsert r' s ≢ ok r'')
removed_not_reused r id {removed_from} {r'} filed h path =
    let (_, was, result) = remove-eq_ok r id h in
    let start : Retired id removed_from = subst (Retired id) (sym result) (record {
      marked = elim (Option-cases (get id r.live)) [
        | inl missing ↦ absurd (was missing)
        | inr (s, found) ↦ (filed id s found).marked
      ];
      gone = get-erase_self id r.live;
    }) in
    let last : Retired id r' =
      Reaches-preserves (Retired id) (λ q s q' f g. (Retired-upsert id q s q' f g).1)
        (Retired-remove id) start path in
    (last.gone, λ s r'' e g. (Retired-upsert id r' s r'' last g).0 (sym e))

-- ===== src/Production/Stations/Least.antt =====
-- The automatic choice of a station (backend/app/modules/production/service.py, `_auto_station`).
use blyns_ops.Prelude.{
  ◌≡◌, refl, sym, ◌∙◌, arith, String, Bool, true, false, Option, none, some, List, [], ◌∷◌, All,
  Bool-cases, inl, inr, filter_by, any_of, subst, filter_by-All, All-filter_by, All-sort_by,
  filter_by-any_of, any_of-none, not_empty, str_leb,
}
use blyns_ops.Prelude.Int.{ℤ, ltb_ℤ, ◌≤ℤ◌}
use blyns_ops.Tenant.{Db, Station, WorkOrder}
use blyns_ops.Production.Store.{active_stations}
use blyns_ops.Production.Stations.{
  least_loaded, candidates, station_units, auto_station, wo_category, station_matches,
}

≤ℤ_refl : (a : ℤ) → a ≤ℤ a
≤ℤ_refl a = omega arith

below_less : (a b c : ℤ) → a ≤ℤ b → ltb_ℤ b c ≡ true → a ≤ℤ c
below_less a b c h k = ground arith

below_more : (a b c : ℤ) → a ≤ℤ b → ltb_ℤ c b ≡ false → a ≤ℤ c
below_more a b c h k = ground arith

-- A station whose load is at most those of `t` and of all of `us`.
abbrev IsLeast : (Station → ℤ) → Station → List Station → Station → Type 0
IsLeast load t us c = (load c ≤ℤ load t) × All (λ u. load c ≤ℤ load u) us

least_loaded-IsLeast :
    (load : Station → ℤ) (t : Station) (us : List Station)
    → IsLeast load t us (least_loaded load t us)
least_loaded-IsLeast load t [] = (≤ℤ_refl (load t), tt)
least_loaded-IsLeast load t (u ∷ us) = elim (Bool-cases (ltb_ℤ (load u) (load t))) [
  | inl less ↦ subst (IsLeast load t (u ∷ us)) (rw less refl) (
      let h = least_loaded-IsLeast load u us in
      (below_less (load (least_loaded load u us)) (load u) (load t) h.0 less, h))
  | inr more ↦ subst (IsLeast load t (u ∷ us)) (rw more refl) (
      let h = least_loaded-IsLeast load t us in
      (h.0, (below_more (load (least_loaded load t us)) (load t) (load u) h.0 more, h.1)))
]

-- The chosen station is one of the list.
least_loaded-All :
    (P : Station → Type 0) (load : Station → ℤ) (t : Station) (us : List Station)
    → P t
    → All P us
    → P (least_loaded load t us)
least_loaded-All P load t [] p h = p
least_loaded-All P load t (u ∷ us) p h = elim (Bool-cases (ltb_ℤ (load u) (load t))) [
  | inl less ↦ rw less (least_loaded-All P load u us h.0 h.1)
  | inr more ↦ rw more (least_loaded-All P load t us p h.1)
]

-- What the automatic choice promises: an active station that fits the category if any active one does,
-- and whose load is least among those that it was chosen from.
pub record IsBest (s : Db) (category : Option String) (t : Station) : Type 0 where
  pub active : t.is_active ≡ true
  pub fits : station_matches category t ≡ any_of (station_matches category) (active_stations s)
  pub least :
      All (λ u. station_units s t ≤ℤ station_units s u) (candidates category (active_stations s))

abbrev pub Chooses : Db → Option String → Option Station → Type 0
Chooses s category none = active_stations s ≡ []
Chooses s category (some t) = IsBest s category t

active_stations-All : (s : Db) → All (λ (t : Station). t.is_active ≡ true) (active_stations s)
unfolding active_stations
active_stations-All s =
    All-sort_by (λ (t : Station). t.is_active ≡ true) (λ (a b : Station). str_leb a.code b.code)
      (filter_by (λ (t : Station). t.is_active) s.shop.stations)
      (filter_by-All (λ (t : Station). t.is_active) s.shop.stations)

-- Each of the candidates is active, and fits as well as any active station does.
Fits : Option String → List Station → Station → Type 0
Fits category ts t =
    (t.is_active ≡ true) × (station_matches category t ≡ any_of (station_matches category) ts)

Fits-All :
    (category : Option String) (ts us : List Station) (b : Bool)
    → any_of (station_matches category) ts ≡ b
    → All (λ (t : Station). t.is_active ≡ true) us
    → All (λ u. station_matches category u ≡ b) us
    → All (Fits category ts) us
unfolding Fits
Fits-All category ts [] b e h k = tt
Fits-All category ts (u ∷ us) b e h k = ((h.0, k.0 ∙ sym e), Fits-All category ts us b e h.1 k.1)

candidates-Fits :
    (category : Option String) (ts : List Station)
    → All (λ (t : Station). t.is_active ≡ true) ts
    → All (Fits category ts) (candidates category ts)
candidates-Fits category ts h =
    go (filter_by (station_matches category) ts) (filter_by-any_of (station_matches category) ts)
      (All-filter_by (λ (t : Station). t.is_active ≡ true) (station_matches category) ts h)
      (filter_by-All (station_matches category) ts)
  where
    go :
        (us : List Station)
        → any_of (station_matches category) ts ≡ not_empty us
        → All (λ (t : Station). t.is_active ≡ true) us
        → All (λ u. station_matches category u ≡ true) us
        → All (Fits category ts) (elim us [ [] ↦ ts | t ∷ rest ↦ t ∷ rest ])
    go [] e k l = Fits-All category ts ts false e h (any_of-none (station_matches category) ts e)
    go (u ∷ us) e k l = Fits-All category ts (u ∷ us) true e k l

no_candidates :
    (ts us : List Station)
    → (elim us as (λ _. List Station) [ [] ↦ ts | t ∷ rest ↦ t ∷ rest ]) ≡ []
    → ts ≡ []
no_candidates ts [] e = e
no_candidates ts (u ∷ us) e = cc

-- The automatic choice finds a station unless none is active: an active one, one that fits the material
-- of the work order if any active one does, and with the least load of those.
pub auto_station-Chooses :
    (wo : WorkOrder) (s : Db) → Chooses s (wo_category wo.bom_lines s) (auto_station wo s)
unfolding auto_station Fits
auto_station-Chooses wo s =
    go (candidates category (active_stations s)) refl
      (candidates-Fits category (active_stations s) (active_stations-All s))
  where
    category : Option String
    category = wo_category wo.bom_lines s

    go :
        (cs : List Station)
        → candidates category (active_stations s) ≡ cs
        → All (Fits category (active_stations s)) cs
        → Chooses s category
            (elim cs [ [] ↦ none | t ∷ ts ↦ some (least_loaded (station_units s) t ts) ])
    go [] e h =
        no_candidates (active_stations s) (filter_by (station_matches category) (active_stations s))
          e
    go (t ∷ ts) e h =
        let best =
          least_loaded-All (Fits category (active_stations s)) (station_units s) t ts h.0 h.1 in
        record {
          active = best.0;
          fits = best.1;
          least =
              subst
                (λ (us : List Station).
                  All
                    (λ u.
                      station_units s (least_loaded (station_units s) t ts) ≤ℤ station_units s u)
                    us)
                (sym e) (least_loaded-IsLeast (station_units s) t ts);
        }

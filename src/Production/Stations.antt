-- ===== src/Production/Stations.antt =====
-- Stations and their load (backend/app/modules/production/service.py and repository.py).
pub mod Least
use blyns_ops.Prelude.{
  ℕ, ◌+◌, ◌*◌, String, Bool, true, false, Option, none, some, List, [], ◌∷◌, map, not, ◌&&◌, ◌||◌,
  ◌==◌, if◌then◌else◌, find_one, filter_by, any_of, length, opt_str_eq, is_in, lower, round_div,
}
use blyns_ops.Prelude.Int.{ℤ, pos, neg, pos_part, neg_part, ◌+ℤ◌, sub_ℕ, ltb_ℤ, leb_ℤ}
use blyns_ops.Tenant.{Db, Exec, ok, reads, Station, WorkOrder, WorkOrderLine}
use blyns_ops.Production.Lifecycle.{active_at_station, is_one_of}
use blyns_ops.Production.Store.{active_stations, product_of}

-- `repo.station_load`: what is parked at the station and still to be built.
unfoldable pub loads : String → WorkOrder → Bool
loads text w =
    is_one_of w.status active_at_station
    && opt_str_eq w.current_station_id (some text)
    && not w.is_deleted

abbrev pub sum_units : List WorkOrder → ℤ
sum_units [] = pos 0
sum_units (w ∷ ws) = sub_ℕ w.qty.ordered w.qty.done +ℤ sum_units ws

unfoldable pub station_units : Db → Station → ℤ
unfolding loads
station_units s t = sum_units (filter_by (loads t.id_text) s.shop.work_orders)

unfoldable pub station_count : Db → Station → ℕ
unfolding loads
station_count s t = length (filter_by (loads t.id_text) s.shop.work_orders)

-- `list_stations`
pub record StationLoad : Type 0 where
  pub station : Station
  pub units : ℤ
  pub work_orders : ℕ
  pub capacity : ℕ
  pub utilization : Option ℤ

-- `round(100 * units / cap) if cap else None`
unfoldable pub utilization : ℤ → ℕ → Option ℤ
unfolding round_div
utilization units cap =
    if cap == 0
    then none
    else some (sub_ℕ (round_div (100 * pos_part units) cap) (round_div (100 * neg_part units) cap))

abbrev station_view : Db → Station → StationLoad
station_view s t = record {
  station = t;
  units = station_units s t;
  work_orders = station_count s t;
  capacity = t.capacity_units_per_day;
  utilization = utilization (station_units s t) t.capacity_units_per_day;
}

unfoldable pub list_stations : Exec (List StationLoad)
list_stations = reads (λ s. ok (map (station_view s) (active_stations s)))

-- `_station_matches`
unfoldable pub station_matches : Option String → Station → Bool
station_matches none t = false
station_matches (some category) t =
    not (opt_str_eq (some category) (some ""))
    && any_of (λ mt. is_in (lower mt) (lower category) || is_in (lower category) (lower mt))
        t.material_types

-- `_suggest_station`
unfoldable pub suggest_station : List Station → Option String → Option String
unfolding station_matches
suggest_station stations category = elim (find_one (station_matches category) stations) [
  | none ↦ none
  | some t ↦ some t.id_text
]

-- `_wo_category`: of the product on the first line
unfoldable pub wo_category : List WorkOrderLine → Db → Option String
unfolding product_of
wo_category [] s = none
wo_category (l ∷ _) s = elim (product_of l.product_id s) [ none ↦ none | some p ↦ p.category ]

-- `min(stations, key=load)`: the first of those with the least load, from `t` on
abbrev pub least_loaded : (Station → ℤ) → Station → List Station → Station
least_loaded load t [] = t
least_loaded load t (u ∷ us) = least_loaded load (if ltb_ℤ (load u) (load t) then u else t) us

-- `[…] or stations`
abbrev pub candidates : Option String → List Station → List Station
candidates category stations = elim (filter_by (station_matches category) stations) [
  | [] ↦ stations
  | t ∷ ts ↦ t ∷ ts
]

-- `_auto_station`
unfoldable pub auto_station : WorkOrder → Db → Option Station
unfolding wo_category
auto_station wo s = elim (candidates (wo_category wo.bom_lines s) (active_stations s)) [
  | [] ↦ none
  | t ∷ ts ↦ some (least_loaded (station_units s) t ts)
]

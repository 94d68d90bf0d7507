-- ===== src/Production/Packing.antt =====
-- Protection and vehicles (backend/app/modules/production/permissions.py and service.py).
use blyns_ops.Prelude.{
  ℕ, String, Bool, true, false, Option, none, some, List, [], ◌∷◌, ◌||◌, if◌then◌else◌, leb, str_eq,
  is_in, lower,
}

pub record Protection : Type 0 where
  pub material : String
  pub type_ : String
  pub protection_spec : String
  pub moisture_barrier : Bool
  pub handling : List String

-- `PROTECTION_SPECS`, in its order, and `DEFAULT_PROTECTION`
abbrev pub protection_specs : List Protection
protection_specs =
    record {
      material = "panel";
      type_ = "pallet";
      protection_spec = "edge guards + corner blocks";
      moisture_barrier = true;
      handling = "keep flat" ∷ "max 4 high" ∷ [];
    }
    ∷ record {
      material = "sheet";
      type_ = "pallet";
      protection_spec = "banded to pallet + slip sheet";
      moisture_barrier = true;
      handling = "keep flat" ∷ [];
    }
    ∷ record {
      material = "timber";
      type_ = "bundle";
      protection_spec = "shrink-wrap + battens";
      moisture_barrier = true;
      handling = "keep dry" ∷ [];
    }
    ∷ record {
      material = "metal";
      type_ = "crate";
      protection_spec = "VCI film + strapping";
      moisture_barrier = true;
      handling = "sharp edges" ∷ [];
    }
    ∷ record {
      material = "glass";
      type_ = "crate";
      protection_spec = "foam-lined crate";
      moisture_barrier = false;
      handling = "fragile" ∷ "keep upright" ∷ "two-person lift" ∷ [];
    }
    ∷ []

abbrev pub default_protection : Protection
default_protection = record {
  material = "";
  type_ = "carton";
  protection_spec = "boxed + labelled";
  moisture_barrier = false;
  handling = [];
}

-- `_protection_for`
abbrev pub first_protection : String → List Protection → Protection
first_protection category [] = default_protection
first_protection category (x ∷ xs) =
    if is_in x.material category || is_in category x.material
    then x
    else first_protection category xs

unfoldable pub protection_for : Option String → Protection
protection_for none = default_protection
protection_for (some category) =
    if str_eq category ""
    then default_protection
    else first_protection (lower category) protection_specs

-- `VEHICLE_BANDS` and `HEAVY_VEHICLE`
pub record Band : Type 0 where
  pub ceiling : ℕ
  pub vehicle : String

abbrev pub vehicle_bands : List Band
vehicle_bands =
    record { ceiling = 20; vehicle = "van" }
    ∷ record { ceiling = 80; vehicle = "3.5t truck" }
    ∷ record { ceiling = 200; vehicle = "7.5t truck" }
    ∷ []

abbrev pub heavy_vehicle : String
heavy_vehicle = "articulated lorry"

-- `_suggest_vehicle`
abbrev pub first_band : ℕ → List Band → String
first_band units [] = heavy_vehicle
first_band units (b ∷ bs) = if leb units b.ceiling then b.vehicle else first_band units bs

unfoldable pub suggest_vehicle : ℕ → String
suggest_vehicle units = first_band units vehicle_bands

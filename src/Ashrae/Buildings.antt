-- ===== src/Ashrae/Buildings.antt =====
-- internal/ashrae/buildings.go.
pub mod Laws
use twinval_go_backend.Prelude.{ℕ, ◌++◌, Option, none, some, List, [], ◌∷◌, if◌then◌else◌}
use twinval_go_backend.Prelude.Text.{Text, codes, text_eq}
use twinval_go_backend.Float.{Float64, fl, decimal}

pub record MeterProfile (W : Type 0) : Type 0 where
  pub mean : W
  pub std : W
  pub peak_hour : ℕ
  pub weekend_factor : W
  pub seasonal_amp : W

pub record Building (W : Type 0) : Type 0 where
  pub id : ℕ
  pub key : Text
  pub name : Text
  pub primary_use : Text
  pub square_feet : ℕ
  pub year_built : ℕ
  pub floor_count : ℕ
  pub latitude : W
  pub longitude : W
  pub address : Text
  pub climate_zone : Text
  pub govt_valuation : W
  pub land_value : W
  pub structure_value : W
  pub currency : Text
  pub meter_profiles : List (Text × MeterProfile W)

-- The dash is one character of three bytes.
abbrev climate : Text
climate =
    codes "0A "
    ++ (226 ∷ 128 ∷ 148 ∷ codes " Very Hot Humid (Af ")
    ++ (226 ∷ 128 ∷ 148 ∷ codes " Tropical Rainforest)")

module _ {W : Type 0} ⦃d : Float64 W⦄ where
  abbrev pub klcc_tower : Building W
  klcc_tower = record {
    id = 101;
    key = codes "MY-KL-OFF-KLCC";
    name = codes "KLCC Tower";
    primary_use = codes "Grade A Office";
    square_feet = 125_000;
    year_built = 1998;
    floor_count = 48;
    latitude = decimal 31578;
    longitude = decimal 1017123;
    address = codes "Kuala Lumpur City Centre, 50088 Kuala Lumpur";
    climate_zone = climate;
    govt_valuation = fl 185_000_000;
    land_value = fl 75_000_000;
    structure_value = fl 110_000_000;
    currency = codes "MYR";
    meter_profiles =
        (
          codes "electricity_kwh",
          record {
            mean = decimal 34805000;
            std = decimal 6204000;
            peak_hour = 14;
            weekend_factor = decimal 2200;
            seasonal_amp = decimal 400;
          },
        )
        ∷ (
          codes "chilled_water_kwh",
          record {
            mean = decimal 19208000;
            std = decimal 3805000;
            peak_hour = 13;
            weekend_factor = decimal 1800;
            seasonal_amp = decimal 600;
          },
        )
        ∷ [];
  }

  abbrev axis_shah_alam : Building W
  axis_shah_alam = record {
    id = 102;
    key = codes "MY-SA-IDC-AXIS";
    name = codes "Axis Shah Alam DC";
    primary_use = codes "Industrial / Data Centre";
    square_feet = 48_000;
    year_built = 2016;
    floor_count = 4;
    latitude = decimal 30851;
    longitude = decimal 1015325;
    address = codes "Shah Alam, Selangor 40150";
    climate_zone = climate;
    govt_valuation = fl 62_000_000;
    land_value = fl 22_000_000;
    structure_value = fl 40_000_000;
    currency = codes "MYR";
    meter_profiles =
        (
          codes "electricity_kwh",
          record {
            mean = decimal 86502000;
            std = decimal 9208000;
            peak_hour = 12;
            weekend_factor = decimal 9500;
            seasonal_amp = decimal 200;
          },
        )
        ∷ (
          codes "chilled_water_kwh",
          record {
            mean = decimal 32804000;
            std = decimal 4802000;
            peak_hour = 12;
            weekend_factor = decimal 9300;
            seasonal_amp = decimal 200;
          },
        )
        ∷ [];
  }

  abbrev al_aqar : Building W
  al_aqar = record {
    id = 103;
    key = codes "MY-KL-HC-ALAQAR";
    name = codes "Al-Aqar Medical Hub";
    primary_use = codes "Healthcare";
    square_feet = 32_000;
    year_built = 2007;
    floor_count = 12;
    latitude = decimal 31502;
    longitude = decimal 1016235;
    address = codes "Damansara, 47500 Petaling Jaya, Selangor";
    climate_zone = climate;
    govt_valuation = fl 41_000_000;
    land_value = fl 16_000_000;
    structure_value = fl 25_000_000;
    currency = codes "MYR";
    meter_profiles =
        (
          codes "electricity_kwh",
          record {
            mean = decimal 18206000;
            std = decimal 3108000;
            peak_hour = 11;
            weekend_factor = decimal 8800;
            seasonal_amp = decimal 300;
          },
        )
        ∷ (
          codes "chilled_water_kwh",
          record {
            mean = decimal 8204000;
            std = decimal 1805000;
            peak_hour = 10;
            weekend_factor = decimal 8500;
            seasonal_amp = decimal 300;
          },
        )
        ∷ [];
  }

  abbrev pavilion : Building W
  pavilion = record {
    id = 104;
    key = codes "MY-KL-RET-PAV";
    name = codes "Pavilion Retail Arcade";
    primary_use = codes "Retail";
    square_feet = 89_000;
    year_built = 2007;
    floor_count = 7;
    latitude = decimal 31489;
    longitude = decimal 1017132;
    address = codes "168 Jalan Bukit Bintang, 55100 Kuala Lumpur";
    climate_zone = climate;
    govt_valuation = fl 137_000_000;
    land_value = fl 58_000_000;
    structure_value = fl 79_000_000;
    currency = codes "MYR";
    meter_profiles =
        (
          codes "electricity_kwh",
          record {
            mean = decimal 27504000;
            std = decimal 5106000;
            peak_hour = 16;
            weekend_factor = decimal 13500;
            seasonal_amp = decimal 500;
          },
        )
        ∷ (
          codes "chilled_water_kwh",
          record {
            mean = decimal 14802000;
            std = decimal 3104000;
            peak_hour = 15;
            weekend_factor = decimal 13000;
            seasonal_amp = decimal 500;
          },
        )
        ∷ [];
  }

  abbrev sunway : Building W
  sunway = record {
    id = 105;
    key = codes "MY-SJ-LOG-SUN";
    name = codes "Sunway Logistics Park";
    primary_use = codes "Logistics / Industrial";
    square_feet = 71_000;
    year_built = 2014;
    floor_count = 5;
    latitude = decimal 30588;
    longitude = decimal 1015841;
    address = codes "Subang Jaya, 47500 Selangor";
    climate_zone = climate;
    govt_valuation = fl 88_000_000;
    land_value = fl 34_000_000;
    structure_value = fl 54_000_000;
    currency = codes "MYR";
    meter_profiles =
        (
          codes "electricity_kwh",
          record {
            mean = decimal 8408000;
            std = decimal 1954000;
            peak_hour = 10;
            weekend_factor = decimal 4000;
            seasonal_amp = decimal 300;
          },
        )
        ∷ (
          codes "chilled_water_kwh",
          record {
            mean = decimal 4156000;
            std = decimal 1102000;
            peak_hour = 11;
            weekend_factor = decimal 3800;
            seasonal_amp = decimal 300;
          },
        )
        ∷ [];
  }

  abbrev pub buildings : List (Building W)
  buildings = klcc_tower ∷ axis_shah_alam ∷ al_aqar ∷ pavilion ∷ sunway ∷ []

module _ {W : Type 0} where
  unfoldable pub by_key_in : List (Building W) → Text → Option (Building W)
  by_key_in [] key = none
  by_key_in (b ∷ bs) key = let rest = by_key_in bs key in if text_eq b.key key then some b else rest

unfoldable pub by_key : {W : Type 0} ⦃d : Float64 W⦄ → Text → Option (Building W)
unfolding by_key_in
by_key key = by_key_in buildings key

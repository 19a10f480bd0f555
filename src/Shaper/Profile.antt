-- ===== src/Shaper/Profile.antt =====
-- internal/profile: profile.go and the built-in profile of default.go. Reading a file and the JSON parser are
-- parameters.
use ghost_vpn.Base.{ℕ, List, [], ◌∷◌, Bytes}
use ghost_vpn.Io.{Result, ok, err, profile_read, profile_parse}
use ghost_vpn.Shaper.Asymmetry.{Floats}
use ghost_vpn.Shaper.Distribution.{Bin}

-- `Profile`, without its name and description.
pub record Profile (F : Type 0) : Type 0 where
  pub packet_size_up : List (Bin F)
  pub packet_size_down : List (Bin F)
  pub iat_up : List (Bin F)
  pub iat_down : List (Bin F)
  pub burst_size : List (Bin F)
  pub burst_gap : List (Bin F)
  pub conn_lifetime : List (Bin F)
  pub asymmetry_ratio : F

module _ {F : Type 0} where
  -- `Parse`, and `Load` of what `os.ReadFile` gives.
  unfoldable pub parse_profile : (Bytes → Result (Profile F)) → Bytes → Result (Profile F)
  parse_profile unmarshal bytes = elim (unmarshal bytes) [
    | ok p ↦ ok p
    | err e ↦ err (profile_parse e)
  ]

  unfoldable pub load_profile : (Bytes → Result (Profile F)) → Result Bytes → Result (Profile F)
  load_profile unmarshal (err e) = err (profile_read e)
  load_profile unmarshal (ok bytes) = elim (unmarshal bytes) [
    | ok p ↦ ok p
    | err e ↦ err (profile_parse e)
  ]

-- Values with their weights.
abbrev pub up_sizes : List (ℕ × ℕ)
up_sizes =
    (0, 5)
    ∷ (40, 15)
    ∷ (100, 10)
    ∷ (200, 8)
    ∷ (350, 12)
    ∷ (500, 8)
    ∷ (700, 5)
    ∷ (1000, 3)
    ∷ (1300, 2)
    ∷ (1400, 1)
    ∷ []

abbrev pub down_sizes : List (ℕ × ℕ)
down_sizes =
    (0, 3)
    ∷ (40, 8)
    ∷ (100, 5)
    ∷ (200, 4)
    ∷ (500, 6)
    ∷ (800, 5)
    ∷ (1100, 8)
    ∷ (1300, 12)
    ∷ (1400, 20)
    ∷ (1452, 15)
    ∷ []

-- In microseconds.
abbrev pub up_gaps : List (ℕ × ℕ)
up_gaps =
    (50, 5)
    ∷ (200, 10)
    ∷ (1000, 15)
    ∷ (5000, 12)
    ∷ (20000, 10)
    ∷ (100000, 8)
    ∷ (500000, 5)
    ∷ (2000000, 3)
    ∷ (5000000, 2)
    ∷ []

abbrev pub down_gaps : List (ℕ × ℕ)
down_gaps =
    (30, 8)
    ∷ (100, 15)
    ∷ (500, 12)
    ∷ (2000, 10)
    ∷ (10000, 8)
    ∷ (50000, 6)
    ∷ (200000, 4)
    ∷ (1000000, 3)
    ∷ []

abbrev pub burst_sizes : List (ℕ × ℕ)
burst_sizes =
    (1, 15) ∷ (2, 12) ∷ (3, 10) ∷ (5, 8) ∷ (8, 6) ∷ (12, 4) ∷ (20, 3) ∷ (40, 2) ∷ (80, 1) ∷ []

-- In milliseconds.
abbrev pub burst_gaps : List (ℕ × ℕ)
burst_gaps =
    (5, 8) ∷ (20, 12) ∷ (50, 10) ∷ (100, 8) ∷ (300, 6) ∷ (1000, 5) ∷ (3000, 3) ∷ (10000, 2) ∷ []

-- In seconds.
abbrev pub lifetimes : List (ℕ × ℕ)
lifetimes = (30, 5) ∷ (60, 8) ∷ (120, 10) ∷ (300, 12) ∷ (600, 8) ∷ (900, 5) ∷ (1800, 3) ∷ []

module _ {F : Type 0} (fl : Floats F) where
  abbrev pub bins_of : List (ℕ × ℕ) → List (Bin F)
  bins_of [] = []
  bins_of ((v, w) ∷ rest) = record { v = fl.of_int v; w = fl.of_int w } ∷ bins_of rest

  -- `DefaultProfile`
  unfoldable pub default_profile : Profile F
  default_profile = record {
    packet_size_up = bins_of up_sizes;
    packet_size_down = bins_of down_sizes;
    iat_up = bins_of up_gaps;
    iat_down = bins_of down_gaps;
    burst_size = bins_of burst_sizes;
    burst_gap = bins_of burst_gaps;
    conn_lifetime = bins_of lifetimes;
    asymmetry_ratio = fl.of_int 5;
  }

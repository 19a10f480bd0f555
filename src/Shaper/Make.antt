-- ===== src/Shaper/Make.antt =====
-- internal/shaper/shaper.go: the configuration, `New`, and what is asked of a shaper; with the durations of
-- distribution.go. What the generator draws is an argument.
pub mod Calls
use ghost_vpn.Base.{
  ltb, ℕ, zero, suc, ◌*◌, ◌%◌, ◌^◌, ◌≡◌, refl, Bool, true, false, Option, none, some, List, [], ◌∷◌,
  if◌then◌else◌, suc, ◌-◌, ◌+◌,
}
use ghost_vpn.Io.{ℤ, pos, negsuc}
use ghost_vpn.Mux.Conn.{Conn}
use ghost_vpn.Shaper.Asymmetry.{Floats, Enforcer, new_enforcer, current_ratio}
use ghost_vpn.Shaper.Burst.{BurstController, new_burst_controller, should_delay, frame_sent}
use ghost_vpn.Shaper.Distribution.{Bin, Sampler, new_sampler, sample, sample_int, sample_total}
use ghost_vpn.Shaper.Padding.{Shaper}
use ghost_vpn.Shaper.Profile.{Profile, default_profile}

-- `Config`
pub record Config (F : Type 0) : Type 0 where
  pub profile : Option (Profile F)
  pub enabled : Bool
  pub asymmetry_tolerance : F
  pub padding_interval : ℤ

-- What `New` makes.
pub record Shaping (F W : Type 0) : Type 0 where
  pub shaper : Shaper F W
  pub burst : BurstController
  pub burst_size : Sampler F
  pub burst_gap : Sampler F
  pub packet_size_up : Sampler F
  pub packet_size_down : Sampler F
  pub iat_up : Sampler F
  pub iat_down : Sampler F
  pub lifetime : Sampler F

-- The int64 of 64 bits.
abbrev pub signed : ℕ → ℤ
signed n = if ltb n (2 ^ 63) then pos n else negsuc (2 ^ 64 - 1 - n)

-- time.Duration of a whole number of units, an int64 that may wrap.
abbrev pub duration_of : ℕ → ℤ → ℤ
duration_of unit (pos n) = signed ((n * unit) % 2 ^ 64)
duration_of unit (negsuc n) = signed ((2 ^ 64 - ((n + 1) * unit) % 2 ^ 64) % 2 ^ 64)

-- `if c.PaddingInterval > 0`; the default is five seconds.
abbrev pub interval_or_default : ℤ → ℕ
interval_or_default (pos zero) = 5 * 10 ^ 9
interval_or_default (pos (suc n)) = suc n
interval_or_default (negsuc n) = 5 * 10 ^ 9

module _ {F : Type 0} (fl : Floats F) where
  -- `profile`, `tolerance` and `paddingInterval` of the configuration.
  abbrev pub profile_or_default : Option (Profile F) → Profile F
  profile_or_default none = default_profile fl
  profile_or_default (some p) = p

  -- 0.15
  unfoldable pub tolerance : Config F → F
  tolerance c =
      if fl.less (fl.of_int 0) c.asymmetry_tolerance
      then c.asymmetry_tolerance
      else fl.div (fl.of_int 15) (fl.of_int 100)

  -- `SampleDuration`, `SampleDurationMs` and `SampleDurationSec`, by their unit in nanoseconds.
  abbrev pub as_duration : ℕ → Option F → Option ℤ
  as_duration unit none = none
  as_duration unit (some x) = some (duration_of unit (fl.to_int x))

  unfoldable pub sample_duration : ℕ → F → F → Sampler F → Option ℤ
  sample_duration unit first second s = as_duration unit (sample fl first second s)

  module _ {W : Type 0} where
    abbrev pub made : Conn W → Config F → Profile F → ℕ → Option ℤ → Option (Shaping F W)
    made conn c p now none = none
    made conn c p now (some size) = some (record {
      shaper = record {
        conn = conn;
        asym = new_enforcer fl p.asymmetry_ratio;
        enabled = c.enabled;
        stopped = false;
      };
      burst = new_burst_controller now size;
      burst_size = new_sampler fl p.burst_size true;
      burst_gap = new_sampler fl p.burst_gap true;
      packet_size_up = new_sampler fl p.packet_size_up true;
      packet_size_down = new_sampler fl p.packet_size_down true;
      iat_up = new_sampler fl p.iat_up true;
      iat_down = new_sampler fl p.iat_down true;
      lifetime = new_sampler fl p.conn_lifetime true;
    })

    -- `New`, which draws the size of the first burst; none is a panic.
    unfoldable pub new_shaper : Conn W → Config F → ℕ → F → F → Option (Shaping F W)
    new_shaper conn c now first second =
        let p = profile_or_default c.profile in
        made conn c p now (sample_int fl first second (new_sampler fl p.burst_size true))

    -- `ShouldDelay` with what the two samplers draw.
    abbrev pub delayed : Shaping F W → ℕ → Option ℤ → Option ℤ → Option (Shaping F W × Bool × ℤ)
    delayed s now (some gap) (some size) =
        let (burst, wait, long) = should_delay s.shaper.enabled now gap size s.burst in
        some (record s { burst = burst }, wait, long)
    delayed s now _ _ = none

    unfoldable pub shaper_delays :
        ℕ → (first second third fourth : F) → Shaping F W → Option (Shaping F W × Bool × ℤ)
    shaper_delays now first second third fourth s =
        delayed s now (sample_duration (10 ^ 6) first second s.burst_gap)
          (sample_int fl third fourth s.burst_size)

    -- `FrameSent`, `SampleLifetime` and `AsymmetryRatio` of the shaper.
    unfoldable pub shaper_frame_sent : Shaping F W → Shaping F W
    shaper_frame_sent s = if s.shaper.enabled then record s { burst = frame_sent s.burst } else s

    unfoldable pub sample_lifetime : F → F → Shaping F W → Option ℤ
    sample_lifetime first second s = sample_duration (10 ^ 9) first second s.lifetime

    unfoldable pub asymmetry_ratio : Shaping F W → F
    asymmetry_ratio s = current_ratio fl s.shaper.asym

    -- Whether `Start` starts the two loops.
    pub starts_loops : Shaping F W → Bool
    starts_loops s = s.shaper.enabled

-- ===== src/Shaper/Burst.antt =====
-- internal/shaper/burst.go, and what shaper.go makes of it: bursts of frames with gaps in between.
-- Times and durations are nanoseconds; a gap is a signed one, and may be negative. What a sampler
-- draws is an argument of the step that draws it.
use ghost_vpn.Base.{
  ℕ, zero, suc, ◌+◌, ◌-◌, ◌*◌, ◌^◌, ◌≤◌, ◌≡◌, refl, Bool, true, false, ltb, if◌then◌else◌, arith,
  none, Option, some, min,
}
use ghost_vpn.Io.{ℤ, pos, negsuc}

-- `BurstController`
pub record BurstController : Type 0 where
  pub remaining : ℤ
  pub next_burst : ℤ

-- const MaxDelay
abbrev pub max_delay : ℕ
max_delay = 100 * 10 ^ 6

-- `if bc.remaining < 1 { bc.remaining = 1 }`
abbrev at_least_one : ℤ → ℤ
at_least_one (pos zero) = pos 1
at_least_one (pos (suc n)) = pos (suc n)
at_least_one (negsuc n) = pos 1

-- `NewBurstController` with `startNewBurst`.
pub new_burst_controller : ℕ → ℤ → BurstController
new_burst_controller now size = record { remaining = at_least_one size; next_burst = pos now }

-- `bc.remaining <= 0`
abbrev exhausted : ℤ → Bool
exhausted (pos zero) = true
exhausted (pos (suc n)) = false
exhausted (negsuc n) = true

-- `now.Add(gap)`
abbrev pub add_gap : ℕ → ℤ → ℤ
add_gap now (pos n) = pos (now + n)
add_gap now (negsuc n) = if ltb n now then pos (now - (n + 1)) else negsuc (n - now)

-- `nextBurst.Sub(now)` where `now.Before(nextBurst)`; it stops at the longest int64 duration.
abbrev pub time_left : ℕ → ℤ → Option ℕ
time_left now (pos t) = if ltb now t then some (min (t - now) (2 ^ 63 - 1)) else none
time_left now (negsuc n) = none

abbrev send_unless : Option ℕ → ℕ → ℤ → ℤ → BurstController → BurstController × Bool × ℤ
send_unless (some left) now gap size c = (c, false, pos left)
send_unless none now gap size c =
    if exhausted c.remaining
    then (record { next_burst = add_gap now gap; remaining = at_least_one size }, false, gap)
    else (c, true, pos 0)

-- `ShouldSend`: whether to send, and how long to wait otherwise.
unfoldable pub should_send : ℕ → ℤ → ℤ → BurstController → BurstController × Bool × ℤ
should_send now gap size c = send_unless (time_left now c.next_burst) now gap size c

abbrev less_one : ℤ → ℤ
less_one (pos zero) = negsuc 0
less_one (pos (suc n)) = pos n
less_one (negsuc n) = negsuc (suc n)

-- `FrameSent`
pub frame_sent : BurstController → BurstController
frame_sent c = record c { remaining = less_one c.remaining }

-- What `ShouldDelay` makes of an answer.
abbrev cap_wait : ℤ → ℤ
cap_wait (pos n) = pos (if ltb max_delay n then max_delay else n)
cap_wait (negsuc n) = negsuc n

abbrev capped : BurstController × Bool × ℤ → BurstController × Bool × ℤ
capped (c, true, wait) = (c, false, pos 0)
capped (c, false, wait) = (c, true, cap_wait wait)

-- `Shaper.ShouldDelay`
unfoldable pub should_delay : Bool → ℕ → ℤ → ℤ → BurstController → BurstController × Bool × ℤ
should_delay enabled now gap size c =
    if enabled then capped (should_send now gap size c) else (c, false, pos 0)

-- A wait of at most the ceiling.
abbrev pub IsShort : ℤ → Type 0
IsShort (pos n) = n ≤ max_delay
IsShort (negsuc n) = Unit

cap_wait-IsShort : (t : ℤ) → IsShort (cap_wait t)
cap_wait-IsShort (pos n) = ground arith
cap_wait-IsShort (negsuc n) = tt

capped-IsShort : (r : BurstController × Bool × ℤ) → IsShort (capped r).2
capped-IsShort (c, true, wait) = omega arith
capped-IsShort (c, false, wait) = cap_wait-IsShort wait

-- Whoever asks is told to wait at most the ceiling.
pub should_delay-IsShort :
    (enabled : Bool) (now : ℕ) (gap size : ℤ) (c : BurstController)
    → IsShort (should_delay enabled now gap size c).2
unfolding should_delay
should_delay-IsShort true now gap size c = capped-IsShort (should_send now gap size c)
should_delay-IsShort false now gap size c = omega arith

at_least_one-left : (size : ℤ) → exhausted (at_least_one size) ≡ false
at_least_one-left (pos zero) = refl
at_least_one-left (pos (suc n)) = refl
at_least_one-left (negsuc n) = refl

-- When a burst is over and its gap has passed, a caller that asks again once the new gap is over may
-- send, whatever is drawn.
pub should_delay_lem :
    (enabled : Bool) (now later : ℕ) (gap gap' size size' : ℤ) (c : BurstController)
    → exhausted c.remaining ≡ true
    → time_left now c.next_burst ≡ none
    → time_left later (add_gap now gap) ≡ none
    → (should_delay enabled later gap' size' (should_delay enabled now gap size c).0).1 ≡ false
unfolding should_delay should_send
should_delay_lem false now later gap gap' size size' c over ready waited = refl
should_delay_lem true now later gap gap' size size' c over ready waited =
    rw (ready, over, if◌then◌else◌) (rw (waited, at_least_one-left size) refl)

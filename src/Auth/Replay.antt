-- ===== src/Auth/Replay.antt =====
-- internal/auth/replay.go: the sliding window of nonces. Nonces and the bitmap are uint64.
pub mod Refine
use ghost_vpn.Base.{
  ℕ, ◌+◌, ◌-◌, ◌*◌, ◌%◌, ◌^◌, Bool, true, false, not, bit_and, bit_or, ltb, leb, ◌==◌,
  if◌then◌else◌,
}

-- `ReplayWindow`
pub record ReplayWindow : Type 0 where
  pub head : ℕ
  pub bitmap : ℕ
  pub has_any : Bool

-- const WindowSize
abbrev pub window_size : ℕ
window_size = 64

-- uint64 `x << s`
pub shl : ℕ → ℕ → ℕ
shl x s = x * 2 ^ s % 2 ^ 64

-- The zero value, and what `Reset` leaves.
abbrev pub reset : ReplayWindow
reset = record { head = 0; bitmap = 0; has_any = false }

-- A nonce above the head: the window moves.
advance : ReplayWindow → ℕ → ReplayWindow
unfolding shl
advance w n =
    let shift = n - w.head in
    record w {
      head = n;
      bitmap = if leb window_size shift then 1 else bit_or (shl w.bitmap shift) 1;
    }

-- A nonce at or below the head.
look_back : ReplayWindow → ℕ → ReplayWindow × Bool
unfolding shl
look_back w n =
    let diff = w.head - n in
    if leb window_size diff
    then (w, false)
    else let mask = shl 1 diff in
      if not (bit_and w.bitmap mask == 0)
      then (w, false)
      else (record w { bitmap = bit_or w.bitmap mask }, true)

-- `Mark`: the new window, and whether the nonce is fresh.
pub mark : ReplayWindow → ℕ → ReplayWindow × Bool
mark w n =
    if not w.has_any
    then (record w { has_any = true; head = n; bitmap = 1 }, true)
    else if ltb w.head n
    then (advance w n, true)
    else look_back w n

-- `Head`
pub head_of : ReplayWindow → ℕ
head_of w = w.head

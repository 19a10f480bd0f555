-- ===== src/Client/Tests.antt =====
-- Runs of the client.
use ghost_vpn.Base.{
  ◌+◌, ℕ, ◌*◌, ◌≤◌, ◌<◌, ◌≡◌, refl, none, some, [], ◌∷◌, Bytes, replicate, arith, ◌-◌,
}
use ghost_vpn.Io.{Result, ok}
use ghost_vpn.Crypto.Handshake.Plain.{plain, client_key}
use ghost_vpn.Client.Establish.{establish, Fits, Closable, establish-Fits}
use ghost_vpn.Client.Sessions.{
  Client, begun, rotation_establishes, rotation_swaps, drained, Reach, rotating_begins,
  rotating_ends, draining_ends, here, next,
}
use ghost_vpn.Client.Sessions.Owned.{IsOwned, Reach-IsOwned}
use ghost_vpn.Client.Rotation.{second, rotation_wait, rotation_wait_bounds}
use ghost_vpn.Client.Watchdog.{grace, reconnects_at, over, tick, reconnects_in_time}
use ghost_vpn.Client.Packets
use ghost_vpn.Client.Packets.{
  Pipeline, idle, read_packet, take_packet, reading, taking, IsOrdered, Reach-IsOrdered,
}

-- A server that answers with nothing.
abbrev silent : Bytes → Result Bytes
silent msg1 = ok []

establish-Fits_example :
    Fits (establish plain none silent none client_key (replicate 32 4))
    × Closable (establish plain none silent none client_key (replicate 32 4)).1
establish-Fits_example = establish-Fits plain none silent none client_key (replicate 32 4)

-- One rotation, until the first session is closed.
abbrev rotated : Client
rotated = drained 1 (rotation_swaps 2 (rotation_establishes begun))

rotated-Reach : Reach rotated
rotated-Reach =
    next (next (next here (rotating_begins refl)) (rotating_ends 2 refl)) (draining_ends 1 0 refl)

Reach-IsOwned_example : IsOwned rotated
Reach-IsOwned_example = Reach-IsOwned rotated-Reach

abbrev less_one : ℕ → ℕ
less_one n = n - 1

less_one_below : (n : ℕ) → 0 < n → less_one n < n
less_one_below n h = omega arith

rotation_wait_bounds_example :
    (wait : ℕ) × (rotation_wait less_one 90 ≡ some wait)
    × (90 * second * 7 ≤ wait * 10)
    × (wait * 10 < 90 * second * 13)
rotation_wait_bounds_example =
    rotation_wait_bounds less_one 90 less_one_below (omega arith) (omega arith)

-- For 51 years the product overflows, and `Int63n` panics.
rotation_wait_overflows : rotation_wait less_one 1600000000 ≡ none
unfolding rotation_wait
rotation_wait_overflows = refl

abbrev passed : Pipeline
passed = take_packet (read_packet (7 ∷ []) idle)

Reach-IsOrdered_example : IsOrdered passed
Reach-IsOrdered_example =
    Reach-IsOrdered (Packets.next (Packets.next Packets.here (reading (7 ∷ []))) taking)

-- Ticks every two seconds.
reconnects_in_time_example :
    (u : ℕ) × (reconnects_at 7 (1 ∷ 2000000001 ∷ 4000000001 ∷ 6000000001 ∷ []) [] ≡ some u)
    × (1 + grace ≤ u)
    × (u < 1 + grace + 2000000000)
reconnects_in_time_example =
    reconnects_in_time 7 2000000000 1 (2000000001 ∷ 4000000001 ∷ 6000000001 ∷ []) [] refl (
      tick (omega arith) (omega arith)
        (tick (omega arith) (omega arith) (tick (omega arith) (omega arith) (over (omega arith)))))

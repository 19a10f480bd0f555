-- ===== src/NmPlugin/Service/Steps.antt =====
-- nm-plugin/plugin.go: what may happen to the plugin, in any order, with each critical section and each
-- signal outside the lock as one step.
use ghost_vpn.Base.{ℕ, ◌≡◌, true, false, Option, some, Bytes, insert, lookup}
use ghost_vpn.Io.{ℤ}
use ghost_vpn.NmPlugin.Address.{Ip}
use ghost_vpn.NmPlugin.Service.{Process, World}
use ghost_vpn.NmPlugin.Service.Connect.{Attempt, Connection, connect}
use ghost_vpn.NmPlugin.Service.Watch.{Seen, has, exit_of, disconnect, reap, watch}

-- A process exits.
abbrev pub exits : ℕ → Process → World → World
exits p x w = record w { processes = insert p (record x { exited = true }) w.processes }

module _ (to4 : Bytes → Option Ip) (show : Ip → Bytes) (atoi : Bytes → Option ℤ)
    (May : World → Type 0) where
  -- `May` says when NetworkManager calls Connect.
  pub data Step (w : World) : World → Type 0 where
    connecting : (a : Attempt) (c : Connection) → May w → Step w (connect atoi a c w).0
    disconnecting : Step w (disconnect w)
    exiting : (p : ℕ) (x : Process) → lookup p w.processes ≡ some x → Step w (exits p x w)
    reaping :
        (p : ℕ) → has p w.reapers ≡ true → exit_of (lookup p w.processes) ≡ true → Step w (reap p w)
    watching : (seen : Seen) (ctx : ℕ) → Step w (watch to4 show atoi seen ctx w)

  -- The worlds that come after `from`; a panic ends the plugin.
  pub data Reach (from : World) : World → Type 0 where
    here : Reach from from
    next : {w w' : World} → Reach from w → w.crashed ≡ false → Step w w' → Reach from w'

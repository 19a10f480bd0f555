-- ===== src/NmPlugin/Service/Tidy.antt =====
-- nm-plugin/plugin.go: the temporary files, which hold the private key.
use ghost_vpn.Base.{
  ℕ, ◌⊎◌, ◌≡◌, refl, ap, ◌∙◌, inl, inr, true, false, Bool-cases, Option, none, some, List, [], ◌∷◌,
  Bytes, lookup, if_both, arith,
}
use ghost_vpn.Io.{ℤ, Error}
use ghost_vpn.Config.{ClientConfig}
use ghost_vpn.NmPlugin.Address.{Ip}
use ghost_vpn.NmPlugin.Service.{
  Phase, selecting, probed, settling, configured, reporting, failing, waiting, ServiceState, init,
  stopping, starting, started, stopped, unknown, shutdown, Plugin, Watcher, World, start, DbusError,
  emit_state, cleanup, without, terminate, remove_file,
}
use ghost_vpn.NmPlugin.Service.Connect.{
  Attempt, Connection, connect, write_file, is_up, configured_connect, requested,
}
use ghost_vpn.NmPlugin.Service.Watch.{
  disconnect, reap, cancel, stop_process, watch, Seen, go, go_of, check, announce, addresses, quit,
  move,
}
use ghost_vpn.NmPlugin.Service.Steps.{
  Step, Reach, connecting, disconnecting, exiting, reaping, watching, here, next,
}
use ghost_vpn.NmPlugin.Service.Invariant.{Reach-IsSound}
use ghost_vpn.NmPlugin.Service.Sound.{Fits, IsSound}

abbrev pub listed : Option ℕ → List ℕ
listed none = []
listed (some f) = f ∷ []

-- The files that exist are the one that the plugin knows.
pub record IsTidy (w : World) : Type 0 where
  pub known : w.files ≡ listed w.plugin.cfg_tmp

-- NetworkManager waits with Connect while a session is being stopped.
abbrev pub NotStopping : World → Type 0
NotStopping w = w.plugin.state ≡ stopping → ⊥

without-listed : (c : Option ℕ) → without c (listed c) ≡ []
without-listed none = refl
without-listed (some f) = ground arith

stop-IsTidy : (w : World) → IsTidy w → IsTidy (emit_state stopped (cleanup w))
unfolding emit_state cleanup
stop-IsTidy w t = record {
  known = ap (without w.plugin.cfg_tmp) t.known ∙ without-listed w.plugin.cfg_tmp;
}

cancel-IsTidy :
    (ctx : Option ℕ) (w : World) → IsTidy w → IsTidy (emit_state stopping (cancel ctx w))
unfolding emit_state
cancel-IsTidy none w t = record { known = t.known }
cancel-IsTidy (some c) w t = record { known = t.known }

stop_process-IsTidy : (proc : Option ℕ) (w : World) → IsTidy w → IsTidy (stop_process proc w)
stop_process-IsTidy none w t = stop-IsTidy w t
stop_process-IsTidy (some p) w t = record { known = t.known }

disconnect-IsTidy : (w : World) → IsTidy w → IsTidy (disconnect w)
unfolding disconnect
disconnect-IsTidy w t =
    stop_process-IsTidy w.plugin.proc (emit_state stopping (cancel w.plugin.cancel_watch w))
      (cancel-IsTidy w.plugin.cancel_watch w t)

-- A state in which Connect goes on, other than Stopping, knows no file.
idle_no_file :
    (s : ServiceState) (p : Plugin)
    → Fits s p
    → is_up s ≡ false
    → (s ≡ stopping → ⊥)
    → p.cfg_tmp ≡ none
idle_no_file unknown p fits up may = absurd fits
idle_no_file init p (proc, cfg) up may = cfg
idle_no_file shutdown p fits up may = absurd fits
idle_no_file starting p fits up may = absurd (ground arith)
idle_no_file started p fits up may = absurd (ground arith)
idle_no_file stopping p fits up may = absurd (may refl)
idle_no_file stopped p (proc, cfg) up may = cfg

write_file-IsTidy :
    (created encoded launched : Option Error) (c : ClientConfig) (w : World)
    → w.files ≡ []
    → IsTidy w
    → IsTidy (write_file created encoded launched c w).0
unfolding emit_state
write_file-IsTidy (some e) encoded launched c w h t = t
write_file-IsTidy none (some e) launched c w h t = record { known = t.known }
write_file-IsTidy none none (some e) c w h t = record { known = ground arith }
write_file-IsTidy none none none c w h t = record { known = ap (◌∷◌ w.next) h }

configured-IsTidy :
    (a : Attempt) (r : DbusError ⊎ ClientConfig) (w : World)
    → w.files ≡ []
    → IsTidy w
    → IsTidy (configured_connect a r w).0
configured-IsTidy a (inl e) w h t = t
configured-IsTidy a (inr c) w h t = write_file-IsTidy a.created a.encoded a.launched c w h t

connect-IsTidy :
    (atoi : Bytes → Option ℤ) (a : Attempt) (c : Connection) (w : World)
    → NotStopping w
    → IsSound w
    → IsTidy w
    → IsTidy (connect atoi a c w).0
unfolding connect
connect-IsTidy atoi a c w may s t = elim (Bool-cases (is_up w.plugin.state)) [
  | inl up ↦ rw up t
  | inr down ↦ rw down (
      configured-IsTidy a (requested atoi c) w
        (t.known ∙ ap listed (idle_no_file w.plugin.state w.plugin s.fits down may)) t)
]

move-IsTidy : (ctx : ℕ) (x : Watcher) (p : Phase) (w : World) → IsTidy w → IsTidy (move ctx x p w)
move-IsTidy ctx x p w t = record { known = t.known }

quit-IsTidy : (ctx : ℕ) (w : World) → IsTidy w → IsTidy (quit ctx w)
quit-IsTidy ctx w t = record { known = t.known }

module _ (to4 : Bytes → Option Ip) (show : Ip → Bytes) (atoi : Bytes → Option ℤ) where
  check-IsTidy :
      (ips : Option (Ip × Ip)) (ctx : ℕ) (x : Watcher) (w : World)
      → IsTidy w
      → IsTidy (check to4 show atoi ips ctx x w)
  check-IsTidy none ctx x w t = record { known = t.known }
  check-IsTidy (some (addr, gw)) ctx x w t = record { known = t.known }

  announce-IsTidy :
      (ips : Option (Ip × Ip)) (ctx : ℕ) (x : Watcher) (w : World)
      → IsTidy w
      → IsTidy (announce to4 show atoi ips ctx x w)
  announce-IsTidy none ctx x w t = record { known = t.known }
  announce-IsTidy (some (addr, gw)) ctx x w t = record { known = t.known }

  go-IsTidy :
      (p : Phase) (seen : Seen) (ctx : ℕ) (x : Watcher) (w : World)
      → IsTidy w
      → IsTidy (go to4 show atoi p seen ctx x w)
  unfolding emit_state
  go-IsTidy selecting seen ctx x w t =
      if_both IsTidy _ (move-IsTidy ctx x _ w t) (if_both IsTidy _ (quit-IsTidy ctx w t) t)
  go-IsTidy (probed false) seen ctx x w t =
      move-IsTidy ctx x failing _ (stop-IsTidy (terminate x.process w) record { known = t.known })
  go-IsTidy (probed true) seen ctx x w t =
      if_both IsTidy _ (quit-IsTidy ctx w t) (move-IsTidy ctx x settling w t)
  go-IsTidy settling seen ctx x w t =
      if_both IsTidy _ (quit-IsTidy ctx w t) (check-IsTidy (addresses to4 show atoi x) ctx x w t)
  go-IsTidy configured seen ctx x w t = announce-IsTidy (addresses to4 show atoi x) ctx x w t
  go-IsTidy reporting seen ctx x w t = record { known = t.known }
  go-IsTidy failing seen ctx x w t = record { known = t.known }
  go-IsTidy waiting seen ctx x w t =
      if_both IsTidy _
        (if_both IsTidy _ (quit-IsTidy ctx _ (stop-IsTidy w t)) (quit-IsTidy ctx w t)) t

  watch-IsTidy :
      (found : Option Watcher) (seen : Seen) (ctx : ℕ) (w : World)
      → IsTidy w
      → IsTidy (go_of to4 show atoi found seen ctx w)
  watch-IsTidy none seen ctx w t = t
  watch-IsTidy (some x) seen ctx w t = go-IsTidy x.phase seen ctx x w t

  step-IsTidy :
      {w w' : World} → IsSound w → IsTidy w → Step to4 show atoi NotStopping w w' → IsTidy w'
  unfolding watch reap
  step-IsTidy {w} s t (connecting a c may) = connect-IsTidy atoi a c w may s t
  step-IsTidy {w} s t disconnecting = disconnect-IsTidy w t
  step-IsTidy {w} s t (exiting p x q) = record { known = t.known }
  step-IsTidy {w} s t (reaping p waits gone) =
      stop-IsTidy (record w { reapers = remove_file p w.reapers }) record { known = t.known }
  step-IsTidy {w} s t (watching seen ctx) = watch-IsTidy (lookup ctx w.watchers) seen ctx w t

  -- If Connect is not called while a session is being stopped, then at every moment the only
  -- configuration file that exists is the one that the plugin knows: none is left when a session
  -- has stopped or could not be started.
  pub Reach-IsTidy : {w : World} → Reach to4 show atoi NotStopping start w → IsTidy w
  Reach-IsTidy here = record { known = refl }
  Reach-IsTidy (next r up s) = step-IsTidy (Reach-IsSound to4 show atoi r) (Reach-IsTidy r) s

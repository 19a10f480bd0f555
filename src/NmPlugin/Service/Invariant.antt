-- ===== src/NmPlugin/Service/Invariant.antt =====
-- nm-plugin/plugin.go: every step keeps what holds of the plugin.
use ghost_vpn.Io.{Error}
use ghost_vpn.Base.{
  ℕ, ◌+◌, ◌⊎◌, Bool-cases, if_both, lookup, Bytes, ◌≡◌, refl, true, false, Option, none, some, ◌∷◌,
  arith, inl, inr, Bytes,
}
use ghost_vpn.Io.{ℤ, Error}
use ghost_vpn.NmPlugin.Address.{Ip}
use ghost_vpn.NmPlugin.Service.Steps.{
  Step, Reach, connecting, disconnecting, exiting, reaping, watching, here, next, exits,
}
use ghost_vpn.NmPlugin.Service.{
  Phase, selecting, probed, settling, configured, reporting, failing, waiting, ServiceState,
  unknown, init, shutdown, starting, started, stopping, stopped, state_changed, failure, Plugin,
  World, start, emit_state, cleanup, remove_file, ℤ, ClientConfig, DbusError, Phase, Watcher,
  probed, failing, terminate, settling, waiting, emit, failure_connect_failed,
}
use ghost_vpn.NmPlugin.Service.Connect.{
  connect, is_up, launch, Attempt, write_file, configured_connect, Connection, requested,
}
use ghost_vpn.NmPlugin.Service.Watch.{
  has, disconnect, cancel, stop_process, quit, watch, announce, reap, Seen, move, check, go, go_of,
  after_probe, addresses,
}
use ghost_vpn.NmPlugin.Service.Sound.{
  Fits, told, IsSound, told-append, start-IsSound, emit_state-IsSound, stop-IsSound, Alike-IsSound,
}

cancel_remembers :
    (ctx : Option ℕ) (w : World)
    → IsSound w
    → (f : ℕ) → (cancel ctx w).plugin.cfg_tmp ≡ some f
    → has f (cancel ctx w).files ≡ true
cancel_remembers none w s = s.remembered
cancel_remembers (some c) w s = s.remembered

stop_process-IsSound :
    (proc : Option ℕ) (w : World)
    → ((f : ℕ) → w.plugin.cfg_tmp ≡ some f → has f w.files ≡ true)
    → IsSound (stop_process proc (emit_state stopping w))
stop_process-IsSound none w remembered = stop-IsSound (emit_state stopping w)
stop_process-IsSound (some p) w remembered =
    Alike-IsSound (emit_state stopping w) (stop_process (some p) (emit_state stopping w))
      (record { plugin = refl; files = refl; told = refl })
      (emit_state-IsSound stopping w tt remembered)

disconnect-IsSound : (w : World) → IsSound w → IsSound (disconnect w)
unfolding disconnect
disconnect-IsSound w s =
    stop_process-IsSound w.plugin.proc (cancel w.plugin.cancel_watch w)
      (cancel_remembers w.plugin.cancel_watch w s)

forget-Fits :
    (s : ServiceState) (p : Plugin)
    → is_up s ≡ false
    → Fits s p
    → Fits s (record p { cfg_tmp = none })
forget-Fits unknown p up fits = fits
forget-Fits init p up (proc, cfg) = (proc, refl)
forget-Fits shutdown p up fits = fits
forget-Fits starting p up fits = absurd (ground arith)
forget-Fits started p up fits = fits
forget-Fits stopping p up fits = fits
forget-Fits stopped p up (proc, cfg) = (proc, refl)

launch-IsSound :
    (e : Option Error) (c : ClientConfig) (n : ℕ) (w : World)
    → is_up w.plugin.state ≡ false
    → Fits w.plugin.state w.plugin
    → told init w.signals ≡ w.plugin.state
    → IsSound
        (launch e c n (record w {
          next = w.next + 1;
          files = n ∷ w.files;
          plugin = record w.plugin { cfg_tmp = some n };
        })).0
unfolding emit_state
launch-IsSound (some e) c n w up fits announced = record {
  fits = forget-Fits w.plugin.state w.plugin up fits;
  remembered = λ f h. absurd (ground arith);
  announced = announced;
}
launch-IsSound none c n w up fits announced = record {
  fits = (n, n, n, refl, refl, refl);
  remembered = λ f h. ground arith;
  announced = told-append init w.signals (state_changed starting);
}

write_file-IsSound :
    (created encoded launched : Option Error) (c : ClientConfig) (w : World)
    → is_up w.plugin.state ≡ false
    → IsSound w
    → IsSound (write_file created encoded launched c w).0
write_file-IsSound (some e) encoded launched c w up s = s
write_file-IsSound none (some e) launched c w up s =
    Alike-IsSound w (record w { next = w.next + 1 })
      (record { plugin = refl; files = refl; told = refl }) s
write_file-IsSound none none launched c w up s =
    launch-IsSound launched c w.next w up s.fits s.announced

configured-IsSound :
    (a : Attempt) (r : DbusError ⊎ ClientConfig) (w : World)
    → is_up w.plugin.state ≡ false
    → IsSound w
    → IsSound (configured_connect a r w).0
configured-IsSound a (inl e) w up s = s
configured-IsSound a (inr c) w up s = write_file-IsSound a.created a.encoded a.launched c w up s

connect-IsSound :
    (atoi : Bytes → Option ℤ) (a : Attempt) (c : Connection) (w : World)
    → IsSound w
    → IsSound (connect atoi a c w).0
unfolding connect
connect-IsSound atoi a c w s = elim (Bool-cases (is_up w.plugin.state)) [
  | inl up ↦ rw up s
  | inr down ↦ rw down (configured-IsSound a (requested atoi c) w down s)
]

move-IsSound :
    (ctx : ℕ) (x : Watcher) (p : Phase) (w : World) → IsSound w → IsSound (move ctx x p w)
move-IsSound ctx x p w s =
    Alike-IsSound w (move ctx x p w) (record { plugin = refl; files = refl; told = refl }) s

quit-IsSound : (ctx : ℕ) (w : World) → IsSound w → IsSound (quit ctx w)
quit-IsSound ctx w s =
    Alike-IsSound w (quit ctx w) (record { plugin = refl; files = refl; told = refl }) s

module _ (to4 : Bytes → Option Ip) (show : Ip → Bytes) (atoi : Bytes → Option ℤ) where
  check-IsSound :
      (ips : Option (Ip × Ip)) (ctx : ℕ) (x : Watcher) (w : World)
      → IsSound w
      → IsSound (check to4 show atoi ips ctx x w)
  check-IsSound none ctx x w s =
      Alike-IsSound w (record w { crashed = true })
        (record { plugin = refl; files = refl; told = refl }) s
  check-IsSound (some (addr, gw)) ctx x w s =
      Alike-IsSound w (check to4 show atoi (some (addr, gw)) ctx x w)
        (record { plugin = refl; files = refl; told = told-append init w.signals _ }) s

  announce-IsSound :
      (ips : Option (Ip × Ip)) (ctx : ℕ) (x : Watcher) (w : World)
      → IsSound w
      → IsSound (announce to4 show atoi ips ctx x w)
  announce-IsSound none ctx x w s =
      Alike-IsSound w (record w { crashed = true })
        (record { plugin = refl; files = refl; told = refl }) s
  announce-IsSound (some (addr, gw)) ctx x w s =
      Alike-IsSound w (announce to4 show atoi (some (addr, gw)) ctx x w)
        (record { plugin = refl; files = refl; told = told-append init w.signals _ }) s

  go-IsSound :
      (p : Phase) (seen : Seen) (ctx : ℕ) (x : Watcher) (w : World)
      → IsSound w
      → IsSound (go to4 show atoi p seen ctx x w)
  go-IsSound selecting seen ctx x w s =
      if_both IsSound _ (move-IsSound ctx x (after_probe seen) w s)
        (if_both IsSound _ (quit-IsSound ctx w s) s)
  go-IsSound (probed false) seen ctx x w s =
      move-IsSound ctx x failing (emit_state stopped (cleanup (terminate x.process w)))
        (stop-IsSound (terminate x.process w))
  go-IsSound (probed true) seen ctx x w s =
      if_both IsSound _ (quit-IsSound ctx w s) (move-IsSound ctx x settling w s)
  go-IsSound settling seen ctx x w s =
      if_both IsSound _ (quit-IsSound ctx w s) (check-IsSound (addresses to4 show atoi x) ctx x w s)
  go-IsSound configured seen ctx x w s = announce-IsSound (addresses to4 show atoi x) ctx x w s
  go-IsSound reporting seen ctx x w s =
      move-IsSound ctx x waiting (emit_state started w)
        (emit_state-IsSound started w tt s.remembered)
  go-IsSound failing seen ctx x w s =
      Alike-IsSound w (quit ctx (emit (failure failure_connect_failed) w))
        (record { plugin = refl; files = refl; told = told-append init w.signals _ }) s
  go-IsSound waiting seen ctx x w s =
      if_both IsSound _
        (if_both IsSound _ (quit-IsSound ctx (emit_state stopped (cleanup w)) (stop-IsSound w))
          (quit-IsSound ctx w s))
        s

  watch-IsSound :
      (found : Option Watcher) (seen : Seen) (ctx : ℕ) (w : World)
      → IsSound w
      → IsSound (go_of to4 show atoi found seen ctx w)
  watch-IsSound none seen ctx w s = s
  watch-IsSound (some x) seen ctx w s = go-IsSound x.phase seen ctx x w s

  module _ {May : World → Type 0} where
    pub step-IsSound : {w w' : World} → IsSound w → Step to4 show atoi May w w' → IsSound w'
    unfolding watch reap
    step-IsSound {w} s (connecting a c may) = connect-IsSound atoi a c w s
    step-IsSound {w} s disconnecting = disconnect-IsSound w s
    step-IsSound {w} s (exiting p x q) =
        Alike-IsSound w (exits p x w) (record { plugin = refl; files = refl; told = refl }) s
    step-IsSound {w} s (reaping p waits gone) =
        stop-IsSound (record w { reapers = remove_file p w.reapers })
    step-IsSound {w} s (watching seen ctx) = watch-IsSound (lookup ctx w.watchers) seen ctx w s

    -- Whenever calls, processes and goroutines run in any order: the state is the last one that was
    -- signalled; while it is Starting the process, its file and a way to stop the watcher are known,
    -- and in Init and Stopped no process and no file is; and the file that is known exists.
    pub Reach-IsSound : {w : World} → Reach to4 show atoi May start w → IsSound w
    Reach-IsSound here = start-IsSound
    Reach-IsSound (next r up s) = step-IsSound (Reach-IsSound r) s

-- ===== src/NmPlugin/Service/Silence.antt =====
-- nm-plugin/plugin.go: a watcher that was cancelled.
use ghost_vpn.Base.{
  ℕ, ◌⊎◌, ◌≡◌, refl, sym, ap, ◌∙◌, inl, inr, true, false, Bool-cases, Option, none, some, Bytes,
  lookup, if_both, if◌then◌else◌, arith,
}
use ghost_vpn.NmPlugin.Service.Quiet.{
  IsSilent, insert-Early, delete-Early, still, after_probe-Early, Early, SendsOnlyQuiet,
  sends_nothing, go-quiet,
}
use ghost_vpn.Io.{ℤ, Error}
use ghost_vpn.Config.{ClientConfig}
use ghost_vpn.NmPlugin.Address.{Ip}
use ghost_vpn.NmPlugin.Service.{
  Phase, selecting, probed, settling, configured, reporting, failing, waiting, stopping, stopped,
  started, Watcher, World, DbusError, emit_state, emit, failure, failure_connect_failed, cleanup,
  terminate, remove_file,
}
use ghost_vpn.NmPlugin.Service.Connect.{
  Attempt, Connection, connect, write_file, is_up, configured_connect, requested,
}
use ghost_vpn.NmPlugin.Service.Watch.{
  disconnect, reap, cancel, stop_process, watch, has, move, quit, Seen, go, go_of, check, announce,
  addresses,
}
use ghost_vpn.NmPlugin.Service.Steps.{
  Step, Reach, connecting, disconnecting, exiting, reaping, watching, here, next,
}

module _ {c : ℕ} (to4 : Bytes → Option Ip) (show : Ip → Bytes) (atoi : Bytes → Option ℤ) where
  go_of-quiet :
      (found : Option Watcher) (seen : Seen) (w : World)
      → lookup c w.watchers ≡ found
      → IsSilent c w
      → SendsOnlyQuiet w (go_of to4 show atoi found seen c w)
  go_of-quiet none seen w q s = sends_nothing w
  go_of-quiet (some x) seen w q s =
      go-quiet to4 show atoi c x.phase seen x w (s.early x q) s.cancelled

module _ {c : ℕ} where
  stop_process-IsSilent :
      (proc : Option ℕ) (w : World)
      → IsSilent c w
      → IsSilent c (stop_process proc (emit_state stopping w))
  unfolding emit_state cleanup
  stop_process-IsSilent none w s = still _ refl refl s.early s
  stop_process-IsSilent (some p) w s = still _ refl refl s.early s

  cancel-IsSilent : (ctx : Option ℕ) (w : World) → IsSilent c w → IsSilent c (cancel ctx w)
  cancel-IsSilent none w s = s
  cancel-IsSilent (some k) w s = record {
    cancelled = ground (arith, s.cancelled);
    known = s.known;
    early = s.early;
  }

  disconnect-IsSilent : (w : World) → IsSilent c w → IsSilent c (disconnect w)
  unfolding disconnect
  disconnect-IsSilent w s =
      stop_process-IsSilent w.plugin.proc (cancel w.plugin.cancel_watch w)
        (cancel-IsSilent w.plugin.cancel_watch w s)

  write_file-IsSilent :
      (created encoded launched : Option Error) (config : ClientConfig) (w : World)
      → IsSilent c w
      → IsSilent c (write_file created encoded launched config w).0
  unfolding emit_state
  write_file-IsSilent (some e) encoded launched config w s = s
  write_file-IsSilent none (some e) launched config w s = record {
    cancelled = s.cancelled;
    known = ground (arith, s.known);
    early = s.early;
  }
  write_file-IsSilent none none (some e) config w s = record {
    cancelled = s.cancelled;
    known = ground (arith, s.known);
    early = s.early;
  }
  write_file-IsSilent none none none config w s = record {
    cancelled = s.cancelled;
    known = ground (arith, s.known);
    early = insert-Early c w.next _ w.watchers (λ q. tt) s.early;
  }

  configured-IsSilent :
      (a : Attempt) (r : DbusError ⊎ ClientConfig) (w : World)
      → IsSilent c w
      → IsSilent c (configured_connect a r w).0
  configured-IsSilent a (inl e) w s = s
  configured-IsSilent a (inr config) w s =
      write_file-IsSilent a.created a.encoded a.launched config w s

  connect-IsSilent :
      (atoi : Bytes → Option ℤ) (a : Attempt) (connection : Connection) (w : World)
      → IsSilent c w
      → IsSilent c (connect atoi a connection w).0
  unfolding connect
  connect-IsSilent atoi a connection w s = elim (Bool-cases (is_up w.plugin.state)) [
    | inl up ↦ rw up s
    | inr down ↦ rw down (configured-IsSilent a (requested atoi connection) w s)
  ]

  move-IsSilent :
      (ctx : ℕ) (x : Watcher) (p : Phase) (w : World)
      → (ctx ≡ c → Early p)
      → IsSilent c w
      → IsSilent c (move ctx x p w)
  move-IsSilent ctx x p w fresh s =
      still _ refl refl (insert-Early c ctx (record x { phase = p }) w.watchers fresh s.early) s

  quit-IsSilent : (ctx : ℕ) (w : World) → IsSilent c w → IsSilent c (quit ctx w)
  quit-IsSilent ctx w s = still _ refl refl (delete-Early c ctx w.watchers s.early) s

  -- An open context is another one.
  other_context : (ctx : ℕ) (w : World) → IsSilent c w → has ctx w.cancelled ≡ false → ctx ≡ c → ⊥
  other_context ctx w s opened same = absurd (ground (arith, s.cancelled))

  stop-IsSilent : (w : World) → IsSilent c w → IsSilent c (emit_state stopped (cleanup w))
  unfolding emit_state cleanup
  stop-IsSilent w s = still _ refl refl s.early s

  module _ (to4 : Bytes → Option Ip) (show : Ip → Bytes) (atoi : Bytes → Option ℤ) where
    check-IsSilent :
        (ips : Option (Ip × Ip)) (ctx : ℕ) (x : Watcher) (w : World)
        → (ctx ≡ c → ⊥)
        → IsSilent c w
        → IsSilent c (check to4 show atoi ips ctx x w)
    check-IsSilent none ctx x w other s = still _ refl refl s.early s
    check-IsSilent (some (addr, gw)) ctx x w other s =
        still _ refl refl
          (insert-Early c ctx (record x { phase = configured }) w.watchers other s.early) s

    announce-IsSilent :
        (ips : Option (Ip × Ip)) (ctx : ℕ) (x : Watcher) (w : World)
        → (ctx ≡ c → ⊥)
        → IsSilent c w
        → IsSilent c (announce to4 show atoi ips ctx x w)
    announce-IsSilent none ctx x w other s = still _ refl refl s.early s
    announce-IsSilent (some (addr, gw)) ctx x w other s =
        still _ refl refl
          (insert-Early c ctx (record x { phase = reporting }) w.watchers other s.early) s

    settling-IsSilent :
        (ips : Option (Ip × Ip)) (ctx : ℕ) (x : Watcher) (w : World)
        → IsSilent c w
        → IsSilent c (if has ctx w.cancelled then quit ctx w else check to4 show atoi ips ctx x w)
    settling-IsSilent ips ctx x w s = elim (Bool-cases (has ctx w.cancelled)) [
      | inl ended ↦ rw ended (quit-IsSilent ctx w s)
      | inr opened ↦ rw opened (check-IsSilent ips ctx x w (other_context ctx w s opened) s)
    ]

    go-IsSilent :
        (p : Phase) (seen : Seen) (ctx : ℕ) (x : Watcher) (w : World)
        → (ctx ≡ c → Early p)
        → IsSilent c w
        → IsSilent c (go to4 show atoi p seen ctx x w)
    unfolding emit_state
    go-IsSilent selecting seen ctx x w fresh s =
        if_both (IsSilent c) _ (move-IsSilent ctx x _ w (λ q. after_probe-Early seen) s)
          (if_both (IsSilent c) _ (quit-IsSilent ctx w s) s)
    go-IsSilent (probed false) seen ctx x w fresh s =
        move-IsSilent ctx x failing _ (λ q. tt)
          (stop-IsSilent (terminate x.process w) (still _ refl refl s.early s))
    go-IsSilent (probed true) seen ctx x w fresh s =
        if_both (IsSilent c) _ (quit-IsSilent ctx w s) (move-IsSilent ctx x settling w (λ q. tt) s)
    go-IsSilent settling seen ctx x w fresh s =
        settling-IsSilent (addresses to4 show atoi x) ctx x w s
    go-IsSilent configured seen ctx x w fresh s =
        announce-IsSilent (addresses to4 show atoi x) ctx x w fresh s
    go-IsSilent reporting seen ctx x w fresh s =
        move-IsSilent ctx x waiting _ fresh (still (emit_state started w) refl refl s.early s)
    go-IsSilent failing seen ctx x w fresh s =
        quit-IsSilent ctx _ (still (emit (failure failure_connect_failed) w) refl refl s.early s)
    go-IsSilent waiting seen ctx x w fresh s =
        if_both (IsSilent c) _
          (if_both (IsSilent c) _ (quit-IsSilent ctx _ (stop-IsSilent w s)) (quit-IsSilent ctx w s))
          s

    watch-IsSilent :
        (found : Option Watcher) (seen : Seen) (ctx : ℕ) (w : World)
        → lookup ctx w.watchers ≡ found
        → IsSilent c w
        → IsSilent c (go_of to4 show atoi found seen ctx w)
    watch-IsSilent none seen ctx w q s = s
    watch-IsSilent (some x) seen ctx w q s =
        go-IsSilent x.phase seen ctx x w
          (λ same. s.early x (ap (λ k. lookup k w.watchers) (sym same) ∙ q)) s

    module _ {May : World → Type 0} where
      step-IsSilent : {w w' : World} → IsSilent c w → Step to4 show atoi May w w' → IsSilent c w'
      unfolding watch reap
      step-IsSilent {w} s (connecting a d may) = connect-IsSilent atoi a d w s
      step-IsSilent {w} s disconnecting = disconnect-IsSilent w s
      step-IsSilent {w} s (exiting p x q) = still _ refl refl s.early s
      step-IsSilent {w} s (reaping p waits gone) =
          stop-IsSilent (record w { reapers = remove_file p w.reapers })
            (still _ refl refl s.early s)
      step-IsSilent {w} s (watching seen ctx) =
          watch-IsSilent (lookup ctx w.watchers) seen ctx w refl s

      stays_silent : {w w' : World} → IsSilent c w → Reach to4 show atoi May w w' → IsSilent c w'
      stays_silent s here = s
      stays_silent s (next r up x) = step-IsSilent (stays_silent s r) x

      -- A watcher that Disconnect cancelled before its final check never passes it, whatever runs
      -- and in whatever order; and whatever it does next at any moment after, it sends at most a
      -- failure and a change of the state to another than Started: neither Config nor Ip4Config.
      pub Reach-IsSilent :
          {w w' : World} (seen : Seen)
          → IsSilent c w
          → Reach to4 show atoi May w w'
          → IsSilent c w' × SendsOnlyQuiet w' (watch to4 show atoi seen c w')
      unfolding watch
      Reach-IsSilent {w' = w'} seen s r =
          let s' = stays_silent s r in
          (s', go_of-quiet to4 show atoi (lookup c w'.watchers) seen w' refl s')

-- ===== src/NmPlugin/Service/Quiet.antt =====
-- nm-plugin/plugin.go: what is true of a watcher that was cancelled before its final check, and the
-- signals that it sends.
use ghost_vpn.Base.{
  ◌==◌, ℕ, ◌≡◌, refl, sym, true, false, Option, List, [], ◌∷◌, ◌++◌, Bytes, All, append-nil,
  if_both, Map, ◌<◌, ap, lookup, ◌∙◌, insert, delete, some, arith, Bool-cases, inl, lookup-delete,
  lookup-insert, subst, inr,
}
use ghost_vpn.Io.{ℤ}
use ghost_vpn.NmPlugin.Address.{Ip}
use ghost_vpn.NmPlugin.Service.{
  Phase, selecting, probed, settling, configured, reporting, failing, waiting, started, stopped,
  Watcher, World, Signal, state_changed, config, ip4_config, failure, failure_connect_failed,
  emit_state, cleanup,
}
use ghost_vpn.NmPlugin.Service.Watch.{Seen, go, has, after_probe}

-- A watcher that has not passed its final check.
abbrev pub Early : Phase → Type 0
Early selecting = Unit
Early (probed b) = Unit
Early settling = Unit
Early configured = ⊥
Early reporting = ⊥
Early failing = Unit
Early waiting = ⊥

-- The watcher of context `c` is cancelled before its final check, or is gone.
pub record IsSilent (c : ℕ) (w : World) : Type 0 where
  pub cancelled : has c w.cancelled ≡ true
  pub known : c < w.next
  pub early : (x : Watcher) → lookup c w.watchers ≡ some x → Early x.phase

abbrev pub Earlies : ℕ → Map Watcher → Type 0
Earlies c m = (x : Watcher) → lookup c m ≡ some x → Early x.phase

pub insert-Early :
    (c ctx : ℕ) (x : Watcher) (m : Map Watcher)
    → (ctx ≡ c → Early x.phase)
    → Earlies c m
    → Earlies c (insert ctx x m)
insert-Early c ctx x m fresh early y h = elim (Bool-cases (ctx == c)) [
  | inl same ↦
      let is_x : x ≡ y = ground (arith, lookup-insert ctx c x m) in
      subst (λ (z : Watcher). Early z.phase) is_x (fresh (ground arith))
  | inr other ↦ early y (ground (arith, lookup-insert ctx c x m))
]

pub delete-Early : (c ctx : ℕ) (m : Map Watcher) → Earlies c m → Earlies c (delete ctx m)
delete-Early c ctx m early y h = elim (Bool-cases (ctx == c)) [
  | inl same ↦ absurd (ground (arith, lookup-delete ctx c m))
  | inr other ↦ early y (ground (arith, lookup-delete ctx c m))
]

-- The contexts are the same and the watcher is early.
pub still :
    {c : ℕ} {w : World} (w' : World)
    → w'.cancelled ≡ w.cancelled
    → w'.next ≡ w.next
    → Earlies c w'.watchers
    → IsSilent c w
    → IsSilent c w'
still {c} w' same_cancelled same_next early s = record {
  cancelled = ap (has c) same_cancelled ∙ s.cancelled;
  known = ground (arith, same_next, s.known);
  early = early;
}

pub after_probe-Early : (seen : Seen) → Early (after_probe seen)
after_probe-Early seen = if_both Early seen.found tt (if_both Early seen.late tt tt)

-- A signal that a cancelled watcher may send.
abbrev pub IsQuiet : Signal → Type 0
IsQuiet (state_changed started) = ⊥
IsQuiet (state_changed _) = Unit
IsQuiet (config d) = ⊥
IsQuiet (ip4_config d) = ⊥
IsQuiet (failure n) = Unit

-- What a step adds to the signals.
abbrev pub SendsOnlyQuiet : World → World → Type 0
SendsOnlyQuiet w w' = (new : List Signal) × (w'.signals ≡ w.signals ++ new) × All IsQuiet new

pub sends_nothing : (w : World) → SendsOnlyQuiet w w
sends_nothing w = ([], sym (append-nil w.signals), tt)

module _ (to4 : Bytes → Option Ip) (show : Ip → Bytes) (atoi : Bytes → Option ℤ) where
  -- What the watcher of a cancelled context sends before its final check.
  pub go-quiet :
      (c : ℕ) (p : Phase) (seen : Seen) (x : Watcher) (w : World)
      → Early p
      → has c w.cancelled ≡ true
      → SendsOnlyQuiet w (go to4 show atoi p seen c x w)
  unfolding emit_state cleanup
  go-quiet c selecting seen x w early cancelled =
      if_both (SendsOnlyQuiet w) seen.timer (sends_nothing w)
        (if_both (SendsOnlyQuiet w) (has c w.cancelled) (sends_nothing w) (sends_nothing w))
  go-quiet c (probed false) seen x w early cancelled = (state_changed stopped ∷ [], refl, (tt, tt))
  go-quiet c (probed true) seen x w early cancelled =
      if_both (SendsOnlyQuiet w) (has c w.cancelled) (sends_nothing w) (sends_nothing w)
  go-quiet c settling seen x w early cancelled = rw cancelled (sends_nothing w)
  go-quiet c configured seen x w early cancelled = absurd early
  go-quiet c reporting seen x w early cancelled = absurd early
  go-quiet c failing seen x w early cancelled =
      (failure failure_connect_failed ∷ [], refl, (tt, tt))
  go-quiet c waiting seen x w early cancelled = absurd early

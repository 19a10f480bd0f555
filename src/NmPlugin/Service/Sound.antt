-- ===== src/NmPlugin/Service/Sound.antt =====
-- nm-plugin/plugin.go: what holds of the plugin at every moment, and what keeps it.
use ghost_vpn.Base.{
  ℕ, sym, subst, ◌≡◌, refl, true, none, some, List, [], ◌∷◌, ◌++◌, arith, subst, sym,
}
use ghost_vpn.NmPlugin.Service.{
  ServiceState, unknown, init, shutdown, starting, started, stopping, stopped, Signal,
  state_changed, config, ip4_config, failure, Plugin, World, start, emit_state, cleanup,
}
use ghost_vpn.NmPlugin.Service.Watch.{has}

-- What the fields are in each state.
abbrev pub Fits : ServiceState → Plugin → Type 0
Fits unknown p = ⊥
Fits init p = (p.proc ≡ none) × (p.cfg_tmp ≡ none)
Fits shutdown p = ⊥
Fits starting p =
    (n : ℕ) × (f : ℕ) × (c : ℕ) × (p.proc ≡ some n)
    × (p.cfg_tmp ≡ some f)
    × (p.cancel_watch ≡ some c)
Fits started p = Unit
Fits stopping p = Unit
Fits stopped p = (p.proc ≡ none) × (p.cfg_tmp ≡ none)

-- The state that the signals so far tell; before the first, it is that of `New`.
abbrev told_by : Signal → ServiceState → ServiceState
told_by (state_changed s) before = s
told_by (config d) before = before
told_by (ip4_config d) before = before
told_by (failure r) before = before

abbrev pub told : ServiceState → List Signal → ServiceState
told before [] = before
told before (s ∷ ss) = told (told_by s before) ss

pub record IsSound (w : World) : Type 0 where
  pub fits : Fits w.plugin.state w.plugin
  pub remembered : (f : ℕ) → w.plugin.cfg_tmp ≡ some f → has f w.files ≡ true
  pub announced : told init w.signals ≡ w.plugin.state

pub told-append :
    (before : ServiceState) (ss : List Signal) (s : Signal)
    → told before (ss ++ s ∷ []) ≡ told_by s (told before ss)
told-append before [] s = refl
told-append before (x ∷ ss) s = told-append (told_by x before) ss s

pub start-IsSound : IsSound start
start-IsSound = record {
  fits = (refl, refl);
  remembered = λ f h. absurd (ground arith);
  announced = refl;
}

refit : (s : ServiceState) (p : Plugin) → Fits s p → Fits s (record p { state = s })
refit unknown p fits = fits
refit init p fits = fits
refit shutdown p fits = fits
refit starting p fits = fits
refit started p fits = fits
refit stopping p fits = fits
refit stopped p fits = fits

-- A state that is announced and fits the fields.
pub emit_state-IsSound :
    (s : ServiceState) (w : World)
    → Fits s w.plugin
    → ((f : ℕ) → w.plugin.cfg_tmp ≡ some f → has f w.files ≡ true)
    → IsSound (emit_state s w)
unfolding emit_state
emit_state-IsSound s w fits remembered = record {
  fits = refit s w.plugin fits;
  remembered = remembered;
  announced = told-append init w.signals (state_changed s);
}

pub stop-IsSound : (w : World) → IsSound (emit_state stopped (cleanup w))
unfolding cleanup
stop-IsSound w = emit_state-IsSound stopped (cleanup w) (refl, refl) (λ f h. absurd (ground arith))

-- A change of the processes, of the goroutines and of the contexts.
pub record Alike (w w' : World) : Type 0 where
  pub plugin : w'.plugin ≡ w.plugin
  pub files : w'.files ≡ w.files
  pub told : told init w'.signals ≡ told init w.signals

pub Alike-IsSound : (w w' : World) → Alike w w' → IsSound w → IsSound w'
Alike-IsSound w w' a s = record {
  fits = subst (λ (p : Plugin). Fits p.state p) (sym a.plugin) s.fits;
  remembered = λ f h. ground (arith, a.plugin, a.files, s.remembered f);
  announced = ground (arith, a.plugin, a.told, s.announced);
}

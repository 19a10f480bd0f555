-- ===== src/Startup/Ends.antt =====
-- What is true when a command goes on, returns or exits, of the host that its actions change.
use ghost_vpn.Base.{ℕ, ◌≡◌, refl, sym, subst, List, [], ◌∷◌, ◌++◌}
use ghost_vpn.Io.{Result, ok, err}
use ghost_vpn.Config.{Loaded, loaded, refused}
use ghost_vpn.Startup.{Ended, goes_on, returns, exits, Main, ◌>>=◌, and_then, or_exit, or_refuse}

module _ {Act Host : Type 0} (do_act : Act → Host → Host) where
  abbrev pub after : List Act → Host → Host
  after [] h = h
  after (a ∷ as_) h = after as_ (do_act a h)

  pub after-append : (xs ys : List Act) (h : Host) → after (xs ++ ys) h ≡ after ys (after xs h)
  after-append [] ys h = refl
  after-append (x ∷ xs) ys h = after-append xs ys (do_act x h)

  module _ (on_return : Host → Type 0) (on_exit : ℕ → Host → Type 0) where
    -- A command that goes on leaves `goal`.
    abbrev pub EndsAs : {A : Type 0} → (Host → A → Type 0) → Host → Ended A → Type 0
    EndsAs goal h (goes_on a) = goal h a
    EndsAs goal h returns = on_return h
    EndsAs goal h (exits n) = on_exit n h

    abbrev pub Ends : {A : Type 0} → (Host → A → Type 0) → Host → Main Act A → Type 0
    Ends goal h m = EndsAs goal (after m.0 h) m.1

    and_then-Ends :
        {A B : Type 0} (mid : Host → A → Type 0) (goal : Host → B → Type 0) (h : Host)
        (acts : List Act) (ended : Ended A) (f : A → Main Act B)
        → EndsAs mid (after acts h) ended
        → ((h' : Host) (a : A) → mid h' a → Ends goal h' (f a))
        → Ends goal h (and_then acts ended f)
    and_then-Ends mid goal h acts (goes_on a) f now rest =
        subst (λ h'. EndsAs goal h' (f a).1) (sym (after-append acts (f a).0 h))
          (rest (after acts h) a now)
    and_then-Ends mid goal h acts returns f now rest = now
    and_then-Ends mid goal h acts (exits n) f now rest = now

    pub bind-Ends :
        {A B : Type 0} (mid : Host → A → Type 0) (goal : Host → B → Type 0) (h : Host)
        (m : Main Act A) (f : A → Main Act B)
        → Ends mid h m
        → ((h' : Host) (a : A) → mid h' a → Ends goal h' (f a))
        → Ends goal h (m >>= f)
    bind-Ends mid goal h m f now rest = and_then-Ends mid goal h m.0 m.1 f now rest

    -- A step that changes nothing, and goes on or exits.
    pub or_exit-Ends :
        {A B : Type 0} (goal : Host → B → Type 0) (h : Host) (got : Result A) (f : A → Main Act B)
        → on_exit 1 h
        → ((a : A) → Ends goal h (f a))
        → Ends goal h (or_exit got >>= f)
    or_exit-Ends goal h (ok a) f fails works = works a
    or_exit-Ends goal h (err e) f fails works = fails

    pub or_refuse-Ends :
        {A B : Type 0} (goal : Host → B → Type 0) (h : Host) (got : Loaded A) (f : A → Main Act B)
        → on_exit 1 h
        → ((a : A) → Ends goal h (f a))
        → Ends goal h (or_refuse got >>= f)
    or_refuse-Ends goal h (loaded a) f fails works = works a
    or_refuse-Ends goal h (refused m) f fails works = fails

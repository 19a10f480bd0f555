-- ===== src/Shaper/Make/Calls.antt =====
-- internal/shaper/shaper.go: a shaper in use.
use ghost_vpn.Base.{
  ℕ, ◌^◌, ap₂, ◌≡◌, refl, Bool, true, Option, none, some, List, [], ◌∷◌, All, ap, if_both, ◌∙◌,
}
use ghost_vpn.Io.{ℤ}
use ghost_vpn.Mux.Conn.{Conn}
use ghost_vpn.Shaper.Asymmetry.{Floats}
use ghost_vpn.Shaper.Burst.{IsShort, should_delay, should_delay-IsShort}
use ghost_vpn.Shaper.Distribution.{Bin, new_sampler, sample_int, rounded, sample_total}
use ghost_vpn.Shaper.Make.{
  Config, Shaping, new_shaper, shaper_delays, shaper_frame_sent, delayed, sample_duration,
  as_duration, made, profile_or_default,
}

-- A frame was sent, or a caller asks whether to wait, at some time and with four draws.
pub data Call (F : Type 0) : Type 0 where
  sent : Call F
  asks : ℕ → (first second third fourth : F) → Call F

module _ {F : Type 0} (fl : Floats F) where
  abbrev pub longer : {A : Type 0} → ℤ → Option (List ℤ × A) → Option (List ℤ × A)
  longer t none = none
  longer t (some (ts, s)) = some (t ∷ ts, s)

  abbrev pub after_answer :
      {S A : Type 0} → Option (S × Bool × ℤ) → (S → Option (List ℤ × A)) → Option (List ℤ × A)
  after_answer none rest = none
  after_answer (some (s, wait, t)) rest = longer t (rest s)

  -- A list of calls: how long each that asks is told to wait, and none where one panics.
  unfoldable pub run_calls :
      {W : Type 0} → List (Call F) → Shaping F W → Option (List ℤ × Shaping F W)
  run_calls [] s = some ([], s)
  run_calls (sent ∷ calls) s = run_calls calls (shaper_frame_sent fl s)
  run_calls (asks now a b c d ∷ calls) s =
      after_answer (shaper_delays fl now a b c d s) (run_calls calls)

  -- The two samplers that are drawn from are over histograms.
  pub record IsDrawable {W : Type 0} (s : Shaping F W) : Type 0 where
    pub sizes : List (Bin F)
    pub gaps : List (Bin F)
    pub sizes_drawn : s.burst_size ≡ new_sampler fl sizes true
    pub gaps_drawn : s.burst_gap ≡ new_sampler fl gaps true

  duration_total :
      (unit : ℕ) (bins : List (Bin F)) (a b : F)
      → (t : ℤ) × (sample_duration fl unit a b (new_sampler fl bins true) ≡ some t)
  unfolding sample_duration
  duration_total unit bins a b =
      let (x, q) = sample_total fl bins true a b in (_, ap (as_duration fl unit) q)

  int_total :
      (bins : List (Bin F)) (a b : F)
      → (n : ℤ) × (sample_int fl a b (new_sampler fl bins true) ≡ some n)
  unfolding sample_int
  int_total bins a b = let (x, q) = sample_total fl bins true a b in (_, ap (rounded fl) q)

  -- A caller that asks gets an answer.
  delays_total :
      {W : Type 0} (now : ℕ) (a b c d : F) (s : Shaping F W)
      → IsDrawable s
      → (s' : Shaping F W) × (wait : Bool) × (t : ℤ) × (shaper_delays fl now a b c d s
          ≡ some (s', wait, t))
        × IsDrawable s'
        × IsShort t
  unfolding shaper_delays
  delays_total now a b c d s o =
      let (gap, drawn) = duration_total (10 ^ 6) o.gaps a b in
      let (size, counted) = int_total o.sizes c d in
      let gap_drawn : sample_duration fl (10 ^ 6) a b s.burst_gap ≡ some gap =
        ap (sample_duration fl (10 ^ 6) a b) o.gaps_drawn ∙ drawn in
      let size_drawn : sample_int fl c d s.burst_size ≡ some size =
        ap (sample_int fl c d) o.sizes_drawn ∙ counted in
      let answer = should_delay s.shaper.enabled now gap size s.burst in
      (
        record s { burst = answer.0 },
        answer.1,
        answer.2,
        ap₂ (delayed fl s now) gap_drawn size_drawn,
        record {
          sizes = o.sizes;
          gaps = o.gaps;
          sizes_drawn = o.sizes_drawn;
          gaps_drawn = o.gaps_drawn;
        },
        should_delay-IsShort s.shaper.enabled now gap size s.burst,
      )

  sent-IsDrawable :
      {W : Type 0} (s : Shaping F W) → IsDrawable s → IsDrawable (shaper_frame_sent fl s)
  unfolding shaper_frame_sent
  sent-IsDrawable s o =
      if_both IsDrawable s.shaper.enabled
        (record {
          sizes = o.sizes;
          gaps = o.gaps;
          sizes_drawn = o.sizes_drawn;
          gaps_drawn = o.gaps_drawn;
        })
        o

  calls_total :
      {W : Type 0} (calls : List (Call F)) (s : Shaping F W)
      → IsDrawable s
      → (r : List ℤ × Shaping F W) × (run_calls calls s ≡ some r) × All IsShort r.0
  unfolding run_calls
  calls_total [] s o = (([], s), refl, tt)
  calls_total (sent ∷ calls) s o = calls_total calls (shaper_frame_sent fl s) (sent-IsDrawable s o)
  calls_total (asks now a b c d ∷ calls) s o =
      let (s', wait, t, answered, o', short) = delays_total now a b c d s o in
      let ((ts, s''), q, all) = calls_total calls s' o' in
      (
        (t ∷ ts, s''),
        ap (λ o. after_answer o (run_calls calls)) answered ∙ ap (longer t) q,
        (short, all),
      )

  -- Whatever the profile, the draws and the moments: `New` gives a shaper, and however frames are sent and
  -- callers ask it whether to wait, each gets an answer, of at most 100 milliseconds, be it
  -- negative, as a drawn gap may be: no draw looks up an
  -- index that is out of range.
  pub new_shaper_total :
      {W : Type 0} (conn : Conn W) (c : Config F) (now : ℕ) (first second : F)
      (calls : List (Call F))
      → (s : Shaping F W) × (new_shaper fl conn c now first second ≡ some s)
        × (r : List ℤ × Shaping F W) × (run_calls calls s ≡ some r)
        × All IsShort r.0
  unfolding new_shaper
  new_shaper_total conn c now first second calls =
      let p = profile_or_default fl c.profile in
      let (size, counted) = int_total p.burst_size first second in
      let total = calls_total calls _ (record {
        sizes = p.burst_size;
        gaps = p.burst_gap;
        sizes_drawn = refl;
        gaps_drawn = refl;
      }) in
      (_, ap (made fl conn c p now) counted, total.0, total.1, total.2)

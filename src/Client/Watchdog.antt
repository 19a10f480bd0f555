-- ===== src/Client/Watchdog.antt =====
-- cmd/ghost-client/main.go: when the watchdog tries to replace a session. Times are nanoseconds.
use ghost_vpn.Base.{
  ℕ, ◌+◌, ◌-◌, ◌*◌, ◌^◌, ◌≤◌, ◌<◌, ◌≡◌, refl, Bool, true, false, Option, none, some, List, [], ◌∷◌,
  lookup, insert, ltb, if◌then◌else◌, arith, inl, inr, Bool-cases, lookup-insert,
}

-- 5*time.Second
abbrev pub grace : ℕ
grace = 5 * 10 ^ 9

-- `sessionStart`
abbrev pub Starts : Type 0
Starts = List (ℕ × ℕ)

-- A tick that finds session `cur`, whose connection is done or not: whether it reconnects.
abbrev pub seen_at : ℕ → ℕ → Bool → Starts → Option ℕ → Starts × Bool
seen_at now cur dead starts none = (insert cur now starts, false)
seen_at now cur dead starts (some t) = (starts, if ltb (now - t) grace then false else dead)

unfoldable pub watch_tick : ℕ → ℕ → Bool → Starts → Starts × Bool
watch_tick now cur dead starts = seen_at now cur dead starts (lookup cur starts)

-- The first of the ticks, at these times, at which `establish` is called for a dead session; the
-- session is replaced where that gives another.
unfoldable pub reconnects_at : ℕ → List ℕ → Starts → Option ℕ
reconnects_at cur [] starts = none
reconnects_at cur (now ∷ later) starts =
    let (starts', reconnects) = watch_tick now cur true starts in
    let rest = reconnects_at cur later starts' in if reconnects then some now else rest

-- Ticks after `t` that are at most `gap` apart, the last of them at `end` or later.
pub data Paced (gap end : ℕ) : ℕ → List ℕ → Type 0 where
  over : {t : ℕ} → end ≤ t → Paced gap end t []
  tick :
      {t u : ℕ} {us : List ℕ} → t ≤ u → u ≤ t + gap → Paced gap end u us → Paced gap end t (u ∷ us)

known_reconnects :
    (cur gap first t : ℕ) (ts : List ℕ) (starts : Starts)
    → lookup cur starts ≡ some first
    → Paced gap (first + grace) t ts
    → first ≤ t
    → t < first + grace
    → (u : ℕ) × (reconnects_at cur ts starts ≡ some u)
      × (first + grace ≤ u)
      × (u < first + grace + gap)
unfolding reconnects_at watch_tick
known_reconnects cur gap first t [] starts known (Paced.over late) after early =
    absurd (omega (arith, late, early))
known_reconnects cur gap first t (u ∷ us) starts known (Paced.tick up near paced) after early =
    elim (Bool-cases (ltb (u - first) grace)) [
      | inl young ↦
          let (v, q, low, high) =
            known_reconnects cur gap first u us starts known paced (omega (arith, up, after))
              (ground arith) in
          (v, rw (watch_tick, known, young) q, low, high)
      | inr old ↦ (u, rw (watch_tick, known, old) refl, ground arith, omega (arith, near, early))
    ]

-- Where a session that the watchdog has not seen is dead, and ticks come at most `gap` apart for at
-- least five seconds: the first tick only notes it, and the first tick at which `establish` is called to
-- replace it comes five seconds after that or later, and less than `gap` after those five seconds.
pub reconnects_in_time :
    (cur gap first : ℕ) (later : List ℕ) (starts : Starts)
    → lookup cur starts ≡ none
    → Paced gap (first + grace) first later
    → (u : ℕ) × (reconnects_at cur (first ∷ later) starts ≡ some u)
      × (first + grace ≤ u)
      × (u < first + grace + gap)
unfolding reconnects_at watch_tick
reconnects_in_time cur gap first later starts unseen paced =
    let noted : lookup cur (insert cur first starts) ≡ some first =
      ground (arith, lookup-insert cur cur first starts) in
    let (u, q, low, high) =
      known_reconnects cur gap first first later (insert cur first starts) noted paced (omega arith)
        (omega arith) in
    (u, rw (watch_tick, unseen) q, low, high)

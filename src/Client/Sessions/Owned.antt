-- ===== src/Client/Sessions/Owned.antt =====
-- cmd/ghost-client/main.go: who answers for a session.
use ghost_vpn.Base.{
  ℕ, ◌⊎◌, zero, suc, ◌+◌, ◌≤◌, ◌≡◌, refl, sym, ap, ◌∙◌, inl, inr, Bool-cases, Option, none, some,
  List, [], ◌∷◌, ◌==◌, arith,
}
use ghost_vpn.Client.Sessions.{
  Client, to_list, count, drop_one, add_all, rotation_establishes, rotation_swaps, drained,
  watchdog_establishes, watchdog_swaps, watchdog_closes, dies, Step, Reach, failing,
  rotating_begins, rotating_ends, draining_ends, watchdog_begins, watchdog_goes_on, watchdog_ends,
  dying, here, next, shut_down,
}

-- How often a session is held: as the active one, by a goroutine that set it up or will close it, or
-- by a call that closed it.
abbrev pub held : ℕ → Client → ℕ
held n w =
    count n (to_list w.active)
    + count n (to_list w.rotating)
    + count n (to_list w.watching)
    + count n (to_list w.replaced)
    + count n w.draining
    + count n w.calls

pub record IsOwned (w : Client) : Type 0 where
  pub once : (n : ℕ) → held n w ≡ count n w.established
  pub distinct : (n : ℕ) → count n w.established ≤ 1
  pub numbered : (n k : ℕ) → count n w.established ≡ suc k → n ≤ w.counter

count-drop_one :
    (n j k : ℕ) (ms : List ℕ)
    → count n ms ≡ suc k
    → count j (drop_one n ms) + count j (n ∷ []) ≡ count j ms
count-drop_one n j k [] h = absurd (ground arith)
count-drop_one n j k (m ∷ ms) h = elim (Bool-cases (m == n)) [
  | inl q ↦ ground arith
  | inr q ↦ ground (arith, count-drop_one n j k ms)
]

count-add_all :
    (j : ℕ) (o : Option ℕ) (ms : List ℕ) → count j (add_all o ms) ≡ count j (to_list o) + count j ms
count-add_all j none ms = omega arith
count-add_all j (some n) ms = ground arith

zero-or-suc : (n : ℕ) → (n ≡ 0) ⊎ ((k : ℕ) × (n ≡ suc k))
zero-or-suc zero = inl refl
zero-or-suc (suc k) = inr (k, refl)

-- A new number is not among the established ones.
new_number : (w : Client) → IsOwned w → count (w.counter + 1) w.established ≡ 0
new_number w o = elim (zero-or-suc (count (w.counter + 1) w.established)) [
  | inl q ↦ q
  | inr (k, q) ↦ let above = o.numbered (w.counter + 1) k q in absurd (omega (arith, above))
]

-- One more session, and one who holds it.
establishes-IsOwned :
    (w w' : Client)
    → w'.counter ≡ w.counter + 1
    → w'.established ≡ (w.counter + 1) ∷ w.established
    → ((n : ℕ) → held n w' ≡ held n w + count n ((w.counter + 1) ∷ []))
    → IsOwned w
    → IsOwned w'
establishes-IsOwned w w' c e h o = record {
  once = λ n. ground (arith, h n, o.once n, e);
  distinct = λ n. ground (arith, o.distinct n, new_number w o, e);
  numbered = λ n k q. elim (Bool-cases (w.counter + 1 == n)) [
    | inl same ↦ ground (arith, c)
    | inr other ↦ let below = o.numbered n k (ground (arith, e)) in omega (arith, below, c)
  ];
}

-- A session that changes hands.
passes-IsOwned :
    (w w' : Client)
    → w'.counter ≡ w.counter
    → w'.established ≡ w.established
    → ((n : ℕ) → held n w' ≡ held n w)
    → IsOwned w
    → IsOwned w'
passes-IsOwned w w' c e h o = record {
  once = λ n. h n ∙ o.once n ∙ ap (count n) (sym e);
  distinct = λ n. rw e (o.distinct n);
  numbered = λ n k q. rw c (o.numbered n k (ap (count n) (sym e) ∙ q));
}

step-IsOwned : {w w' : Client} → IsOwned w → Step w w' → IsOwned w'
step-IsOwned {w} o failing = record {
  once = o.once;
  distinct = o.distinct;
  numbered = λ n k q. let below = o.numbered n k q in omega (arith, below);
}
step-IsOwned {w} o (rotating_begins idle) =
    establishes-IsOwned w (rotation_establishes w) refl refl (λ n. ground (arith, idle)) o
step-IsOwned {w} o (rotating_ends n q) =
    passes-IsOwned w (rotation_swaps n w) refl refl
      (λ j. ground (arith, q, count-add_all j w.active w.draining)) o
step-IsOwned {w} o (draining_ends n k q) =
    passes-IsOwned w (drained n w) refl refl
      (λ j. ground (arith, count-drop_one n j k w.draining q)) o
step-IsOwned {w} o (watchdog_begins n k active dead idle done) =
    establishes-IsOwned w (watchdog_establishes w) refl refl (λ j. ground (arith, idle)) o
step-IsOwned {w} o (watchdog_goes_on n q done) =
    passes-IsOwned w (watchdog_swaps n w) refl refl (λ j. ground (arith, q, done)) o
step-IsOwned {w} o (watchdog_ends n q) =
    passes-IsOwned w (watchdog_closes n w) refl refl (λ j. ground (arith, q)) o
step-IsOwned {w} o (dying n) = passes-IsOwned w (dies n w) refl refl (λ j. refl) o

-- Whatever the rotation loop and the watchdog do, in any order: each session that was set up is held
-- exactly once, as the active one, by one goroutine that will make it active or close it, or as
-- closed; and no two sessions have the same number.
pub Reach-IsOwned : {w : Client} → Reach w → IsOwned w
Reach-IsOwned here = record {
  once = λ n. ground arith;
  distinct = λ n. ground arith;
  numbered = λ n k q. ground arith;
}
Reach-IsOwned (next r s) = step-IsOwned (Reach-IsOwned r) s

-- No session is closed twice, and none is closed while it is the active one.
pub closed_once : {w : Client} (n : ℕ) → Reach w → count n (to_list w.active) + count n w.calls ≤ 1
closed_once {w} n r =
    let o = Reach-IsOwned r in
    let once = o.once n in let distinct = o.distinct n in omega (arith, once, distinct)

-- The shutdown closes the active session, if it was not closed before; what is left open is what a
-- goroutine holds that was about to replace it or to close it, and no session is closed twice.
pub shut_down-IsOwned : {w : Client} → Reach w → IsOwned (shut_down w)
unfolding shut_down
shut_down-IsOwned {w} r =
    passes-IsOwned w (record w { active = none; calls = add_all w.active w.calls }) refl refl
      (λ j. ground (arith, count-add_all j w.active w.calls)) (Reach-IsOwned r)

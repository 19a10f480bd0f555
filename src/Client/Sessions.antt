-- ===== src/Client/Sessions.antt =====
-- cmd/ghost-client/main.go: the active session, the rotation loop, the goroutines that close what it
-- replaced, and the watchdog. Sessions are numbered by `sessionCounter`.
pub mod Owned
use ghost_vpn.Base.{
  ℕ, zero, suc, ◌+◌, ◌≡◌, Bool, true, false, Option, none, some, List, [], ◌∷◌, ◌==◌, if◌then◌else◌,
}

-- The goroutines' own variables are what they hold: a session just set up, and the one to close.
-- `calls` are the calls of `tunnelSession.close`, the last one first.
pub record Client : Type 0 where
  pub counter : ℕ
  pub established : List ℕ
  pub active : Option ℕ
  pub dead : List ℕ
  pub rotating : Option ℕ
  pub draining : List ℕ
  pub watching : Option ℕ
  pub replaced : Option ℕ
  pub calls : List ℕ

-- After the initial connection.
abbrev pub begun : Client
begun = record {
  counter = 1;
  established = 1 ∷ [];
  active = some 1;
  dead = [];
  rotating = none;
  draining = [];
  watching = none;
  replaced = none;
  calls = [];
}

abbrev pub to_list : Option ℕ → List ℕ
to_list none = []
to_list (some n) = n ∷ []

abbrev pub count : ℕ → List ℕ → ℕ
count n [] = 0
count n (m ∷ ms) = let rest = count n ms in if m == n then suc rest else rest

-- Without its first occurrence.
abbrev pub drop_one : ℕ → List ℕ → List ℕ
drop_one n [] = []
drop_one n (m ∷ ms) = let rest = drop_one n ms in if m == n then ms else m ∷ rest

-- `establish` fails, and has taken a number.
abbrev pub fails : Client → Client
fails w = record w { counter = w.counter + 1 }

abbrev pub add_all : Option ℕ → List ℕ → List ℕ
add_all none ms = ms
add_all (some n) ms = n ∷ ms

-- The rotation loop: `establish`, then `Swap` and a goroutine that will close the old session.
abbrev pub rotation_establishes : Client → Client
rotation_establishes w = record w {
  counter = w.counter + 1;
  established = (w.counter + 1) ∷ w.established;
  rotating = some (w.counter + 1);
}

abbrev pub rotation_swaps : ℕ → Client → Client
rotation_swaps n w = record w {
  active = some n;
  rotating = none;
  draining = add_all w.active w.draining;
}

-- After its three seconds, a goroutine closes session `n`.
abbrev pub drained : ℕ → Client → Client
drained n w = record w { draining = drop_one n w.draining; calls = n ∷ w.calls }

-- The watchdog: `establish`, then `Swap`, then it closes the session that it got.
abbrev pub watchdog_establishes : Client → Client
watchdog_establishes w = record w {
  counter = w.counter + 1;
  established = (w.counter + 1) ∷ w.established;
  watching = some (w.counter + 1);
}

abbrev pub watchdog_swaps : ℕ → Client → Client
watchdog_swaps n w = record w { active = some n; watching = none; replaced = w.active }

abbrev pub watchdog_closes : ℕ → Client → Client
watchdog_closes n w = record w { replaced = none; calls = n ∷ w.calls }

abbrev pub dies : ℕ → Client → Client
dies n w = record w { dead = n ∷ w.dead }

-- What `main` does once a signal has come: it closes the active session, and returns.
unfoldable pub shut_down : Client → Client
shut_down w = record w { active = none; calls = add_all w.active w.calls }

-- What the goroutines do, in any order, until shutdown.
pub data Step (w : Client) : Client → Type 0 where
  failing : Step w (fails w)
  rotating_begins : w.rotating ≡ none → Step w (rotation_establishes w)
  rotating_ends : (n : ℕ) → w.rotating ≡ some n → Step w (rotation_swaps n w)
  draining_ends : (n k : ℕ) → count n w.draining ≡ suc k → Step w (drained n w)
  watchdog_begins :
      (n k : ℕ)
      → w.active ≡ some n
      → count n w.dead ≡ suc k
      → w.watching ≡ none
      → w.replaced ≡ none
      → Step w (watchdog_establishes w)
  watchdog_goes_on : (n : ℕ) → w.watching ≡ some n → w.replaced ≡ none → Step w (watchdog_swaps n w)
  watchdog_ends : (n : ℕ) → w.replaced ≡ some n → Step w (watchdog_closes n w)
  dying : (n : ℕ) → Step w (dies n w)

pub data Reach : Client → Type 0 where
  here : Reach begun
  next : {w w' : Client} → Reach w → Step w w' → Reach w'

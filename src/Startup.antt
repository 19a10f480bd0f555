-- ===== src/Startup.antt =====
-- The `main` functions of cmd/: what a command does, in order, until it goes on, returns or exits.
-- A return runs what was deferred; `os.Exit` does not.
pub mod Ends
use ghost_vpn.Base.{
  ℕ, Bool, Option, none, some, List, [], ◌∷◌, ◌++◌, Bytes, length, same, ◌==◌, if◌then◌else◌,
}
use ghost_vpn.Io.{Error, Result, ok, err}
use ghost_vpn.Config.{Loaded, loaded, refused}

pub data Ended (A : Type 0) : Type 0 where
  goes_on : A → Ended A
  returns : Ended A
  exits : ℕ → Ended A

-- `slog.Level`, and the switch over the flag -log-level: "debug", "warn" and "error".
pub data Level : Type 0 where
  level_debug level_info level_warn level_error : Level

unfoldable pub parse_level : Bytes → Level
parse_level text =
    if same text (100 ∷ 101 ∷ 98 ∷ 117 ∷ 103 ∷ [])
    then level_debug
    else if same text (119 ∷ 97 ∷ 114 ∷ 110 ∷ [])
    then level_warn
    else if same text (101 ∷ 114 ∷ 114 ∷ 111 ∷ 114 ∷ [])
    then level_error
    else level_info

-- The actions so far, and how it goes on.
abbrev pub Main : Type 0 → Type 0 → Type 0
Main Act A = List Act × Ended A

module _ {Act : Type 0} where
  abbrev pub pure : {A : Type 0} → A → Main Act A
  pure a = ([], goes_on a)

  abbrev pub tell : List Act → Main Act Unit
  tell acts = (acts, goes_on tt)

  abbrev pub and_then : {A B : Type 0} → List Act → Ended A → (A → Main Act B) → Main Act B
  and_then acts (goes_on a) f = let (more, ended) = f a in (acts ++ more, ended)
  and_then acts returns f = (acts, returns)
  and_then acts (exits n) f = (acts, exits n)

  infixl 5 ◌>>=◌ ◌>>◌
  abbrev pub ◌>>=◌ : {A B : Type 0} → Main Act A → (A → Main Act B) → Main Act B
  m >>= f = and_then m.0 m.1 f

  abbrev pub ◌>>◌ : {A B : Type 0} → Main Act A → Main Act B → Main Act B
  m >> k = m >>= λ _. k

  -- `if err != nil { os.Exit(1) }`
  abbrev pub or_exit : {A : Type 0} → Result A → Main Act A
  or_exit (ok a) = ([], goes_on a)
  or_exit (err e) = ([], exits 1)

  abbrev pub or_refuse : {A : Type 0} → Loaded A → Main Act A
  or_refuse (loaded a) = ([], goes_on a)
  or_refuse (refused m) = ([], exits 1)

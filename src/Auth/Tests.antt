-- ===== src/Auth/Tests.antt =====
-- Runs of the replay window.
use ghost_vpn.Base.{ℕ, ◌≡◌, refl, true, false, List, [], ◌∷◌}
use ghost_vpn.Auth.Replay.{reset}
use ghost_vpn.Auth.Replay.Refine.{marks, answers, marks-answers}

-- A jump ahead, a nonce behind, repeats, and one that has left the window.
abbrev arrivals : List ℕ
arrivals = 5 ∷ 70 ∷ 7 ∷ 7 ∷ 70 ∷ 6 ∷ 200 ∷ []

answers_run : answers [] arrivals ≡ true ∷ true ∷ true ∷ false ∷ false ∷ false ∷ true ∷ []
answers_run = refl

marks-answers_example : marks reset arrivals ≡ answers [] arrivals
marks-answers_example = marks-answers arrivals

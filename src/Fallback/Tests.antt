-- ===== src/Fallback/Tests.antt =====
-- A response of a site that names itself.
use ghost_vpn.Base.{[], ◌∷◌, Bytes}
use ghost_vpn.Fallback.{Header, via, ghost}

-- "Server"
abbrev server : Bytes
server = 83 ∷ 101 ∷ 114 ∷ 118 ∷ 101 ∷ 114 ∷ []

abbrev as_is : Bytes → Bytes
as_is text = text

abbrev sent : Header
sent = (via, (49 ∷ []) ∷ []) ∷ (server, (120 ∷ ghost) ∷ (110 ∷ []) ∷ []) ∷ []

-- ===== src/NmPlugin/Client.antt =====
-- nm-plugin/plugin.go: where the client's binary is looked for. The file system and
-- `os.Executable` are parameters.
use ghost_vpn.Base.{Bool, Option, none, some, List, [], ◌∷◌, Bytes, if◌then◌else◌}

-- "ghost-client"
abbrev pub client_name : Bytes
client_name = 103 ∷ 104 ∷ 111 ∷ 115 ∷ 116 ∷ 45 ∷ 99 ∷ 108 ∷ 105 ∷ 101 ∷ 110 ∷ 116 ∷ []

-- "/usr/lib/NetworkManager/ghost-client"
abbrev pub nm_client : Bytes
nm_client =
    47 ∷ 117 ∷ 115 ∷ 114 ∷ 47 ∷ 108 ∷ 105 ∷ 98 ∷ 47 ∷ 78 ∷ 101 ∷ 116 ∷ 119 ∷ 111 ∷ 114 ∷ 107 ∷ 77
    ∷ 97 ∷ 110 ∷ 97 ∷ 103 ∷ 101 ∷ 114 ∷ 47 ∷ 103 ∷ 104 ∷ 111 ∷ 115 ∷ 116 ∷ 45 ∷ 99 ∷ 108 ∷ 105 ∷ 101
    ∷ 110 ∷ 116 ∷ []

-- "/usr/local/bin/ghost-client"
abbrev pub local_client : Bytes
local_client =
    47 ∷ 117 ∷ 115 ∷ 114 ∷ 47 ∷ 108 ∷ 111 ∷ 99 ∷ 97 ∷ 108 ∷ 47 ∷ 98 ∷ 105 ∷ 110 ∷ 47 ∷ 103 ∷ 104
    ∷ 111 ∷ 115 ∷ 116 ∷ 45 ∷ 99 ∷ 108 ∷ 105 ∷ 101 ∷ 110 ∷ 116 ∷ []

-- "/usr/bin/ghost-client"
abbrev pub usr_client : Bytes
usr_client =
    47 ∷ 117 ∷ 115 ∷ 114 ∷ 47 ∷ 98 ∷ 105 ∷ 110 ∷ 47 ∷ 103 ∷ 104 ∷ 111 ∷ 115 ∷ 116 ∷ 45 ∷ 99 ∷ 108
    ∷ 105 ∷ 101 ∷ 110 ∷ 116 ∷ []

abbrev first_existing : (Bytes → Bool) → List Bytes → Bytes
first_existing exists [] = client_name
first_existing exists (p ∷ ps) = let rest = first_existing exists ps in if exists p then p else rest

abbrev installed : (Bytes → Bool) → Bytes
installed exists = first_existing exists (nm_client ∷ local_client ∷ usr_client ∷ [])

-- `findGhostClient`; `beside` is the path of a ghost-client in the folder of the plugin itself, where
-- that is known.
unfoldable pub find_ghost_client : (exists : Bytes → Bool) → (beside : Option Bytes) → Bytes
find_ghost_client exists none = installed exists
find_ghost_client exists (some p) = if exists p then p else installed exists

-- ===== src/Camouflage/Headers.antt =====
-- internal/camouflage/h2_client.go: the texts of the client's request.
use ghost_vpn.Base.{List, [], ◌∷◌, ◌++◌, Bytes}

-- https://
abbrev pub scheme : Bytes
scheme = 104 ∷ 116 ∷ 116 ∷ 112 ∷ 115 ∷ 58 ∷ 47 ∷ 47 ∷ []

-- /
abbrev pub slash : Bytes
slash = 47 ∷ []

-- Mozilla/5.0 (Windows NT 10.0; Win64; x64) AppleWebKit/537.36 (KHTML, like Gecko) Chrome/133.0.0.0 Safari/537.36
abbrev pub default_user_agent : Bytes
default_user_agent =
    77 ∷ 111 ∷ 122 ∷ 105 ∷ 108 ∷ 108 ∷ 97 ∷ 47 ∷ 53 ∷ 46 ∷ 48 ∷ 32 ∷ 40 ∷ 87 ∷ 105 ∷ 110 ∷ 100 ∷ 111
    ∷ 119 ∷ 115 ∷ 32 ∷ 78 ∷ 84 ∷ 32 ∷ 49 ∷ 48 ∷ 46 ∷ 48 ∷ 59 ∷ 32 ∷ 87 ∷ 105 ∷ 110 ∷ 54 ∷ 52 ∷ 59
    ∷ 32 ∷ 120 ∷ 54 ∷ 52 ∷ 41 ∷ 32 ∷ 65 ∷ 112 ∷ 112 ∷ 108 ∷ 101 ∷ 87 ∷ 101 ∷ 98 ∷ 75 ∷ 105 ∷ 116
    ∷ 47 ∷ 53 ∷ 51 ∷ 55 ∷ 46 ∷ 51 ∷ 54 ∷ 32 ∷ 40 ∷ 75 ∷ 72 ∷ 84 ∷ 77 ∷ 76 ∷ 44 ∷ 32 ∷ 108 ∷ 105
    ∷ 107 ∷ 101 ∷ 32 ∷ 71 ∷ 101 ∷ 99 ∷ 107 ∷ 111 ∷ 41 ∷ 32 ∷ 67 ∷ 104 ∷ 114 ∷ 111 ∷ 109 ∷ 101 ∷ 47
    ∷ 49 ∷ 51 ∷ 51 ∷ 46 ∷ 48 ∷ 46 ∷ 48 ∷ 46 ∷ 48 ∷ 32 ∷ 83 ∷ 97 ∷ 102 ∷ 97 ∷ 114 ∷ 105 ∷ 47 ∷ 53
    ∷ 51 ∷ 55 ∷ 46 ∷ 51 ∷ 54 ∷ []

-- The headers that `Handshake` sets, in order, each with its name before it.
abbrev pub headers : (user_agent host : Bytes) → List (Bytes × Bytes)
headers user_agent host =
    (85 ∷ 115 ∷ 101 ∷ 114 ∷ 45 ∷ 65 ∷ 103 ∷ 101 ∷ 110 ∷ 116 ∷ [], user_agent)
    ∷ (65 ∷ 99 ∷ 99 ∷ 101 ∷ 112 ∷ 116 ∷ [], 42 ∷ 47 ∷ 42 ∷ [])
    ∷ (
      65 ∷ 99 ∷ 99 ∷ 101 ∷ 112 ∷ 116 ∷ 45 ∷ 76 ∷ 97 ∷ 110 ∷ 103 ∷ 117 ∷ 97 ∷ 103 ∷ 101 ∷ [],
      101 ∷ 110 ∷ 45 ∷ 85 ∷ 83 ∷ 44 ∷ 101 ∷ 110 ∷ 59 ∷ 113 ∷ 61 ∷ 48 ∷ 46 ∷ 57 ∷ [],
    )
    ∷ (
      65 ∷ 99 ∷ 99 ∷ 101 ∷ 112 ∷ 116 ∷ 45 ∷ 69 ∷ 110 ∷ 99 ∷ 111 ∷ 100 ∷ 105 ∷ 110 ∷ 103 ∷ [],
      103 ∷ 122 ∷ 105 ∷ 112 ∷ 44 ∷ 32 ∷ 100 ∷ 101 ∷ 102 ∷ 108 ∷ 97 ∷ 116 ∷ 101 ∷ 44 ∷ 32 ∷ 98 ∷ 114
          ∷ 44 ∷ 32 ∷ 122 ∷ 115 ∷ 116 ∷ 100 ∷ [],
    )
    ∷ (
      67 ∷ 111 ∷ 110 ∷ 116 ∷ 101 ∷ 110 ∷ 116 ∷ 45 ∷ 84 ∷ 121 ∷ 112 ∷ 101 ∷ [],
      97 ∷ 112 ∷ 112 ∷ 108 ∷ 105 ∷ 99 ∷ 97 ∷ 116 ∷ 105 ∷ 111 ∷ 110 ∷ 47 ∷ 111 ∷ 99 ∷ 116 ∷ 101 ∷ 116
          ∷ 45 ∷ 115 ∷ 116 ∷ 114 ∷ 101 ∷ 97 ∷ 109 ∷ [],
    )
    ∷ (
      67 ∷ 97 ∷ 99 ∷ 104 ∷ 101 ∷ 45 ∷ 67 ∷ 111 ∷ 110 ∷ 116 ∷ 114 ∷ 111 ∷ 108 ∷ [],
      110 ∷ 111 ∷ 45 ∷ 99 ∷ 97 ∷ 99 ∷ 104 ∷ 101 ∷ [],
    )
    ∷ (80 ∷ 114 ∷ 97 ∷ 103 ∷ 109 ∷ 97 ∷ [], 110 ∷ 111 ∷ 45 ∷ 99 ∷ 97 ∷ 99 ∷ 104 ∷ 101 ∷ [])
    ∷ (
      83 ∷ 101 ∷ 99 ∷ 45 ∷ 70 ∷ 101 ∷ 116 ∷ 99 ∷ 104 ∷ 45 ∷ 68 ∷ 101 ∷ 115 ∷ 116 ∷ [],
      101 ∷ 109 ∷ 112 ∷ 116 ∷ 121 ∷ [],
    )
    ∷ (
      83 ∷ 101 ∷ 99 ∷ 45 ∷ 70 ∷ 101 ∷ 116 ∷ 99 ∷ 104 ∷ 45 ∷ 77 ∷ 111 ∷ 100 ∷ 101 ∷ [],
      99 ∷ 111 ∷ 114 ∷ 115 ∷ [],
    )
    ∷ (
      83 ∷ 101 ∷ 99 ∷ 45 ∷ 70 ∷ 101 ∷ 116 ∷ 99 ∷ 104 ∷ 45 ∷ 83 ∷ 105 ∷ 116 ∷ 101 ∷ [],
      115 ∷ 97 ∷ 109 ∷ 101 ∷ 45 ∷ 111 ∷ 114 ∷ 105 ∷ 103 ∷ 105 ∷ 110 ∷ [],
    )
    ∷ (
      83 ∷ 101 ∷ 99 ∷ 45 ∷ 67 ∷ 104 ∷ 45 ∷ 85 ∷ 97 ∷ [],
      34 ∷ 78 ∷ 111 ∷ 116 ∷ 40 ∷ 65 ∷ 58 ∷ 66 ∷ 114 ∷ 97 ∷ 110 ∷ 100 ∷ 34 ∷ 59 ∷ 118 ∷ 61 ∷ 34 ∷ 57
          ∷ 57 ∷ 34 ∷ 44 ∷ 32 ∷ 34 ∷ 71 ∷ 111 ∷ 111 ∷ 103 ∷ 108 ∷ 101 ∷ 32 ∷ 67 ∷ 104 ∷ 114 ∷ 111
          ∷ 109 ∷ 101 ∷ 34 ∷ 59 ∷ 118 ∷ 61 ∷ 34 ∷ 49 ∷ 51 ∷ 51 ∷ 34 ∷ 44 ∷ 32 ∷ 34 ∷ 67 ∷ 104 ∷ 114
          ∷ 111 ∷ 109 ∷ 105 ∷ 117 ∷ 109 ∷ 34 ∷ 59 ∷ 118 ∷ 61 ∷ 34 ∷ 49 ∷ 51 ∷ 51 ∷ 34 ∷ [],
    )
    ∷ (
      83 ∷ 101 ∷ 99 ∷ 45 ∷ 67 ∷ 104 ∷ 45 ∷ 85 ∷ 97 ∷ 45 ∷ 77 ∷ 111 ∷ 98 ∷ 105 ∷ 108 ∷ 101 ∷ [],
      63 ∷ 48 ∷ [],
    )
    ∷ (
      83 ∷ 101 ∷ 99 ∷ 45 ∷ 67 ∷ 104 ∷ 45 ∷ 85 ∷ 97 ∷ 45 ∷ 80 ∷ 108 ∷ 97 ∷ 116 ∷ 102 ∷ 111 ∷ 114
          ∷ 109 ∷ [],
      34 ∷ 87 ∷ 105 ∷ 110 ∷ 100 ∷ 111 ∷ 119 ∷ 115 ∷ 34 ∷ [],
    )
    ∷ (79 ∷ 114 ∷ 105 ∷ 103 ∷ 105 ∷ 110 ∷ [], scheme ++ host)
    ∷ (82 ∷ 101 ∷ 102 ∷ 101 ∷ 114 ∷ 101 ∷ 114 ∷ [], scheme ++ host ++ slash)
    ∷ []

-- ===== src/Fallback.antt =====
-- internal/fallback/proxy.go: the headers of the site behind the server. A header is a list of names,
-- in their canonical form, with their values; `lower` is `strings.ToLower`.
mod Tests
use ghost_vpn.Base.{
  ℕ, same_lem, ◌≡◌, refl, sym, ap, ◌∙◌, Bool, true, false, Bool-cases, inl, inr, ◌||◌, ◌&&◌, Option,
  none, some, List, [], ◌∷◌, Bytes, same, same_refl, ◌==◌, if◌then◌else◌, All, arith, length,
}
use ghost_vpn.Io.{Result, ok, err}

-- "Via"
abbrev pub via : Bytes
via = 86 ∷ 105 ∷ 97 ∷ []

-- "X-Forwarded-For"
abbrev pub forwarded_for : Bytes
forwarded_for =
    88 ∷ 45 ∷ 70 ∷ 111 ∷ 114 ∷ 119 ∷ 97 ∷ 114 ∷ 100 ∷ 101 ∷ 100 ∷ 45 ∷ 70 ∷ 111 ∷ 114 ∷ []

-- "X-Forwarded-Proto"
abbrev pub forwarded_proto : Bytes
forwarded_proto =
    88 ∷ 45 ∷ 70 ∷ 111 ∷ 114 ∷ 119 ∷ 97 ∷ 114 ∷ 100 ∷ 101 ∷ 100 ∷ 45 ∷ 80 ∷ 114 ∷ 111 ∷ 116 ∷ 111
    ∷ []

-- "X-Forwarded-Host"
abbrev pub forwarded_host : Bytes
forwarded_host =
    88 ∷ 45 ∷ 70 ∷ 111 ∷ 114 ∷ 119 ∷ 97 ∷ 114 ∷ 100 ∷ 101 ∷ 100 ∷ 45 ∷ 72 ∷ 111 ∷ 115 ∷ 116 ∷ []

-- "X-Real-Ip"
abbrev pub real_ip : Bytes
real_ip = 88 ∷ 45 ∷ 82 ∷ 101 ∷ 97 ∷ 108 ∷ 45 ∷ 73 ∷ 112 ∷ []

-- "ghost"
abbrev pub ghost : Bytes
ghost = 103 ∷ 104 ∷ 111 ∷ 115 ∷ 116 ∷ []

abbrev pub Header : Type 0
Header = List (Bytes × List Bytes)

-- `Header.Del` and `Header.Values`
abbrev pub del : Bytes → Header → Header
del name [] = []
del name ((k, vs) ∷ h) = let rest = del name h in if same k name then rest else (k, vs) ∷ rest

abbrev pub values : Bytes → Header → List Bytes
values name [] = []
values name ((k, vs) ∷ h) = let rest = values name h in if same k name then vs else rest

abbrev pub del_all : List Bytes → Header → Header
del_all [] h = h
del_all (name ∷ names) h = del_all names (del name h)

-- What the Director takes out of a request.
unfoldable pub direct : Header → Header
direct h = del_all (forwarded_for ∷ forwarded_proto ∷ forwarded_host ∷ real_ip ∷ []) h

-- `strings.Contains`
abbrev pub starts : Bytes → Bytes → Bool
starts [] text = true
starts (b ∷ bs) [] = false
starts (b ∷ bs) (c ∷ cs) = b == c && starts bs cs

abbrev pub contains : Bytes → Bytes → Bool
contains text [] = starts text []
contains text (c ∷ cs) = starts text (c ∷ cs) || contains text cs

abbrev pub proxy_headers : List Bytes
proxy_headers = via ∷ forwarded_for ∷ forwarded_proto ∷ forwarded_host ∷ real_ip ∷ []

module _ (lower : Bytes → Bytes) where
  abbrev pub blanked : Bytes → Bytes
  blanked v = if contains ghost (lower v) then [] else v

  abbrev pub blank_all : List Bytes → List Bytes
  blank_all [] = []
  blank_all (v ∷ vs) = blanked v ∷ blank_all vs

  abbrev pub scrub : Header → Header
  scrub [] = []
  scrub ((k, vs) ∷ h) = (k, blank_all vs) ∷ scrub h

  -- `sanitizeResponse`
  unfoldable pub sanitize_response : Header → Header
  sanitize_response h = scrub (del_all proxy_headers h)

  values-scrub : (name : Bytes) (h : Header) → values name (scrub h) ≡ blank_all (values name h)
  values-scrub name [] = refl
  values-scrub name ((k, vs) ∷ h) = ground (arith, values-scrub name h)

blank_all-if :
    (lower : Bytes → Bytes) (b : Bool) (vs : List Bytes)
    → blank_all lower (if b then [] else vs) ≡ (if b then [] else blank_all lower vs)
blank_all-if lower true vs = refl
blank_all-if lower false vs = refl

values-del :
    (name gone : Bytes) (h : Header)
    → values name (del gone h) ≡ (if same gone name then [] else values name h)
values-del name gone [] = ground arith
values-del name gone ((k, vs) ∷ h) = elim (Bool-cases (same k gone)) [
  | inl q ↦
      let alike : same k name ≡ same gone name =
        ap (λ (x : Bytes). same x name) (same_lem k gone q) in
      ground (arith, alike, values-del name gone h)
  | inr q ↦ elim (Bool-cases (same gone name)) [
    | inl g ↦
        let alike : same k gone ≡ same k name = ap (same k) (same_lem gone name g) in
        ground (arith, alike, values-del name gone h)
    | inr g ↦ ground (arith, values-del name gone h)
  ]
]

abbrev pub among : Bytes → List Bytes → Bool
among name [] = false
among name (n ∷ ns) = same n name || among name ns

values-del_all :
    (name : Bytes) (names : List Bytes) (h : Header)
    → values name (del_all names h) ≡ (if among name names then [] else values name h)
values-del_all name [] h = refl
values-del_all name (n ∷ ns) h =
    ground (arith, values-del_all name ns (del n h), values-del name n h)

-- In a response that is handed on, the five headers of proxies are gone, whatever the site sent; every
-- other header has its values, in order, but for those that name the program, which are empty.
pub values-sanitize_response :
    (lower : Bytes → Bytes) (name : Bytes) (h : Header)
    → values name (sanitize_response lower h) ≡ (
        if among name (via ∷ forwarded_for ∷ forwarded_proto ∷ forwarded_host ∷ real_ip ∷ [])
        then []
        else blank_all lower (values name h))
unfolding sanitize_response
values-sanitize_response lower name h =
    values-scrub lower name (del_all proxy_headers h)
    ∙ ap (blank_all lower) (values-del_all name proxy_headers h)
    ∙ blank_all-if lower (among name proxy_headers) (values name h)

-- What `url.Parse` gives.
pub record Url : Type 0 where
  pub scheme : Bytes
  pub host : Bytes

-- "https"
abbrev pub https : Bytes
https = 104 ∷ 116 ∷ 116 ∷ 112 ∷ 115 ∷ []

abbrev pub with_scheme : Result Url → Result Url
with_scheme (err e) = err e
with_scheme (ok u) = ok (if length u.scheme == 0 then record u { scheme = https } else u)

-- `New`, up to the target of the proxy.
unfoldable pub new_proxy : (Bytes → Result Url) → Bytes → Result Url
new_proxy parse_url target = with_scheme (parse_url target)

-- ===== src/Transport/Dialer.antt =====
-- internal/transport/fingerprint.go and dialer.go: the client's TLS connection. The network is a
-- parameter: what dialling ends with, and the version that the TLS handshake negotiates.
use ghost_vpn.Base.{
  ℕ, ◌≤◌, ◌≡◌, refl, Bool, true, false, Bool-cases, inl, inr, Option, none, some, List, [], ◌∷◌,
  Bytes, length, same, ltb, ◌==◌, if◌then◌else◌, arith,
}
use ghost_vpn.Io.{
  ℤ, pos, negsuc, Error, no_server_addr, tcp_dial, tls_handshake, tls_version, Result, ok, err,
}

-- "chrome"
abbrev pub chrome_auto : Bytes
chrome_auto = 99 ∷ 104 ∷ 114 ∷ 111 ∷ 109 ∷ 101 ∷ []

-- "firefox"
abbrev pub firefox_auto : Bytes
firefox_auto = 102 ∷ 105 ∷ 114 ∷ 101 ∷ 102 ∷ 111 ∷ 120 ∷ []

-- "safari"
abbrev pub safari_auto : Bytes
safari_auto = 115 ∷ 97 ∷ 102 ∷ 97 ∷ 114 ∷ 105 ∷ []

-- "random"
abbrev pub randomized : Bytes
randomized = 114 ∷ 97 ∷ 110 ∷ 100 ∷ 111 ∷ 109 ∷ []

-- "h2"
abbrev pub h2 : Bytes
h2 = 104 ∷ 50 ∷ []

-- "http/1.1"
abbrev pub http11 : Bytes
http11 = 104 ∷ 116 ∷ 116 ∷ 112 ∷ 47 ∷ 49 ∷ 46 ∷ 49 ∷ []

-- The ClientHello of the uTLS library.
pub data Hello : Type 0 where
  hello_chrome hello_firefox hello_safari hello_randomized : Hello

-- `helloID`
unfoldable pub hello_id : Bytes → Hello
hello_id fp =
    if same fp chrome_auto
    then hello_chrome
    else if length fp == 0
    then hello_chrome
    else if same fp firefox_auto
    then hello_firefox
    else if same fp safari_auto
    then hello_safari
    else if same fp randomized
    then hello_randomized
    else hello_chrome

-- `DialerConfig`; durations are nanoseconds.
pub record DialerConfig : Type 0 where
  pub server_addr : Bytes
  pub sni : Bytes
  pub fingerprint : Bytes
  pub insecure_skip_verify : Bool
  pub connect_timeout : ℤ
  pub keep_alive : ℤ

abbrev pub host_or : Bytes → Option Bytes → Bytes
host_or addr none = addr
host_or addr (some host) = host

-- `sni`; `split_host` is `net.SplitHostPort`.
abbrev pub sni_of : (split_host : Bytes → Option Bytes) → DialerConfig → Bytes
sni_of split_host c =
    if length c.sni == 0 then host_or c.server_addr (split_host c.server_addr) else c.sni

-- A duration if it is positive, else the default.
abbrev pub or_default : ℕ → ℤ → ℕ
or_default d (pos n) = if n == 0 then d else n
or_default d (negsuc n) = d

abbrev pub default_timeout : ℕ
default_timeout = 15000000000

abbrev pub default_keep_alive : ℕ
default_keep_alive = 30000000000

pub record TlsConfig : Type 0 where
  pub server_name : Bytes
  pub insecure_skip_verify : Bool
  pub next_protos : List Bytes
  pub min_version : ℕ
  pub hello : Hello

-- tls.VersionTLS12 and tls.VersionTLS13
abbrev pub tls12 : ℕ
tls12 = 771

abbrev pub tls13 : ℕ
tls13 = 772

pub record Network : Type 0 where
  pub connects : (addr : Bytes) (timeout keep_alive : ℕ) → Option Error
  pub negotiates : TlsConfig → Result ℕ

pub data Action : Type 0 where
  opens closes : Action

abbrev pub with_version : ℕ → List Action × Result ℕ
with_version v =
    if ltb v tls13 then (opens ∷ closes ∷ [], err (tls_version v)) else (opens ∷ [], ok v)

abbrev pub with_tls : Result ℕ → List Action × Result ℕ
with_tls (err e) = (opens ∷ closes ∷ [], err (tls_handshake e))
with_tls (ok v) = with_version v

abbrev pub with_tcp : Network → TlsConfig → Option Error → List Action × Result ℕ
with_tcp network tls (some e) = ([], err (tcp_dial e))
with_tcp network tls none = with_tls (network.negotiates tls)

abbrev pub tls_config : (Bytes → Option Bytes) → DialerConfig → TlsConfig
tls_config split_host c = record {
  server_name = sni_of split_host c;
  insecure_skip_verify = c.insecure_skip_verify;
  next_protos = h2 ∷ http11 ∷ [];
  min_version = tls12;
  hello = hello_id c.fingerprint;
}

-- `Dial`: what it opened and closed, and the version of the connection.
unfoldable pub dial : Network → (Bytes → Option Bytes) → DialerConfig → List Action × Result ℕ
dial network split_host c =
    if length c.server_addr == 0
    then ([], err no_server_addr)
    else with_tcp network (tls_config split_host c) (
        network.connects c.server_addr (or_default default_timeout c.connect_timeout)
          (or_default default_keep_alive c.keep_alive))

abbrev pub still_open : Bool → List Action → Bool
still_open now [] = now
still_open now (opens ∷ rest) = still_open true rest
still_open now (closes ∷ rest) = still_open false rest

-- What is true of an attempt.
abbrev pub Fits : Network → TlsConfig → List Action × Result ℕ → Type 0
Fits network tls (actions, err e) = still_open false actions ≡ false
Fits network tls (actions, ok v) =
    (still_open false actions ≡ true) × (tls13 ≤ v) × (network.negotiates tls ≡ ok v)

with_tls-Fits :
    (network : Network) (tls : TlsConfig) (got : Result ℕ)
    → network.negotiates tls ≡ got
    → Fits network tls (with_tls got)
with_tls-Fits network tls (err e) h = refl
with_tls-Fits network tls (ok v) h = elim (Bool-cases (ltb v tls13)) [
  | inl old ↦ rw old refl
  | inr recent ↦ rw recent (refl, ground arith, h)
]

with_tcp-Fits :
    (network : Network) (tls : TlsConfig) (ended : Option Error)
    → Fits network tls (with_tcp network tls ended)
with_tcp-Fits network tls (some e) = refl
with_tcp-Fits network tls none = with_tls-Fits network tls (network.negotiates tls) refl

-- However dialling ends: on an error no connection is left open; on success the connection is open
-- and has TLS 1.3 or later, negotiated for the configuration's name and fingerprint.
pub dial-Fits :
    (network : Network) (split_host : Bytes → Option Bytes) (c : DialerConfig)
    → Fits network (tls_config split_host c) (dial network split_host c)
unfolding dial
dial-Fits network split_host c = elim (Bool-cases (length c.server_addr == 0)) [
  | inl q ↦ rw q refl
  | inr q ↦ rw q (
      with_tcp-Fits network (tls_config split_host c) (
        network.connects c.server_addr (or_default default_timeout c.connect_timeout)
          (or_default default_keep_alive c.keep_alive)))
]

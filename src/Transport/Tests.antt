-- ===== src/Transport/Tests.antt =====
-- Runs of the dialer.
use ghost_vpn.Base.{none, [], ◌∷◌, Bytes, Option, false}
use ghost_vpn.Io.{pos, ok}
use ghost_vpn.Transport.Dialer.{DialerConfig, Network}

-- A server that has TLS 1.2 only.
abbrev old_server : Network
old_server = record { connects = λ addr timeout keep. none; negotiates = λ tls. ok 771 }

abbrev whole_address : Bytes → Option Bytes
whole_address addr = none

abbrev plain_config : DialerConfig
plain_config = record {
  server_addr = 104 ∷ [];
  sni = [];
  fingerprint = [];
  insecure_skip_verify = false;
  connect_timeout = pos 0;
  keep_alive = pos 0;
}

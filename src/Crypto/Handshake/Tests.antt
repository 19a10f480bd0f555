-- ===== src/Crypto/Handshake/Tests.antt =====
-- A run of the handshake without cryptography.
use ghost_vpn.Base.{ℕ, ◌≡◌, refl, true, false, some, [], ◌∷◌, ◌++◌, Bytes, replicate, Option}
use ghost_vpn.Io.{eof, ok}
use ghost_vpn.Auth.Noise.{
  new_initiator, new_responder, write_msg1, read_msg1, write_msg2, peer_static, read_msg2,
}
use ghost_vpn.Crypto.Tests.{counter}
use ghost_vpn.Crypto.Handshake.Plain.{
  Plain, plain, plain_write, plain_read, plain_laws, Same, client_key, server_key,
}
use ghost_vpn.Crypto.Handshake.{handshake_links, Session, Linked, new_cipher, new_session}

abbrev client_start : Plain
client_start = record {
  config = record {
    initiator = true;
    prologue = 103 ∷ 104 ∷ 111 ∷ 115 ∷ 116 ∷ 45 ∷ 118 ∷ 49 ∷ [];
    static_keypair = client_key;
    peer_static = replicate 32 4;
  };
  seen = [];
}

abbrev server_start : Plain
server_start = record {
  config = record {
    initiator = false;
    prologue = 103 ∷ 104 ∷ 111 ∷ 115 ∷ 116 ∷ 45 ∷ 118 ∷ 49 ∷ [];
    static_keypair = server_key;
    peer_static = [];
  };
  seen = [];
}

abbrev hi : Bytes
hi = 104 ∷ 105 ∷ []

handshake_links_example :
    (ok hi ≡ ok hi)
    × (peer_static plain (record server_start { seen = replicate 32 2 }) ≡ replicate 32 2)
    × (i : Plain) × (ours : Option (Session ℕ)) × (read_msg2 plain client_start (7 ∷ [])
        ≡ (i, ok (7 ∷ [], ours)))
    × Linked Same
        (new_cipher hi (record { pending = []; last = eof }) ours)
        (new_cipher hi (record { pending = []; last = eof }) (new_session (some 0) (some 0)))
        []
    × Linked Same
        (new_cipher hi (record { pending = []; last = eof }) (new_session (some 0) (some 0)))
        (new_cipher hi (record { pending = []; last = eof }) ours)
        []
unfolding new_initiator new_responder write_msg1 read_msg1 write_msg2 plain_write plain_read
handshake_links_example =
    handshake_links plain_laws client_key server_key client_start client_start server_start
      (record server_start { seen = replicate 32 2 })
      (record server_start { seen = replicate 32 2 }) hi (7 ∷ []) (replicate 32 2 ++ hi) (7 ∷ [])
      (ok hi) (new_session (some 0) (some 0)) hi hi eof eof refl refl refl refl refl refl refl

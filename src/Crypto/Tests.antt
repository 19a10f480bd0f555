-- ===== src/Crypto/Tests.antt =====
-- Runs of two ends with a cipher state that counts messages.
use ghost_vpn.Base.{
  ℕ, ◌+◌, ◌-◌, ◌<◌, ◌≡◌, refl, ◌∙◌, false, none, some, [], ◌∷◌, ◌++◌, Bytes, length, take,
  replicate, arith, length-append, length-replicate, take-length_append, take_cast, true,
}
use ghost_vpn.Io.{eof, write_too_large, ok}
use ghost_vpn.Io.Buffer.{buffer, all_sent, buffer_laws}
use ghost_vpn.Auth.Session.{CipherState, CipherLaws, encrypt}
use ghost_vpn.Crypto.Cipher.{FrameCipher, sealed_frame, write, read, cipher_writer}
use ghost_vpn.Shaper.Coalesce
use ghost_vpn.Shaper.Coalesce.{CoalescingConn, target_size}
use ghost_vpn.Crypto.Cipher.Link.{Linked, arrive, write_links, read_links}
use ghost_vpn.Crypto.Cipher.Limit.{large_write_loses_batch}

-- It appends its count sixteen times, in place of a tag.
abbrev tagged : ℕ → Bytes → Bytes
tagged k p = p ++ replicate 16 k

instance pub counter : CipherState ℕ
counter = record {
  seal = λ k ad p. (k + 1, ok (tagged k p));
  unseal = λ j ad c. (j + 1, ok (take (length c - 16) c));
  nonce = λ k. k;
}

abbrev Same : ℕ → ℕ → Type 0
Same k j = k ≡ j

take-tagged : (k : ℕ) (p : Bytes) → take (length (tagged k p) - 16) (tagged k p) ≡ p
take-tagged k p =
    take_cast (tagged k p) (omega (arith, length-append p (replicate 16 k)))
    ∙ take-length_append p (replicate 16 k)

counter_laws : CipherLaws counter Same
unfolding counter
counter_laws = record {
  opens =
      λ k j ad p c k' same q. (j + 1, ground (arith, take-tagged k p, q), ground (arith, q, same));
  expands = λ k ad p c k' q. ground (arith, length-append p (replicate 16 k), q);
}

abbrev hello : Bytes
hello = 104 ∷ 105 ∷ []

abbrev sender : FrameCipher ℕ Bytes
sender = record {
  inner = [];
  reader = record { pending = []; last = eof };
  session = some (record { send = some 0; recv = none });
  read_buf = [];
}

-- The other end, with one byte of an earlier message left over.
abbrev receiver : FrameCipher ℕ Bytes
receiver = record {
  inner = [];
  reader = record { pending = []; last = eof };
  session = some (record { send = none; recv = some 0 });
  read_buf = 7 ∷ [];
}

ends-Linked : Linked Same sender receiver (7 ∷ [])
ends-Linked = record {
  sender = record { send = some 0; recv = none };
  receiver = record { send = none; recv = some 0 };
  sends = refl;
  receives = refl;
  k = 0;
  j = 0;
  send_key = refl;
  recv_key = refl;
  messages = [];
  carried = (refl, refl);
  unread_is = refl;
}

abbrev sender_after : FrameCipher ℕ Bytes
sender_after = record sender {
  inner = sealed_frame (tagged 0 hello);
  session = some (record { send = some 1; recv = none });
}

write_links_example :
    (2 ≡ length hello)
    × (new : Bytes) × (all_sent sender_after.inner ≡ all_sent sender.inner ++ new)
    × Linked Same sender_after (arrive Same counter_laws buffer_laws new receiver) (7 ∷ hello)
unfolding write encrypt counter buffer
write_links_example =
    write_links Same counter_laws buffer_laws sender sender_after receiver (7 ∷ []) hello 2
      ends-Linked refl

read_links_example :
    let (rx, got, e) = read receiver 4 in
    (e ≡ none)
    × (0 < length got)
    × (rest : Bytes) × (7 ∷ [] ≡ got ++ rest)
    × Linked Same sender rx rest
read_links_example =
    read_links Same sender receiver (7 ∷ []) 4 (omega arith) (omega arith) ends-Linked

-- A write too long to be sealed, left shut.
long : Bytes
long = replicate 65536 0

length-long : length long ≡ 65536
unfolding long
length-long = length-replicate {A = ℕ} 65536 0

-- A coalescer over the sender, with a greeting in its batch.
abbrev batch : CoalescingConn (FrameCipher ℕ Bytes)
batch = record {
  inner = sender;
  cfg = record {
    flush_interval = 8;
    flush_bytes = 1300;
    min_padded = 1100;
    max_padded = 1450;
    cover = none;
  };
  buf = hello;
  timer = true;
  closed = false;
  total_flushes = 0;
  total_padding = 0;
  total_bytes = 0;
}

abbrev no_jitter : ℕ → ℕ
no_jitter n = 0

large_write_loses_batch_example :
    ((Coalesce.write no_jitter batch long).2 ≡ some (write_too_large (length hello + length long)))
    × ((Coalesce.write no_jitter batch long).0.buf ≡ [])
    × ((Coalesce.write no_jitter batch long).0.inner ≡ sender)
unfolding target_size
large_write_loses_batch_example =
    large_write_loses_batch no_jitter batch long refl (omega arith) (omega arith)
      (omega (arith, length-long))

-- ===== src/Crypto/Handshake/Plain.antt =====
-- A handshake without cryptography, for runs.
use ghost_vpn.Base.{
  ℕ, ◌≡◌, refl, sym, ap, ◌∙◌, Bool, true, false, none, some, [], ◌++◌, Bytes, length, take, drop,
  replicate, arith, drop-length_append, take-length_append,
}
use ghost_vpn.Io.{Result, ok}
use ghost_vpn.Auth.Keys.{DhKey}
use ghost_vpn.Auth.Noise.{HandshakeConfig, HandshakeState, Message, NoiseLaws}

abbrev pub Same : ℕ → ℕ → Type 0
Same k j = k ≡ j

-- A handshake in which nothing is encrypted: the first message is the key and the payload, and the
-- sessions count from 0.
pub record Plain : Type 0 where
  pub config : HandshakeConfig
  pub seen : Bytes

unfoldable pub plain_write : Bool → Plain → Bytes → Plain × Result (Message ℕ)
plain_write true h payload = (
  h,
  ok (record { content = h.config.static_keypair.public ++ payload; first = none; second = none }),
)
plain_write false h payload =
    (h, ok (record { content = payload; first = some 0; second = some 0 }))

unfoldable pub plain_read : Bool → Plain → Bytes → Plain × Result (Message ℕ)
plain_read true h msg = (h, ok (record { content = msg; first = some 0; second = some 0 }))
plain_read false h msg = (
  record h { seen = take 32 msg },
  ok (record { content = drop 32 msg; first = none; second = none }),
)

abbrev pub plain : HandshakeState Plain ℕ
plain = record {
  new_state = λ c. ok (record { config = c; seen = [] });
  write = λ h p. plain_write h.config.initiator h p;
  read = λ h p. plain_read h.config.initiator h p;
  peer = λ h. h.seen;
}

abbrev pub OfKeySize : DhKey → Type 0
OfKeySize k = length k.public ≡ 32

abbrev pub Facing : Plain → Plain → Type 0
Facing i r = (i.config.initiator ≡ true) × (r.config.initiator ≡ false)

take-key : (key p : Bytes) → length key ≡ 32 → take 32 (key ++ p) ≡ key
take-key key p size = ap (λ (n : ℕ). take n (key ++ p)) (sym size) ∙ take-length_append key p

drop-key : (key p : Bytes) → length key ≡ 32 → drop 32 (key ++ p) ≡ p
drop-key key p size = ap (λ (n : ℕ). drop n (key ++ p)) (sym size) ∙ drop-length_append key p

plain_first :
    (ci cr : HandshakeConfig) (i r i' : Plain) (payload : Bytes) (m : Message ℕ)
    → OfKeySize ci.static_keypair
    → OfKeySize cr.static_keypair
    → ci.initiator ≡ true
    → cr.initiator ≡ false
    → ci.prologue ≡ cr.prologue
    → ci.peer_static ≡ cr.static_keypair.public
    → plain.new_state ci ≡ ok i
    → plain.new_state cr ≡ ok r
    → plain.write i payload ≡ (i', ok m)
    → (r' : Plain) × (m' : Message ℕ) × (plain.read r m.content ≡ (r', ok m'))
      × (m'.content ≡ payload)
      × (plain.peer r' ≡ ci.static_keypair.public)
      × Facing i' r'
unfolding plain_write plain_read
plain_first ci cr i r i' payload m size size' is_i is_r pro known hi hr hw =
    let of_i : i.config ≡ ci = ground arith in
    let of_r : r.config ≡ cr = ground arith in
    let content : m.content ≡ ci.static_keypair.public ++ payload = ground arith in
    (
      record r { seen = take 32 m.content },
      record { content = drop 32 m.content; first = none; second = none },
      ground arith,
      ap (drop 32) content ∙ drop-key ci.static_keypair.public payload size,
      ap (take 32) content ∙ take-key ci.static_keypair.public payload size,
      (ground arith, ground arith),
    )

plain_second :
    (i r r' : Plain) (payload : Bytes) (m : Message ℕ) (s t : ℕ)
    → Facing i r
    → plain.write r payload ≡ (r', ok m)
    → m.first ≡ some s
    → m.second ≡ some t
    → (i' : Plain) × (m' : Message ℕ) × (s' : ℕ) × (t' : ℕ) × (plain.read i m.content ≡ (i', ok m'))
      × (m'.content ≡ payload)
      × (m'.first ≡ some s')
      × (m'.second ≡ some t')
      × Same s' s
      × Same t t'
unfolding plain_write plain_read
plain_second i r r' payload m s t facing hw hs ht = (
  i,
  record { content = m.content; first = some 0; second = some 0 },
  0,
  0,
  ground (arith, facing),
  ground (arith, facing),
  refl,
  refl,
  ground (arith, facing),
  ground (arith, facing),
)

pub plain_laws : NoiseLaws plain OfKeySize Facing Same
plain_laws = record { reads_first = plain_first; reads_second = plain_second }

abbrev pub client_key : DhKey
client_key = record { private = replicate 32 1; public = replicate 32 2 }

abbrev pub server_key : DhKey
server_key = record { private = replicate 32 3; public = replicate 32 4 }

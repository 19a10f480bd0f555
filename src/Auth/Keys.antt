-- ===== src/Auth/Keys.antt =====
-- internal/auth/keys.go: keys of 32 bytes and their text. Curve25519 and the base64 decoders are
-- parameters.
use ghost_vpn.Base.{
  ℕ, Bool, false, List, [], ◌∷◌, Bytes, length, same, ◌==◌, if◌then◌else◌, ◌≡◌, arith,
}
use ghost_vpn.Io.{key_length, key_decoding, key_derivation, Result, ok, err}

-- const KeySize
abbrev pub key_size : ℕ
key_size = 32

-- `noise.DHKey`
pub record DhKey : Type 0 where
  pub private : Bytes
  pub public : Bytes

-- `KeypairFromPrivate`; `derive` is multiplication by the base point.
unfoldable pub keypair_from_private : (Bytes → Result Bytes) → Bytes → Result DhKey
keypair_from_private derive key =
    if length key == key_size
    then elim (derive key) [
      | ok public ↦ ok (record { private = key; public = public })
      | err e ↦ err (key_derivation e)
    ]
    else err (key_length (length key))

-- The loop of `DecodeKey` over the encodings, each with the error of the one before it.
abbrev try_decoders : List (Bytes → Result Bytes) → Bytes → Result Bytes → Result Bytes
try_decoders [] text last = last
try_decoders (decode ∷ rest) text last =
    let next = try_decoders rest text (decode text) in
    elim (decode text) [ ok key ↦ ok key | err e ↦ next ]

-- `DecodeKey`: the first of the four encodings that reads the text, if it gives 32 bytes.
unfoldable pub decode_key : (std raw_std url raw_url : Bytes → Result Bytes) → Bytes → Result Bytes
decode_key std raw_std url raw_url text =
    elim (try_decoders (std ∷ raw_std ∷ url ∷ raw_url ∷ []) text (ok [])) [
      | err e ↦ err (key_decoding e)
      | ok key ↦ if length key == key_size then ok key else err (key_length (length key))
    ]

-- `EqualKey`
unfoldable pub equal_key : Bytes → Bytes → Bool
equal_key a b = if length a == length b then same a b else false

-- A text that the first encoding reads as a key, and a key with its public key.
pub decode_key_standard :
    (std raw_std url raw_url : Bytes → Result Bytes) (text : Bytes) {key : Bytes}
    → std text ≡ ok key
    → length key ≡ key_size
    → decode_key std raw_std url raw_url text ≡ ok key
unfolding decode_key
decode_key_standard std raw_std url raw_url text q l = ground (arith, q, l)

pub keypair_from_private_pair :
    (derive : Bytes → Result Bytes) (kp : DhKey)
    → length kp.private ≡ key_size
    → derive kp.private ≡ ok kp.public
    → keypair_from_private derive kp.private ≡ ok kp
unfolding keypair_from_private
keypair_from_private_pair derive kp l q = ground (arith, q, l)

-- ===== src/Tun/Packet.antt =====
-- internal/tun/router.go: what is read of an IP packet. A key is the bytes of an address, or "".
use ghost_vpn.Base.{
  ℕ, ◌+◌, ◌-◌, ◌*◌, ◌/◌, ◌≤◌, ◌≡◌, Bool, true, false, not, ◌||◌, [], Bytes, length, take, drop,
  get_or, ltb, ◌==◌, if◌then◌else◌, arith, length-take, length-drop,
}

-- `pkt[lo:hi]`
abbrev slice_of : Bytes → ℕ → ℕ → Bytes
slice_of p lo hi = take (hi - lo) (drop lo p)

-- The check of the total length that an IPv4 header claims.
abbrev total_fits : ℕ → Bytes → Bool
total_fits total p = not (ltb total 20 || ltb (length p) total)

-- `isValidIPPacket`
unfoldable pub is_valid_ip_packet : Bytes → Bool
is_valid_ip_packet p =
    if ltb (length p) 1
    then false
    else if get_or p 0 0 / 16 == 4
    then if ltb (length p) 20 then false else total_fits (get_or p 2 0 * 256 + get_or p 3 0) p
    else if get_or p 0 0 / 16 == 6
    then not (ltb (length p) 40)
    else false

-- The part of `dstIPKey` and `srcIPKey` that they share: where the address starts in a packet of
-- version 4, and of version 6.
abbrev key_at : ℕ → ℕ → Bytes → Bytes
key_at four six p =
    if ltb (length p) 1
    then []
    else if get_or p 0 0 / 16 == 4
    then if ltb (length p) 20 then [] else slice_of p four (four + 4)
    else if get_or p 0 0 / 16 == 6
    then if ltb (length p) 40 then [] else slice_of p six (six + 16)
    else []

unfoldable pub dst_ip_key : Bytes → Bytes
dst_ip_key p = key_at 16 24 p

unfoldable pub src_ip_key : Bytes → Bytes
src_ip_key p = key_at 12 8 p

-- The length of an address in a packet.
pub address_length : Bytes → ℕ
address_length p = if get_or p 0 0 / 16 == 4 then 4 else 16

length-slice_of : (p : Bytes) (lo n : ℕ) → lo + n ≤ length p → length (slice_of p lo (lo + n)) ≡ n
length-slice_of p lo n h = omega (arith, length-take (lo + n - lo) (drop lo p), length-drop lo p)

key_at_lem :
    (p : Bytes) (four six : ℕ)
    → four ≤ 16
    → six ≤ 24
    → is_valid_ip_packet p ≡ true
    → length (key_at four six p) ≡ address_length p
unfolding is_valid_ip_packet address_length
key_at_lem p four six h k v = ground (arith, length-slice_of p four 4, length-slice_of p six 16)

-- A packet that may be written to the device has both addresses, each of the length that its version
-- has, so that neither is "".
pub valid_packet_keys :
    (p : Bytes)
    → is_valid_ip_packet p ≡ true
    → (length (dst_ip_key p) ≡ address_length p) × (length (src_ip_key p) ≡ address_length p)
unfolding dst_ip_key src_ip_key
valid_packet_keys p h = (
  key_at_lem p 16 24 (omega arith) (omega arith) h,
  key_at_lem p 12 8 (omega arith) (omega arith) h,
)

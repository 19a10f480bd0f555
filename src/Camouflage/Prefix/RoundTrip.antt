-- ===== src/Camouflage/Prefix/RoundTrip.antt =====
-- internal/camouflage/h2_server.go: what was written with its length is read back.
use ghost_vpn.Base.{
  ◌^◌, ◌<◌, ◌≡◌, none, ◌++◌, Bytes, length, put_uint16, arith, length-append, take-length_append,
  drop-length_append, append_assoc, if◌then◌else◌, ltb, ◌==◌,
}
use ghost_vpn.Io.{Error, ok, err, Writer, WriterLaws, zero_length_message}
use ghost_vpn.Camouflage.Prefix.{
  returns, panics, parse_length_prefixed, read_length_prefixed, write_length_prefixed,
}

-- A message on the wire.
abbrev pub prefixed : Bytes → Bytes
prefixed msg = put_uint16 (length msg) ++ msg

-- What is written without an error fits two bytes of length, and is the message with its length.
pub write_length_prefixed_sent :
    {W : Type 0} ⦃wr : Writer W⦄ {sent : W → Bytes} (laws : WriterLaws wr sent) (w : W)
    (msg : Bytes)
    → (write_length_prefixed w msg).1 ≡ none
    → (length msg < 2 ^ 16) × (sent (write_length_prefixed w msg).0 ≡ sent w ++ prefixed msg)
unfolding write_length_prefixed
write_length_prefixed_sent ⦃wr⦄ {sent} laws w msg h =
    let head = put_uint16 (length msg) in
    let w' = (wr.write w head).0 in
    ground (arith, laws.writes_all w head, laws.writes_all w' msg, append_assoc (sent w) head msg)

-- `readLengthPrefixed` returns the message that was written, and leaves what follows; an empty
-- message, which may be written, is refused.
pub read_length_prefixed_lem :
    (msg rest : Bytes) (e : Error)
    → length msg < 2 ^ 16
    → read_length_prefixed (record { pending = prefixed msg ++ rest; last = e }) ≡ (
        if length msg == 0
        then (record { pending = rest; last = e }, err zero_length_message)
        else (record { pending = rest; last = e }, ok msg))
unfolding read_length_prefixed
read_length_prefixed_lem msg rest e h =
    ground (arith, length-append msg rest, take-length_append msg rest, drop-length_append msg rest)

-- `parseLengthPrefixed` returns the message too, whatever follows it, but for the two greatest
-- lengths: there its upper bound wraps round, and slicing panics.
pub parse_length_prefixed_lem :
    (msg rest : Bytes)
    → 0 < length msg
    → length msg < 2 ^ 16
    → parse_length_prefixed (prefixed msg ++ rest)
      ≡ (if ltb (length msg) 65534 then returns (ok msg) else panics)
unfolding parse_length_prefixed
parse_length_prefixed_lem msg rest h k =
    ground (arith, length-append msg rest, take-length_append msg rest)

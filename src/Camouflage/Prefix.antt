-- ===== src/Camouflage/Prefix.antt =====
-- internal/camouflage/h2_server.go: the messages of the handshake, which carry their length in two
-- bytes before them.
pub mod RoundTrip
use ghost_vpn.Base.{
  ℕ, ◌+◌, ◌-◌, ◌%◌, ◌^◌, Option, none, some, Bytes, length, take, drop, get_or, put_uint16, uint16,
  leb, ltb, ◌==◌, if◌then◌else◌,
}
use ghost_vpn.Io.{
  Error, short_prefix, zero_length_message, message_too_large, declared_too_long, read_prefix,
  read_body, Result, ok, err, Reader, read_full, Writer,
}

-- A value, an error, or a run-time panic.
pub data Outcome : Type 0 where
  returns : Result Bytes → Outcome
  panics : Outcome

-- `buf[lo:hi]`, which panics unless `lo <= hi`; `hi` is known to lie within the buffer.
abbrev slice : Bytes → ℕ → ℕ → Outcome
slice buf lo hi = if ltb hi lo then panics else returns (ok (take (hi - lo) (drop lo buf)))

-- `parseLengthPrefixed`. The upper bound `2+n` is a uint16.
unfoldable pub parse_length_prefixed : Bytes → Outcome
parse_length_prefixed buf =
    if ltb (length buf) 2
    then returns (err short_prefix)
    else let n = uint16 (get_or buf 0 0) (get_or buf 1 0) in
      if n == 0
      then returns (err zero_length_message)
      else if ltb (length buf - 2) n
      then returns (err (declared_too_long n (length buf - 2)))
      else slice buf 2 ((2 + n) % 2 ^ 16)

read_announced : Reader → ℕ → Reader × Result Bytes
read_announced r n =
    if n == 0
    then (r, err zero_length_message)
    else let (r', got) = read_full r n in
      elim got [ ok msg ↦ (r', ok msg) | err e ↦ (r', err (read_body e)) ]

unfoldable pub read_length_prefixed : Reader → Reader × Result Bytes
unfolding read_announced
read_length_prefixed r =
    let (r', got) = read_full r 2 in
    elim got [
      | err e ↦ (r', err (read_prefix e))
      | ok h ↦ read_announced r' (uint16 (get_or h 0 0) (get_or h 1 0))
    ]

-- `writeLengthPrefixed`: two writes, the second only if the first succeeds.
unfoldable pub write_length_prefixed : {W : Type 0} ⦃wr : Writer W⦄ → W → Bytes → W × Option Error
write_length_prefixed ⦃wr⦄ w msg =
    if ltb 65535 (length msg)
    then (w, some (message_too_large (length msg)))
    else let (w', n, e) = wr.write w (put_uint16 (length msg % 2 ^ 16)) in
      elim e [ some x ↦ (w', some x) | none ↦ let (w'', m, e') = wr.write w' msg in (w'', e') ]

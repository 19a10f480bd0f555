-- ===== src/Shaper/Coalesce.antt =====
-- internal/shaper/coalesce.go: the write-coalescing wrapper. Its mutex makes each method one step;
-- a step that draws a random number takes `intn`, the result of `mathrand.Intn`. The timer is
-- whether one is pending, and the counters are uint64.
pub mod Flush
pub mod Carries
pub mod Transparent
use ghost_vpn.Base.{
  ℕ, zero, suc, ◌+◌, ◌-◌, ◌*◌, ◌%◌, ◌^◌, Bool, true, false, not, ◌&&◌, Option, none, some, List, [],
  ◌∷◌, ◌++◌, Bytes, length, replicate, put_uint16, ltb, leb, ◌==◌, if◌then◌else◌,
}
use ghost_vpn.Io.{ℤ, pos, negsuc, Error, closed_pipe, Writer}
use ghost_vpn.Mux.Frame.{header_size, max_payload, protocol_version, type_padding}

-- `CoalesceConfig`; durations in nanoseconds.
pub record CoalesceConfig : Type 0 where
  pub flush_interval : ℤ
  pub flush_bytes : ℤ
  pub min_padded_size : ℤ
  pub max_padded_size : ℤ
  pub cover_interval : ℤ

-- The configuration after `defaults`: all but the cover interval are positive. `none` as the cover
-- interval is a negative one, which starts no cover loop.
pub record Settings : Type 0 where
  pub flush_interval : ℕ
  pub flush_bytes : ℕ
  pub min_padded : ℕ
  pub max_padded : ℕ
  pub cover : Option ℕ

-- `if x <= 0 { x = d }`
abbrev pub positive_or : ℕ → ℤ → ℕ
positive_or d (pos zero) = d
positive_or d (pos (suc n)) = suc n
positive_or d (negsuc n) = d

abbrev pub cover_or : ℕ → ℤ → Option ℕ
cover_or d (pos zero) = some d
cover_or d (pos (suc n)) = some (suc n)
cover_or d (negsuc n) = none

-- `if c.MaxPaddedSize < c.MinPaddedSize { c.MaxPaddedSize = 1450 }`, for a positive minimum.
abbrev pub at_least_or : ℕ → ℕ → ℤ → ℕ
at_least_or d low (pos n) = if ltb n low then d else n
at_least_or d low (negsuc n) = d

unfoldable pub defaults : CoalesceConfig → Settings
defaults c =
    let low = positive_or 1100 c.min_padded_size in
    record {
      flush_interval = positive_or (8 * 10 ^ 6) c.flush_interval;
      flush_bytes = positive_or 1300 c.flush_bytes;
      min_padded = low;
      max_padded = at_least_or 1450 low c.max_padded_size;
      cover = cover_or (25 * 10 ^ 9) c.cover_interval;
    }

-- `CoalescingConn`, without its mutex and its channel.
pub record CoalescingConn (W : Type 0) : Type 0 where
  pub inner : W
  pub cfg : Settings
  pub buf : Bytes
  pub timer : Bool
  pub closed : Bool
  pub total_flushes : ℕ
  pub total_padding : ℕ
  pub total_bytes : ℕ

unfoldable pub new_coalescing_conn : {W : Type 0} → W → CoalesceConfig → CoalescingConn W
new_coalescing_conn w cfg = record {
  inner = w;
  cfg = defaults cfg;
  buf = [];
  timer = false;
  closed = false;
  total_flushes = 0;
  total_padding = 0;
  total_bytes = 0;
}

-- uint64 `a += b`
abbrev pub add64 : ℕ → ℕ → ℕ
add64 a b = (a + b) % 2 ^ 64

-- The size that a flush aims at.
unfoldable pub target_size : Settings → (ℕ → ℕ) → ℕ
target_size s intn =
    if ltb s.min_padded s.max_padded
    then s.min_padded + intn (s.max_padded - s.min_padded + 1)
    else s.min_padded

-- The PADDING frame with `n` payload bytes.
unfoldable pub padding_frame : ℕ → Bytes
padding_frame n =
    protocol_version ∷ type_padding ∷ 0 ∷ 0 ∷ 0 ∷ 0 ∷ (put_uint16 (n % 2 ^ 16) ++ replicate n 0)

-- `if padPayloadLen > mux.MaxPayload { padPayloadLen = mux.MaxPayload }`
abbrev pub cap_payload : ℕ → ℕ
cap_payload n = if ltb max_payload n then max_payload else n

module _ {W : Type 0} ⦃wr : Writer W⦄ where
  -- Write `bytes` to the inner connection, `padding` bytes of them padding, and empty the buffer.
  unfoldable pub send : Bytes → ℕ → CoalescingConn W → CoalescingConn W × Option Error
  send bytes padding c =
      let (w, n, e) = wr.write c.inner bytes in
      (
        record c {
          inner = w;
          buf = [];
          total_bytes = add64 c.total_bytes (length bytes);
          total_flushes = add64 c.total_flushes 1;
          total_padding = add64 c.total_padding padding;
        },
        e,
      )

  -- The flush of a buffer towards a target.
  unfoldable pub flush_to : ℕ → CoalescingConn W → CoalescingConn W × Option Error
  flush_to target c =
      if leb target (length c.buf)
      then send c.buf 0 c
      else if ltb target (length c.buf + header_size + 1)
      then send c.buf 0 c
      else let n = cap_payload (target - length c.buf - header_size) in
        send (c.buf ++ padding_frame n) n c

  unfoldable pub flush_locked : (ℕ → ℕ) → Bool → CoalescingConn W → CoalescingConn W × Option Error
  flush_locked intn pure_cover c =
      let c' = record c { timer = false } in
      if (length c.buf == 0) && not pure_cover
      then (c', none)
      else flush_to (target_size c.cfg intn) c'

  -- What `Write` returns once it has flushed.
  after_flush : ℕ → CoalescingConn W × Option Error → CoalescingConn W × ℕ × Option Error
  after_flush n (c, none) = (c, n, none)
  after_flush n (c, some e) = (c, 0, some e)

  unfoldable pub write : (ℕ → ℕ) → CoalescingConn W → Bytes → CoalescingConn W × ℕ × Option Error
  unfolding after_flush
  write intn c p =
      if c.closed
      then (c, 0, some closed_pipe)
      else let c' = record c { buf = c.buf ++ p } in
        if leb c.cfg.flush_bytes (length c'.buf)
        then after_flush (length p) (flush_locked intn false c')
        else (record c' { timer = true }, length p, none)

  unfoldable pub timer_flush : (ℕ → ℕ) → CoalescingConn W → CoalescingConn W
  timer_flush intn c =
      let c' = record c { timer = false } in if c.closed then c' else (flush_locked intn false c').0

  -- A tick of `coverLoop`; `true` says that the loop has returned.
  unfoldable pub cover_tick : (ℕ → ℕ) → CoalescingConn W → CoalescingConn W × Bool
  cover_tick intn c =
      if c.closed
      then (c, true)
      else if length c.buf == 0
      then ((flush_locked intn true c).0, false)
      else (c, false)

  -- The errors that these two drop (`_ =`).
  abbrev pub timer_error : (ℕ → ℕ) → CoalescingConn W → Option Error
  timer_error intn c =
      if c.closed then none else (flush_locked intn false (record c { timer = false })).1

  abbrev pub cover_error : (ℕ → ℕ) → CoalescingConn W → Option Error
  cover_error intn c =
      if c.closed then none else if length c.buf == 0 then (flush_locked intn true c).1 else none

  -- `Close`, up to the `Close` of the inner connection.
  pub close : CoalescingConn W → CoalescingConn W
  close c =
      if c.closed
      then c
      else if length c.buf == 0
      then record c { closed = true; timer = false }
      else record c { closed = true; timer = false; inner = (wr.write c.inner c.buf).0; buf = [] }

-- `Stats`
pub stats : {W : Type 0} → CoalescingConn W → ℕ × ℕ × ℕ
stats c = (c.total_flushes, c.total_padding, c.total_bytes)

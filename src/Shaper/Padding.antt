-- ===== src/Shaper/Padding.antt =====
-- internal/shaper/shaper.go: the padding loop and the keepalive loop over a mux connection.
mod Tests
pub mod Ticks
use ghost_vpn.Base.{
  ℕ, zero, suc, ◌+◌, ◌-◌, ◌≤◌, ◌<◌, ◌%◌, ◌^◌, ◌≡◌, refl, sym, ap, ◌∙◌, inl, inr, Bool, true, false,
  Bool-cases, Option, none, some, Option-cases, Bytes, ltb, ◌==◌, if◌then◌else◌, arith,
}
use ghost_vpn.Io.{ℤ, pos, Error, Result, Writer}
use ghost_vpn.Mux.Conn.{Conn, send_padding, send_ping}
use ghost_vpn.Shaper.Asymmetry.{Floats, Enforcer, add_bytes, record_up, record_down, padding_needed}

abbrev pub max_chunk : ℕ
max_chunk = 8192

-- `Shaper`: the connection, the enforcer, and whether `stopCh` is closed.
pub record Shaper (F W : Type 0) : Type 0 where
  pub conn : Conn W
  pub asym : Enforcer F
  pub enabled : Bool
  pub stopped : Bool

abbrev pub chunk_of : ℕ → ℕ
chunk_of pad = if ltb max_chunk pad then max_chunk else pad

module _ {F W : Type 0} where
  -- `Stop`
  pub stop : Shaper F W → Shaper F W
  stop s = record s { stopped = true }

  -- `RecordUp` and `RecordDown` of the shaper
  pub note_up : ℕ → Shaper F W → Shaper F W
  note_up n s = if s.enabled then record s { asym = record_up n s.asym } else s

  pub note_down : ℕ → Shaper F W → Shaper F W
  note_down n s = if s.enabled then record s { asym = record_down n s.asym } else s

module _ {F W : Type 0} ⦃wr : Writer W⦄ where
  -- What the loop records for a chunk: down as long as padding down is left.
  abbrev pub recorded : Bool → ℕ → Shaper F W → Shaper F W
  recorded true chunk s = record s { asym = record_down chunk s.asym }
  recorded false chunk s = record s { asym = record_up chunk s.asym }

  -- The loop over the chunks, on any fuel above `pad`.
  unfoldable pub send_chunks :
      ℕ → (ℕ → Result Bytes) → (down pad : ℕ) → Shaper F W → Shaper F W × Option Error
  send_chunks zero random down pad s = (s, none)
  send_chunks (suc fuel) random down pad s =
      let chunk = chunk_of pad in
      let (c, e) = send_padding random (pos chunk) s.conn in
      let rest =
        send_chunks fuel random (down - chunk) (pad - chunk)
          (recorded (ltb 0 down) chunk (record s { conn = c })) in
      if pad == 0
      then (s, none)
      else elim e [ some x ↦ (record s { conn = c }, some x) | none ↦ rest ]

  -- A tick of `paddingLoop`; an error ends the loop.
  unfoldable pub padding_tick :
      Floats F → F → (ℕ → Result Bytes) → Shaper F W → Shaper F W × Option Error
  padding_tick fl tolerance random s =
      let (down, up) = padding_needed fl tolerance s.asym in
      send_chunks (suc (down + up)) random down (down + up) s

  -- A tick of `keepaliveLoop`
  unfoldable pub keepalive_tick : (ℕ → Result Bytes) → Shaper F W → Shaper F W × Option Error
  keepalive_tick random s = let (c, e) = send_ping random s.conn in (record s { conn = c }, e)

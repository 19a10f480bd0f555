-- ===== src/Mux/Conn/Ping.antt =====
-- internal/mux/conn.go: `pingLoop`, and what it concludes from the answers to its pings.
use ghost_vpn.Base.{
  if◌then◌else◌, Bool, Option, none, ltb, ℕ, ◌+◌, ◌*◌, ◌^◌, ◌≤◌, ◌<◌, ◌≡◌, true, false, some, Bytes,
  arith, Bool, Option,
}
use ghost_vpn.Io.{ping_timeout, ping_write, Error, Result, Writer, Error, ping_write}
use ghost_vpn.Mux.Frame.{Frame, type_pong}
use ghost_vpn.Mux.Conn.{
  Conn, unix, close, dispatch, dispatch_data, dispatch_open, dispatch_close, dispatch_ping,
  send_ping,
}

-- PingInterval and PingTimeout
abbrev pub ping_interval : ℕ
ping_interval = 30 * 10 ^ 9

abbrev pub ping_limit : ℕ
ping_limit = 10 * 10 ^ 9

module _ {W : Type 0} ⦃wr : Writer W⦄ where
  -- A round of `pingLoop` after its tick, in three steps between which the read loop may run. The
  -- check of the previous ping; `true` says that the loop has returned.
  unfoldable pub ping_check : ℕ → Conn W → Conn W × Bool
  ping_check now c =
      if ltb c.last_pong c.ping_sent
      then if ltb (c.ping_sent * 10 ^ 9 + ping_limit) now
        then (close (record c { close_err = some ping_timeout }), true)
        else (c, false)
      else (c, false)

  unfoldable pub finish_ping : Conn W × Option Error → Conn W × Bool
  finish_ping (c, none) = (c, false)
  finish_ping (c, some e) = (close (record c { close_err = some (ping_write e) }), true)

  unfoldable pub ping_send : (ℕ → Result Bytes) → Conn W → Conn W × Bool
  unfolding finish_ping
  ping_send random c = finish_ping (send_ping random c)

  unfoldable pub ping_store : ℕ → Conn W → Conn W
  ping_store now c = record c { ping_sent = unix now }

  -- A whole round of `pingLoop`, nothing else running: at `now` the tick, at `later` the store.
  pub ping_round : ℕ → ℕ → (ℕ → Result Bytes) → Conn W → Conn W × Bool
  unfolding ping_check ping_send ping_store
  ping_round now later random c =
      if c.done
      then (c, true)
      else let (c₁, dead) = ping_check now c in
        if dead
        then (c₁, true)
        else let (c₂, failed) = ping_send random c₁ in
          if failed then (c₂, true) else (ping_store later c₂, false)

  -- A ping that no PONG answered by the next tick, more than the limit after it was sent, ends the
  -- loop: the connection is closed with the timeout as its error, and no further ping is sent.
  pub ping_round_dead :
      (now later : ℕ) (random : ℕ → Result Bytes) (c : Conn W)
      → c.done ≡ false
      → c.last_pong < c.ping_sent
      → c.ping_sent * 10 ^ 9 + ping_limit < now
      → ping_round now later random c ≡ (close (record c { close_err = some ping_timeout }), true)
  unfolding ping_round
  ping_round_dead now later random c live late over = ground arith

  -- A PONG handled at or after the second in which the ping was recorded keeps the connection: the
  -- next check passes, whenever it is made.
  pub pong_after_store :
      (sent answered now : ℕ) (f : Frame) (c : Conn W)
      → f.ftype ≡ type_pong
      → unix sent ≤ unix answered
      → ping_check now (dispatch answered f (ping_store sent c))
        ≡ (dispatch answered f (ping_store sent c), false)
  unfolding dispatch dispatch_data dispatch_open dispatch_close dispatch_ping ping_check ping_store
  pong_after_store sent answered now f c t h = ground arith

  -- The ping is recorded only after it was sent, so the read loop may handle its PONG first. Where
  -- a second begins between the two, the next check, more than the limit later, closes the
  -- connection with the timeout as its error and ends the loop, although the peer answered.
  pub pong_before_store :
      (answered sent now : ℕ) (f : Frame) (c : Conn W)
      → f.ftype ≡ type_pong
      → unix answered < unix sent
      → unix sent * 10 ^ 9 + ping_limit < now
      → ping_check now (ping_store sent (dispatch answered f c)) ≡ (
        close (record (ping_store sent (dispatch answered f c)) { close_err = some ping_timeout }),
        true,
      )
  unfolding dispatch dispatch_data dispatch_open dispatch_close dispatch_ping ping_check ping_store
  pong_before_store answered sent now f c t h over = ground arith

-- ===== src/Tun/Bridge/Orphan.antt =====
-- internal/tun/router.go: the session of a client that came back before its old session had ended.
use ghost_vpn.Base.{
  ℕ, ◌<◌, ◌≡◌, refl, false, Option, none, some, List, [], ◌∷◌, Bytes, length, get_elem?, arith, All,
  same_refl, if_both, ap, ◌∙◌, get_elem?-append_left, length-append, ◌⊎◌, inl, inr, same,
}
use ghost_vpn.Io.{Error}
use ghost_vpn.Tun.Router.{Channel, TunRouter, remove, register}
use ghost_vpn.Tun.Bridge.Session.{Session, Run, begin_session, send_round, send_from, send_on}
use ghost_vpn.Tun.Bridge.Queues.{queue_at, queue_of}
use ghost_vpn.Tun.Bridge.Keeps.{IsKept, Run-Keeps}
use ghost_vpn.Tun.Bridge.Owner.{IsOnlyOf, IsOwned, remove-owner, IsOwned-IsKept}
use ghost_vpn.Tun.Bridge.Unrouted.{
  closed_of, IsOrphan, set_closed, register-IsOrphan, unregister-IsOrphan, offer-IsOrphan,
  closed_at,
}

-- The routes lead to channels that there are.
abbrev pub IsTidy : TunRouter → Type 0
IsTidy r = All (λ (e : Bytes × ℕ). e.1 < length r.channels) r.routes

-- The session of a client when it comes back under its address.
abbrev pub come_back : Bytes → Session → Session
come_back key s = record s { router = register key s.router }

tidy-IsOnlyOf :
    (key : Bytes) (n : ℕ) (m : List (Bytes × ℕ))
    → All (λ (e : Bytes × ℕ). e.1 < n) m
    → IsOnlyOf key n (remove key m)
tidy-IsOnlyOf key n [] t = tt
tidy-IsOnlyOf key n ((k, h) ∷ m) t =
    let below = t.0 in
    if_both (IsOnlyOf key n) (same k key) (tidy-IsOnlyOf key n m t.1)
      (ground (arith, below), tidy-IsOnlyOf key n m t.1)

begun-IsOwned :
    (key : Bytes) (r : TunRouter) → IsTidy r → IsOwned key (length r.channels) (register key r)
unfolding register
begun-IsOwned key r tidy = record {
  only = (ground (arith, same_refl key), tidy-IsOnlyOf key (length r.channels) r.routes tidy);
  below = omega (arith, length-append r.channels (record { queue = []; closed = false } ∷ []));
}

-- Once another channel is registered under its address, an open channel has none.
replaced-IsOrphan :
    (key : Bytes) (r : TunRouter) (i : ℕ)
    → IsOwned key i r
    → closed_at i r ≡ some false
    → IsOrphan i (register key r)
unfolding register
replaced-IsOrphan key r i o lasts =
    let below = o.below in
    record {
      unrouted = (ground (arith, below), remove-owner key i r.routes o.only);
      lasts = ap closed_of (get_elem?-append_left r.channels _ i below) ∙ lasts;
    }

IsOrphan-IsKept : IsKept IsOrphan
IsOrphan-IsKept = record {
  popped = λ i ch rest r there o. record {
    unrouted = o.unrouted;
    lasts = set_closed i i r.channels ch (record ch { queue = rest }) there refl ∙ o.lasts;
  };
  registered = register-IsOrphan;
  unregistered = unregister-IsOrphan;
  offered = offer-IsOrphan;
}

-- The goroutine that sends from the channel has to wait, or there is a packet for it to send.
abbrev pub IsSending : Option Error → Session → Type 0
IsSending w s =
    (q : List Bytes) × (queue_at s.inbound s.router ≡ some q)
    × ((send_round w s ≡ none) ⊎ (0 < length q))

waits :
    (w : Option Error) (s : Session) (ch : Channel) (queue : List Bytes)
    → ch.closed ≡ false
    → (send_from w ch queue s ≡ none) ⊎ (0 < length queue)
waits w s ch [] lasts = inl (rw lasts refl)
waits w s ch (p ∷ rest) lasts = inr (omega arith)

stale_waits :
    (w : Option Error) (s : Session) (ch : Option Channel)
    → closed_of ch ≡ some false
    → (q : List Bytes) × (queue_of ch ≡ some q) × ((send_on w s ch ≡ none) ⊎ (0 < length q))
stale_waits w s none lasts = absurd (ground (arith, lasts))
stale_waits w s (some ch) lasts = (ch.queue, refl, waits w s ch ch.queue (ground (arith, lasts)))

-- Where a session begins on a router whose routes lead to channels that there are, and its client comes
-- back under its address at any moment while the session's channel is open: at every moment after, whatever is done, the end of the old session's own call
-- included, no address has that channel and it is open; and whenever it is empty, the goroutine that
-- sends from it has to wait.
pub come_back-IsOrphan :
    (key : Bytes) (out : Option Bytes) (e : Option Error) (r : TunRouter) (w : Option Error)
    {mid s : Session} {us vs xs ys : List Bytes}
    → IsTidy r
    → Run (begin_session key out e r) mid us vs
    → closed_at mid.inbound mid.router ≡ some false
    → Run (come_back key mid) s xs ys
    → IsOrphan s.inbound s.router × IsSending w s
unfolding send_round
come_back-IsOrphan key out e r w {mid} {s} tidy before lasts run =
    let owned = Run-Keeps (IsOwned-IsKept key) (begun-IsOwned key r tidy) before in
    let stale =
      Run-Keeps IsOrphan-IsKept (replaced-IsOrphan key mid.router mid.inbound owned lasts) run in
    (stale, stale_waits w s (get_elem? s.router.channels s.inbound) stale.lasts)

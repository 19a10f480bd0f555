-- ===== src/Camouflage/Bridge.antt =====
-- internal/camouflage/h2_server.go: `bridge`, which copies between the body of a request, its response and
-- a tunnel until one direction ends. What a Read gives is an argument, and `io.Copy` is known by what it
-- has copied and whether it goes on.
use ghost_vpn.Base.{
  ℕ, ◌+◌, ◌-◌, ◌≤◌, ◌≡◌, refl, Bool, true, false, Option, none, some, [], ◌∷◌, ◌++◌, Bytes, length,
  ◌==◌, if◌then◌else◌, arith, ◌⊎◌, append-nil, inr, suc, inl, sym, ap, ◌∙◌, append_assoc,
}
use ghost_vpn.Io.{Error, Writer, WriterLaws}

-- The response, what `io.Copy` wrote to the tunnel, the goroutines that run, what waits on `done`, and
-- whether the tunnel was closed. `refused` is whether a Write to the response failed.
pub record Bridge (W : Type 0) : Type 0 where
  pub response : W
  pub to_tunnel : Bytes
  pub down : Bool
  pub up : Bool
  pub done : ℕ
  pub closed : Bool
  pub refused : Bool

abbrev pub begin_bridging : {W : Type 0} → W → Bridge W
begin_bridging w = record {
  response = w;
  to_tunnel = [];
  down = true;
  up = true;
  done = 0;
  closed = false;
  refused = false;
}

module _ {W : Type 0} where
  -- A goroutine ends, and sends on `done`.
  abbrev pub stop_down : Bridge W → Bridge W
  stop_down s = record s { down = false; done = s.done + 1 }

  abbrev pub stop_up : Bridge W → Bridge W
  stop_up s = record s { up = false; done = s.done + 1 }

  -- What follows the Write: the error of the Read counts only then.
  abbrev pub after_read : Option Error → Bridge W → Bridge W
  after_read none s = s
  after_read (some e) s = stop_down s

  -- The copy of the request's body goes on, or has ended.
  unfoldable pub up_round : Bytes → Bool → Bridge W → Bridge W
  up_round p goes_on s =
      let s' = record s { to_tunnel = s.to_tunnel ++ p } in if goes_on then s' else stop_up s'

  -- `<-done`, and the deferred `Close` of the tunnel.
  unfoldable pub finish : Bridge W → Bridge W
  finish s = record s { done = s.done - 1; closed = true }

module _ {W : Type 0} ⦃wr : Writer W⦄ where
  abbrev pub after_write : Option Error → W × ℕ × Option Error → Bridge W → Bridge W
  after_write e (w, n, none) s = after_read e (record s { response = w })
  after_write e (w, n, some x) s = stop_down (record s { response = w; refused = true })

  -- A round of the loop from the tunnel to the response, whose Read gave `p` and maybe an error.
  unfoldable pub down_round : Bytes → Option Error → Bridge W → Bridge W
  down_round p e s =
      if length p == 0 then after_read e s else after_write e (wr.write s.response p) s

  -- A step, with the bytes that the tunnel gave in it.
  pub data Step (s : Bridge W) : Bridge W → Bytes → Type 0 where
    downs : (p : Bytes) (e : Option Error) → s.down ≡ true → Step s (down_round p e s) p
    ups : (p : Bytes) (goes_on : Bool) → s.up ≡ true → Step s (up_round p goes_on s) []
    finishes : (n : ℕ) → s.done ≡ suc n → s.closed ≡ false → Step s (finish s) []

  pub data Run (start : Bridge W) : Bridge W → Bytes → Type 0 where
    here : Run start start []
    next :
        {s s' : Bridge W} {given p : Bytes}
        → Run start s given
        → Step s s' p
        → Run start s' (given ++ p)

abbrev one_if : Bool → ℕ
one_if true = 1
one_if false = 0

-- Every goroutine has sent on `done` once or still runs, so that `done`, of two places, has room.
pub record IsSound {W : Type 0} (sent : W → Bytes) (before given : Bytes) (s : Bridge W)
    : Type 0 where
  pub shares : s.done + one_if s.closed + one_if s.down + one_if s.up ≡ 2
  pub room : s.done ≤ 2
  pub passed : (s.refused ≡ true) ⊎ (sent s.response ≡ before ++ given)

module _ {W : Type 0} ⦃wr : Writer W⦄ {sent : W → Bytes} (laws : WriterLaws wr sent)
    (before : Bytes) where
  after_read-IsSound :
      (given : Bytes) (e : Option Error) (s : Bridge W)
      → s.down ≡ true
      → IsSound sent before given s
      → IsSound sent before given (after_read e s)
  after_read-IsSound given none s live o = o
  after_read-IsSound given (some e) s live o = record {
    shares = let all = o.shares in ground (arith, live);
    room = let all = o.shares in ground (arith, live);
    passed = o.passed;
  }

  passed_more :
      (given p : Bytes) (s : Bridge W) {w : W} {n : ℕ}
      → wr.write s.response p ≡ (w, n, none)
      → (s.refused ≡ true) ⊎ (sent s.response ≡ before ++ given)
      → (s.refused ≡ true) ⊎ (sent w ≡ before ++ (given ++ p))
  passed_more given p s q (inl refused) = inl refused
  passed_more given p s {w} q (inr all) = inr (
      ap sent (sym (ap (λ r. r.0) q))
      ∙ (laws.writes_all s.response p (ap (λ r. r.2) q)).0
      ∙ ap (λ zs. zs ++ p) all
      ∙ append_assoc before given p)

  after_write-IsSound :
      (given p : Bytes) (e : Option Error) (s : Bridge W)
      → s.down ≡ true
      → IsSound sent before given s
      → (r : W × ℕ × Option Error) → wr.write s.response p ≡ r
      → IsSound sent before (given ++ p) (after_write e r s)
  after_write-IsSound given p e s live o (w, n, none) q =
      after_read-IsSound (given ++ p) e (record s { response = w }) live
        (record { shares = o.shares; room = o.room; passed = passed_more given p s q o.passed })
  after_write-IsSound given p e s live o (w, n, some x) q = record {
    shares = let all = o.shares in ground (arith, live);
    room = let all = o.shares in ground (arith, live);
    passed = inl refl;
  }

  down_round-IsSound :
      (given p : Bytes) (e : Option Error) (s : Bridge W)
      → s.down ≡ true
      → IsSound sent before given s
      → IsSound sent before (given ++ p) (down_round p e s)
  unfolding down_round
  down_round-IsSound given [] e s live o = rw append-nil (after_read-IsSound given e s live o)
  down_round-IsSound given (b ∷ bs) e s live o =
      let some_bytes : length (b ∷ bs) == 0 ≡ false = ground arith in
      rw some_bytes
        (after_write-IsSound given (b ∷ bs) e s live o (wr.write s.response (b ∷ bs)) refl)

  up_round-IsSound :
      (given p : Bytes) (goes_on : Bool) (s : Bridge W)
      → s.up ≡ true
      → IsSound sent before given s
      → IsSound sent before (given ++ []) (up_round p goes_on s)
  unfolding up_round
  up_round-IsSound given p true s live o =
      rw append-nil (record { shares = o.shares; room = o.room; passed = o.passed })
  up_round-IsSound given p false s live o = rw append-nil (record {
    shares = let all = o.shares in ground (arith, live);
    room = let all = o.shares in ground (arith, live);
    passed = o.passed;
  })

  step-IsSound :
      {s s' : Bridge W} {given p : Bytes}
      → Step s s' p
      → IsSound sent before given s
      → IsSound sent before (given ++ p) s'
  unfolding finish
  step-IsSound {s} {given = given} (downs p e live) o = down_round-IsSound given p e s live o
  step-IsSound {s} {given = given} (ups p goes_on live) o =
      up_round-IsSound given p goes_on s live o
  step-IsSound {s} (finishes n q open_yet) o = rw append-nil (record {
    shares = let all = o.shares in ground (arith, q, open_yet);
    room = let few = o.room in omega (arith, few);
    passed = o.passed;
  })

-- However the two copies and the handler take turns: unless a Write to the response failed, the response
-- has got all that the tunnel gave, in order, what came with the tunnel's last error too; each copy sends
-- on `done` once, so that it never waits for room there; and the tunnel is closed only once one of the
-- copies has ended.
pub Run-IsSound :
    {W : Type 0} ⦃wr : Writer W⦄ {sent : W → Bytes} (laws : WriterLaws wr sent) (w : W)
    {s : Bridge W} {given : Bytes}
    → Run (begin_bridging w) s given
    → IsSound sent (sent w) given s
Run-IsSound {sent = sent} laws w here = record {
  shares = refl;
  room = omega arith;
  passed = inr (sym (append-nil (sent w)));
}
Run-IsSound {sent = sent} laws w (next run step) =
    step-IsSound laws (sent w) step (Run-IsSound laws w run)

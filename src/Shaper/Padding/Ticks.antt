-- ===== src/Shaper/Padding/Ticks.antt =====
-- internal/shaper/shaper.go: what a tick of the padding loop does.
use ghost_vpn.Base.{
  ℕ, ap₂, subst, not, ◌&&◌, zero, suc, ◌+◌, ◌-◌, ◌<◌, ◌^◌, ◌≡◌, refl, sym, ap, ◌∙◌, inl, inr, Bool,
  true, false, Bool-cases, Option, none, Option-cases, Bytes, ltb, ◌==◌, arith,
}
use ghost_vpn.Io.{pos, Error, Result, Writer}
use ghost_vpn.Mux.Conn.{send_padding}
use ghost_vpn.Shaper.Asymmetry.{
  Floats, Enforcer, record_up, record_down, padding_needed, missing_down, missing_up,
}
use ghost_vpn.Shaper.Padding.{Shaper, chunk_of, recorded, send_chunks, padding_tick}

-- The part of the padding that goes down: all of it or nothing.
abbrev pub share : Bool → ℕ → ℕ
share true pad = pad
share false pad = 0

share-minus : (dir : Bool) (pad chunk : ℕ) → share dir pad - chunk ≡ share dir (pad - chunk)
share-minus true pad chunk = refl
share-minus false pad chunk = omega arith

share-positive : (dir : Bool) (pad : ℕ) → 0 < pad → ltb 0 (share dir pad) ≡ dir
share-positive true pad h = ground arith
share-positive false pad h = refl

share-total : (dir : Bool) (pad : ℕ) → share dir pad + share (not dir) pad ≡ pad
share-total true pad = omega arith
share-total false pad = omega arith

-- Padding is needed in one direction at most, and in none while nothing was recorded up.
padding_needed-one_way :
    {F : Type 0} (fl : Floats F) (tolerance : F) (a : Enforcer F)
    → (dir : Bool) × (pad : ℕ) × (padding_needed fl tolerance a
        ≡ (share dir pad, share (not dir) pad))
      × ((a.up_bytes == 0) && not (pad == 0) ≡ false)
unfolding padding_needed
padding_needed-one_way fl tolerance a =
    let ratio = fl.div (fl.of_int a.down_bytes) (fl.of_int a.up_bytes) in
    let low = fl.mul a.target_ratio (fl.sub (fl.of_int 1) tolerance) in
    let high = fl.mul a.target_ratio (fl.add (fl.of_int 1) tolerance) in
    elim (Bool-cases (a.up_bytes == 0)) [
      | inl q ↦ (true, 0, ground arith, ground arith)
      | inr q ↦ elim (Bool-cases (fl.less_or_equal low ratio && fl.less_or_equal ratio high)) [
        | inl inside ↦ (true, 0, ground arith, ground arith)
        | inr outside ↦ elim (Bool-cases (fl.less ratio low)) [
          | inl below ↦ (
            true,
            missing_down fl a.target_ratio a.up_bytes a.down_bytes,
            ground arith,
            ground arith,
          )
          | inr above ↦ (
            false,
            missing_up fl a.target_ratio a.up_bytes a.down_bytes,
            ground arith,
            ground arith,
          )
        ]
      ]
    ]

module _ {F : Type 0} where
  abbrev pub counted : Bool → ℕ → Enforcer F → Enforcer F
  counted true n a = record_down n a
  counted false n a = record_up n a

  pub record InRange (a : Enforcer F) : Type 0 where
    pub up : a.up_bytes < 2 ^ 64
    pub down : a.down_bytes < 2 ^ 64

  counted-InRange : (dir : Bool) (n : ℕ) (a : Enforcer F) → InRange a → InRange (counted dir n a)
  unfolding record_down record_up
  counted-InRange true n a r = record { up = r.up; down = omega arith }
  counted-InRange false n a r = record { up = omega arith; down = r.down }

  counted-zero : (dir : Bool) (a : Enforcer F) → InRange a → a ≡ counted dir 0 a
  unfolding record_down record_up
  counted-zero true a r = ground (arith, r.down)
  counted-zero false a r = ground (arith, r.up)

  counted-counted :
      (dir : Bool) (n m : ℕ) (a : Enforcer F)
      → counted dir m (counted dir n a) ≡ counted dir (n + m) a
  unfolding record_down record_up
  counted-counted true n m a = ground arith
  counted-counted false n m a = ground arith

module _ {F W : Type 0} ⦃wr : Writer W⦄ where
  recorded-counted :
      (dir : Bool) (n : ℕ) (s : Shaper F W) → (recorded dir n s).asym ≡ counted dir n s.asym
  recorded-counted true n s = refl
  recorded-counted false n s = refl

  send_chunks-step :
      (fuel : ℕ) (random : ℕ → Result Bytes) (down pad : ℕ) (s s' : Shaper F W)
      → 0 < pad
      → send_chunks (suc fuel) random down pad s ≡ (s', none)
      → send_chunks fuel random (down - chunk_of pad) (pad - chunk_of pad) (
          recorded
            (ltb 0 down)
            (chunk_of pad)
            (record s { conn = (send_padding random (pos (chunk_of pad)) s.conn).0 }))
        ≡ (s', none)
  unfolding send_chunks
  send_chunks-step fuel random down pad s s' positive h =
      elim (Option-cases (send_padding random (pos (chunk_of pad)) s.conn).1) [
        | inl sent ↦ ground arith
        | inr (x, failed) ↦ absurd (ground arith)
      ]

  send_chunks-nothing :
      (fuel : ℕ) (random : ℕ → Result Bytes) (down : ℕ) (s s' : Shaper F W)
      → send_chunks (suc fuel) random down 0 s ≡ (s', none)
      → s ≡ s'
  unfolding send_chunks
  send_chunks-nothing fuel random down s s' h = ap (λ (x : Shaper F W × Option Error). x.0) h

  abbrev after_chunk : (ℕ → Result Bytes) → ℕ → Shaper F W → Shaper F W
  after_chunk random pad s = record s { conn = (send_padding random (pos (chunk_of pad)) s.conn).0 }

  -- Enough fuel sends and records all of the padding, if no send fails.
  send_chunks-counted :
      (dir : Bool) (fuel : ℕ) (random : ℕ → Result Bytes) (pad : ℕ) (s s' : Shaper F W)
      → pad < fuel
      → InRange s.asym
      → send_chunks fuel random (share dir pad) pad s ≡ (s', none)
      → s'.asym ≡ counted dir pad s.asym
  send_chunks-counted dir zero random pad s s' enough r h = absurd (omega arith)
  send_chunks-counted dir (suc fuel) random zero s s' enough r h =
      ap (λ (x : Shaper F W). x.asym) (sym (send_chunks-nothing fuel random (share dir 0) s s' h))
      ∙ counted-zero dir s.asym r
  send_chunks-counted dir (suc fuel) random (suc p) s s' enough r h =
      let pad : ℕ = suc p in
      let chunk : ℕ = chunk_of pad in
      let s0 : Shaper F W = after_chunk random pad s in
      let step = send_chunks-step fuel random (share dir pad) pad s s' (omega arith) h in
      let same : send_chunks fuel random (share dir (pad - chunk)) (pad - chunk)
            (recorded dir chunk s0)
          ≡ (s', none) =
        ap₂ (λ (a : ℕ) (b : Bool). send_chunks fuel random a (pad - chunk) (recorded b chunk s0))
          (sym (share-minus dir pad chunk)) (sym (share-positive dir pad (omega arith)))
        ∙ step in
      let again =
        send_chunks-counted dir fuel random (pad - chunk) (recorded dir chunk s0) s' (ground arith)
          (subst InRange (sym (recorded-counted dir chunk s0)) (counted-InRange dir chunk s.asym r))
          same in
      let all : chunk + (pad - chunk) ≡ pad = ground arith in
      again
      ∙ ap (counted dir (pad - chunk)) (recorded-counted dir chunk s0)
      ∙ counted-counted dir chunk (pad - chunk) s.asym
      ∙ ap (λ (k : ℕ). counted dir k s.asym) all

  -- Over counters that fit 64 bits, a tick whose sends succeed has recorded what was needed, in the
  -- direction in which it was; and if nothing was recorded up so far, nothing was needed.
  pub padding_tick-counted :
      (fl : Floats F) (tolerance : F) (random : ℕ → Result Bytes) (s s' : Shaper F W)
      → InRange s.asym
      → padding_tick fl tolerance random s ≡ (s', none)
      → (dir : Bool) × (pad : ℕ) × (padding_needed fl tolerance s.asym
          ≡ (share dir pad, share (not dir) pad))
        × (s'.asym ≡ counted dir pad s.asym)
        × ((s.asym.up_bytes == 0) && not (pad == 0) ≡ false)
  unfolding padding_tick
  padding_tick-counted fl tolerance random s s' r h =
      let (dir, pad, needed, quiet) = padding_needed-one_way fl tolerance s.asym in
      let both : share dir pad + share (not dir) pad ≡ pad = share-total dir pad in
      let sent : send_chunks (suc pad) random (share dir pad) pad s ≡ (s', none) =
        ap (λ (k : ℕ). send_chunks (suc k) random (share dir pad) k s) (sym both)
        ∙ ap (λ (p : ℕ × ℕ). send_chunks (suc (p.0 + p.1)) random p.0 (p.0 + p.1) s) (sym needed)
        ∙ h in
      (
        dir,
        pad,
        needed,
        send_chunks-counted dir (suc pad) random pad s s' (omega arith) r sent,
        quiet,
      )

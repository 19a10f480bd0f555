-- ===== src/Auth/Replay/Refine.antt =====
-- internal/auth/replay.go: the window answers as the whole history of nonces would.
use ghost_vpn.Base.{
  ℕ, zero, suc, ◌+◌, ◌-◌, ◌*◌, ◌^◌, ◌≤◌, ◌<◌, ◌≡◌, refl, sym, ap, ◌∙◌, inl, inr, Bool, true, false,
  not, ◌&&◌, ◌||◌, List, [], ◌∷◌, bit_or, max, ltb, ◌==◌, if◌then◌else◌, Bool-cases, arith, ap₂,
  subst,
}
use ghost_vpn.Base.Bits.{
  digit, digit-mod, digit-shift, bit_or-pow, bit_and-pow, bit_or-lt, pow_mono, digit-zero,
}
use native.Mathlib.Nat.{mod-eq_of_lt}
use ghost_vpn.Auth.Replay.{ReplayWindow, window_size, shl, reset, advance, look_back, mark}

abbrev pub member : ℕ → List ℕ → Bool
member n [] = false
member n (x ∷ xs) = n == x || member n xs

abbrev pub highest : List ℕ → ℕ
highest [] = 0
highest (x ∷ xs) = max x (highest xs)

-- The specification, over the nonces accepted so far: a nonce is fresh if it was not accepted
-- before and lies less than 64 below the highest.
abbrev pub fresh : List ℕ → ℕ → Bool
fresh seen n = not (member n seen) && ltb (highest seen) (n + window_size)

abbrev pub record_fresh : List ℕ → ℕ → List ℕ
record_fresh seen n = if fresh seen n then n ∷ seen else seen

abbrev pub bit : Bool → ℕ
bit true = 1
bit false = 0

-- What a window in use knows of the history.
pub record Tracks (w : ReplayWindow) (seen : List ℕ) : Type 0 where
  pub head_is : w.head ≡ highest seen
  pub head_seen : member w.head seen ≡ true
  pub bits :
      (i : ℕ) → i < window_size → i ≤ w.head → digit w.bitmap i ≡ bit (member (w.head - i) seen)
  pub word : w.bitmap < 2 ^ 64

-- A window tracks a history; one that is not in use tracks the empty history.
abbrev pub Represents : Bool → ReplayWindow → List ℕ → Type 0
Represents false w seen = seen ≡ []
Represents true w seen = Tracks w seen

member_at : (seen : List ℕ) (a b : ℕ) → a ≡ b → member a seen ≡ member b seen
member_at seen a b e = ap (λ (k : ℕ). member k seen) e

not-member_above : (seen : List ℕ) (n : ℕ) → highest seen < n → member n seen ≡ false
not-member_above [] n h = refl
not-member_above (x ∷ xs) n h = ground (arith, not-member_above xs n (omega arith))

shl_bits : (b s i : ℕ) → i < 64 → digit (shl b s) i ≡ (if ltb i s then 0 else digit b (i - s))
unfolding shl
shl_bits b s i h = digit-mod 64 i (b * 2 ^ s) h ∙ digit-shift s i b

shl-lt : (b s : ℕ) → shl b s < 2 ^ 64
unfolding shl
shl-lt b s = omega arith

shl_one : (d : ℕ) → d < 64 → shl 1 d ≡ 2 ^ d
unfolding shl
shl_one d h = omega (arith, mod-eq_of_lt (pow_mono d 64 h))

digit-one : (i : ℕ) → digit 1 i ≡ (if i == 0 then 1 else 0)
digit-one zero = refl
digit-one (suc i) = ground (arith, digit-zero i)

first-Tracks : (n : ℕ) → Tracks (record { head = n; bitmap = 1; has_any = true }) (n ∷ [])
first-Tracks n = record {
  head_is = omega arith;
  head_seen = ground arith;
  bits = λ i h le. ground (arith, digit-one i);
  word = omega arith;
}

advance-Tracks :
    (w : ReplayWindow) (seen : List ℕ) (n : ℕ)
    → Tracks w seen
    → w.head < n
    → Tracks (advance w n) (n ∷ seen)
unfolding advance
advance-Tracks w seen n t h = record {
  head_is = omega (arith, t.head_is);
  head_seen = ground arith;
  bits = λ i below le.
      let s = n - w.head in
      ground (
        arith,
        digit-one i,
        bit_or-pow 0 i (shl w.bitmap s),
        shl_bits w.bitmap s i below,
        t.head_is,
        t.bits (i - s),
        not-member_above seen (n - i),
        member_at seen (w.head - (i - s)) (n - i),
      );
  word = ground (arith, bit_or-lt 64 (shl w.bitmap (n - w.head)) 1, shl-lt w.bitmap (n - w.head));
}

-- At or below the head: the answer, and the window that follows.
look_back-fresh :
    (w : ReplayWindow) (seen : List ℕ) (n : ℕ)
    → Tracks w seen
    → n ≤ w.head
    → (look_back w n).1 ≡ fresh seen n
unfolding look_back
look_back-fresh w seen n t h =
    let d = w.head - n in
    ground
      (arith, shl_one d, bit_and-pow d w.bitmap, t.head_is, t.bits d, member_at seen (w.head - d) n)

look_back_refused : (w : ReplayWindow) (n : ℕ) → (look_back w n).1 ≡ false → (look_back w n).0 ≡ w
unfolding look_back
look_back_refused w n h = ground arith

look_back_accepted :
    (w : ReplayWindow) (n : ℕ)
    → (look_back w n).1 ≡ true
    → (look_back w n).0 ≡ record w { bitmap = bit_or w.bitmap (shl 1 (w.head - n)) }
unfolding look_back
look_back_accepted w n h = ground arith

look_back_set :
    (w : ReplayWindow) (seen : List ℕ) (n : ℕ)
    → Tracks w seen
    → n ≤ w.head
    → fresh seen n ≡ true
    → Tracks (record w { bitmap = bit_or w.bitmap (shl 1 (w.head - n)) }) (n ∷ seen)
look_back_set w seen n t h new =
    let d = w.head - n in
    let near : d < 64 = ground (arith, t.head_is) in
    rw (shl_one d near) (record {
      head_is = omega (arith, t.head_is);
      head_seen = ground (arith, t.head_seen);
      bits = λ i below le.
          ground (arith, bit_or-pow d i w.bitmap, t.bits i, member_at seen (w.head - i) n);
      word = bit_or-lt 64 w.bitmap (2 ^ d) t.word (pow_mono d 64 near);
    })

look_back-Tracks :
    (w : ReplayWindow) (seen : List ℕ) (n : ℕ)
    → Tracks w seen
    → n ≤ w.head
    → Tracks (look_back w n).0 (record_fresh seen n)
look_back-Tracks w seen n t h = elim (Bool-cases (fresh seen n)) [
  | inl new ↦
      rw (new, if◌then◌else◌)
        (rw (look_back_accepted w n (look_back-fresh w seen n t h ∙ new))
          (look_back_set w seen n t h new))
  | inr old ↦
      rw (old, if◌then◌else◌) (rw (look_back_refused w n (look_back-fresh w seen n t h ∙ old)) t)
]

-- The answer is the specification's, and the window that follows tracks what follows.
abbrev pub Answers : ReplayWindow × Bool → List ℕ → ℕ → Type 0
Answers r seen n = (r.1 ≡ fresh seen n) × Represents r.0.has_any r.0 (record_fresh seen n)

used :
    (w : ReplayWindow) (seen : List ℕ)
    → w.has_any ≡ true
    → Tracks w seen
    → Represents w.has_any w seen
used w seen p t = subst (λ (b : Bool). Represents b w seen) (sym p) t

advance_used : (w : ReplayWindow) (n : ℕ) → (advance w n).has_any ≡ w.has_any
unfolding advance
advance_used w n = refl

look_back_used : (w : ReplayWindow) (n : ℕ) → (look_back w n).0.has_any ≡ w.has_any
unfolding look_back
look_back_used w n = ground arith

-- Every answer of `Mark` is that of the specification, and the window goes on tracking the history.
pub mark_refines :
    (w : ReplayWindow) (seen : List ℕ) (n : ℕ)
    → Represents w.has_any w seen
    → Answers (mark w n) seen n
unfolding mark
mark_refines w seen n r = split w.has_any refl r
  where
    split : (b : Bool) → w.has_any ≡ b → Represents b w seen → Answers (mark w n) seen n
    split false p e =
        let is : mark w n ≡ (record { head = n; bitmap = 1; has_any = true }, true) = simp p in
        let new : fresh [] n ≡ true = ground arith in
        rw (is, e) (rw (new, if◌then◌else◌) (refl, first-Tracks n))
    split true p t = elim (Bool-cases (ltb w.head n)) [
      | inl above ↦
          let is : mark w n ≡ (advance w n, true) = simp (p, above) in
          let new : fresh seen n ≡ true = ground (arith, t.head_is, not-member_above seen n) in
          rw (is, new, if◌then◌else◌)
            (refl, used _ _ (advance_used w n ∙ p) (advance-Tracks w seen n t (ground arith)))
      | inr below ↦
          let is : mark w n ≡ look_back w n = simp (p, below) in
          rw is (
            look_back-fresh w seen n t (ground arith),
            used _ _ (look_back_used w n ∙ p) (look_back-Tracks w seen n t (ground arith)),
          )
    ]

-- A run of `Mark` over nonces in any order, and the answers that the specification gives.
pub marks : ReplayWindow → List ℕ → List Bool
marks w [] = []
marks w (n ∷ ns) = let (w', answer) = mark w n in answer ∷ marks w' ns

abbrev pub answers : List ℕ → List ℕ → List Bool
answers seen [] = []
answers seen (n ∷ ns) = fresh seen n ∷ answers (record_fresh seen n) ns

marks_refine :
    (ns : List ℕ) (w : ReplayWindow) (seen : List ℕ)
    → Represents w.has_any w seen
    → marks w ns ≡ answers seen ns
unfolding marks
marks_refine [] w seen r = refl
marks_refine (n ∷ ns) w seen r =
    let step = mark_refines w seen n r in
    ap₂ ◌∷◌ step.0 (marks_refine ns (mark w n).0 (record_fresh seen n) step.1)

-- From the zero value, whatever nonces arrive in whatever order, `Mark` accepts exactly those that
-- were not accepted before and lie less than 64 below the highest accepted one.
pub marks-answers : (ns : List ℕ) → marks reset ns ≡ answers [] ns
marks-answers ns = marks_refine ns reset [] refl

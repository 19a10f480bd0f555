-- ===== src/Shaper/Distribution.antt =====
-- internal/shaper/distribution.go, with the histograms of internal/profile/profile.go: drawing a value.
-- What the generator returns is an argument of the draw; none is an index out of range, which panics.
use ghost_vpn.Base.{
  ℕ, zero, suc, ◌+◌, ◌-◌, ◌<◌, ◌≡◌, refl, ap, inl, inr, Bool, Bool-cases, ◌&&◌, Option, none, some,
  List, [], ◌∷◌, length, get_elem?, ltb, ◌==◌, if◌then◌else◌, arith,
}
use ghost_vpn.Io.{ℤ}
use ghost_vpn.Shaper.Asymmetry.{Floats}

-- `Bin`, of a `Histogram`
pub record Bin (F : Type 0) : Type 0 where
  pub v : F
  pub w : F

pub record Sampler (F : Type 0) : Type 0 where
  pub bins : List (Bin F)
  pub cumul : List F
  pub total : F
  pub jitter : Bool

module _ {F : Type 0} (fl : Floats F) where
  -- The sums of the weights so far, and the last of them.
  abbrev pub sums : F → List (Bin F) → List F
  sums total [] = []
  sums total (b ∷ bs) = fl.add total b.w ∷ sums (fl.add total b.w) bs

  abbrev pub sum_of : F → List (Bin F) → F
  sum_of total [] = total
  sum_of total (b ∷ bs) = sum_of (fl.add total b.w) bs

  -- `NewSampler`
  unfoldable pub new_sampler : List (Bin F) → Bool → Sampler F
  new_sampler bins jitter = record {
    bins = bins;
    cumul = sums (fl.of_int 0) bins;
    total = sum_of (fl.of_int 0) bins;
    jitter = jitter;
  }

  -- The first threshold that is not below `r`, and 0 where there is none.
  abbrev pub index_of : F → ℕ → List F → ℕ
  index_of r i [] = 0
  index_of r i (c ∷ cs) =
      let rest = index_of r (i + 1) cs in if fl.less_or_equal r c then i else rest

  -- `(bins[hi].V - bins[lo].V) / n`
  abbrev pub width_between : ℕ → Option (Bin F) → Option (Bin F) → Option F
  width_between n none lo = none
  width_between n (some hi) none = none
  width_between n (some hi) (some lo) = some (fl.div (fl.sub hi.v lo.v) (fl.of_int n))

  abbrev pub half_width : List (Bin F) → ℕ → Option F
  half_width bins idx =
      if idx == 0
      then width_between 2 (get_elem? bins 1) (get_elem? bins 0)
      else if idx == length bins - 1
      then width_between 2 (get_elem? bins idx) (get_elem? bins (idx - 1))
      else width_between 4 (get_elem? bins (idx + 1)) (get_elem? bins (idx - 1))

  abbrev pub jittered : F → F → Option F → Option F
  jittered draw v none = none
  jittered draw v (some half) =
      let moved = fl.add v (fl.mul (fl.sub (fl.mul draw (fl.of_int 2)) (fl.of_int 1)) half) in
      some (if fl.less moved (fl.of_int 0) then fl.of_int 0 else moved)

  abbrev pub value_at : F → Sampler F → ℕ → Option (Bin F) → Option F
  value_at draw s idx none = none
  value_at draw s idx (some b) =
      if s.jitter && ltb 1 (length s.bins)
      then jittered draw b.v (half_width s.bins idx)
      else some b.v

  -- `Sample`, with what the generator draws first and second.
  unfoldable pub sample : F → F → Sampler F → Option F
  sample first second s =
      let idx = index_of (fl.mul first s.total) 0 s.cumul in
      if length s.bins == 0
      then some (fl.of_int 0)
      else value_at second s idx (get_elem? s.bins idx)

  -- `SampleInt`
  abbrev pub rounded : Option F → Option ℤ
  rounded none = none
  rounded (some x) = some (fl.to_int (fl.add x (fl.div (fl.of_int 1) (fl.of_int 2))))

  unfoldable pub sample_int : F → F → Sampler F → Option ℤ
  sample_int first second s = rounded (sample first second s)

  length-sums : (total : F) (bins : List (Bin F)) → length (sums total bins) ≡ length bins
  length-sums total [] = refl
  length-sums total (b ∷ bs) = ap suc (length-sums (fl.add total b.w) bs)

  index_of-below : (r : F) (i n : ℕ) (cs : List F) → i + length cs ≡ n → 0 < n → index_of r i cs < n
  index_of-below r i n [] h positive = positive
  index_of-below r i n (c ∷ cs) h positive = elim (Bool-cases (fl.less_or_equal r c)) [
    | inl q ↦ ground arith
    | inr q ↦ rw q (index_of-below r (i + 1) n cs (omega arith) positive)
  ]

present : {A : Type 0} (xs : List A) (i : ℕ) → i < length xs → (x : A) × (get_elem? xs i ≡ some x)
present [] i h = absurd (omega arith)
present (x ∷ xs) zero h = (x, refl)
present (x ∷ xs) (suc i) h = present xs i (omega arith)

module _ {F : Type 0} (fl : Floats F) where
  width-present :
      (n hi lo : ℕ) (bins : List (Bin F))
      → hi < length bins
      → lo < length bins
      → (x : F) × (width_between fl n (get_elem? bins hi) (get_elem? bins lo) ≡ some x)
  width-present n hi lo bins above below =
      let (a, p) = present bins hi above in
      let (b, q) = present bins lo below in (fl.div (fl.sub a.v b.v) (fl.of_int n), rw (p, q) refl)

  half_width-present :
      (bins : List (Bin F)) (idx : ℕ)
      → idx < length bins
      → 1 < length bins
      → (x : F) × (half_width fl bins idx ≡ some x)
  half_width-present bins idx below many = elim (Bool-cases (idx == 0)) [
    | inl q ↦ let (x, p) = width-present 2 1 0 bins many (omega arith) in (x, ground (arith, p))
    | inr q ↦ elim (Bool-cases (idx == length bins - 1)) [
      | inl q' ↦
          let (x, p) = width-present 2 idx (idx - 1) bins below (omega arith) in
          (x, ground (arith, p))
      | inr q' ↦
          let (x, p) = width-present 4 (idx + 1) (idx - 1) bins (ground arith) (omega arith) in
          (x, ground (arith, p))
    ]
  ]

  value_at-present :
      (draw : F) (s : Sampler F) (idx : ℕ)
      → idx < length s.bins
      → (x : F) × (value_at fl draw s idx (get_elem? s.bins idx) ≡ some x)
  value_at-present draw s idx below =
      let (b, p) = present s.bins idx below in
      elim (Bool-cases (s.jitter && ltb 1 (length s.bins))) [
        | inl q ↦
            let (half, h) = half_width-present s.bins idx below (ground arith) in
            let moved : F =
              fl.add b.v (fl.mul (fl.sub (fl.mul draw (fl.of_int 2)) (fl.of_int 1)) half) in
            (if fl.less moved (fl.of_int 0) then fl.of_int 0 else moved, rw (p, q, h) refl)
        | inr q ↦ (b.v, rw (p, q) refl)
      ]

  -- Whatever the histogram and whatever the generator draws, a draw gives a value: no index that it
  -- looks up, of a bin or of its neighbours, is out of range.
  pub sample_total :
      (bins : List (Bin F)) (jitter : Bool) (first second : F)
      → (x : F) × (sample fl first second (new_sampler fl bins jitter) ≡ some x)
  unfolding sample new_sampler
  sample_total bins jitter first second = elim (Bool-cases (length bins == 0)) [
    | inl q ↦ (fl.of_int 0, rw q refl)
    | inr q ↦
        let s = new_sampler fl bins jitter in
        let below =
          index_of-below fl (fl.mul first s.total) 0 (length bins) s.cumul
            (omega (arith, length-sums fl (fl.of_int 0) bins)) (ground arith) in
        let (x, p) =
          value_at-present second s (index_of fl (fl.mul first s.total) 0 s.cumul) below in
        (x, rw q p)
  ]

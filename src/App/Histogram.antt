-- ===== src/App/Histogram.antt =====
-- app/src/webrtc/shared.cpp: `RecordLatency` and `LatencyPercentile95` on ten buckets. The counts
-- are `uint64_t` in the source and do not wrap here: `total * 95` does not reach 2^64 below 10^17
-- samples.
use mathlib.Core.Path.{subst, sym}
use booster_nx.Common.{
  ℕ, ◌+◌, ◌*◌, ◌/◌, ◌≤◌, ◌<◌, ◌≡◌, refl, true, false, List, [], ◌∷◌, length, ltb, leb, ◌==◌, arith,
  Bool-cases, inl, inr, if◌then◌else◌,
}

-- `kVideoLatencyThresholdsUs`.
abbrev pub thresholds : List ℕ
thresholds = 1000 ∷ 2000 ∷ 4000 ∷ 8000 ∷ 12000 ∷ 16000 ∷ 24000 ∷ 33000 ∷ 50000 ∷ []

-- The loop over the thresholds that are left, on the buckets that are left; the last bucket has no
-- threshold.
unfoldable pub record_latency_from : List ℕ → List ℕ → ℕ → List ℕ
record_latency_from ts [] latency = []
record_latency_from [] (b ∷ bs) latency = (b + 1) ∷ bs
record_latency_from (t ∷ ts) (b ∷ bs) latency =
    let rest = record_latency_from ts bs latency in if ltb t latency then b ∷ rest else (b + 1) ∷ bs

abbrev pub record_latency : List ℕ → ℕ → List ℕ
record_latency buckets latency = record_latency_from thresholds buckets latency

abbrev pub total : List ℕ → ℕ
total [] = 0
total (b ∷ bs) = b + total bs

-- The second loop, from some bucket on.
unfoldable pub percentile_from : List ℕ → List ℕ → ℕ → ℕ → ℕ
percentile_from ts [] accumulated target = 50001
percentile_from [] (b ∷ bs) accumulated target = 50001
percentile_from (t ∷ ts) (b ∷ bs) accumulated target =
    let rest = percentile_from ts bs (accumulated + b) target in
    if leb target (accumulated + b) then t else rest

abbrev pub target_count : ℕ → ℕ
target_count n = (n * 95 + 99) / 100

unfoldable pub latency_percentile_95 : List ℕ → ℕ
latency_percentile_95 buckets =
    if total buckets == 0
    then 0
    else percentile_from thresholds buckets 0 (target_count (total buckets))

-- The samples in the buckets up to the one of a threshold.
abbrev pub within : ℕ → List ℕ → List ℕ → ℕ
within bound ts [] = 0
within bound [] (b ∷ bs) = 0
within bound (t ∷ ts) (b ∷ bs) = (if leb t bound then b else 0) + within bound ts bs

-- Every sample is counted once.
pub record_latency-total :
    (ts buckets : List ℕ) (latency : ℕ)
    → length ts + 1 ≡ length buckets
    → total (record_latency_from ts buckets latency) ≡ total buckets + 1
unfolding record_latency_from
record_latency-total ts [] latency h = absurd (omega (arith, h))
record_latency-total [] (b ∷ bs) latency h = omega arith
record_latency-total (t ∷ ts) (b ∷ bs) latency h =
    ground (arith, record_latency-total ts bs latency (omega (arith, h)))

-- Sorted, and all between a bound and 50001.
abbrev pub AreAbove : ℕ → List ℕ → Type 0
AreAbove low [] = Unit {0}
AreAbove low (t ∷ ts) = (low < t) × (t < 50001) × AreAbove t ts

percentile_from-above :
    (ts buckets : List ℕ) (low accumulated target : ℕ)
    → AreAbove low ts
    → low < 50001
    → low < percentile_from ts buckets accumulated target
unfolding percentile_from
percentile_from-above ts [] low accumulated target h small = omega (arith, small)
percentile_from-above [] (b ∷ bs) low accumulated target h small = omega (arith, small)
percentile_from-above (t ∷ ts) (b ∷ bs) low accumulated target h small =
    ground (arith, h.0, h.1, percentile_from-above ts bs t (accumulated + b) target h.2 h.1)

-- Below a threshold that is found, the target is reached.
percentile_from-reaches :
    (ts buckets : List ℕ) (low accumulated target : ℕ)
    → AreAbove low ts
    → percentile_from ts buckets accumulated target < 50001
    → target ≤ accumulated + within (percentile_from ts buckets accumulated target) ts buckets
unfolding percentile_from
percentile_from-reaches ts [] low accumulated target h small = absurd (omega (arith, small))
percentile_from-reaches [] (b ∷ bs) low accumulated target h small = absurd (omega (arith, small))
percentile_from-reaches (t ∷ ts) (b ∷ bs) low accumulated target h small =
    elim (Bool-cases (leb target (accumulated + b))) [
      | inl e ↦
          subst (λ p. target ≤ accumulated + within p (t ∷ ts) (b ∷ bs)) (sym (found e))
            (ground (arith, e))
      | inr e ↦
          subst (λ p. target ≤ accumulated + within p (t ∷ ts) (b ∷ bs)) (sym (later e))
            (ground (
              arith,
              percentile_from-reaches ts bs t (accumulated + b) target h.2
                  (subst (λ p. p < 50001) (later e) small),
              percentile_from-above ts bs t (accumulated + b) target h.2 h.1,
            ))
    ]
  where
    found :
        leb target (accumulated + b) ≡ true
        → percentile_from (t ∷ ts) (b ∷ bs) accumulated target ≡ t
    found e = rw e refl

    later :
        leb target (accumulated + b) ≡ false
        → percentile_from (t ∷ ts) (b ∷ bs) accumulated target
          ≡ percentile_from ts bs (accumulated + b) target
    later e = rw e refl

within-below :
    (ts buckets : List ℕ) (low bound : ℕ)
    → AreAbove low ts
    → bound ≤ low
    → within bound ts buckets ≡ 0
within-below ts [] low bound h le = refl
within-below [] (b ∷ bs) low bound h le = refl
within-below (t ∷ ts) (b ∷ bs) low bound h le =
    ground (arith, h.0, within-below ts bs t bound h.2 (omega (arith, h.0)))

-- Below every smaller bound, it is not.
percentile_from-least :
    (ts buckets : List ℕ) (low accumulated target bound : ℕ)
    → AreAbove low ts
    → accumulated < target
    → bound < percentile_from ts buckets accumulated target
    → length ts + 1 ≡ length buckets
    → bound < 50001
    → accumulated + within bound ts buckets < target
unfolding percentile_from
percentile_from-least ts [] low accumulated target bound h lt small n cap = omega (arith, lt)
percentile_from-least [] (b ∷ bs) low accumulated target bound h lt small n cap = omega (arith, lt)
percentile_from-least (t ∷ ts) (b ∷ bs) low accumulated target bound h lt small n cap =
    elim (Bool-cases (ltb bound t)) [
      | inl below ↦
          ground (arith, below, lt, within-below ts bs t bound h.2 (ground (arith, below)))
      | inr reached ↦ elim (Bool-cases (leb target (accumulated + b))) [
        | inl e ↦ absurd (ground (arith, reached, e, small))
        | inr e ↦ ground (
          arith,
          reached,
          percentile_from-least ts bs t (accumulated + b) target bound h.2 (ground (arith, e))
              (rw e at small) (omega (arith, n)) cap,
        )
      ]
    ]

thresholds-AreAbove : AreAbove 0 thresholds
thresholds-AreAbove = (
  omega arith,
  omega arith,
  (
    omega arith,
    omega arith,
    (
      omega arith,
      omega arith,
      (
        omega arith,
        omega arith,
        (
          omega arith,
          omega arith,
          (
            omega arith,
            omega arith,
            (omega arith, omega arith, (omega arith, omega arith, (omega arith, omega arith, tt))),
          ),
        ),
      ),
    ),
  ),
)

-- With ten buckets that hold a sample: when the 95th percentile is one of the thresholds, at least 95
-- of 100 samples lie in the buckets up to it, and fewer in the buckets up to any smaller bound.
pub latency_percentile_95-least :
    (buckets : List ℕ)
    → length buckets ≡ 10
    → 0 < total buckets
    → latency_percentile_95 buckets < 50001
    → (95 * total buckets ≤ 100 * within (latency_percentile_95 buckets) thresholds buckets)
      × ((bound : ℕ)
          → bound < latency_percentile_95 buckets
          → 100 * within bound thresholds buckets < 95 * total buckets)
unfolding latency_percentile_95
latency_percentile_95-least buckets ten some_sample small =
    let e : (total buckets == 0) ≡ false = ground (arith, some_sample) in
    rw e (
      omega (
        arith,
        percentile_from-reaches thresholds buckets 0 0 (target_count (total buckets))
            thresholds-AreAbove (rw e at small),
      ),
      λ bound below. omega (
        arith,
        percentile_from-least thresholds buckets 0 0 (target_count (total buckets)) bound
            thresholds-AreAbove (omega arith) below (omega (arith, ten))
            (omega (arith, below, (rw e at small))),
      ),
    )

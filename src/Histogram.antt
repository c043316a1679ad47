-- ===== src/Histogram.antt =====
-- `_Histogram` of src/dmi/storage/capture/pipeline.py: durations counted by size.
use native.Mathlib.Nat.{add-zero, add_assoc}
use dmi.Base.{
  ℕ, zero, suc, ◌+◌, ◌*◌, ◌≤◌, max, ◌≡◌, List, [], ◌∷◌, arith, leb, if◌then◌else◌, length, total,
  replicate,
}

pub record Histogram : Type 0 where
  pub counts : List ℕ
  pub count : ℕ
  pub total_ns : ℕ
  pub max_ns : ℕ

-- `_BOUNDS_NS`
abbrev pub bounds_ns : List ℕ
bounds_ns = 10_000 ∷ 100_000 ∷ 1_000_000 ∷ 10_000_000 ∷ 100_000_000 ∷ 1_000_000_000 ∷ []

abbrev pub no_durations : Histogram
no_durations = record {
  counts = replicate (length bounds_ns + 1) 0;
  count = 0;
  total_ns = 0;
  max_ns = 0;
}

-- The index of the first bound that the duration does not pass, or the number of bounds.
unfoldable pub bucket : List ℕ → ℕ → ℕ
bucket [] duration = 0
bucket (bound ∷ bounds) duration = if leb duration bound then 0 else suc (bucket bounds duration)

-- `counts[i] += 1`
unfoldable pub bump : List ℕ → ℕ → List ℕ
bump [] i = []
bump (n ∷ ns) zero = (n + 1) ∷ ns
bump (n ∷ ns) (suc i) = n ∷ bump ns i

unfoldable pub observe : Histogram → ℕ → Histogram
unfolding bucket bump
observe h duration = record {
  counts = bump h.counts (bucket bounds_ns duration);
  count = h.count + 1;
  total_ns = h.total_ns + duration;
  max_ns = max h.max_ns duration;
}

unfoldable pub observe_all : Histogram → List ℕ → Histogram
observe_all h [] = h
observe_all h (duration ∷ durations) = observe_all (observe h duration) durations

bucket-le : (bounds : List ℕ) (duration : ℕ) → bucket bounds duration ≤ length bounds
unfolding bucket
bucket-le [] duration = omega arith
bucket-le (bound ∷ bounds) duration = ground (arith, bucket-le bounds duration)

total-bump :
    (ns : List ℕ) (i : ℕ)
    → suc i ≤ length ns
    → (total (λ n. n) (bump ns i) ≡ total (λ n. n) ns + 1) × (length (bump ns i) ≡ length ns)
unfolding bump
total-bump [] i h = absurd (omega arith)
total-bump (n ∷ ns) zero h = (omega arith, omega arith)
total-bump (n ∷ ns) (suc i) h =
    let ih = total-bump ns i (omega arith) in (omega (arith, ih.0), omega (arith, ih.1))

-- What the fields say of the durations observed so far, of which `sum` is the sum.
pub record IsTally (h : Histogram) (sum : ℕ) : Type 0 where
  pub buckets : length h.counts ≡ 7
  pub counted : total (λ n. n) h.counts ≡ h.count
  pub summed : h.total_ns ≡ sum
  pub within : h.total_ns ≤ h.count * h.max_ns

observe-IsTally :
    (h : Histogram) (sum duration : ℕ)
    → IsTally h sum
    → IsTally (observe h duration) (sum + duration)
unfolding observe
observe-IsTally h sum duration t =
    let b =
      total-bump h.counts (bucket bounds_ns duration)
        (omega (arith, bucket-le bounds_ns duration, t.buckets)) in
    record {
      buckets = omega (arith, b.1, t.buckets);
      counted = omega (arith, b.0, t.counted);
      summed = omega (arith, t.summed);
      within = grind (arith, t.within);
    }

count-observe : (h : Histogram) (duration : ℕ) → (observe h duration).count ≡ h.count + 1
unfolding observe
count-observe h duration = omega arith

-- Observing durations keeps the tally: the seven buckets add up to `count`, which grew by their
-- number, `total_ns` grew by their sum, and `total_ns` is at most `count` times `max_ns`.
pub observe_all-IsTally :
    (durations : List ℕ) (h : Histogram) (sum : ℕ)
    → IsTally h sum
    → IsTally (observe_all h durations) (sum + total (λ n. n) durations)
      × ((observe_all h durations).count ≡ h.count + length durations)
unfolding observe_all
observe_all-IsTally [] h sum t = (rw (add-zero sum) t, omega arith)
observe_all-IsTally (duration ∷ durations) h sum t =
    let ih =
      observe_all-IsTally durations (observe h duration) (sum + duration)
        (observe-IsTally h sum duration t) in
    (
      rw (← add_assoc sum duration (total (λ n. n) durations)) ih.0,
      omega (arith, ih.1, count-observe h duration),
    )

-- ===== src/Hydration/Bounded.antt =====
-- A call of `hydrate` leaves the footer cache within its limits.
use dmi.Base.{List, [], ◌∷◌, ◌==◌, ◌-◌, ℕ, length, ltb, replicate, none}
use dmi.Model.{CaptureDescriptor, PackRef}
use dmi.Pack.Writer.{Codec}
use dmi.Hydration.{given, over_limit, refused, Session, lift, RangeStore, CaptureReader, refuse_if}
use dmi.Hydration.Plan.{ReadRange, ObjectPlan, plan}
use dmi.Hydration.Selecting.{CaptureSelection, resolve, payload_requests, payload_bytes}
use dmi.Hydration.Reader.{
  VerifiedPlan, Payloads, verify_plans, fetch_range, fetch_ranges, fetch_plans, hydrate_plans,
  hydrate, set_budget, collect,
}
use dmi.Hydration.Caching.{
  IsBounded, Bounds, bind-Bounds, lift-Bounds, read_from-Bounds, verify_plans-Bounds,
}

module _ (r : CaptureReader) where
  fetch_range-Bounds :
      (c : Codec) (store : RangeStore) (ref : PackRef) (x : ReadRange) (ps : Payloads)
      → Bounds r (fetch_range c store ref x ps)
  unfolding fetch_range
  fetch_range-Bounds c store ref x ps = search (bind-Bounds, lift-Bounds, read_from-Bounds) depth 8

  fetch_ranges-Bounds :
      (c : Codec) (store : RangeStore) (ref : PackRef) (xs : List ReadRange) (ps : Payloads)
      → Bounds r (fetch_ranges c store ref xs ps)
  unfolding fetch_ranges
  fetch_ranges-Bounds c store ref [] ps = lift-Bounds r (given ps)
  fetch_ranges-Bounds c store ref (x ∷ xs) ps =
      bind-Bounds r (fetch_range c store ref x ps) (λ ps'. fetch_ranges c store ref xs ps')
        (fetch_range-Bounds c store ref x ps) (λ ps'. fetch_ranges-Bounds c store ref xs ps')

  fetch_plans-Bounds :
      (c : Codec) (vs : List VerifiedPlan) (ps : Payloads) → Bounds r (fetch_plans c vs ps)
  unfolding fetch_plans
  fetch_plans-Bounds c [] ps = lift-Bounds r (given ps)
  fetch_plans-Bounds c (v ∷ vs) ps =
      bind-Bounds r (fetch_ranges c v.store v.ref v.ranges ps) (λ ps'. fetch_plans c vs ps')
        (fetch_ranges-Bounds c v.store v.ref v.ranges ps) (λ ps'. fetch_plans-Bounds c vs ps')

  set_budget-Bounds : (n b : ℕ) → Bounds r (set_budget n b)
  set_budget-Bounds n b = record { bounds = λ s h. h }

  hydrate_plans-Bounds :
      (b n : ℕ) (ds : List CaptureDescriptor) (plans : List ObjectPlan)
      → ((s : Session) → IsBounded r (r.others s))
      → Bounds r (hydrate_plans r b n ds plans)
  unfolding hydrate_plans
  hydrate_plans-Bounds b n ds plans others =
      let verified = verify_plans-Bounds r others plans in
      bind-Bounds r (lift (refuse_if (ltb n (payload_requests plans)) over_limit)) _
        (lift-Bounds r _)
        (λ u.
          bind-Bounds r (lift (refuse_if (ltb b (payload_bytes plans)) over_limit)) _
            (lift-Bounds r _)
            (λ u'.
              bind-Bounds r (set_budget (n - payload_requests plans) (b - payload_bytes plans)) _
                (set_budget-Bounds _ _)
                (λ v. bind-Bounds r (verify_plans r plans) _ verified (λ vs.
                  bind-Bounds r (fetch_plans r.codec vs (replicate (length ds) none)) _
                    (fetch_plans-Bounds r.codec vs (replicate (length ds) none))
                    (λ ps. lift-Bounds r (collect ds ps))))))

-- Given a cache within its limits, and other threads that keep it so: whatever a call of `hydrate`
-- returns or raises, `_footer_cache_bytes` is what the entries take, and the cache is within both of
-- its limits.
pub hydrate-IsBounded :
    (r : CaptureReader) (q : CaptureSelection) (byte_limit request_limit : ℕ) (s : Session)
    → ((s' : Session) → IsBounded r (r.others s'))
    → IsBounded r s.cache
    → IsBounded r (hydrate r q byte_limit request_limit s).0.cache
unfolding hydrate
hydrate-IsBounded r q byte_limit request_limit s others h =
    (bind-Bounds r (lift (refuse_if (request_limit == 0) refused)) _ (lift-Bounds r _) (λ u.
        bind-Bounds r (lift (resolve r q))
          (λ ds. hydrate_plans r byte_limit request_limit ds (plan r.max_coalesce_gap_bytes ds))
          (lift-Bounds r (resolve r q))
          (λ ds.
            hydrate_plans-Bounds r byte_limit request_limit ds (plan r.max_coalesce_gap_bytes ds)
              others))).bounds
      s h

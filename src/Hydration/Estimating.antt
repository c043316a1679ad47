-- ===== src/Hydration/Estimating.antt =====
-- `hydrate` within the limits that `estimate` names.
use dmi.Base.{
  List, Bool, [], ◌∷◌, ◌≡◌, ◌≢◌, ◌≤◌, ◌+◌, ◌-◌, ◌*◌, ◌==◌, ℕ, inl, inr, refl, arith, true, false,
  length, ltb, sym, replicate, none, some, not, subst, Option-cases,
}
use dmi.Model.{CaptureDescriptor, PackRef}
use dmi.Pack.Writer.{Codec}
use dmi.Pack.Reader.{verify_payload}
use dmi.Hydration.{
  HydrationError, Fetched, given, failed, over_limit, wrong_integrity, refused, Session, Act, ◌>>=◌,
  ◌>>◌, and_then, lift, refuse_if, RangeStore, read_from, CaptureReader,
}
use dmi.Hydration.Plan.{PlannedCapture, ReadRange, ObjectPlan, plan}
use dmi.Hydration.Selecting.{
  CaptureSelection, HydrationEstimate, estimate, estimate_from, estimate_of, resolve,
  payload_requests, payload_bytes, footer_bytes,
}
use dmi.Hydration.Reader.{
  HydratedCapture, VerifiedPlan, Payloads, place_at, slice_of, place, fetch_range, fetch_ranges,
  fetch_plans, collect, cons_capture, verify_plans, hydrate_plans, hydrate,
}
use dmi.Hydration.Outcomes.{any-Gives}
use dmi.Hydration.Placing.{verified}
use dmi.Hydration.Needing.{
  is_limit, Needs, bind-Needs, lift-Needs, then-Needs, limit_same, from_read-no_limit,
}
use dmi.Hydration.Enough.{verify_plans-Needs}

place-no_limit :
    (c : Codec) (offset : ℕ) (block : List ℕ) (xs : List PlannedCapture) (ps : Payloads)
    → is_limit (place c offset block xs ps) ≡ false
unfolding place
place-no_limit c offset block [] ps = refl
place-no_limit c offset block (x ∷ xs) ps =
    let later =
      place-no_limit c offset block xs (place_at x.index (slice_of block offset x.descriptor) ps) in
    elim (verified (verify_payload c x.descriptor (slice_of block offset x.descriptor))) [
      | inl e ↦ rw (e, place) later
      | inr (e', e) ↦
          rw (e, place)
            (limit_same (Unit {0}) Payloads e' (
              rw e at (
                from_read-no_limit
                  (verify_payload c x.descriptor (slice_of block offset x.descriptor)))))
    ]

-- A step that takes nothing from the budget and raises no limit.
abbrev IsFree : {A : Type 0} → Act A → Type 0
IsFree m = Needs 0 0 m

IsFree-bind :
    {A B : Type 0} (m : Act A) (f : A → Act B)
    → IsFree m
    → ((a : A) → IsFree (f a))
    → IsFree (m >>= f)
IsFree-bind m f h hf = bind-Needs (λ a. Unit {0}) 0 0 0 0 m f h (any-Gives m) (λ a u. hf a)

read_from-IsFree :
    (store : RangeStore) (ref : PackRef) (offset size : ℕ)
    → IsFree (read_from store ref offset size)
unfolding read_from
read_from-IsFree store ref offset size = record {
  leaves = λ k c s hn hb. elim (Option-cases (store.read_range ref offset size)) [
    | inl e ↦ (rw e refl, omega (arith, hn), omega (arith, hb))
    | inr (bytes, e) ↦ (rw e refl, omega (arith, hn), omega (arith, hb))
  ];
}

length_checked : (b : Bool) → is_limit (refuse_if b wrong_integrity) ≡ false
length_checked true = refl
length_checked false = refl

fetch_range-IsFree :
    (c : Codec) (store : RangeStore) (ref : PackRef) (x : ReadRange) (ps : Payloads)
    → IsFree (fetch_range c store ref x ps)
unfolding fetch_range
fetch_range-IsFree c store ref x ps =
    IsFree-bind (read_from store ref x.offset x.length) _
      (read_from-IsFree store ref x.offset x.length)
      (λ block.
        then-Needs 0 0 (refuse_if (not (length block == x.length)) wrong_integrity) _
          (length_checked (not (length block == x.length)))
          (λ u e.
            lift-Needs (place c x.offset block x.items ps)
              (place-no_limit c x.offset block x.items ps)))

fetch_ranges-IsFree :
    (c : Codec) (store : RangeStore) (ref : PackRef) (xs : List ReadRange) (ps : Payloads)
    → IsFree (fetch_ranges c store ref xs ps)
unfolding fetch_ranges
fetch_ranges-IsFree c store ref [] ps = lift-Needs (given ps) refl
fetch_ranges-IsFree c store ref (x ∷ xs) ps =
    IsFree-bind (fetch_range c store ref x ps) (λ ps'. fetch_ranges c store ref xs ps')
      (fetch_range-IsFree c store ref x ps) (λ ps'. fetch_ranges-IsFree c store ref xs ps')

fetch_plans-IsFree :
    (c : Codec) (vs : List VerifiedPlan) (ps : Payloads) → IsFree (fetch_plans c vs ps)
unfolding fetch_plans
fetch_plans-IsFree c [] ps = lift-Needs (given ps) refl
fetch_plans-IsFree c (v ∷ vs) ps =
    IsFree-bind (fetch_ranges c v.store v.ref v.ranges ps) (λ ps'. fetch_plans c vs ps')
      (fetch_ranges-IsFree c v.store v.ref v.ranges ps) (λ ps'. fetch_plans-IsFree c vs ps')

cons-no_limit :
    (h : HydratedCapture) (x : Fetched (List HydratedCapture))
    → is_limit x ≡ false
    → is_limit (cons_capture h x) ≡ false
cons-no_limit h (given hs) e = refl
cons-no_limit h (failed x) e = e

collect-no_limit : (ds : List CaptureDescriptor) (ps : Payloads) → is_limit (collect ds ps) ≡ false
unfolding collect
collect-no_limit [] [] = refl
collect-no_limit [] (p ∷ ps) = refl
collect-no_limit (d ∷ ds) [] = refl
collect-no_limit (d ∷ ds) (none ∷ ps) = refl
collect-no_limit (d ∷ ds) (some payload ∷ ps) =
    cons-no_limit _ (collect ds ps) (collect-no_limit ds ps)

-- A guard that lets pass.
past_guard :
    {A : Type 0} (b : Bool) (e : HydrationError) (k : Act A) (s : Session)
    → b ≡ false
    → is_limit (k s).1 ≡ false
    → is_limit ((lift (refuse_if b e) >> k) s).1 ≡ false
past_guard true e k s h p = cc
past_guard false e k s h p = p

hydrate_plans-no_limit :
    (r : CaptureReader) (b n : ℕ) (ds : List CaptureDescriptor) (plans : List ObjectPlan)
    (s : Session)
    → payload_requests plans + 2 * length plans ≤ n
    → payload_bytes plans + footer_bytes plans ≤ b
    → is_limit (hydrate_plans r b n ds plans s).1 ≡ false
unfolding hydrate_plans
hydrate_plans-no_limit r b n ds plans s hn hb =
    past_guard (ltb n (payload_requests plans)) over_limit _ s (ground (arith, hn)) (
      past_guard (ltb b (payload_bytes plans)) over_limit _ s (ground (arith, hb))
        ((bind-Needs (λ vs. Unit {0}) (2 * length plans) (footer_bytes plans) 0 0
            (verify_plans r plans) _ (verify_plans-Needs r plans) (any-Gives _)
            (λ vs u.
              IsFree-bind (fetch_plans r.codec vs (replicate (length ds) none)) _
                (fetch_plans-IsFree r.codec vs (replicate (length ds) none))
                (λ ps. lift-Needs (collect ds ps) (collect-no_limit ds ps)))).leaves
          0 0 (record s { requests = n - payload_requests plans; bytes = b - payload_bytes plans })
          (omega (arith, hn)) (omega (arith, hb))).0)

not_limit : {A : Type 0} (x : Fetched A) → is_limit x ≡ false → x ≢ failed over_limit
not_limit x h e = cc

resolved_no_limit :
    (r : CaptureReader) (b n : ℕ) (x : Fetched (List CaptureDescriptor)) (e : HydrationEstimate)
    (s : Session)
    → estimate_from r x ≡ given e
    → e.request_count ≤ n
    → e.request_bytes ≤ b
    → is_limit
        (and_then (lift x s) (λ ds. hydrate_plans r b n ds (plan r.max_coalesce_gap_bytes ds))).1
      ≡ false
resolved_no_limit r b n (failed x) e s h hn hb = cc
resolved_no_limit r b n (given ds) e s h hn hb =
    let same : estimate_of r ds ≡ e = cc in
    let gap = r.max_coalesce_gap_bytes in
    hydrate_plans-no_limit r b n ds (plan gap ds) s
      (subst (λ (x : HydrationEstimate). x.request_count ≤ n) (sym same) hn)
      (subst (λ (x : HydrationEstimate). x.request_bytes ≤ b) (sym same) hb)

guarded_no_limit :
    {A : Type 0} (b : Bool) (k : Act A) (s : Session)
    → is_limit (k s).1 ≡ false
    → is_limit ((lift (refuse_if b refused) >> k) s).1 ≡ false
guarded_no_limit true k s h = refl
guarded_no_limit false k s h = h

-- When `estimate` returns, a `hydrate` of the same selection with at least the requests and the bytes
-- that it names raises no `HydrationLimitError`, whatever the stores answer and whatever is cached.
pub hydrate-estimated :
    (r : CaptureReader) (q : CaptureSelection) (e : HydrationEstimate)
    (byte_limit request_limit : ℕ) (s : Session)
    → estimate r q ≡ given e
    → e.request_count ≤ request_limit
    → e.request_bytes ≤ byte_limit
    → (hydrate r q byte_limit request_limit s).1 ≢ failed over_limit
unfolding hydrate estimate
hydrate-estimated r q e byte_limit request_limit s h hn hb = not_limit _ (
    guarded_no_limit (request_limit == 0)
      (lift (resolve r q) >>= λ ds.
        hydrate_plans r byte_limit request_limit ds (plan r.max_coalesce_gap_bytes ds))
      s (resolved_no_limit r byte_limit request_limit (resolve r q) e s h hn hb))

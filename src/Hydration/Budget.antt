-- ===== src/Hydration/Budget.antt =====
-- A hydration reads within its limits, whatever comes of it.
use dmi.Base.{
  ◌==◌, Bool, List, [], ◌∷◌, ◌≡◌, ◌≤◌, ◌+◌, ◌-◌, ℕ, arith, length, total, true, false, ltb, refl,
  replicate, none, subst,
}
use dmi.Model.{CaptureDescriptor, PackRef}
use dmi.Pack.Writer.{Codec}
use dmi.Hydration.{
  refused, HydrationError, Fetched, given, failed, Session, Act, ◌>>=◌, ◌>>◌, and_then, lift,
  refuse_if, RangeStore, read_from, CaptureReader,
}
use dmi.Hydration.Plan.{ReadRange, ObjectPlan, plan}
use dmi.Hydration.Selecting.{CaptureSelection, resolve, payload_requests, payload_bytes}
use dmi.Hydration.Reader.{
  VerifiedPlan, Payloads, verify_plan, verify_plans, fetch_range, fetch_ranges, fetch_plans,
  hydrate_plans, hydrate, collect,
}
use dmi.Hydration.Spending.{
  Spends, IsSpending, bind-Spends, bind-Pays, lift-Pays, footer_descriptors-Pays,
}
use dmi.Hydration.Outcomes.{OnGot, AllVerify, verify_plans-Gives}

verify_plan-Pays : (r : CaptureReader) (p : ObjectPlan) → IsSpending 0 0 (verify_plan r p)
unfolding verify_plan
verify_plan-Pays r p = search (bind-Pays, lift-Pays, footer_descriptors-Pays) depth 12

verify_plans-Pays : (r : CaptureReader) (ps : List ObjectPlan) → IsSpending 0 0 (verify_plans r ps)
unfolding verify_plans
verify_plans-Pays r [] = lift-Pays (given [])
verify_plans-Pays r (p ∷ ps) =
    bind-Pays (verify_plan r p) (λ v. verify_plans r ps >>= λ vs. lift (given (v ∷ vs)))
      (verify_plan-Pays r p)
      (λ v. bind-Pays _ (λ vs. lift (given (v ∷ vs))) (verify_plans-Pays r ps) (λ vs. lift-Pays _))

IsSpending-le :
    {A : Type 0} (n b n' b' : ℕ) (m : Act A)
    → IsSpending n b m
    → n ≤ n'
    → b ≤ b'
    → IsSpending n' b' m
IsSpending-le n b n' b' m h hn hb = record {
  spends = λ s. let g = h.spends s in (omega (arith, g, hn), omega (arith, g, hb));
}

read_from-Spends :
    (store : RangeStore) (ref : PackRef) (offset size : ℕ)
    → IsSpending 1 size (read_from store ref offset size)
unfolding read_from
read_from-Spends store ref offset size = record { spends = λ s. (omega arith, omega arith) }

fetch_range-Spends :
    (c : Codec) (store : RangeStore) (ref : PackRef) (x : ReadRange) (ps : Payloads)
    → IsSpending 1 x.length (fetch_range c store ref x ps)
unfolding fetch_range
fetch_range-Spends c store ref x ps =
    IsSpending-le (1 + 0) (x.length + 0) 1 x.length _
      (bind-Spends 1 x.length 0 0 _ _ (read_from-Spends store ref x.offset x.length)
        (λ block. search (bind-Pays, lift-Pays)))
      (omega arith) (omega arith)

abbrev range_bytes : List ReadRange → ℕ
range_bytes xs = total (λ (x : ReadRange). x.length) xs

fetch_ranges-Spends :
    (c : Codec) (store : RangeStore) (ref : PackRef) (xs : List ReadRange) (ps : Payloads)
    → IsSpending (length xs) (range_bytes xs) (fetch_ranges c store ref xs ps)
unfolding fetch_ranges
fetch_ranges-Spends c store ref [] ps = lift-Pays (given ps)
fetch_ranges-Spends c store ref (x ∷ xs) ps =
    IsSpending-le (1 + length xs) (x.length + range_bytes xs) _ _ _
      (bind-Spends 1 x.length (length xs) (range_bytes xs) _ _ (fetch_range-Spends c store ref x ps)
        (λ ps'. fetch_ranges-Spends c store ref xs ps'))
      (omega arith) (omega arith)

-- The second loop, after plans that are verified, reads the ranges of the plans.
fetch_plans-Spends :
    (r : CaptureReader) (plans : List ObjectPlan) (vs : List VerifiedPlan) (ps : Payloads)
    → AllVerify r plans vs
    → IsSpending (payload_requests plans) (payload_bytes plans) (fetch_plans r.codec vs ps)
unfolding fetch_plans
fetch_plans-Spends r [] [] ps h = lift-Pays (given ps)
fetch_plans-Spends r [] (v ∷ vs) ps h = absurd h
fetch_plans-Spends r (p ∷ plans) [] ps h = absurd h
fetch_plans-Spends r (p ∷ plans) (v ∷ vs) ps h =
    bind-Spends (length p.ranges) (range_bytes p.ranges) (payload_requests plans)
      (payload_bytes plans) _ _
      (subst
        (λ l.
          IsSpending (length l) (range_bytes l) (fetch_ranges r.codec v.store v.ref v.ranges ps))
        h.0.ranges (fetch_ranges-Spends r.codec v.store v.ref v.ranges ps))
      (λ ps'. fetch_plans-Spends r plans vs ps' h.1)

and_then-both :
    {A B : Type 0} (Q : A → Type 0) (k c : ℕ) (s : Session) (x : Session × Fetched A)
    (f : A → Act B)
    → Spends 0 0 s x.0
    → OnGot Q x.1
    → ((a : A) → Q a → IsSpending k c (f a))
    → Spends k c s (and_then x f).0
and_then-both Q k c s (s', given a) f h q hf =
    let g = (hf a q).spends s' in (omega (arith, h, g), omega (arith, h, g))
and_then-both Q k c s (s', failed e) f h q hf = (omega (arith, h), omega (arith, h))

-- What holds where a guard fails, and after it.
after_guard :
    {B : Type 0} (P : Session → Type 0) (b : Bool) (e : HydrationError) (k : Act B) (s : Session)
    → P s
    → (b ≡ false → P (k s).0)
    → P ((lift (refuse_if b e) >> k) s).0
after_guard P true e k s h g = h
after_guard P false e k s h g = g refl

abbrev Within : ℕ → ℕ → Session → Session → Type 0
Within n b s s' = (s'.reads ≤ s.reads + n) × (s'.read_bytes ≤ s.read_bytes + b)

pays_plans :
    (r : CaptureReader) (n b : ℕ) (ds : List CaptureDescriptor) (plans : List ObjectPlan)
    (s : Session)
    → ltb n (payload_requests plans) ≡ false
    → ltb b (payload_bytes plans) ≡ false
    → Within n b s
        ((verify_plans r plans >>= λ vs.
            fetch_plans r.codec vs (replicate (length ds) none) >>= λ ps. lift (collect ds ps))
          (record s { requests = n - payload_requests plans; bytes = b - payload_bytes plans })).0
pays_plans r n b ds plans s e e' =
    let s0 : Session = record s {
      requests = n - payload_requests plans;
      bytes = b - payload_bytes plans;
    } in
    let h =
      and_then-both (AllVerify r plans) (payload_requests plans + 0) (payload_bytes plans + 0) s0
        (verify_plans r plans s0) _ ((verify_plans-Pays r plans).spends s0)
        ((verify_plans-Gives r plans).gives s0)
        (λ vs hv.
          bind-Spends (payload_requests plans) (payload_bytes plans) 0 0
            (fetch_plans r.codec vs (replicate (length ds) none)) (λ ps. lift (collect ds ps))
            (fetch_plans-Spends r plans vs (replicate (length ds) none) hv)
            (λ ps. lift-Pays (collect ds ps))) in
    let range_fits : payload_requests plans ≤ n = ground arith in
    let fits' : payload_bytes plans ≤ b = ground arith in
    (omega (arith, h, range_fits), omega (arith, h, fits'))

hydrate_plans-Within :
    (r : CaptureReader) (b n : ℕ) (ds : List CaptureDescriptor) (plans : List ObjectPlan)
    (s : Session)
    → Within n b s (hydrate_plans r b n ds plans s).0
unfolding hydrate_plans
hydrate_plans-Within r b n ds plans s =
    after_guard (Within n b s) _ _ _ s (omega arith, omega arith)
      (λ e.
        after_guard (Within n b s) _ _ _ s (omega arith, omega arith)
          (λ e'. pays_plans r n b ds plans s e e'))

resolved-Within :
    (r : CaptureReader) (b n : ℕ) (found : Fetched (List CaptureDescriptor)) (s : Session)
    → Within n b s
        (and_then
          (lift found s)
          (λ ds. hydrate_plans r b n ds (plan r.max_coalesce_gap_bytes ds))).0
resolved-Within r b n (given ds) s =
    hydrate_plans-Within r b n ds (plan r.max_coalesce_gap_bytes ds) s
resolved-Within r b n (failed e) s = (omega arith, omega arith)

-- Whatever a call of `hydrate` returns or raises, whatever the catalog and the stores answer and
-- whatever other threads do to the cache, its reads of the stores are at most `request_limit`, and
-- the lengths that they ask for add up to at most `byte_limit`, footers included.
pub hydrate-within_limits :
    (r : CaptureReader) (q : CaptureSelection) (byte_limit request_limit : ℕ) (s : Session)
    → ((hydrate r q byte_limit request_limit s).0.reads ≤ s.reads + request_limit)
      × ((hydrate r q byte_limit request_limit s).0.read_bytes ≤ s.read_bytes + byte_limit)
unfolding hydrate
hydrate-within_limits r q byte_limit request_limit s =
    after_guard (Within request_limit byte_limit s) (request_limit == 0) refused
      (lift (resolve r q) >>= λ ds.
        hydrate_plans r byte_limit request_limit ds (plan r.max_coalesce_gap_bytes ds))
      s (omega arith, omega arith) (λ e. resolved-Within r byte_limit request_limit (resolve r q) s)

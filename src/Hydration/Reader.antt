-- ===== src/Hydration/Reader.antt =====
-- `CaptureReader` of src/dmi/storage/capture/reader.py: the loops of `hydrate`.
use dmi.Base.{
  Bool, List, Option, String, [], if◌then◌else◌, length, ltb, none, not, replicate, some, str_eq,
  suc, drop, take, zero, ℕ, ◌&&◌, ◌-◌, ◌==◌, ◌∷◌,
}
use dmi.Model.{CaptureDescriptor, PackRef, metadata_eq}
use dmi.Pack.Writer.{Codec}
use dmi.Pack.Reader.{verify_payload}
use dmi.Hydration.{
  Fetched, given, failed, over_limit, wrong_format, wrong_integrity, refused, Act, ◌>>=◌, ◌>>◌,
  lift, from_read, refuse_if, RangeStore, read_from, CaptureReader,
}
use dmi.Hydration.Plan.{PlannedCapture, ReadRange, ObjectPlan, plan}
use dmi.Hydration.Footers.{footer_descriptors}
use dmi.Hydration.Selecting.{
  CaptureSelection, by_id, resolve, first_ref, payload_requests, payload_bytes,
}

pub record HydratedCapture : Type 0 where
  pub descriptor : CaptureDescriptor
  pub payload : List ℕ

unfoldable pub store_at : String → List RangeStore → Option RangeStore
store_at id [] = none
store_at id (s ∷ ss) = if str_eq id s.store_id then some s else store_at id ss

-- `_record_locator` of both, compared.
abbrev pub same_record_locator : CaptureDescriptor → CaptureDescriptor → Bool
same_record_locator a b =
    a.locator.offset == b.locator.offset
    && a.locator.stored_length == b.locator.stored_length
    && a.locator.decoded_length == b.locator.decoded_length
    && str_eq a.locator.codec b.locator.codec
    && str_eq a.locator.checksum b.locator.checksum

-- `_require_footer_match`
unfoldable pub require_footer_match :
    CaptureDescriptor → List CaptureDescriptor → Fetched (Unit {0})
unfolding by_id
require_footer_match d footer = elim (by_id d.metadata.capture_id footer) [
  | none ↦ failed wrong_format
  | some a ↦
      (if metadata_eq d.metadata a.metadata && same_record_locator d a
        then given tt
        else failed wrong_format)
]

unfoldable pub require_matches : List CaptureDescriptor → List PlannedCapture → Fetched (Unit {0})
unfolding require_footer_match
require_matches footer [] = given tt
require_matches footer (x ∷ xs) = elim (require_footer_match x.descriptor footer) [
  | failed e ↦ failed e
  | given u ↦ require_matches footer xs
]

-- An element of `verified_plans`.
pub record VerifiedPlan : Type 0 where
  pub ranges : List ReadRange
  pub store : RangeStore
  pub ref : PackRef

abbrev pub known_store : Option RangeStore → Fetched RangeStore
known_store none = failed wrong_format
known_store (some s) = given s

-- The body of the first loop of `hydrate`.
unfoldable pub verify_plan : CaptureReader → ObjectPlan → Act VerifiedPlan
unfolding footer_descriptors require_matches store_at
verify_plan r p = do
  store ← lift (known_store (store_at p.store_id r.stores))
  ref ← lift (first_ref p.items)
  footer ← footer_descriptors r store ref
  lift (require_matches footer p.items)
  lift (given (record { ranges = p.ranges; store = store; ref = ref }))

-- The first loop.
unfoldable pub verify_plans : CaptureReader → List ObjectPlan → Act (List VerifiedPlan)
unfolding verify_plan
verify_plans r [] = lift (given [])
verify_plans r (p ∷ ps) = do v ← verify_plan r p; vs ← verify_plans r ps; lift (given (v ∷ vs))

-- `payloads`, and an assignment to one of its elements.
abbrev pub Payloads : Type 0
Payloads = List (Option (List ℕ))

unfoldable pub place_at : ℕ → List ℕ → Payloads → Payloads
place_at n payload [] = []
place_at zero payload (p ∷ ps) = some payload ∷ ps
place_at (suc n) payload (p ∷ ps) = p ∷ place_at n payload ps

-- `block[start:end]` of a descriptor in a range.
abbrev pub slice_of : List ℕ → ℕ → CaptureDescriptor → List ℕ
slice_of block offset d = take d.locator.stored_length (drop (d.locator.offset - offset) block)

-- The innermost loop.
unfoldable pub place : Codec → ℕ → List ℕ → List PlannedCapture → Payloads → Fetched Payloads
unfolding place_at
place c offset block [] ps = given ps
place c offset block (x ∷ xs) ps =
    elim (from_read (verify_payload c x.descriptor (slice_of block offset x.descriptor))) [
      | failed e ↦ failed e
      | given u ↦ place c offset block xs (place_at x.index (slice_of block offset x.descriptor) ps)
    ]

unfoldable pub fetch_range : Codec → RangeStore → PackRef → ReadRange → Payloads → Act Payloads
unfolding place read_from
fetch_range c store ref x ps = do
  block ← read_from store ref x.offset x.length
  lift (refuse_if (not (length block == x.length)) wrong_integrity)
  lift (place c x.offset block x.items ps)

unfoldable pub fetch_ranges :
    Codec → RangeStore → PackRef → List ReadRange → Payloads → Act Payloads
unfolding fetch_range
fetch_ranges c store ref [] ps = lift (given ps)
fetch_ranges c store ref (x ∷ xs) ps = do
  ps' ← fetch_range c store ref x ps
  fetch_ranges c store ref xs ps'

-- The second loop.
unfoldable pub fetch_plans : Codec → List VerifiedPlan → Payloads → Act Payloads
unfolding fetch_ranges
fetch_plans c [] ps = lift (given ps)
fetch_plans c (v ∷ vs) ps = do ps' ← fetch_ranges c v.store v.ref v.ranges ps; fetch_plans c vs ps'

abbrev pub cons_capture :
    HydratedCapture → Fetched (List HydratedCapture) → Fetched (List HydratedCapture)
cons_capture h (given hs) = given (h ∷ hs)
cons_capture h (failed e) = failed e

-- The last check, and the result; the two lists are of one length.
unfoldable pub collect : List CaptureDescriptor → Payloads → Fetched (List HydratedCapture)
collect [] [] = given []
collect [] (p ∷ ps) = given []
collect (d ∷ ds) [] = given []
collect (d ∷ ds) (none ∷ ps) = failed wrong_format
collect (d ∷ ds) (some payload ∷ ps) =
    cons_capture (record { descriptor = d; payload = payload }) (collect ds ps)

-- A fresh `_ReadBudget`.
abbrev pub set_budget : ℕ → ℕ → Act (Unit {0})
set_budget requests bytes s = (record s { requests = requests; bytes = bytes }, given tt)

-- What `hydrate` does with its plans.
unfoldable pub hydrate_plans :
    CaptureReader → ℕ → ℕ → List CaptureDescriptor → List ObjectPlan → Act (List HydratedCapture)
unfolding verify_plans fetch_plans collect
hydrate_plans r byte_limit request_limit ds plans = do
  lift (refuse_if (ltb request_limit (payload_requests plans)) over_limit)
  lift (refuse_if (ltb byte_limit (payload_bytes plans)) over_limit)
  set_budget (request_limit - payload_requests plans) (byte_limit - payload_bytes plans)
  vs ← verify_plans r plans
  ps ← fetch_plans r.codec vs (replicate (length ds) none)
  lift (collect ds ps)

-- `hydrate`
unfoldable pub hydrate : CaptureReader → CaptureSelection → ℕ → ℕ → Act (List HydratedCapture)
unfolding resolve hydrate_plans
hydrate r q byte_limit request_limit = do
  lift (refuse_if (request_limit == 0) refused)
  ds ← lift (resolve r q)
  hydrate_plans r byte_limit request_limit ds (plan r.max_coalesce_gap_bytes ds)

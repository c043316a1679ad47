-- ===== src/Hydration/Selecting.antt =====
-- `CaptureReader` of src/dmi/storage/capture/reader.py: `_resolve` and `estimate`.
use dmi.Base.{
  map, Bool, List, Option, String, [], false, if◌then◌else◌, length, none, some, str_eq, total,
  true, ℕ, ◌&&◌, ◌*◌, ◌+◌, ◌||◌, ◌∷◌,
}
use dmi.Model.{CaptureDescriptor, PackRef, pack_ref, is_text, text_limit}
use dmi.Pack.Index.{max_footer_read_bytes}
use dmi.Hydration.{
  Fetched, given, failed, wrong_format, duplicated, catalog_failed, refused, not_there,
  CaptureReader,
}
use dmi.Hydration.Plan.{PlannedCapture, ReadRange, ObjectPlan, plan}

-- A `CapturePage`.
pub record CapturePage : Type 0 where
  pub items : List CaptureDescriptor
  pub next_cursor : Option String
  pub watermark : String

-- A `CaptureSelection`, as far as it is used here.
pub record CaptureSelection : Type 0 where
  pub capture_ids : List String
  pub catalog_watermark : String
  pub tenant_id : String

pub record HydrationEstimate : Type 0 where
  pub capture_count : ℕ
  pub object_count : ℕ
  pub request_count : ℕ
  pub logical_bytes : ℕ
  pub stored_bytes : ℕ
  pub request_bytes : ℕ

-- The value of `{item.capture_id: item for item in ds}` at a key: that of the last item.
unfoldable pub by_id : String → List CaptureDescriptor → Option CaptureDescriptor
by_id k [] = none
by_id k (d ∷ ds) = elim (by_id k ds) [
  | none ↦ if str_eq d.metadata.capture_id k then some d else none
  | some d' ↦ some d'
]

abbrev pub is_id : List String → String → Bool
is_id [] k = false
is_id (id ∷ ids) k = str_eq id k || is_id ids k

-- The loop of `_resolve`: whether an identity comes twice.
unfoldable pub check_ids : List String → List CaptureDescriptor → Fetched (Unit {0})
check_ids seen [] = given tt
check_ids seen (d ∷ ds) =
    if is_id seen d.metadata.capture_id
    then failed duplicated
    else check_ids (d.metadata.capture_id ∷ seen) ds

abbrev pub all_ids : List String → List CaptureDescriptor → Bool
all_ids ids [] = true
all_ids ids (d ∷ ds) = is_id ids d.metadata.capture_id && all_ids ids ds

abbrev pub all_found : List CaptureDescriptor → List String → Bool
all_found ds [] = true
all_found ds (id ∷ ids) = elim (by_id id ds) [ none ↦ false | some d ↦ all_found ds ids ]

abbrev pub onto :
    CaptureDescriptor → Fetched (List CaptureDescriptor) → Fetched (List CaptureDescriptor)
onto d (given ds) = given (d ∷ ds)
onto d (failed e) = failed e

-- `tuple(by_id[capture_id] for capture_id in …)`
unfoldable pub in_order : List CaptureDescriptor → List String → Fetched (List CaptureDescriptor)
unfolding by_id
in_order ds [] = given []
in_order ds (id ∷ ids) = elim (by_id id ds) [
  | none ↦ failed not_there
  | some d ↦ onto d (in_order ds ids)
]

abbrev pub then_in_order :
    List CaptureDescriptor → List String → Fetched (Unit {0}) → Fetched (List CaptureDescriptor)
then_in_order ds ids (failed e) = failed e
then_in_order ds ids (given u) =
    if all_ids ids ds && all_found ds ids then in_order ds ids else failed wrong_format

abbrev pub resolve_from :
    Option (List CaptureDescriptor) → List String → Fetched (List CaptureDescriptor)
resolve_from none ids = failed catalog_failed
resolve_from (some ds) ids = then_in_order ds ids (check_ids [] ds)

-- `_resolve`
unfoldable pub resolve : CaptureReader → CaptureSelection → Fetched (List CaptureDescriptor)
unfolding check_ids in_order by_id
resolve r q =
    resolve_from (r.get_by_ids q.capture_ids q.tenant_id q.catalog_watermark) q.capture_ids

-- `descriptors[indexes[0]].locator.pack_ref`
abbrev pub first_ref : List PlannedCapture → Fetched PackRef
first_ref [] = failed not_there
first_ref (x ∷ xs) = given (pack_ref x.descriptor.locator)

abbrev pub payload_requests : List ObjectPlan → ℕ
payload_requests plans = total (λ (p : ObjectPlan). length p.ranges) plans

abbrev pub payload_bytes : List ObjectPlan → ℕ
payload_bytes plans = total (λ (p : ObjectPlan). total (λ (x : ReadRange). x.length) p.ranges) plans

-- The largest footer read of a plan's pack.
abbrev pub footer_bytes_of : Fetched PackRef → ℕ
footer_bytes_of (given ref) = max_footer_read_bytes ref
footer_bytes_of (failed e) = 0

unfoldable pub footer_bytes : List ObjectPlan → ℕ
footer_bytes plans = total (λ (p : ObjectPlan). footer_bytes_of (first_ref p.items)) plans

abbrev pub estimate_of : CaptureReader → List CaptureDescriptor → HydrationEstimate
estimate_of r ds = record {
  capture_count = length ds;
  object_count = length (plan r.max_coalesce_gap_bytes ds);
  request_count =
      payload_requests (plan r.max_coalesce_gap_bytes ds)
      + 2 * length (plan r.max_coalesce_gap_bytes ds);
  logical_bytes = total (λ (d : CaptureDescriptor). d.locator.decoded_length) ds;
  stored_bytes = total (λ (d : CaptureDescriptor). d.locator.stored_length) ds;
  request_bytes =
      payload_bytes (plan r.max_coalesce_gap_bytes ds)
      + footer_bytes (plan r.max_coalesce_gap_bytes ds);
}

abbrev pub estimate_from :
    CaptureReader → Fetched (List CaptureDescriptor) → Fetched HydrationEstimate
estimate_from r (failed e) = failed e
estimate_from r (given ds) = given (estimate_of r ds)

-- `estimate`
unfoldable pub estimate : CaptureReader → CaptureSelection → Fetched HydrationEstimate
unfolding resolve footer_bytes
estimate r q = estimate_from r (resolve r q)

abbrev pub all_of_tenant : String → List CaptureDescriptor → Bool
all_of_tenant t [] = true
all_of_tenant t (d ∷ ds) = str_eq d.metadata.tenant_id t && all_of_tenant t ds

-- The last checks of `create`, with the tenant, and the `__post_init__` of the selection.
abbrev pub selection_of :
    String → List CaptureDescriptor → String → Fetched (Unit {0}) → Fetched CaptureSelection
selection_of tenant ds watermark (failed e) = failed e
selection_of tenant ds watermark (given u) =
    if is_text text_limit tenant
    then given (record {
      capture_ids = map (λ d. d.metadata.capture_id) ds;
      catalog_watermark = watermark;
      tenant_id = tenant;
    })
    else failed refused

-- `CaptureSelection.create`
unfoldable pub create : List CaptureDescriptor → String → Fetched CaptureSelection
unfolding check_ids
create [] watermark = failed refused
create (d ∷ ds) watermark =
    if all_of_tenant d.metadata.tenant_id ds
    then selection_of d.metadata.tenant_id (d ∷ ds) watermark (check_ids [] (d ∷ ds))
    else failed refused

-- `select`, with what `search` answers; `none` is a search that raises.
unfoldable pub select : Option CapturePage → Fetched CaptureSelection
unfolding create
select none = failed catalog_failed
select (some page) = elim page.next_cursor [
  | some cursor ↦ failed refused
  | none ↦ create page.items page.watermark
]

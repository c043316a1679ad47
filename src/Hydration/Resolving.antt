-- ===== src/Hydration/Resolving.antt =====
-- What `_resolve` of src/dmi/storage/capture/reader.py returns.
use dmi.Base.{
  List, Option, String, [], none, some, ◌∷◌, ◌≡◌, inl, inr, refl, ap, ap₂, sym, ◌∙◌, ◌&&◌, map,
  str_eq, eq_iff, if_cases, Option-cases,
}
use dmi.Model.{CaptureDescriptor}
use dmi.Hydration.{Fetched, given, failed, not_there, CaptureReader}
use dmi.Hydration.Selecting.{
  CaptureSelection, by_id, check_ids, all_ids, all_found, onto, in_order, then_in_order,
  resolve_from, resolve,
}

pub by_id_lem :
    (k : String) (ds : List CaptureDescriptor) (d : CaptureDescriptor)
    → by_id k ds ≡ some d
    → d.metadata.capture_id ≡ k
unfolding by_id
by_id_lem k [] d e = cc
by_id_lem k (x ∷ xs) d e = elim (Option-cases (by_id k xs)) [
  | inl e' ↦
      if_cases (λ o. o ≡ some d → d.metadata.capture_id ≡ k) (str_eq x.metadata.capture_id k)
        (λ same here.
          let found : x ≡ d = cc in
          ap (λ y. y.metadata.capture_id) (sym found) ∙ (eq_iff x.metadata.capture_id k).0 same)
        (λ other later. cc) (rw (e', by_id) at e)
  | inr (d', e') ↦ by_id_lem k xs d (e' ∙ (rw (e', by_id) at e))
]

abbrev pub ids_of : List CaptureDescriptor → List String
ids_of ds = map (λ d. d.metadata.capture_id) ds

onto_lem :
    (d : CaptureDescriptor) (x : Fetched (List CaptureDescriptor)) (out : List CaptureDescriptor)
    → onto d x ≡ given out
    → (rest : List CaptureDescriptor) × (x ≡ given rest) × (out ≡ d ∷ rest)
onto_lem d (given rest) out e = (rest, refl, cc)
onto_lem d (failed x) out e = cc

in_order_lem :
    (ds : List CaptureDescriptor) (ids : List String) (out : List CaptureDescriptor)
    → in_order ds ids ≡ given out
    → ids_of out ≡ ids
unfolding in_order
in_order_lem ds [] out e = let nothing : [] ≡ out = cc in ap ids_of (sym nothing)
in_order_lem ds (id ∷ ids) out e = elim (Option-cases (by_id id ds)) [
  | inl e' ↦ let bad : failed not_there ≡ given out = rw (e', in_order) at e in cc
  | inr (d, e') ↦
      let (rest, later, is_out) = onto_lem d (in_order ds ids) out (rw (e', in_order) at e) in
      ap ids_of is_out ∙ ap₂ ◌∷◌ (by_id_lem id ds d e') (in_order_lem ds ids rest later)
]

then_in_order_lem :
    (ds : List CaptureDescriptor) (ids : List String) (x : Fetched (Unit {0}))
    (out : List CaptureDescriptor)
    → then_in_order ds ids x ≡ given out
    → ids_of out ≡ ids
then_in_order_lem ds ids (failed x) out e = cc
then_in_order_lem ds ids (given u) out e =
    if_cases (λ o. o ≡ given out → ids_of out ≡ ids) (all_ids ids ds && all_found ds ids)
      (λ h e'. in_order_lem ds ids out e') (λ h e'. cc) e

-- The descriptors that `_resolve` returns are those of the selection's identities, in their order.
pub resolve-ids :
    (r : CaptureReader) (q : CaptureSelection) (ds : List CaptureDescriptor)
    → resolve r q ≡ given ds
    → ids_of ds ≡ q.capture_ids
unfolding resolve
resolve-ids r q ds e = go (r.get_by_ids q.capture_ids q.tenant_id q.catalog_watermark) e
  where
    go :
        (a : Option (List CaptureDescriptor))
        → resolve_from a q.capture_ids ≡ given ds
        → ids_of ds ≡ q.capture_ids
    go none e' = cc
    go (some found) e' = then_in_order_lem found q.capture_ids (check_ids [] found) ds e'

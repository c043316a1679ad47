-- ===== src/Hydration/Ownership.antt =====
-- No capture is hydrated from the key of another tenant, whether its footer was cached or read.
use dmi.Base.{
  if◌then◌else◌, All, List, String, [], ◌∷◌, ◌≡◌, ◌&&◌, ◌==◌, ◌%◌, ◌^◌, ℕ, inl, inr, refl, sym, ap,
  ◌∙◌, arith, true, length, some, map, str_eq, eq_iff, Option-cases, if_cases, subst,
}
use dmi.Model.{CaptureDescriptor, CaptureMetadata, PackRef, metadata_eq}
use dmi.Pack.Writer.{Codec, IndexedRecord}
use dmi.Pack.Reader.{ok, bad_format, bad_integrity, Trailer, decode_footer, parse_records}
use dmi.Pack.Index.{PackIndex, index_footer, check_identity}
use dmi.Pack.Accepting.{bind_ok, require_ok, both_left}
use dmi.Pack.Reading.{descriptor}
use dmi.Keys.{codes, reject_a_foreign_tenant}
use dmi.Hydration.{
  given, failed, wrong_format, FooterCache, Act, lift, from_read, RangeStore, CaptureReader,
}
use dmi.Hydration.Plan.{PlannedCapture}
use dmi.Hydration.Footers.{
  entry_at, tenants_of, index_descriptors, bind_to_its_key, budgeted_from_store, with_cached,
  load_footer, load_after, footer_descriptors, keep_footer,
}
use dmi.Hydration.Selecting.{by_id}
use dmi.Hydration.Reader.{same_record_locator, require_footer_match, require_matches}
use dmi.Hydration.Outcomes.{Gives, bind-Gives, lift-Gives, after-Gives}
use dmi.Hydration.Enough.{match_cases}
use dmi.Hydration.Needing.{from_read-given}

-- The captures of a footer may be at the key of the reference.
abbrev pub IsOwnFooter : Codec → PackRef → List CaptureDescriptor → Type 0
IsOwnFooter c ref ds = reject_a_foreign_tenant c (codes ref.object_key) (tenants_of ds) ≡ ok tt

unit : (u : Unit {0}) → u ≡ tt
unit tt = refl

bound_lem :
    (c : Codec) (ref : PackRef) (ds out : List CaptureDescriptor)
    → bind_to_its_key c ref ds ≡ ok out
    → IsOwnFooter c ref out
unfolding bind_to_its_key
bound_lem c ref ds out e =
    let (u, checked, same) =
      bind_ok (reject_a_foreign_tenant c (codes ref.object_key) (tenants_of ds)) (λ u. ok ds) out
        e in
    let is_out : ds ≡ out = cc in subst (IsOwnFooter c ref) is_out (checked ∙ ap ok (unit u))

tenants-descriptors :
    (ref : PackRef) (xs : List IndexedRecord)
    → tenants_of (map (descriptor ref) xs) ≡ map (λ y. codes y.metadata.tenant_id) xs
unfolding descriptor
tenants-descriptors ref [] = refl
tenants-descriptors ref (x ∷ xs) =
    ap (λ l. codes x.metadata.tenant_id ∷ l) (tenants-descriptors ref xs)

indexed_lem :
    (c : Codec) (ref : PackRef) (x : PackIndex) (out : List CaptureDescriptor)
    → x.ref ≡ ref
    → index_descriptors c x ≡ ok out
    → IsOwnFooter c ref out
unfolding index_descriptors
indexed_lem c ref x out same e =
    let (u, checked, is) =
      bind_ok
        (reject_a_foreign_tenant c (codes x.ref.object_key)
          (map (λ y. codes y.metadata.tenant_id) x.records))
        (λ u. ok (map (descriptor x.ref) x.records)) out e in
    let is_out : map (descriptor x.ref) x.records ≡ out = cc in
    subst (IsOwnFooter c ref) is_out (
      ap (λ l. reject_a_foreign_tenant c (codes ref.object_key) l)
        (tenants-descriptors x.ref x.records)
      ∙ ap
          (λ (r : PackRef).
            reject_a_foreign_tenant c (codes r.object_key)
              (map (λ y. codes y.metadata.tenant_id) x.records))
          (sym same)
      ∙ checked
      ∙ ap ok (unit u))

ok_value : {A : Type 0} (a b : A) → ok a ≡ ok b → a ≡ b
ok_value a b e = cc

index_footer_ref :
    (r : CaptureReader) (ref : PackRef) (t : Trailer) (footer : List ℕ) (x : PackIndex)
    → index_footer r.codec r.decoder r.normal ref t footer ≡ ok x
    → x.ref ≡ ref
unfolding index_footer
index_footer_ref r ref t footer x e =
    let (a, e1) = require_ok (r.codec.crc32 footer % 2 ^ 32 == t.footer_crc) bad_integrity _ x e in
    let (decoded, b, e2) = bind_ok (decode_footer r.decoder footer t.major t.minor) _ x e1 in
    let (u, d, e3) = bind_ok (check_identity (r.normal decoded.pack_id) ref.pack_id) _ x e2 in
    let (records, f, e4) = bind_ok (parse_records decoded.records t.footer_offset) _ x e3 in
    let (g, e5) = require_ok (length records == ref.record_count) bad_format _ x e4 in
    ap (λ (y : PackIndex). y.ref) (sym (ok_value _ x e5))

tenant_eq : (a b : CaptureMetadata) → metadata_eq a b ≡ true → a.tenant_id ≡ b.tenant_id
unfolding metadata_eq
tenant_eq a b h = ground (arith, eq_iff a.tenant_id b.tenant_id)

module _ (r : CaptureReader) (store : RangeStore) (ref : PackRef) where
  index-ref :
      (t : Trailer) (footer : List ℕ)
      → Gives
          (λ (x : PackIndex). x.ref ≡ ref)
          (lift (from_read (index_footer r.codec r.decoder r.normal ref t footer)))
  index-ref t footer =
      lift-Gives (λ (x : PackIndex). x.ref ≡ ref)
        (from_read (index_footer r.codec r.decoder r.normal ref t footer))
        (λ x e. index_footer_ref r ref t footer x (from_read-given _ x e))

  from_store-ref : Gives (λ (x : PackIndex). x.ref ≡ ref) (budgeted_from_store r store ref)
  unfolding budgeted_from_store
  from_store-ref = search (after-Gives, index-ref) depth 12

  with_cached-own :
      (miss : FooterCache → Act (List CaptureDescriptor))
      → ((cache : FooterCache) → Gives (IsOwnFooter r.codec ref) (miss cache))
      → Gives (IsOwnFooter r.codec ref) (with_cached r ref miss)
  unfolding with_cached
  with_cached-own miss h = record {
    gives = λ s. elim (Option-cases (entry_at ref (r.others s).entries)) [
      | inl e ↦ rw (e, with_cached) ((h (r.others s)).gives s)
      | inr (x, e) ↦
          rw (e, with_cached)
            ((lift-Gives (IsOwnFooter r.codec ref)
                (from_read (bind_to_its_key r.codec ref x.descriptors))
                (λ out e'.
                  bound_lem r.codec ref x.descriptors out (from_read-given _ out e'))).gives
              s)
    ];
  }

  load_footer-own : Gives (IsOwnFooter r.codec ref) (load_footer r store ref)
  unfolding load_footer
  load_footer-own =
      bind-Gives (λ (x : PackIndex). x.ref ≡ ref) _ _ _ from_store-ref
        (λ x same.
          bind-Gives (IsOwnFooter r.codec ref) _ (lift (from_read (index_descriptors r.codec x))) _
            (lift-Gives _ _ (λ out e. indexed_lem r.codec ref x out same (from_read-given _ out e)))
            (λ footer own.
              with_cached-own (keep_footer r ref x.footer_read_bytes footer)
                (λ cache. record { gives = λ s. own })))

  pub footer_descriptors-own : Gives (IsOwnFooter r.codec ref) (footer_descriptors r store ref)
  unfolding footer_descriptors load_after
  footer_descriptors-own =
      with_cached-own (load_after r store ref)
        (λ cache. record { gives = λ s. load_footer-own.gives (record s { cache = cache }) })

by_id-All :
    (P : CaptureDescriptor → Type 0) (k : String) (ds : List CaptureDescriptor)
    (d : CaptureDescriptor)
    → All P ds
    → by_id k ds ≡ some d
    → P d
unfolding by_id
by_id-All P k [] d h e = cc
by_id-All P k (x ∷ xs) d h e = elim (Option-cases (by_id k xs)) [
  | inl e' ↦
      if_cases (λ o. o ≡ some d → P d) (str_eq x.metadata.capture_id k)
        (λ same here. let found : x ≡ d = cc in subst P found h.0) (λ other later. cc)
        (rw (e', by_id) at e)
  | inr (d', e') ↦ by_id-All P k xs d h.1 (e' ∙ (rw (e', by_id) at e))
]

-- The capture may be at the key of this object.
abbrev pub IsOwn : Codec → String → CaptureDescriptor → Type 0
IsOwn c key d = reject_a_foreign_tenant c (codes key) (codes d.metadata.tenant_id ∷ []) ≡ ok tt

matched-IsOwn :
    (c : Codec) (key : String) (footer : List CaptureDescriptor) (d : CaptureDescriptor)
    (a : CaptureDescriptor)
    → IsOwn c key a
    → (if metadata_eq d.metadata a.metadata && same_record_locator d a
        then given tt
        else failed wrong_format)
      ≡ given tt
    → IsOwn c key d
matched-IsOwn c key footer d a own e =
    if_cases (λ x. x ≡ given tt → IsOwn c key d)
      (metadata_eq d.metadata a.metadata && same_record_locator d a)
      (λ h e'.
        subst (λ t. reject_a_foreign_tenant c (codes key) (codes t ∷ []) ≡ ok tt)
          (sym (tenant_eq d.metadata a.metadata (both_left _ _ h))) own)
      (λ h e'. cc) e

pub texts-IsOwn :
    (c : Codec) (key : String) (ds : List CaptureDescriptor)
    → All (λ t. reject_a_foreign_tenant c (codes key) (t ∷ []) ≡ ok tt) (tenants_of ds)
    → All (IsOwn c key) ds
texts-IsOwn c key [] h = tt
texts-IsOwn c key (d ∷ ds) h = (h.0, texts-IsOwn c key ds h.1)

match-IsOwn :
    (c : Codec) (key : String) (footer : List CaptureDescriptor) (d : CaptureDescriptor)
    → All (IsOwn c key) footer
    → require_footer_match d footer ≡ given tt
    → IsOwn c key d
unfolding require_footer_match
match-IsOwn c key footer d own e = elim (Option-cases (by_id d.metadata.capture_id footer)) [
  | inl e' ↦ let bad : failed wrong_format ≡ given tt = rw (e', require_footer_match) at e in cc
  | inr (a, e') ↦
      matched-IsOwn c key footer d a (by_id-All (IsOwn c key) d.metadata.capture_id footer a own e')
        (rw (e', require_footer_match) at e)
]

pub matches-IsOwn :
    (c : Codec) (key : String) (footer : List CaptureDescriptor) (xs : List PlannedCapture)
    → All (IsOwn c key) footer
    → require_matches footer xs ≡ given tt
    → All (λ x. IsOwn c key x.descriptor) xs
unfolding require_matches
matches-IsOwn c key footer [] own e = tt
matches-IsOwn c key footer (x ∷ xs) own e = elim (match_cases x.descriptor footer) [
  | inl e' ↦ (
    match-IsOwn c key footer x.descriptor own e',
    matches-IsOwn c key footer xs own (rw (e', require_matches) at e),
  )
  | inr e' ↦ let bad : failed wrong_format ≡ given tt = rw (e', require_matches) at e in cc
]

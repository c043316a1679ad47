-- ===== src/Hydration/Enough.antt =====
-- The limits that `estimate` names are enough: `hydrate` then raises no `HydrationLimitError`.
use dmi.Base.{
  ◌⊎◌, List, Option, [], none, some, ◌∷◌, ◌≡◌, ◌≤◌, ◌+◌, ◌-◌, ◌*◌, ◌==◌, ◌&&◌, ℕ, inl, inr, refl,
  arith, true, false, length, Option-cases, leb, subst, Bool-cases, if_cases, if◌then◌else◌, str_eq,
}
use dmi.Model.{CaptureDescriptor, PackRef, metadata_eq}
use dmi.Pack.Bytes.{unpack}
use dmi.Pack.Writer.{trailer_size, max_footer_bytes, header_size, trailer_magic}
use dmi.Pack.Reader.{ok, err, bad_format, Trailer, require, trailer_of, trailer_widths, bytes_eq}
use dmi.Pack.Index.{index_trailer, index_footer, check_index_trailer, max_footer_read_bytes}
use dmi.Pack.Accepting.{bind_ok, require_ok}
use dmi.Hydration.{
  Fetched, given, failed, wrong_format, refused, FooterCache, Act, ◌>>=◌, lift, from_read,
  RangeStore, budgeted_read, CaptureReader,
}
use dmi.Hydration.Plan.{PlannedCapture, ObjectPlan}
use dmi.Hydration.Footers.{
  entry_at, budgeted_from_store, with_cached, load_footer, load_after, footer_descriptors,
  keep_footer, index_descriptors,
}
use dmi.Hydration.Selecting.{first_ref, footer_bytes, footer_bytes_of, by_id}
use dmi.Hydration.Reader.{
  verify_plan, verify_plans, require_matches, require_footer_match, same_record_locator,
  known_store, store_at,
}
use dmi.Hydration.Outcomes.{any-Gives}
use dmi.Hydration.Needing.{
  is_limit, Needs, bind-Needs, Needs-le, lift-Needs, then-Needs, from_read-no_limit,
  from_read-given, budgeted_read-Needs,
}

footer_fits :
    (ref : PackRef) (t : Trailer) (u : Unit {0})
    → leb t.footer_length max_footer_bytes ≡ true
    → require
        (leb header_size t.footer_offset
          && t.footer_offset + t.footer_length == ref.object_bytes - trailer_size)
        bad_format
      ≡ ok u
    → trailer_size + t.footer_length ≤ max_footer_read_bytes ref
unfolding max_footer_read_bytes
footer_fits ref t u small e =
    elim (Bool-cases (
      leb header_size t.footer_offset
      && t.footer_offset + t.footer_length == ref.object_bytes - trailer_size)) [
        | inl h ↦ ground (arith, h, small)
        | inr h ↦ let bad : err bad_format ≡ ok u = rw h at e in cc
      ]

-- A trailer that `from_store` accepts bounds the footer that it reads.
trailer_bounds :
    (ref : PackRef) (bytes : List ℕ) (t : Trailer)
    → index_trailer ref bytes ≡ ok t
    → trailer_size + t.footer_length ≤ max_footer_read_bytes ref
unfolding index_trailer check_index_trailer max_footer_read_bytes
trailer_bounds ref bytes t e =
    let (size, e1) = require_ok (length bytes == trailer_size) bad_format _ t e in
    let (t', is_t, e2) = bind_ok (trailer_of (unpack trailer_widths bytes)) _ t e1 in
    let (u, checked, same) =
      bind_ok (check_index_trailer t' (ref.object_bytes - trailer_size)) (λ u. ok t') t e2 in
    let found : t' ≡ t = cc in
    let (magic, c1) = require_ok (bytes_eq t'.magic trailer_magic) bad_format _ u checked in
    let (version, c2) = require_ok (t'.major == 1 && leb t'.minor 0) bad_format _ u c1 in
    let (small, c3) = require_ok (leb t'.footer_length max_footer_bytes) bad_format _ u c2 in
    subst (λ (x : Trailer). trailer_size + x.footer_length ≤ max_footer_read_bytes ref) found
      (footer_fits ref t' u small c3)

trailer_le :
    (ref : PackRef)
    → trailer_size + (max_footer_read_bytes ref - trailer_size) ≤ max_footer_read_bytes ref
unfolding max_footer_read_bytes
trailer_le ref = omega arith

trailer_first :
    (r : CaptureReader) (store : RangeStore) (ref : PackRef)
    → Needs 2 (max_footer_read_bytes ref) (
        budgeted_read store ref (ref.object_bytes - trailer_size) trailer_size >>= λ bytes.
        lift (from_read (index_trailer ref bytes)) >>= λ t.
        budgeted_read store ref t.footer_offset t.footer_length >>= λ footer.
        lift (from_read (index_footer r.codec r.decoder r.normal ref t footer)))
trailer_first r store ref =
    let rest = max_footer_read_bytes ref - trailer_size in
    Needs-le (1 + 1) (trailer_size + rest) 2 (max_footer_read_bytes ref) _
      (bind-Needs (λ bytes. Unit {0}) 1 trailer_size 1 rest
        (budgeted_read store ref (ref.object_bytes - trailer_size) trailer_size) _
        (budgeted_read-Needs store ref (ref.object_bytes - trailer_size) trailer_size) (any-Gives _)
        (λ bytes u.
          then-Needs 1 rest (from_read (index_trailer ref bytes)) _ (from_read-no_limit _) (λ t e.
            let range_fits = trailer_bounds ref bytes t (from_read-given _ t e) in
            Needs-le (1 + 0) (t.footer_length + 0) 1 rest _
              (bind-Needs (λ x. Unit {0}) 1 t.footer_length 0 0
                (budgeted_read store ref t.footer_offset t.footer_length) _
                (budgeted_read-Needs store ref t.footer_offset t.footer_length) (any-Gives _)
                (λ footer v. lift-Needs _ (from_read-no_limit _)))
              (omega arith) (omega (arith, range_fits)))))
      (omega arith) (trailer_le ref)

from_store-Needs :
    (r : CaptureReader) (store : RangeStore) (ref : PackRef)
    → Needs 2 (max_footer_read_bytes ref) (budgeted_from_store r store ref)
unfolding budgeted_from_store
from_store-Needs r store ref =
    then-Needs 2 (max_footer_read_bytes ref)
      (if str_eq ref.store_id store.store_id then given tt else failed refused) _
      (if_cases (λ (x : Fetched (Unit {0})). is_limit x ≡ false)
        (str_eq ref.store_id store.store_id) (λ e. refl) (λ e. refl))
      (λ u e.
        then-Needs 2 (max_footer_read_bytes ref)
          (from_read (require (leb (header_size + trailer_size + 2) ref.object_bytes) bad_format)) _
          (from_read-no_limit _) (λ u' e'. trailer_first r store ref))

with_cached-Needs :
    (r : CaptureReader) (ref : PackRef) (n b : ℕ)
    (miss : FooterCache → Act (List CaptureDescriptor))
    → ((cache : FooterCache) → Needs n b (miss cache))
    → Needs n b (with_cached r ref miss)
unfolding with_cached
with_cached-Needs r ref n b miss h = record {
  leaves = λ k c s hn hb.
      let cache = r.others s in
      elim (Option-cases (entry_at ref cache.entries)) [
        | inl e ↦ rw (e, with_cached) ((h cache).leaves k c s hn hb)
        | inr (x, e) ↦
            rw (e, with_cached) (from_read-no_limit _, omega (arith, hn), omega (arith, hb))
      ];
}

load_after-Needs :
    (r : CaptureReader) (store : RangeStore) (ref : PackRef) (cache : FooterCache)
    → Needs 2 (max_footer_read_bytes ref) (load_after r store ref cache)
unfolding load_after load_footer
load_after-Needs r store ref cache =
    let h =
      Needs-le (2 + 0) (max_footer_read_bytes ref + 0) 2 (max_footer_read_bytes ref) _
        (bind-Needs (λ x. Unit {0}) 2 (max_footer_read_bytes ref) 0 0
          (budgeted_from_store r store ref)
          (λ x. lift (from_read (index_descriptors r.codec x)) >>= λ footer.
            with_cached r ref (keep_footer r ref x.footer_read_bytes footer))
          (from_store-Needs r store ref) (any-Gives _)
          (λ x u.
            then-Needs 0 0 (from_read (index_descriptors r.codec x)) _ (from_read-no_limit _)
              (λ footer e.
                with_cached-Needs r ref 0 0 (keep_footer r ref x.footer_read_bytes footer)
                  (λ cache'. record {
                    leaves = λ k c s hn hb. (refl, omega (arith, hn), omega (arith, hb));
                  }))))
        (omega arith) (omega arith) in
    record { leaves = λ k c s hn hb. h.leaves k c (record s { cache = cache }) hn hb }

footer_descriptors-Needs :
    (r : CaptureReader) (store : RangeStore) (ref : PackRef)
    → Needs 2 (max_footer_read_bytes ref) (footer_descriptors r store ref)
unfolding footer_descriptors
footer_descriptors-Needs r store ref =
    with_cached-Needs r ref 2 (max_footer_read_bytes ref) (load_after r store ref)
      (load_after-Needs r store ref)

pub match_cases :
    (d : CaptureDescriptor) (footer : List CaptureDescriptor)
    → (require_footer_match d footer ≡ given tt)
      ⊎ (require_footer_match d footer ≡ failed wrong_format)
unfolding require_footer_match
match_cases d footer = elim (Option-cases (by_id d.metadata.capture_id footer)) [
  | inl e ↦ inr (rw (e, require_footer_match) refl)
  | inr (a, e) ↦
      rw (e, require_footer_match)
        (if_cases (λ x. (x ≡ given tt) ⊎ (x ≡ failed wrong_format))
          (metadata_eq d.metadata a.metadata && same_record_locator d a) (λ h. inl refl)
          (λ h. inr refl))
]

matches-no_limit :
    (footer : List CaptureDescriptor) (xs : List PlannedCapture)
    → is_limit (require_matches footer xs) ≡ false
unfolding require_matches
matches-no_limit footer [] = refl
matches-no_limit footer (x ∷ xs) =
    let later = matches-no_limit footer xs in
    elim (match_cases x.descriptor footer) [
      | inl e ↦ rw (e, require_matches) later
      | inr e ↦ rw (e, require_matches) refl
    ]

known_store-no_limit : (o : Option RangeStore) → is_limit (known_store o) ≡ false
known_store-no_limit none = refl
known_store-no_limit (some s) = refl

first_ref-no_limit : (xs : List PlannedCapture) → is_limit (first_ref xs) ≡ false
first_ref-no_limit [] = refl
first_ref-no_limit (x ∷ xs) = refl

verify_plan-Needs :
    (r : CaptureReader) (p : ObjectPlan)
    → Needs 2 (footer_bytes_of (first_ref p.items)) (verify_plan r p)
unfolding verify_plan
verify_plan-Needs r p =
    then-Needs 2 (footer_bytes_of (first_ref p.items)) (known_store (store_at p.store_id r.stores))
      _ (known_store-no_limit _)
      (λ store e.
        then-Needs 2 (footer_bytes_of (first_ref p.items)) (first_ref p.items) _
          (first_ref-no_limit p.items)
          (λ ref e'.
            Needs-le (2 + 0) (max_footer_read_bytes ref + 0) 2 (footer_bytes_of (first_ref p.items))
              _
              (bind-Needs (λ x. Unit {0}) 2 (max_footer_read_bytes ref) 0 0
                (footer_descriptors r store ref) _ (footer_descriptors-Needs r store ref)
                (any-Gives _)
                (λ footer u.
                  then-Needs 0 0 (require_matches footer p.items) _
                    (matches-no_limit footer p.items) (λ v e''. lift-Needs _ refl)))
              (omega arith) (rw e' (omega arith))))

pub verify_plans-Needs :
    (r : CaptureReader) (ps : List ObjectPlan)
    → Needs (2 * length ps) (footer_bytes ps) (verify_plans r ps)
unfolding verify_plans footer_bytes
verify_plans-Needs r [] = lift-Needs _ refl
verify_plans-Needs r (p ∷ ps) =
    Needs-le (2 + (2 * length ps + 0)) (footer_bytes_of (first_ref p.items) + (footer_bytes ps + 0))
      _ _ _
      (bind-Needs (λ x. Unit {0}) 2 (footer_bytes_of (first_ref p.items)) (2 * length ps + 0)
        (footer_bytes ps + 0) (verify_plan r p) _ (verify_plan-Needs r p) (any-Gives _)
        (λ v u.
          bind-Needs (λ x. Unit {0}) (2 * length ps) (footer_bytes ps) 0 0 (verify_plans r ps) _
            (verify_plans-Needs r ps) (any-Gives _) (λ vs u'. lift-Needs _ refl)))
      (omega arith) (omega arith)

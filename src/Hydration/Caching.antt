-- ===== src/Hydration/Caching.antt =====
-- The footer cache of a reader stays within its limits.
use dmi.Base.{
  List, [], ◌∷◌, ◌≡◌, ◌≤◌, ◌<◌, ◌+◌, ◌-◌, ◌&&◌, ◌||◌, ℕ, inl, inr, refl, arith, length, total, ltb,
  leb, if_cases, Option-cases, length-append, total-append,
}
use dmi.Model.{CaptureDescriptor, PackRef}
use dmi.Hydration.{
  Fetched, given, failed, FooterCacheEntry, FooterCache, Session, Act, ◌>>=◌, and_then, lift,
  RangeStore, read_from, consume, budgeted_read, CaptureReader,
}
use dmi.Hydration.Plan.{ObjectPlan}
use dmi.Hydration.Footers.{
  is_entry, entry_at, move_to_end, evict, keep_entry, budgeted_from_store, with_cached, load_footer,
  load_after, footer_descriptors, keep_footer,
}
use dmi.Hydration.Reader.{verify_plan, verify_plans}

abbrev pub wire_total : List FooterCacheEntry → ℕ
wire_total es = total (λ (e : FooterCacheEntry). e.wire_bytes) es

-- `_footer_cache_bytes` is what the entries take, and both limits are kept.
pub record IsBounded (r : CaptureReader) (cache : FooterCache) : Type 0 where
  pub counted : cache.bytes ≡ wire_total cache.entries
  pub packs : length cache.entries ≤ r.footer_cache_limit
  pub within : cache.bytes ≤ r.footer_cache_bytes_limit

move-length :
    (ref : PackRef) (es : List FooterCacheEntry)
    → (length (move_to_end ref es) ≡ length es) × (wire_total (move_to_end ref es) ≡ wire_total es)
unfolding move_to_end
move-length ref [] = (refl, refl)
move-length ref (e ∷ es) =
    let (a, b) = move-length ref es in
    if_cases (λ l. (length l ≡ length (e ∷ es)) × (wire_total l ≡ wire_total (e ∷ es)))
      (is_entry ref e)
      (λ h. (
        omega (arith, length-append es (e ∷ [])),
        omega (arith, total-append (λ (x : FooterCacheEntry). x.wire_bytes) es (e ∷ [])),
      ))
      (λ h. (omega (arith, a), omega (arith, b)))

move-IsBounded :
    (r : CaptureReader) (ref : PackRef) (cache : FooterCache)
    → IsBounded r cache
    → IsBounded r (record cache { entries = move_to_end ref cache.entries })
move-IsBounded r ref cache h =
    let (a, b) = move-length ref cache.entries in
    record {
      counted = omega (arith, h.counted, b);
      packs = omega (arith, h.packs, a);
      within = h.within;
    }

-- What the loop leaves has room for an entry of `size` bytes.
record HasRoom (r : CaptureReader) (size : ℕ) (cache : FooterCache) : Type 0 where
  counted : cache.bytes ≡ wire_total cache.entries
  packs : length cache.entries < r.footer_cache_limit
  within : cache.bytes + size ≤ r.footer_cache_bytes_limit

evict-HasRoom :
    (r : CaptureReader) (size : ℕ) (es : List FooterCacheEntry) (bytes : ℕ)
    → bytes ≡ wire_total es
    → 0 < r.footer_cache_limit
    → size ≤ r.footer_cache_bytes_limit
    → HasRoom r size (evict r size es bytes)
unfolding evict
evict-HasRoom r size [] bytes c l w = record {
  counted = c;
  packs = l;
  within = omega (arith, c, w);
}
evict-HasRoom r size (e ∷ es) bytes c l w =
    if_cases (HasRoom r size)
      (leb r.footer_cache_limit (length (e ∷ es)) || ltb r.footer_cache_bytes_limit (bytes + size))
      (λ h. evict-HasRoom r size es (bytes - e.wire_bytes) (omega (arith, c)) l w)
      (λ h. record { counted = c; packs = ground (arith, h); within = ground (arith, h) })

keep_entry-IsBounded :
    (r : CaptureReader) (e : FooterCacheEntry) (cache : FooterCache)
    → IsBounded r cache
    → IsBounded r (keep_entry r e cache)
unfolding keep_entry
keep_entry-IsBounded r e cache h =
    let room = evict r e.wire_bytes cache.entries cache.bytes in
    if_cases (IsBounded r)
      (ltb 0 r.footer_cache_limit && leb e.wire_bytes r.footer_cache_bytes_limit)
      (λ t.
        let g =
          evict-HasRoom r e.wire_bytes cache.entries cache.bytes h.counted (ground (arith, t))
            (ground (arith, t)) in
        record {
          counted = omega (
            arith,
            g.counted,
            total-append (λ (x : FooterCacheEntry). x.wire_bytes) room.entries (e ∷ []),
          );
          packs = omega (arith, g.packs, length-append room.entries (e ∷ []));
          within = g.within;
        })
      (λ t. h)

-- A step that leaves a bounded cache bounded.
pub record Bounds {A : Type 0} (r : CaptureReader) (m : Act A) : Type 0 where
  pub bounds : (s : Session) → IsBounded r s.cache → IsBounded r (m s).0.cache

pub and_then-IsBounded :
    {A B : Type 0} (r : CaptureReader) (x : Session × Fetched A) (f : A → Act B)
    → IsBounded r x.0.cache
    → ((a : A) → Bounds r (f a))
    → IsBounded r (and_then x f).0.cache
and_then-IsBounded r (s, given a) f h k = (k a).bounds s h
and_then-IsBounded r (s, failed e) f h k = h

pub bind-Bounds :
    {A B : Type 0} (r : CaptureReader) (m : Act A) (f : A → Act B)
    → Bounds r m
    → ((a : A) → Bounds r (f a))
    → Bounds r (m >>= f)
bind-Bounds r m f h k = record { bounds = λ s b. and_then-IsBounded r (m s) f (h.bounds s b) k }

pub lift-Bounds : {A : Type 0} (r : CaptureReader) (x : Fetched A) → Bounds r (lift x)
lift-Bounds r x = record { bounds = λ s b. b }

pub read_from-Bounds :
    (r : CaptureReader) (store : RangeStore) (ref : PackRef) (offset size : ℕ)
    → Bounds r (read_from store ref offset size)
unfolding read_from
read_from-Bounds r store ref offset size = record { bounds = λ s b. b }

consume-Bounds : (r : CaptureReader) (size : ℕ) → Bounds r (consume size)
unfolding consume
consume-Bounds r size = record {
  bounds = λ s b.
      if_cases (λ (x : Session × Fetched (Unit {0})). IsBounded r x.0.cache) (ltb s.requests 1)
        (λ e. b)
        (λ e.
          if_cases (λ (x : Session × Fetched (Unit {0})). IsBounded r x.0.cache) (ltb s.bytes size)
            (λ e'. b) (λ e'. b));
}

budgeted_read-Bounds :
    (r : CaptureReader) (store : RangeStore) (ref : PackRef) (offset size : ℕ)
    → Bounds r (budgeted_read store ref offset size)
unfolding budgeted_read
budgeted_read-Bounds r store ref offset size =
    bind-Bounds r (consume size) (λ u. read_from store ref offset size) (consume-Bounds r size)
      (λ u. read_from-Bounds r store ref offset size)

from_store-Bounds :
    (r : CaptureReader) (store : RangeStore) (ref : PackRef)
    → Bounds r (budgeted_from_store r store ref)
unfolding budgeted_from_store
from_store-Bounds r store ref = search (bind-Bounds, lift-Bounds, budgeted_read-Bounds) depth 12

-- Given that what other threads make of the cache is bounded.
module _ (r : CaptureReader) (others : (s : Session) → IsBounded r (r.others s)) where
  with_cached-Bounds :
      (ref : PackRef) (miss : FooterCache → Act (List CaptureDescriptor))
      → ((cache : FooterCache) (s : Session)
          → IsBounded r cache
          → IsBounded r s.cache
          → IsBounded r (miss cache s).0.cache)
      → Bounds r (with_cached r ref miss)
  unfolding with_cached
  with_cached-Bounds ref miss h = record {
    bounds = λ s b. elim (Option-cases (entry_at ref (r.others s).entries)) [
      | inl e ↦ rw (e, with_cached) (h (r.others s) s (others s) b)
      | inr (x, e) ↦ rw (e, with_cached) (move-IsBounded r ref (r.others s) (others s))
    ];
  }

  keep-Bounds :
      (ref : PackRef) (size : ℕ) (footer : List CaptureDescriptor)
      → Bounds r (with_cached r ref (keep_footer r ref size footer))
  keep-Bounds ref size footer =
      with_cached-Bounds ref (keep_footer r ref size footer)
        (λ cache s h b. keep_entry-IsBounded r _ cache h)

  load_footer-Bounds : (store : RangeStore) (ref : PackRef) → Bounds r (load_footer r store ref)
  unfolding load_footer
  load_footer-Bounds store ref =
      search (bind-Bounds, lift-Bounds, from_store-Bounds, keep-Bounds) depth 8

  footer_descriptors-Bounds :
      (store : RangeStore) (ref : PackRef) → Bounds r (footer_descriptors r store ref)
  unfolding footer_descriptors load_after
  footer_descriptors-Bounds store ref =
      with_cached-Bounds ref (load_after r store ref)
        (λ cache s h b. (load_footer-Bounds store ref).bounds (record s { cache = cache }) h)

  verify_plan-Bounds : (p : ObjectPlan) → Bounds r (verify_plan r p)
  unfolding verify_plan
  verify_plan-Bounds p = search (bind-Bounds, lift-Bounds, footer_descriptors-Bounds) depth 12

  pub verify_plans-Bounds : (ps : List ObjectPlan) → Bounds r (verify_plans r ps)
  unfolding verify_plans
  verify_plans-Bounds [] = lift-Bounds r (given [])
  verify_plans-Bounds (p ∷ ps) =
      bind-Bounds r (verify_plan r p) (λ v. verify_plans r ps >>= λ vs. lift (given (v ∷ vs)))
        (verify_plan-Bounds p)
        (λ v.
          bind-Bounds r (verify_plans r ps) (λ vs. lift (given (v ∷ vs))) (verify_plans-Bounds ps)
            (λ vs. lift-Bounds r _))

-- ===== src/Catalog/Balance.antt =====
-- Every pack that a pass was asked for is counted.
use dmi.Base.{
  Bool, List, Option, String, [], ap, arith, false, if◌then◌else◌, length, length-append,
  length-take, ltb, none, some, subst, suc, total, true, zero, ℕ, ◌++◌, ◌+◌, ◌∷◌, ◌≡◌, ◌≤◌,
}
use dmi.Model.{PackRef, CaptureDescriptor}
use dmi.Catalog.{Answer, returns, raises, PackIdentity, IndexFailure, value_error}
use dmi.Catalog.Partition.{partition_refs}
use dmi.Catalog.Writer.{CatalogWriter, IndexerState, Ix, raise}
use dmi.Catalog.Publish.{IndexerConfig, publish_batch}
use dmi.Catalog.Order.{Ends, continue-Ends, if-Ends}
use dmi.Catalog.Indexing.{
  IndexResult, limited, merge, Found, holds, fails, PackInventory, Batch, pending, read_into,
  gather, ask_committed, finish, index_pending, index, inspect_all, with_rejected,
  index_object_keys, reconcile_page, next_page, rebuild_from, rebuild, no_result, distinct,
  failure_at, empty_batch,
}

-- A pack is skipped, indexed or failed; and what is listed of the failures is not more than failed.
pub record IsBalanced (r : IndexResult) : Type 0 where
  pub packs : r.requested_packs ≡ r.skipped_packs + r.indexed_packs + r.failed_packs
  pub listed : length r.failures ≤ r.failed_packs

pub length-limited :
    (limit : Option ℕ) (fs : List IndexFailure) → length (limited limit fs) ≤ length fs
length-limited none fs = omega arith
length-limited (some n) fs = omega (arith, length-take n fs)

merge-IsBalanced :
    (a b : IndexResult) (limit : Option ℕ)
    → IsBalanced a
    → IsBalanced b
    → IsBalanced (merge a b limit)
unfolding merge
merge-IsBalanced a b limit ha hb = record {
  packs = omega (arith, ha.packs, hb.packs);
  listed = omega (
    arith,
    ha.listed,
    hb.listed,
    length-limited limit (a.failures ++ b.failures),
    length-append a.failures b.failures,
  );
}

length-pending :
    (done : List PackIdentity) (refs : List PackRef) → length (pending done refs) ≤ length refs
unfolding pending
length-pending done [] = omega arith
length-pending done (ref ∷ refs) = ground (arith, length-pending done refs)

module _ (w : CatalogWriter) (v : PackInventory) (g : IndexerConfig)
    (size : CaptureDescriptor → ℕ) where
  -- What the loop has dealt with.
  abbrev pub counted : Batch → ℕ
  counted b = length b.valid_refs + length b.failures

  -- What is left of a batch that was gathered.
  abbrev pub Gathers : ℕ → Answer Batch → Type 0
  Gathers n (returns b) = counted b ≡ n
  Gathers n (raises e) = Unit

  if-Gathers :
      (n : ℕ) (b : Bool) (x y : Answer Batch)
      → Gathers n x
      → Gathers n y
      → Gathers n (if b then x else y)
  if-Gathers n true x y hx hy = hx
  if-Gathers n false x y hx hy = hy

  read_into-Gathers :
      (n : ℕ) (b : Batch) (ref : PackRef) (found : Found (List CaptureDescriptor))
      (next : Batch → Answer Batch)
      → ((b' : Batch) → counted b' ≡ suc (counted b) → Gathers n (next b'))
      → Gathers n (read_into w v g size b ref found next)
  unfolding read_into
  read_into-Gathers n b ref (fails name) next h =
      h _
        (omega (arith, length-append b.failures (failure_at ref.pack_id ref.object_key name ∷ [])))
  read_into-Gathers n b ref (holds ds) next h =
      if-Gathers n (ltb g.max_estimated_bytes (b.estimated + total size ds)) (raises value_error) _
        tt (h _ (omega (arith, length-append b.valid_refs (ref ∷ []))))

  gather-Gathers :
      (n : ℕ) (refs : List PackRef) (b : Batch)
      → counted b + length refs ≡ n
      → Gathers n (gather w v g size refs b)
  unfolding gather
  gather-Gathers n [] b e = omega (arith, e)
  gather-Gathers n (ref ∷ refs) b e =
      read_into-Gathers n b ref (v.descriptors_of ref) (gather w v g size refs)
        (λ b' h. gather-Gathers n refs b' (omega (arith, e, h)))

  -- A step whose result is balanced.
  abbrev pub Balanced : IndexerState × Answer IndexResult → Type 0
  Balanced x = Ends (λ r t. IsBalanced r) (λ t. Unit {0}) x

  anything {ℓ} :
      {A : Type ℓ} (x : IndexerState × Answer A) → Ends (λ a t. Unit {0}) (λ t. Unit {0}) x
  unfolding Ends
  anything (s, returns a) = tt
  anything (s, raises e) = tt

  finish-Balanced :
      (unique waiting : List PackRef) (conflicts : List IndexFailure) (r : Answer Batch)
      (s : IndexerState)
      → length waiting ≤ length unique
      → Gathers (length conflicts + length waiting) r
      → Balanced (finish w v g size unique waiting conflicts r s)
  unfolding Ends finish
  finish-Balanced unique waiting conflicts (raises e) s p h = tt
  finish-Balanced unique waiting conflicts (returns b) s p h =
      continue-Ends (λ a t. Unit {0}) (λ r t. IsBalanced r) (λ t. Unit {0})
        (publish_batch w g b.valid_refs b.descriptors s) _
        (anything (publish_batch w g b.valid_refs b.descriptors s))
        (λ s' inserts u. record { packs = omega (arith, p, h); listed = omega arith })

  index-Balanced : (refs : List PackRef) (s : IndexerState) → Balanced (index w v g size refs s)
  unfolding index index_pending Ends
  index-Balanced refs s =
      let parts = partition_refs refs in
      if-Ends (λ r t. IsBalanced r) (λ t. Unit {0}) (ltb g.max_packs (length refs))
        (raise value_error) _ s tt
        (continue-Ends (λ a t. Unit {0}) (λ r t. IsBalanced r) (λ t. Unit {0})
          (ask_committed w v g size parts.0 s) _ (anything (ask_committed w v g size parts.0 s))
          (λ s' done u.
            finish-Balanced parts.0 (pending done parts.0) parts.1 _ s'
              (length-pending done parts.0)
              (gather-Gathers _ (pending done parts.0) (empty_batch parts.1) (omega arith))))

  with_rejected-IsBalanced :
      (fs : List IndexFailure) (r : IndexResult)
      → IsBalanced r
      → IsBalanced (with_rejected w v g size fs r)
  unfolding with_rejected
  with_rejected-IsBalanced [] r h = h
  with_rejected-IsBalanced (f ∷ fs) r h =
      merge-IsBalanced r _ (some g.max_failure_details) h
        (record { packs = omega arith; listed = omega arith })

  keys-Balanced :
      (keys : List String) (s : IndexerState) → Balanced (index_object_keys w v g size keys s)
  unfolding index_object_keys Ends
  keys-Balanced keys s =
      let found = inspect_all w v g size (distinct [] keys) in
      if-Ends (λ r t. IsBalanced r) (λ t. Unit {0}) (ltb g.max_packs (length keys))
        (raise value_error) _ s tt
        (continue-Ends (λ r t. IsBalanced r) (λ r t. IsBalanced r) (λ t. Unit {0})
          (index w v g size found.0 s) _ (index-Balanced found.0 s)
          (λ s' r h. with_rejected-IsBalanced found.1 r h))

  page-Balanced :
      (prefix : String) (cursor : Option String) (limit : ℕ) (s : IndexerState)
      → Ends
          (λ p t. IsBalanced p.0)
          (λ t. Unit {0})
          (reconcile_page w v g size prefix cursor limit s)
  unfolding reconcile_page Ends
  page-Balanced prefix cursor limit s =
      if-Ends (λ p t. IsBalanced p.0) (λ t. Unit {0}) (ltb g.max_packs limit) (raise value_error) _
        s tt
        (continue-Ends (λ a t. Unit {0}) (λ p t. IsBalanced p.0) (λ t. Unit {0})
          (s, v.list_objects s.trace prefix cursor limit) _
          (anything (s, v.list_objects s.trace prefix cursor limit))
          (λ s1 page u.
            continue-Ends (λ r t. IsBalanced r) (λ p t. IsBalanced p.0) (λ t. Unit {0})
              (index_object_keys w v g size page.object_keys s1) _
              (keys-Balanced page.object_keys s1) (λ s2 r h. h)))

  next_page-Balanced :
      (sum : IndexResult) (next : Option String)
      (again : Option String → IndexResult → Ix IndexResult) (s : IndexerState)
      → IsBalanced sum
      → ((c : Option String) → Balanced (again c sum s))
      → Balanced (next_page w v g size sum next again s)
  unfolding next_page Ends
  next_page-Balanced sum none again s h k = h
  next_page-Balanced sum (some c) again s h k = k (some c)

  rebuild_from-Balanced :
      (prefix : String) (page_size pages : ℕ) (cursor : Option String) (sum : IndexResult)
      (s : IndexerState)
      → IsBalanced sum
      → Balanced (rebuild_from w v g size prefix page_size pages cursor sum s)
  unfolding rebuild_from Ends
  rebuild_from-Balanced prefix page_size zero cursor sum s h = tt
  rebuild_from-Balanced prefix page_size (suc pages) cursor sum s h =
      continue-Ends (λ p t. IsBalanced p.0) (λ r t. IsBalanced r) (λ t. Unit {0})
        (reconcile_page w v g size prefix cursor page_size s) _
        (page-Balanced prefix cursor page_size s)
        (λ s' p hp.
          let m = merge-IsBalanced sum p.0 (some g.max_failure_details) h hp in
          next_page-Balanced _ p.1 _ s' m
            (λ c. rebuild_from-Balanced prefix page_size pages c _ s' m))

abbrev value_or : IndexResult → Answer IndexResult → IndexResult
value_or d (returns a) = a
value_or d (raises e) = d

returned :
    (x : IndexerState × Answer IndexResult) (r : IndexResult)
    → Ends (λ r t. IsBalanced r) (λ t. Unit {0}) x
    → x.1 ≡ returns r
    → IsBalanced r
unfolding Ends
returned (s, returns a) r h e = subst IsBalanced (ap (value_or a) e) h
returned (s, raises x) r h e = absurd (ground arith)

-- Whatever the store and the writer answer: if `rebuild` returns, every pack that it saw was
-- skipped, indexed or failed, none twice, and no more failures are listed than packs failed.
pub rebuild-IsBalanced :
    (w : CatalogWriter) (v : PackInventory) (g : IndexerConfig) (size : CaptureDescriptor → ℕ)
    (prefix : String) (page_size max_pages : ℕ) (s : IndexerState) (r : IndexResult)
    → (rebuild w v g size prefix page_size max_pages s).1 ≡ returns r
    → IsBalanced r
unfolding rebuild Ends
rebuild-IsBalanced w v g size prefix page_size max_pages s r e =
    returned (rebuild w v g size prefix page_size max_pages s) r
      (if-Ends (λ r t. IsBalanced r) (λ t. Unit {0}) (ltb 0 max_pages) _ (raise value_error) s
        (rebuild_from-Balanced w v g size prefix page_size max_pages none no_result s
          (record { packs = omega arith; listed = omega arith }))
        tt)
      e

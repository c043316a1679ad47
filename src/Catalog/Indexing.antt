-- ===== src/Catalog/Indexing.antt =====
-- `CatalogIndexer.index`, `IndexResult.merge` and `CatalogReconciler`.
-- Times and messages are left out of the results, and the event that only reports a result.
use dmi.Base.{
  Bool, List, Option, String, [], false, if◌then◌else◌, length, ltb, map, none, some, str_eq, suc,
  take, total, zero, ℕ, ◌++◌, ◌+◌, ◌-◌, ◌||◌, ◌∷◌,
}
use dmi.Model.{PackRef, CaptureDescriptor}
use dmi.Catalog.{
  Answer, returns, raises, failed, value_error, PackIdentity, identity, identity_eq, IndexFailure,
}
use dmi.Catalog.Partition.{partition_refs}
use dmi.Catalog.Writer.{CatalogWriter, Ix, continue, ◌>>=◌, pure, raise, committed_ids, Trace}
use dmi.Catalog.Publish.{IndexerConfig, publish_batch}

pub record IndexResult : Type 0 where
  pub requested_packs : ℕ
  pub skipped_packs : ℕ
  pub indexed_packs : ℕ
  pub indexed_rows : ℕ
  pub failed_packs : ℕ
  pub descriptor_inserts : ℕ
  pub estimated_bytes : ℕ
  pub failures : List IndexFailure

abbrev pub no_result : IndexResult
no_result = record {
  requested_packs = 0;
  skipped_packs = 0;
  indexed_packs = 0;
  indexed_rows = 0;
  failed_packs = 0;
  descriptor_inserts = 0;
  estimated_bytes = 0;
  failures = [];
}

-- `failures[:failure_limit]`, or all of them.
abbrev pub limited : Option ℕ → List IndexFailure → List IndexFailure
limited none failures = failures
limited (some n) failures = take n failures

unfoldable pub merge : IndexResult → IndexResult → Option ℕ → IndexResult
merge a b limit = record {
  requested_packs = a.requested_packs + b.requested_packs;
  skipped_packs = a.skipped_packs + b.skipped_packs;
  indexed_packs = a.indexed_packs + b.indexed_packs;
  indexed_rows = a.indexed_rows + b.indexed_rows;
  failed_packs = a.failed_packs + b.failed_packs;
  descriptor_inserts = a.descriptor_inserts + b.descriptor_inserts;
  estimated_bytes = a.estimated_bytes + b.estimated_bytes;
  failures = limited limit (a.failures ++ b.failures);
}

-- What reading something from the store gives: its value, or the class of the exception.
pub data Found {ℓ} (A : Type ℓ) : Type ℓ where
  holds : A → Found A
  fails : String → Found A

pub record Page : Type 0 where
  pub object_keys : List String
  pub next_cursor : Option String

-- The pack store. A stored pack never changes; what is listed may.
pub record PackInventory : Type 0 where
  pub descriptors_of : PackRef → Found (List CaptureDescriptor)
  pub inspect : String → Found PackRef
  pub list_objects : Trace → String → Option String → ℕ → Answer Page

pub record Batch : Type 0 where
  pub estimated : ℕ
  pub descriptors : List CaptureDescriptor
  pub valid_refs : List PackRef
  pub failures : List IndexFailure

abbrev pub empty_batch : List IndexFailure → Batch
empty_batch conflicts = record {
  estimated = 0;
  descriptors = [];
  valid_refs = [];
  failures = conflicts;
}

abbrev pub failure_at : String → String → String → IndexFailure
failure_at id key name = record { pack_id = id; object_key = key; error_type = name }

unfoldable pub mem_identity : List PackIdentity → PackIdentity → Bool
mem_identity [] key = false
mem_identity (k ∷ ks) key = identity_eq k key || mem_identity ks key

unfoldable pub pending : List PackIdentity → List PackRef → List PackRef
unfolding mem_identity
pending done [] = []
pending done (ref ∷ refs) =
    if mem_identity done (identity ref) then pending done refs else ref ∷ pending done refs

unfoldable pub mem_key : List String → String → Bool
mem_key [] key = false
mem_key (k ∷ ks) key = str_eq k key || mem_key ks key

-- `dict.fromkeys(object_keys)`, after the keys that came before.
unfoldable pub distinct : List String → List String → List String
unfolding mem_key
distinct seen [] = []
distinct seen (key ∷ keys) =
    if mem_key seen key then distinct seen keys else key ∷ distinct (key ∷ seen) keys

module _ (w : CatalogWriter) (v : PackInventory) (g : IndexerConfig)
    (size : CaptureDescriptor → ℕ) where
  unfoldable pub read_into :
      Batch → PackRef → Found (List CaptureDescriptor) → (Batch → Answer Batch) → Answer Batch
  read_into b ref (fails name) next =
      next (record b { failures = b.failures ++ failure_at ref.pack_id ref.object_key name ∷ [] })
  read_into b ref (holds ds) next =
      if ltb g.max_estimated_bytes (b.estimated + total size ds)
      then raises value_error
      else next (record {
        estimated = b.estimated + total size ds;
        descriptors = b.descriptors ++ ds;
        valid_refs = b.valid_refs ++ ref ∷ [];
        failures = b.failures;
      })

  -- The loop over `pending`.
  unfoldable pub gather : List PackRef → Batch → Answer Batch
  unfolding read_into
  gather [] b = returns b
  gather (ref ∷ refs) b = read_into b ref (v.descriptors_of ref) (gather refs)

  unfoldable pub ask_committed : List PackRef → Ix (List PackIdentity)
  ask_committed [] = pure []
  ask_committed (ref ∷ refs) = committed_ids w (map identity (ref ∷ refs))

  unfoldable pub finish :
      List PackRef → List PackRef → List IndexFailure → Answer Batch → Ix IndexResult
  finish unique waiting conflicts (raises e) = raise e
  finish unique waiting conflicts (returns b) = do
    inserts ← publish_batch w g b.valid_refs b.descriptors
    pure (record {
      requested_packs = length unique + length conflicts;
      skipped_packs = length unique - length waiting;
      indexed_packs = length b.valid_refs;
      indexed_rows = length b.descriptors;
      failed_packs = length b.failures;
      descriptor_inserts = inserts;
      estimated_bytes = b.estimated;
      failures = b.failures;
    })

  unfoldable pub index_pending :
      List PackRef → List IndexFailure → List PackIdentity → Ix IndexResult
  unfolding finish gather
  index_pending unique conflicts done =
      let waiting = pending done unique in
      finish unique waiting conflicts (gather waiting (empty_batch conflicts))

  unfoldable pub index : List PackRef → Ix IndexResult
  unfolding ask_committed index_pending
  index refs =
      if ltb g.max_packs (length refs)
      then raise value_error
      else (let (unique, conflicts) = partition_refs refs in
          ask_committed unique >>= index_pending unique conflicts)

  unfoldable pub inspected :
      String → Found PackRef → List PackRef × List IndexFailure → List PackRef × List IndexFailure
  inspected key (holds ref) (refs, failures) = (ref ∷ refs, failures)
  inspected key (fails name) (refs, failures) = (refs, failure_at "" key name ∷ failures)

  -- The loop over the keys.
  unfoldable pub inspect_all : List String → List PackRef × List IndexFailure
  unfolding inspected
  inspect_all [] = ([], [])
  inspect_all (key ∷ keys) = inspected key (v.inspect key) (inspect_all keys)

  unfoldable pub with_rejected : List IndexFailure → IndexResult → IndexResult
  unfolding merge
  with_rejected [] result = result
  with_rejected (f ∷ fs) result =
      let rejected = record no_result {
        requested_packs = length (f ∷ fs);
        failed_packs = length (f ∷ fs);
        failures = f ∷ fs;
      } in
      merge result rejected (some g.max_failure_details)

  unfoldable pub index_object_keys : List String → Ix IndexResult
  unfolding index inspect_all with_rejected
  index_object_keys keys =
      if ltb g.max_packs (length keys)
      then raise value_error
      else (let (refs, failures) = inspect_all (distinct [] keys) in
          index refs >>= λ result. pure (with_rejected failures result))

  unfoldable pub reconcile_page : String → Option String → ℕ → Ix (IndexResult × Option String)
  unfolding index_object_keys
  reconcile_page prefix cursor limit = if ltb g.max_packs limit then raise value_error else λ s.
      continue s (v.list_objects s.trace prefix cursor limit)
        (λ page. index_object_keys page.object_keys >>= λ result. pure (result, page.next_cursor))

  -- The next round of `rebuild`, or its result.
  unfoldable pub next_page :
      IndexResult → Option String → (Option String → IndexResult → Ix IndexResult) → Ix IndexResult
  next_page total none again = pure total
  next_page total (some cursor) again = again (some cursor) total

  -- The loop of `rebuild`, with the number of pages that are left.
  unfoldable pub rebuild_from : String → ℕ → ℕ → Option String → IndexResult → Ix IndexResult
  unfolding reconcile_page next_page merge
  rebuild_from prefix page_size zero cursor total = raise (failed "CatalogRebuildExhaustedError")
  rebuild_from prefix page_size (suc pages) cursor total = do
    page ← reconcile_page prefix cursor page_size
    next_page (merge total page.0 (some g.max_failure_details)) page.1
        (rebuild_from prefix page_size pages)

  unfoldable pub rebuild : String → ℕ → ℕ → Ix IndexResult
  unfolding rebuild_from
  rebuild prefix page_size max_pages =
      if ltb 0 max_pages
      then rebuild_from prefix page_size max_pages none no_result
      else raise value_error

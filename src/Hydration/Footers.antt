-- ===== src/Hydration/Footers.antt =====
-- The footers that `hydrate` reads: `_footer_descriptors` of src/dmi/storage/capture/reader.py, its
-- cache, and `PackIndex.from_store` over a `_BudgetedPackStore`.
use dmi.Base.{
  Bool, List, Option, [], if◌then◌else◌, leb, length, ltb, map, none, some, str_eq, ℕ, ◌&&◌, ◌++◌,
  ◌+◌, ◌-◌, ◌||◌, ◌∷◌,
}
use dmi.Model.{CaptureDescriptor, PackRef}
use dmi.Pack.Writer.{Codec, header_size, trailer_size}
use dmi.Pack.Reader.{Read, ok, bad_format, require}
use dmi.Pack.Reader
use dmi.Pack.Index.{PackIndex, index_trailer, index_footer}
use dmi.Pack.Reading.{descriptor}
use dmi.Keys.{codes, reject_a_foreign_tenant}
use dmi.Hydration.{
  given, failed, refused, FooterCacheEntry, FooterCache, Act, ◌>>=◌, ◌>>◌, lift, from_read,
  RangeStore, budgeted_read, CaptureReader,
}

-- `PackIndex.from_store`
unfoldable pub budgeted_from_store : CaptureReader → RangeStore → PackRef → Act PackIndex
unfolding budgeted_read
budgeted_from_store r store ref = do
  lift (if str_eq ref.store_id store.store_id then given tt else failed refused)
  lift (from_read (require (leb (header_size + trailer_size + 2) ref.object_bytes) bad_format))
  trailer_bytes ← budgeted_read store ref (ref.object_bytes - trailer_size) trailer_size
  t ← lift (from_read (index_trailer ref trailer_bytes))
  footer ← budgeted_read store ref t.footer_offset t.footer_length
  lift (from_read (index_footer r.codec r.decoder r.normal ref t footer))

abbrev pub tenants_of : List CaptureDescriptor → List (List ℕ)
tenants_of ds = map (λ d. codes d.metadata.tenant_id) ds

-- `PackIndex.descriptors`, which is `_descriptors`.
unfoldable pub index_descriptors : Codec → PackIndex → Read (List CaptureDescriptor)
index_descriptors c x =
    Reader.◌>>◌
      (reject_a_foreign_tenant c (codes x.ref.object_key)
        (map (λ y. codes y.metadata.tenant_id) x.records))
      (ok (map (descriptor x.ref) x.records))

-- `_bind_to_its_key`
unfoldable pub bind_to_its_key :
    Codec → PackRef → List CaptureDescriptor → Read (List CaptureDescriptor)
bind_to_its_key c ref ds =
    Reader.◌>>◌ (reject_a_foreign_tenant c (codes ref.object_key) (tenants_of ds)) (ok ds)

unfoldable pub is_entry : PackRef → FooterCacheEntry → Bool
is_entry ref e =
    str_eq e.store_id ref.store_id && str_eq e.pack_id ref.pack_id && str_eq e.checksum ref.checksum

unfoldable pub entry_at : PackRef → List FooterCacheEntry → Option FooterCacheEntry
unfolding is_entry
entry_at ref [] = none
entry_at ref (e ∷ es) = if is_entry ref e then some e else entry_at ref es

-- `move_to_end`
unfoldable pub move_to_end : PackRef → List FooterCacheEntry → List FooterCacheEntry
unfolding is_entry
move_to_end ref [] = []
move_to_end ref (e ∷ es) = if is_entry ref e then es ++ e ∷ [] else e ∷ move_to_end ref es

-- The `while` loop that makes room for an entry of `size` bytes.
unfoldable pub evict : CaptureReader → ℕ → List FooterCacheEntry → ℕ → FooterCache
evict r size [] bytes = record { entries = []; bytes = bytes }
evict r size (e ∷ es) bytes =
    let rest = evict r size es (bytes - e.wire_bytes) in
    if leb r.footer_cache_limit (length (e ∷ es)) || ltb r.footer_cache_bytes_limit (bytes + size)
    then rest
    else record { entries = e ∷ es; bytes = bytes }

-- What the second `with` block does when the pack is not in the cache.
unfoldable pub keep_entry : CaptureReader → FooterCacheEntry → FooterCache → FooterCache
unfolding evict
keep_entry r e cache =
    let room = evict r e.wire_bytes cache.entries cache.bytes in
    if ltb 0 r.footer_cache_limit && leb e.wire_bytes r.footer_cache_bytes_limit
    then record { entries = room.entries ++ e ∷ []; bytes = room.bytes + e.wire_bytes }
    else cache

-- A `with` block: an answer from the cache, or what else the block does.
unfoldable pub with_cached :
    CaptureReader
    → PackRef
    → (FooterCache → Act (List CaptureDescriptor))
    → Act (List CaptureDescriptor)
unfolding entry_at move_to_end bind_to_its_key
with_cached r ref miss s =
    let cache = r.others s in
    elim (entry_at ref cache.entries) [
      | none ↦ miss cache s
      | some e ↦ (
        record s { cache = record cache { entries = move_to_end ref cache.entries } },
        from_read (bind_to_its_key r.codec ref e.descriptors),
      )
    ]

abbrev pub keep_footer :
    CaptureReader
    → PackRef
    → ℕ
    → List CaptureDescriptor
    → FooterCache
    → Act (List CaptureDescriptor)
keep_footer r ref size footer cache s = (
  record s {
    cache =
        keep_entry r
          (record {
            store_id = ref.store_id;
            pack_id = ref.pack_id;
            checksum = ref.checksum;
            descriptors = footer;
            wire_bytes = size;
          })
          cache;
  },
  given footer,
)

-- What `_footer_descriptors` does between its two locks, and under the second.
unfoldable pub load_footer : CaptureReader → RangeStore → PackRef → Act (List CaptureDescriptor)
unfolding budgeted_from_store index_descriptors with_cached keep_entry
load_footer r store ref = do
  x ← budgeted_from_store r store ref
  footer ← lift (from_read (index_descriptors r.codec x))
  with_cached r ref (keep_footer r ref x.footer_read_bytes footer)

unfoldable pub load_after :
    CaptureReader → RangeStore → PackRef → FooterCache → Act (List CaptureDescriptor)
unfolding load_footer
load_after r store ref cache s = load_footer r store ref (record s { cache = cache })

-- `_footer_descriptors`
unfoldable pub footer_descriptors :
    CaptureReader → RangeStore → PackRef → Act (List CaptureDescriptor)
unfolding with_cached load_after
footer_descriptors r store ref = with_cached r ref (load_after r store ref)

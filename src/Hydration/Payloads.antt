-- ===== src/Hydration/Payloads.antt =====
-- What a hydration returns is what reading each capture by itself would return.
use dmi.Base.{All, List, Option, [], none, some, ◌∷◌, ◌≡◌, ◌+◌, ◌==◌, ℕ, refl, ◌∙◌, length, not}
use dmi.Model.{PackRef}
use dmi.Pack.Bytes.{read_range}
use dmi.Pack.Writer.{Codec}
use dmi.Hydration.{wrong_integrity, lift, refuse_if, RangeStore, read_from, from_store_answer}
use dmi.Hydration.Plan.{PlannedCapture, ReadRange}
use dmi.Hydration.Planning.{items_of}
use dmi.Hydration.Enclosing.{Inside}
use dmi.Hydration.Reader.{Payloads, slice_of, place, fetch_range, fetch_ranges}
use dmi.Hydration.Outcomes.{OnGot, Gives, Gives-mono, bind-Gives, any-Gives}
use dmi.Hydration.Placing.{
  Content, read_directly, IsStoreOf, IsDue, Places, Places-nil, Places-append, place-Places,
  slice_lem,
}

module _ (c : Codec) (content : Content) (wanted : Payloads) where
  -- What a verified plan's ranges are read from, and what is wanted of them.
  pub record IsReadable (store : RangeStore) (ref : PackRef) (x : ReadRange) : Type 0 where
    pub store_of : IsStoreOf content store
    pub here :
        All
          (λ y.
            IsDue c content wanted y
            × (y.descriptor.locator.store_id ≡ store.store_id)
            × (y.descriptor.locator.object_key ≡ ref.object_key)
            × Inside x.offset (x.offset + x.length) y)
          x.items

  range_fits :
      (store : RangeStore) (ref : PackRef) (x : ReadRange) (block : List ℕ)
      → block ≡ read_range (content store.store_id ref.object_key) x.offset x.length
      → (xs : List PlannedCapture)
      → All
          (λ y.
            IsDue c content wanted y
            × (y.descriptor.locator.store_id ≡ store.store_id)
            × (y.descriptor.locator.object_key ≡ ref.object_key)
            × Inside x.offset (x.offset + x.length) y)
          xs
      → All
          (λ y.
            IsDue c content wanted y
            × (slice_of block x.offset y.descriptor ≡ read_directly content y.descriptor))
          xs
  unfolding read_directly
  range_fits store ref x block e [] h = tt
  range_fits store ref x block e (y ∷ ys) h =
      let (due, same_store, same_key, inside) = h.0 in
      (
        (
          due,
          rw (e, same_store, same_key)
              (slice_lem (content store.store_id ref.object_key) x.offset x.length
                y.descriptor.locator.offset y.descriptor.locator.stored_length inside.0 inside.1),
        ),
        range_fits store ref x block e ys h.1,
      )

  read_from-Gives :
      (store : RangeStore) (ref : PackRef) (offset size : ℕ)
      → IsStoreOf content store
      → Gives
          (λ block. block ≡ read_range (content store.store_id ref.object_key) offset size)
          (read_from store ref offset size)
  unfolding read_from
  read_from-Gives store ref offset size h = record {
    gives = λ s. go (store.read_range ref offset size) (h ref offset size);
  }
    where
      go :
          (a : Option (List ℕ))
          → ((bytes : List ℕ)
              → a ≡ some bytes
              → bytes ≡ read_range (content store.store_id ref.object_key) offset size)
          → OnGot
              (λ block. block ≡ read_range (content store.store_id ref.object_key) offset size)
              (from_store_answer a)
      go none k = tt
      go (some bytes) k = k bytes refl

  fetch_range-Gives :
      (store : RangeStore) (ref : PackRef) (x : ReadRange) (ps : Payloads)
      → IsReadable store ref x
      → length ps ≡ length wanted
      → Gives (Places c content wanted x.items ps) (fetch_range c store ref x ps)
  unfolding fetch_range
  fetch_range-Gives store ref x ps h size =
      bind-Gives
        (λ block. block ≡ read_range (content store.store_id ref.object_key) x.offset x.length) _ _
        _ (read_from-Gives store ref x.offset x.length h.store_of)
        (λ block e.
          bind-Gives (λ u. Unit {0}) (Places c content wanted x.items ps)
            (lift (refuse_if (not (length block == x.length)) wrong_integrity))
            (λ u. lift (place c x.offset block x.items ps)) (any-Gives _)
            (λ u v. record {
              gives = λ s.
                  place-Places c content wanted x.offset block x.items ps
                    (range_fits store ref x block e x.items h.here) size;
            }))

  pub fetch_ranges-Gives :
      (store : RangeStore) (ref : PackRef) (xs : List ReadRange) (ps : Payloads)
      → All (IsReadable store ref) xs
      → length ps ≡ length wanted
      → Gives (Places c content wanted (items_of xs) ps) (fetch_ranges c store ref xs ps)
  unfolding fetch_ranges items_of
  fetch_ranges-Gives store ref [] ps h size = record { gives = λ s. Places-nil c content wanted ps }
  fetch_ranges-Gives store ref (x ∷ xs) ps h size =
      bind-Gives (Places c content wanted x.items ps) _ _ _
        (fetch_range-Gives store ref x ps h.0 size)
        (λ ps' p.
          Gives-mono (Places c content wanted (items_of xs) ps') _ (fetch_ranges c store ref xs ps')
            (λ ps'' q. Places-append c content wanted x.items (items_of xs) ps ps' ps'' p q)
            (fetch_ranges-Gives store ref xs ps' h.1 (p.size ∙ size)))

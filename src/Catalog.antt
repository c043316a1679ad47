-- ===== src/Catalog.antt =====
-- src/dmi/storage/capture/catalog.py: the indexer, its result, and the reconciler.
pub mod Partition
pub mod Partitioning
pub mod Disputes
pub mod Writer
pub mod Publish
pub mod Order
pub mod Publishing
pub mod Indexing
pub mod Balance
use dmi.Base.{Bool, String, arith, eq_iff, str_eq, true, ◌&&◌, ◌==◌, ◌≡◌}
use dmi.Model.{PackRef}

-- `PackIdentity`
pub record PackIdentity : Type 0 where
  pub store_id : String
  pub pack_id : String

unfoldable pub identity : PackRef → PackIdentity
identity ref = record { store_id = ref.store_id; pack_id = ref.pack_id }

abbrev pub identity_eq : PackIdentity → PackIdentity → Bool
identity_eq a b = str_eq a.store_id b.store_id && str_eq a.pack_id b.pack_id

-- `==` of the dataclass `PackRef`.
abbrev pub ref_eq : PackRef → PackRef → Bool
ref_eq a b =
    str_eq a.pack_id b.pack_id
    && str_eq a.store_id b.store_id
    && str_eq a.object_key b.object_key
    && a.object_bytes == b.object_bytes
    && str_eq a.checksum b.checksum
    && a.record_count == b.record_count

-- The classes of exception that this code tells apart; `failed` is any other, by its name.
pub data Error : Type 0 where
  publish_race publish_conflict publish_exhausted allocation lease value_error : Error
  failed : String → Error

pub data Answer {ℓ} (A : Type ℓ) : Type ℓ where
  returns : A → Answer A
  raises : Error → Answer A

-- `IndexFailure`; the message is left out.
pub record IndexFailure : Type 0 where
  pub pack_id : String
  pub object_key : String
  pub error_type : String

pub identity_eq_sound : (a b : PackIdentity) → identity_eq a b ≡ true → a ≡ b
identity_eq_sound a b h = ground (arith, eq_iff a.store_id b.store_id, eq_iff a.pack_id b.pack_id)

pub identity_eq_refl : (a : PackIdentity) → identity_eq a a ≡ true
identity_eq_refl a = ground (arith, eq_iff a.store_id a.store_id, eq_iff a.pack_id a.pack_id)

pub ref_eq_sound : (a b : PackRef) → ref_eq a b ≡ true → a ≡ b
ref_eq_sound a b h = ground (
  arith,
  eq_iff a.store_id b.store_id,
  eq_iff a.pack_id b.pack_id,
  eq_iff a.object_key b.object_key,
  eq_iff a.checksum b.checksum,
)

pub ref_eq_refl : (a : PackRef) → ref_eq a a ≡ true
ref_eq_refl a = ground (
  arith,
  eq_iff a.store_id a.store_id,
  eq_iff a.pack_id a.pack_id,
  eq_iff a.object_key a.object_key,
  eq_iff a.checksum a.checksum,
)

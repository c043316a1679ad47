-- ===== src/Hydration.antt =====
-- `CaptureReader` of src/dmi/storage/capture/reader.py: what a call of `hydrate` shares with the
-- reader, and the way its steps raise.  The catalog and the stores are the reader's parameters.
-- A read of a store may raise, and other threads may change the footer cache whenever its lock is
-- free; `reads` and `read_bytes` count what the calls of `read_range` asked for, and are the model's.
pub mod Plan
pub mod Planning
pub mod Enclosing
pub mod Footers
pub mod Selecting
pub mod Reader
pub mod Outcomes
pub mod Spending
pub mod Budget
pub mod Placing
pub mod Payloads
pub mod Refining
pub mod Direct
pub mod Resolving
pub mod Selected
pub mod Needing
pub mod Enough
pub mod Estimating
pub mod Caching
pub mod Bounded
pub mod Ownership
pub mod Owned
use dmi.Base.{Bool, List, Option, String, if◌then◌else◌, ltb, none, some, suc, ℕ, ◌+◌, ◌-◌}
use dmi.Model.{CaptureDescriptor, PackRef}
use dmi.Pack.Writer.{Codec}
use dmi.Pack.Reader.{Read, ok, err, bad_format, bad_integrity, Decoder}

-- `HydrationLimitError`, `PackFormatError`, `PackIntegrityError`, `DuplicateCaptureError`,
-- `ValueError`, what a store or the catalog raises, and a `KeyError` or `IndexError`.
pub data HydrationError : Type 0 where
  over_limit wrong_format wrong_integrity duplicated refused store_failed catalog_failed not_there :
      HydrationError

pub data Fetched (A : Type 0) : Type 0 where
  given : A → Fetched A
  failed : HydrationError → Fetched A

-- `_FooterCacheEntry`, with its key.
pub record FooterCacheEntry : Type 0 where
  pub store_id : String
  pub pack_id : String
  pub checksum : String
  pub descriptors : List CaptureDescriptor
  pub wire_bytes : ℕ

-- `_footer_cache`, the least recently used entry first, and `_footer_cache_bytes`.
pub record FooterCache : Type 0 where
  pub entries : List FooterCacheEntry
  pub bytes : ℕ

-- The `_ReadBudget` of a call, in requests and in bytes, and the reader's cache.
pub record Session : Type 0 where
  pub requests : ℕ
  pub bytes : ℕ
  pub cache : FooterCache
  pub reads : ℕ
  pub read_bytes : ℕ

abbrev pub Act : Type 0 → Type 0
Act A = Session → Session × Fetched A

abbrev pub and_then : {A B : Type 0} → Session × Fetched A → (A → Act B) → Session × Fetched B
and_then (s, given a) f = f a s
and_then (s, failed e) f = (s, failed e)

infixl 5 ◌>>=◌ ◌>>◌
abbrev pub ◌>>=◌ : {A B : Type 0} → Act A → (A → Act B) → Act B
(m >>= f) s = and_then (m s) f

abbrev pub ◌>>◌ : {B : Type 0} → Act (Unit {0}) → Act B → Act B
m >> k = m >>= λ _. k

abbrev pub lift : {A : Type 0} → Fetched A → Act A
lift r s = (s, r)

abbrev pub from_read : {A : Type 0} → Read A → Fetched A
from_read (ok a) = given a
from_read (err bad_format) = failed wrong_format
from_read (err bad_integrity) = failed wrong_integrity

-- `if test: raise e`
abbrev pub refuse_if : Bool → HydrationError → Fetched (Unit {0})
refuse_if b e = if b then failed e else given tt

-- A store of packs; `none` is a read that raises.
pub record RangeStore : Type 0 where
  pub store_id : String
  pub read_range : PackRef → ℕ → ℕ → Option (List ℕ)

abbrev pub from_store_answer : Option (List ℕ) → Fetched (List ℕ)
from_store_answer none = failed store_failed
from_store_answer (some bytes) = given bytes

-- A call of a store's `read_range`.
unfoldable pub read_from : RangeStore → PackRef → ℕ → ℕ → Act (List ℕ)
read_from store ref offset size s = (
  record s { reads = suc s.reads; read_bytes = s.read_bytes + size },
  from_store_answer (store.read_range ref offset size),
)

-- `_ReadBudget.consume`
unfoldable pub consume : ℕ → Act (Unit {0})
consume size s =
    if ltb s.requests 1
    then (s, failed over_limit)
    else if ltb s.bytes size
    then (s, failed over_limit)
    else (record s { requests = s.requests - 1; bytes = s.bytes - size }, given tt)

-- `_BudgetedPackStore.read_range`
unfoldable pub budgeted_read : RangeStore → PackRef → ℕ → ℕ → Act (List ℕ)
unfolding consume read_from
budgeted_read store ref offset size = consume size >> read_from store ref offset size

-- What a reader is made of, the codecs of a pack, and what other threads do to the cache.
pub record CaptureReader : Type 0 where
  pub codec : Codec
  pub decoder : Decoder
  pub normal : String → Option String
  -- `catalog.get_by_ids`; `none` is a call that raises.
  pub get_by_ids : List String → String → String → Option (List CaptureDescriptor)
  pub stores : List RangeStore
  pub max_coalesce_gap_bytes : ℕ
  pub footer_cache_limit : ℕ
  pub footer_cache_bytes_limit : ℕ
  -- What other threads have made of the cache when its lock is taken.
  pub others : Session → FooterCache

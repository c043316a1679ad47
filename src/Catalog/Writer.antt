-- ===== src/Catalog/Writer.antt =====
-- The `CatalogWriter` that an indexer is given, and the indexer's state.
-- A writer is another component: what it answers may depend on all that it was asked before. So it is
-- a function from the calls made so far, newest first, and the indexer's state holds that list.
use dmi.Base.{Bool, List, Option, ℕ, ◌∷◌}
use dmi.Model.{PackRef, CaptureDescriptor}
use dmi.Catalog.{Answer, returns, raises, Error, PackIdentity}

pub data Call : Type 0 where
  allocated : Answer ℕ → Call
  read_head : Answer ℕ → Call
  wrote : List CaptureDescriptor → ℕ → Answer (Unit {0}) → Call
  published : ℕ → List PackRef → ℕ → Answer (Unit {0}) → Call
  committed : List PackRef → ℕ → Answer (Unit {0}) → Call
  asked_committed : List PackIdentity → Answer (List PackIdentity) → Call
  asked_lease : Bool → Call

abbrev pub Trace : Type 0
Trace = List Call

pub record CatalogWriter : Type 0 where
  pub allocate_version : Trace → Answer ℕ
  pub last_published_version : Trace → Answer ℕ
  pub write_descriptors : Trace → List CaptureDescriptor → ℕ → Answer (Unit {0})
  pub publish_snapshot : Trace → ℕ → List PackRef → ℕ → Answer (Unit {0})
  pub commit_packs : Trace → List PackRef → ℕ → Answer (Unit {0})
  pub committed_pack_ids : Trace → List PackIdentity → Answer (List PackIdentity)
  pub holds_lease : Trace → Bool
  -- `clock_ns()`; `none` is a reading that the check refuses
  pub clock_ns : Trace → Option ℕ

-- `_published_version`, and the calls made.
pub record IndexerState : Type 0 where
  pub published_version : Option ℕ
  pub trace : Trace

abbrev pub Ix {ℓ} : Type ℓ → Type ℓ
Ix A = IndexerState → IndexerState × Answer A

abbrev pub continue {ℓ κ} :
    {A : Type ℓ} {B : Type κ} → IndexerState → Answer A → (A → Ix B) → IndexerState × Answer B
continue s (returns a) f = f a s
continue s (raises e) f = (s, raises e)

infixl 5 ◌>>=◌ ◌>>◌
abbrev pub ◌>>=◌ {ℓ κ} : {A : Type ℓ} {B : Type κ} → Ix A → (A → Ix B) → Ix B
◌>>=◌ m f s = let (s', r) = m s in continue s' r f

abbrev pub ◌>>◌ {ℓ} : {B : Type ℓ} → Ix (Unit {0}) → Ix B → Ix B
m >> k = m >>= λ _. k

abbrev pub pure {ℓ} : {A : Type ℓ} → A → Ix A
pure a s = (s, returns a)

abbrev pub raise {ℓ} : {A : Type ℓ} → Error → Ix A
raise e s = (s, raises e)

abbrev pub asked {ℓ} : {A : Type ℓ} → IndexerState → Call → Answer A → IndexerState × Answer A
asked s call answer = (record s { trace = call ∷ s.trace }, answer)

module _ (w : CatalogWriter) where
  unfoldable pub allocate : Ix ℕ
  allocate s = let r = w.allocate_version s.trace in asked s (allocated r) r

  unfoldable pub last_published : Ix ℕ
  last_published s = let r = w.last_published_version s.trace in asked s (read_head r) r

  unfoldable pub write : List CaptureDescriptor → ℕ → Ix (Unit {0})
  write ds version s =
      let r = w.write_descriptors s.trace ds version in asked s (wrote ds version r) r

  unfoldable pub publish : ℕ → List PackRef → ℕ → Ix (Unit {0})
  publish version refs rows s =
      let r = w.publish_snapshot s.trace version refs rows in
      asked s (published version refs rows r) r

  unfoldable pub commit : List PackRef → ℕ → Ix (Unit {0})
  commit refs version s =
      let r = w.commit_packs s.trace refs version in asked s (committed refs version r) r

  unfoldable pub committed_ids : List PackIdentity → Ix (List PackIdentity)
  committed_ids ids s =
      let r = w.committed_pack_ids s.trace ids in asked s (asked_committed ids r) r

  unfoldable pub lease_held : Ix Bool
  lease_held s = let r = w.holds_lease s.trace in asked s (asked_lease r) (returns r)

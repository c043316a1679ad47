-- ===== src/Catalog/Partition.antt =====
-- `_partition_refs` of catalog.py.
use dmi.Base.{
  All, Bool, List, Option, [], false, if◌then◌else◌, map, none, some, ◌++◌, ◌||◌, ◌∷◌, ◌≡◌,
}
use dmi.Model.{PackRef}
use dmi.Catalog.{PackIdentity, identity, identity_eq, ref_eq, IndexFailure}

-- The two dicts, in insertion order. A key of `by_identity` is the identity of its value.
pub record Claims : Type 0 where
  pub by_identity : List PackRef
  pub conflicted : List (PackIdentity × List PackRef)

unfoldable pub current : List PackRef → PackIdentity → Option PackRef
current [] key = none
current (ref ∷ refs) key = if identity_eq (identity ref) key then some ref else current refs key

unfoldable pub mem_ref : List PackRef → PackRef → Bool
mem_ref [] ref = false
mem_ref (x ∷ xs) ref = ref_eq x ref || mem_ref xs ref

-- `conflicted.setdefault(identity, [current])`, and the append if the claimant is new.
unfoldable pub add_claimant :
    PackIdentity
    → PackRef
    → PackRef
    → List (PackIdentity × List PackRef)
    → List (PackIdentity × List PackRef)
unfolding mem_ref
add_claimant key cur ref [] =
    (key, if mem_ref (cur ∷ []) ref then cur ∷ [] else cur ∷ ref ∷ []) ∷ []
add_claimant key cur ref ((k, claimants) ∷ rest) =
    if identity_eq k key
    then (k, if mem_ref claimants ref then claimants else claimants ++ ref ∷ []) ∷ rest
    else (k, claimants) ∷ add_claimant key cur ref rest

unfoldable pub claim_with : Claims → PackRef → Option PackRef → Claims
unfolding add_claimant
claim_with s ref none = record s { by_identity = s.by_identity ++ ref ∷ [] }
claim_with s ref (some cur) =
    if ref_eq cur ref
    then s
    else record s { conflicted = add_claimant (identity ref) cur ref s.conflicted }

-- One round of the loop.
unfoldable pub claim : Claims → PackRef → Claims
unfolding claim_with current
claim s ref = claim_with s ref (current s.by_identity (identity ref))

unfoldable pub claim_all : Claims → List PackRef → Claims
unfolding claim
claim_all s [] = s
claim_all s (ref ∷ refs) = claim_all (claim s ref) refs

unfoldable pub is_conflicted : List (PackIdentity × List PackRef) → PackIdentity → Bool
is_conflicted [] key = false
is_conflicted ((k, claimants) ∷ rest) key = identity_eq k key || is_conflicted rest key

unfoldable pub unconflicted : List (PackIdentity × List PackRef) → List PackRef → List PackRef
unfolding is_conflicted
unconflicted conflicted [] = []
unconflicted conflicted (ref ∷ refs) =
    if is_conflicted conflicted (identity ref)
    then unconflicted conflicted refs
    else ref ∷ unconflicted conflicted refs

abbrev pub conflict_failure : PackRef → IndexFailure
conflict_failure ref = record {
  pack_id = ref.pack_id;
  object_key = ref.object_key;
  error_type = "PackConflictError";
}

unfoldable pub conflict_failures : List (PackIdentity × List PackRef) → List IndexFailure
conflict_failures [] = []
conflict_failures ((k, claimants) ∷ rest) = map conflict_failure claimants ++ conflict_failures rest

abbrev pub no_claims : Claims
no_claims = record { by_identity = []; conflicted = [] }

unfoldable pub partition_refs : List PackRef → List PackRef × List IndexFailure
unfolding claim_all unconflicted conflict_failures
partition_refs refs =
    let s = claim_all no_claims refs in
    (unconflicted s.conflicted s.by_identity, conflict_failures s.conflicted)

-- What an independent reader would say: a reference that stands in the batch is unique if every
-- reference of its identity in the batch equals it.
abbrev pub Agrees : PackRef → List PackRef → Type 0
Agrees ref refs = All (λ other. identity other ≡ identity ref → other ≡ ref) refs

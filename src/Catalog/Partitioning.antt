-- ===== src/Catalog/Partitioning.antt =====
-- What `_partition_refs` keeps of a batch.
use dmi.Base.{
  List, Option, [], false, true, none, some, ◌++◌, ◌∷◌, ◌≡◌, ◌⊎◌, inl, inr, refl, sym, ap, ◌∙◌,
  arith, All, All-append, All-mono, Bool-cases, if_cases, if_intro, subst, append-nil, append_assoc,
}
use dmi.Model.{PackRef}
use dmi.Catalog.{PackIdentity, identity, identity_eq, ref_eq, identity_eq_refl, ref_eq_sound}
use dmi.Catalog.Partition.{
  Claims, current, add_claimant, claim_with, claim, claim_all, is_conflicted, unconflicted,
  no_claims, partition_refs, Agrees,
}

-- The reference is the one kept for its identity, or its identity is in conflict.
abbrev pub IsSettled : Claims → PackRef → Type 0
IsSettled s ref =
    (current s.by_identity (identity ref) ≡ some ref)
    ⊎ (is_conflicted s.conflicted (identity ref) ≡ true)

current-append :
    (refs more : List PackRef) (key : PackIdentity) (x : PackRef)
    → current refs key ≡ some x
    → current (refs ++ more) key ≡ some x
unfolding current
current-append [] more key x h = cc
current-append (ref ∷ refs) more key x h = elim (Bool-cases (identity_eq (identity ref) key)) [
  | inl same ↦ rw same (rw same at h)
  | inr other ↦ rw other (current-append refs more key x (rw other at h))
]

current-last :
    (refs : List PackRef) (ref : PackRef)
    → current refs (identity ref) ≡ none
    → current (refs ++ ref ∷ []) (identity ref) ≡ some ref
unfolding current
current-last [] ref h = rw (identity_eq_refl (identity ref)) refl
current-last (x ∷ refs) ref h = elim (Bool-cases (identity_eq (identity x) (identity ref))) [
  | inl same ↦ cc (rw same at h)
  | inr other ↦ rw other (current-last refs ref (rw other at h))
]

is_conflicted-add_claimant :
    (key k : PackIdentity) (cur ref : PackRef) (conflicted : List (PackIdentity × List PackRef))
    → is_conflicted conflicted k ≡ true
    → is_conflicted (add_claimant key cur ref conflicted) k ≡ true
unfolding is_conflicted add_claimant
is_conflicted-add_claimant key k cur ref [] h = cc
is_conflicted-add_claimant key k cur ref ((k', claimants) ∷ rest) h =
    if_cases (λ (l : List (PackIdentity × List PackRef)). is_conflicted l k ≡ true)
      (identity_eq k' key) (λ same. h)
      λ other. elim (Bool-cases (identity_eq k' k)) [
        | inl here ↦ rw here refl
        | inr there ↦ rw there (is_conflicted-add_claimant key k cur ref rest (rw there at h))
      ]

add_claimant-conflicted :
    (key : PackIdentity) (cur ref : PackRef) (conflicted : List (PackIdentity × List PackRef))
    → is_conflicted (add_claimant key cur ref conflicted) key ≡ true
unfolding is_conflicted add_claimant
add_claimant-conflicted key cur ref [] = rw (identity_eq_refl key) refl
add_claimant-conflicted key cur ref ((k', claimants) ∷ rest) =
    if_cases (λ (l : List (PackIdentity × List PackRef)). is_conflicted l key ≡ true)
      (identity_eq k' key) (λ same. rw same refl)
      λ other. rw other (add_claimant-conflicted key cur ref rest)

-- What was settled stays so.
claim_with-keeps :
    (s : Claims) (ref : PackRef) (o : Option PackRef) (y : PackRef)
    → IsSettled s y
    → IsSettled (claim_with s ref o) y
unfolding claim_with
claim_with-keeps s ref none y (inl h) =
    inl (current-append s.by_identity (ref ∷ []) (identity y) y h)
claim_with-keeps s ref none y (inr h) = inr h
claim_with-keeps s ref (some cur) y h = if_intro (λ t. IsSettled t y) (ref_eq cur ref) h (grown h)
  where
    grown :
        IsSettled s y
        → IsSettled (record s { conflicted = add_claimant (identity ref) cur ref s.conflicted }) y
    grown (inl e) = inl e
    grown (inr e) =
        inr (is_conflicted-add_claimant (identity ref) (identity y) cur ref s.conflicted e)

claim_with-settles :
    (s : Claims) (ref : PackRef) (o : Option PackRef)
    → current s.by_identity (identity ref) ≡ o
    → IsSettled (claim_with s ref o) ref
unfolding claim_with
claim_with-settles s ref none h = inl (current-last s.by_identity ref h)
claim_with-settles s ref (some cur) h =
    if_cases (λ t. IsSettled t ref) (ref_eq cur ref)
      (λ same. inl (h ∙ ap some (ref_eq_sound cur ref same)))
      λ other. inr (add_claimant-conflicted (identity ref) cur ref s.conflicted)

-- The references that are kept, as far as the batch was read.
pub record Reads (s : Claims) (done : List PackRef) : Type 0 where
  pub settled : All (IsSettled s) done
  pub kept : All (IsSettled s) s.by_identity

same_list :
    (s : Claims) (ref cur : PackRef) → (claim_with s ref (some cur)).by_identity ≡ s.by_identity
unfolding claim_with
same_list s ref cur = ground arith

claim_with-kept :
    (s : Claims) (ref : PackRef) (o : Option PackRef)
    → current s.by_identity (identity ref) ≡ o
    → All (IsSettled (claim_with s ref o)) s.by_identity
    → All (IsSettled (claim_with s ref o)) (claim_with s ref o).by_identity
unfolding claim_with
claim_with-kept s ref none h all =
    All-append (IsSettled (claim_with s ref none)) s.by_identity (ref ∷ []) all
      (claim_with-settles s ref none h, tt)
claim_with-kept s ref (some cur) h all =
    subst (All (IsSettled (claim_with s ref (some cur)))) (sym (same_list s ref cur)) all

claim-Reads :
    (s : Claims) (done : List PackRef) (ref : PackRef)
    → Reads s done
    → Reads (claim s ref) (done ++ ref ∷ [])
unfolding claim
claim-Reads s done ref r =
    let o = current s.by_identity (identity ref) in
    let keep = claim_with-keeps s ref o in
    record {
      settled =
          All-append (IsSettled (claim_with s ref o)) done (ref ∷ [])
            (All-mono (IsSettled s) (IsSettled (claim_with s ref o)) keep done r.settled)
            (claim_with-settles s ref o refl, tt);
      kept =
          claim_with-kept s ref o refl
            (All-mono (IsSettled s) (IsSettled (claim_with s ref o)) keep s.by_identity r.kept);
    }

pub claim_all-Reads :
    (s : Claims) (done refs : List PackRef) → Reads s done → Reads (claim_all s refs) (done ++ refs)
unfolding claim_all
claim_all-Reads s done [] r = rw (append-nil done) r
claim_all-Reads s done (ref ∷ refs) r =
    subst (Reads (claim_all (claim s ref) refs)) (append_assoc done (ref ∷ []) refs)
      (claim_all-Reads (claim s ref) (done ++ ref ∷ []) refs (claim-Reads s done ref r))

-- Of what is kept and not in conflict, each agrees with all that was read.
settled-Agrees :
    (s : Claims) (x : PackRef) (refs : List PackRef)
    → IsSettled s x
    → is_conflicted s.conflicted (identity x) ≡ false
    → All (IsSettled s) refs
    → Agrees x refs
settled-Agrees s x refs (inr h) free all = cc
settled-Agrees s x refs (inl h) free all =
    All-mono (IsSettled s) (λ other. identity other ≡ identity x → other ≡ x)
      (λ y settled same. agree y settled same) refs all
  where
    agree : (y : PackRef) → IsSettled s y → identity y ≡ identity x → y ≡ x
    agree y (inl e) same =
        let e' : some y ≡ some x = sym e ∙ ap (current s.by_identity) same ∙ h in cc
    agree y (inr e) same = cc (sym (ap (is_conflicted s.conflicted) same) ∙ e)

unconflicted-Agrees :
    (s : Claims) (refs xs : List PackRef)
    → All (IsSettled s) refs
    → All (IsSettled s) xs
    → All (λ x. Agrees x refs) (unconflicted s.conflicted xs)
unfolding unconflicted
unconflicted-Agrees s refs [] all kept = tt
unconflicted-Agrees s refs (x ∷ xs) all kept =
    if_cases (All (λ y. Agrees y refs)) (is_conflicted s.conflicted (identity x))
      (λ bad. unconflicted-Agrees s refs xs all kept.1)
      λ free. (settled-Agrees s x refs kept.0 free all, unconflicted-Agrees s refs xs all kept.1)

-- Of the references that `_partition_refs` passes on, each equals every reference of the batch that
-- has its identity.
pub partition_refs-Agrees : (refs : List PackRef) → All (λ x. Agrees x refs) (partition_refs refs).0
unfolding partition_refs
partition_refs-Agrees refs =
    let s = claim_all no_claims refs in
    let r = claim_all-Reads no_claims [] refs (record { settled = tt; kept = tt }) in
    unconflicted-Agrees s refs s.by_identity r.settled r.kept

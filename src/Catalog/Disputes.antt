-- ===== src/Catalog/Disputes.antt =====
-- Which references of a batch `_partition_refs` holds back.
use dmi.Base.{
  Bool, List, Option, [], false, true, none, some, ◌++◌, ◌||◌, ◌∷◌, ◌≡◌, ◌⊎◌, inl, inr, refl, ◌∙◌,
  arith, All, All-append, All-mono, Bool-cases, if_cases, subst, append-nil, append_assoc,
}
use dmi.Model.{PackRef}
use dmi.Catalog.{PackIdentity, identity, identity_eq, ref_eq, identity_eq_sound, ref_eq_refl}
use dmi.Catalog.Partition.{
  Claims, current, mem_ref, add_claimant, claim_with, claim, claim_all, is_conflicted, unconflicted,
  no_claims, partition_refs,
}
use dmi.Catalog.Partitioning.{IsSettled, claim_all-Reads}

-- Two different references of the batch have this identity.
pub record IsDisputed (refs : List PackRef) (key : PackIdentity) : Type 0 where
  pub one : PackRef
  pub other : PackRef
  pub one_in : mem_ref refs one ≡ true
  pub other_in : mem_ref refs other ≡ true
  pub one_of : identity one ≡ key
  pub other_of : identity other ≡ key
  pub differ : ref_eq one other ≡ false

mem_ref-append :
    (xs ys : List PackRef) (x : PackRef) → mem_ref xs x ≡ true → mem_ref (xs ++ ys) x ≡ true
unfolding mem_ref
mem_ref-append [] ys x h = cc
mem_ref-append (y ∷ xs) ys x h = elim (Bool-cases (ref_eq y x)) [
  | inl here ↦ rw here refl
  | inr there ↦ rw there (mem_ref-append xs ys x (rw there at h))
]

mem_ref-last : (xs : List PackRef) (x : PackRef) → mem_ref (xs ++ x ∷ []) x ≡ true
unfolding mem_ref
mem_ref-last [] x = rw (ref_eq_refl x) refl
mem_ref-last (y ∷ xs) x = elim (Bool-cases (ref_eq y x)) [
  | inl here ↦ rw here refl
  | inr there ↦ rw there (mem_ref-last xs x)
]

IsDisputed-append :
    (done more : List PackRef) (key : PackIdentity)
    → IsDisputed done key
    → IsDisputed (done ++ more) key
IsDisputed-append done more key d = record {
  one = d.one;
  other = d.other;
  one_in = mem_ref-append done more d.one d.one_in;
  other_in = mem_ref-append done more d.other d.other_in;
  one_of = d.one_of;
  other_of = d.other_of;
  differ = d.differ;
}

some_ref : (x y : PackRef) → some x ≡ some y → x ≡ y
some_ref x y e = cc

no_more : (b : Bool) → (b || false) ≡ true → b ≡ true
no_more b h = ground arith

either : (a : Bool) {b : Bool} → b ≡ true → (a || b) ≡ true
either a h = ground arith

current-finds :
    (P : PackRef → Type 0) (refs : List PackRef) (key : PackIdentity) (x : PackRef)
    → All P refs
    → current refs key ≡ some x
    → P x × (identity x ≡ key)
unfolding current
current-finds P [] key x all h = cc
current-finds P (ref ∷ refs) key x all h = elim (Bool-cases (identity_eq (identity ref) key)) [
  | inl same ↦
      let e : ref ≡ x = some_ref ref x (rw same at h) in
      subst (λ y. P y × (identity y ≡ key)) e (all.0, identity_eq_sound (identity ref) key same)
  | inr other ↦ current-finds P refs key x all.1 (rw other at h)
]

add_claimant-only :
    (key k : PackIdentity) (cur ref : PackRef) (conflicted : List (PackIdentity × List PackRef))
    → is_conflicted (add_claimant key cur ref conflicted) k ≡ true
    → (is_conflicted conflicted k ≡ true) ⊎ (key ≡ k)
unfolding is_conflicted add_claimant
add_claimant-only key k cur ref [] =
    λ h. inr (identity_eq_sound key k (no_more (identity_eq key k) h))
add_claimant-only key k cur ref ((k', claimants) ∷ rest) =
    if_cases
      (λ (l : List (PackIdentity × List PackRef)).
        is_conflicted l k ≡ true → (is_conflicted ((k', claimants) ∷ rest) k ≡ true) ⊎ (key ≡ k))
      (identity_eq k' key) (λ same h. inl h)
      λ other h. elim (Bool-cases (identity_eq k' k)) [
        | inl here ↦ inl (rw here refl)
        | inr there ↦ rw there (add_claimant-only key k cur ref rest (rw there at h))
      ]

-- What is known of the batch as far as it was read.
record Knows (s : Claims) (done : List PackRef) : Type 0 where
  kept_in : All (λ x. mem_ref done x ≡ true) s.by_identity
  disputed : (key : PackIdentity) → is_conflicted s.conflicted key ≡ true → IsDisputed done key

older :
    (s : Claims) (done : List PackRef) (ref : PackRef)
    → Knows s done
    → All (λ x. mem_ref (done ++ ref ∷ []) x ≡ true) s.by_identity
older s done ref k =
    All-mono (λ x. mem_ref done x ≡ true) (λ x. mem_ref (done ++ ref ∷ []) x ≡ true)
      (mem_ref-append done (ref ∷ [])) s.by_identity k.kept_in

claim_with-Knows :
    (s : Claims) (done : List PackRef) (ref : PackRef) (o : Option PackRef)
    → current s.by_identity (identity ref) ≡ o
    → Knows s done
    → Knows (claim_with s ref o) (done ++ ref ∷ [])
unfolding claim_with
claim_with-Knows s done ref none h k = record {
  kept_in =
      All-append (λ x. mem_ref (done ++ ref ∷ []) x ≡ true) s.by_identity (ref ∷ [])
        (older s done ref k) (mem_ref-last done ref, tt);
  disputed = λ key e. IsDisputed-append done (ref ∷ []) key (k.disputed key e);
}
claim_with-Knows s done ref (some cur) h k =
    let found =
      current-finds (λ x. mem_ref done x ≡ true) s.by_identity (identity ref) cur k.kept_in h in
    if_cases (λ t. Knows t (done ++ ref ∷ [])) (ref_eq cur ref)
      (λ same. record {
        kept_in = older s done ref k;
        disputed = λ key e. IsDisputed-append done (ref ∷ []) key (k.disputed key e);
      })
      λ differ. record {
        kept_in = older s done ref k;
        disputed = λ key e. elim (add_claimant-only (identity ref) key cur ref s.conflicted e) [
          | inl before ↦ IsDisputed-append done (ref ∷ []) key (k.disputed key before)
          | inr now ↦ record {
            one = cur;
            other = ref;
            one_in = mem_ref-append done (ref ∷ []) cur found.0;
            other_in = mem_ref-last done ref;
            one_of = found.1 ∙ now;
            other_of = now;
            differ = differ;
          }
        ];
      }

claim_all-Knows :
    (s : Claims) (done refs : List PackRef) → Knows s done → Knows (claim_all s refs) (done ++ refs)
unfolding claim_all claim
claim_all-Knows s done [] k = rw (append-nil done) k
claim_all-Knows s done (ref ∷ refs) k =
    subst (Knows (claim_all (claim s ref) refs)) (append_assoc done (ref ∷ []) refs) (
      claim_all-Knows (claim s ref) (done ++ ref ∷ []) refs
        (claim_with-Knows s done ref (current s.by_identity (identity ref)) refl k))

unconflicted-keeps :
    (conflicted : List (PackIdentity × List PackRef)) (xs : List PackRef) (y : PackRef)
    → current xs (identity y) ≡ some y
    → is_conflicted conflicted (identity y) ≡ false
    → mem_ref (unconflicted conflicted xs) y ≡ true
unfolding unconflicted current mem_ref
unconflicted-keeps conflicted [] y h free = cc
unconflicted-keeps conflicted (x ∷ xs) y h free =
    elim (Bool-cases (identity_eq (identity x) (identity y))) [
      | inl same ↦ let e : x ≡ y = some_ref x y (rw same at h) in rw (e, free, ref_eq_refl y) refl
      | inr other ↦
          if_cases (λ l. mem_ref l y ≡ true) (is_conflicted conflicted (identity x))
            (λ bad. unconflicted-keeps conflicted xs y (rw other at h) free)
            λ fine. either (ref_eq x y) (unconflicted-keeps conflicted xs y (rw other at h) free)
    ]

nothing_yet : (key : PackIdentity) → is_conflicted [] key ≡ true → IsDisputed [] key
unfolding is_conflicted
nothing_yet key h = cc

kept :
    (s : Claims) (refs : List PackRef)
    → Knows s refs
    → (y : PackRef) → IsSettled s y
    → (mem_ref (unconflicted s.conflicted s.by_identity) y ≡ true) ⊎ IsDisputed refs (identity y)
kept s refs k y (inr e) = inr (k.disputed (identity y) e)
kept s refs k y (inl e) = elim (Bool-cases (is_conflicted s.conflicted (identity y))) [
  | inl bad ↦ inr (k.disputed (identity y) bad)
  | inr free ↦ inl (unconflicted-keeps s.conflicted s.by_identity y e free)
]

-- Every reference of the batch is passed on, unless the batch disputes its identity.
pub partition_refs-keeps :
    (refs : List PackRef)
    → All (λ y. (mem_ref (partition_refs refs).0 y ≡ true) ⊎ IsDisputed refs (identity y)) refs
unfolding partition_refs
partition_refs-keeps refs =
    let s = claim_all no_claims refs in
    let r = claim_all-Reads no_claims [] refs (record { settled = tt; kept = tt }) in
    let k = claim_all-Knows no_claims [] refs (record { kept_in = tt; disputed = nothing_yet }) in
    All-mono (IsSettled s)
      (λ y.
        (mem_ref (unconflicted s.conflicted s.by_identity) y ≡ true) ⊎ IsDisputed refs (identity y))
      (kept s refs k) refs r.settled

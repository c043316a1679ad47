-- ===== src/Keys/Tenants.antt =====
-- A key that `object_key_for` made is accepted for captures of its own tenant, and of no other.
use text.Mathlib.TextEquality.{Char-path}
use dmi.Base.{
  ℕ, ◌≡◌, ◌↔◌, sym, ap, ap₂, subst, refl, inl, inr, String, true, false, some, List, [], ◌∷◌, ◌++◌,
  ◌==◌, if_cases, map, All, All-mono, Bool-cases, Option-cases,
}
use dmi.Model.{CaptureMetadata}
use dmi.Pack.Writer.{Codec}
use dmi.Pack.Reader.{ok, bytes_eq}
use dmi.Keys.{
  codes, digest, key_component, object_key_for, onto_first, split, strip_prefix, first_tenant,
  tenant_segment, all_hex, segment_belongs_to, contains_text, from_keys, check_tenants,
  reject_a_foreign_tenant,
}
use dmi.Keys.Utf8.{codes-IsCode}
use dmi.Keys.Components.{bytes_eq_sound, segment-own, segment_self, key_component-no_slash}

codes-injective : (s t : String) → codes s ≡ codes t → s ≡ t
codes-injective String.[] String.[] h = refl
codes-injective String.[] (String.◌∷◌ d t) h = cc
codes-injective (String.◌∷◌ c s) String.[] h = cc
codes-injective (String.◌∷◌ c s) (String.◌∷◌ d t) h =
    ap₂ (λ a b. String.◌∷◌ a b) (Char-path c d (cc)) (codes-injective s t (cc))

-- A part without a slash is split off whole.
split-part :
    (part rest : List ℕ)
    → All (λ n. n == b'/' ≡ false) part
    → split (part ++ b'/' ∷ rest) ≡ part ∷ split rest
unfolding split
split-part [] rest h = refl
split-part (n ∷ part) rest h = rw h.0 (ap (onto_first n) (split-part part rest h.1))

located :
    (part rest : List ℕ)
    → All (λ n. n == b'/' ≡ false) part
    → tenant_segment (codes "v1/tenant=" ++ (part ++ b'/' ∷ rest)) ≡ some part
unfolding tenant_segment first_tenant split strip_prefix
located part rest h =
    let e : split (part ++ b'/' ∷ rest) ≡ part ∷ split rest = split-part part rest h in rw e refl

-- The tenant's segment of a key is the encoding of the tenant.
tenant_segment-object_key :
    (c : Codec) (day : ℕ → List ℕ) (m : CaptureMetadata) (pack_id : String)
    → all_hex 64 (digest c (codes m.tenant_id)) ≡ true
    → tenant_segment (object_key_for c day m pack_id) ≡ some (key_component c (codes m.tenant_id))
unfolding object_key_for
tenant_segment-object_key c day m pack_id hex =
    located (key_component c (codes m.tenant_id)) _
      (key_component-no_slash c (codes m.tenant_id) (codes-IsCode m.tenant_id) hex)

module _ (c : Codec) where
  check_tenants-own :
      (segment : List ℕ) (ts : List (List ℕ))
      → check_tenants c segment ts ≡ ok tt
      → All (λ u. segment_belongs_to c segment u ≡ true) ts
  unfolding check_tenants
  check_tenants-own segment [] h = tt
  check_tenants-own segment (t ∷ ts) h = elim (Bool-cases (segment_belongs_to c segment t)) [
    | inl own ↦ (own, check_tenants-own segment ts (rw own at h))
    | inr foreign ↦ cc (rw foreign at h)
  ]

  check_tenants-ok :
      (segment : List ℕ) (ts : List (List ℕ))
      → All (λ u. segment_belongs_to c segment u ≡ true) ts
      → check_tenants c segment ts ≡ ok tt
  unfolding check_tenants
  check_tenants-ok segment [] h = refl
  check_tenants-ok segment (t ∷ ts) h = rw h.0 (check_tenants-ok segment ts h.1)

contains_text-All :
    (P : List ℕ → Type 0) (seen : List (List ℕ)) (t : List ℕ)
    → All P seen
    → contains_text seen t ≡ true
    → P t
contains_text-All P [] t all h = cc
contains_text-All P (x ∷ seen) t all h = elim (Bool-cases (bytes_eq x t)) [
  | inl here ↦ subst P (bytes_eq_sound x t here) all.0
  | inr there ↦ contains_text-All P seen t all.1 (rw there at h)
]

-- What holds of the distinct tenants holds of all, and back.
from_keys-All :
    (P : List ℕ → Type 0) (seen ts : List (List ℕ))
    → All P seen
    → All P (from_keys seen ts)
    → All P ts
unfolding from_keys
from_keys-All P seen [] old h = tt
from_keys-All P seen (t ∷ ts) old h = elim (Bool-cases (contains_text seen t)) [
  | inl again ↦ (contains_text-All P seen t old again, from_keys-All P seen ts old (rw again at h))
  | inr fresh ↦
      let h' : All P (t ∷ from_keys (t ∷ seen) ts) = rw fresh at h in
      (h'.0, from_keys-All P (t ∷ seen) ts (h'.0, old) h'.1)
]

All-from_keys :
    (P : List ℕ → Type 0) (seen ts : List (List ℕ)) → All P ts → All P (from_keys seen ts)
unfolding from_keys
All-from_keys P seen [] h = tt
All-from_keys P seen (t ∷ ts) h =
    if_cases (All P) (contains_text seen t) (λ again. All-from_keys P seen ts h.1)
      λ fresh. (h.0, All-from_keys P (t ∷ seen) ts h.1)

of_texts :
    (P : List ℕ → Type 0) (us : List String) → All P (map codes us) → All (λ u. P (codes u)) us
of_texts P [] h = tt
of_texts P (u ∷ us) h = (h.0, of_texts P us h.1)

to_texts :
    (P : List ℕ → Type 0) (us : List String) → All (λ u. P (codes u)) us → All P (map codes us)
to_texts P [] h = tt
to_texts P (u ∷ us) h = (h.0, to_texts P us h.1)

both : (P Q : String → Type 0) (xs : List String) → All P xs → All Q xs → All (λ x. P x × Q x) xs
both P Q [] p q = tt
both P Q (x ∷ xs) p q = ((p.0, q.0), both P Q xs p.1 q.1)

-- `object_key_for` made the key for a capture of some tenant, digests are 64 hexadecimal digits, and
-- the digest of that tenant's name is the digest of no other tenant that occurs. Then a pack at the
-- key is accepted exactly when all its captures are of that tenant.
pub reject-object_key_iff :
    (c : Codec) (day : ℕ → List ℕ) (m : CaptureMetadata) (pack_id : String) (tenants : List String)
    → all_hex 64 (digest c (codes m.tenant_id)) ≡ true
    → All
        (λ u. digest c (codes u) ≡ digest c (codes m.tenant_id) → codes u ≡ codes m.tenant_id)
        tenants
    → (reject_a_foreign_tenant c (object_key_for c day m pack_id) (map codes tenants) ≡ ok tt)
      ↔ All (λ u. u ≡ m.tenant_id) tenants
unfolding reject_a_foreign_tenant
reject-object_key_iff c day m pack_id tenants hex distinct =
    let t = codes m.tenant_id in
    let segment = key_component c t in
    rw (tenant_segment-object_key c day m pack_id hex) (
      λ h.
          All-mono
            (λ u.
              (digest c (codes u) ≡ digest c t → codes u ≡ t)
              × (segment_belongs_to c segment (codes u) ≡ true))
            (λ u. u ≡ m.tenant_id)
            (λ u p.
              codes-injective u m.tenant_id
                (segment-own c (codes u) t (codes-IsCode u) (codes-IsCode m.tenant_id) hex p.0 p.1))
            tenants
            (both (λ u. digest c (codes u) ≡ digest c t → codes u ≡ t)
              (λ u. segment_belongs_to c segment (codes u) ≡ true) tenants distinct
              (of_texts (λ v. segment_belongs_to c segment v ≡ true) tenants
                (from_keys-All (λ v. segment_belongs_to c segment v ≡ true) [] (map codes tenants)
                  tt (check_tenants-own c segment (from_keys [] (map codes tenants)) h)))),
      λ all. check_tenants-ok c segment (from_keys [] (map codes tenants)) (
          All-from_keys (λ v. segment_belongs_to c segment v ≡ true) [] (map codes tenants)
            (to_texts (λ v. segment_belongs_to c segment v ≡ true) tenants
              (All-mono (λ u. u ≡ m.tenant_id) (λ u. segment_belongs_to c segment (codes u) ≡ true)
                (λ u e.
                  subst (λ v. segment_belongs_to c segment (codes v) ≡ true) (sym e)
                    (segment_self c t))
                tenants all))),
    )

-- A key that is accepted for tenants together is accepted for each by itself.
pub reject_each :
    (c : Codec) (key : List ℕ) (ts : List (List ℕ))
    → reject_a_foreign_tenant c key ts ≡ ok tt
    → All (λ t. reject_a_foreign_tenant c key (t ∷ []) ≡ ok tt) ts
unfolding reject_a_foreign_tenant from_keys check_tenants
reject_each c key ts h = elim (Option-cases (tenant_segment key)) [
  | inl e ↦
      All-mono (λ t. Unit {0}) (λ t. reject_a_foreign_tenant c key (t ∷ []) ≡ ok tt)
        (λ t u. rw (e, reject_a_foreign_tenant) refl) ts (everywhere ts)
  | inr (segment, e) ↦
      All-mono (λ t. segment_belongs_to c segment t ≡ true)
        (λ t. reject_a_foreign_tenant c key (t ∷ []) ≡ ok tt)
        (λ t own. rw (e, reject_a_foreign_tenant) (check_tenants-ok c segment (t ∷ []) (own, tt)))
        ts
        (from_keys-All (λ t. segment_belongs_to c segment t ≡ true) [] ts tt
          (check_tenants-own c segment (from_keys [] ts) (rw (e, reject_a_foreign_tenant) at h)))
]
  where
    everywhere : (us : List (List ℕ)) → All (λ t. Unit {0}) us
    everywhere [] = tt
    everywhere (u ∷ us) = (tt, everywhere us)

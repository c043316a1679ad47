-- ===== src/Hydration/Refining.antt =====
-- `hydrate` does what reading each capture by itself would do.
use dmi.Base.{
  All, All-mono, List, Option, String, [], some, suc, ◌∷◌, ◌++◌, ◌≡◌, ◌+◌, ℕ, refl, ap, sym, ◌∙◌,
  arith, length, subst, str_eq, eq_iff, append_assoc, length-append, if_cases,
}
use dmi.Model.{CaptureDescriptor, PackRef, pack_ref}
use dmi.Pack.Writer.{Codec}
use dmi.Hydration.{given, RangeStore, CaptureReader}
use dmi.Hydration.Plan.{PlannedCapture, enumerate, ReadRange, ObjectPlan}
use dmi.Hydration.Planning.{items_of, planned}
use dmi.Hydration.Enclosing.{Inside, Encloses, IsOfPlan, IsPlan}
use dmi.Hydration.Selecting.{first_ref}
use dmi.Hydration.Reader.{
  HydratedCapture, VerifiedPlan, Payloads, store_at, fetch_ranges, fetch_plans,
}
use dmi.Hydration.Outcomes.{Gives, Gives-mono, bind-Gives, Verifies, AllVerify}
use dmi.Hydration.Placing.{
  at, Content, read_directly, IsStoreOf, IsDue, Places, Places-nil, Places-append,
}
use dmi.Hydration.Payloads.{IsReadable, fetch_ranges-Gives}

-- Each capture read by itself, in order.
unfoldable pub read_each : Content → List CaptureDescriptor → List HydratedCapture
unfolding read_directly
read_each content [] = []
read_each content (d ∷ ds) =
    record { descriptor = d; payload = read_directly content d } ∷ read_each content ds

unfoldable pub wanted_of : Content → List CaptureDescriptor → Payloads
wanted_of content [] = []
wanted_of content (d ∷ ds) = some (read_directly content d) ∷ wanted_of content ds

at_append :
    (pre : Payloads) (p : Option (List ℕ)) (ps : Payloads)
    → at (length pre) (pre ++ p ∷ ps) ≡ some p
at_append [] p ps = refl
at_append (q ∷ pre) p ps = at_append pre p ps

pub IsDue-from :
    (c : Codec) (content : Content) (pre : Payloads) (ds : List CaptureDescriptor) (n : ℕ)
    → n ≡ length pre
    → All (IsDue c content (pre ++ wanted_of content ds)) (enumerate n ds)
unfolding enumerate wanted_of
IsDue-from c content pre [] n e = tt
IsDue-from c content pre (d ∷ ds) n e =
    let p = some (read_directly content d) in
    (
      rw e (at_append pre p (wanted_of content ds)),
      subst (λ w. All (IsDue c content w) (enumerate (suc n) ds))
          (append_assoc pre (p ∷ []) (wanted_of content ds))
          (IsDue-from c content (pre ++ p ∷ []) ds (suc n)
            (omega (arith, e, length-append pre (p ∷ [])))),
    )

store_at_lem :
    (P : RangeStore → Type 0) (id : String) (ss : List RangeStore) (s : RangeStore)
    → All P ss
    → store_at id ss ≡ some s
    → P s × (s.store_id ≡ id)
unfolding store_at
store_at_lem P id [] s h e = cc
store_at_lem P id (t ∷ ts) s h e =
    if_cases (λ o. o ≡ some s → P s × (s.store_id ≡ id)) (str_eq id t.store_id)
      (λ same here.
        let found : t ≡ s = cc in
        (subst P found h.0, ap (λ u. u.store_id) (sym found) ∙ sym ((eq_iff id t.store_id).0 same)))
      (λ other later. store_at_lem P id ts s h.1 later) e

pub first_ref_lem :
    (P : PlannedCapture → Type 0) (xs : List PlannedCapture) (ref : PackRef)
    → All P xs
    → first_ref xs ≡ given ref
    → (x : PlannedCapture) × P x × (pack_ref x.descriptor.locator ≡ ref)
first_ref_lem P [] ref h e = cc
first_ref_lem P (x ∷ xs) ref h e = (x, h.0, cc)

All-split :
    (P : PlannedCapture → Type 0) (xs ys : List PlannedCapture)
    → All P (xs ++ ys)
    → All P xs × All P ys
All-split P [] ys h = (tt, h)
All-split P (x ∷ xs) ys h = let (a, b) = All-split P xs ys h.1 in ((h.0, a), b)

All-both :
    (P Q : PlannedCapture → Type 0) (xs : List PlannedCapture)
    → All P xs
    → All Q xs
    → All (λ x. P x × Q x) xs
All-both P Q [] h k = tt
All-both P Q (x ∷ xs) h k = ((h.0, k.0), All-both P Q xs h.1 k.1)

module _ (c : Codec) (content : Content) (wanted : Payloads) where
  readable :
      (store : RangeStore) (ref : PackRef) (xs : List ReadRange)
      → IsStoreOf content store
      → All Encloses xs
      → All
          (λ y.
            IsDue c content wanted y
            × (y.descriptor.locator.store_id ≡ store.store_id)
            × (y.descriptor.locator.object_key ≡ ref.object_key))
          (items_of xs)
      → All (IsReadable c content wanted store ref) xs
  unfolding items_of
  readable store ref [] s en h = tt
  readable store ref (x ∷ xs) s en h =
      let (a, b) = All-split _ x.items (items_of xs) h in
      (
        record {
          store_of = s;
          here =
              All-mono _ _ (λ y p. (p.0.0, p.0.1, p.0.2, p.1)) x.items
                (All-both _ (Inside x.offset (x.offset + x.length)) x.items a en.0);
        },
        readable store ref xs s en.1 b,
      )

  plan-IsReadable :
      (r : CaptureReader) (gap : ℕ) (p : ObjectPlan) (v : VerifiedPlan)
      → All (IsStoreOf content) r.stores
      → Verifies r p v
      → IsPlan gap p
      → All (IsDue c content wanted) (items_of p.ranges)
      → All (IsReadable c content wanted v.store v.ref) p.ranges
  unfolding pack_ref
  plan-IsReadable r gap p v stores h k due =
      let (store_of, same_store) =
        store_at_lem (IsStoreOf content) p.store_id r.stores v.store stores h.store in
      let (x, own, is_ref) = first_ref_lem (IsOfPlan p) p.items v.ref k.own h.ref in
      let same_key : v.ref.object_key ≡ p.object_key =
        ap (λ f. f.object_key) (sym is_ref) ∙ own.2 in
      readable v.store v.ref p.ranges store_of k.enclosed (
        All-mono _ _ (λ y q. (q.0, q.1.0 ∙ sym same_store, q.1.2 ∙ sym same_key))
          (items_of p.ranges)
          (All-both (IsDue c content wanted) (IsOfPlan p) (items_of p.ranges) due
            (subst (All (IsOfPlan p)) (sym k.same) k.own)))

  pub fetch_plans-Gives :
      (r : CaptureReader) (gap : ℕ) (plans : List ObjectPlan) (vs : List VerifiedPlan)
      (ps : Payloads)
      → All (IsStoreOf content) r.stores
      → AllVerify r plans vs
      → All (IsPlan gap) plans
      → All (IsDue c content wanted) (planned plans)
      → length ps ≡ length wanted
      → Gives (Places c content wanted (planned plans) ps) (fetch_plans c vs ps)
  unfolding fetch_plans planned
  fetch_plans-Gives r gap [] [] ps st h k due size = record {
    gives = λ s. Places-nil c content wanted ps;
  }
  fetch_plans-Gives r gap [] (v ∷ vs) ps st h k due size = absurd h
  fetch_plans-Gives r gap (p ∷ plans) [] ps st h k due size = absurd h
  fetch_plans-Gives r gap (p ∷ plans) (v ∷ vs) ps st h k due size =
      let (due_here, due_later) =
        All-split (IsDue c content wanted) (items_of p.ranges) (planned plans) due in
      bind-Gives (Places c content wanted (items_of p.ranges) ps) _ _ _
        (subst
          (λ xs.
            Gives (Places c content wanted (items_of p.ranges) ps)
              (fetch_ranges c v.store v.ref xs ps))
          (sym h.0.ranges)
          (fetch_ranges-Gives c content wanted v.store v.ref p.ranges ps
            (plan-IsReadable r gap p v st h.0 k.0 due_here) size))
        (λ ps' q.
          Gives-mono (Places c content wanted (planned plans) ps') _ (fetch_plans c vs ps')
            (λ ps'' q'.
              Places-append c content wanted (items_of p.ranges) (planned plans) ps ps' ps'' q q')
            (fetch_plans-Gives r gap plans vs ps' st h.1 k.1 due_later (q.size ∙ size)))

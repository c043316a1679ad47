-- ===== src/Hydration/Owned.antt =====
-- What a hydration returns has been checked against the tenant of its key.
use dmi.Base.{
  All, All-append, List, [], none, some, suc, ◌∷◌, ◌≡◌, ◌==◌, ℕ, refl, sym, ap, ◌∙◌, subst, length,
  ltb, replicate,
}
use dmi.Model.{CaptureDescriptor, PackRef, pack_ref}
use dmi.Pack.Writer.{Codec}
use dmi.Pack.Reader.{ok}
use dmi.Keys.{codes, reject_a_foreign_tenant}
use dmi.Keys.Tenants.{reject_each}
use dmi.Hydration.{
  Fetched, given, failed, refused, over_limit, Session, ◌>>=◌, lift, refuse_if, CaptureReader,
}
use dmi.Hydration.Plan.{PlannedCapture, enumerate, ObjectPlan, plan}
use dmi.Hydration.Planning.{items_of, planned, plan-Perm, All-Perm}
use dmi.Hydration.Enclosing.{IsOfPlan, IsPlan, plan-IsPlan}
use dmi.Hydration.Footers.{tenants_of, footer_descriptors}
use dmi.Hydration.Selecting.{CaptureSelection, first_ref, resolve, payload_requests, payload_bytes}
use dmi.Hydration.Reader.{
  HydratedCapture, Payloads, require_matches, verify_plan, verify_plans, fetch_plans, collect,
  set_budget, cons_capture, hydrate_plans, hydrate, known_store, store_at,
}
use dmi.Hydration.Outcomes.{OnGot, OnGot-given, Gives, bind-Gives, lift-Gives, after-Gives}
use dmi.Hydration.Refining.{first_ref_lem}
use dmi.Hydration.Ownership.{IsOwn, footer_descriptors-own, matches-IsOwn, texts-IsOwn}

-- The key of the capture's own locator is one for its tenant.
abbrev pub IsOwnCapture : Codec → CaptureDescriptor → Type 0
IsOwnCapture c d = IsOwn c d.locator.object_key d

abbrev IsOwnPlan : Codec → ObjectPlan → Type 0
IsOwnPlan c p = All (λ x. IsOwn c p.object_key x.descriptor) p.items

plan_key :
    (p : ObjectPlan) (ref : PackRef)
    → All (IsOfPlan p) p.items
    → first_ref p.items ≡ given ref
    → ref.object_key ≡ p.object_key
unfolding pack_ref
plan_key p ref own e =
    let (x, of, is_ref) = first_ref_lem (IsOfPlan p) p.items ref own e in
    ap (λ f. f.object_key) (sym is_ref) ∙ of.2

verify_plan-own :
    (r : CaptureReader) (p : ObjectPlan)
    → All (IsOfPlan p) p.items
    → Gives (λ v. IsOwnPlan r.codec p) (verify_plan r p)
unfolding verify_plan
verify_plan-own r p of =
    after-Gives (λ v. IsOwnPlan r.codec p) (lift (known_store (store_at p.store_id r.stores))) _
      (λ store.
        bind-Gives (λ ref. first_ref p.items ≡ given ref) (λ v. IsOwnPlan r.codec p)
          (lift (first_ref p.items)) _
          (lift-Gives (λ ref. first_ref p.items ≡ given ref) (first_ref p.items) (λ ref e. e))
          (λ ref e.
            bind-Gives
              (λ ds. reject_a_foreign_tenant r.codec (codes ref.object_key) (tenants_of ds) ≡ ok tt)
              (λ v. IsOwnPlan r.codec p) (footer_descriptors r store ref) _
              (footer_descriptors-own r store ref)
              (λ footer own.
                bind-Gives (λ u. require_matches footer p.items ≡ given u)
                  (λ v. IsOwnPlan r.codec p) (lift (require_matches footer p.items)) _
                  (lift-Gives (λ u. require_matches footer p.items ≡ given u)
                    (require_matches footer p.items) (λ u e'. e'))
                  (λ u e'. record {
                    gives = λ s.
                        subst (λ k. All (λ x. IsOwn r.codec k x.descriptor) p.items)
                          (plan_key p ref of e)
                          (matches-IsOwn r.codec ref.object_key footer p.items
                            (texts-IsOwn r.codec ref.object_key footer
                              (reject_each r.codec (codes ref.object_key) (tenants_of footer) own))
                            (e' ∙ ap given (unit u)));
                  }))))
  where
    unit : (u : Unit {0}) → u ≡ tt
    unit tt = refl

verify_plans-own :
    (r : CaptureReader) (gap : ℕ) (ps : List ObjectPlan)
    → All (IsPlan gap) ps
    → Gives (λ vs. All (IsOwnPlan r.codec) ps) (verify_plans r ps)
unfolding verify_plans
verify_plans-own r gap [] h = record { gives = λ s. tt }
verify_plans-own r gap (p ∷ ps) h =
    bind-Gives (λ v. IsOwnPlan r.codec p) (λ vs. All (IsOwnPlan r.codec) (p ∷ ps)) (verify_plan r p)
      _ (verify_plan-own r p h.0.own)
      (λ v own.
        bind-Gives (λ vs. All (IsOwnPlan r.codec) ps) (λ vs. All (IsOwnPlan r.codec) (p ∷ ps))
          (verify_plans r ps) _ (verify_plans-own r gap ps h.1)
          (λ vs owns. record { gives = λ s. (own, owns) }))

own_items :
    (c : Codec) (p : ObjectPlan) (xs : List PlannedCapture)
    → All (IsOfPlan p) xs
    → All (λ x. IsOwn c p.object_key x.descriptor) xs
    → All (λ x. IsOwnCapture c x.descriptor) xs
own_items c p [] of h = tt
own_items c p (x ∷ xs) of h =
    (subst (λ k. IsOwn c k x.descriptor) (sym of.0.2) h.0, own_items c p xs of.1 h.1)

own_planned :
    (c : Codec) (gap : ℕ) (ps : List ObjectPlan)
    → All (IsPlan gap) ps
    → All (IsOwnPlan c) ps
    → All (λ x. IsOwnCapture c x.descriptor) (planned ps)
unfolding planned
own_planned c gap [] h own = tt
own_planned c gap (p ∷ ps) h own =
    All-append (λ x. IsOwnCapture c x.descriptor) (items_of p.ranges) (planned ps)
      (subst (All (λ x. IsOwnCapture c x.descriptor)) (sym h.0.same)
        (own_items c p p.items h.0.own own.0))
      (own_planned c gap ps h.1 own.1)

own_each :
    (c : Codec) (n : ℕ) (ds : List CaptureDescriptor)
    → All (λ x. IsOwnCapture c x.descriptor) (enumerate n ds)
    → All (IsOwnCapture c) ds
unfolding enumerate
own_each c n [] h = tt
own_each c n (d ∷ ds) h = (h.0, own_each c (suc n) ds h.1)

own_descriptors :
    (c : Codec) (gap : ℕ) (ds : List CaptureDescriptor)
    → All (IsOwnPlan c) (plan gap ds)
    → All (IsOwnCapture c) ds
own_descriptors c gap ds own = own_each c 0 ds (
    All-Perm (λ x. IsOwnCapture c x.descriptor) (λ x. hlevel) (planned (plan gap ds))
      (enumerate 0 ds) (plan-Perm gap ds)
      (own_planned c gap (plan gap ds) (plan-IsPlan gap ds) own))

abbrev pub AllOwn : Codec → List HydratedCapture → Type 0
AllOwn c hs = All (λ (h : HydratedCapture). IsOwnCapture c h.descriptor) hs

collect-own :
    (c : Codec) (ds : List CaptureDescriptor) (ps : Payloads)
    → All (IsOwnCapture c) ds
    → OnGot (AllOwn c) (collect ds ps)
unfolding collect
collect-own c [] [] h = tt
collect-own c [] (p ∷ ps) h = tt
collect-own c (d ∷ ds) [] h = tt
collect-own c (d ∷ ds) (none ∷ ps) h = tt
collect-own c (d ∷ ds) (some payload ∷ ps) h = cons_own (collect ds ps) (collect-own c ds ps h.1)
  where
    cons_own :
        (x : Fetched (List HydratedCapture))
        → OnGot (AllOwn c) x
        → OnGot (AllOwn c) (cons_capture (record { descriptor = d; payload = payload }) x)
    cons_own (given hs) k = (h.0, k)
    cons_own (failed e) k = tt

verified_own :
    (r : CaptureReader) (ds : List CaptureDescriptor)
    → Gives (AllOwn r.codec) (
        verify_plans r (plan r.max_coalesce_gap_bytes ds) >>= λ vs.
        fetch_plans r.codec vs (replicate (length ds) none) >>= λ ps. lift (collect ds ps))
verified_own r ds =
    let gap = r.max_coalesce_gap_bytes in
    bind-Gives (λ vs. All (IsOwnPlan r.codec) (plan gap ds)) (AllOwn r.codec)
      (verify_plans r (plan gap ds))
      (λ vs. fetch_plans r.codec vs (replicate (length ds) none) >>= λ ps. lift (collect ds ps))
      (verify_plans-own r gap (plan gap ds) (plan-IsPlan gap ds))
      (λ vs own.
        after-Gives (AllOwn r.codec) (fetch_plans r.codec vs (replicate (length ds) none))
          (λ ps. lift (collect ds ps))
          (λ payloads. record {
            gives = λ s. collect-own r.codec ds payloads (own_descriptors r.codec gap ds own);
          }))

hydrate_plans-own :
    (r : CaptureReader) (b n : ℕ) (ds : List CaptureDescriptor)
    → Gives (AllOwn r.codec) (hydrate_plans r b n ds (plan r.max_coalesce_gap_bytes ds))
unfolding hydrate_plans
hydrate_plans-own r b n ds =
    let h = verified_own r ds in
    after-Gives (AllOwn r.codec)
      (lift (refuse_if (ltb n (payload_requests (plan r.max_coalesce_gap_bytes ds))) over_limit)) _
      (λ u.
        after-Gives (AllOwn r.codec)
          (lift (refuse_if (ltb b (payload_bytes (plan r.max_coalesce_gap_bytes ds))) over_limit)) _
          (λ u'. after-Gives (AllOwn r.codec) (set_budget _ _) _ (λ v. h)))

-- Whatever the catalog and the stores answer, whatever is cached and whatever other threads do to
-- the cache: a capture that `hydrate` returns is of a tenant that `reject_a_foreign_tenant` accepts
-- for the object key that the capture was read from.
pub hydrate-AllOwn :
    (r : CaptureReader) (q : CaptureSelection) (byte_limit request_limit : ℕ) (s : Session)
    (hs : List HydratedCapture)
    → (hydrate r q byte_limit request_limit s).1 ≡ given hs
    → AllOwn r.codec hs
unfolding hydrate
hydrate-AllOwn r q byte_limit request_limit s hs e =
    OnGot-given (AllOwn r.codec) _ hs
      ((after-Gives (AllOwn r.codec) (lift (refuse_if (request_limit == 0) refused)) _ (λ u.
          after-Gives (AllOwn r.codec) (lift (resolve r q)) _
            (λ ds. hydrate_plans-own r byte_limit request_limit ds))).gives
        s)
      e

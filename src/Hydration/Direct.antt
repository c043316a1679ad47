-- ===== src/Hydration/Direct.antt =====
-- A hydration that returns has read each capture, whatever its plan.
use mathlib.Core.List.Perm
use dmi.Base.{
  All, List, [], none, some, suc, zero, ◌∷◌, ◌≡◌, ◌≤◌, ◌<◌, ◌+◌, ◌-◌, inl, inr, ℕ, ◌==◌, ltb, refl,
  ap, sym, ◌∙◌, arith, length, subst, replicate, length-replicate, Bool-cases,
}
use dmi.Model.{CaptureDescriptor}
use dmi.Pack.Writer.{Codec}
use dmi.Hydration.{given, refused, over_limit, Session, lift, refuse_if, CaptureReader}
use dmi.Hydration.Plan.{enumerate, plan}
use dmi.Hydration.Planning.{planned, plan-Perm, All-Perm}
use dmi.Hydration.Enclosing.{plan-IsPlan}
use dmi.Hydration.Selecting.{CaptureSelection, resolve, payload_requests, payload_bytes}
use dmi.Hydration.Reader.{HydratedCapture, Payloads, collect, hydrate_plans, hydrate, set_budget}
use dmi.Hydration.Outcomes.{
  OnGot-given, Gives, Gives-mono, bind-Gives, lift-Gives, any-Gives, AllVerify, verify_plans-Gives,
}
use dmi.Hydration.Placing.{at, IsDone, Content, IsStoreOf, IsIntact, IsDue, Places}
use dmi.Hydration.Resolving.{ids_of, resolve-ids}
use dmi.Hydration.Refining.{read_each, wanted_of, IsDue-from, fetch_plans-Gives}

at_ext : (xs ys : Payloads) → ((i : ℕ) → at i xs ≡ at i ys) → xs ≡ ys
at_ext [] [] h = refl
at_ext [] (y ∷ ys) h = let e : none ≡ some y = h 0 in cc
at_ext (x ∷ xs) [] h = let e : some x ≡ none = h 0 in cc
at_ext (x ∷ xs) (y ∷ ys) h =
    let e : some x ≡ some y = h 0 in let tails = at_ext xs ys (λ i. h (suc i)) in cc

at_beyond : (xs : Payloads) (i : ℕ) → length xs ≤ i → at i xs ≡ none
at_beyond [] i h = refl
at_beyond (x ∷ xs) zero h = absurd (omega (arith, h))
at_beyond (x ∷ xs) (suc i) h = at_beyond xs i (omega (arith, h))

index_done :
    (Q : ℕ → Type 0) (n : ℕ) (ds : List CaptureDescriptor)
    → All (λ x. Q x.index) (enumerate n ds)
    → (i : ℕ) → n ≤ i
    → i < n + length ds
    → Q i
unfolding enumerate
index_done Q n [] h i le lt = absurd (omega (arith, le, lt))
index_done Q n (d ∷ ds) h i le lt = elim (Bool-cases (n == i)) [
  | inl e ↦ subst Q (ground (arith, e)) h.0
  | inr e ↦ index_done Q (suc n) ds h.1 i (ground (arith, e, le)) (omega (arith, lt))
]

length-wanted_of :
    (content : Content) (ds : List CaptureDescriptor) → length (wanted_of content ds) ≡ length ds
unfolding wanted_of
length-wanted_of content [] = refl
length-wanted_of content (d ∷ ds) = ap suc (length-wanted_of content ds)

collect-wanted :
    (content : Content) (ds : List CaptureDescriptor)
    → collect ds (wanted_of content ds) ≡ given (read_each content ds)
unfolding collect wanted_of read_each
collect-wanted content [] = refl
collect-wanted content (d ∷ ds) = rw (collect-wanted content ds) refl

each-IsIntact :
    (c : Codec) (content : Content) (n : ℕ) (ds : List CaptureDescriptor)
    → All (λ x. IsIntact c content x.descriptor) (enumerate n ds)
    → All (IsIntact c content) ds
unfolding enumerate
each-IsIntact c content n [] h = tt
each-IsIntact c content n (d ∷ ds) h = (h.0, each-IsIntact c content (suc n) ds h.1)

module _ (c : Codec) (content : Content) (gap : ℕ) (ds : List CaptureDescriptor) where
  all-IsDue : All (IsDue c content (wanted_of content ds)) (planned (plan gap ds))
  all-IsDue =
      All-Perm (IsDue c content (wanted_of content ds)) (λ x. hlevel) (enumerate 0 ds)
        (planned (plan gap ds)) (Perm.symm (plan-Perm gap ds)) (IsDue-from c content [] ds 0 refl)

  placed :
      (ps ps' : Payloads)
      → length ps ≡ length ds
      → Places c content (wanted_of content ds) (planned (plan gap ds)) ps ps'
      → ps' ≡ wanted_of content ds
  placed ps ps' size p =
      let done =
        All-Perm (λ x. IsDone (wanted_of content ds) ps' x.index) (λ x. hlevel)
          (planned (plan gap ds)) (enumerate 0 ds) (plan-Perm gap ds) p.done in
      at_ext ps' (wanted_of content ds) (λ i. elim (Bool-cases (ltb i (length ds))) [
        | inl e ↦
            index_done (IsDone (wanted_of content ds) ps') 0 ds done i (omega arith)
              (ground (arith, e))
        | inr e ↦
            at_beyond ps' i (ground (arith, e, p.size, size))
            ∙ sym (
                at_beyond (wanted_of content ds) i (ground (arith, e, length-wanted_of content ds)))
      ])

  all-IsIntact :
      (ps ps' : Payloads)
      → Places c content (wanted_of content ds) (planned (plan gap ds)) ps ps'
      → All (IsIntact c content) ds
  all-IsIntact ps ps' p = each-IsIntact c content 0 ds (
      All-Perm (λ x. IsIntact c content x.descriptor) (λ x. hlevel) (planned (plan gap ds))
        (enumerate 0 ds) (plan-Perm gap ds) p.intact)

-- What comes of reading each of these captures by itself, each found intact.
pub record IsDirect (r : CaptureReader) (content : Content) (ds : List CaptureDescriptor)
    (hs : List HydratedCapture) : Type 0 where
  pub captures : hs ≡ read_each content ds
  pub intact : All (IsIntact r.codec content) ds

direct :
    (r : CaptureReader) (content : Content) (ds : List CaptureDescriptor) (ps ps' : Payloads)
    (hs : List HydratedCapture)
    → length ps ≡ length ds
    → Places r.codec content
        (wanted_of content ds)
        (planned (plan r.max_coalesce_gap_bytes ds))
        ps
        ps'
    → collect ds ps' ≡ given hs
    → IsDirect r content ds hs
direct r content ds ps ps' hs size p e =
    let gap = r.max_coalesce_gap_bytes in
    let all : ps' ≡ wanted_of content ds = placed r.codec content gap ds ps ps' size p in
    let found : given (read_each content ds) ≡ given hs =
      sym (collect-wanted content ds) ∙ sym (ap (collect ds) all) ∙ e in
    record { captures = cc; intact = all-IsIntact r.codec content gap ds ps ps' p }

hydrate_plans-Gives :
    (r : CaptureReader) (content : Content) (b n : ℕ) (ds : List CaptureDescriptor)
    → All (IsStoreOf content) r.stores
    → Gives (IsDirect r content ds) (hydrate_plans r b n ds (plan r.max_coalesce_gap_bytes ds))
unfolding hydrate_plans
hydrate_plans-Gives r content b n ds stores =
    let gap = r.max_coalesce_gap_bytes in
    let none_yet = replicate (length ds) none in
    let due = all-IsDue r.codec content gap ds in
    bind-Gives (λ u. Unit {0}) _ _ _
      (any-Gives (lift (refuse_if (ltb n (payload_requests (plan gap ds))) over_limit)))
      (λ u u'.
        bind-Gives (λ u. Unit {0}) _ _ _
          (any-Gives (lift (refuse_if (ltb b (payload_bytes (plan gap ds))) over_limit)))
          (λ v v'.
            bind-Gives (λ u. Unit {0}) _ _ _
              (any-Gives
                (set_budget (n - payload_requests (plan gap ds)) (b - payload_bytes (plan gap ds))))
              (λ w w'.
                bind-Gives (AllVerify r (plan gap ds)) _ _ _ (verify_plans-Gives r (plan gap ds))
                  (λ vs h.
                    bind-Gives
                      (Places r.codec content (wanted_of content ds) (planned (plan gap ds))
                        none_yet)
                      _ _ _
                      (fetch_plans-Gives r.codec content (wanted_of content ds) r gap (plan gap ds)
                        vs none_yet stores h (plan-IsPlan gap ds) due
                        (length-replicate (length ds) none ∙ sym (length-wanted_of content ds)))
                      (λ ps p. lift-Gives (IsDirect r content ds) (collect ds ps) (λ hs e.
                        direct r content ds none_yet ps hs (length-replicate (length ds) none) p
                          e))))))

resolved :
    (r : CaptureReader) (content : Content) (q : CaptureSelection) (b n : ℕ)
    → All (IsStoreOf content) r.stores
    → Gives
        (λ hs. (ds : List CaptureDescriptor) × (resolve r q ≡ given ds) × IsDirect r content ds hs)
        (hydrate r q b n)
unfolding hydrate
resolved r content q b n stores =
    bind-Gives (λ u. Unit {0}) _ _ _ (any-Gives (lift (refuse_if (n == 0) refused)))
      (λ u u'.
        bind-Gives (λ ds. resolve r q ≡ given ds) _ _ _
          (lift-Gives (λ ds. resolve r q ≡ given ds) (resolve r q) (λ ds e. e))
          (λ ds e.
            Gives-mono (IsDirect r content ds) _ _ (λ hs h. (ds, e, h))
              (hydrate_plans-Gives r content b n ds stores)))

-- Given stores that read ranges of their objects wherever a read does not raise: when `hydrate`
-- returns, it returns what reading each capture by itself would return, in the order of the
-- selection's identities, and each payload passes `verify_payload`.
pub hydrate-refines :
    (r : CaptureReader) (content : Content) (q : CaptureSelection) (byte_limit request_limit : ℕ)
    (s : Session) (hs : List HydratedCapture)
    → All (IsStoreOf content) r.stores
    → (hydrate r q byte_limit request_limit s).1 ≡ given hs
    → (ds : List CaptureDescriptor) × (resolve r q ≡ given ds)
      × (ids_of ds ≡ q.capture_ids)
      × (hs ≡ read_each content ds)
      × All (IsIntact r.codec content) ds
hydrate-refines r content q byte_limit request_limit s hs stores e =
    let (ds, found, h) =
      OnGot-given _ _ hs ((resolved r content q byte_limit request_limit stores).gives s) e in
    (ds, found, resolve-ids r q ds found, h.captures, h.intact)

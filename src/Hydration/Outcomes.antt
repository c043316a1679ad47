-- ===== src/Hydration/Outcomes.antt =====
-- What a step of a hydration gives when it does not fail, and what `verify_plans` gives.
use dmi.Base.{subst, List, Option, [], none, some, ◌∷◌, ◌≡◌, refl}
use dmi.Hydration.{
  Fetched, given, failed, Act, Session, ◌>>=◌, and_then, lift, RangeStore, CaptureReader,
}
use dmi.Hydration.Plan.{ObjectPlan}
use dmi.Hydration.Selecting.{first_ref}
use dmi.Hydration.Footers.{footer_descriptors}
use dmi.Hydration.Reader.{
  VerifiedPlan, known_store, store_at, require_matches, verify_plan, verify_plans,
}

abbrev pub OnGot : {A : Type 0} → (A → Type 0) → Fetched A → Type 0
OnGot Q (given a) = Q a
OnGot Q (failed e) = Unit

pub record Gives {A : Type 0} (Q : A → Type 0) (m : Act A) : Type 0 where
  pub gives : (s : Session) → OnGot Q (m s).1

pub OnGot-mono :
    {A : Type 0} (Q R : A → Type 0) (x : Fetched A) → ((a : A) → Q a → R a) → OnGot Q x → OnGot R x
OnGot-mono Q R (given a) f h = f a h
OnGot-mono Q R (failed e) f h = tt

pub Gives-mono :
    {A : Type 0} (Q R : A → Type 0) (m : Act A) → ((a : A) → Q a → R a) → Gives Q m → Gives R m
Gives-mono Q R m f h = record { gives = λ s. OnGot-mono Q R (m s).1 f (h.gives s) }

pub OnGot-given :
    {A : Type 0} (Q : A → Type 0) (x : Fetched A) (a : A) → OnGot Q x → x ≡ given a → Q a
OnGot-given Q x a h e = subst (OnGot Q) e h

and_then-OnGot :
    {A B : Type 0} (Q : A → Type 0) (R : B → Type 0) (x : Session × Fetched A) (f : A → Act B)
    → OnGot Q x.1
    → ((a : A) → Q a → Gives R (f a))
    → OnGot R (and_then x f).1
and_then-OnGot Q R (s, given a) f h k = (k a h).gives s
and_then-OnGot Q R (s, failed e) f h k = tt

pub bind-Gives :
    {A B : Type 0} (Q : A → Type 0) (R : B → Type 0) (m : Act A) (f : A → Act B)
    → Gives Q m
    → ((a : A) → Q a → Gives R (f a))
    → Gives R (m >>= f)
bind-Gives Q R m f h k = record { gives = λ s. and_then-OnGot Q R (m s) f (h.gives s) k }

pub lift-Gives :
    {A : Type 0} (Q : A → Type 0) (r : Fetched A) → ((a : A) → r ≡ given a → Q a) → Gives Q (lift r)
lift-Gives Q (given a) h = record { gives = λ s. h a refl }
lift-Gives Q (failed e) h = record { gives = λ s. tt }

-- A step of which nothing is asked.
pub any-Gives : {A : Type 0} (m : Act A) → Gives (λ a. Unit {0}) m
any-Gives {A} m = record { gives = λ s. go (m s).1 }
  where
    go : (x : Fetched A) → OnGot (λ a. Unit {0}) x
    go (given a) = tt
    go (failed e) = tt

-- What a step gives that uses nothing of the step before it.
pub after-Gives :
    {A B : Type 0} (R : B → Type 0) (m : Act A) (f : A → Act B)
    → ((a : A) → Gives R (f a))
    → Gives R (m >>= f)
after-Gives R m f k = bind-Gives (λ a. Unit {0}) R m f (any-Gives m) (λ a u. k a)

-- A verified plan is that of its object: its store is the one of that name, and its reference that
-- of the first capture.
pub record Verifies (r : CaptureReader) (p : ObjectPlan) (v : VerifiedPlan) : Type 0 where
  pub ranges : v.ranges ≡ p.ranges
  pub store : store_at p.store_id r.stores ≡ some v.store
  pub ref : first_ref p.items ≡ given v.ref

abbrev pub AllVerify : CaptureReader → List ObjectPlan → List VerifiedPlan → Type 0
AllVerify r [] [] = Unit
AllVerify r [] (v ∷ vs) = ⊥
AllVerify r (p ∷ ps) [] = ⊥
AllVerify r (p ∷ ps) (v ∷ vs) = Verifies r p v × AllVerify r ps vs

known_store_lem : (o : Option RangeStore) (s : RangeStore) → known_store o ≡ given s → o ≡ some s
known_store_lem none s e = cc
known_store_lem (some t) s e = cc

verify_plan-Gives : (r : CaptureReader) (p : ObjectPlan) → Gives (Verifies r p) (verify_plan r p)
unfolding verify_plan
verify_plan-Gives r p =
    bind-Gives (λ store. store_at p.store_id r.stores ≡ some store) (Verifies r p) _ _
      (lift-Gives _ _ (known_store_lem (store_at p.store_id r.stores)))
      (λ store e.
        bind-Gives (λ ref. first_ref p.items ≡ given ref) (Verifies r p) _ _
          (lift-Gives _ _ (λ ref e'. e'))
          (λ ref e'.
            bind-Gives (λ footer. Unit {0}) (Verifies r p) _ _
              (any-Gives (footer_descriptors r store ref))
              (λ footer u.
                bind-Gives (λ u'. Unit {0}) (Verifies r p) _ _
                  (any-Gives (lift (require_matches footer p.items)))
                  (λ u' x. record { gives = λ s. record { ranges = refl; store = e; ref = e' } }))))

pub verify_plans-Gives :
    (r : CaptureReader) (ps : List ObjectPlan) → Gives (AllVerify r ps) (verify_plans r ps)
unfolding verify_plans
verify_plans-Gives r [] = record { gives = λ s. tt }
verify_plans-Gives r (p ∷ ps) =
    bind-Gives (Verifies r p) (AllVerify r (p ∷ ps)) _ _ (verify_plan-Gives r p) (λ v h.
      bind-Gives (AllVerify r ps) (AllVerify r (p ∷ ps)) _ _ (verify_plans-Gives r ps)
        (λ vs hs. record { gives = λ s. (h, hs) }))

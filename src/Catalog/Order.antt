-- ===== src/Catalog/Order.antt =====
-- What a pass may ask of the writer, and in which order; and how a step of a pass keeps to it.
use dmi.Base.{Bool, List, [], false, if◌then◌else◌, length, true, ℕ, ◌++◌, ◌==◌, ◌∷◌, ◌≡◌}
use dmi.Model.{PackRef, CaptureDescriptor}
use dmi.Catalog.{Answer, returns, raises, publish_conflict}
use dmi.Catalog.Writer.{
  Call, allocated, wrote, published, committed, Trace, IndexerState, Ix, continue,
}

-- The descriptors written at a version since the last version was allocated.
unfoldable pub written_at : ℕ → Trace → List CaptureDescriptor
written_at v [] = []
written_at v (allocated r ∷ t) = []
written_at v (wrote ds v' (returns u) ∷ t) =
    if v' == v then written_at v t ++ ds else written_at v t
written_at v (_ ∷ t) = written_at v t

-- A snapshot that `publish_snapshot` accepted, or that it reports as conflicted, is visible.
unfoldable pub makes_visible : Answer (Unit {0}) → Bool
makes_visible (returns u) = true
makes_visible (raises publish_conflict) = true
makes_visible _ = false

pub data IsVisible (refs : List PackRef) (v : ℕ) : Trace → Type 0 where
  here :
      {t : Trace} (earlier : Trace) (rows : ℕ) (a : Answer (Unit {0}))
      → t ≡ published v refs rows a ∷ earlier
      → makes_visible a ≡ true
      → IsVisible refs v t
  before :
      {t : Trace} (c : Call) (earlier : Trace)
      → t ≡ c ∷ earlier
      → IsVisible refs v earlier
      → IsVisible refs v t

-- Each publish names the packs of the pass, at a version at which all their descriptors, and no
-- others, were written since it was allocated; each commit is of packs that are visible by then.
unfoldable pub IsOrdered : List PackRef → List CaptureDescriptor → Trace → Type 0
IsOrdered refs ds [] = Unit
IsOrdered refs ds (published v refs' rows a ∷ t) =
    (refs' ≡ refs) × (written_at v t ≡ ds) × (rows ≡ length ds) × IsOrdered refs ds t
IsOrdered refs ds (committed refs' v a ∷ t) =
    (refs' ≡ refs) × IsVisible refs v t × IsOrdered refs ds t
IsOrdered refs ds (_ ∷ t) = IsOrdered refs ds t

-- What a step of a pass leaves behind, when it returns and when it raises.
unfoldable pub Ends {ℓ} :
    {A : Type ℓ} → (A → Trace → Type 0) → (Trace → Type 0) → IndexerState × Answer A → Type 0
Ends Q E (s, returns a) = Q a s.trace
Ends Q E (s, raises e) = E s.trace

pub continue-Ends {ℓ κ} :
    {A : Type ℓ} {B : Type κ} (Q : A → Trace → Type 0) (R : B → Trace → Type 0) (E : Trace → Type 0)
    (x : IndexerState × Answer A) (f : A → Ix B)
    → Ends Q E x
    → ((s : IndexerState) (a : A) → Q a s.trace → Ends R E (f a s))
    → Ends R E (continue x.0 x.1 f)
unfolding Ends
continue-Ends Q R E (s, returns a) f h k = k s a h
continue-Ends Q R E (s, raises e) f h k = h

pub answer-Ends {ℓ} :
    {A : Type ℓ} (Q : A → Trace → Type 0) (E : Trace → Type 0) (s : IndexerState) (r : Answer A)
    → ((a : A) → Q a s.trace)
    → E s.trace
    → Ends Q E (s, r)
unfolding Ends
answer-Ends Q E s (returns a) q e = q a
answer-Ends Q E s (raises x) q e = e

pub if-Ends {ℓ} :
    {A : Type ℓ} (Q : A → Trace → Type 0) (E : Trace → Type 0) (b : Bool) (m k : Ix A)
    (s : IndexerState)
    → Ends Q E (m s)
    → Ends Q E (k s)
    → Ends Q E ((if b then m else k) s)
if-Ends Q E true m k s x y = x
if-Ends Q E false m k s x y = y

-- ===== src/Hydration/Needing.antt =====
-- What of its budget the first loop of a hydration needs.
use dmi.Base.{Bool, ◌≡◌, ◌≤◌, ◌+◌, ℕ, inl, inr, refl, arith, true, false, Option-cases}
use dmi.Model.{PackRef}
use dmi.Pack.Reader.{Read, ok, err, bad_format, bad_integrity}
use dmi.Hydration.{
  HydrationError, Fetched, given, failed, over_limit, wrong_format, wrong_integrity, refused,
  Session, Act, ◌>>=◌, and_then, lift, from_read, RangeStore, read_from, consume, budgeted_read,
}
use dmi.Hydration.Outcomes.{OnGot, Gives, lift-Gives}

abbrev pub is_limit : {A : Type 0} → Fetched A → Bool
is_limit (failed over_limit) = true
is_limit _ = false

abbrev pub Leaves : {A : Type 0} → ℕ → ℕ → Session × Fetched A → Type 0
Leaves n b x = (is_limit x.1 ≡ false) × (n ≤ x.0.requests) × (b ≤ x.0.bytes)

-- With `n` requests of `b` bytes in all, the step raises no limit; what was there besides is left.
pub record Needs {A : Type 0} (n b : ℕ) (m : Act A) : Type 0 where
  pub leaves : (k c : ℕ) (s : Session) → n + k ≤ s.requests → b + c ≤ s.bytes → Leaves k c (m s)

pub limit_same :
    (A B : Type 0) (e : HydrationError)
    → is_limit {A = A} (failed e) ≡ false
    → is_limit {A = B} (failed e) ≡ false
limit_same A B over_limit p = cc
limit_same A B wrong_format p = refl
limit_same A B wrong_integrity p = refl
limit_same A B HydrationError.duplicated p = refl
limit_same A B refused p = refl
limit_same A B HydrationError.store_failed p = refl
limit_same A B HydrationError.catalog_failed p = refl
limit_same A B HydrationError.not_there p = refl

and_then-Leaves :
    {A B : Type 0} (Q : A → Type 0) (n b k c : ℕ) (x : Session × Fetched A) (f : A → Act B)
    → Leaves (n + k) (b + c) x
    → OnGot Q x.1
    → ((a : A) → Q a → Needs n b (f a))
    → Leaves k c (and_then x f)
and_then-Leaves {A} {B} Q n b k c (s, given a) f h q hf = (hf a q).leaves k c s h.1 h.2
and_then-Leaves {A} {B} Q n b k c (s, failed e) f h q hf =
    (limit_same A B e h.0, omega (arith, h.1), omega (arith, h.2))

pub bind-Needs :
    {A B : Type 0} (Q : A → Type 0) (n b n' b' : ℕ) (m : Act A) (f : A → Act B)
    → Needs n b m
    → Gives Q m
    → ((a : A) → Q a → Needs n' b' (f a))
    → Needs (n + n') (b + b') (m >>= f)
bind-Needs Q n b n' b' m f h g hf = record {
  leaves = λ k c s hn hb.
      and_then-Leaves Q n' b' k c (m s) f
        (h.leaves (n' + k) (b' + c) s (omega (arith, hn)) (omega (arith, hb))) (g.gives s) hf;
}

pub Needs-le :
    {A : Type 0} (n b n' b' : ℕ) (m : Act A) → Needs n b m → n ≤ n' → b ≤ b' → Needs n' b' m
Needs-le n b n' b' m h ln lb = record {
  leaves = λ k c s hn hb. h.leaves k c s (omega (arith, hn, ln)) (omega (arith, hb, lb));
}

pub lift-Needs : {A : Type 0} (r : Fetched A) → is_limit r ≡ false → Needs 0 0 (lift r)
lift-Needs r h = record { leaves = λ k c s hn hb. (h, omega (arith, hn), omega (arith, hb)) }

-- The same for a step after which nothing is known.
pub then-Needs :
    {A B : Type 0} (n b : ℕ) (r : Fetched A) (f : A → Act B)
    → is_limit r ≡ false
    → ((a : A) → r ≡ given a → Needs n b (f a))
    → Needs n b (lift r >>= f)
then-Needs n b r f h hf =
    Needs-le (0 + n) (0 + b) n b _
      (bind-Needs (λ a. r ≡ given a) 0 0 n b (lift r) f (lift-Needs r h)
        (lift-Gives (λ a. r ≡ given a) r (λ a e. e)) hf)
      (omega arith) (omega arith)

pub from_read-no_limit : {A : Type 0} (r : Read A) → is_limit (from_read r) ≡ false
from_read-no_limit (ok a) = refl
from_read-no_limit (err bad_format) = refl
from_read-no_limit (err bad_integrity) = refl

pub from_read-given : {A : Type 0} (r : Read A) (a : A) → from_read r ≡ given a → r ≡ ok a
from_read-given (ok b) a e = cc
from_read-given (err bad_format) a e = cc
from_read-given (err bad_integrity) a e = cc

pub budgeted_read-Needs :
    (store : RangeStore) (ref : PackRef) (offset size : ℕ)
    → Needs 1 size (budgeted_read store ref offset size)
unfolding budgeted_read consume read_from
budgeted_read-Needs store ref offset size = record {
  leaves = λ k c s hn hb. elim (Option-cases (store.read_range ref offset size)) [
    | inl e ↦ (ground (arith, e), ground (arith, e), ground (arith, e))
    | inr (bytes, e) ↦ (ground (arith, e), ground (arith, e), ground (arith, e))
  ];
}

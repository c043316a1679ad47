-- ===== src/Hydration/Spending.antt =====
-- What the steps of a hydration may spend of its budget, on every outcome.
use dmi.Base.{List, ◌+◌, ◌≤◌, ℕ, arith, Option-cases, inl, inr}
use dmi.Model.{CaptureDescriptor, PackRef}
use dmi.Hydration.{
  Fetched, given, failed, FooterCache, Session, Act, ◌>>=◌, and_then, lift, RangeStore, read_from,
  consume, budgeted_read, CaptureReader,
}
use dmi.Hydration.Footers.{
  entry_at, budgeted_from_store, with_cached, load_footer, load_after, footer_descriptors,
  keep_footer,
}

-- The reads between two sessions were paid from the budget, but for `n` of `b` bytes in all.
abbrev pub Spends : ℕ → ℕ → Session → Session → Type 0
Spends n b s s' =
    (s'.reads + s'.requests ≤ s.reads + s.requests + n)
    × (s'.read_bytes + s'.bytes ≤ s.read_bytes + s.bytes + b)

pub record IsSpending {A : Type 0} (n b : ℕ) (m : Act A) : Type 0 where
  pub spends : (s : Session) → Spends n b s (m s).0

and_then-Spends :
    {A B : Type 0} (n b k c : ℕ) (s : Session) (x : Session × Fetched A) (f : A → Act B)
    → Spends n b s x.0
    → ((a : A) → IsSpending k c (f a))
    → Spends (n + k) (b + c) s (and_then x f).0
and_then-Spends n b k c s (s', given a) f h hf =
    let g = (hf a).spends s' in (omega (arith, h, g), omega (arith, h, g))
and_then-Spends n b k c s (s', failed e) f h hf = (omega (arith, h), omega (arith, h))

pub bind-Spends :
    {A B : Type 0} (n b k c : ℕ) (m : Act A) (f : A → Act B)
    → IsSpending n b m
    → ((a : A) → IsSpending k c (f a))
    → IsSpending (n + k) (b + c) (m >>= f)
bind-Spends n b k c m f hm hf = record {
  spends = λ s. and_then-Spends n b k c s (m s) f (hm.spends s) hf;
}

-- The same where neither step reads but from the budget.
pub bind-Pays :
    {A B : Type 0} (m : Act A) (f : A → Act B)
    → IsSpending 0 0 m
    → ((a : A) → IsSpending 0 0 (f a))
    → IsSpending 0 0 (m >>= f)
bind-Pays m f hm hf = bind-Spends 0 0 0 0 m f hm hf

pub lift-Pays : {A : Type 0} (r : Fetched A) → IsSpending 0 0 (lift r)
lift-Pays r = record { spends = λ s. (omega arith, omega arith) }

budgeted_read-Pays :
    (store : RangeStore) (ref : PackRef) (offset size : ℕ)
    → IsSpending 0 0 (budgeted_read store ref offset size)
unfolding budgeted_read consume read_from
budgeted_read-Pays store ref offset size = record { spends = λ s. (ground arith, ground arith) }

budgeted_from_store-Pays :
    (r : CaptureReader) (store : RangeStore) (ref : PackRef)
    → IsSpending 0 0 (budgeted_from_store r store ref)
unfolding budgeted_from_store
budgeted_from_store-Pays r store ref = search (bind-Pays, lift-Pays, budgeted_read-Pays) depth 12

with_cached-Pays :
    (r : CaptureReader) (ref : PackRef) (miss : FooterCache → Act (List CaptureDescriptor))
    → ((cache : FooterCache) → IsSpending 0 0 (miss cache))
    → IsSpending 0 0 (with_cached r ref miss)
unfolding with_cached
with_cached-Pays r ref miss h = record {
  spends = λ s.
      let cache = r.others s in
      elim (Option-cases (entry_at ref cache.entries)) [
        | inl e ↦ rw (e, with_cached) ((h cache).spends s)
        | inr (x, e) ↦ rw (e, with_cached) (omega arith, omega arith)
      ];
}

keep_footer-Pays :
    (r : CaptureReader) (ref : PackRef) (size : ℕ) (footer : List CaptureDescriptor)
    (cache : FooterCache)
    → IsSpending 0 0 (keep_footer r ref size footer cache)
keep_footer-Pays r ref size footer cache = record { spends = λ s. (omega arith, omega arith) }

load_footer-Pays :
    (r : CaptureReader) (store : RangeStore) (ref : PackRef)
    → IsSpending 0 0 (load_footer r store ref)
unfolding load_footer
load_footer-Pays r store ref =
    search (bind-Pays, lift-Pays, budgeted_from_store-Pays, with_cached-Pays, keep_footer-Pays)
      depth 8

load_after-Pays :
    (r : CaptureReader) (store : RangeStore) (ref : PackRef) (cache : FooterCache)
    → IsSpending 0 0 (load_after r store ref cache)
unfolding load_after
load_after-Pays r store ref cache = record {
  spends = λ s. (load_footer-Pays r store ref).spends (record s { cache = cache });
}

pub footer_descriptors-Pays :
    (r : CaptureReader) (store : RangeStore) (ref : PackRef)
    → IsSpending 0 0 (footer_descriptors r store ref)
unfolding footer_descriptors
footer_descriptors-Pays r store ref =
    with_cached-Pays r ref (load_after r store ref) (load_after-Pays r store ref)

-- ===== src/Hydration/Enclosing.antt =====
-- The ranges of a plan enclose the captures that they are read for, and lie apart; and the captures
-- of a plan are of its object.
use dmi.Base.{
  String, All, All-append, All-mono, List, [], ◌∷◌, ◌++◌, ℕ, ◌+◌, ◌-◌, ◌≤◌, ◌<◌, ◌≡◌, leb, refl,
  true, if_cases, map, max, arith, eq_iff, leb→le,
}
use dmi.Model.{CaptureDescriptor}
use dmi.Hydration.Plan.{
  PlannedCapture, enumerate, start_of, stop_of, Group, is_of, add_to, grouped, insert_by_offset,
  sort_by_offset, ReadRange, range_of, coalesce, ranges_of, ObjectPlan, plan_of, plan,
}
use dmi.Hydration.Planning.{items_of, ranges_of-items}

abbrev IsSorted : List PlannedCapture → Type 0
IsSorted [] = Unit
IsSorted (x ∷ xs) = All (λ y. start_of x ≤ start_of y) xs × IsSorted xs

All-insert :
    (P : PlannedCapture → Type 0) (x : PlannedCapture) (ys : List PlannedCapture)
    → P x
    → All P ys
    → All P (insert_by_offset x ys)
unfolding insert_by_offset
All-insert P x [] h hs = (h, tt)
All-insert P x (y ∷ ys) h hs =
    if_cases (All P) (leb (start_of x) (start_of y)) (λ e. (h, hs))
      (λ e. (hs.0, All-insert P x ys h hs.1))

All-sort :
    (P : PlannedCapture → Type 0) (xs : List PlannedCapture) → All P xs → All P (sort_by_offset xs)
unfolding sort_by_offset
All-sort P [] h = tt
All-sort P (x ∷ xs) h = All-insert P x (sort_by_offset xs) h.0 (All-sort P xs h.1)

insert-IsSorted :
    (x : PlannedCapture) (ys : List PlannedCapture) → IsSorted ys → IsSorted (insert_by_offset x ys)
unfolding insert_by_offset
insert-IsSorted x [] h = (tt, tt)
insert-IsSorted x (y ∷ ys) h =
    if_cases IsSorted (leb (start_of x) (start_of y))
      (λ e.
        let le = leb→le (start_of x) (start_of y) e in
        ((le, All-mono _ _ (λ z (p : start_of y ≤ start_of z). omega (arith, p, le)) ys h.0), h))
      (λ e. (
        All-insert (λ z. start_of y ≤ start_of z) x ys (ground arith) h.0,
        insert-IsSorted x ys h.1,
      ))

sort-IsSorted : (xs : List PlannedCapture) → IsSorted (sort_by_offset xs)
unfolding sort_by_offset
sort-IsSorted [] = tt
sort-IsSorted (x ∷ xs) = insert-IsSorted x (sort_by_offset xs) (sort-IsSorted xs)

abbrev pub Inside : ℕ → ℕ → PlannedCapture → Type 0
Inside start stop y = (start ≤ start_of y) × (stop_of y ≤ stop)

abbrev pub Encloses : ReadRange → Type 0
Encloses x = All (Inside x.offset (x.offset + x.length)) x.items

abbrev StartsAfter : ℕ → List ReadRange → Type 0
StartsAfter bound [] = Unit
StartsAfter bound (x ∷ xs) = bound < x.offset

abbrev pub IsApart : ℕ → List ReadRange → Type 0
IsApart gap [] = Unit
IsApart gap (x ∷ xs) = StartsAfter (x.offset + x.length + gap) xs × IsApart gap xs

range_of-Encloses :
    (current : List PlannedCapture) (start stop : ℕ)
    → start ≤ stop
    → All (Inside start stop) current
    → Encloses (range_of current start stop)
range_of-Encloses current start stop le h =
    All-mono _ _ (λ y (p : Inside start stop y). (p.0, omega (arith, p.1, le))) current h

coalesce-Encloses :
    (gap : ℕ) (current : List PlannedCapture) (start stop : ℕ) (xs : List PlannedCapture)
    → start ≤ stop
    → All (Inside start stop) current
    → All (λ y. start ≤ start_of y) xs
    → IsSorted xs
    → All Encloses (coalesce gap current start stop xs)
unfolding coalesce
coalesce-Encloses gap current start stop [] le h later s =
    (range_of-Encloses current start stop le h, tt)
coalesce-Encloses gap current start stop (x ∷ xs) le h later s =
    if_cases (All Encloses) (leb (start_of x) (stop + gap))
      (λ e.
        coalesce-Encloses gap (current ++ x ∷ []) start (max stop (stop_of x)) xs
          (omega (arith, le))
          (All-append _ current (x ∷ [])
            (All-mono _ _ (λ y (p : Inside start stop y). (p.0, omega (arith, p.1))) current h)
            ((later.0, omega arith), tt))
          later.1 s.1)
      (λ e. (
        range_of-Encloses current start stop le h,
        coalesce-Encloses gap (x ∷ []) (start_of x) (stop_of x) xs (omega arith)
            ((omega arith, omega arith), tt) s.0 s.1,
      ))

coalesce-StartsAfter :
    (gap bound : ℕ) (current : List PlannedCapture) (start stop : ℕ) (xs : List PlannedCapture)
    → bound < start
    → StartsAfter bound (coalesce gap current start stop xs)
unfolding coalesce
coalesce-StartsAfter gap bound current start stop [] h = h
coalesce-StartsAfter gap bound current start stop (x ∷ xs) h =
    if_cases (StartsAfter bound) (leb (start_of x) (stop + gap))
      (λ e. coalesce-StartsAfter gap bound (current ++ x ∷ []) start (max stop (stop_of x)) xs h)
      (λ e. h)

coalesce-IsApart :
    (gap : ℕ) (current : List PlannedCapture) (start stop : ℕ) (xs : List PlannedCapture)
    → start ≤ stop
    → IsApart gap (coalesce gap current start stop xs)
unfolding coalesce
coalesce-IsApart gap current start stop [] le = (tt, tt)
coalesce-IsApart gap current start stop (x ∷ xs) le =
    if_cases (IsApart gap) (leb (start_of x) (stop + gap))
      (λ e.
        coalesce-IsApart gap (current ++ x ∷ []) start (max stop (stop_of x)) xs
          (omega (arith, le)))
      (λ e. (
        coalesce-StartsAfter gap (start + (stop - start) + gap) (x ∷ []) (start_of x) (stop_of x) xs
            (ground (arith, le)),
        coalesce-IsApart gap (x ∷ []) (start_of x) (stop_of x) xs (omega arith),
      ))

-- The ranges of sorted captures.
ranges_lem :
    (gap : ℕ) (xs : List PlannedCapture)
    → IsSorted xs
    → All Encloses (ranges_of gap xs) × IsApart gap (ranges_of gap xs)
unfolding ranges_of
ranges_lem gap [] s = (tt, tt)
ranges_lem gap (x ∷ xs) s = (
  coalesce-Encloses gap (x ∷ []) (start_of x) (stop_of x) xs (omega arith)
      ((omega arith, omega arith), tt) s.0 s.1,
  coalesce-IsApart gap (x ∷ []) (start_of x) (stop_of x) xs (omega arith),
)

-- The captures of a plan are those of its ranges, and are of the plan's object.
abbrev IsOf : String → String → String → PlannedCapture → Type 0
IsOf store_id pack_id object_key x =
    (x.descriptor.locator.store_id ≡ store_id)
    × (x.descriptor.locator.pack_id ≡ pack_id)
    × (x.descriptor.locator.object_key ≡ object_key)

abbrev pub IsOfPlan : ObjectPlan → PlannedCapture → Type 0
IsOfPlan p x = IsOf p.store_id p.pack_id p.object_key x

abbrev IsOfGroup : Group → Type 0
IsOfGroup g = All (IsOf g.store_id g.pack_id g.object_key) g.items

is_of_lem :
    (g : Group) (x : PlannedCapture) → is_of g x ≡ true → IsOf g.store_id g.pack_id g.object_key x
unfolding is_of
is_of_lem g x e = (
  ground (arith, eq_iff x.descriptor.locator.store_id g.store_id),
  ground (arith, eq_iff x.descriptor.locator.pack_id g.pack_id),
  ground (arith, eq_iff x.descriptor.locator.object_key g.object_key),
)

add_to-IsOfGroup :
    (x : PlannedCapture) (gs : List Group) → All IsOfGroup gs → All IsOfGroup (add_to x gs)
unfolding add_to
add_to-IsOfGroup x [] h = (((refl, refl, refl), tt), tt)
add_to-IsOfGroup x (g ∷ gs) h =
    if_cases (All IsOfGroup) (is_of g x)
      (λ e. (All-append _ g.items (x ∷ []) h.0 (is_of_lem g x e, tt), h.1))
      (λ e. (h.0, add_to-IsOfGroup x gs h.1))

grouped-IsOfGroup :
    (gs : List Group) (xs : List PlannedCapture) → All IsOfGroup gs → All IsOfGroup (grouped gs xs)
unfolding grouped
grouped-IsOfGroup gs [] h = h
grouped-IsOfGroup gs (x ∷ xs) h = grouped-IsOfGroup (add_to x gs) xs (add_to-IsOfGroup x gs h)

-- What every plan is.
pub record IsPlan (gap : ℕ) (p : ObjectPlan) : Type 0 where
  pub enclosed : All Encloses p.ranges
  pub apart : IsApart gap p.ranges
  pub own : All (IsOfPlan p) p.items
  pub same : items_of p.ranges ≡ p.items

plan_of-IsPlan : (gap : ℕ) (g : Group) → IsOfGroup g → IsPlan gap (plan_of gap g)
unfolding plan_of
plan_of-IsPlan gap g h =
    let (a, b) = ranges_lem gap (sort_by_offset g.items) (sort-IsSorted g.items) in
    record {
      enclosed = a;
      apart = b;
      own = All-sort _ g.items h;
      same = ranges_of-items gap (sort_by_offset g.items);
    }

plans_of-IsPlan :
    (gap : ℕ) (gs : List Group) → All IsOfGroup gs → All (IsPlan gap) (map (plan_of gap) gs)
plans_of-IsPlan gap [] h = tt
plans_of-IsPlan gap (g ∷ gs) h = (plan_of-IsPlan gap g h.0, plans_of-IsPlan gap gs h.1)

-- Whatever the captures and the gap: the captures of a plan are of its object and are those of its
-- ranges; each range encloses its captures; and a range begins more than the gap after the one
-- before it ends.
pub plan-IsPlan : (gap : ℕ) (ds : List CaptureDescriptor) → All (IsPlan gap) (plan gap ds)
unfolding plan
plan-IsPlan gap ds =
    plans_of-IsPlan gap (grouped [] (enumerate 0 ds)) (grouped-IsOfGroup [] (enumerate 0 ds) tt)

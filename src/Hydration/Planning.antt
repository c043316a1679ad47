-- ===== src/Hydration/Planning.antt =====
-- A plan has the captures it was made from, each once.
use mathlib.Core.List.{Mem, Perm, perm_middle, forall_mem-cons, not-mem-nil}
use mathlib.Core.List.Perm
use dmi.Base.{
  All, List, [], ◌∷◌, ◌++◌, ℕ, ◌+◌, leb, refl, ap, sym, ◌∙◌, ◌≡◌, subst, append_assoc, append-nil,
  if_cases, map, max,
}
use dmi.Model.{CaptureDescriptor}
use dmi.Hydration.Plan.{
  PlannedCapture, enumerate, start_of, stop_of, Group, is_of, add_to, grouped, insert_by_offset,
  sort_by_offset, ReadRange, coalesce, ranges_of, ObjectPlan, plan_of, plan,
}

unfoldable pub items_of : List ReadRange → List PlannedCapture
items_of [] = []
items_of (x ∷ xs) = x.items ++ items_of xs

-- The captures that the ranges of the plans are read for.
unfoldable pub planned : List ObjectPlan → List PlannedCapture
unfolding items_of
planned [] = []
planned (p ∷ ps) = items_of p.ranges ++ planned ps

group_items : List Group → List PlannedCapture
group_items [] = []
group_items (g ∷ gs) = g.items ++ group_items gs

coalesce-items :
    (gap : ℕ) (current : List PlannedCapture) (start stop : ℕ) (xs : List PlannedCapture)
    → items_of (coalesce gap current start stop xs) ≡ current ++ xs
unfolding coalesce items_of
coalesce-items gap current start stop [] = refl
coalesce-items gap current start stop (x ∷ xs) =
    if_cases (λ l. items_of l ≡ current ++ x ∷ xs) (leb (start_of x) (stop + gap))
      (λ e.
        coalesce-items gap (current ++ x ∷ []) start (max stop (stop_of x)) xs
        ∙ append_assoc current (x ∷ []) xs)
      (λ e. ap (λ l. current ++ l) (coalesce-items gap (x ∷ []) (start_of x) (stop_of x) xs))

pub ranges_of-items : (gap : ℕ) (xs : List PlannedCapture) → items_of (ranges_of gap xs) ≡ xs
unfolding ranges_of items_of
ranges_of-items gap [] = refl
ranges_of-items gap (x ∷ xs) = coalesce-items gap (x ∷ []) (start_of x) (stop_of x) xs

insert-Perm :
    (x : PlannedCapture) (ys : List PlannedCapture) → Perm (insert_by_offset x ys) (x ∷ ys)
unfolding insert_by_offset
insert-Perm x [] = Perm.refl (x ∷ [])
insert-Perm x (y ∷ ys) =
    if_cases (λ l. Perm l (x ∷ y ∷ ys)) (leb (start_of x) (start_of y))
      (λ e. Perm.refl (x ∷ y ∷ ys))
      (λ e. Perm.trans (Perm.cons _ (insert-Perm x ys)) (Perm.swap _ _ _))

pub sort-Perm : (xs : List PlannedCapture) → Perm (sort_by_offset xs) xs
unfolding sort_by_offset
sort-Perm [] = Perm.nil
sort-Perm (x ∷ xs) = Perm.trans (insert-Perm x (sort_by_offset xs)) (Perm.cons _ (sort-Perm xs))

snoc-Perm :
    (x : PlannedCapture) (xs ys : List PlannedCapture)
    → Perm ((xs ++ x ∷ []) ++ ys) (x ∷ (xs ++ ys))
snoc-Perm x xs ys = rw (append_assoc) (perm_middle xs ys)

cross-Perm :
    (x : PlannedCapture) (xs ys zs : List PlannedCapture)
    → Perm ys (x ∷ zs)
    → Perm (xs ++ ys) (x ∷ (xs ++ zs))
cross-Perm x xs ys zs h = Perm.trans (Perm.append_left xs h) (perm_middle xs zs)

add_to-Perm :
    (x : PlannedCapture) (gs : List Group) → Perm (group_items (add_to x gs)) (x ∷ group_items gs)
unfolding add_to group_items
add_to-Perm x [] = Perm.refl (x ∷ [])
add_to-Perm x (g ∷ gs) =
    if_cases (λ l. Perm (group_items l) (x ∷ (g.items ++ group_items gs))) (is_of g x)
      (λ e. snoc-Perm x g.items (group_items gs))
      (λ e. cross-Perm x g.items (group_items (add_to x gs)) (group_items gs) (add_to-Perm x gs))

grouped-Perm :
    (gs : List Group) (xs : List PlannedCapture)
    → Perm (group_items (grouped gs xs)) (xs ++ group_items gs)
unfolding grouped group_items
grouped-Perm gs [] = Perm.refl (group_items gs)
grouped-Perm gs (x ∷ xs) =
    Perm.trans (grouped-Perm (add_to x gs) xs)
      (cross-Perm x xs (group_items (add_to x gs)) (group_items gs) (add_to-Perm x gs))

append-Perm : (a b c d : List PlannedCapture) → Perm a b → Perm c d → Perm (a ++ c) (b ++ d)
append-Perm a b c d h k = Perm.trans (Perm.append_right c h) (Perm.append_left b k)

planned-Perm : (gap : ℕ) (gs : List Group) → Perm (planned (map (plan_of gap) gs)) (group_items gs)
unfolding planned plan_of group_items
planned-Perm gap [] = Perm.nil
planned-Perm gap (g ∷ gs) =
    append-Perm _ g.items _ (group_items gs)
      (subst (λ l. Perm l g.items) (sym (ranges_of-items gap (sort_by_offset g.items)))
        (sort-Perm g.items))
      (planned-Perm gap gs)

-- Whatever the captures and the gap: the ranges of the plans are read for each capture, once.
pub plan-Perm :
    (gap : ℕ) (ds : List CaptureDescriptor) → Perm (planned (plan gap ds)) (enumerate 0 ds)
unfolding plan group_items
plan-Perm gap ds = Perm.trans (planned-Perm gap (grouped [] (enumerate 0 ds))) (
    subst (λ l. Perm (group_items (grouped [] (enumerate 0 ds))) l) (append-nil (enumerate 0 ds))
      (grouped-Perm [] (enumerate 0 ds)))

pub at_all :
    (P : PlannedCapture → Type 0)
    → ((x : PlannedCapture) → IsProp (P x))
    → (xs : List PlannedCapture) → All P xs
    → (x : PlannedCapture) → Mem x xs
    → P x
at_all P q [] h x m = absurd (not-mem-nil m)
at_all P q (y ∷ ys) h x m = (forall_mem-cons q).1 (h.0, at_all P q ys h.1) x m

pub from_each :
    (P : PlannedCapture → Type 0)
    → ((x : PlannedCapture) → IsProp (P x))
    → (xs : List PlannedCapture) → ((x : PlannedCapture) → Mem x xs → P x)
    → All P xs
from_each P q [] h = tt
from_each P q (y ∷ ys) h = let (a, b) = (forall_mem-cons q).0 h in (a, from_each P q ys b)

-- What holds of every element holds of every element of a permutation.
pub All-Perm :
    (P : PlannedCapture → Type 0)
    → ((x : PlannedCapture) → IsProp (P x))
    → (xs ys : List PlannedCapture) → Perm xs ys
    → All P xs
    → All P ys
All-Perm P q xs ys d h = from_each P q ys (λ x m. at_all P q xs h x ((Perm.mem_iff d).1 m))

-- ===== src/Hydration/Plan.antt =====
-- `_plan` of src/dmi/storage/capture/reader.py: captures grouped by object, and their byte ranges.
-- An index of the code stands here with the descriptor that it finds.
use dmi.Base.{
  Bool, List, String, [], if◌then◌else◌, leb, map, max, str_eq, suc, ℕ, ◌&&◌, ◌++◌, ◌+◌, ◌-◌, ◌∷◌,
}
use dmi.Model.{CaptureDescriptor}

pub record PlannedCapture : Type 0 where
  pub index : ℕ
  pub descriptor : CaptureDescriptor

-- `enumerate`
unfoldable pub enumerate : ℕ → List CaptureDescriptor → List PlannedCapture
enumerate n [] = []
enumerate n (d ∷ ds) = record { index = n; descriptor = d } ∷ enumerate (suc n) ds

abbrev pub start_of : PlannedCapture → ℕ
start_of x = x.descriptor.locator.offset

abbrev pub stop_of : PlannedCapture → ℕ
stop_of x = x.descriptor.locator.offset + x.descriptor.locator.stored_length

-- An entry of `grouped`.
pub record Group : Type 0 where
  pub store_id : String
  pub pack_id : String
  pub object_key : String
  pub items : List PlannedCapture

unfoldable pub is_of : Group → PlannedCapture → Bool
is_of g x =
    str_eq x.descriptor.locator.store_id g.store_id
    && str_eq x.descriptor.locator.pack_id g.pack_id
    && str_eq x.descriptor.locator.object_key g.object_key

-- `grouped.setdefault(key, []).append(index)`
unfoldable pub add_to : PlannedCapture → List Group → List Group
unfolding is_of
add_to x [] =
    record {
      store_id = x.descriptor.locator.store_id;
      pack_id = x.descriptor.locator.pack_id;
      object_key = x.descriptor.locator.object_key;
      items = x ∷ [];
    }
    ∷ []
add_to x (g ∷ gs) =
    if is_of g x then record g { items = g.items ++ x ∷ [] } ∷ gs else g ∷ add_to x gs

unfoldable pub grouped : List Group → List PlannedCapture → List Group
unfolding add_to
grouped gs [] = gs
grouped gs (x ∷ xs) = grouped (add_to x gs) xs

-- `indexes.sort(key=…)`, which is stable.
unfoldable pub insert_by_offset : PlannedCapture → List PlannedCapture → List PlannedCapture
insert_by_offset x [] = x ∷ []
insert_by_offset x (y ∷ ys) =
    if leb (start_of x) (start_of y) then x ∷ y ∷ ys else y ∷ insert_by_offset x ys

unfoldable pub sort_by_offset : List PlannedCapture → List PlannedCapture
unfolding insert_by_offset
sort_by_offset [] = []
sort_by_offset (x ∷ xs) = insert_by_offset x (sort_by_offset xs)

-- `_ReadRange`
pub record ReadRange : Type 0 where
  pub items : List PlannedCapture
  pub offset : ℕ
  pub length : ℕ

abbrev pub range_of : List PlannedCapture → ℕ → ℕ → ReadRange
range_of items start stop = record { items = items; offset = start; length = stop - start }

-- The loop over the sorted indexes, with `current`, `start` and `end`.
unfoldable pub coalesce : ℕ → List PlannedCapture → ℕ → ℕ → List PlannedCapture → List ReadRange
coalesce gap current start stop [] = range_of current start stop ∷ []
coalesce gap current start stop (x ∷ xs) =
    let joined = coalesce gap (current ++ x ∷ []) start (max stop (stop_of x)) xs in
    let parted = range_of current start stop ∷ coalesce gap (x ∷ []) (start_of x) (stop_of x) xs in
    if leb (start_of x) (stop + gap) then joined else parted

unfoldable pub ranges_of : ℕ → List PlannedCapture → List ReadRange
unfolding coalesce
ranges_of gap [] = []
ranges_of gap (x ∷ xs) = coalesce gap (x ∷ []) (start_of x) (stop_of x) xs

-- `_ObjectPlan`
pub record ObjectPlan : Type 0 where
  pub store_id : String
  pub pack_id : String
  pub object_key : String
  pub items : List PlannedCapture
  pub ranges : List ReadRange

unfoldable pub plan_of : ℕ → Group → ObjectPlan
unfolding sort_by_offset ranges_of
plan_of gap g = record {
  store_id = g.store_id;
  pack_id = g.pack_id;
  object_key = g.object_key;
  items = sort_by_offset g.items;
  ranges = ranges_of gap (sort_by_offset g.items);
}

-- `_plan`
unfoldable pub plan : ℕ → List CaptureDescriptor → List ObjectPlan
unfolding plan_of grouped enumerate
plan gap ds = map (plan_of gap) (grouped [] (enumerate 0 ds))

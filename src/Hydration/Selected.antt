-- ===== src/Hydration/Selected.antt =====
-- A selection that `select` of src/dmi/storage/capture/reader.py made is resolved to its captures.
use mathlib.Core.Logic.Or
use mathlib.Core.HLevel.{hedberg}
use mathlib.Core.List.{
  Mem, Perm, Nodup, Nodup-cons, Nodup-nil, mem-cons_self, mem-cons_of_mem, eq-or-mem_of_mem-cons,
  not-mem-nil,
}
use mathlib.Core.List.Perm
use dmi.Base.{
  All, List, Option, String, [], some, ◌∷◌, ◌≡◌, inl, inr, refl, ap, sym, ◌∙◌, str_eq, eq_iff,
  if_cases, true, false, Option-cases, Bool-cases, arith, subst,
}
use dmi.Model.{CaptureDescriptor, is_text, text_limit}
use dmi.Hydration.{Fetched, given, failed, duplicated, refused, CaptureReader}
use dmi.Hydration.Selecting.{
  CaptureSelection, CapturePage, by_id, check_ids, is_id, all_ids, all_found, onto, in_order,
  then_in_order, resolve_from, resolve, all_of_tenant, selection_of, create, select,
}
use dmi.Hydration.Resolving.{ids_of}

string_discrete : Discrete String
string_discrete a b = elim (Bool-cases (str_eq a b)) [
  | inl e ↦ yes ((eq_iff a b).0 e)
  | inr e ↦ no (λ p. let q = (eq_iff a b).1 p in cc)
]

found_set : (a b : Option CaptureDescriptor) → IsProp (a ≡ b)
found_set a b = hlevel (hedberg string_discrete)

-- Identities among others, as a test and as membership.
is_id_mem : (ids : List String) (k : String) → Mem k ids → is_id ids k ≡ true
is_id_mem [] k m = absurd (not-mem-nil m)
is_id_mem (x ∷ xs) k m =
    Or.elim (hlevel) (eq-or-mem_of_mem-cons m) (λ e. ground (arith, (eq_iff x k).1 (sym e)))
      (λ m'. ground (arith, is_id_mem xs k m'))

-- Captures that `_resolve` does not take for duplicates.
check_ids-Nodup :
    (seen : List String) (ds : List CaptureDescriptor)
    → check_ids seen ds ≡ given tt
    → Nodup (ids_of ds) × ((k : String) → Mem k (ids_of ds) → is_id seen k ≡ false)
unfolding check_ids
check_ids-Nodup seen [] h = (Nodup-nil, λ k m. absurd (not-mem-nil m))
check_ids-Nodup seen (d ∷ ds) h = elim (Bool-cases (is_id seen d.metadata.capture_id)) [
  | inl e ↦ let bad : failed duplicated ≡ given tt = rw (e, check_ids) at h in cc
  | inr e ↦
      let id = d.metadata.capture_id in
      let (nodup, fresh) = check_ids-Nodup (id ∷ seen) ds (rw (e, check_ids) at h) in
      (
        Nodup-cons.1 (
          (λ m.
              let f = fresh id m in let t = (eq_iff id id).1 refl in absurd (ground (arith, f, t))),
          nodup,
        ),
        λ k m.
            Or.elim (hlevel) (eq-or-mem_of_mem-cons m) (λ same. rw same e)
              (λ later. let f = fresh k later in ground (arith, f)),
      )
]

check_ids-given :
    (seen : List String) (ds : List CaptureDescriptor)
    → Nodup (ids_of ds)
    → ((k : String) → Mem k (ids_of ds) → is_id seen k ≡ false)
    → check_ids seen ds ≡ given tt
unfolding check_ids
check_ids-given seen [] n h = refl
check_ids-given seen (d ∷ ds) n h =
    let id = d.metadata.capture_id in
    let (absent, rest) = Nodup-cons.0 n in
    let later = check_ids-given (id ∷ seen) ds rest (λ k m.
      let old = h k (mem-cons_of_mem id m) in
      elim (Bool-cases (str_eq id k)) [
        | inl e ↦ absurd (absent (subst (λ t. Mem t (ids_of ds)) (sym ((eq_iff id k).0 e)) m))
        | inr e ↦ ground (arith, e, old)
      ]) in
    rw (h id mem-cons_self, check_ids) later

by_id-mem :
    (k : String) (ds : List CaptureDescriptor) (d : CaptureDescriptor)
    → by_id k ds ≡ some d
    → Mem k (ids_of ds)
unfolding by_id
by_id-mem k [] d e = cc
by_id-mem k (x ∷ xs) d e = elim (Option-cases (by_id k xs)) [
  | inl e' ↦
      if_cases (λ o. o ≡ some d → Mem k (x.metadata.capture_id ∷ ids_of xs))
        (str_eq x.metadata.capture_id k)
        (λ same here.
          subst (λ t. Mem t (x.metadata.capture_id ∷ ids_of xs))
            ((eq_iff x.metadata.capture_id k).0 same) mem-cons_self)
        (λ other later. cc) (rw (e', by_id) at e)
  | inr (d', e') ↦ mem-cons_of_mem x.metadata.capture_id (by_id-mem k xs d' e')
]

-- Where identities are distinct, each finds its own capture.
by_id-own :
    (ds : List CaptureDescriptor) (d : CaptureDescriptor)
    → Nodup (ids_of ds)
    → Mem d ds
    → by_id d.metadata.capture_id ds ≡ some d
unfolding by_id
by_id-own [] d n m = absurd (not-mem-nil m)
by_id-own (x ∷ xs) d n m =
    let (absent, rest) = Nodup-cons.0 n in
    Or.elim (found_set (by_id d.metadata.capture_id (x ∷ xs)) (some d)) (eq-or-mem_of_mem-cons m)
      (λ same. subst (λ y. by_id y.metadata.capture_id (x ∷ xs) ≡ some y) (sym same) (first absent))
      (λ later. rw (by_id-own xs d rest later, by_id) refl)
  where
    first :
        (Mem x.metadata.capture_id (ids_of xs) → ⊥) → by_id x.metadata.capture_id (x ∷ xs) ≡ some x
    first absent = elim (Option-cases (by_id x.metadata.capture_id xs)) [
      | inl e ↦ rw (e, (eq_iff x.metadata.capture_id x.metadata.capture_id).1 refl, by_id) refl
      | inr (y, e) ↦ absurd (absent (by_id-mem x.metadata.capture_id xs y e))
    ]

each :
    (P : CaptureDescriptor → Type 0) (ds : List CaptureDescriptor)
    → ((d : CaptureDescriptor) → Mem d ds → P d)
    → All P ds
each P [] h = tt
each P (d ∷ ds) h = (h d mem-cons_self, each P ds (λ x m. h x (mem-cons_of_mem d m)))

abbrev Finds : List CaptureDescriptor → CaptureDescriptor → Type 0
Finds found d = by_id d.metadata.capture_id found ≡ some d

in_order-items :
    (found items : List CaptureDescriptor)
    → All (Finds found) items
    → in_order found (ids_of items) ≡ given items
unfolding in_order
in_order-items found [] h = refl
in_order-items found (d ∷ ds) h = rw (h.0, in_order) (ap (onto d) (in_order-items found ds h.1))

all_found-items :
    (found items : List CaptureDescriptor)
    → All (Finds found) items
    → all_found found (ids_of items) ≡ true
all_found-items found [] h = refl
all_found-items found (d ∷ ds) h = rw (h.0, all_found) (all_found-items found ds h.1)

all_ids-found :
    (ids : List String) (found : List CaptureDescriptor)
    → ((k : String) → Mem k (ids_of found) → is_id ids k ≡ true)
    → all_ids ids found ≡ true
all_ids-found ids [] h = refl
all_ids-found ids (d ∷ ds) h =
    rw (h d.metadata.capture_id mem-cons_self)
      (all_ids-found ids ds (λ k m. h k (mem-cons_of_mem d.metadata.capture_id m)))

-- What a selection was made from.
record IsMade (items : List CaptureDescriptor) (q : CaptureSelection) : Type 0 where
  ids : q.capture_ids ≡ ids_of items
  distinct : Nodup (ids_of items)
  tenants : All (λ (d : CaptureDescriptor). d.metadata.tenant_id ≡ q.tenant_id) items

all_of_tenant-All :
    (t : String) (ds : List CaptureDescriptor)
    → all_of_tenant t ds ≡ true
    → All (λ (d : CaptureDescriptor). d.metadata.tenant_id ≡ t) ds
all_of_tenant-All t [] h = tt
all_of_tenant-All t (d ∷ ds) h =
    (ground (arith, eq_iff d.metadata.tenant_id t), all_of_tenant-All t ds (ground arith))

selection_of-IsMade :
    (t : String) (items : List CaptureDescriptor) (w : String) (x : Fetched (Unit {0}))
    (q : CaptureSelection)
    → (x ≡ given tt → Nodup (ids_of items))
    → All (λ (d : CaptureDescriptor). d.metadata.tenant_id ≡ t) items
    → selection_of t items w x ≡ given q
    → IsMade items q
selection_of-IsMade t items w (failed e) q n own h = cc
selection_of-IsMade t items w (given tt) q n own h =
    if_cases (λ y. y ≡ given q → IsMade items q) (is_text text_limit t)
      (λ e made.
        let q' : CaptureSelection = record {
          capture_ids = ids_of items;
          catalog_watermark = w;
          tenant_id = t;
        } in
        let same : q' ≡ q = given_value q' q made in
        subst (IsMade items) same (record { ids = refl; distinct = n refl; tenants = own }))
      (λ e bad. cc) h
  where
    given_value : (a b : CaptureSelection) → given a ≡ given b → a ≡ b
    given_value a b e = cc

create-IsMade :
    (items : List CaptureDescriptor) (w : String) (q : CaptureSelection)
    → create items w ≡ given q
    → IsMade items q
unfolding create
create-IsMade [] w q h = cc
create-IsMade (d ∷ ds) w q h =
    if_cases (λ y. y ≡ given q → IsMade (d ∷ ds) q) (all_of_tenant d.metadata.tenant_id ds)
      (λ e made.
        selection_of-IsMade d.metadata.tenant_id (d ∷ ds) w (check_ids [] (d ∷ ds)) q
          (λ checked. (check_ids-Nodup [] (d ∷ ds) checked).0)
          (refl, all_of_tenant-All d.metadata.tenant_id ds e) made)
      (λ e bad. cc) h

resolved-items :
    (items found : List CaptureDescriptor)
    → Nodup (ids_of items)
    → Perm found items
    → then_in_order found (ids_of items) (check_ids [] found) ≡ given items
resolved-items items found n perm =
    let ids = Perm.map (λ (d : CaptureDescriptor). d.metadata.capture_id) perm in
    let n' = Perm.nodup (Perm.symm ids) n in
    let finds = each (Finds found) items (λ d m. by_id-own found d n' ((Perm.mem_iff perm).1 m)) in
    rw
      (
        check_ids-given [] found n' (λ k m. refl),
        all_ids-found (ids_of items) found
            (λ k m. is_id_mem (ids_of items) k ((Perm.mem_iff ids).0 m)),
        all_found-items found items finds,
      )
      (in_order-items found items finds)

-- When `select` makes a selection of what a search answers, and the catalog answers the selection's
-- identities with the same captures in any order, `_resolve` returns the captures of the page in the
-- page's order, and all of them are of the selection's tenant.
pub resolve-select :
    (r : CaptureReader) (page : CapturePage) (q : CaptureSelection) (found : List CaptureDescriptor)
    → select (some page) ≡ given q
    → r.get_by_ids q.capture_ids q.tenant_id q.catalog_watermark ≡ some found
    → Perm found page.items
    → (resolve r q ≡ given page.items)
      × All (λ (d : CaptureDescriptor). d.metadata.tenant_id ≡ q.tenant_id) page.items
unfolding select resolve
resolve-select r page q found h e perm =
    let made = elim (Option-cases page.next_cursor) as (λ o. IsMade page.items q) [
      | inl none_left ↦ create-IsMade page.items page.watermark q (rw (none_left, select) at h)
      | inr (cursor, more) ↦ let bad : failed refused ≡ given q = rw (more, select) at h in cc
    ] in
    (
      ap (λ a. resolve_from a q.capture_ids) e
          ∙ ap (resolve_from (some found)) made.ids
          ∙ resolved-items page.items found made.distinct perm,
      made.tenants,
    )

-- ===== src/Hydration/Placing.antt =====
-- The second loop of a hydration: each capture gets the bytes of its own range.
use dmi.Base.{
  All, All-append, All-mono, List, Option, String, [], none, some, suc, zero, ◌∷◌, ◌++◌, ◌≡◌, ◌≤◌,
  ◌+◌, ◌-◌, ◌⊎◌, inl, inr, ℕ, refl, ap, sym, ◌∙◌, arith, length, take, drop,
}
use dmi.Model.{CaptureDescriptor, PackRef}
use dmi.Pack.Bytes.{read_range}
use dmi.Pack.Writer.{Codec}
use dmi.Pack.Reader.{Read, ok, err, bad_format, bad_integrity, verify_payload}
use dmi.Hydration.{failed, from_read, RangeStore}
use dmi.Hydration.Plan.{PlannedCapture}
use dmi.Hydration.Reader.{Payloads, place_at, slice_of, place}
use dmi.Hydration.Outcomes.{OnGot, OnGot-mono}

abbrev pub at {ℓ} : {A : Type ℓ} → ℕ → List A → Option A
at n [] = none
at zero (x ∷ xs) = some x
at (suc n) (x ∷ xs) = at n xs

-- The element is the one that is wanted there.
abbrev pub IsDone : Payloads → Payloads → ℕ → Type 0
IsDone wanted ps n = at n ps ≡ at n wanted

place_at-keeps :
    (wanted ps : Payloads) (i j : ℕ) (v : List ℕ)
    → at i wanted ≡ some (some v)
    → IsDone wanted ps j
    → IsDone wanted (place_at i v ps) j
unfolding place_at
place_at-keeps wanted [] i j v e h = h
place_at-keeps [] (p ∷ ps) i j v e h = cc
place_at-keeps (g ∷ gs) (p ∷ ps) zero zero v e h = sym e
place_at-keeps (g ∷ gs) (p ∷ ps) zero (suc j) v e h = h
place_at-keeps (g ∷ gs) (p ∷ ps) (suc i) zero v e h = h
place_at-keeps (g ∷ gs) (p ∷ ps) (suc i) (suc j) v e h = place_at-keeps gs ps i j v e h

place_at-IsDone :
    (wanted ps : Payloads) (i : ℕ) (v : List ℕ)
    → at i wanted ≡ some (some v)
    → length ps ≡ length wanted
    → IsDone wanted (place_at i v ps) i
unfolding place_at
place_at-IsDone [] ps i v e h = cc
place_at-IsDone (g ∷ gs) [] i v e h = absurd (omega (arith, h))
place_at-IsDone (g ∷ gs) (p ∷ ps) zero v e h = sym e
place_at-IsDone (g ∷ gs) (p ∷ ps) (suc i) v e h = place_at-IsDone gs ps i v e (omega (arith, h))

length-place_at : (i : ℕ) (v : List ℕ) (ps : Payloads) → length (place_at i v ps) ≡ length ps
unfolding place_at
length-place_at i v [] = refl
length-place_at zero v (p ∷ ps) = refl
length-place_at (suc i) v (p ∷ ps) = ap suc (length-place_at i v ps)

drop-take : (k n : ℕ) (xs : List ℕ) → drop k (take n xs) ≡ take (n - k) (drop k xs)
drop-take zero n xs = ap (λ m. take m xs) (same n)
  where
    same : (m : ℕ) → m ≡ m - 0
    same m = omega arith
drop-take (suc k) zero xs = ap (λ m. take m (drop (suc k) xs)) (none_left k)
  where
    none_left : (m : ℕ) → ◌≡◌ {A = ℕ} 0 (0 - suc m)
    none_left m = omega arith
drop-take (suc k) (suc n) [] = nothing (suc n - suc k)
  where
    nothing : (m : ℕ) → ◌≡◌ {A = List ℕ} [] (take m [])
    nothing zero = refl
    nothing (suc m) = refl
drop-take (suc k) (suc n) (x ∷ xs) = drop-take k n xs ∙ ap (λ m. take m (drop k xs)) (omega arith)

drop-drop : (k m : ℕ) (xs : List ℕ) → drop k (drop m xs) ≡ drop (m + k) xs
drop-drop k zero xs = ap (λ m. drop m xs) (same k)
  where
    same : (m : ℕ) → m ≡ 0 + m
    same m = omega arith
drop-drop k (suc m) [] = all_gone k (suc m + k)
  where
    all_gone : (a b : ℕ) → ◌≡◌ {A = List ℕ} (drop a []) (drop b [])
    all_gone zero zero = refl
    all_gone zero (suc b) = refl
    all_gone (suc a) zero = refl
    all_gone (suc a) (suc b) = refl
drop-drop k (suc m) (x ∷ xs) = drop-drop k m xs ∙ ap (λ n. drop n (x ∷ xs)) (add_suc m k)
  where
    add_suc : (a b : ℕ) → suc (a + b) ≡ suc a + b
    add_suc a b = omega arith

take-take : (l n : ℕ) (xs : List ℕ) → l ≤ n → take l (take n xs) ≡ take l xs
take-take zero n xs h = refl
take-take (suc l) zero xs h = absurd (omega (arith, h))
take-take (suc l) (suc n) [] h = refl
take-take (suc l) (suc n) (x ∷ xs) h = ap (λ t. x ∷ t) (take-take l n xs (omega (arith, h)))

-- A part of a range is the range of the part.
pub slice_lem :
    (bytes : List ℕ) (offset size at_offset part : ℕ)
    → offset ≤ at_offset
    → at_offset + part ≤ offset + size
    → take part (drop (at_offset - offset) (read_range bytes offset size))
      ≡ read_range bytes at_offset part
slice_lem bytes offset size at_offset part h k =
    let m = at_offset - offset in
    ap (take part) (drop-take m size (drop offset bytes))
    ∙ take-take part (size - m) (drop m (drop offset bytes)) (omega (arith, h, k))
    ∙ ap (take part) (drop-drop m offset bytes)
    ∙ ap (λ n. take part (drop n bytes)) (omega (arith, h))

-- What is stored, by store and object key.
abbrev pub Content : Type 0
Content = String → String → List ℕ

-- The bytes of a capture, read by themselves.
unfoldable pub read_directly : Content → CaptureDescriptor → List ℕ
read_directly content d =
    read_range (content d.locator.store_id d.locator.object_key) d.locator.offset
      d.locator.stored_length

-- A store that reads ranges of its objects, where its reads do not raise.
abbrev pub IsStoreOf : Content → RangeStore → Type 0
IsStoreOf content store =
    (ref : PackRef) (offset size : ℕ) (bytes : List ℕ)
    → store.read_range ref offset size ≡ some bytes
    → bytes ≡ read_range (content store.store_id ref.object_key) offset size

abbrev pub IsIntact : Codec → Content → CaptureDescriptor → Type 0
IsIntact c content d = verify_payload c d (read_directly content d) ≡ ok tt

pub verified : (r : Read (Unit {0})) → (r ≡ ok tt) ⊎ ((e : _) × (from_read r ≡ failed e))
verified (ok u) = inl refl
verified (err bad_format) = inr (_, refl)
verified (err bad_integrity) = inr (_, refl)

module _ (c : Codec) (content : Content) (wanted : Payloads) where
  -- The payload of this item is wanted at its index.
  abbrev pub IsDue : PlannedCapture → Type 0
  IsDue x = at x.index wanted ≡ some (some (read_directly content x.descriptor))

  -- What a step that places `xs` does to the payloads.
  pub record Places (xs : List PlannedCapture) (ps ps' : Payloads) : Type 0 where
    pub keeps : (n : ℕ) → IsDone wanted ps n → IsDone wanted ps' n
    pub done : All (λ x. IsDone wanted ps' x.index) xs
    pub intact : All (λ x. IsIntact c content x.descriptor) xs
    pub size : length ps' ≡ length ps

  pub Places-nil : (ps : Payloads) → Places [] ps ps
  Places-nil ps = record { keeps = λ n h. h; done = tt; intact = tt; size = refl }

  pub Places-append :
      (xs ys : List PlannedCapture) (a b d : Payloads)
      → Places xs a b
      → Places ys b d
      → Places (xs ++ ys) a d
  Places-append xs ys a b d p q = record {
    keeps = λ n h. q.keeps n (p.keeps n h);
    done =
        All-append (λ x. IsDone wanted d x.index) xs ys
          (All-mono _ _ (λ x (h : IsDone wanted b x.index). q.keeps x.index h) xs p.done) q.done;
    intact = All-append (λ x. IsIntact c content x.descriptor) xs ys p.intact q.intact;
    size = q.size ∙ p.size;
  }

  Places-put :
      (x : PlannedCapture) (ps : Payloads)
      → IsDue x
      → IsIntact c content x.descriptor
      → length ps ≡ length wanted
      → Places (x ∷ []) ps (place_at x.index (read_directly content x.descriptor) ps)
  Places-put x ps due intact size = record {
    keeps = λ n h. place_at-keeps wanted ps x.index n (read_directly content x.descriptor) due h;
    done = (place_at-IsDone wanted ps x.index (read_directly content x.descriptor) due size, tt);
    intact = (intact, tt);
    size = length-place_at x.index (read_directly content x.descriptor) ps;
  }

  abbrev pub Fits : ℕ → List ℕ → PlannedCapture → Type 0
  Fits offset block x =
      IsDue x × (slice_of block offset x.descriptor ≡ read_directly content x.descriptor)

  pub place-Places :
      (offset : ℕ) (block : List ℕ) (xs : List PlannedCapture) (ps : Payloads)
      → All (Fits offset block) xs
      → length ps ≡ length wanted
      → OnGot (Places xs ps) (place c offset block xs ps)
  unfolding place
  place-Places offset block [] ps h size = Places-nil ps
  place-Places offset block (x ∷ xs) ps h size =
      elim (verified (verify_payload c x.descriptor (slice_of block offset x.descriptor))) [
        | inl e ↦
            let here = Places-put x ps h.0.0 (rw h.0.1 at e) size in
            rw (e, place)
              (rw (h.0.1) (
                OnGot-mono (Places xs (place_at x.index (read_directly content x.descriptor) ps))
                  (Places (x ∷ xs) ps) _
                  (λ ps' later. Places-append (x ∷ []) xs ps _ ps' here later)
                  (place-Places offset block xs
                    (place_at x.index (read_directly content x.descriptor) ps) h.1
                    (here.size ∙ size))))
        | inr (e', e) ↦ rw (e, place) tt
      ]

-- ===== src/Base/Leaving.antt =====
-- A list without some of its elements.
use Prim.Native.Nat.{ℕ, suc, ◌+◌}
use mathlib.Core.Path.{◌≡◌, refl, ap}
use mathlib.Core.Logic.{◌⊎◌, inl, inr}
use mathlib.Core.List.{List, [], ◌∷◌, ◌++◌}
use native.Mathlib.Omega.{arith}
use dmi.Base.Lists.{length}

module _ {ℓ} {A : Type ℓ} where
  -- `Omits k xs ys`: leaving out `k` elements of `xs` gives `ys`, in the same order.
  abbrev pub Omits : ℕ → List A → List A → Type ℓ
  Omits k [] ys = (k ≡ 0) × (ys ≡ [])
  Omits k (x ∷ xs) ys =
      ((zs : List A) × (ys ≡ x ∷ zs) × Omits k xs zs) ⊎ ((j : ℕ) × (k ≡ suc j) × Omits j xs ys)

  pub Omits-all : (xs : List A) → Omits 0 xs xs
  Omits-all [] = (refl, refl)
  Omits-all (x ∷ xs) = inl (xs, refl, Omits-all xs)

  pub Omits-append : (k : ℕ) (xs ys zs : List A) → Omits k xs ys → Omits k (xs ++ zs) (ys ++ zs)
  Omits-append k [] ys zs (none_left, e) = rw (none_left, e) (Omits-all zs)
  Omits-append k (x ∷ xs) ys zs (inl (us, e, o)) =
      inl (us ++ zs, ap (λ l. l ++ zs) e, Omits-append k xs us zs o)
  Omits-append k (x ∷ xs) ys zs (inr (j, e, o)) = inr (j, e, Omits-append j xs ys zs o)

  cons_head : {x y : A} {xs ys : List A} → x ∷ xs ≡ y ∷ ys → x ≡ y
  cons_head e = cc

  cons_tail : {x y : A} {xs ys : List A} → x ∷ xs ≡ y ∷ ys → xs ≡ ys
  cons_tail e = cc

  -- One element more is left out.
  pub Omits-skip :
      (k : ℕ) (xs us : List A) (y : A) (vs : List A)
      → Omits k xs (us ++ (y ∷ vs))
      → Omits (suc k) xs (us ++ vs)
  Omits-skip k [] [] y vs (h, e) = cc
  Omits-skip k [] (u ∷ us) y vs (h, e) = cc
  Omits-skip k (x ∷ xs) [] y vs (inl (zs, e, o)) = inr (k, refl, rw (cons_tail e) o)
  Omits-skip k (x ∷ xs) (u ∷ us) y vs (inl (zs, e, o)) = inl (
    us ++ vs,
    ap (λ a. a ∷ (us ++ vs)) (cons_head e),
    Omits-skip k xs us y vs (rw (cons_tail e) o),
  )
  Omits-skip k (x ∷ xs) us y vs (inr (j, e, o)) = inr (suc j, ap suc e, Omits-skip j xs us y vs o)

  pub length-Omits : (k : ℕ) (xs ys : List A) → Omits k xs ys → length xs ≡ k + length ys
  length-Omits k [] ys (h, e) = omega (arith, h, ap length e)
  length-Omits k (x ∷ xs) ys (inl (zs, e, o)) = omega (arith, length-Omits k xs zs o, ap length e)
  length-Omits k (x ∷ xs) ys (inr (j, e, o)) = omega (arith, e, length-Omits j xs ys o)

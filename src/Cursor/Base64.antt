-- ===== src/Cursor/Base64.antt =====
-- What the code for a cursor does with its bytes.
use dmi.Base.{
  map, ap₂, All, List, [], ◌∷◌, ◌≡◌, ◌<◌, ◌%◌, ◌/◌, ◌*◌, ◌+◌, ℕ, some, refl, ap, arith, length,
}
use dmi.Cursor.{char_of, sextet_of, base64, sextets, bytes_of, from_base64}

pub sextet_of-char_of : (n : ℕ) → n < 64 → sextet_of (char_of n) ≡ some n
unfolding sextet_of char_of
sextet_of-char_of n h = ground arith

-- The groups of six bits with four other bits at the end, which stand for no byte.
unfoldable pub sixes_with : ℕ → List ℕ → List ℕ
sixes_with x [] = []
sixes_with x (a ∷ []) = (a / 4) ∷ (a % 4 * 16 + x % 16) ∷ []
sixes_with x (a ∷ b ∷ []) = (a / 4) ∷ (a % 4 * 16 + b / 16) ∷ (b % 16 * 4 + x % 4) ∷ []
sixes_with x (a ∷ b ∷ c ∷ bs) =
    (a / 4) ∷ (a % 4 * 16 + b / 16) ∷ (b % 16 * 4 + c / 64) ∷ (c % 64) ∷ sixes_with x bs

base64-sixes : (bs : List ℕ) → base64 bs ≡ map char_of (sixes_with 0 bs)
unfolding base64 sixes_with
base64-sixes [] = refl
base64-sixes (a ∷ []) =
    let e : a % 4 * 16 ≡ a % 4 * 16 + 0 % 16 = omega arith in
    ap (λ n. char_of (a / 4) ∷ char_of n ∷ []) e
base64-sixes (a ∷ b ∷ []) =
    let e : b % 16 * 4 ≡ b % 16 * 4 + 0 % 4 = omega arith in
    ap (λ n. char_of (a / 4) ∷ char_of (a % 4 * 16 + b / 16) ∷ char_of n ∷ []) e
base64-sixes (a ∷ b ∷ c ∷ bs) =
    ap
      (λ l.
        char_of (a / 4)
        ∷ char_of (a % 4 * 16 + b / 16)
        ∷ char_of (b % 16 * 4 + c / 64)
        ∷ char_of (c % 64)
        ∷ l)
      (base64-sixes bs)

abbrev pub AreBytes : List ℕ → Type 0
AreBytes bs = All (λ b. b < 256) bs

pub sixes_below : (x : ℕ) (bs : List ℕ) → AreBytes bs → All (λ n. n < 64) (sixes_with x bs)
unfolding sixes_with
sixes_below x [] h = tt
sixes_below x (a ∷ []) h = let p = h.0 in (omega (arith, p), (omega arith, tt))
sixes_below x (a ∷ b ∷ []) h =
    let p = h.0 in let q = h.1.0 in (omega (arith, p), (omega (arith, q), (omega arith, tt)))
sixes_below x (a ∷ b ∷ c ∷ bs) h =
    let p = h.0 in
    let q = h.1.0 in
    let r = h.1.1.0 in
    (
      omega (arith, p),
      (omega (arith, q), (omega (arith, r), (omega arith, sixes_below x bs h.1.1.1))),
    )

pub bytes_of-sixes : (x : ℕ) (bs : List ℕ) → AreBytes bs → bytes_of (sixes_with x bs) ≡ some bs
unfolding bytes_of sixes_with
bytes_of-sixes x [] h = refl
bytes_of-sixes x (a ∷ []) h =
    let e : a / 4 * 4 + (a % 4 * 16 + x % 16) / 16 ≡ a = omega arith in ap (λ y. some (y ∷ [])) e
bytes_of-sixes x (a ∷ b ∷ []) h =
    let q = h.1.0 in
    let e : a / 4 * 4 + (a % 4 * 16 + b / 16) / 16 ≡ a = omega (arith, q) in
    let e' : (a % 4 * 16 + b / 16) % 16 * 16 + (b % 16 * 4 + x % 4) / 4 ≡ b = omega (arith, q) in
    ap₂ (λ y z. some (y ∷ z ∷ [])) e e'
bytes_of-sixes x (a ∷ b ∷ c ∷ bs) h =
    let q = h.1.0 in
    let r = h.1.1.0 in
    let e : a / 4 * 4 + (a % 4 * 16 + b / 16) / 16 ≡ a = omega (arith, q) in
    let e' : (a % 4 * 16 + b / 16) % 16 * 16 + (b % 16 * 4 + c / 64) / 4 ≡ b =
      omega (arith, q, r) in
    let e'' : (b % 16 * 4 + c / 64) % 4 * 64 + c % 64 ≡ c = omega (arith, r) in
    rw (bytes_of-sixes x bs h.1.1.1)
      (ap₂ (λ y l. some (y ∷ l)) e (ap₂ (λ y l. y ∷ l) e' (ap (λ y. y ∷ bs) e'')))

pub sextets-map : (ns : List ℕ) → All (λ n. n < 64) ns → sextets (map char_of ns) ≡ some ns
unfolding sextets
sextets-map [] h = refl
sextets-map (n ∷ ns) h = rw (sextet_of-char_of n h.0, sextets-map ns h.1) refl

-- What was encoded is decoded.
pub from_base64-base64 : (bs : List ℕ) → AreBytes bs → from_base64 (base64 bs) ≡ some bs
unfolding from_base64
from_base64-base64 bs h =
    rw (base64-sixes bs, sextets-map (sixes_with 0 bs) (sixes_below 0 bs h)) (bytes_of-sixes 0 bs h)

pub base64-nonempty : (bs : List ℕ) → 0 < length bs → 0 < length (base64 bs)
unfolding base64
base64-nonempty [] h = h
base64-nonempty (a ∷ []) h = omega arith
base64-nonempty (a ∷ b ∷ []) h = omega arith
base64-nonempty (a ∷ b ∷ c ∷ bs) h = omega arith

-- ===== src/Keys/Quoting.antt =====
-- Percent-encoding tells texts apart, and leaves safe ones as they are.
use dmi.Base.{
  ℕ, ◌/◌, ◌%◌, ◌<◌, ◌≡◌, ◌∙◌, sym, ap, ap₂, subst, refl, Bool, true, false, not, ◌&&◌, ◌||◌, List,
  [], ◌∷◌, ◌++◌, leb, ◌==◌, if◌then◌else◌, arith, All, All-append, append_assoc,
}
use dmi.Keys.{utf8, utf8_char, is_safe, quote_byte, quote, replace_tilde, encoded, hex_digit}
use dmi.Keys.Utf8.{IsCode, utf8-injective, utf8-bytes, utf8-append}

-- What becomes of one byte in both steps.
plain : ℕ → Bool
unfolding is_safe
plain b = is_safe b && not (b == b'~')

escape : ℕ → List ℕ
escape b = if plain b then b ∷ [] else b'%' ∷ hex_digit (b / 16) ∷ hex_digit (b % 16) ∷ []

escape_all : List ℕ → List ℕ
escape_all [] = []
escape_all (b ∷ bs) = escape b ++ escape_all bs

replace_tilde-append :
    (xs ys : List ℕ) → replace_tilde (xs ++ ys) ≡ replace_tilde xs ++ replace_tilde ys
unfolding replace_tilde
replace_tilde-append [] ys = refl
replace_tilde-append (x ∷ xs) ys =
    ap (λ l. (if x == b'~' then b'%' ∷ b'7' ∷ b'E' ∷ [] else x ∷ []) ++ l)
      (replace_tilde-append xs ys)
    ∙ sym (
        append_assoc (if x == b'~' then b'%' ∷ b'7' ∷ b'E' ∷ [] else x ∷ []) (replace_tilde xs)
          (replace_tilde ys))

escape_lem : (b : ℕ) → b < 256 → replace_tilde (quote_byte b) ≡ escape b
unfolding replace_tilde quote_byte escape plain
escape_lem b h = ground arith

quoted : (bs : List ℕ) → All (λ b. b < 256) bs → replace_tilde (quote bs) ≡ escape_all bs
unfolding quote escape_all replace_tilde
quoted [] h = refl
quoted (b ∷ bs) h =
    replace_tilde-append (quote_byte b) (quote bs)
    ∙ ap₂ (λ k l. k ++ l) (escape_lem b h.0) (quoted bs h.1)

percent : plain b'%' ≡ false
unfolding plain
percent = refl

escape-starts :
    (a b : ℕ) (xs ys : List ℕ)
    → escape a ++ xs ≡ escape b ++ ys
    → a < 256
    → b < 256
    → (a ≡ b) × (xs ≡ ys)
unfolding escape
escape-starts a b xs ys h ha hb = ground (arith, percent)

escape-some : (b : ℕ) (xs : List ℕ) → escape b ++ xs ≡ [] → ⊥
unfolding escape
escape-some b xs h = ground arith

escape_all-injective :
    (s t : List ℕ)
    → All (λ b. b < 256) s
    → All (λ b. b < 256) t
    → escape_all s ≡ escape_all t
    → s ≡ t
unfolding escape_all
escape_all-injective [] [] hs ht e = refl
escape_all-injective [] (b ∷ t) hs ht e = absurd (escape-some b (escape_all t) (sym e))
escape_all-injective (a ∷ s) [] hs ht e = absurd (escape-some a (escape_all s) e)
escape_all-injective (a ∷ s) (b ∷ t) hs ht e =
    let (same, rest) = escape-starts a b (escape_all s) (escape_all t) e hs.0 ht.0 in
    ap₂ (λ n l. n ∷ l) same (escape_all-injective s t hs.1 ht.1 rest)

pub encoded-injective : (s t : List ℕ) → All IsCode s → All IsCode t → encoded s ≡ encoded t → s ≡ t
unfolding encoded
encoded-injective s t hs ht e = utf8-injective s t hs ht (
    escape_all-injective (utf8 s) (utf8 t) (utf8-bytes s hs) (utf8-bytes t ht)
      (sym (quoted (utf8 s) (utf8-bytes s hs)) ∙ e ∙ quoted (utf8 t) (utf8-bytes t ht)))

escape-no_slash : (b : ℕ) → b < 256 → All (λ n. n == b'/' ≡ false) (escape b)
unfolding escape plain is_safe
escape-no_slash b h = ground arith

-- Nothing that is encoded holds a slash.
escape_all-no_slash :
    (bs : List ℕ) → All (λ b. b < 256) bs → All (λ n. n == b'/' ≡ false) (escape_all bs)
unfolding escape_all
escape_all-no_slash [] h = tt
escape_all-no_slash (b ∷ bs) h =
    All-append (λ n. n == b'/' ≡ false) (escape b) (escape_all bs) (escape-no_slash b h.0)
      (escape_all-no_slash bs h.1)

pub encoded-no_slash : (s : List ℕ) → All IsCode s → All (λ n. n == b'/' ≡ false) (encoded s)
unfolding encoded
encoded-no_slash s h =
    subst (All (λ n. n == b'/' ≡ false)) (sym (quoted (utf8 s) (utf8-bytes s h)))
      (escape_all-no_slash (utf8 s) (utf8-bytes s h))

quote-append : (xs ys : List ℕ) → quote (xs ++ ys) ≡ quote xs ++ quote ys
unfolding quote
quote-append [] ys = refl
quote-append (x ∷ xs) ys =
    ap (λ l. quote_byte x ++ l) (quote-append xs ys)
    ∙ sym (append_assoc (quote_byte x) (quote xs) (quote ys))

pub encoded-append : (s t : List ℕ) → encoded (s ++ t) ≡ encoded s ++ encoded t
unfolding encoded
encoded-append s t =
    ap (λ l. replace_tilde (quote l)) (utf8-append s t)
    ∙ ap replace_tilde (quote-append (utf8 s) (utf8 t))
    ∙ replace_tilde-append (quote (utf8 s)) (quote (utf8 t))

-- A character that is its own encoding.
abbrev pub IsPlain : ℕ → Type 0
IsPlain n = encoded (n ∷ []) ≡ n ∷ []

pub encoded_plain : (s : List ℕ) → All IsPlain s → encoded s ≡ s
unfolding encoded utf8 quote replace_tilde
encoded_plain [] h = refl
encoded_plain (n ∷ s) h =
    unfold encoded in encoded-append (n ∷ []) s ∙ ap₂ (λ k l. k ++ l) h.0 (encoded_plain s h.1)

pub hex-IsPlain :
    (n : ℕ) → ((leb b'0' n && leb n b'9') || (leb b'a' n && leb n b'f')) ≡ true → IsPlain n
unfolding encoded utf8 quote replace_tilde quote_byte is_safe utf8_char
hex-IsPlain n h = ground arith

-- ===== src/Keys/Utf8.antt =====
-- UTF-8 tells texts apart.
use Prim.Native.Char.{Char, code}
use dmi.Base.{
  ℕ, ◌<◌, ◌≡◌, ◌∙◌, ap, ap₂, refl, String, List, [], ◌∷◌, ◌++◌, arith, All, All-append, sym,
  append_assoc,
}
use dmi.Keys.{codes, utf8_char, utf8}

abbrev pub IsCode : ℕ → Type 0
IsCode n = n < 1114112

code-IsCode : (c : Char) → IsCode (code c)
code-IsCode (Char.char n p) = ground arith

pub codes-IsCode : (s : String) → All IsCode (codes s)
codes-IsCode String.[] = tt
codes-IsCode (String.◌∷◌ c s) = (code-IsCode c, codes-IsCode s)

pub utf8_char-bytes : (n : ℕ) → IsCode n → All (λ b. b < 256) (utf8_char n)
unfolding utf8_char
utf8_char-bytes n h = ground arith

utf8_char-starts :
    (a b : ℕ) (xs ys : List ℕ)
    → utf8_char a ++ xs ≡ utf8_char b ++ ys
    → IsCode a
    → IsCode b
    → (a ≡ b) × (xs ≡ ys)
unfolding utf8_char
utf8_char-starts a b xs ys h ha hb = ground arith

utf8_char-some : (n : ℕ) (xs : List ℕ) → utf8_char n ++ xs ≡ [] → ⊥
unfolding utf8_char
utf8_char-some n xs h = ground arith

pub utf8-injective : (s t : List ℕ) → All IsCode s → All IsCode t → utf8 s ≡ utf8 t → s ≡ t
unfolding utf8
utf8-injective [] [] hs ht e = refl
utf8-injective [] (b ∷ t) hs ht e = absurd (utf8_char-some b (utf8 t) (sym e))
utf8-injective (a ∷ s) [] hs ht e = absurd (utf8_char-some a (utf8 s) e)
utf8-injective (a ∷ s) (b ∷ t) hs ht e =
    let (same, rest) = utf8_char-starts a b (utf8 s) (utf8 t) e hs.0 ht.0 in
    ap₂ (λ n l. n ∷ l) same (utf8-injective s t hs.1 ht.1 rest)

pub utf8-bytes : (s : List ℕ) → All IsCode s → All (λ b. b < 256) (utf8 s)
unfolding utf8
utf8-bytes [] h = tt
utf8-bytes (a ∷ s) h =
    All-append (λ b. b < 256) (utf8_char a) (utf8 s) (utf8_char-bytes a h.0) (utf8-bytes s h.1)

pub utf8-append : (s t : List ℕ) → utf8 (s ++ t) ≡ utf8 s ++ utf8 t
unfolding utf8
utf8-append [] t = refl
utf8-append (a ∷ s) t =
    ap (λ l. utf8_char a ++ l) (utf8-append s t)
    ∙ sym (append_assoc (utf8_char a) (utf8 s) (utf8 t))

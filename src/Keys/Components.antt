-- ===== src/Keys/Components.antt =====
-- `key_component` gives two identifiers the same segment only if they are the same, or have the same
-- digest.
use dmi.Base.{
  ℕ, zero, suc, ◌≡◌, ◌∙◌, sym, ap, subst, refl, inl, inr, Bool, true, false, not, ◌&&◌, ◌||◌,
  Option, none, some, List, [], ◌∷◌, ◌++◌, leb, ◌==◌, arith, All, All-append, Bool-cases, length,
}
use dmi.Pack.Writer.{Codec}
use dmi.Pack.Reader.{bytes_eq}
use dmi.Keys.{
  utf8, utf8_char, quote, quote_byte, is_safe, replace_tilde, encoded, digest_prefix, strip_prefix,
  is_some_text, starts_with, digest, key_component, all_hex, is_digest, segment_belongs_to,
}
use dmi.Keys.Utf8.{IsCode, codes-IsCode}
use dmi.Keys.Quoting.{
  encoded-injective, encoded-no_slash, encoded-append, IsPlain, encoded_plain, hex-IsPlain,
}

pub bytes_eq_sound : (xs ys : List ℕ) → bytes_eq xs ys ≡ true → xs ≡ ys
bytes_eq_sound [] [] h = refl
bytes_eq_sound [] (y ∷ ys) h = cc
bytes_eq_sound (x ∷ xs) [] h = cc
bytes_eq_sound (x ∷ xs) (y ∷ ys) h = ground (arith, bytes_eq_sound xs ys)

pub bytes_eq_refl : (xs : List ℕ) → bytes_eq xs xs ≡ true
bytes_eq_refl [] = refl
bytes_eq_refl (x ∷ xs) = ground (arith, bytes_eq_refl xs)

pub strip_prefix-append : (p xs : List ℕ) → strip_prefix p (p ++ xs) ≡ some xs
unfolding strip_prefix
strip_prefix-append [] xs = refl
strip_prefix-append (n ∷ p) xs = ground (arith, strip_prefix-append p xs)

strip_prefix-some : (p v r : List ℕ) → strip_prefix p v ≡ some r → v ≡ p ++ r
unfolding strip_prefix
strip_prefix-some [] v r h = cc
strip_prefix-some (n ∷ p) [] r h = cc
strip_prefix-some (n ∷ p) (m ∷ v) r h = ground (arith, strip_prefix-some p v r)

append_cancel : (p xs ys : List ℕ) → p ++ xs ≡ p ++ ys → xs ≡ ys
append_cancel [] xs ys h = h
append_cancel (n ∷ p) xs ys h = append_cancel p xs ys (cc)

starts-append : (p xs : List ℕ) → starts_with (p ++ xs) p ≡ true
unfolding starts_with
starts-append p xs = ap is_some_text (strip_prefix-append p xs)

starts-true : (p v : List ℕ) → starts_with v p ≡ true → (r : List ℕ) × (strip_prefix p v ≡ some r)
unfolding starts_with
starts-true p v h = from (strip_prefix p v) h
  where
    from : (o : Option (List ℕ)) → is_some_text o ≡ true → (r : List ℕ) × (o ≡ some r)
    from none e = cc
    from (some r) e = (r, refl)

all_hex-IsPlain : (k : ℕ) (s : List ℕ) → all_hex k s ≡ true → All IsPlain s
all_hex-IsPlain zero [] h = tt
all_hex-IsPlain zero (n ∷ s) h = cc
all_hex-IsPlain (suc k) [] h = cc
all_hex-IsPlain (suc k) (n ∷ s) h =
    (hex-IsPlain n (ground arith), all_hex-IsPlain k s (ground arith))

prefix_plain : encoded digest_prefix ≡ digest_prefix
unfolding encoded utf8 utf8_char quote quote_byte is_safe replace_tilde
prefix_plain = refl

-- Whether the text itself is the segment.
direct : List ℕ → Bool
direct v = leb (length (encoded v)) 160 && not (starts_with (encoded v) digest_prefix)

encoded_prefix :
    (u r : List ℕ) → strip_prefix digest_prefix u ≡ some r → encoded u ≡ digest_prefix ++ encoded r
encoded_prefix u r h =
    ap encoded (strip_prefix-some digest_prefix u r h)
    ∙ encoded-append digest_prefix r
    ∙ ap (λ l. l ++ encoded r) prefix_plain

All-right : (P : ℕ → Type 0) (xs ys : List ℕ) → All P (xs ++ ys) → All P ys
All-right P [] ys h = h
All-right P (x ∷ xs) ys h = All-right P xs ys h.1

grandfathered :
    (a b d e : Bool)
    → a ≡ false
    → (a || (b && not d && e)) ≡ true
    → (b ≡ true) × (d ≡ false) × (e ≡ true)
grandfathered a b d e h k = ground arith

not_digest :
    (r : List ℕ) (o : Option (List ℕ)) → o ≡ some r → is_digest o ≡ false → all_hex 64 r ≡ false
not_digest r o e h = sym (ap is_digest e) ∙ h

module _ (c : Codec) where
  -- The two forms of a segment.
  data Form (v : List ℕ) : Type 0 where
    as_text : key_component c v ≡ encoded v → starts_with (encoded v) digest_prefix ≡ false → Form v
    as_digest : key_component c v ≡ digest_prefix ++ digest c v → Form v

  form : (v : List ℕ) → Form v
  unfolding key_component
  form v =
      elim (Bool-cases
        (leb (length (encoded v)) 160 && not (starts_with (encoded v) digest_prefix))) [
          | inl yes_direct ↦ as_text (rw yes_direct refl) (ground arith)
          | inr other ↦ as_digest (rw other refl)
        ]

  -- A text form never is a digest form.
  apart :
      (v : List ℕ) (w : List ℕ)
      → starts_with (encoded v) digest_prefix ≡ false
      → encoded v ≡ digest_prefix ++ w
      → ⊥
  apart v w h e =
      absurd (cc (h, ap (λ l. starts_with l digest_prefix) e, starts-append digest_prefix w))

  same-Form :
      (a b : List ℕ)
      → All IsCode a
      → All IsCode b
      → (digest c a ≡ digest c b → a ≡ b)
      → key_component c a ≡ key_component c b
      → Form a
      → Form b
      → a ≡ b
  same-Form a b ha hb distinct e (as_text ea fa) (as_text eb fb) =
      encoded-injective a b ha hb (sym ea ∙ e ∙ eb)
  same-Form a b ha hb distinct e (as_text ea fa) (as_digest eb) =
      absurd (apart a (digest c b) fa (sym ea ∙ e ∙ eb))
  same-Form a b ha hb distinct e (as_digest ea) (as_text eb fb) =
      absurd (apart b (digest c a) fb (sym eb ∙ sym e ∙ ea))
  same-Form a b ha hb distinct e (as_digest ea) (as_digest eb) =
      distinct (append_cancel digest_prefix (digest c a) (digest c b) (sym ea ∙ e ∙ eb))

  -- Two lists of code points with the same key component are the same, if their digests are equal
  -- only when they are.
  pub key_component-injective :
      (a b : List ℕ)
      → All IsCode a
      → All IsCode b
      → (digest c a ≡ digest c b → a ≡ b)
      → key_component c a ≡ key_component c b
      → a ≡ b
  key_component-injective a b ha hb distinct e = same-Form a b ha hb distinct e (form a) (form b)

  digest-IsCode : (t : List ℕ) → All IsCode (digest c t)
  unfolding digest
  digest-IsCode t = codes-IsCode (c.hexdigest (c.sha256 (utf8 t)))

  -- The encoding from before the digest prefix was reserved is no other identifier's segment.
  literal :
      (u t : List ℕ)
      → All IsCode u
      → all_hex 64 (digest c t) ≡ true
      → Form t
      → key_component c t ≡ encoded u
      → (r : List ℕ) → strip_prefix digest_prefix u ≡ some r
      → all_hex 64 r ≡ false
      → ⊥
  literal u t hu hex (as_text e f) same r begins shape =
      apart t (encoded r) f (sym e ∙ same ∙ encoded_prefix u r begins)
  literal u t hu hex (as_digest e) same r begins shape =
      let d : digest c t ≡ encoded r =
        append_cancel digest_prefix (digest c t) (encoded r)
          (sym e ∙ same ∙ encoded_prefix u r begins) in
      let d' : digest c t ≡ r =
        encoded-injective (digest c t) r (digest-IsCode t)
          (All-right IsCode digest_prefix r
            (subst (All IsCode) (strip_prefix-some digest_prefix u r begins) hu))
          (encoded_plain (digest c t) (all_hex-IsPlain 64 (digest c t) hex) ∙ d) in
      absurd (cc (sym (ap (all_hex 64) d') ∙ hex, shape))

  -- A segment is a tenant's own, or another's only by a collision of digests.
  pub segment-own :
      (u t : List ℕ)
      → All IsCode u
      → All IsCode t
      → all_hex 64 (digest c t) ≡ true
      → (digest c u ≡ digest c t → u ≡ t)
      → segment_belongs_to c (key_component c t) u ≡ true
      → u ≡ t
  unfolding segment_belongs_to
  segment-own u t hu ht hex distinct h =
      elim (Bool-cases (bytes_eq (key_component c t) (key_component c u))) [
        | inl same ↦
            key_component-injective u t hu ht distinct
              (sym (bytes_eq_sound (key_component c t) (key_component c u) same))
        | inr other ↦
            let (begins, shape, same) = grandfathered _ _ _ _ other h in
            let (r, e) = starts-true digest_prefix u begins in
            absurd (
              literal u t hu hex (form t) (bytes_eq_sound (key_component c t) (encoded u) same) r e
                (not_digest r (strip_prefix digest_prefix u) e shape))
      ]

  pub segment_self : (t : List ℕ) → segment_belongs_to c (key_component c t) t ≡ true
  unfolding segment_belongs_to
  segment_self t = rw (bytes_eq_refl (key_component c t)) refl

  pub key_component-no_slash :
      (t : List ℕ)
      → All IsCode t
      → all_hex 64 (digest c t) ≡ true
      → All (λ n. n == b'/' ≡ false) (key_component c t)
  key_component-no_slash t ht hex = elim (form t) [
    | as_text e f ↦ rw e (encoded-no_slash t ht)
    | as_digest e ↦ rw e (
        All-append (λ n. n == b'/' ≡ false) digest_prefix (digest c t) (ground arith)
          (subst (All (λ n. n == b'/' ≡ false))
            (encoded_plain (digest c t) (all_hex-IsPlain 64 (digest c t) hex))
            (encoded-no_slash (digest c t) (digest-IsCode t))))
  ]

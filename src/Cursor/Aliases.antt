-- ===== src/Cursor/Aliases.antt =====
-- Cursors that are spelled differently and decoded alike.
use dmi.Base.{
  List, Option, [], ◌∷◌, ◌≡◌, ◌≢◌, ◌<◌, ◌+◌, ◌*◌, ◌%◌, ℕ, some, refl, ap, length, arith, suc, ◌∙◌,
  sym, map,
}
use dmi.Cursor.{Json, char_of, sextet_of, base64, from_base64, decode_cursor}
use dmi.Cursor.Base64.{
  AreBytes, sextets-map, from_base64-base64, sextet_of-char_of, sixes_with, sixes_below,
  bytes_of-sixes,
}

-- Another spelling of `base64 bs`.
unfoldable pub respell : ℕ → List ℕ → List ℕ
unfolding char_of sixes_with
respell x bs = map char_of (sixes_with x bs)

respelled : (x : ℕ) (bs : List ℕ) → AreBytes bs → from_base64 (respell x bs) ≡ some bs
unfolding from_base64 respell
respelled x bs h = rw (sextets-map (sixes_with x bs) (sixes_below x bs h)) (bytes_of-sixes x bs h)

length-respell : (x : ℕ) (bs : List ℕ) → length (respell x bs) ≡ length (base64 bs)
unfolding respell base64
length-respell x [] = refl
length-respell x (a ∷ []) = refl
length-respell x (a ∷ b ∷ []) = refl
length-respell x (a ∷ b ∷ c ∷ bs) = ap (λ n. suc (suc (suc (suc n)))) (length-respell x bs)

char_of-injective : (n m : ℕ) → n < 64 → m < 64 → char_of n ≡ char_of m → n ≡ m
char_of-injective n m hn hm e =
    let p : some n ≡ some m =
      sym (sextet_of-char_of n hn) ∙ ap sextet_of e ∙ sextet_of-char_of m hm in
    cc

differs :
    (x : ℕ) (bs : List ℕ)
    → AreBytes bs
    → 0 < x
    → x < 16
    → length bs % 3 ≡ 1
    → respell x bs ≢ base64 bs
unfolding respell base64
differs x [] h pos small len e = absurd (omega (arith, len))
differs x (a ∷ []) h pos small len e =
    let same : char_of (a % 4 * 16 + x % 16) ≡ char_of (a % 4 * 16) = cc in
    let equal =
      char_of-injective (a % 4 * 16 + x % 16) (a % 4 * 16) (omega arith) (omega arith) same in
    absurd (omega (arith, equal, pos, small))
differs x (a ∷ b ∷ []) h pos small len e = absurd (omega (arith, len))
differs x (a ∷ b ∷ c ∷ bs) h pos small len e =
    differs x bs h.1.1.1 pos small (omega (arith, len)) (cc)

-- Whatever `json.loads` is: for bytes whose number is one more than a multiple of 3, each spelling of
-- their base64 that differs only in the bits that are left over is another text than theirs, and
-- `decode_cursor` makes the same of both.
pub decode-respell :
    (loads : List ℕ → Option Json) (x : ℕ) (bs filter_hash : List ℕ) (max_watermark : ℕ)
    → AreBytes bs
    → 0 < x
    → x < 16
    → length bs % 3 ≡ 1
    → (respell x bs ≢ base64 bs)
      × (decode_cursor loads (respell x bs) filter_hash max_watermark
          ≡ decode_cursor loads (base64 bs) filter_hash max_watermark)
unfolding decode_cursor
decode-respell loads x bs filter_hash max_watermark h pos small len = (
  differs x bs h pos small len,
  rw (length-respell x bs, respelled x bs h, from_base64-base64 bs h) refl,
)

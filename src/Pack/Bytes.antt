-- ===== src/Pack/Bytes.antt =====
-- Bytes of a pack: alignment, ranges, and the little-endian integers of `struct`.
use dmi.Base.{
  List, [], ap, append-nil, append_assoc, arith, drop, length, length-append, length-replicate, map,
  refl, replicate, suc, take, total, zero, ℕ, ◌%◌, ◌*◌, ◌++◌, ◌+◌, ◌-◌, ◌/◌, ◌<◌, ◌^◌, ◌∷◌, ◌≡◌,
  ◌≤◌,
}
use native.Mathlib.Nat.{pow-succ'}

abbrev pub pack_alignment : ℕ
pack_alignment = 64

-- `_aligned_length`; `(-n) % 64` of Python is `(64 - n % 64) % 64` here.
unfoldable pub aligned_length : ℕ → ℕ
aligned_length n = n + (pack_alignment - n % pack_alignment) % pack_alignment

-- `_align`
unfoldable pub align : List ℕ → List ℕ
unfolding aligned_length
align buffer = buffer ++ replicate (aligned_length (length buffer) - length buffer) 0

pub aligned_length_lem : (n : ℕ) → (n ≤ aligned_length n) × (aligned_length n % 64 ≡ 0)
unfolding aligned_length
aligned_length_lem n = (omega arith, omega arith)

pub length-align : (buffer : List ℕ) → length (align buffer) ≡ aligned_length (length buffer)
unfolding align
length-align buffer = omega (
  arith,
  length-append buffer (replicate (aligned_length (length buffer) - length buffer) 0),
  length-replicate {A = ℕ} (aligned_length (length buffer) - length buffer) 0,
)

-- `data[offset : offset + size]`
abbrev pub read_range : List ℕ → ℕ → ℕ → List ℕ
read_range bytes offset size = take size (drop offset bytes)

pub take-append_le : (n : ℕ) (xs ys : List ℕ) → n ≤ length xs → take n (xs ++ ys) ≡ take n xs
take-append_le zero xs ys h = refl
take-append_le (suc n) [] ys h = absurd (omega arith)
take-append_le (suc n) (x ∷ xs) ys h = ap (λ l. x ∷ l) (take-append_le n xs ys (omega arith))

pub take-all : (xs ys : List ℕ) → take (length xs) (xs ++ ys) ≡ xs
take-all [] ys = refl
take-all (x ∷ xs) ys = ap (λ l. x ∷ l) (take-all xs ys)

-- What stands in a prefix is read the same whatever follows.
pub read_range-append :
    (off size : ℕ) (xs ys : List ℕ)
    → off + size ≤ length xs
    → read_range (xs ++ ys) off size ≡ read_range xs off size
read_range-append zero size xs ys h = take-append_le size xs ys (omega arith)
read_range-append (suc off) zero [] ys h = refl
read_range-append (suc off) (suc size) [] ys h = absurd (omega arith)
read_range-append (suc off) size (x ∷ xs) ys h = read_range-append off size xs ys (omega arith)

-- What was appended is read back at the length of what stood before.
pub read_range_at :
    (xs part ys : List ℕ) → read_range (xs ++ (part ++ ys)) (length xs) (length part) ≡ part
read_range_at [] part ys = take-all part ys
read_range_at (x ∷ xs) part ys = read_range_at xs part ys

-- An unsigned integer of `width` bytes, as `struct.pack` writes it after `<`.
unfoldable pub le_bytes : ℕ → ℕ → List ℕ
le_bytes zero n = []
le_bytes (suc width) n = (n % 256) ∷ le_bytes width (n / 256)

-- and as `struct.unpack` reads it
unfoldable pub le_value : List ℕ → ℕ
le_value [] = 0
le_value (b ∷ bs) = b + 256 * le_value bs

pub length-le_bytes : (width n : ℕ) → length (le_bytes width n) ≡ width
unfolding le_bytes
length-le_bytes zero n = refl
length-le_bytes (suc width) n = ap suc (length-le_bytes width (n / 256))

div_below : (k n : ℕ) → n < 256 * k → n / 256 < k
div_below k n p = omega arith

pub le_value-le_bytes : (width n : ℕ) → n < 256 ^ width → le_value (le_bytes width n) ≡ n
unfolding le_bytes le_value
le_value-le_bytes zero n h = omega arith
le_value-le_bytes (suc width) n h =
    omega (arith, le_value-le_bytes width (n / 256) (div_below (256 ^ width) n (rw pow-succ' at h)))

pub drop-all : (xs ys : List ℕ) → drop (length xs) (xs ++ ys) ≡ ys
drop-all [] ys = refl
drop-all (x ∷ xs) ys = drop-all xs ys

-- The same for a part whose length is known.
pub take_part : (n : ℕ) (xs ys : List ℕ) → length xs ≡ n → take n (xs ++ ys) ≡ xs
take_part n xs ys e = rw (← e) (take-all xs ys)

pub drop_part : (n : ℕ) (xs ys : List ℕ) → length xs ≡ n → drop n (xs ++ ys) ≡ ys
drop_part n xs ys e = rw (← e) (drop-all xs ys)

take-whole : (xs : List ℕ) → take (length xs) xs ≡ xs
take-whole [] = refl
take-whole (x ∷ xs) = ap (λ l. x ∷ l) (take-whole xs)

pub read_range_end : (xs part : List ℕ) → read_range (xs ++ part) (length xs) (length part) ≡ part
read_range_end [] part = take-whole part
read_range_end (x ∷ xs) part = read_range_end xs part

-- `struct.pack`: the fields one after the other.
abbrev pub concat : List (List ℕ) → List ℕ
concat [] = []
concat (part ∷ parts) = part ++ concat parts

-- `struct.unpack_from`: fields of the given widths, one after the other.
unfoldable pub unpack : List ℕ → List ℕ → List (List ℕ)
unpack [] bytes = []
unpack (width ∷ widths) bytes = take width bytes ∷ unpack widths (drop width bytes)

pub length-concat : (parts : List (List ℕ)) → length (concat parts) ≡ total length parts
length-concat [] = refl
length-concat (part ∷ parts) = omega (arith, length-append part (concat parts), length-concat parts)

pub unpack-concat :
    (parts : List (List ℕ)) (rest : List ℕ)
    → unpack (map length parts) (concat parts ++ rest) ≡ parts
unfolding unpack
unpack-concat [] rest = refl
unpack-concat (part ∷ parts) rest =
    rw (append_assoc, take-all, drop-all) (ap (λ l. part ∷ l) (unpack-concat parts rest))

-- The same with the widths given, and at the end of the bytes.
pub unpack_fields :
    (widths : List ℕ) (parts : List (List ℕ)) (rest : List ℕ)
    → map length parts ≡ widths
    → unpack widths (concat parts ++ rest) ≡ parts
unpack_fields widths parts rest e = rw (← e) (unpack-concat parts rest)

pub unpack_all :
    (widths : List ℕ) (parts : List (List ℕ))
    → map length parts ≡ widths
    → unpack widths (concat parts) ≡ parts
unpack_all widths parts e = rw append-nil at (unpack_fields widths parts [] e)

-- ===== src/Pack/Writer/Layout.antt =====
-- Where `append` puts the payloads: aligned, in order, apart, and unchanged by what follows.
use dmi.Base.{
  List, String, [], ap, append-nil, append_assoc, arith, false, length, length-append, refl,
  replicate, sym, ℕ, ◌%◌, ◌++◌, ◌+◌, ◌-◌, ◌^◌, ◌∙◌, ◌∷◌, ◌≡◌, ◌≤◌,
}
use dmi.Model.{CaptureRecord}
use dmi.Pack.Bytes.{
  read_range_end, le_bytes, length-concat, concat, aligned_length, aligned_length_lem, align,
  length-align, read_range, read_range-append,
}
use dmi.Pack.Writer.{
  header_parts, Codec, PackWriter, IndexedRecord, ok, append, new, write_record, index_record,
  contains, header_size, fresh,
}
use dmi.Pack.Writer.Bounds.{IsSized, new-IsSized, append-IsSized, IsAdmitted, append-IsAdmitted}

-- The index entries `xs` describe the captures `rs` in `buffer`, beginning at `start` or later.
abbrev pub Placed : Codec → List ℕ → ℕ → List IndexedRecord → List CaptureRecord → Type 0
Placed c buffer start [] [] = Unit
Placed c buffer start (x ∷ xs) (r ∷ rs) =
    (start ≤ x.offset)
    × (x.offset % 64 ≡ 0)
    × (x.offset + x.stored_length ≤ length buffer)
    × (read_range buffer x.offset x.stored_length ≡ r.payload)
    × (x.stored_length ≡ length r.payload)
    × (x.decoded_length ≡ length r.payload)
    × (x.codec ≡ "none")
    × (x.metadata ≡ r.metadata)
    × (x.checksum ≡ c.crc_text (c.crc32 r.payload % 2 ^ 32))
    × Placed c buffer (x.offset + x.stored_length) xs rs
Placed c buffer start _ _ = ⊥

abbrev pub end_of : ℕ → List IndexedRecord → ℕ
end_of start [] = start
end_of start (x ∷ xs) = end_of (x.offset + x.stored_length) xs

pub Placed-append :
    (c : Codec) (buffer more : List ℕ) (start : ℕ) (xs : List IndexedRecord)
    (rs : List CaptureRecord)
    → Placed c buffer start xs rs
    → Placed c (buffer ++ more) start xs rs
Placed-append c buffer more start [] [] p = tt
Placed-append c buffer more start [] (r ∷ rs) p = p
Placed-append c buffer more start (x ∷ xs) [] p = p
Placed-append c buffer more start (x ∷ xs) (r ∷ rs) p = (
  p.0,
  p.1,
  omega (arith, length-append buffer more, p.2),
  read_range-append x.offset x.stored_length buffer more p.2 ∙ p.3,
  p.4,
  p.5,
  p.6,
  p.7,
  p.8,
  Placed-append c buffer more (x.offset + x.stored_length) xs rs p.9,
)

end_of-le :
    (c : Codec) (buffer : List ℕ) (start : ℕ) (xs : List IndexedRecord) (rs : List CaptureRecord)
    → start ≤ length buffer
    → Placed c buffer start xs rs
    → end_of start xs ≤ length buffer
end_of-le c buffer start [] [] h p = h
end_of-le c buffer start [] (r ∷ rs) h p = absurd p
end_of-le c buffer start (x ∷ xs) [] h p = absurd p
end_of-le c buffer start (x ∷ xs) (r ∷ rs) h p =
    end_of-le c buffer (x.offset + x.stored_length) xs rs p.2 p.9

Placed-snoc :
    (c : Codec) (buffer : List ℕ) (start : ℕ) (xs : List IndexedRecord) (rs : List CaptureRecord)
    (x : IndexedRecord) (r : CaptureRecord)
    → Placed c buffer start xs rs
    → Placed c buffer (end_of start xs) (x ∷ []) (r ∷ [])
    → Placed c buffer start (xs ++ x ∷ []) (rs ++ r ∷ [])
Placed-snoc c buffer start [] [] x r p q = q
Placed-snoc c buffer start [] (s ∷ rs) x r p q = absurd p
Placed-snoc c buffer start (y ∷ xs) [] x r p q = absurd p
Placed-snoc c buffer start (y ∷ xs) (s ∷ rs) x r p q = (
  p.0,
  p.1,
  p.2,
  p.3,
  p.4,
  p.5,
  p.6,
  p.7,
  p.8,
  Placed-snoc c buffer (y.offset + y.stored_length) xs rs x r p.9 q,
)

-- The captures have identifiers that are new, each to those before it and to `seen`.
abbrev pub AllNew : List String → List CaptureRecord → Type 0
AllNew seen [] = Unit
AllNew seen (r ∷ rs) =
    (contains seen r.metadata.capture_id ≡ false) × AllNew (r.metadata.capture_id ∷ seen) rs

abbrev pub ids_after : List String → List CaptureRecord → List String
ids_after seen [] = seen
ids_after seen (r ∷ rs) = ids_after (r.metadata.capture_id ∷ seen) rs

AllNew-snoc :
    (seen : List String) (rs : List CaptureRecord) (r : CaptureRecord)
    → AllNew seen rs
    → contains (ids_after seen rs) r.metadata.capture_id ≡ false
    → AllNew seen (rs ++ r ∷ [])
AllNew-snoc seen [] r a h = (h, tt)
AllNew-snoc seen (s ∷ rs) r a h = (a.0, AllNew-snoc (s.metadata.capture_id ∷ seen) rs r a.1 h)

ids_after-snoc :
    (seen : List String) (rs : List CaptureRecord) (r : CaptureRecord)
    → ids_after seen (rs ++ r ∷ []) ≡ r.metadata.capture_id ∷ ids_after seen rs
ids_after-snoc seen [] r = refl
ids_after-snoc seen (s ∷ rs) r = ids_after-snoc (s.metadata.capture_id ∷ seen) rs r

module _ (c : Codec) where
  -- What the writer's fields say of the captures that it has admitted.
  pub record IsLaid (w : PackWriter) (rs : List CaptureRecord) : Type 0 where
    pub has_header : header_size ≤ length w.buffer
    pub headed :
        (more : List ℕ) × (w.buffer ≡ concat (header_parts c w.pack_id w.created_at_ns) ++ more)
    pub placed : Placed c w.buffer header_size w.records rs
    pub counted : length w.records ≡ length rs
    pub ids : w.capture_ids ≡ ids_after [] rs
    pub distinct : AllNew [] rs

  read_back :
      (w : PackWriter) (r : CaptureRecord)
      → read_range
          (align w.buffer ++ r.payload)
          (aligned_length (length w.buffer))
          (length r.payload)
        ≡ r.payload
  read_back w r = rw (← length-align w.buffer) (read_range_end (align w.buffer) r.payload)

  write_record-Placed :
      (w : PackWriter) (r : CaptureRecord) (rs : List CaptureRecord)
      → header_size ≤ length w.buffer
      → Placed c w.buffer header_size w.records rs
      → Placed c
          (align w.buffer ++ r.payload)
          header_size
          (w.records ++ index_record c w r ∷ [])
          (rs ++ r ∷ [])
  unfolding index_record align
  write_record-Placed w r rs h p =
      Placed-snoc c (align w.buffer ++ r.payload) header_size w.records rs (index_record c w r) r
        (rw append_assoc (
          Placed-append c w.buffer
            (replicate (aligned_length (length w.buffer) - length w.buffer) 0 ++ r.payload)
            header_size w.records rs p))
        (
          omega (
            arith,
            aligned_length_lem (length w.buffer),
            end_of-le c w.buffer header_size w.records rs h p,
          ),
          (aligned_length_lem (length w.buffer)).1,
          omega (arith, length-append (align w.buffer) r.payload, length-align w.buffer),
          read_back w r,
          refl,
          refl,
          refl,
          refl,
          refl,
          tt,
        )

  pub align-headed :
      (buffer head more payload : List ℕ)
      → buffer ≡ head ++ more
      → align buffer ++ payload
        ≡ head
          ++ (more ++ (replicate (aligned_length (length buffer) - length buffer) 0 ++ payload))
  unfolding align
  align-headed buffer head more payload e =
      append_assoc buffer (replicate (aligned_length (length buffer) - length buffer) 0) payload
      ∙ ap (λ l. l ++ (replicate (aligned_length (length buffer) - length buffer) 0 ++ payload)) e
      ∙ append_assoc head more
          (replicate (aligned_length (length buffer) - length buffer) 0 ++ payload)

  write_record-IsLaid :
      (w w' : PackWriter) (r : CaptureRecord) (rs : List CaptureRecord)
      → IsLaid w rs
      → IsAdmitted c w w' r
      → IsLaid (write_record c w r) (rs ++ r ∷ [])
  unfolding write_record
  write_record-IsLaid w w' r rs v a = record {
    has_header = omega (
      arith,
      v.has_header,
      length-append (align w.buffer) r.payload,
      length-align w.buffer,
      aligned_length_lem (length w.buffer),
    );
    headed = (
      v.headed.0 ++ (replicate (aligned_length (length w.buffer) - length w.buffer) 0 ++ r.payload),
      align-headed w.buffer (concat (header_parts c w.pack_id w.created_at_ns)) v.headed.0 r.payload
          v.headed.1,
    );
    placed = write_record-Placed w r rs v.has_header v.placed;
    counted = omega (
      arith,
      v.counted,
      length-append w.records (index_record c w r ∷ []),
      length-append rs (r ∷ []),
    );
    ids = rw (ids_after-snoc, v.ids);
    distinct = AllNew-snoc [] rs r v.distinct (rw v.ids at a.is_new);
  }

  -- Writers that `__init__` made and that have since admitted the captures `rs`, in order.
  pub data Holds : PackWriter → List CaptureRecord → Type 0 where
    started :
        {w : PackWriter} (pack_id : String) (created max_bytes max_records : ℕ)
        → new c pack_id created max_bytes max_records ≡ ok w
        → Holds w []
    added :
        {w w' : PackWriter} {rs rs' : List CaptureRecord} (r : CaptureRecord)
        → Holds w rs
        → append c w r ≡ ok w'
        → rs' ≡ rs ++ r ∷ []
        → Holds w' rs'

  pub Holds-IsSized : {w : PackWriter} {rs : List CaptureRecord} → Holds w rs → IsSized c w
  Holds-IsSized {w} (started pack_id created max_bytes max_records e) =
      new-IsSized c pack_id created max_bytes max_records w e
  Holds-IsSized {w} (added {w = v} r h e s) = append-IsSized c v w r e (Holds-IsSized h)

  module _ (uuid_16 : (id : String) → length (c.uuid_bytes id) ≡ 16) where
    pub length-header :
        (pack_id : String) (created : ℕ) → length (concat (header_parts c pack_id created)) ≡ 64
    unfolding header_parts le_bytes
    length-header pack_id created =
        omega (arith, length-concat (header_parts c pack_id created), uuid_16 pack_id)

    pub new_ok :
        (pack_id : String) (created max_bytes max_records : ℕ) (w : PackWriter)
        → new c pack_id created max_bytes max_records ≡ ok w
        → w ≡ fresh c pack_id created max_bytes max_records
    unfolding new
    new_ok pack_id created max_bytes max_records w h = ground arith

    new-IsLaid :
        (pack_id : String) (created max_bytes max_records : ℕ) (w : PackWriter)
        → new c pack_id created max_bytes max_records ≡ ok w
        → IsLaid w []
    new-IsLaid pack_id created max_bytes max_records w h =
        rw (new_ok pack_id created max_bytes max_records w h) (record {
          has_header = omega (arith, length-header pack_id created);
          headed = ([], sym (append-nil _));
          placed = tt;
          counted = refl;
          ids = refl;
          distinct = tt;
        })

    pub Holds-IsLaid : {w : PackWriter} {rs : List CaptureRecord} → Holds w rs → IsLaid w rs
    Holds-IsLaid {w} (started pack_id created max_bytes max_records e) =
        new-IsLaid pack_id created max_bytes max_records w e
    Holds-IsLaid {w} (added {w = v} {rs = rs} r h e s) =
        let a = append-IsAdmitted c v w r e in
        rw (s, a.written) (write_record-IsLaid v w r rs (Holds-IsLaid h) a)

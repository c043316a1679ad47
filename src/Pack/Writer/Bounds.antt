-- ===== src/Pack/Writer/Bounds.antt =====
-- `append` admits a record only if the pack can still be sealed: `seal` meets no limit afterwards.
use dmi.Base.{
  List, String, [], arith, false, length, length-append, total, total-append, true, ℕ, ◌++◌, ◌+◌,
  ◌<◌, ◌∷◌, ◌≡◌, ◌≤◌,
}
use dmi.Model.{CaptureRecord}
use dmi.Pack.Bytes.{length-concat, concat, aligned_length, align, length-align, le_bytes}
use dmi.Pack.Writer.{
  max_records_limit, contains, body, trailer_parts, Codec, PackWriter, ok, join, footer, seal,
  seal_pack, append, new, projected_footer, write_record, index_record, max_footer_bytes,
  trailer_size,
}

length-join :
    (x : List ℕ) (xs : List (List ℕ)) → length (join (x ∷ xs)) ≡ total length (x ∷ xs) + length xs
unfolding join
length-join x [] = omega arith
length-join x (y ∷ rest) =
    omega (arith, length-append x (b',' ∷ join (y ∷ rest)), length-join y rest)

module _ (c : Codec) where
  -- what the footer takes besides the encoded records
  abbrev frame : PackWriter → ℕ
  frame w =
      length (c.footer_prefix w.pack_id w.created_at_ns)
      + length (c.footer_suffix w.pack_id w.created_at_ns)
      + 2

  pub length-footer : (w : PackWriter) → length (footer c w) ≡ frame w + length (join w.record_json)
  unfolding footer
  length-footer w = omega (
    arith,
    length-append (c.footer_prefix w.pack_id w.created_at_ns)
        (b'[' ∷ join w.record_json ++ (b']' ∷ c.footer_suffix w.pack_id w.created_at_ns)),
    length-append (b'[' ∷ join w.record_json) (b']' ∷ c.footer_suffix w.pack_id w.created_at_ns),
  )

  length-join-snoc :
      (x : List ℕ) (xs : List (List ℕ))
      → length (join (xs ++ x ∷ [])) ≡ total length xs + length x + length xs
  unfolding join
  length-join-snoc x [] = omega arith
  length-join-snoc x (y ∷ ys) = omega (
    arith,
    length-join y (ys ++ x ∷ []),
    total-append length ys (x ∷ []),
    length-append ys (x ∷ []),
  )

  pub record IsSized (w : PackWriter) : Type 0 where
    pub is_open : w.sealed ≡ false
    pub limit : w.max_records ≤ max_records_limit
    pub json_count : length w.record_json ≡ length w.records
    pub json_bytes : w.record_json_bytes ≡ total length w.record_json
    pub count_fits : length w.records ≤ w.max_records
    pub footer_fits : 0 < length w.records → length (footer c w) ≤ max_footer_bytes
    pub pack_fits :
        0 < length w.records
        → aligned_length (length w.buffer) + length (footer c w) + trailer_size ≤ w.max_pack_bytes

  pub new-IsSized :
      (pack_id : String) (created max_bytes max_records : ℕ) (w : PackWriter)
      → new c pack_id created max_bytes max_records ≡ ok w
      → IsSized w
  unfolding new
  new-IsSized pack_id created max_bytes max_records w h = ground arith

  footer-write_record :
      (w : PackWriter) (r : CaptureRecord)
      → IsSized w
      → length (footer c (write_record c w r))
        ≡ projected_footer c w (c.encode_record (index_record c w r))
  unfolding write_record projected_footer
  footer-write_record w r v = omega (
    arith,
    length-footer (write_record c w r),
    length-join-snoc (c.encode_record (index_record c w r)) w.record_json,
    v.json_bytes,
    v.json_count,
  )

  -- What `append` has checked when it admits a record.
  pub record IsAdmitted (w w' : PackWriter) (r : CaptureRecord) : Type 0 where
    pub written : w' ≡ write_record c w r
    pub was_open : w.sealed ≡ false
    pub room : length w.records < w.max_records
    pub is_new : contains w.capture_ids r.metadata.capture_id ≡ false
    pub footer_room : projected_footer c w (c.encode_record (index_record c w r)) ≤ max_footer_bytes
    pub pack_room :
        aligned_length (aligned_length (length w.buffer) + length r.payload)
          + projected_footer c w (c.encode_record (index_record c w r))
          + trailer_size
        ≤ w.max_pack_bytes

  pub append-IsAdmitted :
      (w w' : PackWriter) (r : CaptureRecord) → append c w r ≡ ok w' → IsAdmitted w w' r
  unfolding append
  append-IsAdmitted w w' r h = ground arith

  pub length-write_record :
      (w : PackWriter) (r : CaptureRecord)
      → length (write_record c w r).buffer ≡ aligned_length (length w.buffer) + length r.payload
  unfolding write_record
  length-write_record w r =
      omega (arith, length-append (align w.buffer) r.payload, length-align w.buffer)

  write_record-IsSized :
      (w w' : PackWriter) (r : CaptureRecord)
      → IsSized w
      → IsAdmitted w w' r
      → IsSized (write_record c w r)
  unfolding write_record
  write_record-IsSized w w' r v a = record {
    is_open = v.is_open;
    limit = v.limit;
    json_count = omega (
      arith,
      v.json_count,
      length-append w.record_json (c.encode_record (index_record c w r) ∷ []),
      length-append w.records (index_record c w r ∷ []),
    );
    json_bytes = omega (
      arith,
      v.json_bytes,
      total-append length w.record_json (c.encode_record (index_record c w r) ∷ []),
    );
    count_fits = omega (arith, a.room, length-append w.records (index_record c w r ∷ []));
    footer_fits = λ _. rw (footer-write_record w r v) a.footer_room;
    pack_fits = λ _. rw (footer-write_record w r v, length-write_record w r) a.pack_room;
  }

  pub append-IsSized :
      (w w' : PackWriter) (r : CaptureRecord) → append c w r ≡ ok w' → IsSized w → IsSized w'
  append-IsSized w w' r h v =
      let a = append-IsAdmitted w w' r h in rw a.written (write_record-IsSized w w' r v a)

  length-trailer :
      (w : PackWriter)
      → length (concat (trailer_parts c w (body c w))) ≡ 32 + length (c.sha256 (body c w))
  unfolding trailer_parts le_bytes
  length-trailer w = omega (arith, length-concat (trailer_parts c w (body c w)))

  pub length-body :
      (w : PackWriter) → length (body c w) ≡ aligned_length (length w.buffer) + length (footer c w)
  unfolding body
  length-body w = omega (arith, length-append (align w.buffer) (footer c w), length-align w.buffer)

  pub length-seal_pack :
      (w : PackWriter)
      → length (c.sha256 (body c w)) ≡ 32
      → length (seal_pack c w).bytes
        ≡ aligned_length (length w.buffer) + length (footer c w) + trailer_size
  unfolding seal_pack
  length-seal_pack w h = omega (
    arith,
    length-append (body c w) (concat (trailer_parts c w (body c w))),
    length-trailer w,
    length-body w,
  )

  -- A writer of these sizes is sealed.
  pub seal_fits :
      (w : PackWriter)
      → IsSized w
      → 0 < length w.records
      → length (c.sha256 (body c w)) ≡ 32
      → (seal c w ≡ ok (seal_pack c w, record w { buffer = (seal_pack c w).bytes; sealed = true }))
        × (length (seal_pack c w).bytes ≤ w.max_pack_bytes)
  unfolding seal
  seal_fits w v some_record digest = (
    ground (arith, v.footer_fits some_record, v.pack_fits some_record),
    omega (arith, length-seal_pack w digest, v.pack_fits some_record),
  )

-- ===== src/Pack/RoundTrip.antt =====
-- A pack that the writer sealed is read back by `PackReader.from_bytes`.
use text.Mathlib.TextPositions.{eq_refl}
use dmi.Base.{
  All, List, String, [], append_assoc, arith, drop, length, length-append, le→leb, map, refl,
  replicate, some, take, true, ℕ, ◌%◌, ◌++◌, ◌+◌, ◌-◌, ◌<◌, ◌^◌, ◌∙◌, ◌≡◌, ◌≤◌,
}
use dmi.Model.{CaptureRecord}
use dmi.Pack.Bytes.{
  unpack, le_value, le_value-le_bytes, read_range, read_range-append, read_range_end, take_part,
  drop_part, aligned_length, aligned_length_lem, align, length-align, concat, unpack_fields,
  unpack_all, le_bytes, length-concat,
}
use dmi.Pack.Writer.{
  header_magic, trailer_magic, Codec, PackWriter, max_records_limit, seal_pack, body, footer,
  header_parts, trailer_parts, header_size, trailer_size,
}
use dmi.Pack.Writer.Bounds.{length-footer, IsSized, length-seal_pack, length-body}
use dmi.Pack.Writer.Layout.{align-headed, IsLaid}
use dmi.Pack.Reader.{
  Header, Trailer, header_of, trailer_of, ok, Decoder, parse_records, is_hex_text, from_bytes,
  header_widths, trailer_widths, check_header, check_trailer, decode_footer,
}
use dmi.Pack.Records.{IsValid, parse_from-Placed, ==_refl, bytes_eq_refl}

-- What the program relies on of the code that is not its own: the widths of a UUID and of a SHA-256,
-- the form of a checksum's text, and that JSON is read back as it was written.
pub record IsFaithful (c : Codec) (d : Decoder) (w : PackWriter) : Type 0 where
  pub uuid_16 : (id : String) → length (c.uuid_bytes id) ≡ 16
  pub sha_32 : (bytes : List ℕ) → length (c.sha256 bytes) ≡ 32
  pub crc_hex : (n : ℕ) → is_hex_text 8 (c.crc_text (n % 2 ^ 32)) ≡ true
  pub uuid_back : d.uuid_text (c.uuid_bytes w.pack_id) ≡ w.pack_id
  pub json_back :
      d.json (footer c w)
      ≡ some (record {
        format = "dmi-pack";
        major_version = 1;
        minor_version = 0;
        pack_id = w.pack_id;
        created_at_ns = w.created_at_ns;
        records = w.records;
      })

module _ (c : Codec) (d : Decoder) (w : PackWriter) (f : IsFaithful c d w) where
  abbrev packed : List ℕ
  packed = (seal_pack c w).bytes

  packed_parts : packed ≡ body c w ++ concat (trailer_parts c w (body c w))
  unfolding seal_pack
  packed_parts = refl

  checksum_is : (seal_pack c w).checksum ≡ c.hexdigest (c.sha256 packed)
  unfolding seal_pack
  checksum_is = refl

  length-trailer_parts : length (concat (trailer_parts c w (body c w))) ≡ 64
  unfolding trailer_parts le_bytes
  length-trailer_parts =
      omega (arith, length-concat (trailer_parts c w (body c w)), f.sha_32 (body c w))

  trailer_at : length packed - trailer_size ≡ length (body c w)
  trailer_at = rw packed_parts (
      omega (
        arith,
        length-append (body c w) (concat (trailer_parts c w (body c w))),
        length-trailer_parts,
      ))

  take-body : take (length packed - trailer_size) packed ≡ body c w
  take-body =
      rw (trailer_at, packed_parts)
        (take_part (length (body c w)) (body c w) (concat (trailer_parts c w (body c w))) refl)

  drop-body : drop (length packed - trailer_size) packed ≡ concat (trailer_parts c w (body c w))
  drop-body =
      rw (trailer_at, packed_parts)
        (drop_part (length (body c w)) (body c w) (concat (trailer_parts c w (body c w))) refl)

  trailer_lengths : map length (trailer_parts c w (body c w)) ≡ trailer_widths
  unfolding trailer_parts le_bytes
  trailer_lengths = rw (f.sha_32 (body c w))

  unpack_trailer :
      unpack trailer_widths (drop (length packed - trailer_size) packed)
      ≡ trailer_parts c w (body c w)
  unpack_trailer =
      rw drop-body (unpack_all trailer_widths (trailer_parts c w (body c w)) trailer_lengths)

  module _ (rs : List CaptureRecord) (laid : IsLaid c w rs) where
    header_lengths : map length (header_parts c w.pack_id w.created_at_ns) ≡ header_widths
    unfolding header_parts le_bytes
    header_lengths = rw (f.uuid_16 w.pack_id)

    abbrev pad : List ℕ
    pad = replicate (aligned_length (length w.buffer) - length w.buffer) 0

    packed_headed :
        (more : List ℕ) × (packed ≡ concat (header_parts c w.pack_id w.created_at_ns) ++ more)
    unfolding body
    packed_headed = (
      laid.headed.0 ++ (pad ++ (footer c w ++ concat (trailer_parts c w (body c w)))),
      packed_parts
          ∙ append_assoc (align w.buffer) (footer c w) (concat (trailer_parts c w (body c w)))
          ∙ align-headed c w.buffer (concat (header_parts c w.pack_id w.created_at_ns))
              laid.headed.0 (footer c w ++ concat (trailer_parts c w (body c w))) laid.headed.1,
    )

    unpack_header : unpack header_widths packed ≡ header_parts c w.pack_id w.created_at_ns
    unpack_header = rw packed_headed.1 (
        unpack_fields header_widths (header_parts c w.pack_id w.created_at_ns) packed_headed.0
          header_lengths)

    body-footer :
        read_range (body c w) (aligned_length (length w.buffer)) (length (footer c w)) ≡ footer c w
    unfolding body
    body-footer = rw (← length-align w.buffer) (read_range_end (align w.buffer) (footer c w))

    length-footer_part :
        length packed - trailer_size - aligned_length (length w.buffer) ≡ length (footer c w)
    length-footer_part = omega (arith, trailer_at, length-body c w)

    read_footer :
        read_range packed
          (aligned_length (length w.buffer))
          (length packed - trailer_size - aligned_length (length w.buffer))
        ≡ footer c w
    read_footer =
        rw (length-footer_part, packed_parts)
          (read_range-append (aligned_length (length w.buffer)) (length (footer c w)) (body c w)
              (concat (trailer_parts c w (body c w))) (omega (arith, length-body c w))
            ∙ body-footer)

    pub record Sizes : Type 0 where
      pub created : w.created_at_ns < 2 ^ 64
      pub some_record : 0 < length rs
      pub small : w.max_pack_bytes < 2 ^ 64

    module _ (sized : IsSized c w) (z : Sizes) (valid : All IsValid rs) where
      count : 0 < length w.records
      count = omega (arith, laid.counted, z.some_record)

      offset_back :
          le_value (le_bytes 8 (aligned_length (length w.buffer)))
          ≡ aligned_length (length w.buffer)
      offset_back =
          le_value-le_bytes 8 (aligned_length (length w.buffer))
            (omega (arith, sized.pack_fits count, z.small))

      length_back : le_value (le_bytes 8 (length (footer c w))) ≡ length (footer c w)
      length_back =
          le_value-le_bytes 8 (length (footer c w)) (omega (arith, sized.pack_fits count, z.small))

      crc_back :
          le_value (le_bytes 4 (c.crc32 (footer c w) % 2 ^ 32)) ≡ c.crc32 (footer c w) % 2 ^ 32
      crc_back = le_value-le_bytes 4 (c.crc32 (footer c w) % 2 ^ 32) (omega arith)

      created_back : le_value (le_bytes 8 w.created_at_ns) ≡ w.created_at_ns
      created_back = le_value-le_bytes 8 w.created_at_ns z.created

      records_back : parse_records w.records (aligned_length (length w.buffer)) ≡ ok w.records
      unfolding parse_records
      records_back = rw (
        le→leb (length w.records) max_records_limit (omega (arith, sized.count_fits, sized.limit)),
        parse_from-Placed c f.crc_hex w.buffer header_size (aligned_length (length w.buffer)) []
            w.records rs (omega arith) (aligned_length_lem (length w.buffer)).0 laid.placed
            laid.distinct valid,
      )

      big_enough : header_size + trailer_size + 2 ≤ length packed
      big_enough = omega (
        arith,
        length-seal_pack c w (f.sha_32 (body c w)),
        laid.has_header,
        aligned_length_lem (length w.buffer),
        length-footer c w,
      )

      abbrev head : Header
      head = record {
        magic = header_magic;
        major = 1;
        minor = 0;
        size = header_size;
        pack_bytes = c.uuid_bytes w.pack_id;
        created_at_ns = w.created_at_ns;
        flags = 0;
        reserved = replicate 20 0;
      }

      abbrev tail : Trailer
      tail = record {
        magic = trailer_magic;
        major = 1;
        minor = 0;
        footer_offset = aligned_length (length w.buffer);
        footer_length = length (footer c w);
        footer_crc = c.crc32 (footer c w) % 2 ^ 32;
        body_hash = c.sha256 (body c w);
      }

      header_back : header_of (unpack header_widths packed) ≡ ok head
      unfolding header_parts le_value le_bytes
      header_back = rw (unpack_header, created_back)

      trailer_back :
          trailer_of (unpack trailer_widths (drop (length packed - trailer_size) packed)) ≡ ok tail
      unfolding trailer_parts le_value le_bytes
      trailer_back = rw (unpack_trailer, offset_back, length_back, crc_back)

      check_head : check_header head ≡ ok tt
      unfolding check_header
      check_head = refl

      check_tail : check_trailer head tail (length packed - trailer_size) ≡ ok tt
      unfolding check_trailer
      check_tail = ground (
        arith,
        sized.footer_fits count,
        laid.has_header,
        aligned_length_lem (length w.buffer),
        trailer_at,
        length-body c w,
      )

      footer_back :
          decode_footer d (footer c w) 1 0
          ≡ ok (record {
            format = "dmi-pack";
            major_version = 1;
            minor_version = 0;
            pack_id = w.pack_id;
            created_at_ns = w.created_at_ns;
            records = w.records;
          })
      unfolding decode_footer
      footer_back = rw (f.json_back, decode_footer)

      pub from_bytes-seal_pack :
          from_bytes c d packed
          ≡ ok (record {
            bytes = packed;
            pack_id = w.pack_id;
            created_at_ns = w.created_at_ns;
            records = w.records;
            object_checksum = (seal_pack c w).checksum;
          })
      unfolding from_bytes
      from_bytes-seal_pack = rw (
        le→leb (header_size + trailer_size + 2) (length packed) big_enough,
        header_back,
        check_head,
        trailer_back,
        check_tail,
        take-body,
        bytes_eq_refl (c.sha256 (body c w)),
        read_footer,
        ==_refl (c.crc32 (footer c w) % 2 ^ 32),
        footer_back,
        f.uuid_back,
        eq_refl w.pack_id,
        ==_refl w.created_at_ns,
        records_back,
        checksum_is,
      )

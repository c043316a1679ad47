-- ===== src/PackExamples.antt =====
-- The theorems on an index of a pack and on a batch of references at concrete values.
use dmi.Base.{[], ◌∷◌, ℕ, ◌≡◌, ◌≤◌, refl, some, List, length}
use dmi.Model.{PackRef}
use dmi.Pack.Bytes.{read_range, unpack, align, aligned_length, le_bytes, le_value}
use dmi.Pack.Writer.{seal_pack}
use dmi.Pack.Writer
use dmi.Pack.Reader.{ok, PackReader, from_bytes}
use dmi.Pack.Reader
use dmi.Model.{metadata_valid}
use dmi.Model
use dmi.Pack.Index.{PackStore, PackIndex, from_store, max_footer_read_bytes}
use dmi.Pack.Indexed.{from_store_agrees}
use dmi.Catalog.{identity}
use dmi.Catalog.Partition.{partition_refs, mem_ref, Agrees}
use dmi.Catalog.Partitioning.{partition_refs-Agrees}
use dmi.Catalog.Disputes.{IsDisputed, partition_refs-keeps}
use dmi.Base.{All, ◌⊎◌, true}
use dmi.Samples.{plain, decoder_of, two_records}

abbrev stored_bytes : List ℕ
stored_bytes = (seal_pack plain two_records).bytes

abbrev whole : PackReader
whole = record {
  bytes = stored_bytes;
  pack_id = "p";
  created_at_ns = 5;
  records = two_records.records;
  object_checksum = "d";
}

abbrev one_store : PackStore
one_store = record {
  store_id = "s";
  read_range = λ ref offset size. read_range stored_bytes offset size;
}

abbrev stored_ref : PackRef
stored_ref = record {
  pack_id = "p";
  store_id = "s";
  object_key = "k";
  object_bytes = length stored_bytes;
  checksum = "d";
  record_count = 2;
}

from_store_agrees_example :
    (x : PackIndex) × (from_store plain (decoder_of two_records) some one_store stored_ref
      ≡ some (ok x))
    × (x.records ≡ two_records.records)
    × (x.footer_read_bytes ≤ max_footer_read_bytes stored_ref)
    × (x.footer_read_bytes ≤ length stored_bytes)
unfolding from_bytes Reader.check_header Reader.check_trailer Reader.decode_footer
    Reader.parse_records Reader.parse_from Reader.parse_record Reader.is_hex_text metadata_valid
    Model.logical_bytes unpack le_value Writer.append Writer.write_record Writer.index_record
    Writer.projected_footer aligned_length align Writer.header_parts le_bytes Writer.new Writer.seal
    Writer.seal_pack Writer.body Writer.footer Writer.trailer_parts Writer.join
from_store_agrees_example =
    from_store_agrees plain (decoder_of two_records) some one_store stored_ref stored_bytes whole
      (λ offset size h. refl) refl refl refl refl refl refl

-- The same pack at two keys, and another pack twice.
abbrev batch : List PackRef
batch =
    stored_ref
    ∷ record stored_ref { object_key = "k2" }
    ∷ record stored_ref { pack_id = "q" }
    ∷ record stored_ref { pack_id = "q" }
    ∷ []

partition_refs-Agrees_example : All (λ x. Agrees x batch) (partition_refs batch).0
partition_refs-Agrees_example = partition_refs-Agrees batch

partition_refs-keeps_example :
    All (λ y. (mem_ref (partition_refs batch).0 y ≡ true) ⊎ IsDisputed batch (identity y)) batch
partition_refs-keeps_example = partition_refs-keeps batch

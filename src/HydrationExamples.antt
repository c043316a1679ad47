-- ===== src/HydrationExamples.antt =====
-- The theorems on a hydration and on object keys at concrete values.
use mathlib.Core.List.{Perm}
use dmi.Base.{
  All, none, List, String, [], ◌∷◌, ℕ, ◌≡◌, ◌≢◌, ◌≤◌, ◌↔◌, refl, some, length, map, arith,
}
use dmi.Model.{CaptureDescriptor, PackRef, metadata_valid}
use dmi.Model
use dmi.Pack.Bytes.{read_range, unpack, align, aligned_length, le_bytes, le_value}
use dmi.Pack.Index
use dmi.Pack.Writer.{Codec, seal_pack}
use dmi.Pack.Reader.{ok}
use dmi.Pack.Writer
use dmi.Pack.Reader
use dmi.Pack.Reading.{descriptor}
use dmi.Keys.{codes, object_key_for, reject_a_foreign_tenant}
use dmi.Keys
use dmi.Keys.Utf8.{codes-IsCode}
use dmi.Keys.Components.{key_component-injective}
use dmi.Keys.Tenants.{reject-object_key_iff}
use dmi.Hydration.{
  Fetched, given, failed, over_limit, FooterCache, Session, RangeStore, CaptureReader,
}
use dmi.Hydration
use dmi.Hydration.Plan.{enumerate, plan}
use dmi.Hydration.Plan
use dmi.Hydration.Footers
use dmi.Hydration.Selecting.{CaptureSelection, HydrationEstimate, estimate, resolve}
use dmi.Hydration.Selecting
use dmi.Hydration.Reader.{HydratedCapture, hydrate}
use dmi.Hydration.Reader as Hydrating
use dmi.Hydration.Resolving.{ids_of}
use dmi.Hydration.Placing.{IsIntact}
use dmi.Hydration.Refining.{read_each}
use dmi.Hydration.Direct.{hydrate-refines}
use dmi.Hydration.Budget.{hydrate-within_limits}
use dmi.Hydration.Owned.{AllOwn, hydrate-AllOwn}
use dmi.Hydration.Estimating.{hydrate-estimated}
use dmi.Hydration.Caching.{IsBounded}
use dmi.Hydration.Bounded.{hydrate-IsBounded}
use dmi.Hydration.Enclosing.{IsPlan, plan-IsPlan}
use dmi.Hydration.Planning.{planned, plan-Perm}
use mathlib.Core.List.Perm
use dmi.Hydration.Selecting.{CapturePage, select}
use dmi.Hydration.Selected.{resolve-select}
use dmi.Cursor.{CursorKey, encode_cursor, decode_cursor, payload_of, base64}
use dmi.Cursor
use dmi.Cursor.RoundTrip.{decode-encode}
use dmi.Cursor.Aliases.{respell, decode-respell}
use dmi.Samples.{plain, decoder_of, two_records, metadata_of}

abbrev pack_bytes : List ℕ
pack_bytes = (seal_pack plain two_records).bytes

abbrev bucket_store : RangeStore
bucket_store = record {
  store_id = "s";
  read_range = λ ref offset size. some (read_range pack_bytes offset size);
}

abbrev pack_at : PackRef
pack_at = record {
  pack_id = "p";
  store_id = "s";
  object_key = "v1/tenant=t/p";
  object_bytes = length pack_bytes;
  checksum = "d";
  record_count = 2;
}

abbrev at_offset : String → ℕ → CaptureDescriptor
at_offset id offset = record {
  metadata = metadata_of id;
  locator = record {
    pack_id = "p";
    store_id = "s";
    object_key = "v1/tenant=t/p";
    object_bytes = length pack_bytes;
    pack_checksum = "d";
    pack_record_count = 2;
    offset = offset;
    stored_length = 2;
    decoded_length = 2;
    codec = "none";
    checksum = "00000000";
  };
}

abbrev found : List CaptureDescriptor
found = map (descriptor pack_at) two_records.records

abbrev no_footers : FooterCache
no_footers = record { entries = []; bytes = 0 }

abbrev reader : CaptureReader
reader = record {
  codec = plain;
  decoder = decoder_of two_records;
  normal = some;
  get_by_ids = λ ids tenant watermark. some found;
  stores = bucket_store ∷ [];
  max_coalesce_gap_bytes = 4096;
  footer_cache_limit = 128;
  footer_cache_bytes_limit = 1000;
  others = λ s. no_footers;
}

abbrev both_captures : CaptureSelection
both_captures = record { capture_ids = "b" ∷ "a" ∷ []; catalog_watermark = "w"; tenant_id = "t" }

abbrev idle : Session
idle = record { requests = 0; bytes = 0; cache = no_footers; reads = 0; read_bytes = 0 }

-- What the call below returns.
abbrev returned : List HydratedCapture
returned =
    record { descriptor = at_offset "b" 128; payload = 9 ∷ 1 ∷ [] }
    ∷ record { descriptor = at_offset "a" 64; payload = 7 ∷ 8 ∷ [] }
    ∷ []

hydrates : (hydrate reader both_captures 5000 3 idle).1 ≡ given returned
unfolding hydrate Hydrating.hydrate_plans Selecting.resolve Selecting.check_ids Selecting.in_order
    Selecting.by_id Selecting.footer_bytes Plan.plan Plan.plan_of Plan.grouped Plan.enumerate
    Plan.add_to Plan.is_of Plan.sort_by_offset Plan.insert_by_offset Plan.ranges_of Plan.coalesce
    Hydrating.verify_plans Hydrating.verify_plan Hydrating.fetch_plans Hydrating.fetch_ranges
    Hydrating.fetch_range Hydrating.place Hydrating.place_at Hydrating.collect Hydrating.store_at
    Hydrating.require_matches Hydrating.require_footer_match Footers.footer_descriptors
    Footers.load_after Footers.load_footer Footers.with_cached Footers.entry_at Footers.keep_entry
    Footers.evict Footers.is_entry Footers.move_to_end Footers.bind_to_its_key
    Footers.index_descriptors Footers.budgeted_from_store Hydration.budgeted_read Hydration.consume
    Hydration.read_from Writer.write_record descriptor Writer.index_record aligned_length align
    Writer.header_parts le_bytes Model.pack_ref seal_pack Index.index_trailer unpack le_value
    Index.index_footer Reader.decode_footer Reader.parse_records Reader.is_hex_text metadata_valid
    Keys.check_tenants Keys.digest Keys.encoded Keys.first_tenant Keys.from_keys Keys.is_safe
    Keys.key_component Keys.quote Keys.quote_byte Keys.reject_a_foreign_tenant Keys.replace_tilde
    Keys.segment_belongs_to Keys.split Keys.starts_with Keys.strip_prefix Keys.tenant_segment
    Keys.utf8 Keys.utf8_char Model.bounds_valid Model.dtype_bytes Model.is_text Model.logical_bytes
    Model.metadata_eq Model.texts_valid Index.check_index_trailer Index.max_footer_read_bytes
    Reader.parse_from Reader.parse_record Reader.verify_payload Writer.body Writer.footer
    Writer.join Writer.trailer_parts
hydrates = refl

hydrate-refines_example :
    (ds : List CaptureDescriptor) × (resolve reader both_captures ≡ given ds)
    × (ids_of ds ≡ "b" ∷ "a" ∷ [])
    × (returned ≡ read_each (λ store key. pack_bytes) ds)
    × All (IsIntact plain (λ store key. pack_bytes)) ds
hydrate-refines_example =
    hydrate-refines reader (λ store key. pack_bytes) both_captures 5000 3 idle returned
      ((λ ref offset size bytes e. cc), tt) hydrates

hydrate-within_limits_example :
    ((hydrate reader both_captures 5000 3 idle).0.reads ≤ 3)
    × ((hydrate reader both_captures 5000 3 idle).0.read_bytes ≤ 5000)
hydrate-within_limits_example = hydrate-within_limits reader both_captures 5000 3 idle

hydrate-AllOwn_example : AllOwn plain returned
hydrate-AllOwn_example = hydrate-AllOwn reader both_captures 5000 3 idle returned hydrates

abbrev needed : HydrationEstimate
needed = record {
  capture_count = 2;
  object_count = 1;
  request_count = 3;
  logical_bytes = 4;
  stored_bytes = 4;
  request_bytes = 329;
}

estimates : estimate reader both_captures ≡ given needed
unfolding estimate Selecting.resolve Selecting.check_ids Selecting.in_order Selecting.by_id
    Selecting.footer_bytes Plan.plan Writer.write_record descriptor Writer.index_record
    aligned_length align Writer.header_parts le_bytes Index.max_footer_read_bytes Model.pack_ref
    seal_pack
estimates = refl

hydrate-estimated_example : (hydrate reader both_captures 329 3 idle).1 ≢ failed over_limit
hydrate-estimated_example =
    hydrate-estimated reader both_captures needed 329 3 idle estimates (omega arith) (omega arith)

no_footers-IsBounded : IsBounded reader no_footers
no_footers-IsBounded = record { counted = refl; packs = omega arith; within = omega arith }

hydrate-IsBounded_example : IsBounded reader (hydrate reader both_captures 5000 3 idle).0.cache
hydrate-IsBounded_example =
    hydrate-IsBounded reader both_captures 5000 3 idle (λ s. no_footers-IsBounded)
      no_footers-IsBounded

plan-IsPlan_example : All (IsPlan 8) (plan 8 found)
plan-IsPlan_example = plan-IsPlan 8 found

plan-Perm_example : Perm (planned (plan 8 found)) (enumerate 0 found)
plan-Perm_example = plan-Perm 8 found

key_component-injective_example : ◌≡◌ {A = List ℕ} (codes "t") (codes "t")
key_component-injective_example =
    key_component-injective plain (codes "t") (codes "t") (codes-IsCode "t") (codes-IsCode "t")
      (λ e. refl) refl

-- Digests of 64 digits.
abbrev hex_codec : Codec
hex_codec = record plain {
  hexdigest = λ bytes. "0000000000000000000000000000000000000000000000000000000000000000";
}

reject-object_key_iff_example :
    (reject_a_foreign_tenant hex_codec
        (object_key_for hex_codec (λ d. codes "2026-01-01") (metadata_of "a") "p")
        (codes "t" ∷ [])
      ≡ ok tt)
    ↔ All (λ (u : String). u ≡ "t") ("t" ∷ [])
unfolding Keys.digest
reject-object_key_iff_example =
    reject-object_key_iff hex_codec (λ d. codes "2026-01-01") (metadata_of "a") "p" ("t" ∷ []) refl
      ((λ e. refl), tt)

abbrev in_any_order : CaptureReader
in_any_order = record reader {
  get_by_ids = λ ids tenant watermark. some (at_offset "a" 64 ∷ at_offset "b" 128 ∷ []);
}

abbrev one_page : CapturePage
one_page = record {
  items = at_offset "b" 128 ∷ at_offset "a" 64 ∷ [];
  next_cursor = none;
  watermark = "w";
}

selects : select (some one_page) ≡ given both_captures
unfolding select Selecting.create Selecting.check_ids Model.is_text
selects = refl

resolve-select_example :
    (resolve in_any_order both_captures ≡ given one_page.items)
    × All (λ (d : CaptureDescriptor). d.metadata.tenant_id ≡ "t") one_page.items
resolve-select_example =
    resolve-select in_any_order one_page both_captures (at_offset "a" 64 ∷ at_offset "b" 128 ∷ [])
      selects refl (Perm.swap _ _ _)

abbrev first_position : CursorKey
first_position = record {
  tenant_id = codes "t";
  experiment_id = codes "e";
  run_id = codes "r";
  captured_at_ns = 5;
  capture_id = codes "a";
}

abbrev written : List ℕ
written = 123 ∷ 125 ∷ 10 ∷ 200 ∷ []

encodes : encode_cursor (λ j. written) first_position 3 (codes "h") ≡ some (base64 written)
unfolding encode_cursor Cursor.uint64 Cursor.text_of base64 Cursor.char_of
encodes = refl

decode-encode_example :
    decode_cursor
      (λ bytes. some (payload_of first_position 3 (codes "h")))
      (base64 written)
      (codes "h")
      7
    ≡ some (record { version = 1; watermark = 3; filter_hash = codes "h"; key = first_position })
decode-encode_example =
    decode-encode (λ j. written) (λ bytes. some (payload_of first_position 3 (codes "h")))
      first_position 3 7 (codes "h") (base64 written)
      (omega arith, (omega arith, (omega arith, (omega arith, tt)))) (omega arith) refl
      (omega arith) encodes

decode-respell_example :
    (respell 1 written ≢ base64 written)
    × (decode_cursor (λ bytes. none) (respell 1 written) (codes "h") 7
        ≡ decode_cursor (λ bytes. none) (base64 written) (codes "h") 7)
decode-respell_example =
    decode-respell (λ bytes. none) 1 written (codes "h") 7
      (omega arith, (omega arith, (omega arith, (omega arith, tt)))) (omega arith) (omega arith)
      refl

-- ===== src/Samples.antt =====
-- Concrete captures, codecs, queues, packs, writers and stores, for the examples.
use dmi.Base.{
  Bool, String, [], false, if◌then◌else◌, length, none, replicate, some, str_eq, true, ℕ, ◌+◌, ◌∷◌,
}
use dmi.Model.{CaptureMetadata, CaptureRecord, global, CaptureDescriptor, PackRef}
use dmi.Pack.Writer.{Codec, PackWriter, IndexedRecord}
use dmi.Pack.Writer
use dmi.Pack.Reader.{Decoder}
use dmi.Queue.{Queue}
use dmi.Assembler.{Assembler, OpenPack}
use dmi.Assembler
use dmi.Queue.{drop_newest, never}
use dmi.Pipeline.{PipelineConfig, Pipeline, after_none, fresh}
use dmi.Catalog.{returns, raises, publish_race}
use dmi.Catalog.Writer.{CatalogWriter, IndexerState, Trace, published}
use dmi.Catalog.Publish.{IndexerConfig}
use dmi.Catalog.Indexing.{PackInventory, holds, fails}

abbrev pub metadata_of : String → CaptureMetadata
metadata_of id = record {
  capture_id = id;
  tenant_id = "t";
  experiment_id = "e";
  run_id = "r";
  session_id = "s";
  request_id = "q";
  sequence_id = "0";
  model_id = "m";
  model_revision = "1";
  adapter_revision = none;
  capture_policy_version = "1";
  hook_name = "h";
  layer_number = global;
  producer_rank = 0;
  step_number = 0;
  token_start = 0;
  token_end = 1;
  batch_position = 0;
  dtype = "uint8";
  shape = 2 ∷ [];
  captured_at_ns = 5;
}

abbrev pub first : CaptureRecord
first = record { metadata = metadata_of "a"; payload = 7 ∷ 8 ∷ [] }

abbrev pub second : CaptureRecord
second = record { metadata = metadata_of "b"; payload = 9 ∷ 1 ∷ [] }

abbrev pub huge : CaptureRecord
huge = record { metadata = metadata_of "c"; payload = replicate 300 0 }

abbrev pub plain : Codec
plain = record {
  encode_record = λ x. 1 ∷ [];
  footer_prefix = λ id created. 2 ∷ [];
  footer_suffix = λ id created. 3 ∷ [];
  crc32 = λ bytes. length bytes;
  crc_text = λ n. "00000000";
  sha256 = λ bytes. replicate 32 0;
  hexdigest = λ bytes. "d";
  uuid_bytes = λ id. replicate 16 0;
}

-- A decoder that knows the one pack.
abbrev pub decoder_of : PackWriter → Decoder
decoder_of w = record {
  json = λ bytes. some (record {
    format = "dmi-pack";
    major_version = 1;
    minor_version = 0;
    pack_id = w.pack_id;
    created_at_ns = w.created_at_ns;
    records = w.records;
  });
  uuid_text = λ bytes. w.pack_id;
}

abbrev pub empty_writer : PackWriter
empty_writer = Writer.fresh plain "p" 5 500 2

abbrev pub one_record : PackWriter
one_record = Writer.write_record plain empty_writer first

abbrev pub two_records : PackWriter
two_records = Writer.write_record plain one_record second

abbrev pub where_stored : PackRef
where_stored = record {
  pack_id = "p";
  store_id = "s";
  object_key = "k";
  object_bytes = 300;
  checksum = "d";
  record_count = 2;
}

abbrev pub idle_assembler : Assembler
idle_assembler = record {
  max_pack_bytes = 300;
  max_records = 2;
  max_linger_ns = 10;
  factory = λ n. "p";
  made = 0;
  current = none;
}

-- `first`, appended at time 1.
abbrev pub started_pack : OpenPack
started_pack = record {
  writer = Writer.write_record plain (Writer.fresh plain "p" 5 300 2) first;
  first_metadata = first.metadata;
  scope = Assembler.record_scope first;
  opened_ns = 1;
}

abbrev pub busy_assembler : Assembler
busy_assembler = record {
  max_pack_bytes = 300;
  max_records = 2;
  max_linger_ns = 10;
  factory = λ n. "p";
  made = 1;
  current = some started_pack;
}

abbrev pub empty_queue : Queue
empty_queue = record {
  max_records = 1;
  max_bytes = 4;
  items = [];
  records = 0;
  bytes = 0;
  peak_records = 0;
  peak_bytes = 0;
  is_closed = false;
}

abbrev pub versions : Trace → ℕ
versions t = length t + 1

-- The first publish loses the race, later ones succeed.
abbrev pub has_published : Trace → Bool
has_published [] = false
has_published (published v refs rows a ∷ t) = true
has_published (c ∷ t) = has_published t

abbrev pub racing : CatalogWriter
racing = record {
  allocate_version = λ t. returns (versions t);
  last_published_version = λ t. returns 0;
  write_descriptors = λ t ds v. returns tt;
  publish_snapshot = λ t v refs rows. if has_published t then returns tt else raises publish_race;
  commit_packs = λ t refs v. returns tt;
  committed_pack_ids = λ t ids. returns [];
  holds_lease = λ t. true;
  clock_ns = λ t. some 0;
}

abbrev pub small_config : IndexerConfig
small_config = record {
  max_packs = 4;
  max_rows_per_insert = 1;
  max_estimated_bytes = 100;
  max_failure_details = 1;
  max_publish_attempts = 3;
}

abbrev pub new_indexer : IndexerState
new_indexer = record { published_version = none; trace = [] }

abbrev pub described : String → CaptureDescriptor
described id = record {
  metadata = metadata_of id;
  locator = record {
    pack_id = "p";
    store_id = "s";
    object_key = "k";
    object_bytes = 300;
    pack_checksum = "d";
    pack_record_count = 2;
    offset = 64;
    stored_length = 2;
    decoded_length = 2;
    codec = "none";
    checksum = "00000000";
  };
}

-- One page: a pack of two captures and an object that is no pack.
abbrev pub one_page : PackInventory
one_page = record {
  descriptors_of = λ ref. holds (described "a" ∷ described "b" ∷ []);
  inspect = λ key. if str_eq key "k" then holds where_stored else fails "PackFormatError";
  list_objects = λ t prefix cursor limit.
      returns (record { object_keys = "k" ∷ "x" ∷ []; next_cursor = none });
}

abbrev pub capture_config : PipelineConfig
capture_config = record {
  max_queue_records = 2;
  max_queue_bytes = 8;
  max_pack_bytes = 300;
  max_pack_records = 2;
  max_linger_ns = 10;
  overload_policy = drop_newest;
  admission_timeout = never;
}

abbrev pub new_pipeline : Pipeline
new_pipeline =
    fresh capture_config (record empty_queue { max_records = 2; max_bytes = 8 }) idle_assembler

abbrev pub started_pipeline : Pipeline
started_pipeline = record new_pipeline { started = true }

-- Its worker's `get` has answered None.
abbrev pub idle_pipeline : Pipeline
idle_pipeline = record started_pipeline { phase = after_none }

-- It has `first` in its open pack.
abbrev pub busy_pipeline : Pipeline
busy_pipeline = record started_pipeline { assembler = busy_assembler }

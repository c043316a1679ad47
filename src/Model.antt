-- ===== src/Model.antt =====
-- src/dmi/storage/capture/model.py: the values that the capture store passes around.
-- Python's `int` fields that `CaptureMetadata` holds to be non-negative are natural numbers here;
-- the refusal of a negative one has no counterpart. A payload is its list of bytes.
use dmi.Base.{
  Bool, List, Option, String, [], false, if◌then◌else◌, is_some, leb, length, ltb, none, some,
  str_eq, true, ℕ, ◌&&◌, ◌*◌, ◌-◌, ◌==◌, ◌^◌, ◌||◌, ◌∷◌,
}
use Prim.Native.String.{len}

-- `layer_number` alone may be -1.
pub data Layer : Type 0 where
  global : Layer
  layer : ℕ → Layer

pub record CaptureMetadata : Type 0 where
  pub capture_id : String
  pub tenant_id : String
  pub experiment_id : String
  pub run_id : String
  pub session_id : String
  pub request_id : String
  pub sequence_id : String
  pub model_id : String
  pub model_revision : String
  pub adapter_revision : Option String
  pub capture_policy_version : String
  pub hook_name : String
  pub layer_number : Layer
  pub producer_rank : ℕ
  pub step_number : ℕ
  pub token_start : ℕ
  pub token_end : ℕ
  pub batch_position : ℕ
  pub dtype : String
  pub shape : List ℕ
  pub captured_at_ns : ℕ

abbrev pub layer_eq : Layer → Layer → Bool
layer_eq global global = true
layer_eq global (layer n) = false
layer_eq (layer m) global = false
layer_eq (layer m) (layer n) = m == n

abbrev pub optional_eq : Option String → Option String → Bool
optional_eq none none = true
optional_eq none (some t) = false
optional_eq (some s) none = false
optional_eq (some s) (some t) = str_eq s t

abbrev pub shape_eq : List ℕ → List ℕ → Bool
shape_eq [] [] = true
shape_eq [] (e ∷ es) = false
shape_eq (d ∷ ds) [] = false
shape_eq (d ∷ ds) (e ∷ es) = d == e && shape_eq ds es

-- The `==` of a dataclass: field by field.
unfoldable pub metadata_eq : CaptureMetadata → CaptureMetadata → Bool
metadata_eq a b =
    str_eq a.capture_id b.capture_id
    && str_eq a.tenant_id b.tenant_id
    && str_eq a.experiment_id b.experiment_id
    && str_eq a.run_id b.run_id
    && str_eq a.session_id b.session_id
    && str_eq a.request_id b.request_id
    && str_eq a.sequence_id b.sequence_id
    && str_eq a.model_id b.model_id
    && str_eq a.model_revision b.model_revision
    && optional_eq a.adapter_revision b.adapter_revision
    && str_eq a.capture_policy_version b.capture_policy_version
    && str_eq a.hook_name b.hook_name
    && layer_eq a.layer_number b.layer_number
    && a.producer_rank == b.producer_rank
    && a.step_number == b.step_number
    && a.token_start == b.token_start
    && a.token_end == b.token_end
    && a.batch_position == b.batch_position
    && str_eq a.dtype b.dtype
    && shape_eq a.shape b.shape
    && a.captured_at_ns == b.captured_at_ns

-- `_DTYPE_BYTES`; `none` is an unsupported dtype.
unfoldable pub dtype_bytes : String → Option ℕ
dtype_bytes d =
    if str_eq d "bool"
      || str_eq d "uint8"
      || str_eq d "int8"
      || str_eq d "float8_e4m3fn"
      || str_eq d "float8_e5m2"
    then some 1
    else if str_eq d "uint16" || str_eq d "int16" || str_eq d "float16" || str_eq d "bfloat16"
    then some 2
    else if str_eq d "int32" || str_eq d "uint32" || str_eq d "float32"
    then some 4
    else if str_eq d "int64" || str_eq d "float64"
    then some 8
    else none

-- `math.prod`
abbrev pub prod : List ℕ → ℕ
prod [] = 1
prod (d ∷ ds) = d * prod ds

-- `logical_bytes`; the `KeyError` of an unknown dtype cannot arise once the metadata is checked.
unfoldable pub logical_bytes : CaptureMetadata → ℕ
unfolding dtype_bytes
logical_bytes m = elim (dtype_bytes m.dtype) [ none ↦ 0 | some width ↦ prod m.shape * width ]

abbrev pub text_limit : ℕ
text_limit = 512

-- `_validate_text` of a required and of an optional field; `len` counts bytes of UTF-8.
unfoldable pub is_text : ℕ → String → Bool
is_text limit s = ltb 0 (len s) && leb (len s) limit

abbrev pub is_optional_text : Option String → Bool
is_optional_text none = true
is_optional_text (some s) = is_text text_limit s

abbrev pub all_dims : List ℕ → Bool
all_dims [] = true
all_dims (d ∷ ds) = leb d (2 ^ 31 - 1) && all_dims ds

abbrev pub is_layer : Layer → Bool
is_layer global = true
is_layer (layer n) = leb n (2 ^ 31 - 1)

-- The eleven required texts.
unfoldable pub texts_valid : CaptureMetadata → Bool
unfolding is_text
texts_valid m =
    is_text text_limit m.capture_id
    && is_text text_limit m.tenant_id
    && is_text text_limit m.experiment_id
    && is_text text_limit m.run_id
    && is_text text_limit m.session_id
    && is_text text_limit m.request_id
    && is_text text_limit m.sequence_id
    && is_text text_limit m.model_id
    && is_text text_limit m.model_revision
    && is_text text_limit m.capture_policy_version
    && is_text text_limit m.hook_name

-- The upper bounds of the integer fields.
unfoldable pub bounds_valid : CaptureMetadata → Bool
bounds_valid m =
    leb m.producer_rank (2 ^ 32 - 1)
    && leb m.batch_position (2 ^ 32 - 1)
    && leb m.step_number (2 ^ 64 - 1)
    && leb m.token_start (2 ^ 64 - 1)
    && leb m.token_end (2 ^ 64 - 1)
    && leb m.captured_at_ns (2 ^ 64 - 1)

-- `CaptureMetadata.__post_init__`: whether it raises no `ValueError`.
unfoldable pub metadata_valid : CaptureMetadata → Bool
unfolding texts_valid bounds_valid dtype_bytes
metadata_valid m =
    texts_valid m
    && is_optional_text m.adapter_revision
    && is_some (dtype_bytes m.dtype)
    && leb (length m.shape) 32
    && all_dims m.shape
    && bounds_valid m
    && is_layer m.layer_number
    && leb m.token_start m.token_end

pub record CaptureRecord : Type 0 where
  pub metadata : CaptureMetadata
  pub payload : List ℕ

-- `CaptureRecord.__post_init__`: whether it raises no `ValueError`.
unfoldable pub record_valid : CaptureRecord → Bool
unfolding logical_bytes
record_valid r = length r.payload == logical_bytes r.metadata

pub record PackRef : Type 0 where
  pub pack_id : String
  pub store_id : String
  pub object_key : String
  pub object_bytes : ℕ
  pub checksum : String
  pub record_count : ℕ

pub record PayloadLocator : Type 0 where
  pub pack_id : String
  pub store_id : String
  pub object_key : String
  pub object_bytes : ℕ
  pub pack_checksum : String
  pub pack_record_count : ℕ
  pub offset : ℕ
  pub stored_length : ℕ
  pub decoded_length : ℕ
  pub codec : String
  pub checksum : String

-- `PayloadLocator.pack_ref`
unfoldable pub pack_ref : PayloadLocator → PackRef
pack_ref l = record {
  pack_id = l.pack_id;
  store_id = l.store_id;
  object_key = l.object_key;
  object_bytes = l.object_bytes;
  checksum = l.pack_checksum;
  record_count = l.pack_record_count;
}

pub record CaptureDescriptor : Type 0 where
  pub metadata : CaptureMetadata
  pub locator : PayloadLocator

-- ===== src/Assembler.antt =====
-- `PackAssembler` of src/dmi/storage/capture/pipeline.py.
-- `_writer`, `_first_metadata`, `_scope` and `_opened_ns` are set and reset together: they are one
-- optional record here. A method returns the new state beside its answer, which may be a raise:
-- what was written before the raise stays written. `pack_id_factory` is a sequence of identifiers,
-- of which `made` have been drawn.
pub mod Contents
pub mod Conservation
pub mod Appending
pub mod Failures
pub mod Limits
use dmi.Base.{
  Bool, List, Option, String, [], false, if◌then◌else◌, leb, length, none, some, str_eq, ℕ, ◌&&◌,
  ◌++◌, ◌+◌, ◌-◌, ◌==◌, ◌||◌, ◌∷◌,
}
use dmi.Model.{CaptureMetadata, CaptureRecord}
use dmi.Pack.Writer
use dmi.Pack.Writer.{Codec, PackWriter, SealedPack, WriteError, over_capacity, duplicate_capture}

pub data FlushReason : Type 0 where
  size records linger session manual shutdown : FlushReason

pub record ReadyPack : Type 0 where
  pub pack : SealedPack
  pub first_metadata : CaptureMetadata
  pub reason : FlushReason

-- `_record_scope`: tenant, session and producer rank.
pub record Scope : Type 0 where
  pub tenant_id : String
  pub session_id : String
  pub producer_rank : ℕ

unfoldable pub record_scope : CaptureRecord → Scope
record_scope r = record {
  tenant_id = r.metadata.tenant_id;
  session_id = r.metadata.session_id;
  producer_rank = r.metadata.producer_rank;
}

abbrev pub scope_eq : Scope → Scope → Bool
scope_eq a b =
    str_eq a.tenant_id b.tenant_id
    && str_eq a.session_id b.session_id
    && a.producer_rank == b.producer_rank

pub record OpenPack : Type 0 where
  pub writer : PackWriter
  pub first_metadata : CaptureMetadata
  pub scope : Scope
  pub opened_ns : ℕ

pub record Assembler : Type 0 where
  pub max_pack_bytes : ℕ
  pub max_records : ℕ
  pub max_linger_ns : ℕ
  pub factory : ℕ → String
  pub made : ℕ
  pub current : Option OpenPack

-- What a method raises: `OversizedRecordError`, `DuplicateCaptureError`, or a `ValueError` or
-- `RuntimeError` of the writer.
pub data Failure : Type 0 where
  oversized duplicate : Failure
  writer_failed : WriteError → Failure

pub data Answer {ℓ} (A : Type ℓ) : Type ℓ where
  returns : A → Answer A
  raises : Failure → Answer A

-- `__init__`; `none` is the `ValueError`.
unfoldable pub new : ℕ → ℕ → ℕ → (ℕ → String) → Option Assembler
new max_pack_bytes max_records max_linger_ns factory =
    if max_pack_bytes == 0 || max_records == 0 || max_linger_ns == 0
    then none
    else some (record {
      max_pack_bytes = max_pack_bytes;
      max_records = max_records;
      max_linger_ns = max_linger_ns;
      factory = factory;
      made = 0;
      current = none;
    })

-- `PackCapacityError` is caught where it can arise.
abbrev pub failure_of : WriteError → Failure
failure_of duplicate_capture = duplicate
failure_of e = writer_failed e

-- The rest of a method, run if the part before it raised nothing. What that part emitted is lost if
-- the rest raises.
abbrev pub prepend :
    List ReadyPack → Assembler × Answer (List ReadyPack) → Assembler × Answer (List ReadyPack)
prepend emitted (a, raises e) = (a, raises e)
prepend emitted (a, returns more) = (a, returns (emitted ++ more))

infixl 5 ◌then_do◌
abbrev pub ◌then_do◌ :
    Assembler × Answer (List ReadyPack)
    → (Assembler → Assembler × Answer (List ReadyPack))
    → Assembler × Answer (List ReadyPack)
(a, raises e) then_do f = (a, raises e)
(a, returns emitted) then_do f = prepend emitted (f a)

module _ (c : Codec) where
  abbrev pub admitted_first : Writer.Result PackWriter → Answer PackWriter
  admitted_first (Writer.ok w) = returns w
  admitted_first (Writer.err over_capacity) = raises oversized
  admitted_first (Writer.err e) = raises (failure_of e)

  -- The first `append` to the writer that `_writer_with` makes.
  unfoldable pub first_append : Writer.Result PackWriter → CaptureRecord → Answer PackWriter
  first_append (Writer.err e) r = raises (writer_failed e)
  first_append (Writer.ok w) r = admitted_first (Writer.append c w r)

  -- `_writer_with` draws an identifier, also where it raises.
  unfoldable pub writer_with : Assembler → CaptureRecord → Assembler × Answer PackWriter
  unfolding first_append
  writer_with a r = (
    record a { made = a.made + 1 },
    first_append
        (Writer.new c (a.factory a.made) r.metadata.captured_at_ns a.max_pack_bytes a.max_records)
        r,
  )

  -- `_adopt`
  unfoldable pub adopt : Assembler → PackWriter → CaptureRecord → ℕ → Assembler
  unfolding record_scope
  adopt a w r now_ns = record a {
    current = some (record {
      writer = w;
      first_metadata = r.metadata;
      scope = record_scope r;
      opened_ns = now_ns;
    });
  }

  unfoldable pub sealed_pack :
      Assembler
      → OpenPack
      → FlushReason
      → Writer.Result (SealedPack × PackWriter)
      → Assembler × Answer (List ReadyPack)
  sealed_pack a o reason (Writer.err e) = (a, raises (writer_failed e))
  sealed_pack a o reason (Writer.ok (pack, w)) = (
    record a { current = none },
    returns (record { pack = pack; first_metadata = o.first_metadata; reason = reason } ∷ []),
  )

  unfoldable pub flush : Assembler → FlushReason → Assembler × Answer (List ReadyPack)
  unfolding sealed_pack
  flush a reason = elim a.current [
    | none ↦ (a, returns [])
    | some o ↦ sealed_pack a o reason (Writer.seal c o.writer)
  ]

  -- The age of the open pack has reached `max_linger_ns`.
  abbrev pub is_expired : Assembler → Option OpenPack → ℕ → Bool
  is_expired a none now_ns = false
  is_expired a (some o) now_ns = leb (o.opened_ns + a.max_linger_ns) now_ns

  unfoldable pub flush_expired : Assembler → ℕ → Assembler × Answer (List ReadyPack)
  flush_expired a now_ns = if is_expired a a.current now_ns then flush a linger else (a, returns [])

  unfoldable pub flush_full : Assembler → Option OpenPack → Assembler × Answer (List ReadyPack)
  flush_full a none = (a, returns [])
  flush_full a (some o) =
      if leb a.max_records (length o.writer.records) then flush a records else (a, returns [])

  unfoldable pub flush_if_full : Assembler → Assembler × Answer (List ReadyPack)
  unfolding flush_full
  flush_if_full a = flush_full a a.current

  abbrev pub adopt_new :
      Assembler × Answer PackWriter → CaptureRecord → ℕ → Assembler × Answer (List ReadyPack)
  adopt_new (a, raises e) r now_ns = (a, raises e)
  adopt_new (a, returns w) r now_ns = (adopt a w r now_ns, returns [])

  -- The new writer is made before the old pack is flushed.
  abbrev pub replace_with :
      FlushReason
      → Assembler × Answer PackWriter
      → CaptureRecord
      → ℕ
      → Assembler × Answer (List ReadyPack)
  replace_with reason (a, raises e) r now_ns = (a, raises e)
  replace_with reason (a, returns w) r now_ns =
      flush a reason then_do λ b. (adopt b w r now_ns, returns [])

  -- `self._writer.append(record)` and its `except PackCapacityError`.
  unfoldable pub append_same :
      Assembler
      → OpenPack
      → Writer.Result PackWriter
      → CaptureRecord
      → ℕ
      → Assembler × Answer (List ReadyPack)
  append_same a o (Writer.ok w) r now_ns =
      (record a { current = some (record o { writer = w }) }, returns [])
  append_same a o (Writer.err over_capacity) r now_ns =
      replace_with (if leb a.max_records (length o.writer.records) then records else size)
        (writer_with a r) r now_ns
  append_same a o (Writer.err e) r now_ns = (a, raises (failure_of e))

  unfoldable pub append_to :
      Assembler → Option OpenPack → CaptureRecord → ℕ → Assembler × Answer (List ReadyPack)
  unfolding append_same
  append_to a none r now_ns = adopt_new (writer_with a r) r now_ns
  append_to a (some o) r now_ns =
      if scope_eq (record_scope r) o.scope
      then append_same a o (Writer.append c o.writer r) r now_ns
      else replace_with session (writer_with a r) r now_ns

  unfoldable pub append_current :
      Assembler → CaptureRecord → ℕ → Assembler × Answer (List ReadyPack)
  unfolding append_to
  append_current a r now_ns = append_to a a.current r now_ns

  unfoldable pub append : Assembler → CaptureRecord → ℕ → Assembler × Answer (List ReadyPack)
  append a r now_ns =
      flush_expired a now_ns then_do λ b. (append_current b r now_ns then_do flush_if_full)

  -- `seconds_until_expiry`, in nanoseconds.
  unfoldable pub until_expiry : Assembler → ℕ → Option ℕ
  until_expiry a now_ns = elim a.current [
    | none ↦ none
    | some o ↦ some (o.opened_ns + a.max_linger_ns - now_ns)
  ]

-- ===== src/Examples.antt =====
-- The theorems at concrete inputs.
use dmi.Base.{List, [], arith, false, length, none, refl, true, ℕ, ◌++◌, ◌+◌, ◌↔◌, ◌∷◌, ◌≡◌, ◌≤◌}
use dmi.Model.{CaptureRecord, metadata_valid, record_valid}
use dmi.Pack.Writer.{PackWriter, seal, seal_pack, body}
use dmi.Pack.Writer
use dmi.Pack.Writer.Sealing.{append_all, appended_seals}
use dmi.Pack.Writer.Layout.{Holds, started, added}
use dmi.Pack.Reader.{ok, PackReader, from_bytes, is_hex_text}
use dmi.Pack.Records.{IsValid}
use dmi.Pack.RoundTrip.{IsFaithful}
use dmi.Pack.Reading.{sealed-ReadsBack, ReadsBack}
use dmi.Queue.{Queue, capture, put, drop_newest, never, returns, accepted, close, get}
use dmi.Queue
use dmi.Queue.Calls.{Call, puts, gets, closes, run, step, all_pushed, all_taken}
use dmi.Queue.Invariant.{IsAccounted, run-new-IsAccounted}
use dmi.Queue.Fifo.{run_fifo}
use dmi.Queue.Admission.{put_accepts_iff, drain_then_put, close_drains}
use dmi.Assembler.{ReadyPack, records, oversized, duplicate, is_expired}
use dmi.Assembler
use dmi.Assembler.Contents.{Contains, busy, Emits}
use dmi.Assembler.Appending.{append_conserves}
use dmi.Assembler.Failures.{append_raise_keeps, expired_pack_lost, append_bounds_linger}
use dmi.Catalog.Order.{Ends, IsOrdered}
use dmi.Catalog.Publish.{
  publish_batch, config_valid, head_of, cached_head, write_from, conflict_after, on_conflict,
  stamped, clock_checked, rewrite_at, after_publish, publish_then, publish_loop, write_and_publish,
  allocate_version, write_batches,
}
use dmi.Catalog.Publishing.{Done, publish_batch-IsOrdered}
use dmi.Catalog.Indexing.{
  IndexResult, rebuild, index_object_keys, reconcile_page, index, merge, mem_identity, pending,
  mem_key, distinct, read_into, gather, ask_committed, finish, index_pending, inspected,
  inspect_all, with_rejected, next_page, rebuild_from,
}
use dmi.Catalog.{identity}
use dmi.Pack.Bytes.{align, aligned_length, le_bytes}
use dmi.Catalog.Writer.{allocate, last_published, write, publish, commit, committed_ids, lease_held}
use dmi.Catalog.Partition.{
  partition_refs, current, mem_ref, add_claimant, claim_with, claim, claim_all, is_conflicted,
  unconflicted, conflict_failures,
}
use dmi.Catalog.Balance.{IsBalanced, rebuild-IsBalanced}
use dmi.Samples.{
  first, second, huge, plain, decoder_of, empty_writer, one_record, two_records, where_stored,
  started_pack, idle_assembler, busy_assembler, empty_queue, racing, small_config, new_indexer,
  described, one_page,
}

abbrev both : List CaptureRecord
both = first ∷ second ∷ []

empty-Holds : Holds plain empty_writer []
unfolding Writer.new
empty-Holds = started "p" 5 500 2 refl

one-Holds : Holds plain one_record (first ∷ [])
unfolding Writer.append Writer.write_record Writer.index_record Writer.projected_footer
    aligned_length align Writer.header_parts le_bytes
one-Holds = added first empty-Holds refl refl

two-Holds : Holds plain two_records both
unfolding Writer.append Writer.write_record Writer.index_record Writer.projected_footer
    aligned_length align Writer.header_parts le_bytes
two-Holds = added second one-Holds refl refl

faithful : IsFaithful plain (decoder_of two_records) two_records
unfolding is_hex_text
faithful = record {
  uuid_16 = λ id. refl;
  sha_32 = λ bytes. refl;
  crc_hex = λ n. refl;
  uuid_back = refl;
  json_back = refl;
}

first-IsValid : IsValid first
unfolding metadata_valid record_valid
first-IsValid = record { metadata_ok = refl; payload_ok = refl }

second-IsValid : IsValid second
unfolding metadata_valid record_valid
second-IsValid = record { metadata_ok = refl; payload_ok = refl }

sealed-ReadsBack_example :
    (p : PackReader) × (seal plain two_records
      ≡ Writer.ok
          (seal_pack plain two_records, record two_records { buffer = p.bytes; sealed = true }))
    × (length p.bytes ≤ 500)
    × (from_bytes plain (decoder_of two_records) (seal_pack plain two_records).bytes ≡ ok p)
    × (p.pack_id ≡ "p")
    × (p.object_checksum ≡ (seal_pack plain two_records).checksum)
    × ReadsBack plain p where_stored two_records.records both
unfolding Writer.write_record
sealed-ReadsBack_example =
    sealed-ReadsBack plain (decoder_of two_records) two_records both where_stored faithful two-Holds
      (omega arith) (first-IsValid, (second-IsValid, tt)) (omega arith) (omega arith) refl

appended_seals_example :
    (seal plain two_records
      ≡ Writer.ok (
        seal_pack plain two_records,
        record two_records { buffer = (seal_pack plain two_records).bytes; sealed = true },
      ))
    × (length (seal_pack plain two_records).bytes ≤ 500)
    × ((seal_pack plain two_records).record_count ≡ 2)
unfolding append_all Writer.append Writer.write_record Writer.index_record Writer.projected_footer
    Writer.new aligned_length align Writer.header_parts le_bytes
appended_seals_example =
    appended_seals plain "p" 5 500 2 both empty_writer two_records (λ bytes. refl) refl refl
      (omega arith)

abbrev calls : List Call
calls =
    puts first drop_newest never 0 0
    ∷ puts second drop_newest never 0 0
    ∷ gets never 0 0
    ∷ closes
    ∷ []

run_fifo_example :
    empty_queue.items ++ all_pushed empty_queue calls
    ≡ all_taken empty_queue calls ++ (run empty_queue calls).items
run_fifo_example = run_fifo empty_queue calls

run-new-IsAccounted_example : IsAccounted (run empty_queue calls)
unfolding Queue.new
run-new-IsAccounted_example = run-new-IsAccounted 1 4 empty_queue calls refl

empty_queue-IsAccounted : IsAccounted empty_queue
unfolding Queue.new run
empty_queue-IsAccounted = run-new-IsAccounted 1 4 empty_queue [] refl

put_accepts_iff_example :
    ((put empty_queue first drop_newest never 0 0).1 ≡ returns accepted)
    ↔ ((false ≡ false) × (0 + 1 ≤ 1) × (0 + 2 ≤ 4))
put_accepts_iff_example =
    put_accepts_iff empty_queue first drop_newest never 0 0 empty_queue-IsAccounted refl

-- It has no room for another record.
abbrev full_queue : Queue
full_queue = record empty_queue {
  items = capture second ∷ [];
  records = 1;
  bytes = 2;
  peak_records = 1;
  peak_bytes = 2;
}

full_queue-IsAccounted : IsAccounted full_queue
unfolding Queue.new run step put Queue.admit Queue.fits
full_queue-IsAccounted =
    run-new-IsAccounted 1 4 empty_queue (puts second drop_newest never 0 0 ∷ []) refl

drain_then_put_example :
    (put (run full_queue (gets never 0 0 ∷ [])) first drop_newest never 0 0).1 ≡ returns accepted
drain_then_put_example =
    drain_then_put full_queue first drop_newest 0 0 full_queue-IsAccounted refl (omega arith)
      (omega arith)

close_drains_example :
    (all_pushed (close empty_queue) calls ≡ [])
    × ((run (close empty_queue) calls).is_closed ≡ true)
    × (all_taken (close empty_queue) [] ≡ [])
    × ((get (run (close empty_queue) []) never 0 0).1 ≡ returns none)
close_drains_example = close_drains empty_queue calls never 0 0 refl

started-Holds : Holds plain started_pack.writer (first ∷ [])
unfolding Writer.new Writer.append Writer.write_record Writer.index_record Writer.projected_footer
    aligned_length align Writer.header_parts le_bytes
started-Holds = added first (started "p" 5 300 2 refl) refl refl

pub busy-Contains : Contains plain busy_assembler (first ∷ [])
unfolding Writer.write_record Assembler.record_scope
busy-Contains = busy started_pack refl (record {
  holds = started-Holds;
  some_record = omega arith;
  one_scope = (refl, tt);
  first_is = (first, [], refl, refl);
  limit = refl;
  bounded = omega arith;
})

abbrev full_pack : List ReadyPack
full_pack =
    record {
      pack = seal_pack plain (Writer.write_record plain started_pack.writer second);
      first_metadata = first.metadata;
      reason = records;
    }
    ∷ []

append_conserves_example :
    (xs : List CaptureRecord) × (ys : List CaptureRecord) × Emits plain 2 full_pack xs
    × Contains plain (record busy_assembler { current = none }) ys
    × (both ≡ xs ++ ys)
    × (◌≡◌ {A = ℕ} 2 2)
unfolding Writer.append Writer.write_record Writer.index_record Writer.projected_footer
    aligned_length align Writer.header_parts le_bytes Writer.new Writer.seal Writer.seal_pack
    Writer.body Writer.footer Writer.trailer_parts Writer.join Assembler.append Assembler.flush
    Assembler.sealed_pack Assembler.flush_full Assembler.append_same Assembler.append_to
    Assembler.append_current Assembler.flush_expired Assembler.flush_if_full Assembler.writer_with
    Assembler.first_append Assembler.adopt Assembler.record_scope
append_conserves_example =
    append_conserves plain (λ id. refl) (λ bytes. refl) busy_assembler
      (record busy_assembler { current = none }) (first ∷ []) second 2 full_pack busy-Contains refl

append_raise_keeps_example : busy_assembler.current ≡ busy_assembler.current
unfolding Writer.append Writer.write_record Writer.index_record Writer.projected_footer
    aligned_length align Writer.header_parts le_bytes Writer.new Writer.seal Writer.seal_pack
    Writer.body Writer.footer Writer.trailer_parts Writer.join Assembler.append Assembler.flush
    Assembler.sealed_pack Assembler.flush_full Assembler.append_same Assembler.append_to
    Assembler.append_current Assembler.flush_expired Assembler.flush_if_full Assembler.writer_with
    Assembler.first_append Assembler.adopt Assembler.record_scope
append_raise_keeps_example =
    append_raise_keeps plain (λ id. refl) (λ bytes. refl) busy_assembler busy_assembler (first ∷ [])
      first 2 duplicate busy-Contains refl refl

expired_pack_lost_example :
    (b : Assembler.Assembler) × (Assembler.append plain busy_assembler huge 20
      ≡ (b, Assembler.raises oversized))
    × (b.current ≡ none)
unfolding Writer.append Writer.write_record Writer.index_record Writer.projected_footer
    aligned_length align Writer.header_parts le_bytes Writer.new Writer.seal Writer.seal_pack
    Writer.body Writer.footer Writer.trailer_parts Writer.join Assembler.append Assembler.flush
    Assembler.sealed_pack Assembler.flush_full Assembler.append_same Assembler.append_to
    Assembler.append_current Assembler.flush_expired Assembler.flush_if_full Assembler.writer_with
    Assembler.first_append Assembler.adopt Assembler.record_scope
expired_pack_lost_example =
    expired_pack_lost plain (λ id. refl) (λ bytes. refl) busy_assembler started_pack (first ∷ [])
      huge 20 oversized refl busy-Contains refl refl

append_bounds_linger_example : is_expired plain busy_assembler busy_assembler.current 1 ≡ false
unfolding Writer.append Writer.write_record Writer.index_record Writer.projected_footer
    aligned_length align Writer.header_parts le_bytes Writer.new Writer.seal Writer.seal_pack
    Writer.body Writer.footer Writer.trailer_parts Writer.join Assembler.append Assembler.flush
    Assembler.sealed_pack Assembler.flush_full Assembler.append_same Assembler.append_to
    Assembler.append_current Assembler.flush_expired Assembler.flush_if_full Assembler.writer_with
    Assembler.first_append Assembler.adopt Assembler.record_scope
append_bounds_linger_example =
    append_bounds_linger plain idle_assembler busy_assembler first 1 [] (omega arith) refl

publish_batch-IsOrdered_example :
    Ends
      (Done racing (where_stored ∷ []) (described "a" ∷ described "b" ∷ []))
      (IsOrdered (where_stored ∷ []) (described "a" ∷ described "b" ∷ []))
      (publish_batch racing small_config
        (where_stored ∷ [])
        (described "a" ∷ described "b" ∷ [])
        new_indexer)
unfolding config_valid
publish_batch-IsOrdered_example =
    publish_batch-IsOrdered racing small_config (where_stored ∷ [])
      (described "a" ∷ described "b" ∷ []) new_indexer refl refl

abbrev rebuilt : IndexResult
rebuilt = record {
  requested_packs = 2;
  skipped_packs = 0;
  indexed_packs = 1;
  indexed_rows = 2;
  failed_packs = 1;
  descriptor_inserts = 4;
  estimated_bytes = 2;
  failures = record { pack_id = ""; object_key = "x"; error_type = "PackFormatError" } ∷ [];
}

rebuild-IsBalanced_example : IsBalanced rebuilt
unfolding rebuild rebuild_from next_page index_object_keys reconcile_page index merge mem_identity
    pending mem_key distinct partition_refs current mem_ref add_claimant claim_with claim claim_all
    is_conflicted unconflicted conflict_failures allocate last_published write publish commit
    committed_ids lease_held head_of cached_head write_from conflict_after on_conflict stamped
    clock_checked rewrite_at after_publish publish_then publish_loop write_and_publish publish_batch
    read_into gather ask_committed finish index_pending inspected inspect_all with_rejected
    allocate_version write_batches identity
rebuild-IsBalanced_example =
    rebuild-IsBalanced racing one_page small_config (λ d. 1) "" 2 5 new_indexer rebuilt refl

-- ===== src/Lib.antt =====
-- Capture storage of DMI: what becomes of captures of a model's internals between the thread that
-- makes them and a catalog that can find them. Paths are from the repository's root.
--
-- The parts and how they interact, all under src/dmi/storage/capture:
--
--   HostCapturePipeline (pipeline.py) takes a CaptureRecord from `submit`, puts it into its
--   BoundedRecordQueue, and a worker thread (`_run`) takes it out and hands it to its PackAssembler.
--   The assembler keeps one open pack, for one tenant, session and rank, and answers with the packs
--   that it sealed: when one is full, when its scope changes, when it has lingered too long, and at
--   a flush or the end. The worker gives each to a sink. `flush` puts a barrier into the same queue
--   and waits until the worker has come to it; a worker that fails latches the error, closes the
--   queue and completes the flush that it saw pending.
--   PackWriter (pack.py) lays the bytes of a pack out: a header, aligned payloads, a JSON footer and
--   a trailer. PackReader checks all of it and reads the payloads back.
--   CatalogIndexer and CatalogReconciler (catalog.py) write the descriptors of packs to a catalog at
--   a version that they allocate, publish a snapshot at that version, retry when they lose the race
--   for it, and then mark the packs as committed.
--   CaptureReader (reader.py) resolves a selection of captures at the catalog, plans the byte ranges
--   to read, checks every descriptor against the footer of its pack, which it caches, and reads the
--   payloads. An object's key names its tenant, and a pack is refused at the key of another.
--
-- Which file models which part:
--
--   Base, Base/Tests, Base/Lists  shared names, Boolean tests on numbers, lists.
--   Model                model.py: metadata, records, references, locators and their checks.
--   Queue                BoundedRecordQueue: __init__, put, put_barrier, get, close, _fits.
--     Queue/Calls        calls in the order in which they take the lock; Invariant, Fifo, Admission
--                        and Captures prove what the calls keep, in that order of use.
--   Pack/Writer          PackWriter: __init__ (`new`, `fresh`), append, seal; Pack/Bytes is the
--                        byte-level layout, Pack/Writer/Layout and Pack/Writer/Bounds its lemmas, and
--                        Pack/Writer/Sealing is about __init__, append and seal together.
--   Pack/Reader          PackReader.from_bytes, read_payload, _parse_record, _decode_footer;
--                        Pack/Records, RoundTrip and Reading lead to the round trip.
--   Pack/Index           PackIndex.from_store, max_footer_read_bytes; Accepting and Indexed relate it to
--                        PackReader.from_bytes.
--   Keys                 key_component, reject_a_foreign_tenant (pack.py) and object_key_for
--                        (pipeline.py): Utf8, Quoting, Components and Tenants build on each other.
--   Hydration            CaptureReader: what its calls share, _ReadBudget and _BudgetedPackStore.
--     Hydration/Plan     _plan. Planning and Enclosing are about it.
--     Hydration/Footers  _footer_descriptors, _bind_to_its_key, from_store within a budget.
--     Hydration/Selecting  select, CaptureSelection.create, _resolve and estimate; Resolving and
--                        Selected are about resolving.
--     Hydration/Reader   hydrate and _require_footer_match. Outcomes has rules for what a step
--                        gives. Spending and Budget, then Needing, Enough and Estimating, are about
--                        limits; Placing, Payloads, Refining and Direct about what is returned;
--                        Caching and Bounded about the cache; Ownership and Owned about tenants.
--   Cursor               cursor.py, with base64; Base64, RoundTrip and Aliases are about it.
--   Assembler            PackAssembler: __init__, append, flush, flush_expired,
--                        seconds_until_expiry (`until_expiry`), _writer_with, _adopt. Contents says
--                        which captures a pack holds; Conservation, Appending, Failures and Limits
--                        are about `append`.
--   Histogram            _Histogram.
--   Pipeline             PipelineConfig, the state of HostCapturePipeline, __init__, start.
--     Pipeline/Worker    _run, _persist, _emit.
--     Pipeline/Clients   submit and flush.
--     Pipeline/Closing   close, snapshot, is_running, raise_if_failed.
--     Pipeline/Runs      the worker beside threads that submit, put barriers and close; Persisting,
--                        Delivery, Captures, Barriers, Ending, Admitting, Accounting and Completeness
--                        follow what the sink has been given.
--     Pipeline/Flushing  a call of flush beside the worker; Failing, Flushes, Waiting and Abandoned
--                        are about calls that wait. Submitting is about submit, Following and
--                        Draining about the end of the worker after close.
--   Catalog              catalog.py: the answers of a catalog. Catalog/Writer is the CatalogWriter
--                        protocol, Catalog/Partition _partition_refs (Partitioning, Disputes), Catalog/Publish the
--                        publication loop, Catalog/Indexing CatalogIndexer.index and the
--                        reconciler; Order, Publishing and Balance are their theorems.
--   Samples, Examples, PipelineExamples, PackExamples, HydrationExamples  concrete values, the theorems at them.
--
-- Concurrency. A method body that runs under one lock is one step. A pass through a body that waits
-- on a condition changes nothing and is the outcome `blocks`; it is made again later. The worker's
-- loop is cut between its `get` and its use of the answer, and in its failure handler between
-- latching the error, closing the queue and completing the flush; `submit` is cut before and after its
-- `put`, and `flush` at each place where it gives up the lock. A run is any sequence of such steps; those
-- of the program, in which a call of `submit` ends with the answer of its own `put`, are among them. What the worker does with one
-- item between two of these cuts touches nothing that another thread writes, so it is one step; a
-- barrier whose flush failed is completed and the error latched in one step.
--
-- A hydration's calls follow each other, but the footer cache may be changed by other threads whenever
-- its lock is free: what they make of it is a parameter, read each time the lock is taken.
--
-- Numbers. Python's integers are unbounded and those that occur are not negative once they are
-- checked: they are natural numbers. The difference of two readings of a clock is cut off at 0, as the
-- code's max(0, ...) does. Bytes are numbers in a list. The integers of a locator, whose sign the class
-- does not check, are natural numbers too: those of a catalog come from unsigned columns.
--
-- Loops. Loops over a sequence recurse on it. The publication loop runs for at most
-- max_publish_attempts rounds and recurses on what is left of them; `rebuild` follows the pages of a
-- store and takes the bound on pages as fuel, and ends with the error of an exhausted rebuild when that is used up.
--
-- What is a parameter: digests, CRC-32, JSON, hex and UUID encoders (Codec, Decoder), with their
-- lengths and that they decode what they encode as named hypotheses; the sink, the clock, the event
-- callback, the pack identifiers; the catalog writer, which may answer anything at each call, as a
-- function of the calls before it; the catalog and the stores of a reader, whose calls may raise;
-- the object store; `str(UUID(...))` of a text; the date of a time.
--
-- What is not modelled: error messages, log events and times of the catalog; the types of decoded
-- JSON; the identity of a selection, and `summarize` of the reader; the spool, the object stores and ClickHouse, which are mostly calls of a file system or a server; the engine, the hooks and the
-- configuration, which work on a model's tensors.
pub mod Base
pub mod Model
pub mod Queue
pub mod Pack
pub mod Assembler
pub mod Catalog
pub mod Histogram
pub mod Keys
pub mod Hydration
pub mod Cursor
pub mod Pipeline
pub mod Samples
pub mod Examples
pub mod PipelineExamples
pub mod PackExamples
pub mod HydrationExamples

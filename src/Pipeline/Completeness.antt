-- ===== src/Pipeline/Completeness.antt =====
-- The end of a run: a worker that ended without an error has stored every capture that the queue
-- admitted and that it did not drop.
use native.Mathlib.Nat.{zero-add, add-zero, add_assoc}
use dmi.Base.{
  if_intro, ℕ, ◌+◌, String, ◌≡◌, ◌⊎◌, inl, inr, refl, sym, ap, ap₂, ◌∙◌, Bool, true, false, Option,
  none, some, List, [], ◌∷◌, ◌++◌, append-nil, append_assoc, arith, length, subst, Omits,
  Omits-append,
}
use dmi.Model.{CaptureRecord}
use dmi.Queue.{
  Queue, FlushBarrier, Item, capture, barrier, Timeout, Outcome, record_bytes, put, put_barrier,
  get, get_body, is_past, is_invalid, close, OverloadPolicy,
}
use dmi.Queue
use dmi.Queue.Invariant.{run-new-IsAccounted}
use dmi.Queue.Calls
use dmi.Queue.Captures.{queued}
use dmi.Pack.Writer.{Codec}
use dmi.Assembler.{Assembler, ReadyPack}
use dmi.Assembler
use dmi.Assembler.Contents.{Contains, Emits, nothing}
use dmi.Pipeline.{
  Pipeline, PipelineEvent, PipelineConfig, Phase, at_get, after_none, holding, latched, closing,
  ended, is_failing, new, new_with, start,
}
use dmi.Pipeline.Worker.{work_in, work}
use dmi.Pipeline.Delivery.{Delivered, Failed, drops}
use dmi.Pipeline.Barriers.{all_stored}
use dmi.Pipeline.Runs.{
  Call, begins, puts, ends, puts_barrier, closes, works, admits, refusals, held, step, run,
  all_admits, all_refusals, TimelyStep, AllTimely,
}
use dmi.Pipeline.Admitting.{Adds, begins-Adds, puts-Adds, ends-Adds, barrier-Adds, closes-Adds}
use dmi.Pipeline.{fresh, complete, complete_pending, pipeline_failed}
use dmi.Pipeline.Persisting.{emit_lem}
use dmi.Pipeline.Accounting.{IsOver, Served, Serves, work_in-Serves}

complete_pending_lem :
    (o : Option FlushBarrier) (p : Pipeline)
    → ((complete_pending o p).error ≡ p.error) × ((complete_pending o p).phase ≡ p.phase)
unfolding complete_pending complete
complete_pending_lem none p = (refl, refl)
complete_pending_lem (some b) p = (ground arith, ground arith)

module _ (c : Codec) (uuid_16 : (id : String) → length (c.uuid_bytes id) ≡ 16)
    (sha_32 : (bytes : List ℕ) → length (c.sha256 bytes) ≡ 32)
    (sink : List ReadyPack → ReadyPack → Bool) (callback : Option (PipelineEvent → Bool))
    (clock_ns : ℕ → ℕ) where
  -- A failure stays.
  work_in-Failed :
      (ph : Phase) (p : Pipeline) (entered now : ℕ)
      → Failed p
      → p.phase ≡ ph
      → Failed (work_in c sink callback clock_ns ph p entered now)
  unfolding work_in
  work_in-Failed at_get p entered now (x, h, f) e = cc (ap is_failing e)
  work_in-Failed after_none p entered now (x, h, f) e = cc (ap is_failing e)
  work_in-Failed (holding item) p entered now (x, h, f) e = cc (ap is_failing e)
  work_in-Failed (latched pending) p entered now (x, h, f) e = (x, h, refl)
  work_in-Failed (closing pending) p entered now (x, h, f) e =
      let q = complete_pending pending (record p { phase = ended }) in
      let (k, same) = emit_lem c sink callback clock_ns pipeline_failed q in
      let l = complete_pending_lem pending (record p { phase = ended }) in
      rw same (x, l.0 ∙ h, ap is_failing l.1)
  work_in-Failed ended p entered now (x, h, f) e = (x, h, f)

  -- What another thread does leaves a failure as it is.
  Adds-Failed :
      {p q : Pipeline} {new : List CaptureRecord} {k : ℕ} → Adds p q new k → Failed p → Failed q
  Adds-Failed a (x, h, f) = (x, a.error ∙ h, ap is_failing a.phase ∙ f)

  step-Failed :
      (p : Pipeline) (call : Call) → Failed p → Failed (step c sink callback clock_ns p call)
  unfolding step work
  step-Failed p (begins r) f = Adds-Failed (begins-Adds clock_ns p r) f
  step-Failed p (puts r entered now) f = Adds-Failed (puts-Adds p r entered now) f
  step-Failed p (ends r before result) f = Adds-Failed (ends-Adds clock_ns p r before result) f
  step-Failed p (puts_barrier b) f = f
  step-Failed p closes f = f
  step-Failed p (works entered now) f =
      if_intro Failed p.started (work_in-Failed p.phase p entered now f refl) f

  run-Failed :
      (p : Pipeline) (calls : List Call) → Failed p → Failed (run c sink callback clock_ns p calls)
  unfolding run
  run-Failed p [] f = f
  run-Failed p (call ∷ calls) f =
      run-Failed (step c sink callback clock_ns p call) calls (step-Failed p call f)

  Adds-Delivered :
      (n : ℕ) {p q : Pipeline} {new : List CaptureRecord} {k : ℕ} (kept : List CaptureRecord)
      → Adds p q new k
      → Delivered c n p kept
      → Delivered c n q kept
  Adds-Delivered n kept a d = record {
    xs = d.xs;
    ys = d.ys;
    in_store = rw a.stored d.in_store;
    in_pack = rw a.assembler d.in_pack;
    order = d.order;
    limit = ap (λ (x : Assembler). x.max_records) a.assembler ∙ d.limit;
    counted = a.records ∙ d.counted;
    counted_packs = a.packs ∙ d.counted_packs ∙ ap length (sym a.stored);
  }

  -- A closed queue stays closed and takes nothing, so that a worker that has ended stays done.
  Adds-Served :
      (n : ℕ) (admitted new : List CaptureRecord) (refused k : ℕ) (p q : Pipeline)
      → Adds p q new k
      → Served c n p admitted refused
      → Served c n q (admitted ++ new) (refused + k)
  Adds-Served n admitted new refused k p q a s = record {
    kept = s.kept;
    left_out = s.left_out;
    delivered = Adds-Delivered n s.kept a s.delivered;
    error = a.error ∙ s.error;
    loop = looped s.loop;
    order =
        rw
          (
            a.phase,
            a.captures,
            ← append_assoc (held p.phase) (queued p.queue) new,
            ← append_assoc s.kept (held p.phase ++ queued p.queue) new,
          )
          (Omits-append s.left_out admitted (s.kept ++ (held p.phase ++ queued p.queue)) new
            s.order);
    count = omega (arith, s.count, a.dropped);
    accounted = a.accounted s.accounted;
  }
    where
      looped : (is_failing p.phase ≡ false) ⊎ IsOver p → (is_failing q.phase ≡ false) ⊎ IsOver q
      looped (inl h) = inl (ap is_failing a.phase ∙ h)
      looped (inr over) = inr (record {
        phase = a.phase ∙ over.phase;
        closed = (a.shut over.closed).0;
        empty = a.captures ∙ ap₂ (λ l m. l ++ m) over.empty (a.shut over.closed).1;
        idle = ap (λ (x : Assembler). x.current) a.assembler ∙ over.idle;
      })

  step-Serves :
      (n : ℕ) (admitted : List CaptureRecord) (refused : ℕ) (p : Pipeline) (call : Call)
      → Served c n p admitted refused
      → TimelyStep c sink callback clock_ns p call
      → Serves c n
          (step c sink callback clock_ns p call)
          (admitted ++ admits p call)
          (refused + refusals c sink callback clock_ns p call)
  unfolding step admits refusals work
  step-Serves n admitted refused p (begins r) s t =
      inr (Adds-Served n admitted [] refused _ p _ (begins-Adds clock_ns p r) s)
  step-Serves n admitted refused p (puts r entered now) s t =
      inr (Adds-Served n admitted _ refused 0 p _ (puts-Adds p r entered now) s)
  step-Serves n admitted refused p (ends r before result) s t =
      inr (Adds-Served n admitted [] refused _ p _ (ends-Adds clock_ns p r before result) s)
  step-Serves n admitted refused p (puts_barrier b) s t =
      inr (Adds-Served n admitted [] refused 0 p _ (barrier-Adds p b) s)
  step-Serves n admitted refused p closes s t =
      inr (Adds-Served n admitted [] refused 0 p _ (closes-Adds p) s)
  step-Serves n admitted refused p (works entered now) s t =
      rw (append-nil admitted, add-zero refused)
        (if_intro (λ q. Serves c n q admitted refused) p.started
          (work_in-Serves c uuid_16 sha_32 sink callback clock_ns n admitted refused p.phase p
            entered now s refl t)
          (inr s))

  run-Serves :
      (n : ℕ) (admitted : List CaptureRecord) (refused : ℕ) (p : Pipeline) (calls : List Call)
      → Serves c n p admitted refused
      → AllTimely c sink callback clock_ns p calls
      → Serves c n
          (run c sink callback clock_ns p calls)
          (admitted ++ all_admits c sink callback clock_ns p calls)
          (refused + all_refusals c sink callback clock_ns p calls)
  unfolding run all_admits all_refusals
  run-Serves n admitted refused p calls (inl f) t = inl (run-Failed p calls f)
  run-Serves n admitted refused p [] (inr s) t = inr (rw (append-nil admitted, add-zero refused) s)
  run-Serves n admitted refused p (call ∷ calls) (inr s) t =
      let q = step c sink callback clock_ns p call in
      rw
        (
          ← append_assoc admitted (admits p call) (all_admits c sink callback clock_ns q calls),
          ← add_assoc refused (refusals c sink callback clock_ns p call)
              (all_refusals c sink callback clock_ns q calls),
        )
        (run-Serves n (admitted ++ admits p call)
          (refused + refusals c sink callback clock_ns p call) q calls
          (step-Serves n admitted refused p call s t.0) t.1)

  fresh-Served :
      (g : PipelineConfig) (q : Queue) (a : Assembler)
      → Queue.new g.max_queue_records g.max_queue_bytes ≡ some q
      → a.current ≡ none
      → a.max_records ≡ g.max_pack_records
      → Served c g.max_pack_records (record (fresh g q a) { started = true }) [] 0
  unfolding Queue.new Calls.run
  fresh-Served g q a made idle limit = record {
    kept = [];
    left_out = 0;
    delivered = record {
      xs = [];
      ys = [];
      in_store = nothing refl;
      in_pack = Contains.idle idle refl;
      order = refl;
      limit = limit;
      counted = refl;
      counted_packs = refl;
    };
    error = refl;
    loop = inl refl;
    order = (refl, ground arith);
    count = omega arith;
    accounted = run-new-IsAccounted g.max_queue_records g.max_queue_bytes q [] made;
  }

  start-Serves :
      (g : PipelineConfig) (factory : ℕ → String) (oq : Option Queue) (oa : Option Assembler)
      (p : Pipeline)
      → Queue.new g.max_queue_records g.max_queue_bytes ≡ oq
      → Assembler.new g.max_pack_bytes g.max_pack_records g.max_linger_ns factory ≡ oa
      → new_with g oq oa ≡ some p
      → Serves c g.max_pack_records (start p).0 [] 0
  unfolding new_with start Assembler.new
  start-Serves g factory none oa p eq ea e = absurd (ground arith)
  start-Serves g factory (some q) none p eq ea e = absurd (ground arith)
  start-Serves g factory (some q) (some a) p eq ea e =
      let made : fresh g q a ≡ p = cc in
      rw (← made) (inr (fresh-Served g q a eq (ground arith) (ground arith)))

  -- What the sink and the counters of `q` have, `admitted` being what the queue took.
  pub record Balances (n : ℕ) (q : Pipeline) (admitted : List CaptureRecord) (refused : ℕ)
      : Type 0 where
    pub kept : List CaptureRecord
    pub left_out : ℕ
    pub in_store : Emits c n q.stored kept
    pub counted : q.counters.persisted_records ≡ length kept
    pub order : Omits left_out admitted kept
    pub dropped : drops q ≡ left_out + refused

  stored_all :
      (n : ℕ) (q : Pipeline) (admitted : List CaptureRecord) (refused : ℕ)
      → Serves c n q admitted refused
      → q.error ≡ none
      → q.phase ≡ ended
      → Balances n q admitted refused
  stored_all n q admitted refused (inl (x, h, f)) e over = cc
  stored_all n q admitted refused (inr s) e over = done s.loop
    where
      done : (is_failing q.phase ≡ false) ⊎ IsOver q → Balances n q admitted refused
      done (inl h) = cc (ap is_failing over)
      done (inr o) =
          let s' =
            all_stored c uuid_16 sha_32 sink callback clock_ns n q s.kept s.delivered o.idle in
          record {
            kept = s.kept;
            left_out = s.left_out;
            in_store = s'.0;
            counted = s'.1;
            order =
                subst (λ l. Omits s.left_out admitted l)
                  (ap₂ (λ l m. s.kept ++ (l ++ m)) (ap held over) o.empty ∙ append-nil s.kept)
                  s.order;
            dropped = s.count;
          }

  -- A worker of a new, started pipeline that ends without an error has stored every capture that the
  -- queue took and that it did not drop.
  pub ended_stores_all :
      (g : PipelineConfig) (factory : ℕ → String) (p : Pipeline) (calls : List Call)
      → new g factory ≡ some p
      → AllTimely c sink callback clock_ns (start p).0 calls
      → (run c sink callback clock_ns (start p).0 calls).error ≡ none
      → (run c sink callback clock_ns (start p).0 calls).phase ≡ ended
      → Balances g.max_pack_records
          (run c sink callback clock_ns (start p).0 calls)
          (all_admits c sink callback clock_ns (start p).0 calls)
          (all_refusals c sink callback clock_ns (start p).0 calls)
  unfolding new
  ended_stores_all g factory p calls made timely e over =
      stored_all g.max_pack_records (run c sink callback clock_ns (start p).0 calls)
        (all_admits c sink callback clock_ns (start p).0 calls)
        (all_refusals c sink callback clock_ns (start p).0 calls)
        (rw zero-add at (
          run-Serves g.max_pack_records [] 0 (start p).0 calls
            (start-Serves g factory _ _ p refl refl made) timely))
        e over

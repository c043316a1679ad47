-- ===== src/Pipeline/Delivery.antt =====
-- What the worker does with the captures that it takes from the queue.
use dmi.Base.{
  ℕ, ◌+◌, String, ◌≡◌, ◌⊎◌, inl, inr, refl, sym, ap, ◌∙◌, Bool, true, Option, some, List, ◌++◌,
  append_assoc, arith, Bool-cases, length, length-append, subst,
}
use dmi.Model.{CaptureRecord}
use dmi.Pack.Writer.{Codec, seal_pack}
use dmi.Pack.Writer.Layout.{Holds-IsLaid}
use dmi.Assembler.{Assembler, ReadyPack, returns}
use dmi.Assembler.Contents.{Contains, Emits, nothing, emitted, Emits-append}
use dmi.Pipeline.{Counters, is_failing, Pipeline, PipelineEvent, PipelineError, sink_error, Phase}
use dmi.Pipeline.Worker.{persist, persist_answer}
use dmi.Pipeline.Persisting.{record_counts, persist-Persisted, settle-true, settle-false}

-- The captures `kept` are those of the packs that the sink has, followed by those of the open pack,
-- and the counters say how many are stored.
pub record Delivered (c : Codec) (n : ℕ) (p : Pipeline) (kept : List CaptureRecord) : Type 0 where
  pub xs : List CaptureRecord
  pub ys : List CaptureRecord
  pub in_store : Emits c n p.stored xs
  pub in_pack : Contains c p.assembler ys
  pub order : kept ≡ xs ++ ys
  pub limit : p.assembler.max_records ≡ n
  pub counted : p.counters.persisted_records ≡ length xs
  pub counted_packs : p.counters.packs_persisted ≡ length p.stored

-- It speaks of the assembler, the store and two counters only.
abbrev pub Delivered-same :
    (c : Codec) (n : ℕ) (p q : Pipeline) (kept : List CaptureRecord)
    → Delivered c n p kept
    → q.assembler ≡ p.assembler
    → q.stored ≡ p.stored
    → q.counters ≡ p.counters
    → Delivered c n q kept
Delivered-same c n p q kept d same_assembler same_store same_counters = record {
  xs = d.xs;
  ys = d.ys;
  in_store = subst (λ l. Emits c n l d.xs) (sym same_store) d.in_store;
  in_pack = subst (λ a. Contains c a d.ys) (sym same_assembler) d.in_pack;
  order = d.order;
  limit = ap (λ (a : Assembler). a.max_records) same_assembler ∙ d.limit;
  counted = ap (λ (k : Counters). k.persisted_records) same_counters ∙ d.counted;
  counted_packs =
      ap (λ (k : Counters). k.packs_persisted) same_counters
      ∙ d.counted_packs
      ∙ ap length (sym same_store);
}

-- The error is latched, and the worker has left its loop.
abbrev pub Failed : Pipeline → Type 0
Failed p = (e : PipelineError) × (p.error ≡ some e) × (is_failing p.phase ≡ true)

-- Records of the two kinds that the worker drops.
abbrev pub drops : Pipeline → ℕ
drops p = p.counters.oversized_records + p.counters.duplicate_records

-- The pipeline went on with these captures, and with `dropped` more records dropped.
pub record Goes (c : Codec) (n : ℕ) (p q : Pipeline) (next : Phase) (kept : List CaptureRecord)
    (dropped : ℕ) : Type 0 where
  pub delivered : Delivered c n q kept
  pub error : q.error ≡ p.error
  pub phase : q.phase ≡ next
  pub queue : q.queue ≡ p.queue
  pub started : q.started ≡ p.started
  pub drop_count : drops q ≡ drops p + dropped

module _ (c : Codec) (uuid_16 : (id : String) → length (c.uuid_bytes id) ≡ 16)
    (sha_32 : (bytes : List ℕ) → length (c.sha256 bytes) ≡ 32)
    (sink : List ReadyPack → ReadyPack → Bool) (callback : Option (PipelineEvent → Bool))
    (clock_ns : ℕ → ℕ) where
  -- The packs that are emitted count their captures.
  Emits-record_counts :
      (n : ℕ) {packs : List ReadyPack} {rs : List CaptureRecord}
      → Emits c n packs rs
      → record_counts packs ≡ length rs
  unfolding seal_pack
  Emits-record_counts n (nothing e) = rw e
  Emits-record_counts n (emitted w scope rs rest e p m s) =
      rw (e, s)
        (omega (
          arith,
          length-append rs rest,
          (Holds-IsLaid c uuid_16 p.holds).counted,
          Emits-record_counts n m,
        ))

  pub persist_answer-Goes :
      (n : ℕ) (next : Phase) (p : Pipeline) (a : Assembler) (packs : List ReadyPack)
      (kept extra us vs : List CaptureRecord) (d : Delivered c n p kept)
      → Emits c n packs us
      → Contains c a vs
      → d.ys ++ extra ≡ us ++ vs
      → a.max_records ≡ n
      → Failed (persist_answer c sink callback clock_ns next p (a, returns packs))
        ⊎ (Goes c n p
              (persist_answer c sink callback clock_ns next p (a, returns packs))
              next
              (kept ++ extra)
              0
            × ((persist_answer c sink callback clock_ns next p (a, returns packs)).assembler ≡ a))
  unfolding persist_answer
  persist_answer-Goes n next p a packs kept extra us vs d m held e limit =
      let x = persist c sink callback clock_ns (record p { assembler = a }) packs in
      elim (Bool-cases x.1) [
        | inl took ↦
            let k =
              persist-Persisted c sink callback clock_ns (record p { assembler = a }) packs took in
            inr (
              rw (settle-true c sink callback clock_ns next x took) (
                record {
                  delivered = record {
                    xs = d.xs ++ us;
                    ys = vs;
                    in_store = rw k.stored (Emits-append c n d.in_store m);
                    in_pack = rw k.assembler held;
                    order =
                        ap (λ l. l ++ extra) d.order
                        ∙ append_assoc d.xs d.ys extra
                        ∙ ap (λ l. d.xs ++ l) e
                        ∙ sym (append_assoc d.xs us vs);
                    limit = ap (λ (b : Assembler). b.max_records) k.assembler ∙ limit;
                    counted = omega (
                      arith,
                      k.records,
                      d.counted,
                      Emits-record_counts n m,
                      length-append d.xs us,
                    );
                    counted_packs = omega (
                      arith,
                      k.packs_persisted,
                      d.counted_packs,
                      ap length k.stored,
                      length-append p.stored packs,
                    );
                  };
                  error = k.error;
                  phase = refl;
                  queue = k.queue;
                  started = k.started;
                  drop_count = omega (arith, k.oversized_records, k.duplicate_records);
                },
                k.assembler,
              ))
        | inr refused ↦
            let f = settle-false c sink callback clock_ns next x refused in
            inl (sink_error, f.0, f.1)
      ]

  -- A reading of the clock changes nothing of this.
  abbrev pub ticked :
      (n : ℕ) (p : Pipeline) (kept : List CaptureRecord) (k : ℕ)
      → Delivered c n p kept
      → Delivered c n (record p { readings = k }) kept
  ticked n p kept k d = record {
    xs = d.xs;
    ys = d.ys;
    in_store = d.in_store;
    in_pack = d.in_pack;
    order = d.order;
    limit = d.limit;
    counted = d.counted;
    counted_packs = d.counted_packs;
  }

  pub from_ticked :
      (n : ℕ) (p q : Pipeline) (next : Phase) (kept : List CaptureRecord) (k dropped : ℕ)
      → Goes c n (record p { readings = k }) q next kept dropped
      → Goes c n p q next kept dropped
  from_ticked n p q next kept k dropped g = record {
    delivered = g.delivered;
    error = g.error;
    phase = g.phase;
    queue = g.queue;
    started = g.started;
    drop_count = g.drop_count;
  }

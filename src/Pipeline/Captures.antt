-- ===== src/Pipeline/Captures.antt =====
-- What becomes of a capture that the worker has taken from the queue.
use dmi.Base.{
  ℕ, ◌+◌, String, ◌≡◌, ◌⊎◌, inl, inr, refl, sym, ap, ◌∙◌, Bool, false, Option, List, [], ◌∷◌, ◌++◌,
  arith, length, subst,
}
use dmi.Model.{CaptureRecord}
use dmi.Queue.{capture}
use dmi.Pack.Writer.{Codec}
use dmi.Assembler.{
  Assembler, ReadyPack, FlushReason, size, records, linger, session, manual, shutdown, oversized,
  duplicate, writer_failed, Failure, Answer, returns, raises, flush_expired, is_expired,
}
use dmi.Assembler
use dmi.Assembler.Limits.{max_records-append}
use dmi.Assembler.Contents.{Contains, Emits}
use dmi.Assembler.Appending.{append_conserves}
use dmi.Assembler.Failures.{append_raise_keeps}
use dmi.Pipeline.{Pipeline, PipelineEvent, assembler_error, Phase, at_get}
use dmi.Pipeline.Worker.{emit, appended, handle}
use dmi.Pipeline.Persisting.{emit_lem}
use dmi.Pipeline.Delivery.{Delivered, Failed, Goes, drops, persist_answer-Goes, ticked, from_ticked}

module _ (c : Codec) (uuid_16 : (id : String) → length (c.uuid_bytes id) ≡ 16)
    (sha_32 : (bytes : List ℕ) → length (c.sha256 bytes) ≡ 32)
    (sink : List ReadyPack → ReadyPack → Bool) (callback : Option (PipelineEvent → Bool))
    (clock_ns : ℕ → ℕ) where
  -- The open pack has not expired when a record is refused.
  abbrev pub Timely : Pipeline → CaptureRecord → Type 0
  Timely p r =
      (is_expired c p.assembler p.assembler.current (clock_ns p.readings) ≡ false)
      ⊎ ((packs : List ReadyPack) × ((Assembler.append c p.assembler r (clock_ns p.readings)).1
            ≡ returns packs))

  same_pack :
      (a b : Assembler) (rs : List CaptureRecord)
      → Contains c a rs
      → b.current ≡ a.current
      → b.max_records ≡ a.max_records
      → Contains c b rs
  same_pack a b rs (Contains.idle e s) same limit = Contains.idle (same ∙ e) s
  same_pack a b rs (Contains.busy o e p) same limit = Contains.busy o (same ∙ e) (rw limit p)

  -- One record less, and its pack as it was.
  refused-pack :
      (n : ℕ) (p : Pipeline) (r : CaptureRecord) (kept : List CaptureRecord) (a : Assembler)
      (e : Failure) (d : Delivered c n p kept)
      → Timely p r
      → Assembler.append c p.assembler r (clock_ns p.readings) ≡ (a, raises e)
      → Contains c a d.ys × (a.max_records ≡ n)
  refused-pack n p r kept a e d (inl young) h =
      let limit : a.max_records ≡ p.assembler.max_records =
        ap (λ (x : Assembler × Answer (List ReadyPack)). x.0.max_records) (sym h)
        ∙ max_records-append c p.assembler r (clock_ns p.readings) in
      (
        same_pack p.assembler a d.ys d.in_pack
            (append_raise_keeps c uuid_16 sha_32 p.assembler a d.ys r (clock_ns p.readings) e
              d.in_pack young h)
            limit,
        limit ∙ d.limit,
      )
  refused-pack n p r kept a e d (inr (packs, back)) h =
      cc (ap (λ (x : Assembler × Answer (List ReadyPack)). x.1) h)

  -- What becomes of a capture: the pipeline fails; it is kept; or it alone is dropped.
  abbrev pub Handles : ℕ → Pipeline → Pipeline → CaptureRecord → List CaptureRecord → Type 0
  Handles n p q r kept =
      Failed q ⊎ Goes c n p q at_get (kept ++ r ∷ []) 0 ⊎ Goes c n p q at_get kept 1

  emit-Goes :
      (n : ℕ) (p q : Pipeline) (event : PipelineEvent) (next : Phase) (kept : List CaptureRecord)
      (k : ℕ)
      → Goes c n p q next kept k
      → Goes c n p (emit c sink callback clock_ns event q) next kept k
  emit-Goes n p q event next kept k g =
      let (i, e) = emit_lem c sink callback clock_ns event q in
      let d = g.delivered in
      rw e (record {
        delivered = record {
          xs = d.xs;
          ys = d.ys;
          in_store = d.in_store;
          in_pack = d.in_pack;
          order = d.order;
          limit = d.limit;
          counted = d.counted;
          counted_packs = d.counted_packs;
        };
        error = g.error;
        phase = g.phase;
        queue = g.queue;
        started = g.started;
        drop_count = g.drop_count;
      })

  -- The state after a record was dropped, before the event that tells of it.
  dropped-Goes :
      (n : ℕ) (p q : Pipeline) (kept : List CaptureRecord) (d : Delivered c n p kept)
      → Contains c q.assembler d.ys × (q.assembler.max_records ≡ n)
      → q.stored ≡ p.stored
      → q.counters.persisted_records ≡ p.counters.persisted_records
      → q.counters.packs_persisted ≡ p.counters.packs_persisted
      → q.error ≡ p.error
      → q.phase ≡ at_get
      → q.queue ≡ p.queue
      → q.started ≡ p.started
      → drops q ≡ drops p + 1
      → Goes c n p q at_get kept 1
  dropped-Goes n p q kept d left stored same_records same_packs error phase queue started count =
      record {
        delivered = record {
          xs = d.xs;
          ys = d.ys;
          in_store = rw stored d.in_store;
          in_pack = left.0;
          order = d.order;
          limit = left.1;
          counted = same_records ∙ d.counted;
          counted_packs = same_packs ∙ d.counted_packs ∙ ap length (sym stored);
        };
        error = error;
        phase = phase;
        queue = queue;
        started = started;
        drop_count = count;
      }

  kept_or_lost :
      (n : ℕ) (p q : Pipeline) (r : CaptureRecord) (kept : List CaptureRecord) {a : Assembler}
      → Failed q
        ⊎ (Goes c n (record p { readings = p.readings + 1 }) q at_get (kept ++ r ∷ []) 0
            × (q.assembler ≡ a))
      → Handles n p q r kept
  kept_or_lost n p q r kept (inl f) = inl f
  kept_or_lost n p q r kept (inr g) = inr (
      inl (
        from_ticked c uuid_16 sha_32 sink callback clock_ns n p q at_get (kept ++ r ∷ [])
          (p.readings + 1) 0 g.0))

  appended-Handles :
      (n : ℕ) (p : Pipeline) (r : CaptureRecord) (kept : List CaptureRecord)
      (x : Assembler × Answer (List ReadyPack))
      → Delivered c n p kept
      → Timely p r
      → Assembler.append c p.assembler r (clock_ns p.readings) ≡ x
      → Handles n p
          (appended c sink callback clock_ns (record p { readings = p.readings + 1 }) r x)
          r
          kept
  unfolding appended
  appended-Handles n p r kept (a, returns packs) d t h =
      let (us, vs, m, held, e, limit) =
        append_conserves c uuid_16 sha_32 p.assembler a d.ys r (clock_ns p.readings) packs d.in_pack
          h in
      kept_or_lost n p _ r kept (
        persist_answer-Goes c uuid_16 sha_32 sink callback clock_ns n at_get
          (record p { readings = p.readings + 1 }) a packs kept (r ∷ []) us vs
          (ticked c uuid_16 sha_32 sink callback clock_ns n p kept (p.readings + 1) d)
          (subst (λ k. Emits c k packs us) d.limit m) held e (limit ∙ d.limit))
  appended-Handles n p r kept (a, raises oversized) d t h = inr (
      inr (
        emit-Goes n p _ _ at_get kept 1 (
          dropped-Goes n p
            (record p {
              readings = p.readings + 1;
              assembler = a;
              phase = at_get;
              counters = record p.counters { oversized_records = p.counters.oversized_records + 1 };
            })
            kept d (refused-pack n p r kept a oversized d t h) refl refl refl refl refl refl refl
            (omega arith))))
  appended-Handles n p r kept (a, raises duplicate) d t h = inr (
      inr (
        emit-Goes n p _ _ at_get kept 1 (
          dropped-Goes n p
            (record p {
              readings = p.readings + 1;
              assembler = a;
              phase = at_get;
              counters = record p.counters { duplicate_records = p.counters.duplicate_records + 1 };
            })
            kept d (refused-pack n p r kept a duplicate d t h) refl refl refl refl refl refl refl
            (omega arith))))
  appended-Handles n p r kept (a, raises (writer_failed e)) d t h =
      inl (assembler_error (writer_failed e), refl, refl)

  -- A capture that the worker has taken, while its pack has not expired or it is not refused: the
  -- pipeline fails; or it is kept, behind those kept before, in the store or the open pack; or it
  -- alone is dropped, and counted as oversized or duplicate.
  pub handle_capture :
      (n : ℕ) (p : Pipeline) (r : CaptureRecord) (kept : List CaptureRecord)
      → Delivered c n p kept
      → Timely p r
      → Handles n p (handle c sink callback clock_ns p (capture r)) r kept
  unfolding handle
  handle_capture n p r kept d t =
      appended-Handles n p r kept (Assembler.append c p.assembler r (clock_ns p.readings)) d t refl

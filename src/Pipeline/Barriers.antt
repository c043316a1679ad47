-- ===== src/Pipeline/Barriers.antt =====
-- What the worker does at a flush barrier, and when `get` answers None.
use dmi.Base.{
  ℕ, String, ◌≡◌, ◌⊎◌, inl, inr, refl, ap, ◌∙◌, Bool, true, false, Option, none, some, List, [],
  ◌∷◌, ◌++◌, append-nil, arith, length, subst,
}
use dmi.Model.{CaptureRecord}
use dmi.Queue.{FlushBarrier, barrier}
use dmi.Pack.Writer.{Codec}
use dmi.Assembler.{
  Assembler, ReadyPack, FlushReason, size, records, linger, session, manual, shutdown, oversized,
  duplicate, writer_failed, Failure, Answer, returns, raises, flush_expired, is_expired,
}
use dmi.Assembler
use dmi.Assembler.Contents.{Contains, Emits}
use dmi.Assembler.Conservation.{flush_lem}
use dmi.Pipeline.{Pipeline, PipelineEvent, Phase, at_get, complete, completion}
use dmi.Pipeline.Worker.{persist_answer, settle_barrier, handle}
use dmi.Pipeline.Delivery.{Delivered, Failed, Goes, persist_answer-Goes}

module _ (c : Codec) (uuid_16 : (id : String) → length (c.uuid_bytes id) ≡ 16)
    (sha_32 : (bytes : List ℕ) → length (c.sha256 bytes) ≡ 32)
    (sink : List ReadyPack → ReadyPack → Bool) (callback : Option (PipelineEvent → Bool))
    (clock_ns : ℕ → ℕ) where
  -- `flush` of the assembler, and what it emits persisted: the pipeline fails, or all captures are in
  -- the store.
  pub flushed-Goes :
      (n : ℕ) (next : Phase) (p : Pipeline) (reason : FlushReason) (kept : List CaptureRecord)
      → Delivered c n p kept
      → Failed
          (persist_answer c sink callback clock_ns next p (Assembler.flush c p.assembler reason))
        ⊎ (Goes c n p
              (persist_answer c sink callback clock_ns next p
                (Assembler.flush c p.assembler reason))
              next
              (kept ++ [])
              0
            × ((persist_answer c sink callback clock_ns next p
                  (Assembler.flush c p.assembler reason)).assembler
                ≡ record p.assembler { current = none }))
  flushed-Goes n next p reason kept d =
      let (packs, e, m) = flush_lem c uuid_16 sha_32 p.assembler d.ys reason d.in_pack in
      rw e (
        persist_answer-Goes c uuid_16 sha_32 sink callback clock_ns n next p
          (record p.assembler { current = none }) packs kept [] d.ys [] d
          (subst (λ k. Emits c k packs d.ys) d.limit m) (Contains.idle refl refl) refl d.limit)

  -- With no pack open, all captures are in the store.
  pub all_stored :
      (n : ℕ) (q : Pipeline) (kept : List CaptureRecord)
      → Delivered c n q kept
      → q.assembler.current ≡ none
      → Emits c n q.stored kept × (q.counters.persisted_records ≡ length kept)
  all_stored n q kept d e = none_open d.in_pack
    where
      none_open :
          Contains c q.assembler d.ys
          → Emits c n q.stored kept × (q.counters.persisted_records ≡ length kept)
      none_open (Contains.idle e' s) =
          let same : kept ≡ d.xs = d.order ∙ ap (λ l. d.xs ++ l) s ∙ append-nil d.xs in
          (rw same d.in_store, rw same d.counted)
      none_open (Contains.busy o e' p) = cc

  completion_self :
      (token : ℕ) (failed : Bool) (rest : List (ℕ × Bool))
      → completion token ((token, failed) ∷ rest) ≡ some failed
  unfolding completion
  completion_self token failed rest = ground arith

  -- What a barrier does: the pipeline fails, and the barrier is completed with an error; or it is
  -- completed without one, and every capture kept so far is in the store, in order, and counted.
  pub handle_barrier :
      (n : ℕ) (p : Pipeline) (b : FlushBarrier) (kept : List CaptureRecord)
      → Delivered c n p kept
      → p.error ≡ none
      → (Failed (handle c sink callback clock_ns p (barrier b))
          × (completion b.token (handle c sink callback clock_ns p (barrier b)).completed
              ≡ some true))
        ⊎ ((completion b.token (handle c sink callback clock_ns p (barrier b)).completed
              ≡ some false)
            × ((handle c sink callback clock_ns p (barrier b)).error ≡ none)
            × Emits c n (handle c sink callback clock_ns p (barrier b)).stored kept
            × ((handle c sink callback clock_ns p (barrier b)).counters.persisted_records
                ≡ length kept))
  unfolding handle settle_barrier complete
  handle_barrier n p b kept d e = settled _ (flushed-Goes n at_get p manual kept d)
    where
      settled :
          (q : Pipeline)
          → Failed q
            ⊎ (Goes c n p q at_get (kept ++ []) 0
                × (q.assembler ≡ record p.assembler { current = none }))
          → (Failed (settle_barrier c sink callback clock_ns b q)
              × (completion b.token (settle_barrier c sink callback clock_ns b q).completed
                  ≡ some true))
            ⊎ ((completion b.token (settle_barrier c sink callback clock_ns b q).completed
                  ≡ some false)
                × ((settle_barrier c sink callback clock_ns b q).error ≡ none)
                × Emits c n (settle_barrier c sink callback clock_ns b q).stored kept
                × ((settle_barrier c sink callback clock_ns b q).counters.persisted_records
                    ≡ length kept))
      settled q (inl (x, h, f)) = inl (
        (x, rw (h, settle_barrier) h, rw (h, settle_barrier) f),
        rw (h, settle_barrier) (completion_self b.token true q.completed),
      )
      settled q (inr (g, idle)) =
          let ok : q.error ≡ none = g.error ∙ e in
          let s =
            all_stored n q (kept ++ []) g.delivered (ap (λ (a : Assembler). a.current) idle) in
          inr (
            rw (ok, settle_barrier) (completion_self b.token false q.completed),
            rw (ok, settle_barrier) ok,
            rw (ok, settle_barrier) (rw append-nil at s.0),
            rw (ok, settle_barrier) (rw append-nil at s.1),
          )

  -- A barrier keeps what was kept.
  pub handle_barrier-Goes :
      (n : ℕ) (p : Pipeline) (b : FlushBarrier) (kept : List CaptureRecord)
      → Delivered c n p kept
      → p.error ≡ none
      → Failed (handle c sink callback clock_ns p (barrier b))
        ⊎ Goes c n p (handle c sink callback clock_ns p (barrier b)) at_get kept 0
  unfolding handle settle_barrier complete
  handle_barrier-Goes n p b kept d e = settled _ (flushed-Goes n at_get p manual kept d)
    where
      settled :
          (q : Pipeline)
          → Failed q
            ⊎ (Goes c n p q at_get (kept ++ []) 0
                × (q.assembler ≡ record p.assembler { current = none }))
          → Failed (settle_barrier c sink callback clock_ns b q)
            ⊎ Goes c n p (settle_barrier c sink callback clock_ns b q) at_get kept 0
      settled q (inl (x, h, f)) = inl (x, rw (h, settle_barrier) h, rw (h, settle_barrier) f)
      settled q (inr (g, idle)) =
          let ok : q.error ≡ none = g.error ∙ e in
          let h = subst (λ l. Goes c n p q at_get l 0) (append-nil kept) g in
          let d' = h.delivered in
          rw (ok, settle_barrier)
            (inr (record {
              delivered = record {
                xs = d'.xs;
                ys = d'.ys;
                in_store = d'.in_store;
                in_pack = d'.in_pack;
                order = d'.order;
                limit = d'.limit;
                counted = d'.counted;
                counted_packs = d'.counted_packs;
              };
              error = h.error;
              phase = h.phase;
              queue = h.queue;
              started = h.started;
              drop_count = h.drop_count;
            }))

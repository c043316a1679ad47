-- ===== src/Pipeline/Ending.antt =====
-- What the worker does when `get` answers None.
use dmi.Base.{
  ◌&&◌, ◌==◌, ℕ, ◌+◌, String, ◌≡◌, ◌⊎◌, inl, inr, refl, ap, Bool, true, Option, none, List, [],
  ◌++◌, append-nil, arith, Bool-cases, length, subst,
}
use dmi.Model.{CaptureRecord}
use dmi.Pack.Writer.{Codec}
use dmi.Assembler.{Assembler, ReadyPack, linger, shutdown, flush_expired, is_expired}
use dmi.Assembler.Contents.{nothing}
use dmi.Pipeline.{Pipeline, PipelineEvent, at_get, ended}
use dmi.Pipeline.Worker.{handle_none}
use dmi.Pipeline.Delivery.{Delivered, Failed, Goes, persist_answer-Goes, ticked, from_ticked}
use dmi.Pipeline.Barriers.{flushed-Goes}

module _ (c : Codec) (uuid_16 : (id : String) → length (c.uuid_bytes id) ≡ 16)
    (sha_32 : (bytes : List ℕ) → length (c.sha256 bytes) ≡ 32)
    (sink : List ReadyPack → ReadyPack → Bool) (callback : Option (PipelineEvent → Bool))
    (clock_ns : ℕ → ℕ) where
  -- The worker ends, or goes on, with the captures that it had.
  last :
      (n : ℕ) (p : Pipeline) (kept : List CaptureRecord) {q : Pipeline}
      → (p.queue.is_closed && p.queue.records == 0) ≡ true
      → Failed q
        ⊎ (Goes c n p q ended (kept ++ []) 0
            × (q.assembler ≡ record p.assembler { current = none }))
      → Failed q
        ⊎ (Goes c n p q ended kept 0
            × (p.queue.is_closed ≡ true)
            × (p.queue.records ≡ 0)
            × (q.assembler.current ≡ none))
        ⊎ Goes c n p q at_get kept 0
  last n p kept over (inl f) = inl f
  last n p kept {q} over (inr g) = inr (
      inl (
        subst (λ l. Goes c n p q ended l 0) (append-nil kept) g.0,
        ground arith,
        ground arith,
        ap (λ (a : Assembler). a.current) g.1,
      ))

  on_again :
      (n : ℕ) (p : Pipeline) (kept : List CaptureRecord) {q : Pipeline} {a : Assembler}
      → Failed q
        ⊎ (Goes c n (record p { readings = p.readings + 1 }) q at_get (kept ++ []) 0
            × (q.assembler ≡ a))
      → Failed q
        ⊎ (Goes c n p q ended kept 0
            × (p.queue.is_closed ≡ true)
            × (p.queue.records ≡ 0)
            × (q.assembler.current ≡ none))
        ⊎ Goes c n p q at_get kept 0
  on_again n p kept (inl f) = inl f
  on_again n p kept {q} (inr g) = inr (
      inr (
        subst (λ l. Goes c n p q at_get l 0) (append-nil kept)
          (from_ticked c uuid_16 sha_32 sink callback clock_ns n p q at_get (kept ++ [])
            (p.readings + 1) 0 g.0)))

  -- When `get` answered None: the pipeline fails; or the queue is closed and without captures, and
  -- the worker ends with every capture kept so far in the store; or it goes on with them.
  pub handle_none_cases :
      (n : ℕ) (p : Pipeline) (kept : List CaptureRecord)
      → Delivered c n p kept
      → Failed (handle_none c sink callback clock_ns p)
        ⊎ (Goes c n p (handle_none c sink callback clock_ns p) ended kept 0
            × (p.queue.is_closed ≡ true)
            × (p.queue.records ≡ 0)
            × ((handle_none c sink callback clock_ns p).assembler.current ≡ none))
        ⊎ Goes c n p (handle_none c sink callback clock_ns p) at_get kept 0
  unfolding handle_none flush_expired
  handle_none_cases n p kept d = elim (Bool-cases (p.queue.is_closed && p.queue.records == 0)) [
    | inl over ↦ rw over (
        last n p kept over
          (flushed-Goes c uuid_16 sha_32 sink callback clock_ns n ended p shutdown kept d))
    | inr more ↦
        rw more
          (elim (Bool-cases (is_expired c p.assembler p.assembler.current (clock_ns p.readings))) [
            | inl old ↦ rw old (
                on_again n p kept (
                  flushed-Goes c uuid_16 sha_32 sink callback clock_ns n at_get
                    (record p { readings = p.readings + 1 }) linger kept
                    (ticked c uuid_16 sha_32 sink callback clock_ns n p kept (p.readings + 1) d)))
            | inr young ↦ rw young (
                on_again n p kept (
                  persist_answer-Goes c uuid_16 sha_32 sink callback clock_ns n at_get
                    (record p { readings = p.readings + 1 }) p.assembler [] kept [] [] d.ys
                    (ticked c uuid_16 sha_32 sink callback clock_ns n p kept (p.readings + 1) d)
                    (nothing refl) d.in_pack (append-nil d.ys) d.limit))
          ])
  ]

-- ===== src/Catalog/Publishing.antt =====
-- A pass keeps to the order, whatever the writer answers.
use dmi.Base.{
  Bool, List, Option, [], ap, append-nil, append_assoc, arith, cut, drop, false, inl, inr, leb,
  length, length-drop, ltb, none, refl, some, suc, sym, take, true, zero, ℕ, ◌++◌, ◌+◌, ◌<◌, ◌∙◌,
  ◌∷◌, ◌≡◌, ◌≤◌, ◌⊎◌,
}
use dmi.Model.{PackRef, CaptureDescriptor}
use dmi.Catalog.{
  publish_race, failed, publish_exhausted, allocation, lease, Answer, returns, raises,
  publish_conflict, value_error,
}
use dmi.Catalog.Writer.{
  CatalogWriter, allocated, read_head, wrote, published, committed, asked_lease, Trace,
  IndexerState, Ix, allocate, last_published, write, publish, commit, raise, pure, lease_held,
}
use dmi.Catalog.Publish.{
  allocate_version, head_of, cached_head, write_from, write_batches, on_conflict, publish_then,
  after_publish, stamped, rewrite_at, publish_loop, conflict_after, clock_checked, commit_if_any,
  config_valid, write_and_publish, publish_batch, IndexerConfig,
}
use dmi.Catalog.Order.{
  written_at, makes_visible, IsVisible, here, before, IsOrdered, Ends, continue-Ends, answer-Ends,
  if-Ends,
}

module _ (w : CatalogWriter) (refs : List PackRef) (ds : List CaptureDescriptor) where
  -- Ordered, with these descriptors written at a version.
  abbrev pub Written : List CaptureDescriptor → ℕ → Trace → Type 0
  Written done v t = (written_at v t ≡ done) × IsOrdered refs ds t

  abbrev pub Ordered : Trace → Type 0
  Ordered t = IsOrdered refs ds t

  abbrev pub Fresh : Trace → Type 0
  Fresh t = ((v : ℕ) → written_at v t ≡ []) × IsOrdered refs ds t

  head_of-Ends :
      (o : Option ℕ) (s : IndexerState) → Fresh s.trace → Ends (λ _. Fresh) Ordered (head_of w o s)
  unfolding Ends head_of last_published written_at IsOrdered
  head_of-Ends (some head) s h = h
  head_of-Ends none s h =
      let r = w.last_published_version s.trace in
      continue-Ends (λ _. Fresh) (λ _. Fresh) Ordered (last_published w s) _
        (answer-Ends (λ _. Fresh) Ordered (record s { trace = read_head r ∷ s.trace }) r (λ a. h)
          h.1)
        (λ s' a h'. h')

  allocate_version-Ends :
      (s : IndexerState) → Ordered s.trace → Ends (Written []) Ordered (allocate_version w s)
  unfolding Ends allocate_version allocate cached_head written_at IsOrdered
  allocate_version-Ends s h =
      let r = w.allocate_version s.trace in
      continue-Ends (λ _. Fresh) (Written []) Ordered (allocate w s) _
        (answer-Ends (λ _. Fresh) Ordered (record s { trace = allocated r ∷ s.trace }) r
          (λ a. ((λ v. refl), h)) h)
        (λ s1 version f. if-Ends (Written []) Ordered (ltb version 1) (raise value_error) _ s1 f.1 (
          continue-Ends (λ _. Fresh) (Written []) Ordered (cached_head w s1) _
            (head_of-Ends s1.published_version s1 f)
            (λ s2 head g.
              if-Ends (Written []) Ordered (leb version head) (raise allocation) (pure version) s2
                g.1 (g.0 version, g.1))))

  wrote-Ends :
      (more done : List CaptureDescriptor) (v : ℕ) (s : IndexerState) (r : Answer (Unit {0}))
      → Written done v s.trace
      → Ends
          (λ _. Written (done ++ more) v)
          Ordered
          (record s { trace = wrote more v r ∷ s.trace }, r)
  unfolding Ends written_at IsOrdered
  wrote-Ends more done v s (returns u) h = (ground (arith, h.0), h.1)
  wrote-Ends more done v s (raises e) h = h.1

  write_from-Ends :
      (fuel step : ℕ) (more done all : List CaptureDescriptor) (v : ℕ) (s : IndexerState)
      → length more ≤ fuel
      → 0 < step
      → done ++ more ≡ all
      → Written done v s.trace
      → Ends (λ _. Written all v) Ordered (write_from w fuel step more v s)
  unfolding Ends write_from write
  write_from-Ends zero step [] done all v s f p e h = (h.0 ∙ sym (append-nil done) ∙ e, h.1)
  write_from-Ends zero step (d ∷ more) done all v s f p e h = elim f [ ]
  write_from-Ends (suc fuel) step [] done all v s f p e h = (h.0 ∙ sym (append-nil done) ∙ e, h.1)
  write_from-Ends (suc fuel) step (d ∷ more) done all v s f p e h =
      let now = take step (d ∷ more) in
      let later = drop step (d ∷ more) in
      continue-Ends (λ _. Written (done ++ now) v) (λ _. Written all v) Ordered (write w now v s) _
        (wrote-Ends now done v s _ h)
        (λ s1 u h1.
          continue-Ends (λ _. Written all v) (λ _. Written all v) Ordered
            (write_from w fuel step later v s1) _
            (write_from-Ends fuel step later (done ++ now) all v s1
              (omega (arith, length-drop step (d ∷ more))) p
              (append_assoc done now later ∙ ap (λ l. done ++ l) (cut step (d ∷ more)) ∙ e) h1)
            (λ s2 n h2. h2))

  -- What the loop of `_publish` returns is visible.
  abbrev pub Visible : ℕ × ℕ → Trace → Type 0
  Visible outcome t = IsVisible refs outcome.0 t × IsOrdered refs ds t

  published-IsOrdered :
      (v : ℕ) (s : IndexerState) (r : Answer (Unit {0}))
      → Written ds v s.trace
      → Ordered (published v refs (length ds) r ∷ s.trace)
  unfolding IsOrdered
  published-IsOrdered v s r h = (refl, h.0, refl, h.1)

  on_conflict-Ends :
      (named : List PackRef) (v : ℕ) (s : IndexerState)
      → named ≡ refs
      → IsVisible refs v s.trace × IsOrdered refs ds s.trace
      → Ends Visible Ordered (on_conflict w named v s)
  unfolding Ends on_conflict conflict_after commit IsOrdered
  on_conflict-Ends [] v s e h = h.1
  on_conflict-Ends (ref ∷ more) v s e h = (e, h.0, h.1)

  -- A pass that returns had nothing to write, or made its packs visible.
  abbrev pub Done : ℕ → Trace → Type 0
  Done inserts t =
      IsOrdered refs ds t × (((refs ≡ []) × (ds ≡ [])) ⊎ ((v : ℕ) × IsVisible refs v t))

  module _ (step : ℕ) (positive : 0 < step) where
    abbrev pub Retries : (ℕ → ℕ → Ix (ℕ × ℕ)) → Type 0
    Retries again =
        (v n : ℕ) (s : IndexerState) → Written ds v s.trace → Ends Visible Ordered (again v n s)

    rewrite_at-Ends :
        (rewrites : ℕ) (again : ℕ → ℕ → Ix (ℕ × ℕ)) (s : IndexerState)
        → Retries again
        → Ordered s.trace
        → Ends Visible Ordered (rewrite_at w step refs ds rewrites again s)
    unfolding rewrite_at write_batches
    rewrite_at-Ends rewrites again s k h =
        continue-Ends (Written []) Visible Ordered
          (allocate_version w (record s { published_version = none })) _
          (allocate_version-Ends (record s { published_version = none }) h)
          (λ s1 v h1.
            continue-Ends (λ _. Written ds v) Visible Ordered
              (write_from w (length ds) step ds v s1) _
              (write_from-Ends (length ds) step ds [] ds v s1 (omega arith) positive refl h1)
              (λ s2 n h2. k v (rewrites + n) s2 h2))

    after_publish-Ends :
        (left v rewrites : ℕ) (again : ℕ → ℕ → Ix (ℕ × ℕ)) (r : Answer (Unit {0}))
        (s : IndexerState)
        → Retries again
        → (makes_visible r ≡ true → IsVisible refs v s.trace)
        → Ordered s.trace
        → Ends Visible Ordered (after_publish w step refs ds left v rewrites again r s)
    unfolding Ends after_publish makes_visible
    after_publish-Ends left v rewrites again (returns u) s k seen h = (seen refl, h)
    after_publish-Ends left v rewrites again (raises publish_conflict) s k seen h =
        on_conflict-Ends refs v s refl (seen refl, h)
    after_publish-Ends zero v rewrites again (raises publish_race) s k seen h = h
    after_publish-Ends (suc left) v rewrites again (raises publish_race) s k seen h =
        rewrite_at-Ends rewrites again s k h
    after_publish-Ends left v rewrites again (raises publish_exhausted) s k seen h = h
    after_publish-Ends left v rewrites again (raises allocation) s k seen h = h
    after_publish-Ends left v rewrites again (raises lease) s k seen h = h
    after_publish-Ends left v rewrites again (raises value_error) s k seen h = h
    after_publish-Ends left v rewrites again (raises (failed name)) s k seen h = h

    publish_then-Ends :
        (left v rewrites : ℕ) (again : ℕ → ℕ → Ix (ℕ × ℕ)) (s : IndexerState)
        → Retries again
        → Written ds v s.trace
        → Ends Visible Ordered
            (publish_then w step refs ds v (after_publish w step refs ds left v rewrites again) s)
    unfolding publish_then publish
    publish_then-Ends left v rewrites again s k h =
        let r = w.publish_snapshot s.trace v refs (length ds) in
        after_publish-Ends left v rewrites again r
          (record s { trace = published v refs (length ds) r ∷ s.trace }) k
          (λ e. here s.trace (length ds) r refl e) (published-IsOrdered v s r h)

    stamped-Ends :
        (o : Option ℕ) (s : IndexerState) (v : ℕ)
        → Written ds v s.trace
        → Ends (λ _. Written ds v) Ordered (stamped w o s)
    unfolding Ends stamped
    stamped-Ends none s v h = h.1
    stamped-Ends (some now) s v h = h

    publish_loop-Ends : (left : ℕ) → Retries (publish_loop w step refs ds left)
    unfolding Ends publish_loop clock_checked
    publish_loop-Ends zero v n s h = h.1
    publish_loop-Ends (suc left) v n s h =
        continue-Ends (λ _. Written ds v) Visible Ordered (stamped w (w.clock_ns s.trace) s) _
          (stamped-Ends (w.clock_ns s.trace) s v h)
          (λ s1 u h1.
            publish_then-Ends left v n (publish_loop w step refs ds left) s1
              (publish_loop-Ends left) h1)

    commit_if_any-Ends :
        (named : List PackRef) (v : ℕ) (s : IndexerState)
        → named ≡ refs
        → IsVisible refs v s.trace × IsOrdered refs ds s.trace
        → Ends (λ u. Done 0) Ordered (commit_if_any w step refs ds named v s)
    unfolding Ends commit IsOrdered
    commit_if_any-Ends [] v s e h = (h.1, inr (v, h.0))
    commit_if_any-Ends (ref ∷ more) v s e h =
        let r = w.commit_packs s.trace (ref ∷ more) v in
        answer-Ends (λ u. Done 0) Ordered
          (record s { trace = committed (ref ∷ more) v r ∷ s.trace }) r
          (λ u. ((e, h.0, h.1), inr (v, before (committed (ref ∷ more) v r) s.trace refl h.0)))
          (e, h.0, h.1)

    pass-Ends :
        (attempts : ℕ) (held : Bool) (s : IndexerState)
        → Ordered s.trace
        → Ends Done Ordered (write_and_publish w step refs ds attempts held s)
    unfolding Ends write_and_publish write_batches
    pass-Ends attempts false s h = h
    pass-Ends attempts true s h =
        continue-Ends (Written []) Done Ordered (allocate_version w s) _ (allocate_version-Ends s h)
          (λ s1 v h1.
            continue-Ends (λ _. Written ds v) Done Ordered (write_from w (length ds) step ds v s1) _
              (write_from-Ends (length ds) step ds [] ds v s1 (omega arith) positive refl h1)
              (λ s2 n h2.
                continue-Ends Visible Done Ordered (publish_loop w step refs ds attempts v 0 s2) _
                  (publish_loop-Ends attempts v 0 s2 h2)
                  (λ s3 o h3.
                    continue-Ends (λ u. Done 0) Done Ordered
                      (commit_if_any w step refs ds refs o.0 s3) _
                      (commit_if_any-Ends refs o.0 s3 refl h3) (λ s4 u h4. h4))))

-- Whatever the writer answers, a pass with a valid configuration asks for things in this order: a
-- snapshot is published at a version only when all descriptors of the batch, and nothing else,
-- were written at that version since it was allocated, and packs are committed only after a
-- snapshot of them became visible. If the pass returns, there was nothing to write or a snapshot
-- of its packs is visible.
pub publish_batch-IsOrdered :
    (w : CatalogWriter) (g : IndexerConfig) (refs : List PackRef) (ds : List CaptureDescriptor)
    (s : IndexerState)
    → config_valid g ≡ true
    → s.trace ≡ []
    → Ends (Done w refs ds) (IsOrdered refs ds) (publish_batch w g refs ds s)
unfolding Ends config_valid publish_batch lease_held IsOrdered
publish_batch-IsOrdered w g [] [] s v e = (rw e tt, inl (refl, refl))
publish_batch-IsOrdered w g (ref ∷ more) ds s v e =
    pass-Ends w (ref ∷ more) ds g.max_rows_per_insert (ground arith) g.max_publish_attempts _
      (record s { trace = asked_lease (w.holds_lease s.trace) ∷ s.trace }) (rw e tt)
publish_batch-IsOrdered w g [] (d ∷ ds) s v e =
    pass-Ends w [] (d ∷ ds) g.max_rows_per_insert (ground arith) g.max_publish_attempts _
      (record s { trace = asked_lease (w.holds_lease s.trace) ∷ s.trace }) (rw e tt)

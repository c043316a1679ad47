-- ===== src/Catalog/Publish.antt =====
-- `_allocate_version`, `_write_descriptor_batches`, `_publish` and the publishing part of `index`.
use dmi.Base.{
  Bool, List, Option, [], drop, false, if◌then◌else◌, leb, length, ltb, none, some, suc, take, true,
  zero, ℕ, ◌&&◌, ◌+◌, ◌∷◌,
}
use dmi.Model.{PackRef, CaptureDescriptor}
use dmi.Catalog.{
  Answer, returns, raises, publish_race, publish_conflict, publish_exhausted, allocation, lease,
  value_error,
}
use dmi.Catalog.Writer.{
  CatalogWriter, IndexerState, Ix, ◌>>=◌, ◌>>◌, pure, raise, allocate, last_published, write,
  publish, commit, lease_held,
}

pub record IndexerConfig : Type 0 where
  pub max_packs : ℕ
  pub max_rows_per_insert : ℕ
  pub max_estimated_bytes : ℕ
  pub max_failure_details : ℕ
  pub max_publish_attempts : ℕ

-- `__post_init__`: whether it raises nothing.
unfoldable pub config_valid : IndexerConfig → Bool
config_valid g =
    ltb 0 g.max_packs
    && ltb 0 g.max_rows_per_insert
    && ltb 0 g.max_estimated_bytes
    && ltb 0 g.max_failure_details
    && ltb 0 g.max_publish_attempts

module _ (w : CatalogWriter) where
  -- `if self._published_version is None`
  unfoldable pub head_of : Option ℕ → Ix ℕ
  head_of (some head) = pure head
  head_of none = do
    head ← last_published w
    λ s. (record s { published_version = some head }, returns head)

  unfoldable pub cached_head : Ix ℕ
  unfolding head_of
  cached_head s = head_of s.published_version s

  unfoldable pub allocate_version : Ix ℕ
  unfolding cached_head
  allocate_version = do
    version ← allocate w
    if ltb version 1
        then raise value_error
        else do head ← cached_head; if leb version head then raise allocation else pure version

  -- The chunks from `start` on, `step` long; `fuel` is at least their number.
  unfoldable pub write_from : ℕ → ℕ → List CaptureDescriptor → ℕ → Ix ℕ
  write_from zero step ds version = pure 0
  write_from (suc fuel) step [] version = pure 0
  write_from (suc fuel) step (d ∷ ds) version = do
    write w (take step (d ∷ ds)) version
    rest ← write_from fuel step (drop step (d ∷ ds)) version
    pure (rest + 1)

  -- A chunk holds at least one descriptor, so that their number is fuel enough.
  unfoldable pub write_batches : ℕ → List CaptureDescriptor → ℕ → Ix ℕ
  unfolding write_from
  write_batches step ds version = write_from (length ds) step ds version

  -- `raise conflict from commit_failure`, or the bare `raise`.
  unfoldable pub conflict_after : IndexerState × Answer (Unit {0}) → IndexerState × Answer (ℕ × ℕ)
  conflict_after (s, r) = (s, raises publish_conflict)

  unfoldable pub on_conflict : List PackRef → ℕ → Ix (ℕ × ℕ)
  unfolding conflict_after
  on_conflict [] version s = (s, raises publish_conflict)
  on_conflict (ref ∷ refs) version s = conflict_after (commit w (ref ∷ refs) version s)

  abbrev pub forget_head : Ix (Unit {0})
  forget_head s = (record s { published_version = none }, returns tt)

  abbrev pub set_head : ℕ → Ix (Unit {0})
  set_head version s = (record s { published_version = some version }, returns tt)

  -- The reading only stamps the snapshot, so that its value goes no further.
  unfoldable pub stamped : Option ℕ → Ix (Unit {0})
  stamped none s = (s, raises value_error)
  stamped (some now) s = (s, returns tt)

  unfoldable pub clock_checked : Ix (Unit {0})
  unfolding stamped
  clock_checked s = stamped (w.clock_ns s.trace) s

  module _ (step : ℕ) (refs : List PackRef) (ds : List CaptureDescriptor) where
    -- A fresh version with the descriptors written at it, for the next attempt.
    unfoldable pub rewrite_at : ℕ → (ℕ → ℕ → Ix (ℕ × ℕ)) → Ix (ℕ × ℕ)
    unfolding allocate_version write_batches
    rewrite_at rewrites again = do
      forget_head
      version ← allocate_version
      inserts ← write_batches step ds version
      again version (rewrites + inserts)

    -- What an attempt does with the writer's answer, with `left` attempts after it.
    unfoldable pub after_publish : ℕ → ℕ → ℕ → (ℕ → ℕ → Ix (ℕ × ℕ)) → Answer (Unit {0}) → Ix (ℕ × ℕ)
    unfolding on_conflict rewrite_at
    after_publish left version rewrites again (returns u) =
        set_head version >> pure (version, rewrites)
    after_publish left version rewrites again (raises publish_conflict) = on_conflict refs version
    after_publish zero version rewrites again (raises publish_race) = raise publish_exhausted
    after_publish (suc left) version rewrites again (raises publish_race) =
        rewrite_at rewrites again
    after_publish left version rewrites again (raises e) = raise e

    unfoldable pub publish_then : ℕ → (Answer (Unit {0}) → Ix (ℕ × ℕ)) → Ix (ℕ × ℕ)
    publish_then version k s = let (s', r) = publish w version refs (length ds) s in k r s'

    -- `_publish`, with the number of attempts that are left.
    unfoldable pub publish_loop : ℕ → ℕ → ℕ → Ix (ℕ × ℕ)
    unfolding clock_checked publish_then after_publish
    publish_loop zero version rewrites = raise publish_exhausted
    publish_loop (suc left) version rewrites =
        clock_checked
        >> publish_then version (after_publish left version rewrites (publish_loop left))

    abbrev pub commit_if_any : List PackRef → ℕ → Ix (Unit {0})
    commit_if_any [] version = pure tt
    commit_if_any (ref ∷ more) version = commit w (ref ∷ more) version

    -- The branch of `index` that has something to write.
    unfoldable pub write_and_publish : ℕ → Bool → Ix ℕ
    unfolding allocate_version write_batches publish_loop
    write_and_publish attempts false = raise lease
    write_and_publish attempts true = do
      version ← allocate_version
      inserts ← write_batches step ds version
      outcome ← publish_loop attempts version 0
      commit_if_any refs outcome.0
      pure (inserts + outcome.1)

  -- `if descriptors or valid_refs`
  unfoldable pub publish_batch : IndexerConfig → List PackRef → List CaptureDescriptor → Ix ℕ
  unfolding write_and_publish
  publish_batch g [] [] = pure 0
  publish_batch g refs ds =
      lease_held w >>= write_and_publish g.max_rows_per_insert refs ds g.max_publish_attempts

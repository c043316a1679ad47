-- ===== src/Assembler/Conservation.antt =====
-- `append` and `flush` lose no capture and mix no scopes.
use dmi.Base.{
  Bool-cases, List, Option, String, [], ap, append-nil, append_assoc, arith, inl, inr, leb, length,
  none, refl, some, sym, true, ℕ, ◌++◌, ◌<◌, ◌∙◌, ◌∷◌, ◌≡◌,
}
use dmi.Model.{CaptureRecord}
use dmi.Pack.Writer
use dmi.Pack.Writer.{
  Codec, PackWriter, SealedPack, WriteError, seal_pack, over_capacity, duplicate_capture,
  write_record,
}
use dmi.Pack.Writer.Bounds.{seal_fits, append-IsAdmitted}
use dmi.Pack.Writer.Layout.{Holds, Holds-IsSized, Holds-IsLaid, new_ok, added, started}
use dmi.Assembler.{
  admitted_first, first_append, writer_with, adopt, adopt_new, replace_with, record_scope, linger,
  records, Assembler, ReadyPack, returns, FlushReason, flush, flush_if_full, flush_expired, Answer,
  raises, prepend, is_expired, ◌then_do◌, flush_full, OpenPack,
}
use dmi.Assembler.Contents.{Contains, idle, busy, Emits, nothing, emitted, Emits-append, IsPackOf}

module _ (c : Codec) (uuid_16 : (id : String) → length (c.uuid_bytes id) ≡ 16)
    (sha_32 : (bytes : List ℕ) → length (c.sha256 bytes) ≡ 32) where
  seal_held :
      {w : PackWriter} {rs : List CaptureRecord}
      → Holds c w rs
      → 0 < length rs
      → Writer.seal c w
        ≡ Writer.ok (seal_pack c w, record w { buffer = (seal_pack c w).bytes; sealed = true })
  seal_held {w} {rs} h n =
      (seal_fits c w (Holds-IsSized c h) (omega (arith, (Holds-IsLaid c uuid_16 h).counted))
        (sha_32 _)).0

  -- `flush` never raises: it leaves no pack open, and emits what was in it.
  pub flush_lem :
      (a : Assembler) (rs : List CaptureRecord) (reason : FlushReason)
      → Contains c a rs
      → (ps : List ReadyPack) × (flush c a reason ≡ (record a { current = none }, returns ps))
        × Emits c a.max_records ps rs
  unfolding flush
  flush_lem a rs reason (idle e s) = ([], rw e, nothing s)
  flush_lem a rs reason (busy o e p) = (
    record { pack = seal_pack c o.writer; first_metadata = o.first_metadata; reason = reason } ∷ [],
    rw (e, seal_held p.holds p.some_record),
    emitted o.writer o.scope rs [] refl p (nothing refl) (sym (append-nil rs)),
  )

  -- What a method has done, if it raised nothing, with the captures `total` in its care.
  abbrev pub Keeps : ℕ → List CaptureRecord → Assembler × Answer (List ReadyPack) → Type 0
  Keeps n total (a, raises e) = Unit
  Keeps n total (a, returns ps) =
      (xs : List CaptureRecord) × (ys : List CaptureRecord) × Emits c n ps xs
      × Contains c a ys
      × (total ≡ xs ++ ys)
      × (a.max_records ≡ n)

  prepend-Keeps :
      (n : ℕ) (ps : List ReadyPack) (xs ys total rest : List CaptureRecord)
      (res : Assembler × Answer (List ReadyPack))
      → Emits c n ps xs
      → total ≡ xs ++ rest
      → Keeps n rest res
      → Keeps n total (prepend ps res)
  prepend-Keeps n ps xs ys total rest (a, raises e) m s k = tt
  prepend-Keeps n ps xs ys total rest (a, returns qs) m s (us, vs, q, held, t, same) = (
    xs ++ us,
    vs,
    Emits-append c n m q,
    held,
    s ∙ ap (λ l. xs ++ l) t ∙ sym (append_assoc xs us vs),
    same,
  )

  pub then-Keeps :
      (n : ℕ) (rs extra : List CaptureRecord) (m : Assembler × Answer (List ReadyPack))
      (f : Assembler → Assembler × Answer (List ReadyPack))
      → Keeps n rs m
      → ((b : Assembler) (ys : List CaptureRecord)
          → Contains c b ys
          → b.max_records ≡ n
          → Keeps n (ys ++ extra) (f b))
      → Keeps n (rs ++ extra) (m then_do f)
  then-Keeps n rs extra (a, raises e) f k g = tt
  then-Keeps n rs extra (a, returns ps) f (xs, ys, m, held, t, same) g =
      prepend-Keeps n ps xs ys (rs ++ extra) (ys ++ extra) (f a) m
        (ap (λ l. l ++ extra) t ∙ append_assoc xs ys extra) (g a ys held same)

  flush-Keeps :
      (a : Assembler) (rs : List CaptureRecord) (reason : FlushReason)
      → Contains c a rs
      → Keeps a.max_records rs (flush c a reason)
  flush-Keeps a rs reason held =
      let (ps, e, m) = flush_lem a rs reason held in
      rw e (rs, [], m, idle refl refl, sym (append-nil rs), refl)

  stay-Keeps :
      (a : Assembler) (rs : List CaptureRecord)
      → Contains c a rs
      → Keeps a.max_records rs (a, returns [])
  stay-Keeps a rs held = ([], rs, nothing refl, held, refl, refl)

  pub flush_expired-Keeps :
      (a : Assembler) (rs : List CaptureRecord) (now_ns : ℕ)
      → Contains c a rs
      → Keeps a.max_records rs (flush_expired c a now_ns)
  unfolding flush_expired
  flush_expired-Keeps a rs now_ns held = elim (Bool-cases (is_expired c a a.current now_ns)) [
    | inl e ↦ rw e (flush-Keeps a rs linger held)
    | inr e ↦ rw e (stay-Keeps a rs held)
  ]

  flush_full-Keeps :
      (a : Assembler) (o : Option OpenPack) (rs : List CaptureRecord)
      → Contains c a rs
      → Keeps a.max_records rs (flush_full c a o)
  unfolding flush_full
  flush_full-Keeps a none rs held = stay-Keeps a rs held
  flush_full-Keeps a (some o) rs held =
      elim (Bool-cases (leb a.max_records (length o.writer.records))) [
        | inl full ↦ rw full (flush-Keeps a rs records held)
        | inr room ↦ rw room (stay-Keeps a rs held)
      ]

  pub flush_if_full-Keeps :
      (a : Assembler) (rs : List CaptureRecord)
      → Contains c a rs
      → Keeps a.max_records rs (flush_if_full c a)
  unfolding flush_if_full
  flush_if_full-Keeps a rs held = flush_full-Keeps a a.current rs held

  pub append-max_records :
      (w w' : PackWriter) (r : CaptureRecord)
      → Writer.append c w r ≡ Writer.ok w'
      → w'.max_records ≡ w.max_records
  unfolding write_record
  append-max_records w w' r e = ap (λ v. v.max_records) (append-IsAdmitted c w w' r e).written

  -- A writer that was made for one record holds that record.
  abbrev pub IsFirst : Assembler → CaptureRecord → Answer PackWriter → Type 0
  IsFirst a r (raises e) = Unit
  IsFirst a r (returns w) = IsPackOf c w (record_scope r) r.metadata a.max_records (r ∷ [])

  admitted-IsFirst :
      (a : Assembler) (r : CaptureRecord) (w : PackWriter) (m : Writer.Result PackWriter)
      → Writer.new c (a.factory a.made) r.metadata.captured_at_ns a.max_pack_bytes a.max_records
        ≡ Writer.ok w
      → Writer.append c w r ≡ m
      → IsFirst a r (admitted_first c m)
  admitted-IsFirst a r w (Writer.ok w') made e = record {
    holds =
        added r
          (started (a.factory a.made) r.metadata.captured_at_ns a.max_pack_bytes a.max_records made)
          e refl;
    some_record = omega arith;
    one_scope = (refl, tt);
    first_is = (r, [], refl, refl);
    limit = append-max_records w w' r e ∙ made_limit;
    bounded = omega (arith, (append-IsAdmitted c w w' r e).room, made_limit);
  }
    where
      made_limit : w.max_records ≡ a.max_records
      made_limit =
          ap (λ v. v.max_records)
            (new_ok c uuid_16 (a.factory a.made) r.metadata.captured_at_ns a.max_pack_bytes
              a.max_records w made)
  admitted-IsFirst a r w (Writer.err over_capacity) made e = tt
  admitted-IsFirst a r w (Writer.err _) made e = tt

  first_append-IsFirst :
      (a : Assembler) (r : CaptureRecord) (m : Writer.Result PackWriter)
      → Writer.new c (a.factory a.made) r.metadata.captured_at_ns a.max_pack_bytes a.max_records ≡ m
      → IsFirst a r (first_append c m r)
  unfolding first_append
  first_append-IsFirst a r (Writer.err e) made = tt
  first_append-IsFirst a r (Writer.ok w) made =
      admitted-IsFirst a r w (Writer.append c w r) made refl

  pub writer_with-IsFirst : (a : Assembler) (r : CaptureRecord) → IsFirst a r (writer_with c a r).1
  unfolding writer_with
  writer_with-IsFirst a r = first_append-IsFirst a r _ refl

  pub adopt_new-Keeps :
      (a b : Assembler) (r : CaptureRecord) (now_ns : ℕ) (ans : Answer PackWriter)
      → IsFirst a r ans
      → b.max_records ≡ a.max_records
      → Keeps a.max_records (r ∷ []) (adopt_new c (b, ans) r now_ns)
  unfolding adopt
  adopt_new-Keeps a b r now_ns (raises e) f same = tt
  adopt_new-Keeps a b r now_ns (returns w) f same =
      ([], r ∷ [], nothing refl, busy _ refl (rw same f), refl, same)

  pub replace_with-Keeps :
      (a b : Assembler) (rs : List CaptureRecord) (r : CaptureRecord) (now_ns : ℕ)
      (reason : FlushReason) (ans : Answer PackWriter)
      → Contains c b rs
      → IsFirst a r ans
      → b.max_records ≡ a.max_records
      → Keeps a.max_records (rs ++ r ∷ []) (replace_with c reason (b, ans) r now_ns)
  unfolding adopt
  replace_with-Keeps a b rs r now_ns reason (raises e) held f same = tt
  replace_with-Keeps a b rs r now_ns reason (returns w) held f same =
      let (ps, e, m) = flush_lem b rs reason held in
      rw e (rs, r ∷ [], rw (append-nil, ← same) m, busy _ refl (rw same f), refl, same)

-- ===== src/Assembler/Appending.antt =====
-- `append` of an assembler: what its answer and its raises do to the captures.
use dmi.Base.{
  All-append, Bool-cases, List, Option, String, [], ap, append-nil, arith, eq_iff, inl, inr, length,
  length-append, none, refl, some, subst, sym, true, ℕ, ◌++◌, ◌+◌, ◌∙◌, ◌∷◌, ◌≡◌,
}
use dmi.Model.{CaptureRecord, CaptureMetadata}
use dmi.Pack.Writer
use dmi.Pack.Writer.{Codec, PackWriter, WriteError, over_capacity, duplicate_capture}
use dmi.Pack.Writer.Bounds.{append-IsAdmitted}
use dmi.Pack.Writer.Layout.{added, Holds-IsLaid}
use dmi.Assembler.{
  Assembler, OpenPack, ReadyPack, Scope, record_scope, scope_eq, returns, FlushReason, session,
  flush_expired, flush_if_full, writer_with, append_same, append_to, append_current, append,
  ◌then_do◌, replace_with,
}
use dmi.Assembler.Contents.{IsPackOf, Contains, idle, busy, Emits, nothing}
use dmi.Assembler.Conservation.{
  Keeps, append-max_records, writer_with-IsFirst, adopt_new-Keeps, replace_with-Keeps, then-Keeps,
  flush_expired-Keeps, flush_if_full-Keeps,
}

scope_eq_sound : (a b : Scope) → scope_eq a b ≡ true → a ≡ b
scope_eq_sound a b h =
    ground (arith, eq_iff a.tenant_id b.tenant_id, eq_iff a.session_id b.session_id)

opened : (o o' : OpenPack) → some o ≡ some o' → o ≡ o'
opened o o' e = cc

module _ (c : Codec) (uuid_16 : (id : String) → length (c.uuid_bytes id) ≡ 16)
    (sha_32 : (bytes : List ℕ) → length (c.sha256 bytes) ≡ 32) where
  added-IsPackOf :
      (w w' : PackWriter) (s : Scope) (m : CaptureMetadata) (n : ℕ) (rs : List CaptureRecord)
      (r : CaptureRecord)
      → IsPackOf c w s m n rs
      → record_scope r ≡ s
      → Writer.append c w r ≡ Writer.ok w'
      → IsPackOf c w' s m n (rs ++ r ∷ [])
  added-IsPackOf w w' s m n rs r p same e = record {
    holds = added r p.holds e refl;
    some_record = omega (arith, length-append rs (r ∷ []));
    one_scope = All-append (λ x. record_scope x ≡ s) rs (r ∷ []) p.one_scope (same, tt);
    first_is =
        (p.first_is.0, p.first_is.1 ++ r ∷ [], ap (λ l. l ++ r ∷ []) p.first_is.2, p.first_is.3);
    limit = append-max_records c uuid_16 sha_32 w w' r e ∙ p.limit;
    bounded = omega (
      arith,
      length-append rs (r ∷ []),
      (append-IsAdmitted c w w' r e).room,
      p.limit,
      (Holds-IsLaid c uuid_16 p.holds).counted,
    );
  }

  pub drawn :
      (a : Assembler) (rs : List CaptureRecord)
      → Contains c a rs
      → Contains c (record a { made = a.made + 1 }) rs
  drawn a rs (idle e s) = idle e s
  drawn a rs (busy o e p) = busy o e p

  replaced :
      (a : Assembler) (rs : List CaptureRecord) (r : CaptureRecord) (now_ns : ℕ)
      (reason : FlushReason)
      → Contains c a rs
      → Keeps c uuid_16 sha_32 a.max_records
          (rs ++ r ∷ [])
          (replace_with c reason (writer_with c a r) r now_ns)
  unfolding writer_with
  replaced a rs r now_ns reason held =
      replace_with-Keeps c uuid_16 sha_32 a (record a { made = a.made + 1 }) rs r now_ns reason _
        (drawn a rs held) (writer_with-IsFirst c uuid_16 sha_32 a r) refl

  append_same-Keeps :
      (a : Assembler) (o : OpenPack) (rs : List CaptureRecord) (r : CaptureRecord) (now_ns : ℕ)
      (m : Writer.Result PackWriter)
      → a.current ≡ some o
      → IsPackOf c o.writer o.scope o.first_metadata a.max_records rs
      → record_scope r ≡ o.scope
      → Writer.append c o.writer r ≡ m
      → Keeps c uuid_16 sha_32 a.max_records (rs ++ r ∷ []) (append_same c a o m r now_ns)
  unfolding append_same
  append_same-Keeps a o rs r now_ns (Writer.ok w) cur p same e = (
    [],
    rs ++ r ∷ [],
    nothing refl,
    busy _ refl (added-IsPackOf o.writer w o.scope o.first_metadata a.max_records rs r p same e),
    refl,
    refl,
  )
  append_same-Keeps a o rs r now_ns (Writer.err over_capacity) cur p same e =
      replaced a rs r now_ns _ (busy o cur p)
  append_same-Keeps a o rs r now_ns (Writer.err _) cur p same e = tt

  append_to-Keeps :
      (a : Assembler) (cur : Option OpenPack) (rs : List CaptureRecord) (r : CaptureRecord)
      (now_ns : ℕ)
      → a.current ≡ cur
      → Contains c a rs
      → Keeps c uuid_16 sha_32 a.max_records (rs ++ r ∷ []) (append_to c a cur r now_ns)
  unfolding append_to writer_with
  append_to-Keeps a none rs r now_ns e (idle _ s) = rw s (
      adopt_new-Keeps c uuid_16 sha_32 a (record a { made = a.made + 1 }) r now_ns _
        (writer_with-IsFirst c uuid_16 sha_32 a r) refl)
  append_to-Keeps a none rs r now_ns e (busy o e' p) = cc
  append_to-Keeps a (some o) rs r now_ns e (idle e' s) = cc
  append_to-Keeps a (some o) rs r now_ns e (busy o' e' p') =
      let held : Contains c a rs = busy o' e' p' in
      let p : IsPackOf c o.writer o.scope o.first_metadata a.max_records rs =
        subst (λ q. IsPackOf c q.writer q.scope q.first_metadata a.max_records rs)
          (opened o' o (sym e' ∙ e)) p' in
      elim (Bool-cases (scope_eq (record_scope r) o.scope)) [
        | inl same ↦ rw same (
            append_same-Keeps a o rs r now_ns (Writer.append c o.writer r) e p
              (scope_eq_sound (record_scope r) o.scope same) refl)
        | inr other ↦ rw other (replaced a rs r now_ns session held)
      ]

  pub append_current-Keeps :
      (a : Assembler) (rs : List CaptureRecord) (r : CaptureRecord) (now_ns : ℕ)
      → Contains c a rs
      → Keeps c uuid_16 sha_32 a.max_records (rs ++ r ∷ []) (append_current c a r now_ns)
  unfolding append_current
  append_current-Keeps a rs r now_ns held = append_to-Keeps a a.current rs r now_ns refl held

  rest-Keeps :
      (a : Assembler) (rs : List CaptureRecord) (r : CaptureRecord) (now_ns n : ℕ)
      → Contains c a rs
      → a.max_records ≡ n
      → Keeps c uuid_16 sha_32 n
          (rs ++ r ∷ [])
          (append_current c a r now_ns then_do flush_if_full c)
  rest-Keeps a rs r now_ns n held e =
      rw (← e, ← append-nil (rs ++ r ∷ []))
        (then-Keeps c uuid_16 sha_32 a.max_records (rs ++ r ∷ []) [] (append_current c a r now_ns)
          (flush_if_full c) (append_current-Keeps a rs r now_ns held)
          λ b ys h same. rw (append-nil, ← same) (flush_if_full-Keeps c uuid_16 sha_32 b ys h))

  -- When `append` raises nothing, the captures of the packs that it emits, followed by those of the
  -- pack that it leaves open, are those that were open, followed by the new one: in order, none
  -- lost, none twice. Each pack is what `seal` made of captures of one scope, its first capture's
  -- metadata beside it, and holds at most `max_records`.
  pub append_conserves :
      (a b : Assembler) (rs : List CaptureRecord) (r : CaptureRecord) (now_ns : ℕ)
      (ps : List ReadyPack)
      → Contains c a rs
      → append c a r now_ns ≡ (b, returns ps)
      → (xs : List CaptureRecord) × (ys : List CaptureRecord) × Emits c a.max_records ps xs
        × Contains c b ys
        × (rs ++ r ∷ [] ≡ xs ++ ys)
        × (b.max_records ≡ a.max_records)
  unfolding append
  append_conserves a b rs r now_ns ps held e = rw e at (
      then-Keeps c uuid_16 sha_32 a.max_records rs (r ∷ []) (flush_expired c a now_ns)
        (λ b'. (append_current c b' r now_ns then_do flush_if_full c))
        (flush_expired-Keeps c uuid_16 sha_32 a rs now_ns held)
        λ b' ys h same. rest-Keeps b' ys r now_ns a.max_records h same)

-- ===== src/Assembler/Failures.antt =====
-- What `append` leaves behind when it raises, and how long a pack stays open.
use dmi.Base.{
  Bool-cases, List, Option, String, [], arith, false, inl, inr, leb, length, none, refl, some,
  subst, true, ℕ, ◌++◌, ◌+◌, ◌<◌, ◌∷◌, ◌≡◌,
}
use dmi.Pack.Writer
use dmi.Pack.Writer.{over_capacity, Codec, contains}
use dmi.Assembler.{
  Assembler, ReadyPack, Answer, returns, raises, FlushReason, flush, is_expired, flush_if_full,
  append_current, CaptureRecord, flush_expired, append_to, append, append_same, OpenPack,
  writer_with, Failure, adopt, PackWriter, ◌then_do◌, prepend, adopt_new, replace_with, scope_eq,
  linger, record_scope, session, flush_full, records,
}
use dmi.Assembler.Contents.{Contains}
use dmi.Assembler.Conservation.{flush_lem, Keeps}
use dmi.Assembler.Appending.{drawn, append_current-Keeps}

module _ (c : Codec) where
  -- No pack that `current` holds is older than allowed.
  IsFresh : ℕ → ℕ → Assembler × Answer (List ReadyPack) → Type 0
  IsFresh now_ns n (b, raises e) = Unit
  IsFresh now_ns n (b, returns ps) =
      (is_expired c b b.current now_ns ≡ false) × (b.max_linger_ns ≡ n)

  flush-IsFresh :
      (a : Assembler) (now_ns : ℕ) (reason : FlushReason)
      → IsFresh now_ns a.max_linger_ns (flush c a reason)
  unfolding flush IsFresh
  flush-IsFresh a now_ns reason = ground arith

  flush_expired-IsFresh :
      (a : Assembler) (now_ns : ℕ) → IsFresh now_ns a.max_linger_ns (flush_expired c a now_ns)
  unfolding flush_expired flush IsFresh
  flush_expired-IsFresh a now_ns = ground arith

  flush_if_full-IsFresh :
      (a : Assembler) (now_ns n : ℕ)
      → is_expired c a a.current now_ns ≡ false
      → a.max_linger_ns ≡ n
      → IsFresh now_ns n (flush_if_full c a)
  unfolding flush_if_full flush IsFresh
  flush_if_full-IsFresh now_ns n h e = ground arith

  append_current-IsFresh :
      (a : Assembler) (r : CaptureRecord) (now_ns n : ℕ)
      → 0 < n
      → is_expired c a a.current now_ns ≡ false
      → a.max_linger_ns ≡ n
      → IsFresh now_ns n (append_current c a r now_ns)
  unfolding append_current append_to append_same flush IsFresh writer_with adopt
  append_current-IsFresh a r now_ns n pos h e = ground arith

  prepend-IsFresh :
      (now_ns n : ℕ) (ps : List ReadyPack) (res : Assembler × Answer (List ReadyPack))
      → IsFresh now_ns n res
      → IsFresh now_ns n (prepend ps res)
  unfolding IsFresh
  prepend-IsFresh now_ns n ps (b, raises e) h = tt
  prepend-IsFresh now_ns n ps (b, returns qs) h = h

  then-IsFresh :
      (now_ns n : ℕ) (m : Assembler × Answer (List ReadyPack))
      (f : Assembler → Assembler × Answer (List ReadyPack))
      → IsFresh now_ns n m
      → ((b : Assembler)
          → is_expired c b b.current now_ns ≡ false
          → b.max_linger_ns ≡ n
          → IsFresh now_ns n (f b))
      → IsFresh now_ns n (m then_do f)
  unfolding IsFresh
  then-IsFresh now_ns n (b, raises e) f h g = tt
  then-IsFresh now_ns n (b, returns ps) f h g = prepend-IsFresh now_ns n ps (f b) (g b h.0 h.1)

  append-IsFresh :
      (a : Assembler) (r : CaptureRecord) (now_ns : ℕ)
      → 0 < a.max_linger_ns
      → IsFresh now_ns a.max_linger_ns (append c a r now_ns)
  unfolding append
  append-IsFresh a r now_ns pos =
      then-IsFresh now_ns a.max_linger_ns (flush_expired c a now_ns)
        (λ b. (append_current c b r now_ns then_do flush_if_full c))
        (flush_expired-IsFresh a now_ns)
        λ b young same.
          then-IsFresh now_ns a.max_linger_ns (append_current c b r now_ns) (flush_if_full c)
            (append_current-IsFresh b r now_ns a.max_linger_ns pos young same)
            λ d young' same'. flush_if_full-IsFresh d now_ns a.max_linger_ns young' same'

  -- After an `append` that raises nothing, the pack left open, if any, is younger than
  -- `max_linger_ns` at the time of the call, whatever was open before.
  pub append_bounds_linger :
      (a b : Assembler) (r : CaptureRecord) (now_ns : ℕ) (ps : List ReadyPack)
      → 0 < a.max_linger_ns
      → append c a r now_ns ≡ (b, returns ps)
      → is_expired c b b.current now_ns ≡ false
  unfolding IsFresh
  append_bounds_linger a b r now_ns ps pos e =
      (subst (IsFresh now_ns a.max_linger_ns) e (append-IsFresh a r now_ns pos)).0

  module _ (uuid_16 : (id : String) → length (c.uuid_bytes id) ≡ 16)
      (sha_32 : (bytes : List ℕ) → length (c.sha256 bytes) ≡ 32) where
    -- If the open pack has expired and the next record fits no pack, what `append` has flushed by
    -- then is in neither its answer nor the open pack: those captures are gone.
    pub expired_pack_lost :
        (a : Assembler) (o : OpenPack) (rs : List CaptureRecord) (r : CaptureRecord) (now_ns : ℕ)
        (e : Failure)
        → a.current ≡ some o
        → Contains c a rs
        → is_expired c a a.current now_ns ≡ true
        → (writer_with c (record a { current = none }) r).1 ≡ raises e
        → (b : Assembler) × (append c a r now_ns ≡ (b, raises e)) × (b.current ≡ none)
    unfolding append flush_expired append_current append_to writer_with
    expired_pack_lost a o rs r now_ns e cur held old failed =
        let (ps, flushed, m) = flush_lem c uuid_16 sha_32 a rs linger held in
        (
          record (record a { current = none }) { made = a.made + 1 },
          rw (old, flushed, failed),
          refl,
        )

    -- What raises leaves the open pack as it was.
    Untouched : Option OpenPack → Assembler × Answer (List ReadyPack) → Type 0
    Untouched cur (b, raises e) = b.current ≡ cur
    Untouched cur (b, returns ps) = Unit

    flush-Untouched :
        (a : Assembler) (rs : List CaptureRecord) (reason : FlushReason) (ps : List ReadyPack)
        (cur : Option OpenPack)
        → Contains c a rs
        → Untouched cur (prepend ps (flush c a reason))
    unfolding Untouched
    flush-Untouched a rs reason ps cur held = rw (flush_lem c uuid_16 sha_32 a rs reason held).1 tt

    replace_with-Untouched :
        (a : Assembler) (rs : List CaptureRecord) (r : CaptureRecord) (now_ns : ℕ)
        (reason : FlushReason) (ans : Answer PackWriter)
        → Contains c a rs
        → Untouched a.current (replace_with c reason (a, ans) r now_ns)
    unfolding Untouched
    replace_with-Untouched a rs r now_ns reason (raises e) held = refl
    replace_with-Untouched a rs r now_ns reason (returns w) held =
        rw (flush_lem c uuid_16 sha_32 a rs reason held).1 tt

    append_same-Untouched :
        (a : Assembler) (o : OpenPack) (rs : List CaptureRecord) (r : CaptureRecord) (now_ns : ℕ)
        (m : Writer.Result PackWriter)
        → Contains c a rs
        → Untouched a.current (append_same c a o m r now_ns)
    unfolding Untouched append_same writer_with
    append_same-Untouched a o rs r now_ns (Writer.ok w) held = tt
    append_same-Untouched a o rs r now_ns (Writer.err over_capacity) held =
        replace_with-Untouched (record a { made = a.made + 1 }) rs r now_ns _ _
          (drawn c uuid_16 sha_32 a rs held)
    append_same-Untouched a o rs r now_ns (Writer.err _) held = refl

    append_to-Untouched :
        (a : Assembler) (cur : Option OpenPack) (rs : List CaptureRecord) (r : CaptureRecord)
        (now_ns : ℕ)
        → Contains c a rs
        → Untouched a.current (append_to c a cur r now_ns)
    unfolding Untouched append_to writer_with
    append_to-Untouched a none rs r now_ns held = new_one _
      where
        new_one :
            (ans : Answer PackWriter)
            → Untouched a.current (adopt_new c (record a { made = a.made + 1 }, ans) r now_ns)
        new_one (raises e) = refl
        new_one (returns w) = tt
    append_to-Untouched a (some o) rs r now_ns held =
        elim (Bool-cases (scope_eq (record_scope r) o.scope)) [
          | inl same ↦ rw same (append_same-Untouched a o rs r now_ns _ held)
          | inr other ↦ rw other (
              replace_with-Untouched (record a { made = a.made + 1 }) rs r now_ns session _
                (drawn c uuid_16 sha_32 a rs held))
        ]

    then-Untouched :
        (a : Assembler) (rs : List CaptureRecord) (n : ℕ) (cur : Option OpenPack)
        (m : Assembler × Answer (List ReadyPack))
        → Keeps c uuid_16 sha_32 n rs m
        → Untouched cur m
        → Untouched cur (m then_do flush_if_full c)
    unfolding Untouched flush_full flush_if_full
    then-Untouched a rs n cur (b, raises e) k u = u
    then-Untouched a rs n cur (b, returns ps) (xs, ys, m, held, t, same) u = full b.current
      where
        full : (o : Option OpenPack) → Untouched cur (prepend ps (flush_full c b o))
        full none = tt
        full (some o) = elim (Bool-cases (leb b.max_records (length o.writer.records))) [
          | inl e ↦ rw e (flush-Untouched b ys records ps cur held)
          | inr e ↦ rw e tt
        ]

    prepend-Untouched :
        (cur : Option OpenPack) (ps : List ReadyPack) (m : Assembler × Answer (List ReadyPack))
        → Untouched cur m
        → Untouched cur (prepend ps m)
    unfolding Untouched
    prepend-Untouched cur ps (b, raises e) u = u
    prepend-Untouched cur ps (b, returns qs) u = u

    append-Untouched :
        (a : Assembler) (rs : List CaptureRecord) (r : CaptureRecord) (now_ns : ℕ)
        → Contains c a rs
        → is_expired c a a.current now_ns ≡ false
        → Untouched a.current (append c a r now_ns)
    unfolding append flush_expired append_current
    append-Untouched a rs r now_ns held young = rw young (
        prepend-Untouched a.current [] _ (
          then-Untouched a (rs ++ r ∷ []) a.max_records a.current (append_to c a a.current r now_ns)
            (append_current-Keeps c uuid_16 sha_32 a rs r now_ns held)
            (append_to-Untouched a a.current rs r now_ns held)))

    -- An `append` that raises while the open pack has not expired leaves that pack as it was: what
    -- it held is still to be emitted.
    pub append_raise_keeps :
        (a b : Assembler) (rs : List CaptureRecord) (r : CaptureRecord) (now_ns : ℕ) (e : Failure)
        → Contains c a rs
        → is_expired c a a.current now_ns ≡ false
        → append c a r now_ns ≡ (b, raises e)
        → b.current ≡ a.current
    unfolding Untouched
    append_raise_keeps a b rs r now_ns e held young raised =
        subst (Untouched a.current) raised (append-Untouched a rs r now_ns held young)

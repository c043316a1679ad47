-- ===== src/Assembler/Contents.antt =====
-- Which captures the packs of an assembler hold: what is open, and what was emitted.
use dmi.Base.{All, List, [], append_assoc, length, none, some, ℕ, ◌++◌, ◌<◌, ◌∷◌, ◌≡◌, ◌≤◌}
use dmi.Model.{CaptureRecord, CaptureMetadata}
use dmi.Pack.Writer.{Codec, PackWriter, seal_pack}
use dmi.Pack.Writer.Layout.{Holds}
use dmi.Assembler.{Assembler, OpenPack, ReadyPack, Scope, record_scope}

-- The captures of one pack, all of one scope; the key is made from the first one's metadata.
pub record IsPackOf (c : Codec) (w : PackWriter) (scope : Scope) (first : CaptureMetadata)
    (max_records : ℕ) (rs : List CaptureRecord) : Type 0 where
  pub holds : Holds c w rs
  pub some_record : 0 < length rs
  pub one_scope : All (λ r. record_scope r ≡ scope) rs
  pub first_is :
      (r : CaptureRecord) × (rest : List CaptureRecord) × (rs ≡ r ∷ rest) × (first ≡ r.metadata)
  pub limit : w.max_records ≡ max_records
  pub bounded : length rs ≤ max_records

-- What is in the open pack.
pub data Contains (c : Codec) (a : Assembler) : List CaptureRecord → Type 0 where
  idle : {rs : List CaptureRecord} → a.current ≡ none → rs ≡ [] → Contains c a rs
  busy :
      {rs : List CaptureRecord} (o : OpenPack)
      → a.current ≡ some o
      → IsPackOf c o.writer o.scope o.first_metadata a.max_records rs
      → Contains c a rs

-- Packs that were emitted, and their captures one pack after the other.
pub data Emits (c : Codec) (max_records : ℕ) : List ReadyPack → List CaptureRecord → Type 0 where
  nothing : {rs : List CaptureRecord} → rs ≡ [] → Emits c max_records [] rs
  emitted :
      {ready : ReadyPack} {more : List ReadyPack} {all : List CaptureRecord} (w : PackWriter)
      (scope : Scope) (rs rest : List CaptureRecord)
      → ready.pack ≡ seal_pack c w
      → IsPackOf c w scope ready.first_metadata max_records rs
      → Emits c max_records more rest
      → all ≡ rs ++ rest
      → Emits c max_records (ready ∷ more) all

pub Emits-append :
    (c : Codec) (n : ℕ) {ps qs : List ReadyPack} {xs ys : List CaptureRecord}
    → Emits c n ps xs
    → Emits c n qs ys
    → Emits c n (ps ++ qs) (xs ++ ys)
Emits-append c n (nothing e) q = rw e q
Emits-append c n {ys = ys} (emitted w scope rs rest e p m s) q =
    emitted w scope rs (rest ++ ys) e p (Emits-append c n m q) (rw s (append_assoc rs rest ys))

-- ===== src/Cursor/RoundTrip.antt =====
-- A cursor that `encode_cursor` made is decoded to the position that it was made for.
use dmi.Base.{
  List, Option, Bool, ◌≡◌, ◌≤◌, ◌<◌, ◌-◌, ◌^◌, ℕ, none, some, refl, subst, leb, ltb, length, true,
  false, lt→ltb, le→leb,
}
use dmi.Pack.Records.{bytes_eq_refl}
use dmi.Cursor.{
  CursorKey, Json, number, text, base64, from_base64, ◌>>=◌, ◌>>◌, demand, cursor_limit,
  encode_cursor, decode_cursor, cursor_of, payload_of, uint64, text_of, key_of,
}
use dmi.Cursor.Base64.{AreBytes, from_base64-base64, base64-nonempty}

demand-some :
    {B : Type 0} (b : Bool) (k : Option B) (x : B)
    → (demand b >> k) ≡ some x
    → (b ≡ true) × (k ≡ some x)
demand-some true k x e = (refl, e)
demand-some false k x e = cc

bind_some :
    {A B : Type 0} (m : Option A) (f : A → Option B) (x : B)
    → (m >>= f) ≡ some x
    → (a : A) × (m ≡ some a) × (f a ≡ some x)
bind_some none f x e = cc
bind_some (some a) f x e = (a, refl, e)

uint64-same : (n m : ℕ) → uint64 (number n) ≡ some m → uint64 (number n) ≡ some n
unfolding uint64
uint64-same n m e = let (b, k) = demand-some (leb n (2 ^ 64 - 1)) (some n) m e in rw b refl

text_of-same : (s t : List ℕ) → text_of (text s) ≡ some t → text_of (text s) ≡ some s
unfolding text_of
text_of-same s t e = let (b, k) = demand-some (ltb 0 (length s)) (some s) t e in rw b refl

-- What `encode_cursor` has checked when it returns.
record IsChecked (key : CursorKey) (watermark : ℕ) (filter_hash : List ℕ) : Type 0 where
  w : uint64 (number watermark) ≡ some watermark
  fh : text_of (text filter_hash) ≡ some filter_hash
  tenant : text_of (text key.tenant_id) ≡ some key.tenant_id
  experiment : text_of (text key.experiment_id) ≡ some key.experiment_id
  run : text_of (text key.run_id) ≡ some key.run_id
  captured : uint64 (number key.captured_at_ns) ≡ some key.captured_at_ns
  capture : text_of (text key.capture_id) ≡ some key.capture_id

encoded_lem :
    (dumps : Json → List ℕ) (key : CursorKey) (watermark : ℕ) (filter_hash cursor : List ℕ)
    → encode_cursor dumps key watermark filter_hash ≡ some cursor
    → IsChecked key watermark filter_hash
      × (leb (length cursor) cursor_limit ≡ true)
      × (base64 (dumps (payload_of key watermark filter_hash)) ≡ cursor)
unfolding encode_cursor
encoded_lem dumps key watermark filter_hash cursor e =
    let (a1, h1, e1) = bind_some (uint64 (number watermark)) _ cursor e in
    let (a2, h2, e2) = bind_some (text_of (text filter_hash)) _ cursor e1 in
    let (a3, h3, e3) = bind_some (text_of (text key.tenant_id)) _ cursor e2 in
    let (a4, h4, e4) = bind_some (text_of (text key.experiment_id)) _ cursor e3 in
    let (a5, h5, e5) = bind_some (text_of (text key.run_id)) _ cursor e4 in
    let (a6, h6, e6) = bind_some (uint64 (number key.captured_at_ns)) _ cursor e5 in
    let (a7, h7, e7) = bind_some (text_of (text key.capture_id)) _ cursor e6 in
    let encoded = base64 (dumps (payload_of key watermark filter_hash)) in
    let (small, same) = demand-some (leb (length encoded) cursor_limit) (some encoded) cursor e7 in
    let is_cursor = some_value encoded cursor same in
    (
      record {
        w = uint64-same watermark a1 h1;
        fh = text_of-same filter_hash a2 h2;
        tenant = text_of-same key.tenant_id a3 h3;
        experiment = text_of-same key.experiment_id a4 h4;
        run = text_of-same key.run_id a5 h5;
        captured = uint64-same key.captured_at_ns a6 h6;
        capture = text_of-same key.capture_id a7 h7;
      },
      subst (λ l. leb (length l) cursor_limit ≡ true) is_cursor small,
      is_cursor,
    )
  where
    some_value : (a b : List ℕ) → some a ≡ some b → a ≡ b
    some_value a b p = cc

payload_decoded :
    (key : CursorKey) (watermark max_watermark : ℕ) (filter_hash : List ℕ)
    → IsChecked key watermark filter_hash
    → leb watermark max_watermark ≡ true
    → cursor_of filter_hash max_watermark (payload_of key watermark filter_hash)
      ≡ some (record { version = 1; watermark = watermark; filter_hash = filter_hash; key = key })
unfolding cursor_of payload_of key_of
payload_decoded key watermark max_watermark filter_hash h small =
    rw
      (
        h.w,
        small,
        h.fh,
        bytes_eq_refl filter_hash,
        h.tenant,
        h.experiment,
        h.run,
        h.captured,
        h.capture,
      )
      refl

-- Given a `json.dumps` whose bytes are bytes, at least one, and a `json.loads` that reads them back:
-- a cursor that `encode_cursor` returns is decoded, with the same filter hash and a catalog at least
-- at its watermark, to the position, the watermark and the filter hash that it was made for.
pub decode-encode :
    (dumps : Json → List ℕ) (loads : List ℕ → Option Json) (key : CursorKey)
    (watermark max_watermark : ℕ) (filter_hash cursor : List ℕ)
    → AreBytes (dumps (payload_of key watermark filter_hash))
    → 0 < length (dumps (payload_of key watermark filter_hash))
    → loads (dumps (payload_of key watermark filter_hash))
      ≡ some (payload_of key watermark filter_hash)
    → watermark ≤ max_watermark
    → encode_cursor dumps key watermark filter_hash ≡ some cursor
    → decode_cursor loads cursor filter_hash max_watermark
      ≡ some (record { version = 1; watermark = watermark; filter_hash = filter_hash; key = key })
unfolding decode_cursor
decode-encode dumps loads key watermark max_watermark filter_hash cursor bytes some_bytes reads
      small e =
    let raw = dumps (payload_of key watermark filter_hash) in
    let (checked, short, same) = encoded_lem dumps key watermark filter_hash cursor e in
    let nonempty : ltb 0 (length cursor) ≡ true =
      subst (λ l. ltb 0 (length l) ≡ true) same
        (lt→ltb 0 (length (base64 raw)) (base64-nonempty raw some_bytes)) in
    let decoded : from_base64 cursor ≡ some raw =
      subst (λ l. from_base64 l ≡ some raw) same (from_base64-base64 raw bytes) in
    rw (nonempty, short, decoded, reads)
      (payload_decoded key watermark max_watermark filter_hash checked
        (le→leb watermark max_watermark small))

-- ===== src/Cursor.antt =====
-- src/dmi/storage/capture/cursor.py: keyset pagination cursors.
-- `json.dumps` and `json.loads` are parameters; what `json.loads` returns is a value of `Json`.
-- Texts are lists of code points; the characters of a cursor are ASCII wherever it is not refused.
pub mod Base64
pub mod RoundTrip
pub mod Aliases
use dmi.Base.{
  Bool, List, Option, [], false, if◌then◌else◌, leb, length, none, not, some, true, ℕ, ◌%◌, ◌&&◌,
  ◌+◌, ◌-◌, ◌/◌, ◌*◌, ◌==◌, ◌^◌, ◌||◌, ◌∷◌, ◌++◌, ltb, suc, zero,
}
use dmi.Pack.Reader.{bytes_eq}

pub record CursorKey : Type 0 where
  pub tenant_id : List ℕ
  pub experiment_id : List ℕ
  pub run_id : List ℕ
  pub captured_at_ns : ℕ
  pub capture_id : List ℕ

pub record Cursor : Type 0 where
  pub version : ℕ
  pub watermark : ℕ
  pub filter_hash : List ℕ
  pub key : CursorKey

-- What `json.loads` may return: a whole number that is not negative, a text, a list, an object (a
-- `dict`, so that no key comes twice), or something else.
mutual
  pub data Json : Type 0 where
    number : ℕ → Json
    text : List ℕ → Json
    array : Items → Json
    object : Fields → Json
    other : Json

  pub data Items : Type 0 where
    end_of_items : Items
    item : Json → Items → Items

  pub data Fields : Type 0 where
    end_of_fields : Fields
    field : List ℕ → Json → Fields → Fields

-- The character of six bits, in the url-safe alphabet.
unfoldable pub char_of : ℕ → ℕ
char_of n =
    if ltb n 26
    then 65 + n
    else if ltb n 52
    then 71 + n
    else if ltb n 62
    then n - 4
    else if n == 62
    then b'-'
    else b'_'

-- and back; `none` is a character outside `_URLSAFE_ALPHABET`.
unfoldable pub sextet_of : ℕ → Option ℕ
sextet_of ch =
    if leb b'A' ch && leb ch b'Z'
    then some (ch - 65)
    else if leb b'a' ch && leb ch b'z'
    then some (ch - 71)
    else if leb b'0' ch && leb ch b'9'
    then some (ch + 4)
    else if ch == b'-'
    then some 62
    else if ch == b'_'
    then some 63
    else none

-- `urlsafe_b64encode(raw).rstrip(b"=")`
unfoldable pub base64 : List ℕ → List ℕ
unfolding char_of
base64 [] = []
base64 (a ∷ []) = char_of (a / 4) ∷ char_of (a % 4 * 16) ∷ []
base64 (a ∷ b ∷ []) = char_of (a / 4) ∷ char_of (a % 4 * 16 + b / 16) ∷ char_of (b % 16 * 4) ∷ []
base64 (a ∷ b ∷ c ∷ bs) =
    char_of (a / 4)
    ∷ char_of (a % 4 * 16 + b / 16)
    ∷ char_of (b % 16 * 4 + c / 64)
    ∷ char_of (c % 64)
    ∷ base64 bs

infixl 5 ◌>>=◌
abbrev pub ◌>>=◌ : {A B : Type 0} → Option A → (A → Option B) → Option B
none >>= f = none
some a >>= f = f a

infixl 5 ◌>>◌
abbrev pub ◌>>◌ : {B : Type 0} → Option (Unit {0}) → Option B → Option B
m >> k = m >>= λ u. k

-- `_require`; `none` is an `InvalidCursorError`.
abbrev pub demand : Bool → Option (Unit {0})
demand true = some tt
demand false = none

unfoldable pub sextets : List ℕ → Option (List ℕ)
unfolding sextet_of
sextets [] = some []
sextets (ch ∷ chs) = sextet_of ch >>= λ n. sextets chs >>= λ ns. some (n ∷ ns)

-- What `b64decode` makes of the bits; the bits that are left over at the end are not looked at.
unfoldable pub bytes_of : List ℕ → Option (List ℕ)
bytes_of [] = some []
bytes_of (s ∷ []) = none
bytes_of (s ∷ t ∷ []) = some ((s * 4 + t / 16) ∷ [])
bytes_of (s ∷ t ∷ u ∷ []) = some ((s * 4 + t / 16) ∷ (t % 16 * 16 + u / 4) ∷ [])
bytes_of (s ∷ t ∷ u ∷ v ∷ ns) = bytes_of ns >>= λ rest.
    some ((s * 4 + t / 16) ∷ (t % 16 * 16 + u / 4) ∷ (u % 4 * 64 + v) ∷ rest)

-- `_URLSAFE_ALPHABET.fullmatch` and `b64decode` of the padded cursor.
unfoldable pub from_base64 : List ℕ → Option (List ℕ)
unfolding sextets bytes_of
from_base64 chs = sextets chs >>= bytes_of

abbrev pub cursor_limit : ℕ
cursor_limit = 2048

-- `_uint64` and `_text` of a value.
unfoldable pub uint64 : Json → Option ℕ
uint64 (number n) = demand (leb n (2 ^ 64 - 1)) >> some n
uint64 _ = none

unfoldable pub text_of : Json → Option (List ℕ)
text_of (text s) = demand (ltb 0 (length s)) >> some s
text_of _ = none

-- The payload of `encode_cursor`.
unfoldable pub payload_of : CursorKey → ℕ → List ℕ → Json
payload_of key watermark filter_hash = object (
    field (b'v' ∷ []) (number 1) (
      field (b'w' ∷ []) (number watermark) (
        field (b'f' ∷ b'h' ∷ []) (text filter_hash) (
          field (b'k' ∷ [])
            (array (
              item (text key.tenant_id) (
                item (text key.experiment_id) (
                  item (text key.run_id)
                    (item (number key.captured_at_ns) (item (text key.capture_id) end_of_items))))))
            end_of_fields))))

abbrev pub within_limit : List ℕ → Option (List ℕ)
within_limit encoded = demand (leb (length encoded) cursor_limit) >> some encoded

-- `encode_cursor`, with `json.dumps(…).encode("utf-8")`
unfoldable pub encode_cursor : (Json → List ℕ) → CursorKey → ℕ → List ℕ → Option (List ℕ)
unfolding uint64 text_of payload_of base64
encode_cursor dumps key watermark filter_hash = uint64 (number watermark) >>= λ w.
    text_of (text filter_hash) >>= λ fh. text_of (text key.tenant_id) >>= λ t.
    text_of (text key.experiment_id) >>= λ e. text_of (text key.run_id) >>= λ r.
    uint64 (number key.captured_at_ns) >>= λ ns. text_of (text key.capture_id) >>= λ c.
    within_limit (base64 (dumps (payload_of key watermark filter_hash)))

abbrev pub lookup : List ℕ → Fields → Option Json
lookup k end_of_fields = none
lookup k (field name value fs) = if bytes_eq name k then some value else lookup k fs

abbrev pub only_envelope : Fields → Bool
only_envelope end_of_fields = true
only_envelope (field name value fs) =
    (bytes_eq name (b'v' ∷ [])
      || bytes_eq name (b'w' ∷ [])
      || bytes_eq name (b'f' ∷ b'h' ∷ [])
      || bytes_eq name (b'k' ∷ []))
    && only_envelope fs

abbrev pub is_version : Json → Bool
is_version (number n) = n == 1
is_version _ = false

-- The last part of `decode_cursor`: the key.
unfoldable pub key_of : Json → Option CursorKey
unfolding uint64 text_of
key_of (array (item t (item e (item r (item ns (item c end_of_items)))))) = text_of t >>= λ tenant.
    text_of e >>= λ experiment. text_of r >>= λ run. uint64 ns >>= λ captured.
    text_of c >>= λ capture. some (record {
      tenant_id = tenant;
      experiment_id = experiment;
      run_id = run;
      captured_at_ns = captured;
      capture_id = capture;
    })
key_of _ = none

unfoldable pub cursor_of : List ℕ → ℕ → Json → Option Cursor
unfolding uint64 text_of key_of
cursor_of filter_hash max_watermark (object fs) =
    demand (only_envelope fs)
    >> (lookup (b'v' ∷ []) fs >>= λ v. lookup (b'w' ∷ []) fs >>= λ w.
        lookup (b'f' ∷ b'h' ∷ []) fs >>= λ fh. lookup (b'k' ∷ []) fs >>= λ k.
        demand (is_version v)
        >> (uint64 w >>= λ watermark.
            demand (leb watermark max_watermark)
            >> (text_of fh >>= λ hash.
                demand (bytes_eq hash filter_hash)
                >> (key_of k >>= λ key. some (record {
                  version = 1;
                  watermark = watermark;
                  filter_hash = hash;
                  key = key;
                })))))
cursor_of filter_hash max_watermark _ = none

-- `decode_cursor`, with `json.loads`; `none` there is a text that is no JSON.
unfoldable pub decode_cursor : (List ℕ → Option Json) → List ℕ → List ℕ → ℕ → Option Cursor
unfolding from_base64 cursor_of
decode_cursor loads cursor filter_hash max_watermark =
    demand (ltb 0 (length cursor))
    >> (demand (leb (length cursor) cursor_limit)
        >> (from_base64 cursor >>= λ raw. loads raw >>= cursor_of filter_hash max_watermark))

-- ===== src/Keys.antt =====
-- Object keys: `object_key_for` of src/dmi/storage/capture/pipeline.py, and `key_component`,
-- `reject_a_foreign_tenant` and what they use of src/dmi/storage/capture/pack.py. A text is the list
-- of its code points. The name of the day in a key is a parameter: it comes from `strftime`.
pub mod Utf8
pub mod Quoting
pub mod Components
pub mod Tenants
use Prim.Native.Char.{Char, code}
use dmi.Base.{
  ℕ, zero, suc, ◌+◌, ◌-◌, ◌/◌, ◌%◌, String, Bool, true, false, not, ◌&&◌, ◌||◌, Option, none, some,
  List, [], ◌∷◌, ◌++◌, ltb, leb, ◌==◌, if◌then◌else◌, length,
}
use dmi.Model.{CaptureMetadata, PackRef}
use dmi.Pack.Writer.{Codec}
use dmi.Pack.Reader.{Read, ok, err, bad_integrity, bytes_eq}

abbrev pub codes : String → List ℕ
codes String.[] = []
codes (String.◌∷◌ c s) = code c ∷ codes s

-- `str.encode()`
unfoldable pub utf8_char : ℕ → List ℕ
utf8_char n =
    if ltb n 128
    then n ∷ []
    else if ltb n 2048
    then (192 + n / 64) ∷ (128 + n % 64) ∷ []
    else if ltb n 65536
    then (224 + n / 4096) ∷ (128 + n / 64 % 64) ∷ (128 + n % 64) ∷ []
    else (240 + n / 262144) ∷ (128 + n / 4096 % 64) ∷ (128 + n / 64 % 64) ∷ (128 + n % 64) ∷ []

unfoldable pub utf8 : List ℕ → List ℕ
utf8 [] = []
utf8 (n ∷ ns) = utf8_char n ++ utf8 ns

-- What `quote` leaves as it is: `_ALWAYS_SAFE`, which holds `~`, and the `safe` of the call.
unfoldable pub is_safe : ℕ → Bool
is_safe b =
    (leb b'a' b && leb b b'z')
    || (leb b'A' b && leb b b'Z')
    || (leb b'0' b && leb b b'9')
    || b == b'_'
    || b == b'.'
    || b == b'-'
    || b == b'~'
    || b == b'='

abbrev pub hex_digit : ℕ → ℕ
hex_digit n = if ltb n 10 then 48 + n else 55 + n

unfoldable pub quote_byte : ℕ → List ℕ
quote_byte b = if is_safe b then b ∷ [] else b'%' ∷ hex_digit (b / 16) ∷ hex_digit (b % 16) ∷ []

-- `quote(value, safe="-_.=")` of the encoded value
unfoldable pub quote : List ℕ → List ℕ
quote [] = []
quote (b ∷ bs) = quote_byte b ++ quote bs

-- `.replace("~", "%7E")`
unfoldable pub replace_tilde : List ℕ → List ℕ
replace_tilde [] = []
replace_tilde (b ∷ bs) = (if b == b'~' then b'%' ∷ b'7' ∷ b'E' ∷ [] else b ∷ []) ++ replace_tilde bs

unfoldable pub encoded : List ℕ → List ℕ
encoded value = replace_tilde (quote (utf8 value))

-- `_DIGEST_PREFIX`
abbrev pub digest_prefix : List ℕ
digest_prefix = codes "sha256-"

-- `value[len(prefix):]` where `value.startswith(prefix)`
unfoldable pub strip_prefix : List ℕ → List ℕ → Option (List ℕ)
strip_prefix [] value = some value
strip_prefix (p ∷ ps) [] = none
strip_prefix (p ∷ ps) (v ∷ vs) = if p == v then strip_prefix ps vs else none

abbrev pub is_some_text : Option (List ℕ) → Bool
is_some_text none = false
is_some_text (some t) = true

unfoldable pub starts_with : List ℕ → List ℕ → Bool
unfolding strip_prefix
starts_with value prefix = is_some_text (strip_prefix prefix value)

-- `sha256(value.encode()).hexdigest()`
unfoldable pub digest : Codec → List ℕ → List ℕ
digest c value = codes (c.hexdigest (c.sha256 (utf8 value)))

unfoldable pub key_component : Codec → List ℕ → List ℕ
unfolding digest
key_component c value =
    if leb (length (encoded value)) 160 && not (starts_with (encoded value) digest_prefix)
    then encoded value
    else digest_prefix ++ digest c value

-- `str(n)`, with fuel for its digits.
unfoldable pub decimal_from : ℕ → ℕ → List ℕ
decimal_from zero n = []
decimal_from (suc fuel) n =
    let rest = decimal_from fuel (n / 10) ++ (48 + n % 10) ∷ [] in
    if ltb n 10 then (48 + n) ∷ [] else rest

-- `object_key_for`
unfoldable pub object_key_for : Codec → (ℕ → List ℕ) → CaptureMetadata → String → List ℕ
unfolding key_component decimal_from
object_key_for c day m pack_id =
    codes "v1/tenant="
    ++ (key_component c (codes m.tenant_id)
        ++ (codes "/date="
            ++ (day (m.captured_at_ns / 1000000000)
                ++ (codes "/session="
                    ++ (key_component c (codes m.session_id)
                        ++ (codes "/rank="
                            ++ (decimal_from (m.producer_rank + 1) m.producer_rank
                                ++ (codes "/" ++ (codes pack_id ++ codes ".dmi-pack")))))))))

abbrev pub onto_first : ℕ → List (List ℕ) → List (List ℕ)
onto_first n [] = (n ∷ []) ∷ []
onto_first n (part ∷ parts) = (n ∷ part) ∷ parts

-- `object_key.split("/")`
unfoldable pub split : List ℕ → List (List ℕ)
split [] = [] ∷ []
split (n ∷ ns) = if n == b'/' then [] ∷ split ns else onto_first n (split ns)

unfoldable pub first_tenant : List (List ℕ) → Option (List ℕ)
unfolding strip_prefix
first_tenant [] = none
first_tenant (part ∷ parts) = elim (strip_prefix (codes "tenant=") part) [
  | none ↦ first_tenant parts
  | some segment ↦ some segment
]

-- `_tenant_segment`
unfoldable pub tenant_segment : List ℕ → Option (List ℕ)
unfolding first_tenant split
tenant_segment key = first_tenant (split key)

abbrev pub all_hex : ℕ → List ℕ → Bool
all_hex zero [] = true
all_hex zero (n ∷ ns) = false
all_hex (suc k) [] = false
all_hex (suc k) (n ∷ ns) =
    ((leb b'0' n && leb n b'9') || (leb b'a' n && leb n b'f')) && all_hex k ns

abbrev pub is_digest : Option (List ℕ) → Bool
is_digest none = false
is_digest (some rest) = all_hex 64 rest

-- `_segment_belongs_to`, with `_DIGEST_SHAPE`
unfoldable pub segment_belongs_to : Codec → List ℕ → List ℕ → Bool
unfolding key_component starts_with
segment_belongs_to c segment tenant =
    bytes_eq segment (key_component c tenant)
    || (starts_with tenant digest_prefix
        && not (is_digest (strip_prefix digest_prefix tenant))
        && bytes_eq segment (encoded tenant))

abbrev pub contains_text : List (List ℕ) → List ℕ → Bool
contains_text [] t = false
contains_text (x ∷ xs) t = bytes_eq x t || contains_text xs t

-- `dict.fromkeys(tenants)`
unfoldable pub from_keys : List (List ℕ) → List (List ℕ) → List (List ℕ)
from_keys seen [] = []
from_keys seen (t ∷ ts) =
    if contains_text seen t then from_keys seen ts else t ∷ from_keys (t ∷ seen) ts

unfoldable pub check_tenants : Codec → List ℕ → List (List ℕ) → Read (Unit {0})
unfolding segment_belongs_to
check_tenants c segment [] = ok tt
check_tenants c segment (t ∷ ts) =
    if segment_belongs_to c segment t then check_tenants c segment ts else err bad_integrity

abbrev pub check_segment : Codec → List (List ℕ) → Option (List ℕ) → Read (Unit {0})
check_segment c tenants none = ok tt
check_segment c tenants (some segment) = check_tenants c segment (from_keys [] tenants)

-- `reject_a_foreign_tenant`
unfoldable pub reject_a_foreign_tenant : Codec → List ℕ → List (List ℕ) → Read (Unit {0})
unfolding tenant_segment check_tenants from_keys
reject_a_foreign_tenant c object_key tenants = check_segment c tenants (tenant_segment object_key)

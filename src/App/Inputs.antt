-- ===== src/App/Inputs.antt =====
-- The parsing of parameters in internal/app/server.go: numbers, keys, values and page sizes.
use Prim.Native.Nat.{◌^◌}
use etcd_studio.Base.{
  ℕ, zero, suc, ◌+◌, ◌-◌, ◌*◌, code, String, not, ◌&&◌, ◌||◌, ◌==◌, Option, none, some, [], ◌∷◌,
  leb, ltb, eqb, if◌then◌else◌, ◌≡◌, refl,
}
use etcd_studio.Base.Int.{ℤ, pos, negsuc, ltb_ℤ}
use etcd_studio.Base.Base64.{Bytes, decode_std}
use etcd_studio.Text.{trim_space}
use etcd_studio.Text.Utf8.{to_bytes}

-- The digits after those that were read.
abbrev digits_value : String → ℕ → Option ℕ
digits_value String.[] n = some n
digits_value (String.◌∷◌ c s) n =
    let rest = digits_value s (n * 10 + (code c - b'0')) in
    if leb b'0' (code c) && leb (code c) b'9' then rest else none

-- One digit at least.
abbrev digits : String → Option ℕ
digits String.[] = none
digits (String.◌∷◌ c s) = digits_value (String.◌∷◌ c s) 0

abbrev negated : ℕ → ℤ
negated zero = pos 0
negated (suc n) = negsuc n

abbrev int64_limit : ℕ
int64_limit = 2 ^ 63

-- `strconv.ParseInt(s, 10, 64)` and `strconv.Atoi` on a 64-bit machine; `none` is an error.
unfoldable pub parse_int : String → Option ℤ
parse_int String.[] = none
parse_int (String.◌∷◌ c s) =
    if eqb (code c) b'-'
    then elim (digits s) [
      | none ↦ none
      | some n ↦ if leb n int64_limit then some (negated n) else none
    ]
    else elim (digits (if eqb (code c) b'+' then s else String.◌∷◌ c s)) [
      | none ↦ none
      | some n ↦ if ltb n int64_limit then some (pos n) else none
    ]

abbrev pub default_page_size : ℤ
default_page_size = pos 50

abbrev pub max_page_size : ℤ
max_page_size = pos 100

abbrev pub rollback_page_size : ℤ
rollback_page_size = pos 25

abbrev pub max_rollback_page : ℤ
max_rollback_page = pos 100

abbrev pub audit_page_size : ℤ
audit_page_size = pos 50

abbrev pub max_audit_page_size : ℤ
max_audit_page_size = pos 100

-- The three functions that read a page size: the default for no text, and otherwise a number from 1 to
-- the maximum; `none` is an error.
abbrev page_size : ℤ → ℤ → String → Option ℤ
page_size default maximum raw = if raw == "" then some default else elim (parse_int raw) [
  | none ↦ none
  | some limit ↦ if ltb_ℤ limit (pos 1) || ltb_ℤ maximum limit then none else some limit
]

unfoldable pub parse_limit : String → Option ℤ
parse_limit = page_size default_page_size max_page_size

unfoldable pub parse_rollback_limit : String → Option ℤ
parse_rollback_limit = page_size rollback_page_size max_rollback_page

unfoldable pub parse_audit_limit : String → Option ℤ
parse_audit_limit = page_size audit_page_size max_audit_page_size

-- `optionalInt64`: `none` is an error, `some none` is nil.
unfoldable pub optional_int64 : String → Option (Option ℤ)
optional_int64 raw = if raw == "" then some none else elim (parse_int raw) [
  | none ↦ none
  | some value ↦ if ltb_ℤ value (pos 0) then none else some (some value)
]

abbrev not_empty : Bytes → Option Bytes
not_empty [] = none
not_empty (b ∷ bs) = some (b ∷ bs)

-- A key as text, or in base64; `none` is an error.
unfoldable pub decode_key : String → String → Option Bytes
unfolding decode_std to_bytes
decode_key key encoded =
    if not (encoded == "")
    then elim (decode_std encoded) [ none ↦ none | some decoded ↦ not_empty decoded ]
    else if key == ""
    then none
    else some (to_bytes key)

-- The arguments are the fields `value`, `value_base64` and `value_encoding` of the request.
unfoldable pub decode_value : String → String → String → Option Bytes
unfolding decode_std to_bytes
decode_value value value_base64 encoding =
    if encoding == "" || encoding == "utf8"
    then some (to_bytes value)
    else if encoding == "base64"
    then decode_std (trim_space value_base64)
    else none

parse_some : parse_int "-120" ≡ some (negsuc 119)
unfolding parse_int
parse_some = refl

parse_too_large : parse_int "9223372036854775808" ≡ none
unfolding parse_int
parse_too_large = refl

decode_text : decode_key "aé" "" ≡ some (97 ∷ 195 ∷ 169 ∷ [])
unfolding decode_key
decode_text = refl

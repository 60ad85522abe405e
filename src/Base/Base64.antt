-- ===== src/Base/Base64.antt =====
-- Package encoding/base64: the standard alphabet, with padding (`StdEncoding`) and without
-- (`RawStdEncoding`). Bytes are numbers below 256; a symbol is first a number below 64.
pub mod RoundTrip
use Prim.Native.Nat.{◌/◌, ◌%◌}
use Prim.Native.String.{char_at}
use etcd_studio.Base.Tests.{ltb, leb, eqb, if◌then◌else◌}
use Prim.Native.Nat.{ℕ, zero, suc, ◌+◌, ◌-◌, ◌*◌, ◌<◌}
use Prim.Native.Char.{Char, code}
use Prim.Native.String.{String}
use mathlib.Core.Path.{◌≡◌, refl, ap}
use mathlib.Core.Bool.{Bool, true, false, ◌&&◌, ◌||◌}
use mathlib.Core.Option.{Option, none, some}
use mathlib.Core.List.{List, [], ◌∷◌}
use native.Mathlib.Omega.{arith}
use etcd_studio.Base.Lists.{All}

abbrev pub Bytes : Type 0
Bytes = List ℕ

unfoldable pub sextets : Bytes → List ℕ
sextets [] = []
sextets (a ∷ []) = a / 4 ∷ a % 4 * 16 ∷ []
sextets (a ∷ b ∷ []) = a / 4 ∷ (a % 4 * 16 + b / 16) ∷ b % 16 * 4 ∷ []
sextets (a ∷ b ∷ c ∷ r) = a / 4 ∷ (a % 4 * 16 + b / 16) ∷ (b % 16 * 4 + c / 64) ∷ c % 64 ∷ sextets r

abbrev alphabet : String
alphabet = "ABCDEFGHIJKLMNOPQRSTUVWXYZabcdefghijklmnopqrstuvwxyz0123456789+/"

unfoldable pub symbol : ℕ → Char
symbol n = char_at alphabet n

abbrev symbols : List ℕ → String
symbols [] = String.[]
symbols (n ∷ ns) = String.◌∷◌ (symbol n) (symbols ns)

abbrev pad : Char
pad = char_at "=" 0

-- `StdEncoding.EncodeToString`: each round writes three bytes as four symbols.
unfoldable pub encode_std : Bytes → String
unfolding symbol
encode_std [] = String.[]
encode_std (a ∷ []) =
    String.◌∷◌ (symbol (a / 4))
      (String.◌∷◌ (symbol (a % 4 * 16)) (String.◌∷◌ pad (String.◌∷◌ pad String.[])))
encode_std (a ∷ b ∷ []) = String.◌∷◌ (symbol (a / 4)) (
    String.◌∷◌ (symbol (a % 4 * 16 + b / 16))
      (String.◌∷◌ (symbol (b % 16 * 4)) (String.◌∷◌ pad String.[])))
encode_std (a ∷ b ∷ c ∷ r) = String.◌∷◌ (symbol (a / 4)) (
    String.◌∷◌ (symbol (a % 4 * 16 + b / 16))
      (String.◌∷◌ (symbol (b % 16 * 4 + c / 64)) (String.◌∷◌ (symbol (c % 64)) (encode_std r))))

-- `RawStdEncoding.EncodeToString`.
unfoldable pub encode_raw : Bytes → String
unfolding sextets symbol
encode_raw bytes = symbols (sextets bytes)

-- The value of a symbol.
unfoldable pub value_of : ℕ → Option ℕ
value_of c =
    if leb b'A' c && leb c b'Z'
    then some (c - 65)
    else if leb b'a' c && leb c b'z'
    then some (c - 71)
    else if leb b'0' c && leb c b'9'
    then some (c + 4)
    else if eqb c b'+'
    then some 62
    else if eqb c b'/'
    then some 63
    else none

abbrev is_pad : Char → Bool
is_pad c = eqb (code c) b'='

-- The decoder skips the characters that end lines.
unfoldable pub drop_newlines : String → String
drop_newlines String.[] = String.[]
drop_newlines (String.◌∷◌ c s) =
    if eqb (code c) 10 || eqb (code c) 13 then drop_newlines s else String.◌∷◌ c (drop_newlines s)

abbrev two_symbols : Option ℕ → Option ℕ → Option Bytes
two_symbols (some x) (some y) = some ((x * 4 + y / 16) ∷ [])
two_symbols _ _ = none

abbrev three_symbols : Option ℕ → Option ℕ → Option ℕ → Option Bytes
three_symbols (some x) (some y) (some z) = some ((x * 4 + y / 16) ∷ (y % 16 * 16 + z / 4) ∷ [])
three_symbols _ _ _ = none

abbrev four_symbols : Option ℕ → Option ℕ → Option ℕ → Option ℕ → Option Bytes → Option Bytes
four_symbols (some x) (some y) (some z) (some w) (some rest) =
    some ((x * 4 + y / 16) ∷ (y % 16 * 16 + z / 4) ∷ (z % 4 * 64 + w) ∷ rest)
four_symbols _ _ _ _ _ = none

abbrev is_end : String → Bool
is_end String.[] = true
is_end (String.◌∷◌ _ _) = false

-- Groups of four symbols; padding ends the text, and the bits that it leaves over are not looked at.
unfoldable pub decode_groups : String → Option Bytes
unfolding value_of
decode_groups String.[] = some []
decode_groups (String.◌∷◌ a (String.◌∷◌ b (String.◌∷◌ c (String.◌∷◌ d s)))) =
    let rest = decode_groups s in
    if is_pad c
    then (if is_pad d && is_end s
        then two_symbols (value_of (code a)) (value_of (code b))
        else none)
    else if is_pad d
    then (if is_end s
        then three_symbols (value_of (code a)) (value_of (code b)) (value_of (code c))
        else none)
    else four_symbols (value_of (code a)) (value_of (code b)) (value_of (code c))
        (value_of (code d)) rest
decode_groups _ = none

-- `StdEncoding.DecodeString`.
unfoldable pub decode_std : String → Option Bytes
unfolding drop_newlines decode_groups
decode_std s = decode_groups (drop_newlines s)

hello : encode_std (104 ∷ 101 ∷ 108 ∷ 108 ∷ 111 ∷ []) ≡ "aGVsbG8="
unfolding encode_std
hello = refl

decode_hello : decode_std "aGVs\nbG8=" ≡ some (104 ∷ 101 ∷ 108 ∷ 108 ∷ 111 ∷ [])
unfolding decode_std
decode_hello = refl

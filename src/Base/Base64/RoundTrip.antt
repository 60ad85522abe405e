-- ===== src/Base/Base64/RoundTrip.antt =====
-- Encoding and decoding one after the other.
use Prim.Native.Nat.{ℕ, zero, suc, ◌+◌, ◌*◌, ◌/◌, ◌%◌, ◌<◌}
use Prim.Native.Char.{code}
use mathlib.Core.Path.{◌≡◌, refl}
use mathlib.Core.Bool.{Bool, true, false, ◌&&◌, ◌||◌, not}
use mathlib.Core.Option.{Option, none, some}
use mathlib.Core.List.{[], ◌∷◌}
use native.Mathlib.Omega.{arith}
use etcd_studio.Base.Tests.{eqb}
use etcd_studio.Base.Lists.{All}
use etcd_studio.Base.Base64.{
  Bytes, symbol, encode_std, value_of, is_pad, drop_newlines, decode_groups, decode_std,
}

abbrev pub AllBytes : Bytes → Type 0
AllBytes = All (λ b. b < 256)

holds_below : (ℕ → Bool) → ℕ → Bool
holds_below test zero = true
holds_below test (suc bound) = holds_below test bound && test bound

-- A test that was run on all smaller numbers holds of each.
at_holds_below :
    (test : ℕ → Bool) (bound : ℕ)
    → holds_below test bound ≡ true
    → {x : ℕ} → x < bound
    → test x ≡ true
unfolding holds_below
at_holds_below test zero run below = absurd (omega arith)
at_holds_below test (suc bound) run {x} below =
    ground (arith, λ (h : x < bound). at_holds_below test bound (ground arith) h)

abbrev is_value : ℕ → Option ℕ → Bool
is_value n none = false
is_value n (some m) = eqb n m

-- A symbol has its value, and is neither padding nor the end of a line.
abbrev is_symbol_of : ℕ → Bool
is_symbol_of n =
    let c = symbol n in
    is_value n (value_of (code c)) && not (is_pad c) && not (eqb (code c) 10 || eqb (code c) 13)

symbol_table : holds_below is_symbol_of 64 ≡ true
unfolding holds_below symbol value_of
symbol_table = refl

record IsSymbol (n : ℕ) : Type 0 where
  value : value_of (code (symbol n)) ≡ some n
  no_pad : is_pad (symbol n) ≡ false
  no_newline : (eqb (code (symbol n)) 10 || eqb (code (symbol n)) 13) ≡ false

symbol_lem : (n : ℕ) → n < 64 → IsSymbol n
symbol_lem n h = let t = at_holds_below is_symbol_of 64 symbol_table h in ground arith

-- The four symbols of a group, from its three bytes.
module _ (a b c : ℕ) (ha : a < 256) (hb : b < 256) (hc : c < 256) where
  first : IsSymbol (a / 4)
  first = symbol_lem (a / 4) (omega arith)

  second : IsSymbol (a % 4 * 16 + b / 16)
  second = symbol_lem (a % 4 * 16 + b / 16) (omega arith)

  third : IsSymbol (b % 16 * 4 + c / 64)
  third = symbol_lem (b % 16 * 4 + c / 64) (omega arith)

  fourth : IsSymbol (c % 64)
  fourth = symbol_lem (c % 64) (omega arith)

last_of_one : (a : ℕ) → a < 256 → IsSymbol (a % 4 * 16)
last_of_one a h = symbol_lem (a % 4 * 16) (omega arith)

last_of_two : (b : ℕ) → b < 256 → IsSymbol (b % 16 * 4)
last_of_two b h = symbol_lem (b % 16 * 4) (omega arith)

drop_newlines-encode_std :
    (bs : Bytes) → AllBytes bs → drop_newlines (encode_std bs) ≡ encode_std bs
unfolding drop_newlines encode_std
drop_newlines-encode_std [] h = refl
drop_newlines-encode_std (a ∷ []) h =
    let f = first a 0 0 h.0 (omega arith) (omega arith) in
    rw (f.no_newline, (last_of_one a h.0).no_newline)
drop_newlines-encode_std (a ∷ b ∷ []) h =
    let f = first a b 0 h.0 h.1.0 (omega arith) in
    let s = second a b 0 h.0 h.1.0 (omega arith) in
    rw (f.no_newline, s.no_newline, (last_of_two b h.1.0).no_newline)
drop_newlines-encode_std (a ∷ b ∷ c ∷ r) h =
    let f = first a b c h.0 h.1.0 h.1.1.0 in
    let s = second a b c h.0 h.1.0 h.1.1.0 in
    let t = third a b c h.0 h.1.0 h.1.1.0 in
    let l = fourth a b c h.0 h.1.0 h.1.1.0 in
    rw (f.no_newline, s.no_newline, t.no_newline, l.no_newline, drop_newlines-encode_std r h.1.1.1)

decode_groups-encode_std : (bs : Bytes) → AllBytes bs → decode_groups (encode_std bs) ≡ some bs
unfolding decode_groups encode_std
decode_groups-encode_std [] h = refl
decode_groups-encode_std (a ∷ []) h =
    let f = first a 0 0 h.0 (omega arith) (omega arith) in
    let e : a / 4 * 4 + a % 4 * 16 / 16 ≡ a = omega arith in
    rw (f.value, (last_of_one a h.0).value, e)
decode_groups-encode_std (a ∷ b ∷ []) h =
    let f = first a b 0 h.0 h.1.0 (omega arith) in
    let s = second a b 0 h.0 h.1.0 (omega arith) in
    let t = last_of_two b h.1.0 in
    let e : a / 4 * 4 + (a % 4 * 16 + b / 16) / 16 ≡ a = omega (arith, h.1.0) in
    let e' : (a % 4 * 16 + b / 16) % 16 * 16 + b % 16 * 4 / 4 ≡ b = omega (arith, h.1.0) in
    rw (t.no_pad, f.value, s.value, t.value, e, e')
decode_groups-encode_std (a ∷ b ∷ c ∷ r) h =
    let f = first a b c h.0 h.1.0 h.1.1.0 in
    let s = second a b c h.0 h.1.0 h.1.1.0 in
    let t = third a b c h.0 h.1.0 h.1.1.0 in
    let l = fourth a b c h.0 h.1.0 h.1.1.0 in
    let e : a / 4 * 4 + (a % 4 * 16 + b / 16) / 16 ≡ a = omega (arith, h.1.0) in
    let e' : (a % 4 * 16 + b / 16) % 16 * 16 + (b % 16 * 4 + c / 64) / 4 ≡ b =
      omega (arith, h.1.0, h.1.1.0) in
    let e'' : (b % 16 * 4 + c / 64) % 4 * 64 + c % 64 ≡ c = omega (arith, h.1.1.0) in
    rw (
      t.no_pad,
      l.no_pad,
      f.value,
      s.value,
      t.value,
      l.value,
      decode_groups-encode_std r h.1.1.1,
      e,
      e',
      e'',
    )

-- Decoding undoes encoding, for every list of bytes.
pub decode_std-encode_std : (bs : Bytes) → AllBytes bs → decode_std (encode_std bs) ≡ some bs
unfolding decode_std
decode_std-encode_std bs h = rw (drop_newlines-encode_std bs h) (decode_groups-encode_std bs h)

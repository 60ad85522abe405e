-- ===== src/Text/Utf8.antt =====
-- UTF-8: `[]byte(s)`, and the texts that bytes are.
use Prim.Native.Nat.{◌/◌, ◌%◌}
use Prim.Native.String.{[], ◌∷◌}
use etcd_studio.Base.{ℕ, ◌+◌, code, String, List, Option, ltb, if◌then◌else◌}
use etcd_studio.Base.Base64.{Bytes}

-- The bytes of one code point before others.
abbrev code_bytes : ℕ → Bytes → Bytes
code_bytes c rest =
    if ltb c 0x80
    then List.◌∷◌ c rest
    else if ltb c 0x800
    then List.◌∷◌ (0xC0 + c / 64) (List.◌∷◌ (0x80 + c % 64) rest)
    else if ltb c 0x10000
    then List.◌∷◌ (0xE0 + c / 4096) (List.◌∷◌ (0x80 + c / 64 % 64) (List.◌∷◌ (0x80 + c % 64) rest))
    else List.◌∷◌ (0xF0 + c / 262144) (
        List.◌∷◌ (0x80 + c / 4096 % 64)
          (List.◌∷◌ (0x80 + c / 64 % 64) (List.◌∷◌ (0x80 + c % 64) rest)))

unfoldable pub to_bytes : String → Bytes
to_bytes [] = List.[]
to_bytes (c ∷ s) = code_bytes (code c) (to_bytes s)

-- Package unicode/utf8: the text of valid bytes, and nothing for others (`utf8.Valid`).
pub record Utf8 : Type 0 where
  pub to_text : Bytes → Option String

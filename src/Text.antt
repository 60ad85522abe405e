-- ===== src/Text.antt =====
-- Package strings and package unicode, as far as the program uses them, over native texts: `len` is
-- Go's `len`, `count` is `len([]rune(s))`. The tables of package unicode (case, folding, classes) are
-- data that this repository does not hold: they are the fields of `Unicode`.
mod Trim
pub mod Utf8
unfoldable pub use Trim.*
use Prim.Native.String.{[], ◌∷◌}
use text.Mathlib.Text.{find?}
use etcd_studio.Base.{Char, String, Bool, ◌==◌, is_some}

pub record Unicode : Type 0 where
  -- `unicode.ToLower`
  pub lower : Char → Char
  -- the least rune of the orbit of `unicode.SimpleFold`
  pub fold : Char → Char
  pub is_upper : Char → Bool
  pub is_lower : Char → Bool
  pub is_digit : Char → Bool
  pub is_punct : Char → Bool
  pub is_symbol : Char → Bool
  pub is_control : Char → Bool

abbrev map_chars : (Char → Char) → String → String
map_chars f [] = []
map_chars f (c ∷ s) = f c ∷ map_chars f s

module _ ⦃u : Unicode⦄ where
  -- `strings.ToLower`
  unfoldable pub to_lower : String → String
  to_lower s = map_chars u.lower s

  -- The text that stands for all texts which `strings.EqualFold` does not tell from it.
  unfoldable pub fold_key : String → String
  fold_key s = map_chars u.fold s

  -- `strings.EqualFold`
  abbrev pub equal_fold : String → String → Bool
  equal_fold s t = fold_key s == fold_key t

-- `strings.Contains`
abbrev pub contains : String → String → Bool
contains s t = is_some (find? s t)

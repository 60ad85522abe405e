-- ===== src/Auth/Password.antt =====
-- The password policy of internal/auth/manager.go.
pub mod Policy
use Prim.Native.String.{count, len}
use etcd_studio.Base.{
  Char, String, Bool, true, false, not, ◌&&◌, ◌||◌, Option, none, some, ltb, if◌then◌else◌, Result,
  ok, err, ◌>>◌,
}
use etcd_studio.Text.{Unicode, is_space}
use etcd_studio.Auth.Types.{AuthError, invalid_input, hash_failed, minimum_password_length}

-- The four flags of the loop.
pub record Classes : Type 0 where
  pub upper : Bool
  pub lower : Bool
  pub digit : Bool
  pub special : Bool

abbrev pub no_classes : Classes
no_classes = record { upper = false; lower = false; digit = false; special = false }

module _ ⦃u : Unicode⦄ where
  -- One round of the loop; `none` is the early return.
  unfoldable pub note_character : Char → Classes → Option Classes
  note_character c seen =
      if is_space c || u.is_control c
      then none
      else if u.is_upper c
      then some (record seen { upper = true })
      else if u.is_lower c
      then some (record seen { lower = true })
      else if u.is_digit c
      then some (record seen { digit = true })
      else if u.is_punct c || u.is_symbol c
      then some (record seen { special = true })
      else some seen

  unfoldable pub scan_password : String → Classes → Option Classes
  scan_password String.[] seen = some seen
  scan_password (String.◌∷◌ c s) seen = elim (note_character c seen) [
    | none ↦ none
    | some next ↦ scan_password s next
  ]

  abbrev has_all : Classes → Bool
  has_all k = k.upper && k.lower && k.digit && k.special

  unfoldable pub validate_strong_password : String → Result AuthError (Unit {0})
  validate_strong_password password =
      if ltb (count password) minimum_password_length
      then err invalid_input
      else if ltb 72 (len password)
      then err invalid_input
      else elim (scan_password password no_classes) [
        | none ↦ err invalid_input
        | some k ↦ if not (has_all k) then err invalid_input else ok tt
      ]

  unfoldable pub hash_password : (String → Option String) → String → Result AuthError String
  hash_password generate password = do
    validate_strong_password password
    elim (generate password) [ none ↦ err hash_failed | some hash ↦ ok hash ]

-- ===== src/Auth/Password/Policy.antt =====
-- The password policy in words, and `validateStrongPassword`.
use Prim.Native.String.{count, len}
use etcd_studio.Base.{
  ◌≤◌, Char, String, Bool, true, false, not, ◌&&◌, ◌||◌, ◌≡◌, refl, ◌↔◌, none, some, arith, ok,
  Bool-cases, inl, inr, if◌then◌else◌,
}
use etcd_studio.Text.{Unicode, is_space}
use etcd_studio.Auth.Password.{
  Classes, no_classes, note_character, scan_password, validate_strong_password,
}

-- Some character of a text passes a test.
abbrev pub any_char : (Char → Bool) → String → Bool
any_char p String.[] = false
any_char p (String.◌∷◌ c s) = p c || any_char p s

module _ ⦃u : Unicode⦄ where
  abbrev pub is_forbidden : Char → Bool
  is_forbidden c = is_space c || u.is_control c

  -- The class that a character counts for is the first that it belongs to.
  abbrev pub counts_lower : Char → Bool
  counts_lower c = not (u.is_upper c) && u.is_lower c

  abbrev pub counts_digit : Char → Bool
  counts_digit c = not (u.is_upper c) && not (u.is_lower c) && u.is_digit c

  abbrev pub counts_special : Char → Bool
  counts_special c =
      not (u.is_upper c)
      && not (u.is_lower c)
      && not (u.is_digit c)
      && (u.is_punct c || u.is_symbol c)

  abbrev noted : Char → Classes → Classes
  noted c k = record {
    upper = k.upper || u.is_upper c;
    lower = k.lower || counts_lower c;
    digit = k.digit || counts_digit c;
    special = k.special || counts_special c;
  }

  note_character-noted :
      (c : Char) (k : Classes)
      → note_character c k ≡ (if is_forbidden c then none else some (noted c k))
  unfolding note_character
  note_character-noted c k = ground arith

  abbrev all_noted : String → Classes → Classes
  all_noted s k = record {
    upper = k.upper || any_char u.is_upper s;
    lower = k.lower || any_char counts_lower s;
    digit = k.digit || any_char counts_digit s;
    special = k.special || any_char counts_special s;
  }

  or_assoc : (a b c : Bool) → ((a || b) || c) ≡ (a || (b || c))
  or_assoc true b c = refl
  or_assoc false b c = refl

  all_noted-noted :
      (c : Char) (s : String) (k : Classes) → all_noted s (noted c k) ≡ all_noted (String.◌∷◌ c s) k
  all_noted-noted c s k = simp or_assoc

  scan_password-noted :
      (s : String) (k : Classes)
      → scan_password s k ≡ (if any_char is_forbidden s then none else some (all_noted s k))
  unfolding scan_password
  scan_password-noted String.[] k = ground arith
  scan_password-noted (String.◌∷◌ c s) k = elim (Bool-cases (is_forbidden c)) [
    | inl bad ↦ ground (arith, note_character-noted c k)
    | inr fine ↦
        ground (
          arith,
          note_character-noted c k,
          scan_password-noted s (noted c k),
          all_noted-noted c s k,
        )
  ]

  -- A text of ten characters to 72 bytes, with no blank and no control character, that has a character of
  -- each of the four classes.
  pub record IsStrong (password : String) : Type 0 where
    pub long : 10 ≤ count password
    pub short : len password ≤ 72
    pub clean : any_char is_forbidden password ≡ false
    pub upper : any_char u.is_upper password ≡ true
    pub lower : any_char counts_lower password ≡ true
    pub digit : any_char counts_digit password ≡ true
    pub special : any_char counts_special password ≡ true

  -- The check accepts exactly the passwords that the policy describes.
  pub validate_strong_password_iff :
      (password : String) → (validate_strong_password password ≡ ok tt) ↔ IsStrong password
  unfolding validate_strong_password
  validate_strong_password_iff password = (
    λ h. ground (arith, scan_password-noted password no_classes),
    λ h. ground (arith, scan_password-noted password no_classes),
  )

-- ===== src/Auth/Rules/Fields.antt =====
-- What `normalizeUserFields` of internal/auth/manager.go returns when it accepts.
use Prim.Native.String.{count}
use etcd_studio.Base.{
  String, Bool, true, ◌≡◌, ◌⊎◌, inl, inr, refl, ◌==◌, eq_iff, List, [], Result, ok, err, Bool-cases,
  not, ◌||◌, false, ltb, if◌then◌else◌,
}
use etcd_studio.Text.{Unicode, trim_space, to_lower}
use etcd_studio.Auth.Types.{AuthError, invalid_input, role_admin, role_operator}
use etcd_studio.Auth.Rules.{username_pattern, normalize_user_fields, cluster_ids_for_role}

-- The two roles that the program knows.
abbrev pub IsRole : String → Type 0
IsRole role = (role ≡ role_admin) ⊎ (role ≡ role_operator)

pub IsRole-of_test :
    (role : String) → (role == role_admin || role == role_operator) ≡ true → IsRole role
IsRole-of_test role h = elim (Bool-cases (role == role_admin)) [
  | inl admin ↦ inl ((eq_iff role role_admin).0 admin)
  | inr other ↦ inr ((eq_iff role role_operator).0 (rw other at h))
]

module _ ⦃u : Unicode⦄ where
  abbrev pub IsAccepted : String → Result AuthError (String × String × String) → Type 0
  IsAccepted username (ok (name, display, role)) = (name ≡ trim_space username) × IsRole role
  IsAccepted username (err e) = Unit

  -- The three tests of the function, with their outcomes as variables.
  guarded-IsAccepted :
      (bad_name long : Bool) (username display role : String)
      → IsAccepted username (
          if bad_name
          then err invalid_input
          else if long
          then err invalid_input
          else if not (role == role_admin || role == role_operator)
          then err invalid_input
          else ok (trim_space username, display, role))
  guarded-IsAccepted true long username display role = tt
  guarded-IsAccepted false true username display role = tt
  guarded-IsAccepted false false username display role =
      elim (Bool-cases (role == role_admin || role == role_operator)) [
        | inl known ↦ rw known (refl, IsRole-of_test role known)
        | inr unknown ↦ rw unknown tt
      ]

  pub normalize_user_fields-IsAccepted :
      (username display role : String)
      → IsAccepted username (normalize_user_fields username display role)
  unfolding normalize_user_fields
  normalize_user_fields-IsAccepted username display role =
      let shown = if trim_space display == "" then trim_space username else trim_space display in
      let given = to_lower (trim_space role) in
      guarded-IsAccepted (not (username_pattern (trim_space username))) (ltb 100 (count shown))
        username shown (if given == "" then role_operator else given)

pub cluster_ids_for_role-admin : (ids : List String) → cluster_ids_for_role role_admin ids ≡ []
unfolding cluster_ids_for_role
cluster_ids_for_role-admin ids = refl

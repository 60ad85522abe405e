-- ===== src/Auth/Rules.antt =====
-- The helpers of internal/auth/manager.go on users, roles and modes.
pub mod Find
pub mod Owner
pub mod Unique
pub mod Admins
pub mod Fields
use Prim.Native.String.{count}
use etcd_studio.Base.{
  ℕ, ◌+◌, code, String, Bool, true, false, not, ◌&&◌, ◌||◌, ◌==◌, Option, none, some, List, [], ◌∷◌,
  leb, ltb, eqb, if◌then◌else◌, Result, ok, err, any,
}
use etcd_studio.Base.Sorting.{sort_strings}
use etcd_studio.Text.{Unicode, trim_space, to_lower, equal_fold}
use etcd_studio.Auth.Types.{
  AuthError, invalid_input, PersistedUser, Principal, mode_both, role_admin, role_operator,
}

unfoldable pub mode_includes : String → String → Bool
mode_includes mode provider = mode == mode_both || mode == provider

abbrev pub is_active_admin : PersistedUser → Bool
is_active_admin u = u.active && u.role == role_admin

unfoldable pub active_admin_count : List PersistedUser → ℕ
active_admin_count [] = 0
active_admin_count (u ∷ us) =
    if is_active_admin u then active_admin_count us + 1 else active_admin_count us

unfoldable pub is_admin : Principal → Bool
is_admin p = p.role == role_admin

unfoldable pub can_access_cluster : Principal → String → Bool
unfolding is_admin
can_access_cluster p cluster_id =
    if is_admin p then true else any (λ allowed. allowed == trim_space cluster_id) p.cluster_ids

-- The set of a list, as a list without repetitions.
abbrev pub member : String → List String → Bool
member x = any (λ y. y == x)

abbrev pub add_unique : String → List String → List String
add_unique x xs = if member x xs then xs else x ∷ xs

abbrev pub trimmed_ids : List String → List String
trimmed_ids [] = []
trimmed_ids (x ∷ xs) =
    if trim_space x == "" then trimmed_ids xs else add_unique (trim_space x) (trimmed_ids xs)

-- The keys of the map `unique` are sorted, so the order in which they were put in does not matter.
unfoldable pub cluster_ids_for_role : String → List String → List String
cluster_ids_for_role role cluster_ids =
    if role == role_admin then [] else sort_strings (trimmed_ids cluster_ids)

-- The characters of the username pattern.
abbrev is_alphanumeric : ℕ → Bool
is_alphanumeric c =
    (leb b'A' c && leb c b'Z') || (leb b'a' c && leb c b'z') || (leb b'0' c && leb c b'9')

abbrev is_username_code : ℕ → Bool
is_username_code c = is_alphanumeric c || eqb c b'.' || eqb c b'_' || eqb c b'@' || eqb c b'-'

abbrev all_username_codes : String → Bool
all_username_codes String.[] = true
all_username_codes (String.◌∷◌ c s) = is_username_code (code c) && all_username_codes s

-- ^[A-Za-z0-9][A-Za-z0-9._@-]{1,63}$
unfoldable pub username_pattern : String → Bool
username_pattern String.[] = false
username_pattern (String.◌∷◌ c s) =
    is_alphanumeric (code c) && all_username_codes s && leb 1 (count s) && leb (count s) 63

module _ ⦃u : Unicode⦄ where
  -- The index that the source returns, with the user that it reads there; `none` for -1.
  abbrev pub found_at : ℕ → String → List PersistedUser → Option (ℕ × PersistedUser)
  found_at i name [] = none
  found_at i name (v ∷ us) =
      if equal_fold v.username (trim_space name) then some (i, v) else found_at (i + 1) name us

  unfoldable pub find_user : List PersistedUser → String → Option (ℕ × PersistedUser)
  find_user us name = found_at 0 name us

  unfoldable pub contains_fold : List String → String → Bool
  contains_fold values value = any (λ candidate. equal_fold candidate value) values

  unfoldable pub normalize_user_fields :
      String → String → String → Result AuthError (String × String × String)
  unfolding username_pattern
  normalize_user_fields username display_name role =
      let name = trim_space username in
      let given_display = trim_space display_name in
      let given_role = to_lower (trim_space role) in
      if not (username_pattern name)
      then err invalid_input
      else let display = if given_display == "" then name else given_display in
        if ltb 100 (count display)
        then err invalid_input
        else let new_role = if given_role == "" then role_operator else given_role in
          if not (new_role == role_admin || new_role == role_operator)
          then err invalid_input
          else ok (name, display, new_role)

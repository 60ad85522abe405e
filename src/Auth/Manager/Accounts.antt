-- ===== src/Auth/Manager/Accounts.antt =====
-- `CreateUser`, `UpdateUser`, `DeleteUser`, `ListUsers` and `RemoveClusterPermissions` of
-- internal/auth/manager.go.
use Prim.Native.String.{count}
use etcd_studio.Base.{
  ◌-◌, String, true, false, not, ◌||◌, ◌==◌, Option, none, some, List, [], ◌∷◌, ◌++◌, map,
  if◌then◌else◌, ltb, any, keep_if, take, length, set, remove_at, Result, ◌≡◌, arith, length-append,
  take-append_one, ok, err,
}
use etcd_studio.Base.Sorting.{sort_slice, str_lt}
use etcd_studio.Text.{Unicode, trim_space, to_lower}
use etcd_studio.Auth.Types.{
  AuthError, not_configured, invalid_input, user_exists, user_not_found, last_admin, Manager, User,
  LocalUserInput, PersistedUser, Call, provider_local, role_admin, role_operator,
}
use etcd_studio.Auth.Rules.{find_user, normalize_user_fields, cluster_ids_for_role}
use etcd_studio.Auth.Password.{hash_password}
use etcd_studio.Auth.Manager.Storage.{Outcome, with_users, save_or_restore, revoke_sessions}
use etcd_studio.Auth.Manager.Settings.{locks_out}

abbrev pub given {ℓ} : {A : Type ℓ} → Option A → A → A
given none d = d
given (some a) d = a

abbrev pub new_user : String → String → String → LocalUserInput → Call → User
new_user username display_name role input call = record {
  username = username;
  display_name = display_name;
  role = role;
  active = given input.active true;
  cluster_ids = cluster_ids_for_role role input.cluster_ids;
  must_change_password = false;
  created_at = call.now;
  updated_at = call.now;
}

-- The user with the fields of the input; an empty hash keeps the password.
abbrev pub updated_user :
    PersistedUser → String → String → LocalUserInput → String → Call → PersistedUser
updated_user v display_name role input hash call = record {
  user = record v.user {
    display_name = display_name;
    role = role;
    cluster_ids = cluster_ids_for_role role input.cluster_ids;
    active = given input.active v.active;
    updated_at = call.now;
  };
  password_hash = if hash == "" then v.password_hash else hash;
}

-- `m.config.Users[:len(m.config.Users)-1]`
abbrev pub drop_last : {A : Type 0} → List A → List A
drop_last us = take (length us - 1) us

pub drop_last-append_one : {A : Type 0} (us : List A) (a : A) → drop_last (us ++ a ∷ []) ≡ us
drop_last-append_one us a =
    let shorter : length (us ++ a ∷ []) - 1 ≡ length us =
      omega (arith, length-append us (a ∷ [])) in
    rw shorter (take-append_one us a)

module _ ⦃u : Unicode⦄ where
  unfoldable pub create_user : LocalUserInput → Call → Manager → Outcome User
  create_user input call m =
      elim (normalize_user_fields input.username input.display_name input.role) [
        | err e ↦ (err e, m)
        | ok (username, display_name, role) ↦ elim (hash_password call.generate input.password) [
          | err e ↦ (err e, m)
          | ok hash ↦
              let user = new_user username display_name role input call in
              if not m.configured
              then (err not_configured, m)
              else elim (find_user m.config.users username) [
                | some _ ↦ (err user_exists, m)
                | none ↦
                    save_or_restore call
                      (with_users m.config
                        (m.config.users ++ record { user = user; password_hash = hash } ∷ []))
                      (λ c. with_users c (drop_last c.users)) (λ m'. (ok user, m')) m
              ]
        ]
      ]

  -- The hash of a new password, or an empty text where none is given.
  unfoldable pub new_hash : Call → String → Result AuthError String
  new_hash call password = if password == "" then ok "" else hash_password call.generate password

  unfoldable pub update_user : String → LocalUserInput → Call → Manager → Outcome User
  update_user username input call m =
      let display_name = trim_space input.display_name in
      let role = to_lower (trim_space input.role) in
      if display_name == ""
        || ltb 100 (count display_name)
        || not (role == role_admin || role == role_operator)
      then (err invalid_input, m)
      else elim (new_hash call input.password) [
        | err e ↦ (err e, m)
        | ok hash ↦
            if not m.configured
            then (err not_configured, m)
            else elim (find_user m.config.users username) [
              | none ↦ (err user_not_found, m)
              | some (index, previous) ↦
                  let updated = updated_user previous display_name role input hash call in
                  let changed = with_users m.config (set m.config.users index updated) in
                  if locks_out changed.mode changed
                  then (err last_admin, m)
                  else save_or_restore call changed (λ c. with_users c (set c.users index previous))
                      (λ m'. (ok updated.user, revoke_sessions provider_local previous.username m'))
                      m
            ]
      ]

  unfoldable pub delete_user : String → Call → Manager → Outcome (Unit {0})
  delete_user username call m =
      if not m.configured
      then (err not_configured, m)
      else elim (find_user m.config.users username) [
        | none ↦ (err user_not_found, m)
        | some (index, _) ↦
            let changed = with_users m.config (remove_at index m.config.users) in
            if locks_out changed.mode changed
            then (err last_admin, m)
            else save_or_restore call changed (λ c. with_users c m.config.users)
                (λ m'. (ok tt, revoke_sessions provider_local username m')) m
      ]

  unfoldable pub list_users : Manager → Result AuthError (List User)
  list_users m =
      if not m.configured
      then err not_configured
      else ok (
          sort_slice (λ (a b : User). str_lt (to_lower a.username) (to_lower b.username))
            (map (λ (v : PersistedUser). v.user) m.config.users))

-- One user without a cluster; the time of the change is noted only if there was one.
unfoldable pub without_cluster : String → Call → PersistedUser → PersistedUser
without_cluster cluster_id call v = record v {
  user = record v.user {
    cluster_ids = keep_if (λ allowed. not (allowed == cluster_id)) v.cluster_ids;
    updated_at =
        if any (λ allowed. allowed == cluster_id) v.cluster_ids then call.now else v.updated_at;
  };
}

-- Restoring writes back the cluster identifiers and times, position by position.
unfoldable pub restore_grants : List PersistedUser → List PersistedUser → List PersistedUser
restore_grants (p ∷ ps) (v ∷ vs) =
    record v { user = record v.user { cluster_ids = p.cluster_ids; updated_at = p.updated_at } }
    ∷ restore_grants ps vs
restore_grants _ vs = vs

unfoldable pub remove_cluster_permissions : String → Call → Manager → Outcome (Unit {0})
remove_cluster_permissions id call m =
    let cluster_id = trim_space id in
    if cluster_id == ""
    then (err invalid_input, m)
    else if not m.configured
    then (err not_configured, m)
    else if not (
        any (λ (v : PersistedUser). any (λ allowed. allowed == cluster_id) v.cluster_ids)
          m.config.users)
    then (ok tt, m)
    else save_or_restore call
        (with_users m.config (map (without_cluster cluster_id call) m.config.users))
        (λ c. with_users c (restore_grants m.config.users c.users)) (λ m'. (ok tt, m')) m

-- ===== src/Auth/Manager/Bootstrap.antt =====
-- `bootstrap` and `EnsureTemporaryAdmin` of internal/auth/manager.go.
use etcd_studio.Base.{
  String, Bool, true, not, ◌==◌, Option, none, some, [], ◌∷◌, if◌then◌else◌, Result, ok, err,
}
use etcd_studio.Text.{Unicode}
use etcd_studio.Auth.Types.{
  AuthError, already_configured, invalid_input, Manager, User, LocalUserInput, PersistedConfig,
  Call, no_config, no_ldap, auth_config_version, mode_local, role_admin,
}
use etcd_studio.Auth.Rules.{normalize_user_fields}
use etcd_studio.Auth.Password.{hash_password}
use etcd_studio.Auth.Manager.Storage.{Outcome, save_or_restore}

-- The first account.
abbrev pub first_user : String → String → Bool → Call → User
first_user username display_name must_change call = record {
  username = username;
  display_name = display_name;
  role = role_admin;
  active = true;
  cluster_ids = [];
  must_change_password = must_change;
  created_at = call.now;
  updated_at = call.now;
}

abbrev pub first_config : User → String → Call → PersistedConfig
first_config user hash call = record {
  version = auth_config_version;
  configured_at = call.now;
  mode = mode_local;
  ldap = no_ldap;
  users = record { user = user; password_hash = hash } ∷ [];
}

module _ ⦃u : Unicode⦄ where
  unfoldable pub bootstrap : LocalUserInput → Bool → Call → Manager → Outcome User
  bootstrap input must_change call m =
      elim (normalize_user_fields input.username input.display_name role_admin) [
        | err e ↦ (err e, m)
        | ok (username, display_name, role) ↦
            if not (role == role_admin)
            then (err invalid_input, m)
            else elim (hash_password call.generate input.password) [
              | err e ↦ (err e, m)
              | ok hash ↦
                  if m.configured
                  then (err already_configured, m)
                  else let user = first_user username display_name must_change call in
                    save_or_restore call (first_config user hash call) (λ _. no_config)
                      (λ m'. (ok user, record m' { configured = true })) m
            ]
      ]

  -- `generated` is the password that `generateTemporaryPassword(24)` returns. The result is the
  -- password, if an account was made.
  unfoldable pub ensure_temporary_admin :
      Result AuthError String → Call → Manager → Outcome (Option String)
  unfolding bootstrap
  ensure_temporary_admin generated call m = if m.configured then (ok none, m) else elim generated [
    | err e ↦ (err e, m)
    | ok password ↦
        let (result, m') =
          bootstrap
            (record {
              username = "admin";
              display_name = "系统管理员";
              password = password;
              role = role_admin;
              active = none;
              cluster_ids = [];
            })
            true call m in
        elim result [
          | ok _ ↦ (ok (some password), m')
          | err already_configured ↦ (ok none, m')
          | err e ↦ (err e, m')
        ]
  ]

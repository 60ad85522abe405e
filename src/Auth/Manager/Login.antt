-- ===== src/Auth/Manager/Login.antt =====
-- `AuthenticateLocal` of internal/auth/manager.go.
use etcd_studio.Base.{String, Bool, not, ◌||◌, none, some, if◌then◌else◌, Result, ok, err}
use etcd_studio.Text.{Unicode, trim_space}
use etcd_studio.Auth.Types.{
  AuthError, not_configured, provider_disabled, invalid_credentials, Manager, PersistedUser,
  Principal, Crypto, provider_local,
}
use etcd_studio.Auth.Rules.{mode_includes, find_user}

abbrev pub local_principal : PersistedUser → Bool → Principal
local_principal v must_change = record {
  username = v.username;
  display_name = v.display_name;
  provider = provider_local;
  role = v.role;
  cluster_ids = v.cluster_ids;
  must_change_password = must_change;
}

module _ ⦃u : Unicode⦄ ⦃k : Crypto⦄ where
  -- The user that is not found costs a comparison too, whose result is dropped.
  unfoldable pub authenticate_local : String → String → Manager → Result AuthError Principal
  authenticate_local username password m =
      if not m.configured
      then err not_configured
      else if not (mode_includes m.config.mode provider_local)
      then err provider_disabled
      else elim (find_user m.config.users (trim_space username)) [
        | none ↦ err invalid_credentials
        | some (_, v) ↦
            if not v.active || not (k.bcrypt_matches v.password_hash password)
            then err invalid_credentials
            else ok (local_principal v v.must_change_password)
      ]

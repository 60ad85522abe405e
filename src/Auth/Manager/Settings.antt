-- ===== src/Auth/Manager/Settings.antt =====
-- `Status`, `Settings` and `UpdateSettings` of internal/auth/manager.go.
use etcd_studio.Base.{
  String, Bool, not, ◌&&◌, ◌||◌, ◌==◌, if◌then◌else◌, eqb, length, Result, ok, err, Option, is_some,
}
use etcd_studio.Text.{Unicode, trim_space, to_lower}
use etcd_studio.Auth.Types.{
  AuthError, not_configured, invalid_input, last_admin, Manager, PersistedConfig, LdapSettings,
  SettingsInput, SettingsStatus, Status, Principal, Call, mode_local, mode_ldap, mode_both,
  provider_local, provider_ldap,
}
use etcd_studio.Auth.Rules.{mode_includes, active_admin_count}
use etcd_studio.Auth.Ldap.{normalize_ldap_settings}
use etcd_studio.Auth.Manager.Storage.{Outcome, save_or_restore, revoke_provider_sessions}

unfoldable pub status : Option Principal → Manager → Status
status principal m = record {
  configured = m.configured;
  local_enabled = m.configured && mode_includes m.config.mode provider_local;
  ldap_enabled = m.configured && mode_includes m.config.mode provider_ldap;
  authenticated = is_some principal;
  user = principal;
}

unfoldable pub settings_status : PersistedConfig → SettingsStatus
settings_status c = record {
  configured_at = c.configured_at;
  mode = c.mode;
  ldap = record {
    host = c.ldap.host;
    port = c.ldap.port;
    tls_mode = c.ldap.tls_mode;
    ca_file = c.ldap.ca_file;
    server_name = c.ldap.server_name;
    base_dn = c.ldap.base_dn;
    bind_dn = c.ldap.bind_dn;
    bind_password_configured = not (c.ldap.bind_password == "");
    user_filter = c.ldap.user_filter;
    user_dn_template = c.ldap.user_dn_template;
    username_attribute = c.ldap.username_attribute;
    display_name_attribute = c.ldap.display_name_attribute;
    admin_usernames = c.ldap.admin_usernames;
  };
}

unfoldable pub settings : Manager → Result AuthError SettingsStatus
settings m = if not m.configured then err not_configured else ok (settings_status m.config)

-- No active administrator where local accounts can log in.
abbrev pub locks_out : String → PersistedConfig → Bool
locks_out mode c = mode_includes mode provider_local && eqb (active_admin_count c.users) 0

abbrev pub with_mode : String → LdapSettings → PersistedConfig → PersistedConfig
with_mode mode ldap c = record c { mode = mode; ldap = ldap }

module _ ⦃u : Unicode⦄ where
  unfoldable pub update_settings : SettingsInput → Call → Manager → Outcome SettingsStatus
  update_settings input call m =
      let mode = to_lower (trim_space input.mode) in
      if not (mode == mode_local || mode == mode_ldap || mode == mode_both)
      then (err invalid_input, m)
      else if not m.configured
      then (err not_configured, m)
      else elim (normalize_ldap_settings input.ldap m.config.ldap
          (mode_includes mode provider_ldap)) [
            | err e ↦ (err e, m)
            | ok ldap ↦
                if locks_out mode m.config
                then (err last_admin, m)
                else if mode == mode_ldap && eqb (length ldap.admin_usernames) 0
                then (err invalid_input, m)
                else save_or_restore call (with_mode mode ldap m.config)
                    (with_mode m.config.mode m.config.ldap)
                    (λ m'. (ok (settings_status m'.config), revoke_provider_sessions mode m')) m
          ]

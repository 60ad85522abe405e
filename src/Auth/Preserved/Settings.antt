-- ===== src/Auth/Preserved/Settings.antt =====
-- The invariant under `UpdateSettings` and `bootstrap`.
use etcd_studio.Base.{
  String, Bool, true, false, ◌≡◌, refl, sym, arith, inl, inr, ok, err, Result, Result-cases,
}
use etcd_studio.Text.{Unicode, trim_space, to_lower, trim_space-trim_space}
use etcd_studio.AtomicFile.{chmod}
use etcd_studio.Auth.Types.{
  AuthError, Manager, PersistedUser, LdapSettings, SettingsInput, LocalUserInput, Call, no_config,
  provider_ldap, role_admin,
}
use etcd_studio.Auth.Rules.{mode_includes, normalize_user_fields}
use etcd_studio.Auth.Rules.Fields.{normalize_user_fields-IsAccepted}
use etcd_studio.Auth.Rules.Admins.{active_admin_count-one}
use etcd_studio.Auth.Password.{hash_password}
use etcd_studio.Auth.Ldap.{normalize_ldap_settings}
use etcd_studio.Auth.Manager.Storage.{save_or_restore, revoke_provider_sessions}
use etcd_studio.Auth.Manager.Settings.{locks_out, with_mode, settings_status, update_settings}
use etcd_studio.Auth.Manager.Bootstrap.{first_user, first_config, bootstrap}
use etcd_studio.Auth.Manager.Invariant.{
  IsSound, IsGood, Done, save_or_restore-Done, IsGood-published, saved-same,
}

module _ ⦃u : Unicode⦄ (call : Call) (m : Manager) (works : call.fails chmod ≡ false)
    (g : IsGood m) where
  settings-Done :
      (mode : String) (ldap : LdapSettings)
      → m.configured ≡ true
      → locks_out mode m.config ≡ false
      → Done m (
          save_or_restore call
            (with_mode mode ldap m.config)
            (with_mode m.config.mode m.config.ldap)
            (λ m'. (ok (settings_status m'.config), revoke_provider_sessions mode m'))
            m)
  unfolding revoke_provider_sessions
  settings-Done mode ldap configured kept =
      let s = g.sound configured in
      save_or_restore-Done call _ _ _ m works g (saved-same m.config s.version) λ d published.
        IsGood-published _
          (record {
            version = refl;
            accounts = s.accounts;
            unique = s.unique;
            administrable = kept;
          })
          configured published

  module _ (input : SettingsInput) where
    abbrev normalized : Result AuthError LdapSettings
    normalized =
        normalize_ldap_settings input.ldap m.config.ldap
          (mode_includes (to_lower (trim_space input.mode)) provider_ldap)

    update_settings-accepted :
        (ldap : LdapSettings) → normalized ≡ ok ldap → Done m (update_settings input call m)
    unfolding update_settings
    update_settings-accepted ldap accepted =
        ground (arith, settings-Done (to_lower (trim_space input.mode)) ldap)

    update_settings-refused :
        (e : AuthError) → normalized ≡ err e → Done m (update_settings input call m)
    unfolding update_settings
    update_settings-refused e refused = ground arith

    pub update_settings-Done : Done m (update_settings input call m)
    update_settings-Done = elim (Result-cases normalized) [
      | inl (e, refused) ↦ update_settings-refused e refused
      | inr (ldap, accepted) ↦ update_settings-accepted ldap accepted
    ]

  first_config-IsSound :
      (username display hash : String) (must_change : Bool)
      → trim_space username ≡ username
      → IsSound (first_config (first_user username display must_change call) hash call)
  first_config-IsSound username display hash must_change trimmed =
      let v : PersistedUser = record {
        user = first_user username display must_change call;
        password_hash = hash;
      } in
      record {
        version = refl;
        accounts = (record { role_known = inl refl; grants = λ _. refl; trimmed = trimmed }, tt);
        unique = (tt, tt);
        administrable = ground (arith, active_admin_count-one v refl);
      }

  bootstrap-saved :
      (username display hash : String) (must_change : Bool)
      → trim_space username ≡ username
      → m.configured ≡ false
      → let user = first_user username display must_change call in
        Done m (
          save_or_restore call
            (first_config user hash call)
            (λ _. no_config)
            (λ m'. (ok user, record m' { configured = true }))
            m)
  bootstrap-saved username display hash must_change trimmed fresh =
      save_or_restore-Done call _ _ _ m works g (sym (g.blank fresh)) λ d published.
        IsGood-published _ (first_config-IsSound username display hash must_change trimmed) refl
          published

  pub bootstrap-Done :
      (input : LocalUserInput) (must_change : Bool) → Done m (bootstrap input must_change call m)
  unfolding bootstrap
  bootstrap-Done input must_change =
      elim (Result-cases (normalize_user_fields input.username input.display_name role_admin)) [
        | inl (e, refused) ↦ ground arith
        | inr ((username, display, role), accepted) ↦
            let facts =
              rw accepted at
                (normalize_user_fields-IsAccepted input.username input.display_name role_admin) in
            elim (Result-cases (hash_password call.generate input.password)) [
              | inl (e, failed) ↦ ground arith
              | inr (hash, hashed) ↦ ground (
                arith,
                bootstrap-saved username display hash must_change
                    (rw facts.0 (trim_space-trim_space input.username)),
              )
            ]
      ]

-- ===== src/Auth/Preserved/Each.antt =====
-- What holds of each account, under the methods that add, change and remove one.
use etcd_studio.Base.{
  ℕ, String, ◌≡◌, some, [], ◌∷◌, ◌++◌, All, All-append_one, All-set, All-remove_at, get_elem?, set,
  remove_at, set-set, set-get_elem?, ◌∙◌, List, arith, inl, inr, Option-cases, Result-cases, ok,
}
use mathlib.Core.Path.{subst, sym}
use etcd_studio.Text.{Unicode, trim_space, to_lower}
use etcd_studio.AtomicFile.{Disk, replace_file}
use etcd_studio.Auth.Types.{
  Manager, PersistedConfig, PersistedUser, LocalUserInput, Call, provider_local, User,
  provider_ldap, LdapSettings, SettingsInput,
}
use etcd_studio.Auth.Ldap.{normalize_ldap_settings}
use etcd_studio.Auth.Manager.Settings.{update_settings, settings_status, with_mode}
use etcd_studio.Auth.Rules.{mode_includes, find_user, normalize_user_fields}
use etcd_studio.Auth.Rules.Find.{find_user-some}
use etcd_studio.Auth.Password.{hash_password}
use etcd_studio.Auth.Manager.Storage.{
  Outcome, save_or_restore, revoke_sessions, revoke_provider_sessions, with_users,
}
use etcd_studio.Auth.Manager.Accounts.{
  create_user, update_user, delete_user, updated_user, new_user, new_hash, drop_last,
  drop_last-append_one,
}
use etcd_studio.Auth.Manager.Invariant.{
  saved, disk_after, save_or_restore-eq_next, save_or_restore-eq_restore,
}

-- What holds of the configuration after saving and after restoring.
pub save_or_restore-config :
    {A : Type 0} (P : PersistedConfig → Type 0) (call : Call) (updated : PersistedConfig)
    (restore : PersistedConfig → PersistedConfig) (next : Manager → Outcome A) (m : Manager)
    → P (restore (saved updated))
    → ((d : Disk PersistedConfig)
        → P (next (record m { config = saved updated; disk = d })).1.config)
    → P (save_or_restore call updated restore next m).1.config
save_or_restore-config P call updated restore next m undone done =
    elim (Option-cases (replace_file call.fails (saved updated) m.disk).0) [
      | inl e ↦
          subst (λ (o : Outcome _). P o.1.config)
            (sym (save_or_restore-eq_next call updated restore next m e))
            (done (disk_after call updated m))
      | inr (s, e) ↦
          subst (λ (o : Outcome _). P o.1.config)
            (sym (save_or_restore-eq_restore call updated restore next m s e)) undone
    ]

module _ ⦃u : Unicode⦄ (P : List PersistedUser → Type 0) (call : Call) (m : Manager)
    (before : P m.config.users) where
  delete_any :
      (name : String) (i : ℕ)
      → P (remove_at i m.config.users)
      → P
          (save_or_restore call
            (with_users m.config (remove_at i m.config.users))
            (λ c. with_users c m.config.users)
            (λ m'. (ok tt, revoke_sessions provider_local name m'))
            m).1.config.users
  unfolding revoke_sessions
  delete_any name i changed =
      save_or_restore-config (λ c. P c.users) call _ _ _ m before (λ d. changed)

  -- What holds of the accounts before holds after a deletion, if it holds without any one that the name
  -- may belong to.
  pub delete_user-users :
      (name : String)
      → ((i : ℕ) (v : PersistedUser)
          → find_user m.config.users name ≡ some (i, v)
          → P (remove_at i m.config.users))
      → P (delete_user name call m).1.config.users
  unfolding delete_user
  delete_user-users name fits = elim (Option-cases (find_user m.config.users name)) [
    | inl e ↦ ground arith
    | inr ((i, v), e) ↦ ground (arith, delete_any name i (fits i v e))
  ]

  create_any :
      (v : PersistedUser) (result : User)
      → P (m.config.users ++ v ∷ [])
      → P
          (save_or_restore call
            (with_users m.config (m.config.users ++ v ∷ []))
            (λ c. with_users c (drop_last c.users))
            (λ m'. (ok result, m'))
            m).1.config.users
  create_any v result changed =
      save_or_restore-config (λ c. P c.users) call _ _ _ m
        (rw (drop_last-append_one m.config.users v) before) (λ d. changed)

  pub create_user-users :
      (input : LocalUserInput)
      → ((username display role hash : String)
          → normalize_user_fields input.username input.display_name input.role
            ≡ ok (username, display, role)
          → P (
              m.config.users
              ++ record { user = new_user username display role input call; password_hash = hash }
                ∷ []))
      → P (create_user input call m).1.config.users
  unfolding create_user
  create_user-users input fits =
      elim (Result-cases (normalize_user_fields input.username input.display_name input.role)) [
        | inl (e, refused) ↦ ground arith
        | inr ((username, display, role), accepted) ↦
            elim (Result-cases (hash_password call.generate input.password)) [
              | inl (e, failed) ↦ ground arith
              | inr (hash, hashed) ↦
                  let user = new_user username display role input call in
                  ground (
                    arith,
                    create_any (record { user = user; password_hash = hash }) user
                        (fits username display role hash accepted),
                  )
            ]
      ]

  update_any :
      (i : ℕ) (v w : PersistedUser)
      → get_elem? m.config.users i ≡ some v
      → P (set m.config.users i w)
      → P
          (save_or_restore call
            (with_users m.config (set m.config.users i w))
            (λ c. with_users c (set c.users i v))
            (λ m'. (ok w.user, revoke_sessions provider_local v.username m'))
            m).1.config.users
  unfolding revoke_sessions
  update_any i v w there changed =
      let undone : set (set m.config.users i w) i v ≡ m.config.users =
        set-set m.config.users i w v ∙ set-get_elem? m.config.users i v there in
      save_or_restore-config (λ c. P c.users) call _ _ _ m (rw undone before) (λ d. changed)

  pub update_user-users :
      (name : String) (input : LocalUserInput)
      → ((i : ℕ) (v : PersistedUser) (display hash : String)
          → find_user m.config.users name ≡ some (i, v)
          → P (
              set m.config.users i
                (updated_user v display (to_lower (trim_space input.role)) input hash call)))
      → P (update_user name input call m).1.config.users
  unfolding update_user
  update_user-users name input fits = elim (Result-cases (new_hash call input.password)) [
    | inl (e, failed) ↦ ground arith
    | inr (hash, hashed) ↦ elim (Option-cases (find_user m.config.users name)) [
      | inl missing ↦ ground arith
      | inr ((i, v), found) ↦
          let there = (find_user-some m.config.users name i v found).0 in
          ground
            (arith, update_any i v _ there (fits i v (trim_space input.display_name) hash found))
    ]
  ]

module _ ⦃u : Unicode⦄ (Q : PersistedUser → Type 0) (call : Call) (m : Manager)
    (each : All Q m.config.users) where
  pub delete_user-All : (name : String) → All Q (delete_user name call m).1.config.users
  delete_user-All name =
      delete_user-users (All Q) call m each name (λ i v e. All-remove_at Q i m.config.users each)

  -- An update gives only an account that its role fits.
  pub update_user-All :
      (input : LocalUserInput) (name : String)
      → ((v : PersistedUser) (display hash : String)
          → Q (updated_user v display (to_lower (trim_space input.role)) input hash call))
      → All Q (update_user name input call m).1.config.users
  update_user-All input name fits =
      update_user-users (All Q) call m each name input
        (λ i v display hash e. All-set Q m.config.users i _ each (fits v display hash))

  pub create_user-All :
      (input : LocalUserInput)
      → ((username display role hash : String)
          → normalize_user_fields input.username input.display_name input.role
            ≡ ok (username, display, role)
          → Q (record { user = new_user username display role input call; password_hash = hash }))
      → All Q (create_user input call m).1.config.users
  create_user-All input fits =
      create_user-users (All Q) call m each input (λ username display role hash e.
        All-append_one Q m.config.users _ each (fits username display role hash e))

  settings-All :
      (mode : String) (ldap : LdapSettings)
      → All Q
          (save_or_restore call
            (with_mode mode ldap m.config)
            (with_mode m.config.mode m.config.ldap)
            (λ m'. (ok (settings_status m'.config), revoke_provider_sessions mode m'))
            m).1.config.users
  unfolding revoke_provider_sessions
  settings-All mode ldap = save_or_restore-config (λ c. All Q c.users) call _ _ _ m each (λ d. each)

  pub update_settings-All :
      (input : SettingsInput) → All Q (update_settings input call m).1.config.users
  unfolding update_settings
  update_settings-All input =
      let mode = to_lower (trim_space input.mode) in
      elim (Result-cases
        (normalize_ldap_settings input.ldap m.config.ldap (mode_includes mode provider_ldap))) [
          | inl (e, refused) ↦ ground arith
          | inr (ldap, accepted) ↦ ground (arith, settings-All mode ldap)
        ]

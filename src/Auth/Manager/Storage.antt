-- ===== src/Auth/Manager/Storage.antt =====
-- `saveLocked`, `load` and the revocation of sessions of internal/auth/manager.go.
use etcd_studio.Base.{
  String, Bool, true, not, ◌&&◌, ◌||◌, ◌==◌, Option, none, some, List, [], ◌∷◌, if◌then◌else◌, eqb,
  Result, ok, err,
}
use etcd_studio.Base.Int.{eqb_ℤ}
use etcd_studio.Text.{Unicode, equal_fold}
use etcd_studio.AtomicFile.{Step, replace_file}
use etcd_studio.Auth.Types.{
  AuthError, save_failed, unsupported_config, invalid_stored_mode, invalid_stored_user, Manager,
  PersistedConfig, PersistedUser, Session, Call, auth_config_version, mode_local, mode_ldap,
  mode_both,
}
use etcd_studio.Auth.Rules.{mode_includes, normalize_user_fields, cluster_ids_for_role}

-- A method returns its result beside the manager, which keeps what was written before an error.
abbrev pub Outcome : Type 0 → Type 0
Outcome A = Result AuthError A × Manager

abbrev pub with_users : PersistedConfig → List PersistedUser → PersistedConfig
with_users c us = record c { users = us }

-- The step that failed, if one did.
unfoldable pub save_locked : (Step → Bool) → Manager → Option Step × Manager
save_locked fails m =
    let config : PersistedConfig = record m.config { version = auth_config_version } in
    let (failed, disk) = replace_file fails config m.disk in
    (failed, record m { config = config; disk = disk })

-- `m.config = updated`, then save; on an error `restore` undoes the change in memory.
unfoldable pub save_or_restore :
    {A : Type 0}
    → Call
    → PersistedConfig
    → (PersistedConfig → PersistedConfig)
    → (Manager → Outcome A)
    → Manager
    → Outcome A
unfolding save_locked
save_or_restore call updated restore next m =
    let (failed, m') = save_locked call.fails (record m { config = updated }) in
    elim failed [
      | none ↦ next m'
      | some s ↦ (err (save_failed s), record m' { config = restore m'.config })
    ]

-- `for key, current := range m.sessions { if test { delete(m.sessions, key) } }`
abbrev pub drop_if : (Session → Bool) → Option Session → Option Session
drop_if test none = none
drop_if test (some s) = if test s then none else some s

abbrev pub drop_sessions : (Session → Bool) → Manager → Manager
drop_sessions test m = record m { sessions = λ key. drop_if test (m.sessions key) }

unfoldable pub revoke_provider_sessions : String → Manager → Manager
revoke_provider_sessions mode = drop_sessions (λ s. not (mode_includes mode s.principal.provider))

module _ ⦃u : Unicode⦄ where
  unfoldable pub revoke_sessions : String → String → Manager → Manager
  revoke_sessions provider username =
      drop_sessions
        (λ s. s.principal.provider == provider && equal_fold s.principal.username username)

  -- The check of one stored user, and its cluster identifiers put in order.
  load_user : PersistedUser → Result AuthError PersistedUser
  load_user v = elim (normalize_user_fields v.username v.display_name v.role) [
    | err _ ↦ err invalid_stored_user
    | ok _ ↦
        if v.password_hash == ""
        then err invalid_stored_user
        else ok (record v {
          user = record v.user { cluster_ids = cluster_ids_for_role v.role v.cluster_ids };
        })
  ]

  load_users : List PersistedUser → Result AuthError (List PersistedUser)
  load_users [] = ok []
  load_users (v ∷ us) =
      let rest = load_users us in
      elim (load_user v) [
        | err e ↦ err e
        | ok w ↦ elim rest [ err e ↦ err e | ok ws ↦ ok (w ∷ ws) ]
      ]

  -- `opened` is what `os.Open` and the decoder make of the file: `none` if it does not exist.
  unfoldable pub load : Option (Result AuthError PersistedConfig) → Manager → Outcome (Unit {0})
  unfolding load_user load_users
  load none m = (ok tt, m)
  load (some (err e)) m = (err e, m)
  load (some (ok c)) m =
      if not (eqb_ℤ c.version auth_config_version) || eqb c.configured_at 0
      then (err unsupported_config, m)
      else if not (c.mode == mode_local || c.mode == mode_ldap || c.mode == mode_both)
      then (err invalid_stored_mode, m)
      else elim (load_users c.users) [
        | err e ↦ (err e, m)
        | ok us ↦ (ok tt, record m { config = with_users c us; configured = true })
      ]

-- ===== src/Auth/Manager/Sessions.antt =====
-- `CreateSession`, `Session` and `DeleteSession` of internal/auth/manager.go.
use etcd_studio.Base.{
  ◌+◌, String, Bool, not, ◌||◌, ◌==◌, Option, none, some, [], leb, if◌then◌else◌, ok, err,
}
use etcd_studio.Text.{Unicode}
use etcd_studio.Auth.Types.{
  random_failed, Time, Manager, Principal, Session, Crypto, session_duration, provider_local,
  role_admin, role_operator,
}
use etcd_studio.Auth.Rules.{mode_includes, find_user, contains_fold}
use etcd_studio.Auth.Manager.Storage.{Outcome, drop_sessions}

abbrev put_session : String → Option Session → Manager → Manager
put_session key value m = record m {
  sessions = λ other. if other == key then value else m.sessions other;
}

-- `!current.ExpiresAt.After(now)`
abbrev pub is_expired : Time → Session → Bool
is_expired now s = leb s.expires_at now

unfoldable pub prune_sessions : Time → Manager → Manager
prune_sessions now = drop_sessions (is_expired now)

module _ ⦃k : Crypto⦄ where
  abbrev pub session_key : String → String
  session_key token = k.sha256_hex token

  unfoldable pub delete_session : String → Manager → Manager
  delete_session token = put_session (session_key token) none

  -- `token` is the random token, if the generator worked; the clock is read twice.
  unfoldable pub create_session :
      Principal → Option String → Time → Time → Manager → Outcome (String × Time)
  unfolding prune_sessions
  create_session principal none now later m = (err random_failed, m)
  create_session principal (some token) now later m =
      let expires_at = now + session_duration in
      (
        ok (token, expires_at),
        put_session (session_key token)
            (some (record { principal = principal; expires_at = expires_at }))
            (prune_sessions later m),
      )

module _ ⦃u : Unicode⦄ where
  -- The principal of a session as the configuration has it now; `none` if it is refused.
  unfoldable pub current_principal : Manager → Principal → Option Principal
  current_principal m p =
      if not m.configured || not (mode_includes m.config.mode p.provider)
      then none
      else if p.provider == provider_local
      then elim (find_user m.config.users p.username) [
        | none ↦ none
        | some (_, v) ↦
            if not v.active
            then none
            else some (record p {
              display_name = v.display_name;
              role = v.role;
              cluster_ids = v.cluster_ids;
              must_change_password = v.must_change_password;
            })
      ]
      else some (record p {
        role =
            if contains_fold m.config.ldap.admin_usernames p.username
            then role_admin
            else role_operator;
        cluster_ids = [];
      })

module _ ⦃u : Unicode⦄ ⦃k : Crypto⦄ where
  -- Between the reads of the session and of the configuration no lock is held: `between` is what
  -- other calls do to the manager there.
  unfoldable pub session :
      String → Time → (Manager → Manager) → Manager → Option Principal × Manager
  session token now between m = elim (m.sessions (session_key token)) [
    | none ↦ (none, delete_session token m)
    | some s ↦
        if is_expired now s
        then (none, delete_session token m)
        else let m' = between m in
          elim (current_principal m' s.principal) [
            | none ↦ (none, delete_session token m')
            | some p ↦ (some p, m')
          ]
  ]

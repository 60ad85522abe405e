-- ===== src/Auth/Access/Revocation.antt =====
-- Which sessions the changes of an account end.
use etcd_studio.Base.{
  ℕ, String, true, eq_iff, ◌≡◌, none, some, get_elem?-map, map-remove_at, remove_at, arith, ok,
  Option-cases, inl, inr,
}
use etcd_studio.Text.{Unicode, fold_key, trim_space}
use etcd_studio.Auth.Types.{
  Manager, PersistedConfig, PersistedUser, Principal, Session, Time, Call, Crypto, provider_local,
}
use etcd_studio.Auth.Rules.{find_user}
use etcd_studio.Auth.Rules.Find.{find_user-some, find_user-fresh}
use etcd_studio.Auth.Rules.Unique.{usernames, IsUnique-others}
use etcd_studio.Auth.Manager.Storage.{with_users, revoke_sessions}
use etcd_studio.Auth.Manager.Invariant.{saved, IsGood, disk_after, save_or_restore-eq_ok}
use etcd_studio.Auth.Manager.Accounts.{delete_user}
use etcd_studio.Auth.Manager.Sessions.{session, current_principal, session_key}

module _ ⦃u : Unicode⦄ (name : String) (call : Call) (m : Manager) where
  abbrev without : ℕ → PersistedConfig
  without i = with_users m.config (remove_at i m.config.users)

  -- What a deletion that succeeds has done.
  pub delete_user-eq_ok :
      (delete_user name call m).0 ≡ ok tt
      → (i : ℕ) × (v : PersistedUser) × (find_user m.config.users name ≡ some (i, v))
        × (m.configured ≡ true)
        × (delete_user name call m ≡ (
          ok tt,
          revoke_sessions provider_local name
              (record m { config = saved (without i); disk = disk_after call (without i) m }),
        ))
  unfolding delete_user
  delete_user-eq_ok h = elim (Option-cases (find_user m.config.users name)) [
    | inl missing ↦ ground arith
    | inr ((i, v), found) ↦ (
      i,
      v,
      found,
      ground arith,
      ground (
        arith,
        save_or_restore-eq_ok call (without i) (λ c. with_users c m.config.users)
            (λ m'. (ok tt, revoke_sessions provider_local name m')) m tt,
      ),
    )
  ]

  -- Where the invariant holds, the name of a deleted account is free afterwards.
  pub find_user-delete_user :
      IsGood m
      → (delete_user name call m).0 ≡ ok tt
      → (other : String) → fold_key (trim_space other) ≡ fold_key (trim_space name)
      → find_user (delete_user name call m).1.config.users other ≡ none
  unfolding revoke_sessions
  find_user-delete_user g h other same =
      let (i, v, found, configured, after) = delete_user-eq_ok h in
      let at = find_user-some m.config.users name i v found in
      let names =
        IsUnique-others i (usernames m.config.users) v.username (g.sound configured).unique
          (get_elem?-map (λ (x : PersistedUser). x.username) m.config.users i v at.0) in
      rw after (
        find_user-fresh (remove_at i m.config.users) other (rw (map-remove_at, same, ← at.1) names))

-- A user that is not there has no principal.
current_principal-missing :
    ⦃u : Unicode⦄ (m : Manager) (p : Principal)
    → p.provider ≡ provider_local
    → find_user m.config.users p.username ≡ none
    → current_principal m p ≡ none
unfolding current_principal
current_principal-missing m p here missing =
    ground (arith, (eq_iff p.provider provider_local).1 here)

module _ ⦃u : Unicode⦄ ⦃k : Crypto⦄ where
  -- A session of a local account that the configuration does not have is refused.
  pub session-missing :
      (token : String) (now : Time) (m : Manager) (s : Session)
      → m.sessions (session_key token) ≡ some s
      → s.principal.provider ≡ provider_local
      → find_user m.config.users s.principal.username ≡ none
      → (session token now (λ x. x) m).0 ≡ none
  unfolding session
  session-missing token now m s stored here missing =
      ground (arith, current_principal-missing m s.principal here missing)

  -- Where the invariant held before, a deletion that succeeds leaves no session of a local account of that
  -- name, up to blanks and case, that is answered, though it may still be stored.
  pub session-delete_user :
      (name token : String) (call : Call) (now : Time) (m : Manager) (s : Session)
      → IsGood m
      → (delete_user name call m).0 ≡ ok tt
      → (delete_user name call m).1.sessions (session_key token) ≡ some s
      → s.principal.provider ≡ provider_local
      → fold_key (trim_space s.principal.username) ≡ fold_key (trim_space name)
      → (session token now (λ x. x) (delete_user name call m).1).0 ≡ none
  session-delete_user name token call now m s g h stored here same =
      session-missing token now (delete_user name call m).1 s stored here
        (find_user-delete_user name call m g h s.principal.username same)

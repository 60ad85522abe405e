-- ===== src/Auth/Access/Current.antt =====
-- Sessions and the configuration at the time of the answer.
use etcd_studio.Base.{
  ℕ, ◌<◌, String, true, false, ◌==◌, eq_iff, ◌≡◌, ◌≢◌, sym, ◌∙◌, ◌⊎◌, inl, inr, Option, some, [],
  get_elem?, arith, Option-cases, Bool-cases,
}
use etcd_studio.Text.{Unicode, fold_key, trim_space}
use etcd_studio.Auth.Types.{
  Manager, Principal, PersistedUser, Session, Time, Crypto, provider_local, role_admin,
  role_operator,
}
use etcd_studio.Auth.Rules.{mode_includes, find_user, contains_fold}
use etcd_studio.Auth.Rules.Find.{find_user-some}
use etcd_studio.Auth.Manager.Sessions.{session, session_key, current_principal}

module _ ⦃u : Unicode⦄ where
  -- The principal is an active local user with the role and grants that are stored now.
  abbrev pub IsLocalUser : Manager → Principal → Type 0
  IsLocalUser m p =
      (i : ℕ) × (v : PersistedUser) × (get_elem? m.config.users i ≡ some v)
      × (fold_key v.username ≡ fold_key (trim_space p.username))
      × (v.active ≡ true)
      × (p.role ≡ v.role)
      × (p.cluster_ids ≡ v.cluster_ids)
      × (p.must_change_password ≡ v.must_change_password)

  -- The principal of a directory account is an administrator only if it is listed.
  abbrev pub IsListed : Manager → Principal → Type 0
  IsListed m p =
      (p.cluster_ids ≡ [])
      × (p.role ≡ role_operator
          ⊎ (p.role ≡ role_admin) × (contains_fold m.config.ldap.admin_usernames p.username ≡ true))

  pub record IsCurrent (m : Manager) (p : Principal) : Type 0 where
    pub configured : m.configured ≡ true
    pub enabled : mode_includes m.config.mode p.provider ≡ true
    pub local_account : p.provider ≡ provider_local → IsLocalUser m p
    pub directory_account : p.provider ≢ provider_local → IsListed m p

  -- What `current_principal` computes for a local user that was found.
  local_current :
      (m : Manager) (p q : Principal)
      → (p.provider == provider_local) ≡ true
      → current_principal m p ≡ some q
      → IsLocalUser m q
  unfolding current_principal
  local_current m p q here h = elim (Option-cases (find_user m.config.users p.username)) [
    | inl missing ↦ ground arith
    | inr ((i, v), found) ↦
        let f = find_user-some m.config.users p.username i v found in
        (i, v, f.0, ground (arith, f.1), ground arith, ground arith, ground arith, ground arith)
  ]

  provider-current :
      (m : Manager) (p q : Principal) → current_principal m p ≡ some q → q.provider ≡ p.provider
  unfolding current_principal
  provider-current m p q h = ground arith

  username-current :
      (m : Manager) (p q : Principal) → current_principal m p ≡ some q → q.username ≡ p.username
  unfolding current_principal
  username-current m p q h = ground arith

  not_local :
      (p : Principal) → (p.provider == provider_local) ≡ false → p.provider ≡ provider_local → ⊥
  not_local p elsewhere e = cc (elsewhere, (eq_iff p.provider provider_local).1 e)

  current_principal-IsCurrent :
      (m : Manager) (p q : Principal) → current_principal m p ≡ some q → IsCurrent m q
  current_principal-IsCurrent m p q h = elim (Bool-cases (p.provider == provider_local)) [
    | inl here ↦ record {
      configured = unfold current_principal in ground arith;
      enabled = unfold current_principal in ground arith;
      local_account = λ _. local_current m p q here h;
      directory_account =
          λ ne. absurd (ne (provider-current m p q h ∙ (eq_iff p.provider provider_local).0 here));
    }
    | inr elsewhere ↦ record {
      configured = unfold current_principal in ground arith;
      enabled = unfold current_principal in ground arith;
      directory_account = λ _. (unfold current_principal in ground arith);
      local_account = λ e. absurd (not_local p elsewhere (sym (provider-current m p q h) ∙ e));
    }
  ]

module _ ⦃u : Unicode⦄ ⦃k : Crypto⦄ (token : String) (now : Time) (m m' : Manager) where
  abbrev answer : Option Principal
  answer = (session token now (λ _. m') m).0

  -- The session that was stored, and why it was let through.
  session-eq_some :
      (q : Principal)
      → answer ≡ some q
      → (s : Session) × (m.sessions (session_key token) ≡ some s)
        × (now < s.expires_at)
        × (current_principal m' s.principal ≡ some q)
  unfolding session
  session-eq_some q h = elim (Option-cases (m.sessions (session_key token))) [
    | inl missing ↦ ground arith
    | inr (s, stored) ↦ (s, stored, ground arith, ground arith)
  ]

  -- A token is answered only if its session is stored and has not expired, and then with a principal of
  -- the configuration at the time of the answer (`m'`, after whatever other calls did meanwhile): the
  -- provider is enabled; if it is the local one, the account exists, is active and has that role and those
  -- grants; if it is another, there are no grants and the role is that of an administrator only for a
  -- listed name. The name and the provider are those of the session.
  pub session-IsCurrent :
      (q : Principal)
      → answer ≡ some q
      → (s : Session) × (m.sessions (session_key token) ≡ some s)
        × (now < s.expires_at)
        × (q.username ≡ s.principal.username)
        × (q.provider ≡ s.principal.provider)
        × IsCurrent m' q
  session-IsCurrent q h =
      let (s, stored, alive, current) = session-eq_some q h in
      (
        s,
        stored,
        alive,
        username-current m' s.principal q current,
        provider-current m' s.principal q current,
        current_principal-IsCurrent m' s.principal q current,
      )

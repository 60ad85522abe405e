-- ===== src/App/Access/Admitted.antt =====
-- Which requests reach a handler of internal/app/server.go.
use etcd_studio.Base.{
  String, true, false, ◌≡◌, ◌==◌, Option, some, arith, ◌<◌, inl, inr, Option-cases, Bool-cases, ok,
}
use etcd_studio.Text.{Unicode, trim_space}
use etcd_studio.Auth.Types.{Manager, Principal, Session, Time, Crypto}
use etcd_studio.Auth.Manager.Sessions.{session, session_key}
use etcd_studio.Auth.Access.Current.{IsCurrent, session-IsCurrent}
use etcd_studio.App.Access.{
  Route, starts_with, public_auth_route, password_change_allowed_route, request_principal,
  require_authentication,
}

module _ ⦃u : Unicode⦄ ⦃k : Crypto⦄ where
  -- A principal whom the cookie of a request stands for.
  pub record IsAdmitted (r : Route) (now : Time) (m m' : Manager) (p : Principal) : Type 0 where
    pub token : String
    pub stored : Session
    pub sent : r.cookie ≡ some token
    pub found : m.sessions (session_key token) ≡ some stored
    pub alive : now < stored.expires_at
    pub owner : p.username ≡ stored.principal.username
    pub provider : p.provider ≡ stored.principal.provider
    pub current : IsCurrent m' p
    pub password : p.must_change_password ≡ true → password_change_allowed_route r ≡ true

  module _ (r : Route) (now : Time) (m m' : Manager) where
    -- A request whose principal is found has a session.
    principal-cookie :
        (p : Principal)
        → (request_principal r now (λ _. m') m).0 ≡ some p
        → (token : String) × (r.cookie ≡ some token) × ((session token now (λ _. m') m).0 ≡ some p)
    unfolding request_principal
    principal-cookie p h = elim (Option-cases r.cookie) [
      | inl missing ↦ absurd (cc (rw missing at h))
      | inr (token, there) ↦ elim (Bool-cases (trim_space token == "")) [
        | inl blank ↦ absurd (cc (rw (there, blank) at h))
        | inr filled ↦ (token, there, rw (there, filled) at h)
      ]
    ]

    -- How the check of a request that is neither public nor outside of the interface ends.
    admitted-found :
        {A : Type 0} (found : Option Principal)
        → starts_with "/api/" r.path ≡ true
        → public_auth_route r ≡ false
        → (require_authentication {A = A} r now (λ _. m') m).0 ≡ ok found
        → (p : Principal) × (found ≡ some p)
          × ((request_principal r now (λ _. m') m).0 ≡ some p)
          × (p.must_change_password ≡ true → password_change_allowed_route r ≡ true)
    unfolding require_authentication
    admitted-found {A} found api private h =
        elim (Option-cases (request_principal r now (λ _. m') m).0) [
          | inl missing ↦ ground arith
          | inr (p, there) ↦ (p, ground arith, there, λ temporary. ground arith)
        ]

    -- A request under /api/ that is neither a login nor a question about the status reaches its handler
    -- only with a principal in its context: its cookie is the token of a session that is stored and has
    -- not expired, the principal is that session's as the configuration has it at the time of the answer
    -- (`m'`, after whatever other calls did meanwhile), and while the password is temporary the route is
    -- the change of the password or the logout.
    pub require_authentication-IsAdmitted :
        (A : Type 0) (found : Option Principal)
        → starts_with "/api/" r.path ≡ true
        → public_auth_route r ≡ false
        → (require_authentication {A = A} r now (λ _. m') m).0 ≡ ok found
        → (p : Principal) × (found ≡ some p) × IsAdmitted r now m m' p
    require_authentication-IsAdmitted A found api private h =
        let (p, is_p, there, allowed) = admitted-found {A = A} found api private h in
        let (token, cookie, answer) = principal-cookie p there in
        let (stored, held, alive, name, provider, current) =
          session-IsCurrent token now m m' p answer in
        (
          p,
          is_p,
          record {
            token = token;
            stored = stored;
            sent = cookie;
            found = held;
            alive = alive;
            owner = name;
            provider = provider;
            current = current;
            password = allowed;
          },
        )

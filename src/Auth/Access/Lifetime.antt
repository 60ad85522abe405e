-- ===== src/Auth/Access/Lifetime.antt =====
-- How long a session lives.
use etcd_studio.Base.{◌+◌, String, eq_refl, ◌≡◌, none, some, arith, leb, if◌then◌else◌}
use etcd_studio.Text.{Unicode}
use etcd_studio.Auth.Types.{Manager, Principal, Time, Crypto, session_duration}
use etcd_studio.Auth.Manager.Sessions.{create_session, session, session_key, current_principal}

module _ ⦃u : Unicode⦄ ⦃k : Crypto⦄ (p : Principal) (token : String) (now later : Time)
    (m : Manager) where
  abbrev logged_in : Manager
  logged_in = (create_session p (some token) now later m).1

  -- A new token is answered from its creation on, for twelve hours and no longer, with the principal that
  -- the configuration gives it at the time of the answer.
  pub session-create_session :
      (asked : Time) (m' : Manager)
      → (session token asked (λ _. m') logged_in).0
        ≡ (if leb (now + session_duration) asked then none else current_principal m' p)
  unfolding session create_session
  session-create_session asked m' = ground (arith, eq_refl (session_key token))

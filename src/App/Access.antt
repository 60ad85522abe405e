-- ===== src/App/Access.antt =====
-- The checks of internal/app/auth.go that stand before a handler's work.
pub mod Admitted
use etcd_studio.Base.{
  List, code, eqb, String, Bool, true, false, not, ◌&&◌, ◌||◌, ◌==◌, Option, none, some,
  if◌then◌else◌, Result, ok, err,
}
use etcd_studio.Auth.Types.{Manager, Crypto, Principal, Time, role_admin}
use etcd_studio.Auth.Rules.{is_admin, can_access_cluster}
use etcd_studio.Auth.Manager.Sessions.{session}
use etcd_studio.Text.{Unicode, trim_space}
use etcd_studio.App.Answers.{Answer, refused}
use etcd_studio.App.Server.{Request}

-- `strings.HasPrefix`, the prefix first.
abbrev pub starts_with : String → String → Bool
starts_with String.[] s = true
starts_with (String.◌∷◌ c prefix) String.[] = false
starts_with (String.◌∷◌ c prefix) (String.◌∷◌ d s) = eqb (code c) (code d) && starts_with prefix s

-- The session cookie and the route of a request.
pub record Route : Type 0 where
  pub method : String
  pub path : String
  pub cookie : Option String

module _ (auth_enabled : Bool) where
  -- `requireAdmin`: the principal, or a refusal.
  unfoldable pub require_admin : {A : Type 0} → Request → Result (Answer A) Principal
  require_admin r =
      if not auth_enabled
      then ok (record {
        username = "";
        display_name = "";
        provider = "";
        role = role_admin;
        cluster_ids = List.[];
        must_change_password = false;
      })
      else elim r.principal [
        | none ↦ err (refused 401 "authentication_required")
        | some p ↦ if not (is_admin p) then err (refused 403 "admin_required") else ok p
      ]

  unfoldable pub request_is_admin : Request → Bool
  request_is_admin r =
      if not auth_enabled then true else elim r.principal [ none ↦ false | some p ↦ is_admin p ]

  unfoldable pub request_can_access_cluster : Request → String → Bool
  request_can_access_cluster r cluster_id =
      if not auth_enabled
      then true
      else elim r.principal [ none ↦ false | some p ↦ can_access_cluster p cluster_id ]

unfoldable pub public_auth_route : Route → Bool
public_auth_route r =
    r.method == "GET" && r.path == "/api/v1/auth/status"
    || r.method == "POST" && r.path == "/api/v1/auth/login"

unfoldable pub password_change_allowed_route : Route → Bool
password_change_allowed_route r =
    r.method == "POST" && r.path == "/api/v1/auth/change-password"
    || r.method == "POST" && r.path == "/api/v1/auth/logout"

module _ ⦃u : Unicode⦄ ⦃k : Crypto⦄ where
  -- `requestPrincipal` before a principal is in the context; `between` is what other calls do between
  -- the two parts of `Session`.
  unfoldable pub request_principal :
      Route → Time → (Manager → Manager) → Manager → Option Principal × Manager
  request_principal r now between m = elim r.cookie [
    | none ↦ (none, m)
    | some token ↦ if trim_space token == "" then (none, m) else session token now between m
  ]

  -- `requireAuthentication`: what `next` is called with, its principal in the context, or a refusal; the
  -- manager has its session dropped if it is not valid any more. `s.auth` is set here.
  unfoldable pub require_authentication :
      {A : Type 0}
      → Route
      → Time
      → (Manager → Manager)
      → Manager
      → Result (Answer A) (Option Principal) × Manager
  unfolding public_auth_route password_change_allowed_route request_principal
  require_authentication r now between m =
      if not (starts_with "/api/" r.path) || public_auth_route r
      then (ok none, m)
      else if not m.configured
      then (err (refused 503 "auth_setup_required"), m)
      else let (found, m') = request_principal r now between m in
        elim found [
          | none ↦ (err (refused 401 "authentication_required"), m')
          | some p ↦
              if p.must_change_password && not (password_change_allowed_route r)
              then (err (refused 403 "password_change_required"), m')
              else (ok (some p), m')
        ]

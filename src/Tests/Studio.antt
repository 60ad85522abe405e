-- ===== src/Tests/Studio.antt =====
-- The theorems on accounts and clusters at concrete inputs.
use etcd_studio.Base.{String, true, false, ◌≡◌, refl, eq_iff, some, none, ok, List, [], ◌∷◌, All}
use etcd_studio.Text.{to_lower, fold_key, trim_space, is_space}
use etcd_studio.Auth.Types.{Principal, LocalUserInput, role_admin, role_operator, provider_local}
use etcd_studio.Auth.Rules.{find_user, is_admin}
use etcd_studio.Store.Types.{ValueSnapshot}
use etcd_studio.Store.Registry.Types.{Urls, RegistryCall}
use etcd_studio.Store.Registry.Changes.{new_registry}
use etcd_studio.App.Server.{Request}
use etcd_studio.App.Studio.{Studio}
use etcd_studio.App.Clusters.{ClusterRequest, handle_create_cluster, handle_delete_cluster}
use etcd_studio.App.Users.{handle_create_user}
use etcd_studio.App.Granted.{FoldsAdmin, IsGranted}
use etcd_studio.App.Granted.Users.{IsConsistent}
use etcd_studio.App.Granted.Requests.{
  none_yet, create_user_sent, create_cluster_sent, delete_cluster_sent, Requests-IsConsistent,
}
use etcd_studio.App.Access.{
  Route, public_auth_route, password_change_allowed_route, request_principal,
  require_authentication,
}
use etcd_studio.App.Access.Admitted.{IsAdmitted, require_authentication-IsAdmitted}
use etcd_studio.App.Own.{Administers}
use etcd_studio.App.Own.Sent.{UserRequest, update_sent, IsPlain, sent, sent-Administers}
use etcd_studio.Tests.Clusters.{notebook}
use etcd_studio.Tests.Fixtures.{
  ascii, plain, monday, staffed, staffed-IsGood, root_input, bob_input, logged_in, bob,
}

-- Every text is the address of a host.
instance abbrev hosts : Urls
hosts = record { parse = λ s. some (record { scheme = "http"; host = s; has_user = false }) }

abbrev root : Principal
root = record {
  username = "root";
  display_name = "root";
  provider = provider_local;
  role = role_admin;
  cluster_ids = [];
  must_change_password = false;
}

abbrev from_root : Request
from_root = record {
  principal = some root;
  remote_addr = "10.0.0.1:55";
  remote_host = some "10.0.0.1";
  authenticated_user = "";
  forwarded_user = "";
}

-- The accounts "root" and "Bob", and no cluster.
abbrev opened : Studio (Unit {0}) (List ValueSnapshot)
opened = record {
  manager = staffed;
  registry = new_registry;
  server = record { world = tt; history = []; pending_audit = [] };
}

abbrev with_id : String → RegistryCall
with_id id = record { now = 3; fails = λ _. false; new_id = some id; close_fails = λ _. false }

abbrev new_cluster : ClusterRequest
new_cluster = record {
  id = "";
  name = "home";
  endpoints = "http://localhost:2379" ∷ [];
  username = "";
  password = none;
  clear_password = false;
  tls_ca_file = "";
  tls_cert_file = "";
  tls_key_file = "";
}

-- "Amy" is granted the cluster "c1".
abbrev amy_input : LocalUserInput
amy_input = record bob_input { username = "Amy"; cluster_ids = " c1" ∷ [] }

abbrev with_cluster : Studio (Unit {0}) (List ValueSnapshot)
with_cluster =
    (handle_create_cluster true notebook from_root (some new_cluster) (with_id "c1") opened).1

abbrev with_grant : Studio (Unit {0}) (List ValueSnapshot)
with_grant = (handle_create_user notebook from_root (some amy_input) monday with_cluster).1

abbrev without_home : Studio (Unit {0}) (List ValueSnapshot)
without_home = (handle_delete_cluster true notebook from_root "c1" (with_id "") monday with_grant).1

ascii-FoldsAdmin : FoldsAdmin
unfolding to_lower fold_key
ascii-FoldsAdmin role h = (eq_iff _ _).0 h

staffed_grants : All (IsGranted []) staffed.config.users
unfolding etcd_studio.Auth.Manager.Accounts.create_user etcd_studio.Auth.Rules.normalize_user_fields
    etcd_studio.Auth.Rules.username_pattern trim_space is_space to_lower fold_key
    etcd_studio.Auth.Password.hash_password etcd_studio.Auth.Password.validate_strong_password
    etcd_studio.Auth.Password.scan_password etcd_studio.Auth.Password.note_character
    etcd_studio.Auth.Manager.Bootstrap.bootstrap etcd_studio.Auth.Manager.Storage.save_or_restore
    etcd_studio.Auth.Manager.Storage.save_locked etcd_studio.AtomicFile.replace_file find_user
    etcd_studio.Auth.Rules.cluster_ids_for_role
staffed_grants = (tt, (tt, tt))

opened-IsConsistent : IsConsistent opened
opened-IsConsistent = record { good = staffed-IsGood; keyed = tt; granted = staffed_grants }

Requests-IsConsistent_example : IsConsistent without_home
Requests-IsConsistent_example =
    Requests-IsConsistent notebook ascii-FoldsAdmin
      (delete_cluster_sent
        (create_user_sent
          (create_cluster_sent (none_yet opened) from_root (some new_cluster) (with_id "c1")
            (λ id e. refl))
          from_root (some amy_input) monday refl)
        from_root "c1" (with_id "") monday (λ client. refl) (λ s. refl))
      opened-IsConsistent

root-Administers : Administers "root" staffed.config.users
unfolding etcd_studio.Auth.Manager.Accounts.create_user etcd_studio.Auth.Rules.normalize_user_fields
    etcd_studio.Auth.Rules.username_pattern trim_space is_space to_lower fold_key
    etcd_studio.Auth.Password.hash_password etcd_studio.Auth.Password.validate_strong_password
    etcd_studio.Auth.Password.scan_password etcd_studio.Auth.Password.note_character
    etcd_studio.Auth.Manager.Bootstrap.bootstrap etcd_studio.Auth.Manager.Storage.save_or_restore
    etcd_studio.Auth.Manager.Storage.save_locked etcd_studio.AtomicFile.replace_file find_user
    Administers etcd_studio.Auth.Rules.cluster_ids_for_role
root-Administers = (_, refl, refl)

root-is_admin : is_admin root ≡ true
unfolding is_admin
root-is_admin = refl

trim_space-root : trim_space "root" ≡ "root"
unfolding trim_space is_space
trim_space-root = refl

abbrev root_request : UserRequest
root_request = update_sent "root" (some (record root_input { role = role_operator }))

root-IsPlain : IsPlain root_request
unfolding IsPlain trim_space is_space
root-IsPlain = refl

-- "root" asks to become an operator.
sent-Administers_example :
    Administers "root" (sent notebook from_root root_request monday opened).manager.config.users
sent-Administers_example =
    sent-Administers notebook from_root root root_request monday opened refl root-is_admin refl
      trim_space-root root-IsPlain ascii-FoldsAdmin root-Administers

-- Bob asks for the keys with the token of his session.
abbrev keys_route : Route
keys_route = record { method = "GET"; path = "/api/v1/keys"; cookie = some "token" }

bob_admitted :
    (require_authentication {A = Unit {0}} keys_route 8 (λ _. logged_in) logged_in).0
    ≡ ok (some bob)
unfolding require_authentication request_principal public_auth_route password_change_allowed_route
    etcd_studio.Auth.Manager.Sessions.session etcd_studio.Auth.Manager.Sessions.create_session
    etcd_studio.Auth.Manager.Sessions.prune_sessions
    etcd_studio.Auth.Manager.Sessions.current_principal etcd_studio.Auth.Rules.mode_includes
    etcd_studio.Auth.Manager.Accounts.create_user etcd_studio.Auth.Rules.normalize_user_fields
    etcd_studio.Auth.Rules.username_pattern trim_space is_space to_lower fold_key
    etcd_studio.Auth.Password.hash_password etcd_studio.Auth.Password.validate_strong_password
    etcd_studio.Auth.Password.scan_password etcd_studio.Auth.Password.note_character
    etcd_studio.Auth.Manager.Bootstrap.bootstrap etcd_studio.Auth.Manager.Storage.save_or_restore
    etcd_studio.Auth.Manager.Storage.save_locked etcd_studio.AtomicFile.replace_file find_user
    etcd_studio.Auth.Rules.cluster_ids_for_role
bob_admitted = refl

bob_private : public_auth_route keys_route ≡ false
unfolding public_auth_route
bob_private = refl

require_authentication-IsAdmitted_example :
    (p : Principal) × (some bob ≡ some p) × IsAdmitted keys_route 8 logged_in logged_in p
require_authentication-IsAdmitted_example =
    require_authentication-IsAdmitted keys_route 8 logged_in logged_in (Unit {0}) (some bob) refl
      bob_private bob_admitted

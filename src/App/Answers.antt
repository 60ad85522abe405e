-- ===== src/App/Answers.antt =====
-- The answers of the handlers of internal/app: what a successful request is answered with, or a status
-- and a code. The texts for people are left out.
use etcd_studio.Base.{ℕ, String, Bool, true, false, if◌then◌else◌, ◌≡◌}
use etcd_studio.Store.Types.{
  StoreError, conflict, history_compacted, no_previous_version, history_not_setup, local_history,
  client_failed, deadline_exceeded,
}
use etcd_studio.Store.Registry.Types.{
  ClusterError, invalid_cluster, cluster_not_found, cluster_name_exists,
}
use etcd_studio.Auth.Types.{
  AuthError, invalid_input, already_configured, not_configured, user_exists, user_not_found,
  last_admin,
}

pub data Answer (A : Type 0) : Type 0 where
  answered : A → Answer A
  refused : ℕ → String → Answer A

-- `errors.Is(err, ErrHistoryNotSetup)`
abbrev pub is_not_setup : StoreError → Bool
is_not_setup history_not_setup = true
is_not_setup (local_history e) = is_not_setup e
is_not_setup _ = false

-- The status and the code of an error of the store, without the one that is tested first.
abbrev store_failure : StoreError → ℕ × String
store_failure (local_history _) = (500, "local_history_error")
store_failure conflict = (409, "revision_conflict")
store_failure history_compacted = (409, "history_compacted")
store_failure no_previous_version = (404, "rollback_unavailable")
store_failure (client_failed deadline_exceeded) = (504, "etcd_timeout")
store_failure _ = (502, "etcd_error")

abbrev store_code : StoreError → ℕ × String
store_code e = if is_not_setup e then (503, "history_storage_not_configured") else store_failure e

abbrev resolve_code : ClusterError → ℕ × String
resolve_code cluster_not_found = (404, "cluster_not_found")
resolve_code _ = (502, "cluster_unavailable")

abbrev mutation_code : ClusterError → ℕ × String
mutation_code invalid_cluster = (400, "invalid_cluster")
mutation_code cluster_not_found = (404, "cluster_not_found")
mutation_code cluster_name_exists = (409, "cluster_name_exists")
mutation_code _ = (500, "cluster_config_error")

abbrev auth_code : AuthError → ℕ × String
auth_code invalid_input = (400, "invalid_auth_input")
auth_code already_configured = (409, "auth_already_configured")
auth_code not_configured = (428, "auth_setup_required")
auth_code user_exists = (409, "user_exists")
auth_code user_not_found = (404, "user_not_found")
auth_code last_admin = (409, "last_admin_required")
auth_code _ = (500, "auth_storage_error")

module _ {A : Type 0} where
  abbrev pub write_store_error : StoreError → Answer A
  write_store_error e = refused (store_code e).0 (store_code e).1

  abbrev pub write_cluster_resolve_error : ClusterError → Answer A
  write_cluster_resolve_error e = refused (resolve_code e).0 (resolve_code e).1

  abbrev pub write_cluster_mutation_error : ClusterError → Answer A
  write_cluster_mutation_error e = refused (mutation_code e).0 (mutation_code e).1

  abbrev pub write_auth_error : AuthError → Answer A
  write_auth_error e = refused (auth_code e).0 (auth_code e).1

pub answered_inj : {A : Type 0} {a b : A} → answered a ≡ answered b → a ≡ b
answered_inj e = cc

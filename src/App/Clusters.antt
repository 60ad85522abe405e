-- ===== src/App/Clusters.antt =====
-- The handlers of internal/app/server.go on the clusters.
use etcd_studio.Base.{
  String, Bool, not, ◌==◌, Option, none, some, List, [], ◌∷◌, keep_if, map, length, if◌then◌else◌,
  Result, ok, err,
}
use etcd_studio.Base.Int.{pos}
use etcd_studio.Text.{Unicode}
use etcd_studio.Auth.Types.{Time, Manager, Call}
use etcd_studio.Auth.Manager.Accounts.{remove_cluster_permissions}
use etcd_studio.Store.Types.{AuditEvent}
use etcd_studio.Store.Kv.{HistoryStorage}
use etcd_studio.Store.Registry.Types.{
  Cluster, ClusterError, ClusterInput, Registry, RegistryCall, Urls,
}
use etcd_studio.Store.Registry.Clusters.{
  list_clusters, create_cluster, update_cluster, delete_cluster, no_cluster,
}
use etcd_studio.Store.History.Records.{append_text, format_int}
use etcd_studio.App.Answers.{Answer, answered, refused, write_cluster_mutation_error}
use etcd_studio.App.Server.{Request}
use etcd_studio.App.Audit.{record_audit}
use etcd_studio.App.Access.{require_admin, request_is_admin, request_can_access_cluster}
use etcd_studio.App.Studio.{Studio, event_on}

pub record ClusterRequest : Type 0 where
  pub id : String
  pub name : String
  pub endpoints : List String
  pub username : String
  pub password : Option String
  pub clear_password : Bool
  pub tls_ca_file : String
  pub tls_cert_file : String
  pub tls_key_file : String

pub record ClusterResponse : Type 0 where
  pub id : String
  pub name : String
  pub endpoints : List String
  pub username : String
  pub password_configured : Bool
  pub tls_ca_file : String
  pub tls_cert_file : String
  pub tls_key_file : String
  pub created_at : Time
  pub updated_at : Time

unfoldable pub to_input : ClusterRequest → ClusterInput
to_input r = record {
  name = r.name;
  endpoints = r.endpoints;
  username = r.username;
  password = if r.clear_password then some "" else r.password;
  tls_ca_file = r.tls_ca_file;
  tls_cert_file = r.tls_cert_file;
  tls_key_file = r.tls_key_file;
}

-- The password is not shown.
unfoldable pub make_cluster_response : Cluster → ClusterResponse
make_cluster_response c = record {
  id = c.id;
  name = c.name;
  endpoints = c.endpoints;
  username = c.username;
  password_configured = not (c.password == "");
  tls_ca_file = c.tls_ca_file;
  tls_cert_file = c.tls_cert_file;
  tls_key_file = c.tls_key_file;
  created_at = c.created_at;
  updated_at = c.updated_at;
}

abbrev first_with : String → List Cluster → Cluster
first_with id [] = no_cluster
first_with id (c ∷ cs) = if c.id == id then c else first_with id cs

abbrev cluster_event : String → Cluster → String → String → AuditEvent
cluster_event action c target detail = record (event_on action "cluster" target detail) {
  cluster_id = c.id;
  cluster_name = c.name;
}

abbrev endpoint_count : Cluster → String
endpoint_count c = append_text (format_int (pos (length c.endpoints))) " 个 Endpoint"

-- What a list of clusters is answered with: all of a cluster, or its identifier and name.
pub data Listing : Type 0 where
  full : List ClusterResponse → Listing
  summaries : List (String × String) → Listing

-- The grants of a cluster that was deleted; an error is only logged.
unfoldable pub without_grants : ⦃u : Unicode⦄ → Bool → String → Call → Manager → Manager
without_grants auth_enabled id call m =
    if auth_enabled then (remove_cluster_permissions id call m).1 else m

module _ ⦃u : Unicode⦄ ⦃p : Urls⦄ {W H : Type 0} (auth_enabled : Bool)
    (storage : HistoryStorage H) where
  unfoldable pub cluster_configuration : String → Studio W H → Cluster
  cluster_configuration id s = first_with id (list_clusters s.registry)

  unfoldable pub handle_list_clusters : Request → Studio W H → Answer Listing
  handle_list_clusters r s =
      let clusters = list_clusters s.registry in
      if not (request_is_admin auth_enabled r)
      then answered (
          summaries (
            map (λ (c : Cluster). (c.id, c.name))
              (keep_if (λ (c : Cluster). request_can_access_cluster auth_enabled r c.id) clusters)))
      else answered (full (map make_cluster_response clusters))

  -- The end of the two handlers that save a cluster.
  abbrev pub concluded_cluster :
      Request
      → (Cluster → AuditEvent)
      → Result ClusterError Cluster × Registry
      → Studio W H
      → Answer ClusterResponse × Studio W H
  concluded_cluster r event (err e, registry) s =
      (write_cluster_mutation_error e, record s { registry = registry })
  concluded_cluster r event (ok c, registry) s = (
    answered (make_cluster_response c),
    record s { registry = registry; server = record_audit storage r (event c) s.server },
  )

  unfoldable pub handle_create_cluster :
      Request
      → Option ClusterRequest
      → RegistryCall
      → Studio W H
      → Answer ClusterResponse × Studio W H
  unfolding require_admin to_input make_cluster_response
  handle_create_cluster r body call s = elim (require_admin auth_enabled r) [
    | err refusal ↦ (refusal, s)
    | ok _ ↦ elim body [
      | none ↦ (refused 400 "invalid_request", s)
      | some given ↦
          concluded_cluster r
            (λ c. cluster_event "cluster.create" c c.name (append_text "配置 " (endpoint_count c)))
            (create_cluster (to_input given) call s.registry) s
    ]
  ]

  -- `between` is what other calls do to the registry while the new configuration is checked.
  unfoldable pub handle_update_cluster :
      Request
      → String
      → Option ClusterRequest
      → RegistryCall
      → (Registry → Registry)
      → Studio W H
      → Answer ClusterResponse × Studio W H
  unfolding require_admin to_input make_cluster_response
  handle_update_cluster r id body call between s = elim (require_admin auth_enabled r) [
    | err refusal ↦ (refusal, s)
    | ok _ ↦ elim body [
      | none ↦ (refused 400 "invalid_request", s)
      | some given ↦
          concluded_cluster r
            (λ c. cluster_event "cluster.update" c c.name (append_text "更新为 " (endpoint_count c)))
            (update_cluster id (to_input given) call between s.registry) s
    ]
  ]

  unfoldable pub handle_delete_cluster :
      Request → String → RegistryCall → Call → Studio W H → Answer (Unit {0}) × Studio W H
  unfolding require_admin cluster_configuration without_grants
  handle_delete_cluster r id registry_call call s = elim (require_admin auth_enabled r) [
    | err refusal ↦ (refusal, s)
    | ok _ ↦
        let c = cluster_configuration id s in
        let (deleted, registry) = delete_cluster id registry_call s.registry in
        elim deleted [
          | err e ↦ (write_cluster_mutation_error e, record s { registry = registry })
          | ok _ ↦
              let target = if c.name == "" then id else c.name in
              let event : AuditEvent =
                record (event_on "cluster.delete" "cluster" target "删除 Etcd Studio 集群连接配置") {
                  cluster_id = id;
                  cluster_name = c.name;
                } in
              (
                answered tt,
                record {
                  manager = without_grants auth_enabled id call s.manager;
                  registry = registry;
                  server = record_audit storage r event s.server;
                },
              )
        ]
  ]

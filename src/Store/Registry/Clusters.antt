-- ===== src/Store/Registry/Clusters.antt =====
-- The methods of `Registry`, internal/store/registry.go.
use etcd_studio.Base.{
  String, Bool, true, false, not, ◌&&◌, ◌==◌, any, map, List, [], ◌∷◌, Option, none, some,
  if◌then◌else◌, Result, ok, err,
}
use etcd_studio.Base.Int.{eqb_ℤ}
use etcd_studio.Base.Sorting.{sort_slice, str_lt}
use etcd_studio.Base.Maps.{lookup, put_entry, remove_entry}
use etcd_studio.Text.{Unicode, to_lower, equal_fold}
use etcd_studio.AtomicFile.{Step, replace_file}
use etcd_studio.Store.Registry.Types.{
  Cluster, ClusterInput, ManagedCluster, ClusterFile, cluster_file_version, ClusterError,
  cluster_not_found, cluster_name_exists, id_failed, close_failed, unsupported_version, empty_id,
  duplicate_id, invalid_cluster, save_failed, Registry, Urls, RegistryCall,
}
use etcd_studio.Store.Registry.Input.{validate_cluster, cluster_from_input}

abbrev pub Entries : Type 0
Entries = List (String × ManagedCluster)

abbrev pub configs : Entries → List Cluster
configs es = map (λ (e : String × ManagedCluster). e.1.config) es

abbrev pub file_of : Entries → ClusterFile
file_of es = record {
  version = cluster_file_version;
  clusters = sort_slice (λ (a b : Cluster). str_lt a.id b.id) (configs es);
}

unfoldable pub save_clusters : (Step → Bool) → Registry → Option Step × Registry
save_clusters fails r =
    let (failed, disk) = replace_file fails (file_of r.clusters) r.disk in
    (failed, record r { disk = disk })

-- The map is changed and saved; on an error `restore` undoes the change in memory.
unfoldable pub save_entries :
    {A : Type 0}
    → RegistryCall
    → Entries
    → (Entries → Entries)
    → Result ClusterError A
    → Registry
    → Result ClusterError A × Registry
unfolding save_clusters
save_entries call changed restore result r =
    let (failed, r') = save_clusters call.fails (record r { clusters = changed }) in
    elim failed [
      | none ↦ (result, r')
      | some s ↦ (err (save_failed s), record r' { clusters = restore r'.clusters })
    ]

-- The zero cluster of Go.
abbrev pub no_cluster : Cluster
no_cluster = record {
  id = "";
  name = "";
  endpoints = [];
  username = "";
  password = "";
  tls_ca_file = "";
  tls_cert_file = "";
  tls_key_file = "";
  created_at = 0;
  updated_at = 0;
}

abbrev pub managed : Cluster → ManagedCluster
managed c = record { config = c; client = none }

-- The client of a cluster that was replaced or deleted is closed.
abbrev pub closed_client : RegistryCall → ManagedCluster → Result ClusterError (Unit {0})
closed_client call m = elim m.client [
  | none ↦ ok tt
  | some client ↦ if call.close_fails client then err close_failed else ok tt
]

module _ ⦃u : Unicode⦄ where
  unfoldable pub list_clusters : Registry → List Cluster
  list_clusters r =
      sort_slice
        (λ (a b : Cluster).
          if a.name == b.name then str_lt a.id b.id else str_lt (to_lower a.name) (to_lower b.name))
        (configs r.clusters)

  abbrev pub has_name : String → String → String × ManagedCluster → Bool
  has_name name except_id e = not (e.0 == except_id) && equal_fold e.1.config.name name

  unfoldable pub name_exists : String → String → Entries → Bool
  name_exists name except_id es = any (has_name name except_id) es

module _ ⦃u : Unicode⦄ ⦃p : Urls⦄ where
  unfoldable pub create_cluster :
      ClusterInput → RegistryCall → Registry → Result ClusterError Cluster × Registry
  create_cluster input call r = elim (cluster_from_input input no_cluster) [
    | err e ↦ (err e, r)
    | ok given ↦ elim call.new_id [
      | none ↦ (err id_failed, r)
      | some id ↦
          let cluster : Cluster = record given {
            id = id;
            created_at = call.now;
            updated_at = call.now;
          } in
          if name_exists cluster.name "" r.clusters
          then (err cluster_name_exists, r)
          else save_entries call (put_entry id (managed cluster) r.clusters) (remove_entry id)
              (ok cluster) r
    ]
  ]

  -- `between` is what other calls do after the first look at the cluster, while no lock is held.
  unfoldable pub update_cluster :
      String
      → ClusterInput
      → RegistryCall
      → (Registry → Registry)
      → Registry
      → Result ClusterError Cluster × Registry
  update_cluster id input call between r = elim (lookup id r.clusters) [
    | none ↦ (err cluster_not_found, r)
    | some existing ↦ elim (cluster_from_input input existing.config) [
      | err e ↦ (err e, r)
      | ok given ↦
          let cluster : Cluster = record given {
            id = existing.config.id;
            created_at = existing.config.created_at;
            updated_at = call.now;
          } in
          let r' = between r in
          elim (lookup id r'.clusters) [
            | none ↦ (err cluster_not_found, r')
            | some current ↦
                if name_exists cluster.name id r'.clusters
                then (err cluster_name_exists, r')
                else save_entries call (put_entry id (managed cluster) r'.clusters)
                    (put_entry id current) (ok cluster) r'
          ]
    ]
  ]

  unfoldable pub delete_cluster :
      String → RegistryCall → Registry → Result ClusterError (Unit {0}) × Registry
  delete_cluster id call r = elim (lookup id r.clusters) [
    | none ↦ (err cluster_not_found, r)
    | some found ↦
        save_entries call (remove_entry id r.clusters) (put_entry id found)
          (closed_client call found) r
  ]

  -- The loop over the clusters of the file.
  unfoldable pub load_clusters : List Cluster → Entries → Result ClusterError Entries
  load_clusters [] es = ok es
  load_clusters (c ∷ cs) es = elim (c.id == "") [
    | true ↦ err empty_id
    | false ↦ elim (lookup c.id es) [
      | some _ ↦ err duplicate_id
      | none ↦ elim (validate_cluster c) [
        | err _ ↦ err invalid_cluster
        | ok _ ↦ load_clusters cs (put_entry c.id (managed c) es)
      ]
    ]
  ]

  -- `opened` is what opening and decoding the file gives: `none` if it does not exist.
  unfoldable pub load_registry :
      Option (Result ClusterError ClusterFile) → Registry → Result ClusterError Registry
  load_registry none r = ok r
  load_registry (some (err e)) r = err e
  load_registry (some (ok file)) r =
      if not (eqb_ℤ file.version cluster_file_version)
      then err unsupported_version
      else elim (load_clusters file.clusters r.clusters) [
        | err e ↦ err e
        | ok es ↦ ok (record r { clusters = es })
      ]

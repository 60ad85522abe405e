-- ===== src/Store/Registry/Changes.antt =====
-- The names of the registry under `CreateCluster`, `UpdateCluster` and `DeleteCluster`.
use etcd_studio.Base.{
  ℕ, String, ◌≡◌, ◌≢◌, refl, inl, inr, arith, none, some, ok, Bool-cases, Option-cases,
  Result-cases, [],
}
use etcd_studio.Base.Maps.{lookup, put_entry, remove_entry}
use etcd_studio.Text.{Unicode}
use etcd_studio.Store.Registry.Types.{Cluster, ClusterInput, Registry, Urls, RegistryCall}
use etcd_studio.Store.Registry.Input.{validate_cluster, cluster_from_input}
use etcd_studio.Store.Registry.Clusters.{
  managed, name_exists, no_cluster, create_cluster, update_cluster, delete_cluster, closed_client,
}
use etcd_studio.Store.Registry.Names.{
  IsGood, put-IsGood, undo_put-IsGood, put_back-IsGood, undelete-IsGood, removed-IsGood,
  save_entries-IsGood,
}

-- Where there is no file.
abbrev pub new_registry : Registry
new_registry = record { clusters = []; disk = record { published = none; temporaries = [] } }

-- The identifiers that the generator makes are not empty.
abbrev pub MakesIds : RegistryCall → Type 0
MakesIds call = (id : String) → call.new_id ≡ some id → id ≢ ""

module _ ⦃u : Unicode⦄ ⦃p : Urls⦄ where
  cluster_from_input-valid :
      (input : ClusterInput) (base c : Cluster) (id : String) (created updated : ℕ)
      → cluster_from_input input base ≡ ok c
      → validate_cluster (record c { id = id; created_at = created; updated_at = updated }) ≡ ok tt
  unfolding cluster_from_input validate_cluster
  cluster_from_input-valid input base c id created updated h = ground arith

  create_cluster-IsGood :
      (input : ClusterInput) (call : RegistryCall) (r : Registry)
      → MakesIds call
      → IsGood r.clusters
      → IsGood (create_cluster input call r).1.clusters
  unfolding create_cluster
  create_cluster-IsGood input call r ids g =
      elim (Result-cases (cluster_from_input input no_cluster)) [
        | inl (e, bad) ↦ rw (bad, create_cluster) g
        | inr (given, fine) ↦ elim (Option-cases call.new_id) [
          | inl missing ↦ rw (fine, missing, create_cluster) g
          | inr (id, made) ↦
              let c : Cluster = record given {
                id = id;
                created_at = call.now;
                updated_at = call.now;
              } in
              elim (Bool-cases (name_exists c.name "" r.clusters)) [
                | inl taken ↦ rw (fine, made, taken, create_cluster) g
                | inr free ↦
                    let put =
                      put-IsGood id "" c r.clusters g refl (ids id made)
                        (cluster_from_input-valid input no_cluster given id call.now call.now fine)
                        free (λ k m e ne. (g.own_id k m e).1) in
                    rw (fine, made, free, create_cluster)
                      (save_entries-IsGood call (put_entry id (managed c) r.clusters)
                        (remove_entry id) (ok c) r put
                        (undo_put-IsGood id (managed c) r.clusters g))
              ]
        ]
      ]

  delete_cluster-IsGood :
      (id : String) (call : RegistryCall) (r : Registry)
      → IsGood r.clusters
      → IsGood (delete_cluster id call r).1.clusters
  unfolding delete_cluster
  delete_cluster-IsGood id call r g = elim (Option-cases (lookup id r.clusters)) [
    | inl missing ↦ rw (missing, delete_cluster) g
    | inr (found, there) ↦
        rw (there, delete_cluster)
          (save_entries-IsGood call (remove_entry id r.clusters) (put_entry id found)
            (closed_client call found) r (removed-IsGood id r.clusters g)
            (undelete-IsGood id found r.clusters there g))
  ]

  update_cluster-IsGood :
      (id : String) (input : ClusterInput) (call : RegistryCall) (r r' : Registry)
      → IsGood r.clusters
      → IsGood r'.clusters
      → IsGood (update_cluster id input call (λ _. r') r).1.clusters
  unfolding update_cluster
  update_cluster-IsGood id input call r r' g g' = elim (Option-cases (lookup id r.clusters)) [
    | inl missing ↦ rw (missing, update_cluster) g
    | inr (existing, there) ↦ elim (Result-cases (cluster_from_input input existing.config)) [
      | inl (e, bad) ↦ rw (there, bad, update_cluster) g
      | inr (given, fine) ↦ elim (Option-cases (lookup id r'.clusters)) [
        | inl gone ↦ rw (there, fine, gone, update_cluster) g'
        | inr (current, still) ↦
            let c : Cluster = record given {
              id = existing.config.id;
              created_at = existing.config.created_at;
              updated_at = call.now;
            } in
            elim (Bool-cases (name_exists c.name id r'.clusters)) [
              | inl taken ↦ rw (there, fine, still, taken, update_cluster) g'
              | inr free ↦
                  let own = g.own_id id existing there in
                  let put =
                    put-IsGood id id c r'.clusters g' own.0 own.1
                      (cluster_from_input-valid input existing.config given existing.config.id
                        existing.config.created_at call.now fine)
                      free (λ k m e ne. ne) in
                  rw (there, fine, still, free, update_cluster)
                    (save_entries-IsGood call (put_entry id (managed c) r'.clusters)
                      (put_entry id current) (ok c) r' put
                      (put_back-IsGood id (managed c) current r'.clusters still g'))
            ]
      ]
    ]
  ]

  -- What calls lead to, with other calls between the two parts of an update.
  pub data Reach : Registry → Registry → Type 0 where
    here : (r : Registry) → Reach r r
    created :
        {s r : Registry}
        → Reach s r
        → (input : ClusterInput) (call : RegistryCall) → MakesIds call
        → Reach s (create_cluster input call r).1
    updated :
        {s r r' : Registry}
        → Reach s r
        → Reach r r'
        → (id : String) (input : ClusterInput) (call : RegistryCall)
        → Reach s (update_cluster id input call (λ _. r') r).1
    deleted :
        {s r : Registry}
        → Reach s r
        → (id : String) (call : RegistryCall) → Reach s (delete_cluster id call r).1

  -- From a registry that satisfies it, every sequence of calls, with other calls between the two parts
  -- of an update and with any failure of saving, keeps: each cluster is under its own identifier, which
  -- is not empty, has passed the check, and no two have names that are equal up to case. The generator
  -- of identifiers makes no empty one.
  pub Registry-IsGood : {s r : Registry} → Reach s r → IsGood s.clusters → IsGood r.clusters
  Registry-IsGood (here r) g = g
  Registry-IsGood (created {r = r} h input call ids) g =
      create_cluster-IsGood input call r ids (Registry-IsGood h g)
  Registry-IsGood (updated {r = r} {r' = r'} h h' id input call) g =
      let k = Registry-IsGood h g in
      update_cluster-IsGood id input call r r' k (Registry-IsGood h' k)
  Registry-IsGood (deleted {r = r} h id call) g =
      delete_cluster-IsGood id call r (Registry-IsGood h g)

  pub new_registry-IsGood : IsGood new_registry.clusters
  new_registry-IsGood = record {
    own_id = λ id m e. cc;
    valid = λ id m e. cc;
    unique = λ id other m n e f same. cc;
  }

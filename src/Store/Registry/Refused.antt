-- ===== src/Store/Registry/Refused.antt =====
-- Creations and updates of a cluster that fail.
use etcd_studio.Base.{
  String, false, ◌==◌, ◌≡◌, refl, ◌∙◌, inl, inr, none, some, Result, ok, err, Bool-cases,
  Option-cases, Result-cases,
}
use etcd_studio.Base.Maps.{
  lookup, put_entry, remove_entry, lookup-put_entry, lookup-remove_entry, eq_of_test,
}
use etcd_studio.Text.{Unicode}
use etcd_studio.AtomicFile.{chmod, replace_file, replace_file-keeps}
use etcd_studio.Store.Registry.Types.{
  Cluster, ClusterInput, ManagedCluster, ClusterError, Registry, Urls, RegistryCall,
}
use etcd_studio.Store.Registry.Input.{cluster_from_input}
use etcd_studio.Store.Registry.Clusters.{
  Entries, managed, file_of, name_exists, save_clusters, save_entries, no_cluster, create_cluster,
  update_cluster,
}

-- Every cluster and the published file are as they were.
abbrev pub Same : Registry → Registry → Type 0
Same r r' =
    ((k : String) → lookup k r'.clusters ≡ lookup k r.clusters)
    × (r'.disk.published ≡ r.disk.published)

-- What an outcome that is an error leaves.
abbrev pub IsRefused : {A : Type 0} → Registry → Result ClusterError A × Registry → Type 0
IsRefused r (ok a, r') = Unit
IsRefused r (err e, r') = Same r r'

abbrev same_self : (r : Registry) → Same r r
same_self r = ((λ k. refl), refl)

save_entries-IsRefused :
    {A : Type 0} (call : RegistryCall) (changed : Entries) (restore : Entries → Entries) (a : A)
    (r : Registry)
    → call.fails chmod ≡ false
    → ((k : String) → lookup k (restore changed) ≡ lookup k r.clusters)
    → IsRefused r (save_entries call changed restore (ok a) r)
unfolding save_entries save_clusters
save_entries-IsRefused call changed restore a r works undone =
    elim (Option-cases (replace_file call.fails (file_of changed) r.disk).0) [
      | inl done ↦ rw (done, save_entries) tt
      | inr (s, failed) ↦
          rw (failed, save_entries)
            (undone, replace_file-keeps call.fails (file_of changed) r.disk works failed)
    ]

undo_put :
    (id : String) (m : ManagedCluster) (es : Entries)
    → lookup id es ≡ none
    → (k : String) → lookup k (remove_entry id (put_entry id m es)) ≡ lookup k es
undo_put id m es fresh k = elim (Bool-cases (id == k)) [
  | inl here ↦
      let there : lookup k es ≡ none = rw (← eq_of_test id k here) fresh in
      lookup-remove_entry k id (put_entry id m es) ∙ rw (here, there) refl
  | inr elsewhere ↦
      lookup-remove_entry k id (put_entry id m es)
      ∙ rw elsewhere (lookup-put_entry k id m es ∙ rw elsewhere refl)
]

put_back :
    (id : String) (m old : ManagedCluster) (es : Entries)
    → lookup id es ≡ some old
    → (k : String) → lookup k (put_entry id old (put_entry id m es)) ≡ lookup k es
put_back id m old es there k = elim (Bool-cases (id == k)) [
  | inl here ↦
      let found : lookup k es ≡ some old = rw (← eq_of_test id k here) there in
      lookup-put_entry k id old (put_entry id m es) ∙ rw (here, found) refl
  | inr elsewhere ↦
      lookup-put_entry k id old (put_entry id m es)
      ∙ rw elsewhere (lookup-put_entry k id m es ∙ rw elsewhere refl)
]

module _ ⦃u : Unicode⦄ ⦃p : Urls⦄ where
  create_cluster-IsRefused :
      (input : ClusterInput) (call : RegistryCall) (r : Registry)
      → call.fails chmod ≡ false
      → ((id : String) → call.new_id ≡ some id → lookup id r.clusters ≡ none)
      → IsRefused r (create_cluster input call r)
  unfolding create_cluster
  create_cluster-IsRefused input call r works fresh =
      elim (Result-cases (cluster_from_input input no_cluster)) [
        | inl (e, bad) ↦ rw (bad, create_cluster) (same_self r)
        | inr (given, fine) ↦ elim (Option-cases call.new_id) [
          | inl missing ↦ rw (fine, missing, create_cluster) (same_self r)
          | inr (id, made) ↦
              let c : Cluster = record given {
                id = id;
                created_at = call.now;
                updated_at = call.now;
              } in
              elim (Bool-cases (name_exists c.name "" r.clusters)) [
                | inl taken ↦ rw (fine, made, taken, create_cluster) (same_self r)
                | inr free ↦
                    rw (fine, made, free, create_cluster)
                      (save_entries-IsRefused call (put_entry id (managed c) r.clusters)
                        (remove_entry id) c r works
                        (undo_put id (managed c) r.clusters (fresh id made)))
              ]
        ]
      ]

  update_cluster-IsRefused :
      (id : String) (input : ClusterInput) (call : RegistryCall) (r : Registry)
      → call.fails chmod ≡ false
      → IsRefused r (update_cluster id input call (λ x. x) r)
  unfolding update_cluster
  update_cluster-IsRefused id input call r works = elim (Option-cases (lookup id r.clusters)) [
    | inl missing ↦ rw (missing, update_cluster) (same_self r)
    | inr (existing, there) ↦ elim (Result-cases (cluster_from_input input existing.config)) [
      | inl (e, bad) ↦ rw (there, bad, update_cluster) (same_self r)
      | inr (given, fine) ↦
          let c : Cluster = record given {
            id = existing.config.id;
            created_at = existing.config.created_at;
            updated_at = call.now;
          } in
          elim (Bool-cases (name_exists c.name id r.clusters)) [
            | inl taken ↦ rw (there, fine, there, taken, update_cluster) (same_self r)
            | inr free ↦
                rw (there, fine, there, free, update_cluster)
                  (save_entries-IsRefused call (put_entry id (managed c) r.clusters)
                    (put_entry id existing) c r works
                    (put_back id (managed c) existing r.clusters there))
          ]
    ]
  ]

  -- A creation under a new identifier and an update, as they are called.
  pub data Change : Type 0 where
    create : ClusterInput → Change
    update : String → ClusterInput → Change

  unfoldable pub change : Change → RegistryCall → Registry → Result ClusterError Cluster × Registry
  change (create input) call r = create_cluster input call r
  change (update id input) call r = update_cluster id input call (λ x. x) r

  -- A creation or an update of a cluster that returns an error, be it refused or not saved, leaves every
  -- cluster and the published file as they were, where the last chmod works and the generator makes a new
  -- identifier.
  pub change-IsRefused :
      (c : Change) (call : RegistryCall) (r : Registry)
      → call.fails chmod ≡ false
      → ((id : String) → call.new_id ≡ some id → lookup id r.clusters ≡ none)
      → IsRefused r (change c call r)
  unfolding change
  change-IsRefused (create input) call r works fresh =
      create_cluster-IsRefused input call r works fresh
  change-IsRefused (update id input) call r works fresh =
      update_cluster-IsRefused id input call r works

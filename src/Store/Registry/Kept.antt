-- ===== src/Store/Registry/Kept.antt =====
-- Which clusters the registry has, under the methods that create, update and delete one.
use etcd_studio.Base.{
  ℕ, List, String, Bool, true, false, ◌≡◌, ◌≢◌, refl, ◌==◌, eq_iff, is_some, some, [], ◌∷◌, All,
  arith, inl, inr, Bool-cases, Option-cases, Result-cases, Result, ok, err, any, ap, sym,
}
use etcd_studio.Base.Maps.{lookup, put_entry, remove_entry, lookup-put_entry, lookup-remove_entry}
use etcd_studio.Base.Sorting.Order.{All-sort_slice}
use etcd_studio.Text.{Unicode}
use etcd_studio.AtomicFile.{replace_file}
use etcd_studio.Store.Registry.Types.{
  Cluster, ClusterError, ClusterInput, ManagedCluster, Registry, RegistryCall, Urls,
}
use etcd_studio.Store.Registry.Input.{cluster_from_input}
use etcd_studio.Store.Registry.Clusters.{
  Entries, configs, file_of, save_clusters, save_entries, managed, no_cluster, list_clusters,
  name_exists, closed_client, create_cluster, update_cluster, delete_cluster,
}

-- A cluster's own identifier is its key.
abbrev pub IsKeyed : Entries → Type 0
IsKeyed es = All (λ (e : String × ManagedCluster). e.1.config.id ≡ e.0) es

abbrev pub has_cluster : String → Entries → Bool
has_cluster id es = is_some (lookup id es)

put-IsKeyed :
    (id : String) (m : ManagedCluster) (es : Entries)
    → m.config.id ≡ id
    → IsKeyed es
    → IsKeyed (put_entry id m es)
put-IsKeyed id m [] own h = (own, tt)
put-IsKeyed id m ((k, v) ∷ es) own h = elim (Bool-cases (k == id)) [
  | inl here ↦ ground (arith, eq_iff k id)
  | inr other ↦ ground (arith, put-IsKeyed id m es own h.1)
]

remove-IsKeyed : (id : String) (es : Entries) → IsKeyed es → IsKeyed (remove_entry id es)
remove-IsKeyed id [] h = tt
remove-IsKeyed id ((k, v) ∷ es) h = ground (arith, remove-IsKeyed id es h.1)

-- A cluster that is found has its key as identifier.
lookup-own :
    (id : String) (m : ManagedCluster) (es : Entries)
    → IsKeyed es
    → lookup id es ≡ some m
    → m.config.id ≡ id
lookup-own id m [] h e = cc
lookup-own id m ((k, v) ∷ es) h e = elim (Bool-cases (k == id)) [
  | inl here ↦
      let same : some v ≡ some m = rw here at e in
      let key = (eq_iff k id).0 here in cc (same, key, h.0)
  | inr other ↦ lookup-own id m es h.1 (rw other at e)
]

has_cluster-configs :
    (all es : Entries)
    → ((id : String) → has_cluster id es ≡ true → has_cluster id all ≡ true)
    → IsKeyed es
    → All (λ (c : Cluster). has_cluster c.id all ≡ true) (configs es)
has_cluster-configs all [] f h = tt
has_cluster-configs all ((k, m) ∷ es) f h = (
  rw h.0 (f k (ground (arith, eq_iff k k))),
  has_cluster-configs all es (λ id e. f id (ground arith)) h.1,
)

found-has_cluster :
    (es : Entries) (id : String) (cs : List Cluster)
    → All (λ (c : Cluster). has_cluster c.id es ≡ true) cs
    → any (λ (c : Cluster). c.id == id) cs ≡ true
    → has_cluster id es ≡ true
found-has_cluster es id [] h e = cc
found-has_cluster es id (c ∷ cs) h e = elim (Bool-cases (c.id == id)) [
  | inl here ↦ rw ((eq_iff c.id id).0 here) at h.0
  | inr other ↦ found-has_cluster es id cs h.1 (rw other at e)
]

-- A cluster that is listed is one that the registry has.
pub listed-has_cluster :
    ⦃u : Unicode⦄ (r : Registry) (id : String)
    → IsKeyed r.clusters
    → any (λ (c : Cluster). c.id == id) (list_clusters r) ≡ true
    → has_cluster id r.clusters ≡ true
unfolding list_clusters
listed-has_cluster r id h e =
    found-has_cluster r.clusters id _
      (All-sort_slice _ _ (configs r.clusters)
        (has_cluster-configs r.clusters r.clusters (λ k q. q) h))
      e

-- What holds of the entries after saving and after restoring.
save_entries-clusters :
    {A : Type 0} (P : Result ClusterError A → Entries → Type 0) (call : RegistryCall)
    (changed : Entries) (restore : Entries → Entries) (result : Result ClusterError A)
    (r : Registry)
    → P result changed
    → ((e : ClusterError) → P (err e) (restore changed))
    → let o = save_entries call changed restore result r in P o.0 o.1.clusters
unfolding save_entries save_clusters
save_entries-clusters P call changed restore result r done undone =
    elim (Option-cases (replace_file call.fails (file_of changed) r.disk).0) [
      | inl e ↦ rw (e, save_entries, save_clusters) done
      | inr (s, e) ↦ rw (e, save_entries, save_clusters) (undone _)
    ]

-- The identifiers stay the keys, and no cluster is lost but those that are not `kept`.
abbrev pub Keeps : (String → Type 0) → Registry → Entries → Type 0
Keeps kept r es =
    IsKeyed es × ((k : String) → has_cluster k r.clusters ≡ true → kept k → has_cluster k es ≡ true)

put-has_cluster :
    (k id : String) (m : ManagedCluster) (es : Entries)
    → has_cluster k es ≡ true
    → has_cluster k (put_entry id m es) ≡ true
put-has_cluster k id m es h = let look = lookup-put_entry k id m es in ground arith

remove-has_cluster :
    (k id : String) (es : Entries)
    → has_cluster k es ≡ true
    → k ≢ id
    → has_cluster k (remove_entry id es) ≡ true
remove-has_cluster k id es h other =
    let look = lookup-remove_entry k id es in
    elim (Bool-cases (id == k)) [
      | inl same ↦ absurd (other (cc ((eq_iff id k).0 same)))
      | inr apart ↦ ground arith
    ]

-- An identifier that is generated is not one of the registry's.
abbrev pub IsFresh : RegistryCall → Registry → Type 0
IsFresh call r = (id : String) → call.new_id ≡ some id → has_cluster id r.clusters ≡ false

-- Closing a client works.
abbrev pub Closes : RegistryCall → Type 0
Closes call = (client : ℕ) → call.close_fails client ≡ false

module _ ⦃u : Unicode⦄ ⦃p : Urls⦄ (call : RegistryCall) (r : Registry)
    (keyed : IsKeyed r.clusters) where
  created-Keeps :
      (id : String) (c : Cluster)
      → c.id ≡ id
      → has_cluster id r.clusters ≡ false
      → Keeps
          (λ k. Unit {0})
          r
          (save_entries call
            (put_entry id (managed c) r.clusters)
            (remove_entry id)
            (ok c)
            r).1.clusters
  created-Keeps id c own fresh =
      let put = put-IsKeyed id (managed c) r.clusters own keyed in
      save_entries-clusters (λ o es. Keeps (λ k. Unit {0}) r es) call _ _ (ok c) r
        (put, λ k h _. put-has_cluster k id (managed c) r.clusters h)
        (λ e. (
          remove-IsKeyed id _ put,
          λ k h _.
              remove-has_cluster k id _ (put-has_cluster k id (managed c) r.clusters h)
                (λ same. cc (h, fresh, ap (λ j. has_cluster j r.clusters) same)),
        ))

  pub create_cluster-Keeps :
      (input : ClusterInput)
      → IsFresh call r
      → Keeps (λ k. Unit {0}) r (create_cluster input call r).1.clusters
  unfolding create_cluster
  create_cluster-Keeps input fresh = elim (Result-cases (cluster_from_input input no_cluster)) [
    | inl (e, bad) ↦ rw (bad, create_cluster) (keyed, λ k h _. h)
    | inr (given, fine) ↦ elim (Option-cases call.new_id) [
      | inl missing ↦ rw (fine, missing, create_cluster) (keyed, λ k h _. h)
      | inr (id, made) ↦
          let c : Cluster = record given {
            id = id;
            created_at = call.now;
            updated_at = call.now;
          } in
          elim (Bool-cases (name_exists c.name "" r.clusters)) [
            | inl taken ↦ rw (fine, made, taken, create_cluster) (keyed, λ k h _. h)
            | inr free ↦
                rw (fine, made, free, create_cluster) (created-Keeps id c refl (fresh id made))
          ]
    ]
  ]

  updated-Keeps :
      (id : String) (c : Cluster) (current : ManagedCluster)
      → c.id ≡ id
      → current.config.id ≡ id
      → Keeps
          (λ k. Unit {0})
          r
          (save_entries call
            (put_entry id (managed c) r.clusters)
            (put_entry id current)
            (ok c)
            r).1.clusters
  updated-Keeps id c current own before =
      let put = put-IsKeyed id (managed c) r.clusters own keyed in
      save_entries-clusters (λ o es. Keeps (λ k. Unit {0}) r es) call _ _ (ok c) r
        (put, λ k h _. put-has_cluster k id (managed c) r.clusters h)
        (λ e. (
          put-IsKeyed id current _ before put,
          λ k h _. put-has_cluster k id current _ (put-has_cluster k id (managed c) r.clusters h),
        ))

  pub update_cluster-Keeps :
      (id : String) (input : ClusterInput)
      → Keeps (λ k. Unit {0}) r (update_cluster id input call (λ x. x) r).1.clusters
  unfolding update_cluster
  update_cluster-Keeps id input = elim (Option-cases (lookup id r.clusters)) [
    | inl missing ↦ rw (missing, update_cluster) (keyed, λ k h _. h)
    | inr (existing, found) ↦ elim (Result-cases (cluster_from_input input existing.config)) [
      | inl (e, bad) ↦ rw (found, bad, update_cluster) (keyed, λ k h _. h)
      | inr (given, fine) ↦
          let c : Cluster = record given {
            id = existing.config.id;
            created_at = existing.config.created_at;
            updated_at = call.now;
          } in
          let own = lookup-own id existing r.clusters keyed found in
          elim (Bool-cases (name_exists c.name id r.clusters)) [
            | inl taken ↦ rw (found, fine, found, taken, update_cluster) (keyed, λ k h _. h)
            | inr free ↦
                rw (found, fine, found, free, update_cluster) (updated-Keeps id c existing own own)
          ]
    ]
  ]

  -- The one that is deleted is lost, unless there is an error.
  pub delete_cluster-Keeps :
      (id : String)
      → Closes call
      → let o = delete_cluster id call r in Keeps (λ k. o.0 ≡ ok tt → k ≢ id) r o.1.clusters
  unfolding delete_cluster
  delete_cluster-Keeps id closes = elim (Option-cases (lookup id r.clusters)) [
    | inl missing ↦ rw (missing, delete_cluster) (keyed, λ k h _. h)
    | inr (found, there) ↦
        let closed : closed_client call found ≡ ok tt = elim (Option-cases found.client) [
          | inl e ↦ ground arith
          | inr (client, e) ↦ ground (arith, closes client)
        ] in
        let own = lookup-own id found r.clusters keyed there in
        rw (there, delete_cluster)
          (save_entries-clusters (λ o es. Keeps (λ k. o ≡ ok tt → k ≢ id) r es) call _ _
            (closed_client call found) r
            (
              remove-IsKeyed id r.clusters keyed,
              λ k h other. remove-has_cluster k id r.clusters h (other closed),
            )
            (λ e. (
              put-IsKeyed id found _ own (remove-IsKeyed id r.clusters keyed),
              λ k h _. elim (Bool-cases (id == k)) [
                | inl same ↦
                    let look = lookup-put_entry k id found (remove_entry id r.clusters) in
                    ground arith
                | inr apart ↦ put-has_cluster k id found _ (
                    remove-has_cluster k id r.clusters h (λ e. cc (apart, (eq_iff id k).1 (sym e))))
              ],
            )))
  ]

-- ===== src/App/Granted/Clusters.antt =====
-- The handlers on clusters keep the accounts and the registry in agreement.
use etcd_studio.Base.{
  String, true, Option, none, some, All, All-weaken, inl, inr, Result-cases, Result, ok, err,
}
use etcd_studio.Text.{Unicode}
use etcd_studio.AtomicFile.{chmod}
use etcd_studio.Auth.Types.{Call, Crypto}
use etcd_studio.Auth.Preserved.Reach.{here, permissions_removed, Reach-IsGood}
use etcd_studio.Store.Types.{AuditEvent}
use etcd_studio.Store.Kv.{HistoryStorage}
use etcd_studio.Store.Registry.Types.{Cluster, ClusterError, Registry, RegistryCall, Urls}
use etcd_studio.Store.Registry.Clusters.{Entries, delete_cluster}
use etcd_studio.Store.Registry.Kept.{
  Keeps, IsFresh, Closes, create_cluster-Keeps, update_cluster-Keeps, delete_cluster-Keeps,
}
use etcd_studio.App.Server.{Request}
use etcd_studio.App.Access.{require_admin}
use etcd_studio.App.Studio.{Studio}
use etcd_studio.App.Clusters.{
  ClusterRequest, to_input, concluded_cluster, without_grants, ClusterResponse,
  handle_create_cluster, handle_update_cluster, handle_delete_cluster,
}
use etcd_studio.App.Granted.{IsGranted}
use etcd_studio.App.Granted.Removed.{Saves, remove_cluster_permissions-IsGranted}
use etcd_studio.App.Granted.Users.{IsConsistent}

module _ ⦃u : Unicode⦄ ⦃p : Urls⦄ ⦃k : Crypto⦄ {W H : Type 0} (storage : HistoryStorage H) where
  module _ (s : Studio W H) (c : IsConsistent s) (r : Request) where
    kept-IsGranted :
        (es : Entries)
        → Keeps (λ k. Unit {0}) s.registry es
        → All (IsGranted es) s.manager.config.users
    kept-IsGranted es h =
        All-weaken
          (λ v g.
            All-weaken
              (λ id e. record { there = h.1 id e.there tt; trimmed = e.trimmed; filled = e.filled })
              v.cluster_ids g)
          s.manager.config.users c.granted

    concluded_cluster-IsConsistent :
        (event : Cluster → AuditEvent) (o : Result ClusterError Cluster × Registry)
        → Keeps (λ k. Unit {0}) s.registry o.1.clusters
        → IsConsistent (concluded_cluster true storage r event o s).1
    concluded_cluster-IsConsistent event (err e, registry) h = record {
      good = c.good;
      keyed = h.0;
      granted = kept-IsGranted registry.clusters h;
    }
    concluded_cluster-IsConsistent event (ok a, registry) h = record {
      good = c.good;
      keyed = h.0;
      granted = kept-IsGranted registry.clusters h;
    }

    pub create_cluster-IsConsistent :
        (body : Option ClusterRequest) (registry_call : RegistryCall)
        → IsFresh registry_call s.registry
        → IsConsistent (handle_create_cluster true storage r body registry_call s).1
    unfolding handle_create_cluster
    create_cluster-IsConsistent none registry_call fresh =
        elim (Result-cases (require_admin true {A = ClusterResponse} r)) [
          | inl (e, refusal) ↦ rw (refusal, handle_create_cluster) c
          | inr (who, admin) ↦ rw (admin, handle_create_cluster) c
        ]
    create_cluster-IsConsistent (some given) registry_call fresh =
        elim (Result-cases (require_admin true {A = ClusterResponse} r)) [
          | inl (e, refusal) ↦ rw (refusal, handle_create_cluster) c
          | inr (who, admin) ↦
              rw (admin, handle_create_cluster)
                (concluded_cluster-IsConsistent _ _
                  (create_cluster-Keeps registry_call s.registry c.keyed (to_input given) fresh))
        ]

    pub update_cluster-IsConsistent :
        (id : String) (body : Option ClusterRequest) (registry_call : RegistryCall)
        → IsConsistent (handle_update_cluster true storage r id body registry_call (λ x. x) s).1
    unfolding handle_update_cluster
    update_cluster-IsConsistent id none registry_call =
        elim (Result-cases (require_admin true {A = ClusterResponse} r)) [
          | inl (e, refusal) ↦ rw (refusal, handle_update_cluster) c
          | inr (who, admin) ↦ rw (admin, handle_update_cluster) c
        ]
    update_cluster-IsConsistent id (some given) registry_call =
        elim (Result-cases (require_admin true {A = ClusterResponse} r)) [
          | inl (e, refusal) ↦ rw (refusal, handle_update_cluster) c
          | inr (who, admin) ↦
              rw (admin, handle_update_cluster)
                (concluded_cluster-IsConsistent _ _
                  (update_cluster-Keeps registry_call s.registry c.keyed id (to_input given)))
        ]

    pub delete_cluster-IsConsistent :
        (id : String) (registry_call : RegistryCall) (call : Call)
        → Closes registry_call
        → Saves call
        → IsConsistent (handle_delete_cluster true storage r id registry_call call s).1
    unfolding handle_delete_cluster without_grants
    delete_cluster-IsConsistent id registry_call call closes saves =
        elim (Result-cases (require_admin true {A = Unit {0}} r)) [
          | inl (e, refusal) ↦ rw (refusal, handle_delete_cluster) c
          | inr (who, admin) ↦
              let kept = delete_cluster-Keeps registry_call s.registry c.keyed id closes in
              elim (Result-cases (delete_cluster id registry_call s.registry).0) [
                | inl (e, failed) ↦
                    rw (admin, failed, handle_delete_cluster)
                      (record {
                        good = c.good;
                        keyed = kept.0;
                        granted =
                            kept-IsGranted _
                              (kept.0, λ j h _. kept.1 j h (λ done. cc (failed, done)));
                      })
                | inr (done, deleted) ↦
                    rw (admin, deleted, handle_delete_cluster)
                      (record {
                        good =
                            Reach-IsGood
                              (permissions_removed (here s.manager) id call (saves chmod)) c.good;
                        keyed = kept.0;
                        granted =
                            remove_cluster_permissions-IsGranted s.registry.clusters _ id
                              (λ j h other. kept.1 j h (λ _. other)) call s.manager saves c.good
                              c.granted;
                      })
              ]
        ]

-- ===== src/Auth/Preserved/Grants.antt =====
-- The invariant under `RemoveClusterPermissions`.
use etcd_studio.Base.{String, true, false, ◌≡◌, refl, ap, List, [], ◌∷◌, map, All, arith, ok}
use etcd_studio.Text.{Unicode, trim_space}
use etcd_studio.AtomicFile.{chmod}
use etcd_studio.Auth.Types.{Manager, PersistedUser, Call}
use etcd_studio.Auth.Rules.Unique.{usernames}
use etcd_studio.Auth.Rules.Admins.{active_admin_count-map}
use etcd_studio.Auth.Manager.Storage.{with_users, save_or_restore}
use etcd_studio.Auth.Manager.Accounts.{without_cluster, restore_grants, remove_cluster_permissions}
use etcd_studio.Auth.Manager.Invariant.{
  IsAccount, IsGood, Done, save_or_restore-Done, IsGood-published, saved-same,
}

module _ (id : String) (call : Call) where
  restore_grants-map :
      (us : List PersistedUser) → restore_grants us (map (without_cluster id call) us) ≡ us
  unfolding restore_grants without_cluster
  restore_grants-map [] = refl
  restore_grants-map (v ∷ us) = ap (λ r. v ∷ r) (restore_grants-map us)

  without_cluster-IsAccount :
      (v : PersistedUser) → IsAccount v → IsAccount (without_cluster id call v)
  unfolding without_cluster
  without_cluster-IsAccount v a = record {
    role_known = a.role_known;
    grants = λ admin. rw (a.grants admin) refl;
    trimmed = a.trimmed;
  }

  All-without :
      (us : List PersistedUser)
      → All IsAccount us
      → All IsAccount (map (without_cluster id call) us)
  All-without [] h = tt
  All-without (v ∷ us) h = (without_cluster-IsAccount v h.0, All-without us h.1)

  usernames-without :
      (us : List PersistedUser) → usernames (map (without_cluster id call) us) ≡ usernames us
  unfolding without_cluster
  usernames-without [] = refl
  usernames-without (v ∷ us) = ap (λ r. v.username ∷ r) (usernames-without us)

module _ ⦃u : Unicode⦄ (call : Call) (m : Manager) (works : call.fails chmod ≡ false)
    (g : IsGood m) where
  remove-Done :
      (id : String)
      → m.configured ≡ true
      → Done m (
          save_or_restore call
            (with_users m.config (map (without_cluster id call) m.config.users))
            (λ c. with_users c (restore_grants m.config.users c.users))
            (λ m'. (ok tt, m'))
            m)
  unfolding without_cluster
  remove-Done id configured =
      let s = g.sound configured in
      save_or_restore-Done call _ _ _ m works g
        (rw (restore_grants-map id call m.config.users) (saved-same m.config s.version))
        λ d published.
          IsGood-published _
            (record {
              version = refl;
              accounts = All-without id call m.config.users s.accounts;
              unique = rw (usernames-without id call m.config.users) s.unique;
              administrable =
                  rw (active_admin_count-map (without_cluster id call) m.config.users (λ v. refl))
                    s.administrable;
            })
            configured published

  pub remove_cluster_permissions-Done :
      (id : String) → Done m (remove_cluster_permissions id call m)
  unfolding remove_cluster_permissions
  remove_cluster_permissions-Done id = ground (arith, remove-Done (trim_space id))

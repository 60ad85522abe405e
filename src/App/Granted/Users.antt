-- ===== src/App/Granted/Users.antt =====
-- The handlers on users and settings keep the accounts and the registry in agreement.
use etcd_studio.Base.{
  String, true, Option, none, some, All, inl, inr, Bool-cases, Result-cases, ok, err,
}
use etcd_studio.Text.{Unicode}
use etcd_studio.Auth.Types.{
  Principal, LocalUserInput, SettingsInput, Call, Crypto, User, SettingsStatus,
}
use etcd_studio.Auth.Manager.Storage.{Outcome}
use etcd_studio.Auth.Manager.Accounts.{create_user, update_user, delete_user}
use etcd_studio.Auth.Manager.Settings.{update_settings}
use etcd_studio.Auth.Manager.Invariant.{IsGood}
use etcd_studio.Auth.Preserved.Each.{
  create_user-All, update_user-All, delete_user-All, update_settings-All,
}
use etcd_studio.Auth.Preserved.Reach.{
  here, user_created, user_updated, user_deleted, settings_updated, Reach-IsGood, Works,
}
use etcd_studio.Store.Types.{AuditEvent}
use etcd_studio.Store.Kv.{HistoryStorage}
use etcd_studio.Store.Registry.Types.{Urls}
use etcd_studio.Store.Registry.Kept.{IsKeyed}
use etcd_studio.App.Server.{Request}
use etcd_studio.App.Access.{require_admin}
use etcd_studio.App.Studio.{Studio, concluded}
use etcd_studio.App.Users.{
  handle_create_user, handle_update_user, handle_delete_user, handle_update_auth_settings,
  validate_user_cluster_permissions, disables_self, deletes_self,
}
use etcd_studio.App.Granted.{IsGranted, FoldsAdmin, validated-IsGrant, normalized_role}

-- The manager's invariant, identifiers as keys, and every grant is of a cluster that there is.
pub record IsConsistent ⦃u : Unicode⦄ {W H : Type 0} (s : Studio W H) : Type 0 where
  pub good : IsGood s.manager
  pub keyed : IsKeyed s.registry.clusters
  pub granted : All (IsGranted s.registry.clusters) s.manager.config.users

module _ ⦃u : Unicode⦄ ⦃p : Urls⦄ ⦃k : Crypto⦄ {W H : Type 0} (storage : HistoryStorage H) where
  concluded-IsConsistent :
      {A : Type 0} (r : Request) (who : Principal) (event : A → AuditEvent) (o : Outcome A)
      (s : Studio W H)
      → IsConsistent s
      → IsGood o.1
      → All (IsGranted s.registry.clusters) o.1.config.users
      → IsConsistent (concluded storage r who event o s).1
  concluded-IsConsistent r who event (err e, m) s c good granted = record {
    good = good;
    keyed = c.keyed;
    granted = granted;
  }
  concluded-IsConsistent r who event (ok a, m) s c good granted = record {
    good = good;
    keyed = c.keyed;
    granted = granted;
  }

  module _ (s : Studio W H) (c : IsConsistent s) (r : Request) (call : Call)
      (works : Works call) where
    pub create-IsConsistent :
        (folds : FoldsAdmin) (body : Option LocalUserInput)
        → IsConsistent (handle_create_user storage r body call s).1
    unfolding handle_create_user
    create-IsConsistent folds none = elim (Result-cases (require_admin true {A = User} r)) [
      | inl (e, refusal) ↦ rw (refusal, handle_create_user) c
      | inr (who, admin) ↦ rw (admin, handle_create_user) c
    ]
    create-IsConsistent folds (some input) = elim (Result-cases (require_admin true {A = User} r)) [
      | inl (e, refusal) ↦ rw (refusal, handle_create_user) c
      | inr (who, admin) ↦ elim (Bool-cases (validate_user_cluster_permissions input s.registry)) [
        | inr bad ↦ rw (admin, bad, handle_create_user) c
        | inl fine ↦
            rw (admin, fine, handle_create_user)
              (concluded-IsConsistent r who _ (create_user input call s.manager) s c
                (Reach-IsGood (user_created (here s.manager) input call works) c.good)
                (create_user-All (IsGranted s.registry.clusters) call s.manager c.granted input
                  (λ username display role hash accepted.
                    validated-IsGrant s.registry c.keyed input role folds fine (
                      normalized_role s.registry c.keyed input.username input.display_name
                        input.role username display role accepted))))
      ]
    ]

    pub update-IsConsistent :
        (folds : FoldsAdmin) (name : String) (body : Option LocalUserInput)
        → IsConsistent (handle_update_user storage r name body call s).1
    unfolding handle_update_user
    update-IsConsistent folds name none = elim (Result-cases (require_admin true {A = User} r)) [
      | inl (e, refusal) ↦ rw (refusal, handle_update_user) c
      | inr (who, admin) ↦ rw (admin, handle_update_user) c
    ]
    update-IsConsistent folds name (some input) =
        elim (Result-cases (require_admin true {A = User} r)) [
          | inl (e, refusal) ↦ rw (refusal, handle_update_user) c
          | inr (who, admin) ↦ elim (Bool-cases (disables_self who name input)) [
            | inl own ↦ rw (admin, own, handle_update_user) c
            | inr other ↦ elim (Bool-cases (validate_user_cluster_permissions input s.registry)) [
              | inr bad ↦ rw (admin, other, bad, handle_update_user) c
              | inl fine ↦
                  rw (admin, other, fine, handle_update_user)
                    (concluded-IsConsistent r who _ (update_user name input call s.manager) s c
                      (Reach-IsGood (user_updated (here s.manager) name input call works) c.good)
                      (update_user-All (IsGranted s.registry.clusters) call s.manager c.granted
                        input name
                        (λ v display hash.
                          validated-IsGrant s.registry c.keyed input _ folds fine (λ e. e))))
            ]
          ]
        ]

    pub delete-IsConsistent :
        (name : String) → IsConsistent (handle_delete_user storage r name call s).1
    unfolding handle_delete_user
    delete-IsConsistent name = elim (Result-cases (require_admin true {A = Unit {0}} r)) [
      | inl (e, refusal) ↦ rw (refusal, handle_delete_user) c
      | inr (who, admin) ↦ elim (Bool-cases (deletes_self who name)) [
        | inl own ↦ rw (admin, own, handle_delete_user) c
        | inr other ↦
            rw (admin, other, handle_delete_user)
              (concluded-IsConsistent r who _ (delete_user name call s.manager) s c
                (Reach-IsGood (user_deleted (here s.manager) name call works) c.good)
                (delete_user-All (IsGranted s.registry.clusters) call s.manager c.granted name))
      ]
    ]

    pub settings-IsConsistent :
        (body : Option SettingsInput)
        → IsConsistent (handle_update_auth_settings storage r body call s).1
    unfolding handle_update_auth_settings
    settings-IsConsistent none = elim (Result-cases (require_admin true {A = SettingsStatus} r)) [
      | inl (e, refusal) ↦ rw (refusal, handle_update_auth_settings) c
      | inr (who, admin) ↦ rw (admin, handle_update_auth_settings) c
    ]
    settings-IsConsistent (some input) =
        elim (Result-cases (require_admin true {A = SettingsStatus} r)) [
          | inl (e, refusal) ↦ rw (refusal, handle_update_auth_settings) c
          | inr (who, admin) ↦
              rw (admin, handle_update_auth_settings)
                (concluded-IsConsistent r who _ (update_settings input call s.manager) s c
                  (Reach-IsGood (settings_updated (here s.manager) input call works) c.good)
                  (update_settings-All (IsGranted s.registry.clusters) call s.manager c.granted
                    input))
        ]

-- ===== src/App/Granted/Requests.antt =====
-- The grants under sequences of requests on users, settings and clusters.
use etcd_studio.Base.{String, true, Option}
use etcd_studio.Text.{Unicode}
use etcd_studio.Auth.Types.{LocalUserInput, SettingsInput, Call, Crypto}
use etcd_studio.Auth.Preserved.Reach.{Works}
use etcd_studio.Store.Kv.{HistoryStorage}
use etcd_studio.Store.Registry.Types.{RegistryCall, Urls}
use etcd_studio.Store.Registry.Kept.{IsFresh, Closes}
use etcd_studio.App.Server.{Request}
use etcd_studio.App.Studio.{Studio}
use etcd_studio.App.Users.{
  handle_create_user, handle_update_user, handle_delete_user, handle_update_auth_settings,
}
use etcd_studio.App.Clusters.{
  ClusterRequest, handle_create_cluster, handle_update_cluster, handle_delete_cluster,
}
use etcd_studio.App.Granted.{FoldsAdmin}
use etcd_studio.App.Granted.Removed.{Saves}
use etcd_studio.App.Granted.Users.{
  IsConsistent, create-IsConsistent, update-IsConsistent, delete-IsConsistent,
  settings-IsConsistent,
}
use etcd_studio.App.Granted.Clusters.{
  create_cluster-IsConsistent, update_cluster-IsConsistent, delete_cluster-IsConsistent,
}

-- What sequences of requests lead to: saving the accounts can fail, but not its last chmod; a cluster is
-- created with an identifier that is not in use; when one is deleted, its client is closed and the
-- accounts are saved.
pub data Requests ⦃u : Unicode⦄ ⦃p : Urls⦄ {W H : Type 0} (storage : HistoryStorage H)
    : Studio W H → Studio W H → Type 0 where
  none_yet : (s : Studio W H) → Requests storage s s
  create_user_sent :
      {s t : Studio W H}
      → Requests storage s t
      → (r : Request) (body : Option LocalUserInput) (call : Call) → Works call
      → Requests storage s (handle_create_user storage r body call t).1
  update_user_sent :
      {s t : Studio W H}
      → Requests storage s t
      → (r : Request) (name : String) (body : Option LocalUserInput) (call : Call) → Works call
      → Requests storage s (handle_update_user storage r name body call t).1
  delete_user_sent :
      {s t : Studio W H}
      → Requests storage s t
      → (r : Request) (name : String) (call : Call) → Works call
      → Requests storage s (handle_delete_user storage r name call t).1
  update_settings_sent :
      {s t : Studio W H}
      → Requests storage s t
      → (r : Request) (body : Option SettingsInput) (call : Call) → Works call
      → Requests storage s (handle_update_auth_settings storage r body call t).1
  create_cluster_sent :
      {s t : Studio W H}
      → Requests storage s t
      → (r : Request) (body : Option ClusterRequest) (call : RegistryCall) → IsFresh call t.registry
      → Requests storage s (handle_create_cluster true storage r body call t).1
  update_cluster_sent :
      {s t : Studio W H}
      → Requests storage s t
      → (r : Request) (id : String) (body : Option ClusterRequest) (call : RegistryCall)
      → Requests storage s (handle_update_cluster true storage r id body call (λ x. x) t).1
  delete_cluster_sent :
      {s t : Studio W H}
      → Requests storage s t
      → (r : Request) (id : String) (registry_call : RegistryCall) (call : Call)
      → Closes registry_call
      → Saves call
      → Requests storage s (handle_delete_cluster true storage r id registry_call call t).1

module _ ⦃u : Unicode⦄ ⦃p : Urls⦄ ⦃k : Crypto⦄ {W H : Type 0} (storage : HistoryStorage H) where
  -- Sequences of requests of any users on accounts, settings and clusters keep the accounts and the
  -- registry in agreement: the manager satisfies its invariant, and every cluster that an account is
  -- granted is one that the registry has, without blanks around its identifier. The last chmod of saving
  -- the accounts works, a new cluster gets an identifier that is not in use, at a deletion the client is
  -- closed and the accounts are saved, and only spellings of "admin" in ASCII fold to it.
  pub Requests-IsConsistent :
      {s t : Studio W H} → FoldsAdmin → Requests storage s t → IsConsistent s → IsConsistent t
  Requests-IsConsistent folds (none_yet s) c = c
  Requests-IsConsistent folds (create_user_sent {t = t} q r body call works) c =
      create-IsConsistent storage t (Requests-IsConsistent folds q c) r call works folds body
  Requests-IsConsistent folds (update_user_sent {t = t} q r name body call works) c =
      update-IsConsistent storage t (Requests-IsConsistent folds q c) r call works folds name body
  Requests-IsConsistent folds (delete_user_sent {t = t} q r name call works) c =
      delete-IsConsistent storage t (Requests-IsConsistent folds q c) r call works name
  Requests-IsConsistent folds (update_settings_sent {t = t} q r body call works) c =
      settings-IsConsistent storage t (Requests-IsConsistent folds q c) r call works body
  Requests-IsConsistent folds (create_cluster_sent {t = t} q r body call fresh) c =
      create_cluster-IsConsistent storage t (Requests-IsConsistent folds q c) r body call fresh
  Requests-IsConsistent folds (update_cluster_sent {t = t} q r id body call) c =
      update_cluster-IsConsistent storage t (Requests-IsConsistent folds q c) r id body call
  Requests-IsConsistent folds (delete_cluster_sent {t = t} q r id registry_call call closes saves)
        c =
      delete_cluster-IsConsistent storage t (Requests-IsConsistent folds q c) r id registry_call
        call closes saves

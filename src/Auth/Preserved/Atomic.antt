-- ===== src/Auth/Preserved/Atomic.antt =====
-- Requests to the manager that are refused or cannot be saved.
use etcd_studio.Base.{String, Bool, ◌≡◌, ok, err}
use etcd_studio.Text.{Unicode}
use etcd_studio.Auth.Types.{AuthError, Manager, LocalUserInput, SettingsInput, Call}
use etcd_studio.Auth.Manager.Storage.{Outcome}
use etcd_studio.Auth.Manager.Bootstrap.{bootstrap}
use etcd_studio.Auth.Manager.Settings.{update_settings}
use etcd_studio.Auth.Manager.Accounts.{
  create_user, update_user, delete_user, remove_cluster_permissions,
}
use etcd_studio.Auth.Manager.Invariant.{IsGood, Done}
use etcd_studio.Auth.Preserved.Accounts.{create_user-Done, update_user-Done, delete_user-Done}
use etcd_studio.Auth.Preserved.Grants.{remove_cluster_permissions-Done}
use etcd_studio.Auth.Preserved.Settings.{update_settings-Done, bootstrap-Done}
use etcd_studio.Auth.Preserved.Reach.{Works}

-- The calls that change the configuration under one lock.
pub data Request : Type 0 where
  bootstrap_with : LocalUserInput → Bool → Request
  configure : SettingsInput → Request
  create : LocalUserInput → Request
  update : String → LocalUserInput → Request
  remove : String → Request
  revoke_cluster : String → Request

-- An outcome without the value that it returns.
abbrev pub forget : {A : Type 0} → Outcome A → Outcome (Unit {0})
forget (ok a, m) = (ok tt, m)
forget (err e, m) = (err e, m)

module _ ⦃u : Unicode⦄ where
  unfoldable pub run : Request → Call → Manager → Outcome (Unit {0})
  run (bootstrap_with input must_change) call m = forget (bootstrap input must_change call m)
  run (configure input) call m = forget (update_settings input call m)
  run (create input) call m = forget (create_user input call m)
  run (update name input) call m = forget (update_user name input call m)
  run (remove name) call m = delete_user name call m
  run (revoke_cluster id) call m = remove_cluster_permissions id call m

  forget-Done : {A : Type 0} (m : Manager) (o : Outcome A) → Done m o → Done m (forget o)
  forget-Done m (ok a, m') h = h
  forget-Done m (err e, m') h = h

  run-Done :
      (r : Request) (call : Call) (m : Manager) → Works call → IsGood m → Done m (run r call m)
  unfolding run
  run-Done (bootstrap_with input must_change) call m works g =
      forget-Done m _ (bootstrap-Done call m works g input must_change)
  run-Done (configure input) call m works g =
      forget-Done m _ (update_settings-Done call m works g input)
  run-Done (create input) call m works g = forget-Done m _ (create_user-Done call m works g input)
  run-Done (update name input) call m works g =
      forget-Done m _ (update_user-Done call m works g input name)
  run-Done (remove name) call m works g = delete_user-Done name call m works g
  run-Done (revoke_cluster id) call m works g = remove_cluster_permissions-Done call m works g id

  -- What a refusal leaves: memory, file and sessions as they were.
  abbrev pub Unchanged : Manager → Manager → Type 0
  Unchanged m m' =
      (m'.config ≡ m.config)
      × (m'.configured ≡ m.configured)
      × (m'.disk.published ≡ m.disk.published)
      × (m'.sessions ≡ m.sessions)

  refused :
      (m : Manager) (o : Outcome (Unit {0})) (e : AuthError)
      → Done m o
      → o.0 ≡ err e
      → Unchanged m o.1
  refused m (ok a, m') e h failed = cc
  refused m (err e', m') e h failed = (h.1, h.2, h.3, h.4)

  -- Where the invariant holds, a request that returns an error, for whatever reason (a refused input, or a
  -- failure at any step of saving but the last chmod, which works), leaves the configuration in memory,
  -- the file and the sessions as they were.
  pub run-atomic :
      (r : Request) (call : Call) (m : Manager) (e : AuthError)
      → Works call
      → IsGood m
      → (run r call m).0 ≡ err e
      → Unchanged m (run r call m).1
  run-atomic r call m e works g failed =
      refused m (run r call m) e (run-Done r call m works g) failed

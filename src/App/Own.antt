-- ===== src/App/Own.antt =====
-- Whether the account that a name belongs to is an active administrator, while accounts change.
pub mod Sent
use etcd_studio.Base.{
  ℕ, String, Bool, true, false, not, ◌&&◌, ◌||◌, ◌≡◌, ◌≢◌, refl, sym, ap, ◌∙◌, ◌==◌, eq_iff, Option,
  none, some, List, [], ◌∷◌, ◌++◌, arith, get_elem?, set, remove_at, set-set, set-get_elem?, inl,
  inr, Bool-cases, some_inj, Option-cases, Result-cases, Result, ok, err,
}
use mathlib.Core.Path.{subst}
use etcd_studio.Text.{Unicode, trim_space, to_lower, fold_key, equal_fold}
use etcd_studio.Auth.Types.{
  Manager, Principal, PersistedUser, PersistedConfig, LocalUserInput, Call, User, role_admin,
  provider_local,
}
use etcd_studio.Auth.Rules.{is_admin, find_user, is_active_admin, normalize_user_fields}
use etcd_studio.Auth.Rules.Find.{find_user-some, find_user-set, user_of}
use etcd_studio.Auth.Rules.Owner.{
  owner, owner-find_user, owner-append, owner-set_other, owner-remove_other, owner-same, IsOther,
}
use etcd_studio.Auth.Password.{hash_password}
use etcd_studio.Auth.Manager.Storage.{Outcome, save_or_restore, revoke_sessions, with_users}
use etcd_studio.Auth.Manager.Accounts.{
  create_user, update_user, delete_user, updated_user, new_user, new_hash, drop_last,
  drop_last-append_one,
}
use etcd_studio.Auth.Preserved.Each.{create_user-users, update_user-users, delete_user-users}
use etcd_studio.Store.Types.{AuditEvent}
use etcd_studio.Store.Kv.{HistoryStorage}
use etcd_studio.App.Server.{Request}
use etcd_studio.App.Access.{require_admin}
use etcd_studio.App.Studio.{Studio, concluded}
use etcd_studio.App.Users.{
  handle_create_user, handle_update_user, handle_delete_user, validate_user_cluster_permissions,
  disables_self, deletes_self, disables,
}
use etcd_studio.App.Granted.{FoldsAdmin}

-- The account that a name belongs to is an active administrator.
unfoldable pub Administers : ⦃u : Unicode⦄ → String → List PersistedUser → Type 0
Administers name us =
    (v : PersistedUser) × (user_of (find_user us name) ≡ some v) × (is_active_admin v ≡ true)

module _ ⦃u : Unicode⦄ (name : String) where
  -- The same by the search without indices.
  abbrev pub Owns : List PersistedUser → Type 0
  Owns us = (v : PersistedUser) × (owner name us ≡ some v) × (is_active_admin v ≡ true)

  pub Owns-Administers : (us : List PersistedUser) → Owns us → Administers name us
  unfolding Administers
  Owns-Administers us (v, e, a) = (v, owner-find_user name us ∙ e, a)

  pub Administers-Owns : (us : List PersistedUser) → Administers name us → Owns us
  unfolding Administers
  Administers-Owns us (v, e, a) = (v, sym (owner-find_user name us) ∙ e, a)

  pub updated_other-Owns :
      (us : List PersistedUser) (other : String) (i : ℕ) (v w : PersistedUser)
      → Owns us
      → find_user us other ≡ some (i, v)
      → w.username ≡ v.username
      → equal_fold (trim_space other) (trim_space name) ≡ false
      → Owns (set us i w)
  updated_other-Owns us other i v w own found same apart =
      let f = find_user-some us other i v found in
      rw (owner-set_other name us i v w f.0 same (rw f.1 apart)) own

  pub updated_own-Owns :
      (us : List PersistedUser) (other : String) (i : ℕ) (v w : PersistedUser)
      → find_user us other ≡ some (i, v)
      → w.username ≡ v.username
      → fold_key (trim_space name) ≡ fold_key (trim_space other)
      → is_active_admin w ≡ true
      → Owns (set us i w)
  updated_own-Owns us other i v w found same own admin =
      let after = find_user-set us other i v w found same in
      let e : owner other (set us i w) ≡ some w =
        sym (owner-find_user other (set us i w))
        ∙ ap (λ (o : Option (ℕ × PersistedUser)). user_of o) after in
      (w, owner-same name other (set us i w) own ∙ e, admin)

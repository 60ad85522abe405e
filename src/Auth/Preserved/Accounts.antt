-- ===== src/Auth/Preserved/Accounts.antt =====
-- The invariant under `DeleteUser`, `UpdateUser` and `CreateUser`.
use etcd_studio.Base.{
  ℕ, String, true, false, ◌||◌, ◌==◌, ◌≡◌, refl, none, some, [], ◌∷◌, ◌++◌, All-remove_at,
  All-append_one, All-get_elem?, get_elem?, remove_at, set, map-remove_at, arith, inl, inr,
  Option-cases, Result-cases, ok, err,
}
use etcd_studio.Text.{Unicode, trim_space, to_lower, trim_space-trim_space}
use etcd_studio.AtomicFile.{chmod}
use etcd_studio.Auth.Types.{
  AuthError, Manager, PersistedConfig, PersistedUser, LocalUserInput, Call, provider_local,
  role_admin, role_operator,
}
use etcd_studio.Auth.Rules.{find_user, normalize_user_fields}
use etcd_studio.Auth.Rules.Find.{find_user-some, find_user-none}
use etcd_studio.Auth.Rules.Fields.{
  IsRole, IsRole-of_test, normalize_user_fields-IsAccepted, cluster_ids_for_role-admin,
}
use etcd_studio.Auth.Rules.Admins.{active_admin_count-append_one}
use etcd_studio.Auth.Password.{hash_password}
use etcd_studio.Auth.Rules.Unique.{
  usernames, usernames-append_one, All-usernames, IsUnique-append_one, IsUnique-remove_at,
}
use etcd_studio.Auth.Manager.Settings.{locks_out}
use etcd_studio.Auth.Manager.Storage.{with_users, save_or_restore, revoke_sessions}
use etcd_studio.Auth.Manager.Accounts.{
  delete_user, update_user, updated_user, new_hash, create_user, new_user, drop_last,
  drop_last-append_one,
}
use etcd_studio.Auth.Preserved.InPlace.{undo_set, replaced-IsSound}
use etcd_studio.Auth.Manager.Invariant.{
  saved, IsAccount, IsSound, IsGood, Done, save_or_restore-Done, IsGood-published, saved-same,
}

module _ ⦃u : Unicode⦄ where
  module _ (name : String) (call : Call) (m : Manager) (works : call.fails chmod ≡ false)
      (g : IsGood m) where
    abbrev without : ℕ → PersistedConfig
    without i = with_users m.config (remove_at i m.config.users)

    delete-Done :
        (i : ℕ)
        → m.configured ≡ true
        → locks_out (without i).mode (without i) ≡ false
        → Done m (
            save_or_restore call
              (without i)
              (λ c. with_users c m.config.users)
              (λ m'. (ok tt, revoke_sessions provider_local name m'))
              m)
    unfolding revoke_sessions
    delete-Done i configured kept =
        let s = g.sound configured in
        save_or_restore-Done call (without i) _ _ m works g (saved-same m.config s.version)
          λ d published.
            IsGood-published _
              (record {
                version = refl;
                accounts = All-remove_at IsAccount i m.config.users s.accounts;
                unique =
                    rw map-remove_at (IsUnique-remove_at i (usernames m.config.users) s.unique);
                administrable = kept;
              })
              configured published

    pub delete_user-Done : Done m (delete_user name call m)
    unfolding delete_user
    delete_user-Done = elim (Option-cases (find_user m.config.users name)) [
      | inl e ↦ ground arith
      | inr ((i, v), e) ↦ ground (arith, delete-Done i)
    ]

  module _ (call : Call) (m : Manager) (works : call.fails chmod ≡ false) (g : IsGood m)
      (input : LocalUserInput) where
    updated-IsAccount :
        (v : PersistedUser) (display role hash : String)
        → IsAccount v
        → (role == role_admin || role == role_operator) ≡ true
        → IsAccount (updated_user v display role input hash call)
    updated-IsAccount v display role hash account known = record {
      role_known = IsRole-of_test role known;
      grants = λ admin. rw admin (cluster_ids_for_role-admin input.cluster_ids);
      trimmed = account.trimmed;
    }

    update-Done :
        (i : ℕ) (v : PersistedUser) (display role hash : String)
        → get_elem? m.config.users i ≡ some v
        → m.configured ≡ true
        → (role == role_admin || role == role_operator) ≡ true
        → let w = updated_user v display role input hash call in
          let changed = with_users m.config (set m.config.users i w) in
          locks_out changed.mode changed ≡ false
          → Done m (
              save_or_restore call changed
                (λ c. with_users c (set c.users i v))
                (λ m'. (ok w.user, revoke_sessions provider_local v.username m'))
                m)
    unfolding revoke_sessions
    update-Done i v display role hash found configured known kept =
        let w = updated_user v display role input hash call in
        let s = g.sound configured in
        let account =
          updated-IsAccount v display role hash
            (All-get_elem? IsAccount m.config.users i v s.accounts found) known in
        save_or_restore-Done call _ _ _ m works g (undo_set call m works g i v w configured found)
          λ d published.
            IsGood-published _
              (replaced-IsSound call m works g i v w configured found account refl kept) configured
              published

    module _ (name hash : String) (hashed : new_hash call input.password ≡ ok hash) where
      update_user-missing :
          find_user m.config.users name ≡ none → Done m (update_user name input call m)
      unfolding update_user
      update_user-missing missing = ground arith

      update_user-found :
          (i : ℕ) (v : PersistedUser)
          → find_user m.config.users name ≡ some (i, v)
          → Done m (update_user name input call m)
      unfolding update_user
      update_user-found i v found = ground (
        arith,
        update-Done i v (trim_space input.display_name) (to_lower (trim_space input.role)) hash
            (find_user-some m.config.users name i v found).0,
      )

    update_user-failed :
        (name : String) (e : AuthError)
        → new_hash call input.password ≡ err e
        → Done m (update_user name input call m)
    unfolding update_user
    update_user-failed name e failed = ground arith

    pub update_user-Done : (name : String) → Done m (update_user name input call m)
    update_user-Done name = elim (Result-cases (new_hash call input.password)) [
      | inl (e, failed) ↦ update_user-failed name e failed
      | inr (hash, hashed) ↦ elim (Option-cases (find_user m.config.users name)) [
        | inl missing ↦ update_user-missing name hash hashed missing
        | inr ((i, v), found) ↦ update_user-found name hash hashed i v found
      ]
    ]

    created-IsSound :
        (v : PersistedUser)
        → m.configured ≡ true
        → IsAccount v
        → find_user m.config.users v.username ≡ none
        → IsSound (saved (with_users m.config (m.config.users ++ v ∷ [])))
    created-IsSound v configured account fresh =
        let s = g.sound configured in
        let others = find_user-none m.config.users v.username fresh in
        record {
          version = refl;
          accounts = All-append_one IsAccount m.config.users v s.accounts account;
          unique = rw usernames-append_one (
              IsUnique-append_one (usernames m.config.users) v.username s.unique
                (All-usernames v.username m.config.users (rw account.trimmed at others)));
          administrable =
              ground (arith, s.administrable, active_admin_count-append_one m.config.users v);
        }

    create-Done :
        (username display role hash : String)
        → username ≡ trim_space input.username
        → IsRole role
        → find_user m.config.users username ≡ none
        → m.configured ≡ true
        → let user = new_user username display role input call in
          Done m (
            save_or_restore call
              (with_users m.config
                (m.config.users ++ record { user = user; password_hash = hash } ∷ []))
              (λ c. with_users c (drop_last c.users))
              (λ m'. (ok user, m'))
              m)
    create-Done username display role hash name known fresh configured =
        let v : PersistedUser = record {
          user = new_user username display role input call;
          password_hash = hash;
        } in
        let account : IsAccount v = record {
          role_known = known;
          grants = λ admin. rw admin (cluster_ids_for_role-admin input.cluster_ids);
          trimmed = rw name (trim_space-trim_space input.username);
        } in
        save_or_restore-Done call _ _ _ m works g
          (rw (drop_last-append_one m.config.users v)
            (saved-same m.config (g.sound configured).version))
          λ d published.
            IsGood-published _ (created-IsSound v configured account fresh) configured published

    pub create_user-Done : Done m (create_user input call m)
    unfolding create_user
    create_user-Done =
        elim (Result-cases (normalize_user_fields input.username input.display_name input.role)) [
          | inl (e, refused) ↦ ground arith
          | inr ((username, display, role), accepted) ↦
              let facts =
                rw accepted at
                  (normalize_user_fields-IsAccepted input.username input.display_name input.role) in
              elim (Result-cases (hash_password call.generate input.password)) [
                | inl (e, failed) ↦ ground arith
                | inr (hash, hashed) ↦
                    ground (arith, create-Done username display role hash facts.0 facts.1)
              ]
        ]

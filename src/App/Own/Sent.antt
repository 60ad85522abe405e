-- ===== src/App/Own/Sent.antt =====
-- What an administrator can do to his own account through the handlers of internal/app/auth.go.
use etcd_studio.Base.{
  ℕ, String, true, false, not, ◌||◌, ◌≡◌, refl, sym, ap, ◌∙◌, ◌==◌, eq_iff, Option, none, some,
  arith, set, inl, inr, Bool-cases, some_inj, ok, err,
}
use mathlib.Core.Path.{subst}
use etcd_studio.Text.{Unicode, trim_space, to_lower, fold_key, equal_fold}
use etcd_studio.Auth.Types.{
  Manager, Principal, PersistedUser, LocalUserInput, Call, User, role_admin, provider_local,
}
use etcd_studio.Auth.Rules.{is_admin, find_user, is_active_admin}
use etcd_studio.Auth.Rules.Find.{find_user-some, user_of}
use etcd_studio.Auth.Rules.Owner.{
  owner, owner-find_user, owner-append, owner-remove_other, owner-same,
}
use etcd_studio.Auth.Manager.Storage.{Outcome}
use etcd_studio.Auth.Manager.Accounts.{create_user, update_user, delete_user, updated_user}
use etcd_studio.Auth.Preserved.Each.{create_user-users, update_user-users, delete_user-users}
use etcd_studio.Store.Types.{AuditEvent}
use etcd_studio.Store.Kv.{HistoryStorage}
use etcd_studio.App.Server.{Request}
use etcd_studio.App.Access.{require_admin}
use etcd_studio.App.Studio.{Studio, concluded}
use etcd_studio.App.Users.{
  handle_create_user, handle_update_user, handle_delete_user, validate_user_cluster_permissions,
  disables_self, deletes_self, disables,
}
use etcd_studio.App.Granted.{FoldsAdmin}
use etcd_studio.App.Own.{
  Administers, Owns, Owns-Administers, Administers-Owns, updated_other-Owns, updated_own-Owns,
}

-- A request on the users; names are those of the path.
pub data UserRequest : Type 0 where
  create_sent : Option LocalUserInput → UserRequest
  update_sent : String → Option LocalUserInput → UserRequest
  delete_sent : String → UserRequest

-- Whether there are no blanks around the name of the path.
unfoldable pub IsPlain : UserRequest → Type 0
IsPlain (create_sent body) = Unit
IsPlain (update_sent other body) = trim_space other ≡ other
IsPlain (delete_sent other) = trim_space other ≡ other

module _ ⦃u : Unicode⦄ {W H : Type 0} (storage : HistoryStorage H) where
  unfoldable pub sent : Request → UserRequest → Call → Studio W H → Studio W H
  sent r (create_sent body) call s = (handle_create_user storage r body call s).1
  sent r (update_sent other body) call s = (handle_update_user storage r other body call s).1
  sent r (delete_sent other) call s = (handle_delete_user storage r other call s).1

  concluded-manager :
      {A : Type 0} (r : Request) (who : Principal) (event : A → AuditEvent) (o : Outcome A)
      (s : Studio W H)
      → (concluded storage r who event o s).1.manager ≡ o.1
  concluded-manager r who event (err e, m) s = refl
  concluded-manager r who event (ok a, m) s = refl

  concluded-Owns :
      {A : Type 0} (name : String) (r : Request) (who : Principal) (event : A → AuditEvent)
      (o : Outcome A) (s : Studio W H)
      → Owns name o.1.config.users
      → Owns name (concluded storage r who event o s).1.manager.config.users
  concluded-Owns name r who event o s h =
      subst (λ (m : Manager). Owns name m.config.users) (sym (concluded-manager r who event o s)) h

  module _ (r : Request) (who : Principal) (call : Call) (s : Studio W H)
      (admin : (A : Type 0) → require_admin true {A = A} r ≡ ok who)
      (is_local : who.provider ≡ provider_local) (trimmed : trim_space who.username ≡ who.username)
      (folds : FoldsAdmin) (own : Owns who.username s.manager.config.users) where
    create_sent-Owns :
        (body : Option LocalUserInput)
        → Owns who.username (handle_create_user storage r body call s).1.manager.config.users
    unfolding handle_create_user
    create_sent-Owns none = rw (admin User, handle_create_user) own
    create_sent-Owns (some input) =
        elim (Bool-cases (validate_user_cluster_permissions input s.registry)) [
          | inr bad ↦ rw (admin User, bad, handle_create_user) own
          | inl fine ↦
              rw (admin User, fine, handle_create_user)
                (concluded-Owns who.username r who _ (create_user input call s.manager) s (
                  create_user-users (Owns who.username) call s.manager own input
                    (λ username display role hash e. (
                      own.0,
                      owner-append who.username s.manager.config.users _ own.0 own.1,
                      own.2,
                    ))))
        ]

    -- A name that the guards tell from his own.
    other_name :
        (name : String)
        → trim_space name ≡ name
        → equal_fold who.username name ≡ false
        → equal_fold (trim_space name) (trim_space who.username) ≡ false
    other_name name plain apart =
        elim (Bool-cases (equal_fold (trim_space name) (trim_space who.username))) [
          | inr other ↦ other
          | inl same ↦
              let e : fold_key name ≡ fold_key who.username =
                rw trimmed at (rw plain at ((eq_iff _ _).0 same)) in
              absurd (cc (apart, (eq_iff (fold_key who.username) (fold_key name)).1 (sym e)))
        ]

    deletes_other :
        (name : String) → deletes_self who name ≡ false → equal_fold who.username name ≡ false
    unfolding deletes_self
    deletes_other name h = rw is_local at h

    delete_sent-Owns :
        (name : String)
        → trim_space name ≡ name
        → Owns who.username (handle_delete_user storage r name call s).1.manager.config.users
    unfolding handle_delete_user
    delete_sent-Owns name plain = elim (Bool-cases (deletes_self who name)) [
      | inl guarded ↦ rw (admin (Unit {0}), guarded, handle_delete_user) own
      | inr free ↦
          rw (admin (Unit {0}), free, handle_delete_user)
            (concluded-Owns who.username r who _ (delete_user name call s.manager) s (
              delete_user-users (Owns who.username) call s.manager own name (λ i v e.
                let f = find_user-some s.manager.config.users name i v e in
                rw
                  (owner-remove_other who.username s.manager.config.users i v f.0
                    (rw f.1 (other_name name plain (deletes_other name free))))
                  own)))
    ]

    -- An update of his own account that the guard lets through leaves it an active administrator.
    kept_admin :
        (name : String) (input : LocalUserInput) (i : ℕ) (v : PersistedUser) (display hash : String)
        → find_user s.manager.config.users name ≡ some (i, v)
        → trim_space name ≡ name
        → equal_fold who.username name ≡ true
        → (disables input.active || not (input.role == role_admin)) ≡ false
        → is_active_admin
            (updated_user v display (to_lower (trim_space input.role)) input hash call)
          ≡ true
    unfolding trim_space etcd_studio.Text.is_space
    kept_admin name input i v display hash found plain same fine =
        let folded : fold_key who.username ≡ fold_key name = (eq_iff _ _).0 same in
        let searched : owner who.username s.manager.config.users ≡ some v =
          owner-same who.username name s.manager.config.users (rw (trimmed, plain) folded)
          ∙ sym (owner-find_user name s.manager.config.users)
          ∙ ap (λ (o : Option (ℕ × PersistedUser)). user_of o) found in
        let v_is : own.0 ≡ v = some_inj (sym own.1 ∙ searched) in
        let active : is_active_admin v ≡ true = rw (← v_is) own.2 in
        let role : input.role ≡ role_admin = (eq_iff input.role role_admin).0 (ground arith) in
        let lowered : to_lower (trim_space input.role) ≡ role_admin =
          rw role (folds role_admin ((eq_iff _ _).1 refl)) in
        rw lowered (ground arith)

    updated-Owns :
        (name : String) (input : LocalUserInput) (i : ℕ) (v : PersistedUser) (display hash : String)
        → find_user s.manager.config.users name ≡ some (i, v)
        → trim_space name ≡ name
        → disables_self who name input ≡ false
        → Owns who.username (
            set s.manager.config.users i
              (updated_user v display (to_lower (trim_space input.role)) input hash call))
    unfolding disables_self
    updated-Owns name input i v display hash found plain free =
        elim (Bool-cases (equal_fold who.username name)) [
          | inr apart ↦
              updated_other-Owns who.username s.manager.config.users name i v _ own found refl
                (other_name name plain apart)
          | inl same ↦
              let fine : (disables input.active || not (input.role == role_admin)) ≡ false =
                rw (same, is_local) at free in
              updated_own-Owns who.username s.manager.config.users name i v _ found refl
                (rw (trimmed, plain) ((eq_iff _ _).0 same))
                (kept_admin name input i v display hash found plain same fine)
        ]

    update_sent-Owns :
        (name : String) (body : Option LocalUserInput)
        → trim_space name ≡ name
        → Owns who.username (handle_update_user storage r name body call s).1.manager.config.users
    unfolding handle_update_user
    update_sent-Owns name none plain = rw (admin User, handle_update_user) own
    update_sent-Owns name (some input) plain = elim (Bool-cases (disables_self who name input)) [
      | inl guarded ↦ rw (admin User, guarded, handle_update_user) own
      | inr free ↦ elim (Bool-cases (validate_user_cluster_permissions input s.registry)) [
        | inr bad ↦ rw (admin User, free, bad, handle_update_user) own
        | inl valid ↦
            rw (admin User, free, valid, handle_update_user)
              (concluded-Owns who.username r who _ (update_user name input call s.manager) s (
                update_user-users (Owns who.username) call s.manager own name input
                  (λ i v display hash found.
                    updated-Owns name input i v display hash found plain free)))
      ]
    ]

    sent-Owns :
        (request : UserRequest)
        → IsPlain request
        → Owns who.username (sent r request call s).manager.config.users
    unfolding sent IsPlain
    sent-Owns (create_sent body) plain = create_sent-Owns body
    sent-Owns (update_sent name body) plain = update_sent-Owns name body plain
    sent-Owns (delete_sent name) plain = delete_sent-Owns name plain

  -- A request on users keeps the account of the administrator who sends it, if he is logged in with a
  -- local account: whatever he creates, changes or deletes, and however saving ends, his name still
  -- belongs to an active administrator afterwards. There are no blanks around his name and around the
  -- name in the path, and only spellings of "admin" in ASCII fold to it.
  pub sent-Administers :
      (r : Request) (who : Principal) (request : UserRequest) (call : Call) (s : Studio W H)
      → r.principal ≡ some who
      → is_admin who ≡ true
      → who.provider ≡ provider_local
      → trim_space who.username ≡ who.username
      → IsPlain request
      → FoldsAdmin
      → Administers who.username s.manager.config.users
      → Administers who.username (sent r request call s).manager.config.users
  unfolding require_admin
  sent-Administers r who request call s session admin is_local trimmed plain folds own =
      Owns-Administers who.username _ (
        sent-Owns r who call s (λ A. rw (session, require_admin, admin) refl) is_local trimmed folds
          (Administers-Owns who.username _ own) request plain)

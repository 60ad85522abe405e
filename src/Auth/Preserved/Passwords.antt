-- ===== src/Auth/Preserved/Passwords.antt =====
-- The invariant under the changes of a password, with other calls between their two parts.
use etcd_studio.Base.{
  ℕ, String, true, false, ◌≡◌, refl, sym, ◌⊎◌, inl, inr, none, some, All-get_elem?, get_elem?, set,
  arith, ok, err, Result-cases, Option-cases, Bool-cases,
}
use mathlib.Core.Path.{subst}
use etcd_studio.Text.{Unicode}
use etcd_studio.AtomicFile.{chmod}
use etcd_studio.Auth.Types.{
  AuthError, Manager, PersistedUser, Principal, Call, Crypto, invalid_credentials,
}
use etcd_studio.Auth.Rules.{find_user}
use etcd_studio.Auth.Rules.Find.{find_user-some}
use etcd_studio.Auth.Rules.Admins.{active_admin_count-set}
use etcd_studio.Auth.Manager.Settings.{locks_out}
use etcd_studio.Auth.Manager.Storage.{Outcome, with_users}
use etcd_studio.Auth.Manager.Passwords.{
  with_password, store_password, check_change, refuse_password, refuse_permanent, change_password,
  complete_temporary_password_change,
}
use etcd_studio.Auth.Preserved.InPlace.{undo_set, replaced-IsSound}
use etcd_studio.Auth.Manager.Invariant.{
  IsAccount, IsGood, Done, save_or_restore-Done, IsGood-published,
}

-- Where there is a user, the manager is configured.
configured_of_user :
    ⦃u : Unicode⦄ (m : Manager)
    → IsGood m
    → (i : ℕ) (v : PersistedUser) → get_elem? m.config.users i ≡ some v
    → m.configured ≡ true
configured_of_user m g i v found = elim (Bool-cases m.configured) [
  | inl configured ↦ configured
  | inr not_yet ↦
      let none_there : get_elem? m.config.users i ≡ none = rw (g.blank not_yet) refl in
      absurd (cc (none_there, found))
]

module _ ⦃u : Unicode⦄ (call : Call) (m : Manager) (works : call.fails chmod ≡ false)
    (g : IsGood m) where
  store_password-Done :
      (hash : String) (i : ℕ) (v : PersistedUser)
      → get_elem? m.config.users i ≡ some v
      → Done m (store_password call hash (i, v) m)
  store_password-Done hash i v found =
      let configured = configured_of_user m g i v found in
      let w = with_password v hash call in
      let s = g.sound configured in
      let a = All-get_elem? IsAccount m.config.users i v s.accounts found in
      let account : IsAccount w = record {
        role_known = a.role_known;
        grants = a.grants;
        trimmed = a.trimmed;
      } in
      let kept : locks_out m.config.mode (with_users m.config (set m.config.users i w)) ≡ false =
        ground (arith, active_admin_count-set m.config.users i v w found refl, s.administrable) in
      save_or_restore-Done call _ _ _ m works g (undo_set call m works g i v w configured found)
        λ d published.
          IsGood-published _
            (replaced-IsSound call m works g i v w configured found account refl kept) configured
            published

-- The outcome is an error in the manager `m`, where the call began, or `Done` in the manager `m'`,
-- where its second part ran.
abbrev pub EndsIn : ⦃u : Unicode⦄ {A : Type 0} → Manager → Manager → Outcome A → Type 0
EndsIn m m' o = ((e : AuthError) × (o ≡ (err e, m))) ⊎ Done m' o

module _ ⦃u : Unicode⦄ ⦃k : Crypto⦄ (name new_password : String) (call : Call) (m m' : Manager)
    (works : call.fails chmod ≡ false) (g : IsGood m') where
  module _ (password : String) where
    abbrev changed : Outcome Principal
    changed = change_password name password new_password call (λ _. m') m

    changed-missing :
        (current : PersistedUser) (hash : String)
        → check_change (refuse_password password) name new_password call m ≡ ok (current, hash)
        → find_user m'.config.users name ≡ none
        → changed ≡ (err invalid_credentials, m')
    unfolding change_password
    changed-missing current hash checked missing = rw (checked, missing, change_password) refl

    changed-found :
        (current : PersistedUser) (hash : String)
        → check_change (refuse_password password) name new_password call m ≡ ok (current, hash)
        → (i : ℕ) (v : PersistedUser) → find_user m'.config.users name ≡ some (i, v)
        → Done m' changed
    unfolding change_password
    changed-found current hash checked i v found = ground (
      arith,
      store_password-Done call m' works g hash i v
          (find_user-some m'.config.users name i v found).0,
    )

    pub change_password-EndsIn : EndsIn m m' changed
    change_password-EndsIn =
        elim (Result-cases (check_change (refuse_password password) name new_password call m)) [
          | inl (e, failed) ↦ inl (e, unfold change_password in rw (failed, change_password) refl)
          | inr ((current, hash), checked) ↦ elim (Option-cases (find_user m'.config.users name)) [
            | inl missing ↦ inr (
                subst (Done m') (sym (changed-missing current hash checked missing))
                  (g, refl, refl, refl, refl))
            | inr ((i, v), found) ↦ inr (changed-found current hash checked i v found)
          ]
        ]

  abbrev completed : Outcome Principal
  completed = complete_temporary_password_change name new_password call (λ _. m') m

  completed-missing :
      (current : PersistedUser) (hash : String)
      → check_change refuse_permanent name new_password call m ≡ ok (current, hash)
      → find_user m'.config.users name ≡ none
      → completed ≡ (err invalid_credentials, m')
  unfolding complete_temporary_password_change
  completed-missing current hash checked missing =
      rw (checked, missing, complete_temporary_password_change) refl

  completed-found :
      (current : PersistedUser) (hash : String)
      → check_change refuse_permanent name new_password call m ≡ ok (current, hash)
      → (i : ℕ) (v : PersistedUser) → find_user m'.config.users name ≡ some (i, v)
      → Done m' completed
  unfolding complete_temporary_password_change
  completed-found current hash checked i v found = ground (
    arith,
    store_password-Done call m' works g hash i v (find_user-some m'.config.users name i v found).0,
  )

  pub complete_temporary_password_change-EndsIn : EndsIn m m' completed
  complete_temporary_password_change-EndsIn =
      elim (Result-cases (check_change refuse_permanent name new_password call m)) [
        | inl (e, failed) ↦ inl (
          e,
          unfold complete_temporary_password_change in
              rw (failed, complete_temporary_password_change) refl,
        )
        | inr ((current, hash), checked) ↦ elim (Option-cases (find_user m'.config.users name)) [
          | inl missing ↦ inr (
              subst (Done m') (sym (completed-missing current hash checked missing))
                (g, refl, refl, refl, refl))
          | inr ((i, v), found) ↦ inr (completed-found current hash checked i v found)
        ]
      ]

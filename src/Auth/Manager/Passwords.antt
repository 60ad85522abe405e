-- ===== src/Auth/Manager/Passwords.antt =====
-- `ChangePassword` and `CompleteTemporaryPasswordChange` of internal/auth/manager.go.
use etcd_studio.Base.{
  ℕ, String, false, not, ◌||◌, ◌==◌, none, some, if◌then◌else◌, set, Result, ok, err,
}
use etcd_studio.Text.{Unicode}
use etcd_studio.Auth.Types.{
  AuthError, not_configured, invalid_credentials, password_unchanged, password_change_not_required,
  hash_failed, Manager, PersistedUser, Principal, Call, Crypto,
}
use etcd_studio.Auth.Rules.{find_user}
use etcd_studio.Auth.Password.{validate_strong_password}
use etcd_studio.Auth.Manager.Storage.{Outcome, with_users, save_or_restore}
use etcd_studio.Auth.Manager.Login.{local_principal}

-- The user with a new password, which is no longer temporary.
abbrev pub with_password : PersistedUser → String → Call → PersistedUser
with_password v hash call = record {
  user = record v.user { must_change_password = false; updated_at = call.now };
  password_hash = hash;
}

-- The write of a new hash at a user's place.
abbrev pub store_password : Call → String → ℕ × PersistedUser → Manager → Outcome Principal
store_password call hash (index, previous) m =
    let updated = with_password previous hash call in
    save_or_restore call (with_users m.config (set m.config.users index updated))
      (λ c. with_users c (set c.users index previous))
      (λ m'. (ok (local_principal updated false), m')) m

-- Refusals of the two methods: a wrong password, and a password that is not temporary.
abbrev pub refuse_password : ⦃k : Crypto⦄ → String → PersistedUser → Result AuthError (Unit {0})
refuse_password ⦃k⦄ current_password v =
    if not v.active || not (k.bcrypt_matches v.password_hash current_password)
    then err invalid_credentials
    else ok tt

abbrev pub refuse_permanent : PersistedUser → Result AuthError (Unit {0})
refuse_permanent v =
    if not v.active || not v.must_change_password then err password_change_not_required else ok tt

module _ ⦃u : Unicode⦄ ⦃k : Crypto⦄ where
  -- The first part of both methods, under the read lock: the user as it is then, and the new hash.
  unfoldable pub check_change :
      (PersistedUser → Result AuthError (Unit {0}))
      → String
      → String
      → Call
      → Manager
      → Result AuthError (PersistedUser × String)
  check_change refuse username new_password call m = elim (validate_strong_password new_password) [
    | err e ↦ err e
    | ok _ ↦
        if not m.configured then err not_configured else elim (find_user m.config.users username) [
          | none ↦ err invalid_credentials
          | some (_, v) ↦ elim (refuse v) [
            | err e ↦ err e
            | ok _ ↦
                if k.bcrypt_matches v.password_hash new_password
                then err password_unchanged
                else elim (call.generate new_password) [
                  | none ↦ err hash_failed
                  | some hash ↦ ok (v, hash)
                ]
          ]
        ]
  ]

  -- `between` is what other calls do while no lock is held.
  unfoldable pub change_password :
      String → String → String → Call → (Manager → Manager) → Manager → Outcome Principal
  change_password username current_password new_password call between m =
      elim (check_change (refuse_password current_password) username new_password call m) [
        | err e ↦ (err e, m)
        | ok (current, hash) ↦
            let m' = between m in
            elim (find_user m'.config.users username) [
              | none ↦ (err invalid_credentials, m')
              | some (index, previous) ↦
                  if not (previous.password_hash == current.password_hash)
                  then (err invalid_credentials, m')
                  else store_password call hash (index, previous) m'
            ]
      ]

  unfoldable pub complete_temporary_password_change :
      String → String → Call → (Manager → Manager) → Manager → Outcome Principal
  complete_temporary_password_change username new_password call between m =
      elim (check_change refuse_permanent username new_password call m) [
        | err e ↦ (err e, m)
        | ok (current, hash) ↦
            let m' = between m in
            elim (find_user m'.config.users username) [
              | none ↦ (err invalid_credentials, m')
              | some (index, previous) ↦
                  if not (previous.password_hash == current.password_hash)
                  then (err invalid_credentials, m')
                  else if not previous.active || not previous.must_change_password
                  then (err password_change_not_required, m')
                  else store_password call hash (index, previous) m'
            ]
      ]

-- ===== src/Auth/Access/Passwords.antt =====
-- What a change of a password means for the next login.
use etcd_studio.Base.{
  ℕ, String, true, false, eq_iff, ◌≡◌, refl, sym, some, set, arith, ok, Option-cases, Result-cases,
  inl, inr,
}
use mathlib.Core.Path.{subst}
use etcd_studio.Text.{Unicode}
use etcd_studio.Auth.Types.{Manager, PersistedUser, Principal, Call, Crypto, provider_local}
use etcd_studio.Auth.Rules.{find_user, mode_includes}
use etcd_studio.Auth.Rules.Find.{find_user-set, find_user-trim_space}
use etcd_studio.Auth.Password.{validate_strong_password}
use etcd_studio.Auth.Manager.Storage.{Outcome, with_users}
use etcd_studio.Auth.Manager.Invariant.{saved, disk_after, save_or_restore-eq_ok}
use etcd_studio.Auth.Manager.Login.{local_principal, authenticate_local}
use etcd_studio.Auth.Manager.Passwords.{
  with_password, refuse_password, check_change, change_password,
}

module _ ⦃u : Unicode⦄ ⦃k : Crypto⦄ (name password new_password : String) (call : Call)
    (m m' : Manager) where
  -- What the first part of a change has checked, of the user as it is in `m`.
  pub record IsChecked (current : PersistedUser) (hash : String) : Type 0 where
    pub configured : m.configured ≡ true
    pub strong : validate_strong_password new_password ≡ ok tt
    pub active : current.active ≡ true
    pub known : k.bcrypt_matches current.password_hash password ≡ true
    pub changed : k.bcrypt_matches current.password_hash new_password ≡ false
    pub hashed : call.generate new_password ≡ some hash

  check_change-IsChecked :
      (current : PersistedUser) (hash : String)
      → check_change (refuse_password password) name new_password call m ≡ ok (current, hash)
      → IsChecked current hash
  unfolding check_change
  check_change-IsChecked current hash h = elim (Option-cases (find_user m.config.users name)) [
    | inl missing ↦ ground arith
    | inr ((i, v), found) ↦ record {
      configured = ground arith;
      strong = ground arith;
      active = ground arith;
      known = ground arith;
      changed = ground arith;
      hashed = ground arith;
    }
  ]

  abbrev changed_by : Outcome Principal
  changed_by = change_password name password new_password call (λ _. m') m

  -- The user of `m'` whose hash was the checked one now has the new hash, and nothing else changed.
  abbrev pub IsStored : PersistedUser → String → ℕ → PersistedUser → Type 0
  IsStored current hash i v =
      let c = with_users m'.config (set m'.config.users i (with_password v hash call)) in
      (find_user m'.config.users name ≡ some (i, v))
      × (v.password_hash ≡ current.password_hash)
      × (changed_by ≡ (
        ok (local_principal (with_password v hash call) false),
        record m' { config = saved c; disk = disk_after call c m' },
      ))

  change_password-IsStored :
      (current : PersistedUser) (hash : String) (p : Principal)
      → check_change (refuse_password password) name new_password call m ≡ ok (current, hash)
      → changed_by.0 ≡ ok p
      → (i : ℕ) × (v : PersistedUser) × IsStored current hash i v
  unfolding change_password
  change_password-IsStored current hash p checked h =
      elim (Option-cases (find_user m'.config.users name)) [
        | inl missing ↦ ground arith
        | inr ((i, v), found) ↦ (
          i,
          v,
          (
            found,
            ground (arith, eq_iff v.password_hash current.password_hash),
            ground (
              arith,
              save_or_restore-eq_ok call
                  (with_users m'.config (set m'.config.users i (with_password v hash call)))
                  (λ c. with_users c (set c.users i v))
                  (λ n. (ok (local_principal (with_password v hash call) false), n)) m' p,
            ),
          ),
        )
      ]

  -- A change that succeeds has checked the current password against the very hash that it replaces,
  -- although other calls ran in between (from `m` to `m'`); the new password meets the policy and does not
  -- match the old hash; and only the hash, the flag of a temporary password and the time of this one
  -- user have changed, in memory.
  pub change_password_sound :
      (p : Principal)
      → changed_by.0 ≡ ok p
      → (current : PersistedUser) × (hash : String) × (i : ℕ) × (v : PersistedUser) × IsChecked
          current hash
        × IsStored current hash i v
  change_password_sound p h =
      elim (Result-cases (check_change (refuse_password password) name new_password call m)) [
        | inl (e, failed) ↦ absurd (unfold change_password in ground arith)
        | inr ((current, hash), checked) ↦
            let (i, v, stored) = change_password-IsStored current hash p checked h in
            (current, hash, i, v, check_change-IsChecked current hash checked, stored)
      ]

  -- After a change that succeeds the user can log in with the new password, where local accounts are
  -- enabled and the account is active, if bcrypt matches a password with each hash that it made of it.
  pub authenticate_local-change_password :
      (p : Principal)
      → ((hash : String)
          → call.generate new_password ≡ some hash
          → k.bcrypt_matches hash new_password ≡ true)
      → changed_by.0 ≡ ok p
      → m'.configured ≡ true
      → mode_includes m'.config.mode provider_local ≡ true
      → ((i : ℕ) (v : PersistedUser)
          → find_user m'.config.users name ≡ some (i, v)
          → v.active ≡ true)
      → authenticate_local name new_password changed_by.1 ≡ ok p
  unfolding authenticate_local
  authenticate_local-change_password p hashes h configured enabled active =
      let (current, hash, i, v, checks, stored) = change_password_sound p h in
      let w = with_password v hash call in
      let there = find_user-set m'.config.users name i v w stored.0 refl in
      subst
        (λ (o : Outcome Principal). o.0 ≡ ok p → authenticate_local name new_password o.1 ≡ ok p)
        (sym stored.2)
        (λ e. ground (
          arith,
          there,
          find_user-trim_space (set m'.config.users i w) name,
          hashes hash checks.hashed,
          active i v stored.0,
        ))
        h

-- ===== src/Auth/Rules/Owner.antt =====
-- Whom a name belongs to, while other accounts are added, changed and removed.
use etcd_studio.Base.{
  ℕ, zero, suc, ◌+◌, String, false, ◌≡◌, refl, Option, none, some, List, [], ◌∷◌, ◌++◌, get_elem?,
  set, remove_at, some_inj, inl, inr, Bool-cases, if◌then◌else◌,
}
use etcd_studio.Text.{Unicode, trim_space, fold_key, equal_fold}
use etcd_studio.Auth.Types.{PersistedUser}
use etcd_studio.Auth.Rules.{find_user, found_at}
use etcd_studio.Auth.Rules.Find.{user_of}

module _ ⦃u : Unicode⦄ (name : String) where
  -- The user that a search finds, without its index.
  unfoldable pub owner : List PersistedUser → Option PersistedUser
  owner [] = none
  owner (v ∷ us) =
      let rest = owner us in if equal_fold v.username (trim_space name) then some v else rest

  owner-found_at : (j : ℕ) (us : List PersistedUser) → user_of (found_at j name us) ≡ owner us
  unfolding owner
  owner-found_at j [] = refl
  owner-found_at j (v ∷ us) = elim (Bool-cases (equal_fold v.username (trim_space name))) [
    | inl here ↦ rw here refl
    | inr other ↦ rw other (owner-found_at (j + 1) us)
  ]

  pub owner-find_user : (us : List PersistedUser) → user_of (find_user us name) ≡ owner us
  unfolding find_user
  owner-find_user us = owner-found_at 0 us

  pub owner-append :
      (us ws : List PersistedUser) (v : PersistedUser)
      → owner us ≡ some v
      → owner (us ++ ws) ≡ some v
  unfolding owner
  owner-append [] ws v h = cc
  owner-append (x ∷ us) ws v h = elim (Bool-cases (equal_fold x.username (trim_space name))) [
    | inl here ↦ rw here (rw here at h)
    | inr other ↦ rw other (owner-append us ws v (rw other at h))
  ]

  -- Whether an account is the one that the name belongs to.
  abbrev pub IsOther : PersistedUser → Type 0
  IsOther v = equal_fold v.username (trim_space name) ≡ false

  pub owner-set_other :
      (us : List PersistedUser) (d : ℕ) (old new : PersistedUser)
      → get_elem? us d ≡ some old
      → new.username ≡ old.username
      → IsOther old
      → owner (set us d new) ≡ owner us
  unfolding owner
  owner-set_other [] d old new e same other = refl
  owner-set_other (x ∷ us) zero old new e same other =
      let x_is : x ≡ old = some_inj e in
      let apart : IsOther x = rw x_is other in
      let apart' : IsOther new = rw same other in rw (apart, apart') refl
  owner-set_other (x ∷ us) (suc d) old new e same other =
      rw (owner-set_other us d old new e same other) refl

  pub owner-remove_other :
      (us : List PersistedUser) (d : ℕ) (old : PersistedUser)
      → get_elem? us d ≡ some old
      → IsOther old
      → owner (remove_at d us) ≡ owner us
  unfolding owner
  owner-remove_other [] d old e other = refl
  owner-remove_other (x ∷ us) zero old e other =
      let x_is : x ≡ old = some_inj e in let apart : IsOther x = rw x_is other in rw apart refl
  owner-remove_other (x ∷ us) (suc d) old e other = rw (owner-remove_other us d old e other) refl

-- Names that fold to the same text belong to the same user.
pub owner-same :
    ⦃u : Unicode⦄ (name other : String) (us : List PersistedUser)
    → fold_key (trim_space name) ≡ fold_key (trim_space other)
    → owner name us ≡ owner other us
unfolding owner
owner-same name other [] e = refl
owner-same name other (v ∷ us) e = rw (e, owner-same name other us e) refl

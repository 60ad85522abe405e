-- ===== src/Auth/Rules/Find.antt =====
-- What `findUserIndex` of internal/auth/manager.go finds.
use etcd_studio.Base.{
  ℕ, zero, suc, ◌+◌, String, ◌≡◌, ◌≢◌, refl, ◌∙◌, eq_iff, Option, none, some, List, [], ◌∷◌, arith,
  All, get_elem?, set, inl, inr, Bool-cases, ap, sym,
}
use etcd_studio.Text.{Unicode, trim_space, trim_space-trim_space, fold_key, equal_fold}
use etcd_studio.Auth.Types.{PersistedUser}
use etcd_studio.Auth.Rules.Unique.{usernames}
use etcd_studio.Auth.Rules.{find_user, found_at}

module _ ⦃u : Unicode⦄ where
  found_at-none :
      (i : ℕ) (name : String) (us : List PersistedUser)
      → found_at i name us ≡ none
      → All (λ v. fold_key v.username ≢ fold_key (trim_space name)) us
  found_at-none i name [] h = tt
  found_at-none i name (v ∷ us) h = ground (
    arith,
    eq_iff (fold_key v.username) (fold_key (trim_space name)),
    found_at-none (i + 1) name us,
  )

  pub find_user-none :
      (us : List PersistedUser) (name : String)
      → find_user us name ≡ none
      → All (λ v. fold_key v.username ≢ fold_key (trim_space name)) us
  unfolding find_user
  find_user-none us name h = found_at-none 0 name us h

  -- The user is at its index, and its name folds to the name that was looked for.
  abbrev IsFound : ℕ → String → List PersistedUser → ℕ → PersistedUser → Type 0
  IsFound j name us i v =
      (d : ℕ) × (i ≡ j + d)
      × (get_elem? us d ≡ some v)
      × (fold_key v.username ≡ fold_key (trim_space name))

  abbrev index_of : Option (ℕ × PersistedUser) → ℕ
  index_of none = 0
  index_of (some (i, v)) = i

  abbrev pub user_of : Option (ℕ × PersistedUser) → Option PersistedUser
  user_of none = none
  user_of (some (i, v)) = some v

  abbrev key_of : Option (ℕ × PersistedUser) → String
  key_of none = ""
  key_of (some (i, v)) = fold_key v.username

  found_at-some :
      (j : ℕ) (name : String) (us : List PersistedUser) (i : ℕ) (v : PersistedUser)
      → found_at j name us ≡ some (i, v)
      → IsFound j name us i v
  found_at-some j name [] i v h = cc
  found_at-some j name (w ∷ us) i v h =
      elim (Bool-cases (equal_fold w.username (trim_space name))) [
        | inl same ↦
            let e : some (j, w) ≡ some (i, v) = rw same at h in
            (
              0,
              omega (arith, ap (λ (o : Option (ℕ × PersistedUser)). index_of o) e),
              ap (λ (o : Option (ℕ × PersistedUser)). user_of o) e,
              ap (λ (o : Option (ℕ × PersistedUser)). key_of o) (sym e) ∙ (eq_iff _ _).0 same,
            )
        | inr other ↦
            let r = found_at-some (j + 1) name us i v (rw other at h) in
            (suc r.0, omega (arith, r.1), r.2, r.3)
      ]

  pub find_user-some :
      (us : List PersistedUser) (name : String) (i : ℕ) (v : PersistedUser)
      → find_user us name ≡ some (i, v)
      → (get_elem? us i ≡ some v) × (fold_key v.username ≡ fold_key (trim_space name))
  unfolding find_user
  find_user-some us name i v h =
      let r = found_at-some 0 name us i v h in
      let same : i ≡ r.0 = omega (arith, r.1) in (rw same r.2, r.3)

  found_at-fresh :
      (i : ℕ) (name : String) (us : List PersistedUser)
      → All (λ k. fold_key k ≢ fold_key (trim_space name)) (usernames us)
      → found_at i name us ≡ none
  found_at-fresh i name [] h = refl
  found_at-fresh i name (v ∷ us) h = ground (
    arith,
    eq_iff (fold_key v.username) (fold_key (trim_space name)),
    found_at-fresh (i + 1) name us h.1,
    h.0,
  )

  -- Where no name folds to the one that is looked for, nothing is found.
  pub find_user-fresh :
      (us : List PersistedUser) (name : String)
      → All (λ k. fold_key k ≢ fold_key (trim_space name)) (usernames us)
      → find_user us name ≡ none
  unfolding find_user
  find_user-fresh us name h = found_at-fresh 0 name us h

  found_at-set :
      (j d : ℕ) (name : String) (us : List PersistedUser) (v w : PersistedUser)
      → found_at j name us ≡ some (j + d, v)
      → w.username ≡ v.username
      → found_at j name (set us d w) ≡ some (j + d, w)
  found_at-set j d name [] v w h same = cc
  found_at-set j zero name (x ∷ us) v w h same =
      elim (Bool-cases (equal_fold x.username (trim_space name))) [
        | inl here ↦ ground arith
        | inr other ↦
            absurd (omega (arith, (found_at-some (j + 1) name us (j + 0) v (rw other at h)).1))
      ]
  found_at-set j (suc d) name (x ∷ us) v w h same =
      elim (Bool-cases (equal_fold x.username (trim_space name))) [
        | inl here ↦
            let e : some (j, x) ≡ some (j + suc d, v) = rw here at h in
            absurd (omega (arith, ap (λ (o : Option (ℕ × PersistedUser)). index_of o) e))
        | inr other ↦
            let next : j + suc d ≡ j + 1 + d = omega arith in
            rw (other, next) (found_at-set (j + 1) d name us v w (rw next at (rw other at h)) same)
      ]

  -- A user that is found is still found after it was changed in its place, if it keeps its name.
  pub find_user-set :
      (us : List PersistedUser) (name : String) (i : ℕ) (v w : PersistedUser)
      → find_user us name ≡ some (i, v)
      → w.username ≡ v.username
      → find_user (set us i w) name ≡ some (i, w)
  unfolding find_user
  find_user-set us name i v w h same =
      let e : 0 + i ≡ i = omega arith in rw e at (found_at-set 0 i name us v w (rw e h) same)

  found_at-trim_space :
      (i : ℕ) (name : String) (us : List PersistedUser)
      → found_at i (trim_space name) us ≡ found_at i name us
  found_at-trim_space i name [] = refl
  found_at-trim_space i name (v ∷ us) =
      rw (trim_space-trim_space name, found_at-trim_space (i + 1) name us) refl

  -- A search trims the name that it is given.
  pub find_user-trim_space :
      (us : List PersistedUser) (name : String) → find_user us (trim_space name) ≡ find_user us name
  unfolding find_user
  find_user-trim_space us name = found_at-trim_space 0 name us

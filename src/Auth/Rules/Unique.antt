-- ===== src/Auth/Rules/Unique.antt =====
-- User names that are unique up to case, under the changes that the methods make to the list.
use etcd_studio.Base.{
  ℕ, zero, suc, String, ◌≡◌, ◌≢◌, refl, sym, ap, some, List, [], ◌∷◌, ◌++◌, map, All,
  All-append_one, All-remove_at, All-get_elem?, some_inj, get_elem?, set, remove_at, map-set,
  get_elem?-map, set-get_elem?,
}
use mathlib.Core.Path.{subst}
use etcd_studio.Text.{Unicode, fold_key}
use etcd_studio.Auth.Types.{PersistedUser}

abbrev pub usernames : List PersistedUser → List String
usernames us = map (λ (v : PersistedUser). v.username) us

module _ ⦃u : Unicode⦄ where
  abbrev pub IsUnique : List String → Type 0
  IsUnique [] = Unit
  IsUnique (n ∷ ns) = All (λ k. fold_key k ≢ fold_key n) ns × IsUnique ns

  pub IsUnique-append_one :
      (ns : List String) (n : String)
      → IsUnique ns
      → All (λ k. fold_key k ≢ fold_key n) ns
      → IsUnique (ns ++ n ∷ [])
  IsUnique-append_one [] n h a = (tt, tt)
  IsUnique-append_one (k ∷ ns) n h a = (
    All-append_one (λ j. fold_key j ≢ fold_key k) ns n h.0 (λ e. a.0 (sym e)),
    IsUnique-append_one ns n h.1 a.1,
  )

  pub IsUnique-remove_at : (i : ℕ) (ns : List String) → IsUnique ns → IsUnique (remove_at i ns)
  IsUnique-remove_at i [] h = tt
  IsUnique-remove_at zero (k ∷ ns) h = h.1
  IsUnique-remove_at (suc i) (k ∷ ns) h =
      (All-remove_at (λ j. fold_key j ≢ fold_key k) i ns h.0, IsUnique-remove_at i ns h.1)

  -- No other name folds to the one at an index.
  pub IsUnique-others :
      (i : ℕ) (ns : List String) (n : String)
      → IsUnique ns
      → get_elem? ns i ≡ some n
      → All (λ k. fold_key k ≢ fold_key n) (remove_at i ns)
  IsUnique-others i [] n h e = tt
  IsUnique-others zero (k ∷ ns) n h e =
      subst (λ j. All (λ k. fold_key k ≢ fold_key j) ns) (some_inj e) h.0
  IsUnique-others (suc i) (k ∷ ns) n h e = (
    λ same. All-get_elem? (λ j. fold_key j ≢ fold_key k) ns i n h.0 e (sym same),
    IsUnique-others i ns n h.1 e,
  )

  pub All-usernames :
      (n : String) (us : List PersistedUser)
      → All (λ (v : PersistedUser). fold_key v.username ≢ fold_key n) us
      → All (λ k. fold_key k ≢ fold_key n) (usernames us)
  All-usernames n [] h = tt
  All-usernames n (v ∷ us) h = (h.0, All-usernames n us h.1)

pub usernames-append_one :
    (us : List PersistedUser) (v : PersistedUser)
    → usernames (us ++ v ∷ []) ≡ usernames us ++ v.username ∷ []
usernames-append_one [] v = refl
usernames-append_one (w ∷ us) v = ap (λ r. w.username ∷ r) (usernames-append_one us v)

-- A user with the same name in the same place leaves the names as they are.
pub usernames-set :
    (us : List PersistedUser) (i : ℕ) (v w : PersistedUser)
    → get_elem? us i ≡ some v
    → w.username ≡ v.username
    → usernames (set us i w) ≡ usernames us
usernames-set us i v w found same =
    rw (map-set (λ (x : PersistedUser). x.username) us i w, same)
      (set-get_elem? (usernames us) i v.username
        (get_elem?-map (λ (x : PersistedUser). x.username) us i v found))

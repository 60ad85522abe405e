-- ===== src/App/Granted.antt =====
-- The clusters that users are granted, under the handlers on users and on clusters.
pub mod Removed
pub mod Users
pub mod Clusters
pub mod Requests
use etcd_studio.Base.{
  String, Bool, true, false, not, ◌||◌, ◌≡◌, ◌≢◌, refl, sym, ap, ◌==◌, eq_iff, Option, none, some,
  List, [], ◌∷◌, All, arith, inl, inr, Bool-cases, Option-cases, Result-cases, Result, ok, err, any,
  is_some, keep_if, map, if◌then◌else◌,
}
use etcd_studio.Base.Sorting.Order.{All-sort_slice, All-keep_if}
use etcd_studio.Text.{Unicode, trim_space, trim_space-trim_space, to_lower, equal_fold}
use etcd_studio.Auth.Types.{LocalUserInput, PersistedUser, Call, role_admin, role_operator}
use etcd_studio.Auth.Rules.{
  cluster_ids_for_role, trimmed_ids, add_unique, member, normalize_user_fields,
}
use etcd_studio.Store.Registry.Types.{Cluster, Registry}
use etcd_studio.Store.Registry.Clusters.{Entries, list_clusters}
use etcd_studio.Store.Registry.Kept.{IsKeyed, has_cluster, listed-has_cluster}
use etcd_studio.App.Users.{are_known, validate_user_cluster_permissions}

-- An identifier that the registry has, with no blanks around it and not empty.
pub record IsGrant (es : Entries) (id : String) : Type 0 where
  pub there : has_cluster id es ≡ true
  pub trimmed : trim_space id ≡ id
  pub filled : (id == "") ≡ false

abbrev pub IsGranted : Entries → PersistedUser → Type 0
IsGranted es v = All (IsGrant es) v.cluster_ids

-- Only the letters of "admin" fold to it, and they are its letters in lower case.
abbrev pub FoldsAdmin : ⦃u : Unicode⦄ → Type 0
FoldsAdmin = (role : String) → equal_fold role role_admin ≡ true → to_lower role ≡ role_admin

add_unique-All :
    (P : String → Type 0) (x : String) (xs : List String) → P x → All P xs → All P (add_unique x xs)
add_unique-All P x xs p h = elim (Bool-cases (member x xs)) [
  | inl there ↦ rw there h
  | inr new ↦ rw new (p, h)
]

module _ ⦃u : Unicode⦄ (r : Registry) (keyed : IsKeyed r.clusters) where
  are_known-IsGrant :
      (ids : List String)
      → are_known (list_clusters r) ids ≡ true
      → All (IsGrant r.clusters) (trimmed_ids ids)
  are_known-IsGrant [] h = tt
  are_known-IsGrant (id ∷ ids) h = elim (Bool-cases (trim_space id == "")) [
    | inl blank ↦ rw blank (are_known-IsGrant ids (rw blank at h))
    | inr filled ↦
        elim (Bool-cases (any (λ (c : Cluster). c.id == trim_space id) (list_clusters r))) [
          | inl found ↦
              let grant : IsGrant r.clusters (trim_space id) = record {
                there = listed-has_cluster r (trim_space id) keyed found;
                trimmed = trim_space-trim_space id;
                filled = filled;
              } in
              rw filled (
                add_unique-All (IsGrant r.clusters) (trim_space id) (trimmed_ids ids) grant
                  (are_known-IsGrant ids (rw (filled, found) at h)))
          | inr missing ↦ absurd (cc (rw (filled, missing) at h))
        ]
  ]

  -- What an input that was let through grants, where the role is the one that is asked for.
  pub validated-IsGrant :
      (input : LocalUserInput) (role : String)
      → FoldsAdmin
      → validate_user_cluster_permissions input r ≡ true
      → (to_lower (trim_space input.role) ≡ role_admin → role ≡ role_admin)
      → All (IsGrant r.clusters) (cluster_ids_for_role role input.cluster_ids)
  unfolding validate_user_cluster_permissions cluster_ids_for_role
  validated-IsGrant input role folds valid same = elim (Bool-cases (role == role_admin)) [
    | inl admin ↦ rw (admin, cluster_ids_for_role) tt
    | inr other ↦
        let apart : equal_fold (trim_space input.role) role_admin ≡ false =
          elim (Bool-cases (equal_fold (trim_space input.role) role_admin)) [
            | inl folded ↦ absurd (
                cc
                  (other, (eq_iff role role_admin).1 (same (folds (trim_space input.role) folded))))
            | inr no_fold ↦ no_fold
          ] in
        rw (other, cluster_ids_for_role)
          (All-sort_slice _ (IsGrant r.clusters) (trimmed_ids input.cluster_ids)
            (are_known-IsGrant input.cluster_ids (ground arith)))
  ]

  normalized_role :
      (username display role name shown given : String)
      → normalize_user_fields username display role ≡ ok (name, shown, given)
      → to_lower (trim_space role) ≡ role_admin
      → given ≡ role_admin
  unfolding normalize_user_fields
  normalized_role username display role name shown given h admin =
      let e = rw admin at h in ground arith

-- ===== src/App/Granted/Removed.antt =====
-- The grants after a cluster was deleted.
use etcd_studio.Base.{
  String, Bool, true, false, not, ◌≡◌, ◌≢◌, refl, sym, ap, ◌==◌, eq_iff, none, List, [], ◌∷◌, All,
  arith, inl, inr, Bool-cases, any, keep_if, map, ok, ◌∙◌,
}
use etcd_studio.Text.{Unicode, trim_space}
use etcd_studio.AtomicFile.{
  Step, Disk, replace_file, encode, mkdir, create_temp, chmod_temp, write, sync, close, rename,
  chmod,
}
use etcd_studio.Auth.Types.{Manager, PersistedUser, Call}
use etcd_studio.Auth.Manager.Storage.{with_users, save_or_restore}
use etcd_studio.Auth.Manager.Accounts.{without_cluster, restore_grants, remove_cluster_permissions}
use etcd_studio.Auth.Manager.Invariant.{IsGood, save_or_restore-eq_next}
use etcd_studio.Store.Registry.Clusters.{Entries}
use etcd_studio.Store.Registry.Kept.{has_cluster}
use etcd_studio.App.Granted.{IsGrant, IsGranted}

-- No step of saving fails.
abbrev pub Saves : Call → Type 0
Saves call = (s : Step) → call.fails s ≡ false

replace_file-done :
    {A : Type 0} (fails : Step → Bool) (a : A) (d : Disk A)
    → ((s : Step) → fails s ≡ false)
    → (replace_file fails a d).0 ≡ none
unfolding replace_file
replace_file-done fails a d h =
    rw
      (
        h encode,
        h mkdir,
        h create_temp,
        h chmod_temp,
        h write,
        h sync,
        h close,
        h rename,
        h chmod,
        replace_file,
      )
      refl

module _ (es es' : Entries) (id : String)
    (kept : (k : String) → has_cluster k es ≡ true → k ≢ id → has_cluster k es' ≡ true) where
  other-IsGrant : (k : String) → IsGrant es k → k ≢ trim_space id → IsGrant es' k
  other-IsGrant k g other = record {
    there = kept k g.there (λ same. other (sym g.trimmed ∙ ap (λ j. trim_space j) same));
    trimmed = g.trimmed;
    filled = g.filled;
  }

  filtered-IsGrant :
      (ks : List String)
      → All (IsGrant es) ks
      → All (IsGrant es') (keep_if (λ k. not (k == trim_space id)) ks)
  filtered-IsGrant [] h = tt
  filtered-IsGrant (k ∷ ks) h = elim (Bool-cases (k == trim_space id)) [
    | inl same ↦ rw same (filtered-IsGrant ks h.1)
    | inr apart ↦ rw apart (
      other-IsGrant k h.0 (λ e. cc (apart, (eq_iff k (trim_space id)).1 e)),
      filtered-IsGrant ks h.1,
    )
  ]

  without-IsGranted :
      (call : Call) (us : List PersistedUser)
      → All (IsGranted es) us
      → All (IsGranted es') (map (without_cluster (trim_space id) call) us)
  unfolding without_cluster
  without-IsGranted call [] h = tt
  without-IsGranted call (v ∷ us) h =
      (filtered-IsGrant v.cluster_ids h.0, without-IsGranted call us h.1)

  unmentioned-IsGrant :
      (ks : List String)
      → All (IsGrant es) ks
      → any (λ k. k == trim_space id) ks ≡ false
      → All (IsGrant es') ks
  unmentioned-IsGrant [] h e = tt
  unmentioned-IsGrant (k ∷ ks) h e = (
    other-IsGrant k h.0 (λ same. cc ((eq_iff k (trim_space id)).1 same, any_head k ks e)),
    unmentioned-IsGrant ks h.1 (any_tail k ks e),
  )
    where
      any_head :
          (k : String) (ks : List String)
          → any (λ j. j == trim_space id) (k ∷ ks) ≡ false
          → (k == trim_space id) ≡ false
      any_head k ks e = ground arith

      any_tail :
          (k : String) (ks : List String)
          → any (λ j. j == trim_space id) (k ∷ ks) ≡ false
          → any (λ j. j == trim_space id) ks ≡ false
      any_tail k ks e = ground arith

  unmentioned-IsGranted :
      (us : List PersistedUser)
      → All (IsGranted es) us
      → any (λ (v : PersistedUser). any (λ k. k == trim_space id) v.cluster_ids) us ≡ false
      → All (IsGranted es') us
  unmentioned-IsGranted [] h e = tt
  unmentioned-IsGranted (v ∷ us) h e =
      elim (Bool-cases (any (λ k. k == trim_space id) v.cluster_ids)) [
        | inl there ↦ absurd (cc (rw there at e))
        | inr not_there ↦ (
          unmentioned-IsGrant v.cluster_ids h.0 not_there,
          unmentioned-IsGranted us h.1 (rw not_there at e),
        )
      ]

  blank-IsGrant :
      (ks : List String) → trim_space id ≡ "" → All (IsGrant es) ks → All (IsGrant es') ks
  blank-IsGrant [] b h = tt
  blank-IsGrant (k ∷ ks) b h =
      (other-IsGrant k h.0 (λ e. cc (h.0.filled, (eq_iff k "").1 (e ∙ b))), blank-IsGrant ks b h.1)

  blank-IsGranted :
      (us : List PersistedUser)
      → trim_space id ≡ ""
      → All (IsGranted es) us
      → All (IsGranted es') us
  blank-IsGranted [] b h = tt
  blank-IsGranted (v ∷ us) b h = (blank-IsGrant v.cluster_ids b h.0, blank-IsGranted us b h.1)

  module _ ⦃u : Unicode⦄ (call : Call) (m : Manager) (saves : Saves call) (g : IsGood m)
      (granted : All (IsGranted es) m.config.users) where
    unconfigured-IsGranted : m.configured ≡ false → All (IsGranted es') m.config.users
    unconfigured-IsGranted none_yet = rw (g.blank none_yet) tt

    removed-saved :
        All
          (IsGranted es')
          (save_or_restore call
            (with_users m.config (map (without_cluster (trim_space id) call) m.config.users))
            (λ c. with_users c (restore_grants m.config.users c.users))
            (λ m'. (ok tt, m'))
            m).1.config.users
    removed-saved =
        rw (save_or_restore-eq_next call _ _ _ m (replace_file-done call.fails _ m.disk saves))
          (without-IsGranted call m.config.users granted)

    -- After the removal every grant is of a cluster that is left.
    pub remove_cluster_permissions-IsGranted :
        All (IsGranted es') (remove_cluster_permissions id call m).1.config.users
    unfolding remove_cluster_permissions
    remove_cluster_permissions-IsGranted = ground (
      arith,
      eq_iff (trim_space id) "",
      removed-saved,
      unconfigured-IsGranted,
      unmentioned-IsGranted m.config.users granted,
      λ (h : trim_space id ≡ ""). blank-IsGranted m.config.users h granted,
    )

-- ===== src/Store/Registry/Names.antt =====
-- The invariant of the registry: identifiers, checks and names.
use etcd_studio.Base.{
  String, false, ◌==◌, eq_iff, ◌≡◌, ◌≢◌, sym, ap, ◌∙◌, ◌⊎◌, inl, inr, arith, some, Result, ok,
  Bool-cases, Option-cases,
}
use etcd_studio.Base.Maps.{
  lookup, put_entry, remove_entry, lookup-put_entry, lookup-remove_entry, lookup-any, eq_of_test,
  test_of_ne,
}
use etcd_studio.Text.{Unicode, fold_key}
use etcd_studio.AtomicFile.{replace_file}
use etcd_studio.Store.Registry.Types.{
  Cluster, ManagedCluster, ClusterError, Registry, Urls, RegistryCall,
}
use etcd_studio.Store.Registry.Input.{validate_cluster}
use etcd_studio.Store.Registry.Clusters.{
  Entries, managed, has_name, name_exists, file_of, save_clusters, save_entries,
}

pub put_entry-cases :
    (k id : String) (v m : ManagedCluster) (es : Entries)
    → lookup k (put_entry id v es) ≡ some m
    → (k ≡ id) × (m ≡ v) ⊎ (k ≢ id) × (lookup k es ≡ some m)
put_entry-cases k id v m es e =
    let look = sym (lookup-put_entry k id v es) ∙ e in
    elim (Bool-cases (id == k)) [
      | inl here ↦ inl (sym (eq_of_test id k here), ground arith)
      | inr elsewhere ↦ inr ((λ same. cc (elsewhere, (eq_iff id k).1 (sym same))), ground arith)
    ]

module _ ⦃u : Unicode⦄ ⦃p : Urls⦄ where
  pub record IsGood (es : Entries) : Type 0 where
    pub own_id :
        (id : String) (m : ManagedCluster) → lookup id es ≡ some m → (m.config.id ≡ id) × (id ≢ "")
    pub valid :
        (id : String) (m : ManagedCluster)
        → lookup id es ≡ some m
        → validate_cluster m.config ≡ ok tt
    pub unique :
        (id other : String) (m n : ManagedCluster)
        → lookup id es ≡ some m
        → lookup other es ≡ some n
        → fold_key m.config.name ≡ fold_key n.config.name
        → id ≡ other

  -- Fewer clusters are still good.
  IsGood-fewer :
      (es fs : Entries)
      → ((k : String) (m : ManagedCluster) → lookup k fs ≡ some m → lookup k es ≡ some m)
      → IsGood es
      → IsGood fs
  IsGood-fewer es fs sub g = record {
    own_id = λ id m e. g.own_id id m (sub id m e);
    valid = λ id m e. g.valid id m (sub id m e);
    unique = λ id other m n e f. g.unique id other m n (sub id m e) (sub other n f);
  }

  -- A name that the check lets through is no other cluster's.
  other_name :
      (name except_id k : String) (m : ManagedCluster) (es : Entries)
      → name_exists name except_id es ≡ false
      → lookup k es ≡ some m
      → k ≢ except_id
      → fold_key m.config.name ≢ fold_key name
  unfolding name_exists
  other_name name except_id k m es h e ne same =
      let tested = lookup-any (has_name name except_id) k m es h e in
      let other = test_of_ne k except_id ne in
      let fold = (eq_iff (fold_key m.config.name) (fold_key name)).1 same in ground arith

  pub put-IsGood :
      (id except_id : String) (c : Cluster) (es : Entries)
      → IsGood es
      → c.id ≡ id
      → id ≢ ""
      → validate_cluster c ≡ ok tt
      → name_exists c.name except_id es ≡ false
      → ((k : String) (m : ManagedCluster) → lookup k es ≡ some m → k ≢ id → k ≢ except_id)
      → IsGood (put_entry id (managed c) es)
  put-IsGood id except_id c es g own filled valid free apart =
      let at : (k : String) (m : ManagedCluster)
          → lookup k (put_entry id (managed c) es) ≡ some m
          → (k ≡ id) × (m ≡ managed c) ⊎ (k ≢ id) × (lookup k es ≡ some m) =
        λ k m e. put_entry-cases k id (managed c) m es e in
      record {
        own_id = λ k m e. elim (at k m e) [
          | inl (here, new) ↦ rw (here, new) (own, filled)
          | inr (elsewhere, old) ↦ g.own_id k m old
        ];
        valid = λ k m e. elim (at k m e) [
          | inl (here, new) ↦ rw new valid
          | inr (elsewhere, old) ↦ g.valid k m old
        ];
        unique = λ k other m n e f same. elim (at k m e) [
          | inl (here, new) ↦ elim (at other n f) [
            | inl (here', new') ↦ here ∙ sym here'
            | inr (elsewhere, old) ↦ absurd (
                other_name c.name except_id other n es free old (apart other n old elsewhere)
                  (sym same ∙ ap (λ (x : ManagedCluster). fold_key x.config.name) new))
          ]
          | inr (elsewhere, old) ↦ elim (at other n f) [
            | inl (here', new') ↦ absurd (
                other_name c.name except_id k m es free old (apart k m old elsewhere)
                  (same ∙ ap (λ (x : ManagedCluster). fold_key x.config.name) new'))
            | inr (elsewhere', old') ↦ g.unique k other m n old old' same
          ]
        ];
      }

  pub removed-IsGood : (id : String) (es : Entries) → IsGood es → IsGood (remove_entry id es)
  removed-IsGood id es g =
      IsGood-fewer es (remove_entry id es)
        (λ k m e. let look = lookup-remove_entry k id es in ground arith) g

  -- What undoes a change gives back lookups of before.
  pub undo_put-IsGood :
      (id : String) (m : ManagedCluster) (es : Entries)
      → IsGood es
      → IsGood (remove_entry id (put_entry id m es))
  undo_put-IsGood id m es g =
      IsGood-fewer es (remove_entry id (put_entry id m es))
        (λ k n e.
          let look = lookup-remove_entry k id (put_entry id m es) in
          let look' = lookup-put_entry k id m es in ground arith)
        g

  pub put_back-IsGood :
      (id : String) (m old : ManagedCluster) (es : Entries)
      → lookup id es ≡ some old
      → IsGood es
      → IsGood (put_entry id old (put_entry id m es))
  put_back-IsGood id m old es there g =
      IsGood-fewer es (put_entry id old (put_entry id m es))
        (λ k n e. elim (put_entry-cases k id old n (put_entry id m es) e) [
          | inl (here, same) ↦ rw (here, same) there
          | inr (elsewhere, later) ↦ elim (put_entry-cases k id m n es later) [
            | inl (here, new) ↦ absurd (elsewhere here)
            | inr (_, before) ↦ before
          ]
        ])
        g

  pub undelete-IsGood :
      (id : String) (old : ManagedCluster) (es : Entries)
      → lookup id es ≡ some old
      → IsGood es
      → IsGood (put_entry id old (remove_entry id es))
  undelete-IsGood id old es there g =
      IsGood-fewer es (put_entry id old (remove_entry id es))
        (λ k n e. elim (put_entry-cases k id old n (remove_entry id es) e) [
          | inl (here, same) ↦ rw (here, same) there
          | inr (elsewhere, later) ↦ let look = lookup-remove_entry k id es in ground arith
        ])
        g

  -- Saving ends with the changed map or with the restored one.
  pub save_entries-IsGood :
      {A : Type 0} (call : RegistryCall) (changed : Entries) (restore : Entries → Entries)
      (result : Result ClusterError A) (r : Registry)
      → IsGood changed
      → IsGood (restore changed)
      → IsGood (save_entries call changed restore result r).1.clusters
  unfolding save_entries save_clusters
  save_entries-IsGood {A} call changed restore result r g g' =
      elim (Option-cases (replace_file call.fails (file_of changed) r.disk).0) [
        | inl done ↦ rw (done, save_entries) g
        | inr (s, failed) ↦ rw (failed, save_entries) g'
      ]

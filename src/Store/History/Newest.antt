-- ===== src/Store/History/Newest.antt =====
-- What a query of the history answers.
use etcd_studio.Base.{
  ℕ, ◌≤◌, String, Bool, true, false, ◌≡◌, refl, sym, ◌⊎◌, inl, inr, arith, ◌||◌, ◌==◌, keep_if,
  take, take_all, length, length-take-le, All, Elem, List, [], some, ok, Bool-cases,
}
use mathlib.Core.Path.{subst}
use etcd_studio.Base.Int.{ℤ, pos, pos_part, ◌<ℤ◌, ltb_ℤ}
use etcd_studio.Base.Base64.{Bytes}
use etcd_studio.Base.Sorting.{sort_slice}
use etcd_studio.Base.Sorting.Order.{
  Elem-keep_if, keep_if-Elem, Elem-take, sort_slice-Elem, Elem-sort_slice,
}
use etcd_studio.Base.Sorting.Descending.{
  IsDistinctBy, IsDescendingBy, IsDistinctBy-keep_if, IsDescendingBy-sort_slice,
  IsDescendingBy-take, take-rest,
}
use etcd_studio.Text.{trim_space}
use etcd_studio.Store.Types.{ValueSnapshot}
use etcd_studio.Store.History.Types.{File, FileHistory}
use etcd_studio.Store.History.Records.{history_entry_key, is_empty}
use etcd_studio.Store.History.Log.{bucket, open_file}
use etcd_studio.Store.History.Query.{newer, is_before, newest_before, list_before}

abbrev pub revision : ValueSnapshot → ℤ
revision s = s.entry.mod_revision

-- No two snapshots of a list have the same revision.
abbrev pub IsDistinct : List ValueSnapshot → Type 0
IsDistinct = IsDistinctBy revision

-- Every snapshot is newer than those after it.
abbrev pub IsDescending : List ValueSnapshot → Type 0
IsDescending = IsDescendingBy revision

-- The answer to a query, as a set of conditions: only stored snapshots before the revision, the newest
-- first, no more than the limit, and whatever is left out is older than all of a full answer.
pub record IsNewestBefore (limit : ℕ) (before : ℤ) (stored answer : List ValueSnapshot)
    : Type 0 where
  pub stored_before : (s : ValueSnapshot) → Elem s answer → Elem s stored × (revision s <ℤ before)
  pub descending : IsDescending answer
  pub bounded : length answer ≤ limit
  pub complete :
      (s : ValueSnapshot)
      → Elem s stored
      → revision s <ℤ before
      → Elem s answer ⊎ (length answer ≡ limit) × All (λ t. revision s <ℤ revision t) answer

newest_before-take :
    (before limit : ℤ) (stored : List ValueSnapshot)
    → newest_before before limit stored
      ≡ take (pos_part limit) (sort_slice newer (keep_if (is_before before) stored))
newest_before-take before limit stored =
    ground (arith, take_all (pos_part limit) (sort_slice newer (keep_if (is_before before) stored)))

newest_before-IsNewestBefore :
    (before limit : ℤ) (stored : List ValueSnapshot)
    → IsDistinct stored
    → IsNewestBefore (pos_part limit) before stored (newest_before before limit stored)
newest_before-IsNewestBefore before limit stored d =
    let kept = keep_if (is_before before) stored in
    let sorted = sort_slice newer kept in
    let n = pos_part limit in
    let order =
      IsDescendingBy-sort_slice revision kept
        (IsDistinctBy-keep_if revision (is_before before) stored d) in
    subst (IsNewestBefore n before stored) (sym (newest_before-take before limit stored)) (record {
      stored_before = λ s e.
          let (there, early) =
            Elem-keep_if (is_before before) stored s
              (Elem-sort_slice newer kept s (Elem-take n sorted s e)) in
          (there, ground arith);
      descending = IsDescendingBy-take revision n sorted order;
      bounded = length-take-le n sorted;
      complete = λ s there early. take-rest revision n sorted s order (
          sort_slice-Elem newer kept s
            (keep_if-Elem (is_before before) stored s there (ground arith)));
    })

-- No key, no cluster, or a revision or a limit below 1.
abbrev pub asks_nothing : String → Bytes → ℤ → ℤ → Bool
asks_nothing cluster_id key before limit =
    (trim_space cluster_id == "" || is_empty key || ltb_ℤ before (pos 1)) || ltb_ℤ limit (pos 1)

-- A query of an open history in which no two snapshots of the key have one revision is answered: with
-- nothing where the cluster is blank, the key is empty or the revision or the limit is below 1, and
-- otherwise with the snapshots of the key before the revision, newest first, at most as many as asked
-- for, none left out but such as are older than all of a full answer.
pub list_before-IsNewestBefore :
    (cluster_id : String) (key : Bytes) (before limit : ℤ) (h : FileHistory) (file : File)
    → open_file h ≡ some file
    → IsDistinct (bucket (history_entry_key cluster_id key) h.entries)
    → (answer : List ValueSnapshot) × (list_before cluster_id key before limit h ≡ ok answer)
      × ((asks_nothing cluster_id key before limit ≡ true) × (answer ≡ [])
          ⊎ (asks_nothing cluster_id key before limit ≡ false)
            × IsNewestBefore
                (pos_part limit)
                before
                (bucket (history_entry_key cluster_id key) h.entries)
                answer)
unfolding list_before
list_before-IsNewestBefore cluster_id key before limit h file opened d =
    let stored = bucket (history_entry_key cluster_id key) h.entries in
    elim (Bool-cases (asks_nothing cluster_id key before limit)) [
      | inl nothing ↦ ([], ground arith, inl (nothing, refl))
      | inr something ↦ (
        newest_before before limit stored,
        ground arith,
        inr (something, newest_before-IsNewestBefore before limit stored d),
      )
    ]

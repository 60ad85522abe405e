-- ===== src/Store/History/Query.antt =====
-- `LatestBefore` and `ListBefore` of internal/store/history.go.
use etcd_studio.Base.{
  String, Bool, ◌||◌, ◌==◌, ltb, keep_if, take, length, List, [], ◌∷◌, Option, none, some,
  if◌then◌else◌, Result, ok, err,
}
use etcd_studio.Base.Int.{ℤ, pos, pos_part, ltb_ℤ}
use etcd_studio.Base.Base64.{Bytes}
use etcd_studio.Base.Sorting.{sort_slice}
use etcd_studio.Text.{trim_space}
use etcd_studio.Store.Types.{ValueSnapshot}
use etcd_studio.Store.History.Types.{HistoryError, closed, FileHistory}
use etcd_studio.Store.History.Records.{history_entry_key, is_empty}
use etcd_studio.Store.History.Log.{bucket, open_file}

-- The comparison by which snapshots are sorted: a newer one comes first.
abbrev pub newer : ValueSnapshot → ValueSnapshot → Bool
newer s t = ltb_ℤ t.entry.mod_revision s.entry.mod_revision

abbrev pub is_before : ℤ → ValueSnapshot → Bool
is_before mod_revision s = ltb_ℤ s.entry.mod_revision mod_revision

-- `limit` is at least 1 here.
abbrev pub newest_before : ℤ → ℤ → List ValueSnapshot → List ValueSnapshot
newest_before mod_revision limit stored =
    let snapshots = sort_slice newer (keep_if (is_before mod_revision) stored) in
    if ltb (pos_part limit) (length snapshots) then take (pos_part limit) snapshots else snapshots

unfoldable pub list_before :
    String → Bytes → ℤ → ℤ → FileHistory → Result HistoryError (List ValueSnapshot)
list_before cluster_id key mod_revision limit h =
    if trim_space cluster_id == "" || is_empty key || ltb_ℤ mod_revision (pos 1)
    then ok []
    else if ltb_ℤ limit (pos 1)
    then ok []
    else elim (open_file h) [
      | none ↦ err closed
      | some _ ↦
          ok
            (newest_before mod_revision limit (bucket (history_entry_key cluster_id key) h.entries))
    ]

unfoldable pub latest_before :
    String → Bytes → ℤ → FileHistory → Result HistoryError (Option ValueSnapshot)
unfolding list_before
latest_before cluster_id key mod_revision h =
    elim (list_before cluster_id key mod_revision (pos 1) h) [
      | err e ↦ err e
      | ok [] ↦ ok none
      | ok (s ∷ _) ↦ ok (some s)
    ]

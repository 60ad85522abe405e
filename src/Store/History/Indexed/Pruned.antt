-- ===== src/Store/History/Indexed/Pruned.antt =====
-- The invariant of the two maps under `Prune` and `PruneKey`.
use etcd_studio.Base.{
  String, false, ◌≡◌, ◌⊎◌, inl, inr, List, arith, Bool-cases, Option-cases, some, if◌then◌else◌,
  ◌==◌, Elem, any, ◌||◌,
}
use mathlib.Core.Path.{subst}
use etcd_studio.Base.Int.{ℤ, pos, eqb_ℤ}
use etcd_studio.Base.Base64.{Bytes}
use etcd_studio.Text.{trim_space}
use etcd_studio.Store.Types.{ValueSnapshot}
use etcd_studio.Store.History.Types.{File, FileHistory, Json, HistoryCall}
use etcd_studio.Store.History.Records.{is_empty, history_entry_key}
use etcd_studio.Store.History.Log.{Buckets, bucket, put_bucket, open_file}
use etcd_studio.Store.History.Prune.{
  newest_snapshots, within, thinned, prune_buckets, exceeds, seen_of, replace_entries_locked,
  prune_key, prune,
}
use etcd_studio.Store.History.Newest.{IsDistinct}
use etcd_studio.Store.History.Retention.{thinned-IsNewest}
use etcd_studio.Store.History.Indexed.{IsIndexed}
use etcd_studio.Store.History.Indexed.Lookup.{bucket-put_bucket, put_bucket-HasUniqueKeys, test_eq}
use etcd_studio.Store.History.Indexed.Replaced.{
  replaced-IsIndexed, prune_buckets-kept, prune_buckets-HasUniqueKeys,
}
use etcd_studio.Store.History.Indexed.Saved.{Indexed, SameMaps, SameMaps-Indexed}

module _ ⦃j : Json⦄ where
  -- A replacement of the maps that succeeds or fails.
  pub replace_entries_locked-maps :
      (updated : Buckets) (call : HistoryCall) (old : File) (h : FileHistory)
      → SameMaps h (replace_entries_locked updated call old h).1
        ⊎ ((replace_entries_locked updated call old h).1.entries ≡ updated)
          × ((replace_entries_locked updated call old h).1.seen ≡ seen_of updated)
  unfolding replace_entries_locked
  replace_entries_locked-maps updated call old h = ground arith

  replace_entries_locked-Indexed :
      (updated : Buckets) (call : HistoryCall) (old : File) (h : FileHistory)
      → Indexed h
      → IsIndexed updated (seen_of updated)
      → Indexed (replace_entries_locked updated call old h).1
  replace_entries_locked-Indexed updated call old h x y =
      elim (replace_entries_locked-maps updated call old h) [
        | inl same ↦ SameMaps-Indexed h (replace_entries_locked updated call old h).1 same x
        | inr (e, e') ↦ rw (e, e') y
      ]

  pruned-Indexed :
      (keep : ℤ) (call : HistoryCall) (file : File) (h : FileHistory) (us : Buckets)
      → Indexed h
      → prune_buckets keep h.entries ≡ some us
      → Indexed (replace_entries_locked us call file h).1
  pruned-Indexed keep call file h us x e =
      let kept : (k : String)
          → ((s : ValueSnapshot) → Elem s (bucket k us) → Elem s (bucket k h.entries))
            × IsDistinct (bucket k us) =
        λ k. prune_buckets-kept keep h.entries us k (x.distinct k) e in
      replace_entries_locked-Indexed us call file h x (
        replaced-IsIndexed h.entries h.seen us x (λ k. (kept k).0) (λ k. (kept k).1)
          (prune_buckets-HasUniqueKeys keep h.entries us e x.keys))

  -- The outcome of a pruning: nothing, or a replacement by what the loop gives.
  pub prune-cases :
      (keep : ℤ) (call : HistoryCall) (h : FileHistory)
      → ((prune keep call h).1 ≡ h)
        ⊎ (file : File) × (us : Buckets) × (prune_buckets keep h.entries ≡ some us)
          × (prune keep call h ≡ replace_entries_locked us call file h)
  unfolding prune
  prune-cases keep call h = elim (Option-cases (open_file h)) [
    | inl closed ↦ inl (ground arith)
    | inr (file, opened) ↦ elim (Option-cases (prune_buckets keep h.entries)) [
      | inl stuck ↦ inl (ground arith)
      | inr (us, pruned) ↦
          elim (Bool-cases (if eqb_ℤ keep (pos 0) then false else any (exceeds keep) h.entries)) [
            | inl some_exceed ↦ inr (file, us, pruned, ground arith)
            | inr none_exceed ↦ inl (ground arith)
          ]
    ]
  ]

  pub prune-Indexed :
      (keep : ℤ) (call : HistoryCall) (h : FileHistory) → Indexed h → Indexed (prune keep call h).1
  prune-Indexed keep call h x = elim (prune-cases keep call h) [
    | inl same ↦ rw same x
    | inr (file, us, pruned, same) ↦ rw same (pruned-Indexed keep call file h us x pruned)
  ]

  pub prune_key-cases :
      (cluster_id : String) (key : Bytes) (keep : ℤ) (call : HistoryCall) (h : FileHistory)
      → let k = history_entry_key cluster_id key in
        ((prune_key cluster_id key keep call h).1 ≡ h)
        ⊎ (file : File) × (kept : List ValueSnapshot) × (thinned keep (bucket k h.entries)
            ≡ some kept)
          × (prune_key cluster_id key keep call h
              ≡ replace_entries_locked (put_bucket k kept h.entries) call file h)
  unfolding prune_key
  prune_key-cases cluster_id key keep call h =
      let k = history_entry_key cluster_id key in
      elim (Option-cases (open_file h)) [
        | inl closed ↦ inl (ground arith)
        | inr (file, opened) ↦ elim (Option-cases (newest_snapshots (bucket k h.entries) keep)) [
          | inl stuck ↦ inl (ground arith)
          | inr (kept, newest) ↦
              elim (Bool-cases (
                eqb_ℤ keep (pos 0)
                || trim_space cluster_id == ""
                || is_empty key
                || within keep (bucket k h.entries))) [
                  | inl nothing ↦ inl (ground arith)
                  | inr something ↦ inr (file, kept, ground arith, ground arith)
                ]
        ]
      ]

  put_kept :
      (keep : ℤ) (k : String) (kept : List ValueSnapshot) (h : FileHistory)
      → Indexed h
      → thinned keep (bucket k h.entries) ≡ some kept
      → IsIndexed (put_bucket k kept h.entries) (seen_of (put_bucket k kept h.entries))
  put_kept keep k kept h x t =
      let newest = thinned-IsNewest keep (bucket k h.entries) kept (x.distinct k) t in
      replaced-IsIndexed h.entries h.seen (put_bucket k kept h.entries) x
        (λ other s. rw (bucket-put_bucket other k kept h.entries) (elim (Bool-cases (k == other)) [
          | inl own ↦ rw own (λ e.
              subst (λ y. Elem s (bucket y h.entries)) (test_eq k other own) (newest.of_stored s e))
          | inr elsewhere ↦ rw elsewhere (λ e. e)
        ]))
        (λ other. rw (bucket-put_bucket other k kept h.entries) (elim (Bool-cases (k == other)) [
          | inl own ↦ rw own newest.distinct
          | inr elsewhere ↦ rw elsewhere (x.distinct other)
        ]))
        (put_bucket-HasUniqueKeys k kept h.entries x.keys)

  pub prune_key-Indexed :
      (cluster_id : String) (key : Bytes) (keep : ℤ) (call : HistoryCall) (h : FileHistory)
      → Indexed h
      → Indexed (prune_key cluster_id key keep call h).1
  prune_key-Indexed cluster_id key keep call h x =
      elim (prune_key-cases cluster_id key keep call h) [
        | inl same ↦ rw same x
        | inr (file, kept, t, same) ↦ rw same (
            replace_entries_locked-Indexed
              (put_bucket (history_entry_key cluster_id key) kept h.entries) call file h x
              (put_kept keep (history_entry_key cluster_id key) kept h x t))
      ]

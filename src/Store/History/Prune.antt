-- ===== src/Store/History/Prune.antt =====
-- `PruneKey`, `Prune` and `replaceEntriesLocked` of internal/store/history.go.
use Prim.Native.String.{len}
use etcd_studio.Base.{
  ◌+◌, String, Bool, true, false, ◌==◌, ◌||◌, ltb, map, take, length, any, List, [], ◌∷◌, ◌++◌,
  Option, none, some, if◌then◌else◌, Result, ok, err,
}
use etcd_studio.Base.Int.{ℤ, pos, negsuc, leb_ℤ, eqb_ℤ}
use etcd_studio.Base.Base64.{Bytes}
use etcd_studio.Base.Sorting.{sort_slice, str_lt}
use etcd_studio.Text.{trim_space}
use etcd_studio.Store.Types.{ValueSnapshot}
use etcd_studio.Store.History.Types.{
  HistoryError, closed, encode_failed, too_large, replace_failed, reopen_failed, close_failed,
  panicked, File, linked, detached, FileHistory, Json, create_temp, chmod_temp, write_temp,
  flush_temp, sync_temp, close_temp, rename, reopen, close_old, max_history_record_size,
  HistoryCall,
}
use etcd_studio.Store.History.Records.{
  history_entry_key, history_seen_key, record_from_snapshot, is_empty,
}
use etcd_studio.Store.History.Log.{Buckets, bucket, put_bucket, open_file}
use etcd_studio.Store.History.Query.{newer}

-- `newest[:keep]`, which panics for a negative `keep`; it is called where more than `keep` are stored.
unfoldable pub newest_snapshots : List ValueSnapshot → ℤ → Option (List ValueSnapshot)
newest_snapshots snapshots (pos keep) = some (take keep (sort_slice newer snapshots))
newest_snapshots snapshots (negsuc _) = none

-- `len(snapshots) <= keep`
abbrev pub within : ℤ → List ValueSnapshot → Bool
within keep snapshots = leb_ℤ (pos (length snapshots)) keep

-- What the loop of a pruning makes of one list.
abbrev pub thinned : ℤ → List ValueSnapshot → Option (List ValueSnapshot)
thinned keep snapshots =
    if within keep snapshots then some snapshots else newest_snapshots snapshots keep

-- The loop over all keys, and whether one has too many snapshots; `none` where it panics.
unfoldable pub prune_buckets : ℤ → Buckets → Option Buckets
unfolding newest_snapshots
prune_buckets keep [] = some []
prune_buckets keep ((key, snapshots) ∷ rest) = elim (thinned keep snapshots) [
  | none ↦ none
  | some kept ↦ elim (prune_buckets keep rest) [
    | none ↦ none
    | some more ↦ some ((key, kept) ∷ more)
  ]
]

abbrev pub exceeds : ℤ → String × List ValueSnapshot → Bool
exceeds keep (key, snapshots) = if within keep snapshots then false else true

abbrev pub key_lt : String × List ValueSnapshot → String × List ValueSnapshot → Bool
key_lt a b = str_lt a.0 b.0

abbrev pub seen_of : Buckets → List String
seen_of [] = []
seen_of ((key, snapshots) ∷ rest) = map history_seen_key snapshots ++ seen_of rest

module _ ⦃j : Json⦄ where
  -- The lines for the snapshots of one key.
  unfoldable pub encode_bucket : List ValueSnapshot → Result HistoryError (List String)
  encode_bucket [] = ok []
  encode_bucket (s ∷ rest) = elim (j.marshal (record_from_snapshot s)) [
    | none ↦ err encode_failed
    | some line ↦ elim (ltb max_history_record_size (len line + 1)) [
      | true ↦ err too_large
      | false ↦ elim (encode_bucket rest) [ err e ↦ err e | ok lines ↦ ok (line ∷ lines) ]
    ]
  ]

  unfoldable pub encode_buckets : Buckets → Result HistoryError (List String)
  encode_buckets [] = ok []
  encode_buckets ((key, snapshots) ∷ rest) = elim (encode_bucket snapshots) [
    | err e ↦ err e
    | ok lines ↦ elim (encode_buckets rest) [ err e ↦ err e | ok more ↦ ok (lines ++ more) ]
  ]

  -- The history after the new file took the name: it is opened, or the old handle stays, whose file has
  -- lost its name.
  abbrev pub reopened :
      HistoryCall
      → Buckets
      → File
      → File
      → FileHistory
      → Result HistoryError (Unit {0}) × FileHistory
  reopened call updated old new h =
      if call.fails reopen
      then (err reopen_failed, record h { handle = detached old; published = new })
      else (
        if call.fails close_old then err close_failed else ok tt,
        record h { handle = linked; published = new; entries = updated; seen = seen_of updated },
      )

  -- The keys are written in order; a temporary file is removed on every error.
  unfoldable pub replace_entries_locked :
      Buckets → HistoryCall → File → FileHistory → Result HistoryError (Unit {0}) × FileHistory
  replace_entries_locked updated call old h =
      if call.fails create_temp || call.fails chmod_temp
      then (err replace_failed, h)
      else elim (encode_buckets (sort_slice key_lt updated)) [
        | err e ↦ (err e, h)
        | ok lines ↦
            if call.fails write_temp
              || call.fails flush_temp
              || call.fails sync_temp
              || call.fails close_temp
              || call.fails rename
            then (err replace_failed, h)
            else reopened call updated old (record { lines = lines; tail = "" }) h
      ]

  unfoldable pub prune_key :
      String → Bytes → ℤ → HistoryCall → FileHistory → Result HistoryError (Unit {0}) × FileHistory
  prune_key cluster_id key keep call h =
      if eqb_ℤ keep (pos 0) || trim_space cluster_id == "" || is_empty key
      then (ok tt, h)
      else elim (open_file h) [
        | none ↦ (err closed, h)
        | some file ↦
            let entry_key = history_entry_key cluster_id key in
            let snapshots = bucket entry_key h.entries in
            if within keep snapshots then (ok tt, h) else elim (newest_snapshots snapshots keep) [
              | none ↦ (err panicked, h)
              | some newest ↦
                  replace_entries_locked (put_bucket entry_key newest h.entries) call file h
            ]
      ]

  unfoldable pub prune :
      ℤ → HistoryCall → FileHistory → Result HistoryError (Unit {0}) × FileHistory
  prune keep call h = if eqb_ℤ keep (pos 0) then (ok tt, h) else elim (open_file h) [
    | none ↦ (err closed, h)
    | some file ↦ elim (prune_buckets keep h.entries) [
      | none ↦ (err panicked, h)
      | some updated ↦
          if any (exceeds keep) h.entries
          then replace_entries_locked updated call file h
          else (ok tt, h)
    ]
  ]

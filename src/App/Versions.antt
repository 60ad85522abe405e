-- ===== src/App/Versions.antt =====
-- The versions of a key that internal/app/server.go offers for a rollback.
pub mod Chain
pub mod Candidates
pub mod Page
use etcd_studio.Base.{
  ℕ, zero, suc, String, Bool, true, false, not, ◌&&◌, ◌||◌, Option, none, some, List, [], ◌∷◌,
  length, take, map, any, ltb, if◌then◌else◌, Result, ok, err,
}
use etcd_studio.Base.Int.{ℤ, pos, pos_part, ltb_ℤ, eqb_ℤ, succ_ℤ, pred_ℤ}
use etcd_studio.Base.Base64.{Bytes}
use etcd_studio.Base.Sorting.{sort_slice}
use etcd_studio.Base.Sorting.Descending.{above}
use etcd_studio.Auth.Types.{Time}
use etcd_studio.Store.Types.{
  Entry, ValueSnapshot, StoreError, conflict, history_compacted, no_previous_version, local_history,
}
use etcd_studio.Store.Kv.{Kv, HistoryStorage}

-- `rollbackCandidate`; the source is "storage" or "etcd".
pub record Candidate : Type 0 where
  pub entry : Entry
  pub source : String
  pub captured_at : Time

abbrev pub candidate_revision : Candidate → ℤ
candidate_revision c = c.entry.mod_revision

-- What `etcdVersionsBefore` returns: entries, and whether older ones were compacted.
pub record Versions : Type 0 where
  pub entries : List Entry
  pub compacted : Bool

-- An entry before those of the rest of the loop; an error loses them all.
abbrev pub with_entry : Entry → Result StoreError Versions → Result StoreError Versions
with_entry e (err x) = err x
with_entry e (ok v) = ok (record v { entries = e ∷ v.entries })

abbrev pub no_more : Bool → Result StoreError Versions
no_more compacted = ok (record { entries = []; compacted = compacted })

-- `errors.Is(err, ErrHistoryCompacted)`
abbrev pub is_compacted : StoreError → Bool
is_compacted history_compacted = true
is_compacted _ = false

-- The loop looks for one more entry, and ends by its answer otherwise.
abbrev pub is_usable : ℤ → Entry → Bool
is_usable revision e = not (ltb_ℤ e.mod_revision (pos 1) || ltb_ℤ revision e.mod_revision)

module _ {W : Type 0} (kv : Kv W) where
  -- The loop: `room` is how many entries are missing, `revision` the one that is asked for.
  unfoldable pub versions_from : ℕ → Bytes → ℤ → W → Result StoreError Versions × W
  versions_from zero key revision w = (no_more false, w)
  versions_from (suc room) key revision w = elim (ltb_ℤ (pos 0) revision) [
    | false ↦ (no_more false, w)
    | true ↦
        let (answer, w') = kv.get_at_revision key revision w in
        elim answer [
          | err e ↦ (if is_compacted e then no_more true else err e, w')
          | ok none ↦ (no_more false, w')
          | ok (some e) ↦ elim (is_usable revision e) [
            | false ↦ (no_more false, w')
            | true ↦
                let (rest, w'') = versions_from room key (pred_ℤ e.mod_revision) w' in
                (with_entry e rest, w'')
          ]
        ]
  ]

  unfoldable pub etcd_versions_before : Bytes → ℤ → ℕ → W → Result StoreError Versions × W
  unfolding versions_from
  etcd_versions_before key before limit w = versions_from limit key (pred_ℤ before) w

-- `byRevision[revision] = candidate`
abbrev pub put_candidate : Candidate → List Candidate → List Candidate
put_candidate c [] = c ∷ []
put_candidate c (d ∷ ds) =
    let rest = put_candidate c ds in
    if eqb_ℤ (candidate_revision d) (candidate_revision c) then c ∷ ds else d ∷ rest

abbrev pub has_revision : ℤ → List Candidate → Bool
has_revision revision cs = any (λ d. eqb_ℤ (candidate_revision d) revision) cs

abbrev pub stored_candidate : ValueSnapshot → Candidate
stored_candidate s = record { entry = s.entry; source = "storage"; captured_at = s.captured_at }

abbrev pub etcd_candidate : Entry → Candidate
etcd_candidate e = record { entry = e; source = "etcd"; captured_at = 0 }

-- The loop over the snapshots.
unfoldable pub add_snapshots : List ValueSnapshot → List Candidate → List Candidate
add_snapshots [] cs = cs
add_snapshots (s ∷ ss) cs = add_snapshots ss (put_candidate (stored_candidate s) cs)

-- The loop over the entries of etcd: what the storage has stays.
unfoldable pub add_entries : List Entry → List Candidate → List Candidate
add_entries [] cs = cs
add_entries (e ∷ es) cs =
    add_entries es
      (if has_revision e.mod_revision cs then cs else put_candidate (etcd_candidate e) cs)

abbrev pub is_none_found : List Candidate → Bool
is_none_found [] = true
is_none_found (_ ∷ _) = false

-- The candidates of both sources: the newest first, at most `limit`, and whether there are more.
unfoldable pub merge_candidates :
    ℕ → List ValueSnapshot → Versions → Result StoreError (List Candidate × Bool)
unfolding add_snapshots add_entries
merge_candidates limit snapshots versions =
    let found = add_entries versions.entries (add_snapshots snapshots []) in
    let candidates = sort_slice (above candidate_revision) found in
    if is_none_found candidates && versions.compacted
    then err history_compacted
    else let has_more = ltb limit (length candidates) in
      ok (if has_more then take limit candidates else candidates, has_more)

-- The snapshot that the history has at the target.
abbrev pub stored_target : ℤ → List ValueSnapshot → Option Candidate
stored_target target [] = none
stored_target target (s ∷ _) =
    if eqb_ℤ s.entry.mod_revision target then some (stored_candidate s) else none

-- The entry that etcd has at the target.
abbrev pub etcd_target : ℤ → Option Entry → Result StoreError Candidate
etcd_target target none = err no_previous_version
etcd_target target (some e) =
    if eqb_ℤ e.mod_revision target then ok (etcd_candidate e) else err no_previous_version

-- Whether another revision was expected.
abbrev pub differs : Option ℤ → Entry → Bool
differs none current = false
differs (some expected) current = not (eqb_ℤ current.mod_revision expected)

module _ {H : Type 0} (storage : HistoryStorage H) where
  unfoldable pub save_snapshot : String → Entry → Time → H → Result StoreError (Unit {0}) × H
  save_snapshot cluster_id entry now h =
      let (saved, h') =
        storage.save (record { cluster_id = cluster_id; entry = entry; captured_at = now }) h in
      elim saved [ err e ↦ (err (local_history e), h') | ok _ ↦ (ok tt, h') ]

module _ {W H : Type 0} (kv : Kv W) (storage : HistoryStorage H) where
  unfoldable pub rollback_candidates :
      String → Bytes → ℤ → ℕ → H → W → Result StoreError (List Candidate × Bool) × W
  unfolding etcd_versions_before merge_candidates
  rollback_candidates cluster_id key before limit h w =
      elim (storage.list_before cluster_id key before (pos (suc limit)) h) [
        | err e ↦ (err (local_history e), w)
        | ok snapshots ↦
            let (answer, w') = etcd_versions_before kv key before (suc limit) w in
            elim answer [
              | err e ↦ (err e, w')
              | ok versions ↦ (merge_candidates limit snapshots versions, w')
            ]
      ]

  -- The part of `rollbackTarget` that looks for the target, first in the history and then in etcd.
  unfoldable pub find_target :
      String → Bytes → ℤ → Entry → H → W → Result StoreError (Entry × Candidate) × W
  find_target cluster_id key target current h w =
      elim (storage.list_before cluster_id key (succ_ℤ target) (pos 1) h) [
        | err e ↦ (err (local_history e), w)
        | ok snapshots ↦ elim (stored_target target snapshots) [
          | some found ↦ (ok (current, found), w)
          | none ↦
              let (answer, w') = kv.get_at_revision key target w in
              elim answer [
                | err e ↦ (err e, w')
                | ok previous ↦ elim (etcd_target target previous) [
                  | err e ↦ (err e, w')
                  | ok found ↦ (ok (current, found), w')
                ]
              ]
        ]
      ]

  -- `rollbackTarget`: the current entry and the target.
  unfoldable pub rollback_target :
      String → Bytes → ℤ → ℤ → H → W → Result StoreError (Entry × Candidate) × W
  unfolding find_target
  rollback_target cluster_id key expected target h w =
      let (answer, w') = kv.get key w in
      elim answer [
        | err e ↦ (err e, w')
        | ok none ↦ (err no_previous_version, w')
        | ok (some current) ↦
            if not (eqb_ℤ current.mod_revision expected)
            then (err conflict, w')
            else if ltb_ℤ target (pos 1) || not (ltb_ℤ target current.mod_revision)
            then (err no_previous_version, w')
            else find_target cluster_id key target current h w'
      ]

  -- `archiveCurrent` saves the entry that it finds, if it is the expected one.
  unfoldable pub archive_current :
      String → Bytes → Option ℤ → Time → H → W → Result StoreError (Option Entry) × H × W
  unfolding save_snapshot
  archive_current cluster_id key expected now h w =
      let (answer, w') = kv.get key w in
      elim answer [
        | err e ↦ (err e, h, w')
        | ok none ↦ (ok none, h, w')
        | ok (some current) ↦
            if differs expected current
            then (err conflict, h, w')
            else let (saved, h') = save_snapshot storage cluster_id current now h in
              elim saved [ err e ↦ (err e, h', w') | ok _ ↦ (ok (some current), h', w') ]
      ]

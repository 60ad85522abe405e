-- ===== src/App/Keys.antt =====
-- The handlers of internal/app/server.go that change keys: writing, deleting and rolling back.
pub mod Archived
pub mod Written
pub mod Restored
pub mod Unsaved
use etcd_studio.Base.{
  String, Bool, true, false, not, ◌&&◌, ◌||◌, ◌==◌, Option, none, some, if◌then◌else◌, Result, ok,
  err,
}
use etcd_studio.Base.Int.{ℤ, pos, ltb_ℤ, eqb_ℤ}
use etcd_studio.Base.Base64.{Bytes}
use etcd_studio.Text.{Unicode, trim_space}
use etcd_studio.Text.Utf8.{Utf8}
use etcd_studio.Auth.Types.{Time}
use etcd_studio.Store.Types.{Entry, AuditEvent, StoreError}
use etcd_studio.Store.Kv.{Kv, HistoryStorage}
use etcd_studio.Store.Registry.Types.{Cluster, ClusterError, cluster_not_found}
use etcd_studio.Store.History.Records.{append_text, format_int}
use etcd_studio.App.Answers.{
  Answer, answered, refused, write_store_error, write_cluster_resolve_error,
}
use etcd_studio.App.Inputs.{decode_key, decode_value, optional_int64}
use etcd_studio.App.Server.{Server, Setup, Request}
use etcd_studio.App.Audit.{audit_key_label, record_audit}
use etcd_studio.App.Access.{request_can_access_cluster}
use etcd_studio.App.Versions.{Candidate, rollback_target, save_snapshot, archive_current}

-- The bodies of the requests after decoding.
pub record PutRequest : Type 0 where
  pub cluster_id : String
  pub key : String
  pub key_base64 : String
  pub value : String
  pub value_base64 : String
  pub value_encoding : String
  pub expected_mod_revision : Option ℤ

pub record RollbackRequest : Type 0 where
  pub cluster_id : String
  pub key : String
  pub key_base64 : String
  pub expected_mod_revision : Option ℤ
  pub target_mod_revision : Option ℤ

-- The parameters of the address of a deletion.
pub record DeleteRequest : Type 0 where
  pub cluster_id : String
  pub key : String
  pub key_base64 : String
  pub expected_mod_revision : String

-- What a rollback is answered with.
pub record RolledBack : Type 0 where
  pub revision : ℤ
  pub restored_from_revision : ℤ
  pub history_source : String

-- An event on a key of a cluster; the other fields are filled in when it is recorded.
abbrev key_event : String → Cluster → String → String → AuditEvent
key_event action cluster target detail = record {
  id = "";
  occurred_at = 0;
  actor = "";
  actor_type = "";
  client_ip = "";
  action = action;
  resource_type = "key";
  cluster_id = cluster.id;
  cluster_name = cluster.name;
  target = target;
  detail = detail;
  result = "";
}

abbrev with_revision : String → ℤ → String
with_revision text revision = append_text text (format_int revision)

abbrev put_event : Option ℤ → Cluster → String → ℤ → AuditEvent
put_event expected cluster target revision =
    let created : Bool = elim expected [ none ↦ false | some r ↦ eqb_ℤ r (pos 0) ] in
    if created
    then key_event "key.create" cluster target (with_revision "创建为 etcd 修订版本 #" revision)
    else key_event "key.update" cluster target (with_revision "保存为 etcd 修订版本 #" revision)

-- A revision that was given and is at least 1.
abbrev positive : Option ℤ → Option ℤ
positive none = none
positive (some r) = if ltb_ℤ r (pos 1) then none else some r

-- A target that was given, is at least 1 and below the current revision.
abbrev earlier : ℤ → Option ℤ → Option ℤ
earlier expected none = none
earlier expected (some target) =
    if ltb_ℤ target (pos 1) || not (ltb_ℤ target expected) then none else some target

module _ {W H : Type 0} (setup : Setup W H) where
  -- `clusterKV`
  unfoldable pub cluster_kv : String → Result ClusterError (Kv W × Cluster)
  cluster_kv id = if trim_space id == "" then err cluster_not_found else setup.cluster_kv id

  -- The client of a cluster, if the principal may use it.
  unfoldable pub accessible_kv :
      {A : Type 0} → Request → String → Result (Answer A) (Kv W × Cluster)
  unfolding cluster_kv request_can_access_cluster
  accessible_kv r cluster_id =
      if not (request_can_access_cluster setup.auth_enabled r cluster_id)
      then err (refused 403 "cluster_access_denied")
      else elim (cluster_kv cluster_id) [
        | err e ↦ err (write_cluster_resolve_error e)
        | ok found ↦ ok found
      ]

module _ {W H : Type 0} (setup : Setup W H) ⦃u : Unicode⦄ ⦃v : Utf8⦄ where
  -- The part of `handlePutKey` after the current value was archived.
  unfoldable pub write_archived :
      Request
      → Kv W
      → Cluster
      → Bytes
      → Bytes
      → Option ℤ
      → Server W H
      → Result StoreError (Option Entry) × H × W
      → Answer ℤ × Server W H
  write_archived r kv cluster key value expected s (archived, h, w) = elim archived [
    | err e ↦ (write_store_error e, record s { history = h; world = w })
    | ok _ ↦
        let (put, w') = kv.put key value expected w in
        let s' : Server W H = record s { history = h; world = w' } in
        elim put [
          | err e ↦ (write_store_error e, s')
          | ok revision ↦ (
            answered revision,
            record_audit setup.storage r (put_event expected cluster (audit_key_label key) revision)
                s',
          )
        ]
  ]

  -- The part of `handlePutKey` after the request was checked.
  unfoldable pub write_key :
      Request → Kv W → Cluster → Bytes → Bytes → Option ℤ → Server W H → Answer ℤ × Server W H
  unfolding write_archived archive_current
  write_key r kv cluster key value expected s =
      write_archived r kv cluster key value expected s
        (archive_current kv setup.storage cluster.id key expected (setup.clock 0) s.history s.world)

  -- `handlePutKey`; `body` is what `decodeJSON` makes of the body.
  unfoldable pub handle_put_key : Request → Option PutRequest → Server W H → Answer ℤ × Server W H
  unfolding write_key accessible_kv decode_key decode_value
  handle_put_key r none s = (refused 400 "invalid_request", s)
  handle_put_key r (some body) s = elim (accessible_kv setup r body.cluster_id) [
    | err answer ↦ (answer, s)
    | ok (kv, cluster) ↦ elim (decode_key body.key body.key_base64) [
      | none ↦ (refused 400 "invalid_key", s)
      | some key ↦ elim (decode_value body.value body.value_base64 body.value_encoding) [
        | none ↦ (refused 400 "invalid_value", s)
        | some value ↦ write_key r kv cluster key value body.expected_mod_revision s
      ]
    ]
  ]

  -- The part of `handleDeleteKey` after the current value was archived.
  unfoldable pub remove_archived :
      Request
      → Kv W
      → Cluster
      → Bytes
      → Option ℤ
      → Server W H
      → Result StoreError (Option Entry) × H × W
      → Answer ℤ × Server W H
  remove_archived r kv cluster key expected s (archived, h, w) = elim archived [
    | err e ↦ (write_store_error e, record s { history = h; world = w })
    | ok none ↦ (refused 404 "key_not_found", record s { history = h; world = w })
    | ok (some _) ↦
        let (removed, w') = kv.delete key expected w in
        let s' : Server W H = record s { history = h; world = w' } in
        elim removed [
          | err e ↦ (write_store_error e, s')
          | ok (revision, deleted) ↦ if not deleted then (refused 404 "key_not_found", s') else (
            answered revision,
            record_audit setup.storage r
                (key_event "key.delete" cluster (audit_key_label key)
                  (with_revision "删除为 etcd 修订版本 #" revision))
                s',
          )
        ]
  ]

  -- The part of `handleDeleteKey` after the request was checked.
  unfoldable pub remove_key :
      Request → Kv W → Cluster → Bytes → Option ℤ → Server W H → Answer ℤ × Server W H
  unfolding remove_archived archive_current
  remove_key r kv cluster key expected s =
      remove_archived r kv cluster key expected s
        (archive_current kv setup.storage cluster.id key expected (setup.clock 0) s.history s.world)

  -- `handleDeleteKey`
  unfoldable pub handle_delete_key : Request → DeleteRequest → Server W H → Answer ℤ × Server W H
  unfolding remove_key accessible_kv decode_key optional_int64
  handle_delete_key r query s = elim (accessible_kv setup r (trim_space query.cluster_id)) [
    | err answer ↦ (answer, s)
    | ok (kv, cluster) ↦ elim (decode_key query.key query.key_base64) [
      | none ↦ (refused 400 "invalid_key", s)
      | some key ↦ elim (optional_int64 query.expected_mod_revision) [
        | none ↦ (refused 400 "invalid_revision", s)
        | some expected ↦ remove_key r kv cluster key expected s
      ]
    ]
  ]

  -- A target that only etcd has is saved before the rollback, as the current value is.
  unfoldable pub archive_target :
      Cluster → Candidate → Server W H → Result StoreError (Unit {0}) × H
  unfolding save_snapshot
  archive_target cluster previous s =
      if previous.source == "etcd"
      then save_snapshot setup.storage cluster.id previous.entry (setup.clock 0) s.history
      else (ok tt, s.history)

  -- The part of `handleRollbackKey` after the target was found.
  unfoldable pub restore :
      Request
      → Kv W
      → Cluster
      → Bytes
      → Entry
      → Candidate
      → Server W H
      → Answer RolledBack × Server W H
  unfolding archive_target save_snapshot
  restore r kv cluster key current previous s =
      let (target_saved, h) = archive_target cluster previous s in
      elim target_saved [
        | err e ↦ (write_store_error e, record s { history = h })
        | ok _ ↦
            let (saved, h') = save_snapshot setup.storage cluster.id current (setup.clock 1) h in
            elim saved [
              | err e ↦ (write_store_error e, record s { history = h' })
              | ok _ ↦
                  let (put, w) =
                    kv.put key previous.entry.value (some current.mod_revision) s.world in
                  let s' : Server W H = record s { history = h'; world = w } in
                  elim put [
                    | err e ↦ (write_store_error e, s')
                    | ok revision ↦ (
                      answered (record {
                        revision = revision;
                        restored_from_revision = previous.entry.mod_revision;
                        history_source = previous.source;
                      }),
                      record_audit setup.storage r
                          (key_event "key.rollback" cluster (audit_key_label key) (
                            append_text (with_revision "从修改版本 #" previous.entry.mod_revision)
                              (with_revision " 回滚，生成 etcd 修订版本 #" revision)))
                          s',
                    )
                  ]
            ]
      ]

  -- The part of `handleRollbackKey` after `rollbackTarget`.
  unfoldable pub restore_found :
      Request
      → Kv W
      → Cluster
      → Bytes
      → Server W H
      → Result StoreError (Entry × Candidate) × W
      → Answer RolledBack × Server W H
  unfolding restore
  restore_found r kv cluster key s (found, w) = elim found [
    | err e ↦ (write_store_error e, record s { world = w })
    | ok (current, previous) ↦ restore r kv cluster key current previous (record s { world = w })
  ]

  -- The part of `handleRollbackKey` after the request was checked.
  unfoldable pub roll_back :
      Request → Kv W → Cluster → Bytes → ℤ → ℤ → Server W H → Answer RolledBack × Server W H
  unfolding restore_found rollback_target
  roll_back r kv cluster key expected target s =
      restore_found r kv cluster key s
        (rollback_target kv setup.storage cluster.id key expected target s.history s.world)

  -- `handleRollbackKey`
  unfoldable pub handle_rollback_key :
      Request → Option RollbackRequest → Server W H → Answer RolledBack × Server W H
  unfolding roll_back accessible_kv decode_key
  handle_rollback_key r none s = (refused 400 "invalid_request", s)
  handle_rollback_key r (some body) s = elim (positive body.expected_mod_revision) [
    | none ↦ (refused 400 "invalid_revision", s)
    | some expected ↦ elim (earlier expected body.target_mod_revision) [
      | none ↦ (refused 400 "invalid_target_revision", s)
      | some target ↦ elim (accessible_kv setup r body.cluster_id) [
        | err answer ↦ (answer, s)
        | ok (kv, cluster) ↦ elim (decode_key body.key body.key_base64) [
          | none ↦ (refused 400 "invalid_key", s)
          | some key ↦ roll_back r kv cluster key expected target s
        ]
      ]
    ]
  ]

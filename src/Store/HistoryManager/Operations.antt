-- ===== src/Store/HistoryManager/Operations.antt =====
-- The methods of `HistoryManager` of internal/store/history_manager.go over its backend.
use etcd_studio.Base.{
  String, true, false, not, ◌&&◌, ◌||◌, ◌==◌, Option, none, some, List, eqb, ltb, if◌then◌else◌,
  Result, ok, err, is_some,
}
use etcd_studio.Base.Int.{ℤ, pos, eqb_ℤ}
use etcd_studio.Base.Base64.{Bytes}
use etcd_studio.Text.{Unicode}
use etcd_studio.Auth.Types.{Time}
use etcd_studio.Store.Types.{
  ValueSnapshot, AuditEvent, StoreError, history_not_setup, history_configured, audit_log,
  local_history,
}
use etcd_studio.Store.Kv.{HistoryStorage}
use etcd_studio.Store.HistoryManager.Input.{HistoryStorageInput, normalize_history_storage_input}
use etcd_studio.Store.HistoryManager.Types.{
  history_storage_config_version, default_retention_versions, PersistedHistoryStorage, AuditWindow,
  Backend, HistoryManager, ManagerCall,
}
use etcd_studio.Store.HistoryManager.Settings.{
  audit_cutoff, validate_retention_versions, normalize_retention_versions, save_config,
  as_audit_error, with_backend, delegated,
}

module _ {B Q P : Type 0} (backend : Backend B Q P) where
  unfoldable pub configure :
      ⦃u : Unicode⦄
      → ManagerCall B
      → HistoryStorageInput
      → HistoryManager B
      → Result StoreError (Unit {0}) × HistoryManager B
  unfolding normalize_retention_versions normalize_history_storage_input save_config
  configure call input m = elim (normalize_retention_versions input.retention_versions) [
    | err e ↦ (err e, m)
    | ok retention ↦ elim (normalize_history_storage_input m.default_local_file input) [
      | err e ↦ (err e, m)
      | ok given ↦
          let normalized : HistoryStorageInput = record given { retention_versions = none } in
          if is_some m.backend
          then (err history_configured, m)
          else elim (call.open_backend true normalized) [
            | err e ↦ (err e, m)
            | ok b ↦
                let (saved, disk) = save_config call normalized call.now retention m.disk in
                elim saved [
                  | err e ↦ (err e, record m { disk = disk })
                  | ok _ ↦ (
                    ok tt,
                    record m {
                      config = normalized;
                      configured_at = call.now;
                      retention_versions = retention;
                      backend = some b;
                      disk = disk;
                    },
                  )
                ]
          ]
    ]
  ]

  -- `Test`
  unfoldable pub test_storage :
      ⦃u : Unicode⦄
      → ManagerCall B
      → HistoryStorageInput
      → HistoryManager B
      → Result StoreError (Unit {0})
  unfolding normalize_retention_versions normalize_history_storage_input
  test_storage call input m = elim (normalize_retention_versions input.retention_versions) [
    | err e ↦ err e
    | ok _ ↦ elim (normalize_history_storage_input m.default_local_file input) [
      | err e ↦ err e
      | ok normalized ↦ elim (call.open_backend false normalized) [
        | err e ↦ err e
        | ok b ↦ backend.close b
      ]
    ]
  ]

  unfoldable pub save_value :
      ValueSnapshot → HistoryManager B → Result StoreError (Unit {0}) × HistoryManager B
  save_value s m = elim m.backend [
    | none ↦ (err history_not_setup, m)
    | some b ↦
        let (saved, b') = backend.save s b in
        elim saved [
          | err e ↦ (err e, with_backend m b')
          | ok _ ↦ delegated m (backend.prune_key s.cluster_id s.entry.key m.retention_versions b')
        ]
  ]

  -- The event with what is missing of it filled in; `none` if there is no identifier.
  abbrev pub completed : ManagerCall B → AuditEvent → Option AuditEvent
  completed call event =
      let stamped : AuditEvent = record event {
        occurred_at = if eqb event.occurred_at 0 then call.now else event.occurred_at;
        result = if event.result == "" then "success" else event.result;
      } in
      if not (event.id == "")
      then some stamped
      else elim call.new_id [ none ↦ none | some id ↦ some (record stamped { id = id }) ]

  unfoldable pub save_event :
      ManagerCall B
      → AuditEvent
      → HistoryManager B
      → Result StoreError (Unit {0}) × HistoryManager B
  unfolding audit_cutoff
  save_event call event m = elim m.backend [
    | none ↦ (err history_not_setup, m)
    | some b ↦ elim (completed call event) [
      | none ↦ (err audit_log, m)
      | some e ↦
          let (saved, b') = backend.save_audit e b in
          elim saved [
            | err _ ↦ (err audit_log, with_backend m b')
            | ok _ ↦
                let (pruned, b'') = backend.prune_audit (audit_cutoff call.now) b' in
                (as_audit_error pruned, with_backend m b'')
          ]
    ]
  ]

  -- Nothing older than the retention is listed, whatever is asked for.
  unfoldable pub list_events :
      ManagerCall B → AuditWindow Q → HistoryManager B → Result StoreError P
  unfolding audit_cutoff
  list_events call query m = elim m.backend [
    | none ↦ err history_not_setup
    | some b ↦
        let cutoff = audit_cutoff call.now in
        let since : Time =
          if eqb query.since 0 || ltb query.since cutoff then cutoff else query.since in
        as_audit_error (backend.list_audit (record query { since = since }) b)
  ]

  unfoldable pub prune_events :
      Time → HistoryManager B → Result StoreError (Unit {0}) × HistoryManager B
  prune_events before m = elim m.backend [
    | none ↦ (err history_not_setup, m)
    | some b ↦
        let (pruned, b') = backend.prune_audit before b in
        (as_audit_error pruned, with_backend m b')
  ]

  unfoldable pub update_retention :
      ManagerCall B → ℤ → HistoryManager B → Result StoreError (Unit {0}) × HistoryManager B
  unfolding validate_retention_versions save_config
  update_retention call keep m = elim (validate_retention_versions keep) [
    | err e ↦ (err e, m)
    | ok _ ↦ if call.cancelled then (err StoreError.history_failed, m) else elim m.backend [
      | none ↦ (err history_not_setup, m)
      | some b ↦
          let (saved, disk) = save_config call m.config m.configured_at keep m.disk in
          elim saved [
            | err e ↦ (err e, record m { disk = disk })
            | ok _ ↦
                let (pruned, b') = backend.prune keep b in
                let m' : HistoryManager B = record m {
                  retention_versions = keep;
                  backend = some b';
                  disk = disk;
                } in
                elim pruned [ err e ↦ (err (local_history e), m') | ok _ ↦ (ok tt, m') ]
          ]
    ]
  ]

  unfoldable pub latest_value :
      String → Bytes → ℤ → HistoryManager B → Result StoreError (Option ValueSnapshot)
  latest_value cluster_id key before m = elim m.backend [
    | none ↦ err history_not_setup
    | some b ↦ backend.latest_before cluster_id key before b
  ]

  unfoldable pub list_values :
      String → Bytes → ℤ → ℤ → HistoryManager B → Result StoreError (List ValueSnapshot)
  list_values cluster_id key before limit m = elim m.backend [
    | none ↦ err history_not_setup
    | some b ↦ backend.list_before cluster_id key before limit b
  ]

  unfoldable pub prune_value :
      String → Bytes → ℤ → HistoryManager B → Result StoreError (Unit {0}) × HistoryManager B
  prune_value cluster_id key keep m = elim m.backend [
    | none ↦ (err history_not_setup, m)
    | some b ↦ delegated m (backend.prune_key cluster_id key keep b)
  ]

  unfoldable pub prune_values :
      ℤ → HistoryManager B → Result StoreError (Unit {0}) × HistoryManager B
  prune_values keep m = elim m.backend [
    | none ↦ (err history_not_setup, m)
    | some b ↦ delegated m (backend.prune keep b)
  ]

  unfoldable pub close_manager : HistoryManager B → Result StoreError (Unit {0}) × HistoryManager B
  close_manager m = elim m.backend [
    | none ↦ (ok tt, m)
    | some b ↦ (backend.close b, record m { backend = none })
  ]

  -- The retention of a stored configuration; version 1 had none.
  abbrev pub stored_retention : PersistedHistoryStorage → ℤ
  stored_retention p =
      if eqb_ℤ p.version (pos 1) then default_retention_versions else p.retention_versions

  -- `opened` is what opening and decoding the file gives: `none` if it does not exist.
  unfoldable pub load_manager :
      ⦃u : Unicode⦄
      → ManagerCall B
      → Option (Result StoreError PersistedHistoryStorage)
      → HistoryManager B
      → Result StoreError (Unit {0}) × HistoryManager B
  unfolding validate_retention_versions normalize_history_storage_input audit_cutoff
  load_manager call none m = (ok tt, m)
  load_manager call (some (err e)) m = (err e, m)
  load_manager call (some (ok p)) m =
      if not (eqb_ℤ p.version (pos 1)) && not (eqb_ℤ p.version history_storage_config_version)
      then (err StoreError.history_failed, m)
      else elim (validate_retention_versions (stored_retention p)) [
        | err e ↦ (err e, m)
        | ok _ ↦ elim (normalize_history_storage_input m.default_local_file p.storage) [
          | err e ↦ (err e, m)
          | ok normalized ↦ elim (call.open_backend true normalized) [
            | err e ↦ (err e, m)
            | ok b ↦
                let m' : HistoryManager B = record m {
                  config = normalized;
                  configured_at = p.configured_at;
                  retention_versions = stored_retention p;
                  backend = none;
                } in
                let (pruned, b') = backend.prune (stored_retention p) b in
                let (swept, b'') = backend.prune_audit (audit_cutoff call.now) b' in
                elim pruned [
                  | err e ↦ (err e, m')
                  | ok _ ↦ elim swept [ err e ↦ (err e, m') | ok _ ↦ (ok tt, with_backend m' b'') ]
                ]
          ]
        ]
      ]

  -- The manager as the handlers see it, in one call.
  unfoldable pub manager_storage : ManagerCall B → HistoryStorage (HistoryManager B)
  unfolding save_value list_values save_event
  manager_storage call = record {
    save = save_value;
    list_before = list_values;
    save_audit = save_event call;
  }

-- ===== src/Store/HistoryManager/Types.antt =====
-- The state of `HistoryManager` of internal/store/history_manager.go, its backend, and what its
-- surroundings decide. Calls come one after another.
use etcd_studio.Base.{◌*◌, String, Bool, Option, List, Result}
use etcd_studio.Base.Int.{ℤ, pos}
use etcd_studio.Base.Base64.{Bytes}
use etcd_studio.AtomicFile.{Step, Disk}
use etcd_studio.Auth.Types.{Time}
use etcd_studio.Store.Types.{ValueSnapshot, AuditEvent, StoreError}
use etcd_studio.Store.HistoryManager.Input.{HistoryStorageInput}

abbrev pub history_storage_config_version : ℤ
history_storage_config_version = pos 2

abbrev pub default_retention_versions : ℤ
default_retention_versions = pos 100

abbrev pub max_retention_versions : ℤ
max_retention_versions = pos 10000

-- 90 days
abbrev pub audit_retention : Time
audit_retention = 90 * 86400000000000

-- `persistedHistoryStorage`
pub record PersistedHistoryStorage : Type 0 where
  pub version : ℤ
  pub configured_at : Time
  pub storage : HistoryStorageInput
  pub retention_versions : ℤ

-- `AuditQuery` with the lower end of its time; the other conditions are only handed on.
pub record AuditWindow (Q : Type 0) : Type 0 where
  pub since : Time
  pub conditions : Q

-- `historyBackend`: the operations of an opened backend. `Q` and `P` are the conditions and the pages of
-- a query of the audit log.
pub record Backend (B Q P : Type 0) : Type 0 where
  pub save : ValueSnapshot → B → Result StoreError (Unit {0}) × B
  pub latest_before : String → Bytes → ℤ → B → Result StoreError (Option ValueSnapshot)
  pub list_before : String → Bytes → ℤ → ℤ → B → Result StoreError (List ValueSnapshot)
  pub prune_key : String → Bytes → ℤ → B → Result StoreError (Unit {0}) × B
  pub prune : ℤ → B → Result StoreError (Unit {0}) × B
  pub save_audit : AuditEvent → B → Result StoreError (Unit {0}) × B
  pub list_audit : AuditWindow Q → B → Result StoreError P
  pub prune_audit : Time → B → Result StoreError (Unit {0}) × B
  pub close : B → Result StoreError (Unit {0})

-- `disk` is the file at `configFile`.
pub record HistoryManager (B : Type 0) : Type 0 where
  pub default_local_file : String
  pub configured_at : Time
  pub config : HistoryStorageInput
  pub retention_versions : ℤ
  pub backend : Option B
  pub disk : Disk PersistedHistoryStorage

-- What the surroundings decide in one call: the clock, which steps of saving fail, what opening a backend
-- gives, with its tables set up or not, a new identifier of an event, and whether the context was cancelled.
pub record ManagerCall (B : Type 0) : Type 0 where
  pub now : Time
  pub fails : Step → Bool
  pub open_backend : Bool → HistoryStorageInput → Result StoreError B
  pub new_id : Option String
  pub cancelled : Bool

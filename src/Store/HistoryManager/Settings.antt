-- ===== src/Store/HistoryManager/Settings.antt =====
-- The helpers and `Status` of internal/store/history_manager.go.
use etcd_studio.Base.{
  ℕ, ◌-◌, code, ◌≡◌, refl, String, Bool, false, not, ◌&&◌, ◌||◌, ◌==◌, Option, none, some, eqb,
  if◌then◌else◌, Result, ok, err, is_some,
}
use etcd_studio.Base.Int.{ℤ, pos, ltb_ℤ}
use etcd_studio.AtomicFile.{Disk, replace_file}
use etcd_studio.Auth.Types.{Time}
use etcd_studio.Store.Types.{StoreError, history_config_save, history_retention, audit_log}
use etcd_studio.Store.History.Records.{append_text}
use etcd_studio.Store.HistoryManager.Input.{HistoryStorageInput, no_input, history_storage_local}
use etcd_studio.Store.HistoryManager.Types.{
  history_storage_config_version, default_retention_versions, max_retention_versions,
  audit_retention, PersistedHistoryStorage, HistoryManager, ManagerCall,
}

-- `auditCutoff`
unfoldable pub audit_cutoff : Time → Time
audit_cutoff now = now - audit_retention

unfoldable pub validate_retention_versions : ℤ → Result StoreError (Unit {0})
validate_retention_versions value =
    if ltb_ℤ value (pos 0) || ltb_ℤ max_retention_versions value
    then err history_retention
    else ok tt

unfoldable pub normalize_retention_versions : Option ℤ → Result StoreError ℤ
unfolding validate_retention_versions
normalize_retention_versions none = ok default_retention_versions
normalize_retention_versions (some value) = elim (validate_retention_versions value) [
  | err e ↦ err e
  | ok _ ↦ ok value
]

abbrev pub persisted : HistoryStorageInput → Time → ℤ → PersistedHistoryStorage
persisted config configured_at retention = record {
  version = history_storage_config_version;
  configured_at = configured_at;
  storage = config;
  retention_versions = retention;
}

-- Whether a path has a separator, and whether its last element has a dot.
abbrev in_last : String → Bool × Bool
in_last String.[] = (false, false)
in_last (String.◌∷◌ c s) =
    let (separated, dotted) = in_last s in
    (eqb (code c) b'/' || separated, dotted || (eqb (code c) b'.' && not separated))

-- `strings.TrimSuffix(path, filepath.Ext(path))`
abbrev without_extension : String → String
without_extension String.[] = String.[]
without_extension (String.◌∷◌ c s) =
    let rest = without_extension s in
    let (separated, dotted) = in_last s in
    if eqb (code c) b'.' && not separated && not dotted then String.[] else String.◌∷◌ c rest

-- `auditFilePath`
unfoldable pub audit_file_path : String → String
audit_file_path history_file = append_text (without_extension history_file) ".audit.jsonl"

pub record HistoryStorageStatus : Type 0 where
  pub configured : Bool
  pub configured_at : Time
  pub storage_type : String
  pub local_file : String
  pub default_local_file : String
  pub host : String
  pub port : ℤ
  pub database : String
  pub username : String
  pub password_configured : Bool
  pub tls_mode : String
  pub retention_versions : ℤ
  pub audit_file : String
  pub audit_retention_days : ℕ

-- `Status`
unfoldable pub storage_status : {B : Type 0} → HistoryManager B → HistoryStorageStatus
unfolding audit_file_path
storage_status m =
    let shown : HistoryStorageInput = elim m.backend [ none ↦ no_input | some _ ↦ m.config ] in
    record {
      configured = is_some m.backend;
      configured_at = m.configured_at;
      storage_type = shown.storage_type;
      local_file = shown.local_file;
      default_local_file = m.default_local_file;
      host = shown.host;
      port = shown.port;
      database = shown.database;
      username = shown.username;
      password_configured = not (shown.password == "");
      tls_mode = shown.tls_mode;
      retention_versions = m.retention_versions;
      audit_file =
          if shown.storage_type == history_storage_local
          then audit_file_path shown.local_file
          else "";
      audit_retention_days = 90;
    }

-- An error of the audit log, whatever it was.
abbrev pub as_audit_error : {A : Type 0} → Result StoreError A → Result StoreError A
as_audit_error (ok a) = ok a
as_audit_error (err e) = err audit_log

module _ {B : Type 0} where
  -- `saveConfig`: whether it worked, and the file afterwards.
  unfoldable pub save_config :
      ManagerCall B
      → HistoryStorageInput
      → Time
      → ℤ
      → Disk PersistedHistoryStorage
      → Result StoreError (Unit {0}) × Disk PersistedHistoryStorage
  save_config call config configured_at retention disk =
      let (stopped, disk') =
        replace_file call.fails (persisted config configured_at retention) disk in
      elim stopped [ none ↦ (ok tt, disk') | some _ ↦ (err history_config_save, disk') ]

  -- A manager with a backend.
  abbrev pub with_backend : HistoryManager B → B → HistoryManager B
  with_backend m b = record m { backend = some b }

  -- What a call returns, with the backend put back.
  abbrev pub delegated :
      {A : Type 0}
      → HistoryManager B
      → Result StoreError A × B
      → Result StoreError A × HistoryManager B
  delegated m (answer, b) = (answer, with_backend m b)

audit_path : audit_file_path "/data.d/history.jsonl" ≡ "/data.d/history.audit.jsonl"
unfolding audit_file_path
audit_path = refl

audit_path_bare : audit_file_path "/data.d/history" ≡ "/data.d/history.audit.jsonl"
unfolding audit_file_path
audit_path_bare = refl

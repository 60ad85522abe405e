-- ===== src/Store/HistoryManager/Input.antt =====
-- `HistoryStorageInput` of internal/store/store.go and its check in internal/store/history_manager.go.
use etcd_studio.Base.{
  String, Bool, not, ◌||◌, ◌==◌, Option, none, List, [], ◌∷◌, any, if◌then◌else◌, Result, ok, err,
}
use etcd_studio.Base.Int.{ℤ, pos, ltb_ℤ, eqb_ℤ}
use etcd_studio.Text.{Unicode, trim_space, to_lower}
use etcd_studio.Store.Types.{StoreError, history_setup}

pub record HistoryStorageInput : Type 0 where
  pub storage_type : String
  pub local_file : String
  pub host : String
  pub port : ℤ
  pub database : String
  pub username : String
  pub password : String
  pub tls_mode : String
  pub retention_versions : Option ℤ

abbrev pub history_storage_local : String
history_storage_local = "local"

abbrev pub history_storage_postgres : String
history_storage_postgres = "postgres"

abbrev pub history_storage_mysql : String
history_storage_mysql = "mysql"

abbrev pub no_input : HistoryStorageInput
no_input = record {
  storage_type = "";
  local_file = "";
  host = "";
  port = pos 0;
  database = "";
  username = "";
  password = "";
  tls_mode = "";
  retention_versions = none;
}

abbrev pub one_of : String → List String → Bool
one_of value allowed = any (λ candidate. value == candidate) allowed

abbrev pub postgres_modes : List String
postgres_modes = "disable" ∷ "prefer" ∷ "require" ∷ "verify-ca" ∷ "verify-full" ∷ []

abbrev pub mysql_modes : List String
mysql_modes = "disable" ∷ "preferred" ∷ "require" ∷ "skip-verify" ∷ []

-- A database: defaults for the port and the TLS mode, and the checks.
abbrev pub database_input :
    ℤ → String → List String → HistoryStorageInput → Result StoreError HistoryStorageInput
database_input default_port default_mode modes input =
    let port : ℤ = if eqb_ℤ input.port (pos 0) then default_port else input.port in
    let mode : String = if input.tls_mode == "" then default_mode else input.tls_mode in
    if not (one_of mode modes)
    then err history_setup
    else if input.host == "" || input.database == "" || input.username == ""
    then err history_setup
    else if ltb_ℤ port (pos 1) || ltb_ℤ (pos 65535) port
    then err history_setup
    else ok (record input { local_file = ""; port = port; tls_mode = mode })

-- A local file has nothing of a database.
abbrev pub local_input : String → HistoryStorageInput → HistoryStorageInput
local_input default_local_file input = record input {
  local_file = if input.local_file == "" then default_local_file else input.local_file;
  host = "";
  port = pos 0;
  database = "";
  username = "";
  password = "";
  tls_mode = "";
}

-- The three cases, after the fields were trimmed.
abbrev pub checked_input : String → HistoryStorageInput → Result StoreError HistoryStorageInput
checked_input default_local_file input =
    if input.storage_type == history_storage_local
    then ok (local_input default_local_file input)
    else if input.storage_type == history_storage_postgres
    then database_input (pos 5432) "require" postgres_modes input
    else if input.storage_type == history_storage_mysql
    then database_input (pos 3306) "preferred" mysql_modes input
    else err history_setup

module _ ⦃u : Unicode⦄ where
  abbrev pub trimmed_input : HistoryStorageInput → HistoryStorageInput
  trimmed_input input = record input {
    storage_type = to_lower (trim_space input.storage_type);
    local_file = trim_space input.local_file;
    host = trim_space input.host;
    database = trim_space input.database;
    username = trim_space input.username;
    tls_mode = to_lower (trim_space input.tls_mode);
  }

  unfoldable pub normalize_history_storage_input :
      String → HistoryStorageInput → Result StoreError HistoryStorageInput
  unfolding to_lower trim_space
  normalize_history_storage_input default_local_file input =
      checked_input default_local_file (trimmed_input input)

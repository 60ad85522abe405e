-- ===== src/Store/Types.antt =====
-- The values of internal/store/store.go that other files of the package share.
use etcd_studio.Base.{String, List}
use etcd_studio.Base.Int.{ℤ}
use etcd_studio.Base.Base64.{Bytes}
use etcd_studio.Auth.Types.{Time}

pub record Entry : Type 0 where
  pub key : Bytes
  pub value : Bytes
  pub create_revision : ℤ
  pub mod_revision : ℤ
  pub version : ℤ
  pub lease : ℤ

pub record ValueSnapshot : Type 0 where
  pub cluster_id : String
  pub entry : Entry
  pub captured_at : Time

-- `Page`: one range of keys in the order of their bytes.
pub record Page : Type 0 where
  pub entries : List Entry
  pub next_cursor : Bytes

-- What comes of a call of the etcd client that fails.
pub data ClientError : Type 0 where
  compacted deadline_exceeded unavailable : ClientError

-- The errors of the package that callers tell apart, without their texts; `local_history`
-- wraps another.
pub data StoreError : Type 0 where
  conflict cluster_not_found history_compacted no_previous_version : StoreError
  history_not_setup history_setup history_configured history_config_save : StoreError
  history_retention history_failed audit_log bad_limit bad_cursor : StoreError
  client_failed : ClientError → StoreError
  local_history : StoreError → StoreError

-- `AuditEvent`: one operation that changed something.
pub record AuditEvent : Type 0 where
  pub id : String
  pub occurred_at : Time
  pub actor : String
  pub actor_type : String
  pub client_ip : String
  pub action : String
  pub resource_type : String
  pub cluster_id : String
  pub cluster_name : String
  pub target : String
  pub detail : String
  pub result : String

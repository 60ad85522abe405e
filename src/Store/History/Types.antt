-- ===== src/Store/History/Types.antt =====
-- The state of a `FileHistory` and what its surroundings decide. A file is its complete lines and what
-- stands after the last newline.
use etcd_studio.Base.{ℕ, ◌*◌, String, Bool, Option, List, Result}
use etcd_studio.Base.Int.{ℤ, pos}
use etcd_studio.Auth.Types.{Time}
use etcd_studio.Store.Types.{ValueSnapshot}

-- `historyRecord`
pub record HistoryRecord : Type 0 where
  pub format_version : ℤ
  pub cluster_id : String
  pub key_base64 : String
  pub value_base64 : String
  pub create_revision : ℤ
  pub mod_revision : ℤ
  pub key_version : ℤ
  pub lease : ℤ
  pub captured_at : Time

abbrev pub history_record_version : ℤ
history_record_version = pos 1

abbrev pub max_history_record_size : ℕ
max_history_record_size = 8 * 1048576

pub data HistoryError : Type 0 where
  empty_path open_failed chmod_failed : HistoryError
  empty_cluster_id empty_key bad_revision : HistoryError
  closed encode_failed too_large seek_failed append_failed sync_failed : HistoryError
  read_failed decode_failed unsupported_format truncate_failed : HistoryError
  replace_failed reopen_failed close_failed panicked : HistoryError

pub record File : Type 0 where
  pub lines : List String
  pub tail : String

-- `h.file`: the file under the history's name, a file that has lost its name, or nothing.
pub data Handle : Type 0 where
  shut : Handle
  linked : Handle
  detached : File → Handle

-- The maps are association lists; `published` is the file under the history's name.
pub record FileHistory : Type 0 where
  pub handle : Handle
  pub published : File
  pub entries : List (String × List ValueSnapshot)
  pub seen : List String
  -- what `Close` returned, once it was called
  pub close_result : Option (Result HistoryError (Unit {0}))

-- encoding/json on records: a line without its newline. `marshal` fails on a time that JSON cannot
-- hold; `unmarshal` refuses unknown fields.
pub record Json : Type 0 where
  pub marshal : HistoryRecord → Option String
  pub unmarshal : String → Option HistoryRecord

-- What comes of one write: all of it, or a text without its newline and an error.
pub data Write : Type 0 where
  written : Write
  cut : String → Write

-- The steps of a replacement of the file.
pub data ReplaceStep : Type 0 where
  create_temp chmod_temp write_temp flush_temp sync_temp close_temp rename reopen close_old :
      ReplaceStep

-- What the surroundings decide in one call.
pub record HistoryCall : Type 0 where
  pub now : Time
  pub seek_fails : Bool
  pub write : Write
  pub sync_fails : Bool
  pub truncate_fails : Bool
  pub fails : ReplaceStep → Bool

-- What the surroundings decide while the file is read; a read may fail after some lines.
pub record LoadCall : Type 0 where
  pub seek_start_fails : Bool
  pub read_fails_after : Option ℕ
  pub truncate_fails : Bool
  pub seek_end_fails : Bool

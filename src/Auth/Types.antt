-- ===== src/Auth/Types.antt =====
-- The types and constants of internal/auth/manager.go. Times are nanoseconds since Go's zero time,
-- so that 0 is the zero time and `UTC()` changes nothing.
use etcd_studio.Base.{ℕ, ◌*◌, String, Bool, Option, List}
use etcd_studio.Base.Int.{ℤ, pos}
use etcd_studio.AtomicFile.{Step, Disk}

abbrev pub Time : Type 0
Time = ℕ

abbrev pub mode_local : String
mode_local = "local"

abbrev pub mode_ldap : String
mode_ldap = "ldap"

abbrev pub mode_both : String
mode_both = "both"

abbrev pub provider_local : String
provider_local = "local"

abbrev pub provider_ldap : String
provider_ldap = "ldap"

abbrev pub role_admin : String
role_admin = "admin"

abbrev pub role_operator : String
role_operator = "operator"

-- 12 hours
abbrev pub session_duration : Time
session_duration = 43200 * 1000000000

abbrev pub minimum_password_length : ℕ
minimum_password_length = 10

abbrev pub auth_config_version : ℤ
auth_config_version = pos 1

-- The errors, without their texts; the last four wrap an error of a call.
pub data AuthError : Type 0 where
  not_configured already_configured invalid_input invalid_credentials provider_disabled : AuthError
  user_exists user_not_found last_admin password_unchanged : AuthError
  password_change_not_required : AuthError
  unsupported_config invalid_stored_mode invalid_stored_user : AuthError
  hash_failed random_failed open_failed decode_failed : AuthError
  save_failed : Step → AuthError

pub record Principal : Type 0 where
  pub username : String
  pub display_name : String
  pub provider : String
  pub role : String
  pub cluster_ids : List String
  pub must_change_password : Bool

pub record User : Type 0 where
  pub username : String
  pub display_name : String
  pub role : String
  pub active : Bool
  pub cluster_ids : List String
  pub must_change_password : Bool
  pub created_at : Time
  pub updated_at : Time

pub record LocalUserInput : Type 0 where
  pub username : String
  pub display_name : String
  pub password : String
  pub role : String
  pub active : Option Bool
  pub cluster_ids : List String

pub record LdapSettingsInput : Type 0 where
  pub host : String
  pub port : ℤ
  pub tls_mode : String
  pub ca_file : String
  pub server_name : String
  pub base_dn : String
  pub bind_dn : String
  pub bind_password : Option String
  pub user_filter : String
  pub user_dn_template : String
  pub username_attribute : String
  pub display_name_attribute : String
  pub admin_usernames : List String

pub record SettingsInput : Type 0 where
  pub mode : String
  pub ldap : LdapSettingsInput

pub record PersistedUser : Type 0 where
  pub user : User
  pub open user use *
  pub password_hash : String

pub record LdapSettings : Type 0 where
  pub host : String
  pub port : ℤ
  pub tls_mode : String
  pub ca_file : String
  pub server_name : String
  pub base_dn : String
  pub bind_dn : String
  pub bind_password : String
  pub user_filter : String
  pub user_dn_template : String
  pub username_attribute : String
  pub display_name_attribute : String
  pub admin_usernames : List String

pub record PersistedConfig : Type 0 where
  pub version : ℤ
  pub configured_at : Time
  pub mode : String
  pub ldap : LdapSettings
  pub users : List PersistedUser

-- The settings without the bind password.
pub record LdapSettingsStatus : Type 0 where
  pub host : String
  pub port : ℤ
  pub tls_mode : String
  pub ca_file : String
  pub server_name : String
  pub base_dn : String
  pub bind_dn : String
  pub bind_password_configured : Bool
  pub user_filter : String
  pub user_dn_template : String
  pub username_attribute : String
  pub display_name_attribute : String
  pub admin_usernames : List String

pub record SettingsStatus : Type 0 where
  pub configured_at : Time
  pub mode : String
  pub ldap : LdapSettingsStatus

pub record Status : Type 0 where
  pub configured : Bool
  pub local_enabled : Bool
  pub ldap_enabled : Bool
  pub authenticated : Bool
  pub user : Option Principal

pub record Session : Type 0 where
  pub principal : Principal
  pub expires_at : Time

-- `disk` is the file at `filePath`; the timeout and the paths are only handed on to other packages.
pub record Manager : Type 0 where
  pub config : PersistedConfig
  pub configured : Bool
  pub sessions : String → Option Session
  pub disk : Disk PersistedConfig

-- What the surroundings decide in one call: the time, which steps of writing the file fail, and
-- what `bcrypt.GenerateFromPassword` returns.
pub record Call : Type 0 where
  pub now : Time
  pub fails : Step → Bool
  pub generate : String → Option String

-- bcrypt and SHA-256: `bcrypt_matches hash password` is `CompareHashAndPassword(…) == nil`.
pub record Crypto : Type 0 where
  pub bcrypt_matches : String → String → Bool
  pub sha256_hex : String → String

-- The zero values of Go.
abbrev pub no_ldap : LdapSettings
no_ldap = record {
  host = "";
  port = pos 0;
  tls_mode = "";
  ca_file = "";
  server_name = "";
  base_dn = "";
  bind_dn = "";
  bind_password = "";
  user_filter = "";
  user_dn_template = "";
  username_attribute = "";
  display_name_attribute = "";
  admin_usernames = List.[];
}

abbrev pub no_config : PersistedConfig
no_config = record {
  version = pos 0;
  configured_at = 0;
  mode = "";
  ldap = no_ldap;
  users = List.[];
}

-- ===== src/Store/Registry/Types.antt =====
-- The types of internal/store/registry.go. A client is a number that tells connections apart.
use etcd_studio.Base.{ℕ, String, Bool, Option, List}
use etcd_studio.Base.Int.{ℤ, pos}
use etcd_studio.AtomicFile.{Step, Disk}
use etcd_studio.Auth.Types.{Time}

pub record Cluster : Type 0 where
  pub id : String
  pub name : String
  pub endpoints : List String
  pub username : String
  pub password : String
  pub tls_ca_file : String
  pub tls_cert_file : String
  pub tls_key_file : String
  pub created_at : Time
  pub updated_at : Time

pub record ClusterInput : Type 0 where
  pub name : String
  pub endpoints : List String
  pub username : String
  pub password : Option String
  pub tls_ca_file : String
  pub tls_cert_file : String
  pub tls_key_file : String

pub record ManagedCluster : Type 0 where
  pub config : Cluster
  pub client : Option ℕ

pub record ClusterFile : Type 0 where
  pub version : ℤ
  pub clusters : List Cluster

abbrev pub cluster_file_version : ℤ
cluster_file_version = pos 1

pub data ClusterError : Type 0 where
  invalid_cluster cluster_not_found cluster_name_exists id_failed close_failed : ClusterError
  open_failed decode_failed unsupported_version empty_id duplicate_id : ClusterError
  save_failed : Step → ClusterError

-- `disk` is the file at `filePath`.
pub record Registry : Type 0 where
  pub clusters : List (String × ManagedCluster)
  pub disk : Disk ClusterFile

-- What `url.Parse` finds: the scheme, the host and whether there is user information.
pub record Url : Type 0 where
  pub scheme : String
  pub host : String
  pub has_user : Bool

-- Package net/url; `none` is an error.
pub record Urls : Type 0 where
  pub parse : String → Option Url

-- What the surroundings decide in one call: the clock, which steps of saving fail, the new identifier and
-- whether closing a client fails.
pub record RegistryCall : Type 0 where
  pub now : Time
  pub fails : Step → Bool
  pub new_id : Option String
  pub close_fails : ℕ → Bool

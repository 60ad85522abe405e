-- ===== src/App/Server.antt =====
-- `Server` of internal/app/server.go and what its handlers read from a request and from outside.
use etcd_studio.Base.{ℕ, String, Bool, Option, List, Result}
use etcd_studio.Auth.Types.{Time, Principal}
use etcd_studio.Store.Types.{AuditEvent}
use etcd_studio.Store.Kv.{Kv, HistoryStorage}
use etcd_studio.Store.Registry.Types.{Cluster, ClusterError}

-- What changes: the world of the etcd clusters, the history with the audit log, and the audit events
-- that wait for a history.
pub record Server (W H : Type 0) : Type 0 where
  pub world : W
  pub history : H
  pub pending_audit : List AuditEvent

-- What does not change in a request: whether `s.auth` is set, the client of a cluster, the history's
-- operations, and the time at which the clock is looked at for the first, the second, ... time.
pub record Setup (W H : Type 0) : Type 0 where
  pub auth_enabled : Bool
  pub cluster_kv : String → Result ClusterError (Kv W × Cluster)
  pub storage : HistoryStorage H
  pub clock : ℕ → Time

-- A request: the principal of its context, `RemoteAddr` with the host that `net.SplitHostPort` finds in
-- it after its spaces were cut off, and the headers X-Authenticated-User and X-Forwarded-User.
pub record Request : Type 0 where
  pub principal : Option Principal
  pub remote_addr : String
  pub remote_host : Option String
  pub authenticated_user : String
  pub forwarded_user : String

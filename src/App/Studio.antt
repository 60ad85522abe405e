-- ===== src/App/Studio.antt =====
-- The server of internal/app/server.go with the two components that its handlers on users and clusters
-- change besides: the manager of accounts and the registry of clusters.
use etcd_studio.Base.{String, ok, err}
use etcd_studio.Text.{Unicode}
use etcd_studio.Auth.Types.{Manager, Principal}
use etcd_studio.Auth.Manager.Storage.{Outcome}
use etcd_studio.Store.Types.{AuditEvent}
use etcd_studio.Store.Kv.{HistoryStorage}
use etcd_studio.Store.Registry.Types.{Registry}
use etcd_studio.App.Answers.{Answer, answered, write_auth_error}
use etcd_studio.App.Server.{Server, Request}
use etcd_studio.App.Audit.{record_audit_for_principal}

pub record Studio (W H : Type 0) : Type 0 where
  pub manager : Manager
  pub registry : Registry
  pub server : Server W H

-- An event as a handler fills it in; the other fields are filled in when it is recorded.
abbrev pub event_on : String → String → String → String → AuditEvent
event_on action resource_type target detail = record {
  id = "";
  occurred_at = 0;
  actor = "";
  actor_type = "";
  client_ip = "";
  action = action;
  resource_type = resource_type;
  cluster_id = "";
  cluster_name = "";
  target = target;
  detail = detail;
  result = "";
}

module _ ⦃u : Unicode⦄ {W H : Type 0} (storage : HistoryStorage H) where
  -- The end of a handler that called the manager: the error, or the event and the answer.
  abbrev pub concluded :
      {A : Type 0}
      → Request
      → Principal
      → (A → AuditEvent)
      → Outcome A
      → Studio W H
      → Answer A × Studio W H
  concluded r p event (err e, m) s = (write_auth_error e, record s { manager = m })
  concluded r p event (ok a, m) s = (
    answered a,
    record s { manager = m; server = record_audit_for_principal storage r p (event a) s.server },
  )

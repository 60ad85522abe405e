-- ===== src/Store/HistoryManager/Restart.antt =====
-- Sequences of calls of `HistoryManager`, internal/store/history_manager.go, and what a restart finds of
-- them.
use etcd_studio.Base.{
  String, false, ◌≡◌, inl, inr, List, [], ◌∷◌, All, Result, Result-cases, Option-cases,
}
use etcd_studio.Base.Int.{ℤ}
use etcd_studio.Base.Base64.{Bytes}
use etcd_studio.Text.{Unicode}
use etcd_studio.AtomicFile.{chmod}
use etcd_studio.Auth.Types.{Time}
use etcd_studio.Store.Types.{ValueSnapshot, AuditEvent, StoreError}
use etcd_studio.Store.HistoryManager.Input.{HistoryStorageInput}
use etcd_studio.Store.HistoryManager.Types.{Backend, HistoryManager, ManagerCall}
use etcd_studio.Store.HistoryManager.Settings.{audit_cutoff}
use etcd_studio.Store.HistoryManager.Operations.{
  configure, save_value, completed, save_event, prune_events, update_retention, prune_value,
  prune_values, close_manager,
}
use etcd_studio.Store.HistoryManager.Kept.{
  IsKept, IsKept-with_backend, configure-IsKept, update_retention-IsKept,
}

-- The calls that change a manager.
pub data Request : Type 0 where
  configured : HistoryStorageInput → Request
  saved : ValueSnapshot → Request
  recorded : AuditEvent → Request
  swept : Time → Request
  retained : ℤ → Request
  pruned_key : String → Bytes → ℤ → Request
  pruned_all : ℤ → Request
  closed : Request

module _ {B Q P : Type 0} (backend : Backend B Q P) ⦃u : Unicode⦄ where
  unfoldable pub run :
      ManagerCall B → Request → HistoryManager B → Result StoreError (Unit {0}) × HistoryManager B
  unfolding configure save_value save_event prune_events update_retention prune_value prune_values
      close_manager
  run call (configured input) m = configure backend call input m
  run call (saved s) m = save_value backend s m
  run call (recorded event) m = save_event backend call event m
  run call (swept before) m = prune_events backend before m
  run call (retained keep) m = update_retention backend call keep m
  run call (pruned_key cluster_id key keep) m = prune_value backend cluster_id key keep m
  run call (pruned_all keep) m = prune_values backend keep m
  run call closed m = close_manager backend m

  -- One call after another, whatever each returns.
  abbrev pub run_all : List (ManagerCall B × Request) → HistoryManager B → HistoryManager B
  run_all [] m = m
  run_all ((call, request) ∷ rest) m = run_all rest (run call request m).1

  save_value-IsKept :
      (s : ValueSnapshot) (m : HistoryManager B) → IsKept m → IsKept (save_value backend s m).1
  unfolding save_value
  save_value-IsKept s m h = elim (Option-cases m.backend) [
    | inl unset ↦ rw (unset, save_value) h
    | inr (b, set) ↦ elim (Result-cases (backend.save s b).0) [
      | inl (e, failed) ↦ rw (set, failed, save_value) (IsKept-with_backend m b _ set h)
      | inr (_, done) ↦ rw (set, done, save_value) (IsKept-with_backend m b _ set h)
    ]
  ]

  save_event-IsKept :
      (call : ManagerCall B) (event : AuditEvent) (m : HistoryManager B)
      → IsKept m
      → IsKept (save_event backend call event m).1
  unfolding save_event
  save_event-IsKept call event m h = elim (Option-cases m.backend) [
    | inl unset ↦ rw (unset, save_event) h
    | inr (b, set) ↦ elim (Option-cases (completed backend call event)) [
      | inl unnamed ↦ rw (set, unnamed, save_event) h
      | inr (e, named) ↦ elim (Result-cases (backend.save_audit e b).0) [
        | inl (x, failed) ↦ rw (set, named, failed, save_event) (IsKept-with_backend m b _ set h)
        | inr (_, done) ↦ rw (set, named, done, save_event) (IsKept-with_backend m b _ set h)
      ]
    ]
  ]

  run-IsKept :
      (call : ManagerCall B) (request : Request) (m : HistoryManager B)
      → call.fails chmod ≡ false
      → IsKept m
      → IsKept (run call request m).1
  unfolding run prune_events prune_value prune_values close_manager
  run-IsKept call (configured input) m works h = configure-IsKept backend call input m works h
  run-IsKept call (saved s) m works h = save_value-IsKept s m h
  run-IsKept call (recorded event) m works h = save_event-IsKept call event m h
  run-IsKept call (swept before) m works h = elim (Option-cases m.backend) [
    | inl unset ↦ rw (unset, prune_events) h
    | inr (b, set) ↦ rw (set, prune_events) (IsKept-with_backend m b _ set h)
  ]
  run-IsKept call (retained keep) m works h = update_retention-IsKept backend call keep m works h
  run-IsKept call (pruned_key cluster_id key keep) m works h = elim (Option-cases m.backend) [
    | inl unset ↦ rw (unset, prune_value) h
    | inr (b, set) ↦ rw (set, prune_value) (IsKept-with_backend m b _ set h)
  ]
  run-IsKept call (pruned_all keep) m works h = elim (Option-cases m.backend) [
    | inl unset ↦ rw (unset, prune_values) h
    | inr (b, set) ↦ rw (set, prune_values) (IsKept-with_backend m b _ set h)
  ]
  run-IsKept call closed m works h = elim (Option-cases m.backend) [
    | inl unset ↦ rw (unset, close_manager) h
    | inr (b, set) ↦
        rw (set, close_manager)
          (record {
            retention = h.retention;
            default_given = h.default_given;
            checked = λ set'. absurd (cc set');
            stored = λ set'. absurd (cc set');
          })
  ]

  -- Every sequence of calls in which the last chmod of saving works keeps: the number of versions is from
  -- 0 to 10000, and while a backend is open the configuration has passed the check and the file holds what
  -- is in memory.
  pub run_all-IsKept :
      (calls : List (ManagerCall B × Request)) (m : HistoryManager B)
      → All (λ (c : ManagerCall B × Request). c.0.fails chmod ≡ false) calls
      → IsKept m
      → IsKept (run_all calls m)
  run_all-IsKept [] m works h = h
  run_all-IsKept ((call, request) ∷ rest) m works h =
      run_all-IsKept rest (run call request m).1 works.1 (run-IsKept call request m works.0 h)

  -- A backend after the pruning of a start: first its values, then its events.
  abbrev pub tidied : ManagerCall B → ℤ → B → B
  tidied call keep b = (backend.prune_audit (audit_cutoff call.now) (backend.prune keep b).1).1

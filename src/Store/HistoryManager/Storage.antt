-- ===== src/Store/HistoryManager/Storage.antt =====
-- `HistoryManager` of internal/store/history_manager.go as the history that the handlers call.
use etcd_studio.Base.{
  String, ◌≡◌, ◌⊎◌, inl, inr, refl, sym, some, some_inj, ok, Result-cases, Option-cases, arith,
}
use mathlib.Core.Path.{subst}
use etcd_studio.Base.Int.{ℤ, ◌≤ℤ◌}
use etcd_studio.Base.Base64.{Bytes}
use etcd_studio.Auth.Types.{Time}
use etcd_studio.Store.Types.{ValueSnapshot, AuditEvent}
use etcd_studio.Store.Kv.{IsStorage}
use etcd_studio.Store.HistoryManager.Types.{Backend, HistoryManager, ManagerCall}
use etcd_studio.Store.HistoryManager.Settings.{audit_cutoff}
use etcd_studio.Store.HistoryManager.Operations.{completed, save_value, save_event, manager_storage}

-- What a backend promises, where `Has cluster_id key revision b` says that it has a snapshot of a key of a
-- cluster at a revision.
pub record IsBackend {B Q P : Type 0} (backend : Backend B Q P)
    (Has : String → Bytes → ℤ → B → Type 0) : Type 0 where
  pub saved :
      (s : ValueSnapshot) (b : B)
      → (backend.save s b).0 ≡ ok tt
      → Has s.cluster_id s.entry.key s.entry.mod_revision (backend.save s b).1
  pub grows :
      (s : ValueSnapshot) (cluster_id : String) (key : Bytes) (revision : ℤ) (b : B)
      → Has cluster_id key revision (backend.save s b).1
      → Has cluster_id key revision b ⊎ (revision ≡ s.entry.mod_revision)
  -- Pruning a key leaves its newest snapshot; a negative number of versions is never asked for.
  pub pruned :
      (cluster_id : String) (key : Bytes) (revision keep : ℤ) (b : B)
      → Has cluster_id key revision b
      → ((other : ℤ) → Has cluster_id key other b → other ≤ℤ revision)
      → Has cluster_id key revision (backend.prune_key cluster_id key keep b).1
  pub shrinks :
      (cluster_id : String) (key : Bytes) (revision : ℤ) (of : String) (on : Bytes) (keep : ℤ)
      (b : B)
      → Has cluster_id key revision (backend.prune_key of on keep b).1
      → Has cluster_id key revision b
  pub events_apart :
      (event : AuditEvent) (cluster_id : String) (key : Bytes) (revision : ℤ) (b : B)
      → Has cluster_id key revision b
      → Has cluster_id key revision (backend.save_audit event b).1
  pub sweeps_apart :
      (before : Time) (cluster_id : String) (key : Bytes) (revision : ℤ) (b : B)
      → Has cluster_id key revision b
      → Has cluster_id key revision (backend.prune_audit before b).1

-- The backend of a manager has it.
abbrev pub Holds :
    {B : Type 0}
    → (String → Bytes → ℤ → B → Type 0)
    → String
    → Bytes
    → ℤ
    → HistoryManager B
    → Type 0
Holds {B} Has cluster_id key revision m =
    (b : B) × (m.backend ≡ some b) × Has cluster_id key revision b

module _ {B Q P : Type 0} (backend : Backend B Q P) (Has : String → Bytes → ℤ → B → Type 0)
    (promises : IsBackend backend Has) (call : ManagerCall B) where
  save_value-Holds :
      (s : ValueSnapshot) (m : HistoryManager B)
      → ((revision : ℤ)
          → Holds Has s.cluster_id s.entry.key revision m
          → revision ≤ℤ s.entry.mod_revision)
      → (save_value backend s m).0 ≡ ok tt
      → Holds Has s.cluster_id s.entry.key s.entry.mod_revision (save_value backend s m).1
  unfolding save_value
  save_value-Holds s m newest done = elim (Option-cases m.backend) [
    | inl unset ↦ absurd (cc (rw (unset, save_value) at done))
    | inr (b, set) ↦ elim (Result-cases (backend.save s b).0) [
      | inl (e, refused) ↦ absurd (cc (rw (set, refused, save_value) at done))
      | inr (_, saved) ↦
          let b' = (backend.save s b).1 in
          rw (set, saved, save_value)
            (
              (backend.prune_key s.cluster_id s.entry.key m.retention_versions b').1,
              refl,
              promises.pruned s.cluster_id s.entry.key s.entry.mod_revision m.retention_versions b'
                  (promises.saved s b saved)
                  (λ other held. elim (promises.grows s s.cluster_id s.entry.key other b held) [
                    | inl before ↦ newest other (b, set, before)
                    | inr same ↦ rw same (omega arith)
                  ]),
            )
    ]
  ]

  save_value-grows :
      (s : ValueSnapshot) (cluster_id : String) (key : Bytes) (revision : ℤ) (m : HistoryManager B)
      → Holds Has cluster_id key revision (save_value backend s m).1
      → Holds Has cluster_id key revision m ⊎ (revision ≡ s.entry.mod_revision)
  unfolding save_value
  save_value-grows s cluster_id key revision m held = elim (Option-cases m.backend) [
    | inl unset ↦ inl (rw (unset, save_value) at held)
    | inr (b, set) ↦
        let b' = (backend.save s b).1 in
        let before : Has cluster_id key revision b'
            → Holds Has cluster_id key revision m ⊎ (revision ≡ s.entry.mod_revision) =
          λ has. elim (promises.grows s cluster_id key revision b has) [
            | inl old ↦ inl (b, set, old)
            | inr same ↦ inr same
          ] in
        elim (Result-cases (backend.save s b).0) [
          | inl (e, refused) ↦
              let (x, is, has) = rw (set, refused, save_value) at held in
              before (subst (Has cluster_id key revision) (sym (some_inj is)) has)
          | inr (_, saved) ↦
              let (x, is, has) = rw (set, saved, save_value) at held in
              before (
                promises.shrinks cluster_id key revision s.cluster_id s.entry.key
                  m.retention_versions b'
                  (subst (Has cluster_id key revision) (sym (some_inj is)) has))
        ]
  ]

  save_event-keeps :
      (event : AuditEvent) (cluster_id : String) (key : Bytes) (revision : ℤ) (m : HistoryManager B)
      → Holds Has cluster_id key revision m
      → Holds Has cluster_id key revision (save_event backend call event m).1
  unfolding save_event
  save_event-keeps event cluster_id key revision m (b, set, has) =
      elim (Option-cases (completed backend call event)) [
        | inl unnamed ↦ rw (set, unnamed, save_event) (b, set, has)
        | inr (e, named) ↦
            let has' = promises.events_apart e cluster_id key revision b has in
            let b' = (backend.save_audit e b).1 in
            elim (Result-cases (backend.save_audit e b).0) [
              | inl (x, refused) ↦ rw (set, named, refused, save_event) (b', refl, has')
              | inr (_, saved) ↦
                  rw (set, named, saved, save_event)
                    (
                      (backend.prune_audit (audit_cutoff call.now) b').1,
                      refl,
                      promises.sweeps_apart (audit_cutoff call.now) cluster_id key revision b' has',
                    )
            ]
      ]

  -- Over a backend that keeps its promises the manager is a history as the handlers need it: a snapshot
  -- that it saves as the newest of its key is found, in spite of the pruning that follows, a save adds
  -- no other revision, and events take no snapshot away.
  pub manager_storage-IsStorage : IsStorage (manager_storage backend call) (Holds Has)
  unfolding manager_storage
  manager_storage-IsStorage = record {
    saved = save_value-Holds;
    grows = save_value-grows;
    audit_keeps = save_event-keeps;
  }

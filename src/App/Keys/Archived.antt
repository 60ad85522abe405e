-- ===== src/App/Keys/Archived.antt =====
-- What `archiveCurrent` and the recording of audit events, internal/app/server.go, do to the history.
use etcd_studio.Base.{
  String, false, ◌≡◌, ◌⊎◌, inl, inr, refl, Option, none, some, Result, ok, err, Bool-cases,
  Option-cases, Result-cases,
}
use etcd_studio.Base.Int.{ℤ}
use etcd_studio.Base.Base64.{Bytes}
use etcd_studio.Text.{Unicode}
use etcd_studio.Auth.Types.{Time}
use etcd_studio.Store.Types.{Entry, ValueSnapshot, AuditEvent, StoreError}
use etcd_studio.Store.Kv.{Kv, HistoryStorage}
use etcd_studio.App.Answers.{is_not_setup}
use etcd_studio.App.Server.{Server, Request}
use etcd_studio.App.Audit.{save_audit_event, record_audit, record_audit_for_principal}
use etcd_studio.App.Versions.{differs, save_snapshot, archive_current}

abbrev pub snapshot : String → Entry → Time → ValueSnapshot
snapshot cluster_id entry now = record { cluster_id = cluster_id; entry = entry; captured_at = now }

module _ {H : Type 0} (storage : HistoryStorage H) where
  pub save_snapshot-history :
      (cluster_id : String) (entry : Entry) (now : Time) (h : H)
      → (save_snapshot storage cluster_id entry now h).1
        ≡ (storage.save (snapshot cluster_id entry now) h).1
  unfolding save_snapshot
  save_snapshot-history cluster_id entry now h =
      elim (Result-cases (storage.save (snapshot cluster_id entry now) h).0) [
        | inl (e, unsaved) ↦ rw (unsaved, save_snapshot) refl
        | inr (_, done) ↦ rw (done, save_snapshot) refl
      ]

  pub save_snapshot-cases :
      (cluster_id : String) (entry : Entry) (now : Time) (h : H)
      → let s = snapshot cluster_id entry now in
        ((e : StoreError) × ((save_snapshot storage cluster_id entry now h).0 ≡ err e))
        ⊎ ((storage.save s h).0 ≡ ok tt)
          × ((save_snapshot storage cluster_id entry now h).0 ≡ ok tt)
          × ((save_snapshot storage cluster_id entry now h).1 ≡ (storage.save s h).1)
  unfolding save_snapshot
  save_snapshot-cases cluster_id entry now h =
      elim (Result-cases (storage.save (snapshot cluster_id entry now) h).0) [
        | inl (e, unsaved) ↦ inl (StoreError.local_history e, rw (unsaved, save_snapshot) refl)
        | inr (_, done) ↦ inr (done, rw (done, save_snapshot) refl, rw (done, save_snapshot) refl)
      ]

module _ {W H : Type 0} (kv : Kv W) (storage : HistoryStorage H) where
  -- The three ends of `archiveCurrent`: an error, no entry, or the entry, which is as expected and was
  -- saved. The cluster is read only.
  pub data ArchiveEnd (cluster_id : String) (key : Bytes) (expected : Option ℤ) (now : Time) (h : H)
      (w : W) : Result StoreError (Option Entry) × H × W → Type 0 where
    failed :
        (e : StoreError) (h' : H)
        → ArchiveEnd cluster_id key expected now h w (err e, h', (kv.get key w).1)
    absent :
        (kv.get key w).0 ≡ ok none
        → ArchiveEnd cluster_id key expected now h w (ok none, h, (kv.get key w).1)
    archived :
        (current : Entry)
        → (kv.get key w).0 ≡ ok (some current)
        → differs expected current ≡ false
        → (storage.save (snapshot cluster_id current now) h).0 ≡ ok tt
        → ArchiveEnd cluster_id key expected now h w (
          ok (some current),
          (storage.save (snapshot cluster_id current now) h).1,
          (kv.get key w).1,
        )

  pub archive_current-ArchiveEnd :
      (cluster_id : String) (key : Bytes) (expected : Option ℤ) (now : Time) (h : H) (w : W)
      → ArchiveEnd cluster_id key expected now h w
          (archive_current kv storage cluster_id key expected now h w)
  unfolding archive_current
  archive_current-ArchiveEnd cluster_id key expected now h w =
      elim (Result-cases (kv.get key w).0) [
        | inl (e, unread) ↦ rw (unread, archive_current) (failed e h)
        | inr (none, missing) ↦ rw (missing, archive_current) (absent missing)
        | inr (some current, found) ↦ elim (Bool-cases (differs expected current)) [
          | inl other ↦ rw (found, other, archive_current) (failed StoreError.conflict h)
          | inr same ↦ elim (save_snapshot-cases storage cluster_id current now h) [
            | inl (e, unsaved) ↦
                rw (found, same, unsaved, archive_current)
                  (failed e (save_snapshot storage cluster_id current now h).1)
            | inr (done, result, left) ↦
                rw (found, same, result, left, archive_current) (archived current found same done)
          ]
        ]
      ]

module _ {W H : Type 0} (storage : HistoryStorage H) (P : H → Type 0)
    (keeps : (event : AuditEvent) (h : H) → P h → P (storage.save_audit event h).1) where
  save_audit_event-keeps :
      (event : AuditEvent) (s : Server W H)
      → P s.history
      → P (save_audit_event storage event s).history
  unfolding save_audit_event
  save_audit_event-keeps event s h =
      let kept = keeps event s.history h in
      elim (Result-cases (storage.save_audit event s.history).0) [
        | inr (_, done) ↦ rw (done, save_audit_event) kept
        | inl (e, unsaved) ↦ elim (Bool-cases (is_not_setup e)) [
          | inl waits ↦ rw (unsaved, waits, save_audit_event) kept
          | inr lost ↦ rw (unsaved, lost, save_audit_event) kept
        ]
      ]

  -- The recording of an event keeps what the saving of events keeps.
  pub record_audit-keeps :
      ⦃u : Unicode⦄
      → (r : Request) (event : AuditEvent) (s : Server W H) → P s.history
      → P (record_audit storage r event s).history
  unfolding record_audit record_audit_for_principal
  record_audit-keeps r event s h = elim (Option-cases r.principal) [
    | inr (p, known) ↦ rw known (save_audit_event-keeps _ s h)
    | inl unknown ↦ rw unknown (save_audit_event-keeps _ s h)
  ]

save_audit_event-world :
    {W H : Type 0} (storage : HistoryStorage H) (event : AuditEvent) (s : Server W H)
    → (save_audit_event storage event s).world ≡ s.world
unfolding save_audit_event
save_audit_event-world storage event s =
    elim (Result-cases (storage.save_audit event s.history).0) [
      | inr (_, done) ↦ rw (done, save_audit_event) refl
      | inl (e, unsaved) ↦ elim (Bool-cases (is_not_setup e)) [
        | inl waits ↦ rw (unsaved, waits, save_audit_event) refl
        | inr lost ↦ rw (unsaved, lost, save_audit_event) refl
      ]
    ]

-- It does not touch a cluster.
pub record_audit-world :
    {W H : Type 0} ⦃u : Unicode⦄ (storage : HistoryStorage H) (r : Request) (event : AuditEvent)
    (s : Server W H)
    → (record_audit storage r event s).world ≡ s.world
unfolding record_audit record_audit_for_principal
record_audit-world storage r event s = elim (Option-cases r.principal) [
  | inr (p, known) ↦ rw known (save_audit_event-world storage _ s)
  | inl unknown ↦ rw unknown (save_audit_event-world storage _ s)
]

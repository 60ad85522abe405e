-- ===== src/Store/Kv.antt =====
-- The interfaces `KV` and `HistoryStorage` of internal/store/store.go as far as the handlers call them. `W`
-- is the world of the etcd cluster, which the writes of other clients change as well; a call ends in
-- the world in which its answer was given.
use etcd_studio.Base.{String, Bool, Option, none, some, List, Result, ok, ◌≡◌, ◌⊎◌}
use etcd_studio.Base.Int.{ℤ, pos, ◌≤ℤ◌}
use etcd_studio.Base.Base64.{Bytes}
use etcd_studio.Store.Types.{Entry, Page, ValueSnapshot, StoreError, AuditEvent}

-- A missing entry is `none`; `put` and `delete` answer with a revision, `delete` also with whether there
-- was something to delete.
pub record Kv (W : Type 0) : Type 0 where
  pub list : Bytes → Bytes → ℤ → W → Result StoreError Page × W
  pub get : Bytes → W → Result StoreError (Option Entry) × W
  pub get_at_revision : Bytes → ℤ → W → Result StoreError (Option Entry) × W
  pub put : Bytes → Bytes → Option ℤ → W → Result StoreError ℤ × W
  pub delete : Bytes → Option ℤ → W → Result StoreError (ℤ × Bool) × W

-- `H` is the state of the history of values and of the audit log.
pub record HistoryStorage (H : Type 0) : Type 0 where
  pub save : ValueSnapshot → H → Result StoreError (Unit {0}) × H
  pub list_before : String → Bytes → ℤ → ℤ → H → Result StoreError (List ValueSnapshot)
  pub save_audit : AuditEvent → H → Result StoreError (Unit {0}) × H

-- The revision of a key's entry, as the comparison of a transaction takes it: 0 for a missing key.
abbrev pub revision_of : Option Entry → ℤ
revision_of none = pos 0
revision_of (some e) = e.mod_revision

-- What the calls of an etcd cluster mean, where `current w key` is what the cluster holds and `Later w w'`
-- says that `w'` may follow `w`, through the writes of any client.
pub record IsKv {W : Type 0} (kv : Kv W) (current : W → Bytes → Option Entry)
    (Later : W → W → Type 0) : Type 0 where
  -- A read answers with what the cluster holds when it is answered.
  pub read :
      (key : Bytes) (w : W) (found : Option Entry)
      → (kv.get key w).0 ≡ ok found
      → current (kv.get key w).1 key ≡ found
  -- A write under an expected revision succeeds only on top of that revision.
  pub write :
      (key value : Bytes) (expected revision : ℤ) (w : W)
      → (kv.put key value (some expected) w).0 ≡ ok revision
      → (w1 : W) × Later w w1
        × (revision_of (current w1 key) ≡ expected)
        × (e : Entry) × (current (kv.put key value (some expected) w).1 key ≡ some e)
        × (e.value ≡ value)
        × (e.mod_revision ≡ revision)
  -- A revision belongs to one entry of a key.
  pub same :
      (key : Bytes) (w w' : W) (e e' : Entry)
      → Later w w'
      → current w key ≡ some e
      → current w' key ≡ some e'
      → e.mod_revision ≡ e'.mod_revision
      → e ≡ e'
  -- Time passes in a read at a revision too.
  pub later_at_revision :
      (key : Bytes) (revision : ℤ) (w w' : W)
      → Later (kv.get_at_revision key revision w).1 w'
      → Later w w'

-- What a history means, where `Holds cluster_id key revision h` says that it has a snapshot of a key of a
-- cluster at a revision. A snapshot that was saved can be found if it is the newest of its key: an old
-- one may fall to the number of versions that are kept at once.
pub record IsStorage {H : Type 0} (storage : HistoryStorage H)
    (Holds : String → Bytes → ℤ → H → Type 0) : Type 0 where
  pub saved :
      (s : ValueSnapshot) (h : H)
      → ((revision : ℤ)
          → Holds s.cluster_id s.entry.key revision h
          → revision ≤ℤ s.entry.mod_revision)
      → (storage.save s h).0 ≡ ok tt
      → Holds s.cluster_id s.entry.key s.entry.mod_revision (storage.save s h).1
  pub grows :
      (s : ValueSnapshot) (cluster_id : String) (key : Bytes) (revision : ℤ) (h : H)
      → Holds cluster_id key revision (storage.save s h).1
      → Holds cluster_id key revision h ⊎ (revision ≡ s.entry.mod_revision)
  pub audit_keeps :
      (event : AuditEvent) (cluster_id : String) (key : Bytes) (revision : ℤ) (h : H)
      → Holds cluster_id key revision h
      → Holds cluster_id key revision (storage.save_audit event h).1

-- The history has no newer revision of a key than the one that a read of the cluster found.
abbrev pub IsBehind :
    {W H : Type 0} → Kv W → (String → Bytes → ℤ → H → Type 0) → String → Bytes → W → H → Type 0
IsBehind kv Holds cluster_id key w h =
    (e : Entry) (revision : ℤ)
    → (kv.get key w).0 ≡ ok (some e)
    → Holds cluster_id e.key revision h
    → revision ≤ℤ e.mod_revision

-- ===== src/App/Keys/Unsaved.antt =====
-- The changes of keys in internal/app/server.go where the history cannot save.
use etcd_studio.Base.{
  ℕ, String, ◌≡◌, ◌≢◌, inl, inr, refl, Option, none, Result, ok, err, Result-cases,
}
use etcd_studio.Base.Int.{ℤ}
use etcd_studio.Base.Base64.{Bytes}
use etcd_studio.Text.{Unicode}
use etcd_studio.Text.Utf8.{Utf8}
use etcd_studio.Auth.Types.{Time}
use etcd_studio.Store.Types.{Entry, ValueSnapshot, StoreError}
use etcd_studio.Store.Kv.{Kv}
use etcd_studio.Store.Registry.Types.{Cluster}
use etcd_studio.App.Answers.{Answer, refused}
use etcd_studio.App.Server.{Server, Setup, Request}
use etcd_studio.App.Versions.{Candidate, rollback_target, save_snapshot}
use etcd_studio.App.Keys.{
  write_archived, write_key, remove_archived, remove_key, archive_target, restore, restore_found,
  roll_back,
}
use etcd_studio.App.Keys.Archived.{
  ArchiveEnd, failed, absent, archived, archive_current-ArchiveEnd, save_snapshot-cases,
}

-- The request is refused, and the clusters are in the world `w`.
abbrev pub IsRefusedAt : {W H A : Type 0} → W → Answer A × Server W H → Type 0
IsRefusedAt w (answer, after) =
    ((status : ℕ) × (code : String) × (answer ≡ refused status code)) × (after.world ≡ w)

module _ {W H : Type 0} (kv : Kv W) (setup : Setup W H) ⦃u : Unicode⦄ ⦃v : Utf8⦄
    (refuses : (s : ValueSnapshot) (h : H)
      → (e : StoreError) × ((setup.storage.save s h).0 ≡ err e)) where
  unsaved : (s : ValueSnapshot) (h : H) → (setup.storage.save s h).0 ≡ ok tt → ⊥
  unsaved s h saved = cc (saved, (refuses s h).1)

  write_archived-unsaved :
      (r : Request) (cluster : Cluster) (key value : Bytes) (expected : Option ℤ) (s : Server W H)
      (x : Result StoreError (Option Entry) × H × W)
      → (kv.get key s.world).0 ≢ ok none
      → ArchiveEnd kv setup.storage cluster.id key expected (setup.clock 0) s.history s.world x
      → IsRefusedAt
          (kv.get key s.world).1
          (write_archived setup r kv cluster key value expected s x)
        × IsRefusedAt (kv.get key s.world).1 (remove_archived setup r kv cluster key expected s x)
  unfolding write_archived remove_archived
  write_archived-unsaved r cluster key value expected s _ there (failed e h') =
      (((_, _, refl), refl), ((_, _, refl), refl))
  write_archived-unsaved r cluster key value expected s _ there (absent missing) =
      absurd (there missing)
  write_archived-unsaved r cluster key value expected s _ there (archived e found same saved) =
      absurd (unsaved _ s.history saved)

  save_snapshot-unsaved :
      (cluster_id : String) (entry : Entry) (now : Time) (h : H)
      → (e : StoreError) × ((save_snapshot setup.storage cluster_id entry now h).0 ≡ err e)
  save_snapshot-unsaved cluster_id entry now h =
      elim (save_snapshot-cases setup.storage cluster_id entry now h) [
        | inl lost ↦ lost
        | inr (saved, _, _) ↦ absurd (unsaved _ h saved)
      ]

  restore-unsaved :
      (r : Request) (cluster : Cluster) (key : Bytes) (current : Entry) (previous : Candidate)
      (s : Server W H)
      → IsRefusedAt s.world (restore setup r kv cluster key current previous s)
  unfolding restore
  restore-unsaved r cluster key current previous s =
      let (before, h) = archive_target setup cluster previous s in
      let (e, lost) = save_snapshot-unsaved cluster.id current (setup.clock 1) h in
      elim (Result-cases before) [
        | inl (x, early) ↦ rw (early, restore) ((_, _, refl), refl)
        | inr (_, kept) ↦ rw (kept, lost, restore) ((_, _, refl), refl)
      ]

  restore_found-unsaved :
      (r : Request) (cluster : Cluster) (key : Bytes) (s : Server W H)
      (x : Result StoreError (Entry × Candidate) × W)
      → IsRefusedAt x.1 (restore_found setup r kv cluster key s x)
  unfolding restore_found
  restore_found-unsaved r cluster key s (err e, w) = ((_, _, refl), refl)
  restore_found-unsaved r cluster key s (ok (current, previous), w) =
      restore-unsaved r cluster key current previous (record s { world = w })

  -- While the history saves nothing, for whatever reason, every write, deletion and rollback of a key
  -- that is not missing is refused, and the clusters are as the reads of the request left them.
  pub unsaved-IsRefusedAt :
      (r : Request) (cluster : Cluster) (key value : Bytes) (expected : Option ℤ)
      (revision target : ℤ) (s : Server W H)
      → (kv.get key s.world).0 ≢ ok none
      → IsRefusedAt (kv.get key s.world).1 (write_key setup r kv cluster key value expected s)
        × IsRefusedAt (kv.get key s.world).1 (remove_key setup r kv cluster key expected s)
        × IsRefusedAt
            (rollback_target kv setup.storage cluster.id key revision target s.history s.world).1
            (roll_back setup r kv cluster key revision target s)
  unfolding write_key remove_key roll_back
  unsaved-IsRefusedAt r cluster key value expected revision target s there =
      let end =
        archive_current-ArchiveEnd kv setup.storage cluster.id key expected (setup.clock 0)
          s.history s.world in
      let (written, removed) = write_archived-unsaved r cluster key value expected s _ there end in
      (
        written,
        removed,
        restore_found-unsaved r cluster key s
            (rollback_target kv setup.storage cluster.id key revision target s.history s.world),
      )

-- ===== src/App/Keys/Written.antt =====
-- What a successful write through internal/app/server.go leaves of the value that it replaces.
use etcd_studio.Base.{
  String, false, ◌≡◌, ◌⊎◌, inl, inr, sym, ap, ◌∙◌, Option, none, some, Result, ok, Result-cases,
  arith,
}
use mathlib.Core.Path.{subst}
use etcd_studio.Base.Int.{ℤ, eqb_ℤ→eq}
use etcd_studio.Base.Base64.{Bytes}
use etcd_studio.Text.{Unicode}
use etcd_studio.Text.Utf8.{Utf8}
use etcd_studio.Store.Types.{Entry, StoreError}
use etcd_studio.Store.Kv.{Kv, IsKv, IsStorage, IsBehind, revision_of}
use etcd_studio.Store.Registry.Types.{Cluster}
use etcd_studio.App.Answers.{answered, answered_inj}
use etcd_studio.App.Server.{Server, Setup, Request}
use etcd_studio.App.Versions.{differs, archive_current}
use etcd_studio.App.Keys.{write_archived, write_key}
use etcd_studio.App.Keys.Archived.{
  snapshot, ArchiveEnd, failed, absent, archived, archive_current-ArchiveEnd, record_audit-keeps,
  record_audit-world,
}

differs-no :
    (expected : ℤ) (e : Entry) → differs (some expected) e ≡ false → e.mod_revision ≡ expected
differs-no expected e h = eqb_ℤ→eq e.mod_revision expected (ground arith)

-- A write on top of the world `before`: the cluster holds the new value, and the history has whatever it
-- replaced, unless there is an excuse. `seen` is the world in which the key was looked at.
pub record IsWritten {W H : Type 0} (current : W → Bytes → Option Entry) (Later : W → W → Type 0)
    (Holds : String → Bytes → ℤ → H → Type 0) (cluster_id : String) (key value : Bytes)
    (expected revision : ℤ) (excused : Type 0) (seen : W) (after : Server W H) : Type 0 where
  pub before : W
  pub later : Later seen before
  pub expected_there : revision_of (current before key) ≡ expected
  pub written :
      (e : Entry) × (current after.world key ≡ some e)
      × (e.value ≡ value)
      × (e.mod_revision ≡ revision)
  pub replaced_held :
      (old : Entry)
      → current before key ≡ some old
      → Holds cluster_id old.key old.mod_revision after.history ⊎ excused

module _ {W H : Type 0} (kv : Kv W) (current : W → Bytes → Option Entry) (Later : W → W → Type 0)
    (means : IsKv kv current Later) (setup : Setup W H) (Holds : String → Bytes → ℤ → H → Type 0)
    (stores : IsStorage setup.storage Holds) ⦃u : Unicode⦄ ⦃v : Utf8⦄ where
  -- What the history holds of whatever may be replaced.
  abbrev Held : Cluster → Bytes → ℤ → Type 0 → H → W → Type 0
  Held cluster key expected excused h w =
      (w1 : W) (old : Entry)
      → Later w w1
      → revision_of (current w1 key) ≡ expected
      → current w1 key ≡ some old
      → Holds cluster.id old.key old.mod_revision h ⊎ excused

  put_done :
      (r : Request) (cluster : Cluster) (key value : Bytes) (expected : ℤ) (s : Server W H)
      (revision : ℤ) (o : Option Entry) (h : H) (w : W) (excused : Type 0)
      → Held cluster key expected excused h w
      → (write_archived setup r kv cluster key value (some expected) s (ok o, h, w)).0
        ≡ answered revision
      → IsWritten current Later Holds cluster.id key value expected revision excused w
          (write_archived setup r kv cluster key value (some expected) s (ok o, h, w)).1
  unfolding write_archived
  put_done r cluster key value expected s revision o h w excused held done =
      elim (Result-cases (kv.put key value (some expected) w).0) [
        | inl (e, refused) ↦ absurd (cc (rw (refused, write_archived) at done))
        | inr (reached, answer) ↦
            let same : reached ≡ revision = answered_inj (rw (answer, write_archived) at done) in
            let (w1, later, there, e, now, value_same, revision_same) =
              means.write key value expected reached w answer in
            rw (answer, write_archived)
              (record {
                before = w1;
                later = later;
                expected_there = there;
                written = (
                  e,
                  (ap (λ x. current x key) (record_audit-world setup.storage r _ _)) ∙ now,
                  value_same,
                  revision_same ∙ same,
                );
                replaced_held = λ old there'. elim (held w1 old later there there') [
                  | inl holds ↦ inl (
                      record_audit-keeps setup.storage (Holds cluster.id old.key old.mod_revision)
                        (λ event h'.
                          stores.audit_keeps event cluster.id old.key old.mod_revision h')
                        r _ _ holds)
                  | inr excuse ↦ inr excuse
                ];
              })
      ]

  pub same_entry :
      (key : Bytes) (expected : ℤ) (w : W) (e : Entry)
      → (kv.get key w).0 ≡ ok (some e)
      → e.mod_revision ≡ expected
      → (w1 : W) (old : Entry) → Later (kv.get key w).1 w1
      → revision_of (current w1 key) ≡ expected
      → current w1 key ≡ some old
      → e ≡ old
  same_entry key expected w e found there w1 old later at holds =
      let r : revision_of (some old) ≡ expected = ap revision_of (sym holds) ∙ at in
      means.same key (kv.get key w).1 w1 e old later (means.read key w (some e) found) holds
        (there ∙ sym r)

  write_archived-IsWritten :
      (r : Request) (cluster : Cluster) (key value : Bytes) (expected : ℤ) (s : Server W H)
      (revision : ℤ) (x : Result StoreError (Option Entry) × H × W)
      → ArchiveEnd kv setup.storage cluster.id key
          (some expected)
          (setup.clock 0)
          s.history
          s.world
          x
      → IsBehind kv Holds cluster.id key s.world s.history
      → (write_archived setup r kv cluster key value (some expected) s x).0 ≡ answered revision
      → IsWritten current Later Holds cluster.id key value expected revision
          (current (kv.get key s.world).1 key ≡ none)
          (kv.get key s.world).1
          (write_archived setup r kv cluster key value (some expected) s x).1
  unfolding write_archived
  write_archived-IsWritten r cluster key value expected s revision _ (failed e h') behind done = cc
  write_archived-IsWritten r cluster key value expected s revision _ (absent missing) behind done =
      put_done r cluster key value expected s revision none s.history (kv.get key s.world).1
        (current (kv.get key s.world).1 key ≡ none)
        (λ w1 old later at there. inr (means.read key s.world none missing)) done
  write_archived-IsWritten r cluster key value expected s revision _ (archived e found same saved)
        behind done =
      put_done r cluster key value expected s revision (some e)
        (setup.storage.save (snapshot cluster.id e (setup.clock 0)) s.history).1
        (kv.get key s.world).1 (current (kv.get key s.world).1 key ≡ none)
        (λ w1 old later at there. inl (
          subst
            (λ (x : Entry).
              Holds cluster.id x.key x.mod_revision
                (setup.storage.save (snapshot cluster.id e (setup.clock 0)) s.history).1)
            (same_entry key expected s.world e found (differs-no expected e same) w1 old later at
              there)
            (stores.saved (snapshot cluster.id e (setup.clock 0)) s.history
              (λ rev held. behind e rev found held) saved)))
        done

  -- A write under an expected revision that is answered with a new revision puts the new value on top
  -- of the expected revision, whatever other clients do in between, and the history has
  -- the key at the revision that it replaces, unless the key was missing when it was looked at. The calls
  -- of the cluster and of the history mean what `IsKv` and `IsStorage` say, and the history has no newer
  -- revision of the key than the cluster.
  pub write_key-IsWritten :
      (r : Request) (cluster : Cluster) (key value : Bytes) (expected : ℤ) (s : Server W H)
      (revision : ℤ)
      → IsBehind kv Holds cluster.id key s.world s.history
      → (write_key setup r kv cluster key value (some expected) s).0 ≡ answered revision
      → IsWritten current Later Holds cluster.id key value expected revision
          (current (kv.get key s.world).1 key ≡ none)
          (kv.get key s.world).1
          (write_key setup r kv cluster key value (some expected) s).1
  unfolding write_key
  write_key-IsWritten r cluster key value expected s revision behind done =
      write_archived-IsWritten r cluster key value expected s revision
        (archive_current kv setup.storage cluster.id key (some expected) (setup.clock 0) s.history
          s.world)
        (archive_current-ArchiveEnd kv setup.storage cluster.id key (some expected) (setup.clock 0)
          s.history s.world)
        behind done

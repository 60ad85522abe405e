-- ===== src/App/Keys/Restored.antt =====
-- What a rollback through internal/app/server.go writes, and what it keeps.
use etcd_studio.Base.{
  arith, ◌==◌, String, not, ◌||◌, ◌≡◌, ◌⊎◌, inl, inr, refl, sym, ap, ◌∙◌, List, [], ◌∷◌, Option,
  none, some, Result, ok, err, Result-cases, Bool-cases,
}
use mathlib.Core.Path.{subst}
use etcd_studio.Base.Int.{ℤ, ◌<ℤ◌, ◌≤ℤ◌, pos, ltb_ℤ, eqb_ℤ, eqb_ℤ→eq, succ_ℤ}
use etcd_studio.Base.Base64.{Bytes}
use etcd_studio.Text.{Unicode}
use etcd_studio.Text.Utf8.{Utf8}
use etcd_studio.Store.Types.{
  Entry, ValueSnapshot, StoreError, conflict, no_previous_version, local_history,
}
use etcd_studio.Store.Kv.{Kv, HistoryStorage, IsKv, IsStorage, IsBehind}
use etcd_studio.Store.Registry.Types.{Cluster}
use etcd_studio.App.Answers.{answered, answered_inj}
use etcd_studio.App.Server.{Server, Setup, Request}
use etcd_studio.App.Versions.{
  Candidate, stored_candidate, etcd_candidate, stored_target, etcd_target, find_target,
  rollback_target, save_snapshot,
}
use etcd_studio.App.Keys.{RolledBack, archive_target, restore, restore_found, roll_back}
use etcd_studio.App.Keys.Archived.{
  snapshot, save_snapshot-cases, save_snapshot-history, record_audit-keeps, record_audit-world,
}
use etcd_studio.App.Keys.Written.{IsWritten, same_entry}

module _ {W H : Type 0} (kv : Kv W) (storage : HistoryStorage H) (Later : W → W → Type 0) where
  -- A target is what the history has at its revision, or what etcd answers for it.
  abbrev pub IsSource : String → Bytes → ℤ → H → Candidate → Type 0
  IsSource cluster_id key target h previous =
      ((snap : ValueSnapshot) × (rest : List ValueSnapshot) × (storage.list_before cluster_id key
            (succ_ℤ target) (pos 1) h
          ≡ ok (snap ∷ rest))
        × (previous ≡ stored_candidate snap))
      ⊎ ((w : W) × (entry : Entry) × ((kv.get_at_revision key target w).0 ≡ ok (some entry))
          × (previous ≡ etcd_candidate entry))

  -- The ends of `rollbackTarget`.
  pub data TargetEnd (cluster_id : String) (key : Bytes) (expected target : ℤ) (h : H) (w : W)
      : Result StoreError (Entry × Candidate) × W → Type 0 where
    unfound : (e : StoreError) (w' : W) → TargetEnd cluster_id key expected target h w (err e, w')
    found :
        (current : Entry) (previous : Candidate) (w' : W)
        → (kv.get key w).0 ≡ ok (some current)
        → current.mod_revision ≡ expected
        → previous.entry.mod_revision ≡ target
        → target <ℤ current.mod_revision
        → IsSource cluster_id key target h previous
        → ((w1 : W) → Later w' w1 → Later (kv.get key w).1 w1)
        → TargetEnd cluster_id key expected target h w (ok (current, previous), w')

  stored_target-cases :
      (target : ℤ) (snapshots : List ValueSnapshot)
      → (stored_target target snapshots ≡ none)
        ⊎ ((snap : ValueSnapshot) × (rest : List ValueSnapshot) × (snapshots ≡ snap ∷ rest)
            × (snap.entry.mod_revision ≡ target)
            × (stored_target target snapshots ≡ some (stored_candidate snap)))
  stored_target-cases target [] = inl refl
  stored_target-cases target (s ∷ ss) = elim (Bool-cases (eqb_ℤ s.entry.mod_revision target)) [
    | inl same ↦ inr (s, ss, refl, eqb_ℤ→eq s.entry.mod_revision target same, rw same refl)
    | inr other ↦ inl (rw other refl)
  ]

  etcd_target-cases :
      (target : ℤ) (answer : Option Entry)
      → ((e : StoreError) × (etcd_target target answer ≡ err e))
        ⊎ ((entry : Entry) × (answer ≡ some entry)
            × (entry.mod_revision ≡ target)
            × (etcd_target target answer ≡ ok (etcd_candidate entry)))
  etcd_target-cases target none = inl (no_previous_version, refl)
  etcd_target-cases target (some e) = elim (Bool-cases (eqb_ℤ e.mod_revision target)) [
    | inl same ↦ inr (e, refl, eqb_ℤ→eq e.mod_revision target same, rw same refl)
    | inr other ↦ inl (no_previous_version, rw other refl)
  ]

  module _
      (passes : (key : Bytes) (revision : ℤ) (w w' : W)
        → Later (kv.get_at_revision key revision w).1 w'
        → Later w w') where
    find_target-TargetEnd :
        (cluster_id : String) (key : Bytes) (expected target : ℤ) (current : Entry) (h : H) (w : W)
        → (kv.get key w).0 ≡ ok (some current)
        → current.mod_revision ≡ expected
        → target <ℤ current.mod_revision
        → TargetEnd cluster_id key expected target h w
            (find_target kv storage cluster_id key target current h (kv.get key w).1)
    unfolding find_target
    find_target-TargetEnd cluster_id key expected target current h w read same older =
        let w' = (kv.get key w).1 in
        elim (Result-cases (storage.list_before cluster_id key (succ_ℤ target) (pos 1) h)) [
          | inl (e, unread) ↦ rw (unread, find_target) (unfound (local_history e) w')
          | inr (snapshots, listed) ↦ elim (stored_target-cases target snapshots) [
            | inr (snap, rest, first, at, taken) ↦
                rw (listed, taken, find_target)
                  (found current (stored_candidate snap) w' read same at older
                    (inl (snap, rest, listed ∙ ap (λ (x : List ValueSnapshot). ok x) first, refl))
                    (λ w1 later. later))
            | inl missing ↦
                let w'' = (kv.get_at_revision key target w').1 in
                elim (Result-cases (kv.get_at_revision key target w').0) [
                  | inl (e, failed) ↦ rw (listed, missing, failed, find_target) (unfound e w'')
                  | inr (answer, told) ↦ elim (etcd_target-cases target answer) [
                    | inl (e, refused) ↦
                        rw (listed, missing, told, refused, find_target) (unfound e w'')
                    | inr (entry, some_entry, at, taken) ↦
                        rw (listed, missing, told, taken, find_target)
                          (found current (etcd_candidate entry) w'' read same at older
                            (inr
                              (w', entry, told ∙ ap (λ (x : Option Entry). ok x) some_entry, refl))
                            (λ w1 later. passes key target w' w1 later))
                  ]
                ]
          ]
        ]

    pub rollback_target-TargetEnd :
        (cluster_id : String) (key : Bytes) (expected target : ℤ) (h : H) (w : W)
        → TargetEnd cluster_id key expected target h w
            (rollback_target kv storage cluster_id key expected target h w)
    unfolding rollback_target
    rollback_target-TargetEnd cluster_id key expected target h w =
        elim (Result-cases (kv.get key w).0) [
          | inl (e, unread) ↦ rw (unread, rollback_target) (unfound e (kv.get key w).1)
          | inr (none, missing) ↦
              rw (missing, rollback_target) (unfound no_previous_version (kv.get key w).1)
          | inr (some current, read) ↦
              let w' = (kv.get key w).1 in
              elim (Bool-cases (eqb_ℤ current.mod_revision expected)) [
                | inr other ↦ rw (read, other, rollback_target) (unfound conflict w')
                | inl same ↦
                    elim (Bool-cases
                      (ltb_ℤ target (pos 1) || not (ltb_ℤ target current.mod_revision))) [
                        | inl bad ↦
                            rw (read, same, bad, rollback_target) (unfound no_previous_version w')
                        | inr good ↦
                            rw (read, same, good, rollback_target)
                              (find_target-TargetEnd cluster_id key expected target current h w read
                                (eqb_ℤ→eq current.mod_revision expected same) (ground arith))
                      ]
              ]
        ]

-- A rollback: the value of the target is written on top of the current revision, and the value that it
-- replaces is in the history at its revision.
pub record IsRestored {W H : Type 0} (current : W → Bytes → Option Entry) (Later : W → W → Type 0)
    (Holds : String → Bytes → ℤ → H → Type 0) (kv : Kv W) (setup : Setup W H) (cluster_id : String)
    (key : Bytes) (expected target : ℤ) (reply : RolledBack) (before after : Server W H)
    : Type 0 where
  pub previous : Candidate
  pub from_target : previous.entry.mod_revision ≡ target
  pub source : IsSource kv setup.storage Later cluster_id key target before.history previous
  pub told : (reply.restored_from_revision ≡ target) × (reply.history_source ≡ previous.source)
  pub written :
      IsWritten current Later Holds cluster_id key previous.entry.value expected reply.revision ⊥
        (kv.get key before.world).1
        after

module _ {W H : Type 0} (kv : Kv W) (current : W → Bytes → Option Entry) (Later : W → W → Type 0)
    (means : IsKv kv current Later) (setup : Setup W H) (Holds : String → Bytes → ℤ → H → Type 0)
    (stores : IsStorage setup.storage Holds) ⦃u : Unicode⦄ ⦃v : Utf8⦄ where
  -- What the history has after the target was saved.
  archive_target-grows :
      (cluster : Cluster) (previous : Candidate) (s : Server W H) (key : Bytes) (revision : ℤ)
      → Holds cluster.id key revision (archive_target setup cluster previous s).1
      → Holds cluster.id key revision s.history ⊎ (revision ≡ previous.entry.mod_revision)
  unfolding archive_target
  archive_target-grows cluster previous s key revision held =
      elim (Bool-cases (previous.source == "etcd")) [
        | inl from_etcd ↦
            stores.grows (snapshot cluster.id previous.entry (setup.clock 0)) cluster.id key
              revision s.history
              (subst (λ h. Holds cluster.id key revision h)
                (save_snapshot-history setup.storage cluster.id previous.entry (setup.clock 0)
                  s.history)
                (rw (from_etcd, archive_target) at held))
        | inr from_storage ↦ inl (rw (from_storage, archive_target) at held)
      ]

  restore_put-IsRestored :
      (r : Request) (cluster : Cluster) (key : Bytes) (expected target : ℤ) (s : Server W H)
      (e : Entry) (previous : Candidate) (w : W) (reply : RolledBack)
      → (kv.get key s.world).0 ≡ ok (some e)
      → e.mod_revision ≡ expected
      → previous.entry.mod_revision ≡ target
      → target <ℤ e.mod_revision
      → IsBehind kv Holds cluster.id key s.world s.history
      → IsSource kv setup.storage Later cluster.id key target s.history previous
      → ((w1 : W) → Later w w1 → Later (kv.get key s.world).1 w1)
      → (restore setup r kv cluster key e previous (record s { world = w })).0 ≡ answered reply
      → IsRestored current Later Holds kv setup cluster.id key expected target reply s
          (restore setup r kv cluster key e previous (record s { world = w })).1
  unfolding restore
  restore_put-IsRestored r cluster key expected target s e previous w reply read at from older
        behind source passes done =
      let s0 : Server W H = record s { world = w } in
      let h = (archive_target setup cluster previous s0).1 in
      elim (Result-cases (archive_target setup cluster previous s0).0) [
        | inl (x, unsaved) ↦ absurd (cc (rw (unsaved, restore) at done))
        | inr (_, kept) ↦ elim (save_snapshot-cases setup.storage cluster.id e (setup.clock 1) h) [
          | inl (x, unsaved) ↦ absurd (cc (rw (kept, unsaved, restore) at done))
          | inr (saved, result, left) ↦
              elim (Result-cases (kv.put key previous.entry.value (some e.mod_revision) w).0) [
                | inl (x, refused) ↦ absurd (cc (rw (kept, result, refused, restore) at done))
                | inr (revision, put) ↦
                    let reply_is : record {
                      revision = revision;
                      restored_from_revision = previous.entry.mod_revision;
                      history_source = previous.source;
                    }
                        ≡ reply =
                      answered_inj (rw (kept, result, put, restore) at done) in
                    let (w1, later, there, new, now, value_same, revision_same) =
                      means.write key previous.entry.value e.mod_revision revision w put in
                    let snap = snapshot cluster.id e (setup.clock 1) in
                    let newest : (rev : ℤ) → Holds cluster.id e.key rev h → rev ≤ℤ e.mod_revision =
                      λ rev held. elim (archive_target-grows cluster previous s0 e.key rev held) [
                        | inl before ↦ behind e rev read before
                        | inr saved_now ↦
                            let same : rev ≡ target = saved_now ∙ from in
                            rw same (omega (arith, older))
                      ] in
                    rw (kept, result, put, restore)
                      (record {
                        previous = previous;
                        from_target = from;
                        source = source;
                        told = (
                          sym (ap (λ (x : RolledBack). x.restored_from_revision) reply_is) ∙ from,
                          sym (ap (λ (x : RolledBack). x.history_source) reply_is),
                        );
                        written = record {
                          before = w1;
                          later = passes w1 later;
                          expected_there = there ∙ at;
                          written = (
                            new,
                            ap (λ x. current x key) (record_audit-world setup.storage r _ _) ∙ now,
                            value_same,
                            revision_same ∙ ap (λ (x : RolledBack). x.revision) reply_is,
                          );
                          replaced_held = λ old there'. inl (
                              record_audit-keeps setup.storage
                                (Holds cluster.id old.key old.mod_revision)
                                (λ event h'.
                                  stores.audit_keeps event cluster.id old.key old.mod_revision h')
                                r _ _
                                (subst
                                  (λ (x : Entry).
                                    Holds cluster.id x.key x.mod_revision
                                      (save_snapshot setup.storage cluster.id e (setup.clock 1)
                                        h).1)
                                  (same_entry kv current Later means setup Holds stores key expected
                                    s.world e read at w1 old (passes w1 later) (there ∙ at) there')
                                  (subst (λ y. Holds cluster.id e.key e.mod_revision y) (sym left)
                                    (stores.saved snap h newest saved))));
                        };
                      })
              ]
        ]
      ]

  restore_found-IsRestored :
      (r : Request) (cluster : Cluster) (key : Bytes) (expected target : ℤ) (s : Server W H)
      (reply : RolledBack) (x : Result StoreError (Entry × Candidate) × W)
      → TargetEnd kv setup.storage Later cluster.id key expected target s.history s.world x
      → IsBehind kv Holds cluster.id key s.world s.history
      → (restore_found setup r kv cluster key s x).0 ≡ answered reply
      → IsRestored current Later Holds kv setup cluster.id key expected target reply s
          (restore_found setup r kv cluster key s x).1
  unfolding restore_found
  restore_found-IsRestored r cluster key expected target s reply _ (unfound e w') behind done = cc
  restore_found-IsRestored r cluster key expected target s reply _
        (found e previous w' read at from older source passes) behind done =
      restore_put-IsRestored r cluster key expected target s e previous w' reply read at from older
        behind source passes done

  -- A rollback that is answered puts the value of a version with the target's revision, which the
  -- history or etcd gave, on top of the expected revision, whatever other clients do in between; the
  -- history has the key at the revision that it replaces, and the answer names the target's revision and
  -- its source. The calls of the cluster and of the history mean what `IsKv` and `IsStorage` say, and the
  -- history has no newer revision of the key than the cluster.
  pub roll_back-IsRestored :
      (r : Request) (cluster : Cluster) (key : Bytes) (expected target : ℤ) (s : Server W H)
      (reply : RolledBack)
      → IsBehind kv Holds cluster.id key s.world s.history
      → (roll_back setup r kv cluster key expected target s).0 ≡ answered reply
      → IsRestored current Later Holds kv setup cluster.id key expected target reply s
          (roll_back setup r kv cluster key expected target s).1
  unfolding roll_back
  roll_back-IsRestored r cluster key expected target s reply behind done =
      restore_found-IsRestored r cluster key expected target s reply
        (rollback_target kv setup.storage cluster.id key expected target s.history s.world)
        (rollback_target-TargetEnd kv setup.storage Later means.later_at_revision cluster.id key
          expected target s.history s.world)
        behind done

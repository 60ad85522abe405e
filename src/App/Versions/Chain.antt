-- ===== src/App/Versions/Chain.antt =====
-- What `etcdVersionsBefore` of internal/app/server.go finds, against the versions that a key has.
use etcd_studio.Base.{
  ℕ, zero, suc, ◌<◌, ap, ◌∙◌, true, false, ◌≡◌, ◌⊎◌, inl, inr, refl, Option, none, some, List, [],
  ◌∷◌, take, keep_if, All, arith, Result, ok, err, Bool-cases, some_inj, Result-cases,
}
use etcd_studio.Base.Int.{ℤ, pos, negsuc, ◌<ℤ◌, ◌≤ℤ◌, ltb_ℤ, leb_ℤ, pred_ℤ, pred_ℤ-lt, lt-pred_ℤ}
use etcd_studio.Base.Base64.{Bytes}
use etcd_studio.Base.Sorting.Descending.{IsDescendingBy}
use etcd_studio.Store.Types.{Entry, StoreError, history_compacted}
use etcd_studio.Store.Kv.{Kv}
use etcd_studio.App.Versions.{
  Versions, with_entry, no_more, is_usable, is_compacted, versions_from, etcd_versions_before,
}

abbrev pub mod_revision : Entry → ℤ
mod_revision e = e.mod_revision

-- The versions of a key: the newest first, with revisions from 1 on.
abbrev pub IsKeyHistory : List Entry → Type 0
IsKeyHistory vs = IsDescendingBy mod_revision vs × All (λ e. pos 1 ≤ℤ mod_revision e) vs

-- The versions up to a revision.
abbrev pub up_to : ℤ → List Entry → List Entry
up_to revision vs = keep_if (λ e. leb_ℤ e.mod_revision revision) vs

abbrev pub first : List Entry → Option Entry
first [] = none
first (e ∷ _) = some e

-- etcd answers a question about a revision with the newest version up to it, or with an error, of which
-- a compaction is one.
abbrev pub IsAnswer : List Entry → ℤ → Result StoreError (Option Entry) → Type 0
IsAnswer vs revision (ok found) = found ≡ first (up_to revision vs)
IsAnswer vs revision (err e) = Unit

up_to-All :
    (revision : ℤ) (vs : List Entry)
    → All (λ e. mod_revision e ≤ℤ revision) vs
    → up_to revision vs ≡ vs
up_to-All revision [] h = refl
up_to-All revision (e ∷ vs) h = ground (arith, up_to-All revision vs h.1)

All-weaker :
    (a b : ℤ) (vs : List Entry)
    → a ≤ℤ b
    → All (λ e. mod_revision e ≤ℤ a) vs
    → All (λ e. mod_revision e ≤ℤ b) vs
All-weaker a b [] le h = tt
All-weaker a b (e ∷ vs) le h = (omega (arith, h.0), All-weaker a b vs le h.1)

All-pred :
    (a : ℤ) (vs : List Entry)
    → All (λ e. mod_revision e <ℤ a) vs
    → All (λ e. mod_revision e ≤ℤ pred_ℤ a) vs
All-pred a [] h = tt
All-pred a (e ∷ vs) h = (lt-pred_ℤ (mod_revision e) a h.0, All-pred a vs h.1)

-- The versions up to a revision: none, or the newest before those up to the revision below its own.
abbrev IsSplit : List Entry → ℤ → Type 0
IsSplit vs revision =
    (up_to revision vs ≡ [])
    ⊎ ((e : Entry) × (up_to revision vs ≡ e ∷ up_to (pred_ℤ e.mod_revision) vs)
        × (pos 1 ≤ℤ mod_revision e)
        × (mod_revision e ≤ℤ revision))

pred_ℤ-le : (a : ℤ) → pred_ℤ a ≤ℤ a
pred_ℤ-le (pos zero) = omega arith
pred_ℤ-le (pos (suc n)) = omega arith
pred_ℤ-le (negsuc n) = omega arith

leb_pred : (a b : ℤ) → a ≤ℤ b → leb_ℤ b (pred_ℤ a) ≡ false
leb_pred a b h = elim (Bool-cases (leb_ℤ b (pred_ℤ a))) [
  | inl le ↦ absurd (omega (arith, pred_ℤ-lt b a (ground arith), h))
  | inr above ↦ above
]

IsSplit-up_to : (vs : List Entry) (revision : ℤ) → IsKeyHistory vs → IsSplit vs revision
IsSplit-up_to [] revision h = inl refl
IsSplit-up_to (x ∷ vs) revision h = elim (Bool-cases (leb_ℤ x.mod_revision revision)) [
  | inl near ↦
      let le : mod_revision x ≤ℤ revision = ground arith in
      let below = All-pred (mod_revision x) vs h.0.0 in
      let here : leb_ℤ x.mod_revision (pred_ℤ x.mod_revision) ≡ false =
        leb_pred x.mod_revision x.mod_revision (omega arith) in
      let pred_le : pred_ℤ x.mod_revision ≤ℤ revision =
        omega (arith, pred_ℤ-le x.mod_revision, le) in
      inr (
        x,
        rw
            (
              near,
              here,
              up_to-All (pred_ℤ x.mod_revision) vs below,
              up_to-All revision vs (All-weaker (pred_ℤ x.mod_revision) revision vs pred_le below),
            )
            refl,
        h.1.0,
        le,
      )
  | inr far ↦ elim (IsSplit-up_to vs revision (h.0.1, h.1.1)) [
    | inl nothing ↦ inl (rw far nothing)
    | inr (e, same, positive, le) ↦
        let lt : mod_revision e ≤ℤ mod_revision x = ground arith in
        let skipped : leb_ℤ x.mod_revision (pred_ℤ e.mod_revision) ≡ false =
          leb_pred e.mod_revision x.mod_revision lt in
        inr (e, rw (far, skipped) same, positive, le)
  ]
]

-- The revision that is asked for after some entries: the one below the last of them.
abbrev pub asked_after : ℤ → List Entry → ℤ
asked_after revision [] = revision
asked_after revision (e ∷ es) = asked_after (pred_ℤ e.mod_revision) es

-- The question after the newest `n` of the versions up to a revision was answered with an error;
-- `Told r e` says that a question about the revision `r` was answered with `e`.
abbrev pub EndsAt : (ℤ → StoreError → Type 0) → List Entry → ℕ → ℤ → ℕ → StoreError → Type 0
EndsAt Told vs room revision n e =
    (n < room) × Told (asked_after revision (take n (up_to revision vs))) e

-- All versions up to a revision, as many as there is room for; or fewer, with the mark, where the question
-- after them was answered with a compaction; or another error that a question was answered with.
abbrev pub IsVersions :
    (ℤ → StoreError → Type 0) → List Entry → ℕ → ℤ → Result StoreError Versions → Type 0
IsVersions Told vs room revision (err e) =
    (is_compacted e ≡ false) × ((n : ℕ) × EndsAt Told vs room revision n e)
IsVersions Told vs room revision (ok v) =
    (v.compacted ≡ false) × (v.entries ≡ take room (up_to revision vs))
    ⊎ (v.compacted ≡ true)
      × ((n : ℕ) × (v.entries ≡ take n (up_to revision vs))
          × EndsAt Told vs room revision n history_compacted)

module _ (Told : ℤ → StoreError → Type 0) (vs : List Entry) where
  IsVersions-none :
      (room : ℕ) (revision : ℤ)
      → up_to revision vs ≡ []
      → IsVersions Told vs room revision (no_more false)
  IsVersions-none zero revision h = inl (refl, refl)
  IsVersions-none (suc room) revision h = inl (refl, rw h refl)

  EndsAt-more :
      (room : ℕ) (revision : ℤ) (e : Entry) (n : ℕ) (x : StoreError)
      → up_to revision vs ≡ e ∷ up_to (pred_ℤ e.mod_revision) vs
      → EndsAt Told vs room (pred_ℤ e.mod_revision) n x
      → EndsAt Told vs (suc room) revision (suc n) x
  EndsAt-more room revision e n x same (lt, says) = (omega (arith, lt), rw same says)

  IsVersions-more :
      (room : ℕ) (revision : ℤ) (e : Entry) (rest : Result StoreError Versions)
      → up_to revision vs ≡ e ∷ up_to (pred_ℤ e.mod_revision) vs
      → IsVersions Told vs room (pred_ℤ e.mod_revision) rest
      → IsVersions Told vs (suc room) revision (with_entry e rest)
  IsVersions-more room revision e (err x) same (other, (n, ends)) =
      (other, (suc n, EndsAt-more room revision e n x same ends))
  IsVersions-more room revision e (ok v) same (inl (whole, entries)) =
      inl (whole, rw (same, entries) refl)
  IsVersions-more room revision e (ok v) same (inr (cut, (n, entries, ends))) = inr (
    cut,
    (suc n, rw (same, entries) refl, EndsAt-more room revision e n history_compacted same ends),
  )

compacted_error : (e : StoreError) → is_compacted e ≡ true → e ≡ history_compacted
compacted_error e h = ground arith

-- A question about a revision was answered with an error, in some state of the clusters.
abbrev pub Says : {W : Type 0} → Kv W → Bytes → ℤ → StoreError → Type 0
Says {W} kv key revision e = (w : W) × ((kv.get_at_revision key revision w).0 ≡ err e)

module _ {W : Type 0} (kv : Kv W) (key : Bytes) (vs : List Entry) (known : IsKeyHistory vs)
    (answers : (revision : ℤ) (w : W)
      → IsAnswer vs revision (kv.get_at_revision key revision w).0) where
  versions_from-IsVersions :
      (room : ℕ) (revision : ℤ) (w : W)
      → IsVersions (Says kv key) vs room revision (versions_from kv room key revision w).0
  unfolding versions_from
  versions_from-IsVersions zero revision w = inl (refl, refl)
  versions_from-IsVersions (suc room) revision w = elim (Bool-cases (ltb_ℤ (pos 0) revision)) [
    | inr past ↦ elim (IsSplit-up_to vs revision known) [
      | inl nothing ↦
          rw (past, versions_from, IsVersions)
            (IsVersions-none (Says kv key) vs (suc room) revision nothing)
      | inr (e, same, positive, le) ↦ absurd (ground arith)
    ]
    | inl present ↦ elim (Result-cases (kv.get_at_revision key revision w).0) [
      | inl (e, failed) ↦ elim (Bool-cases (is_compacted e)) [
        | inl cut ↦
            rw (present, failed, cut, versions_from, IsVersions)
              (inr (
                refl,
                (
                  0,
                  refl,
                  (
                    omega arith,
                    (w, failed ∙ ap (λ (x : StoreError). err x) (compacted_error e cut)),
                  ),
                ),
              ))
        | inr other ↦
            rw (present, failed, other, versions_from, IsVersions)
              (other, (0, (omega arith, (w, failed))))
      ]
      | inr (none, missing) ↦ elim (IsSplit-up_to vs revision known) [
        | inl nothing ↦
            rw (present, missing, versions_from, IsVersions)
              (IsVersions-none (Says kv key) vs (suc room) revision nothing)
        | inr (e, same, positive, le) ↦ absurd (cc (rw (missing, same) at (answers revision w)))
      ]
      | inr (some e, found) ↦ elim (IsSplit-up_to vs revision known) [
        | inl nothing ↦ absurd (cc (rw (found, nothing) at (answers revision w)))
        | inr (x, same, positive, le) ↦
            let here : e ≡ x = some_inj (rw (found, same) at (answers revision w)) in
            let usable : is_usable revision e ≡ true = rw here (ground arith) in
            let next : up_to revision vs ≡ e ∷ up_to (pred_ℤ e.mod_revision) vs = rw here same in
            let w' = (kv.get_at_revision key revision w).1 in
            rw (present, found, usable, versions_from, IsVersions)
              (IsVersions-more (Says kv key) vs room revision e
                (versions_from kv room key (pred_ℤ e.mod_revision) w').0 next
                (versions_from-IsVersions room (pred_ℤ e.mod_revision) w'))
      ]
    ]
  ]

  -- A key has the versions `vs` since it was last created, and etcd answers every question about a
  -- revision with the newest of them up to it, or with an error, of which a compaction is one. Then the
  -- entries that are found are the newest `limit` of the versions before a revision; or they are fewer,
  -- without a gap, with the mark, and the question about the revision below the last of them was answered
  -- with a compaction; or that question was answered with another error, which is returned.
  pub etcd_versions_before-IsVersions :
      (before : ℤ) (limit : ℕ) (w : W)
      → IsVersions
          (Says kv key)
          vs
          limit
          (pred_ℤ before)
          (etcd_versions_before kv key before limit w).0
  unfolding etcd_versions_before
  etcd_versions_before-IsVersions before limit w = versions_from-IsVersions limit (pred_ℤ before) w

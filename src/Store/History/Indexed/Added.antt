-- ===== src/Store/History/Indexed/Added.antt =====
-- The invariant of the two maps where a snapshot is added.
use etcd_studio.Base.{
  String, true, false, ◌==◌, eq_refl, ◌≡◌, ◌≢◌, refl, sym, ap, ◌∙◌, inl, inr, All, Elem, List, [],
  ◌∷◌, ◌++◌, arith, Bool-cases, ok, All-append_one,
}
use mathlib.Core.Path.{subst}
use etcd_studio.Store.Types.{ValueSnapshot}
use etcd_studio.Store.History.Types.{FileHistory}
use etcd_studio.Store.History.Records.{history_seen_key, validate_snapshot}
use etcd_studio.Store.History.Log.{Buckets, bucket, put_bucket, key_of, member, add_locked}
use etcd_studio.Store.History.Newest.{IsDistinct, revision}
use etcd_studio.Store.History.Indexed.{IsIndexed, IsPlaced}
use etcd_studio.Store.History.Indexed.Lookup.{bucket-put_bucket, put_bucket-HasUniqueKeys, test_eq}

IsDistinct-append_one :
    (xs : List ValueSnapshot) (s : ValueSnapshot)
    → All (λ t. revision t ≢ revision s) xs
    → IsDistinct xs
    → IsDistinct (xs ++ s ∷ [])
IsDistinct-append_one [] s fresh d = (tt, tt)
IsDistinct-append_one (x ∷ xs) s fresh d = (
  All-append_one (λ t. revision t ≢ revision x) xs s d.0 (λ e. fresh.0 (sym e)),
  IsDistinct-append_one xs s fresh.1 d.1,
)

append_one-Elem :
    (xs : List ValueSnapshot) (s t : ValueSnapshot) → Elem t xs → Elem t (xs ++ s ∷ [])
append_one-Elem [] s t e = absurd e
append_one-Elem (x ∷ xs) s t (inl same) = inl same
append_one-Elem (x ∷ xs) s t (inr e) = inr (append_one-Elem xs s t e)

pub last-Elem : (xs : List ValueSnapshot) (s : ValueSnapshot) → Elem s (xs ++ s ∷ [])
last-Elem [] s = inl refl
last-Elem (x ∷ xs) s = inr (last-Elem xs s)

-- Snapshots of one key and one revision have one seen key.
seen_key-eq :
    (s t : ValueSnapshot)
    → key_of t ≡ key_of s
    → revision t ≡ revision s
    → history_seen_key t ≡ history_seen_key s
unfolding history_seen_key
seen_key-eq s t k r = cc

module _ (entries : Buckets) (seen : List String) (s : ValueSnapshot) where
  abbrev added : Buckets
  added = put_bucket (key_of s) (bucket (key_of s) entries ++ s ∷ []) entries

  bucket-added_other :
      (key : String) → (key_of s == key) ≡ false → bucket key added ≡ bucket key entries
  bucket-added_other key other =
      bucket-put_bucket key (key_of s) (bucket (key_of s) entries ++ s ∷ []) entries ∙ rw other refl

  pub bucket-added_own : bucket (key_of s) added ≡ bucket (key_of s) entries ++ s ∷ []
  bucket-added_own =
      bucket-put_bucket (key_of s) (key_of s) (bucket (key_of s) entries ++ s ∷ []) entries
      ∙ rw (eq_refl (key_of s)) refl

  IsPlaced-later :
      (key : String) (t : ValueSnapshot)
      → IsPlaced seen key t
      → IsPlaced (history_seen_key s ∷ seen) key t
  IsPlaced-later key t p = (p.0, p.1, ground (arith, p.2))

  All-IsPlaced_later :
      (key : String) (ts : List ValueSnapshot)
      → All (IsPlaced seen key) ts
      → All (IsPlaced (history_seen_key s ∷ seen) key) ts
  All-IsPlaced_later key [] h = tt
  All-IsPlaced_later key (t ∷ ts) h = (IsPlaced-later key t h.0, All-IsPlaced_later key ts h.1)

  -- A snapshot that was not seen has a new revision among those of its key.
  All-fresh :
      (ts : List ValueSnapshot)
      → member (history_seen_key s) seen ≡ false
      → All (IsPlaced seen (key_of s)) ts
      → All (λ t. revision t ≢ revision s) ts
  All-fresh [] new h = tt
  All-fresh (t ∷ ts) new h = (
    λ r. cc (new, h.0.2, ap (λ x. member x seen) (seen_key-eq s t h.0.0 r)),
    All-fresh ts new h.1,
  )

  -- What was stored still is.
  pub still-Elem :
      (t : ValueSnapshot) → Elem t (bucket (key_of t) entries) → Elem t (bucket (key_of t) added)
  still-Elem t e = elim (Bool-cases (key_of s == key_of t)) [
    | inl own ↦
        let same = test_eq (key_of s) (key_of t) own in
        subst (λ k. Elem t (bucket k added)) same
          (rw bucket-added_own (
            append_one-Elem (bucket (key_of s) entries) s t
              (subst (λ k. Elem t (bucket k entries)) (sym same) e)))
    | inr other ↦ rw (bucket-added_other (key_of t) other) e
  ]

  stored_later :
      IsIndexed entries seen
      → (y : String) → member y (history_seen_key s ∷ seen) ≡ true
      → (t : ValueSnapshot) × (history_seen_key t ≡ y) × Elem t (bucket (key_of t) added)
  stored_later x y h = elim (Bool-cases (history_seen_key s == y)) [
    | inl now ↦ (
      s,
      test_eq (history_seen_key s) y now,
      rw bucket-added_own (last-Elem (bucket (key_of s) entries) s),
    )
    | inr before ↦ let (t, e, i) = x.stored y (ground arith) in (t, e, still-Elem t i)
  ]

  pub add-IsIndexed :
      member (history_seen_key s) seen ≡ false
      → validate_snapshot s ≡ ok tt
      → IsIndexed entries seen
      → IsIndexed added (history_seen_key s ∷ seen)
  add-IsIndexed new valid x = record {
    placed = λ key. elim (Bool-cases (key_of s == key)) [
      | inl own ↦
          subst (λ k. All (IsPlaced (history_seen_key s ∷ seen) k) (bucket k added))
            (test_eq (key_of s) key own)
            (rw bucket-added_own (
              All-append_one (IsPlaced (history_seen_key s ∷ seen) (key_of s))
                (bucket (key_of s) entries) s
                (All-IsPlaced_later (key_of s) (bucket (key_of s) entries) (x.placed (key_of s)))
                (refl, valid, ground (arith, eq_refl (history_seen_key s)))))
      | inr other ↦
          rw (bucket-added_other key other)
            (All-IsPlaced_later key (bucket key entries) (x.placed key))
    ];
    distinct = λ key. elim (Bool-cases (key_of s == key)) [
      | inl own ↦
          subst (λ k. IsDistinct (bucket k added)) (test_eq (key_of s) key own)
            (rw bucket-added_own (
              IsDistinct-append_one (bucket (key_of s) entries) s
                (All-fresh (bucket (key_of s) entries) new (x.placed (key_of s)))
                (x.distinct (key_of s))))
      | inr other ↦ rw (bucket-added_other key other) (x.distinct key)
    ];
    stored = stored_later x;
    keys = put_bucket-HasUniqueKeys (key_of s) (bucket (key_of s) entries ++ s ∷ []) entries x.keys;
  }

-- A snapshot that is added, or was there already, is in the maps.
pub add_locked-IsIndexed :
    (s : ValueSnapshot) (h : FileHistory)
    → validate_snapshot s ≡ ok tt
    → IsIndexed h.entries h.seen
    → IsIndexed (add_locked s h).entries (add_locked s h).seen
unfolding add_locked
add_locked-IsIndexed s h valid x = elim (Bool-cases (member (history_seen_key s) h.seen)) [
  | inl known ↦ rw known x
  | inr new ↦ rw new (add-IsIndexed h.entries h.seen s new valid x)
]

-- ===== src/Store/History/Indexed/Replaced.antt =====
-- The invariant of the two maps where lists are cut down and the set is made anew.
use etcd_studio.Base.{
  String, true, false, ◌==◌, eq_refl, ◌≡◌, ◌≢◌, refl, sym, ap, ◌∙◌, ◌⊎◌, inl, inr, All, Elem, List,
  [], ◌∷◌, ◌++◌, map, arith, Bool-cases, Option-cases, some, if◌then◌else◌, some_inj,
}
use mathlib.Core.Path.{subst}
use etcd_studio.Base.Int.{ℤ, pos, ltb_ℤ}
use etcd_studio.Base.Sorting.Order.{Elem-All, All-Elem}
use etcd_studio.Store.Types.{ValueSnapshot}
use etcd_studio.Store.History.Records.{history_seen_key}
use etcd_studio.Store.History.Log.{Buckets, bucket, member}
use etcd_studio.Store.History.Prune.{seen_of, thinned, prune_buckets}
use etcd_studio.Store.History.Newest.{IsDistinct}
use etcd_studio.Store.History.Retention.{IsNewest, thinned-IsNewest}
use etcd_studio.Store.History.Indexed.{IsIndexed, IsPlaced, HasUniqueKeys}
use etcd_studio.Store.History.Indexed.Lookup.{test_eq, ne_test}

member-left : (x : String) (xs ys : List String) → member x xs ≡ true → member x (xs ++ ys) ≡ true
member-left x [] ys h = cc
member-left x (y ∷ xs) ys h = ground (arith, member-left x xs ys)

member-right : (x : String) (xs ys : List String) → member x ys ≡ true → member x (xs ++ ys) ≡ true
member-right x [] ys h = h
member-right x (y ∷ xs) ys h = ground (arith, member-right x xs ys h)

member-append :
    (x : String) (xs ys : List String)
    → member x (xs ++ ys) ≡ true
    → (member x xs ≡ true) ⊎ (member x ys ≡ true)
member-append x [] ys h = inr h
member-append x (y ∷ xs) ys h = ground (arith, member-append x xs ys)

member-map :
    (s : ValueSnapshot) (ts : List ValueSnapshot)
    → Elem s ts
    → member (history_seen_key s) (map history_seen_key ts) ≡ true
member-map s [] e = absurd e
member-map s (t ∷ ts) (inl same) =
    ground (arith, eq_refl (history_seen_key s), ap history_seen_key same)
member-map s (t ∷ ts) (inr e) = ground (arith, member-map s ts e)

map-member :
    (x : String) (ts : List ValueSnapshot)
    → member x (map history_seen_key ts) ≡ true
    → (s : ValueSnapshot) × (history_seen_key s ≡ x) × Elem s ts
map-member x [] h = cc
map-member x (t ∷ ts) h = elim (Bool-cases (history_seen_key t == x)) [
  | inl same ↦ (t, test_eq (history_seen_key t) x same, inl refl)
  | inr other ↦ let (s, e, i) = map-member x ts (ground arith) in (s, e, inr i)
]

member-seen_of :
    (k : String) (s : ValueSnapshot) (es : Buckets)
    → Elem s (bucket k es)
    → member (history_seen_key s) (seen_of es) ≡ true
member-seen_of k s [] e = absurd e
member-seen_of k s ((x, ts) ∷ es) e = elim (Bool-cases (x == k)) [
  | inl here ↦
      member-left (history_seen_key s) (map history_seen_key ts) (seen_of es)
        (member-map s ts (subst (λ b. Elem s (if b then ts else bucket k es)) here e))
  | inr elsewhere ↦
      member-right (history_seen_key s) (map history_seen_key ts) (seen_of es)
        (member-seen_of k s es (subst (λ b. Elem s (if b then ts else bucket k es)) elsewhere e))
]

-- A key that is in the map.
abbrev HasKey : String → Buckets → Type 0
HasKey k es = Elem k (map (λ (b : String × List ValueSnapshot). b.0) es)

HasKey-fresh :
    (k x : String) (es : Buckets)
    → All (λ (b : String × List ValueSnapshot). b.0 ≢ x) es
    → HasKey k es
    → x ≢ k
HasKey-fresh k x [] h i = absurd i
HasKey-fresh k x (b ∷ es) h (inl same) = λ e. h.0 (sym same ∙ sym e)
HasKey-fresh k x (b ∷ es) h (inr i) = HasKey-fresh k x es h.1 i

seen_of-member :
    (y : String) (es : Buckets)
    → HasUniqueKeys es
    → member y (seen_of es) ≡ true
    → (k : String) × (s : ValueSnapshot) × HasKey k es
      × (history_seen_key s ≡ y)
      × Elem s (bucket k es)
seen_of-member y [] u h = cc
seen_of-member y ((x, ts) ∷ es) u h =
    elim (member-append y (map history_seen_key ts) (seen_of es) h) [
      | inl here ↦ let (s, e, i) = map-member y ts here in (x, s, inl refl, e, rw (eq_refl x) i)
      | inr later ↦
          let (k, s, i, e, at) = seen_of-member y es u.1 later in
          (k, s, inr i, e, rw (ne_test x k (HasKey-fresh k x es u.0 i)) at)
    ]

pub replaced-IsIndexed :
    (entries : Buckets) (seen : List String) (updated : Buckets)
    → IsIndexed entries seen
    → ((k : String) (s : ValueSnapshot) → Elem s (bucket k updated) → Elem s (bucket k entries))
    → ((k : String) → IsDistinct (bucket k updated))
    → HasUniqueKeys updated
    → IsIndexed updated (seen_of updated)
replaced-IsIndexed entries seen updated x sub distinct unique =
    let placed : (k : String) (s : ValueSnapshot)
        → Elem s (bucket k updated)
        → IsPlaced (seen_of updated) k s =
      λ k s e.
        let p = Elem-All (IsPlaced seen k) (bucket k entries) s (x.placed k) (sub k s e) in
        (p.0, p.1, member-seen_of k s updated e) in
    record {
      placed = λ k. All-Elem (IsPlaced (seen_of updated) k) (bucket k updated) (placed k);
      distinct = distinct;
      stored = λ y h.
          let (k, s, i, e, at) = seen_of-member y updated unique h in
          (s, e, subst (λ key. Elem s (bucket key updated)) (sym (placed k s at).0) at);
      keys = unique;
    }

prune_buckets-cons :
    (keep : ℤ) (x : String) (ts : List ValueSnapshot) (es us : Buckets)
    → prune_buckets keep ((x, ts) ∷ es) ≡ some us
    → (kept : List ValueSnapshot) × (more : Buckets) × (thinned keep ts ≡ some kept)
      × (prune_buckets keep es ≡ some more)
      × (us ≡ (x, kept) ∷ more)
unfolding prune_buckets
prune_buckets-cons keep x ts es us h = elim (Option-cases (thinned keep ts)) [
  | inl none_kept ↦ ground arith
  | inr (kept, k) ↦ elim (Option-cases (prune_buckets keep es)) [
    | inl stuck ↦ ground arith
    | inr (more, m) ↦ (kept, more, k, m, ground arith)
  ]
]

fresh-prune_buckets :
    (keep : ℤ) (key : String) (es us : Buckets)
    → prune_buckets keep es ≡ some us
    → All (λ (b : String × List ValueSnapshot). b.0 ≢ key) es
    → All (λ (b : String × List ValueSnapshot). b.0 ≢ key) us
unfolding prune_buckets
fresh-prune_buckets keep key [] us h f =
    subst (All (λ (b : String × List ValueSnapshot). b.0 ≢ key)) (some_inj h) tt
fresh-prune_buckets keep key ((x, ts) ∷ es) us h f =
    let (kept, more, k, m, e) = prune_buckets-cons keep x ts es us h in
    rw e (f.0, fresh-prune_buckets keep key es more m f.1)

pub prune_buckets-HasUniqueKeys :
    (keep : ℤ) (es us : Buckets)
    → prune_buckets keep es ≡ some us
    → HasUniqueKeys es
    → HasUniqueKeys us
unfolding prune_buckets
prune_buckets-HasUniqueKeys keep [] us h u = subst HasUniqueKeys (some_inj h) tt
prune_buckets-HasUniqueKeys keep ((x, ts) ∷ es) us h u =
    let (kept, more, k, m, e) = prune_buckets-cons keep x ts es us h in
    rw e (fresh-prune_buckets keep x es more m u.0, prune_buckets-HasUniqueKeys keep es more m u.1)

-- The loop of a pruning, key by key.
prune_buckets-thinned :
    (keep : ℤ) (es us : Buckets) (k : String)
    → prune_buckets keep es ≡ some us
    → (bucket k es ≡ []) × (bucket k us ≡ []) ⊎ (thinned keep (bucket k es) ≡ some (bucket k us))
unfolding prune_buckets
prune_buckets-thinned keep [] us k h =
    subst (λ e. (bucket k [] ≡ []) × (bucket k e ≡ []) ⊎ (thinned keep [] ≡ some (bucket k e)))
      (some_inj h) (inl (refl, refl))
prune_buckets-thinned keep ((x, ts) ∷ es) us k h =
    let (kept, more, t, m, e) = prune_buckets-cons keep x ts es us h in
    elim (Bool-cases (x == k)) [
      | inl here ↦ rw (e, here) (inr t)
      | inr elsewhere ↦ rw (e, elsewhere) (prune_buckets-thinned keep es more k m)
    ]

-- What is kept was stored, and no two have one revision.
pub prune_buckets-kept :
    (keep : ℤ) (es us : Buckets) (k : String)
    → IsDistinct (bucket k es)
    → prune_buckets keep es ≡ some us
    → ((s : ValueSnapshot) → Elem s (bucket k us) → Elem s (bucket k es)) × IsDistinct (bucket k us)
prune_buckets-kept keep es us k d h = elim (prune_buckets-thinned keep es us k h) [
  | inl (old, new) ↦ rw (old, new) (λ s e. e, tt)
  | inr t ↦
      let newest = thinned-IsNewest keep (bucket k es) (bucket k us) d t in
      (newest.of_stored, newest.distinct)
]

pub prune_buckets-IsNewest :
    (keep : ℤ) (es us : Buckets) (k : String)
    → ltb_ℤ keep (pos 1) ≡ false
    → IsDistinct (bucket k es)
    → prune_buckets keep es ≡ some us
    → IsNewest keep (bucket k es) (bucket k us)
prune_buckets-IsNewest keep es us k low d h = elim (prune_buckets-thinned keep es us k h) [
  | inl (old, new) ↦
      rw (old, new)
        (record {
          of_stored = λ s e. e;
          distinct = tt;
          bounded = ground arith;
          complete = λ s e. absurd e;
        })
  | inr t ↦ thinned-IsNewest keep (bucket k es) (bucket k us) d t
]

-- ===== src/Store/History/Retention.antt =====
-- What pruning keeps of the snapshots of a key.
use etcd_studio.Base.{
  ℕ, true, ◌≡◌, ◌≢◌, ap, ◌⊎◌, inl, inr, arith, All, Elem, List, [], ◌∷◌, some, length, take,
  length-take-le, Bool-cases,
}
use mathlib.Core.Path.{subst}
use etcd_studio.Base.Int.{ℤ, pos, negsuc, ◌<ℤ◌, ◌≤ℤ◌}
use etcd_studio.Base.Sorting.{sort_slice}
use etcd_studio.Base.Sorting.Order.{Elem-take, Elem-sort_slice, sort_slice-Elem}
use etcd_studio.Store.Types.{ValueSnapshot}
use etcd_studio.Store.History.Query.{newer}
use etcd_studio.Store.History.Prune.{newest_snapshots, within, thinned}
use etcd_studio.Store.History.Newest.{IsDistinct, IsDescending, revision}
use etcd_studio.Base.Sorting.Descending.{IsDescendingBy-sort_slice, IsDescendingBy-take, take-rest}

-- At most `keep` of the stored snapshots, and what is left out is older than all of exactly `keep`.
pub record IsNewest (keep : ℤ) (stored kept : List ValueSnapshot) : Type 0 where
  pub of_stored : (s : ValueSnapshot) → Elem s kept → Elem s stored
  pub distinct : IsDistinct kept
  pub bounded : pos (length kept) ≤ℤ keep
  pub complete :
      (s : ValueSnapshot)
      → Elem s stored
      → Elem s kept ⊎ (pos (length kept) ≡ keep) × All (λ t. revision s <ℤ revision t) kept

older_ne :
    (s : ValueSnapshot) (ts : List ValueSnapshot)
    → All (λ t. revision t <ℤ revision s) ts
    → All (λ t. revision t ≢ revision s) ts
older_ne s [] h = tt
older_ne s (t ∷ ts) h = (
  λ e.
      let bad : revision s <ℤ revision s = subst (λ r. r <ℤ revision s) e h.0 in omega (arith, bad),
  older_ne s ts h.1,
)

IsDistinct-of_descending : (xs : List ValueSnapshot) → IsDescending xs → IsDistinct xs
IsDistinct-of_descending [] d = tt
IsDistinct-of_descending (s ∷ xs) d = (older_ne s xs d.0, IsDistinct-of_descending xs d.1)

-- A list that is short enough is kept whole.
IsNewest-within :
    (keep : ℤ) (stored : List ValueSnapshot)
    → IsDistinct stored
    → within keep stored ≡ true
    → IsNewest keep stored stored
IsNewest-within keep stored d h = record {
  of_stored = λ s e. e;
  distinct = d;
  bounded = ground arith;
  complete = λ s e. inl e;
}

IsNewest-take :
    (n : ℕ) (stored : List ValueSnapshot)
    → IsDistinct stored
    → IsNewest (pos n) stored (take n (sort_slice newer stored))
IsNewest-take n stored d =
    let sorted = sort_slice newer stored in
    let order = IsDescendingBy-sort_slice revision stored d in
    record {
      of_stored = λ s e. Elem-sort_slice newer stored s (Elem-take n sorted s e);
      distinct =
          IsDistinct-of_descending (take n sorted) (IsDescendingBy-take revision n sorted order);
      bounded = omega (arith, length-take-le n sorted);
      complete = λ s e.
          elim (take-rest revision n sorted s order (sort_slice-Elem newer stored s e)) [
            | inl kept ↦ inl kept
            | inr (full, older) ↦ inr (ap (λ k. pos k) full, older)
          ];
    }

pub thinned-IsNewest :
    (keep : ℤ) (stored kept : List ValueSnapshot)
    → IsDistinct stored
    → thinned keep stored ≡ some kept
    → IsNewest keep stored kept
unfolding newest_snapshots
thinned-IsNewest (pos n) stored kept d h = elim (Bool-cases (within (pos n) stored)) [
  | inl short ↦
      subst (IsNewest (pos n) stored) (ground arith) (IsNewest-within (pos n) stored d short)
  | inr long ↦ subst (IsNewest (pos n) stored) (ground arith) (IsNewest-take n stored d)
]
thinned-IsNewest (negsuc n) stored kept d h = ground arith

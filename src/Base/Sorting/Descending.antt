-- ===== src/Base/Sorting/Descending.antt =====
-- Lists that are sorted by an integer key, the largest first.
use etcd_studio.Base.Tests.{Bool-cases}
use Prim.Native.Nat.{ℕ, zero, suc}
use mathlib.Core.Path.{◌≡◌, refl, ap}
use mathlib.Core.Logic.{◌≢◌, ◌⊎◌, inl, inr}
use mathlib.Core.Bool.{Bool}
use mathlib.Core.List.{List, [], ◌∷◌}
use native.Mathlib.Omega.{arith}
use etcd_studio.Base.Lists.{All, Elem, length, keep_if, take}
use etcd_studio.Base.Int.{ℤ, ◌<ℤ◌, ltb_ℤ, eq_of_parts}
use etcd_studio.Base.Sorting.{insert_sorted, sort_slice}
use etcd_studio.Base.Sorting.Order.{
  Elem-All, All-Elem, Elem-keep_if, Elem-take, All-insert_sorted, All-sort_slice,
}

module _ {A : Type 0} (key : A → ℤ) where
  -- The comparison by which they are sorted.
  abbrev pub above : A → A → Bool
  above s t = ltb_ℤ (key t) (key s)

  -- No two elements of a list have the same key.
  abbrev pub IsDistinctBy : List A → Type 0
  IsDistinctBy [] = Unit
  IsDistinctBy (s ∷ rest) = All (λ t. key t ≢ key s) rest × IsDistinctBy rest

  -- The key of every element is above those after it.
  abbrev pub IsDescendingBy : List A → Type 0
  IsDescendingBy [] = Unit
  IsDescendingBy (s ∷ rest) = All (λ t. key t <ℤ key s) rest × IsDescendingBy rest

  pub IsDistinctBy-keep_if :
      (p : A → Bool) (xs : List A) → IsDistinctBy xs → IsDistinctBy (keep_if p xs)
  IsDistinctBy-keep_if p [] d = tt
  IsDistinctBy-keep_if p (s ∷ xs) d = elim (Bool-cases (p s)) [
    | inl kept ↦ rw kept (
      All-Elem (λ t. key t ≢ key s) (keep_if p xs)
          (λ t e. Elem-All (λ t. key t ≢ key s) xs t d.0 (Elem-keep_if p xs t e).0),
      IsDistinctBy-keep_if p xs d.1,
    )
    | inr dropped ↦ rw dropped (IsDistinctBy-keep_if p xs d.1)
  ]

  pub beneath :
      (s t : A) (rest : List A)
      → key t <ℤ key s
      → All (λ x. key x <ℤ key t) rest
      → All (λ x. key x <ℤ key s) rest
  beneath s t [] lt h = tt
  beneath s t (x ∷ rest) lt h = (omega (arith, h.0), beneath s t rest lt h.1)

  IsDescendingBy-insert_sorted :
      (s : A) (ys : List A)
      → All (λ t. key t ≢ key s) ys
      → IsDescendingBy ys
      → IsDescendingBy (insert_sorted above s ys)
  IsDescendingBy-insert_sorted s [] fresh d = (tt, tt)
  IsDescendingBy-insert_sorted s (t ∷ ys) fresh d = elim (Bool-cases (above t s)) [
    | inl after ↦ rw after (
      All-insert_sorted above (λ x. key x <ℤ key t) s ys (ground arith) d.0,
      IsDescendingBy-insert_sorted s ys fresh.1 d.1,
    )
    | inr before ↦
        let lt : key t <ℤ key s = ground (arith, eq_of_parts (key t) (key s)) in
        rw before ((lt, beneath s t ys lt d.0), d)
  ]

  pub IsDescendingBy-sort_slice :
      (xs : List A) → IsDistinctBy xs → IsDescendingBy (sort_slice above xs)
  IsDescendingBy-sort_slice [] d = tt
  IsDescendingBy-sort_slice (s ∷ xs) d =
      IsDescendingBy-insert_sorted s (sort_slice above xs)
        (All-sort_slice above (λ t. key t ≢ key s) xs d.0) (IsDescendingBy-sort_slice xs d.1)

  pub IsDescendingBy-take : (n : ℕ) (xs : List A) → IsDescendingBy xs → IsDescendingBy (take n xs)
  IsDescendingBy-take zero xs d = tt
  IsDescendingBy-take (suc n) [] d = tt
  IsDescendingBy-take (suc n) (s ∷ xs) d = (
    All-Elem (λ t. key t <ℤ key s) (take n xs)
        (λ t e. Elem-All (λ t. key t <ℤ key s) xs t d.0 (Elem-take n xs t e)),
    IsDescendingBy-take n xs d.1,
  )

  -- What a prefix of a descending list leaves out is beneath all that it keeps.
  pub take-rest :
      (n : ℕ) (xs : List A) (s : A)
      → IsDescendingBy xs
      → Elem s xs
      → Elem s (take n xs) ⊎ (length (take n xs) ≡ n) × All (λ t. key s <ℤ key t) (take n xs)
  take-rest zero xs s d e = inr (refl, tt)
  take-rest (suc n) [] s d e = absurd e
  take-rest (suc n) (x ∷ xs) s d (inl same) = inl (inl same)
  take-rest (suc n) (x ∷ xs) s d (inr e) = elim (take-rest n xs s d.1 e) [
    | inl kept ↦ inl (inr kept)
    | inr (full, older) ↦
        inr (ap (λ k. suc k) full, (Elem-All (λ t. key t <ℤ key x) xs s d.0 e, older))
  ]

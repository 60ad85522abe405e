-- ===== src/Base/Sorting/Order.antt =====
-- The elements of sorted lists, of filters and of prefixes.
use Prim.Native.Nat.{ℕ, zero, suc}
use mathlib.Core.Path.{◌≡◌, refl, ap, ◌∙◌}
use mathlib.Core.Logic.{◌⊎◌, inl, inr}
use mathlib.Core.Bool.{Bool, true}
use mathlib.Core.List.{List, [], ◌∷◌}
use native.Mathlib.Omega.{arith}
use etcd_studio.Base.Tests.{Bool-cases}
use etcd_studio.Base.Lists.{All, Elem, length, keep_if, take}
use etcd_studio.Base.Sorting.{insert_sorted, sort_slice}

module _ {A : Type 0} where
  pub Elem-All : (P : A → Type 0) (xs : List A) (a : A) → All P xs → Elem a xs → P a
  Elem-All P [] a h e = absurd e
  Elem-All P (x ∷ xs) a h (inl same) = rw same h.0
  Elem-All P (x ∷ xs) a h (inr e) = Elem-All P xs a h.1 e

  pub All-Elem : (P : A → Type 0) (xs : List A) → ((a : A) → Elem a xs → P a) → All P xs
  All-Elem P [] h = tt
  All-Elem P (x ∷ xs) h = (h x (inl refl), All-Elem P xs (λ a e. h a (inr e)))

  pub All-keep_if :
      (P : A → Type 0) (p : A → Bool) (xs : List A)
      → All P xs
      → All (λ a. P a × (p a ≡ true)) (keep_if p xs)
  All-keep_if P p [] h = tt
  All-keep_if P p (x ∷ xs) h = elim (Bool-cases (p x)) [
    | inl kept ↦ rw kept ((h.0, kept), All-keep_if P p xs h.1)
    | inr dropped ↦ rw dropped (All-keep_if P p xs h.1)
  ]

  pub Elem-keep_if :
      (p : A → Bool) (xs : List A) (a : A) → Elem a (keep_if p xs) → Elem a xs × (p a ≡ true)
  Elem-keep_if p xs a e =
      Elem-All (λ b. Elem b xs × (p b ≡ true)) (keep_if p xs) a
        (All-keep_if (λ b. Elem b xs) p xs (All-Elem (λ b. Elem b xs) xs (λ b i. i))) e

  pub keep_if-Elem :
      (p : A → Bool) (xs : List A) (a : A) → Elem a xs → p a ≡ true → Elem a (keep_if p xs)
  keep_if-Elem p [] a e h = absurd e
  keep_if-Elem p (x ∷ xs) a (inl same) h = ground (arith, ap p same)
  keep_if-Elem p (x ∷ xs) a (inr e) h = ground (arith, keep_if-Elem p xs a e h)

  pub Elem-take : (n : ℕ) (xs : List A) (a : A) → Elem a (take n xs) → Elem a xs
  Elem-take zero xs a e = absurd e
  Elem-take (suc n) [] a e = absurd e
  Elem-take (suc n) (x ∷ xs) a (inl same) = inl same
  Elem-take (suc n) (x ∷ xs) a (inr e) = inr (Elem-take n xs a e)

module _ {A : Type 0} (less : A → A → Bool) where
  pub All-insert_sorted :
      (P : A → Type 0) (x : A) (ys : List A) → P x → All P ys → All P (insert_sorted less x ys)
  All-insert_sorted P x [] p h = (p, tt)
  All-insert_sorted P x (y ∷ ys) p h = ground (arith, All-insert_sorted P x ys p h.1)

  pub All-sort_slice : (P : A → Type 0) (xs : List A) → All P xs → All P (sort_slice less xs)
  All-sort_slice P [] h = tt
  All-sort_slice P (x ∷ xs) h =
      All-insert_sorted P x (sort_slice less xs) h.0 (All-sort_slice P xs h.1)

  pub length-insert_sorted :
      (x : A) (ys : List A) → length (insert_sorted less x ys) ≡ suc (length ys)
  length-insert_sorted x [] = refl
  length-insert_sorted x (y ∷ ys) = ground (arith, length-insert_sorted x ys)

  pub length-sort_slice : (xs : List A) → length (sort_slice less xs) ≡ length xs
  length-sort_slice [] = refl
  length-sort_slice (x ∷ xs) =
      length-insert_sorted x (sort_slice less xs) ∙ ap (λ n. suc n) (length-sort_slice xs)

  insert_sorted-Elem :
      (x : A) (ys : List A) (a : A) → (a ≡ x) ⊎ Elem a ys → Elem a (insert_sorted less x ys)
  insert_sorted-Elem x [] a e = e
  insert_sorted-Elem x (y ∷ ys) a (inl same) = ground (arith, insert_sorted-Elem x ys a (inl same))
  insert_sorted-Elem x (y ∷ ys) a (inr (inl same)) = ground arith
  insert_sorted-Elem x (y ∷ ys) a (inr (inr e)) = ground (arith, insert_sorted-Elem x ys a (inr e))

  -- Sorting loses no element.
  pub sort_slice-Elem : (xs : List A) (a : A) → Elem a xs → Elem a (sort_slice less xs)
  sort_slice-Elem [] a e = e
  sort_slice-Elem (x ∷ xs) a (inl same) = insert_sorted-Elem x (sort_slice less xs) a (inl same)
  sort_slice-Elem (x ∷ xs) a (inr e) =
      insert_sorted-Elem x (sort_slice less xs) a (inr (sort_slice-Elem xs a e))

  -- It adds none.
  pub Elem-sort_slice : (xs : List A) (a : A) → Elem a (sort_slice less xs) → Elem a xs
  Elem-sort_slice xs a e =
      Elem-All (λ b. Elem b xs) (sort_slice less xs) a
        (All-sort_slice (λ b. Elem b xs) xs (All-Elem (λ b. Elem b xs) xs (λ b i. i))) e

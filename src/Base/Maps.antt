-- ===== src/Base/Maps.antt =====
-- Go's maps with string keys as association lists.
use mathlib.Core.Path.{◌≡◌, refl, sym, ◌∙◌}
use mathlib.Core.Logic.{◌≢◌, inl, inr}
use mathlib.Core.Bool.{Bool, true, false}
use mathlib.Core.List.{List, [], ◌∷◌}
use mathlib.Core.Option.{Option, none, some}
use Prim.Native.String.{String}
use text.Mathlib.Text.{◌==◌}
use text.Mathlib.TextEquality.{eq_iff}
use native.Mathlib.Omega.{arith}
use etcd_studio.Base.Tests.{if◌then◌else◌, Bool-cases}
use etcd_studio.Base.Lists.{any}

pub eq_of_test : (a b : String) → (a == b) ≡ true → a ≡ b
eq_of_test a b h = (eq_iff a b).0 h

pub test_of_ne : (a b : String) → a ≢ b → (a == b) ≡ false
test_of_ne a b h = elim (Bool-cases (a == b)) [
  | inl same ↦ absurd (h (eq_of_test a b same))
  | inr other ↦ other
]

module _ {V : Type 0} where
  -- `m[key]`
  abbrev pub lookup : String → List (String × V) → Option V
  lookup key [] = none
  lookup key ((k, v) ∷ rest) = if k == key then some v else lookup key rest

  -- `m[key] = v`
  abbrev pub put_entry : String → V → List (String × V) → List (String × V)
  put_entry key v [] = (key, v) ∷ []
  put_entry key v ((k, old) ∷ rest) =
      if k == key then (k, v) ∷ rest else (k, old) ∷ put_entry key v rest

  -- `delete(m, key)`
  abbrev pub remove_entry : String → List (String × V) → List (String × V)
  remove_entry key [] = []
  remove_entry key ((k, v) ∷ rest) =
      if k == key then remove_entry key rest else (k, v) ∷ remove_entry key rest

  pub lookup-put_entry :
      (k key : String) (v : V) (es : List (String × V))
      → lookup k (put_entry key v es) ≡ (if key == k then some v else lookup k es)
  lookup-put_entry k key v [] = refl
  lookup-put_entry k key v ((x, old) ∷ es) = elim (Bool-cases (x == key)) [
    | inl here ↦ rw (here, eq_of_test x key here) (ground arith)
    | inr elsewhere ↦ elim (Bool-cases (x == k)) [
      | inl found ↦
          let other : (key == k) ≡ false =
            test_of_ne key k
              (λ e. cc (elsewhere, (eq_iff x key).1 (eq_of_test x k found ∙ sym e))) in
          rw (elsewhere, other, found) refl
      | inr missing ↦ rw (elsewhere, missing) (lookup-put_entry k key v es)
    ]
  ]

  pub lookup-remove_entry :
      (k key : String) (es : List (String × V))
      → lookup k (remove_entry key es) ≡ (if key == k then none else lookup k es)
  lookup-remove_entry k key [] = ground arith
  lookup-remove_entry k key ((x, v) ∷ es) = elim (Bool-cases (x == key)) [
    | inl here ↦ rw (here, eq_of_test x key here) (lookup-remove_entry k key es ∙ ground arith)
    | inr elsewhere ↦ elim (Bool-cases (x == k)) [
      | inl found ↦
          let other : (key == k) ≡ false =
            test_of_ne key k
              (λ e. cc (elsewhere, (eq_iff x key).1 (eq_of_test x k found ∙ sym e))) in
          rw (elsewhere, found, other) refl
      | inr missing ↦ rw (elsewhere, missing) (lookup-remove_entry k key es)
    ]
  ]

  -- What no entry has, no value that is looked up has.
  pub lookup-any :
      (test : String × V → Bool) (k : String) (v : V) (es : List (String × V))
      → any test es ≡ false
      → lookup k es ≡ some v
      → test (k, v) ≡ false
  lookup-any test k v [] h e = cc
  lookup-any test k v ((x, w) ∷ es) h e = elim (Bool-cases (x == k)) [
    | inl here ↦
        let at : test (x, w) ≡ false = ground arith in rw (← eq_of_test x k here) (ground arith)
    | inr elsewhere ↦ lookup-any test k v es (ground arith) (ground arith)
  ]

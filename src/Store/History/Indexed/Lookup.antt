-- ===== src/Store/History/Indexed/Lookup.antt =====
-- Lookups after a write to the map of lists.
use etcd_studio.Base.{
  String, true, false, ◌==◌, eq_iff, ◌≡◌, ◌≢◌, refl, sym, ◌∙◌, inl, inr, All, List, [], ◌∷◌, arith,
  Bool-cases, if◌then◌else◌,
}
use etcd_studio.Store.Types.{ValueSnapshot}
use etcd_studio.Store.History.Log.{Buckets, bucket, put_bucket}
use etcd_studio.Store.History.Indexed.{HasUniqueKeys}

pub test_eq : (a b : String) → (a == b) ≡ true → a ≡ b
test_eq a b h = (eq_iff a b).0 h

pub test_ne : (a b : String) → (a == b) ≡ false → a ≢ b
test_ne a b h e = cc (h, (eq_iff a b).1 e)

pub ne_test : (a b : String) → a ≢ b → (a == b) ≡ false
ne_test a b h = elim (Bool-cases (a == b)) [
  | inl same ↦ absurd (h (test_eq a b same))
  | inr other ↦ other
]

-- What a lookup gives after a write.
pub bucket-put_bucket :
    (k key : String) (v : List ValueSnapshot) (es : Buckets)
    → bucket k (put_bucket key v es) ≡ (if key == k then v else bucket k es)
bucket-put_bucket k key v [] = refl
bucket-put_bucket k key v ((x, old) ∷ es) = elim (Bool-cases (x == key)) [
  | inl here ↦ rw (here, test_eq x key here) (ground arith)
  | inr elsewhere ↦ elim (Bool-cases (x == k)) [
    | inl found ↦
        let other : (key == k) ≡ false =
          ne_test key k (λ e. test_ne x key elsewhere (test_eq x k found ∙ sym e)) in
        rw (elsewhere, other, found) refl
    | inr missing ↦ rw (elsewhere, missing) (bucket-put_bucket k key v es)
  ]
]

put_bucket-fresh :
    (k key : String) (v : List ValueSnapshot) (es : Buckets)
    → key ≢ k
    → All (λ (b : String × List ValueSnapshot). b.0 ≢ k) es
    → All (λ (b : String × List ValueSnapshot). b.0 ≢ k) (put_bucket key v es)
put_bucket-fresh k key v [] ne h = (ne, tt)
put_bucket-fresh k key v ((x, old) ∷ es) ne h = elim (Bool-cases (x == key)) [
  | inl here ↦ rw here (h.0, h.1)
  | inr elsewhere ↦ rw elsewhere (h.0, put_bucket-fresh k key v es ne h.1)
]

pub put_bucket-HasUniqueKeys :
    (key : String) (v : List ValueSnapshot) (es : Buckets)
    → HasUniqueKeys es
    → HasUniqueKeys (put_bucket key v es)
put_bucket-HasUniqueKeys key v [] u = (tt, tt)
put_bucket-HasUniqueKeys key v ((x, old) ∷ es) u = elim (Bool-cases (x == key)) [
  | inl here ↦ rw here u
  | inr elsewhere ↦ rw elsewhere (
    put_bucket-fresh x key v es (λ e. test_ne x key elsewhere (sym e)) u.0,
    put_bucket-HasUniqueKeys key v es u.1,
  )
]

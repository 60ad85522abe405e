-- ===== src/Store/Etcd/Ranges.antt =====
-- The order of keys, and what the etcd client documents about ranges of them.
use etcd_studio.Base.{
  ℕ, zero, suc, ◌≤◌, ◌<◌, Bool, true, false, not, ◌&&◌, ◌≡◌, inl, inr, refl, sym, ap, none, some,
  List, [], ◌∷◌, length, take, drop, keep_if, get_elem?, All, Elem, ltb, eqb, some_inj, ok,
  Bool-cases, if◌then◌else◌, arith,
}
use etcd_studio.Base.Int.{pos, pos_part, ltb_ℤ}
use etcd_studio.Base.Base64.{Bytes}
use mathlib.Core.Path.{subst}
use etcd_studio.Base.Sorting.Order.{Elem-All, All-Elem, Elem-keep_if}
use etcd_studio.Store.Etcd.{KeyValue, Client, GetRequest, has_prefix, is_blank}

-- The order of the bytes.
abbrev pub bytes_lt : Bytes → Bytes → Bool
bytes_lt [] [] = false
bytes_lt [] (b ∷ q) = true
bytes_lt (a ∷ p) [] = false
bytes_lt (a ∷ p) (b ∷ q) = let rest = bytes_lt p q in if eqb a b then rest else ltb a b

pub bytes_lt_self : (a : Bytes) → bytes_lt a a ≡ false
bytes_lt_self [] = refl
bytes_lt_self (a ∷ p) = ground (arith, bytes_lt_self p)

-- A key that is not below the middle one, which is not below the first, is not below the first.
pub bytes_le_trans :
    (a b c : Bytes) → bytes_lt b a ≡ false → bytes_lt c b ≡ false → bytes_lt c a ≡ false
bytes_le_trans [] b [] h k = refl
bytes_le_trans [] b (z ∷ c) h k = refl
bytes_le_trans (x ∷ a) [] c h k = absurd (ground arith)
bytes_le_trans (x ∷ a) (y ∷ b) [] h k = absurd (ground arith)
bytes_le_trans (x ∷ a) (y ∷ b) (z ∷ c) h k = ground (arith, bytes_le_trans a b c)

bytes_lt_trans : (a b c : Bytes) → bytes_lt a b ≡ true → bytes_lt b c ≡ true → bytes_lt a c ≡ true
bytes_lt_trans [] b [] h k = absurd (ground arith)
bytes_lt_trans [] b (z ∷ c) h k = refl
bytes_lt_trans (x ∷ a) [] c h k = absurd (ground arith)
bytes_lt_trans (x ∷ a) (y ∷ b) [] h k = absurd (ground arith)
bytes_lt_trans (x ∷ a) (y ∷ b) (z ∷ c) h k = ground (arith, bytes_lt_trans a b c)

bytes_lt-asym : (a b : Bytes) → bytes_lt a b ≡ true → bytes_lt b a ≡ false
bytes_lt-asym [] [] h = refl
bytes_lt-asym [] (y ∷ b) h = refl
bytes_lt-asym (x ∷ a) [] h = absurd (ground arith)
bytes_lt-asym (x ∷ a) (y ∷ b) h = ground (arith, bytes_lt-asym a b)

-- A key with a prefix is not below it.
pub prefix_le : (prefix key : Bytes) → has_prefix prefix key ≡ true → bytes_lt key prefix ≡ false
prefix_le [] [] h = refl
prefix_le [] (k ∷ ks) h = refl
prefix_le (p ∷ ps) [] h = absurd (ground arith)
prefix_le (p ∷ ps) (k ∷ ks) h = ground (arith, prefix_le ps ks)

-- Whether a key is before the end of a range; the end "\x00" stands for no end.
abbrev pub before_end : Bytes → Bytes → Bool
before_end (zero ∷ []) key = true
before_end end key = bytes_lt key end

abbrev pub in_range : Bytes → Bytes → KeyValue → Bool
in_range start end item = not (bytes_lt item.key start) && before_end end item.key

-- The keys of a list go up.
abbrev pub IsAscending : List KeyValue → Type 0
IsAscending [] = Unit
IsAscending (x ∷ xs) = All (λ y. bytes_lt x.key y.key ≡ true) xs × IsAscending xs

abbrev pub AreBytes : Bytes → Type 0
AreBytes key = All (λ b. b < 256) key

-- What the client documents about ranges, where `stored w` is what the cluster holds.
pub record IsRanged {W : Type 0} (client : Client W) (stored : W → List KeyValue) : Type 0 where
  -- The items of the range that come first in the order of their keys.
  pub range :
      (request : GetRequest) (end : Bytes) (w : W) (items : List KeyValue)
      → request.range_end ≡ some end
      → request.sorted ≡ true
      → request.at_revision ≡ pos 0
      → ltb_ℤ (pos 0) request.limit ≡ true
      → (client.get request w).0 ≡ ok items
      → items
        ≡ take
            (pos_part request.limit)
            (keep_if (in_range request.start end) (stored (client.get request w).1))
  -- `GetPrefixRangeEnd`: the range from a prefix to its end holds the keys with the prefix.
  pub prefix_end :
      (prefix key : Bytes)
      → is_blank prefix ≡ false
      → AreBytes prefix
      → AreBytes key
      → (not (bytes_lt key prefix) && before_end (client.prefix_range_end prefix) key)
        ≡ has_prefix prefix key
  pub ascending : (w : W) → IsAscending (stored w)
  -- etcd has no empty key.
  pub keys : (w : W) → All (λ x. is_blank x.key ≡ false) (stored w)
  pub bytes : (w : W) → All (λ x. AreBytes x.key) (stored w)

-- The items under a prefix from a cursor on.
abbrev pub is_listed : Bytes → Bytes → KeyValue → Bool
is_listed prefix cursor item = has_prefix prefix item.key && not (bytes_lt item.key cursor)

abbrev pub listed : Bytes → Bytes → List KeyValue → List KeyValue
listed prefix cursor items = keep_if (is_listed prefix cursor) items

pub keep_if-same :
    {A : Type 0} (p q : A → Bool) (xs : List A)
    → All (λ x. p x ≡ q x) xs
    → keep_if p xs ≡ keep_if q xs
keep_if-same p q [] h = refl
keep_if-same p q (x ∷ xs) h = rw (h.0, keep_if-same p q xs h.1) refl

pub keep_if-keep_if :
    {A : Type 0} (p q : A → Bool) (xs : List A)
    → keep_if q (keep_if p xs) ≡ keep_if (λ x. p x && q x) xs
keep_if-keep_if p q [] = refl
keep_if-keep_if p q (x ∷ xs) = elim (Bool-cases (p x)) [
  | inl kept ↦ rw (kept, keep_if-keep_if p q xs) refl
  | inr dropped ↦ rw (dropped, keep_if-keep_if p q xs) refl
]

pub take-take : {A : Type 0} (n : ℕ) (xs : List A) → take n (take (suc n) xs) ≡ take n xs
take-take zero [] = refl
take-take zero (x ∷ xs) = refl
take-take (suc n) [] = refl
take-take (suc n) (x ∷ xs) = ap (λ r. x ∷ r) (take-take n xs)

pub get_elem?-take :
    {A : Type 0} (n : ℕ) (xs : List A) → get_elem? (take (suc n) xs) n ≡ get_elem? xs n
get_elem?-take zero [] = refl
get_elem?-take zero (x ∷ xs) = refl
get_elem?-take (suc n) [] = refl
get_elem?-take (suc n) (x ∷ xs) = get_elem?-take n xs

pub get_elem?-none : {A : Type 0} (n : ℕ) (xs : List A) → get_elem? xs n ≡ none → length xs ≤ n
get_elem?-none n [] h = omega arith
get_elem?-none zero (x ∷ xs) h = absurd (cc h)
get_elem?-none (suc n) (x ∷ xs) h = omega (arith, get_elem?-none n xs h)

pub get_elem?-Elem :
    {A : Type 0} (n : ℕ) (xs : List A) (a : A) → get_elem? xs n ≡ some a → Elem a xs
get_elem?-Elem n [] a h = absurd (cc h)
get_elem?-Elem zero (x ∷ xs) a h = inl (sym (some_inj h))
get_elem?-Elem (suc n) (x ∷ xs) a h = inr (get_elem?-Elem n xs a h)

-- From a key of an ascending list on, a list has what is behind its place.
abbrev pub not_before : KeyValue → KeyValue → Bool
not_before x y = not (bytes_lt y.key x.key)

keep_if-All :
    {A : Type 0} (p : A → Bool) (xs : List A) → All (λ x. p x ≡ true) xs → keep_if p xs ≡ xs
keep_if-All p [] h = refl
keep_if-All p (x ∷ xs) h = rw (h.0, keep_if-All p xs h.1) refl

pub from_place :
    (n : ℕ) (xs : List KeyValue) (x : KeyValue)
    → IsAscending xs
    → get_elem? xs n ≡ some x
    → keep_if (not_before x) xs ≡ drop n xs
from_place n [] x up h = absurd (cc h)
from_place zero (y ∷ ys) x up h =
    let same : y ≡ x = some_inj h in
    let after : All (λ z. not_before x z ≡ true) ys =
      All-Elem (λ z. not_before x z ≡ true) ys
        (λ z there.
          let lt : bytes_lt x.key z.key ≡ true =
            subst (λ k. bytes_lt k.key z.key ≡ true) same
              (Elem-All (λ w. bytes_lt y.key w.key ≡ true) ys z up.0 there) in
          rw (bytes_lt-asym x.key z.key lt) refl) in
    let here : not_before x y ≡ true = rw (same, bytes_lt_self x.key) refl in
    keep_if-All (not_before x) (y ∷ ys) (here, after)
from_place (suc n) (y ∷ ys) x up h =
    let lt : bytes_lt y.key x.key ≡ true =
      Elem-All (λ w. bytes_lt y.key w.key ≡ true) ys x up.0 (get_elem?-Elem n ys x h) in
    rw lt (from_place n ys x up.1 h)

pub IsAscending-keep_if :
    (p : KeyValue → Bool) (xs : List KeyValue) → IsAscending xs → IsAscending (keep_if p xs)
IsAscending-keep_if p [] h = tt
IsAscending-keep_if p (x ∷ xs) h = elim (Bool-cases (p x)) [
  | inl kept ↦ rw kept (
    All-Elem (λ y. bytes_lt x.key y.key ≡ true) (keep_if p xs)
        (λ y there.
          Elem-All (λ y. bytes_lt x.key y.key ≡ true) xs y h.0 (Elem-keep_if p xs y there).0),
    IsAscending-keep_if p xs h.1,
  )
  | inr dropped ↦ rw dropped (IsAscending-keep_if p xs h.1)
]

-- ===== src/Store/Etcd/Pages.antt =====
-- The pages of `List`, internal/store/etcd.go, against the keys that the cluster holds.
use etcd_studio.Base.{
  ℕ, suc, ◌≤◌, true, false, not, ◌&&◌, ◌≡◌, ◌⊎◌, inl, inr, refl, sym, ap, ◌∙◌, List, [], ◌∷◌,
  length, take, drop, map, keep_if, get_elem?, ok, Result-cases, Bool-cases, Option-cases, ok_inj,
  if◌then◌else◌, arith,
}
use mathlib.Core.Path.{subst}
use etcd_studio.Base.Int.{ℤ, pos, negsuc, pos_part, ltb_ℤ}
use etcd_studio.Base.Base64.{Bytes}
use etcd_studio.Base.Sorting.Order.{Elem-All, All-Elem, Elem-keep_if}
use etcd_studio.Store.Types.{Entry, Page}
use etcd_studio.Store.Etcd.{
  KeyValue, Client, entry_from_kv, has_prefix, is_blank, page_of, range_request, list, max_int64,
  succ_int64,
}
use etcd_studio.Store.Etcd.Ranges.{
  bytes_lt, bytes_le_trans, prefix_le, in_range, IsRanged, AreBytes, is_listed, listed,
  keep_if-same, keep_if-keep_if, take-take, get_elem?-take, get_elem?-none, get_elem?-Elem,
  from_place, IsAscending-keep_if,
}

-- How the program shows an item, field by field.
abbrev shown_as : KeyValue → Entry
shown_as item = record {
  key = item.key;
  value = item.value;
  create_revision = item.create_revision;
  mod_revision = item.mod_revision;
  version = item.version;
  lease = item.lease;
}

-- A page of the items `rest` that are left: the first ones, and where the next page starts, if more are
-- left. `after next` is what is left from there.
pub record IsPageOf (limit : ℕ) (prefix : Bytes) (rest : List KeyValue)
    (after : Bytes → List KeyValue) (page : Page) : Type 0 where
  pub first : page.entries ≡ map shown_as (take limit rest)
  pub next :
      (page.next_cursor ≡ []) × (length rest ≤ limit)
      ⊎ (is_blank page.next_cursor ≡ false)
        × (has_prefix prefix page.next_cursor ≡ true)
        × (after page.next_cursor ≡ drop limit rest)

bytes_lt-blank : (key cursor : Bytes) → is_blank cursor ≡ true → bytes_lt key cursor ≡ false
bytes_lt-blank [] [] h = refl
bytes_lt-blank (k ∷ ks) [] h = refl
bytes_lt-blank key (c ∷ cs) h = absurd (cc h)

bytes_lt-zero : (key : Bytes) → is_blank key ≡ false → bytes_lt key (0 ∷ []) ≡ false
bytes_lt-zero [] h = absurd (cc h)
bytes_lt-zero (k ∷ []) h = ground arith
bytes_lt-zero (k ∷ j ∷ ks) h = ground arith

has_prefix-blank : (prefix key : Bytes) → is_blank prefix ≡ true → has_prefix prefix key ≡ true
has_prefix-blank [] key h = refl
has_prefix-blank (p ∷ ps) key h = absurd (cc h)

succ_int64-below : (n : ℕ) → ltb_ℤ (pos n) max_int64 ≡ true → succ_int64 (pos n) ≡ pos (suc n)
succ_int64-below n h = ground arith

module _ {W : Type 0} (client : Client W) (stored : W → List KeyValue)
    (documented : IsRanged client stored) where
  abbrev end_of : Bytes → Bytes
  end_of prefix = if is_blank prefix then 0 ∷ [] else client.prefix_range_end prefix

  -- The range of a request holds what is listed.
  in_range-is_listed :
      (prefix cursor : Bytes) (limit : ℤ) (x : KeyValue)
      → (not (is_blank cursor) && not (has_prefix prefix cursor)) ≡ false
      → is_blank x.key ≡ false
      → AreBytes prefix
      → AreBytes x.key
      → in_range (range_request client prefix cursor limit).start (end_of prefix) x
        ≡ is_listed prefix cursor x
  in_range-is_listed prefix cursor limit x within solid of_bytes key_bytes =
      elim (Bool-cases (is_blank cursor)) [
        | inl no_cursor ↦ elim (Bool-cases (is_blank prefix)) [
          | inl no_prefix ↦
              rw
                (
                  no_cursor,
                  no_prefix,
                  bytes_lt-zero x.key solid,
                  has_prefix-blank prefix x.key no_prefix,
                  bytes_lt-blank x.key cursor no_cursor,
                )
                refl
          | inr some_prefix ↦
              let law = documented.prefix_end prefix x.key some_prefix of_bytes key_bytes in
              rw (no_cursor, some_prefix, bytes_lt-blank x.key cursor no_cursor)
                (ground (arith, law))
        ]
        | inr some_cursor ↦ elim (Bool-cases (is_blank prefix)) [
          | inl no_prefix ↦
              rw (some_cursor, no_prefix, has_prefix-blank prefix x.key no_prefix) (ground arith)
          | inr some_prefix ↦
              let law = documented.prefix_end prefix x.key some_prefix of_bytes key_bytes in
              let prefixed : has_prefix prefix cursor ≡ true = ground arith in
              elim (Bool-cases (bytes_lt x.key cursor)) [
                | inl below ↦ rw (some_cursor, some_prefix, below) (ground arith)
                | inr above ↦
                    let high =
                      bytes_le_trans prefix cursor x.key (prefix_le prefix cursor prefixed) above in
                    rw (some_cursor, some_prefix, above) (ground (arith, law, high))
              ]
        ]
      ]

  -- What the client answers to the request of a page.
  answered-listed :
      (prefix cursor : Bytes) (limit : ℤ) (w : W) (items : List KeyValue)
      → ltb_ℤ limit (pos 1) ≡ false
      → ltb_ℤ limit max_int64 ≡ true
      → AreBytes prefix
      → (not (is_blank cursor) && not (has_prefix prefix cursor)) ≡ false
      → (client.get (range_request client prefix cursor limit) w).0 ≡ ok items
      → items
        ≡ take (suc (pos_part limit)) (
            listed prefix cursor
              (stored (client.get (range_request client prefix cursor limit) w).1))
  answered-listed prefix cursor (negsuc n) w items positive small of_bytes within answer =
      absurd (ground arith)
  answered-listed prefix cursor (pos n) w items positive small of_bytes within answer =
      let request = range_request client prefix cursor (pos n) in
      let there = stored (client.get request w).1 in
      let next : succ_int64 (pos n) ≡ pos (suc n) = succ_int64-below n small in
      documented.range request (end_of prefix) w items refl refl refl
        (ap (λ (l : ℤ). ltb_ℤ (pos 0) l) next ∙ ground arith) answer
      ∙ ap (λ (l : ℤ). take (pos_part l) (keep_if (in_range request.start (end_of prefix)) there))
          next
      ∙ ap (take (suc n)) (
          keep_if-same (in_range request.start (end_of prefix)) (is_listed prefix cursor) there (
            All-Elem (λ x. in_range request.start (end_of prefix) x ≡ is_listed prefix cursor x)
              there
              (λ x at.
                in_range-is_listed prefix cursor (pos n) x within
                  (Elem-All (λ (y : KeyValue). is_blank y.key ≡ false) there x
                    (documented.keys (client.get request w).1) at)
                  of_bytes
                  (Elem-All (λ (y : KeyValue). AreBytes y.key) there x
                    (documented.bytes (client.get request w).1) at))))

  -- What is listed from a listed key on is a part of what was listed.
  listed-next :
      (prefix cursor next : Bytes) (items : List KeyValue)
      → bytes_lt next cursor ≡ false
      → listed prefix next items
        ≡ keep_if (λ (y : KeyValue). not (bytes_lt y.key next)) (listed prefix cursor items)
  listed-next prefix cursor next items high =
      keep_if-same (is_listed prefix next)
        (λ (y : KeyValue). is_listed prefix cursor y && not (bytes_lt y.key next)) items
        (All-Elem
          (λ (y : KeyValue).
            is_listed prefix next y ≡ (is_listed prefix cursor y && not (bytes_lt y.key next)))
          items (λ y at. from_higher y))
      ∙ sym (
          keep_if-keep_if (is_listed prefix cursor) (λ (y : KeyValue). not (bytes_lt y.key next))
            items)
    where
      from_higher :
          (y : KeyValue)
          → is_listed prefix next y ≡ (is_listed prefix cursor y && not (bytes_lt y.key next))
      from_higher y = elim (Bool-cases (bytes_lt y.key next)) [
        | inl below ↦ rw below (ground arith)
        | inr above ↦ rw (above, bytes_le_trans cursor next y.key high above) (ground arith)
      ]

  page_of-IsPageOf :
      (prefix cursor : Bytes) (limit : ℤ) (items : List KeyValue) (w : W)
      → items ≡ take (suc (pos_part limit)) (listed prefix cursor (stored w))
      → IsPageOf
          (pos_part limit)
          prefix
          (listed prefix cursor (stored w))
          (λ next. listed prefix next (stored w))
          (page_of limit items)
  page_of-IsPageOf prefix cursor limit items w answer =
      let n = pos_part limit in
      let rest = listed prefix cursor (stored w) in
      rw answer (elim (Option-cases (get_elem? rest n)) [
        | inl at_end ↦ record {
          first = ap (map entry_from_kv) (take-take n rest);
          next = rw (get_elem?-take n rest, at_end) (inl (refl, get_elem?-none n rest at_end));
        }
        | inr (x, more) ↦
            let (there, is) =
              Elem-keep_if (is_listed prefix cursor) (stored w) x (get_elem?-Elem n rest x more) in
            let solid =
              Elem-All (λ (y : KeyValue). is_blank y.key ≡ false) (stored w) x (documented.keys w)
                there in
            let prefixed : has_prefix prefix x.key ≡ true = ground arith in
            let high : bytes_lt x.key cursor ≡ false = ground arith in
            record {
              first = ap (map entry_from_kv) (take-take n rest);
              next =
                  rw (get_elem?-take n rest, more)
                    (inr (
                      solid,
                      prefixed,
                      listed-next prefix cursor x.key (stored w) high
                          ∙ from_place n rest x
                              (IsAscending-keep_if (is_listed prefix cursor) (stored w)
                                (documented.ascending w))
                              more,
                    ));
            }
      ])

  -- A page that is listed holds the first entries under the prefix from the cursor on, at most `limit` of
  -- them, in the order of their keys. If there is no next cursor, nothing was left out. Otherwise
  -- the next cursor is under the prefix, and from it on, in the same state of the cluster, are exactly
  -- the entries after the page: pages that follow each other leave no gap and do not overlap. The client
  -- answers ranges as `IsRanged` says, and the limit is below the largest int64.
  pub list-IsPageOf :
      (prefix cursor : Bytes) (limit : ℤ) (w : W) (page : Page)
      → AreBytes prefix
      → ltb_ℤ limit max_int64 ≡ true
      → (list client prefix cursor limit w).0 ≡ ok page
      → IsPageOf
          (pos_part limit)
          prefix
          (listed prefix cursor (stored (list client prefix cursor limit w).1))
          (λ next. listed prefix next (stored (list client prefix cursor limit w).1))
          page
  unfolding list
  list-IsPageOf prefix cursor limit w page of_bytes small h =
      elim (Bool-cases (ltb_ℤ limit (pos 1))) [
        | inl low ↦ absurd (cc (rw (low, list) at h))
        | inr positive ↦
            elim (Bool-cases (not (is_blank cursor) && not (has_prefix prefix cursor))) [
              | inl outside ↦ absurd (cc (rw (positive, outside, list) at h))
              | inr within ↦
                  let request = range_request client prefix cursor limit in
                  elim (Result-cases (client.get request w).0) [
                    | inl (e, failed) ↦ absurd (cc (rw (positive, within, failed, list) at h))
                    | inr (items, answer) ↦
                        let is : page_of limit items ≡ page =
                          ok_inj (rw (positive, within, answer, list) at h) in
                        rw (positive, within, answer, list)
                          (subst
                            (IsPageOf (pos_part limit) prefix
                              (listed prefix cursor (stored (client.get request w).1))
                              (λ next. listed prefix next (stored (client.get request w).1)))
                            is
                            (page_of-IsPageOf prefix cursor limit items (client.get request w).1 (
                              answered-listed prefix cursor limit w items positive small of_bytes
                                within answer)))
                  ]
            ]
      ]

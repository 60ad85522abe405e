-- ===== src/Store/Etcd.antt =====
-- `Etcd` of internal/store/etcd.go over the etcd client, which is the field of `Client`.

pub mod Meaning
pub mod Ranges
pub mod Pages
use etcd_studio.Base.{
  String, Bool, true, false, not, ◌&&◌, Option, none, some, List, [], ◌∷◌, ltb, eqb, length, take,
  get_elem?, map, if◌then◌else◌, Result, ok, err, Result-cases,
}
use etcd_studio.Base.Int.{ℤ, pos, negsuc, pos_part, ltb_ℤ, eqb_ℤ, succ_ℤ}
use etcd_studio.Base.Base64.{Bytes}
use etcd_studio.Store.Types.{
  Entry, Page, ClientError, compacted, StoreError, conflict, history_compacted, no_previous_version,
  bad_limit, bad_cursor, client_failed,
}
use etcd_studio.Store.Kv.{Kv}

-- `mvccpb.KeyValue`
pub record KeyValue : Type 0 where
  pub key : Bytes
  pub value : Bytes
  pub create_revision : ℤ
  pub mod_revision : ℤ
  pub version : ℤ
  pub lease : ℤ

-- A `Get` of the client with its options: `WithRange`, `WithRev` (0 if there is none), `WithLimit` and
-- `WithSort` by key, ascending.
pub record GetRequest : Type 0 where
  pub start : Bytes
  pub range_end : Option Bytes
  pub at_revision : ℤ
  pub limit : ℤ
  pub sorted : Bool

-- `clientv3.Compare(clientv3.ModRevision(key), relation, mod_revision)`
pub record Compare : Type 0 where
  pub key : Bytes
  pub relation : String
  pub mod_revision : ℤ

-- `clientv3.OpPut(key, value)` and `clientv3.OpDelete(key)`
pub data Op : Type 0 where
  op_put : Bytes → Bytes → Op
  op_delete : Bytes → Op

-- `Txn(ctx).If(conditions).Then(operations)`
pub record Txn : Type 0 where
  pub conditions : List Compare
  pub operations : List Op

-- go.etcd.io/etcd/client/v3. `put` answers with the revision, `delete` with the revision and the number
-- of deleted keys, and `commit` with whether the conditions held and the revision;
-- `prefix_range_end` is `GetPrefixRangeEnd`.
pub record Client (W : Type 0) : Type 0 where
  pub get : GetRequest → W → Result ClientError (List KeyValue) × W
  pub put : Bytes → Bytes → W → Result ClientError ℤ × W
  pub delete : Bytes → W → Result ClientError (ℤ × ℤ) × W
  pub commit : Txn → W → Result ClientError (Bool × ℤ) × W
  pub prefix_range_end : Bytes → Bytes

abbrev pub entry_from_kv : KeyValue → Entry
entry_from_kv item = record {
  key = item.key;
  value = item.value;
  create_revision = item.create_revision;
  mod_revision = item.mod_revision;
  version = item.version;
  lease = item.lease;
}

-- `bytes.HasPrefix`, the prefix first.
abbrev pub has_prefix : Bytes → Bytes → Bool
has_prefix [] key = true
has_prefix (p ∷ ps) [] = false
has_prefix (p ∷ ps) (k ∷ ks) = eqb p k && has_prefix ps ks

abbrev pub is_blank : Bytes → Bool
is_blank [] = true
is_blank (_ ∷ _) = false

-- The first answer, if there is one.
abbrev pub first_entry : List KeyValue → Option Entry
first_entry [] = none
first_entry (item ∷ _) = some (entry_from_kv item)

-- The loop over the answer: the items before the limit, and the key of the one at it.
abbrev pub page_of : ℤ → List KeyValue → Page
page_of limit items = record {
  entries = map entry_from_kv (take (pos_part limit) items);
  next_cursor = elim (get_elem? items (pos_part limit)) [ none ↦ [] | some item ↦ item.key ];
}

-- The transaction that does something to a key if its modification revision is the expected one.
abbrev pub if_unchanged : Bytes → ℤ → Op → Txn
if_unchanged key expected operation = record {
  conditions = record { key = key; relation = "="; mod_revision = expected } ∷ [];
  operations = operation ∷ [];
}

-- `math.MaxInt64`, and `n + 1` on int64.
abbrev pub max_int64 : ℤ
max_int64 = pos 9223372036854775807

abbrev pub succ_int64 : ℤ → ℤ
succ_int64 n = if eqb_ℤ n max_int64 then negsuc 9223372036854775807 else succ_ℤ n

module _ {W : Type 0} (client : Client W) where
  -- The request of one page.
  abbrev pub range_request : Bytes → Bytes → ℤ → GetRequest
  range_request prefix cursor limit = record {
    start = if not (is_blank cursor) then cursor else if is_blank prefix then 0 ∷ [] else prefix;
    range_end = some (if is_blank prefix then 0 ∷ [] else client.prefix_range_end prefix);
    at_revision = pos 0;
    limit = succ_int64 limit;
    sorted = true;
  }

  unfoldable pub list : Bytes → Bytes → ℤ → W → Result StoreError Page × W
  list prefix cursor limit w =
      if ltb_ℤ limit (pos 1)
      then (err bad_limit, w)
      else if not (is_blank cursor) && not (has_prefix prefix cursor)
      then (err bad_cursor, w)
      else let (answer, w') = client.get (range_request prefix cursor limit) w in
        elim answer [
          | err e ↦ (err (client_failed e), w')
          | ok items ↦ (ok (page_of limit items), w')
        ]

  -- The request of one key, at a revision or at the newest.
  abbrev pub key_request : Bytes → ℤ → GetRequest
  key_request key revision = record {
    start = key;
    range_end = none;
    at_revision = revision;
    limit = pos 1;
    sorted = false;
  }

  unfoldable pub get : Bytes → W → Result StoreError (Option Entry) × W
  get key w =
      let (answer, w') = client.get (key_request key (pos 0)) w in
      elim answer [ err e ↦ (err (client_failed e), w') | ok items ↦ (ok (first_entry items), w') ]

  unfoldable pub get_at_revision : Bytes → ℤ → W → Result StoreError (Option Entry) × W
  get_at_revision key revision w =
      if ltb_ℤ revision (pos 1)
      then (err no_previous_version, w)
      else let (answer, w') = client.get (key_request key revision) w in
        elim answer [
          | err compacted ↦ (err history_compacted, w')
          | err e ↦ (err (client_failed e), w')
          | ok items ↦ (ok (first_entry items), w')
        ]

  unfoldable pub put : Bytes → Bytes → Option ℤ → W → Result StoreError ℤ × W
  put key value none w =
      let (answer, w') = client.put key value w in
      elim answer [ err e ↦ (err (client_failed e), w') | ok revision ↦ (ok revision, w') ]
  put key value (some expected) w =
      let (answer, w') = client.commit (if_unchanged key expected (op_put key value)) w in
      elim answer [
        | err e ↦ (err (client_failed e), w')
        | ok (succeeded, revision) ↦ (if succeeded then ok revision else err conflict, w')
      ]

  unfoldable pub delete : Bytes → Option ℤ → W → Result StoreError (ℤ × Bool) × W
  delete key none w =
      let (answer, w') = client.delete key w in
      elim answer [
        | err e ↦ (err (client_failed e), w')
        | ok (revision, deleted) ↦ (ok (revision, ltb_ℤ (pos 0) deleted), w')
      ]
  delete key (some expected) w =
      let (answer, w') = client.commit (if_unchanged key expected (op_delete key)) w in
      elim answer [
        | err e ↦ (err (client_failed e), w')
        | ok (succeeded, revision) ↦ (if succeeded then ok (revision, true) else err conflict, w')
      ]

  -- The client of a cluster as the handlers see it.
  unfoldable pub etcd : Kv W
  unfolding list get get_at_revision put delete
  etcd = record {
    list = list;
    get = get;
    get_at_revision = get_at_revision;
    put = put;
    delete = delete;
  }

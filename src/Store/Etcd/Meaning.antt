-- ===== src/Store/Etcd/Meaning.antt =====
-- What the calls of internal/store/etcd.go mean, by what the etcd client documents.
use etcd_studio.Base.{
  true, false, ◌≡◌, refl, inl, inr, ap, sym, ◌∙◌, Option, none, some, List, [], ◌∷◌, All, ok,
  Result-cases, ok_inj, some_inj, Bool-cases,
}
use etcd_studio.Base.Int.{ℤ, pos, ltb_ℤ}
use etcd_studio.Base.Base64.{Bytes}
use etcd_studio.Store.Types.{Entry, compacted, deadline_exceeded, unavailable}
use etcd_studio.Store.Kv.{IsKv, revision_of}
use etcd_studio.Store.Etcd.{
  KeyValue, GetRequest, Compare, Op, op_put, op_delete, Txn, Client, if_unchanged, key_request,
  first_entry, get, get_at_revision, put, etcd,
}

-- The first item of an answer, and the modification revision of a key, 0 where it is missing.
abbrev pub head : List KeyValue → Option KeyValue
head [] = none
head (item ∷ _) = some item

abbrev pub mod_of : Option KeyValue → ℤ
mod_of none = pos 0
mod_of (some item) = item.mod_revision

-- Whether a condition of a transaction holds of the keys `held`.
abbrev pub IsMet : (Bytes → Option KeyValue) → Compare → Type 0
IsMet held c = c.relation ≡ "=" → mod_of (held c.key) ≡ c.mod_revision

-- What an operation of a transaction at a revision has left in the keys `held`.
abbrev pub IsDone : (Bytes → Option KeyValue) → ℤ → Op → Type 0
IsDone held revision (op_put key value) =
    (item : KeyValue) × (held key ≡ some item)
    × (item.value ≡ value)
    × (item.mod_revision ≡ revision)
IsDone held revision (op_delete key) = held key ≡ none

-- What the client documents, where `held w key` is what etcd holds and `Later w w'` says that `w'` may
-- follow `w`.
pub record IsClient {W : Type 0} (client : Client W) (held : W → Bytes → Option KeyValue)
    (Later : W → W → Type 0) : Type 0 where
  -- A linearizable read of one key.
  pub read :
      (request : GetRequest) (w : W) (items : List KeyValue)
      → request.range_end ≡ none
      → request.at_revision ≡ pos 0
      → ltb_ℤ (pos 0) request.limit ≡ true
      → (client.get request w).0 ≡ ok items
      → held (client.get request w).1 request.start ≡ head items
  -- A transaction of one operation that succeeds found its conditions met, and did its operation
  -- there and then.
  pub commit :
      (conditions : List Compare) (operation : Op) (revision : ℤ) (w : W)
      → let txn : Txn = record { conditions = conditions; operations = operation ∷ [] } in
        (client.commit txn w).0 ≡ ok (true, revision)
        → (w1 : W) × Later w w1
          × All (IsMet (held w1)) conditions
          × IsDone (held (client.commit txn w).1) revision operation
  -- A modification revision is given once.
  pub same :
      (key : Bytes) (w w' : W) (item item' : KeyValue)
      → Later w w'
      → held w key ≡ some item
      → held w' key ≡ some item'
      → item.mod_revision ≡ item'.mod_revision
      → item ≡ item'
  pub later_read :
      (request : GetRequest) (w w' : W) → Later (client.get request w).1 w' → Later w w'

-- The entry of an item, field by field.
abbrev pub as_entry : Option KeyValue → Option Entry
as_entry none = none
as_entry (some item) = some (record {
  key = item.key;
  value = item.value;
  create_revision = item.create_revision;
  mod_revision = item.mod_revision;
  version = item.version;
  lease = item.lease;
})

as_entry-head : (items : List KeyValue) → as_entry (head items) ≡ first_entry items
as_entry-head [] = refl
as_entry-head (item ∷ items) = refl

revision_of-as_entry : (found : Option KeyValue) → revision_of (as_entry found) ≡ mod_of found
revision_of-as_entry none = refl
revision_of-as_entry (some item) = refl

as_entry-eq_some :
    (found : Option KeyValue) (e : Entry)
    → as_entry found ≡ some e
    → (item : KeyValue) × (found ≡ some item)
      × (as_entry (some item) ≡ some e)
      × (item.mod_revision ≡ e.mod_revision)
as_entry-eq_some none e h = absurd (cc h)
as_entry-eq_some (some item) e h = (item, refl, h, ap (λ (x : Entry). x.mod_revision) (some_inj h))

-- What a cluster holds under a key, as an entry.
abbrev pub current_of : {W : Type 0} → (W → Bytes → Option KeyValue) → W → Bytes → Option Entry
current_of held w key = as_entry (held w key)

module _ {W : Type 0} (client : Client W) (held : W → Bytes → Option KeyValue)
    (Later : W → W → Type 0) (documented : IsClient client held Later) where
  get-read :
      (key : Bytes) (w : W) (found : Option Entry)
      → (get client key w).0 ≡ ok found
      → current_of held (get client key w).1 key ≡ found
  unfolding get
  get-read key w found h = elim (Result-cases (client.get (key_request client key (pos 0)) w).0) [
    | inl (e, failed) ↦ absurd (cc (rw (failed, get) at h))
    | inr (items, answer) ↦
        let read = documented.read (key_request client key (pos 0)) w items refl refl refl answer in
        rw (answer, get) (ap as_entry read ∙ as_entry-head items ∙ ok_inj (rw (answer, get) at h))
  ]

  put-write :
      (key value : Bytes) (expected revision : ℤ) (w : W)
      → (put client key value (some expected) w).0 ≡ ok revision
      → (w1 : W) × Later w w1
        × (revision_of (current_of held w1 key) ≡ expected)
        × (e : Entry) × (current_of held (put client key value (some expected) w).1 key ≡ some e)
        × (e.value ≡ value)
        × (e.mod_revision ≡ revision)
  unfolding put
  put-write key value expected revision w h =
      elim (Result-cases (client.commit (if_unchanged key expected (op_put key value)) w).0) [
        | inl (e, failed) ↦ absurd (cc (rw (failed, put) at h))
        | inr ((false, reached), answer) ↦ absurd (cc (rw (answer, put) at h))
        | inr ((true, reached), answer) ↦
            let told : reached ≡ revision = ok_inj (rw (answer, put) at h) in
            let (w1, later, met, (item, there, of, on)) =
              documented.commit (record { key = key; relation = "="; mod_revision = expected } ∷ [])
                (op_put key value) revision w (answer ∙ ap (λ (x : ℤ). ok (true, x)) told) in
            rw (answer, put)
              (
                w1,
                later,
                revision_of-as_entry (held w1 key) ∙ met.0 refl,
                _,
                ap as_entry there,
                of,
                on,
              )
      ]

  current-same :
      (key : Bytes) (w w' : W) (e e' : Entry)
      → Later w w'
      → current_of held w key ≡ some e
      → current_of held w' key ≡ some e'
      → e.mod_revision ≡ e'.mod_revision
      → e ≡ e'
  current-same key w w' e e' later at at' same =
      let (item, held_at, is, on) = as_entry-eq_some (held w key) e at in
      let (item', held_at', is', on') = as_entry-eq_some (held w' key) e' at' in
      let both = documented.same key w w' item item' later held_at held_at' (on ∙ same ∙ sym on') in
      some_inj (sym is ∙ ap (λ (x : KeyValue). as_entry (some x)) both ∙ is')

  get_at_revision-Later :
      (key : Bytes) (revision : ℤ) (w w' : W)
      → Later (get_at_revision client key revision w).1 w'
      → Later w w'
  unfolding get_at_revision
  get_at_revision-Later key revision w w' h = elim (Bool-cases (ltb_ℤ revision (pos 1))) [
    | inl none_before ↦ rw (none_before, get_at_revision) at h
    | inr asked ↦
        documented.later_read (key_request client key revision) w w'
          (elim (Result-cases (client.get (key_request client key revision) w).0) [
            | inl (compacted, failed) ↦ rw (asked, failed, get_at_revision) at h
            | inl (deadline_exceeded, failed) ↦ rw (asked, failed, get_at_revision) at h
            | inl (unavailable, failed) ↦ rw (asked, failed, get_at_revision) at h
            | inr (items, answer) ↦ rw (asked, answer, get_at_revision) at h
          ])
  ]

  pub etcd-IsKv : IsKv (etcd client) (current_of held) Later
  unfolding etcd
  etcd-IsKv = record {
    read = get-read;
    write = put-write;
    same = current-same;
    later_at_revision = get_at_revision-Later;
  }

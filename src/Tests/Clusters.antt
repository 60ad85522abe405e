-- ===== src/Tests/Clusters.antt =====
-- Concrete etcd clients and histories for the tests.
use etcd_studio.Base.{
  ◌⊎◌, ℕ, zero, suc, ◌+◌, String, Bool, true, false, not, ◌&&◌, ◌||◌, ◌==◌, eq_iff, ◌≡◌, refl, sym,
  ap, ◌∙◌, inl, inr, Option, none, some, some_inj, List, [], ◌∷◌, take, keep_if, Elem,
  if◌then◌else◌, ok, err, ok_inj, Bool-cases, Option-cases, All, ltb, arith,
}
use mathlib.Core.Path.{subst}
use etcd_studio.Base.Int.{ℤ, pos, pos_part, ltb_ℤ, leb_ℤ, eqb_ℤ, eqb_ℤ→eq}
use etcd_studio.Base.Base64.{Bytes, encode_std}
use etcd_studio.Base.Maps.{lookup, put_entry, remove_entry, lookup-put_entry, lookup-remove_entry}
use etcd_studio.Store.Types.{Entry, ValueSnapshot, ClientError, StoreError}
use etcd_studio.Store.Kv.{HistoryStorage, IsStorage}
use etcd_studio.Store.Etcd.{
  KeyValue, GetRequest, Compare, Op, op_put, op_delete, Txn, Client, has_prefix, is_blank,
}
use etcd_studio.Store.Etcd.Meaning.{IsClient, IsMet, IsDone, head, mod_of, current_of}
use etcd_studio.Store.Etcd.Ranges.{bytes_lt, before_end, in_range, AreBytes, IsRanged}
use etcd_studio.Store.History.Query.{newest_before}

-- A cluster whose keys are stored under their base64 texts, and its next revision.
pub record World : Type 0 where
  pub revision : ℕ
  pub entries : List (String × KeyValue)

abbrev pub held : World → Bytes → Option KeyValue
held w key = lookup (encode_std key) w.entries

abbrev pub current : World → Bytes → Option Entry
current = current_of held

abbrev pub Later : World → World → Type 0
Later w w' = w ≡ w'

-- The item, if it is not newer than the revision that is asked for.
abbrev items_at : ℤ → Option KeyValue → List KeyValue
items_at revision none = []
items_at revision (some item) =
    if eqb_ℤ revision (pos 0) || leb_ℤ item.mod_revision revision then item ∷ [] else []

abbrev new_item : Bytes → Bytes → World → KeyValue
new_item key value w = record {
  key = key;
  value = value;
  create_revision = pos (w.revision + 1);
  mod_revision = pos (w.revision + 1);
  version = pos 1;
  lease = pos 0;
}

abbrev applied : Op → World → World
applied (op_put key value) w = record {
  revision = w.revision + 1;
  entries = put_entry (encode_std key) (new_item key value w) w.entries;
}
applied (op_delete key) w = record {
  revision = w.revision + 1;
  entries = remove_entry (encode_std key) w.entries;
}

abbrev all_applied : List Op → World → World
all_applied [] w = w
all_applied (op ∷ ops) w = all_applied ops (applied op w)

abbrev all_met : List Compare → World → Bool
all_met [] w = true
all_met (c ∷ cs) w =
    let rest = all_met cs w in
    c.relation == "=" && eqb_ℤ (mod_of (held w c.key)) c.mod_revision && rest

-- A client of one user.
abbrev pub register : Client World
register = record {
  get = λ request w. (ok (items_at request.at_revision (held w request.start)), w);
  put = λ key value w. (ok (pos (w.revision + 1)), applied (op_put key value) w);
  delete = λ key w. (ok (pos (w.revision + 1), pos 1), applied (op_delete key) w);
  commit = λ txn w.
      if all_met txn.conditions w
      then (ok (true, pos (w.revision + 1)), all_applied txn.operations w)
      else (ok (false, pos w.revision), w);
  prefix_range_end = λ prefix. prefix;
}

first_item : (found : Option KeyValue) → head (items_at (pos 0) found) ≡ found
first_item none = refl
first_item (some item) = refl

read_at :
    (request : GetRequest) (w : World) (items : List KeyValue)
    → request.range_end ≡ none
    → request.at_revision ≡ pos 0
    → ltb_ℤ (pos 0) request.limit ≡ true
    → (register.get request w).0 ≡ ok items
    → held (register.get request w).1 request.start ≡ head items
read_at request w items one newest limited answer =
    sym (first_item (held w request.start))
    ∙ ap (λ (n : ℤ). head (items_at n (held w request.start))) (sym newest)
    ∙ ap head (ok_inj answer)

all_met-IsMet : (cs : List Compare) (w : World) → all_met cs w ≡ true → All (IsMet (held w)) cs
all_met-IsMet [] w h = tt
all_met-IsMet (c ∷ cs) w h = (
  λ _. eqb_ℤ→eq (mod_of (held w c.key)) c.mod_revision (ground arith),
  all_met-IsMet cs w (ground arith),
)

applied-IsDone :
    (operation : Op) (w : World)
    → IsDone (held (applied operation w)) (pos (w.revision + 1)) operation
applied-IsDone (op_put key value) w =
    let own : (encode_std key == encode_std key) ≡ true =
      (eq_iff (encode_std key) (encode_std key)).1 refl in
    (
      new_item key value w,
      lookup-put_entry (encode_std key) (encode_std key) (new_item key value w) w.entries
          ∙ rw own refl,
      refl,
      refl,
    )
applied-IsDone (op_delete key) w =
    let own : (encode_std key == encode_std key) ≡ true =
      (eq_iff (encode_std key) (encode_std key)).1 refl in
    lookup-remove_entry (encode_std key) (encode_std key) w.entries ∙ rw own refl

commit_at :
    (conditions : List Compare) (operation : Op) (revision : ℤ) (w : World)
    → let txn : Txn = record { conditions = conditions; operations = operation ∷ [] } in
      (register.commit txn w).0 ≡ ok (true, revision)
      → (w1 : World) × Later w w1
        × All (IsMet (held w1)) conditions
        × IsDone (held (register.commit txn w).1) revision operation
commit_at conditions operation revision w h = elim (Bool-cases (all_met conditions w)) [
  | inl met ↦
      let told : (true, pos (w.revision + 1)) ≡ (true, revision) = ok_inj (rw met at h) in
      rw met (
        w,
        refl,
        all_met-IsMet conditions w met,
        subst (λ (n : ℤ). IsDone (held (applied operation w)) n operation)
            (ap (λ (x : Bool × ℤ). x.1) told) (applied-IsDone operation w),
      )
  | inr unmet ↦
      let told : (false, pos w.revision) ≡ (true, revision) = ok_inj (rw unmet at h) in
      absurd (cc (ap (λ (x : Bool × ℤ). x.0) told))
]

pub register-IsClient : IsClient register held Later
register-IsClient = record {
  read = read_at;
  commit = commit_at;
  same = λ key w w' item item' later at at' revision.
      some_inj (sym at ∙ ap (λ x. held x key) later ∙ at');
  later_read = λ request w w' later. later;
}

abbrev is_of : String → Bytes → ValueSnapshot → Bool
is_of cluster_id key s = s.cluster_id == cluster_id && encode_std s.entry.key == encode_std key

-- A history that keeps everything.
abbrev pub notebook : HistoryStorage (List ValueSnapshot)
notebook = record {
  save = λ s h. (ok tt, s ∷ h);
  list_before = λ cluster_id key before limit h.
      ok (newest_before before limit (keep_if (is_of cluster_id key) h));
  save_audit = λ event h. (ok tt, h);
}

abbrev pub Noted : String → Bytes → ℤ → List ValueSnapshot → Type 0
Noted cluster_id key revision h =
    (s : ValueSnapshot) × Elem s h
    × (s.cluster_id ≡ cluster_id)
    × (s.entry.key ≡ key)
    × (s.entry.mod_revision ≡ revision)

pub notebook-IsStorage : IsStorage notebook Noted
notebook-IsStorage = record {
  saved = λ s h newest done. (s, inl refl, refl, refl, refl);
  grows = λ s cluster_id key revision h held. noted_before s cluster_id key revision h held;
  audit_keeps = λ event cluster_id key revision h held. held;
}
  where
    noted_before :
        (s : ValueSnapshot) (cluster_id : String) (key : Bytes) (revision : ℤ)
        (h : List ValueSnapshot)
        → Noted cluster_id key revision (s ∷ h)
        → Noted cluster_id key revision h ⊎ (revision ≡ s.entry.mod_revision)
    noted_before s cluster_id key revision h (t, inl same, of, on, at) =
        inr (sym at ∙ ap (λ (x : ValueSnapshot). x.entry.mod_revision) same)
    noted_before s cluster_id key revision h (t, inr there, of, on, at) = inl (t, there, of, on, at)

-- A history that was not set up.
abbrev pub not_set_up : HistoryStorage (List ValueSnapshot)
not_set_up = record {
  save = λ s h. (err StoreError.history_not_setup, h);
  list_before = λ cluster_id key before limit h. err StoreError.history_not_setup;
  save_audit = λ event h. (err StoreError.history_not_setup, h);
}

-- The end of the keys with a prefix as `GetPrefixRangeEnd` of the client makes it: the last byte below 255
-- is increased and what is after it dropped; without such a byte there is no end.
abbrev raised : Bytes → Option Bytes
raised [] = none
raised (b ∷ bs) = elim (raised bs) [
  | some end ↦ some (b ∷ end)
  | none ↦ if ltb b 255 then some (suc b ∷ []) else none
]

abbrev chosen : Option Bytes → Bytes
chosen none = 0 ∷ []
chosen (some end) = end

abbrev get_prefix_range_end : Bytes → Bytes
get_prefix_range_end prefix = chosen (raised prefix)

abbrev item : Bytes → KeyValue
item key = record {
  key = key;
  value = 118 ∷ [];
  create_revision = pos 1;
  mod_revision = pos 1;
  version = pos 1;
  lease = pos 0;
}

-- The keys "a", "ab", "ac" and "b".
abbrev pub four_keys : List KeyValue
four_keys = item (97 ∷ []) ∷ item (97 ∷ 98 ∷ []) ∷ item (97 ∷ 99 ∷ []) ∷ item (98 ∷ []) ∷ []

abbrev range_of : Option Bytes → Bytes
range_of none = 0 ∷ []
range_of (some end) = end

-- A cluster that holds four keys and never changes.
abbrev pub shelf : Client (Unit {0})
shelf = record {
  get = λ request w. (
    ok (
        take (pos_part request.limit)
          (keep_if (in_range request.start (range_of request.range_end)) four_keys)),
    w,
  );
  put = λ key value w. (err ClientError.unavailable, w);
  delete = λ key w. (err ClientError.unavailable, w);
  commit = λ txn w. (err ClientError.unavailable, w);
  prefix_range_end = get_prefix_range_end;
}

-- Whether a key is before the end, if there is one.
abbrev before_raised : Option Bytes → Bytes → Bool
before_raised none key = true
before_raised (some end) key = bytes_lt key end

raised-filled : (bs end : Bytes) → raised bs ≡ some end → is_blank end ≡ false
raised-filled [] end h = absurd (cc h)
raised-filled (c ∷ cs) end h = elim (Option-cases (raised cs)) [
  | inl nothing ↦ elim (Bool-cases (ltb c 255)) [
    | inl low ↦ ap is_blank (sym (some_inj (rw (nothing, low) at h)))
    | inr high ↦ absurd (cc (rw (nothing, high) at h))
  ]
  | inr (rest, more) ↦ ap is_blank (sym (some_inj (rw more at h)))
]

longer :
    (b : ℕ) (end key : Bytes)
    → is_blank end ≡ false
    → before_end (b ∷ end) key ≡ bytes_lt key (b ∷ end)
longer b [] key h = absurd (cc h)
longer zero (c ∷ cs) key h = refl
longer (suc b) (c ∷ cs) key h = refl

-- An end that is raised is not the mark of no end.
raised-end :
    (prefix end key : Bytes) → raised prefix ≡ some end → before_end end key ≡ bytes_lt key end
raised-end [] end key h = absurd (cc h)
raised-end (b ∷ bs) end key h = elim (Option-cases (raised bs)) [
  | inl nothing ↦ elim (Bool-cases (ltb b 255)) [
    | inl low ↦
        subst (λ (x : Bytes). before_end x key ≡ bytes_lt key x) (some_inj (rw (nothing, low) at h))
          refl
    | inr high ↦ absurd (cc (rw (nothing, high) at h))
  ]
  | inr (rest, more) ↦
      subst (λ (x : Bytes). before_end x key ≡ bytes_lt key x) (some_inj (rw more at h))
        (longer b rest key (raised-filled bs rest more))
]

chosen-before :
    (found : Option Bytes) (key : Bytes)
    → ((end : Bytes) → found ≡ some end → before_end end key ≡ bytes_lt key end)
    → before_end (chosen found) key ≡ before_raised found key
chosen-before none key h = refl
chosen-before (some end) key h = h end refl

bytes_lt-nil : (key : Bytes) → bytes_lt key [] ≡ false
bytes_lt-nil [] = refl
bytes_lt-nil (k ∷ ks) = refl

prefix_range :
    (prefix key : Bytes)
    → AreBytes prefix
    → AreBytes key
    → (not (bytes_lt key prefix) && before_raised (raised prefix) key) ≡ has_prefix prefix key
prefix_range [] key p k = rw (bytes_lt-nil key) refl
prefix_range (b ∷ bs) [] p k = refl
prefix_range (b ∷ bs) (c ∷ cs) p k =
    let rest = prefix_range bs cs p.1 k.1 in
    elim (Option-cases (raised bs)) [
      | inl nothing ↦ elim (Bool-cases (ltb b 255)) [
        | inl low ↦ rw (nothing, low) (ground (arith, rw nothing at rest, bytes_lt-nil cs))
        | inr high ↦ rw (nothing, high) (ground (arith, rw nothing at rest, p.0, k.0))
      ]
      | inr (end, more) ↦ rw more (ground (arith, rw more at rest))
    ]

pub shelf-IsRanged : IsRanged shelf (λ _. four_keys)
shelf-IsRanged = record {
  range = λ request end w items is_end sorted newest positive answer.
      sym (ok_inj answer)
      ∙ ap
          (λ e.
            take (pos_part request.limit) (keep_if (in_range request.start (range_of e)) four_keys))
          is_end;
  prefix_end = λ prefix key some_prefix of_bytes key_bytes.
      ap (λ (x : Bool). not (bytes_lt key prefix) && x)
        (chosen-before (raised prefix) key (λ end h. raised-end prefix end key h))
      ∙ prefix_range prefix key of_bytes key_bytes;
  ascending = λ w. ((refl, (refl, (refl, tt))), ((refl, (refl, tt)), ((refl, tt), (tt, tt))));
  keys = λ w. (refl, (refl, (refl, (refl, tt))));
  bytes = λ w. (
    (omega arith, tt),
    ((omega arith, (omega arith, tt)), ((omega arith, (omega arith, tt)), ((omega arith, tt), tt))),
  );
}

-- ===== src/Tests/History.antt =====
-- The theorems on the history of values at concrete inputs.
use etcd_studio.Base.{
  ℕ, String, Bool, true, false, ◌==◌, eq_iff, ◌&&◌, ◌≡◌, refl, ◌⊎◌, List, [], ◌∷◌, arith, none,
  some, if◌then◌else◌, ok, eqb, Bool-cases, inl, inr,
}
use etcd_studio.Base.Int.{pos, eqb_ℤ, eqb_ℤ→eq}
use etcd_studio.Base.Base64.{encode_std, encode_raw, symbol, sextets}
use etcd_studio.Text.{trim_space, is_space}
use etcd_studio.Store.Types.{ValueSnapshot}
use etcd_studio.Store.History.Types.{
  HistoryRecord, File, FileHistory, Json, HistoryCall, written, cut,
}
use etcd_studio.Store.History.Records.{
  history_entry_key, history_seen_key, format_int, validate_snapshot, record_from_snapshot,
  to_snapshot,
}
use etcd_studio.Store.History.Log.{
  bucket, add_locked, append_record, save, load_lines, load, new_history, new_file_history,
  open_file,
}
use etcd_studio.Store.History.Query.{list_before}
use etcd_studio.Store.History.Prune.{
  prune, prune_buckets, newest_snapshots, replace_entries_locked, encode_bucket, encode_buckets,
}
use etcd_studio.Store.History.Newest.{asks_nothing, IsNewestBefore, list_before-IsNewestBefore}
use etcd_studio.Store.History.Retention.{IsNewest}
use etcd_studio.Store.History.Indexed.{IsIndexed}
use etcd_studio.Store.History.Indexed.Saved.{SameMaps}
use etcd_studio.Store.History.Indexed.Reach.{Reach, opened, saved, Reach-IsIndexed}
use etcd_studio.Store.History.Recovery.{JsonLaws, HasBytes, to_snapshot-record_from_snapshot}
use etcd_studio.Store.History.Durable.{none_yet, then_saved, calm, reopened-Saves}
use etcd_studio.Store.History.Outcomes.{prune-IsNewest, IsSaved, save-IsSaved}

-- A snapshot of one key at a revision.
abbrev at_revision : ℕ → ValueSnapshot
at_revision n = record {
  cluster_id = "c";
  entry = record {
    key = 107 ∷ [];
    value = 118 ∷ [];
    create_revision = pos 1;
    mod_revision = pos n;
    version = pos 1;
    lease = pos 0;
  };
  captured_at = 9;
}

-- The records of these snapshots at revisions 5 and 7.
abbrev recorded : ℕ → HistoryRecord
recorded n = record {
  format_version = pos 1;
  cluster_id = "c";
  key_base64 = "aw==";
  value_base64 = "dg==";
  create_revision = pos 1;
  mod_revision = pos n;
  key_version = pos 1;
  lease = pos 0;
  captured_at = 9;
}

unfoldable same_record : HistoryRecord → HistoryRecord → Bool
same_record r s =
    eqb_ℤ r.format_version s.format_version
    && r.cluster_id == s.cluster_id
    && r.key_base64 == s.key_base64
    && r.value_base64 == s.value_base64
    && eqb_ℤ r.create_revision s.create_revision
    && eqb_ℤ r.mod_revision s.mod_revision
    && eqb_ℤ r.key_version s.key_version
    && eqb_ℤ r.lease s.lease
    && eqb r.captured_at s.captured_at

-- A codec that knows two records.
instance abbrev codec : Json
codec = record {
  marshal = λ r.
      if same_record r (recorded 5)
      then some "{5}"
      else if same_record r (recorded 7)
      then some "{7}"
      else none;
  unmarshal = λ line.
      if line == "{5}"
      then some (recorded 5)
      else if line == "{7}"
      then some (recorded 7)
      else none;
}

same_record-eq : (r s : HistoryRecord) → same_record r s ≡ true → r ≡ s
unfolding same_record
same_record-eq r s h = ground (
  arith,
  eqb_ℤ→eq r.format_version s.format_version,
  eq_iff r.cluster_id s.cluster_id,
  eq_iff r.key_base64 s.key_base64,
  eq_iff r.value_base64 s.value_base64,
  eqb_ℤ→eq r.create_revision s.create_revision,
  eqb_ℤ→eq r.mod_revision s.mod_revision,
  eqb_ℤ→eq r.key_version s.key_version,
  eqb_ℤ→eq r.lease s.lease,
)

marshal-cases :
    (r : HistoryRecord) (line : String)
    → codec.marshal r ≡ some line
    → (r ≡ recorded 5) × (line ≡ "{5}") ⊎ (r ≡ recorded 7) × (line ≡ "{7}")
marshal-cases r line h = elim (Bool-cases (same_record r (recorded 5))) [
  | inl five ↦ inl (same_record-eq r (recorded 5) five, ground arith)
  | inr other ↦ elim (Bool-cases (same_record r (recorded 7))) [
    | inl seven ↦ inr (same_record-eq r (recorded 7) seven, ground arith)
    | inr unknown ↦ absurd (ground arith)
  ]
]

codec-JsonLaws : JsonLaws codec
unfolding trim_space is_space
codec-JsonLaws = record {
  unmarshal-marshal = λ r line h. elim (marshal-cases r line h) [
    | inl (same, text) ↦ rw (same, text) refl
    | inr (same, text) ↦ rw (same, text) refl
  ];
  not_blank = λ r line h. elim (marshal-cases r line h) [
    | inl (same, text) ↦ rw text refl
    | inr (same, text) ↦ rw text refl
  ];
}

abbrev quiet : HistoryCall
quiet = record {
  now = 9;
  seek_fails = false;
  write = written;
  sync_fails = false;
  truncate_fails = false;
  fails = λ _. false;
}

abbrev no_lines : File
no_lines = record { lines = []; tail = "" }

abbrev first : FileHistory
first = (save (at_revision 5) quiet (new_history no_lines)).1

abbrev second : FileHistory
second = (save (at_revision 7) quiet first).1

opens : new_file_history "h" (some no_lines) false calm ≡ ok (new_history no_lines)
unfolding new_file_history load load_lines trim_space is_space
opens = refl

second-Reach : Reach second
second-Reach =
    saved (saved (opened "h" (some no_lines) false calm opens) (at_revision 5) quiet)
      (at_revision 7) quiet

Reach-IsIndexed_example : IsIndexed second.entries second.seen
Reach-IsIndexed_example = Reach-IsIndexed second-Reach

still_open : open_file second ≡ some second.published
unfolding same_record save append_record add_locked validate_snapshot record_from_snapshot
    trim_space is_space history_seen_key history_entry_key format_int encode_raw encode_std sextets
    symbol
still_open = refl

list_before-IsNewestBefore_example :
    (answer : List ValueSnapshot) × (list_before "c" (107 ∷ []) (pos 7) (pos 3) second ≡ ok answer)
    × ((asks_nothing "c" (107 ∷ []) (pos 7) (pos 3) ≡ true) × (answer ≡ [])
        ⊎ (asks_nothing "c" (107 ∷ []) (pos 7) (pos 3) ≡ false)
          × IsNewestBefore 3
              (pos 7)
              (bucket (history_entry_key "c" (107 ∷ [])) second.entries)
              answer)
list_before-IsNewestBefore_example =
    list_before-IsNewestBefore "c" (107 ∷ []) (pos 7) (pos 3) second second.published still_open
      ((Reach-IsIndexed second-Reach).distinct (history_entry_key "c" (107 ∷ [])))

prunes : (prune (pos 1) quiet second).0 ≡ ok tt
unfolding same_record save append_record add_locked validate_snapshot record_from_snapshot
    trim_space is_space history_seen_key history_entry_key format_int encode_raw encode_std sextets
    symbol prune prune_buckets newest_snapshots replace_entries_locked encode_buckets encode_bucket
prunes = refl

prune-IsNewest_example :
    IsNewest
      (pos 1)
      (bucket (history_entry_key "c" (107 ∷ [])) second.entries)
      (bucket (history_entry_key "c" (107 ∷ [])) (prune (pos 1) quiet second).1.entries)
prune-IsNewest_example =
    prune-IsNewest (pos 1) quiet second (history_entry_key "c" (107 ∷ []))
      (Reach-IsIndexed second-Reach) refl prunes

checked : validate_snapshot (at_revision 5) ≡ ok tt
unfolding validate_snapshot trim_space is_space
checked = refl

small_bytes : (n : ℕ) → HasBytes (at_revision n)
small_bytes n = ((omega arith, tt), (omega arith, tt))

to_snapshot-record_from_snapshot_example :
    to_snapshot (record_from_snapshot (at_revision 5)) ≡ ok (at_revision 5)
to_snapshot-record_from_snapshot_example =
    to_snapshot-record_from_snapshot (at_revision 5) (small_bytes 5) checked

named : (trim_space "h" == "") ≡ false
unfolding trim_space is_space
named = refl

reopened-Saves_example :
    (again : FileHistory) × (new_file_history "h" (some second.published) false calm ≡ ok again)
    × SameMaps second again
reopened-Saves_example =
    reopened-Saves codec-JsonLaws "h" no_lines false calm (new_history no_lines) second opens named
      (then_saved (then_saved none_yet (at_revision 5) quiet (small_bytes 5) refl) (at_revision 7)
        quiet (small_bytes 7) refl)

-- A write that fails.
abbrev failing : HistoryCall
failing = record quiet { write = cut "{" }

save-IsSaved_example : IsSaved (at_revision 7) failing first (save (at_revision 7) failing first)
save-IsSaved_example =
    save-IsSaved (at_revision 7) failing first
      (Reach-IsIndexed (saved (opened "h" (some no_lines) false calm opens) (at_revision 5) quiet))

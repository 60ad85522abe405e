-- ===== src/Store/History/Records.antt =====
-- Keys, checks and the stored form of snapshots, internal/store/history.go.
use Prim.Native.Nat.{◌/◌, ◌%◌}
use Prim.Native.String.{char_at}
use etcd_studio.Base.{
  ℕ, zero, suc, String, Bool, true, false, ◌==◌, ltb, List, [], ◌∷◌, none, some, if◌then◌else◌, not,
  Result, ok, err,
}
use etcd_studio.Base.Int.{ℤ, pos, negsuc, ltb_ℤ, eqb_ℤ}
use etcd_studio.Base.Base64.{Bytes, encode_std, encode_raw, decode_std}
use etcd_studio.Text.{trim_space}
use etcd_studio.Store.Types.{ValueSnapshot}
use etcd_studio.Store.History.Types.{
  HistoryRecord, HistoryError, empty_cluster_id, empty_key, bad_revision, unsupported_format,
  decode_failed, history_record_version,
}

abbrev pub append_text : String → String → String
append_text String.[] t = t
append_text (String.◌∷◌ c s) t = String.◌∷◌ c (append_text s t)

-- The byte 0 between the parts of a key.
abbrev pub with_separator : String → String
with_separator s = String.◌∷◌ (char_at "\0" 0) s

abbrev digit_text : ℕ → String → String
digit_text n acc = String.◌∷◌ (char_at "0123456789" (n % 10)) acc

-- The decimal digits of a number before a text; the number itself is fuel enough.
abbrev decimal : ℕ → ℕ → String → String
decimal zero n acc = digit_text n acc
decimal (suc fuel) n acc = elim (ltb n 10) [
  | true ↦ digit_text n acc
  | false ↦ decimal fuel (n / 10) (digit_text n acc)
]

-- `strconv.FormatInt(n, 10)`
unfoldable pub format_int : ℤ → String
format_int (pos n) = decimal n n String.[]
format_int (negsuc n) = String.◌∷◌ (char_at "-" 0) (decimal (suc n) (suc n) String.[])

unfoldable pub history_entry_key : String → Bytes → String
history_entry_key cluster_id key = append_text cluster_id (with_separator (encode_raw key))

unfoldable pub history_seen_key : ValueSnapshot → String
history_seen_key s =
    append_text (history_entry_key s.cluster_id s.entry.key)
      (with_separator (format_int s.entry.mod_revision))

abbrev pub is_empty : {A : Type 0} → List A → Bool
is_empty [] = true
is_empty (x ∷ xs) = false

unfoldable pub validate_snapshot : ValueSnapshot → Result HistoryError (Unit {0})
validate_snapshot s =
    if trim_space s.cluster_id == ""
    then err empty_cluster_id
    else if is_empty s.entry.key
    then err empty_key
    else if ltb_ℤ s.entry.mod_revision (pos 1)
    then err bad_revision
    else ok tt

unfoldable pub record_from_snapshot : ValueSnapshot → HistoryRecord
record_from_snapshot s = record {
  format_version = history_record_version;
  cluster_id = s.cluster_id;
  key_base64 = encode_std s.entry.key;
  value_base64 = encode_std s.entry.value;
  create_revision = s.entry.create_revision;
  mod_revision = s.entry.mod_revision;
  key_version = s.entry.version;
  lease = s.entry.lease;
  captured_at = s.captured_at;
}

abbrev decoded : HistoryRecord → Bytes → Bytes → ValueSnapshot
decoded r key value = record {
  cluster_id = r.cluster_id;
  entry = record {
    key = key;
    value = value;
    create_revision = r.create_revision;
    mod_revision = r.mod_revision;
    version = r.key_version;
    lease = r.lease;
  };
  captured_at = r.captured_at;
}

unfoldable pub to_snapshot : HistoryRecord → Result HistoryError ValueSnapshot
to_snapshot r =
    if not (eqb_ℤ r.format_version history_record_version)
    then err unsupported_format
    else elim (decode_std r.key_base64) [
      | none ↦ err decode_failed
      | some key ↦ elim (decode_std r.value_base64) [
        | none ↦ err decode_failed
        | some value ↦
            let snapshot = decoded r key value in
            elim (validate_snapshot snapshot) [ err e ↦ err e | ok _ ↦ ok snapshot ]
      ]
    ]

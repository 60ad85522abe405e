-- ===== src/Store/History/Recovery.antt =====
-- What a history that is opened again finds in the file.
use Prim.Native.String.{len}
use etcd_studio.Base.{
  ◌+◌, String, false, ◌==◌, ltb, ◌≡◌, refl, ap, ◌∙◌, List, [], ◌∷◌, ◌++◌, arith, Bool-cases,
  Option-cases, Result-cases, inl, inr, some, Result, ok, err,
}
use etcd_studio.Base.Base64.RoundTrip.{AllBytes, decode_std-encode_std}
use etcd_studio.Text.{trim_space}
use etcd_studio.Store.Types.{ValueSnapshot}
use etcd_studio.Store.History.Types.{
  HistoryError, HistoryRecord, FileHistory, Json, max_history_record_size,
}
use etcd_studio.Store.History.Records.{
  validate_snapshot, record_from_snapshot, to_snapshot, history_seen_key,
}
use etcd_studio.Store.History.Log.{
  bucket, put_bucket, key_of, add_locked, member, load_line, load_lines,
}
use etcd_studio.Store.History.Indexed.Saved.{SameMaps}

-- The bytes of a snapshot's key and value are bytes.
abbrev pub HasBytes : ValueSnapshot → Type 0
HasBytes s = AllBytes s.entry.key × AllBytes s.entry.value

-- A snapshot of bytes that passes the check is read back from its stored form as it was.
pub to_snapshot-record_from_snapshot :
    (s : ValueSnapshot)
    → HasBytes s
    → validate_snapshot s ≡ ok tt
    → to_snapshot (record_from_snapshot s) ≡ ok s
unfolding to_snapshot record_from_snapshot
to_snapshot-record_from_snapshot s bytes valid =
    rw
      (
        decode_std-encode_std s.entry.key bytes.0,
        decode_std-encode_std s.entry.value bytes.1,
        valid,
      )
      refl

-- What encoding/json documents of a record and its line: it is read back, and the line is not blank.
pub record JsonLaws (j : Json) : Type 0 where
  pub unmarshal-marshal :
      (r : HistoryRecord) (line : String) → j.marshal r ≡ some line → j.unmarshal line ≡ some r
  pub not_blank :
      (r : HistoryRecord) (line : String)
      → j.marshal r ≡ some line
      → (trim_space line == "") ≡ false

same_ok : {a b : FileHistory} (r : Result HistoryError FileHistory) → r ≡ ok a → r ≡ ok b → a ≡ b
same_ok r e e' = cc

module _ ⦃j : Json⦄ where
  load_line-only :
      (line : String) (h : FileHistory)
      → elim (load_line line h) [ err e ↦ err e | ok h' ↦ ok h' ] ≡ load_line line h
  load_line-only line h = elim (Result-cases (load_line line h)) [
    | inl (e, failed) ↦ rw failed refl
    | inr (h', read) ↦ rw read refl
  ]

  pub load_lines-append_one :
      (lines : List String) (line : String) (h h' : FileHistory)
      → load_lines lines h ≡ ok h'
      → load_lines (lines ++ line ∷ []) h ≡ load_line line h'
  unfolding load_lines
  load_lines-append_one [] line h h' e =
      load_line-only line h ∙ ap (λ k. load_line line k) (same_ok (load_lines [] h) refl e)
  load_lines-append_one (l ∷ lines) line h h' e = elim (Result-cases (load_line l h)) [
    | inl (bad, failed) ↦ absurd (ground arith)
    | inr (next, read) ↦
        rw (read, load_lines) (load_lines-append_one lines line next h' (ground arith))
  ]

  pub load_line-marshal :
      (laws : JsonLaws j) (s : ValueSnapshot) (line : String) (h : FileHistory)
      → HasBytes s
      → validate_snapshot s ≡ ok tt
      → j.marshal (record_from_snapshot s) ≡ some line
      → ltb max_history_record_size (len line + 1) ≡ false
      → load_line line h ≡ ok (add_locked s h)
  unfolding load_line
  load_line-marshal laws s line h bytes valid m fits =
      let read = laws.unmarshal-marshal (record_from_snapshot s) line m in
      let full = laws.not_blank (record_from_snapshot s) line m in
      rw (fits, full, read, to_snapshot-record_from_snapshot s bytes valid) refl

  pub add_locked-SameMaps :
      (s : ValueSnapshot) (h h' : FileHistory)
      → SameMaps h h'
      → SameMaps (add_locked s h) (add_locked s h')
  unfolding add_locked
  add_locked-SameMaps s h h' same =
      let known = ap (member (history_seen_key s)) same.1 in
      let old = ap (λ es. put_bucket (key_of s) (bucket (key_of s) es ++ s ∷ []) es) same.0 in
      ground arith

  -- A line is read alike into two histories with the same maps.
  load_line-SameMaps :
      (line : String) (h k h' : FileHistory)
      → SameMaps h k
      → load_line line h ≡ ok h'
      → (k' : FileHistory) × (load_line line k ≡ ok k') × SameMaps h' k'
  unfolding load_line
  load_line-SameMaps line h k h' same e = elim (Bool-cases (trim_space line == "")) [
    | inl blank ↦ (k, ground arith, ground arith)
    | inr full ↦ elim (Option-cases (j.unmarshal line)) [
      | inl broken ↦ absurd (ground arith)
      | inr (r, decoded) ↦ elim (Result-cases (to_snapshot r)) [
        | inl (bad, refused) ↦ absurd (ground arith)
        | inr (s, fine) ↦
            let added : h' ≡ add_locked s h = ground arith in
            (add_locked s k, ground arith, rw added (add_locked-SameMaps s h k same))
      ]
    ]
  ]

  pub load_lines-SameMaps :
      (lines : List String) (h k h' : FileHistory)
      → SameMaps h k
      → load_lines lines h ≡ ok h'
      → (k' : FileHistory) × (load_lines lines k ≡ ok k') × SameMaps h' k'
  unfolding load_lines
  load_lines-SameMaps [] h k h' same e = (k, refl, rw (← same_ok (load_lines [] h) refl e) same)
  load_lines-SameMaps (line ∷ lines) h k h' same e = elim (Result-cases (load_line line h)) [
    | inl (bad, failed) ↦ absurd (ground arith)
    | inr (next, read) ↦
        let (k', read', same') = load_line-SameMaps line h k next same read in
        rw (read', load_lines) (load_lines-SameMaps lines next k' h' same' (ground arith))
  ]

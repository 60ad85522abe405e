-- ===== src/Store/History/Indexed/Saved.antt =====
-- The invariant of the two maps where a file is opened and under `Save`.
use etcd_studio.Base.{
  String, Bool, ◌≡◌, ◌∙◌, ◌⊎◌, inl, inr, List, [], ◌∷◌, arith, Bool-cases, Option-cases,
  Result-cases, Option, none, some, ok, ◌==◌,
}
use etcd_studio.Text.{trim_space}
use etcd_studio.Store.Types.{ValueSnapshot}
use etcd_studio.Store.History.Types.{File, FileHistory, Json, HistoryCall, LoadCall, HistoryRecord}
use etcd_studio.Store.History.Records.{validate_snapshot, to_snapshot, record_from_snapshot}
use etcd_studio.Store.History.Log.{
  add_locked, open_file, with_file, stamped, append_record, save, load_line, load_lines, load,
  new_history, new_file_history,
}
use etcd_studio.Store.History.Indexed.{IsIndexed}
use etcd_studio.Store.History.Indexed.Added.{add_locked-IsIndexed}

abbrev pub Indexed : FileHistory → Type 0
Indexed h = IsIndexed h.entries h.seen

pub validate-stamped :
    (call : HistoryCall) (s : ValueSnapshot)
    → validate_snapshot (stamped call s) ≡ validate_snapshot s
unfolding validate_snapshot
validate-stamped call s = ground arith

pub with_file-entries : (f : File) (h : FileHistory) → (with_file f h).entries ≡ h.entries
with_file-entries f h = ground arith

pub with_file-seen : (f : File) (h : FileHistory) → (with_file f h).seen ≡ h.seen
with_file-seen f h = ground arith

with_file-Indexed : (f : File) (h : FileHistory) → Indexed h → Indexed (with_file f h)
with_file-Indexed f h x = rw (with_file-entries f h, with_file-seen f h) x

to_snapshot-valid :
    (r : HistoryRecord) (s : ValueSnapshot) → to_snapshot r ≡ ok s → validate_snapshot s ≡ ok tt
unfolding to_snapshot
to_snapshot-valid r s h = ground arith

-- The maps of two histories are the same.
abbrev pub SameMaps : FileHistory → FileHistory → Type 0
SameMaps h h' = (h'.entries ≡ h.entries) × (h'.seen ≡ h.seen)

pub SameMaps-Indexed : (h h' : FileHistory) → SameMaps h h' → Indexed h → Indexed h'
SameMaps-Indexed h h' same x = rw (same.0, same.1) x

pub add_locked-with_file :
    (s : ValueSnapshot) (f : File) (h : FileHistory)
    → SameMaps (add_locked s h) (add_locked s (with_file f h))
unfolding add_locked
add_locked-with_file s f h = ground (arith, with_file-entries f h, with_file-seen f h)

module _ ⦃j : Json⦄ where
  -- What a save leaves in memory: the maps as they were, or with the snapshot.
  pub save-maps :
      (s : ValueSnapshot) (call : HistoryCall) (h : FileHistory)
      → SameMaps h (save s call h).1
        ⊎ (validate_snapshot s ≡ ok tt) × SameMaps (add_locked (stamped call s) h) (save s call h).1
  unfolding save
  save-maps s call h = elim (Option-cases (open_file h)) [
    | inl closed ↦ ground arith
    | inr (file, opened) ↦ elim (Option-cases (j.marshal (record_from_snapshot (stamped call s)))) [
      | inl failed ↦ ground arith
      | inr (line, marshalled) ↦
          let f = (append_record call line file).1 in
          let kept = with_file-entries f h in
          let kept' = with_file-seen f h in
          let added = add_locked-with_file (stamped call s) f h in ground arith
    ]
  ]

  pub save-Indexed :
      (s : ValueSnapshot) (call : HistoryCall) (h : FileHistory)
      → Indexed h
      → Indexed (save s call h).1
  save-Indexed s call h x = elim (save-maps s call h) [
    | inl same ↦ SameMaps-Indexed h (save s call h).1 same x
    | inr (valid, same) ↦
        SameMaps-Indexed (add_locked (stamped call s) h) (save s call h).1 same
          (add_locked-IsIndexed (stamped call s) h (validate-stamped call s ∙ valid) x)
  ]

  pub load_line-cases :
      (line : String) (h h' : FileHistory)
      → load_line line h ≡ ok h'
      → (h' ≡ h) ⊎ (s : ValueSnapshot) × (validate_snapshot s ≡ ok tt) × (h' ≡ add_locked s h)
  unfolding load_line
  load_line-cases line h h' e = elim (Option-cases (j.unmarshal line)) [
    | inl broken ↦ inl (ground arith)
    | inr (r, decoded) ↦ elim (Result-cases (to_snapshot r)) [
      | inl (bad, refused) ↦ inl (ground arith)
      | inr (s, fine) ↦ elim (Bool-cases (trim_space line == "")) [
        | inl blank ↦ inl (ground arith)
        | inr full ↦ inr (s, to_snapshot-valid r s fine, ground arith)
      ]
    ]
  ]

  load_line-Indexed :
      (line : String) (h h' : FileHistory) → load_line line h ≡ ok h' → Indexed h → Indexed h'
  load_line-Indexed line h h' e x = elim (load_line-cases line h h' e) [
    | inl same ↦ rw same x
    | inr (s, valid, same) ↦ rw same (add_locked-IsIndexed s h valid x)
  ]

  pub load_lines-Indexed :
      (lines : List String) (h h' : FileHistory)
      → load_lines lines h ≡ ok h'
      → Indexed h
      → Indexed h'
  unfolding load_lines
  load_lines-Indexed [] h h' e x = SameMaps-Indexed h h' (cc, cc) x
  load_lines-Indexed (line ∷ lines) h h' e x = elim (Result-cases (load_line line h)) [
    | inl (bad, failed) ↦ absurd (ground arith)
    | inr (next, read) ↦
        load_lines-Indexed lines next h' (ground arith) (load_line-Indexed line h next read x)
  ]

  new_file_history-maps :
      (path : String) (file : Option File) (chmod_fails : Bool) (call : LoadCall) (h : FileHistory)
      → new_file_history path file chmod_fails call ≡ ok h
      → (f : File) × (h' : FileHistory) × (load_lines f.lines (new_history f) ≡ ok h')
        × SameMaps h' h
  unfolding new_file_history load
  new_file_history-maps path none chmod_fails call h e = absurd (ground arith)
  new_file_history-maps path (some f) chmod_fails call h e =
      elim (Result-cases (load_lines f.lines (new_history f))) [
        | inl (bad, failed) ↦ absurd (ground arith)
        | inr (h', read) ↦ (f, h', read, ground arith)
      ]

  empty-IsIndexed : IsIndexed [] []
  empty-IsIndexed = record { placed = λ k. tt; distinct = λ k. tt; stored = λ x h. cc; keys = tt }

  pub new_file_history-Indexed :
      (path : String) (file : Option File) (chmod_fails : Bool) (call : LoadCall) (h : FileHistory)
      → new_file_history path file chmod_fails call ≡ ok h
      → Indexed h
  new_file_history-Indexed path file chmod_fails call h e =
      let (f, h', read, same) = new_file_history-maps path file chmod_fails call h e in
      SameMaps-Indexed h' h same
        (load_lines-Indexed f.lines (new_history f) h' read empty-IsIndexed)

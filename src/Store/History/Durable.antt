-- ===== src/Store/History/Durable.antt =====
-- Saving and the file, internal/store/history.go.
use Prim.Native.String.{len}
use etcd_studio.Base.{
  eq_iff, eq_refl, ◌+◌, String, Bool, false, ◌==◌, ltb, ◌≡◌, refl, sym, ap, ◌∙◌, List, [], ◌∷◌,
  arith, Option-cases, Result-cases, ◌⊎◌, inl, inr, none, some, ok,
}
use mathlib.Core.Path.{subst}
use etcd_studio.Base.Base64.RoundTrip.{AllBytes}
use etcd_studio.Text.{trim_space}
use etcd_studio.Store.Types.{Entry, ValueSnapshot}
use etcd_studio.Store.History.Types.{
  HistoryError, File, linked, FileHistory, Json, HistoryCall, LoadCall, max_history_record_size,
}
use etcd_studio.Store.History.Records.{validate_snapshot, record_from_snapshot}
use etcd_studio.Store.History.Log.{
  add_locked, append_line, append_record, rollback_append, stamped, save, load_line, load_lines,
  load, new_history, new_file_history,
}
use etcd_studio.Store.History.Indexed.Saved.{SameMaps, validate-stamped, load_line-cases}
use etcd_studio.Store.History.Recovery.{
  HasBytes, JsonLaws, load_lines-append_one, load_line-marshal, add_locked-SameMaps,
  load_lines-SameMaps,
}

module _ ⦃j : Json⦄ where
  abbrev blank : FileHistory
  blank = new_history (record { lines = []; tail = "" })

  -- The open file ends with a newline, and reading it gives the maps in memory.
  pub record IsDurable (h : FileHistory) : Type 0 where
    pub attached : h.handle ≡ linked
    pub whole : h.published.tail ≡ ""
    pub read : FileHistory
    pub reads : load_lines h.published.lines blank ≡ ok read
    pub same : SameMaps read h

  -- Where a failed append can be undone, it leaves the file as it was.
  pub append_record-failed :
      (call : HistoryCall) (line : String) (file : File) (e : HistoryError)
      → call.truncate_fails ≡ false
      → (append_record call line file).0 ≡ some e
      → (append_record call line file).1 ≡ file
  unfolding append_record rollback_append
  append_record-failed call line file e works failed = ground arith

  append_record-done :
      (call : HistoryCall) (line : String) (file : File)
      → (append_record call line file).0 ≡ none
      → (append_record call line file).1 ≡ append_line line file
  unfolding append_record rollback_append
  append_record-done call line file done = ground arith

  -- A save writes one line and adds the snapshot, or leaves the history as it was.
  pub save-cases :
      (s : ValueSnapshot) (call : HistoryCall) (h : FileHistory)
      → h.handle ≡ linked
      → call.truncate_fails ≡ false
      → ((save s call h).1 ≡ h)
        ⊎ (line : String) × (validate_snapshot s ≡ ok tt)
          × (j.marshal (record_from_snapshot (stamped call s)) ≡ some line)
          × (ltb max_history_record_size (len line + 1) ≡ false)
          × (save s call h ≡ (
            ok tt,
            add_locked (stamped call s) (record h { published = append_line line h.published }),
          ))
  unfolding save
  save-cases s call h at works =
      elim (Option-cases (j.marshal (record_from_snapshot (stamped call s)))) [
        | inl failed ↦ inl (ground arith)
        | inr (line, m) ↦ elim (Option-cases (append_record call line h.published).0) [
          | inl done ↦ ground (arith, append_record-done call line h.published done)
          | inr (e, failed) ↦
              let kept = append_record-failed call line h.published e works failed in
              inl (ground (arith, at, kept))
        ]
      ]

  add_locked-file :
      (s : ValueSnapshot) (h : FileHistory)
      → ((add_locked s h).handle ≡ h.handle) × ((add_locked s h).published ≡ h.published)
  unfolding add_locked
  add_locked-file s h = ground arith

  HasBytes-stamped :
      (call : HistoryCall) (s : ValueSnapshot) → HasBytes s → HasBytes (stamped call s)
  HasBytes-stamped call s bytes =
      let same : (stamped call s).entry ≡ s.entry = ground arith in
      subst (λ (e : Entry). AllBytes e.key × AllBytes e.value) (sym same) bytes

  -- The line that a save has written is read as the snapshot that it has added.
  saved-reads :
      (laws : JsonLaws j) (s : ValueSnapshot) (line : String) (h : FileHistory) (d : IsDurable h)
      → HasBytes s
      → validate_snapshot s ≡ ok tt
      → j.marshal (record_from_snapshot s) ≡ some line
      → ltb max_history_record_size (len line + 1) ≡ false
      → load_lines (append_line line h.published).lines blank ≡ ok (add_locked s d.read)
  saved-reads laws s line h d bytes valid m fits = rw d.whole (
      load_lines-append_one h.published.lines line blank d.read d.reads
      ∙ load_line-marshal laws s line d.read bytes valid m fits)

  save-IsDurable :
      (laws : JsonLaws j) (s : ValueSnapshot) (call : HistoryCall) (h : FileHistory)
      → HasBytes s
      → call.truncate_fails ≡ false
      → IsDurable h
      → IsDurable (save s call h).1
  save-IsDurable laws s call h bytes works d = elim (save-cases s call h d.attached works) [
    | inl same ↦ rw same d
    | inr (line, valid, m, fits, saved) ↦
        let s' = stamped call s in
        let h' : FileHistory = record h { published = append_line line h.published } in
        let file = add_locked-file s' h' in
        rw saved (record {
          attached = file.0 ∙ d.attached;
          whole = ap (λ (f : File). f.tail) file.1;
          read = add_locked s' d.read;
          reads =
              ap (λ (f : File). load_lines f.lines blank) file.1
              ∙ saved-reads laws s' line h d (HasBytes-stamped call s bytes)
                  (validate-stamped call s ∙ valid) m fits;
          same = add_locked-SameMaps s' d.read h' d.same;
        })
  ]

  -- Saves one after the other, each of bytes, in calls in which a failed append can be undone.
  pub data Saves (h : FileHistory) : FileHistory → Type 0 where
    none_yet : Saves h h
    then_saved :
        {h' : FileHistory}
        → Saves h h'
        → (s : ValueSnapshot) (call : HistoryCall) → HasBytes s
        → call.truncate_fails ≡ false
        → Saves h (save s call h').1

  Saves-IsDurable :
      (laws : JsonLaws j) {h h' : FileHistory} → Saves h h' → IsDurable h → IsDurable h'
  Saves-IsDurable laws none_yet d = d
  Saves-IsDurable laws (then_saved {h' = h'} r s call bytes works) d =
      save-IsDurable laws s call h' bytes works (Saves-IsDurable laws r d)

  -- A call of `NewFileHistory` in which nothing fails.
  abbrev pub calm : LoadCall
  calm = record {
    seek_start_fails = false;
    read_fails_after = none;
    truncate_fails = false;
    seek_end_fails = false;
  }

  load_line-file :
      (line : String) (h h' : FileHistory)
      → load_line line h ≡ ok h'
      → (h'.handle ≡ h.handle) × (h'.published ≡ h.published)
  load_line-file line h h' e = elim (load_line-cases line h h' e) [
    | inl same ↦ rw same (refl, refl)
    | inr (s, valid, same) ↦ rw same (add_locked-file s h)
  ]

  load_lines-file :
      (lines : List String) (h h' : FileHistory)
      → load_lines lines h ≡ ok h'
      → (h'.handle ≡ h.handle) × (h'.published ≡ h.published)
  unfolding load_lines
  load_lines-file [] h h' e = ground arith
  load_lines-file (line ∷ lines) h h' e = elim (Result-cases (load_line line h)) [
    | inl (bad, failed) ↦ absurd (ground arith)
    | inr (next, read) ↦
        let (a, b) = load_line-file line h next read in
        let (c, d) = load_lines-file lines next h' (ground arith) in (c ∙ a, d ∙ b)
  ]

  opened-IsDurable :
      (path : String) (file : File) (chmod_fails : Bool) (call : LoadCall) (h : FileHistory)
      → new_file_history path (some file) chmod_fails call ≡ ok h
      → IsDurable h
  unfolding new_file_history load
  opened-IsDurable path file chmod_fails call h e =
      elim (Result-cases (load_lines file.lines (new_history file))) [
        | inl (bad, failed) ↦ absurd (ground arith)
        | inr (read, ok_read) ↦
            let (r, reads, same) =
              load_lines-SameMaps file.lines (new_history file) blank read (refl, refl) ok_read in
            let kept = load_lines-file file.lines (new_history file) read ok_read in
            let lines : h.published.lines ≡ file.lines = ground arith in
            record {
              attached = ground arith;
              whole = ground (arith, eq_iff file.tail "");
              read = r;
              reads = rw lines reads;
              same = ground arith;
            }
      ]

  -- A file that is durable is read back.
  IsDurable-reopened :
      (path : String) (h : FileHistory)
      → (trim_space path == "") ≡ false
      → IsDurable h
      → (h' : FileHistory) × (new_file_history path (some h.published) false calm ≡ ok h')
        × SameMaps h h'
  unfolding new_file_history load
  IsDurable-reopened path h named d =
      let (h', reads, same) =
        load_lines-SameMaps h.published.lines blank (new_history h.published) d.read (refl, refl)
          d.reads in
      let kept = load_lines-file h.published.lines (new_history h.published) h' reads in
      let maps = d.same in
      let whole = d.whole in
      (h', ground (arith, eq_refl ""), (same.0 ∙ sym maps.0, same.1 ∙ sym maps.1))

  -- After a history was opened and snapshots of bytes were saved one after the other, some of them refused
  -- or failing in whatever way the file system can fail but for the truncation that undoes a failed
  -- append, opening the file again gives the same maps: no save that succeeded is lost, and no other
  -- leaves a trace. A record of JSON is read back from its line, which is not blank.
  pub reopened-Saves :
      (laws : JsonLaws j) (path : String) (file : File) (chmod_fails : Bool) (call : LoadCall)
      (h h' : FileHistory)
      → new_file_history path (some file) chmod_fails call ≡ ok h
      → (trim_space path == "") ≡ false
      → Saves h h'
      → (again : FileHistory) × (new_file_history path (some h'.published) false calm ≡ ok again)
        × SameMaps h' again
  reopened-Saves laws path file chmod_fails call h h' e named saves =
      IsDurable-reopened path h' named
        (Saves-IsDurable laws saves (opened-IsDurable path file chmod_fails call h e))

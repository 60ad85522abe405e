-- ===== src/Store/History/Log.antt =====
-- `Save`, `load`, `NewFileHistory` and `Close` of internal/store/history.go.
use Prim.Native.String.{len}
use etcd_studio.Base.{
  ℕ, ◌+◌, String, Bool, ◌==◌, ltb, eqb, any, take, List, [], ◌∷◌, ◌++◌, Option, none, some,
  if◌then◌else◌, Result, ok, err,
}
use etcd_studio.Text.{trim_space}
use etcd_studio.Store.Types.{ValueSnapshot}
use etcd_studio.Store.History.Types.{
  HistoryError, empty_path, open_failed, chmod_failed, closed, encode_failed, too_large,
  seek_failed, append_failed, sync_failed, read_failed, decode_failed, truncate_failed,
  close_failed, File, Handle, shut, linked, detached, FileHistory, Json, written, cut, HistoryCall,
  LoadCall, max_history_record_size,
}
use etcd_studio.Store.History.Records.{
  append_text, history_entry_key, history_seen_key, validate_snapshot, record_from_snapshot,
  to_snapshot,
}

abbrev pub member : String → List String → Bool
member x = any (λ y. y == x)

abbrev pub Buckets : Type 0
Buckets = List (String × List ValueSnapshot)

-- `entries[key]`, which is empty for a key that is not there.
abbrev pub bucket : String → Buckets → List ValueSnapshot
bucket key [] = []
bucket key ((k, snapshots) ∷ rest) = if k == key then snapshots else bucket key rest

-- `entries[key] = snapshots`
abbrev pub put_bucket : String → List ValueSnapshot → Buckets → Buckets
put_bucket key snapshots [] = (key, snapshots) ∷ []
put_bucket key snapshots ((k, old) ∷ rest) =
    if k == key then (k, snapshots) ∷ rest else (k, old) ∷ put_bucket key snapshots rest

abbrev pub key_of : ValueSnapshot → String
key_of s = history_entry_key s.cluster_id s.entry.key

unfoldable pub add_locked : ValueSnapshot → FileHistory → FileHistory
add_locked s h = if member (history_seen_key s) h.seen then h else record h {
  entries = put_bucket (key_of s) (bucket (key_of s) h.entries ++ s ∷ []) h.entries;
  seen = history_seen_key s ∷ h.seen;
}

-- The file that `h.file` is, and a write to it.
abbrev pub open_file : FileHistory → Option File
open_file h = elim h.handle [ shut ↦ none | linked ↦ some h.published | detached f ↦ some f ]

abbrev pub with_file : File → FileHistory → FileHistory
with_file f h = elim h.handle [
  | shut ↦ h
  | linked ↦ record h { published = f }
  | detached _ ↦ record h { handle = detached f }
]

-- A line after whatever stands at the end of the file, with its newline or without.
abbrev pub append_line : String → File → File
append_line line f = record { lines = f.lines ++ append_text f.tail line ∷ []; tail = "" }

abbrev pub append_part : String → File → File
append_part text f = record f { tail = append_text f.tail text }

-- The truncation to the size before the append, whose error is dropped: `before` is that file.
unfoldable pub rollback_append : HistoryCall → File → File → File
rollback_append call before now = if call.truncate_fails then now else before

abbrev pub stamped : HistoryCall → ValueSnapshot → ValueSnapshot
stamped call s = if eqb s.captured_at 0 then record s { captured_at = call.now } else s

-- The append of a line to the open file.
unfoldable pub append_record : HistoryCall → String → File → Option HistoryError × File
append_record call line file =
    if call.seek_fails then (some seek_failed, file) else elim call.write [
      | cut text ↦ (some append_failed, rollback_append call file (append_part text file))
      | written ↦
          if call.sync_fails
          then (some sync_failed, rollback_append call file (append_line line file))
          else (none, append_line line file)
    ]

module _ ⦃j : Json⦄ where
  unfoldable pub save :
      ValueSnapshot → HistoryCall → FileHistory → Result HistoryError (Unit {0}) × FileHistory
  save given call h = elim (validate_snapshot given) [
    | err e ↦ (err e, h)
    | ok _ ↦
        let s = stamped call given in
        elim (open_file h) [
          | none ↦ (err closed, h)
          | some file ↦
              if member (history_seen_key s) h.seen
              then (ok tt, h)
              else elim (j.marshal (record_from_snapshot s)) [
                | none ↦ (err encode_failed, h)
                | some line ↦
                    if ltb max_history_record_size (len line + 1)
                    then (err too_large, h)
                    else let (failed, file') = append_record call line file in
                      elim failed [
                        | some e ↦ (err e, with_file file' h)
                        | none ↦ (ok tt, add_locked s (with_file file' h))
                      ]
              ]
        ]
  ]

  -- One line of the file; blank lines are skipped.
  unfoldable pub load_line : String → FileHistory → Result HistoryError FileHistory
  load_line line h =
      if ltb max_history_record_size (len line + 1)
      then err too_large
      else if trim_space line == ""
      then ok h
      else elim (j.unmarshal line) [
        | none ↦ err decode_failed
        | some r ↦ elim (to_snapshot r) [ err e ↦ err e | ok s ↦ ok (add_locked s h) ]
      ]

  -- The lines in order, until one is refused.
  unfoldable pub load_lines : List String → FileHistory → Result HistoryError FileHistory
  load_lines [] h = ok h
  load_lines (line ∷ lines) h = elim (load_line line h) [
    | err e ↦ err e
    | ok h' ↦ load_lines lines h'
  ]

  abbrev load_readable : Option ℕ → List String → FileHistory → Result HistoryError FileHistory
  load_readable none lines h = load_lines lines h
  load_readable (some n) lines h = elim (load_lines (take n lines) h) [
    | err e ↦ err e
    | ok _ ↦ err read_failed
  ]

  -- A tail without a newline is a record that was not written whole: it is cut off.
  abbrev drop_tail : LoadCall → FileHistory → Result HistoryError FileHistory
  drop_tail call h =
      if h.published.tail == ""
      then ok h
      else if call.truncate_fails
      then err truncate_failed
      else ok (record h { published = record h.published { tail = "" } })

  unfoldable pub load : LoadCall → FileHistory → Result HistoryError FileHistory
  load call h =
      if call.seek_start_fails
      then err seek_failed
      else elim (load_readable call.read_fails_after h.published.lines h) [
        | err e ↦ err e
        | ok read ↦ elim (drop_tail call read) [
          | err e ↦ err e
          | ok whole ↦ if call.seek_end_fails then err seek_failed else ok whole
        ]
      ]

  abbrev pub new_history : File → FileHistory
  new_history file = record {
    handle = linked;
    published = file;
    entries = [];
    seen = [];
    close_result = none;
  }

  -- `file` is the file that was opened or created, if it could be.
  unfoldable pub new_file_history :
      String → Option File → Bool → LoadCall → Result HistoryError FileHistory
  new_file_history path file chmod_fails call =
      if trim_space path == "" then err empty_path else elim file [
        | none ↦ err open_failed
        | some f ↦ if chmod_fails then err chmod_failed else load call (new_history f)
      ]

abbrev close_file : Bool → Handle → Result HistoryError (Unit {0})
close_file close_fails shut = ok tt
close_file close_fails _ = if close_fails then err close_failed else ok tt

unfoldable pub close : Bool → FileHistory → Result HistoryError (Unit {0}) × FileHistory
close close_fails h = elim h.close_result [
  | some result ↦ (result, h)
  | none ↦
      let result = close_file close_fails h.handle in
      (result, record h { handle = shut; close_result = some result })
]

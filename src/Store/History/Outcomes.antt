-- ===== src/Store/History/Outcomes.antt =====
-- What the calls of a history have done when they return.
use Prim.Native.String.{len}
use etcd_studio.Base.{
  ◌+◌, String, true, false, ltb, any, ◌≡◌, refl, ap, ◌∙◌, inl, inr, [], ◌∷◌, arith, Elem,
  Bool-cases, Option-cases, Result-cases, some, Result, ok, err,
}
use etcd_studio.Base.Int.{ℤ, pos, ltb_ℤ}
use etcd_studio.Store.Types.{ValueSnapshot}
use etcd_studio.Store.History.Types.{
  HistoryError, File, FileHistory, Json, HistoryCall, closed, encode_failed, too_large,
  max_history_record_size,
}
use etcd_studio.Store.History.Records.{validate_snapshot, record_from_snapshot, history_seen_key}
use etcd_studio.Store.History.Log.{
  Buckets, bucket, key_of, member, add_locked, append_record, stamped, save, open_file, with_file,
}
use etcd_studio.Store.History.Prune.{prune_buckets, exceeds, prune, replace_entries_locked}
use etcd_studio.Store.History.Retention.{IsNewest}
use etcd_studio.Store.History.Indexed.{IsIndexed}
use etcd_studio.Store.History.Indexed.Added.{bucket-added_own, last-Elem}
use etcd_studio.Store.History.Indexed.Saved.{SameMaps, with_file-entries, with_file-seen}
use etcd_studio.Store.History.Durable.{append_record-failed}
use etcd_studio.Store.History.Indexed.Replaced.{prune_buckets-IsNewest}

-- Where no list is too long the loop changes none.
prune_buckets-within :
    (keep : ℤ) (es : Buckets) → any (exceeds keep) es ≡ false → prune_buckets keep es ≡ some es
unfolding prune_buckets
prune_buckets-within keep [] h = refl
prune_buckets-within keep ((k, ts) ∷ es) h =
    let rest : any (exceeds keep) es ≡ false = ground arith in
    ground (arith, prune_buckets-within keep es rest)

module _ ⦃j : Json⦄ where
  replace_entries_locked-ok :
      (updated : Buckets) (call : HistoryCall) (old : File) (h : FileHistory)
      → (replace_entries_locked updated call old h).0 ≡ ok tt
      → (replace_entries_locked updated call old h).1.entries ≡ updated
  unfolding replace_entries_locked
  replace_entries_locked-ok updated call old h e = ground arith

  -- A pruning that succeeds has put in what the loop gives.
  prune-ok :
      (keep : ℤ) (call : HistoryCall) (h : FileHistory)
      → ltb_ℤ keep (pos 1) ≡ false
      → (prune keep call h).0 ≡ ok tt
      → prune_buckets keep h.entries ≡ some (prune keep call h).1.entries
  unfolding prune
  prune-ok keep call h low e = elim (Option-cases (open_file h)) [
    | inl nothing ↦ absurd (ground arith)
    | inr (file, opened) ↦ elim (Option-cases (prune_buckets keep h.entries)) [
      | inl stuck ↦ absurd (ground arith)
      | inr (us, pruned) ↦ elim (Bool-cases (any (exceeds keep) h.entries)) [
        | inl some_exceed ↦ ground (arith, replace_entries_locked-ok us call file h)
        | inr none_exceed ↦ ground (arith, prune_buckets-within keep h.entries none_exceed)
      ]
    ]
  ]

  -- A pruning of an indexed history to at least one snapshot that succeeds leaves, for every key, at most
  -- that many of the stored ones, all of them or the newest: what was dropped is older than everything
  -- that was kept.
  pub prune-IsNewest :
      (keep : ℤ) (call : HistoryCall) (h : FileHistory) (k : String)
      → IsIndexed h.entries h.seen
      → ltb_ℤ keep (pos 1) ≡ false
      → (prune keep call h).0 ≡ ok tt
      → IsNewest keep (bucket k h.entries) (bucket k (prune keep call h).1.entries)
  prune-IsNewest keep call h k x low e =
      prune_buckets-IsNewest keep h.entries (prune keep call h).1.entries k low (x.distinct k)
        (prune-ok keep call h low e)

-- What a save leaves behind, by its outcome.
abbrev pub IsSaved :
    ValueSnapshot
    → HistoryCall
    → FileHistory
    → Result HistoryError (Unit {0}) × FileHistory
    → Type 0
IsSaved s call h (ok _, h') =
    (t : ValueSnapshot) × (history_seen_key t ≡ history_seen_key (stamped call s))
    × Elem t (bucket (key_of t) h'.entries)
IsSaved s call h (err e, h') = SameMaps h h' × (call.truncate_fails ≡ false → h' ≡ h)

with_file-same : (file : File) (h : FileHistory) → open_file h ≡ some file → with_file file h ≡ h
with_file-same file h e = ground arith

-- The ends of a save: refused, known already, failed while writing, or written.
data SaveEnds (s : ValueSnapshot) (call : HistoryCall) (h : FileHistory)
    (o : Result HistoryError (Unit {0}) × FileHistory) : Type 0 where
  refused : (e : HistoryError) → o ≡ (err e, h) → SaveEnds s call h o
  known :
      member (history_seen_key (stamped call s)) h.seen ≡ true
      → o ≡ (ok tt, h)
      → SaveEnds s call h o
  broken :
      (e : HistoryError) (file : File) (line : String)
      → open_file h ≡ some file
      → (append_record call line file).0 ≡ some e
      → o ≡ (err e, with_file (append_record call line file).1 h)
      → SaveEnds s call h o
  added :
      (file : File)
      → member (history_seen_key (stamped call s)) h.seen ≡ false
      → o ≡ (ok tt, add_locked (stamped call s) (with_file file h))
      → SaveEnds s call h o

-- A snapshot that was not seen is stored once it is added.
added-stored :
    (s : ValueSnapshot) (h : FileHistory)
    → member (history_seen_key s) h.seen ≡ false
    → Elem s (bucket (key_of s) (add_locked s h).entries)
unfolding add_locked
added-stored s h new =
    rw new (rw (bucket-added_own h.entries h.seen s) (last-Elem (bucket (key_of s) h.entries) s))

module _ ⦃j : Json⦄ where
  save-ends :
      (s : ValueSnapshot) (call : HistoryCall) (h : FileHistory) → SaveEnds s call h (save s call h)
  unfolding save
  save-ends s call h = elim (Result-cases (validate_snapshot s)) [
    | inl (e, bad) ↦ refused e (ground arith)
    | inr (_, valid) ↦ elim (Option-cases (open_file h)) [
      | inl nothing ↦ refused closed (ground arith)
      | inr (file, opened) ↦ elim (Bool-cases (member (history_seen_key (stamped call s)) h.seen)) [
        | inl seen ↦ known seen (ground arith)
        | inr new ↦ elim (Option-cases (j.marshal (record_from_snapshot (stamped call s)))) [
          | inl failed ↦ refused encode_failed (ground arith)
          | inr (line, m) ↦ elim (Bool-cases (ltb max_history_record_size (len line + 1))) [
            | inl large ↦ refused too_large (ground arith)
            | inr fits ↦ elim (Option-cases (append_record call line file).0) [
              | inl done ↦ added (append_record call line file).1 new (ground arith)
              | inr (e, failed) ↦ broken e file line opened failed (ground arith)
            ]
          ]
        ]
      ]
    ]
  ]

  -- After a save into an indexed history that succeeds a snapshot of the same seen key is stored; one that
  -- fails leaves the maps as they were and, where the truncation that undoes a failed append works, the
  -- file too.
  pub save-IsSaved :
      (s : ValueSnapshot) (call : HistoryCall) (h : FileHistory)
      → IsIndexed h.entries h.seen
      → IsSaved s call h (save s call h)
  save-IsSaved s call h x = elim (save-ends s call h) [
    | refused e same ↦ rw same ((refl, refl), λ w. refl)
    | known seen same ↦ rw same (x.stored (history_seen_key (stamped call s)) seen)
    | broken e file line opened failed same ↦
        let f = (append_record call line file).1 in
        rw same (
          (with_file-entries f h, with_file-seen f h),
          λ works.
              ap (λ g. with_file g h) (append_record-failed call line file e works failed)
              ∙ with_file-same file h opened,
        )
    | added file new same ↦
        let fresh : member (history_seen_key (stamped call s)) (with_file file h).seen ≡ false =
          rw (with_file-seen file h) new in
        rw same (stamped call s, refl, added-stored (stamped call s) (with_file file h) fresh)
  ]

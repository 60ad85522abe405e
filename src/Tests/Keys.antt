-- ===== src/Tests/Keys.antt =====
-- The theorems on keys, their versions and their pages at concrete inputs.
use etcd_studio.Base.{
  inl, inr, sym, ap, ◌∙◌, some_inj, ok_inj, arith, ℕ, Bool, false, ◌≡◌, refl, ◌⊎◌, none, some, List,
  [], ◌∷◌, ok, err, Bool-cases, if◌then◌else◌,
}
use etcd_studio.Base.Int.{ℤ, pos, ltb_ℤ}
use etcd_studio.Base.Base64.{Bytes, encode_std}
use etcd_studio.Text.Utf8.{Utf8}
use etcd_studio.Store.Types.{Entry, ValueSnapshot, Page, StoreError}
use etcd_studio.Store.Kv.{Kv, HistoryStorage, IsKv, IsBehind}
use etcd_studio.Store.Etcd.{KeyValue, entry_from_kv, etcd, get, get_at_revision, put, list}
use etcd_studio.Store.Etcd.Meaning.{etcd-IsKv}
use etcd_studio.Store.Etcd.Pages.{IsPageOf, list-IsPageOf}
use etcd_studio.Store.Etcd.Ranges.{listed}
use etcd_studio.Store.Registry.Types.{Cluster}
use etcd_studio.Store.Registry.Clusters.{no_cluster}
use etcd_studio.App.Server.{Server, Setup, Request}
use etcd_studio.App.Versions.{
  Candidate, Versions, merge_candidates, etcd_versions_before, archive_current, rollback_target,
  save_snapshot,
}
use etcd_studio.App.Versions.Chain.{
  up_to, first, IsAnswer, Says, IsVersions, etcd_versions_before-IsVersions,
}
use etcd_studio.App.Versions.Page.{IsPage, merge_candidates-IsPage}
use etcd_studio.App.Keys.{RolledBack, write_key, remove_key, roll_back}
use etcd_studio.App.Keys.Written.{IsWritten, write_key-IsWritten}
use etcd_studio.App.Keys.Restored.{IsRestored, roll_back-IsRestored}
use etcd_studio.App.Keys.Unsaved.{IsRefusedAt, unsaved-IsRefusedAt}
use etcd_studio.Tests.Fixtures.{ascii}
use etcd_studio.Tests.Clusters.{
  World, held, current, Later, register, register-IsClient, notebook, Noted, notebook-IsStorage,
  not_set_up, shelf, shelf-IsRanged, four_keys,
}

-- No bytes are shown as a text.
instance abbrev opaque : Utf8
opaque = record { to_text = λ _. none }

abbrev entry_at : ℕ → Bytes → Entry
entry_at n value = record {
  key = 107 ∷ [];
  value = value;
  create_revision = pos 2;
  mod_revision = pos n;
  version = pos 1;
  lease = pos 0;
}

abbrev item_at : ℕ → Bytes → KeyValue
item_at n value = record {
  key = 107 ∷ [];
  value = value;
  create_revision = pos 2;
  mod_revision = pos n;
  version = pos 1;
  lease = pos 0;
}

abbrev snapshot_at : ℕ → Bytes → ValueSnapshot
snapshot_at n value = record { cluster_id = "c"; entry = entry_at n value; captured_at = 3 }

abbrev home : Cluster
home = record no_cluster { id = "c"; name = "home" }

-- The key "k" is at revision 7, and the history has its revision 5.
abbrev busy : Server World (List ValueSnapshot)
busy = record {
  world = record { revision = 7; entries = (encode_std (107 ∷ []), item_at 7 (50 ∷ [])) ∷ [] };
  history = snapshot_at 5 (49 ∷ []) ∷ [];
  pending_audit = [];
}

abbrev with_storage : HistoryStorage (List ValueSnapshot) → Setup World (List ValueSnapshot)
with_storage storage = record {
  auth_enabled = false;
  cluster_kv = λ id. ok (etcd register, home);
  storage = storage;
  clock = λ n. n;
}

abbrev visit : Request
visit = record {
  principal = none;
  remote_addr = "10.0.0.1:55";
  remote_host = some "10.0.0.1";
  authenticated_user = "";
  forwarded_user = "";
}

etcd-IsKv_example : IsKv (etcd register) current Later
etcd-IsKv_example = etcd-IsKv register held Later register-IsClient

busy-IsBehind : IsBehind (etcd register) Noted "c" (107 ∷ []) busy.world busy.history
unfolding etcd get encode_std
busy-IsBehind e revision found (s, inl same, of, on, at) =
    let is : entry_at 7 (50 ∷ []) ≡ e = some_inj (ok_inj found) in
    let five : revision ≡ pos 5 = sym at ∙ ap (λ (x : ValueSnapshot). x.entry.mod_revision) same in
    rw (five, ← is) (omega arith)
busy-IsBehind e revision found (s, inr nothing, of, on, at) = absurd nothing

write_key-IsWritten_example :
    IsWritten current Later Noted "c"
      (107 ∷ [])
      (51 ∷ [])
      (pos 7)
      (pos 8)
      (current ((etcd register).get (107 ∷ []) busy.world).1 (107 ∷ []) ≡ none)
      ((etcd register).get (107 ∷ []) busy.world).1
      (write_key
        (with_storage notebook)
        visit
        (etcd register)
        home
        (107 ∷ [])
        (51 ∷ [])
        (some (pos 7))
        busy).1
unfolding write_key archive_current save_snapshot etcd get put encode_std
write_key-IsWritten_example =
    write_key-IsWritten (etcd register) current Later etcd-IsKv_example (with_storage notebook)
      Noted notebook-IsStorage visit home (107 ∷ []) (51 ∷ []) (pos 7) busy (pos 8) busy-IsBehind
      refl

abbrev rolled : RolledBack
rolled = record { revision = pos 8; restored_from_revision = pos 5; history_source = "storage" }

roll_back-IsRestored_example :
    IsRestored current Later Noted
      (etcd register)
      (with_storage notebook)
      "c"
      (107 ∷ [])
      (pos 7)
      (pos 5)
      rolled
      busy
      (roll_back
        (with_storage notebook)
        visit
        (etcd register)
        home
        (107 ∷ [])
        (pos 7)
        (pos 5)
        busy).1
unfolding roll_back rollback_target save_snapshot etcd get put get_at_revision encode_std
roll_back-IsRestored_example =
    roll_back-IsRestored (etcd register) current Later etcd-IsKv_example (with_storage notebook)
      Noted notebook-IsStorage visit home (107 ∷ []) (pos 7) (pos 5) busy rolled busy-IsBehind refl

unsaved-IsRefusedAt_example :
    IsRefusedAt busy.world (
      write_key (with_storage not_set_up) visit (etcd register) home (107 ∷ []) (51 ∷ []) none busy)
    × IsRefusedAt busy.world
        (remove_key (with_storage not_set_up) visit (etcd register) home (107 ∷ []) none busy)
    × IsRefusedAt busy.world (
        roll_back
          (with_storage not_set_up)
          visit
          (etcd register)
          home
          (107 ∷ [])
          (pos 7)
          (pos 5)
          busy)
unfolding etcd get rollback_target encode_std
unsaved-IsRefusedAt_example =
    unsaved-IsRefusedAt (etcd register) (with_storage not_set_up)
      (λ s h. (StoreError.history_not_setup, refl)) visit home (107 ∷ []) (51 ∷ []) none (pos 7)
      (pos 5) busy (λ e. cc e)

-- A key that was written at the revisions 4 and 7; what is before 4 was compacted.
abbrev versions : List Entry
versions = entry_at 7 (50 ∷ []) ∷ entry_at 4 (48 ∷ []) ∷ []

abbrev chronicle : Kv (Unit {0})
chronicle = record {
  list = λ prefix cursor limit w. (err StoreError.bad_limit, w);
  get = λ key w. (ok (first versions), w);
  get_at_revision = λ key revision w. (
    if ltb_ℤ revision (pos 4)
        then err StoreError.history_compacted
        else ok (first (up_to revision versions)),
    w,
  );
  put = λ key value expected w. (err StoreError.conflict, w);
  delete = λ key expected w. (err StoreError.conflict, w);
}

chronicle_answers :
    (revision : ℤ) (w : Unit {0})
    → IsAnswer versions revision (chronicle.get_at_revision (107 ∷ []) revision w).0
chronicle_answers revision w = elim (Bool-cases (ltb_ℤ revision (pos 4))) [
  | inl old ↦ rw old tt
  | inr new ↦ rw new refl
]

etcd_versions_before-IsVersions_example :
    IsVersions
      (Says chronicle (107 ∷ []))
      versions
      3
      (pos 6)
      (etcd_versions_before chronicle (107 ∷ []) (pos 7) 3 tt).0
etcd_versions_before-IsVersions_example =
    etcd_versions_before-IsVersions chronicle (107 ∷ []) versions
      (((omega arith, tt), (tt, tt)), (omega arith, (omega arith, tt))) chronicle_answers (pos 7) 3
      tt

-- The history has revision 5, etcd has 5 and 4; one candidate is asked for.
abbrev two_found : Versions
two_found = record { entries = entry_at 5 (49 ∷ []) ∷ entry_at 4 (48 ∷ []) ∷ []; compacted = false }

merge_candidates-IsPage_example :
    ((page : List Candidate) × (more : Bool) × (merge_candidates 1
          (snapshot_at 5 (49 ∷ []) ∷ [])
          two_found
        ≡ ok (page, more))
      × IsPage 1 (snapshot_at 5 (49 ∷ []) ∷ []) two_found.entries page more)
    ⊎ (snapshot_at 5 (49 ∷ []) ∷ [] ≡ [])
      × (two_found.entries ≡ [])
      × (two_found.compacted ≡ Bool.true)
merge_candidates-IsPage_example = merge_candidates-IsPage 1 (snapshot_at 5 (49 ∷ []) ∷ []) two_found

-- The first of two keys under "a", after which "ac" is next.
abbrev first_page : Page
first_page = record {
  entries =
      entry_from_kv (record {
        key = 97 ∷ [];
        value = 118 ∷ [];
        create_revision = pos 1;
        mod_revision = pos 1;
        version = pos 1;
        lease = pos 0;
      })
      ∷ entry_from_kv (record {
        key = 97 ∷ 98 ∷ [];
        value = 118 ∷ [];
        create_revision = pos 1;
        mod_revision = pos 1;
        version = pos 1;
        lease = pos 0;
      })
      ∷ [];
  next_cursor = 97 ∷ 99 ∷ [];
}

list-IsPageOf_example :
    IsPageOf 2
      (97 ∷ [])
      (listed (97 ∷ []) [] four_keys)
      (λ next. listed (97 ∷ []) next four_keys)
      first_page
unfolding list
list-IsPageOf_example =
    list-IsPageOf shelf (λ _. four_keys) shelf-IsRanged (97 ∷ []) [] (pos 2) tt first_page
      (omega arith, tt) refl refl

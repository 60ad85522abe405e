-- ===== src/Store/HistoryManager/Kept.antt =====
-- The state that the calls of `HistoryManager`, internal/store/history_manager.go, keep, and what a
-- restart finds of it.
use etcd_studio.Base.{
  true, false, ◌≡◌, ◌⊎◌, inl, inr, refl, ◌∙◌, Option, none, some, ok, err, ok_inj, Result-cases,
  Option-cases, Bool-cases, is_some, arith,
}
use mathlib.Core.Path.{subst}
use etcd_studio.Base.Int.{ℤ, pos, ◌≤ℤ◌}
use etcd_studio.Text.{Unicode}
use etcd_studio.AtomicFile.{chmod, Disk, replace_file, replace_file-keeps, replace_file-publishes}
use etcd_studio.Auth.Types.{Time}
use etcd_studio.Store.Types.{history_config_save}
use etcd_studio.Store.HistoryManager.Input.{HistoryStorageInput, normalize_history_storage_input}
use etcd_studio.Store.HistoryManager.Normal.{IsGiven, IsChecked, normalize-IsChecked}
use etcd_studio.Store.HistoryManager.Types.{
  max_retention_versions, PersistedHistoryStorage, Backend, HistoryManager, ManagerCall,
}
use etcd_studio.Store.HistoryManager.Settings.{
  validate_retention_versions, normalize_retention_versions, persisted, save_config, with_backend,
}
use etcd_studio.Store.HistoryManager.Operations.{configure, update_retention}

abbrev pub IsRetention : ℤ → Type 0
IsRetention n = (pos 0 ≤ℤ n) × (n ≤ℤ max_retention_versions)

-- The number of versions is from 0 to 10000, the default of the local file is trimmed and not empty, and
-- of a manager with a backend the configuration has passed the check and the file holds what is in memory.
pub record IsKept {B : Type 0} (m : HistoryManager B) : Type 0 where
  pub retention : IsRetention m.retention_versions
  pub default_given : IsGiven m.default_local_file
  pub checked : is_some m.backend ≡ true → IsChecked m.config
  pub stored :
      is_some m.backend ≡ true
      → m.disk.published ≡ some (persisted m.config m.configured_at m.retention_versions)

validate-IsRetention : (n : ℤ) → validate_retention_versions n ≡ ok tt → IsRetention n
unfolding validate_retention_versions
validate-IsRetention n h = ground arith

normalize-IsRetention :
    (given : Option ℤ) (n : ℤ) → normalize_retention_versions given ≡ ok n → IsRetention n
unfolding normalize_retention_versions
normalize-IsRetention none n h = subst IsRetention (ok_inj h) (omega arith, omega arith)
normalize-IsRetention (some value) n h = elim (Result-cases (validate_retention_versions value)) [
  | inl (e, wrong) ↦ absurd (cc (rw (wrong, normalize_retention_versions) at h))
  | inr (_, right) ↦
      subst IsRetention (ok_inj (rw (right, normalize_retention_versions) at h))
        (validate-IsRetention value right)
]

module _ {B : Type 0} where
  -- The backend may change in a call.
  pub IsKept-with_backend :
      (m : HistoryManager B) (b b' : B) → m.backend ≡ some b → IsKept m → IsKept (with_backend m b')
  IsKept-with_backend m b b' set h = record {
    retention = h.retention;
    default_given = h.default_given;
    checked = λ _. h.checked (rw set refl);
    stored = λ _. h.stored (rw set refl);
  }

  -- The two ends of `saveConfig` where its last step works.
  save_config-cases :
      (call : ManagerCall B) (config : HistoryStorageInput) (at : Time) (retention : ℤ)
      (disk : Disk PersistedHistoryStorage)
      → call.fails chmod ≡ false
      → let (saved, disk') = save_config call config at retention disk in
        ((saved ≡ err history_config_save) × (disk'.published ≡ disk.published)
          ⊎ (saved ≡ ok tt) × (disk'.published ≡ some (persisted config at retention)))
  unfolding save_config
  save_config-cases call config at retention disk works =
      let file = persisted config at retention in
      elim (Option-cases (replace_file call.fails file disk).0) [
        | inl done ↦
            rw (done, save_config) (inr (refl, replace_file-publishes call.fails file disk done))
        | inr (step, stopped) ↦
            rw (stopped, save_config)
              (inl (refl, replace_file-keeps call.fails file disk works stopped))
      ]

  -- Without a backend only the retention and the disk matter.
  pub IsKept-unset :
      (m : HistoryManager B) (disk : Disk PersistedHistoryStorage)
      → is_some m.backend ≡ false
      → IsKept m
      → IsKept (record m { disk = disk })
  IsKept-unset m disk unset h = record {
    retention = h.retention;
    default_given = h.default_given;
    checked = λ set. absurd (cc (set, unset));
    stored = λ set. absurd (cc (set, unset));
  }

module _ {B Q P : Type 0} (backend : Backend B Q P) ⦃u : Unicode⦄ where
  pub configure-IsKept :
      (call : ManagerCall B) (input : HistoryStorageInput) (m : HistoryManager B)
      → call.fails chmod ≡ false
      → IsKept m
      → IsKept (configure backend call input m).1
  unfolding configure
  configure-IsKept call input m works h =
      elim (Result-cases (normalize_retention_versions input.retention_versions)) [
        | inl (e, wrong) ↦ rw (wrong, configure) h
        | inr (keep, right) ↦
            elim (Result-cases (normalize_history_storage_input m.default_local_file input)) [
              | inl (e, refused) ↦ rw (right, refused, configure) h
              | inr (given, passed) ↦
                  let n : HistoryStorageInput = record given { retention_versions = none } in
                  let checked : IsChecked n =
                    same_checked given (
                      normalize-IsChecked m.default_local_file input given h.default_given
                        passed) in
                  elim (Bool-cases (is_some m.backend)) [
                    | inl set ↦ rw (right, passed, set, configure) h
                    | inr unset ↦ elim (Result-cases (call.open_backend true n)) [
                      | inl (e, closed) ↦ rw (right, passed, unset, closed, configure) h
                      | inr (b, opened) ↦
                          let ends = save_config-cases call n call.now keep m.disk works in
                          elim ends [
                            | inl (failed, same) ↦
                                rw (right, passed, unset, opened, failed, configure)
                                  (IsKept-unset m (save_config call n call.now keep m.disk).1 unset
                                    h)
                            | inr (done, published) ↦
                                rw (right, passed, unset, opened, done, configure)
                                  (record {
                                    retention =
                                        normalize-IsRetention input.retention_versions keep right;
                                    default_given = h.default_given;
                                    checked = λ _. checked;
                                    stored = λ _. published;
                                  })
                          ]
                    ]
                  ]
            ]
      ]
    where
      same_checked :
          (n : HistoryStorageInput)
          → IsChecked n
          → IsChecked (record n { retention_versions = none })
      same_checked n (inl is) =
          inl (record { type_is = is.type_is; file = is.file; nothing_else = is.nothing_else })
      same_checked n (inr (inl (type_is, is))) = inr (
          inl (
            type_is,
            record {
              no_file = is.no_file;
              host_given = is.host_given;
              database_given = is.database_given;
              username_given = is.username_given;
              port_above = is.port_above;
              port_below = is.port_below;
              mode_known = is.mode_known;
            },
          ))
      same_checked n (inr (inr (type_is, is))) = inr (
          inr (
            type_is,
            record {
              no_file = is.no_file;
              host_given = is.host_given;
              database_given = is.database_given;
              username_given = is.username_given;
              port_above = is.port_above;
              port_below = is.port_below;
              mode_known = is.mode_known;
            },
          ))

  pub update_retention-IsKept :
      (call : ManagerCall B) (keep : ℤ) (m : HistoryManager B)
      → call.fails chmod ≡ false
      → IsKept m
      → IsKept (update_retention backend call keep m).1
  unfolding update_retention
  update_retention-IsKept call keep m works h =
      elim (Result-cases (validate_retention_versions keep)) [
        | inl (e, wrong) ↦ rw (wrong, update_retention) h
        | inr (_, right) ↦ elim (Bool-cases call.cancelled) [
          | inl cancelled ↦ rw (right, cancelled, update_retention) h
          | inr runs ↦ elim (Option-cases m.backend) [
            | inl unset ↦ rw (right, runs, unset, update_retention) h
            | inr (b, set) ↦
                let ends = save_config-cases call m.config m.configured_at keep m.disk works in
                let disk' = (save_config call m.config m.configured_at keep m.disk).1 in
                elim ends [
                  | inl (failed, same) ↦
                      rw (right, runs, set, failed, update_retention)
                        (record {
                          retention = h.retention;
                          default_given = h.default_given;
                          checked = h.checked;
                          stored = λ there. same ∙ h.stored there;
                        })
                  | inr (done, published) ↦
                      let kept : IsKept (record m {
                        retention_versions = keep;
                        backend = some (backend.prune keep b).1;
                        disk = disk';
                      }) =
                        record {
                          retention = validate-IsRetention keep right;
                          default_given = h.default_given;
                          checked = λ _. h.checked (rw set refl);
                          stored = λ _. published;
                        } in
                      elim (Result-cases (backend.prune keep b).0) [
                        | inl (e, unpruned) ↦
                            rw (right, runs, set, done, unpruned, update_retention) kept
                        | inr (_, pruned) ↦
                            rw (right, runs, set, done, pruned, update_retention) kept
                      ]
                ]
          ]
        ]
      ]

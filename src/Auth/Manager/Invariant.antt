-- ===== src/Auth/Manager/Invariant.antt =====
-- The invariant of the manager, and saving.
use etcd_studio.Base.{
  true, false, ◌≡◌, refl, sym, ap, ◌∙◌, none, some, [], All, ok, err, inl, inr, Option-cases,
}
use mathlib.Core.Path.{subst}
use etcd_studio.Text.{Unicode, trim_space}
use etcd_studio.AtomicFile.{
  Step, chmod, Disk, replace_file, replace_file-keeps, replace_file-publishes,
}
use etcd_studio.Auth.Types.{
  AuthError, save_failed, Manager, PersistedConfig, PersistedUser, Call, auth_config_version,
  no_config, role_admin,
}
use etcd_studio.Auth.Rules.Unique.{usernames, IsUnique}
use etcd_studio.Auth.Rules.Fields.{IsRole}
use etcd_studio.Auth.Manager.Settings.{locks_out}
use etcd_studio.Auth.Manager.Storage.{Outcome, save_or_restore}

abbrev pub saved : PersistedConfig → PersistedConfig
saved c = record c { version = auth_config_version }

-- A known role, no grants for an administrator, and a name without blanks around it.
pub record IsAccount (v : PersistedUser) : Type 0 where
  pub role_known : IsRole v.role
  pub grants : v.role ≡ role_admin → v.cluster_ids ≡ []
  pub trimmed : trim_space v.username ≡ v.username

-- The disk after an attempt to save.
abbrev pub disk_after : Call → PersistedConfig → Manager → Disk PersistedConfig
disk_after call updated m = (replace_file call.fails (saved updated) m.disk).1

-- How `save_or_restore` goes on, by what the attempt to save returned.
module _ {A : Type 0} (call : Call) (updated : PersistedConfig)
    (restore : PersistedConfig → PersistedConfig) (next : Manager → Outcome A) (m : Manager) where
  pub save_or_restore-eq_next :
      (replace_file call.fails (saved updated) m.disk).0 ≡ none
      → save_or_restore call updated restore next m
        ≡ next (record m { config = saved updated; disk = disk_after call updated m })
  unfolding save_or_restore
  save_or_restore-eq_next done = rw (done, save_or_restore) refl

  pub save_or_restore-eq_restore :
      (s : Step)
      → (replace_file call.fails (saved updated) m.disk).0 ≡ some s
      → save_or_restore call updated restore next m ≡ (
        err (save_failed s),
        record m { config = restore (saved updated); disk = disk_after call updated m },
      )
  unfolding save_or_restore
  save_or_restore-eq_restore s failed = rw (failed, save_or_restore) refl

  -- A call that returns a value has saved.
  pub save_or_restore-eq_ok :
      (a : A)
      → (save_or_restore call updated restore next m).0 ≡ ok a
      → save_or_restore call updated restore next m
        ≡ next (record m { config = saved updated; disk = disk_after call updated m })
  save_or_restore-eq_ok a h =
      elim (Option-cases (replace_file call.fails (saved updated) m.disk).0) [
        | inl done ↦ save_or_restore-eq_next done
        | inr (s, failed) ↦
            absurd (cc (ap (λ (o : Outcome A). o.0) (save_or_restore-eq_restore s failed), h))
      ]

module _ ⦃u : Unicode⦄ where
  -- Names are unique up to case, and someone can administer the system where local accounts log in.
  pub record IsSound (c : PersistedConfig) : Type 0 where
    pub version : c.version ≡ auth_config_version
    pub accounts : All IsAccount c.users
    pub unique : IsUnique (usernames c.users)
    pub administrable : locks_out c.mode c ≡ false

  pub record IsGood (m : Manager) : Type 0 where
    pub sound : m.configured ≡ true → IsSound m.config
    pub blank : m.configured ≡ false → m.config ≡ no_config
    pub durable : m.configured ≡ true → m.disk.published ≡ some m.config

  -- A method succeeds and keeps the invariant, or fails and changes neither memory nor file.
  abbrev pub Done : {A : Type 0} → Manager → Outcome A → Type 0
  Done m (ok a, m') = IsGood m'
  Done m (err e, m') =
      IsGood m'
      × (m'.config ≡ m.config)
      × (m'.configured ≡ m.configured)
      × (m'.disk.published ≡ m.disk.published)
      × (m'.sessions ≡ m.sessions)

  pub IsGood-same :
      {m : Manager} (m' : Manager)
      → IsGood m
      → m'.config ≡ m.config
      → m'.configured ≡ m.configured
      → m'.disk.published ≡ m.disk.published
      → IsGood m'
  IsGood-same {m} m' g config configured published = record {
    sound = λ h. subst IsSound (sym config) (g.sound (sym configured ∙ h));
    blank = λ h. config ∙ g.blank (sym configured ∙ h);
    durable = λ h. cc (g.durable (sym configured ∙ h));
  }

  -- An error before anything was changed.
  pub Done-err : (A : Type 0) {m : Manager} (e : AuthError) → IsGood m → Done {A = A} m (err e, m)
  Done-err A e g = (g, refl, refl, refl, refl)

  -- Saving succeeds and `next` goes on from a published configuration, or it fails and the restored
  -- configuration is the old one.
  pub save_or_restore-Done :
      {A : Type 0} (call : Call) (updated : PersistedConfig)
      (restore : PersistedConfig → PersistedConfig) (next : Manager → Outcome A) (m : Manager)
      → call.fails chmod ≡ false
      → IsGood m
      → restore (saved updated) ≡ m.config
      → ((d : Disk PersistedConfig)
          → d.published ≡ some (saved updated)
          → Done m (next (record m { config = saved updated; disk = d })))
      → Done m (save_or_restore call updated restore next m)
  save_or_restore-Done call updated restore next m works g undo finish =
      let d = disk_after call updated m in
      elim (Option-cases (replace_file call.fails (saved updated) m.disk).0) [
        | inl done ↦
            subst (Done m) (sym (save_or_restore-eq_next call updated restore next m done))
              (finish d (replace_file-publishes call.fails (saved updated) m.disk done))
        | inr (s, failed) ↦
            let kept = replace_file-keeps call.fails (saved updated) m.disk works failed in
            subst (Done m) (sym (save_or_restore-eq_restore call updated restore next m s failed)) (
              IsGood-same (record m { config = restore (saved updated); disk = d }) g undo refl
                  kept,
              undo,
              refl,
              kept,
              refl,
            )
      ]

  -- A configuration that was published, in a manager that was configured before.
  pub IsGood-published :
      (m' : Manager)
      → IsSound m'.config
      → m'.configured ≡ true
      → m'.disk.published ≡ some m'.config
      → IsGood m'
  IsGood-published m' sound configured published = record {
    sound = λ h. sound;
    blank = λ h. cc;
    durable = λ h. published;
  }

-- Writing the version anew changes nothing.
pub saved-same : (c : PersistedConfig) → c.version ≡ auth_config_version → saved c ≡ c
saved-same c e = λ j. record c { version = (sym e) j }

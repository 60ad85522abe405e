-- ===== src/AtomicFile.antt =====
-- The write-to-temporary-then-rename sequence by which the program replaces a configuration file:
-- `saveLocked` of internal/auth/manager.go and internal/store/registry.go, and `saveConfig` of
-- internal/store/history_manager.go. A file is what it holds; a step fails when the caller's `fails`
-- says so.
use etcd_studio.Base.{
  Bool, true, false, Option, none, some, List, ◌∷◌, drop, ◌≡◌, ◌⊎◌, arith, if◌then◌else◌,
}

pub data Step : Type 0 where
  encode mkdir create_temp chmod_temp write sync close rename chmod remove : Step

-- What a temporary file holds.
pub data Temporary (A : Type 0) : Type 0 where
  empty partial : Temporary A
  complete : A → Temporary A

pub record Disk (A : Type 0) : Type 0 where
  -- the file under its own name, if it is there
  pub published : Option A
  -- the temporary files beside it; each attempt makes a new one
  pub temporaries : List (Temporary A)

-- The temporary file of an attempt that failed stays if it cannot be removed; the error is dropped.
abbrev cleanup : {A : Type 0} → (Step → Bool) → Temporary A → Disk A → Disk A
cleanup fails left d = if fails remove then record d { temporaries = left ∷ d.temporaries } else d

-- The step that failed, if one did, and the disk afterwards.
unfoldable pub replace_file : {A : Type 0} → (Step → Bool) → A → Disk A → Option Step × Disk A
replace_file {A} fails a d =
    if fails encode
    then (some encode, d)
    else if fails mkdir
    then (some mkdir, d)
    else if fails create_temp
    then (some create_temp, d)
    else if fails chmod_temp
    then (some chmod_temp, cleanup fails empty d)
    else if fails write
    then (some write, cleanup fails partial d)
    else if fails sync
    then (some sync, cleanup fails (complete a) d)
    else if fails close
    then (some close, cleanup fails (complete a) d)
    else if fails rename
    then (some rename, cleanup fails (complete a) d)
    else let replaced : Disk A = record d { published = some a } in
      if fails chmod then (some chmod, replaced) else (none, replaced)

-- The temporary files after an attempt that failed: those before, and its own if it was not removed.
abbrev pub Leaves : {A : Type 0} → Bool → List (Temporary A) → List (Temporary A) → Type 0
Leaves kept before after = (after ≡ before) ⊎ (kept ≡ true) × (drop 1 after ≡ before)

-- What one attempt to replace the file leaves, by how it ended.
abbrev pub Replaced : {A : Type 0} → Bool → A → Disk A → Option Step × Disk A → Type 0
Replaced kept a d (none, d') = (d'.published ≡ some a) × (d'.temporaries ≡ d.temporaries)
Replaced kept a d (some chmod, d') = (d'.published ≡ some a) × (d'.temporaries ≡ d.temporaries)
Replaced kept a d (some _, d') =
    (d'.published ≡ d.published) × Leaves kept d.temporaries d'.temporaries

-- An attempt to replace a file leaves under the file's name the new content if it succeeds or if only the
-- last chmod fails, and then no temporary file of its own. Otherwise it leaves the old content, and
-- a temporary file only where that could not be removed, at most one.
pub replace_file-Replaced :
    {A : Type 0} (fails : Step → Bool) (a : A) (d : Disk A)
    → Replaced (fails remove) a d (replace_file fails a d)
unfolding replace_file
replace_file-Replaced fails a d = ground arith

-- Where the last step works, a failure leaves the published file alone.
pub replace_file-keeps :
    {A : Type 0} (fails : Step → Bool) (a : A) (d : Disk A) {s : Step}
    → fails chmod ≡ false
    → (replace_file fails a d).0 ≡ some s
    → (replace_file fails a d).1.published ≡ d.published
unfolding replace_file
replace_file-keeps fails a d h e = ground arith

pub replace_file-publishes :
    {A : Type 0} (fails : Step → Bool) (a : A) (d : Disk A)
    → (replace_file fails a d).0 ≡ none
    → (replace_file fails a d).1.published ≡ some a
unfolding replace_file
replace_file-publishes fails a d e = ground arith

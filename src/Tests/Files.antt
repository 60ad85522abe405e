-- ===== src/Tests/Files.antt =====
-- The theorem on the replacement of files at a concrete input.
use etcd_studio.Base.{ℕ, Bool, true, false, some, []}
use etcd_studio.AtomicFile.{Step, rename, Disk, replace_file, Replaced, replace_file-Replaced}

abbrev rename_fails : Step → Bool
rename_fails rename = true
rename_fails _ = false

abbrev old_file : Disk ℕ
old_file = record { published = some 1; temporaries = [] }

replace_file-Replaced_example : Replaced false 2 old_file (replace_file rename_fails 2 old_file)
replace_file-Replaced_example = replace_file-Replaced rename_fails 2 old_file

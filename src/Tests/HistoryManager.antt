-- ===== src/Tests/HistoryManager.antt =====
-- The theorems on the history manager at concrete inputs.
use etcd_studio.Base.{false, ◌≡◌, refl, none, some, List, [], ◌∷◌, ok, arith}
use etcd_studio.Base.Int.{pos}
use etcd_studio.Text.{to_lower, trim_space, is_space}
use etcd_studio.Store.Types.{ValueSnapshot}
use etcd_studio.Store.HistoryManager.Input.{
  HistoryStorageInput, no_input, normalize_history_storage_input,
}
use etcd_studio.Store.HistoryManager.Normal.{HasWords, IsChecked, normalize-again}
use etcd_studio.Store.HistoryManager.Types.{Backend, HistoryManager, ManagerCall}
use etcd_studio.Store.HistoryManager.Kept.{IsKept}
use etcd_studio.Store.HistoryManager.Restart.{
  Request, configured, retained, run_all, run_all-IsKept,
}
use etcd_studio.Tests.Fixtures.{ascii}

-- A backend that keeps everything.
abbrev chest : Backend (List ValueSnapshot) (Unit {0}) (Unit {0})
chest = record {
  save = λ s b. (ok tt, s ∷ b);
  latest_before = λ cluster_id key before b. ok none;
  list_before = λ cluster_id key before limit b. ok [];
  prune_key = λ cluster_id key keep b. (ok tt, b);
  prune = λ keep b. (ok tt, b);
  save_audit = λ event b. (ok tt, b);
  list_audit = λ query b. ok tt;
  prune_audit = λ before b. (ok tt, b);
  close = λ b. ok tt;
}

abbrev noon : ManagerCall (List ValueSnapshot)
noon = record {
  now = 90000000000000000;
  fails = λ _. false;
  open_backend = λ initialize input. ok [];
  new_id = some "0123456789abcdef0123456789abcdef";
  cancelled = false;
}

abbrev new_history_manager : HistoryManager (List ValueSnapshot)
new_history_manager = record {
  default_local_file = "h";
  configured_at = 0;
  config = no_input;
  retention_versions = pos 100;
  backend = none;
  disk = record { published = none; temporaries = [] };
}

-- A local file and then a retention of 5 versions.
abbrev two_calls : List (ManagerCall (List ValueSnapshot) × Request)
two_calls =
    (noon, configured (record no_input { storage_type = " local " }))
    ∷ (noon, retained (pos 5))
    ∷ []

ascii-HasWords : HasWords ascii
unfolding to_lower trim_space is_space
ascii-HasWords = record {
  types = (refl, (refl, (refl, (refl, tt))));
  postgres = (refl, (refl, (refl, (refl, (refl, tt)))));
  mysql = (refl, (refl, (refl, (refl, tt))));
}

new_history_manager-IsKept : IsKept new_history_manager
unfolding trim_space is_space
new_history_manager-IsKept = record {
  retention = (omega arith, omega arith);
  default_given = (refl, refl);
  checked = λ set. absurd (cc set);
  stored = λ set. absurd (cc set);
}

run_all-IsKept_example : IsKept (run_all chest two_calls new_history_manager)
run_all-IsKept_example =
    run_all-IsKept chest two_calls new_history_manager (refl, (refl, tt)) new_history_manager-IsKept

abbrev local_config : HistoryStorageInput
local_config = record no_input { storage_type = "local"; local_file = "h" }

normalize-again_example :
    IsChecked local_config × (normalize_history_storage_input "h" local_config ≡ ok local_config)
unfolding normalize_history_storage_input to_lower trim_space is_space
normalize-again_example =
    normalize-again "h" (record no_input { storage_type = " local " }) local_config ascii-HasWords
      (refl, refl) refl

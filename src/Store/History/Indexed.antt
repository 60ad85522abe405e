-- ===== src/Store/History/Indexed.antt =====
-- The invariant of the two maps of a history: lists under their keys, and the set of seen keys.
pub mod Lookup
pub mod Added
pub mod Replaced
pub mod Saved
pub mod Pruned
pub mod Reach
use etcd_studio.Base.{String, Bool, true, ◌≡◌, All, Elem}
use etcd_studio.Base.{ok}
use etcd_studio.Store.Types.{ValueSnapshot}
use etcd_studio.Store.History.Types.{FileHistory}
use etcd_studio.Store.History.Records.{history_seen_key, validate_snapshot}
use etcd_studio.Store.History.Log.{Buckets, bucket, key_of, member}
use etcd_studio.Store.History.Newest.{IsDistinct}
use etcd_studio.Base.{List, ◌≢◌, [], ◌∷◌}

-- A snapshot that passed the check, under its own key, and noted as seen.
abbrev pub IsPlaced : List String → String → ValueSnapshot → Type 0
IsPlaced seen key s =
    (key_of s ≡ key) × (validate_snapshot s ≡ ok tt) × (member (history_seen_key s) seen ≡ true)

-- No key has two lists.
abbrev pub HasUniqueKeys : Buckets → Type 0
HasUniqueKeys [] = Unit
HasUniqueKeys ((key, _) ∷ rest) =
    All (λ (b : String × List ValueSnapshot). b.0 ≢ key) rest × HasUniqueKeys rest

pub record IsIndexed (entries : Buckets) (seen : List String) : Type 0 where
  pub placed : (key : String) → All (IsPlaced seen key) (bucket key entries)
  pub distinct : (key : String) → IsDistinct (bucket key entries)
  pub stored :
      (x : String)
      → member x seen ≡ true
      → (s : ValueSnapshot) × (history_seen_key s ≡ x) × Elem s (bucket (key_of s) entries)
  pub keys : HasUniqueKeys entries

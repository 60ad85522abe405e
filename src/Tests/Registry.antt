-- ===== src/Tests/Registry.antt =====
-- The theorems on the registry of clusters at concrete inputs.
use etcd_studio.Base.{
  Char, String, Bool, true, false, ◌≡◌, ◌≢◌, refl, [], ◌∷◌, none, some, some_inj,
}
use mathlib.Core.Path.{subst}
use etcd_studio.Base.Maps.{lookup}
use etcd_studio.AtomicFile.{Step, rename, replace_file}
use etcd_studio.Store.Registry.Input.{
  cluster_from_input, validate_cluster, unique_endpoints, is_endpoint,
}
use etcd_studio.Store.Registry.Refused.{IsRefused, create, change, change-IsRefused}
use etcd_studio.Text.{fold_key, trim_space, is_space}
use etcd_studio.Store.Registry.Types.{ClusterInput, Registry, Urls, RegistryCall}
use etcd_studio.Store.Registry.Clusters.{
  create_cluster, update_cluster, delete_cluster, name_exists, save_entries, save_clusters,
}
use etcd_studio.Store.Registry.Names.{IsGood}
use etcd_studio.Store.Registry.Changes.{
  new_registry, MakesIds, Reach, here, created, updated, deleted, Registry-IsGood,
  new_registry-IsGood,
}
use etcd_studio.Tests.Fixtures.{ascii}

-- Every text is the address of a host.
instance abbrev hosts : Urls
hosts = record { parse = λ s. some (record { scheme = "http"; host = s; has_user = false }) }

abbrev call_with : String → RegistryCall
call_with id = record { now = 3; fails = λ _. false; new_id = some id; close_fails = λ _. false }

abbrev named : String → ClusterInput
named name = record {
  name = name;
  endpoints = "http://localhost:2379" ∷ [];
  username = "";
  password = none;
  tls_ca_file = "";
  tls_cert_file = "";
  tls_key_file = "";
}

call_with-MakesIds : (c : Char) (s : String) → MakesIds (call_with (String.◌∷◌ c s))
call_with-MakesIds c s id e = subst (λ (x : String). x ≢ "") (some_inj e) (λ same. cc)

-- Two clusters are made, the first is renamed, the second deleted.
abbrev both : Registry
both =
    (create_cluster (named "b") (call_with "b2")
      (create_cluster (named "a") (call_with "a1") new_registry).1).1

both-Reach : Reach new_registry both
both-Reach =
    created (created (here new_registry) (named "a") (call_with "a1") (call_with-MakesIds _ _))
      (named "b") (call_with "b2") (call_with-MakesIds _ _)

abbrev renames : Step → Bool
renames rename = true
renames _ = false

abbrev left : Registry
left =
    (delete_cluster "b2" (call_with "")
      (update_cluster "a1" (named "B") (call_with "") (λ _. both) both).1).1

left-Reach : Reach new_registry left
left-Reach =
    deleted (updated both-Reach (here both) "a1" (named "B") (call_with "")) "b2" (call_with "")

Registry-IsGood_example : IsGood left.clusters
Registry-IsGood_example = Registry-IsGood left-Reach new_registry-IsGood

-- A call in which the rename fails.
abbrev stuck : RegistryCall
stuck = record (call_with "c3") { fails = renames }

new_there : (id : String) → stuck.new_id ≡ some id → lookup id both.clusters ≡ none
unfolding create_cluster cluster_from_input validate_cluster unique_endpoints is_endpoint
    name_exists save_entries save_clusters replace_file fold_key trim_space is_space
new_there id e = subst (λ (x : String). lookup x both.clusters ≡ none) (some_inj e) refl

change-IsRefused_example : IsRefused both (change (create (named "c")) stuck both)
change-IsRefused_example = change-IsRefused (create (named "c")) stuck both refl new_there

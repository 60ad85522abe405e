-- ===== src/Store/Registry/Input.antt =====
-- `clusterFromInput` and `validateCluster` of internal/store/registry.go.
use Prim.Native.String.{count}
use etcd_studio.Base.{
  String, Bool, true, false, not, ◌&&◌, ◌||◌, ◌==◌, ltb, any, List, [], ◌∷◌, none, some,
  if◌then◌else◌, Result, ok, err,
}
use etcd_studio.Text.{trim_space}
use etcd_studio.Store.Registry.Types.{Cluster, ClusterInput, ClusterError, invalid_cluster, Urls}

-- The endpoints without blanks around them, each once; `seen` holds those that were met.
unfoldable pub unique_endpoints : List String → List String → List String
unique_endpoints seen [] = []
unique_endpoints seen (x ∷ xs) =
    let endpoint = trim_space x in
    let skipped = unique_endpoints seen xs in
    let kept = endpoint ∷ unique_endpoints (endpoint ∷ seen) xs in
    if endpoint == "" then skipped else if any (λ s. s == endpoint) seen then skipped else kept

module _ ⦃u : Urls⦄ where
  unfoldable pub is_endpoint : String → Bool
  is_endpoint endpoint = elim (u.parse endpoint) [
    | none ↦ false
    | some url ↦
        (url.scheme == "http" || url.scheme == "https") && not (url.host == "") && not url.has_user
  ]

  abbrev is_none_given : List String → Bool
  is_none_given [] = true
  is_none_given (x ∷ xs) = false

  unfoldable pub validate_cluster : Cluster → Result ClusterError (Unit {0})
  unfolding is_endpoint
  validate_cluster c =
      if c.name == ""
      then err invalid_cluster
      else if ltb 80 (count c.name)
      then err invalid_cluster
      else if is_none_given c.endpoints
      then err invalid_cluster
      else if any (λ e. not (is_endpoint e)) c.endpoints
      then err invalid_cluster
      else if (if c.tls_cert_file == "" then not (c.tls_key_file == "") else c.tls_key_file == "")
      then err invalid_cluster
      else if c.username == "" && not (c.password == "")
      then err invalid_cluster
      else ok tt

  -- The cluster that an input makes of `base`, before the check.
  abbrev pub merged : ClusterInput → Cluster → Cluster
  merged input base = record base {
    name = trim_space input.name;
    username = trim_space input.username;
    tls_ca_file = trim_space input.tls_ca_file;
    tls_cert_file = trim_space input.tls_cert_file;
    tls_key_file = trim_space input.tls_key_file;
    endpoints = unique_endpoints [] input.endpoints;
    password = elim input.password [ none ↦ base.password | some p ↦ p ];
  }

  unfoldable pub cluster_from_input : ClusterInput → Cluster → Result ClusterError Cluster
  cluster_from_input input base = elim (validate_cluster (merged input base)) [
    | err e ↦ err e
    | ok _ ↦ ok (merged input base)
  ]

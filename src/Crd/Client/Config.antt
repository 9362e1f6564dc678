-- ===== src/Crd/Client/Config.antt =====
-- plugins/crdplugin/pkg/client/clientset/versioned/clientset.go and typed/pantheontech/v1/pantheontech_client.go:
-- the clients made from the configuration of a cluster. The REST clients `R`, the discovery clients
-- `D`, the rate limiters `L` and the rates `Q` are those of the Kubernetes library.
use cnf_nsm.Common.{Bool, [], Option, none, some, Bytes, codes, str_eq, if◌then◌else◌}
use cnf_nsm.Common.Int64.{ℤ, is_positive}
use cnf_nsm.Errors.{Result, ok, err, ◌>>=◌, burst_required}

-- The fields of the configuration that the clients read or set.
pub record RestConfig (Q L : Type 0) : Type 0 where
  pub qps : Q
  pub burst : ℤ
  pub rate_limiter : Option L
  pub user_agent : Bytes
  pub api_path : Bytes
  pub group_version : Option (Bytes × Bytes)
  pub negotiated_serializer : Option Bytes

-- What the Kubernetes library does. `without_conversion` names the serializer of the scheme.
pub record KubeLibrary (Q L R D : Type 0) : Type 0 where
  pub rate_is_positive : Q → Bool
  pub new_token_bucket_rate_limiter : Q → ℤ → L
  pub default_kubernetes_user_agent : Bytes
  pub without_conversion : Bytes
  pub rest_client_for : RestConfig Q L → Result R
  pub new_discovery_client_for_config : RestConfig Q L → Result D
  pub new_discovery_client : R → D

-- The group's client, as the REST client that it holds, and the discovery client.
pub record Clientset (R D : Type 0) : Type 0 where
  pub discovery_client : D
  pub pantheon_v1 : R

-- `Discovery`, of a clientset that may be nil
unfoldable pub discovery : {R D : Type 0} → Option (Clientset R D) → Option D
discovery none = none
discovery (some c) = some c.discovery_client

-- `PantheonV1`, whose receiver must not be nil.
unfoldable pub pantheon_v1 : {R D : Type 0} → Clientset R D → R
pantheon_v1 c = c.pantheon_v1

-- `GroupName` of plugins/crdplugin/pkg/apis/pantheontech/register.go
abbrev pub group_name : Bytes
group_name = codes "pantheon.tech"

abbrev pub scheme_group_version : Bytes × Bytes
scheme_group_version = (group_name, codes "v1")

module _ {Q L R D : Type 0} (kube : KubeLibrary Q L R D) where
  unfoldable pub set_config_defaults : RestConfig Q L → RestConfig Q L
  set_config_defaults config = record config {
    group_version = some scheme_group_version;
    api_path = codes "/apis";
    negotiated_serializer = some kube.without_conversion;
    user_agent =
        if str_eq config.user_agent []
        then kube.default_kubernetes_user_agent
        else config.user_agent;
  }

  -- `NewForConfig` of the group's client
  unfoldable pub new_pantheon_for_config : RestConfig Q L → Result R
  new_pantheon_for_config c = kube.rest_client_for (set_config_defaults c)

  -- `NewForConfigOrDie` and `New` of the group's client: a panic is an error.
  unfoldable pub new_pantheon_for_config_or_die : RestConfig Q L → Result R
  new_pantheon_for_config_or_die c = new_pantheon_for_config c

  unfoldable pub new_pantheon : R → R
  new_pantheon c = c

  -- The copy of the configuration that the clients are made from.
  unfoldable pub rate_limited : RestConfig Q L → Result (RestConfig Q L)
  rate_limited c = elim c.rate_limiter [
    | some limiter ↦ ok c
    | none ↦
        if kube.rate_is_positive c.qps
        then (if is_positive c.burst
            then ok (record c {
              rate_limiter = some (kube.new_token_bucket_rate_limiter c.qps c.burst);
            })
            else err burst_required)
        else ok c
  ]

  -- `NewForConfig` of the clientset
  unfoldable pub new_for_config : RestConfig Q L → Result (Clientset R D)
  new_for_config c = do
    config_shallow_copy ← rate_limited c
    pantheon_v1 ← new_pantheon_for_config config_shallow_copy
    discovery_client ← kube.new_discovery_client_for_config config_shallow_copy
    ok (record { discovery_client = discovery_client; pantheon_v1 = pantheon_v1 })

  -- `NewForConfigOrDie`: a panic is an error. The configuration goes to the clients as it is.
  unfoldable pub new_for_config_or_die : RestConfig Q L → Result (Clientset R D)
  new_for_config_or_die c = do
    pantheon_v1 ← new_pantheon_for_config_or_die c
    discovery_client ← kube.new_discovery_client_for_config c
    ok (record { discovery_client = discovery_client; pantheon_v1 = pantheon_v1 })

  unfoldable pub new : R → Clientset R D
  new c = record { discovery_client = kube.new_discovery_client c; pantheon_v1 = new_pantheon c }

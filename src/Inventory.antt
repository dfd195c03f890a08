-- ===== src/Inventory.antt =====
-- crates/rust-proxmoxmcp-core/src/inventory.rs: one cluster, and its credentials. The loaders of
-- the secret library, and the loaded inventory file, are parameters.
use rustproxmoxmcp.Prelude.{ℕ, Option, none, some, List, ◌++◌, Result, err, ok_or, map_err}
use rustproxmoxmcp.Text.{Text, codes}
use rustproxmoxmcp.Error.{ProxmoxError, config, unknown_cluster}

pub record Cluster : Type 0 where
  pub endpoint : Text
  pub token_id : Text
  pub token_secret_env : Option Text
  pub token_secret_file : Option Text
  pub ca_pem_path : Option Text
  pub protected_vmids : List ℕ
  pub protected_tags : List Text

module _ {S : Type 0} (load_from_env load_from_file : Text → Result S Text) where
  secret_of : Option Text → Option Text → Result S ProxmoxError
  secret_of (some variable) none = map_err config (load_from_env variable)
  secret_of none (some path) = map_err config (load_from_file path)
  secret_of (some _) (some _) =
      err (
        config (codes "exactly one of token_secret_env or token_secret_file must be set, not both"))
  secret_of none none =
      err (config (codes "one of token_secret_env or token_secret_file must be set"))

  -- `Cluster::load_secret`
  pub load_secret : Cluster → Result S ProxmoxError
  load_secret cluster = secret_of cluster.token_secret_env cluster.token_secret_file

-- `Cluster::authorization_value`
pub authorization_value : Cluster → Text → Text
authorization_value cluster secret =
    codes "PVEAPIToken=" ++ (cluster.token_id ++ (codes "=" ++ secret))

module _ (get_device : Text → Option Cluster) where
  -- `ClusterInventory::get`
  pub get : Text → Result Cluster ProxmoxError
  get name = ok_or (get_device name) (unknown_cluster name)

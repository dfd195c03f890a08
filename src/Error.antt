-- ===== src/Error.antt =====
-- crates/rust-proxmoxmcp-core/src/error.rs: the errors of the core crate.
use rustproxmoxmcp.Prelude.{ℕ, ◌++◌, ◌||◌, eqb, if◌then◌else◌}
use rustproxmoxmcp.Text.{Text, codes}
use rustproxmoxmcp.Text.Number.{decimal}

-- The error of the HTTP library is held as its text.
pub data ProxmoxError : Type 0 where
  http : Text → ProxmoxError
  api : ℕ → Text → ProxmoxError
  unauthorized : ProxmoxError
  denied not_found malformed config unknown_cluster : Text → ProxmoxError

-- `ProxmoxError::guest_out_of_scope`
unfoldable pub guest_out_of_scope : Text → ProxmoxError
guest_out_of_scope cluster =
    denied (codes "guest does not exist or is outside this caller's scope in cluster " ++ cluster)

-- `ProxmoxError::from_response`, for a reading of the body that is given
module _ (extract_detail : Text → Text) where
  pub from_response : ℕ → Text → ProxmoxError
  from_response status body =
      if eqb status 401 || eqb status 403 then unauthorized else api status (extract_detail body)

-- `ProxmoxError::to_string`
unfoldable pub to_string : ProxmoxError → Text
to_string (http error) = codes "http: " ++ error
to_string (api status message) =
    codes "proxmox api error (status " ++ (decimal status ++ (codes "): " ++ message))
to_string unauthorized = codes "proxmox api rejected the configured credentials"
to_string (denied why) = codes "denied: " ++ why
to_string (not_found what) = codes "not found: " ++ what
to_string (malformed why) = codes "malformed proxmox response: " ++ why
to_string (config why) = codes "configuration error: " ++ why
to_string (unknown_cluster name) = codes "unknown cluster: " ++ name

-- ===== src/ChangeSet.antt =====
-- What the handlers read and write of a change set (mecmcp-changeset keeps it), and what they ask of a
-- cluster (crates/rust-proxmoxmcp/src/server/mod.rs, crates/rust-proxmoxmcp-core/src/guests.rs and
-- fingerprint.rs).
use rustproxmoxmcp.Prelude.{ℕ, Bool, Option, List}
use rustproxmoxmcp.Text.{Text}
use rustproxmoxmcp.Json.{Json}
use rustproxmoxmcp.Selector.{GuestType, path_segment}
use rustproxmoxmcp.Guest.{ResolvedGuest}
use rustproxmoxmcp.VmConfig.{VmConfig}

-- The states that the handlers name.
pub data ChangeSetState : Type 0 where
  planned approved applying applied failed : ChangeSetState

pub record ChangeSet : Type 0 where
  pub id : Text
  pub device : Text
  pub owner : Text
  pub state : ChangeSetState
  pub expected_candidate_fingerprint : Text
  pub actions : List Json
  pub preview : Option Text
  pub task_id : Option Text

-- `fetch_guest_config_state`
pub record GuestConfigState : Type 0 where
  pub config_digest : Text
  pub disks : List (Text × ℕ)

pub record GuestState : Type 0 where
  pub cluster : Text
  pub vmid : ℕ
  pub name : Text
  pub kind : Text
  pub node : Text
  pub status : Text
  pub tags : List Text
  pub config_digest : Text
  pub disks : List (Text × ℕ)

-- What plan and apply take the fingerprint of.
unfoldable pub state_of : Text → ResolvedGuest → GuestConfigState → GuestState
unfolding path_segment
state_of cluster guest config = record {
  cluster = cluster;
  vmid = guest.vmid;
  name = guest.name;
  kind = path_segment guest.type;
  node = guest.node;
  status = guest.status;
  tags = guest.tags;
  config_digest = config.config_digest;
  disks = config.disks;
}

-- The requests that change a guest or a volume: the functions of `guests` with their arguments.
pub data Request : Type 0 where
  destroy_container destroy_vm : Text → ℕ → Bool → Request
  delete_snapshot rollback_snapshot : Text → GuestType → ℕ → Text → Request
  delete_volume : Text → Text → Text → Request
  restore_backup : Text → GuestType → ℕ → Text → Bool → Request
  migrate_guest : Text → GuestType → ℕ → Text → Bool → Bool → Request
  update_vm_config : Text → ℕ → VmConfig → Request

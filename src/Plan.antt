-- ===== src/Plan.antt =====
-- crates/rust-proxmoxmcp/src/server/change_set.rs and server/mod.rs: what a destructive plan records,
-- and what is checked before it is planned and again before it is applied.
pub mod Complete
pub mod Ready
pub mod Tools
use rustproxmoxmcp.Prelude.{
  ℕ, Bool, true, false, not, ◌&&◌, ◌||◌, Option, none, some, List, [], ◌∷◌, ◌++◌, map, keep,
  is_empty, if◌then◌else◌, Result, ok, err, ◌>>=◌, ◌>>◌, map_err, refuse_if,
}
use rustproxmoxmcp.Text.{Text, codes, ◌==◌, has_substring}
use rustproxmoxmcp.Error.{ProxmoxError, to_string}
use rustproxmoxmcp.Selector.{GuestType, lxc, qemu}
use rustproxmoxmcp.Grant.{ProxmoxGrant, is_unrestricted_guest_scope}
use rustproxmoxmcp.Volume.{validate_path_segment, validate_volid_kind, validate_volid_for_operation}
use rustproxmoxmcp.VmConfig.{VmConfig, reject_unsafe_vm_config}

pub record PlanDestroyArgs : Type 0 where
  pub cluster : Text
  pub vmid : ℕ
  pub op : Text
  pub snapname : Option Text
  pub storage : Option Text
  pub volid : Option Text
  pub storage_node : Option Text
  pub target_node : Option Text
  pub online : Bool
  pub with_local_disks : Bool
  pub config : VmConfig

-- `default_destructive_op`
unfoldable pub default_destructive_op : Text
default_destructive_op = codes "destroy_guest"

pub record DestroyAction : Type 0 where
  pub op : Text
  pub cluster : Text
  pub vmid : ℕ
  pub snapname : Option Text
  pub storage : Option Text
  pub volid : Option Text
  pub storage_node : Option Text
  pub target_node : Option Text
  pub online : Bool
  pub with_local_disks : Bool
  pub config : Option VmConfig

unfoldable pub tool_for_op : Text → GuestType → Option Text
tool_for_op op kind =
    if op == codes "destroy_guest" || op == codes "destroy"
    then some (elim kind [ lxc ↦ codes "delete_container" | qemu ↦ codes "delete_vm" ])
    else if op == codes "delete_snapshot"
    then some (codes "delete_snapshot")
    else if op == codes "rollback_snapshot"
    then some (codes "rollback_snapshot")
    else if op == codes "delete_backup"
    then some (codes "delete_backup")
    else if op == codes "delete_iso"
    then some (codes "delete_iso")
    else if op == codes "restore_backup"
    then some (codes "restore_backup")
    else if op == codes "migrate"
    then some (elim kind [ lxc ↦ codes "migrate_container" | qemu ↦ codes "migrate_vm" ])
    else if op == codes "update_vm_config"
    then some (codes "update_vm_config")
    else none

-- The action of a plan, before the fields that the operation takes are set.
unfoldable pub bare : PlanDestroyArgs → DestroyAction
bare args = record {
  op = args.op;
  cluster = args.cluster;
  vmid = args.vmid;
  snapname = none;
  storage = none;
  volid = none;
  storage_node = none;
  target_node = none;
  online = args.online;
  with_local_disks = args.with_local_disks;
  config = none;
}

-- `require`: a field that is given and not empty
unfoldable pub require : Text → Option Text → Text → Result Text Text
require op none name = err (op ++ (codes " requires " ++ name))
require op (some value) name =
    if is_empty value then err (op ++ (codes " requires " ++ name)) else ok value

unfoldable pub unknown_message : Text → Text
unknown_message other =
    codes "unknown destructive operation '"
    ++ (other
        ++ codes
            "'; expected one of destroy_guest, delete_snapshot, rollback_snapshot, delete_backup, delete_iso, restore_backup, migrate, update_vm_config")

-- `mecmcp_openapi::expand_path` on the template of one segment
module _ (expand_segment : Text → Result Text Text) where
  -- `require_segment`: what is given can stand in a path
  unfoldable pub require_segment : Text → Option Text → Text → Result Text Text
  require_segment op value name = do
    given ← require op value name
    map_err (λ error. op ++ (codes " refuses " ++ (name ++ (codes ": " ++ to_string error))))
        (validate_path_segment expand_segment given name)
    ok given

  unfoldable pub build_migrate : PlanDestroyArgs → Result DestroyAction Text
  unfolding bare require_segment
  build_migrate args = do
    node ← require_segment args.op args.target_node (codes "target_node")
    ok (record (bare args) { target_node = some node })

  unfoldable pub build_update : PlanDestroyArgs → Result DestroyAction Text
  unfolding bare
  build_update args =
      if is_empty args.config
      then err (codes "update_vm_config requires config")
      else elim (reject_unsafe_vm_config args.config) [
        | some message ↦ err message
        | none ↦ ok (record (bare args) { config = some args.config })
      ]

  unfoldable pub build_snapshot : PlanDestroyArgs → Result DestroyAction Text
  unfolding bare require_segment
  build_snapshot args = do
    snapname ← require_segment args.op args.snapname (codes "snapname")
    ok (record (bare args) { snapname = some snapname })

  unfoldable pub build_volume : Text → PlanDestroyArgs → Result DestroyAction Text
  unfolding bare require_segment require
  build_volume expected_kind args = do
    node ← require_segment args.op args.storage_node (codes "storage_node")
    storage ← require_segment args.op args.storage (codes "storage")
    volid ← require args.op args.volid (codes "volid")
    map_err to_string (validate_volid_for_operation volid storage expected_kind)
    ok (record (bare args) { storage_node = some node; storage = some storage; volid = some volid })

  unfoldable pub build_restore : PlanDestroyArgs → Result DestroyAction Text
  unfolding bare require
  build_restore args = do
    volid ← require args.op args.volid (codes "volid")
    map_err to_string (validate_volid_kind volid (codes "backup"))
    ok (record (bare args) { volid = some volid })

  unfoldable pub build_destroy_action : PlanDestroyArgs → Result DestroyAction Text
  build_destroy_action args =
      if args.op == codes "destroy_guest"
      then ok (bare args)
      else if args.op == codes "migrate"
      then build_migrate args
      else if args.op == codes "update_vm_config"
      then build_update args
      else if args.op == codes "delete_snapshot" || args.op == codes "rollback_snapshot"
      then build_snapshot args
      else if args.op == codes "delete_backup"
      then build_volume (codes "backup") args
      else if args.op == codes "delete_iso"
      then build_volume (codes "iso") args
      else if args.op == codes "restore_backup"
      then build_restore args
      else err (unknown_message args.op)

-- `present`
unfoldable pub present : Option Text → Bool
present none = false
present (some value) = not (is_empty value)

unfoldable pub present_config : Option VmConfig → Bool
present_config none = false
present_config (some config) = not (is_empty config)

-- The fields that an operation needs, each with whether the action carries it.
unfoldable pub required_fields : DestroyAction → List (Text × Bool)
required_fields action =
    if action.op == codes "destroy_guest" || action.op == codes "destroy"
    then []
    else if action.op == codes "delete_snapshot" || action.op == codes "rollback_snapshot"
    then (codes "snapname", present action.snapname) ∷ []
    else if action.op == codes "delete_backup" || action.op == codes "delete_iso"
    then (codes "storage", present action.storage)
      ∷ (codes "volid", present action.volid)
      ∷ (codes "storage_node", present action.storage_node)
      ∷ []
    else if action.op == codes "restore_backup"
    then (codes "volid", present action.volid) ∷ []
    else if action.op == codes "migrate"
    then (codes "target_node", present action.target_node) ∷ []
    else if action.op == codes "update_vm_config"
    then (codes "config", present_config action.config) ∷ []
    else []

unfoldable pub missing_required_fields : DestroyAction → List Text
missing_required_fields action =
    map (λ (field : Text × Bool). field.0)
      (keep (λ (field : Text × Bool). not field.1) (required_fields action))

unfoldable pub kind_named_in : Text → Option Text
kind_named_in path =
    if has_substring path (codes "/qemu/")
    then some (codes "qemu")
    else if has_substring path (codes "/lxc/")
    then some (codes "lxc")
    else none

unfoldable pub destroy_requires_a_stopped_guest : Text → Bool
destroy_requires_a_stopped_guest op = op == codes "destroy_guest" || op == codes "destroy"

unfoldable pub require_unrestricted_scope_for_delete_iso :
    Text → ProxmoxGrant → Result (Unit {0}) Text
require_unrestricted_scope_for_delete_iso op grant =
    refuse_if (op == codes "delete_iso" && not (is_unrestricted_guest_scope grant)) (
      codes
        "delete_iso deletes from storage that is not scoped to any guest, so it requires a caller whose guest scope is '*'. This caller is narrowed to specific guests and cannot be checked against a storage.")

unfoldable pub migrate_precondition : Bool → Text → Result (Unit {0}) Text
migrate_precondition online status =
    refuse_if (online && not (status == codes "running")) (
      codes "guest reports status '"
      ++ (status
          ++ codes
              "'; a live migration (online) requires a running guest. Start it first, or plan an offline migration instead."))
    >> refuse_if (not online && not (status == codes "stopped")) (
        codes "guest reports status '"
        ++ (status
            ++ codes
                "'; an offline migration requires a stopped guest. Stop it first, or plan with online: true for a live migration."))

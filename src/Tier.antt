-- ===== src/Tier.antt =====
-- crates/rust-proxmoxmcp-core/src/tier.rs: the action class of each tool.
pub mod Laws
use rustproxmoxmcp.Prelude.{
  Bool, true, false, ◌||◌, Option, none, some, List, [], ◌∷◌, if◌then◌else◌,
}
use rustproxmoxmcp.Text.{Text, codes, ◌==◌, contains, trim}
use rustproxmoxmcp.Grant.{ProxmoxAction}
use rustproxmoxmcp.Catalog.{read_tool}
use rustproxmoxmcp.Catalog.Entries.{ReadTool}

pub data Tier : Type 0 where
  read low destructive : Tier

-- `Tier::action`
unfoldable pub action : Tier → ProxmoxAction
action read = ProxmoxAction.read
action low = ProxmoxAction.low
action destructive = ProxmoxAction.destructive

unfoldable pub interrupting_tools : List Text
interrupting_tools =
    codes "reset_vm"
    ∷ codes "restart_container"
    ∷ codes "shutdown_vm"
    ∷ codes "stop_container"
    ∷ codes "stop_task"
    ∷ codes "stop_vm"
    ∷ codes "update_container_resources"
    ∷ []

unfoldable pub valid_backup_modes : List Text
valid_backup_modes = codes "snapshot" ∷ codes "suspend" ∷ codes "stop" ∷ []

unfoldable pub write_tools : List Text
write_tools =
    codes "approve_ha_rule_change"
    ∷ codes "approve_proxmox_change_set"
    ∷ codes "clone_vm"
    ∷ codes "create_backup"
    ∷ codes "create_container"
    ∷ codes "create_snapshot"
    ∷ codes "create_vm"
    ∷ codes "download_iso"
    ∷ codes "plan_ha_rule_change"
    ∷ codes "plan_proxmox_destroy"
    ∷ codes "plan_restore_new_vmid"
    ∷ codes "reset_vm"
    ∷ codes "restart_container"
    ∷ codes "shutdown_vm"
    ∷ codes "start_container"
    ∷ codes "start_vm"
    ∷ codes "stop_container"
    ∷ codes "stop_task"
    ∷ codes "stop_vm"
    ∷ codes "update_container_resources"
    ∷ codes "resize_disk"
    ∷ codes "apply_ha_rule_change"
    ∷ codes "apply_proxmox_change_set"
    ∷ codes "apply_restore_new_vmid"
    ∷ codes "create_ha_rule"
    ∷ codes "delete_backup"
    ∷ codes "delete_container"
    ∷ codes "delete_ha_rule"
    ∷ codes "delete_iso"
    ∷ codes "delete_snapshot"
    ∷ codes "delete_vm"
    ∷ codes "migrate_container"
    ∷ codes "migrate_vm"
    ∷ codes "restore_backup"
    ∷ codes "restore_backup_new_vmid"
    ∷ codes "rollback_snapshot"
    ∷ codes "update_ha_rule"
    ∷ codes "update_vm_config"
    ∷ codes "execute_vm_command"
    ∷ []

unfoldable pub destructive_tools : List Text
destructive_tools =
    codes "apply_ha_rule_change"
    ∷ codes "apply_proxmox_change_set"
    ∷ codes "apply_restore_new_vmid"
    ∷ codes "create_ha_rule"
    ∷ codes "delete_backup"
    ∷ codes "delete_container"
    ∷ codes "delete_ha_rule"
    ∷ codes "delete_iso"
    ∷ codes "delete_snapshot"
    ∷ codes "delete_vm"
    ∷ codes "execute_vm_command"
    ∷ codes "migrate_container"
    ∷ codes "migrate_vm"
    ∷ codes "restore_backup"
    ∷ codes "restore_backup_new_vmid"
    ∷ codes "rollback_snapshot"
    ∷ codes "update_ha_rule"
    ∷ codes "update_vm_config"
    ∷ []

unfoldable pub interrupts_service : Text → Bool
interrupts_service tool = contains interrupting_tools tool

unfoldable pub backup_interrupts : Text → Bool
backup_interrupts mode = trim mode == codes "stop" || trim mode == codes "suspend"

-- `crate::catalog::read_tool(tool).map(|_| Tier::Read)`
catalog_tier : Option ReadTool → Option Tier
catalog_tier none = none
catalog_tier (some tool) = some read

unfoldable pub tier_of : Text → Option Tier
unfolding catalog_tier
tier_of tool =
    if contains destructive_tools tool
    then some destructive
    else if contains write_tools tool
    then some low
    else if tool == codes "get_proxmox_change_set" || tool == codes "get_ha_rule_change_set"
    then some read
    else catalog_tier (read_tool tool)

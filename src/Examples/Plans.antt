-- ===== src/Examples/Plans.antt =====
-- Runs of the theorems on volume ids, sizes, configs and plans.
use rustproxmoxmcp.Prelude.{◌≡◌, ◌↔◌, refl, true, false, none, some, [], ◌∷◌, Has, Result, ok, err}
use rustproxmoxmcp.Text.{
  Text, codes, ◌==◌, split_once, strip_prefix, trim, trim_start, trim_end, is_whitespace,
  is_control, has_substring, starts_with, last, without_last,
}
use rustproxmoxmcp.Selector.{qemu}
use rustproxmoxmcp.Tier.{tier_of, destructive}
use rustproxmoxmcp.Volume.{
  validate_path_segment, validate_volid_for_operation, resize_shrinks, names_a_positive_amount,
  size_digits, is_decimal,
}
use rustproxmoxmcp.Volume.Laws.{IsVolid, validate_volid_for_operation_iff}
use rustproxmoxmcp.Volume.Resize.{IsAmount, resize_shrinks-IsAmount}
use rustproxmoxmcp.VmConfig.{VmConfig, reject_unsafe_vm_config}
use rustproxmoxmcp.VmConfig.Laws.{IsSafeEntry, reject_unsafe_vm_config_iff}
use rustproxmoxmcp.Plan.{
  PlanDestroyArgs, DestroyAction, build_destroy_action, build_volume, require, require_segment,
  bare, tool_for_op,
}
use rustproxmoxmcp.Plan.Complete.{IsPlanOf}
use rustproxmoxmcp.Plan.Ready.{build_destroy_action-IsPlanOf}
use rustproxmoxmcp.Plan.Tools.{tool_for_op-tier_of}

abbrev backup : Text
backup = codes "local:backup/vzdump.tar.zst"

validate_volid_for_operation_iff_example :
    (validate_volid_for_operation backup (codes "local") (codes "backup") ≡ ok tt)
    ↔ IsVolid backup (codes "local") (codes "backup")
validate_volid_for_operation_iff_example =
    validate_volid_for_operation_iff backup (codes "local") (codes "backup")

resize_shrinks-IsAmount_example :
    (delta : Text) × (trim (codes " +1.5G ") ≡ b'+' ∷ delta) × IsAmount delta
unfolding resize_shrinks trim trim_start trim_end is_whitespace strip_prefix names_a_positive_amount
    size_digits is_decimal last without_last split_once
resize_shrinks-IsAmount_example = resize_shrinks-IsAmount (codes " +1.5G ") refl

abbrev net_config : VmConfig
net_config =
    (codes "cores", codes "4") ∷ (codes "net0", codes "virtio,bridge=vmbr0,firewall=1") ∷ []

reject_unsafe_vm_config_iff_example :
    (reject_unsafe_vm_config net_config ≡ none)
    ↔ ((key value : Text) → Has (key, value) net_config → IsSafeEntry key value)
reject_unsafe_vm_config_iff_example = reject_unsafe_vm_config_iff net_config

-- A reading of the path template that lets every segment through that holds no slash.
abbrev expand : Text → Result Text Text
expand segment = elim (has_substring segment (codes "/")) [
  | true ↦ err (codes "structural byte")
  | false ↦ ok segment
]

abbrev plan : PlanDestroyArgs
plan = record {
  cluster = codes "lab";
  vmid = 650;
  op = codes "delete_backup";
  snapname = none;
  storage = some (codes "local");
  volid = some backup;
  storage_node = some (codes "pve2");
  target_node = none;
  online = false;
  with_local_disks = false;
  config = [];
}

abbrev planned : DestroyAction
planned = record {
  op = codes "delete_backup";
  cluster = codes "lab";
  vmid = 650;
  snapname = none;
  storage = some (codes "local");
  volid = some backup;
  storage_node = some (codes "pve2");
  target_node = none;
  online = false;
  with_local_disks = false;
  config = none;
}

plan_built : build_destroy_action expand plan ≡ ok planned
unfolding build_destroy_action build_volume require_segment require validate_path_segment
    validate_volid_for_operation bare ◌==◌ has_substring starts_with is_control split_once
plan_built = refl

build_destroy_action-IsPlanOf_example : IsPlanOf expand plan planned
build_destroy_action-IsPlanOf_example = build_destroy_action-IsPlanOf expand plan planned plan_built

tool_for_op-tier_of_example : tier_of (codes "delete_vm") ≡ some destructive
unfolding tool_for_op ◌==◌
tool_for_op-tier_of_example = tool_for_op-tier_of (codes "destroy") qemu (codes "delete_vm") refl

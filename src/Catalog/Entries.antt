-- ===== src/Catalog/Entries.antt =====
-- crates/rust-proxmoxmcp-core/src/catalog.rs: the entries of `READ_TOOLS`, in their order.
use rustproxmoxmcp.Prelude.{Bool, true, false, Option, none, some, List, [], ◌∷◌}
use rustproxmoxmcp.Text.{Text, codes}
use rustproxmoxmcp.Selector.{GuestType, qemu, lxc}

pub record ReadTool : Type 0 where
  pub name : Text
  pub path : Text
  pub needs_guest : Bool
  pub type_filter : Option GuestType
  pub query : List (Text × Text)
  pub guest_listing : Bool

-- A read of the cluster or of one node.
plain : Text → Text → ReadTool
plain name path = record {
  name = name;
  path = path;
  needs_guest = false;
  type_filter = none;
  query = [];
  guest_listing = false;
}

-- A listing of all guests of one type.
listing : Text → Text → GuestType → ReadTool
listing name path kind = record {
  name = name;
  path = path;
  needs_guest = false;
  type_filter = some kind;
  query = [];
  guest_listing = true;
}

-- A read of one guest.
of_guest : Text → Text → ReadTool
of_guest name path = record {
  name = name;
  path = path;
  needs_guest = true;
  type_filter = none;
  query = [];
  guest_listing = false;
}

-- A read of a storage, for one kind of content.
content : Text → Text → Text → ReadTool
content name path kind = record {
  name = name;
  path = path;
  needs_guest = false;
  type_filter = none;
  query = (codes "content", kind) ∷ [];
  guest_listing = false;
}

unfoldable pub cluster_reads : List ReadTool
unfolding plain listing of_guest content
cluster_reads =
    plain (codes "get_cluster_status") (codes "/api2/json/cluster/status")
    ∷ plain (codes "get_nodes") (codes "/api2/json/nodes")
    ∷ plain (codes "get_node_status") (codes "/api2/json/nodes/{node}/status")
    ∷ listing (codes "get_vms") (codes "/api2/json/cluster/resources") qemu
    ∷ listing (codes "get_containers") (codes "/api2/json/cluster/resources") lxc
    ∷ of_guest (codes "get_vm_config") (codes "/api2/json/nodes/{node}/qemu/{vmid}/config")
    ∷ of_guest (codes "get_container_config") (codes "/api2/json/nodes/{node}/lxc/{vmid}/config")
    ∷ of_guest (codes "get_container_ip") (codes "/api2/json/nodes/{node}/lxc/{vmid}/interfaces")
    ∷ of_guest (codes "get_guest_status")
        (codes "/api2/json/nodes/{node}/{kind}/{vmid}/status/current")
    ∷ of_guest (codes "list_snapshots") (codes "/api2/json/nodes/{node}/{kind}/{vmid}/snapshot")
    ∷ []

unfoldable pub storage_reads : List ReadTool
unfolding plain listing of_guest content
storage_reads =
    plain (codes "get_storage") (codes "/api2/json/nodes/{node}/storage")
    ∷ content (codes "list_backups") (codes "/api2/json/nodes/{node}/storage/{storage}/content")
        (codes "backup")
    ∷ content (codes "list_isos") (codes "/api2/json/nodes/{node}/storage/{storage}/content")
        (codes "iso")
    ∷ content (codes "list_templates") (codes "/api2/json/nodes/{node}/storage/{storage}/content")
        (codes "vztmpl")
    ∷ plain (codes "list_tasks") (codes "/api2/json/nodes/{node}/tasks")
    ∷ plain (codes "get_task_status") (codes "/api2/json/nodes/{node}/tasks/{upid}/status")
    ∷ []

unfoldable pub firewall_reads : List ReadTool
unfolding plain listing of_guest content
firewall_reads =
    plain (codes "get_cluster_firewall_rules") (codes "/api2/json/cluster/firewall/rules")
    ∷ plain (codes "get_cluster_firewall_options") (codes "/api2/json/cluster/firewall/options")
    ∷ plain (codes "list_firewall_security_groups") (codes "/api2/json/cluster/firewall/groups")
    ∷ plain (codes "get_firewall_security_group_rules")
        (codes "/api2/json/cluster/firewall/groups/{group}")
    ∷ plain (codes "list_firewall_ipsets") (codes "/api2/json/cluster/firewall/ipset")
    ∷ plain (codes "get_firewall_ipset_entries") (codes "/api2/json/cluster/firewall/ipset/{name}")
    ∷ plain (codes "list_firewall_aliases") (codes "/api2/json/cluster/firewall/aliases")
    ∷ plain (codes "get_node_firewall_rules") (codes "/api2/json/nodes/{node}/firewall/rules")
    ∷ plain (codes "get_node_firewall_options") (codes "/api2/json/nodes/{node}/firewall/options")
    ∷ of_guest (codes "get_guest_firewall_rules")
        (codes "/api2/json/nodes/{node}/{kind}/{vmid}/firewall/rules")
    ∷ of_guest (codes "get_guest_firewall_options")
        (codes "/api2/json/nodes/{node}/{kind}/{vmid}/firewall/options")
    ∷ of_guest (codes "list_guest_firewall_aliases")
        (codes "/api2/json/nodes/{node}/{kind}/{vmid}/firewall/aliases")
    ∷ of_guest (codes "list_guest_firewall_ipsets")
        (codes "/api2/json/nodes/{node}/{kind}/{vmid}/firewall/ipset")
    ∷ of_guest (codes "get_guest_firewall_ipset_entries")
        (codes "/api2/json/nodes/{node}/{kind}/{vmid}/firewall/ipset/{name}")
    ∷ []

unfoldable pub ha_reads : List ReadTool
unfolding plain listing of_guest content
ha_reads =
    plain (codes "list_ha_rules") (codes "/api2/json/cluster/ha/rules")
    ∷ plain (codes "get_ha_rule") (codes "/api2/json/cluster/ha/rules/{rule}")
    ∷ []

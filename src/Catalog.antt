-- ===== src/Catalog.antt =====
-- crates/rust-proxmoxmcp-core/src/catalog.rs: the read tools, declared as data. The HTTP method is
-- GET in every entry, and the description is text for the client: neither field is modelled.
pub mod Entries
pub mod Laws
use rustproxmoxmcp.Prelude.{Option, List, ◌++◌, Bool, find}
use rustproxmoxmcp.Text.{Text, ◌==◌}
use rustproxmoxmcp.Catalog.Entries.{
  ReadTool, cluster_reads, storage_reads, firewall_reads, ha_reads,
}

-- The whole of `READ_TOOLS`, in its order.
unfoldable pub read_tools : List ReadTool
unfolding cluster_reads storage_reads firewall_reads ha_reads
read_tools = cluster_reads ++ (storage_reads ++ (firewall_reads ++ ha_reads))

-- `read_tool`
unfoldable pub read_tool : Text → Option ReadTool
read_tool name = find (λ tool. tool.name == name) read_tools

-- ===== src/Lib.antt =====
-- Verification library of rust-proxmoxmcp: one MCP server for many Proxmox VE clusters.
--
-- A caller's token carries a grant: selector terms for the guests it may see, and the tiers it may
-- act in. A tool has a tier, and may interrupt the guest it is called on. A handler resolves the
-- guest through the index, which caches what a cluster reports, and authorizes the call: the grant
-- has to admit the guest as it is now and to carry the tier, and a call that disrupts the guest needs
-- an override if the guest is protected. An override comes from a waiver file or from lab mode.
-- Destructive operations are planned first, recorded as an action, approved by somebody else and then
-- applied; what a plan records is checked when it is built, and again before it is applied.
--
-- Paths are from the root of the repository; `core` stands for crates/rust-proxmoxmcp-core/src and
-- `server` for crates/rust-proxmoxmcp/src/server.
--
-- Prelude: tests on numbers, lists measured by native numbers, Rust's `Result`.
-- Text: `str` as the list of its code points, with the methods that the sources call.
-- Json, Map, Error: `serde_json::Value`, ordered maps as association lists, core/error.rs.
-- Selector, Grant: core/selector.rs and core/grant.rs, with the functions of the same names.
-- Catalog, Tier: the tables of core/catalog.rs and core/tier.rs, and their lookups.
-- Inventory: the entry of a cluster and its credentials (core/inventory.rs).
-- Guest: the reading of /cluster/resources (`fetch_guests`, `parse_tags`, `parse_resource_guest`
--   of core/resolve.rs).
-- Waiver, Protect: core/waiver.rs and core/protect.rs.
-- Resolve: the guest index and `authorize` (core/resolve.rs, core/authorized.rs). The operations
--   pass the index along; the clock and the reply of the cluster are arguments. Resolve/Race has
--   concurrent callers as steps: what runs under the lock is one step, so is each atomic operation
--   on the generation, and a fetch and an invalidation take several.
-- Volume, Task: the checks on request arguments and task handles in core/guests.rs, core/task.rs.
-- VmConfig, Plan, Page: the checks on a config, the action of a destructive plan, and the pages of
--   list tools (server/mod.rs, server/change_set.rs).
-- CreateConfig: the config that a create of a guest passes on (server/mod.rs).
-- Server: what the handlers share (`client_for`, `resolve_grant`, and the steps from the resolution
--   of a guest to its authorization with an override); Server/Low has the authorization of the low
--   tier and the lifecycle verbs, Server/Creation the calls that name a guest which does not exist.
-- Planner: `plan_destroy` (server/mod.rs), with what it records in its order.
-- ChangeSet, Apply: the record of a change set as the handlers see it, and `apply_change_set` with
--   `execute_destructive`: Apply/Checks up to the claim, Apply/Commit from the claim on, which gives
--   its effects (the claim, the evidence, the request, what is stored) in their order. A receipt
--   and a change set that is stored are attempts: the world says whether they succeed, and a failure
--   that the handler logs is an effect of its own.
-- HaRule: the plan of a change of an HA rule (server/ha_change_set.rs), the guests that it touches
--   and their authorization (`authorize_ha_rule_guests` of server/mod.rs), and the forms of
--   core/ha_rules.rs.
-- Restore: the plan of a restore into a new guest (server/restore_change_set.rs).
-- Examples: the theorems at concrete inputs.
--
-- Texts are lists of code points: byte offsets do not occur, and the order of texts by code points is
-- that by bytes of UTF-8. Numbers are natural numbers; the generation of the index wraps at 2^64, a
-- VMID is parsed into 32 bits, a time stamp is cast from 64 bits with a sign to 64 bits without. Fuel
-- has the reader of pages, one unit for each record and one more, and the search for volume names in
-- a value, one unit for each character and one more, where each occurrence uses up a character.
-- Handlers take what the outside answers as arguments: when a request is made and its reply, and for
-- an apply a record of the answers (`World`), those of the functions that read a cluster for it
-- among them (`fetch_guest_config_state`, `resolve_backup_owner`, `poll_proxmox_task`). A tool
-- error, and a refusal of a config or of an HA rule, is the constructor of its cause; its text is
-- left out.
--
-- Parameters, for code outside the repository: `expand_path` of mecmcp-openapi, the hardened loader
-- of files and secrets, the parsers of JSON and of RFC 3339, the percent-encoding and the requests of
-- the HTTP client, the check of a token's tools (mecmcp-auth), the policy of direct commits and the
-- evidence recorder (mecmcp-audit), and the coordinator of change sets (mecmcp-changeset).
--
-- Not modelled: the HTTP client and transport, the command line, startup and readiness, which are
-- I/O; the test server; the handlers that approve a change set, plan and apply an HA rule or a
-- restore, recover what was in flight, and read; previews and fingerprints, which are
-- parameters of the plan and the apply. A lock is never poisoned, and logging is left out, except where
-- an apply cannot write its receipt or its change set.
mod Prelude
pub mod Text
pub mod Json
pub mod Map
pub mod Error
pub mod Selector
pub mod Grant
pub mod Catalog
pub mod Tier
pub mod Inventory
pub mod Guest
pub mod Waiver
pub mod Protect
pub mod Resolve
pub mod Volume
pub mod VmConfig
pub mod Plan
pub mod Task
pub mod Page
pub mod Server
pub mod ChangeSet
pub mod Apply
pub mod Planner
pub mod CreateConfig
pub mod HaRule
pub mod Restore
mod Examples

-- ===== src/Server/Fresh.antt =====
-- A call that drops the snapshot of its cluster first does not see what was cached
-- (crates/rust-proxmoxmcp/src/server/mod.rs, crates/rust-proxmoxmcp-core/src/resolve.rs).
use rustproxmoxmcp.Prelude.{ℕ, ◌≡◌, sym, ap, ◌∙◌, Bool, Result}
use rustproxmoxmcp.Text.{Text}
use rustproxmoxmcp.Map.{text_key}
use rustproxmoxmcp.Error.{ProxmoxError}
use rustproxmoxmcp.Grant.{ProxmoxGrant}
use rustproxmoxmcp.Inventory.{Cluster}
use rustproxmoxmcp.Guest.{ResolvedGuest}
use rustproxmoxmcp.Protect.{DestructiveAttempt}
use rustproxmoxmcp.Resolve.{GuestIndex, Intent, invalidate_cluster, resolve, authorize}
use rustproxmoxmcp.Resolve.View.{
  resolve-view, authorize-view, resolve_view_kept, dropped-view, dropped_ttl,
}
use rustproxmoxmcp.Server.{
  ProxmoxServer, Moment, override_applies, override_for, authorize_with_override,
}

-- After the snapshot of the cluster has been dropped, what a call is answered does not depend on
-- anything that was cached: two indexes with the same time to live give the same answer to the same
-- replies.
pub authorize_with_override-invalidate_cluster :
    (server : ProxmoxServer) (policy : Cluster) (index index' : GuestIndex) (first second : Moment)
    (cluster : Text) (vmid : ℕ) (grant : ProxmoxGrant) (attempt : DestructiveAttempt)
    (intent : Bool → Intent)
    → index.ttl ≡ index'.ttl
    → (authorize_with_override server policy
        (invalidate_cluster cluster index)
        first
        second
        cluster
        vmid
        grant
        attempt
        intent).0
      ≡ (authorize_with_override server policy
          (invalidate_cluster cluster index')
          first
          second
          cluster
          vmid
          grant
          attempt
          intent).0
unfolding authorize_with_override
authorize_with_override-invalidate_cluster server policy index index' first second cluster vmid
      grant attempt intent ttl =
    let a = invalidate_cluster cluster index in
    let b = invalidate_cluster cluster index' in
    let same = dropped-view index index' cluster in
    let ttls : a.ttl ≡ b.ttl = dropped_ttl index cluster ∙ ttl ∙ sym (dropped_ttl index' cluster) in
    let decide : Result ResolvedGuest ProxmoxError → Intent = λ resolved. intent (
      override_applies (override_for server policy cluster vmid first.now_unix attempt resolved)) in
    authorize-view policy (resolve a first.now cluster vmid first.reply).1
      (resolve b first.now cluster vmid first.reply).1 second.now cluster vmid grant
      (decide (resolve a first.now cluster vmid first.reply).0) second.reply
      (resolve_view_kept a b first.now cluster vmid first.reply ttls same)
    ∙ ap
        (λ resolved.
          (authorize policy (resolve b first.now cluster vmid first.reply).1 second.now cluster vmid
            grant (decide resolved) second.reply).0)
        (resolve-view a b first.now cluster vmid first.reply same)

-- ===== src/Examples.antt =====
-- The inputs that the tests run on: a cluster, a guest, a grant, a waiver and a reply.
mod Access
mod Changes
mod Handlers
mod Guests
mod Planning
mod Plans
mod Reads
use rustproxmoxmcp.Prelude.{
  ℕ, Bool, true, false, Option, none, some, List, [], ◌∷◌, Result, ok, err,
}
use rustproxmoxmcp.Text.{Text, codes, ◌==◌}
use rustproxmoxmcp.Server.{ProxmoxServer, Caller, Moment}
use rustproxmoxmcp.Json.{Json, nil, cons, end, field, unsigned, string, array, object}
use rustproxmoxmcp.Selector.{qemu}
use rustproxmoxmcp.Grant.{ProxmoxGrant, ProxmoxAction}
use rustproxmoxmcp.Error.{ProxmoxError}
use rustproxmoxmcp.Inventory.{Cluster}
use rustproxmoxmcp.Guest.{ResolvedGuest}
use rustproxmoxmcp.Waiver.{WaiverEntry, WaiverFile}
use rustproxmoxmcp.Protect.{DestructiveAttempt}

abbrev pub lab : Cluster
lab = record {
  endpoint = codes "https://pve.example:8006";
  token_id = codes "mcp@pve!t";
  token_secret_env = some (codes "PVE_SECRET");
  token_secret_file = none;
  ca_pem_path = none;
  protected_vmids = 905 ∷ [];
  protected_tags = codes "protected" ∷ [];
}

abbrev pub web : ResolvedGuest
web = record {
  cluster = codes "lab";
  vmid = 650;
  name = codes "web";
  type = qemu;
  node = codes "pve2";
  status = codes "running";
  tags = codes "prod" ∷ [];
  pool = none;
}

abbrev pub pinned_guest : ResolvedGuest
pinned_guest = record web { vmid = 905; tags = codes "protected" ∷ [] }

-- What Proxmox reports for `web`.
abbrev pub web_entry : Json
web_entry = object (
    field (codes "vmid") (unsigned 650) (
      field (codes "type") (string (codes "qemu")) (
        field (codes "node") (string (codes "pve2")) (
          field (codes "name") (string (codes "web")) (
            field (codes "status") (string (codes "running"))
              (field (codes "tags") (string (codes "prod")) end))))))

abbrev pub listing : Json
listing = array (cons web_entry nil)

abbrev pub reply : Result Json ProxmoxError
reply = ok listing

abbrev pub band : ProxmoxGrant
band = record {
  guests = codes "vmid:600-699" ∷ [];
  actions = ProxmoxAction.read ∷ ProxmoxAction.destructive ∷ [];
}

abbrev pub window : WaiverEntry
window = record {
  cluster = codes "lab";
  vmid = 905;
  until_unix = 2000;
  reason = codes "rebuild";
  ticket = some (codes "OPS-7");
  ops = codes "destroy" ∷ [];
  principal = none;
}

abbrev pub waivers : WaiverFile
waivers = record { waivers = window ∷ [] }

abbrev pub attempt : DestructiveAttempt
attempt = record { op = codes "destroy"; principal = some (codes "alice") }

abbrev pub known : Bool → Option Cluster
known true = some lab
known false = none

abbrev pub server : ProxmoxServer
server = record {
  clients = λ name. known (name == codes "lab");
  waivers = waivers;
  in_lab_mode = false;
  authorize_call = λ caller tool cluster. true;
  direct_commit = λ caller tool action target. true;
}

abbrev pub alice : Option Caller
alice = some (record { token_name = codes "alice"; grant = some band })

abbrev pub moment : Moment
moment = record { now = 5; now_unix = 1000; reply = reply }

-- ===== src/Selector.antt =====
-- crates/rust-proxmoxmcp-core/src/selector.rs: the guest selector language of the grants.
pub mod Laws
use rustproxmoxmcp.Prelude.{
  ℕ, Bool, true, false, ◌&&◌, Option, none, some, List, ◌++◌, ltb, leb, eqb, if◌then◌else◌, any,
  Result, ok, err, ◌>>=◌, ok_or, map_err,
}
use rustproxmoxmcp.Text.{Text, codes, ◌==◌, split_once}
use rustproxmoxmcp.Text.Number.{parse_u32}

pub data GuestType : Type 0 where
  qemu lxc : GuestType

unfoldable pub same_type : GuestType → GuestType → Bool
same_type qemu qemu = true
same_type lxc lxc = true
same_type _ _ = false

-- `GuestType::path_segment`
unfoldable pub path_segment : GuestType → Text
path_segment qemu = codes "qemu"
path_segment lxc = codes "lxc"

pub record GuestFacts : Type 0 where
  pub vmid : ℕ
  pub type : GuestType
  pub node : Text
  pub pool : Option Text
  pub tags : List Text

pub data SelectorError : Type 0 where
  unknown bad_range bad_vmid : Text → SelectorError

pub data Selector : Type 0 where
  any_guest : Selector
  vmid : ℕ → Selector
  vmid_range : ℕ → ℕ → Selector
  tag pool node : Text → Selector
  type : GuestType → Selector

-- The arm of `parse_vmid_term` for a value with a dash.
vmid_range_term : Text → Text × Text → Result Selector SelectorError
vmid_range_term value (low_text, high_text) = do
  low ← ok_or (parse_u32 low_text) (bad_range value)
  high ← ok_or (parse_u32 high_text) (bad_range value)
  if ltb high low then err (bad_range value) else ok (vmid_range low high)

unfoldable pub parse_vmid_term : Text → Result Selector SelectorError
unfolding vmid_range_term
parse_vmid_term value = elim (split_once b'-' value) [
  | some bounds ↦ vmid_range_term value bounds
  | none ↦ do n ← ok_or (parse_u32 value) (bad_vmid value); ok (vmid n)
]

parse_type_term : Text → Result Selector SelectorError
parse_type_term value =
    if value == codes "qemu"
    then ok (type qemu)
    else if value == codes "lxc"
    then ok (type lxc)
    else err (unknown (codes "type:" ++ value))

-- `match prefix { … }`
parse_term : Text × Text → Result Selector SelectorError
unfolding parse_type_term
parse_term (prefix, value) =
    if prefix == codes "vmid"
    then parse_vmid_term value
    else if prefix == codes "tag"
    then ok (tag value)
    else if prefix == codes "pool"
    then ok (pool value)
    else if prefix == codes "node"
    then ok (node value)
    else if prefix == codes "type"
    then parse_type_term value
    else err (unknown prefix)

-- `Selector::parse`
unfoldable pub parse : Text → Result Selector SelectorError
unfolding parse_term
parse input =
    if input == codes "*"
    then ok any_guest
    else elim (split_once b':' input) [ none ↦ err (unknown input) | some term ↦ parse_term term ]

same_pool : Option Text → Text → Bool
same_pool none name = false
same_pool (some p) name = p == name

-- `Selector::matches`
unfoldable pub matches : Selector → GuestFacts → Bool
unfolding same_pool same_type
matches any_guest facts = true
matches (vmid n) facts = eqb facts.vmid n
matches (vmid_range low high) facts = leb low facts.vmid && leb facts.vmid high
matches (tag t) facts = any (λ candidate. candidate == t) facts.tags
matches (pool p) facts = same_pool facts.pool p
matches (node n) facts = facts.node == n
matches (type k) facts = same_type facts.type k

-- ===== src/Grant.antt =====
-- crates/rust-proxmoxmcp-core/src/grant.rs: the guest scope and action authority of a token.
pub mod Scope
pub mod Creation
use mathlib.Core.Option
use rustproxmoxmcp.Prelude.{
  ℕ, Bool, true, false, ◌&&◌, Option, none, some, List, [], ◌∷◌, leb, eqb, any, Result, ok, err,
  ◌>>=◌, map_err, if◌then◌else◌,
}
use rustproxmoxmcp.Text.{Text, codes, ◌==◌, split_once, trim}
use rustproxmoxmcp.Text.Number.{parse_u32}
use rustproxmoxmcp.Selector.{
  GuestFacts, SelectorError, Selector, any_guest, vmid, vmid_range, parse, matches,
}

pub data ProxmoxAction : Type 0 where
  read low destructive : ProxmoxAction

unfoldable pub same_action : ProxmoxAction → ProxmoxAction → Bool
same_action read read = true
same_action low low = true
same_action destructive destructive = true
same_action _ _ = false

pub record ProxmoxGrant : Type 0 where
  pub guests : List Text
  pub actions : List ProxmoxAction

-- `ProxmoxGrant::read_only`
abbrev pub read_only : ProxmoxGrant
read_only = record { guests = codes "*" ∷ []; actions = read ∷ [] }

-- `Selector::parse(term).map(|s| s.matches(facts)).unwrap_or(false)`
admits : GuestFacts → Result Selector SelectorError → Bool
admits facts (ok selector) = matches selector facts
admits facts (err e) = false

unfoldable pub allows_guest : ProxmoxGrant → GuestFacts → Bool
unfolding admits
allows_guest grant facts = any (λ term. admits facts (parse term)) grant.guests

unfoldable pub allows_action : ProxmoxGrant → ProxmoxAction → Bool
unfolding same_action
allows_action grant action = any (λ held. same_action held action) grant.actions

unfoldable pub is_unrestricted_guest_scope : ProxmoxGrant → Bool
is_unrestricted_guest_scope grant = any (λ term. trim term == codes "*") grant.guests

-- The arms of `allows_new_vmid`.
admits_number : ℕ → Result Selector SelectorError → Bool
admits_number n (ok any_guest) = true
admits_number n (ok (vmid other)) = eqb other n
admits_number n (ok (vmid_range lo hi)) = leb lo n && leb n hi
admits_number n _ = false

unfoldable pub allows_new_vmid : ProxmoxGrant → ℕ → Bool
unfolding admits_number
allows_new_vmid grant n = any (λ term. admits_number n (parse term)) grant.guests

subject_vmid : Option (Text × Text) → Option ℕ
subject_vmid none = none
subject_vmid (some (cluster, n)) = parse_u32 n

-- The arms of `allows_subject`.
admits_subject : ℕ → Result Selector SelectorError → Bool
admits_subject n (ok any_guest) = true
admits_subject n (ok (vmid other)) = eqb other n
admits_subject n (ok (vmid_range lo hi)) = leb lo n && leb n hi
admits_subject n _ = false

-- `Grant::allows_subject`
unfoldable pub allows_subject : ProxmoxGrant → Text → Bool
unfolding admits_subject subject_vmid
allows_subject grant subject = elim (subject_vmid (split_once b'/' subject)) [
  | none ↦ false
  | some n ↦ any (λ term. admits_subject n (parse term)) grant.guests
]

validate_terms : List Text → Result (Unit {0}) SelectorError
validate_terms [] = ok tt
validate_terms (term ∷ terms) = let rest = validate_terms terms in parse term >>= λ _. rest

-- `Grant::validate`
unfoldable pub validate : ProxmoxGrant → Result (Unit {0}) SelectorError
unfolding validate_terms
validate grant = validate_terms grant.guests

-- ===== src/Grant/Creation.antt =====
-- A guest that does not exist yet, and the address of a guest.
use rustproxmoxmcp.Prelude.{
  ℕ, ◌≤◌, ◌≡◌, refl, true, any, List, [], ◌∷◌, ◌++◌, arith, Has-of-any, any-of-Has, Result, ok, err,
}
use rustproxmoxmcp.Text.{Text}
use rustproxmoxmcp.Text.Pieces.{lacks, split_once_at}
use rustproxmoxmcp.Text.Number.{u32_max, decimal, parse_u32-decimal}
use rustproxmoxmcp.Selector.{
  GuestFacts, Selector, SelectorError, any_guest, vmid, vmid_range, tag, pool, node, type, parse,
  matches,
}
use rustproxmoxmcp.Grant.{
  ProxmoxGrant, admits, admits_number, admits_subject, allows_guest, allows_new_vmid,
  allows_subject, subject_vmid,
}

admits_number-admits :
    (facts : GuestFacts) (r : Result Selector SelectorError)
    → admits_number facts.vmid r ≡ true
    → admits facts r ≡ true
unfolding admits_number admits matches
admits_number-admits facts (ok any_guest) h = ground arith
admits_number-admits facts (ok (vmid n)) h = ground arith
admits_number-admits facts (ok (vmid_range lo hi)) h = ground arith
admits_number-admits facts (ok (tag t)) h = absurd (cc)
admits_number-admits facts (ok (pool t)) h = absurd (cc)
admits_number-admits facts (ok (node t)) h = absurd (cc)
admits_number-admits facts (ok (type t)) h = absurd (cc)
admits_number-admits facts (err e) h = absurd (cc)

-- A token that may create a VMID also sees whatever guest comes to have it, on any node, with any
-- tags, pool and type.
pub allows_new_vmid-allows_guest :
    (grant : ProxmoxGrant) (facts : GuestFacts)
    → allows_new_vmid grant facts.vmid ≡ true
    → allows_guest grant facts ≡ true
unfolding allows_new_vmid allows_guest
allows_new_vmid-allows_guest grant facts h =
    let (term, listed, q) = Has-of-any (λ t. admits_number facts.vmid (parse t)) grant.guests h in
    any-of-Has (λ t. admits facts (parse t)) listed (admits_number-admits facts (parse term) q)

admits_subject-admits_number :
    (n : ℕ) (r : Result Selector SelectorError) → admits_subject n r ≡ admits_number n r
unfolding admits_subject admits_number
admits_subject-admits_number n (ok any_guest) = refl
admits_subject-admits_number n (ok (vmid m)) = refl
admits_subject-admits_number n (ok (vmid_range lo hi)) = refl
admits_subject-admits_number n (ok (tag t)) = refl
admits_subject-admits_number n (ok (pool t)) = refl
admits_subject-admits_number n (ok (node t)) = refl
admits_subject-admits_number n (ok (type t)) = refl
admits_subject-admits_number n (err e) = refl

any_subject :
    (n : ℕ) (terms : List Text)
    → any (λ term. admits_subject n (parse term)) terms
      ≡ any (λ term. admits_number n (parse term)) terms
any_subject n [] = refl
any_subject n (term ∷ terms) =
    ground (arith, admits_subject-admits_number n (parse term), any_subject n terms)

-- On the address `cluster/vmid` of a guest, the check of a subject is the check of a new VMID, where
-- the cluster's name has no slash and the number fits 32 bits.
pub allows_subject-address :
    (grant : ProxmoxGrant) (cluster : Text) (n : ℕ)
    → lacks b'/' cluster ≡ true
    → n ≤ u32_max
    → allows_subject grant (cluster ++ b'/' ∷ decimal n) ≡ allows_new_vmid grant n
unfolding allows_subject allows_new_vmid
allows_subject-address grant cluster n h k =
    rw
      (
        split_once_at b'/' cluster (decimal n) h,
        allows_subject,
        subject_vmid,
        parse_u32-decimal n k,
      )
      (any_subject n grant.guests)

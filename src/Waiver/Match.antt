-- ===== src/Waiver/Match.antt =====
-- Which waiver covers a destructive attempt.
use rustproxmoxmcp.Prelude.{
  ℕ, ◌<◌, ◌≡◌, ◌↔◌, ◌⊎◌, true, Option, none, some, arith, Has, any-of-Has, Has-of-any, Has-of-find,
  find-of-Has,
}
use rustproxmoxmcp.Text.{Text, ◌==◌}
use rustproxmoxmcp.Text.Equality.{eq_iff, eq_refl, eq_of_test}
use rustproxmoxmcp.Waiver.{WaiverEntry, WaiverFile, admits, bound_admits, matching}

-- What a waiver has to say for it to cover an attempt.
pub record Covers (entry : WaiverEntry) (cluster : Text) (vmid now : ℕ) (op : Text)
    (principal : Option Text) : Type 0 where
  pub same_cluster : entry.cluster ≡ cluster
  pub same_guest : entry.vmid ≡ vmid
  pub unexpired : now < entry.until_unix
  pub named : Has op entry.ops
  pub bound : (entry.principal ≡ none) ⊎ (entry.principal ≡ principal)

bound_admits_iff :
    (bound principal : Option Text)
    → (bound_admits bound principal ≡ true) ↔ ((bound ≡ none) ⊎ (bound ≡ principal))
unfolding bound_admits
bound_admits_iff none p = ground arith
bound_admits_iff (some b) none = ground arith
bound_admits_iff (some b) (some p) = ground (arith, eq_iff b p)

module _ (cluster : Text) (vmid now : ℕ) (op : Text) (principal : Option Text) where
  admits-Covers :
      (entry : WaiverEntry)
      → admits cluster vmid now op principal entry ≡ true
      → Covers entry cluster vmid now op principal
  unfolding admits
  admits-Covers entry h = record {
    same_cluster = ground (arith, eq_iff entry.cluster cluster);
    same_guest = ground arith;
    unexpired = ground arith;
    named =
        (let (o, m, e) = Has-of-any (λ allowed. allowed == op) entry.ops (ground arith) in
          rw (eq_of_test o op e) at m);
    bound = (bound_admits_iff entry.principal principal).0 (ground arith);
  }

  Covers-admits :
      (entry : WaiverEntry)
      → Covers entry cluster vmid now op principal
      → admits cluster vmid now op principal entry ≡ true
  unfolding admits
  Covers-admits entry c = ground (
    arith,
    eq_iff entry.cluster cluster,
    any-of-Has (λ allowed. allowed == op) c.named (eq_refl op),
    (bound_admits_iff entry.principal principal).1 c.bound,
  )

  -- A waiver that is found is in the file and covers the attempt: its cluster, its guest, its
  -- operation, its caller, and the time. And one is found if any in the file covers it.
  pub matching_lem :
      (file : WaiverFile)
      → ((entry : WaiverEntry)
          → matching file cluster vmid now op principal ≡ some entry
          → Has entry file.waivers × Covers entry cluster vmid now op principal)
        × ((entry : WaiverEntry)
            → Has entry file.waivers
            → Covers entry cluster vmid now op principal
            → (found : WaiverEntry) × (matching file cluster vmid now op principal ≡ some found))
  unfolding matching
  matching_lem file = (
    λ entry h.
        (let (m, a) = Has-of-find (admits cluster vmid now op principal) file.waivers h in
          (m, admits-Covers entry a)),
    λ entry m c. find-of-Has (admits cluster vmid now op principal) m (Covers-admits entry c),
  )

-- ===== src/Tier/Laws.antt =====
-- The registries of tools agree with one another.
use rustproxmoxmcp.Prelude.{
  ◌≡◌, refl, Bool, true, false, not, ◌&&◌, none, some, List, arith, all, all-at, Bool-cases, inl,
  inr, Has, ◌⊎◌, find-of-Has,
}
use rustproxmoxmcp.Text.{Text, ◌==◌, contains}
use rustproxmoxmcp.Text.Equality.{eq_refl, Has-of-contains}
use rustproxmoxmcp.Catalog.{read_tools, read_tool}
use rustproxmoxmcp.Catalog.Entries.{ReadTool}
use rustproxmoxmcp.Tier.{
  read, low, destructive, tier_of, catalog_tier, interrupts_service, interrupting_tools,
  write_tools, destructive_tools,
}

-- A fact about each name of a registry, checked by running it, at any name that the registry holds.
at_listed :
    (p : Text → Bool) (names : List Text) (t : Text)
    → all p names ≡ true
    → contains names t ≡ true
    → p t ≡ true
at_listed p names t h m = all-at p (Has-of-contains names t m) h

destructive-write : all (contains write_tools) destructive_tools ≡ true
unfolding contains ◌==◌ destructive_tools write_tools
destructive-write = refl

interrupting-low :
    all (λ t. contains write_tools t && not (contains destructive_tools t)) interrupting_tools
    ≡ true
unfolding contains ◌==◌ interrupting_tools write_tools destructive_tools
interrupting-low = refl

-- Every tool of the low or of the destructive tier is in `WRITE_TOOLS`.
pub write_tools_complete :
    (t : Text)
    → (tier_of t ≡ some low) ⊎ (tier_of t ≡ some destructive)
    → contains write_tools t ≡ true
unfolding tier_of
write_tools_complete t h = elim (Bool-cases (contains destructive_tools t)) [
  | inl d ↦ at_listed (contains write_tools) destructive_tools t destructive-write d
  | inr n ↦ elim (Bool-cases (contains write_tools t)) [
    | inl w ↦ w
    | inr m ↦ absurd (ground (arith, not_write t n m))
  ]
]
  where
    not_write :
        (t : Text)
        → contains destructive_tools t ≡ false
        → contains write_tools t ≡ false
        → (tier_of t ≡ none) ⊎ (tier_of t ≡ some read)
    not_write t n m = ground arith

-- A tool that takes a guest out of service is of the low tier.
pub interrupts_service-low : (t : Text) → interrupts_service t ≡ true → tier_of t ≡ some low
unfolding interrupts_service tier_of
interrupts_service-low t h = ground (
  arith,
  at_listed (λ t. contains write_tools t && not (contains destructive_tools t)) interrupting_tools t
      interrupting-low h,
)

reads-not-write :
    all
      (λ (tool : ReadTool).
        not (contains destructive_tools tool.name) && not (contains write_tools tool.name))
      read_tools
    ≡ true
unfolding contains ◌==◌ read_tools write_tools destructive_tools
reads-not-write = refl

read_tool-some :
    (tool : ReadTool)
    → Has tool read_tools
    → (found : ReadTool) × (read_tool tool.name ≡ some found)
unfolding read_tool
read_tool-some tool m = find-of-Has (λ (t : ReadTool). t.name == tool.name) m (eq_refl tool.name)

-- Every entry of the read catalog is classified as a read.
pub tier_of-read_tool : (tool : ReadTool) → Has tool read_tools → tier_of tool.name ≡ some read
unfolding tier_of catalog_tier
tier_of-read_tool tool m =
    let (found, e) = read_tool-some tool m in
    ground (
      arith,
      e,
      all-at
          (λ (tool : ReadTool).
            not (contains destructive_tools tool.name) && not (contains write_tools tool.name))
          m reads-not-write,
    )

-- ===== src/Catalog/Laws.antt =====
-- The catalog of reads is consistent.
use rustproxmoxmcp.Prelude.{
  ◌≡◌, ◌↔◌, refl, Bool, true, false, not, ◌&&◌, ◌||◌, some, List, [], ◌∷◌, arith, all, all-at,
  Bool-cases, inl, inr, Has, here, there, find, map,
}
use rustproxmoxmcp.Text.{Text, codes, ◌==◌, contains, has_substring, starts_with}
use rustproxmoxmcp.Text.Equality.{eq_refl, eq_of_test, eq_iff, contains-of-Has}
use rustproxmoxmcp.Catalog.{read_tools, read_tool}
use rustproxmoxmcp.Catalog.Entries.{ReadTool}

-- No name stands twice.
distinct : List Text → Bool
distinct [] = true
distinct (t ∷ ts) = not (contains ts t) && distinct ts

Has-map-name :
    {tool : ReadTool} {tools : List ReadTool}
    → Has tool tools
    → Has tool.name (map (λ t. t.name) tools)
Has-map-name here = here
Has-map-name (there m) = there (Has-map-name m)

find-distinct :
    {tool : ReadTool} {tools : List ReadTool}
    → distinct (map (λ t. t.name) tools) ≡ true
    → Has tool tools
    → find (λ t. t.name == tool.name) tools ≡ some tool
unfolding distinct
find-distinct {tool} d here = rw (eq_refl tool.name)
find-distinct {tool} d (there {y} m) = elim (Bool-cases (y.name == tool.name)) [
  | inl e ↦ absurd (ground (arith, contains-of-Has (Has-map-name m), eq_of_test y.name tool.name e))
  | inr e ↦ rw e (find-distinct (ground arith) m)
]

read_tools-distinct : distinct (map (λ t. t.name) read_tools) ≡ true
unfolding distinct contains ◌==◌ read_tools
read_tools-distinct = refl

-- Looking up the name of a catalog entry gives that entry back: no name stands for two endpoints.
pub read_tool-name : (tool : ReadTool) → Has tool read_tools → read_tool tool.name ≡ some tool
unfolding read_tool
read_tool-name tool m = find-distinct read_tools-distinct m

same_test : Bool → Bool → Bool
same_test true b = b
same_test false b = not b

-- The listing of guests is the one path that reports guests of every scope.
consistent : ReadTool → Bool
consistent tool =
    same_test (tool.path == codes "/api2/json/cluster/resources") tool.guest_listing
    && same_test tool.needs_guest (has_substring tool.path (codes "{vmid}"))
    && (not tool.needs_guest || has_substring tool.path (codes "{node}"))
    && starts_with tool.path (codes "/api2/json/")

read_tools-consistent : all consistent read_tools ≡ true
unfolding consistent same_test has_substring starts_with ◌==◌ read_tools
read_tools-consistent = refl

-- What the executor of the reads relies on.
pub record IsConsistent (tool : ReadTool) : Type 0 where
  pub listing : (tool.guest_listing ≡ true) ↔ (tool.path ≡ codes "/api2/json/cluster/resources")
  pub guest : (tool.needs_guest ≡ true) ↔ (has_substring tool.path (codes "{vmid}") ≡ true)
  pub node : tool.needs_guest ≡ true → has_substring tool.path (codes "{node}") ≡ true
  pub root : starts_with tool.path (codes "/api2/json/") ≡ true

listed_path : (s t : Text) (b : Bool) → same_test (s == t) b ≡ true → (b ≡ true) ↔ (s ≡ t)
unfolding same_test
listed_path s t b h = ground (arith, eq_iff s t)

IsConsistent-of-test : (tool : ReadTool) → consistent tool ≡ true → IsConsistent tool
unfolding consistent same_test
IsConsistent-of-test tool h = record {
  listing =
      listed_path tool.path (codes "/api2/json/cluster/resources") tool.guest_listing
        (ground arith);
  guest = ground arith;
  node = ground arith;
  root = ground arith;
}

-- In every catalog entry: the result is filtered by guest scope exactly if it is read from the path
-- that lists all guests; a guest is resolved exactly if the path names a VMID, and then it names the
-- node too; and the path stays below the root of the API.
pub read_tools-IsConsistent : (tool : ReadTool) → Has tool read_tools → IsConsistent tool
read_tools-IsConsistent tool m =
    IsConsistent-of-test tool (all-at consistent m read_tools-consistent)

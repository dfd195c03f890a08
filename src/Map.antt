-- ===== src/Map.antt =====
-- `BTreeMap`, as an association list in which a key stands at most once. The sources look keys up
-- in these maps, insert and remove; nothing depends on the order of the keys here.
use rustproxmoxmcp.Prelude.{
  ℕ, ◌≡◌, ◌↔◌, Bool, true, Option, none, some, List, [], ◌∷◌, arith, eqb, eqb_iff, if◌then◌else◌,
}
use rustproxmoxmcp.Text.{Text}
use rustproxmoxmcp.Text.{◌==◌ as text_eq}
use rustproxmoxmcp.Text.Equality.{eq_iff}

pub record Key (K : Type 0) : Type 0 where
  pub same : K → K → Bool
  pub same_iff : (a b : K) → (same a b ≡ true) ↔ (a ≡ b)

instance abbrev pub number_key : Key ℕ
number_key = record { same = eqb; same_iff = eqb_iff }

instance abbrev pub text_key : Key Text
text_key = record { same = text_eq; same_iff = eq_iff }

abbrev pub Map : Type 0 → Type 0 → Type 0
Map K V = List (K × V)

module _ {K V : Type 0} ⦃k : Key K⦄ where
  unfoldable pub lookup : K → Map K V → Option V
  lookup a [] = none
  lookup a ((b, v) ∷ m) = if k.same b a then some v else lookup a m

  unfoldable pub remove : K → Map K V → Map K V
  remove a [] = []
  remove a ((b, v) ∷ m) = let rest = remove a m in if k.same b a then rest else (b, v) ∷ rest

  unfoldable pub insert : K → V → Map K V → Map K V
  unfolding remove
  insert a v m = (a, v) ∷ remove a m

  pub lookup-remove :
      (a b : K) (m : Map K V) → lookup b (remove a m) ≡ (if k.same a b then none else lookup b m)
  unfolding lookup remove
  lookup-remove a b [] = ground arith
  lookup-remove a b ((c, v) ∷ m) =
      ground (arith, lookup-remove a b m, k.same_iff c a, k.same_iff c b, k.same_iff a b)

  pub lookup-insert :
      (a b : K) (v : V) (m : Map K V)
      → lookup b (insert a v m) ≡ (if k.same a b then some v else lookup b m)
  unfolding lookup insert
  lookup-insert a b v m = ground (arith, lookup-remove a b m)

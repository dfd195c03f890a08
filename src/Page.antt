-- ===== src/Page.antt =====
-- crates/rust-proxmoxmcp/src/server/mod.rs: the pages of a list tool. An offset and a limit are of 32
-- bits and a length of 64, so that their sum, which the source saturates, does not leave 64 bits.
pub mod Order
pub mod Cover
use mathlib.Core.Option
use rustproxmoxmcp.Prelude.{
  ℕ, zero, suc, ◌+◌, ◌-◌, ◌^◌, Bool, true, false, Option, none, some, List, [], ◌∷◌, ◌++◌, length,
  take, drop, ltb, leb, eqb, if◌then◌else◌, Result, ok, err, ◌>>=◌, ok_or,
}
use rustproxmoxmcp.Text.{Text, codes}
use rustproxmoxmcp.Text.Number.{decimal}
use rustproxmoxmcp.Json.{Json, get, as_str, as_u64, as_array}

unfoldable pub default_page_limit : ℕ
default_page_limit = 500

unfoldable pub max_page_limit : ℕ
max_page_limit = 700

-- `unwrap_or`
abbrev pub or_default {ℓ} : {A : Type ℓ} → Option A → A → A
or_default none d = d
or_default (some a) d = a

unfoldable pub resolve_page : Option ℕ → Option ℕ → Result (ℕ × ℕ) Text
unfolding default_page_limit max_page_limit
resolve_page offset limit =
    let n = or_default limit default_page_limit in
    if eqb n 0
    then err (codes "limit must be at least 1")
    else if ltb max_page_limit n
    then err (
        codes "limit "
        ++ (decimal n
            ++ (codes " exceeds the maximum of "
                ++ (decimal max_page_limit ++ codes "; request a smaller page"))))
    else ok (or_default offset 0, n)

pub record Page : Type 0 where
  pub items : List Json
  pub total : ℕ
  pub offset : ℕ
  pub limit : ℕ
  pub has_more : Bool

-- A record goes before the first that it is smaller than, so that equal ones keep their order, as in
-- the stable `sort_by`.
unfoldable pub sort_insert : (Json → Json → Bool) → Json → List Json → List Json
sort_insert before x [] = x ∷ []
sort_insert before x (y ∷ ys) =
    let rest = sort_insert before x ys in if before y x then y ∷ rest else x ∷ y ∷ ys

unfoldable pub sort_by : (Json → Json → Bool) → List Json → List Json
unfolding sort_insert
sort_by before [] = []
sort_by before (x ∷ xs) = sort_insert before x (sort_by before xs)

-- `<` of texts: by their first difference
unfoldable pub text_less : Text → Text → Bool
text_less a [] = false
text_less [] (d ∷ b) = true
text_less (c ∷ a) (d ∷ b) =
    let rest = text_less a b in if ltb c d then true else if eqb c d then rest else false

unfoldable pub vmid_key : Json → ℕ
vmid_key item = elim (get item (codes "vmid")) [
  | none ↦ 2 ^ 64 - 1
  | some j ↦ or_default (as_u64 j) (2 ^ 64 - 1)
]

unfoldable pub volid_key : Json → Text
volid_key item = elim (get item (codes "volid")) [ none ↦ [] | some j ↦ or_default (as_str j) [] ]

unfoldable pub sort_for_paging : List Json → List Json
sort_for_paging [] = []
sort_for_paging (first ∷ rest) = elim (get first (codes "vmid")) [
  | some v ↦ sort_by (λ a b. ltb (vmid_key a) (vmid_key b)) (first ∷ rest)
  | none ↦ elim (get first (codes "volid")) [
    | some v ↦ sort_by (λ a b. text_less (volid_key a) (volid_key b)) (first ∷ rest)
    | none ↦ first ∷ rest
  ]
]

abbrev pub min : ℕ → ℕ → ℕ
min a b = if leb a b then a else b

-- One page of a list that is sorted.
unfoldable pub slice : List Json → ℕ → ℕ → Page
slice array offset limit =
    let total = length array in
    let start = min offset total in
    let end = min (start + limit) total in
    record {
      items = take (end - start) (drop start array);
      total = total;
      offset = offset;
      limit = limit;
      has_more = ltb end total;
    }

unfoldable pub paginate : Json → ℕ → ℕ → Result Page Text
unfolding slice
paginate value offset limit = elim (as_array value) [
  | none ↦ err (codes "upstream response is not a list; cannot paginate")
  | some array ↦ ok (slice (sort_for_paging array) offset limit)
]

-- ===== src/Page/Order.antt =====
-- Sorting for pages keeps the records (crates/rust-proxmoxmcp/src/server/mod.rs).
use mathlib.Core.List.{Perm}
use mathlib.Core.List.Perm
use rustproxmoxmcp.Prelude.{
  ◌≡◌, refl, inl, inr, Bool, Option, none, some, List, [], ◌∷◌, arith, Bool-cases, ltb, length, suc,
}
use rustproxmoxmcp.Text.{codes}
use rustproxmoxmcp.Json.{Json, get}
use rustproxmoxmcp.Page.{sort_insert, sort_by, sort_for_paging, vmid_key, volid_key, text_less}

sort_insert-Perm :
    (before : Json → Json → Bool) (x : Json) (ys : List Json)
    → Perm (x ∷ ys) (sort_insert before x ys)
unfolding sort_insert
sort_insert-Perm before x [] = Perm.refl (x ∷ [])
sort_insert-Perm before x (y ∷ ys) = elim (Bool-cases (before y x)) [
  | inl e ↦ rw e (Perm.trans (Perm.swap y x ys) (Perm.cons y (sort_insert-Perm before x ys)))
  | inr e ↦ rw e (Perm.refl (x ∷ y ∷ ys))
]

pub sort_by-Perm : (before : Json → Json → Bool) (xs : List Json) → Perm xs (sort_by before xs)
unfolding sort_by
sort_by-Perm before [] = Perm.refl []
sort_by-Perm before (x ∷ xs) =
    Perm.trans (Perm.cons x (sort_by-Perm before xs))
      (sort_insert-Perm before x (sort_by before xs))

by_volid :
    (xs : List Json) (o : Option Json)
    → Perm xs
        (elim o [ some v ↦ sort_by (λ a b. text_less (volid_key a) (volid_key b)) xs | none ↦ xs ])
by_volid xs (some v) = sort_by-Perm _ xs
by_volid xs none = Perm.refl xs

by_key :
    (xs : List Json) (o p : Option Json)
    → Perm xs (elim o [
      | some v ↦ sort_by (λ a b. ltb (vmid_key a) (vmid_key b)) xs
      | none ↦ elim p [
        | some v ↦ sort_by (λ a b. text_less (volid_key a) (volid_key b)) xs
        | none ↦ xs
      ]
    ])
by_key xs (some v) p = sort_by-Perm _ xs
by_key xs none p = by_volid xs p

pub sort_for_paging-Perm : (xs : List Json) → Perm xs (sort_for_paging xs)
unfolding sort_for_paging
sort_for_paging-Perm [] = Perm.refl []
sort_for_paging-Perm (x ∷ xs) = by_key (x ∷ xs) (get x (codes "vmid")) (get x (codes "volid"))

sort_insert-length :
    (before : Json → Json → Bool) (x : Json) (ys : List Json)
    → length (sort_insert before x ys) ≡ suc (length ys)
unfolding sort_insert
sort_insert-length before x [] = refl
sort_insert-length before x (y ∷ ys) = ground (arith, sort_insert-length before x ys)

sort_by-length :
    (before : Json → Json → Bool) (xs : List Json) → length (sort_by before xs) ≡ length xs
unfolding sort_by
sort_by-length before [] = refl
sort_by-length before (x ∷ xs) =
    omega (arith, sort_insert-length before x (sort_by before xs), sort_by-length before xs)

-- Sorting keeps the number of records.
pub sort_for_paging-length : (xs : List Json) → length (sort_for_paging xs) ≡ length xs
unfolding sort_for_paging
sort_for_paging-length [] = refl
sort_for_paging-length (x ∷ xs) = ground (
  arith,
  sort_by-length (λ a b. ltb (vmid_key a) (vmid_key b)) (x ∷ xs),
  sort_by-length (λ a b. text_less (volid_key a) (volid_key b)) (x ∷ xs),
)

-- ===== src/Page/Cover.antt =====
-- The pages, read one after another, are the whole list
-- (crates/rust-proxmoxmcp/src/server/mod.rs).
use mathlib.Core.List.{Perm}
use rustproxmoxmcp.Prelude.{
  ℕ, zero, suc, ◌+◌, ◌-◌, ◌≤◌, ◌<◌, ◌≡◌, refl, inl, inr, true, false, List, [], ◌∷◌, ◌++◌, arith,
  length, take, drop, if◌then◌else◌, Bool-cases, ap, sym, ◌∙◌, length-drop, take-append-drop,
}
use rustproxmoxmcp.Json.{Json}
use rustproxmoxmcp.Page.{min, slice, sort_for_paging}
use rustproxmoxmcp.Page.Order.{sort_for_paging-Perm, sort_for_paging-length}

-- What a caller reads who asks for a page, and as long as there is more, for the next one.
unfoldable pub read_pages : ℕ → List Json → ℕ → ℕ → List Json
unfolding slice
read_pages zero array offset limit = []
read_pages (suc fuel) array offset limit =
    let page = slice array offset limit in
    let rest = read_pages fuel array (offset + limit) limit in
    if page.has_more then page.items ++ rest else page.items

drop-nil : {A : Type 0} (n : ℕ) → drop {A = A} n [] ≡ []
drop-nil zero = refl
drop-nil (suc n) = refl

drop-add : {A : Type 0} (m n : ℕ) (xs : List A) → drop (m + n) xs ≡ drop n (drop m xs)
drop-add zero n xs = ap (λ k. drop k xs) (omega arith)
drop-add (suc m) n [] = drop-nil (suc m + n) ∙ sym (drop-nil n)
drop-add (suc m) n (x ∷ xs) =
    let step : suc m + n ≡ suc (m + n) = omega arith in
    ap (λ k. drop k (x ∷ xs)) step ∙ drop-add m n xs

take-all : {A : Type 0} (n : ℕ) (xs : List A) → length xs ≤ n → take n xs ≡ xs
take-all zero [] h = refl
take-all zero (x ∷ xs) h = absurd (omega arith)
take-all (suc n) [] h = refl
take-all (suc n) (x ∷ xs) h = ap (λ t. x ∷ t) (take-all n xs (omega arith))

-- A page with more after it is full; the last one is what is left.
slice-more :
    (array : List Json) (offset limit : ℕ)
    → (slice array offset limit).has_more ≡ true
    → ((slice array offset limit).items ≡ take limit (drop offset array))
      × (offset + limit < length array)
unfolding slice
slice-more array offset limit h =
    let more : offset + limit < length array = ground arith in
    let start : min offset (length array) ≡ offset = ground (arith, more) in
    let end : min (offset + limit) (length array) ≡ offset + limit = ground (arith, more) in
    let size : (offset + limit) - offset ≡ limit = omega arith in (rw (start, end, size) refl, more)

slice-last :
    (array : List Json) (offset limit : ℕ)
    → offset ≤ length array
    → (slice array offset limit).has_more ≡ false
    → ((slice array offset limit).items ≡ drop offset array)
unfolding slice
slice-last array offset limit inside h =
    let start : min offset (length array) ≡ offset = ground (arith, inside) in
    let end : min (offset + limit) (length array) ≡ length array = ground (arith, start) in
    rw (start, end)
      (take-all (length array - offset) (drop offset array)
        (omega (arith, length-drop offset array)))

read_pages-drop :
    (fuel : ℕ) (array : List Json) (offset limit : ℕ)
    → 0 < limit
    → offset ≤ length array
    → length array - offset < fuel
    → read_pages fuel array offset limit ≡ drop offset array
unfolding read_pages
read_pages-drop zero array offset limit positive inside enough = absurd (omega arith)
read_pages-drop (suc fuel) array offset limit positive inside enough =
    elim (Bool-cases (slice array offset limit).has_more) [
      | inl e ↦
          let (full, more) = slice-more array offset limit e in
          rw
            (
              e,
              full,
              read_pages-drop fuel array (offset + limit) limit positive (omega arith)
                  (omega arith),
              drop-add offset limit array,
            )
            (take-append-drop limit (drop offset array))
      | inr e ↦ rw e (slice-last array offset limit inside e)
    ]

-- For a positive limit, the pages of a list, read from the first on for as long as they say that there
-- is more, are together the records of the list, each as many times as it stands there. As many
-- pages as there are records, and one more, are enough.
pub read_pages-Perm :
    (array : List Json) (limit : ℕ)
    → 0 < limit
    → Perm array (read_pages (suc (length array)) (sort_for_paging array) 0 limit)
read_pages-Perm array limit positive =
    let whole : read_pages (suc (length array)) (sort_for_paging array) 0 limit
        ≡ sort_for_paging array =
      read_pages-drop (suc (length array)) (sort_for_paging array) 0 limit positive (omega arith)
        (omega (arith, sort_for_paging-length array)) in
    rw whole (sort_for_paging-Perm array)

-- ===== src/Grant/Scope.antt =====
-- Which guests a grant admits.
use rustproxmoxmcp.Prelude.{
  ℕ, ◌≡◌, refl, ◌↔◌, Bool, true, false, List, [], ◌∷◌, arith, any, eqb, eqb_iff, all, not, ◌||◌,
  >>=-eq-ok, any-of-Has, Has-of-any, Has, here, there, Bool-cases, inl, inr, Result, ok, err,
}
use rustproxmoxmcp.Text.{Text, codes, ◌==◌, trim, trim_start, is_whitespace}
use rustproxmoxmcp.Text.Equality.{eq_of_test, eq_refl}
use rustproxmoxmcp.Text.Pieces.{lacks, split_once-none}
use rustproxmoxmcp.Text.Trim.{all-trim}
use rustproxmoxmcp.Selector.{
  GuestFacts, Selector, SelectorError, any_guest, unknown, parse, matches,
}
use rustproxmoxmcp.Grant.{
  ProxmoxGrant, admits, allows_guest, validate, validate_terms, is_unrestricted_guest_scope, read,
}

-- A term of the grant parses to a selector that the guest meets.
pub record IsAdmitted (grant : ProxmoxGrant) (facts : GuestFacts) : Type 0 where
  pub term : Text
  pub selector : Selector
  pub listed : Has term grant.guests
  pub parsed : parse term ≡ ok selector
  pub matched : matches selector facts ≡ true

admits-ok :
    (facts : GuestFacts) (r : Result Selector SelectorError)
    → admits facts r ≡ true
    → (s : Selector) × (r ≡ ok s) × (matches s facts ≡ true)
unfolding admits
admits-ok facts (ok s) h = (s, refl, h)
admits-ok facts (err e) h = absurd (cc)

-- A grant admits a guest exactly when one of its terms parses and the guest meets the selector: so
-- the terms are joined by union, and a term that does not parse admits nothing.
pub allows_guest_iff :
    (grant : ProxmoxGrant) (facts : GuestFacts)
    → (allows_guest grant facts ≡ true) ↔ IsAdmitted grant facts
unfolding allows_guest
allows_guest_iff grant facts = (to, from)
  where
    to : any (λ term. admits facts (parse term)) grant.guests ≡ true → IsAdmitted grant facts
    to h =
        let (term, listed, q) = Has-of-any (λ term. admits facts (parse term)) grant.guests h in
        let (s, parsed, matched) = admits-ok facts (parse term) q in
        record { term = term; selector = s; listed = listed; parsed = parsed; matched = matched }

    from : IsAdmitted grant facts → any (λ term. admits facts (parse term)) grant.guests ≡ true
    from a = any-of-Has (λ term. admits facts (parse term)) a.listed (rw a.parsed a.matched)

-- White space or a star.
star_or_white : ℕ → Bool
star_or_white c = is_whitespace c || eqb c b'*'

not_colon : (c : ℕ) → star_or_white c ≡ true → not (eqb c b':') ≡ true
unfolding star_or_white is_whitespace
not_colon c h = elim (Bool-cases (eqb c b':')) [
  | inl e ↦ absurd (cc (rw ((eqb_iff c b':').0 e) at h))
  | inr e ↦ rw e
]

lacks-colon : (s : Text) → all star_or_white s ≡ true → lacks b':' s ≡ true
lacks-colon [] h = refl
lacks-colon (c ∷ s) h = ground (arith, lacks-colon s, not_colon c)

padded-only : (term : Text) → trim term ≡ codes "*" → all star_or_white term ≡ true
unfolding star_or_white is_whitespace
padded-only term h = all-trim star_or_white (λ c w. rw w) term (rw h)

-- A term that is a star but for white space around it, and that parses, is the star.
parse-padded_star :
    (term : Text) (s : Selector) → trim term ≡ codes "*" → parse term ≡ ok s → term ≡ codes "*"
unfolding parse
parse-padded_star term s h e = elim (Bool-cases (term == codes "*")) [
  | inl same ↦ eq_of_test term (codes "*") same
  | inr other ↦ absurd (
      cc
        (rw (other, split_once-none b':' term (lacks-colon term (padded-only term h)), parse) at e))
]

-- A validated grant has only terms that parse.
validate-parses :
    (terms : List Text) {term : Text}
    → validate_terms terms ≡ ok tt
    → Has term terms
    → (s : Selector) × (parse term ≡ ok s)
unfolding validate_terms
validate-parses [] h m = elim m [ ]
validate-parses (t ∷ terms) h here =
    let (s, e, _) = >>=-eq-ok (parse t) (λ _. validate_terms terms) h in (s, e)
validate-parses (t ∷ terms) h (there m) =
    let (s, e, rest) = >>=-eq-ok (parse t) (λ _. validate_terms terms) h in
    validate-parses terms rest m

star-parses : parse (codes "*") ≡ ok any_guest
unfolding parse ◌==◌
star-parses = refl

-- In a grant that passes validation, an unrestricted scope holds the star itself as a term.
pub unrestricted-star :
    (grant : ProxmoxGrant)
    → validate grant ≡ ok tt
    → is_unrestricted_guest_scope grant ≡ true
    → Has (codes "*") grant.guests
unfolding validate is_unrestricted_guest_scope
unrestricted-star grant v u =
    let (term, listed, star) = Has-of-any (λ t. trim t == codes "*") grant.guests u in
    let (s, parsed) = validate-parses grant.guests v listed in
    rw (parse-padded_star term s (eq_of_test _ _ star) parsed) at listed

-- A grant that passes validation and counts as unrestricted admits every guest.
pub unrestricted-allows_guest :
    (grant : ProxmoxGrant) (facts : GuestFacts)
    → validate grant ≡ ok tt
    → is_unrestricted_guest_scope grant ≡ true
    → allows_guest grant facts ≡ true
unrestricted-allows_guest grant facts v u = (allows_guest_iff grant facts).1 (record {
  term = codes "*";
  selector = any_guest;
  listed = unrestricted-star grant v u;
  parsed = star-parses;
  matched = unfold matches in refl;
})

abbrev pub padded : ℕ → ProxmoxGrant
padded w = record { guests = (w ∷ codes "*") ∷ []; actions = read ∷ [] }

trim-padded : (w : ℕ) → is_whitespace w ≡ true → trim (w ∷ codes "*") ≡ codes "*"
unfolding trim
trim-padded w h = rw (h, trim_start)

parse-padded :
    (w : ℕ) → is_whitespace w ≡ true → parse (w ∷ codes "*") ≡ err (unknown (w ∷ codes "*"))
unfolding parse
parse-padded w h = elim (Bool-cases ((w ∷ codes "*") == codes "*")) [
  | inl same ↦ absurd (cc (eq_of_test (w ∷ codes "*") (codes "*") same))
  | inr other ↦ rw (
    other,
    split_once-none b':' (w ∷ codes "*")
        (lacks-colon (w ∷ codes "*") (padded-only (w ∷ codes "*") (trim-padded w h))),
    parse,
  )
]

-- A grant whose only term is a star behind one white space character counts as unrestricted, and
-- admits no guest.
pub padded_star_admits_nothing :
    (w : ℕ) (facts : GuestFacts)
    → is_whitespace w ≡ true
    → (is_unrestricted_guest_scope (padded w) ≡ true) × (allows_guest (padded w) facts ≡ false)
unfolding is_unrestricted_guest_scope allows_guest
padded_star_admits_nothing w facts h =
    (rw (trim-padded w h, eq_refl (codes "*")), rw (parse-padded w h))

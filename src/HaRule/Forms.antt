-- ===== src/HaRule/Forms.antt =====
-- crates/rust-proxmoxmcp-core/src/ha_rules.rs: reading HA rules, and the forms that change them. The
-- client's requests are arguments.
use rustproxmoxmcp.Prelude.{
  ℕ, ◌≡◌, ◌↔◌, ◌⊎◌, refl, inl, inr, Bool, true, false, ◌&&◌, ◌||◌, Option, none, some, List, [],
  ◌∷◌, ◌++◌, eqb, eqb_iff, is_empty, arith, Bool-cases, if◌then◌else◌, Result, ok, err, ◌>>=◌, ◌>>◌,
  ok_or,
}
use rustproxmoxmcp.Text.{Text, codes, has_substring, to_ascii_lowercase, join}
use rustproxmoxmcp.Json.{Json, as_array}
use rustproxmoxmcp.Error.{
  ProxmoxError, http, api, unauthorized, denied, not_found, malformed, config, unknown_cluster,
}

unfoldable pub is_no_such_rule : Text → Text → Bool
is_no_such_rule message rule =
    has_substring (to_ascii_lowercase message)
      (codes "no such ha rule '" ++ (to_ascii_lowercase rule ++ codes "'"))

-- The reply that stands for a rule that does not exist.
unfoldable pub is_missing : Text → ProxmoxError → Bool
unfolding is_no_such_rule
is_missing rule (api status message) =
    eqb status 404 || eqb status 500 && is_no_such_rule message rule
is_missing rule _ = false

-- `fetch_rule`, for the reply to its GET request
unfoldable pub fetch_rule : Result Json ProxmoxError → Text → Result (Option Json) ProxmoxError
unfolding is_missing
fetch_rule (ok value) rule = ok (some value)
fetch_rule (err error) rule = if is_missing rule error then ok none else err error

-- `list_rules`
unfoldable pub list_rules : Result Json ProxmoxError → Result (List Json) ProxmoxError
list_rules reply = do
  data' ← reply
  ok_or (as_array data') (malformed (codes "ha rules response is not an array"))

pub record HaRuleFields : Type 0 where
  pub rule_type : Text
  pub resources : List Text
  pub nodes : Option Text
  pub affinity : Option Text
  pub strict : Option Bool
  pub comment : Option Text
  pub disable : Option Bool

abbrev pub Form : Type 0
Form = List (Text × Text)

unfoldable pub resources_form : List Text → Text
resources_form resources = join (codes ",") resources

abbrev pub flag : Bool → Text
flag b = if b then codes "1" else codes "0"

abbrev pub field_of : Text → Option Text → Form
field_of name none = []
field_of name (some value) = (name, value) ∷ []

abbrev pub flag_of : Text → Option Bool → Form
flag_of name none = []
flag_of name (some b) = (name, flag b) ∷ []

-- `comment.filter(|value| !value.is_empty())`
abbrev pub when_full : Option Text → Option Text
when_full none = none
when_full (some text) = if is_empty text then none else some text

-- What `push_optional_fields` pushes, in its order.
unfoldable pub push_optional_fields : HaRuleFields → Form
push_optional_fields fields =
    field_of (codes "nodes") fields.nodes
    ++ (field_of (codes "affinity") fields.affinity
        ++ (flag_of (codes "strict") fields.strict
            ++ (field_of (codes "comment") (when_full fields.comment)
                ++ flag_of (codes "disable") fields.disable)))

unfoldable pub create_form : Text → HaRuleFields → Form
unfolding resources_form push_optional_fields
create_form rule fields =
    (codes "rule", rule)
    ∷ (codes "type", fields.rule_type)
    ∷ (codes "resources", resources_form fields.resources)
    ∷ push_optional_fields fields

unfoldable pub update_form : HaRuleFields → Option Text → Form
unfolding resources_form push_optional_fields
update_form fields digest =
    (if is_empty fields.resources
      then []
      else (codes "resources", resources_form fields.resources) ∷ [])
    ++ (push_optional_fields fields ++ field_of (codes "digest") digest)

module _ (post_form : Form → Result Json ProxmoxError)
    (put_form : Text → Form → Result Json ProxmoxError)
    (delete_json : Text → Result Json ProxmoxError) where
  unfoldable pub create_rule : Text → HaRuleFields → Result (Unit {0}) ProxmoxError
  unfolding create_form
  create_rule rule fields = post_form (create_form rule fields) >> ok tt

  unfoldable pub update_rule : Text → HaRuleFields → Option Text → Result (Unit {0}) ProxmoxError
  unfolding update_form
  update_rule rule fields digest =
      if is_empty (update_form fields digest)
      then err (malformed (codes "update names no field to change"))
      else put_form rule (update_form fields digest) >> ok tt

  unfoldable pub delete_rule : Text → Result (Unit {0}) ProxmoxError
  delete_rule rule = delete_json rule >> ok tt

-- A rule is taken to be missing exactly if the cluster answers with status 404, or with status 500 and
-- a message that names this rule as one that does not exist, both in lower case; no other failure is.
pub fetch_rule-none_iff :
    (reply : Result Json ProxmoxError) (rule : Text)
    → (fetch_rule reply rule ≡ ok none) ↔ (
        (status : ℕ) × (message : Text) × (reply ≡ err (api status message))
        × ((status ≡ 404)
            ⊎ ((status ≡ 500)
                × (has_substring
                      (to_ascii_lowercase message)
                      (codes "no such ha rule '" ++ (to_ascii_lowercase rule ++ codes "'"))
                    ≡ true))))
unfolding fetch_rule is_missing is_no_such_rule
fetch_rule-none_iff (ok value) rule = (λ h. absurd (cc), λ (status, message, e, rest). absurd (cc))
fetch_rule-none_iff (err (http e)) rule = (λ h. absurd (cc), λ (s, m, e', rest). absurd (cc))
fetch_rule-none_iff (err unauthorized) rule = (λ h. absurd (cc), λ (s, m, e', rest). absurd (cc))
fetch_rule-none_iff (err (denied e)) rule = (λ h. absurd (cc), λ (s, m, e', rest). absurd (cc))
fetch_rule-none_iff (err (not_found e)) rule = (λ h. absurd (cc), λ (s, m, e', rest). absurd (cc))
fetch_rule-none_iff (err (malformed e)) rule = (λ h. absurd (cc), λ (s, m, e', rest). absurd (cc))
fetch_rule-none_iff (err (config e)) rule = (λ h. absurd (cc), λ (s, m, e', rest). absurd (cc))
fetch_rule-none_iff (err (unknown_cluster e)) rule =
    (λ h. absurd (cc), λ (s, m, e', rest). absurd (cc))
fetch_rule-none_iff (err (api status message)) rule = (
  λ h. (
    status,
    message,
    refl,
    (elim (Bool-cases (eqb status 404)) [
      | inl e ↦ inl ((eqb_iff status 404).0 e)
      | inr e ↦ inr (ground (arith, h, e), ground (arith, h, e))
    ]),
  ),
  λ (s, m, e, rest).
      let same : s ≡ status = cc in
      let same_message : m ≡ message = cc in
      elim rest [
        | inl missing ↦ ground (arith, missing, same)
        | inr (internal, named) ↦ ground (arith, internal, named, same, rw same_message at named)
      ],
)

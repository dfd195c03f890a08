-- ===== src/HaRule/Built.antt =====
-- What a create or an update of an HA rule is made of
-- (crates/rust-proxmoxmcp/src/server/ha_change_set.rs, `build_ha_rule_action`).
use rustproxmoxmcp.Prelude.{
  ◌≡◌, ◌↔◌, ◌⊎◌, refl, ap, ◌∙◌, inl, inr, Bool, true, false, Option, none, some, List, [], ◌∷◌,
  ◌++◌, all, is_empty, arith, Bool-cases, Option-cases, Result-cases, Has, Has-cons, Result, ok,
  if◌then◌else◌,
}
use rustproxmoxmcp.Text.{Text, codes, ◌==◌, is_digit, split_once}
use rustproxmoxmcp.Text.Equality.{eq_iff, eq_of_test}
use rustproxmoxmcp.Text.Pieces.{split_once_at, split_once_sound}
use rustproxmoxmcp.HaRule.{
  PlanHaRuleArgs, HaRuleAction, HaRefusal, validate_service_id, is_some, merge_resources_alias,
  normalise_rule_type, lacks_resources, missing_for_type, missing_required_ha_fields,
}
use rustproxmoxmcp.HaRule.Build.{
  validate_services, plan_rule_type, check_resources, check_created, check_updated,
  build_create_or_update,
}

validate_services-Has :
    (ids : List Text) (id : Text)
    → validate_services ids ≡ ok tt
    → Has id ids
    → validate_service_id id ≡ ok tt
validate_services-Has [] id h m = elim m [ ]
validate_services-Has (x ∷ xs) id h m = elim (Result-cases (validate_service_id x)) [
  | inr (e, e1) ↦ absurd (ground (arith, e1, h))
  | inl (tt, e1) ↦ elim (Has-cons m) [
    | inl same ↦ rw same e1
    | inr n ↦ validate_services-Has xs id (ground (arith, e1, h)) n
  ]
]

-- The id of a guest: `vm:` or `ct:`, and then its number, spelled in `digits`.
pub record IsGuestId (id digits : Text) : Type 0 where
  pub spelled : (id ≡ codes "vm:" ++ digits) ⊎ (id ≡ codes "ct:" ++ digits)
  pub given : is_empty digits ≡ false
  pub numeric : all is_digit digits ≡ true

validate_service_id-IsGuestId :
    (id : Text) → validate_service_id id ≡ ok tt → (digits : Text) × IsGuestId id digits
unfolding validate_service_id
validate_service_id-IsGuestId id h = elim (Option-cases (split_once b':' id)) [
  | inl e ↦ absurd (ground (arith, e))
  | inr ((kind, digits), e) ↦
      let (spelled, ends) = split_once_sound b':' id kind digits e in
      (
        digits,
        record {
          spelled = elim (Bool-cases (kind == codes "vm")) [
            | inl vm ↦
                inl (
                  spelled ∙ ap (λ (k : Text). k ++ b':' ∷ digits) (eq_of_test kind (codes "vm") vm))
            | inr other ↦
                let ct : (kind == codes "ct") ≡ true = ground (arith, e, other) in
                inr (
                  spelled ∙ ap (λ (k : Text). k ++ b':' ∷ digits) (eq_of_test kind (codes "ct") ct))
          ];
          given = ground (arith, e);
          numeric = ground (arith, e);
        },
      )
]

validate_service_id_complete :
    (id digits : Text) → IsGuestId id digits → validate_service_id id ≡ ok tt
unfolding validate_service_id ◌==◌
validate_service_id_complete id digits i = elim i.spelled [
  | inl e ↦ rw (e, split_once_at b':' (codes "vm") digits refl, i.given, i.numeric) refl
  | inr e ↦ rw (e, split_once_at b':' (codes "ct") digits refl, i.given, i.numeric) refl
]

-- An id passes exactly if it is that of a guest.
pub validate_service_id_iff :
    (id : Text) → (validate_service_id id ≡ ok tt) ↔ ((digits : Text) × IsGuestId id digits)
validate_service_id_iff id =
    (validate_service_id-IsGuestId id, λ (digits, i). validate_service_id_complete id digits i)

-- The resources of an action, if it has any: at least one, each the id of a guest.
abbrev pub AreNamed : Option (List Text) → Type 0
AreNamed resources =
    (ids : List Text)
    → resources ≡ some ids
    → (is_empty ids ≡ false) × ((id : Text) → Has id ids → (digits : Text) × IsGuestId id digits)

check_resources-AreNamed :
    (is_create : Bool) (given checked : Option (List Text))
    → check_resources is_create given ≡ ok checked
    → AreNamed checked × ((is_create ≡ false) ⊎ (lacks_resources checked ≡ false))
unfolding check_resources
check_resources-AreNamed is_create none checked h =
    let same : checked ≡ none = ground (arith, h) in
    (λ ids e. absurd (ground (arith, e, same)), inl (ground (arith, h)))
check_resources-AreNamed is_create (some resources) checked h =
    elim (Result-cases (validate_services resources)) [
      | inr (e, e1) ↦ absurd (ground (arith, e1, h))
      | inl (tt, e1) ↦
          let same : some resources ≡ checked = ground (arith, e1, h) in
          let full : is_empty resources ≡ false = ground (arith, e1, h) in
          (
            λ ids e.
                let equal : resources ≡ ids = ground (arith, same, e) in
                (
                  rw (← equal) full,
                  λ id m.
                      (validate_service_id_iff id).0
                        (validate_services-Has resources id e1 (rw equal m)),
                ),
            inr (rw (← same) full),
          )
    ]

plan_rule_type-some :
    (args : PlanHaRuleArgs) (t : Option Text)
    → plan_rule_type args true ≡ ok t
    → (kind : Text) × (t ≡ some kind)
      × ((kind == codes "node-affinity" ≡ true) ⊎ (kind == codes "resource-affinity" ≡ true))
unfolding plan_rule_type
plan_rule_type-some args t h = elim (Option-cases args.rule_type) [
  | inl e ↦ absurd (ground (arith, e))
  | inr (given, e) ↦ (
    normalise_rule_type given,
    ground (arith, e),
    elim (Bool-cases (normalise_rule_type given == codes "node-affinity")) [
      | inl e1 ↦ inl e1
      | inr e1 ↦ inr (ground (arith, e, e1))
    ],
  )
]

module _ (expand_segment : Text → Result Text Text) where
  check_created_complete :
      (args : PlanHaRuleArgs) (kind : Text)
      → check_created expand_segment args (some kind) ≡ ok tt
      → (kind == codes "node-affinity" ≡ true) ⊎ (kind == codes "resource-affinity" ≡ true)
      → ((kind == codes "node-affinity" ≡ true) × (is_some args.nodes ≡ true))
        ⊎ ((kind == codes "node-affinity" ≡ false) × (is_some args.affinity ≡ true))
  unfolding check_created
  check_created_complete args kind h which = elim (Bool-cases (kind == codes "node-affinity")) [
    | inl e ↦ inl (e, (ground (arith, e)))
    | inr e ↦ inr (e, (ground (arith, e)))
  ]

  complete_update :
      (action : HaRuleAction)
      → action.op ≡ codes "update"
      → is_empty (missing_required_ha_fields action) ≡ true
  unfolding missing_required_ha_fields ◌==◌
  complete_update action e = rw e refl

  complete_create :
      (action : HaRuleAction) (kind : Text)
      → action.rule_type ≡ some kind
      → lacks_resources action.resources ≡ false
      → ((kind == codes "node-affinity" ≡ true) × (is_some action.nodes ≡ true))
        ⊎ ((kind == codes "node-affinity" ≡ false) × (is_some action.affinity ≡ true))
      → is_empty (missing_required_ha_fields action) ≡ true
  unfolding missing_required_ha_fields missing_for_type ◌==◌
  complete_create action kind e full (inl (a, b)) =
      let other : kind == codes "resource-affinity" ≡ false =
        rw ((eq_iff kind (codes "node-affinity")).0 a) disjoint in
      ground (arith, e, full, a, b, other)
    where
      disjoint : codes "node-affinity" == codes "resource-affinity" ≡ false
      disjoint = refl
  complete_create action kind e full (inr (a, b)) = ground (arith, e, full, a, b)

  -- The parts of a create or an update that was built.
  record IsBuilt (args : PlanHaRuleArgs) (is_create : Bool) (action : HaRuleAction) : Type 0 where
    rule_type : Option Text
    merged : Option (List Text)
    resources : Option (List Text)
    typed : plan_rule_type args is_create ≡ ok rule_type
    checked : check_resources is_create merged ≡ ok resources
    fits :
        (if is_create
          then check_created expand_segment args rule_type
          else check_updated expand_segment args resources)
        ≡ ok tt
    made : action ≡ record {
      op = if is_create then codes "create" else codes "update";
      cluster = args.cluster;
      rule = args.rule;
      rule_type = rule_type;
      resources = resources;
      nodes = args.nodes;
      affinity = args.affinity;
      strict = args.strict;
      comment = args.comment;
      disable = args.disable;
    }

  build_create_or_update-IsBuilt :
      (args : PlanHaRuleArgs) (is_create : Bool) (action : HaRuleAction)
      → build_create_or_update expand_segment args is_create ≡ ok action
      → IsBuilt args is_create action
  unfolding build_create_or_update
  build_create_or_update-IsBuilt args is_create action h =
      elim (Result-cases (plan_rule_type args is_create)) [
        | inr (e, e1) ↦ absurd (ground (arith, e1))
        | inl (rule_type, e1) ↦ elim (Result-cases (merge_resources_alias args)) [
          | inr (e, e2) ↦ absurd (ground (arith, e1, e2))
          | inl (merged, e2) ↦ elim (Result-cases (check_resources is_create merged)) [
            | inr (e, e3) ↦ absurd (ground (arith, e1, e2, e3))
            | inl (resources, e3) ↦
                let checks : Result (Unit {0}) HaRefusal =
                  if is_create
                  then check_created expand_segment args rule_type
                  else check_updated expand_segment args resources in
                elim (Result-cases checks) [
                  | inr (e, e4) ↦ absurd (ground (arith, e1, e2, e3, e4))
                  | inl (tt, e4) ↦ record {
                    rule_type = rule_type;
                    merged = merged;
                    resources = resources;
                    typed = e1;
                    checked = e3;
                    fits = e4;
                    made = ground (arith, e1, e2, e3, e4);
                  }
                ]
          ]
        ]
      ]

  pub created :
      (args : PlanHaRuleArgs) (is_create : Bool) (action : HaRuleAction)
      → build_create_or_update expand_segment args is_create ≡ ok action
      → (action.op ≡ (if is_create then codes "create" else codes "update"))
        × (action.cluster ≡ args.cluster)
        × (action.rule ≡ args.rule)
        × AreNamed action.resources
        × (is_empty (missing_required_ha_fields action) ≡ true)
  created args is_create action h =
      let b = build_create_or_update-IsBuilt args is_create action h in
      let (named, full) = check_resources-AreNamed is_create b.merged b.resources b.checked in
      (rw b.made refl, rw b.made refl, rw b.made refl, rw b.made named, complete is_create b full)
    where
      complete :
          (is_create : Bool) (b : IsBuilt args is_create action)
          → (is_create ≡ false) ⊎ (lacks_resources b.resources ≡ false)
          → is_empty (missing_required_ha_fields action) ≡ true
      complete false b full = complete_update action (rw b.made refl)
      complete true b (inl wrong) = absurd (cc)
      complete true b (inr full) =
          let (kind, typed, which) = plan_rule_type-some args b.rule_type b.typed in
          complete_create action kind (rw b.made typed) (rw b.made full)
            (rw b.made (check_created_complete args kind (rw typed at b.fits) which))

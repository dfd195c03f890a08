-- ===== src/Planner/Recorded.antt =====
-- What `plan_destroy` records (crates/rust-proxmoxmcp/src/server/mod.rs).
use rustproxmoxmcp.Prelude.{
  ◌≡◌, ◌⊎◌, refl, inl, inr, Bool, true, false, Option, List, [], ◌∷◌, arith, Bool-cases,
  Result-cases, any, any-of-Has, Has, Has-cons,
}
use rustproxmoxmcp.Text.{Text}
use rustproxmoxmcp.Tier.{action}
use rustproxmoxmcp.Protect.{Override, no_override, waiver, lab_mode}
use rustproxmoxmcp.Plan.{PlanDestroyArgs, DestroyAction}
use rustproxmoxmcp.Server.{Caller}
use rustproxmoxmcp.Apply.Checks.{device_of}
use rustproxmoxmcp.Planner.{
  PlanWorld, PlanEffect, created, previewed, Planned, owner_of, waive, record_plan,
}

abbrev is_created : PlanEffect → Bool
is_created (created device action owner fingerprint) = true
is_created _ = false

created-injective :
    {d d' o o' f f' : Text} {a a' : DestroyAction}
    → created d a o f ≡ created d' a' o' f'
    → (d ≡ d') × (a ≡ a') × (o ≡ o') × (f ≡ f')
created-injective h = (cc, cc, cc, cc)

module _ (plan_world : PlanWorld) (caller : Option Caller) (args : PlanDestroyArgs) where
  made : Planned → PlanEffect
  made planned =
      created (device_of args.cluster args.vmid) planned.action (owner_of caller)
        (plan_world.world.fingerprint planned.state)

  waive_no_created : (o : Override) (id : Text) → any is_created (waive plan_world o id).1 ≡ false
  unfolding waive
  waive_no_created lab_mode id = ground arith
  waive_no_created no_override id = refl
  waive_no_created (waiver reason ticket until) id = refl

  -- Nothing, or the change set and then what is no change set.
  record_plan_shape :
      (o : Override) (planned : Planned)
      → ((record_plan plan_world caller args o planned).1 ≡ [])
        ⊎ ((rest : List PlanEffect) × ((record_plan plan_world caller args o planned).1
              ≡ made planned ∷ rest)
            × (any is_created rest ≡ false))
  unfolding record_plan made
  record_plan_shape o planned =
      elim (Result-cases (
        plan_world.create (device_of args.cluster args.vmid) planned.action (owner_of caller)
          (plan_world.world.fingerprint planned.state))) [
            | inr (e, e1) ↦ inl (ground (arith, e1))
            | inl (id, e1) ↦ elim (Bool-cases plan_world.is_read_back) [
              | inr e2 ↦ inr ([], ground (arith, e1, e2), refl)
              | inl e2 ↦
                  let text = plan_world.preview planned.action planned.state o in
                  elim (Result-cases (plan_world.store_preview text)) [
                    | inr (e, e3) ↦ inr ([], ground (arith, e1, e2, e3), refl)
                    | inl (u, e3) ↦ inr (
                      previewed text ∷ (waive plan_world o id).1,
                      ground (arith, e1, e2, e3),
                      ground (arith, waive_no_created o id),
                    )
                  ]
            ]
          ]

  pub record_plan-created :
      (o : Override) (planned : Planned) (device owner fingerprint : Text) (action : DestroyAction)
      → Has
          (created device action owner fingerprint)
          (record_plan plan_world caller args o planned).1
      → (device ≡ device_of args.cluster args.vmid)
        × (action ≡ planned.action)
        × (owner ≡ owner_of caller)
        × (fingerprint ≡ plan_world.world.fingerprint planned.state)
  unfolding made
  record_plan-created o planned device owner fingerprint action m =
      elim (record_plan_shape o planned) [
        | inl nothing ↦ elim (rw nothing at m) [ ]
        | inr (rest, shape, others) ↦ elim (Has-cons (rw shape at m)) [
          | inl same ↦ created-injective same
          | inr n ↦ absurd (ground (arith, others, any-of-Has is_created n refl))
        ]
      ]

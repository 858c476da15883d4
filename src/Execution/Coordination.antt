-- ===== src/Execution/Coordination.antt =====
-- app/execution/coordinator.py as a client of app/approvals/service.py: which calls of the service the
-- coordinator and the trader amount to.
use algo_trader.Prelude.{
  ℕ, ◌≡◌, refl, sym, ap, ◌∙◌, inl, inr, Bool, true, false, List, [], ◌∷◌, ◌++◌, if◌then◌else◌,
  Bool-cases, All,
}
use mathlib.Core.Path.{subst}
use mathlib.Core.List.{append-nil, append_assoc}
use algo_trader.Float.{Float}
use algo_trader.Risk.Settings.{RiskSettings}
use algo_trader.Approvals
use algo_trader.Approvals.Requests.{
  Request, creation, reading, listing, approval, rejection, execution, step, run, no_proposals,
}
use algo_trader.Approvals.Invariant.{IsAdmitted}
use algo_trader.Approvals.Provenance.{IsAutomatic, run-IsAutomatic, run-IsAdmitted}
use algo_trader.Execution.{World, Coordinator}
use algo_trader.Execution.Keeps.{Keeps}
use algo_trader.Execution.Actions.{
  Action, service, enqueueing, processing, draining, act, act_all, act_kept,
}

module _ {F : Type 0} where
  -- A read or an execution.
  abbrev is_coordination : Request F → Bool
  is_coordination (creation e r) = false
  is_coordination (reading c k) = true
  is_coordination (listing clock status) = false
  is_coordination (approval c k d) = false
  is_coordination (rejection c k d) = false
  is_coordination (execution c k x) = true

  -- The calls that are neither reads nor executions, in order.
  abbrev pub decisions : List (Request F) → List (Request F)
  decisions [] = []
  decisions (r ∷ rs) = if is_coordination r then decisions rs else r ∷ decisions rs

  -- The calls that are made of the service itself.
  abbrev pub served : List (Action F) → List (Request F)
  served [] = []
  served (service r ∷ rest) = r ∷ served rest
  served (enqueueing clock now k cid p ∷ rest) = served rest
  served (processing o k ∷ rest) = served rest
  served (draining o limit ∷ rest) = served rest

  decisions-append :
      (rs ss : List (Request F)) → decisions (rs ++ ss) ≡ decisions rs ++ decisions ss
  decisions-append [] ss = refl
  decisions-append (r ∷ rs) ss = elim (Bool-cases (is_coordination r)) [
    | inl quiet ↦ rw quiet (decisions-append rs ss)
    | inr loud ↦ rw loud (ap (λ (x : List (Request F)). r ∷ x) (decisions-append rs ss))
  ]

module _ {F : Type 0} ⦃n : Float F⦄ (c : Coordinator F) (expiry_minutes : ℕ) where
  abbrev s : RiskSettings F
  s = c.settings.risk

  run-append :
      (rs ss : List (Request F)) (w : Approvals.World F)
      → run s expiry_minutes (rs ++ ss) w ≡ run s expiry_minutes ss (run s expiry_minutes rs w)
  unfolding run
  run-append [] ss w = refl
  run-append (r ∷ rs) ss w = run-append rs ss (step s expiry_minutes r w)

  module _ (start : Approvals.World F) where
    -- The proposals are as after calls of the service, of which these are the decisions.
    abbrev Reached : List (Request F) → World F → Type 0
    Reached ds w =
        (rs : List (Request F)) × (decisions rs ≡ ds)
        × (w.approvals ≡ run s expiry_minutes rs start)

    extend :
        (ds : List (Request F)) (r : Request F) (w : World F)
        → Reached ds w
        → Reached
            (ds ++ decisions (r ∷ []))
            (record w { approvals = step s expiry_minutes r w.approvals })
    unfolding run
    extend ds r w (rs, same, at) = (
      rs ++ (r ∷ []),
      decisions-append rs (r ∷ []) ∙ ap (λ (x : List (Request F)). x ++ decisions (r ∷ [])) same,
      ap (step s expiry_minutes r) at ∙ sym (run-append rs (r ∷ []) start),
    )

    -- A read or an execution adds no decision.
    extend_quietly :
        (ds : List (Request F)) (r : Request F) (w : World F)
        → is_coordination r ≡ true
        → Reached ds w
        → Reached ds (record w { approvals = step s expiry_minutes r w.approvals })
    extend_quietly ds r w quiet h =
        let (rs, same, at) = extend ds r w h in (rs, same ∙ rw quiet (append-nil ds), at)

    Keeps-Reached : (ds : List (Request F)) → Keeps (Reached ds)
    unfolding step
    Keeps-Reached ds = record {
      executions = λ xs w h. h;
      call = λ x w h. h;
      automation = λ a w h. h;
      reading = λ clock k w h. extend_quietly ds (reading clock k) w refl h;
      marking = λ clock k x w h. extend_quietly ds (execution clock k x) w refl h;
      settling = λ r w closed h. h;
      claiming = λ stale now k b rows w e h. h;
    }

    quiet_act :
        (ds : List (Request F)) (a : Action F) (w : World F)
        → served (a ∷ []) ≡ []
        → Reached ds w
        → Reached ds (act c expiry_minutes a w)
    quiet_act ds (service r) w none_served h = cc
    quiet_act ds (enqueueing clock now k cid p) w none_served h =
        act_kept c expiry_minutes (Reached ds) (Keeps-Reached ds) (λ r rows v e x. x) (λ r. ⊥)
          (λ r v bad x. absurd bad) (enqueueing clock now k cid p) w tt h
    quiet_act ds (processing o k) w none_served h =
        act_kept c expiry_minutes (Reached ds) (Keeps-Reached ds) (λ r rows v e x. x) (λ r. ⊥)
          (λ r v bad x. absurd bad) (processing o k) w tt h
    quiet_act ds (draining o limit) w none_served h =
        act_kept c expiry_minutes (Reached ds) (Keeps-Reached ds) (λ r rows v e x. x) (λ r. ⊥)
          (λ r v bad x. absurd bad) (draining o limit) w tt h

    steps :
        (rest : List (Action F)) (ds : List (Request F)) (w : World F)
        → Reached ds w
        → Reached (ds ++ decisions (served rest)) (act_all c expiry_minutes rest w)
    unfolding act_all act
    steps [] ds w h = rw (append-nil ds) h
    steps (service r ∷ rest) ds w h =
        subst (λ x. Reached x (act_all c expiry_minutes (service r ∷ rest) w))
          (append_assoc ds (decisions (r ∷ [])) (decisions (served rest))
            ∙ ap (λ (x : List (Request F)). ds ++ x)
                (sym (decisions-append (r ∷ []) (served rest))))
          (steps rest (ds ++ decisions (r ∷ [])) _ (extend ds r w h))
    steps (enqueueing clock now k cid p ∷ rest) ds w h =
        steps rest ds _ (quiet_act ds (enqueueing clock now k cid p) w refl h)
    steps (processing o k ∷ rest) ds w h = steps rest ds _ (quiet_act ds (processing o k) w refl h)
    steps (draining o limit ∷ rest) ds w h =
        steps rest ds _ (quiet_act ds (draining o limit) w refl h)

  -- Whatever calls are made of the approval service and of the coordinator, the proposals end as after
  -- calls of the service alone, whose creations, listings, approvals and rejections are those that were
  -- made of it, in their order: the coordinator and the trader add reads and executions at most.
  pub act_all-requests :
      (rest : List (Action F)) (w : World F)
      → (rs : List (Request F)) × (decisions rs ≡ decisions (served rest))
        × ((act_all c expiry_minutes rest w).approvals ≡ run s expiry_minutes rs w.approvals)
  unfolding run
  act_all-requests rest w = steps w.approvals rest [] w ([], refl, refl)

  -- Whatever calls are made of the approval service and of the coordinator from a store without
  -- proposals, the order of every stored proposal passed the risk gate in some account with some verdict
  -- of the live room, and an approved proposal tagged paper-only was approved by the unattended path.
  pub act_all-IsAdmitted :
      (rest : List (Action F)) (w : World F)
      → w.approvals ≡ no_proposals
      → All (λ p. IsAdmitted s p.order) (act_all c expiry_minutes rest w).approvals.proposals
        × All IsAutomatic (act_all c expiry_minutes rest w).approvals.proposals
  act_all-IsAdmitted rest w e =
      let (rs, same, at) = act_all-requests rest w in
      let reached = at ∙ ap (run s expiry_minutes rs) e in
      rw reached (run-IsAdmitted s expiry_minutes rs, run-IsAutomatic s expiry_minutes rs)

-- ===== src/Execution/Guarded/Stages.antt =====
-- app/execution/coordinator.py: what the stages from the quote on have found, if they send anything.
use algo_trader.Prelude.{
  ℕ, ◌<◌, String, ◌≡◌, refl, sym, ap, ◌∙◌, ◌≢◌, inl, inr, true, false, Option, some, List, [], ◌∷◌,
  ◌++◌, map, arith, leb, Bool-cases, Option-cases, is_empty, eq-nil_of_is_empty,
}
use mathlib.Core.Path.{subst}
use algo_trader.Result.{Result, ok, err, ok-injective}
use algo_trader.Float.{Float}
use algo_trader.Models.{ApprovalStatus, TradeProposal}
use algo_trader.Broker.Router.{Choice}
use algo_trader.Automation.Blocked.{Blocker}
use algo_trader.Risk.Context.{RiskContext, RoomAuthority}
use algo_trader.Risk.Guardrails.{validate_order}
use algo_trader.Approvals
use algo_trader.Approvals.{Clock, ProposalError, is_stale, is_open, expire_if_needed, get_proposal}
use algo_trader.Approvals.Store.{get}
use algo_trader.Approvals.Calls.{get_proposal-none, get_proposal-some}
use algo_trader.Execution.{
  QueueRecord, Failure, World, Quote, Objection, AccountReason, Coordinator, Outside, Call,
}
use algo_trader.Execution.Checks.{
  quote_validation_reasons, count_and_drift, automation_blockers, account_validation_reasons,
  objections, quote_price, governed,
}
use algo_trader.Execution.Records.{is_approved}
use algo_trader.Execution.Items.{saved}
use algo_trader.Execution.Placement.{bracket_reasons, bracketed}
use algo_trader.Execution.Process.{gated, judged, with_account, quoted}
use algo_trader.Execution.Exposure.{account-calls}
use algo_trader.Execution.Guarded.Account.{account-world}

append-eq-nil {ℓ} : {A : Type ℓ} (xs ys : List A) → xs ++ ys ≡ [] → (xs ≡ []) × (ys ≡ [])
append-eq-nil [] ys e = (refl, e)
append-eq-nil (x ∷ xs) ys e = cc

map-eq-nil {ℓ κ} : {A : Type ℓ} {B : Type κ} (f : A → B) (xs : List A) → map f xs ≡ [] → xs ≡ []
map-eq-nil f [] e = refl
map-eq-nil f (x ∷ xs) e = cc

pub approved_of : (s : ApprovalStatus) → is_approved s ≡ true → s ≡ ApprovalStatus.approved
approved_of ApprovalStatus.approved e = refl
approved_of ApprovalStatus.pending e = cc
approved_of ApprovalStatus.rejected e = cc
approved_of ApprovalStatus.expired e = cc
approved_of ApprovalStatus.executed e = cc

module _ {F : Type 0} where
  to_some : TradeProposal F → Option (TradeProposal F)
  to_some p = some p

  expiry_of :
      (t : ℕ) (p : TradeProposal F)
      → p.status ≡ ApprovalStatus.approved
      → is_stale t p ≡ false
      → t < p.expires_at
  unfolding is_stale
  expiry_of t p approved fresh =
      let late : leb p.expires_at t ≡ false = rw approved at fresh in ground arith

  -- A proposal that is read as approved is stored as approved, and has not expired.
  pub get_proposal-approved :
      (clock : Clock) (k : ℕ) (w : Approvals.World F) (p : TradeProposal F)
      → (get_proposal clock k w).0 ≡ ok p
      → p.status ≡ ApprovalStatus.approved
      → (get k w.proposals ≡ some p) × (clock.checked < p.expires_at)
  unfolding expire_if_needed to_some
  get_proposal-approved clock k w p e approved = elim (Option-cases (get k w.proposals)) [
    | inl missing ↦ cc (get_proposal-none clock k w missing)
    | inr (q, found) ↦
        let same : (expire_if_needed clock q w).0 ≡ p =
          ok-injective (expire_if_needed clock q w).0 p (get_proposal clock k w).0
            (ap (λ m. m.0) (get_proposal-some clock k w q found)) e in
        elim (Bool-cases (is_stale clock.checked q)) [
          | inl stale ↦ cc (rw stale at same)
          | inr fresh ↦
              let this : q ≡ p = rw fresh at same in
              (
                found ∙ ap to_some this,
                expiry_of clock.checked p approved
                    (subst (λ t. is_stale clock.checked t ≡ false) this fresh),
              )
        ]
  ]

module _ {F : Type 0} ⦃n : Float F⦄ (c : Coordinator F) (o : Outside F) where
  -- What a pass found from the risk gate on: the gate's verdict, and the bracket at the quote, with the
  -- amount that the governor leaves.
  abbrev pub Gated : TradeProposal F → Choice → F → Result String (RiskContext F) → Type 0
  Gated p name price m =
      (x : RiskContext F) × (m ≡ ok x)
      × ((validate_order c.settings.risk p.order x o.room).passed ≡ true)
      × (bracket_reasons c o (record p { order = governed c.settings x p.order }) name price ≡ [])

  bracketed-sent :
      (r : QueueRecord F) (p : TradeProposal F) (client : ℕ) (name : Choice) (price : F)
      (room : RoomAuthority) (w : World F)
      → (bracketed c o r p client name price room w).1.calls ≢ w.calls
      → bracket_reasons c o p name price ≡ []
  unfolding bracketed saved
  bracketed-sent r p client name price room w sent =
      elim (Bool-cases (is_empty (bracket_reasons c o p name price))) [
        | inl sound ↦ eq-nil_of_is_empty (bracket_reasons c o p name price) sound
        | inr poor ↦ absurd ((rw poor at sent) refl)
      ]

  gated-sent :
      (r : QueueRecord F) (p : TradeProposal F) (client : ℕ) (name : Choice) (price : F)
      (m : Result String (RiskContext F)) (w : World F)
      → (gated c o r p client name price m w).1.calls ≢ w.calls
      → Gated p name price m
  unfolding gated saved
  gated-sent r p client name price (err e) w sent = absurd (sent refl)
  gated-sent r p client name price (ok x) w sent =
      elim (Bool-cases (validate_order c.settings.risk p.order x o.room).passed) [
        | inl passed ↦ (
          x,
          refl,
          passed,
          bracketed-sent r (record p { order = governed c.settings x p.order }) client name price
              (validate_order c.settings.risk p.order x o.room).room_authority w
              (rw passed at sent),
        )
        | inr refused ↦ absurd ((rw refused at sent) refl)
      ]

  judged-sent :
      (r : QueueRecord F) (p : TradeProposal F) (client : ℕ) (name : Choice) (q : Quote F)
      (found : List Objection) (w : World F)
      → (judged c o r p client name q found w).1.calls ≢ w.calls
      → (found ≡ []) × Gated p name (quote_price q p) o.context
  unfolding judged saved
  judged-sent r p client name q [] w sent =
      (refl, gated-sent _ p client name (quote_price q p) o.context w sent)
  judged-sent r p client name q (x ∷ xs) w sent = absurd (sent refl)

  with_account-sent :
      (calls : List (Call F)) (r : QueueRecord F) (p : TradeProposal F) (client : ℕ) (name : Choice)
      (q : Quote F) (blockers : List Blocker)
      (m : Result (Failure F) (List AccountReason) × World F)
      → m.1.calls ≡ calls
      → (with_account c o r p client name q blockers m).1.calls ≢ calls
      → (account : List AccountReason) × (m.0 ≡ ok account)
        × (objections c o p name q blockers account m.1 ≡ [])
        × Gated p name (quote_price q p) o.context
  with_account-sent calls r p client name q blockers (err e, w) same sent = absurd (sent same)
  with_account-sent calls r p client name q blockers (ok account, w) same sent =
      let (none_found, gate) =
        judged-sent r p client name q (objections c o p name q blockers account w) w
          (λ unsent. sent (unsent ∙ same)) in
      (account, refl, none_found, gate)

  -- What a pass found from the quote on, in the state at that time.
  abbrev pub Judged : TradeProposal F → Choice → Result String (Quote F) → World F → Type 0
  Judged p name m w =
      (q : Quote F) × (m ≡ ok q)
      × (automation_blockers c w.automation ≡ [])
      × ((account_validation_reasons c o name w).0 ≡ ok [])
      × (quote_validation_reasons c.settings q name ≡ [])
      × (o.direction ≡ [])
      × (o.held ≡ [])
      × (count_and_drift c o p (quote_price q p) w ≡ [])
      × Gated p name (quote_price q p) o.context

  objections-nil :
      (p : TradeProposal F) (name : Choice) (q : Quote F) (blockers : List Blocker)
      (account : List AccountReason) (w : World F)
      → objections c o p name q blockers account w ≡ []
      → (blockers ≡ [])
        × (account ≡ [])
        × (quote_validation_reasons c.settings q name ≡ [])
        × (o.direction ≡ [])
        × (o.held ≡ [])
        × (count_and_drift c o p (quote_price q p) w ≡ [])
  unfolding objections
  objections-nil p name q blockers account w e =
      let (a, e1) = append-eq-nil _ _ e in
      let (b, e2) = append-eq-nil _ _ e1 in
      let (d, e3) = append-eq-nil _ _ e2 in
      let (f, e4) = append-eq-nil _ _ e3 in
      let (g, e5) = append-eq-nil _ _ e4 in
      (
        map-eq-nil Objection.automation blockers a,
        map-eq-nil Objection.account account b,
        map-eq-nil Objection.quote _ d,
        map-eq-nil Objection.direction o.direction f,
        map-eq-nil Objection.held o.held g,
        e5,
      )

  pub count_and_drift-executions :
      (p : TradeProposal F) (price : F) (v w : World F)
      → v.executions ≡ w.executions
      → count_and_drift c o p price v ≡ count_and_drift c o p price w
  unfolding count_and_drift
  count_and_drift-executions p price v w same = rw same refl

  pub quoted-sent :
      (r : QueueRecord F) (p : TradeProposal F) (client : ℕ) (name : Choice)
      (m : Result String (Quote F)) (w : World F)
      → (quoted c o r p client name m w).1.calls ≢ w.calls
      → Judged p name m w
  unfolding quoted
  quoted-sent r p client name (err e) w sent = absurd (sent refl)
  quoted-sent r p client name (ok q) w sent =
      let checked = account_validation_reasons c o name w in
      let (account, found, none_found, gate) =
        with_account-sent w.calls r p client name q (automation_blockers c w.automation) checked
          (account-calls c o name w) sent in
      let (blockers, accounts, quotes, direction, held, counted) =
        objections-nil p name q (automation_blockers c w.automation) account checked.1 none_found in
      (
        q,
        refl,
        blockers,
        found ∙ ap (λ x. ok x) accounts,
        quotes,
        direction,
        held,
        sym (
              count_and_drift-executions p (quote_price q p) checked.1 w
                (ap (λ (v : World F). v.executions) (account-world c o name w)))
            ∙ counted,
        gate,
      )

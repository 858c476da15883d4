-- ===== src/Risk/Guardrails/Caps.antt =====
-- How the gate of app/risk/guardrails.py relates to the sizers of app/risk/rules.py and to the room
-- verdict of the live eToro account.
use algo_trader.Prelude.{
  String, ◌≡◌, refl, inl, inr, true, false, ◌||◌, none, some, List, [], ◌∷◌, arith, Bool-cases,
}
use algo_trader.Float.{Float, nought}
use algo_trader.Models.{TradeOrder}
use algo_trader.Broker.Resolver.{SupportedInstrument}
use algo_trader.Risk.Settings.{RiskSettings, is_live}
use algo_trader.Risk.Context.{is_real, RiskContext}
use algo_trader.Risk.Rules.{effective_max_risk_per_trade_pct}
use algo_trader.Risk.Guardrails.{risk_cap, validate_order}
use algo_trader.Risk.Guardrails.Clear.{CountsClear, OrderClear, validate_order-passed_iff}

module _ {F : Type 0} ⦃n : Float F⦄ where
  -- The cap that the sizers size to is the cap that the gate enforces, whatever the institutional
  -- controls and the mode, as long as `max_risk_per_trade_pct` is not 0. The sizers' flag is the
  -- gate's condition for the micro-live cap.
  pub risk_cap-eq-effective :
      (s : RiskSettings F) (c : RiskContext F)
      → n.eq s.max_risk_per_trade_pct nought ≡ false
      → risk_cap s c
        ≡ effective_max_risk_per_trade_pct s (is_real c.mode || is_live s.execution_mode)
  unfolding risk_cap effective_max_risk_per_trade_pct
  risk_cap-eq-effective s c h = ground arith

  CountsClear-live :
      (s : RiskSettings F) (o : TradeOrder F) (c : RiskContext F)
      → CountsClear s o c none
      → CountsClear s o c (some [])
  CountsClear-live s o c k = record {
    room_free = refl;
    trades = k.trades;
    per_symbol = k.per_symbol;
    not_stopped = k.not_stopped;
    bucket = k.bucket;
    sector = λ e. cc;
  }

  OrderClear-live :
      (s : RiskSettings F) (o : TradeOrder F) (c : RiskContext F) (i : SupportedInstrument)
      → OrderClear s o c none i
      → OrderClear s o c (some []) i
  OrderClear-live s o c i k = record {
    leverage = k.leverage;
    counts = CountsClear-live s o c k.counts;
    losses = k.losses;
    drawdown = k.drawdown;
    exposure = λ on e. cc;
    shorts = k.shorts;
    stop = k.stop;
    mode = k.mode;
  }

  -- Giving eToro the say over room never blocks what paper's own room rules pass: an order that
  -- passes with paper's room passes when eToro has no objection.
  pub validate_order-live_room :
      (s : RiskSettings F) (o : TradeOrder F) (c : RiskContext F)
      → (validate_order s o c none).passed ≡ true
      → (validate_order s o c (some [])).passed ≡ true
  validate_order-live_room s o c h =
      let (i, found, clear) = (validate_order-passed_iff s o c none).0 h in
      (validate_order-passed_iff s o c (some [])).1 (i, found, OrderClear-live s o c i clear)

  -- Any objection of eToro blocks the order.
  pub validate_order-objection :
      (s : RiskSettings F) (o : TradeOrder F) (c : RiskContext F) (reason : String)
      (rest : List String)
      → (validate_order s o c (some (reason ∷ rest))).passed ≡ false
  validate_order-objection s o c reason rest =
      elim (Bool-cases (validate_order s o c (some (reason ∷ rest))).passed) [
        | inl passed ↦
            let (i, found, clear) =
              (validate_order-passed_iff s o c (some (reason ∷ rest))).0 passed in
            let bad = clear.counts.room_free in cc
        | inr blocked ↦ blocked
      ]

-- ===== src/Risk/Guardrails/Clear.antt =====
-- What it means for an order to clear the gate of app/risk/guardrails.py, said without the list of
-- reasons.
use algo_trader.Prelude.{
  ℕ, ◌≤◌, ◌<◌, String, ◌≡◌, ◌≢◌, ◌↔◌, inl, inr, true, false, Option, none, some, List, [], ◌∷◌, map,
  arith, eq_iff, and_iff, is_empty, is_empty-append, is_empty-when, is_empty-map,
  eq-nil_of_is_empty,
}
use mathlib.Core.Bool.{false≢true}
use algo_trader.Result.{ok, Result-cases}
use algo_trader.Dict.{get_or}
use algo_trader.Text.{upper, elem}
use algo_trader.Float.{Float, nought}
use algo_trader.Models.{TradeOrder, OrderSide}
use algo_trader.Broker.Resolver.{SupportedInstrument, resolve}
use algo_trader.Risk.Settings.{RiskSettings}
use algo_trader.Risk.Sectors.{
  unknown_sector, unknown_bucket, correlation_bucket_for_symbol, gics_sector_for_symbol,
}
use algo_trader.Risk.Context.{Reason, short, is_real, RiskContext}
use algo_trader.Risk.Rules.{leverage_cap_for_asset}
use algo_trader.Risk.Heat.{fits_within_heat}
use algo_trader.Risk.Shorting.{short_blockers}
use algo_trader.Risk.Guardrails.{
  held_in_sector, leverage_reasons, count_reasons, open_loss, loss_reasons, drawdown_reasons,
  proposed_exposure_pct, order_sector, current_correlated_exposure, exposure_reasons, risk_cap,
  risk_amount, risk_pct, stop_reasons, mode_reasons, order_reasons, validate_order,
}

-- Paper decides the room by its open positions; otherwise eToro has no objection.
abbrev pub RoomClear : Option (List String) → ℕ → ℕ → Type 0
RoomClear none open_positions limit = open_positions < limit
RoomClear (some reasons) open_positions limit = reasons ≡ []

module _ {F : Type 0} ⦃n : Float F⦄ where
  pub record CountsClear (s : RiskSettings F) (o : TradeOrder F) (c : RiskContext F)
      (room : Option (List String)) : Type 0 where
    pub room_free : RoomClear room c.open_positions s.max_open_positions
    pub trades : c.trades_today < s.max_trades_per_day
    pub per_symbol : get_or c.positions_by_symbol (upper o.symbol) 0 < s.per_symbol_position_limit
    pub not_stopped : elem (upper o.symbol) c.recently_stopped_symbols ≡ false
    pub bucket :
        0 < s.max_daily_entries_per_correlation_bucket
        → correlation_bucket_for_symbol o.symbol ≢ unknown_bucket
        → get_or c.entries_today_by_correlation_bucket (correlation_bucket_for_symbol o.symbol) 0
          < s.max_daily_entries_per_correlation_bucket
    pub sector :
        room ≡ none
        → 0 < s.max_open_positions_per_sector
        → o.side ≡ OrderSide.buy
        → gics_sector_for_symbol o.symbol ≢ unknown_sector
        → held_in_sector (upper o.symbol) (gics_sector_for_symbol o.symbol) c.positions_by_symbol
          < s.max_open_positions_per_sector

  pub record LossesClear (s : RiskSettings F) (c : RiskContext F) : Type 0 where
    pub daily :
        n.le (n.add c.daily_realized_pnl_usd (open_loss s c)) (n.neg (n.abs s.max_daily_loss_usd))
        ≡ false
    pub weekly :
        n.le (n.add c.weekly_realized_pnl_usd (open_loss s c)) (n.neg (n.abs s.max_weekly_loss_usd))
        ≡ false
    pub streak : c.consecutive_losses_today < s.max_consecutive_losses_before_cooldown
    pub kill_switch : s.kill_switch_enabled ≡ false

  pub record DrawdownClear (s : RiskSettings F) (c : RiskContext F) : Type 0 where
    pub hard : n.le s.portfolio_hard_drawdown_pct c.portfolio_drawdown_pct ≡ false
    pub soft : n.le s.portfolio_soft_drawdown_pct c.portfolio_drawdown_pct ≡ false

  pub record ExposureClear (s : RiskSettings F) (o : TradeOrder F) (c : RiskContext F)
      : Type 0 where
    pub gross :
        n.lt s.portfolio_max_gross_exposure_pct
          (n.add c.gross_exposure_pct (proposed_exposure_pct o c))
        ≡ false
    pub symbol :
        n.lt s.portfolio_max_symbol_exposure_pct (
          n.add
            (get_or c.exposure_by_symbol_pct (upper o.symbol) nought)
            (proposed_exposure_pct o c))
        ≡ false
    pub sector :
        n.lt s.portfolio_max_sector_exposure_pct (
          n.add
            (get_or c.exposure_by_sector_pct (order_sector o) nought)
            (proposed_exposure_pct o c))
        ≡ false
    pub correlated :
        n.lt s.portfolio_max_correlated_exposure_pct
          (n.add (current_correlated_exposure o c) (proposed_exposure_pct o c))
        ≡ false

  pub record StopClear (s : RiskSettings F) (o : TradeOrder F) (c : RiskContext F) : Type 0 where
    pub has_stop : o.stop_loss ≢ none
    pub within_cap : n.lt (risk_cap s c) (risk_pct o c) ≡ false
    pub heat :
        n.lt nought s.portfolio_max_heat_pct ≡ true
        → fits_within_heat
            (risk_amount o)
            c.open_trade_risks_usd
            c.account_balance
            s.portfolio_max_heat_pct
          ≡ true

  pub record OrderClear (s : RiskSettings F) (o : TradeOrder F) (c : RiskContext F)
      (room : Option (List String)) (i : SupportedInstrument) : Type 0 where
    pub leverage :
        o.leverage ≤ leverage_cap_for_asset i.asset_class s.max_equity_leverage s.max_gold_leverage
    pub counts : CountsClear s o c room
    pub losses : LossesClear s c
    pub drawdown : s.institutional_portfolio_controls_enabled ≡ true → DrawdownClear s c
    pub exposure :
        s.institutional_portfolio_controls_enabled ≡ true → room ≡ none → ExposureClear s o c
    pub shorts : short_blockers s.short o c.account_balance ≡ []
    pub stop : StopClear s o c
    pub mode : is_real c.mode ≡ true → s.enable_real_trading ≡ true

  counts_iff :
      (s : RiskSettings F) (o : TradeOrder F) (c : RiskContext F) (room : Option (List String))
      → (is_empty (count_reasons s o c room) ≡ true) ↔ CountsClear s o c room
  unfolding count_reasons
  counts_iff s o c none =
      simp (is_empty-append, is_empty-when)
        (ground (
          arith,
          eq_iff (correlation_bucket_for_symbol o.symbol) unknown_bucket,
          eq_iff (gics_sector_for_symbol o.symbol) unknown_sector,
        ))
  counts_iff s o c (some []) =
      simp (is_empty-append, is_empty-when)
        (ground (arith, eq_iff (correlation_bucket_for_symbol o.symbol) unknown_bucket))
  counts_iff s o c (some (r ∷ rs)) =
      simp is_empty-append
        (ground (arith, eq_iff (correlation_bucket_for_symbol o.symbol) unknown_bucket))

  losses_iff :
      (s : RiskSettings F) (c : RiskContext F)
      → (is_empty (loss_reasons s c) ≡ true) ↔ LossesClear s c
  unfolding loss_reasons
  losses_iff s c = simp (is_empty-append, is_empty-when) (ground arith)

  drawdown_iff :
      (s : RiskSettings F) (c : RiskContext F)
      → (is_empty (drawdown_reasons s c) ≡ true)
        ↔ (s.institutional_portfolio_controls_enabled ≡ true → DrawdownClear s c)
  unfolding drawdown_reasons
  drawdown_iff s c = ground arith

  exposure_iff :
      (s : RiskSettings F) (o : TradeOrder F) (c : RiskContext F) (room : Option (List String))
      → (is_empty (exposure_reasons s o c room) ≡ true)
        ↔ (s.institutional_portfolio_controls_enabled ≡ true → room ≡ none → ExposureClear s o c)
  unfolding exposure_reasons
  exposure_iff s o c none = ground arith
  exposure_iff s o c (some rs) = ground arith

  stop_iff :
      (s : RiskSettings F) (o : TradeOrder F) (c : RiskContext F)
      → (is_empty (stop_reasons s o c) ≡ true) ↔ StopClear s o c
  unfolding stop_reasons
  stop_iff s o c = ground arith

  leverage_iff :
      (s : RiskSettings F) (o : TradeOrder F) (i : SupportedInstrument)
      → (is_empty (leverage_reasons s o i) ≡ true) ↔ (
          o.leverage
          ≤ leverage_cap_for_asset i.asset_class s.max_equity_leverage s.max_gold_leverage)
  unfolding leverage_reasons
  leverage_iff s o i = ground arith

  mode_iff :
      (s : RiskSettings F) (c : RiskContext F)
      → (is_empty (mode_reasons s c) ≡ true)
        ↔ (is_real c.mode ≡ true → s.enable_real_trading ≡ true)
  unfolding mode_reasons
  mode_iff s c = ground arith

  shorts_iff :
      (s : RiskSettings F) (o : TradeOrder F) (c : RiskContext F)
      → (is_empty (map {B = Reason F} short (short_blockers s.short o c.account_balance)) ≡ true)
        ↔ (short_blockers s.short o c.account_balance ≡ [])
  shorts_iff s o c =
      rw is_empty-map
        (ground (arith, eq-nil_of_is_empty (short_blockers s.short o c.account_balance)))

  order_iff :
      (s : RiskSettings F) (o : TradeOrder F) (c : RiskContext F) (room : Option (List String))
      (i : SupportedInstrument)
      → (is_empty (order_reasons s o c room i) ≡ true) ↔ OrderClear s o c room i
  unfolding order_reasons
  order_iff s o c room i = simp is_empty-append (
      let all = and_iff _ _ (leverage_iff s o i) (
        and_iff _ _ (counts_iff s o c room) (
          and_iff _ _ (losses_iff s c) (
            and_iff _ _ (drawdown_iff s c) (
              and_iff _ _ (exposure_iff s o c room) (
                and_iff _ _ (shorts_iff s o c) (and_iff _ _ (stop_iff s o c) (mode_iff s c))))))) in
      (
        λ h.
            let (leverage, (counts, (losses, (drawdown, (exposure, (shorts, (stop, mode))))))) =
              all.0 h in
            record {
              leverage = leverage;
              counts = counts;
              losses = losses;
              drawdown = drawdown;
              exposure = exposure;
              shorts = shorts;
              stop = stop;
              mode = mode;
            },
        λ k. all.1 (
          k.leverage,
          (k.counts, (k.losses, (k.drawdown, (k.exposure, (k.shorts, (k.stop, k.mode)))))),
        ),
      ))

  -- An order passes exactly when its symbol resolves to an instrument and it clears every check for
  -- that instrument: leverage, counts, losses, drawdown, exposure, shorts, stop and heat, and mode.
  pub validate_order-passed_iff :
      (s : RiskSettings F) (o : TradeOrder F) (c : RiskContext F) (room : Option (List String))
      → ((validate_order s o c room).passed ≡ true) ↔ (
          (i : SupportedInstrument) × (resolve s.instruments o.symbol ≡ ok i)
          × OrderClear s o c room i)
  unfolding validate_order
  validate_order-passed_iff s o c room = (
    λ h. elim (Result-cases (resolve s.instruments o.symbol)) [
      | inl (e, raised) ↦ absurd (false≢true (rw (raised, validate_order) at h))
      | inr (i, found) ↦ (i, found, (order_iff s o c room i).0 (rw (found, validate_order) at h))
    ],
    λ (i, found, clear). rw (found, validate_order) ((order_iff s o c room i).1 clear),
  )

-- ===== src/Execution/Orders.antt =====
-- app/execution/coordinator.py, `_execute_with_broker`: the quantity of an order, and which method of
-- the client takes it.
use algo_trader.Prelude.{
  ℕ, String, Bool, true, false, not, ◌&&◌, ◌||◌, Option, none, some, if◌then◌else◌, is_some,
  or_else,
}
use algo_trader.Result.{Result, ok, err}
use algo_trader.Float.{Float, nought, fmin, fmax}
use algo_trader.Models.{AssetClass, TradeOrder}
use algo_trader.Broker.Router.{Choice}
use algo_trader.Broker.Crypto.{is_crypto_symbol}
use algo_trader.Execution.{
  BrokerAnswer, BrokerApi, Call, submit_order, submit_bracket_order, submit_crypto_protected_order,
  Coordinator, Failure, one_share_exceeds_max_trade_amount, crypto_notional_below_min_order,
  price_missing,
}
use algo_trader.Execution.Records.{Sent}

abbrev pub is_alpaca : Choice → Bool
is_alpaca Choice.alpaca = true
is_alpaca _ = false

abbrev pub is_etoro : Choice → Bool
is_etoro Choice.etoro = true
is_etoro _ = false

abbrev is_crypto_class : AssetClass → Bool
is_crypto_class AssetClass.crypto = true
is_crypto_class _ = false

module _ {F : Type 0} ⦃n : Float F⦄ where
  -- The largest amount of one order, in units of the price.
  unfoldable pub capped_qty : Coordinator F → TradeOrder F → F → F
  capped_qty c order price =
      n.div (fmin order.amount_usd c.settings.risk.max_trade_amount_usd) (fmax price (n.lit 1 2))

  unfoldable pub is_crypto : TradeOrder F → Bool
  unfolding is_crypto_symbol
  is_crypto order = is_crypto_class order.asset_class || is_crypto_symbol order.symbol

  -- `qty`: whole shares at Alpaca, but for crypto
  unfoldable pub quantity : Coordinator F → TradeOrder F → Choice → F → Result (Failure F) F
  unfolding capped_qty is_crypto
  quantity c order name price =
      let whole = n.floor (capped_qty c order price) in
      if is_alpaca name && not (is_crypto order)
      then (if n.lt whole (n.lit 1 0) then err one_share_exceeds_max_trade_amount else ok whole)
      else ok (capped_qty c order price)

  -- A call with the two prices, if both are there.
  abbrev priced : (F → F → Call F) → Option F → Option F → Result (Failure F) (Call F)
  priced call (some stop) (some take) = ok (call stop take)
  priced call none take = err price_missing
  priced call (some stop) none = err price_missing

  -- `take_profit if take_profit else None`
  abbrev truthy : Option F → Option F
  truthy none = none
  truthy (some x) = if n.eq x nought then none else some x

  abbrev protected_call : TradeOrder F → ℕ → String → F → Option F → Result (Failure F) (Call F)
  protected_call order client cid qty none = err price_missing
  protected_call order client cid qty (some stop) =
      ok (submit_crypto_protected_order client order.symbol qty stop (truthy order.take_profit) cid)

  abbrev sent :
      Result String BrokerAnswer → Result (Failure F) (Call F) → Result (Failure F) (Sent F)
  sent answer (ok call) = ok (call, answer)
  sent answer (err e) = err e

  -- Which of the order methods is called: `crypto` and `bracket` are there if the client has them.
  abbrev dispatch :
      Coordinator F
      → TradeOrder F
      → ℕ
      → Choice
      → String
      → BrokerApi
      → Result String BrokerAnswer
      → F
      → Result (Failure F) (Sent F)
  dispatch c order client name cid api plain qty =
      if is_alpaca name && (is_crypto order && is_some api.crypto_answer)
      then (if n.le qty nought
          then err crypto_notional_below_min_order
          else sent (or_else api.crypto_answer plain)
              (protected_call order client cid qty order.stop_loss))
      else if is_alpaca name
          && (c.settings.alpaca_require_bracket_orders && is_some api.bracket_answer)
      then sent (or_else api.bracket_answer plain) (
          priced
            (λ stop take.
              submit_bracket_order client order.symbol order.side (n.floor qty) take stop cid)
            order.stop_loss order.take_profit)
      else ok (submit_order client order.symbol order.side qty cid, plain)

  abbrev with_quantity :
      Result (Failure F) F → (F → Result (Failure F) (Sent F)) → Result (Failure F) (Sent F)
  with_quantity (ok qty) rest = rest qty
  with_quantity (err e) rest = err e

  unfoldable pub order_call :
      Coordinator F
      → TradeOrder F
      → ℕ
      → Choice
      → F
      → String
      → BrokerApi
      → Result String BrokerAnswer
      → Result (Failure F) (Sent F)
  unfolding quantity is_crypto
  order_call c order client name price cid api plain =
      with_quantity (quantity c order name price) (dispatch c order client name cid api plain)

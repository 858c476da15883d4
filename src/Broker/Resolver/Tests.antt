-- ===== src/Broker/Resolver/Tests.antt =====
-- Runs of app/broker/instrument_resolver.py.
use algo_trader.Prelude.{◌≡◌, refl, true, false, [], ◌∷◌}
use algo_trader.Result.{ok}
use algo_trader.Models.{AssetClass}
use algo_trader.Text.{upper, strip, elem}
use algo_trader.Broker.Crypto.{split}
use algo_trader.Broker.Resolver.{SupportedInstrument, InstrumentSettings, resolve}
use algo_trader.Broker.Resolver.Lists.{IsListed, resolve-IsListed}

abbrev settings : InstrumentSettings
settings = record {
  blocked_instruments = "OIL" ∷ "BTC/USD" ∷ [];
  allowed_instruments = "NVDA" ∷ [];
  crypto_trading_enabled = true;
  crypto_symbols = "BTC/USD" ∷ [];
}

abbrev bitcoin : SupportedInstrument
bitcoin = record { symbol = "BTC/USD"; broker_symbol = "BTC/USD"; asset_class = AssetClass.crypto }

-- The block list is compared before the symbol of a pair is brought into its canonical form.
blocked_pair_passes : resolve settings "btc-usd" ≡ ok bitcoin
unfolding resolve split
blocked_pair_passes = refl

resolve-IsListed_example :
    (elem (strip (upper "btc-usd")) settings.blocked_instruments ≡ false)
    × IsListed settings (strip (upper "btc-usd")) bitcoin
resolve-IsListed_example = resolve-IsListed settings "btc-usd" bitcoin blocked_pair_passes

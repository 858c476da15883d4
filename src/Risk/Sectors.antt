-- ===== src/Risk/Sectors.antt =====
-- The symbol classification of app/risk/sectors.py: sector ETF, correlation bucket and GICS sector,
-- over the table of app/intelligence/market_regime.py.
use algo_trader.Prelude.{String, [], ◌∷◌, or_else}
use algo_trader.Dict.{Dict, lookup, get_or}
use algo_trader.Text.{upper}

abbrev pub unknown_sector : String
unknown_sector = "unknown"

abbrev pub unknown_bucket : String
unknown_bucket = "unclassified"

unfoldable pub sector_etf_by_symbol : Dict String
sector_etf_by_symbol =
    ("AAPL", "XLK")
    ∷ ("MSFT", "XLK")
    ∷ ("NVDA", "SMH")
    ∷ ("AMD", "SMH")
    ∷ ("MU", "SMH")
    ∷ ("AVGO", "SMH")
    ∷ ("QCOM", "SMH")
    ∷ ("AMAT", "SMH")
    ∷ ("LRCX", "SMH")
    ∷ ("KLAC", "SMH")
    ∷ ("ANET", "IGV")
    ∷ ("CRM", "IGV")
    ∷ ("NOW", "IGV")
    ∷ ("ORCL", "IGV")
    ∷ ("ADBE", "IGV")
    ∷ ("PANW", "HACK")
    ∷ ("CRWD", "HACK")
    ∷ ("SHOP", "XLY")
    ∷ ("AMZN", "XLY")
    ∷ ("TSLA", "XLY")
    ∷ ("MCD", "XLY")
    ∷ ("BKNG", "XLY")
    ∷ ("NFLX", "XLC")
    ∷ ("GOOG", "XLC")
    ∷ ("GOOGL", "XLC")
    ∷ ("META", "XLC")
    ∷ ("DIS", "XLC")
    ∷ ("JPM", "XLF")
    ∷ ("BAC", "XLF")
    ∷ ("WFC", "XLF")
    ∷ ("GS", "XLF")
    ∷ ("MS", "XLF")
    ∷ ("AXP", "XLF")
    ∷ ("BLK", "XLF")
    ∷ ("UNH", "XLV")
    ∷ ("LLY", "XLV")
    ∷ ("JNJ", "XLV")
    ∷ ("MRK", "XLV")
    ∷ ("ABBV", "XLV")
    ∷ ("ABT", "XLV")
    ∷ ("PFE", "XLV")
    ∷ ("AMGN", "XLV")
    ∷ ("ISRG", "XLV")
    ∷ ("XOM", "XLE")
    ∷ ("CVX", "XLE")
    ∷ ("COP", "XLE")
    ∷ ("SLB", "XLE")
    ∷ ("RTX", "XLI")
    ∷ ("CAT", "XLI")
    ∷ ("GE", "XLI")
    ∷ ("DE", "XLI")
    ∷ ("HON", "XLI")
    ∷ ("UNP", "XLI")
    ∷ ("BA", "XLI")
    ∷ ("WMT", "XLP")
    ∷ ("PG", "XLP")
    ∷ ("KO", "XLP")
    ∷ ("PEP", "XLP")
    ∷ ("COST", "XLP")
    ∷ ("HD", "XLY")
    ∷ ("LOW", "XLY")
    ∷ ("LIN", "XLB")
    ∷ ("TMO", "XLV")
    ∷ ("DHR", "XLV")
    ∷ ("INTC", "SMH")
    ∷ ("PLTR", "IWF")
    ∷ ("SNOW", "IGV")
    ∷ []

unfoldable pub correlation_bucket_by_sector_etf : Dict String
correlation_bucket_by_sector_etf =
    ("XLK", "tech_complex")
    ∷ ("SMH", "tech_complex")
    ∷ ("IGV", "tech_complex")
    ∷ ("HACK", "tech_complex")
    ∷ ("XLC", "tech_complex")
    ∷ ("IWF", "tech_complex")
    ∷ ("XLY", "consumer_cyclical")
    ∷ ("XLP", "consumer_staples")
    ∷ ("XLF", "financials")
    ∷ ("XLV", "healthcare")
    ∷ ("XLE", "energy")
    ∷ ("XLI", "industrials")
    ∷ ("XLB", "materials")
    ∷ []

unfoldable pub bucket_overrides : Dict String
bucket_overrides =
    ("QQQ", "tech_complex")
    ∷ ("CSCO", "tech_complex")
    ∷ ("SPY", "broad_market")
    ∷ ("IWM", "broad_market")
    ∷ ("DIA", "broad_market")
    ∷ []

unfoldable pub gics_by_sector_etf : Dict String
gics_by_sector_etf =
    ("XLK", "information_technology")
    ∷ ("SMH", "information_technology")
    ∷ ("IGV", "information_technology")
    ∷ ("HACK", "information_technology")
    ∷ ("IWF", "information_technology")
    ∷ ("XLC", "communication_services")
    ∷ ("XLY", "consumer_discretionary")
    ∷ ("XLP", "consumer_staples")
    ∷ ("XLF", "financials")
    ∷ ("XLV", "health_care")
    ∷ ("XLE", "energy")
    ∷ ("XLI", "industrials")
    ∷ ("XLB", "materials")
    ∷ []

unfoldable pub gics_overrides : Dict String
gics_overrides = ("CSCO", "information_technology") ∷ ("PYPL", "financials") ∷ []

unfoldable pub sector_for_symbol : String → String
unfolding sector_etf_by_symbol upper
sector_for_symbol symbol = get_or sector_etf_by_symbol (upper symbol) unknown_sector

unfoldable pub correlation_bucket_for_symbol : String → String
unfolding bucket_overrides correlation_bucket_by_sector_etf sector_for_symbol upper
correlation_bucket_for_symbol symbol =
    or_else (lookup (upper symbol) bucket_overrides)
      (get_or correlation_bucket_by_sector_etf (sector_for_symbol symbol) unknown_bucket)

unfoldable pub gics_sector_for_symbol : String → String
unfolding gics_overrides gics_by_sector_etf sector_for_symbol upper
gics_sector_for_symbol symbol =
    let key = upper symbol in
    or_else (lookup key gics_overrides)
      (get_or gics_by_sector_etf (sector_for_symbol key) unknown_sector)

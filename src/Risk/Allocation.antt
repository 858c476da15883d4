-- ===== src/Risk/Allocation.antt =====
-- app/risk/allocation.py: ranking candidates and granting them amounts under exposure limits.
pub mod Ranking
pub mod Limits
pub mod Totals
pub mod Decisions
pub mod Tests
use algo_trader.Prelude.{
  String, Bool, ◌&&◌, ◌||◌, List, [], ◌∷◌, ◌++◌, if◌then◌else◌, is_empty, when,
}
use algo_trader.Result.{Result, ok, err}
use algo_trader.Dict.{Dict, get_or, insert}
use algo_trader.Text.{upper}
use algo_trader.Float.{Float, nought, fmin}

pub record AllocationCandidate (F : Type 0) : Type 0 where
  pub symbol : String
  pub strategy_name : String
  pub sector : String
  pub score : F
  pub annualized_volatility_pct : F
  pub correlation_bucket : String
  pub requested_amount_usd : F

pub data Blocker : Type 0 where
  gross_exposure_limit sector_exposure_limit correlated_exposure_limit : Blocker

pub record AllocationDecision (F : Type 0) : Type 0 where
  pub symbol : String
  pub strategy_name : String
  pub amount_usd : F
  pub weight_pct : F
  pub blockers : List Blocker

pub record AllocationLimits (F : Type 0) : Type 0 where
  pub equity : F
  pub gross : F
  pub symbol : F
  pub sector : F
  pub correlation : F
  pub per_trade_cap : F

pub data EquityError : Type 0 where
  equity_not_positive : EquityError

-- What the loop has granted so far.
pub record Used (F : Type 0) : Type 0 where
  pub gross : F
  pub by_sector : Dict F
  pub by_bucket : Dict F

module _ {F : Type 0} ⦃n : Float F⦄ where
  -- The sort key `(score, 1 / volatility)`: is the first candidate's key below the second's?
  abbrev pub key_lt : AllocationCandidate F → AllocationCandidate F → Bool
  key_lt a b =
      n.lt a.score b.score
      || (n.eq a.score b.score
          && n.lt (n.div (n.lit 1 0) a.annualized_volatility_pct)
              (n.div (n.lit 1 0) b.annualized_volatility_pct))

  unfoldable pub insert_ranked :
      AllocationCandidate F → List (AllocationCandidate F) → List (AllocationCandidate F)
  insert_ranked c [] = c ∷ []
  insert_ranked c (d ∷ ds) =
      let later = d ∷ insert_ranked c ds in if key_lt c d then later else c ∷ d ∷ ds

  -- `sorted(candidates, key=..., reverse=True)` on keys that are numbers; it keeps equal keys in their
  -- order.
  unfoldable pub ranked : List (AllocationCandidate F) → List (AllocationCandidate F)
  unfolding insert_ranked
  ranked [] = []
  ranked (c ∷ cs) = insert_ranked c (ranked cs)

  abbrev pub offered : AllocationLimits F → AllocationCandidate F → F
  offered l c = fmin (fmin c.requested_amount_usd l.per_trade_cap) l.symbol

  abbrev pub sector_used : Used F → AllocationCandidate F → F
  sector_used u c = get_or u.by_sector c.sector nought

  abbrev pub bucket_used : Used F → AllocationCandidate F → F
  bucket_used u c = get_or u.by_bucket c.correlation_bucket nought

  unfoldable pub blockers : AllocationLimits F → Used F → AllocationCandidate F → List Blocker
  blockers l u c =
      let amount = offered l c in
      when (n.lt l.gross (n.add u.gross amount)) gross_exposure_limit
      ++ (when (n.lt l.sector (n.add (sector_used u c) amount)) sector_exposure_limit
          ++ when (n.lt l.correlation (n.add (bucket_used u c) amount)) correlated_exposure_limit)

  unfoldable pub accepted : AllocationLimits F → Used F → AllocationCandidate F → F
  accepted l u c = if is_empty (blockers l u c) then offered l c else nought

  -- `if accepted:` adds it to what is used.
  unfoldable pub spend : Used F → AllocationCandidate F → F → Used F
  spend u c amount = if n.eq amount nought then u else record {
    gross = n.add u.gross amount;
    by_sector = insert c.sector (n.add (sector_used u c) amount) u.by_sector;
    by_bucket = insert c.correlation_bucket (n.add (bucket_used u c) amount) u.by_bucket;
  }

  unfoldable pub grant : AllocationLimits F → Used F → AllocationCandidate F → Used F
  unfolding accepted spend
  grant l u c = spend u c (accepted l u c)

  abbrev pub decision : AllocationLimits F → Used F → AllocationCandidate F → AllocationDecision F
  decision l u c = record {
    symbol = upper c.symbol;
    strategy_name = c.strategy_name;
    amount_usd = n.round (accepted l u c) 2;
    weight_pct = n.round (n.mul (n.div (accepted l u c) l.equity) (n.lit 100 0)) 4;
    blockers = blockers l u c;
  }

  -- The loop: the decisions, and what is used at its end.
  unfoldable pub allocate_from :
      AllocationLimits F
      → Used F
      → List (AllocationCandidate F)
      → List (AllocationDecision F) × Used F
  unfolding grant
  allocate_from l u [] = ([], u)
  allocate_from l u (c ∷ cs) =
      let (ds, last) = allocate_from l (grant l u c) cs in (decision l u c ∷ ds, last)

  abbrev pub limits : F → F → F → F → F → F → AllocationLimits F
  limits equity gross_pct symbol_pct sector_pct correlation_pct per_trade_cap =
      let limit = λ (pct : F). n.div (n.mul equity pct) (n.lit 100 0) in
      record {
        equity = equity;
        gross = limit gross_pct;
        symbol = limit symbol_pct;
        sector = limit sector_pct;
        correlation = limit correlation_pct;
        per_trade_cap = per_trade_cap;
      }

  abbrev pub nothing_used : Used F
  nothing_used = record { gross = nought; by_sector = []; by_bucket = [] }

  unfoldable pub allocate_candidates :
      List (AllocationCandidate F)
      → F
      → F
      → F
      → F
      → F
      → F
      → Result EquityError (List (AllocationDecision F))
  unfolding ranked allocate_from
  allocate_candidates cs equity gross_pct symbol_pct sector_pct correlation_pct per_trade_cap =
      let l = limits equity gross_pct symbol_pct sector_pct correlation_pct per_trade_cap in
      if n.le equity nought
      then err equity_not_positive
      else ok (allocate_from l nothing_used (ranked cs)).0

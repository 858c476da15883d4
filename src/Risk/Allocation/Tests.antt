-- ===== src/Risk/Allocation/Tests.antt =====
-- Runs of app/risk/allocation.py on three candidates.
use algo_trader.Prelude.{
  ℕ, ◌*◌, String, ◌≡◌, refl, Bool, true, ◌&&◌, List, [], ◌∷◌, map, arith, str_eq, All,
}
use mathlib.Core.List.{Perm}
use algo_trader.Result.{Result, ok, err}
use algo_trader.Int.{pos, negsuc}
use algo_trader.Float.{◌≼◌, nought}
use algo_trader.Float.Micros.{Micros, micros_float, Micros-IsOrdered}
use algo_trader.Risk.Allocation.{
  AllocationCandidate, blockers, AllocationDecision, AllocationLimits, EquityError, ranked, limits,
  nothing_used, allocate_from, allocate_candidates,
}
use algo_trader.Risk.Allocation.Limits.{LimitsSound, RequestSound, IsWithin, allocate_from-IsWithin}
use algo_trader.Risk.Allocation.Ranking.{IsNotBelow, IsDescending, chosen, ranked-ranks}
use algo_trader.Risk.Allocation.Totals.{total}
use algo_trader.Risk.Allocation.Decisions.{Reports, allocate_candidates-le}

abbrev usd : ℕ → Micros
usd x = pos (x * 1_000_000)

abbrev candidate : String → ℕ → ℕ → AllocationCandidate Micros
candidate symbol score request = record {
  symbol = symbol;
  strategy_name = "trend";
  sector = "technology";
  score = usd score;
  annualized_volatility_pct = usd 20;
  correlation_bucket = "semis";
  requested_amount_usd = usd request;
}

abbrev candidates : List (AllocationCandidate Micros)
candidates = candidate "AMD" 1 400 ∷ candidate "NVDA" 3 700 ∷ candidate "MU" 2 900 ∷ []

-- 10,000 of equity; a sector may hold 12%.
abbrev caps : AllocationLimits Micros
caps = limits (usd 10_000) (usd 50) (usd 10) (usd 12) (usd 30) (usd 800)

caps-LimitsSound : LimitsSound caps
caps-LimitsSound = record {
  gross_nonneg = refl;
  symbol_nonneg = refl;
  sector_nonneg = refl;
  correlation_nonneg = refl;
  per_trade_nonneg = refl;
}

requests_sound : All RequestSound candidates
requests_sound = (refl, (refl, (refl, tt)))

amounts : Result EquityError (List (AllocationDecision Micros)) → List Micros
amounts (err e) = []
amounts (ok ds) = map (λ d. d.amount_usd) ds

-- The second would overdraw the sector, the third fits.
best_first :
    amounts
      (allocate_candidates candidates (usd 10_000) (usd 50) (usd 10) (usd 12) (usd 30) (usd 800))
    ≡ usd 700 ∷ usd 0 ∷ usd 400 ∷ []
unfolding allocate_candidates amounts blockers
best_first = refl

-- The candidates of one key: AMD alone.
abbrev is_amd : AllocationCandidate Micros → Bool
is_amd c = micros_float.eq c.score (usd 1) && micros_float.eq c.annualized_volatility_pct (usd 20)

both : (a b : Bool) → (a && b) ≡ true → (a ≡ true) × (b ≡ true)
both a b h = ground arith

is_equal : (x : Micros) (k : ℕ) → micros_float.eq x (pos k) ≡ true → x ≡ pos k
is_equal (pos n) k e = ground arith
is_equal (negsuc n) k e = ground arith

amd_alike : (a b : AllocationCandidate Micros) → is_amd a ≡ true → is_amd b ≡ true → IsNotBelow a b
amd_alike a b p q =
    let (a_score, a_volatility) = both _ _ p in
    let (b_score, b_volatility) = both _ _ q in
    rw
      (
        is_equal a.score 1_000_000 a_score,
        is_equal b.score 1_000_000 b_score,
        is_equal a.annualized_volatility_pct 20_000_000 a_volatility,
        is_equal b.annualized_volatility_pct 20_000_000 b_volatility,
      )
      (refl, refl)

ranked-ranks_example :
    Perm (ranked candidates) candidates
    × IsDescending (ranked candidates)
    × (chosen is_amd (ranked candidates) ≡ chosen is_amd candidates)
ranked-ranks_example = ranked-ranks Micros-IsOrdered candidates is_amd amd_alike

allocate_from-IsWithin_example : IsWithin caps (allocate_from caps nothing_used candidates).1
allocate_from-IsWithin_example =
    allocate_from-IsWithin Micros-IsOrdered caps nothing_used candidates caps-LimitsSound
      requests_sound
      (record {
        gross = (refl, refl);
        by_sector = λ k. (refl, refl);
        by_bucket = λ k. (refl, refl);
      })

abbrev decisions : List (AllocationDecision Micros)
decisions = (allocate_from caps nothing_used (ranked candidates)).0

allocates :
    allocate_candidates candidates (usd 10_000) (usd 50) (usd 10) (usd 12) (usd 30) (usd 800)
    ≡ ok decisions
unfolding allocate_candidates
allocates = refl

allocate_candidates-le_example :
    (xs : List Micros) × Reports caps (ranked candidates) xs decisions
    × (total (λ _. true) nought (ranked candidates) xs ≼ usd 5_000)
    × ((k : String) → total (λ c. str_eq k c.sector) nought (ranked candidates) xs ≼ usd 1_200)
    × ((k : String)
        → total (λ c. str_eq k c.correlation_bucket) nought (ranked candidates) xs ≼ usd 3_000)
allocate_candidates-le_example =
    allocate_candidates-le Micros-IsOrdered candidates (usd 10_000) (usd 50) (usd 10) (usd 12)
      (usd 30) (usd 800) decisions caps-LimitsSound requests_sound allocates

-- ===== src/Stake/Rebalance.antt =====
-- How delegations are moved towards the target weights
-- (x/liquidstake: types/liquidstake.go, keeper/rebalancing.go).
pub mod Gaps
pub mod Next
pub mod Loop
pub mod Balanced
pub mod Targets
pub mod Reach
pub mod Trace
use pstake_native_test.Base.{
  ℕ, zero, suc, ◌+◌, ◌-◌, ◌*◌, ◌/◌, Bool, true, false, not, ◌&&◌, ◌||◌, Option, none, some, List,
  [], ◌∷◌, length, ltb, leb, ◌==◌, if◌then◌else◌, sum_by, Outcome, ok, err, panic,
}
use pstake_native_test.Base.Int.{ℤ, pos, pos_part, neg_part, ◌-ℤ◌, ltb_ℤ}
use pstake_native_test.Base.Text.{Bytes, same}
use pstake_native_test.Sdk.Dec.{DecOps, of_int, truncate_int}
use pstake_native_test.Stake.Types.{LiquidValidator}

-- A map from addresses, and the map with another value for one of them.
abbrev pub Amounts : Type 0
Amounts = Bytes → ℕ

unfoldable pub assign : Bytes → ℕ → Amounts → Amounts
assign a n m b = if same a b then n else m b

-- The validators with the largest and the smallest gap so far. No validator has an empty address.
pub record Extremes : Type 0 where
  pub max_gap : ℤ
  pub max_val : LiquidValidator
  pub min_gap : ℤ
  pub min_val : LiquidValidator

abbrev pub no_extremes : Extremes
no_extremes = record {
  max_gap = pos 0;
  max_val = record { operator_address = [] };
  min_gap = pos 0;
  min_val = record { operator_address = [] };
}

unfoldable pub gap_of : Amounts → Amounts → LiquidValidator → ℤ
gap_of target tokens v = pos (tokens v.operator_address) -ℤ pos (target v.operator_address)

unfoldable pub raise_max : ℤ → LiquidValidator → Extremes → Extremes
raise_max gap v e = if ltb_ℤ e.max_gap gap then record e { max_gap = gap; max_val = v } else e

unfoldable pub lower_min : ℤ → LiquidValidator → Extremes → Extremes
lower_min gap v e = if ltb_ℤ gap e.min_gap then record e { min_gap = gap; min_val = v } else e

unfoldable pub extremes_from : Amounts → Amounts → List LiquidValidator → Extremes → Extremes
unfolding gap_of raise_max lower_min
extremes_from target tokens [] e = e
extremes_from target tokens (v ∷ vs) e =
    let gap = gap_of target tokens v in
    extremes_from target tokens vs (lower_min gap v (raise_max gap v e))

-- `sdk.MinInt`, and `.Abs()`.
abbrev pub smaller : ℕ → ℕ → ℕ
smaller a b = if ltb a b then a else b

abbrev pub abs : ℤ → ℕ
abs z = pos_part z + neg_part z

pub record MinMaxGap : Type 0 where
  pub min_val : LiquidValidator
  pub max_val : LiquidValidator
  pub amount_needed : ℕ
  pub last_redelegation : Bool

-- The largest gap is never negative.
unfoldable pub min_max_gap : Amounts → Amounts → List LiquidValidator → MinMaxGap
unfolding extremes_from
min_max_gap target tokens vs =
    let e = extremes_from target tokens vs no_extremes in
    let needed = smaller (pos_part e.max_gap) (abs e.min_gap) in
    record {
      min_val = e.min_val;
      max_val = e.max_val;
      amount_needed = needed;
      last_redelegation =
          ltb 0 needed
          && ((target e.max_val.operator_address == 0)
              && (tokens e.max_val.operator_address == needed));
    }

-- What is left over goes to the first validator with a share.
unfoldable pub give_crumb : List LiquidValidator → ℕ → Amounts → Amounts
unfolding assign
give_crumb [] crumb m = m
give_crumb (v ∷ vs) crumb m =
    let rest = give_crumb vs crumb m in
    if ltb 0 (m v.operator_address)
    then assign v.operator_address (m v.operator_address + crumb) m
    else rest

module _ (vals : List LiquidValidator) where
  abbrev pub total_of : Amounts → ℕ
  total_of m = sum_by (λ v. m v.operator_address) vals

  -- The share of each validator, rounded down.
  unfoldable pub target_shares : Amounts → Amounts → Amounts
  target_shares weight tokens a = total_of tokens * weight a / total_of weight

  unfoldable pub target_map : Amounts → Amounts → Amounts
  unfolding target_shares give_crumb
  target_map weight tokens =
      let shares = target_shares weight tokens in
      give_crumb vals (total_of tokens - total_of shares) shares

pub record Redelegation (E : Type 0) : Type 0 where
  pub src_validator : LiquidValidator
  pub dst_validator : LiquidValidator
  pub amount : ℕ
  pub last : Bool
  pub error : Option E

-- The calls of the staking module, for the proxy account as the delegator.
pub record StakingKeeper (E W : Type 0) : Type 0 where
  pub has_receiving_redelegation : Bytes → W → Bool
  pub validate_unbond_amount : Bytes → ℕ → W → Outcome E ℕ
  pub del_shares : Bytes → W → ℕ
  pub begin_redelegation : Bytes → Bytes → ℕ → W → Outcome E W

module _ {E W : Type 0} (transitive_redelegation : E) (sk : StakingKeeper E W) where
  -- The redelegation is made in a cached context, which is written only when it succeeds.
  abbrev pub begin_with : LiquidValidator → LiquidValidator → Bool → W → Outcome E ℕ → Outcome E W
  begin_with src dst last w (ok shares) =
      sk.begin_redelegation src.operator_address dst.operator_address
        (if last then sk.del_shares src.operator_address w else shares) w
  begin_with src dst last w (err e) = err e
  begin_with src dst last w panic = panic

  unfoldable pub try_redelegation : LiquidValidator → LiquidValidator → ℕ → Bool → W → Outcome E W
  try_redelegation src dst amount last w =
      if sk.has_receiving_redelegation src.operator_address w
      then err transitive_redelegation
      else begin_with src dst last w (sk.validate_unbond_amount src.operator_address amount w)

  pub record Rebalancing : Type 0 where
    pub redelegations : List (Redelegation E)
    pub tokens : Amounts
    pub world : W

  abbrev pub moved : MinMaxGap → Amounts → Amounts
  moved g tokens =
      let max = g.max_val.operator_address in
      let min = g.min_val.operator_address in
      let less = assign max (tokens max - g.amount_needed) tokens in
      assign min (less min + g.amount_needed) less

  abbrev pub redelegation_of : MinMaxGap → Option E → Redelegation E
  redelegation_of g error = record {
    src_validator = g.max_val;
    dst_validator = g.min_val;
    amount = g.amount_needed;
    last = g.last_redelegation;
    error = error;
  }

  -- One redelegation recorded before the others.
  abbrev pub recorded : MinMaxGap → Option E → Outcome E Rebalancing → Outcome E Rebalancing
  recorded g error (ok r) =
      ok (record r { redelegations = redelegation_of g error ∷ r.redelegations })
  recorded g error (err e) = err e
  recorded g error panic = panic

  module _ (target : Amounts) (threshold : ℕ) (vals : List LiquidValidator) where
    -- The loop, with the number of rounds that are left; `initial` in the first of them. A failed
    -- redelegation is recorded with its error, and the amounts go on as if it had been made.
    unfoldable pub rebalance_loop : ℕ → Bool → Amounts → W → Outcome E Rebalancing
    unfolding min_max_gap try_redelegation assign
    rebalance_loop zero initial tokens w =
        ok (record { redelegations = []; tokens = tokens; world = w })
    rebalance_loop (suc n) initial tokens w =
        let g = min_max_gap target tokens vals in
        let tried = try_redelegation g.max_val g.min_val g.amount_needed g.last_redelegation w in
        let next = elim tried as (λ _. Outcome E Rebalancing) [
          | ok w' ↦ recorded g none (rebalance_loop n false (moved g tokens) w')
          | err e ↦ recorded g (some e) (rebalance_loop n false (moved g tokens) w)
          | panic ↦ panic
        ] in
        if (g.amount_needed == 0) || (initial && leb g.amount_needed threshold)
        then ok (record { redelegations = []; tokens = tokens; world = w })
        else next

  module _ (dec : DecOps) (weight tokens : Amounts) (trigger : ℕ)
      (vals : List LiquidValidator) where
    -- The trigger's share of all tokens.
    abbrev pub rebalancing_threshold : ℕ
    rebalancing_threshold =
        truncate_int (pos_part (dec.mul (pos trigger) (pos (of_int (total_of vals tokens)))))

    -- `weight` is the map of `GetWeightMap`, and `tokens` that of `TotalLiquidTokens`.
    unfoldable pub rebalance : W → Outcome E Rebalancing
    unfolding rebalance_loop target_map
    rebalance w =
        let none_made = ok (record { redelegations = []; tokens = tokens; world = w }) in
        let threshold = rebalancing_threshold in
        let run =
          rebalance_loop (target_map vals weight tokens) threshold vals (length vals) true tokens
            w in
        if total_of vals tokens == 0
        then none_made
        else if total_of vals weight == 0
        then none_made
        else if total_of vals (target_shares vals weight tokens) == 0
        then none_made
        else run

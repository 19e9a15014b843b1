-- ===== src/Ibc/Keys.antt =====
-- The store keys and the denominations of x/liquidstakeibc/types (keys.go, liquidstakeibc.go).
use pstake_native_test.Base.{
  refl, arith, ◌≡◌, ℕ, ◌++◌, Option, none, some, [], ◌∷◌, ◌==◌, if◌then◌else◌, Bool, true, false,
}
use pstake_native_test.Base.Text.{Bytes, codes}
use pstake_native_test.Base.Decimal.{format_inj, format}

unfoldable pub deposit_key : Bytes → ℕ → Bytes
unfolding format
deposit_key chain_id epoch = chain_id ++ format epoch

unfoldable pub unbonding_key : Bytes → ℕ → Bytes
unfolding format
unbonding_key chain_id epoch = chain_id ++ format epoch

unfoldable pub user_unbonding_key : Bytes → Bytes → ℕ → Bytes
unfolding format
user_unbonding_key chain_id address epoch = chain_id ++ (address ++ format epoch)

unfoldable pub validator_unbonding_key : Bytes → Bytes → ℕ → Bytes
unfolding format
validator_unbonding_key chain_id address epoch = chain_id ++ (address ++ format epoch)

unfoldable pub lsm_deposit_key : Bytes → Bytes → Bytes → Bytes
lsm_deposit_key chain_id address denom = (chain_id ++ address) ++ denom

unfoldable pub redelegation_tx_key : Bytes → Bytes → Bytes
redelegation_tx_key chain_id sequence_id = chain_id ++ sequence_id

-- `GetTransactionSequenceID`
unfoldable pub transaction_sequence_id : Bytes → ℕ → Bytes
unfolding format
transaction_sequence_id channel_id sequence = (channel_id ++ codes "-sequence-") ++ format sequence

-- `strings.CutPrefix`
unfoldable pub cut_prefix : Bytes → Bytes → Option Bytes
cut_prefix s [] = some s
cut_prefix [] (p ∷ ps) = none
cut_prefix (c ∷ cs) (p ∷ ps) = if c == p then cut_prefix cs ps else none

abbrev pub stk_prefix : Bytes
stk_prefix = codes "stk/"

unfoldable pub is_liquid_staking_denom : Bytes → Bool
unfolding cut_prefix
is_liquid_staking_denom denom = elim (cut_prefix denom stk_prefix) [ none ↦ false | some _ ↦ true ]

unfoldable pub mint_denom_to_host_denom : Bytes → Option Bytes
mint_denom_to_host_denom denom = cut_prefix denom stk_prefix

unfoldable pub host_denom_to_mint_denom : Bytes → Bytes
host_denom_to_mint_denom denom = stk_prefix ++ denom

append_cancel : (c a b : Bytes) → (c ++ a) ≡ (c ++ b) → a ≡ b
append_cancel [] a b h = h
append_cancel (x ∷ c) a b h = append_cancel c a b (cc)

-- On one chain the epochs have different keys.
pub deposit_key_inj : (c : Bytes) (m n : ℕ) → deposit_key c m ≡ deposit_key c n → m ≡ n
unfolding deposit_key
deposit_key_inj c m n h = format_inj m n (append_cancel c _ _ h)

pub unbonding_key_inj : (c : Bytes) (m n : ℕ) → unbonding_key c m ≡ unbonding_key c n → m ≡ n
unfolding unbonding_key
unbonding_key_inj c m n h = format_inj m n (append_cancel c _ _ h)

pub cut_prefix-append : (p s : Bytes) → cut_prefix (p ++ s) p ≡ some s
unfolding cut_prefix
cut_prefix-append [] [] = refl
cut_prefix-append [] (c ∷ s) = refl
cut_prefix-append (c ∷ p) s = ground (arith, cut_prefix-append p s)

-- What `cut_prefix` returns, it took from behind the prefix.
pub append-cut_prefix : (s p : Bytes) {r : Bytes} → cut_prefix s p ≡ some r → s ≡ p ++ r
unfolding cut_prefix
append-cut_prefix [] [] h = ground arith
append-cut_prefix (c ∷ s) [] h = ground arith
append-cut_prefix [] (q ∷ p) h = cc
append-cut_prefix (c ∷ s) (q ∷ p) {r} h = ground (arith, append-cut_prefix s p {r = r})

-- ===== src/Ibc/HostChain/Weight.antt =====
-- What a redistribution does to the weights of a host chain.
use pstake_native_test.Base.{
  ℕ, ◌+◌, ◌≡◌, refl, Bool, false, ◌||◌, some, List, [], ◌∷◌, arith, sum_by,
}
use pstake_native_test.Base.Text.{Bytes, same, same_iff, same_refl}
use pstake_native_test.Ibc.Types.{Validator}
use pstake_native_test.Ibc.Strategy.{get_validator, weight_of}
use pstake_native_test.Ibc.HostChain.{put_validator}

-- Is the address one of the validators'?
abbrev pub listed : Bytes → List Validator → Bool
listed a [] = false
listed a (v ∷ vs) = same v.operator_address a || listed a vs

abbrev pub IsDistinct : List Validator → Type 0
IsDistinct [] = Unit
IsDistinct (v ∷ vs) = (listed v.operator_address vs ≡ false) × IsDistinct vs

abbrev pub total_weight : List Validator → ℕ
total_weight vs = sum_by weight_of vs

pub put_total :
    (v w : Validator) (vs : List Validator)
    → get_validator v.operator_address vs ≡ some w
    → total_weight (put_validator v vs) + w.weight ≡ total_weight vs + v.weight
unfolding put_validator get_validator
put_total v w [] h = cc h
put_total v w (x ∷ vs) h = ground (
  arith,
  same_iff x.operator_address v.operator_address,
  same_iff v.operator_address x.operator_address,
  put_total v w vs,
)

pub get-put_self :
    (v : Validator) (vs : List Validator)
    → get_validator v.operator_address (put_validator v vs) ≡ some v
unfolding put_validator get_validator
get-put_self v [] = rw (same_refl v.operator_address) refl
get-put_self v (x ∷ vs) = ground (
  arith,
  same_refl v.operator_address,
  same_iff x.operator_address v.operator_address,
  same_iff v.operator_address x.operator_address,
  get-put_self v vs,
)

pub get-put_other :
    (a : Bytes) (v : Validator) (vs : List Validator)
    → same v.operator_address a ≡ false
    → get_validator a (put_validator v vs) ≡ get_validator a vs
unfolding put_validator get_validator
get-put_other a v [] h = rw h refl
get-put_other a v (x ∷ vs) h = ground (
  arith,
  same_iff v.operator_address x.operator_address,
  same_iff x.operator_address a,
  same_iff v.operator_address a,
  get-put_other a v vs,
)

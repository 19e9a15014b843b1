-- ===== src/Stake/Unstake/Unbonds.antt =====
-- What an unstake takes from the validators.
use pstake_native_test.Base.{
  none, some, some, if◌then◌else◌, refuse, ap, Option, ℕ, ◌+◌, ◌≤◌, ◌≡◌, inl, inr, refl, sym, List,
  [], ◌∷◌, ◌==◌, ◌⊎◌, Bool, true, false, arith, length, Outcome, ok, err, panic, ◌>>=◌, ◌>>◌,
  Bool-cases, ◌&&◌,
}
use pstake_native_test.Base.Text.{Bytes}
use pstake_native_test.Sdk.Coin.{Coin}
use pstake_native_test.Sdk.Dec.{truncate_int}
use pstake_native_test.Stake.Types.{LiquidValidator}
use pstake_native_test.Stake.Unstake.{
  UnstakeKeeper, UnstakeError, Progress, advance, liquid_unbond, unbond_each, leave_pool,
  panic_on_error, is_bonded, max_unbonding_delegation_entries,
}

-- `tokens` is what the validators hold. An unbonding takes from it what it returns, which is no more
-- than the amount that its shares were validated for; the transfer and the queue leave it alone.
pub record UnbondLaws {W U : Type 0} (k : UnstakeKeeper W U) (tokens : W → ℕ) : Type 0 where
  pub unbond_takes :
      (proxy v : Bytes) (shares n : ℕ) (w w' : W)
      → k.unbond proxy v shares w ≡ ok (n, w')
      → tokens w' + n ≡ tokens w
  pub unbond_within :
      (proxy v : Bytes) (a shares n : ℕ) (w w' : W)
      → k.validate_unbond_amount proxy v a w ≡ ok shares
      → k.unbond proxy v shares w ≡ ok (n, w')
      → n ≤ a
  pub transfer_keeps :
      (c : Coin) (w w' : W) → k.send_to_not_bonded c w ≡ ok w' → tokens w' ≡ tokens w
  pub queue_keeps :
      (staker v : Bytes) (t n : ℕ) (w : W) → tokens (k.queue staker v t n w).1 ≡ tokens w

module _ {W U : Type 0} (k : UnstakeKeeper W U) (tokens : W → ℕ) (proxy staker : Bytes) where
  -- How an unbonding ends: what it returns is taken from the validators' tokens.
  abbrev pub Takes : Bytes → ℕ → W → Outcome UnstakeError (ℕ × ℕ × U × W) → Type 0
  Takes v shares w (ok r) =
      (tokens r.3 + r.1 ≡ tokens w) × ((w' : W) × (k.unbond proxy v shares w ≡ ok (r.1, w')))
  Takes v shares w (err e) = Unit
  Takes v shares w panic = Unit

  module _ (laws : UnbondLaws k tokens) where
    queued-Takes :
        (v : Bytes) (shares n : ℕ) (w w1 : W) (r : Outcome UnstakeError W)
        → k.unbond proxy v shares w ≡ ok (n, w1)
        → ((w2 : W) → r ≡ ok w2 → tokens w2 ≡ tokens w1)
        → Takes v shares w (
            r >>= λ w2. ok (
              k.completion_time w2,
              n,
              (k.queue staker v (k.completion_time w2) n w2).0,
              (k.queue staker v (k.completion_time w2) n w2).1,
            ))
    queued-Takes v shares n w w1 (ok w2) e h = (
      omega (
        arith,
        laws.queue_keeps staker v (k.completion_time w2) n w2,
        h w2 refl,
        laws.unbond_takes proxy v shares n w w1 e,
      ),
      (w1, e),
    )
    queued-Takes v shares n w w1 (err x) e h = tt
    queued-Takes v shares n w w1 panic e h = tt

    -- A transfer that returns did not fail.
    error_free : (r : Outcome UnstakeError W) (w : W) → panic_on_error r ≡ ok w → r ≡ ok w
    error_free (ok w') w h = h
    error_free (err e) w h = cc h
    error_free panic w h = h

    ok_or : W → Outcome UnstakeError W → W
    ok_or w (ok w') = w'
    ok_or w (err e) = w
    ok_or w panic = w

    pool-Takes :
        (v : Bytes) (bonded : Bool) (shares n : ℕ) (w w1 : W)
        → k.unbond proxy v shares w ≡ ok (n, w1)
        → Takes v shares w (
            leave_pool k proxy staker bonded n w1 >>= λ w2. ok (
              k.completion_time w2,
              n,
              (k.queue staker v (k.completion_time w2) n w2).0,
              (k.queue staker v (k.completion_time w2) n w2).1,
            ))
    unfolding leave_pool ok_or
    pool-Takes v true shares n w w1 e =
        queued-Takes v shares n w w1 _ e (λ w2 h. laws.transfer_keeps _ w1 w2 (error_free _ w2 h))
    pool-Takes v false shares n w w1 e =
        queued-Takes v shares n w w1 (ok w1) e (λ w2 h. sym (ap (λ r. tokens (ok_or w1 r)) h))

    unbond-Takes :
        (v : Bytes) (bonded : Bool) (shares : ℕ) (w : W) (r : Outcome UnstakeError (ℕ × W))
        → k.unbond proxy v shares w ≡ r
        → Takes v shares w (
            r >>= λ x. leave_pool k proxy staker bonded x.0 x.1 >>= λ w2. ok (
              k.completion_time w2,
              x.0,
              (k.queue staker v (k.completion_time w2) x.0 w2).0,
              (k.queue staker v (k.completion_time w2) x.0 w2).1,
            ))
    unbond-Takes v bonded shares w (ok x) e = pool-Takes v bonded shares x.0 w x.1 e
    unbond-Takes v bonded shares w (err x) e = tt
    unbond-Takes v bonded shares w panic e = tt

    after_checks :
        (v : Bytes) (shares : ℕ) (full : Bool) (w : W) (found : Option Bool)
        → Takes v shares w (
            is_bonded k proxy staker found >>= λ bonded.
            refuse full max_unbonding_delegation_entries
            >> (k.unbond proxy v shares w >>= λ r.
                leave_pool k proxy staker bonded r.0 r.1 >>= λ w2. ok (
                  k.completion_time w2,
                  r.0,
                  (k.queue staker v (k.completion_time w2) r.0 w2).0,
                  (k.queue staker v (k.completion_time w2) r.0 w2).1,
                )))
    after_checks v shares full w none = tt
    after_checks v shares true w (some bonded) = tt
    after_checks v shares false w (some bonded) = unbond-Takes v bonded shares w _ refl

    liquid_unbond-Takes :
        (v : Bytes) (shares : ℕ) (check : Bool) (w : W)
        → Takes v shares w (liquid_unbond k proxy staker v shares check w)
    unfolding liquid_unbond
    liquid_unbond-Takes v shares check w =
        after_checks v shares (check && k.has_max_entries w staker v) w (k.validator w v)

-- The whole tokens of the amounts.
abbrev pub whole_total : List ℕ → ℕ
whole_total [] = 0
whole_total (a ∷ os) = truncate_int a + whole_total os

module _ {W U : Type 0} (k : UnstakeKeeper W U) (tokens : W → ℕ) (proxy staker : Bytes) where
  -- A call of the loop that ended without a result.
  abbrev pub Fails : Outcome UnstakeError ℕ → Outcome UnstakeError (ℕ × ℕ × U × W) → Type 0
  Fails a b =
      ((v : Bytes) × (n : ℕ) × (w : W) × (k.validate_unbond_amount proxy v n w ≡ a))
      ⊎ ((v : Bytes) × (shares : ℕ) × (w : W) × (liquid_unbond k proxy staker v shares true w ≡ b))

  -- How unbonding at most `n` ends, after some progress: what is added to the total is taken from
  -- the validators' tokens and at most `n`, or a validation or an unbonding failed.
  abbrev pub Unbonds : ℕ → Progress U → W → Outcome UnstakeError (Progress U × W) → Type 0
  Unbonds n p w (ok r) = (tokens r.1 + r.0.total ≡ tokens w + p.total) × (r.0.total ≤ p.total + n)
  Unbonds n p w (err e) = Fails (err e) (err e)
  Unbonds n p w panic = Fails panic panic

  Unbonds-later :
      (n m i : ℕ) (p p' : Progress U) (w w' : W) (r : Outcome UnstakeError (Progress U × W))
      → tokens w' + i ≡ tokens w
      → p'.total ≡ p.total + i
      → i ≤ m
      → Unbonds n p' w' r
      → Unbonds (m + n) p w r
  Unbonds-later n m i p p' w w' (ok r) a b c h =
      (omega (arith, a, b, h.0), omega (arith, b, c, h.1))
  Unbonds-later n m i p p' w w' (err x) a b c h = h
  Unbonds-later n m i p p' w w' panic a b c h = h

  module _ (laws : UnbondLaws k tokens) where
    unbonded-Unbonds :
        (v : Bytes) (n m shares : ℕ) (p : Progress U) (w : W)
        (r : Outcome UnstakeError (ℕ × ℕ × U × W))
        (f : ℕ × ℕ × U × W → Outcome UnstakeError (Progress U × W))
        → k.validate_unbond_amount proxy v m w ≡ ok shares
        → liquid_unbond k proxy staker v shares true w ≡ r
        → Takes k tokens proxy staker v shares w r
        → ((x : ℕ × ℕ × U × W) → Unbonds n (advance x.0 x.1 x.2 p) x.3 (f x))
        → Unbonds (m + n) p w (r >>= f)
    unbonded-Unbonds v n m shares p w (ok x) f valid e takes ih =
        Unbonds-later n m x.1 p (advance x.0 x.1 x.2 p) w x.3 (f x) takes.0 refl
          (laws.unbond_within proxy v m shares x.1 w takes.1.0 valid takes.1.1) (ih x)
    unbonded-Unbonds v n m shares p w (err y) f valid e takes ih = inr (v, shares, w, e)
    unbonded-Unbonds v n m shares p w panic f valid e takes ih = inr (v, shares, w, e)

    validated-Unbonds :
        (v : Bytes) (n m : ℕ) (p : Progress U) (w : W) (r : Outcome UnstakeError ℕ)
        (skipped : Outcome UnstakeError (Progress U × W))
        (f : ℕ × ℕ × U × W → Outcome UnstakeError (Progress U × W))
        → k.validate_unbond_amount proxy v m w ≡ r
        → Unbonds n p w skipped
        → ((x : ℕ × ℕ × U × W) → Unbonds n (advance x.0 x.1 x.2 p) x.3 (f x))
        → Unbonds (m + n) p w (
            r >>= λ shares.
            if shares == 0 then skipped else liquid_unbond k proxy staker v shares true w >>= f)
    validated-Unbonds v n m p w (ok shares) skipped f valid skip ih =
        elim (Bool-cases (shares == 0)) [
          | inl b ↦
              rw b
                (Unbonds-later n m 0 p p w w skipped (omega arith) (omega arith) (omega arith) skip)
          | inr b ↦ rw b (
              unbonded-Unbonds v n m shares p w _ f valid refl
                (liquid_unbond-Takes k tokens proxy staker laws v shares true w) ih)
        ]
    validated-Unbonds v n m p w (err y) skipped f valid skip ih = inl (v, m, w, valid)
    validated-Unbonds v n m p w panic skipped f valid skip ih = inl (v, m, w, valid)

    -- With an amount for each validator, the loop of LiquidUnstake adds to the total exactly what it
    -- takes from the validators' tokens, and no more than the whole tokens of the amounts, or it
    -- ends as a validation or an unbonding that failed.
    pub unbond_each-Unbonds :
        (vs : List LiquidValidator) (amounts : List ℕ) (p : Progress U) (w : W)
        → length amounts ≡ length vs
        → Unbonds (whole_total amounts) p w (unbond_each k proxy staker vs amounts p w)
    unfolding unbond_each
    unbond_each-Unbonds [] [] p w h = (refl, omega arith)
    unbond_each-Unbonds [] (a ∷ os) p w h = ground arith
    unbond_each-Unbonds (v ∷ vs) [] p w h = ground arith
    unbond_each-Unbonds (v ∷ vs) (a ∷ os) p w h =
        let skip = unbond_each-Unbonds vs os p w (omega arith) in
        elim (Bool-cases (a == 0)) [
          | inl b ↦ rw b (
              Unbonds-later (whole_total os) (truncate_int a) 0 p p w w _ (omega arith)
                (omega arith) (omega arith) skip)
          | inr b ↦ rw b (
              validated-Unbonds v.operator_address (whole_total os) (truncate_int a) p w _ _ _ refl
                skip (λ x. unbond_each-Unbonds vs os (advance x.0 x.1 x.2 p) x.3 (omega arith)))
        ]

-- ===== src/Ibc/Redelegation/Entry.antt =====
-- An added entry is recorded once, and no pair of validators has two records.
use pstake_native_test.Base.{
  ℕ, ◌+◌, ◌≡◌, refl, ◌∙◌, ap, true, false, ◌||◌, Option, none, some, List, [], ◌∷◌, ◌++◌, map,
  arith, length, length-append, sum_by, sum_by-append, if◌then◌else◌, Option-cases, Bool-cases, inl,
  inr,
}
use pstake_native_test.Base.Text.{Bytes, same_iff}
use pstake_native_test.Sdk.Store.{KvStore, StoreLaws}
use pstake_native_test.Sdk.Store.Content.{lookup, lookup-insert_self}
use pstake_native_test.Ibc.Redelegation.{
  Redelegation, BeginRedelegate, Redelegations, matches, any_matches, with_entry, add_entry,
  new_redelegation, get_redelegations, set_redelegations, add_redelegation_entry,
}

abbrev pub key_of_redelegation : Redelegation → BeginRedelegate
key_of_redelegation r = record { delegator = r.delegator; src = r.src; dst = r.dst }

-- No two records for the same delegator and validators.
abbrev pub IsDistinct : List Redelegation → Type 0
IsDistinct [] = Unit
IsDistinct (r ∷ rs) = (any_matches (key_of_redelegation r) rs ≡ false) × IsDistinct rs

abbrev pub entry_count : List Redelegation → ℕ
entry_count rs = sum_by (λ r. length r.times) rs

-- What a chain has on record.
abbrev pub held : Option Redelegations → List Redelegation
held none = []
held (some r) = r.redelegations

matches-with_entry :
    (m n : BeginRedelegate) (time : ℕ) (r : Redelegation)
    → matches n (with_entry m time r) ≡ matches n r
matches-with_entry m n time r = ground arith

any_matches-map :
    (m n : BeginRedelegate) (time : ℕ) (rs : List Redelegation)
    → any_matches n (map (with_entry m time) rs) ≡ any_matches n rs
any_matches-map m n time [] = refl
any_matches-map m n time (r ∷ rs) =
    rw (matches-with_entry m n time r, any_matches-map m n time rs) refl

any_matches-append :
    (n : BeginRedelegate) (rs ss : List Redelegation)
    → any_matches n (rs ++ ss) ≡ (any_matches n rs || any_matches n ss)
any_matches-append n [] ss = refl
any_matches-append n (r ∷ rs) ss = ground (arith, any_matches-append n rs ss)

key_with_entry :
    (m n : BeginRedelegate) (time : ℕ) (r : Redelegation)
    → key_of_redelegation (with_entry m time r) ≡ key_of_redelegation r
key_with_entry m n time r = ground arith

IsDistinct-map :
    (m : BeginRedelegate) (time : ℕ) (rs : List Redelegation)
    → IsDistinct rs
    → IsDistinct (map (with_entry m time) rs)
IsDistinct-map m time [] h = tt
IsDistinct-map m time (r ∷ rs) (h, hs) = (
  rw (key_with_entry m m time r) (any_matches-map m (key_of_redelegation r) time rs ∙ h),
  IsDistinct-map m time rs hs,
)

-- A match is by the key.
matches_key :
    (m : BeginRedelegate) (r : Redelegation) → matches m r ≡ true → m ≡ key_of_redelegation r
matches_key m r h =
    ground (arith, same_iff r.delegator m.delegator, same_iff r.src m.src, same_iff r.dst m.dst)

matches_sym :
    (m : BeginRedelegate) (time : ℕ) (r : Redelegation)
    → matches (key_of_redelegation r) (new_redelegation m time) ≡ matches m r
matches_sym m time r = ground (
  arith,
  same_iff r.delegator m.delegator,
  same_iff r.src m.src,
  same_iff r.dst m.dst,
  same_iff m.delegator r.delegator,
  same_iff m.src r.src,
  same_iff m.dst r.dst,
)

IsDistinct-snoc :
    (m : BeginRedelegate) (time : ℕ) (rs : List Redelegation)
    → any_matches m rs ≡ false
    → IsDistinct rs
    → IsDistinct (rs ++ (new_redelegation m time ∷ []))
IsDistinct-snoc m time [] free h = (refl, tt)
IsDistinct-snoc m time (r ∷ rs) free (h, hs) = (
  any_matches-append (key_of_redelegation r) rs (new_redelegation m time ∷ [])
      ∙ ground (arith, matches_sym m time r),
  IsDistinct-snoc m time rs (ground arith) hs,
)

count_none :
    (m : BeginRedelegate) (time : ℕ) (rs : List Redelegation)
    → any_matches m rs ≡ false
    → entry_count (map (with_entry m time) rs) ≡ entry_count rs
count_none m time [] h = refl
count_none m time (r ∷ rs) h = ground (arith, count_none m time rs)

count_with_entry :
    (m : BeginRedelegate) (time : ℕ) (r : Redelegation)
    → length (with_entry m time r).times
      ≡ (if matches m r then length r.times + 1 else length r.times)
count_with_entry m time r = ground (arith, length-append r.times (time ∷ []))

count_one :
    (m : BeginRedelegate) (time : ℕ) (rs : List Redelegation)
    → IsDistinct rs
    → any_matches m rs ≡ true
    → entry_count (map (with_entry m time) rs) ≡ entry_count rs + 1
count_one m time [] d h = cc h
count_one m time (r ∷ rs) (d, ds) h = elim (Bool-cases (matches m r)) [
  | inl b ↦
      let none_left : any_matches m rs ≡ false = rw (matches_key m r b) d in
      omega (
        arith,
        count_none m time rs none_left,
        count_with_entry m time r,
        ap (λ c. if c then length r.times + 1 else length r.times) b,
      )
  | inr b ↦ omega (
    arith,
    count_one m time rs ds (ground arith),
    count_with_entry m time r,
    ap (λ c. if c then length r.times + 1 else length r.times) b,
  )
]

add_entry-IsDistinct :
    (m : BeginRedelegate) (time : ℕ) (rs : List Redelegation)
    → IsDistinct rs
    → IsDistinct (add_entry m time rs) × (entry_count (add_entry m time rs) ≡ entry_count rs + 1)
unfolding add_entry
add_entry-IsDistinct m time rs d = elim (Bool-cases (any_matches m rs)) [
  | inl b ↦ rw b (IsDistinct-map m time rs d, count_one m time rs d b)
  | inr b ↦ rw b (
    IsDistinct-snoc m time (map (with_entry m time) rs) (any_matches-map m m time rs ∙ b)
        (IsDistinct-map m time rs d),
    omega (
      arith,
      sum_by-append (λ r. length r.times) (map (with_entry m time) rs)
          (new_redelegation m time ∷ []),
      count_none m time rs b,
    ),
  )
]

module _ (kv : KvStore Redelegations) (laws : StoreLaws kv) where
  open kv use {Store, get, set}

  get-set_redelegations :
      (chain_id : Bytes) (rs : List Redelegation) (s : Store)
      → get_redelegations kv chain_id (set_redelegations kv chain_id rs s)
        ≡ some (record { chain_id = chain_id; redelegations = rs })
  unfolding get_redelegations set_redelegations
  get-set_redelegations c rs s =
      laws.get-entries c _ ∙ ap (lookup c) (laws.entries-set c _ s) ∙ lookup-insert_self c _ _

  entry_none :
      (c : Bytes) (m : BeginRedelegate) (time : ℕ) (s : Store)
      → get_redelegations kv c s ≡ none
      → add_redelegation_entry kv c m time s
        ≡ set_redelegations kv c (new_redelegation m time ∷ []) s
  unfolding add_redelegation_entry get_redelegations
  entry_none c m time s h = cc h

  entry_some :
      (c : Bytes) (m : BeginRedelegate) (time : ℕ) (s : Store) (r : Redelegations)
      → get_redelegations kv c s ≡ some r
      → add_redelegation_entry kv c m time s
        ≡ set_redelegations kv c (add_entry m time r.redelegations) s
  unfolding add_redelegation_entry get_redelegations
  entry_some c m time s r h = cc h

  held_after :
      (c : Bytes) (m : BeginRedelegate) (time : ℕ) (s : Store)
      → held (get_redelegations kv c (add_redelegation_entry kv c m time s))
        ≡ add_entry m time (held (get_redelegations kv c s))
  unfolding add_entry
  held_after c m time s = elim (Option-cases (get_redelegations kv c s)) [
    | inl e ↦ rw (entry_none c m time s e, e) (ap held (get-set_redelegations c _ s))
    | inr (r, e) ↦ rw (entry_some c m time s r e, e) (ap held (get-set_redelegations c _ s))
  ]

  -- When a chain has at most one record for a delegator and a pair of validators, adding an entry
  -- keeps it so, and the chain has one entry more than before.
  pub add_redelegation_entry-IsDistinct :
      (chain_id : Bytes) (m : BeginRedelegate) (time : ℕ) (s : Store)
      → IsDistinct (held (get_redelegations kv chain_id s))
      → IsDistinct
          (held (get_redelegations kv chain_id (add_redelegation_entry kv chain_id m time s)))
        × (entry_count
              (held (get_redelegations kv chain_id (add_redelegation_entry kv chain_id m time s)))
            ≡ entry_count (held (get_redelegations kv chain_id s)) + 1)
  add_redelegation_entry-IsDistinct c m time s d =
      rw (held_after c m time s) (add_entry-IsDistinct m time _ d)

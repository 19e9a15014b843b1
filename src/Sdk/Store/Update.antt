-- ===== src/Sdk/Store/Update.antt =====
-- Loops over records that a filter has picked from a store, which put each back, changed, or delete
-- it: on a sorted store they are the pointwise update, and the removal, of the picked entries.
use pstake_native_test.Base.{
  some, sym, sym, ◌∙◌, ap, ◌≡◌, refl, Bool, true, false, List, [], ◌∷◌, arith, if◌then◌else◌,
  select, All, inl, inr, Bool-cases,
}
use pstake_native_test.Base.Text.{Bytes, same, less, same_iff, less_irrefl, less_trans}
use pstake_native_test.Sdk.Store.{StoreLaws, KvStore}
use pstake_native_test.Sdk.Store.Content.{
  insert-IsSorted, Entries, values, insert, erase, Above, IsSorted, lookup,
}

module _ {V : Type 0} (key : V → Bytes) where
  -- The store is sorted, and every record stands under its own key.
  abbrev pub IsKeyed : Entries V → Type 0
  IsKeyed es = IsSorted es × All (λ e. e.0 ≡ key e.1) es

module _ {V : Type 0} (kv : KvStore V) (key : V → Bytes) where
  -- `for _, v := range vs { change(v); store.Set(key(v), v) }`
  unfoldable pub set_each : (V → V) → List V → kv.Store → kv.Store
  set_each change [] s = s
  set_each change (v ∷ vs) s = set_each change vs (kv.set (key (change v)) (change v) s)

  -- `for _, v := range vs { store.Delete(key(v)) }`
  unfoldable pub delete_each : List V → kv.Store → kv.Store
  delete_each [] s = s
  delete_each (v ∷ vs) s = delete_each vs (kv.delete (key v) s)

module _ {V : Type 0} where
  -- The records that pass the test are changed where they stand.
  abbrev pub update_where : (V → Bool) → (V → V) → Entries V → Entries V
  update_where p g [] = []
  update_where p g (e ∷ es) = (e.0, if p e.1 then g e.1 else e.1) ∷ update_where p g es

  -- The records that pass the test are left out.
  abbrev pub remove_where : (V → Bool) → Entries V → Entries V
  remove_where p [] = []
  remove_where p (e ∷ es) = if p e.1 then remove_where p es else e ∷ remove_where p es

module _ {V : Type 0} (key : V → Bytes) where
  insert_each : (V → V) → List V → Entries V → Entries V
  insert_each g [] es = es
  insert_each g (v ∷ vs) es = insert_each g vs (insert (key (g v)) (g v) es)

  erase_each : List V → Entries V → Entries V
  erase_each [] es = es
  erase_each (v ∷ vs) es = erase_each vs (erase (key v) es)

  pub Above-select :
      (p : V → Bool) (k : Bytes) (es : Entries V)
      → Above k es
      → All (λ e. e.0 ≡ key e.1) es
      → All (λ v. less k (key v) ≡ true) (select p (values es))
  Above-select p k [] a h = tt
  Above-select p k (e ∷ es) a h = ground (arith, Above-select p k es a.1 h.1)

  less_not_same : (j k : Bytes) → less j k ≡ true → (same j k ≡ false) × (less k j ≡ false)
  less_not_same j k h =
      (ground (arith, same_iff j k, less_irrefl k), ground (arith, less_trans j k j, less_irrefl j))

  insert_past :
      (k : Bytes) (v : V) (e : Bytes × V) (es : Entries V)
      → less e.0 k ≡ true
      → insert k v (e ∷ es) ≡ e ∷ insert k v es
  unfolding insert
  insert_past k v e es h = rw ((less_not_same e.0 k h).0, (less_not_same e.0 k h).1)

  insert_same :
      (k : Bytes) (v : V) (e : Bytes × V) (es : Entries V)
      → e.0 ≡ k
      → insert k v (e ∷ es) ≡ (e.0, v) ∷ es
  unfolding insert
  insert_same k v e es h = ground (arith, same_iff e.0 k)

  erase_same : (k : Bytes) (e : Bytes × V) (es : Entries V) → e.0 ≡ k → erase k (e ∷ es) ≡ es
  unfolding erase
  erase_same k e es h = ground (arith, same_iff e.0 k)

  insert_each-cons :
      (g : V → V) (vs : List V) (e : Bytes × V) (es : Entries V)
      → ((v : V) → key (g v) ≡ key v)
      → All (λ v. less e.0 (key v) ≡ true) vs
      → insert_each g vs (e ∷ es) ≡ e ∷ insert_each g vs es
  unfolding insert_each
  insert_each-cons g [] e es keeps h = refl
  insert_each-cons g (v ∷ vs) e es keeps h =
      rw (insert_past (key (g v)) (g v) e es (rw (keeps v) (h.0)))
        (insert_each-cons g vs e _ keeps h.1)

  erase_each-cons :
      (vs : List V) (e : Bytes × V) (es : Entries V)
      → All (λ v. less e.0 (key v) ≡ true) vs
      → erase_each vs (e ∷ es) ≡ e ∷ erase_each vs es
  unfolding erase_each erase
  erase_each-cons [] e es h = refl
  erase_each-cons (v ∷ vs) e es h =
      rw ((less_not_same e.0 (key v) h.0).0) (erase_each-cons vs e _ h.1)

  insert_each-select :
      (g : V → V) (p : V → Bool) (es : Entries V)
      → ((v : V) → key (g v) ≡ key v)
      → IsKeyed key es
      → insert_each g (select p (values es)) es ≡ update_where p g es
  unfolding insert_each insert
  insert_each-select g p [] keeps h = refl
  insert_each-select g p (e ∷ es) keeps ((a, s), (h, hs)) =
      let above = Above-select p e.0 es a hs in
      let ih = insert_each-select g p es keeps (s, hs) in
      elim (Bool-cases (p e.1)) [
        | inl b ↦ rw b (
            ap (insert_each g (select p (values es)))
              (insert_same (key (g e.1)) (g e.1) e es (h ∙ sym (keeps e.1)))
            ∙ insert_each-cons g _ (e.0, g e.1) es keeps above
            ∙ ap (◌∷◌ (e.0, g e.1)) ih)
        | inr b ↦ rw (b, insert_each-cons g _ e es keeps above, ih)
      ]

  erase_each-select :
      (p : V → Bool) (es : Entries V)
      → IsKeyed key es
      → erase_each (select p (values es)) es ≡ remove_where p es
  unfolding erase_each erase
  erase_each-select p [] h = refl
  erase_each-select p (e ∷ es) ((a, s), (h, hs)) =
      let above = Above-select p e.0 es a hs in
      let ih = erase_each-select p es (s, hs) in
      elim (Bool-cases (p e.1)) [
        | inl b ↦ rw b (ap (erase_each (select p (values es))) (erase_same (key e.1) e es h) ∙ ih)
        | inr b ↦ rw (b, erase_each-cons _ e es above, ih)
      ]

module _ {V : Type 0} (key : V → Bytes) where
  pub lookup-IsKeyed :
      (k : Bytes) (v : V) (es : Entries V)
      → All (λ e. e.0 ≡ key e.1) es
      → lookup k es ≡ some v
      → key v ≡ k
  unfolding lookup
  lookup-IsKeyed k v [] h e = cc
  lookup-IsKeyed k v (e ∷ es) (h, hs) found =
      ground (arith, same_iff e.0 k, lookup-IsKeyed k v es hs)

  All-insert :
      (k : Bytes) (v : V) (es : Entries V)
      → key v ≡ k
      → All (λ e. e.0 ≡ key e.1) es
      → All (λ e. e.0 ≡ key e.1) (insert k v es)
  unfolding insert
  All-insert k v [] e h = (sym e, tt)
  All-insert k v (e ∷ es) eq (h, hs) =
      ground (arith, same_iff e.0 k, All-insert k v es eq hs, sym eq)

  pub insert-IsKeyed :
      (k : Bytes) (v : V) (es : Entries V)
      → key v ≡ k
      → IsKeyed key es
      → IsKeyed key (insert k v es)
  insert-IsKeyed k v es e (s, h) = (insert-IsSorted k v es s, All-insert k v es e h)

module _ {V : Type 0} (key : V → Bytes) (p : V → Bool) (g : V → V)
    (keeps : (v : V) → key (g v) ≡ key v) where
  Above-update : (k : Bytes) (es : Entries V) → Above k es → Above k (update_where p g es)
  Above-update k [] h = tt
  Above-update k (e ∷ es) (h, hs) = (h, Above-update k es hs)

  IsSorted-update : (es : Entries V) → IsSorted es → IsSorted (update_where p g es)
  IsSorted-update [] h = tt
  IsSorted-update (e ∷ es) (h, hs) = (Above-update e.0 es h, IsSorted-update es hs)

  All-update :
      (es : Entries V)
      → All (λ e. e.0 ≡ key e.1) es
      → All (λ e. e.0 ≡ key e.1) (update_where p g es)
  All-update [] h = tt
  All-update (e ∷ es) (h, hs) = (ground (arith, keeps e.1), All-update es hs)

  pub update-IsKeyed : (es : Entries V) → IsKeyed key es → IsKeyed key (update_where p g es)
  update-IsKeyed es (s, h) = (IsSorted-update es s, All-update es h)

-- A change after which the test fails is made once.
pub update_twice :
    {V : Type 0} (p : V → Bool) (g : V → V) (es : Entries V)
    → ((v : V) → p (g v) ≡ false)
    → update_where p g (update_where p g es) ≡ update_where p g es
update_twice p g [] h = refl
update_twice p g (e ∷ es) h = ground (arith, h e.1, update_twice p g es h)

module _ {V : Type 0} (kv : KvStore V) (laws : StoreLaws kv) (key : V → Bytes) where
  open kv use {Store, entries}
  open laws use {entries-set, entries-delete}

  entries-set_each :
      (g : V → V) (vs : List V) (s : Store)
      → entries (set_each kv key g vs s) ≡ insert_each key g vs (entries s)
  unfolding set_each insert_each
  entries-set_each g [] s = refl
  entries-set_each g (v ∷ vs) s =
      entries-set_each g vs _ ∙ ap (insert_each key g vs) (entries-set (key (g v)) (g v) s)

  entries-delete_each :
      (vs : List V) (s : Store) → entries (delete_each kv key vs s) ≡ erase_each key vs (entries s)
  unfolding delete_each erase_each
  entries-delete_each [] s = refl
  entries-delete_each (v ∷ vs) s =
      entries-delete_each vs _ ∙ ap (erase_each key vs) (entries-delete (key v) s)

  -- Putting back the picked records, changed, changes those entries and nothing else.
  pub set_each-select :
      (g : V → V) (p : V → Bool) (s : Store)
      → ((v : V) → key (g v) ≡ key v)
      → IsKeyed key (entries s)
      → entries (set_each kv key g (select p (values (entries s))) s) ≡ update_where p g (entries s)
  set_each-select g p s keeps h =
      entries-set_each g _ s ∙ insert_each-select key g p (entries s) keeps h

  -- Deleting the picked records removes those entries and nothing else.
  pub delete_each-select :
      (p : V → Bool) (s : Store)
      → IsKeyed key (entries s)
      → entries (delete_each kv key (select p (values (entries s))) s) ≡ remove_where p (entries s)
  delete_each-select p s h = entries-delete_each _ s ∙ erase_each-select key p (entries s) h

-- Changes that agree on every record.
pub update_where-agrees :
    {V : Type 0} (p : V → Bool) (g h : V → V) (es : Entries V)
    → ((v : V) → g v ≡ h v)
    → update_where p g es ≡ update_where p h es
update_where-agrees p g h [] e = refl
update_where-agrees p g h (x ∷ es) e = rw (e x.1, update_where-agrees p g h es e) refl

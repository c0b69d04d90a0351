-- ===== src/Utils/HashTable.antt =====
-- The wrappers of utils/utils.cpp around hsearch_r, over what its manual says of it.
use cherokee.Base.{
  Bool, true, false, List, [], ◌∷◌, Option, none, some, ◌≡◌, ◌≢◌, refl, subst, ap, ◌∙◌, inl, inr,
  Bool-cases, Option-cases, if◌then◌else◌,
}
use cherokee.Text.{Bytes, equal, equal_sound, equal_self}

-- ENTER and FIND of hsearch_r on tables `T`. A null pointer, for 0, is `none`.
pub record HSearch (T : Type 0) : Type 0 where
  pub enter : T → Bytes → Bytes → Option Bytes × T  -- the data of the entry
  pub lookup : T → Bytes → Option Bytes
  -- an entry that is there is returned, and left as it is
  pub enter_old :
      (t : T) (k v w : Bytes)
      → lookup t k ≡ some w
      → ((enter t k v).0 ≡ some w) × ((j : Bytes) → lookup (enter t k v).1 j ≡ lookup t j)
  -- a new one can be found, and others are not affected
  pub enter_new :
      (t : T) (k v w : Bytes)
      → lookup t k ≡ none
      → (enter t k v).0 ≡ some w
      → (lookup (enter t k v).1 k ≡ some v)
        × ((j : Bytes) → j ≢ k → lookup (enter t k v).1 j ≡ lookup t j)
  -- a full table takes no new entry
  pub enter_full :
      (t : T) (k v : Bytes)
      → (enter t k v).0 ≡ none
      → (j : Bytes) → lookup (enter t k v).1 j ≡ lookup t j

abbrev pub is_found : Option Bytes → Bool
is_found none = false
is_found (some v) = true

module _ {T : Type 0} (h : HSearch T) where
  unfoldable pub insert_into_hash_table : T → Bytes → Bytes → Bool × T
  insert_into_hash_table t key value = let (e, t') = h.enter t key value in (is_found e, t')

  unfoldable pub find_in_hash_table : T → Bytes → Option Bytes
  find_in_hash_table t key = h.lookup t key

  -- Insertions one after the other, with their results.
  unfoldable pub insert_all : T → List (Bytes × Bytes) → List Bool × T
  unfolding insert_into_hash_table
  insert_all t [] = ([], t)
  insert_all t ((key, value) ∷ es) =
      let (good, t') = insert_into_hash_table t key value in
      let (goods, last) = insert_all t' es in (good ∷ goods, last)

-- The value that was inserted first for the key, among the insertions that returned true.
abbrev pub first_inserted : Bytes → List (Bytes × Bytes) → List Bool → Option Bytes
first_inserted j [] goods = none
first_inserted j (e ∷ es) [] = none
first_inserted j ((k, v) ∷ es) (false ∷ goods) = first_inserted j es goods
first_inserted j ((k, v) ∷ es) (true ∷ goods) =
    let later = first_inserted j es goods in if equal j k then some v else later

abbrev pub or_else : Option Bytes → Option Bytes → Option Bytes
or_else none o = o
or_else (some v) o = some v

-- The step of one insertion, for a table that agrees with the rest.
inserted :
    {T : Type 0} (h : HSearch T) (t : T) (j k v : Bytes) (later : Option Bytes)
    → (o : Option Bytes) → (h.enter t k v).0 ≡ o
    → or_else (h.lookup (h.enter t k v).1 j) later
      ≡ or_else (h.lookup t j) (if is_found o then (if equal j k then some v else later) else later)
inserted h t j k v later none e = ap (λ x. or_else x later) (h.enter_full t k v e j)
inserted h t j k v later (some w) e = elim (Option-cases (h.lookup t k)) [
  | inr (u, old) ↦
      let same = (h.enter_old t k v u old).1 j in
      elim (Bool-cases (equal j k)) [
        | inl is_k ↦
            let found : h.lookup t j ≡ some u = ap (h.lookup t) (equal_sound j k is_k) ∙ old in
            rw (same, found) refl
        | inr other ↦ rw (same, other) refl
      ]
  | inl new ↦
      let (now, others) = h.enter_new t k v w new e in
      elim (Bool-cases (equal j k)) [
        | inl is_k ↦
            let is = equal_sound j k is_k in
            let before : h.lookup t j ≡ none = ap (h.lookup t) is ∙ new in
            let after : h.lookup (h.enter t k v).1 j ≡ some v =
              ap (h.lookup (h.enter t k v).1) is ∙ now in
            rw (before, after, is_k) refl
        | inr other ↦ rw (others j (λ q. differ j k other q), other) refl
      ]
]
  where
    differ : (j k : Bytes) → equal j k ≡ false → j ≡ k → ⊥
    differ j k h q =
        let same : equal j k ≡ true = subst (λ x. equal j x ≡ true) q (equal_self j) in cc

or_else-none : (o : Option Bytes) → o ≡ or_else o none
or_else-none none = refl
or_else-none (some v) = refl

first_inserted-cons :
    (j k v : Bytes) (es : List (Bytes × Bytes)) (good : Bool) (goods : List Bool)
    → (let later = first_inserted j es goods in
        if good then (if equal j k then some v else later) else later)
      ≡ first_inserted j ((k, v) ∷ es) (good ∷ goods)
first_inserted-cons j k v es true goods = refl
first_inserted-cons j k v es false goods = refl

-- After any insertions, a key that was in the table has its old value, and any other the value of the
-- first insertion for it that returned true: an insertion for a key that is there returns true and
-- changes nothing.
pub find-insert_all :
    {T : Type 0} (h : HSearch T) (t : T) (es : List (Bytes × Bytes)) (j : Bytes)
    → find_in_hash_table h (insert_all h t es).1 j
      ≡ or_else (find_in_hash_table h t j) (first_inserted j es (insert_all h t es).0)
unfolding find_in_hash_table insert_all insert_into_hash_table
find-insert_all h t [] j = or_else-none (h.lookup t j)
find-insert_all h t ((k, v) ∷ es) j =
    let t' = (h.enter t k v).1 in
    let goods = (insert_all h t' es).0 in
    find-insert_all h t' es j
    ∙ inserted h t j k v (first_inserted j es goods) (h.enter t k v).0 refl
    ∙ ap (or_else (h.lookup t j)) (first_inserted-cons j k v es (is_found (h.enter t k v).0) goods)

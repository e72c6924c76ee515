-- ===== src/Table/Keys.antt =====
-- The keys of the hash part: what `table_key` makes, when the map takes two for one, and which
-- have an index in the array part.
use luster.Prelude.{
  [], ◌∷◌, ℕ, ◌+◌, ◌≡◌, refl, ap, ◌⊎◌, true, false, none, some, arith, Bool-cases, Option-cases,
  inl, inr, subst,
}
use luster.Prelude.Result.{ok, ok-injective}
use luster.Float.{Float, FloatLaws}
use luster.LuaString.{bytes_eq, as_bytes, eq}
use luster.LuaString.Laws.{bytes_eq_iff, cons_tail}
use luster.Value.{
  Value, nil, boolean, integer, number, string, table, function, thread, closure, callback,
  value_eq, function_eq, of_i64,
}
use luster.HashMap.{Hashing}
use luster.Table.{
  f64_to_i64, table_key, positive_index, to_array_index, canonical_float_bytes, hash_input, key_eq,
}

module _ ⦃fl : Float⦄ ⦃hs : Hashing⦄ where
  -- The key is no float that equals an integer without being converted to it. For such a float, 2 ^ 63,
  -- `Eq for TableKey` and `Hash for TableKey` do not agree.
  abbrev pub IsPlain : Value fl.F64 → Type 0
  IsPlain (number n) = f64_to_i64 n ≡ none → (i : ℕ) → fl.eq (of_i64 i) n ≡ false
  IsPlain _ = Unit

  -- A key that `table_key` makes of such a value.
  abbrev pub IsKey : Value fl.F64 → Type 0
  IsKey nil = ⊥
  IsKey (number n) =
      (fl.is_nan n ≡ false) × (f64_to_i64 n ≡ none) × ((i : ℕ) → fl.eq (of_i64 i) n ≡ false)
  IsKey v = Unit

  number_case :
      (n : fl.F64) {k : Value fl.F64}
      → IsPlain (number n)
      → (fl.is_nan n ≡ true) ⊎ (fl.is_nan n ≡ false)
      → (f64_to_i64 n ≡ none) ⊎ ((i : ℕ) × (f64_to_i64 n ≡ some i))
      → table_key (number n) ≡ ok k
      → IsKey k
  unfolding table_key
  number_case n plain (inl nan) o e = absurd (ground arith)
  number_case n plain (inr num) (inl no_int) e =
      subst IsKey (ok-injective (rw (num, no_int) at e)) (num, no_int, plain no_int)
  number_case n plain (inr num) (inr (i, int)) e =
      subst IsKey (ok-injective (rw (num, int) at e)) tt

  pub table_key-IsKey :
      (v : Value fl.F64) {k : Value fl.F64} → IsPlain v → table_key v ≡ ok k → IsKey k
  unfolding table_key
  table_key-IsKey nil plain e = absurd (ground arith)
  table_key-IsKey (number n) plain e =
      number_case n plain (Bool-cases (fl.is_nan n)) (Option-cases (f64_to_i64 n)) e
  table_key-IsKey (boolean b) plain e = subst IsKey (ok-injective e) tt
  table_key-IsKey (integer b) plain e = subst IsKey (ok-injective e) tt
  table_key-IsKey (string b) plain e = subst IsKey (ok-injective e) tt
  table_key-IsKey (table b) plain e = subst IsKey (ok-injective e) tt
  table_key-IsKey (function b) plain e = subst IsKey (ok-injective e) tt
  table_key-IsKey (thread b) plain e = subst IsKey (ok-injective e) tt

  pub to_array_index-table_key :
      (v : Value fl.F64) {k : Value fl.F64}
      → table_key v ≡ ok k
      → to_array_index v ≡ to_array_index k
  unfolding table_key to_array_index
  to_array_index-table_key nil e = absurd (ground arith)
  to_array_index-table_key (number n) e = ground arith
  to_array_index-table_key v e = ap to_array_index (ok-injective e)

  pub to_array_index-eq-some :
      (k : Value fl.F64) {i : ℕ} → IsKey k → to_array_index k ≡ some i → k ≡ integer (i + 1)
  unfolding to_array_index positive_index
  to_array_index-eq-some (integer n) h e = ground arith
  to_array_index-eq-some (number n) (_, h, _) e = absurd (ground arith)
  to_array_index-eq-some _ h e = absurd (ground arith)

  module _ (laws : FloatLaws fl) where
    canonical-eq :
        (a b : fl.F64)
        → fl.is_nan a ≡ false
        → fl.is_nan b ≡ false
        → canonical_float_bytes a ≡ canonical_float_bytes b
        → fl.eq a b ≡ true
    unfolding canonical_float_bytes
    canonical-eq a b na nb e =
        let zero_eq = laws.eq_refl (of_i64 0) laws.zero_is_number in
        ground (
          arith,
          laws.to_bits-injective a b,
          laws.to_bits-injective (of_i64 0) b,
          laws.to_bits-injective a (of_i64 0),
          laws.eq_refl a na,
          laws.eq_trans a (of_i64 0) b,
          laws.eq_symm b (of_i64 0),
          zero_eq,
        )

    same-eq :
        (a b : Value fl.F64) → IsKey a → IsKey b → hash_input a ≡ hash_input b → value_eq a b ≡ true
    unfolding hash_input value_eq function_eq eq
    same-eq (boolean a) (boolean b) ha hb e = ground arith
    same-eq (integer a) (integer b) ha hb e = ground arith
    same-eq (number a) (number b) (na, _, _) (nb, _, _) e = canonical-eq a b na nb (ground arith)
    same-eq (string a) (string b) ha hb e = (bytes_eq_iff (as_bytes a) (as_bytes b)).1 (cons_tail e)
    same-eq (table a) (table b) ha hb e = ground arith
    same-eq (function (closure a)) (function (closure b)) ha hb e = ground arith
    same-eq (function (callback a)) (function (callback b)) ha hb e = ground arith
    same-eq (thread a) (thread b) ha hb e = ground arith
    same-eq _ _ ha hb e = absurd (ground arith)

    eq-canonical :
        (a b : fl.F64) → fl.eq a b ≡ true → canonical_float_bytes a ≡ canonical_float_bytes b
    unfolding canonical_float_bytes
    eq-canonical a b e = ground (
      arith,
      laws.eq-bits a b e,
      laws.eq_trans a b (of_i64 0) e,
      laws.eq_symm a b,
      laws.eq_trans b a (of_i64 0),
    )

    -- On these keys `Eq` and `Hash` agree.
    eq-same :
        (a b : Value fl.F64) → IsKey a → IsKey b → value_eq a b ≡ true → hash_input a ≡ hash_input b
    unfolding hash_input value_eq function_eq eq
    eq-same (boolean a) (boolean b) ha hb e = ground arith
    eq-same (integer a) (integer b) ha hb e = ground arith
    eq-same (integer a) (number b) ha (_, _, apart) e = absurd (ground (arith, apart a))
    eq-same (number a) (integer b) (_, _, apart) hb e = absurd (ground (arith, apart b))
    eq-same (number a) (number b) ha hb e = ap (λ x. 3 ∷ x ∷ []) (eq-canonical a b e)
    eq-same (string a) (string b) ha hb e =
        ap (λ x. 4 ∷ x) ((bytes_eq_iff (as_bytes a) (as_bytes b)).0 e)
    eq-same (table a) (table b) ha hb e = ground arith
    eq-same (function (closure a)) (function (closure b)) ha hb e = ground arith
    eq-same (function (callback a)) (function (callback b)) ha hb e = ground arith
    eq-same (thread a) (thread b) ha hb e = ground arith
    eq-same _ _ ha hb e = absurd (ground arith)

    -- So a lookup finds the keys that are equal, whatever else it compares.
    pub key_eq-value_eq : (a b : Value fl.F64) → IsKey a → IsKey b → key_eq a b ≡ value_eq a b
    unfolding key_eq
    key_eq-value_eq a b ha hb = elim (Bool-cases (value_eq a b)) [
      | inr e ↦ ground arith
      | inl e ↦ rw (e, eq-same a b ha hb e, hs.compares_same (hash_input b)) refl
    ]

    pub key_eq-hash_input :
        (a b : Value fl.F64)
        → IsKey a
        → IsKey b
        → key_eq a b ≡ bytes_eq (hash_input a) (hash_input b)
    key_eq-hash_input a b ha hb = elim (Bool-cases (bytes_eq (hash_input a) (hash_input b))) [
      | inl e ↦ rw (e, key_eq-value_eq a b ha hb) (same-eq a b ha hb ((bytes_eq_iff _ _).0 e))
      | inr e ↦ elim (Bool-cases (value_eq a b)) [
        | inl equal ↦ absurd (ground (arith, e, (bytes_eq_iff _ _).1 (eq-same a b ha hb equal)))
        | inr other ↦ rw (e, key_eq-value_eq a b ha hb) other
      ]
    ]

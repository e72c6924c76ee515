-- ===== src/Table/Set.antt =====
-- `get` and `set_value` against the table as a map from keys to values.
use luster.Prelude.{
  ◌≡◌, refl, sym, Bool, true, false, none, List, arith, if◌then◌else◌, Bool-cases, Option-cases,
  inl, inr,
}
use luster.Prelude.Result.{Result, ok, err}
use luster.Float.{Float, FloatLaws}
use luster.Value.{
  Value, nil, boolean, integer, number, string, table, function, thread, of_i64, value_eq,
}
use luster.HashMap.{Hashing}
use luster.Table.{
  TableState, InvalidTableKey, table_key, array_slot, to_array_index, f64_to_i64, get,
}
use luster.Table.Keys.{IsPlain, to_array_index-table_key}
use luster.Table.Lookup.{IsValid, lookup, lookup-slot, lookup-map}

module _ ⦃fl : Float⦄ ⦃hs : Hashing⦄ where
  -- Whether two values are one key of a table.
  abbrev pub same_key : Value fl.F64 → Value fl.F64 → Bool
  same_key q key = elim (table_key q) [
    | err _ ↦ false
    | ok a ↦ elim (table_key key) [ err _ ↦ false | ok b ↦ value_eq a b ]
  ]

  -- The result of `set_value`: an error, for a key that is invalid, or the old value and a table.
  abbrev pub Writes :
      TableState
      → Value fl.F64
      → Value fl.F64
      → Result InvalidTableKey (Value fl.F64 × TableState)
      → Type 0
  Writes t key v (err e) = table_key key ≡ err e
  Writes t key v (ok r) =
      (same_key key key ≡ true)
      × (r.0 ≡ get key t)
      × IsValid r.1
      × ((q : Value fl.F64) → IsPlain q → get q r.1 ≡ (if same_key q key then v else get q t))

  array_slot-table_key :
      (key : Value fl.F64) {k : Value fl.F64} (a : List (Value fl.F64))
      → table_key key ≡ ok k
      → array_slot key a ≡ array_slot k a
  unfolding array_slot
  array_slot-table_key key a e = rw (to_array_index-table_key key e) refl

  pub get-lookup :
      (q : Value fl.F64) {k : Value fl.F64} (t : TableState)
      → table_key q ≡ ok k
      → get q t ≡ lookup k t
  unfolding get
  get-lookup q {k = k} t e = elim (Option-cases (array_slot k t.array)) [
    | inl n ↦ rw (array_slot-table_key q t.array e, n, e, get) (sym (lookup-map k t n))
    | inr (i, s) ↦ rw (array_slot-table_key q t.array e, s, get) (sym (lookup-slot k t s))
  ]

  module _ (laws : FloatLaws fl) where
    -- A value that is no key has no slot.
    array_slot_invalid :
        (q : Value fl.F64) {e : InvalidTableKey} (a : List (Value fl.F64))
        → table_key q ≡ err e
        → array_slot q a ≡ none
    unfolding array_slot table_key to_array_index f64_to_i64
    array_slot_invalid nil a h = refl
    array_slot_invalid (number n) a h = elim (Bool-cases (fl.is_nan n)) [
      | inl nan ↦ elim (Option-cases (fl.cast_i64 n)) [
        | inl none_int ↦ ground arith
        | inr (i, int) ↦ ground (arith, laws.nan_ne (of_i64 i) n nan)
      ]
      | inr num ↦ ground arith
    ]
    array_slot_invalid (boolean b) a h = refl
    array_slot_invalid (integer b) a h = cc
    array_slot_invalid (string b) a h = refl
    array_slot_invalid (table b) a h = refl
    array_slot_invalid (function b) a h = refl
    array_slot_invalid (thread b) a h = refl

    pub get_invalid :
        (q : Value fl.F64) {e : InvalidTableKey} (t : TableState)
        → table_key q ≡ err e
        → get q t ≡ nil
    unfolding get
    get_invalid q t h = rw (array_slot_invalid q t.array h, h, get) refl

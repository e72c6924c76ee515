-- ===== src/Table.antt =====
-- src/table.rs: the table, an array part and a hash part. `set` says what a write does on each of
-- its paths, the growth of the array part included.
use luster.Prelude.{
  ℕ, zero, suc, ◌+◌, ◌-◌, ◌*◌, ◌/◌, ◌^◌, Bool, true, false, not, ◌&&◌, Option, none, some, List, [],
  ◌∷◌, ◌++◌, length, get_elem?, get_or, set, replicate, ltb, leb, ◌==◌, if◌then◌else◌,
}
use luster.Prelude.Result.{Result, ok, err}
use luster.Numbers.Monad.{◌>>=◌}
use luster.Float.{Float}
use luster.I64
use luster.LuaString
use luster.Value
use luster.Value.{Value, nil, boolean, integer, number, string, table, function, thread}
use luster.HashMap
use luster.HashMap.{HashMap, Hashing, Policy}
pub mod Size
pub mod Search
pub mod Keys
pub mod Slots
pub mod Lookup
pub mod Writes
pub mod Migrate
pub mod Growth
pub mod Set
pub mod Border
pub mod Tests

pub data InvalidTableKey : Type 0 where
  is_nan is_nil : InvalidTableKey

-- `*e == Value::Nil`
unfoldable pub is_nil_value : {F : Type 0} → Value F → Bool
is_nil_value nil = true
is_nil_value _ = false

unfoldable pub or_nil : {F : Type 0} → Option (Value F) → Value F
or_nil none = nil
or_nil (some v) = v

-- The tail of `to_array_index`: `if i > 0 { Some(i as usize - 1) } else { None }`.
unfoldable pub positive_index : ℕ → Option ℕ
positive_index i = if not (I64.is_negative i) && ltb 0 i then some (i - 1) else none

unfoldable pub is_stored : {F : Type 0} → Option (Value F) → Bool
is_stored none = false
is_stored (some v) = true

module _ ⦃fl : Float⦄ where
  -- The table's own keys, `TableKey`, are values that `table_key` makes.
  pub record TableState : Type 0 where
    pub array : List (Value fl.F64)
    pub map : HashMap (Value fl.F64) (Value fl.F64)

  abbrev pub default : TableState
  default = record { array = []; map = HashMap.empty }

  unfoldable pub f64_to_i64 : fl.F64 → Option ℕ
  f64_to_i64 n = do i ← fl.cast_i64 n; if fl.eq (Value.of_i64 i) n then some i else none

  -- `TableKey::new`
  unfoldable pub table_key : Value fl.F64 → Result InvalidTableKey (Value fl.F64)
  unfolding f64_to_i64
  table_key nil = err is_nil
  table_key (number n) =
      if fl.is_nan n
      then err is_nan
      else elim (f64_to_i64 n) [ some i ↦ ok (integer i) | none ↦ ok (number n) ]
  table_key v = ok v

  unfoldable pub to_array_index : Value fl.F64 → Option ℕ
  unfolding positive_index f64_to_i64
  to_array_index (integer i) = positive_index i
  to_array_index (number f) = f64_to_i64 f >>= positive_index
  to_array_index _ = none

  unfoldable pub canonical_float_bytes : fl.F64 → ℕ
  canonical_float_bytes f =
      if fl.eq f (Value.of_i64 0) then fl.to_bits (Value.of_i64 0) else fl.to_bits f

  -- What `Hash for TableKey` feeds to the hasher.
  unfoldable pub hash_input : Value fl.F64 → List ℕ
  unfolding canonical_float_bytes LuaString.as_bytes
  hash_input nil = []
  hash_input (boolean b) = 1 ∷ (if b then 1 else 0) ∷ []
  hash_input (integer i) = 2 ∷ i ∷ []
  hash_input (number n) = 3 ∷ canonical_float_bytes n ∷ []
  hash_input (string s) = 4 ∷ LuaString.as_bytes s
  hash_input (table p) = 5 ∷ p ∷ []
  hash_input (function (Value.closure p)) = 6 ∷ 0 ∷ p ∷ []
  hash_input (function (Value.callback p)) = 6 ∷ 1 ∷ p ∷ []
  hash_input (thread p) = 7 ∷ p ∷ []

  -- `self.array[index]`, if the key has an index that is in the array.
  unfoldable pub array_slot : Value fl.F64 → List (Value fl.F64) → Option ℕ
  unfolding to_array_index
  array_slot key array = do i ← to_array_index key; if ltb i (length array) then some i else none

module _ ⦃fl : Float⦄ ⦃hs : Hashing⦄ where
  -- The hash map finds a key that it compares and that `PartialEq for TableKey` takes for equal.
  unfoldable pub key_eq : Value fl.F64 → Value fl.F64 → Bool
  unfolding hash_input Value.value_eq
  key_eq a b = hs.compares (hash_input a) (hash_input b) && Value.value_eq a b

  unfoldable pub map_get : Value fl.F64 → TableState → Value fl.F64
  unfolding key_eq HashMap.get or_nil
  map_get k t = or_nil (HashMap.get key_eq k t.map)

  unfoldable pub get : Value fl.F64 → TableState → Value fl.F64
  get key t = elim (array_slot key t.array) [
    | some i ↦ get_or t.array i nil
    | none ↦ elim (table_key key) [ ok k ↦ map_get k t | err _ ↦ nil ]
  ]

  -- `self.map.retain(…)`: the entries whose key has an index in the array move there.
  unfoldable pub migrate :
      List (Value fl.F64 × Value fl.F64)
      → List (Value fl.F64)
      → List (Value fl.F64 × Value fl.F64) × List (Value fl.F64)
  unfolding array_slot
  migrate [] array = ([], array)
  migrate (e ∷ es) array = elim (array_slot e.0 array) [
    | some i ↦ migrate es (set array i e.1)
    | none ↦ let rest = migrate es array in (e ∷ rest.0, rest.1)
  ]

  -- The indices of the values that are not nil in the array part, from index `i` on.
  pub used_indices : ℕ → List (Value fl.F64) → List ℕ
  unfolding is_nil_value
  used_indices i [] = []
  used_indices i (v ∷ vs) =
      if is_nil_value v then used_indices (i + 1) vs else i ∷ used_indices (i + 1) vs

  pub key_indices : List (Value fl.F64 × Value fl.F64) → List ℕ
  unfolding to_array_index
  key_indices [] = []
  key_indices (e ∷ es) = elim (to_array_index e.0) [
    | none ↦ key_indices es
    | some i ↦ i ∷ key_indices es
  ]

  -- The array candidates that the three loops count: of the array part, of the hash part, and the
  -- new key.
  pub candidates : Option ℕ → TableState → List ℕ
  unfolding used_indices key_indices
  candidates index_key t =
      let parts = used_indices 0 t.array ++ key_indices t.map.entries in
      elim index_key [ none ↦ parts | some i ↦ i ∷ parts ]

  -- The growth of one of the parts, before the new key is inserted.
  unfoldable pub grow_to : Policy → ℕ → TableState → TableState
  unfolding migrate HashMap.reserve
  grow_to pol optimal t =
      let old = length t.array in
      let array = t.array ++ replicate (pol.vec_capacity optimal - old) nil in
      let (entries, array') = migrate t.map.entries array in
      let grown : TableState = record {
        array = array';
        map = record { entries = entries; capacity = t.map.capacity };
      } in
      if ltb old optimal
      then grown
      else record t { map = HashMap.reserve pol (length t.map.entries) t.map }

  unfoldable pub grow : Policy → Option ℕ → TableState → TableState
  grow pol index_key t = grow_to pol (Size.optimal_size (candidates index_key t)) t

  -- `self.map.insert(hash_key, value).unwrap_or(Value::Nil)`
  pub insert_key : Policy → Value fl.F64 → Value fl.F64 → TableState → Value fl.F64 × TableState
  unfolding HashMap.insert key_eq or_nil
  insert_key pol k v t =
      let (old, m) = HashMap.insert key_eq pol k v t.map in (or_nil old, record t { map = m })

  -- `mem::replace(&mut self.array[index], value)`
  abbrev pub replace : ℕ → Value fl.F64 → TableState → Value fl.F64 × TableState
  replace i v t = (get_or t.array i nil, record t { array = set t.array i v })

  -- The end of `set`, with the table grown.
  pub insert_grown :
      Policy → Value fl.F64 → Value fl.F64 → Value fl.F64 → TableState → Value fl.F64 × TableState
  insert_grown pol key k v t = elim (array_slot key t.array) [
    | some i ↦ replace i v t
    | none ↦ insert_key pol k v t
  ]

  pub remove_key : Value fl.F64 → TableState → Value fl.F64 × TableState
  unfolding HashMap.remove key_eq or_nil
  remove_key k t =
      let (old, m) = HashMap.remove key_eq k t.map in (or_nil old, record t { map = m })

  -- `set` behind the array part, for the hash key `k` of `key`.
  pub set_key :
      Policy → Value fl.F64 → Value fl.F64 → Value fl.F64 → TableState → Value fl.F64 × TableState
  set_key pol key k v t =
      if is_nil_value v
      then remove_key k t
      else if ltb (length t.map.entries) t.map.capacity
      then insert_key pol k v t
      else insert_grown pol key k v (grow pol (to_array_index key) t)

  unfoldable pub set_value :
      Policy
      → Value fl.F64
      → Value fl.F64
      → TableState
      → Result InvalidTableKey (Value fl.F64 × TableState)
  set_value pol key v t = elim (array_slot key t.array) [
    | some i ↦ ok (replace i v t)
    | none ↦ elim (table_key key) [ ok k ↦ ok (set_key pol key k v t) | err e ↦ err e ]
  ]

  -- `self.map.contains_key(&TableKey(Value::Integer(i)))`
  unfoldable pub contains_integer : TableState → ℕ → Bool
  contains_integer t i = is_stored (HashMap.get key_eq (integer i) t.map)

  -- The last branch of `length`: the map part is searched behind an array part of length `n`.
  unfoldable pub map_border : TableState → ℕ → ℕ
  map_border t n = elim (Search.find_nil 64 (n + 1) (contains_integer t)) [
    | none ↦ I64.max_value
    | some max ↦ Search.binary_search 64 n max (λ i. not (contains_integer t i))
  ]

  unfoldable pub table_length : TableState → ℕ
  table_length t =
      let n = length t.array in
      if ltb 0 n && is_nil_value (get_or t.array (n - 1) nil)
      then Search.binary_search 64 0 n (λ i. is_nil_value (get_or t.array (i - 1) nil))
      else if length t.map.entries == 0
      then n
      else map_border t n

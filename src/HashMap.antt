-- ===== src/HashMap.antt =====
-- The standard library's hash map as the table uses it: a list of entries, searched by a test on
-- keys, and the capacity that the map advertises.
use luster.Prelude.{
  ℕ, suc, ◌+◌, ◌≤◌, max, ◌≡◌, Bool, true, false, Option, none, some, List, [], ◌∷◌, ◌++◌, length,
  ltb, if◌then◌else◌,
}
pub mod Laws

-- The capacities that the allocator hands out are not determined by the documentation: at least
-- what was asked for. `vec_capacity n` follows a `Vec::reserve` up to `n` elements that has to
-- grow, and `map_capacity n` a growth of the map to `n` entries.
pub record Policy : Type 0 where
  pub vec_capacity : ℕ → ℕ
  pub map_capacity : ℕ → ℕ
  pub vec_enough : (n : ℕ) → n ≤ vec_capacity n
  pub map_enough : (n : ℕ) → n ≤ map_capacity n

-- Whether a lookup compares a key with an entry, by what is fed to the hasher for the two: it does
-- where that is the same. Where it is not, the documentation leaves it open, and it depends on the hash
-- function and on the map.
pub record Hashing : Type 0 where
  pub compares : List ℕ → List ℕ → Bool
  pub compares_same : (h : List ℕ) → compares h h ≡ true

pub record HashMap {ℓ} (K V : Type ℓ) : Type ℓ where
  pub entries : List (K × V)
  pub capacity : ℕ

abbrev pub empty {ℓ} : {K V : Type ℓ} → HashMap K V
empty = record { entries = []; capacity = 0 }

module _ {ℓ} {K V : Type ℓ} (key_eq : K → K → Bool) where
  unfoldable pub find : K → List (K × V) → Option V
  find k [] = none
  find k (e ∷ es) = if key_eq k e.0 then some e.1 else find k es

  -- Replaces the value under a key that is there, and adds the key otherwise.
  unfoldable pub put : K → V → List (K × V) → List (K × V)
  put k v [] = (k, v) ∷ []
  put k v (e ∷ es) = if key_eq k e.0 then (e.0, v) ∷ es else e ∷ put k v es

  unfoldable pub erase : K → List (K × V) → List (K × V)
  erase k [] = []
  erase k (e ∷ es) = if key_eq k e.0 then es else e ∷ erase k es

  unfoldable pub get : K → HashMap K V → Option V
  unfolding find
  get k m = find k m.entries

  -- `remove` returns the value that was there.
  unfoldable pub remove : K → HashMap K V → Option V × HashMap K V
  unfolding find erase
  remove k m = (find k m.entries, record m { entries = erase k m.entries })

  -- `insert` returns the value that was there; a map that is full grows.
  unfoldable pub insert : Policy → K → V → HashMap K V → Option V × HashMap K V
  unfolding find put
  insert pol k v m =
      let es = put k v m.entries in
      (
        find k m.entries,
        record {
          entries = es;
          capacity =
              if ltb m.capacity (length es) then pol.map_capacity (length es) else m.capacity;
        },
      )

-- `reserve`: room for `n` more entries.
unfoldable pub reserve {ℓ} : {K V : Type ℓ} → Policy → ℕ → HashMap K V → HashMap K V
reserve pol n m =
    let need = length m.entries + n in
    record m { capacity = if ltb m.capacity need then pol.map_capacity need else m.capacity }

-- ===== src/Table/Writes.antt =====
-- Insertion into the hash part, and removal from it.
use luster.Prelude.{◌≡◌, refl, Bool, true, false, Option, none, arith, if◌then◌else◌}
use luster.Float.{Float, FloatLaws}
use luster.Value.{Value, nil}
use luster.HashMap.{Policy, Hashing}
use luster.HashMap.Laws.{
  AllAdmitted-put, AllAdmitted-erase, AllHeld-put, AllHeld-erase, Distinct-put, Distinct-erase,
  find-put, find-erase,
}
use luster.Table.{
  TableState, key_eq, array_slot, map_get, or_nil, is_nil_value, insert_key, remove_key,
}
use luster.Table.Keys.{IsKey}
use luster.Table.Slots.{key_eq-Lawful}
use luster.Table.Lookup.{IsValid, Stores, map_write}

is_nil_value-eq-true : {F : Type 0} (v : Value F) → is_nil_value v ≡ true → v ≡ nil
unfolding is_nil_value
is_nil_value-eq-true nil h = refl
is_nil_value-eq-true _ h = cc

or_nil-if :
    {F : Type 0} (b : Bool) (x y : Option (Value F))
    → or_nil (if b then x else y) ≡ (if b then or_nil x else or_nil y)
or_nil-if true x y = refl
or_nil-if false x y = refl

module _ ⦃fl : Float⦄ ⦃hs : Hashing⦄ (laws : FloatLaws fl) {t : TableState} (valid : IsValid t)
    (k : Value fl.F64) (hk : IsKey k) (outside : array_slot k t.array ≡ none) where
  pub insert_key-Stores :
      (pol : Policy) (v : Value fl.F64)
      → is_nil_value v ≡ false
      → Stores t k v (insert_key pol k v t)
  unfolding insert_key map_get or_nil
  insert_key-Stores pol v s =
      map_write laws valid k hk v _ _ outside refl
        (record {
          admitted = AllAdmitted-put key_eq k _ v t.map.entries hk valid.admitted;
          distinct =
              Distinct-put (key_eq-Lawful laws) k v t.map.entries hk valid.admitted valid.distinct;
          outside = AllAdmitted-put key_eq k _ v t.map.entries outside valid.outside;
          stored = AllHeld-put key_eq k _ v t.map.entries s valid.stored;
        })
        (λ q hq.
          ground (arith, find-put (key_eq-Lawful laws) q k v t.map.entries hq hk valid.admitted))

  pub remove_key-Stores : (v : Value fl.F64) → is_nil_value v ≡ true → Stores t k v (remove_key k t)
  unfolding remove_key map_get or_nil
  remove_key-Stores v s =
      map_write laws valid k hk v _ _ outside refl
        (record {
          admitted = AllAdmitted-erase key_eq k _ t.map.entries valid.admitted;
          distinct =
              Distinct-erase (key_eq-Lawful laws) k t.map.entries hk valid.admitted valid.distinct;
          outside = AllAdmitted-erase key_eq k _ t.map.entries valid.outside;
          stored = AllHeld-erase key_eq k _ t.map.entries valid.stored;
        })
        (λ q hq. ground (
          arith,
          is_nil_value-eq-true v s,
          find-erase (key_eq-Lawful laws) q k t.map.entries hq hk valid.admitted valid.distinct,
        ))

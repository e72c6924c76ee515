-- ===== src/Table/Slots.antt =====
-- The slot of a key in the array part, against the map's comparison of keys.
use luster.Prelude.{
  ℕ, ◌+◌, ◌<◌, ◌≡◌, refl, sym, ap, ◌∙◌, true, Option, none, some, List, [], ◌∷◌, length, arith,
  ◌==◌, if◌then◌else◌,
}
use luster.Float.{Float, FloatLaws}
use luster.LuaString.{bytes_eq}
use luster.LuaString.Laws.{bytes_eq_iff}
use luster.Value.{
  Value, nil, boolean, integer, number, string, table, function, thread, closure, callback,
}
use luster.HashMap.Laws.{Lawful}
use luster.HashMap.{Hashing}
use luster.Table.{to_array_index, positive_index, hash_input, key_eq, array_slot}
use luster.Table.Keys.{IsKey, key_eq-hash_input, to_array_index-eq-some}

bytes_eq_congr : (a b c : List ℕ) → bytes_eq a b ≡ true → bytes_eq a c ≡ bytes_eq b c
bytes_eq_congr a b c e = ap (λ x. bytes_eq x c) ((bytes_eq_iff a b).0 e)

bytes_eq_symm : (a b : List ℕ) → bytes_eq a b ≡ bytes_eq b a
bytes_eq_symm a b = ground (arith, bytes_eq_iff a b, bytes_eq_iff b a, h, k)
  where
    h : bytes_eq a b ≡ true → bytes_eq b a ≡ true
    h e = (bytes_eq_iff b a).1 (sym ((bytes_eq_iff a b).0 e))

    k : bytes_eq b a ≡ true → bytes_eq a b ≡ true
    k e = (bytes_eq_iff a b).1 (sym ((bytes_eq_iff b a).0 e))

-- The array index that what is hashed of a key gives away.
index_of_hash : List ℕ → Option ℕ
index_of_hash (tag ∷ i ∷ r) = if tag == 2 then positive_index i else none
index_of_hash _ = none

module _ ⦃fl : Float⦄ ⦃hs : Hashing⦄ where
  to_array_index-hash :
      (k : Value fl.F64) → IsKey k → to_array_index k ≡ index_of_hash (hash_input k)
  unfolding to_array_index index_of_hash hash_input
  to_array_index-hash (number n) (_, h, _) = rw h
  to_array_index-hash (string s) h = string_case _
    where
      string_case : (l : List ℕ) → ◌≡◌ {A = Option ℕ} none (index_of_hash (4 ∷ l))
      string_case [] = refl
      string_case (x ∷ l) = refl
  to_array_index-hash (function (closure p)) h = refl
  to_array_index-hash (function (callback p)) h = refl
  to_array_index-hash nil h = refl
  to_array_index-hash (boolean b) h = refl
  to_array_index-hash (integer i) h = refl
  to_array_index-hash (table p) h = refl
  to_array_index-hash (thread p) h = refl

  pub array_slot-lt :
      (k : Value fl.F64) (a : List (Value fl.F64)) {i : ℕ} → array_slot k a ≡ some i → i < length a
  unfolding array_slot
  array_slot-lt k a e = ground arith

  pub array_slot-length :
      (k : Value fl.F64) (a b : List (Value fl.F64))
      → length a ≡ length b
      → array_slot k a ≡ array_slot k b
  unfolding array_slot
  array_slot-length k a b e = rw e refl

  array_slot-eq-some :
      (k : Value fl.F64) (a : List (Value fl.F64)) {i : ℕ}
      → IsKey k
      → array_slot k a ≡ some i
      → k ≡ integer (i + 1)
  unfolding array_slot
  array_slot-eq-some k a h e = ground (arith, to_array_index-eq-some k h)

  module _ (laws : FloatLaws fl) where
    pub key_eq-Lawful : Lawful IsKey key_eq
    key_eq-Lawful = record {
      eq_refl = λ a ha. key_eq-hash_input laws a a ha ha ∙ (bytes_eq_iff _ _).1 refl;
      eq_symm = λ a b ha hb.
          rw (key_eq-hash_input laws a b ha hb, key_eq-hash_input laws b a hb ha)
            (bytes_eq_symm _ _);
      eq_congr = λ a b c ha hb hc e.
          rw (key_eq-hash_input laws a c ha hc, key_eq-hash_input laws b c hb hc)
            (bytes_eq_congr _ _ _ (sym (key_eq-hash_input laws a b ha hb) ∙ e));
    }

    -- Keys that the map takes for one have one slot.
    pub array_slot_congr :
        (q k : Value fl.F64) (a : List (Value fl.F64))
        → IsKey q
        → IsKey k
        → key_eq q k ≡ true
        → array_slot q a ≡ array_slot k a
    unfolding array_slot
    array_slot_congr q k a hq hk e =
        let same : to_array_index q ≡ to_array_index k =
          to_array_index-hash q hq
          ∙ ap index_of_hash ((bytes_eq_iff _ _).0 (sym (key_eq-hash_input laws q k hq hk) ∙ e))
          ∙ sym (to_array_index-hash k hk) in
        rw same refl

    -- Keys with slots are told apart by the slots.
    pub key_eq-array_slot :
        (q k : Value fl.F64) (a : List (Value fl.F64)) {j i : ℕ}
        → IsKey q
        → IsKey k
        → array_slot q a ≡ some j
        → array_slot k a ≡ some i
        → key_eq q k ≡ j == i
    unfolding hash_input bytes_eq
    key_eq-array_slot q k a {j = j} {i = i} hq hk eq ek =
        rw
          (
            key_eq-hash_input laws q k hq hk,
            array_slot-eq-some q a hq eq,
            array_slot-eq-some k a hk ek,
          )
          (ground arith)

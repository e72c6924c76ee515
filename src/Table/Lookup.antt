-- ===== src/Table/Lookup.antt =====
-- The table as a map from keys to values, and the writes that do not change its parts' sizes.
use luster.Prelude.{
  ℕ, zero, suc, ◌<◌, ◌≡◌, ◌≢◌, refl, sym, ◌∙◌, false, none, some, List, [], ◌∷◌, length, get_or,
  set, length-set, arith, ◌==◌, if◌then◌else◌, Bool-cases, Option-cases, inl, inr,
}
use luster.Float.{Float, FloatLaws}
use luster.Value.{Value, nil}
use luster.HashMap
use luster.HashMap.{Policy, find, put, erase, Hashing}
use luster.HashMap.Laws.{AllAdmitted, AllHeld, Distinct}
use luster.Table.{TableState, key_eq, array_slot, map_get, is_nil_value, replace}
use luster.Table.Keys.{IsKey}
use luster.Table.Slots.{array_slot-lt, array_slot-length, array_slot_congr, key_eq-array_slot}

pub get_or-set {ℓ} :
    {A : Type ℓ} (xs : List A) (i j : ℕ) (v d : A)
    → i < length xs
    → get_or (set xs i v) j d ≡ (if j == i then v else get_or xs j d)
get_or-set [] i j v d h = absurd (omega arith)
get_or-set (x ∷ xs) zero zero v d h = refl
get_or-set (x ∷ xs) zero (suc j) v d h = ground arith
get_or-set (x ∷ xs) (suc i) zero v d h = ground arith
get_or-set (x ∷ xs) (suc i) (suc j) v d h = ground (arith, get_or-set xs i j v d)

module _ ⦃fl : Float⦄ ⦃hs : Hashing⦄ where
  -- The value under a key that `TableKey` admits.
  pub lookup : Value fl.F64 → TableState → Value fl.F64
  lookup k t = elim (array_slot k t.array) [ some i ↦ get_or t.array i nil | none ↦ map_get k t ]

  -- No key of the hash part has a slot in the array part, and none holds `nil`.
  abbrev pub AllOutside : List (Value fl.F64) → List (Value fl.F64 × Value fl.F64) → Type 0
  AllOutside array = AllAdmitted (λ k. array_slot k array ≡ none)

  abbrev pub AllStored : List (Value fl.F64 × Value fl.F64) → Type 0
  AllStored = AllHeld (λ v. is_nil_value v ≡ false)

  pub record IsValid (t : TableState) : Type 0 where
    pub admitted : AllAdmitted IsKey t.map.entries
    pub distinct : Distinct key_eq t.map.entries
    pub outside : AllOutside t.array t.map.entries
    pub stored : AllStored t.map.entries

  pub lookup-slot :
      (k : Value fl.F64) (t : TableState) {i : ℕ}
      → array_slot k t.array ≡ some i
      → lookup k t ≡ get_or t.array i nil
  unfolding lookup
  lookup-slot k t e = rw (e, lookup) refl

  pub lookup-map :
      (k : Value fl.F64) (t : TableState) → array_slot k t.array ≡ none → lookup k t ≡ map_get k t
  unfolding lookup
  lookup-map k t e = rw (e, lookup) refl

  -- A write of `v` under `k` that returned the first component of `r`.
  pub record Stores (t : TableState) (k v : Value fl.F64) (r : Value fl.F64 × TableState)
      : Type 0 where
    pub old : r.0 ≡ lookup k t
    pub valid : IsValid r.1
    pub reads : (q : Value fl.F64) → IsKey q → lookup q r.1 ≡ (if key_eq q k then v else lookup q t)

  AllOutside-length :
      (a b : List (Value fl.F64)) (es : List (Value fl.F64 × Value fl.F64))
      → length a ≡ length b
      → AllOutside a es
      → AllOutside b es
  AllOutside-length a b [] e h = tt
  AllOutside-length a b (x ∷ es) e (h, hs) =
      (sym (array_slot-length x.0 a b e) ∙ h, AllOutside-length a b es e hs)

  module _ (laws : FloatLaws fl) {t : TableState} (valid : IsValid t) (k : Value fl.F64)
      (hk : IsKey k) where
    slots_apart :
        (q : Value fl.F64)
        → IsKey q
        → array_slot q t.array ≢ array_slot k t.array
        → key_eq q k ≡ false
    slots_apart q hq ne = elim (Bool-cases (key_eq q k)) [
      | inr e ↦ e
      | inl e ↦ absurd (ne (array_slot_congr laws q k t.array hq hk e))
    ]

    -- A write to a slot of the array part.
    pub replace-Stores :
        (v : Value fl.F64) {i : ℕ} → array_slot k t.array ≡ some i → Stores t k v (replace i v t)
    unfolding map_get
    replace-Stores v {i = i} e = record {
      old = sym (lookup-slot k t e);
      valid = record {
        admitted = valid.admitted;
        distinct = valid.distinct;
        outside = AllOutside-length _ _ _ (sym (length-set t.array i v)) valid.outside;
        stored = valid.stored;
      };
      reads = λ q hq.
          let same = array_slot-length q (set t.array i v) t.array (length-set t.array i v) in
          elim (Option-cases (array_slot q t.array)) [
            | inl n ↦
                rw
                  (
                    lookup-map q (replace i v t).1 (same ∙ n),
                    lookup-map q t n,
                    slots_apart q hq (λ same. cc),
                  )
                  refl
            | inr (j, m) ↦
                rw
                  (
                    lookup-slot q (replace i v t).1 (same ∙ m),
                    lookup-slot q t m,
                    key_eq-array_slot laws q k t.array hq hk m e,
                  )
                  (get_or-set t.array i j v nil (array_slot-lt k t.array e))
          ];
    }

    -- A change of the hash part alone, for a key with no slot.
    pub map_write :
        (v : Value fl.F64) (old : Value fl.F64) (m : HashMap.HashMap (Value fl.F64) (Value fl.F64))
        → array_slot k t.array ≡ none
        → old ≡ map_get k t
        → IsValid (record t { map = m })
        → ((q : Value fl.F64)
            → IsKey q
            → map_get q (record t { map = m }) ≡ (if key_eq q k then v else map_get q t))
        → Stores t k v (old, record t { map = m })
    map_write v old m e eo w h = record {
      old = eo ∙ sym (lookup-map k t e);
      valid = w;
      reads = λ q hq. elim (Option-cases (array_slot q t.array)) [
        | inl n ↦ rw (lookup-map q (record t { map = m }) n, lookup-map q t n) (h q hq)
        | inr (j, n) ↦
            rw
              (
                lookup-slot q (record t { map = m }) n,
                lookup-slot q t n,
                slots_apart q hq (λ same. cc),
              )
              refl
      ];
    }

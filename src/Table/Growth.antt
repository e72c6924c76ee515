-- ===== src/Table/Growth.antt =====
-- src/table.rs: the growth of a part of the table against the table as a map.
use luster.Prelude.{
  ℕ, zero, suc, ◌-◌, ◌≤◌, ◌≡◌, refl, sym, ap, ◌∙◌, Option, none, some, List, [], ◌∷◌, ◌++◌, length,
  length-append, get_or, replicate, arith, ltb, if◌then◌else◌, Bool-cases, Option-cases, inl, inr,
}
use luster.Float.{Float, FloatLaws}
use luster.Value.{Value, nil}
use luster.HashMap.{Policy, find, reserve, Hashing}
use luster.HashMap.Laws.{AllAdmitted}
use luster.Table.{
  TableState, key_eq, array_slot, migrate, grow_to, grow, map_get, or_nil, candidates,
}
use luster.Table.Size.{optimal_size}
use luster.Table.Keys.{IsKey}
use luster.Table.Slots.{array_slot_congr, array_slot-length}
use luster.Table.Lookup.{AllOutside, IsValid, lookup, lookup-slot, lookup-map}
use luster.Table.Migrate.{
  Entries, kept, moved, length-moved, AllAdmitted-kept, AllHeld-kept, AllOutside-kept,
  Distinct-kept, find-kept, get_or-moved,
}

get_or-append_nils :
    {F : Type 0} (a : List (Value F)) (n j : ℕ)
    → get_or (a ++ replicate n nil) j nil ≡ get_or a j nil
get_or-append_nils [] zero j = refl
get_or-append_nils [] (suc n) zero = refl
get_or-append_nils [] (suc n) (suc j) = get_or-append_nils [] n j
get_or-append_nils (x ∷ a) n zero = refl
get_or-append_nils (x ∷ a) n (suc j) = get_or-append_nils a n j

get_or-ge : {F : Type 0} (a : List (Value F)) (j : ℕ) → length a ≤ j → get_or a j nil ≡ nil
get_or-ge [] j h = refl
get_or-ge (x ∷ a) zero h = absurd (omega arith)
get_or-ge (x ∷ a) (suc j) h = get_or-ge a j (omega arith)

elim-or_nil :
    {F : Type 0} (o : Option (Value F)) {d : Value F}
    → d ≡ nil
    → elim o [ some v ↦ v | none ↦ d ] ≡ or_nil o
unfolding or_nil
elim-or_nil none h = h
elim-or_nil (some v) h = refl

module _ ⦃fl : Float⦄ ⦃hs : Hashing⦄ where
  -- A slot in the longer array is one in the shorter, or lies behind it.
  array_slot-shorter :
      (q : Value fl.F64) (a b : List (Value fl.F64)) {j : ℕ}
      → array_slot q b ≡ some j
      → array_slot q a ≡ (if ltb j (length a) then some j else none)
  unfolding array_slot
  array_slot-shorter q a b e = ground arith

  array_slot-longer :
      (q : Value fl.F64) (a b : List (Value fl.F64))
      → length a ≤ length b
      → array_slot q b ≡ none
      → array_slot q a ≡ none
  unfolding array_slot
  array_slot-longer q a b h e = ground arith

  module _ (laws : FloatLaws fl) {t : TableState} (valid : IsValid t) where
    -- A key with a slot in the array part is not in the hash part.
    find-outside :
        (q : Value fl.F64) (es : Entries) {j : ℕ}
        → IsKey q
        → AllAdmitted IsKey es
        → AllOutside t.array es
        → array_slot q t.array ≡ some j
        → find key_eq q es ≡ none
    unfolding find
    find-outside q [] hq hs out e = refl
    find-outside q (x ∷ es) hq (hx, hs) (o, out) e = elim (Bool-cases (key_eq q x.0)) [
      | inl same ↦ absurd (cc (array_slot_congr laws q x.0 t.array hq hx same))
      | inr other ↦ rw other (find-outside q es hq hs out e)
    ]

    -- The table with `n` more slots in the array part and the entries moved there.
    abbrev pub extended : ℕ → TableState
    extended n =
        let a = t.array ++ replicate n nil in
        record {
          array = (migrate t.map.entries a).1;
          map = record { entries = (migrate t.map.entries a).0; capacity = t.map.capacity };
        }

    extended-IsValid : (n : ℕ) → IsValid (extended n)
    unfolding kept moved
    extended-IsValid n =
        let es = t.map.entries in
        let a = t.array ++ replicate n nil in
        record {
          admitted = AllAdmitted-kept IsKey es a valid.admitted;
          distinct = Distinct-kept laws es a valid.admitted valid.distinct;
          outside = AllOutside-kept es a (moved es a) (sym (length-moved es a));
          stored = AllHeld-kept _ es a valid.stored;
        }

    -- What stands in a slot of the longer array is the value of its key.
    extended-slot :
        (n : ℕ) (q : Value fl.F64) {j : ℕ}
        → IsKey q
        → array_slot q (t.array ++ replicate n nil) ≡ some j
        → elim (find key_eq q t.map.entries) [
          | some v ↦ v
          | none ↦ get_or (t.array ++ replicate n nil) j nil
        ]
          ≡ lookup q t
    unfolding map_get
    extended-slot n q {j = j} hq e =
        let shorter = array_slot-shorter q t.array (t.array ++ replicate n nil) e in
        elim (Bool-cases (ltb j (length t.array))) [
          | inl below ↦
              let here : array_slot q t.array ≡ some j = rw below at shorter in
              rw (find-outside q t.map.entries hq valid.admitted valid.outside here)
                (get_or-append_nils t.array n j ∙ sym (lookup-slot q t here))
          | inr beyond ↦
              let gone : array_slot q t.array ≡ none = rw beyond at shorter in
              elim-or_nil (find key_eq q t.map.entries)
                (get_or-append_nils t.array n j ∙ get_or-ge t.array j (ground arith))
              ∙ sym (lookup-map q t gone)
        ]

    extended-lookup : (n : ℕ) (q : Value fl.F64) → IsKey q → lookup q (extended n) ≡ lookup q t
    unfolding kept moved map_get or_nil
    extended-lookup n q hq =
        let es = t.map.entries in
        let a = t.array ++ replicate n nil in
        elim (Option-cases (array_slot q a)) [
          | inl e ↦
              lookup-map q (extended n) (array_slot-length q _ a (length-moved es a) ∙ e)
              ∙ ap or_nil (find-kept laws q hq es a valid.admitted e)
              ∙ sym (
                  lookup-map q t (array_slot-longer q t.array a (rw length-append (omega arith)) e))
          | inr (j, e) ↦
              lookup-slot q (extended n) (array_slot-length q _ a (length-moved es a) ∙ e)
              ∙ get_or-moved laws q hq es a valid.admitted valid.distinct e
              ∙ extended-slot n q hq e
        ]

    grow_to-IsValid : (pol : Policy) (n : ℕ) → IsValid (grow_to pol n t)
    unfolding grow_to
    grow_to-IsValid pol n = elim (Bool-cases (ltb (length t.array) n)) [
      | inl e ↦ rw e (extended-IsValid (pol.vec_capacity n - length t.array))
      | inr e ↦ rw e (record {
        admitted = valid.admitted;
        distinct = valid.distinct;
        outside = valid.outside;
        stored = valid.stored;
      })
    ]

    reserved-lookup :
        (pol : Policy) (n : ℕ) (q : Value fl.F64)
        → lookup q (record t { map = reserve pol n t.map }) ≡ lookup q t
    unfolding map_get reserve
    reserved-lookup pol n q = elim (Option-cases (array_slot q t.array)) [
      | inl e ↦ lookup-map q (record t { map = reserve pol n t.map }) e ∙ sym (lookup-map q t e)
      | inr (i, e) ↦
          lookup-slot q (record t { map = reserve pol n t.map }) e ∙ sym (lookup-slot q t e)
    ]

    lookup-grow_to :
        (pol : Policy) (n : ℕ) (q : Value fl.F64)
        → IsKey q
        → lookup q (grow_to pol n t) ≡ lookup q t
    unfolding grow_to
    lookup-grow_to pol n q hq = elim (Bool-cases (ltb (length t.array) n)) [
      | inl e ↦ rw e (extended-lookup (pol.vec_capacity n - length t.array) q hq)
      | inr e ↦ rw e (reserved-lookup pol (length t.map.entries) q)
    ]

    pub grow-IsValid : (pol : Policy) (i : Option ℕ) → IsValid (grow pol i t)
    unfolding grow
    grow-IsValid pol i = grow_to-IsValid pol (optimal_size (candidates i t))

    -- The table that `grow` makes has the same value under every key.
    pub lookup-grow :
        (pol : Policy) (i : Option ℕ) (q : Value fl.F64)
        → IsKey q
        → lookup q (grow pol i t) ≡ lookup q t
    unfolding grow
    lookup-grow pol i q hq = lookup-grow_to pol (optimal_size (candidates i t)) q hq

-- ===== src/Table/Border.antt =====
-- src/table.rs: `length` against the table as a map.
use luster.Prelude.{
  ℕ, ◌+◌, ◌-◌, ◌<◌, ◌≤◌, ◌≡◌, refl, ap, ◌∙◌, ◌⊎◌, Bool, true, false, not, ◌&&◌, none, some, List,
  [], ◌∷◌, length, get_or, arith, ltb, ◌==◌, Bool-cases, Option-cases, inl, inr, subst,
}
use luster.Float.{Float}
use luster.I64
use luster.Value.{nil, integer}
use luster.HashMap
use luster.HashMap.{find, Hashing}
use luster.HashMap.Laws.{AllHeld}
use luster.Table.{
  TableState, key_eq, array_slot, to_array_index, positive_index, map_get, or_nil, is_nil_value,
  is_stored, contains_integer, map_border, table_length, get, table_key,
}
use luster.Table.Search.{find_nil, Found, Missing, binary_search-Found, find_nil-Missing}
use luster.Table.Lookup.{AllStored, lookup, lookup-slot, lookup-map}
use luster.Table.Set.{get-lookup}

some-injective {ℓ} : {A : Type ℓ} {x y : A} → some x ≡ some y → x ≡ y
some-injective e = cc

AllHeld-find {ℓ} :
    {K V : Type ℓ} (eq : K → K → Bool) (P : V → Type 0) (k : K) (es : List (K × V)) {v : V}
    → AllHeld P es
    → find eq k es ≡ some v
    → P v
unfolding find
AllHeld-find eq P k [] h e = absurd (ground arith)
AllHeld-find eq P k (x ∷ es) (h, hs) e = elim (Bool-cases (eq k x.0)) [
  | inl y ↦ subst P (some-injective (rw y at e)) h
  | inr y ↦ AllHeld-find eq P k es hs (rw y at e)
]

find-empty {ℓ} :
    {K V : Type ℓ} (eq : K → K → Bool) (k : K) (es : List (K × V))
    → length es ≡ 0
    → find eq k es ≡ none
unfolding find
find-empty eq k [] h = refl
find-empty eq k (x ∷ es) h = absurd (omega arith)

module _ ⦃fl : Float⦄ ⦃hs : Hashing⦄ where
  -- Whether the table has `nil` under an integer.
  abbrev pub is_nil_at : TableState → ℕ → Bool
  is_nil_at t i = is_nil_value (get (integer i) t)

  -- An integer whose value is not `nil`, or 0, before one whose value is `nil`, or the end.
  pub record IsBorder (t : TableState) (n : ℕ) : Type 0 where
    pub starts : (n ≡ 0) ⊎ (is_nil_at t n ≡ false)
    pub ends : (n ≡ I64.max_value) ⊎ (is_nil_at t (n + 1) ≡ true)

  module _ (t : TableState) (stored : AllStored t.map.entries)
      (fits : length t.array < I64.max_value) where
    get-integer : (i : ℕ) → get (integer i) t ≡ lookup (integer i) t
    unfolding table_key
    get-integer i = get-lookup (integer i) t refl

    nil_in_array :
        (i : ℕ)
        → 0 < i
        → i ≤ length t.array
        → is_nil_at t i ≡ is_nil_value (get_or t.array (i - 1) nil)
    unfolding array_slot to_array_index positive_index
    nil_in_array i h k = ap is_nil_value (get-integer i ∙ lookup-slot (integer i) t (ground arith))

    nil_of_map : (i : ℕ) → is_nil_value (map_get (integer i) t) ≡ not (contains_integer t i)
    unfolding map_get contains_integer or_nil is_stored HashMap.get is_nil_value
    nil_of_map i = elim (Option-cases (find key_eq (integer i) t.map.entries)) [
      | inl n ↦ rw n refl
      | inr (v, e) ↦
          rw e
            (AllHeld-find key_eq (λ v. is_nil_value v ≡ false) (integer i) t.map.entries stored e)
    ]

    nil_in_map :
        (i : ℕ)
        → length t.array < i
        → i ≤ I64.max_value
        → is_nil_at t i ≡ not (contains_integer t i)
    unfolding array_slot to_array_index positive_index
    nil_in_map i h k =
        ap is_nil_value (get-integer i ∙ lookup-map (integer i) t (ground arith)) ∙ nil_of_map i

    -- The end of the array part, where the first branch of `length` is not taken.
    last_value :
        (ltb 0 (length t.array) && is_nil_value (get_or t.array (length t.array - 1) nil)) ≡ false
        → (length t.array ≡ 0) ⊎ (is_nil_at t (length t.array) ≡ false)
    last_value h = elim (Bool-cases (length t.array == 0)) [
      | inl e ↦ inl (ground arith)
      | inr e ↦ inr (nil_in_array (length t.array) (ground arith) (omega arith) ∙ ground arith)
    ]

    in_array :
        (r : ℕ)
        → Found 0 (length t.array) (λ i. is_nil_value (get_or t.array (i - 1) nil)) r
        → IsBorder t r
    in_array r found = record {
      starts = elim (Bool-cases (r == 0)) [
        | inl e ↦ inl (ground arith)
        | inr e ↦ inr (
            nil_in_array r (ground arith) (omega (arith, found.before)) ∙ found.held (ground arith))
      ];
      ends =
          inr (nil_in_array (r + 1) (omega arith) (omega (arith, found.before)) ∙ found.next_nil);
    }

    in_map :
        (m r : ℕ)
        → m ≤ I64.max_value
        → (length t.array ≡ 0) ⊎ (is_nil_at t (length t.array) ≡ false)
        → Found (length t.array) m (λ i. not (contains_integer t i)) r
        → IsBorder t r
    in_map m r h last found = record {
      starts = elim (Bool-cases (r == length t.array)) [
        | inl e ↦ subst (λ n. (n ≡ 0) ⊎ (is_nil_at t n ≡ false)) (ground arith) last
        | inr e ↦ inr (
            nil_in_map r (ground (arith, found.from)) (omega (arith, found.before))
            ∙ found.held (ground arith))
      ];
      ends = inr (
          nil_in_map (r + 1) (omega (arith, found.from)) (omega (arith, found.before))
          ∙ found.next_nil);
    }

    map_border-IsBorder :
        (length t.array ≡ 0) ⊎ (is_nil_at t (length t.array) ≡ false)
        → IsBorder t (map_border t (length t.array))
    unfolding map_border
    map_border-IsBorder last =
        let n = length t.array in
        let missing =
          find_nil-Missing 64 (n + 1) (contains_integer t) (omega arith) (inl (omega arith)) in
        elim (Option-cases (find_nil 64 (n + 1) (contains_integer t))) [
          | inl e ↦
              let all = subst (Missing (n + 1) (contains_integer t)) e missing in
              rw (e, map_border)
                (record {
                  starts = inr (nil_in_map I64.max_value fits (omega arith) ∙ ap not all);
                  ends = inl refl;
                })
          | inr (m, e) ↦
              let (free, from, last_m) = subst (Missing (n + 1) (contains_integer t)) e missing in
              rw (e, map_border)
                (in_map m _ last_m last (
                  binary_search-Found 64 n m (λ i. not (contains_integer t i)) (omega arith)
                    (omega arith) (ap not free)))
        ]

    nil_behind : length t.map.entries ≡ 0 → is_nil_at t (length t.array + 1) ≡ true
    unfolding contains_integer is_stored HashMap.get
    nil_behind e =
        nil_in_map (length t.array + 1) (omega arith) (omega arith)
        ∙ ap (λ o. not (is_stored o)) (find-empty key_eq _ t.map.entries e)

    -- For a table whose hash part holds no `nil` and whose array part has fewer than `i64::MAX`
    -- elements, `table_length` returns a border: 0 or an integer whose value is not nil, and
    -- either `i64::MAX` or one before an integer whose value is nil. The fuel of its loops is
    -- enough.
    pub table_length-IsBorder : IsBorder t (table_length t)
    unfolding table_length
    table_length-IsBorder =
        let n = length t.array in
        elim (Bool-cases
          (ltb 0 (length t.array) && is_nil_value (get_or t.array (length t.array - 1) nil))) [
            | inl h ↦ rw h (
                in_array _ (
                  binary_search-Found 64 0 n (λ i. is_nil_value (get_or t.array (i - 1) nil))
                    (ground arith) (omega arith) (ground arith)))
            | inr h ↦ elim (Bool-cases (length t.map.entries == 0)) [
              | inl e ↦
                  rw (h, e)
                    (record { starts = last_value h; ends = inr (nil_behind (ground arith)) })
              | inr e ↦ rw (h, e) (map_border-IsBorder (last_value h))
            ]
          ]

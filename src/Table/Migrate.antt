-- ===== src/Table/Migrate.antt =====
-- The entries that move from the hash part to a larger array part.
use luster.Prelude.{
  ℕ, ◌≡◌, ◌≢◌, refl, sym, ap, ◌∙◌, false, none, some, List, [], ◌∷◌, length, get_or, set,
  length-set, arith, Bool-cases, Option-cases, inl, inr,
}
use luster.Float.{Float, FloatLaws}
use luster.Value.{Value, nil}
use luster.HashMap.{find, Hashing}
use luster.HashMap.Laws.{AllAdmitted, AllHeld, Distinct, find_congr}
use luster.Table.{key_eq, array_slot, migrate}
use luster.Table.Keys.{IsKey}
use luster.Table.Slots.{
  array_slot-lt, array_slot-length, key_eq-Lawful, array_slot_congr, key_eq-array_slot,
}
use luster.Table.Lookup.{AllOutside, get_or-set}

module _ ⦃fl : Float⦄ ⦃hs : Hashing⦄ where
  abbrev pub Entries : Type 0
  Entries = List (Value fl.F64 × Value fl.F64)

  -- The entries that stay, and the array that is left.
  unfoldable pub kept : Entries → List (Value fl.F64) → Entries
  kept es a = (migrate es a).0

  unfoldable pub moved : Entries → List (Value fl.F64) → List (Value fl.F64)
  moved es a = (migrate es a).1

  kept-nil : (a : List (Value fl.F64)) → kept [] a ≡ []
  unfolding kept migrate
  kept-nil a = refl

  moved-nil : (a : List (Value fl.F64)) → moved [] a ≡ a
  unfolding moved migrate
  moved-nil a = refl

  module _ (e : Value fl.F64 × Value fl.F64) (es : Entries) (a : List (Value fl.F64)) where
    migrate-some :
        {i : ℕ} → array_slot e.0 a ≡ some i → migrate (e ∷ es) a ≡ migrate es (set a i e.1)
    unfolding migrate
    migrate-some h = rw (h, migrate) refl

    migrate-none :
        array_slot e.0 a ≡ none → migrate (e ∷ es) a ≡ (e ∷ (migrate es a).0, (migrate es a).1)
    unfolding migrate
    migrate-none h = rw (h, migrate) refl

    kept-some : {i : ℕ} → array_slot e.0 a ≡ some i → kept (e ∷ es) a ≡ kept es (set a i e.1)
    unfolding kept
    kept-some h = ap (λ r. r.0) (migrate-some h)

    moved-some : {i : ℕ} → array_slot e.0 a ≡ some i → moved (e ∷ es) a ≡ moved es (set a i e.1)
    unfolding moved
    moved-some h = ap (λ r. r.1) (migrate-some h)

    kept-none : array_slot e.0 a ≡ none → kept (e ∷ es) a ≡ e ∷ kept es a
    unfolding kept
    kept-none h = ap (λ r. r.0) (migrate-none h)

    moved-none : array_slot e.0 a ≡ none → moved (e ∷ es) a ≡ moved es a
    unfolding moved
    moved-none h = ap (λ r. r.1) (migrate-none h)

  pub length-moved : (es : Entries) (a : List (Value fl.F64)) → length (moved es a) ≡ length a
  length-moved [] a = rw (moved-nil a) refl
  length-moved (e ∷ es) a = elim (Option-cases (array_slot e.0 a)) [
    | inl n ↦ rw (moved-none e es a n) (length-moved es a)
    | inr (i, m) ↦ rw (moved-some e es a m) (length-moved es (set a i e.1) ∙ length-set a i e.1)
  ]

  pub AllAdmitted-kept :
      (P : Value fl.F64 → Type 0) (es : Entries) (a : List (Value fl.F64))
      → AllAdmitted P es
      → AllAdmitted P (kept es a)
  AllAdmitted-kept P [] a h = rw (kept-nil a) tt
  AllAdmitted-kept P (e ∷ es) a (h, hs) = elim (Option-cases (array_slot e.0 a)) [
    | inl n ↦ rw (kept-none e es a n) (h, AllAdmitted-kept P es a hs)
    | inr (i, m) ↦ rw (kept-some e es a m) (AllAdmitted-kept P es (set a i e.1) hs)
  ]

  pub AllHeld-kept :
      (P : Value fl.F64 → Type 0) (es : Entries) (a : List (Value fl.F64))
      → AllHeld P es
      → AllHeld P (kept es a)
  AllHeld-kept P [] a h = rw (kept-nil a) tt
  AllHeld-kept P (e ∷ es) a (h, hs) = elim (Option-cases (array_slot e.0 a)) [
    | inl n ↦ rw (kept-none e es a n) (h, AllHeld-kept P es a hs)
    | inr (i, m) ↦ rw (kept-some e es a m) (AllHeld-kept P es (set a i e.1) hs)
  ]

  -- What stays has no slot in an array of the length of the new one.
  pub AllOutside-kept :
      (es : Entries) (a b : List (Value fl.F64)) → length a ≡ length b → AllOutside b (kept es a)
  AllOutside-kept [] a b h = rw (kept-nil a) tt
  AllOutside-kept (e ∷ es) a b h = elim (Option-cases (array_slot e.0 a)) [
    | inl n ↦
        rw (kept-none e es a n) (sym (array_slot-length e.0 a b h) ∙ n, AllOutside-kept es a b h)
    | inr (i, m) ↦
        rw (kept-some e es a m) (AllOutside-kept es (set a i e.1) b (length-set a i e.1 ∙ h))
  ]

  module _ (laws : FloatLaws fl) (q : Value fl.F64) (hq : IsKey q) where
    apart :
        (k : Value fl.F64) (a : List (Value fl.F64))
        → IsKey k
        → array_slot q a ≢ array_slot k a
        → key_eq q k ≡ false
    apart k a hk ne = elim (Bool-cases (key_eq q k)) [
      | inr e ↦ e
      | inl e ↦ absurd (ne (array_slot_congr laws q k a hq hk e))
    ]

    -- A key with no slot is found as before.
    pub find-kept :
        (es : Entries) (a : List (Value fl.F64))
        → AllAdmitted IsKey es
        → array_slot q a ≡ none
        → find key_eq q (kept es a) ≡ find key_eq q es
    unfolding find
    find-kept [] a hs e = rw (kept-nil a) refl
    find-kept (x ∷ es) a (hx, hs) e = elim (Option-cases (array_slot x.0 a)) [
      | inl n ↦ rw (kept-none x es a n, find-kept es a hs e) refl
      | inr (i, m) ↦
          rw
            (
              kept-some x es a m,
              find-kept es (set a i x.1) hs (array_slot-length q _ a (length-set a i x.1) ∙ e),
              apart x.0 a hx (λ same. cc),
            )
            refl
    ]

    -- A key with a slot is found in it, or what stood there is left.
    pub get_or-moved :
        (es : Entries) (a : List (Value fl.F64)) {j : ℕ}
        → AllAdmitted IsKey es
        → Distinct key_eq es
        → array_slot q a ≡ some j
        → get_or (moved es a) j nil ≡ elim (find key_eq q es) [ some v ↦ v | none ↦ get_or a j nil ]
    unfolding find
    get_or-moved [] a hs d e = rw (moved-nil a) refl
    get_or-moved (x ∷ es) a {j = j} (hx, hs) (f, d) e = elim (Option-cases (array_slot x.0 a)) [
      | inl n ↦ rw (moved-none x es a n, apart x.0 a hx (λ same. cc)) (get_or-moved es a hs d e)
      | inr (i, m) ↦
          let ih =
            get_or-moved es (set a i x.1) hs d (array_slot-length q _ a (length-set a i x.1) ∙ e) in
          rw (moved-some x es a m) (
            ground (
              arith,
              ih,
              key_eq-array_slot laws q x.0 a hq hx e m,
              get_or-set a i j x.1 nil (array_slot-lt x.0 a m),
              find_congr (key_eq-Lawful laws) q x.0 es hq hx hs,
              f,
            ))
    ]

  pub Distinct-kept :
      (laws : FloatLaws fl) (es : Entries) (a : List (Value fl.F64))
      → AllAdmitted IsKey es
      → Distinct key_eq es
      → Distinct key_eq (kept es a)
  Distinct-kept laws [] a hs d = rw (kept-nil a) tt
  Distinct-kept laws (x ∷ es) a (hx, hs) (f, d) = elim (Option-cases (array_slot x.0 a)) [
    | inl n ↦
        rw (kept-none x es a n) (find-kept laws x.0 hx es a hs n ∙ f, Distinct-kept laws es a hs d)
    | inr (i, m) ↦ rw (kept-some x es a m) (Distinct-kept laws es (set a i x.1) hs d)
  ]

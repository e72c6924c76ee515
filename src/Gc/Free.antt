-- ===== src/Gc/Free.antt =====
-- gc-arena/src/context.rs: `Drop` of the arena, which frees every object.
use luster.Prelude.{
  ℕ, zero, suc, ◌<◌, ◌≡◌, refl, true, false, Option, none, some, List, [], ◌∷◌, has, NoRepeat,
  length, arith, subst,
}
use luster.Prelude.Run.{Run, done, ◌>>◌, Returns}
use luster.Float.{Float}
use luster.Gc.{Context, put, deref}
use luster.Gc.Links.{Links}
use luster.Gc.Runs.{Listed}

module _ ⦃fl : Float⦄ where
  -- `DropAll::drop`: the loop along the list of all objects, on fuel; `none` if it runs out.
  unfoldable pub drop_all : ℕ → Option ℕ → Context → Run (Option Context)
  unfolding put
  drop_all fuel none s = done (some s)
  drop_all zero (some p) s = done none
  drop_all (suc fuel) (some p) s = do
    deref p s
    drop_all fuel (s.next p) (record s { live = put s.live p false })

  -- `Drop for Context`
  unfoldable pub drop : ℕ → Context → Run (Option Context)
  drop fuel s = drop_all fuel s.all s

  drop_all-frees :
      (fuel : ℕ) (a : Option ℕ) (xs : List ℕ) (s : Context)
      → Links s.next a xs none
      → NoRepeat xs
      → ((p : ℕ) → s.live p ≡ has p xs)
      → length xs < suc fuel
      → Returns
          (drop_all fuel a s)
          (λ o. (t : Context) × (o ≡ some t) × ((p : ℕ) → t.live p ≡ false))
  unfolding drop_all put
  drop_all-frees fuel none [] s l n every lt = (some s, refl, (s, refl, every))
  drop_all-frees fuel (some p) [] s l n every lt = cc
  drop_all-frees fuel none (x ∷ xs) s (h, l) n every lt = cc
  drop_all-frees zero (some p) (x ∷ xs) s (h, l) n every lt = ground arith
  drop_all-frees (suc fuel) (some p) (x ∷ xs) s (h, l) (out, n) every lt =
      let same : x ≡ p = ground arith in
      let there : s.live p ≡ true = ground (arith, every p) in
      rw there (
        drop_all-frees fuel (s.next p) xs (record s { live = put s.live p false })
          (subst (λ q. Links s.next (s.next q) xs none) same l) n (λ q. ground (arith, every q))
          (omega arith))

  -- Dropping an arena whose list of objects is in order, with fuel for every object, returns,
  -- reads no object that it has freed, and frees every one.
  pub drop-frees :
      (s : Context) (l : Listed s) (fuel : ℕ)
      → length l.objects < suc fuel
      → Returns (drop fuel s) (λ o. (t : Context) × (o ≡ some t) × ((p : ℕ) → t.live p ≡ false))
  unfolding drop
  drop-frees s l fuel lt = drop_all-frees fuel s.all l.objects s l.linked l.once l.every lt

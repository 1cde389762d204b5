-- ===== src/Common/Loop.antt =====
-- Loops with early exits, on fuel, and the rules by which they are proved.
use Prim.Native.Nat.{ℕ, zero, suc, ◌<◌}
use mathlib.Core.Path.{◌≡◌, refl}
use native.Mathlib.Omega.{arith}

-- What one round of a loop does: go round again, or leave with a result.
pub data Flow {ℓ κ} (S : Type ℓ) (R : Type κ) : Type (ℓ ⊔ κ) where
  next : S → Flow S R
  stop : R → Flow S R

module _ {ℓ κ} {S : Type ℓ} {R : Type κ} where
  -- `out` is what the loop gives where the fuel ends.
  unfoldable pub loop : ℕ → (S → R) → (S → Flow S R) → S → R
  loop zero out body s = out s
  loop (suc fuel) out body s = elim (body s) [ next t ↦ loop fuel out body t | stop r ↦ r ]

  -- The rounds of the loop from `s` end, by its own exit, with the result `r`.
  pub data Runs (body : S → Flow S R) : S → R → Type (ℓ ⊔ κ) where
    exit : {s : S} {r : R} → body s ≡ stop r → Runs body s r
    round : {s t : S} {r : R} → body s ≡ next t → Runs body t r → Runs body s r

module _ {ℓ κ μ ν} {S : Type ℓ} {R : Type κ} (P : S → Type μ) (Q : R → Type ν) where
  -- A round keeps the invariant and lowers the measure, or establishes the result's property.
  pub data Round (measure : S → ℕ) (s : S) : Flow S R → Type (ℓ ⊔ κ ⊔ μ ⊔ ν) where
    again : {t : S} → P t → measure t < measure s → Round measure s (next t)
    leave : {r : R} → Q r → Round measure s (stop r)

  loop_step :
      (measure : S → ℕ) {s : S} {f : Flow S R} (rest : S → R)
      → Round measure s f
      → ((t : S) → P t → measure t < measure s → Q (rest t))
      → Q (elim f [ next t ↦ rest t | stop r ↦ r ])
  loop_step measure rest (again p h) k = k _ p h
  loop_step measure rest (leave q) k = q

  -- With a measure below the fuel the loop's result has the property that every exit establishes.
  pub loop_rule :
      (measure : S → ℕ) (out : S → R) (body : S → Flow S R)
      → ((s : S) → P s → Round measure s (body s))
      → (fuel : ℕ) (s : S) → measure s < fuel
      → P s
      → Q (loop fuel out body s)
  unfolding loop
  loop_rule measure out body keep zero s h p = absurd (omega arith)
  loop_rule measure out body keep (suc fuel) s h p =
      loop_step measure (λ t. loop fuel out body t) (keep s p)
        λ t q l. loop_rule measure out body keep fuel t (omega arith) q

  Runs-step :
      (measure : S → ℕ) (body : S → Flow S R) (s : S) (f : Flow S R) (rest : S → R)
      → body s ≡ f
      → Round measure s f
      → ((t : S) → P t → measure t < measure s → Runs body t (rest t))
      → Runs body s (elim f [ next t ↦ rest t | stop r ↦ r ])
  Runs-step measure body s (next t) rest e (again p h) k = round e (k t p h)
  Runs-step measure body s (stop r) rest e (leave q) k = exit e

  -- Such a loop ends by an exit of its own, never for want of fuel.
  pub loop-Runs :
      (measure : S → ℕ) (out : S → R) (body : S → Flow S R)
      → ((s : S) → P s → Round measure s (body s))
      → (fuel : ℕ) (s : S) → measure s < fuel
      → P s
      → Runs body s (loop fuel out body s)
  unfolding loop
  loop-Runs measure out body keep zero s h p = absurd (omega arith)
  loop-Runs measure out body keep (suc fuel) s h p =
      Runs-step measure body s (body s) (λ t. loop fuel out body t) refl (keep s p)
        λ t q l. loop-Runs measure out body keep fuel t (omega arith) q

-- ===== src/Prelude/Maps.antt =====
-- Functions of a number changed at one place.
use Prim.Native.Nat.{ℕ}
use mathlib.Core.Path.{◌≡◌, ap, ◌∙◌}
use mathlib.Core.Logic.{◌≢◌, inl, inr}
use native.Mathlib.Omega.{arith}
use my_posts.Prelude.Tests.{◌==◌, if◌then◌else◌, eq_self, ne_eq, Bool-cases}

abbrev pub set {ℓ} : {A : Type ℓ} → (ℕ → A) → ℕ → A → ℕ → A
set f k v n = if n == k then v else f n

pub set-same {ℓ} : {A : Type ℓ} (f : ℕ → A) (k : ℕ) (v : A) → set f k v k ≡ v
set-same f k v = rw (eq_self k)

pub set-other {ℓ} : {A : Type ℓ} (f : ℕ → A) (k j : ℕ) (v : A) → j ≢ k → set f k v j ≡ f j
set-other f k j v ne = rw (ne_eq j k ne)

-- What stands there already may be stored again.
pub set-absorb {ℓ} :
    {A : Type ℓ} (f : ℕ → A) (k : ℕ) (v : A) → f k ≡ v → (j : ℕ) → f j ≡ set f k v j
set-absorb f k v e j = elim (Bool-cases (j == k)) [
  | inl x ↦ let w : j ≡ k = ground arith in rw x (ap f w ∙ e)
  | inr x ↦ rw x
]

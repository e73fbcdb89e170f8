-- ===== src/Prelude/Del.antt =====
-- A list of numbers without one of them.
use Prim.Native.Nat.{ℕ, suc}
use mathlib.Core.Path.{◌≡◌, refl, ap, ◌∙◌, subst}
use mathlib.Core.Logic.{◌≢◌, inl, inr}
use mathlib.Core.Bool.{true, false}
use mathlib.Core.List.{List, [], ◌∷◌, ◌++◌}
use native.Mathlib.Omega.{arith}
use my_posts.Prelude.Tests.{◌==◌, if◌then◌else◌, Bool-cases}
use my_posts.Prelude.Lists.{length, has, IsOnce}

-- A list without an entry's first place.
unfoldable pub del : ℕ → List ℕ → List ℕ
del k [] = []
del k (j ∷ js) = let rest = del k js in if j == k then js else j ∷ rest

pub length-del : (k : ℕ) (js : List ℕ) → has k js ≡ true → length js ≡ suc (length (del k js))
unfolding del
length-del k [] i = ground (arith, i)
length-del k (j ∷ js) i = elim (Bool-cases (j == k)) [
  | inl x ↦ rw x refl
  | inr x ↦ rw x (ap suc (length-del k js (ground (arith, i, x))))
]

pub has-del-other : (j k : ℕ) (js : List ℕ) → j ≢ k → has j (del k js) ≡ has j js
unfolding del
has-del-other j k [] ne = refl
has-del-other j k (i ∷ js) ne = elim (Bool-cases (i == k)) [
  | inl x ↦ let e : (i == j) ≡ false = ground (arith, x, ne) in rw (x, e) refl
  | inr x ↦ rw (x, has-del-other j k js ne) refl
]

pub has-del-same : (k : ℕ) (js : List ℕ) → IsOnce js → has k (del k js) ≡ false
unfolding del
has-del-same k [] once = refl
has-del-same k (j ∷ js) once = elim (Bool-cases (j == k)) [
  | inl x ↦ let same : j ≡ k = ground (arith, x) in rw x (subst (λ w. has w js ≡ false) same once.0)
  | inr x ↦ rw (x, has-del-same k js once.1) (ground (arith, x))
]

pub del-IsOnce : (k : ℕ) (js : List ℕ) → IsOnce js → IsOnce (del k js)
unfolding del
del-IsOnce k [] once = once
del-IsOnce k (j ∷ js) once = elim (Bool-cases (j == k)) [
  | inl x ↦ rw x once.1
  | inr x ↦ rw x (has-del-other j k js (λ w. ground (arith, w, x)) ∙ once.0, del-IsOnce k js once.1)
]

-- What was put at the end is taken out.
pub del-snoc : (k : ℕ) (js : List ℕ) → has k js ≡ false → del k (js ++ (k ∷ [])) ≡ js
unfolding del
del-snoc k [] out = ground arith
del-snoc k (j ∷ js) out =
    let e : (j == k) ≡ false = ground (arith, out) in
    rw e (ap (λ w. j ∷ w) (del-snoc k js (ground (arith, out))))

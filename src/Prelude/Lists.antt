-- ===== src/Prelude/Lists.antt =====
-- Lists measured by native numbers, under the library's names.
use Prim.Native.Nat.{ℕ, zero, suc, ◌+◌, ◌<◌}
use mathlib.Core.Option.{Option, none, some, some-injective}
use mathlib.Core.Logic.{◌⊎◌, inl, inr}
use mathlib.Core.Path.{◌≡◌, refl, ◌∙◌}
use mathlib.Core.List.{List, [], ◌∷◌, ◌++◌}
use mathlib.Core.Bool.{Bool, false, ◌||◌}
use my_posts.Prelude.Tests.{◌==◌}
use native.Mathlib.Omega.{arith}

module _ {ℓ} {A : Type ℓ} where
  abbrev pub length : List A → ℕ
  length [] = 0
  length (x ∷ xs) = suc (length xs)

  abbrev pub take : ℕ → List A → List A
  take zero xs = []
  take (suc n) [] = []
  take (suc n) (x ∷ xs) = x ∷ take n xs

  abbrev pub drop : ℕ → List A → List A
  drop zero xs = xs
  drop (suc n) [] = []
  drop (suc n) (x ∷ xs) = drop n xs

  pub List-cases : (xs : List A) → (xs ≡ []) ⊎ ((x : A) × (rest : List A) × (xs ≡ x ∷ rest))
  List-cases [] = inl refl
  List-cases (x ∷ xs) = inr (x, xs, refl)

  pub take-append-drop : (n : ℕ) (xs : List A) → take n xs ++ drop n xs ≡ xs
  take-append-drop zero xs = refl
  take-append-drop (suc n) [] = refl
  take-append-drop (suc n) (x ∷ xs) = rw (take-append-drop n xs)

  pub length-append : (xs ys : List A) → length (xs ++ ys) ≡ length xs + length ys
  length-append [] ys = omega arith
  length-append (x ∷ xs) ys = omega (arith, length-append xs ys)

module _ {ℓ} {A : Type ℓ} where
  abbrev pub get_elem? : List A → ℕ → Option A
  get_elem? [] i = none
  get_elem? (x ∷ xs) zero = some x
  get_elem? (x ∷ xs) (suc i) = get_elem? xs i

  -- An entry of a list with one entry more is an old one or the new one.
  pub get_elem?-snoc :
      (xs : List A) (y x : A) (i : ℕ)
      → get_elem? (xs ++ y ∷ []) i ≡ some x
      → ((i < length xs) × (get_elem? xs i ≡ some x)) ⊎ ((i ≡ length xs) × (y ≡ x))
  get_elem?-snoc [] y x zero h = inr (refl, some-injective y x h)
  get_elem?-snoc [] y x (suc i) h = ground arith
  get_elem?-snoc (z ∷ xs) y x zero h = inl (omega arith, h)
  get_elem?-snoc (z ∷ xs) y x (suc i) h = elim (get_elem?-snoc xs y x i h) [
    | inl (a, b) ↦ inl (omega (arith, a), b)
    | inr (a, b) ↦ inr (omega (arith, a), b)
  ]

  pub get_elem?-lt : (xs : List A) (x : A) (i : ℕ) → get_elem? xs i ≡ some x → i < length xs
  get_elem?-lt [] x i h = ground arith
  get_elem?-lt (z ∷ xs) x zero h = omega arith
  get_elem?-lt (z ∷ xs) x (suc i) h = omega (arith, get_elem?-lt xs x i h)

-- The number `n` stands in the list.
abbrev pub has : ℕ → List ℕ → Bool
has n [] = false
has n (k ∷ ks) = (k == n) || has n ks

pub has-append : (n : ℕ) (xs ys : List ℕ) → has n (xs ++ ys) ≡ (has n xs || has n ys)
has-append n [] ys = refl
has-append n (x ∷ xs) ys = ground (arith, has-append n xs ys)

-- No number stands in the list twice.
abbrev pub IsOnce : List ℕ → Type 0
IsOnce [] = Unit
IsOnce (n ∷ ns) = (has n ns ≡ false) × IsOnce ns

pub snoc-IsOnce : (k : ℕ) (js : List ℕ) → has k js ≡ false → IsOnce js → IsOnce (js ++ (k ∷ []))
snoc-IsOnce k [] out once = (refl, _)
snoc-IsOnce k (j ∷ js) out once = (
  has-append j js (k ∷ []) ∙ ground (arith, out, once.0),
  snoc-IsOnce k js (ground (arith, out)) once.1,
)

-- What holds of both cases holds of the case split.
pub List_both {ℓ κ μ} :
    {A : Type ℓ} {B : Type κ} (P : B → Type μ) (xs : List A) (b : B) (f : A → List A → B)
    → P b
    → ((x : A) (rest : List A) → P (f x rest))
    → P (elim xs as (λ _. B) [ [] ↦ b | x ∷ rest ↦ f x rest ])
List_both P [] b f p q = p
List_both P (x ∷ xs) b f p q = q x xs

pub List_split {ℓ κ μ} :
    {A : Type ℓ} {B : Type κ} (P : B → Type μ) (xs : List A) (b : B) (f : A → List A → B)
    → (xs ≡ [] → P b)
    → ((x : A) (rest : List A) → xs ≡ x ∷ rest → P (f x rest))
    → P (elim xs as (λ _. B) [ [] ↦ b | x ∷ rest ↦ f x rest ])
List_split P [] b f p q = p refl
List_split P (x ∷ xs) b f p q = q x xs refl

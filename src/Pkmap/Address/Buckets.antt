-- ===== src/Pkmap/Address/Buckets.antt =====
-- Walks along a bucket of the hash table.
use mathlib.Core.Path.{subst}
use mathlib.Core.Option.{some-injective}
use my_posts.Prelude.{
  ℕ, ◌≡◌, ◌≢◌, refl, sym, ap, ◌∙◌, inl, inr, true, false, ◌||◌, none, some, List, [], ◌∷◌, ◌==◌,
  if◌then◌else◌, has, IsOnce, arith, Bool-cases, eq_self,
}
use my_posts.Pkmap.Address.{Table, find, unlink}

-- What a walk finds is an entry for the page.
pub find-some :
    (t : Table) (p : ℕ) (is : List ℕ) (v : ℕ)
    → find t p is ≡ some v
    → (j : ℕ) × (has j is ≡ true) × (t.page j ≡ p) × (t.address j ≡ v)
unfolding find
find-some t p [] v e = ground (arith, e)
find-some t p (i ∷ is) v e = elim (Bool-cases (t.page i == p)) [
  | inl x ↦ (
    i,
    ap (λ b. b || has i is) (eq_self i),
    ground (arith, x),
    some-injective (t.address i) v
        (sym (ap (λ b. if b then some (t.address i) else find t p is) x) ∙ e),
  )
  | inr x ↦
      let (j, inside, of_p, at_v) =
        find-some t p is v (sym (ap (λ b. if b then some (t.address i) else find t p is) x) ∙ e) in
      (j, ground (arith, inside), of_p, at_v)
]

pub find-none :
    (t : Table) (p : ℕ) (is : List ℕ) (j : ℕ) → find t p is ≡ none → has j is ≡ true → t.page j ≢ p
unfolding find
find-none t p [] j e i w = ground (arith, i)
find-none t p (k ∷ is) j e i w = elim (Bool-cases (t.page k == p)) [
  | inl x ↦
      let wrong = sym (ap (λ b. if b then some (t.address k) else find t p is) x) ∙ e in
      ground (arith, wrong)
  | inr x ↦
      let later = sym (ap (λ b. if b then some (t.address k) else find t p is) x) ∙ e in
      elim (Bool-cases (k == j)) [
        | inl y ↦
            let same : k ≡ j = ground (arith, y) in
            let at : t.page k ≡ p = ap t.page same ∙ w in ground (arith, at, x)
        | inr y ↦ find-none t p is j later (ground (arith, i, y)) w
      ]
]

pub has-unlink-other :
    (t : Table) (p : ℕ) (is : List ℕ) (j : ℕ) → t.page j ≢ p → has j (unlink t p is) ≡ has j is
unfolding unlink
has-unlink-other t p [] j ne = refl
has-unlink-other t p (k ∷ is) j ne = elim (Bool-cases (t.page k == p)) [
  | inl x ↦
      let apart : k ≢ j = λ w. ne (ap t.page (sym w) ∙ ground (arith, x)) in
      let e : (k == j) ≡ false = ground (arith, apart) in rw (x, e) refl
  | inr x ↦ rw x (ap (λ b. (k == j) || b) (has-unlink-other t p is j ne))
]

-- The page has one entry, and that goes.
pub has-unlink :
    (t : Table) (p : ℕ) (is : List ℕ) (j : ℕ)
    → IsOnce is
    → ((k : ℕ) → has k is ≡ true → t.page k ≡ p → k ≡ j)
    → t.page j ≡ p
    → has j (unlink t p is) ≡ false
unfolding unlink
has-unlink t p [] j once one e = refl
has-unlink t p (k ∷ is) j once one e = elim (Bool-cases (t.page k == p)) [
  | inl x ↦
      let same = one k (ap (λ b. b || has k is) (eq_self k)) (ground (arith, x)) in
      rw x (subst (λ w. has w is ≡ false) same once.0)
  | inr x ↦
      let apart : (k == j) ≡ false = elim (Bool-cases (k == j)) [
        | inl y ↦
            let w : k ≡ j = ground (arith, y) in
            let at : t.page k ≡ p = ap t.page w ∙ e in ground (arith, at, x)
        | inr y ↦ y
      ] in
      rw (x, apart) (has-unlink t p is j once.1 (λ m i w. one m (ground (arith, i)) w) e)
]

pub has-unlink-le :
    (t : Table) (p : ℕ) (is : List ℕ) (j : ℕ) → has j (unlink t p is) ≡ true → has j is ≡ true
unfolding unlink
has-unlink-le t p [] j i = i
has-unlink-le t p (k ∷ is) j i = elim (Bool-cases (t.page k == p)) [
  | inl x ↦
      let later = sym (ap (λ b. has j (if b then is else k ∷ unlink t p is)) x) ∙ i in
      ground (arith, later)
  | inr x ↦
      let here = sym (ap (λ b. has j (if b then is else k ∷ unlink t p is)) x) ∙ i in
      elim (Bool-cases (k == j)) [
        | inl y ↦ ap (λ b. b || has j is) y
        | inr y ↦
            let later = has-unlink-le t p is j (ground (arith, here, y)) in ground (arith, later)
      ]
]

pub unlink-IsOnce : (t : Table) (p : ℕ) (is : List ℕ) → IsOnce is → IsOnce (unlink t p is)
unfolding unlink
unlink-IsOnce t p [] once = once
unlink-IsOnce t p (k ∷ is) once = elim (Bool-cases (t.page k == p)) [
  | inl x ↦ rw x once.1
  | inr x ↦
      let other : t.page k ≢ p = λ w. ground (arith, w, x) in
      rw x (has-unlink-other t p is k other ∙ once.0, unlink-IsOnce t p is once.1)
]

-- ===== src/Buddy/Valid/Count.antt =====
-- The number of free pages, by the sizes of the free blocks.
use native.Mathlib.Nat.{add-mul, one-mul}
use my_posts.Prelude.{
  ℕ, zero, suc, ◌+◌, ◌-◌, ◌*◌, ◌^◌, ◌≤◌, ◌<◌, ◌≡◌, refl, sym, ap, ◌∙◌, inl, inr, arith, true, false,
  ◌&&◌, Bool-cases, some, List, [], ◌∷◌, length, has, set, ◌==◌,
}
use my_posts.Buddy.{Zone, has_order, max_order, migrate_types}
use my_posts.Buddy.Valid.{in_all, IsLinked, drop_block, add_block}

-- The pages in the blocks of the orders below `n`.
unfoldable pub weight : ℕ → (ℕ → ℕ) → ℕ
weight zero nr = 0
weight (suc n) nr = weight n nr + nr n * 2 ^ n

weight-out : (n o v : ℕ) (nr : ℕ → ℕ) → n ≤ o → weight n (set nr o v) ≡ weight n nr
unfolding weight
weight-out zero o v nr le = refl
weight-out (suc n) o v nr le =
    let e : (n == o) ≡ false = ground (arith, le) in
    rw (weight-out n o v nr (omega (arith, le)), e) refl

weight-set :
    (n o v : ℕ) (nr : ℕ → ℕ)
    → o < n
    → weight n (set nr o v) + nr o * 2 ^ o ≡ weight n nr + v * 2 ^ o
unfolding weight
weight-set zero o v nr lt = absurd (omega (arith, lt))
weight-set (suc n) o v nr lt = elim (Bool-cases (n == o)) [
  | inl x ↦
      let e : n ≡ o = ground (arith, x) in
      rw (x, weight-out n o v nr (omega (arith, e)), e) (omega arith)
  | inr x ↦ rw x (omega (arith, weight-set n o v nr (ground (arith, x, lt))))
]

pub weight-more :
    (n o : ℕ) (nr : ℕ → ℕ) → o < n → weight n (set nr o (nr o + 1)) ≡ weight n nr + 2 ^ o
weight-more n o nr lt =
    omega (arith, weight-set n o (nr o + 1) nr lt, add-mul (nr o) 1 (2 ^ o), one-mul (2 ^ o))

pub weight-less :
    (n o : ℕ) (nr : ℕ → ℕ) → o < n → 1 ≤ nr o → weight n (set nr o (nr o - 1)) + 2 ^ o ≡ weight n nr
weight-less n o nr lt le =
    let e : nr o - 1 + 1 ≡ nr o = omega (arith, le) in
    omega (
      arith,
      weight-set n o (nr o - 1) nr lt,
      ap (λ t. t * 2 ^ o) (sym e) ∙ add-mul (nr o - 1) 1 (2 ^ o),
      one-mul (2 ^ o),
    )

length-has : (p : ℕ) (js : List ℕ) → has p js ≡ true → 1 ≤ length js
length-has p [] h = ground (arith, h)
length-has p (j ∷ js) h = omega arith

pub one_of-in_all :
    (t p : ℕ) (list : ℕ → List ℕ) → t < migrate_types → has p (list t) ≡ true → 1 ≤ in_all list
one_of-in_all zero p list lt h = omega (arith, length-has p (list 0) h)
one_of-in_all (suc zero) p list lt h = omega (arith, length-has p (list 1) h)
one_of-in_all (suc (suc zero)) p list lt h = omega (arith, length-has p (list 2) h)
one_of-in_all (suc (suc (suc zero))) p list lt h = omega (arith, length-has p (list 3) h)
one_of-in_all (suc (suc (suc (suc t)))) p list lt h = absurd (omega (arith, lt))

-- The pages in the free blocks of a zone.
abbrev pub free_count : Zone → ℕ
free_count z = weight max_order z.nr_free

pub drop-free_count :
    (z : Zone) (list_of : ℕ → ℕ) (p o : ℕ)
    → IsLinked z list_of
    → o < max_order
    → z.order p ≡ some o
    → free_count (drop_block z p o) + 2 ^ o ≡ free_count z
drop-free_count z list_of p o linked lt e =
    let on : has p (z.free_list o (list_of p)) ≡ true =
      linked.listed.on_list o (list_of p) p
      ∙ ap (λ x. has_order x o && (list_of p == list_of p)) e
      ∙ ground arith in
    weight-less max_order o z.nr_free lt (
      omega (
        arith,
        linked.tally o,
        one_of-in_all (list_of p) p (z.free_list o) (linked.listed.typed p o e) on,
      ))

pub add-free_count :
    (z : Zone) (p o mt : ℕ) (pages : List ℕ)
    → o < max_order
    → free_count (add_block z p o mt pages) ≡ free_count z + 2 ^ o
add-free_count z p o mt pages lt = weight-more max_order o z.nr_free lt

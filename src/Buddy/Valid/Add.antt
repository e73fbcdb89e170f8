-- ===== src/Buddy/Valid/Add.antt =====
-- A block becomes free.
pub mod Tiled
use mathlib.Core.Option.{some-injective, none-ne-some}
use mathlib.Core.Path.{subst}
use my_posts.Prelude.{
  length-append, has-append, snoc-IsOnce, [], ◌∷◌, ◌++◌, two_pow-pos, length, if_both, ℕ, suc, ◌+◌,
  ◌<◌, ◌≡◌, refl, sym, ap, ◌∙◌, ◌≢◌, ◌↔◌, ◌⊎◌, inl, inr, arith, Bool, true, false, not, ◌&&◌, ◌||◌,
  Bool-cases, none, some, List, ◌==◌, has, IsOnce, set, set-same, set-other, if◌then◌else◌,
}
use my_posts.Buddy.{Zone, has_order, page_is_buddy, max_order, migrate_types}
use my_posts.Buddy.Pair.{buddy, IsPair, buddy-IsPair}
use my_posts.Buddy.Valid.{IsListed, IsLinked, IsTiled, IsHeld, IsFree, IsIn, IsApart, add_block}
use my_posts.Buddy.Valid.Lists.{tally-add}

-- A list that has `p` besides the pages of another.
pub record IsMore (p : ℕ) (pages old : List ℕ) : Type 0 where
  pub once : IsOnce pages
  pub has_more : (q : ℕ) → has q pages ≡ ((q == p) || has q old)
  pub longer : length pages ≡ suc (length old)

-- A page is put before a list where it is not, or behind it.
pub cons-IsMore : (p : ℕ) (old : List ℕ) → IsOnce old → has p old ≡ false → IsMore p (p ∷ old) old
cons-IsMore p old once out = record {
  once = (out, once);
  has_more = λ q. ground arith;
  longer = refl;
}

pub snoc-IsMore :
    (p : ℕ) (old : List ℕ) → IsOnce old → has p old ≡ false → IsMore p (old ++ (p ∷ [])) old
snoc-IsMore p old once out = record {
  once = snoc-IsOnce p old out once;
  has_more = λ q. has-append q old (p ∷ []) ∙ ground arith;
  longer = omega (arith, length-append old (p ∷ []));
}

-- A free block is the new one or an old one.
pub new-add :
    (z : Zone) (p o mt q k : ℕ) (pages : List ℕ)
    → (add_block z p o mt pages).order q ≡ some k
    → ((q ≡ p) × (k ≡ o)) ⊎ ((q ≢ p) × (z.order q ≡ some k))
new-add z p o mt q k pages e = elim (Bool-cases (q == p)) [
  | inl x ↦ inl (
    ground (arith, x),
    some-injective k o
        (sym e ∙ ap (set z.order p (some o)) (ground (arith, x)) ∙ set-same z.order p (some o)),
  )
  | inr x ↦ inr (λ w. ground (arith, w, x), ground (arith, e, x))
]

module _ (z : Zone) (list_of : ℕ → ℕ) (p o mt : ℕ) (pages : List ℕ) (listed : IsListed z list_of)
    (out : z.order p ≡ none) (lt : mt < migrate_types)
    (more : IsMore p pages (z.free_list o mt)) where
  list-add :
      (k t : ℕ)
      → (add_block z p o mt pages).free_list k t
        ≡ (if (k == o) && (t == mt) then pages else z.free_list k t)
  list-add k t = elim (Bool-cases (k == o)) [
    | inl x ↦ rw x (ap (λ w. if t == mt then pages else z.free_list w t) (ground (arith, x)))
    | inr x ↦ rw x
  ]

  has-add-list :
      (k t q : ℕ)
      → has q ((add_block z p o mt pages).free_list k t)
        ≡ (((q == p) && ((k == o) && (t == mt))) || has q (z.free_list k t))
  has-add-list k t q = ap (has q) (list-add k t) ∙ elim (Bool-cases ((k == o) && (t == mt))) [
    | inl x ↦
        let a : k ≡ o = ground (arith, x) in
        let b : t ≡ mt = ground (arith, x) in
        rw x (
          more.has_more q
          ∙ ap (λ w. (q == p) || has q w)
              (ap (λ w. z.free_list w mt) (sym a) ∙ ap (z.free_list k) (sym b))
          ∙ ground arith)
    | inr x ↦ rw x (ground arith)
  ]

  absent : (k t : ℕ) → has p (z.free_list k t) ≡ false
  absent k t = listed.on_list k t p ∙ ap (λ x. has_order x k && (list_of p == t)) out

  has-add-same :
      (k t : ℕ) → has p ((add_block z p o mt pages).free_list k t) ≡ ((o == k) && (mt == t))
  has-add-same k t = has-add-list k t p ∙ ground (arith, absent k t)

  has-add-other :
      (k t q : ℕ)
      → q ≢ p
      → has q ((add_block z p o mt pages).free_list k t)
        ≡ (has_order (z.order q) k && (list_of q == t))
  has-add-other k t q ne = has-add-list k t q ∙ ground (arith, ne) ∙ listed.on_list k t q

  has-add :
      (k t q : ℕ)
      → has q ((add_block z p o mt pages).free_list k t)
        ≡ (has_order ((add_block z p o mt pages).order q) k && (set list_of p mt q == t))
  has-add k t q = elim (Bool-cases (q == p)) [
    | inl x ↦
        let w : q ≡ p = ground (arith, x) in
        rw x (ap (λ r. has r ((add_block z p o mt pages).free_list k t)) w ∙ has-add-same k t)
    | inr x ↦ rw x (has-add-other k t q (λ w. ground (arith, w, x)))
  ]

  add-IsOnce : (k t : ℕ) → IsOnce ((add_block z p o mt pages).free_list k t)
  add-IsOnce k t =
      subst IsOnce (sym (list-add k t))
        (if_both IsOnce ((k == o) && (t == mt)) pages (z.free_list k t) more.once (listed.once k t))

  pub add-IsListed : IsListed (add_block z p o mt pages) (set list_of p mt)
  add-IsListed = record {
    once = add-IsOnce;
    on_list = has-add;
    typed = λ q k h. elim (new-add z p o mt q k pages h) [
      | inl (e, i) ↦ rw (e, set-same list_of p mt) lt
      | inr (ne, i) ↦ rw (set-other list_of p q mt ne) (listed.typed q k i)
    ];
  }

pub add-IsLinked :
    (z : Zone) (list_of : ℕ → ℕ) (p o mt : ℕ) (pages : List ℕ)
    → IsLinked z list_of
    → z.order p ≡ none
    → mt < migrate_types
    → IsMore p pages (z.free_list o mt)
    → IsLinked (add_block z p o mt pages) (set list_of p mt)
add-IsLinked z list_of p o mt pages linked out lt more = record {
  listed = add-IsListed z list_of p o mt pages linked.listed out lt more;
  tally = λ k. elim (Bool-cases (k == o)) [
    | inl x ↦
        rw x (ap (λ t. t + 1) (linked.tally o) ∙ tally-add mt (z.free_list o) pages lt more.longer)
    | inr x ↦ rw x (linked.tally k)
  ];
}

-- The pages of the block become free, and only these.
pub add-IsFree :
    (z : Zone) (p o mt n : ℕ) (pages : List ℕ)
    → z.order p ≡ none
    → IsFree (add_block z p o mt pages) n ↔ (IsFree z n ⊎ IsIn p o n)
unfolding IsFree
add-IsFree z p o mt n pages out = (
  λ f.
      let (q, k, h, i) = f in
      elim (new-add z p o mt q k pages h) [
        | inl (e, e') ↦ inr (subst (λ t. IsIn t o n) e (subst (λ t. IsIn q t n) e' i))
        | inr (ne, h') ↦ inl (q, k, h', i)
      ],
  λ f. elim f [
    | inl (q, k, h, i) ↦ (
      q,
      k,
      set-other z.order p q (some o) (λ w. none-ne-some k (sym out ∙ ap z.order (sym w) ∙ h)) ∙ h,
      i,
    )
    | inr i ↦ (p, o, set-same z.order p (some o), i)
  ],
)

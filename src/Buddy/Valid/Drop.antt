-- ===== src/Buddy/Valid/Drop.antt =====
-- A free block is taken from its list.
use mathlib.Core.Path.{subst}
use mathlib.Core.Option.{some-injective}
use my_posts.Prelude.{
  if_both, ℕ, ◌-◌, ◌≡◌, refl, sym, ap, ◌∙◌, ◌≢◌, ◌↔◌, ◌⊎◌, inl, inr, arith, Bool, false, ◌&&◌,
  Bool-cases, none, some, ◌==◌, has, IsOnce, set, set-same, set-other, del, has-del-other,
  has-del-same, del-IsOnce, if◌then◌else◌,
}
use my_posts.Buddy.{Zone, has_order, page_is_buddy}
use my_posts.Buddy.Valid.{in_all, IsListed, IsLinked, IsTiled, IsHeld, IsFree, IsIn, drop_block}
use my_posts.Buddy.Valid.Lists.{tally-del}

-- The free blocks that stay.
pub kept-drop :
    (z : Zone) (p o q k : ℕ) → (drop_block z p o).order q ≡ some k → (q ≢ p) × (z.order q ≡ some k)
kept-drop z p o q k e = ground (arith, e)

order-drop : (z : Zone) (p o q : ℕ) → q ≢ p → (drop_block z p o).order q ≡ z.order q
order-drop z p o q ne = set-other z.order p q none ne

list-drop :
    (z : Zone) (p o k mt : ℕ)
    → (drop_block z p o).free_list k mt
      ≡ (if k == o then del p (z.free_list k mt) else z.free_list k mt)
list-drop z p o k mt = elim (Bool-cases (k == o)) [
  | inl x ↦ let e : k ≡ o = ground (arith, x) in rw x (ap (λ t. del p (z.free_list t mt)) (sym e))
  | inr x ↦ rw x
]

module _ (z : Zone) (list_of : ℕ → ℕ) (p o : ℕ) (listed : IsListed z list_of)
    (e : z.order p ≡ some o) where
  here : (mt : ℕ) → has p (z.free_list o mt) ≡ (list_of p == mt)
  here mt = listed.on_list o mt p ∙ ap (λ x. has_order x o && (list_of p == mt)) e ∙ ground arith

  elsewhere : (k mt : ℕ) → (k == o) ≡ false → has p (z.free_list k mt) ≡ false
  elsewhere k mt ne =
      listed.on_list k mt p ∙ ap (λ x. has_order x k && (list_of p == mt)) e ∙ ground (arith, ne)

  has-drop-same : (k mt : ℕ) → has p ((drop_block z p o).free_list k mt) ≡ false
  has-drop-same k mt = ap (has p) (list-drop z p o k mt) ∙ elim (Bool-cases (k == o)) [
    | inl x ↦ rw x (has-del-same p (z.free_list k mt) (listed.once k mt))
    | inr x ↦ rw x (elsewhere k mt x)
  ]

  has-drop-other :
      (k mt q : ℕ) → q ≢ p → has q ((drop_block z p o).free_list k mt) ≡ has q (z.free_list k mt)
  has-drop-other k mt q ne = ap (has q) (list-drop z p o k mt) ∙ elim (Bool-cases (k == o)) [
    | inl x ↦ rw x (has-del-other q p (z.free_list k mt) ne)
    | inr x ↦ rw x refl
  ]

  has-drop :
      (k mt q : ℕ)
      → has q ((drop_block z p o).free_list k mt)
        ≡ (has_order ((drop_block z p o).order q) k && (list_of q == mt))
  has-drop k mt q = elim (Bool-cases (q == p)) [
    | inl x ↦
        let w : q ≡ p = ground (arith, x) in
        ap (λ t. has t ((drop_block z p o).free_list k mt)) w
        ∙ has-drop-same k mt
        ∙ sym (
            ap (λ t. has_order t k && (list_of q == mt))
              (ap (set z.order p none) w ∙ set-same z.order p none))
    | inr x ↦
        let ne : q ≢ p = λ w. ground (arith, w, x) in
        has-drop-other k mt q ne
        ∙ listed.on_list k mt q
        ∙ sym (ap (λ t. has_order t k && (list_of q == mt)) (order-drop z p o q ne))
  ]

  drop-IsOnce : (k mt : ℕ) → IsOnce ((drop_block z p o).free_list k mt)
  drop-IsOnce k mt = subst IsOnce (sym (list-drop z p o k mt)) (
      if_both IsOnce (k == o) (del p (z.free_list k mt)) (z.free_list k mt)
        (del-IsOnce p (z.free_list k mt) (listed.once k mt)) (listed.once k mt))

  pub in_all-del : in_all (z.free_list o) - 1 ≡ in_all (λ mt. del p (z.free_list o mt))
  in_all-del = tally-del p (list_of p) (z.free_list o) (listed.typed p o e) here

  pub drop-IsListed : IsListed (drop_block z p o) list_of
  drop-IsListed = record {
    once = drop-IsOnce;
    on_list = has-drop;
    typed = λ q k h. listed.typed q k (kept-drop z p o q k h).1;
  }

pub drop-IsLinked :
    (z : Zone) (list_of : ℕ → ℕ) (p o : ℕ)
    → IsLinked z list_of
    → z.order p ≡ some o
    → IsLinked (drop_block z p o) list_of
drop-IsLinked z list_of p o linked e = record {
  listed = drop-IsListed z list_of p o linked.listed e;
  tally = λ k. elim (Bool-cases (k == o)) [
    | inl x ↦ rw x (ap (λ t. t - 1) (linked.tally o) ∙ in_all-del z list_of p o linked.listed e)
    | inr x ↦ rw x (linked.tally k)
  ];
}

module _ (valid : ℕ → Bool) (zone_id : ℕ → ℕ) (z : Zone) (p o : ℕ) where
  is_buddy-drop :
      (a b k : ℕ)
      → page_is_buddy valid zone_id z a b k ≡ false
      → page_is_buddy valid zone_id (drop_block z p o) a b k ≡ false
  unfolding page_is_buddy
  is_buddy-drop a b k h = ground (arith, h)

  pub drop-IsTiled : IsTiled valid zone_id z → IsTiled valid zone_id (drop_block z p o)
  drop-IsTiled tiled = record {
    block = λ q k h. tiled.block q k (kept-drop z p o q k h).1;
    apart = λ q k r l h i. tiled.apart q k r l (kept-drop z p o q k h).1 (kept-drop z p o r l i).1;
    maximal = λ q k h lt. is_buddy-drop q _ k (tiled.maximal q k (kept-drop z p o q k h).1 lt);
  }

  pub drop-IsHeld :
      IsTiled valid zone_id z → z.order p ≡ some o → IsHeld valid zone_id (drop_block z p o) p o
  drop-IsHeld tiled e = record {
    block = tiled.block p o e;
    apart =
        λ q k h. let (ne, i) = kept-drop z p o q k h in tiled.apart p o q k e i (λ w. ne (sym w));
  }

  pub IsHeld-drop_block :
      (q k : ℕ) → IsHeld valid zone_id z q k → IsHeld valid zone_id (drop_block z p o) q k
  IsHeld-drop_block q k held = record {
    block = held.block;
    apart = λ r l h. held.apart r l (kept-drop z p o r l h).1;
  }

-- The pages of the block are free no longer, and only these.
pub drop-IsFree :
    (z : Zone) (p o n : ℕ)
    → z.order p ≡ some o
    → IsFree z n ↔ (IsFree (drop_block z p o) n ⊎ IsIn p o n)
unfolding IsFree
drop-IsFree z p o n e = (
  λ f.
      let (q, k, h, i) = f in
      elim (Bool-cases (q == p)) [
        | inl x ↦
            let w : q ≡ p = ground (arith, x) in
            let same : k ≡ o = some-injective k o (sym h ∙ ap z.order w ∙ e) in
            inr (subst (λ t. IsIn t o n) w (subst (λ t. IsIn q t n) same i))
        | inr x ↦ inl (q, k, order-drop z p o q (λ w. ground (arith, w, x)) ∙ h, i)
      ],
  λ f. elim f [ inl (q, k, h, i) ↦ (q, k, (kept-drop z p o q k h).1, i) | inr i ↦ (p, o, e, i) ],
)

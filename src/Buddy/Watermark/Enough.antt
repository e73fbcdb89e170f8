-- ===== src/Buddy/Watermark/Enough.antt =====
-- A zone above its watermark has a block that is large enough.
use my_posts.Prelude.{
  ◌⊎◌, ℕ, zero, suc, ◌+◌, ◌-◌, ◌*◌, ◌^◌, ◌≤◌, ◌<◌, ◌≡◌, refl, sym, ap, ◌∙◌, inl, inr, arith, Bool,
  true, false, Bool-cases, Option, none, some, List-cases, length, if_both, ◌==◌, ltb→lt,
  if◌then◌else◌,
}
use my_posts.Prelude.Int.{ℤ, pos, pos_part, neg_part, ◌-ℤ◌, -ℤ_parts, ltb_ℤ, negsuc, ◌+ℤ◌, quot}
use my_posts.Buddy.{Zone, max_order}
use my_posts.Buddy.Fallback.{reserve, rmqueue}
use my_posts.Buddy.Fallback.Search.{Answers, AllSmall, rmqueue-Answers}
use my_posts.Buddy.Alloc.Smallest.{listed-order}
use my_posts.Buddy.Valid.{IsValid}
use my_posts.Buddy.Valid.Count.{free_count, weight}
use my_posts.Buddy.Watermark.{to_long, shifted, orders_ok, watermark_ok, zone_watermark_ok}

-- What is not negative stays so.
shifted-natural : (m : ℤ) (s : ℕ) → neg_part m ≡ 0 → neg_part (shifted m s) ≡ 0
unfolding shifted
shifted-natural (pos n) s e = refl
shifted-natural (negsuc n) s e = absurd (ground (arith, e))

cut-natural :
    (m : ℤ) → neg_part m ≡ 0 → (neg_part (m -ℤ quot m 2) ≡ 0) × (neg_part (m -ℤ quot m 4) ≡ 0)
unfolding ◌-ℤ◌ quot
cut-natural (pos n) e = ground arith
cut-natural (negsuc n) e = absurd (ground (arith, e))

sum-natural : (a b : ℤ) → neg_part a ≡ 0 → neg_part b ≡ 0 → neg_part (a +ℤ b) ≡ 0
unfolding ◌+ℤ◌
sum-natural a b e f = ground (arith, e, f)

long-natural : (n : ℕ) → n < 2 ^ 63 → neg_part (to_long n) ≡ 0
unfolding to_long
long-natural n lt = ground (arith, lt)

orders_ok-weight :
    (rounds o : ℕ) (z : Zone) (s : ℕ) (f m : ℤ)
    → neg_part m ≡ 0
    → orders_ok rounds o z s f m ≡ true
    → neg_part f < pos_part f
    → neg_part f + weight (o + rounds) z.nr_free < pos_part f + weight o z.nr_free
unfolding orders_ok weight
orders_ok-weight zero o z s f m nat h lt =
    let e : weight (o + 0) z.nr_free ≡ weight o z.nr_free =
      ap (λ k. weight k z.nr_free) (let w : o + 0 ≡ o = omega arith in w) in
    omega (arith, e, lt)
orders_ok-weight (suc rounds) o z s f m nat h lt =
    let left = f -ℤ pos (z.nr_free o * 2 ^ o) in
    let test = ltb_ℤ (shifted m s) left in
    elim (Bool-cases test) [
      | inl x ↦
          let h' : orders_ok rounds (o + 1) z s left (shifted m s) ≡ true =
            sym (ap (λ b. if b then orders_ok rounds (o + 1) z s left (shifted m s) else false) x)
            ∙ h in
          let parts = -ℤ_parts f (pos (z.nr_free o * 2 ^ o)) in
          let more : pos_part (shifted m s) + neg_part left
              < pos_part left + neg_part (shifted m s) =
            ltb→lt _ _ x in
          let rest =
            orders_ok-weight rounds (o + 1) z s left (shifted m s) (shifted-natural m s nat) h'
              (omega (arith, more, shifted-natural m s nat)) in
          let a : weight (o + suc rounds) z.nr_free ≡ weight (o + 1 + rounds) z.nr_free =
            ap (λ k. weight k z.nr_free)
              (let w : o + suc rounds ≡ o + 1 + rounds = omega arith in w) in
          let b : weight (o + 1) z.nr_free ≡ weight o z.nr_free + z.nr_free o * 2 ^ o =
            ap (λ k. weight k z.nr_free) (let w : o + 1 ≡ suc o = omega arith in w) in
          omega (arith, rest, a, b, parts)
      | inr x ↦ absurd (
          ground (
            arith,
            sym (ap (λ b. if b then orders_ok rounds (o + 1) z s left (shifted m s) else false) x)
                ∙ h,
          ))
    ]

-- Above the order there are free blocks.
weight-some :
    (d n : ℕ) (nr : ℕ → ℕ)
    → weight n nr < weight (n + d) nr
    → (k : ℕ) × (n ≤ k) × (k < n + d) × (1 ≤ nr k)
unfolding weight
weight-some zero n nr lt =
    absurd (omega (arith, lt, ap (λ k. weight k nr) (let w : n + 0 ≡ n = omega arith in w)))
weight-some (suc d) n nr lt =
    let e : weight (n + suc d) nr ≡ weight (n + d) nr + nr (n + d) * 2 ^ (n + d) =
      ap (λ k. weight k nr) (let w : n + suc d ≡ suc (n + d) = omega arith in w) in
    elim (Bool-cases (nr (n + d) == 0)) [
      | inl x ↦
          let w : nr (n + d) ≡ 0 = ground (arith, x) in
          let v : nr (n + d) * 2 ^ (n + d) ≡ 0 = ap (λ t. t * 2 ^ (n + d)) w ∙ omega arith in
          let (k, a, b, c) = weight-some d n nr (omega (arith, lt, e, v)) in
          (k, a, omega (arith, b), c)
      | inr x ↦ (n + d, omega arith, omega arith, ground (arith, x))
    ]

on_list :
    (valid : ℕ → Bool) (zone_id : ℕ → ℕ) (z : Zone) (k t : ℕ)
    → IsValid valid zone_id z
    → (length (z.free_list k t) ≡ 0) ⊎ ((p : ℕ) × (z.order p ≡ some k))
on_list valid zone_id z k t ok = elim (List-cases (z.free_list k t)) [
  | inl e ↦ inl (ap length e)
  | inr (p, ps, e) ↦ inr (p, (listed-order valid zone_id z ok.list_of k t p ps ok.linked e).0)
]

counted_block :
    (valid : ℕ → Bool) (zone_id : ℕ → ℕ) (z : Zone) (k : ℕ)
    → IsValid valid zone_id z
    → 1 ≤ z.nr_free k
    → (p : ℕ) × (z.order p ≡ some k)
counted_block valid zone_id z k ok le = elim (on_list valid zone_id z k 0 ok) [
  | inr f ↦ f
  | inl a ↦ elim (on_list valid zone_id z k 1 ok) [
    | inr f ↦ f
    | inl b ↦ elim (on_list valid zone_id z k 2 ok) [
      | inr f ↦ f
      | inl c ↦ elim (on_list valid zone_id z k 3 ok) [
        | inr f ↦ f
        | inl d ↦ absurd (omega (arith, ok.linked.tally k, le, a, b, c, d))
      ]
    ]
  ]
]

enough-weight :
    (z : Zone) (o mark low : ℕ) (high harder : Bool) (s : ℕ)
    → mark + low < 2 ^ 63
    → zone_watermark_ok z o mark low high harder s ≡ true
    → weight o z.nr_free < z.nr_free_pages
unfolding zone_watermark_ok watermark_ok weight
enough-weight z o mark low high harder s bound h =
    let left = pos z.nr_free_pages -ℤ pos (2 ^ o - 1) in
    let all = to_long mark in
    let high_min = if high then all -ℤ quot all 2 else all in
    let min = if harder then high_min -ℤ quot high_min 4 else high_min in
    let nat = long-natural mark (omega (arith, bound)) in
    let nat_high =
      if_both (λ x. neg_part x ≡ 0) high (all -ℤ quot all 2) all (cut-natural all nat).0 nat in
    let nat_min =
      if_both (λ x. neg_part x ≡ 0) harder (high_min -ℤ quot high_min 4) high_min
        (cut-natural high_min nat_high).1 nat_high in
    let least = min +ℤ to_long low in
    let nat_least =
      sum-natural min (to_long low) nat_min (long-natural low (omega (arith, bound))) in
    elim (Bool-cases (ltb_ℤ least left)) [
      | inl x ↦
          let h' : orders_ok o 0 z s left min ≡ true =
            sym (ap (λ b. if b then orders_ok o 0 z s left min else false) x) ∙ h in
          let more : pos_part least + neg_part left < pos_part left + neg_part least =
            ltb→lt _ _ x in
          let rest =
            orders_ok-weight o 0 z s left min nat_min h' (omega (arith, more, nat_least)) in
          let e : weight (0 + o) z.nr_free ≡ weight o z.nr_free =
            ap (λ k. weight k z.nr_free) (let w : 0 + o ≡ o = omega arith in w) in
          omega (arith, rest, e, -ℤ_parts (pos z.nr_free_pages) (pos (2 ^ o - 1)))
      | inr x ↦
          absurd
            (ground (arith, sym (ap (λ b. if b then orders_ok o 0 z s left min else false) x) ∙ h))
    ]

found :
    (valid : ℕ → Bool) (zone_id : ℕ → ℕ) (r : Option ℕ × Zone) (z : Zone) (o p k : ℕ)
    → z.order p ≡ some k
    → o ≤ k
    → Answers valid zone_id z o (AllSmall z o) r
    → (q : ℕ) × (r.0 ≡ some q)
unfolding Answers AllSmall
found valid zone_id (none, r) z o p k e le (same, small) = absurd (omega (arith, le, small p k e))
found valid zone_id (some q, r) z o p k e le given = (q, refl)

module _ (valid : ℕ → Bool) (zone_id : ℕ → ℕ) (spans : ℕ → Bool) (disabled : Bool)
    (pageblock_order : ℕ) where
  -- On a valid zone whose nr_free_pages is right, __rmqueue for an order below MAX_ORDER and a type
  -- other than MIGRATE_RESERVE finds a block whenever zone_watermark_ok holds for the order, with
  -- any of the flags, at any mark whose sum with the zone's lowmem_reserve fits into a long.
  pub rmqueue-zone_watermark_ok :
      (z : Zone) (o mt mark low : ℕ) (high harder : Bool) (s : ℕ)
      → IsValid valid zone_id z
      → z.nr_free_pages ≡ free_count z
      → o < max_order
      → mt < reserve
      → mark + low < 2 ^ 63
      → zone_watermark_ok z o mark low high harder s ≡ true
      → (p : ℕ) × ((rmqueue valid spans disabled pageblock_order z o mt).0 ≡ some p)
  rmqueue-zone_watermark_ok z o mt mark low high harder s ok counted lo lt bound h =
      let size : o + (max_order - o) ≡ max_order = omega (arith, lo) in
      let all : weight (o + (max_order - o)) z.nr_free ≡ free_count z =
        ap (λ k. weight k z.nr_free) size in
      let (k, a, b, c) =
        weight-some (max_order - o) o z.nr_free
          (omega (arith, enough-weight z o mark low high harder s bound h, counted, all)) in
      let (p, e) = counted_block valid zone_id z k ok c in
      found valid zone_id (rmqueue valid spans disabled pageblock_order z o mt) z o p k e a
        (rmqueue-Answers valid zone_id spans disabled pageblock_order z o mt ok lo lt)

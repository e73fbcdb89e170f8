-- ===== src/Buddy/Pcp/Insert.antt =====
-- A page that is held goes on a per-cpu list.
use mathlib.Core.Path.{subst}
use my_posts.Prelude.{
  ℕ, suc, ◌<◌, ◌≡◌, sym, ap, ◌∙◌, ◌↔◌, ◌⊎◌, inl, inr, arith, Bool, true, false, ◌&&◌, ◌||◌,
  Bool-cases, List, ◌==◌, has, IsOnce, set, if_both,
}
use my_posts.Buddy.{Zone, migrate_types}
use my_posts.Buddy.Pcp.Store.{IsStore, OnList, all_pages, set-all_pages}
use my_posts.Buddy.Valid.{IsHeld}
use my_posts.Buddy.Valid.Add.{IsMore}

module _ (valid : ℕ → Bool) (zone_id : ℕ → ℕ) (z : Zone) (lists : ℕ → List ℕ) (k page : ℕ)
    (pages : List ℕ) (store : IsStore valid zone_id z lists) (held : IsHeld valid zone_id z page 0)
    (kind : z.freepage_migratetype page < migrate_types)
    (out : (t : ℕ) → has page (lists t) ≡ false) (more : IsMore page pages (lists k)) where
  has-insert :
      (t q : ℕ) → has q (set lists k pages t) ≡ (((q == page) && (t == k)) || has q (lists t))
  has-insert t q = elim (Bool-cases (t == k)) [
    | inl x ↦ rw x (
        more.has_more q
        ∙ ap (λ v. (q == page) || has q (lists v)) (let w : k ≡ t = ground (arith, x) in w)
        ∙ ground arith)
    | inr x ↦ rw x (ground arith)
  ]

  alone-insert :
      (t u q : ℕ) → has q (set lists k pages t) ≡ true → has q (set lists k pages u) ≡ true → t ≡ u
  alone-insert t u q h i =
      let a = sym (has-insert t q) ∙ h in
      let b = sym (has-insert u q) ∙ i in
      elim (Bool-cases (q == page)) [
        | inl x ↦
            let w : q ≡ page = ground (arith, x) in
            let c = ap (λ v. has v (lists t)) w ∙ out t in
            let d = ap (λ v. has v (lists u)) w ∙ out u in ground (arith, a, b, c, d)
        | inr x ↦ store.alone t u q (ground (arith, a, x)) (ground (arith, b, x))
      ]

  pub insert-IsStore : IsStore valid zone_id z (set lists k pages)
  insert-IsStore = record {
    valid_zone = store.valid_zone;
    counted = store.counted;
    typed = λ t q h.
        let a = sym (has-insert t q) ∙ h in
        elim (Bool-cases (q == page)) [
          | inl x ↦
              subst (λ v. z.freepage_migratetype v < migrate_types)
                (let w : page ≡ q = ground (arith, x) in w) kind
          | inr x ↦ store.typed t q (ground (arith, a, x))
        ];
    held = λ t q h.
        let a = sym (has-insert t q) ∙ h in
        elim (Bool-cases (q == page)) [
          | inl x ↦
              subst (λ v. IsHeld valid zone_id z v 0) (let w : page ≡ q = ground (arith, x) in w)
                held
          | inr x ↦ store.held t q (ground (arith, a, x))
        ];
    once = λ t. if_both IsOnce (t == k) pages (lists t) more.once (store.once t);
    alone = alone-insert;
  }

  pub insert-OnList : (n : ℕ) → OnList (set lists k pages) n ↔ (OnList lists n ⊎ (n ≡ page))
  unfolding OnList
  insert-OnList n = (
    λ f.
        let (t, h) = f in
        let a = sym (has-insert t n) ∙ h in
        elim (Bool-cases (n == page)) [
          | inl x ↦ inr (ground (arith, x))
          | inr x ↦ inl (t, ground (arith, a, x))
        ],
    λ f. elim f [
      | inl (t, h) ↦ (t, has-insert t n ∙ ground (arith, h))
      | inr e ↦ (k, has-insert k n ∙ ground (arith, e))
    ],
  )

  pub insert-all_pages : k < 3 → all_pages (set lists k pages) ≡ suc (all_pages lists)
  insert-all_pages lt = omega (arith, set-all_pages k lists pages lt, more.longer)

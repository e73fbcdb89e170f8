-- ===== src/Buddy/Fallback/Moves.antt =====
-- Moving free blocks between the lists of their orders, move_freepages.
use mathlib.Core.Path.{subst}
use my_posts.Prelude.{
  ℕ, zero, suc, ◌+◌, ◌-◌, ◌^◌, ◌%◌, ◌<◌, ◌≡◌, refl, sym, ap, ◌∙◌, inl, inr, arith, Bool, true, not,
  Bool-cases, ◌&&◌, none, some, Option-cases, List, ◌∷◌, ◌==◌, ltb, eq_self, if◌then◌else◌, if_both,
  has, set, set-same, del,
}
use my_posts.Buddy.{Zone, has_order, migrate_types}
use my_posts.Buddy.Fallback.{
  list_move, set_freepage_migratetype, moving, move_freepages, move_freepages_block,
}
use my_posts.Buddy.Valid.{in_all, IsListed, drop_block, add_block}
use my_posts.Buddy.Valid.Lists.{tally-add}
use my_posts.Buddy.Valid.Drop.{drop-IsListed, in_all-del}
use my_posts.Buddy.Valid.Add.{cons-IsMore, add-IsListed}
use my_posts.Buddy.Valid.Count.{one_of-in_all}
use my_posts.Buddy.Valid.Same.{same-IsListed}

-- Free blocks have changed lists, and nothing else.
pub record IsMoved (z r : Zone) : Type 0 where
  pub list_of : ℕ → ℕ
  pub listed : IsListed r list_of
  pub order : r.order ≡ z.order
  pub nr_free : r.nr_free ≡ z.nr_free
  pub lengths : (k : ℕ) → in_all (r.free_list k) ≡ in_all (z.free_list k)

trans-IsMoved : (z y r : Zone) → IsMoved z y → IsMoved y r → IsMoved z r
trans-IsMoved z y r a b = record {
  list_of = b.list_of;
  listed = b.listed;
  order = b.order ∙ a.order;
  nr_free = b.nr_free ∙ a.nr_free;
  lengths = λ k. b.lengths k ∙ a.lengths k;
}

pub stay-IsMoved : (z : Zone) (list_of : ℕ → ℕ) → IsListed z list_of → IsMoved z z
stay-IsMoved z list_of listed = record {
  list_of = list_of;
  listed = listed;
  order = refl;
  nr_free = refl;
  lengths = λ k. refl;
}

module _ (z : Zone) (list_of : ℕ → ℕ) (p k mt : ℕ) (listed : IsListed z list_of)
    (e : z.order p ≡ some k) (lt : mt < migrate_types) where
  again : (q : ℕ) → z.order q ≡ set (set z.order p none) p (some k) q
  again q = elim (Bool-cases (q == p)) [
    | inl x ↦ let w : q ≡ p = ground (arith, x) in rw x (ap z.order w ∙ e)
    | inr x ↦ rw x refl
  ]

  list_move-lengths : (j : ℕ) → in_all ((list_move z p k mt).free_list j) ≡ in_all (z.free_list j)
  list_move-lengths j = elim (Bool-cases (j == k)) [
    | inl x ↦
        let w : j ≡ k = ground (arith, x) in
        let left : ℕ → List ℕ = λ t. del p (z.free_list k t) in
        let on : has p (z.free_list k (list_of p)) ≡ true =
          listed.on_list k (list_of p) p
          ∙ ap (λ t. has_order t k && (list_of p == list_of p)) e
          ∙ ground arith in
        let some_on = one_of-in_all (list_of p) p (z.free_list k) (listed.typed p k e) on in
        let back : in_all left + 1 ≡ in_all (z.free_list k) =
          omega (arith, in_all-del z list_of p k listed e, some_on) in
        rw (x, eq_self k)
          (sym (tally-add mt left (p ∷ left mt) lt refl)
            ∙ back
            ∙ ap (λ t. in_all (z.free_list t)) (sym w))
    | inr x ↦ rw x refl
  ]

  list_move-IsMoved : IsMoved z (list_move z p k mt)
  list_move-IsMoved =
      let dropped = drop-IsListed z list_of p k listed e in
      let absent =
        dropped.on_list k mt p
        ∙ ap (λ x. has_order x k && (list_of p == mt)) (set-same z.order p none) in
      let more = cons-IsMore p ((drop_block z p k).free_list k mt) (dropped.once k mt) absent in
      record {
        list_of = set list_of p mt;
        listed =
            same-IsListed
              (add_block (drop_block z p k) p k mt (p ∷ (drop_block z p k).free_list k mt))
              (list_move z p k mt) (set list_of p mt) again refl
              (add-IsListed (drop_block z p k) list_of p k mt
                (p ∷ (drop_block z p k).free_list k mt) dropped (set-same z.order p none) lt more);
        order = refl;
        nr_free = refl;
        lengths = list_move-lengths;
      }

module _ (valid : ℕ → Bool) where
  moving-IsMoved :
      (rounds : ℕ) (z : Zone) (list_of : ℕ → ℕ) (page end mt moved : ℕ)
      → IsListed z list_of
      → mt < migrate_types
      → IsMoved z (moving valid rounds z page end mt moved).0
  unfolding moving
  moving-IsMoved zero z list_of page end mt moved listed lt = stay-IsMoved z list_of listed
  moving-IsMoved (suc rounds) z list_of page end mt moved listed lt =
      let next = moving valid rounds z (page + 1) end mt moved in
      let skip = moving-IsMoved rounds z list_of (page + 1) end mt moved listed lt in
      if_both {A = Zone × ℕ} (λ t. IsMoved z t.0) (ltb end page) _ _ (stay-IsMoved z list_of listed)
        (if_both {A = Zone × ℕ} (λ t. IsMoved z t.0) (not (valid page)) _ _ skip
          (elim (Option-cases (z.order page)) [
            | inl e ↦
                subst
                  (λ o.
                    IsMoved z
                      (elim o as (λ _. Zone × ℕ) [
                        | none ↦ next
                        | some order ↦
                            moving valid rounds
                              (set_freepage_migratetype (list_move z page order mt) page mt)
                              (page + 2 ^ order) end mt (moved + 2 ^ order)
                      ]).0)
                  (sym e) skip
            | inr (k, e) ↦
                let one = list_move-IsMoved z list_of page k mt listed e lt in
                let here = set_freepage_migratetype (list_move z page k mt) page mt in
                let one' : IsMoved z here = record {
                  list_of = one.list_of;
                  listed =
                      same-IsListed (list_move z page k mt) here one.list_of (λ q. refl) refl
                        one.listed;
                  order = one.order;
                  nr_free = one.nr_free;
                  lengths = one.lengths;
                } in
                subst
                  (λ o.
                    IsMoved z
                      (elim o as (λ _. Zone × ℕ) [
                        | none ↦ next
                        | some order ↦
                            moving valid rounds
                              (set_freepage_migratetype (list_move z page order mt) page mt)
                              (page + 2 ^ order) end mt (moved + 2 ^ order)
                      ]).0)
                  (sym e)
                  (trans-IsMoved z here _ one' (
                    moving-IsMoved rounds here one.list_of (page + 2 ^ k) end mt (moved + 2 ^ k)
                      one'.listed lt))
          ]))

module _ (valid spans : ℕ → Bool) (disabled : Bool) (pageblock_order : ℕ) where
  pub move_freepages_block-IsMoved :
      (z : Zone) (list_of : ℕ → ℕ) (page mt : ℕ)
      → IsListed z list_of
      → mt < migrate_types
      → IsMoved z (move_freepages_block valid spans disabled pageblock_order z page mt).0
  unfolding move_freepages_block move_freepages
  move_freepages_block-IsMoved z list_of page mt listed lt =
      let start = page - page % 2 ^ pageblock_order in
      let end = start + 2 ^ pageblock_order - 1 in
      let first = if spans start then start else page in
      if_both {A = Zone × ℕ} (λ t. IsMoved z t.0) (spans end) (move_freepages valid z first end mt)
        (z, 0) (moving-IsMoved valid (end + 1 - first) z list_of first end mt 0 listed lt)
        (stay-IsMoved z list_of listed)

-- ===== src/Buddy/Free.antt =====
-- Freeing a block, __free_one_page.
pub mod Page
use mathlib.Core.Path.{subst}
use my_posts.Prelude.{
  if_both, length-append, has-append, snoc-IsOnce, IsOnce, has, set, List, [], ◌∷◌, ◌++◌, none,
  Option-cases, ◌&&◌, ◌==◌, if_split, ℕ, zero, suc, ◌+◌, ◌-◌, ◌^◌, ◌≤◌, ◌<◌, ◌≡◌, refl, sym, ap,
  ◌∙◌, ◌↔◌, ◌⊎◌, inl, inr, arith, Bool, true, false, Bool-cases, some, if◌then◌else◌,
}
use my_posts.Buddy.{
  Zone, max_order, index, find_buddy_index, page_is_buddy, merge, put_block, to_tail,
  set_page_order, migrate_types, free_one, has_order,
}
use my_posts.Buddy.Pair.{buddy, combined, combined_idx, buddy-IsPair}
use my_posts.Buddy.Valid.{IsValid, IsLinked, IsTiled, IsHeld, IsFree, IsIn, drop_block}
use my_posts.Buddy.Valid.Drop.{drop-IsLinked, drop-IsTiled, drop-IsFree}
use my_posts.Buddy.Valid.Add.{IsMore, cons-IsMore, snoc-IsMore, add-IsLinked, add-IsFree}
use my_posts.Buddy.Valid.Add.Tiled.{add-IsTiled}
use my_posts.Buddy.Valid.Count.{free_count, drop-free_count, add-free_count}
use my_posts.Buddy.Valid.Halves.{held-order, halves-IsIn, join-IsHeld}

module _ (valid : ℕ → Bool) (zone_id : ℕ → ℕ) where
  -- What the loop makes of a zone and a block in hand: no page is lost, and the block can go on a list.
  record IsMerged (list_of : ℕ → ℕ) (z : Zone) (p o : ℕ) (r : Zone × ℕ × ℕ × ℕ) : Type 0 where
    linked : IsLinked r.0 list_of
    tiled : IsTiled valid zone_id r.0
    held : IsHeld valid zone_id r.0 r.1 r.3
    indexed : r.2 ≡ index r.1
    stopped : suc r.3 < max_order → page_is_buddy valid zone_id r.0 r.1 (buddy r.1 r.3) r.3 ≡ false
    count : free_count r.0 + 2 ^ r.3 ≡ free_count z + 2 ^ o
    pages : (n : ℕ) → (IsFree r.0 n ⊎ IsIn r.1 r.3 n) ↔ (IsFree z n ⊎ IsIn p o n)

  is_buddy-order :
      (z : Zone) (p b o : ℕ) → page_is_buddy valid zone_id z p b o ≡ true → z.order b ≡ some o
  unfolding page_is_buddy
  is_buddy-order z p b o h = ground (arith, h)

  stay-IsMerged :
      (list_of : ℕ → ℕ) (z : Zone) (p o : ℕ)
      → IsLinked z list_of
      → IsTiled valid zone_id z
      → IsHeld valid zone_id z p o
      → (suc o < max_order → page_is_buddy valid zone_id z p (buddy p o) o ≡ false)
      → IsMerged list_of z p o (z, p, index p, o)
  stay-IsMerged list_of z p o linked tiled held apart = record {
    linked = linked;
    tiled = tiled;
    held = held;
    indexed = refl;
    stopped = apart;
    count = refl;
    pages = λ n. (λ f. f, λ f. f);
  }

  join-IsMerged :
      (list_of : ℕ → ℕ) (z : Zone) (p o : ℕ) (r : Zone × ℕ × ℕ × ℕ)
      → IsLinked z list_of
      → IsHeld valid zone_id z p o
      → suc o < max_order
      → z.order (buddy p o) ≡ some o
      → IsMerged list_of (drop_block z (buddy p o) o) (combined p o) (suc o) r
      → IsMerged list_of z p o r
  join-IsMerged list_of z p o r linked held lt e merged = record {
    linked = merged.linked;
    tiled = merged.tiled;
    held = merged.held;
    indexed = merged.indexed;
    stopped = merged.stopped;
    count =
        let pair = buddy-IsPair p o (omega (arith, lt)) held.block.aligned in
        omega (
          arith,
          merged.count,
          pair.double,
          drop-free_count z list_of (buddy p o) o linked held.block.order e,
        );
    pages = λ n.
        let pair = buddy-IsPair p o (omega (arith, lt)) held.block.aligned in
        let (a, b) = merged.pages n in
        let (c, d) = halves-IsIn p o n pair in
        let (f, g) = drop-IsFree z (buddy p o) o n e in
        (
          λ h. elim (a h) [
            | inl i ↦ inl (g (inl i))
            | inr i ↦ elim (c i) [ inl j ↦ inr j | inr j ↦ inl (g (inr j)) ]
          ],
          λ h. b (elim h [
            | inl i ↦ elim (f i) [ inl j ↦ inl j | inr j ↦ inr (d (inr j)) ]
            | inr i ↦ inr (d (inl i))
          ]),
        );
  }

  merge-IsMerged :
      (rounds : ℕ) (list_of : ℕ → ℕ) (z : Zone) (p o : ℕ)
      → o + rounds ≡ max_order - 1
      → IsLinked z list_of
      → IsTiled valid zone_id z
      → IsHeld valid zone_id z p o
      → IsMerged list_of z p o (merge valid zone_id rounds z p (index p) o)
  unfolding merge
  merge-IsMerged zero list_of z p o e linked tiled held =
      stay-IsMerged list_of z p o linked tiled held (λ lt. absurd (omega (arith, e, lt)))
  merge-IsMerged (suc rounds) list_of z p o e linked tiled held =
      if_split (IsMerged list_of z p o) (page_is_buddy valid zone_id z p (buddy p o) o) _ _
        (λ x.
          let at = is_buddy-order z p (buddy p o) o x in
          let lt : suc o < max_order = omega (arith, e) in
          let z' = drop_block z (buddy p o) o in
          let one : suc o ≡ o + 1 = omega arith in
          let pair = buddy-IsPair p o (omega (arith, lt)) held.block.aligned in
          let rest =
            merge-IsMerged rounds list_of z' (combined p o) (o + 1) (omega (arith, e))
              (drop-IsLinked z list_of (buddy p o) o linked at)
              (drop-IsTiled valid zone_id z (buddy p o) o tiled)
              (subst (IsHeld valid zone_id z' (combined p o)) one
                (join-IsHeld valid zone_id z p o tiled held at lt)) in
          let rest' =
            subst
              (λ i.
                IsMerged list_of z' (combined p o) (o + 1)
                  (merge valid zone_id rounds z' (combined p o) i (o + 1)))
              pair.indexed rest in
          join-IsMerged list_of z p o _ linked held lt at (
            subst
              (λ k.
                IsMerged list_of z' (combined p o) k
                  (merge valid zone_id rounds z' (combined p o) (combined_idx p o) (o + 1)))
              (sym one) rest'))
        (λ x. stay-IsMerged list_of z p o linked tiled held (λ _. x))

module _ (valid : ℕ → Bool) (zone_id : ℕ → ℕ) where
  -- The block goes on a list of its order.
  pub record IsPut (z : Zone) (p o : ℕ) (r : Zone) : Type 0 where
    pub valid_zone : IsValid valid zone_id r
    pub count : free_count r ≡ free_count z + 2 ^ o
    pub pages : (n : ℕ) → IsFree r n ↔ (IsFree z n ⊎ IsIn p o n)

  put_block-IsPut :
      (list_of : ℕ → ℕ) (z : Zone) (p o mt : ℕ)
      → IsLinked z list_of
      → IsTiled valid zone_id z
      → IsHeld valid zone_id z p o
      → (suc o < max_order → page_is_buddy valid zone_id z p (buddy p o) o ≡ false)
      → mt < migrate_types
      → IsPut z p o (put_block valid zone_id z p (index p) o mt)
  unfolding put_block
  put_block-IsPut list_of z p o mt linked tiled held apart lt =
      let old = z.free_list o mt in
      let out = held-order valid zone_id z p o held in
      let absent : has p old ≡ false =
        linked.listed.on_list o mt p ∙ ap (λ x. has_order x o && (list_of p == mt)) out in
      let pages =
        if to_tail valid zone_id (set_page_order z p o) p (index p) o
        then old ++ (p ∷ [])
        else p ∷ old in
      let more : IsMore p pages old =
        if_both (λ t. IsMore p t old) (to_tail valid zone_id (set_page_order z p o) p (index p) o) _
          _ (snoc-IsMore p old (linked.listed.once o mt) absent)
          (cons-IsMore p old (linked.listed.once o mt) absent) in
      record {
        valid_zone = record {
          list_of = set list_of p mt;
          linked = add-IsLinked z list_of p o mt pages linked out lt more;
          tiled = add-IsTiled valid zone_id z p o mt pages tiled held apart;
        };
        count = add-free_count z p o mt pages held.block.order;
        pages = λ n. add-IsFree z p o mt n pages out;
      }

  merged-IsPut :
      (list_of : ℕ → ℕ) (z : Zone) (p o mt : ℕ) (r : Zone × ℕ × ℕ × ℕ)
      → mt < migrate_types
      → IsMerged valid zone_id list_of z p o r
      → IsPut z p o (put_block valid zone_id r.0 r.1 r.2 r.3 mt)
  merged-IsPut list_of z p o mt r lt merged =
      let put =
        put_block-IsPut list_of r.0 r.1 r.3 mt merged.linked merged.tiled merged.held merged.stopped
          lt in
      subst (λ i. IsPut z p o (put_block valid zone_id r.0 r.1 i r.3 mt)) (sym merged.indexed)
        (record {
          valid_zone = put.valid_zone;
          count = put.count ∙ merged.count;
          pages = λ n.
              let (a, b) = put.pages n in
              let (c, d) = merged.pages n in (λ i. c (a i), λ i. b (d i));
        })

  -- __free_one_page of a block that is held, aligned and without holes, and that is not a refused
  -- compound page, to a list of one of the migrate types, keeps a valid zone valid: the lists agree
  -- with the orders of the pages and with nr_free, the free blocks are apart, and none has a free
  -- buddy. The pages that are free afterwards are those that were free and those of the block, and
  -- the blocks on the lists have as many pages more.
  pub free_one-IsPut :
      (z : Zone) (p o mt : ℕ)
      → IsValid valid zone_id z
      → IsHeld valid zone_id z p o
      → mt < migrate_types
      → IsPut z p o (free_one valid zone_id false z p o mt)
  unfolding free_one
  free_one-IsPut z p o mt ok held lt =
      let le : o + (max_order - 1 - o) ≡ max_order - 1 = omega (arith, held.block.order) in
      merged-IsPut ok.list_of z p o mt _ lt (
        merge-IsMerged valid zone_id (max_order - 1 - o) ok.list_of z p o le ok.linked ok.tiled
          held)

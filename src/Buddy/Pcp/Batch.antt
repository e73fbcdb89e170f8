-- ===== src/Buddy/Pcp/Batch.antt =====
-- The inner loop of free_pcppages_bulk.
use mathlib.Core.Path.{subst}
use my_posts.Prelude.{
  ℕ, zero, suc, ◌+◌, ◌-◌, ◌≤◌, ◌<◌, ◌≡◌, refl, sym, ap, arith, Bool, List, List_split, List_both,
  ◌==◌, length, IsOnce, set, if_both,
}
use my_posts.Buddy.{Zone}
use my_posts.Buddy.Pcp.{split_last, return_page, free_batch}
use my_posts.Buddy.Pcp.Store.{IsStore, IsRest, all_pages, split_last-IsRest}
use my_posts.Buddy.Pcp.Return.{SamePages, return-IsStore, return-SamePages, return-all_pages}

module _ (valid : ℕ → Bool) (zone_id : ℕ → ℕ) where
  -- Of `n` pages some are freed, from the list `t` if it has any.
  pub record IsRound (z : Zone) (lists : ℕ → List ℕ) (n t : ℕ) (r : Zone × (ℕ → List ℕ) × ℕ × ℕ)
      : Type 0 where
    pub store : IsStore valid zone_id r.0 r.1
    pub pages : SamePages valid zone_id z lists r.0 r.1
    pub balance : all_pages r.1 + n ≡ all_pages lists + r.2
    pub at_most : r.2 ≤ n
    pub progress : 1 ≤ length (lists t) → 1 ≤ n → r.2 < n

  stay-IsRound :
      (z : Zone) (lists : ℕ → List ℕ) (n t batch : ℕ)
      → IsStore valid zone_id z lists
      → (1 ≤ length (lists t) → ¬ (1 ≤ n))
      → IsRound z lists n t (z, lists, n, batch)
  unfolding SamePages
  stay-IsRound z lists n t batch store none_of = record {
    store = store;
    pages = λ i. (λ f. f, λ f. f);
    balance = refl;
    at_most = omega arith;
    progress = λ a b. absurd (none_of a b);
  }

  -- A page is returned before a round.
  more-IsRound :
      (z y : Zone) (lists lists' : ℕ → List ℕ) (n t : ℕ) (r : Zone × (ℕ → List ℕ) × ℕ × ℕ)
      → SamePages valid zone_id z lists y lists'
      → suc (all_pages lists') ≡ all_pages lists
      → IsRound y lists' n t r
      → IsRound z lists (suc n) t r
  unfolding SamePages
  more-IsRound z y lists lists' n t r same fewer rest = record {
    store = rest.store;
    pages = λ i. (λ f. (same i).0 ((rest.pages i).0 f), λ f. (rest.pages i).1 ((same i).1 f));
    balance = omega (arith, rest.balance, fewer);
    at_most = omega (arith, rest.at_most);
    progress = λ a b. omega (arith, rest.at_most);
  }

  -- The loop ends after a page.
  stop-IsRound :
      (z y : Zone) (lists lists' : ℕ → List ℕ) (n t batch : ℕ)
      → IsStore valid zone_id y lists'
      → SamePages valid zone_id z lists y lists'
      → suc (all_pages lists') ≡ all_pages lists
      → IsRound z lists (suc n) t (y, lists', n, batch)
  stop-IsRound z y lists lists' n t batch store same fewer = record {
    store = store;
    pages = same;
    balance = omega (arith, fewer);
    at_most = omega arith;
    progress = λ a b. omega arith;
  }

  pub free_batch-IsRound :
      (n batch : ℕ) (z : Zone) (lists : ℕ → List ℕ) (t : ℕ)
      → IsStore valid zone_id z lists
      → t < 3
      → IsRound z lists n t (free_batch valid zone_id n batch z lists t)
  unfolding free_batch
  free_batch-IsRound zero batch z lists t store lt =
      stay-IsRound z lists 0 t batch store (λ a b. omega (arith, b))
  free_batch-IsRound (suc n) batch z lists t store lt =
      List_split (IsRound z lists (suc n) t) (lists t) _ _
        (λ e. stay-IsRound z lists (suc n) t batch store (λ a b. omega (arith, a, ap length e)))
        (λ p ps e.
          let (others, page) = split_last p ps in
          let part : IsRest page (lists t) others =
            subst (λ l. IsRest page l others) (sym e)
              (split_last-IsRest p ps (subst IsOnce e (store.once t))) in
          let y = return_page valid zone_id z page in
          let lists' = set lists t others in
          let store' = return-IsStore valid zone_id z lists t page others store part in
          let same = return-SamePages valid zone_id z lists t page others store part in
          let fewer = return-all_pages valid zone_id z lists t page others store part lt in
          let again =
            more-IsRound z y lists lists' n t _ same fewer
              (free_batch-IsRound n (batch - 1) y lists' t store' lt) in
          let stop = λ (b : ℕ). stop-IsRound z y lists lists' n t b store' same fewer in
          if_both (IsRound z lists (suc n) t) (n == 0) _ _ (stop batch) (
            if_both (IsRound z lists (suc n) t) (batch - 1 == 0) _ _ (stop (batch - 1))
              (List_both (IsRound z lists (suc n) t) others _ _ (stop (batch - 1)) (λ _ _. again))))

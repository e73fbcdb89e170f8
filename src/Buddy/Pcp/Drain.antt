-- ===== src/Buddy/Pcp/Drain.antt =====
-- The whole of free_pcppages_bulk.
use mathlib.Core.Path.{subst}
use my_posts.Prelude.{
  ℕ, zero, suc, ◌+◌, ◌≤◌, ◌<◌, ◌≡◌, refl, sym, ap, inl, inr, arith, Bool, false, List, [], ◌∷◌,
  List_split, ◌==◌, length, if◌then◌else◌, if_split,
}
use my_posts.Buddy.{Zone}
use my_posts.Buddy.Pcp.{migrate_pcptypes, next_list, free_batch, drain, free_pcppages_bulk}
use my_posts.Buddy.Pcp.Store.{IsStore, all_pages}
use my_posts.Buddy.Pcp.Return.{SamePages}
use my_posts.Buddy.Pcp.Batch.{free_batch-IsRound}
use my_posts.Buddy.Valid.Same.{same-IsLinked, same-IsTiled, same-IsHeld, same-IsFree}

-- A list of the three with pages on it.
IsNext : (ℕ → List ℕ) → ℕ × ℕ → Type 0
IsNext lists r = (r.0 < 3) × (1 ≤ length (lists r.0))

next_list-step :
    (rounds : ℕ) (lists : ℕ → List ℕ) (mt next batch : ℕ)
    → (if mt + 1 == migrate_pcptypes then 0 else mt + 1) ≡ next
    → next < 3
    → (length (lists next) ≡ 0 → IsNext lists (next_list rounds lists next (batch + 1)))
    → IsNext lists (next_list (suc rounds) lists mt batch)
unfolding next_list IsNext
next_list-step rounds lists mt next batch e lt rest =
    subst
      (λ k. IsNext lists (elim (lists k) as (λ _. ℕ × ℕ) [
        | [] ↦ next_list rounds lists k (batch + 1)
        | _ ∷ _ ↦ (k, batch + 1)
      ]))
      (sym e)
      (List_split (IsNext lists) (lists next) _ (λ _ _. (next, batch + 1)) (λ i. rest (ap length i))
        (λ x xs i. (lt, omega (arith, ap length i))))

next_list-IsNext :
    (lists : ℕ → List ℕ) (mt batch : ℕ)
    → mt < 3
    → 1 ≤ all_pages lists
    → IsNext lists (next_list 3 lists mt batch)
next_list-IsNext lists zero batch lt le = next_list-step 2 lists 0 1 batch refl (omega arith) (λ a.
    next_list-step 1 lists 1 2 (batch + 1) refl (omega arith) (λ b.
      next_list-step 0 lists 2 0 (batch + 1 + 1) refl (omega arith)
        (λ c. absurd (omega (arith, le, a, b, c)))))
next_list-IsNext lists (suc zero) batch lt le =
    next_list-step 2 lists 1 2 batch refl (omega arith) (λ a.
      next_list-step 1 lists 2 0 (batch + 1) refl (omega arith) (λ b.
        next_list-step 0 lists 0 1 (batch + 1 + 1) refl (omega arith)
          (λ c. absurd (omega (arith, le, a, b, c)))))
next_list-IsNext lists (suc (suc zero)) batch lt le =
    next_list-step 2 lists 2 0 batch refl (omega arith) (λ a.
      next_list-step 1 lists 0 1 (batch + 1) refl (omega arith) (λ b.
        next_list-step 0 lists 1 2 (batch + 1 + 1) refl (omega arith)
          (λ c. absurd (omega (arith, le, a, b, c)))))
next_list-IsNext lists (suc (suc (suc mt))) batch lt le = absurd (omega (arith, lt))

module _ (valid : ℕ → Bool) (zone_id : ℕ → ℕ) where
  -- `n` pages have gone from the lists to the zone.
  pub record IsDrained (z : Zone) (lists : ℕ → List ℕ) (n : ℕ) (r : Zone × (ℕ → List ℕ) × ℕ)
      : Type 0 where
    pub store : IsStore valid zone_id r.0 r.1
    pub pages : SamePages valid zone_id z lists r.0 r.1
    pub balance : all_pages r.1 + n ≡ all_pages lists
    pub all_freed : r.2 ≡ 0

  done-IsDrained :
      (z : Zone) (lists : ℕ → List ℕ) (n : ℕ)
      → IsStore valid zone_id z lists
      → n ≡ 0
      → IsDrained z lists n (z, lists, n)
  unfolding SamePages
  done-IsDrained z lists n store e = record {
    store = store;
    pages = λ i. (λ f. f, λ f. f);
    balance = omega (arith, e);
    all_freed = e;
  }

  drain-IsDrained :
      (rounds : ℕ) (z : Zone) (lists : ℕ → List ℕ) (n mt batch : ℕ)
      → IsStore valid zone_id z lists
      → n ≤ rounds
      → n ≤ all_pages lists
      → mt < 3
      → IsDrained z lists n (drain valid zone_id rounds z lists n mt batch)
  unfolding drain SamePages IsNext
  drain-IsDrained zero z lists n mt batch store le enough lt =
      done-IsDrained z lists n store (omega (arith, le))
  drain-IsDrained (suc rounds) z lists n mt batch store le enough lt =
      let found = next_list 3 lists mt batch in
      let chosen = if found.1 == migrate_pcptypes then n else found.1 in
      let r = free_batch valid zone_id n chosen z lists found.0 in
      if_split (IsDrained z lists n) (n == 0) (z, lists, n)
        (drain valid zone_id rounds r.0 r.1 r.2 found.0 r.3)
        (λ x. done-IsDrained z lists n store (ground (arith, x)))
        (λ x.
          let some_left : 1 ≤ n = ground (arith, x) in
          let (fl, on) = next_list-IsNext lists mt batch lt (omega (arith, some_left, enough)) in
          let round = free_batch-IsRound valid zone_id n chosen z lists found.0 store fl in
          let less = round.progress on some_left in
          let rest =
            drain-IsDrained rounds r.0 r.1 r.2 found.0 r.3 round.store (omega (arith, less, le))
              (omega (arith, round.balance, enough)) fl in
          record {
            store = rest.store;
            pages = λ i. (
              λ f. (round.pages i).0 ((rest.pages i).0 f),
              λ f. (rest.pages i).1 ((round.pages i).1 f),
            );
            balance = omega (arith, rest.balance, round.balance, less, round.at_most);
            all_freed = rest.all_freed;
          })

  -- free_pcppages_bulk of at most as many pages as the per-cpu lists have, where the zone is valid
  -- and its nr_free_pages right, and each page on a list is held, on one list once and of one of the
  -- migrate types, ends, and frees exactly that number. Each page is then in the zone or on the
  -- lists exactly if it was so before; the zone stays valid, its nr_free_pages right, and the pages
  -- left on the lists held.
  pub free_pcppages_bulk-IsDrained :
      (z : Zone) (lists : ℕ → List ℕ) (count : ℕ)
      → IsStore valid zone_id z lists
      → count ≤ all_pages lists
      → IsDrained z lists count (free_pcppages_bulk valid zone_id z count lists)
  unfolding free_pcppages_bulk SamePages
  free_pcppages_bulk-IsDrained z lists count store enough =
      let y = record z { all_unreclaimable = false; pages_scanned = 0 } in
      let ok = store.valid_zone in
      let store' : IsStore valid zone_id y lists = record {
        valid_zone = record {
          list_of = ok.list_of;
          linked =
              same-IsLinked z y ok.list_of
                (record { order = refl; free_list = refl; nr_free = refl }) ok.linked;
          tiled = same-IsTiled valid zone_id z y refl ok.tiled;
        };
        counted = store.counted;
        typed = store.typed;
        held = λ t p h. same-IsHeld valid zone_id z y refl p 0 (store.held t p h);
        once = store.once;
        alone = store.alone;
      } in
      let drained =
        drain-IsDrained count y lists count 0 0 store' (omega arith) enough (omega arith) in
      record {
        store = drained.store;
        pages = λ i.
            let (a, b) = drained.pages i in
            (
              λ f. elim (a f) [ inl g ↦ inl (same-IsFree y z i refl g) | inr g ↦ inr g ],
              λ f. b (elim f [ inl g ↦ inl (same-IsFree z y i refl g) | inr g ↦ inr g ]),
            );
        balance = drained.balance;
        all_freed = drained.all_freed;
      }

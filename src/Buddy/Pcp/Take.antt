-- ===== src/Buddy/Pcp/Take.antt =====
-- A page from the per-cpu lists.
use my_posts.Prelude.{
  ℕ, ◌+◌, ◌-◌, ◌≤◌, ◌<◌, ◌≡◌, refl, sym, ap, ◌∙◌, ◌↔◌, ◌⊎◌, inl, inr, arith, Bool, false,
  Bool-cases, Option, none, some, List, [], ◌∷◌, List_split, ◌==◌, length, has, IsOnce, set,
  if_both,
}
use mathlib.Core.Path.{subst}
use my_posts.Buddy.{Zone}
use my_posts.Buddy.Fallback.{reserve}
use my_posts.Buddy.Fallback.Search.{AllSmall}
use my_posts.Buddy.Bulk.{rmqueue_bulk}
use my_posts.Buddy.Bulk.Refill.{rmqueue_bulk-IsRefilled}
use my_posts.Buddy.Pcp.{split_last}
use my_posts.Buddy.Pcp.Cpu.{PerCpuPages, pick_page, from_pcp}
use my_posts.Buddy.Pcp.Store.{IsRest, OnList, split_last-IsRest}
use my_posts.Buddy.Pcp.Return.{SamePages, there, kept_page, still, return-all_pages}
use my_posts.Buddy.Pcp.HotCold.{IsCpu}
use my_posts.Buddy.Pcp.Refilled.{
  refilled-IsStore, refilled-SamePages, refilled-all_pages, refilled-length,
}
use my_posts.Buddy.Valid.{IsHeld, IsFree}

head-IsRest : (p : ℕ) (ps : List ℕ) → IsOnce (p ∷ ps) → IsRest p (p ∷ ps) ps
head-IsRest p ps once = record {
  has_all = λ q. ground arith;
  once = once.1;
  out = once.0;
  shorter = refl;
}

module _ (valid : ℕ → Bool) (zone_id : ℕ → ℕ) where
  -- The page is held, and in neither the zone nor the lists.
  pub record IsObtained (z : Zone) (pcp : PerCpuPages) (page : ℕ) (z1 : Zone) (pcp1 : PerCpuPages)
      : Type 0 where
    pub cpu : IsCpu valid zone_id z1 pcp1
    pub held : IsHeld valid zone_id z1 page 0
    pub out : (t : ℕ) → has page (pcp1.lists t) ≡ false
    pub pages :
        (n : ℕ)
        → ((IsFree z1 n ⊎ OnList pcp1.lists n) ⊎ (n ≡ page)) ↔ (IsFree z n ⊎ OnList pcp.lists n)

  -- A page, or none while nothing is free.
  pub Obtains : Zone → PerCpuPages → Option ℕ × Zone × PerCpuPages → Type 0
  Obtains z pcp (some page, z1, pcp1) = IsObtained z pcp page z1 pcp1
  Obtains z pcp (none, z1, pcp1) = IsCpu valid zone_id z1 pcp1 × AllSmall z1 0

  removed-IsObtained :
      (z z1 : Zone) (pcp pcp1 : PerCpuPages) (t page : ℕ) (others : List ℕ)
      → IsCpu valid zone_id z1 pcp1
      → SamePages valid zone_id z pcp.lists z1 pcp1.lists
      → IsRest page (pcp1.lists t) others
      → t < 3
      → IsObtained z pcp page z1
          (record pcp1 { lists = set pcp1.lists t others; count = pcp1.count - 1 })
  unfolding SamePages OnList
  removed-IsObtained z z1 pcp pcp1 t page others cpu same part lt =
      let lists = pcp1.lists in
      let store = cpu.store in
      let kept = kept_page valid zone_id z1 lists t page others store part in
      let fewer = return-all_pages valid zone_id z1 lists t page others store part lt in
      let on = there valid zone_id z1 lists t page others store part in
      let left = still valid zone_id z1 lists t page others store part in
      record {
        cpu = record {
          store = record {
            valid_zone = store.valid_zone;
            counted = store.counted;
            typed = λ u q h. store.typed u q (kept u q h).0;
            held = λ u q h. store.held u q (kept u q h).0;
            once = λ u. if_both IsOnce (u == t) others (lists u) part.once (store.once u);
            alone = λ u v q h i. store.alone u v q (kept u q h).0 (kept v q i).0;
          };
          count = omega (arith, fewer, cpu.count);
          batches = cpu.batches;
        };
        held = store.held t page on;
        out = λ u. elim (Bool-cases (has page (set lists t others u))) [
          | inl h ↦ absurd ((kept u page h).1 refl)
          | inr h ↦ h
        ];
        pages = λ n.
            let (a, b) = same n in
            (
              λ f. elim f [
                | inl (inl g) ↦ a (inl g)
                | inl (inr (u, h)) ↦ a (inr (u, (kept u n h).0))
                | inr e ↦ a (inr (t, ap (λ v. has v (lists t)) e ∙ on))
              ],
              λ f. elim (b f) [
                | inl g ↦ inl (inl g)
                | inr (u, h) ↦ elim (Bool-cases (page == n)) [
                  | inl x ↦ inr (ground (arith, x))
                  | inr x ↦ inl (inr (u, left u n h x))
                ]
              ],
            );
      }

  pick_page-Obtains :
      (z z1 : Zone) (pcp pcp1 : PerCpuPages) (mt : ℕ) (cold : Bool)
      → IsCpu valid zone_id z1 pcp1
      → SamePages valid zone_id z pcp.lists z1 pcp1.lists
      → mt < 3
      → (pcp1.lists mt ≡ [] → AllSmall z1 0)
      → Obtains z pcp (pick_page z1 pcp1 mt cold)
  unfolding pick_page Obtains
  pick_page-Obtains z z1 pcp pcp1 mt cold cpu same lt small =
      List_split (Obtains z pcp) (pcp1.lists mt) _ _ (λ e. (cpu, small e))
        (λ p ps e.
          let once = subst IsOnce e (cpu.store.once mt) in
          let (others, last) = split_last p ps in
          let behind = subst (λ l. IsRest last l others) (sym e) (split_last-IsRest p ps once) in
          let front = subst (λ l. IsRest p l ps) (sym e) (head-IsRest p ps once) in
          if_both (Obtains z pcp) cold _ _
            (removed-IsObtained z z1 pcp pcp1 mt last others cpu same behind lt)
            (removed-IsObtained z z1 pcp pcp1 mt p ps cpu same front lt))

  module _ (spans : ℕ → Bool) (disabled : Bool) (pageblock_order : ℕ) where
    -- The part of buffered_rmqueue for single pages, with a type other than MIGRATE_RESERVE and
    -- batches of at least one page, on a valid zone whose nr_free_pages is right and per-cpu lists
    -- that agree with their count and whose pages are held, on one list once and of one of the migrate
    -- types, where a batch is not more than high, keeps both so. It returns a page that is then held,
    -- neither free nor on a list; the other pages stay free or on a list. It returns none only if the
    -- zone has no free page left.
    pub from_pcp-Obtains :
        (z : Zone) (pcp : PerCpuPages) (mt : ℕ) (cold : Bool)
        → IsCpu valid zone_id z pcp
        → mt < reserve
        → 1 ≤ pcp.batch
        → Obtains z pcp (from_pcp valid spans disabled pageblock_order z pcp mt cold)
    unfolding from_pcp SamePages
    from_pcp-Obtains z pcp mt cold cpu lt some_batch =
        let r =
          rmqueue_bulk valid spans disabled pageblock_order z 0 pcp.batch (pcp.lists mt) mt cold in
        let filled =
          rmqueue_bulk-IsRefilled valid zone_id spans disabled pageblock_order z 0 pcp.batch
            (pcp.lists mt) mt cold cpu.store.valid_zone cpu.store.counted (omega arith) lt in
        List_split (λ (t : Zone × PerCpuPages). Obtains z pcp (pick_page t.0 t.1 mt cold))
          (pcp.lists mt) _ (λ _ _. (z, pcp))
          (λ e.
            let lists' = set pcp.lists mt r.1 in
            let refilled = record pcp { lists = lists'; count = pcp.count + r.2 } in
            let longer =
              refilled-all_pages valid zone_id spans disabled pageblock_order z pcp.lists mt
                pcp.batch cold r cpu.store e filled lt in
            let none_taken : lists' mt ≡ [] → r.2 ≡ 0 = λ f.
              sym (
                refilled-length valid zone_id spans disabled pageblock_order z pcp.lists mt
                  pcp.batch cold r cpu.store e filled)
              ∙ ap length f in
            pick_page-Obtains z r.0 pcp refilled mt cold
              (record {
                store =
                    refilled-IsStore valid zone_id spans disabled pageblock_order z pcp.lists mt
                      pcp.batch cold r cpu.store e filled;
                count = omega (arith, longer, cpu.count);
                batches = cpu.batches;
              })
              (refilled-SamePages valid zone_id spans disabled pageblock_order z pcp.lists mt
                pcp.batch cold r cpu.store e filled)
              lt
              (λ none_there. filled.batch.short (omega (arith, some_batch, none_taken none_there))))
          (λ p ps e.
            pick_page-Obtains z z pcp pcp mt cold cpu (λ n. (λ f. f, λ f. f)) lt
              (λ none_there. absurd (ground (arith, sym e ∙ none_there))))

-- ===== src/Slob/Front/Cache.antt =====
-- kmem caches: freeing after a grace period, and the constructor.
use my_posts.Prelude.{
  ℕ, ◌+◌, ◌-◌, ◌*◌, ◌%◌, ◌≤◌, ◌<◌, ◌≡◌, refl, inl, inr, Bool, true, Option, none, some, List, ◌∷◌,
  arith, ap, ltb,
}
use my_posts.Slob.Block.{page_size, slob_unit, page_units, Ptr}
use my_posts.Slob.FreeList.{Block}
use my_posts.Slob.FirstFit.Complete.{IsAligned}
use my_posts.Slob.State.{Slob, Run, ok, bug, stuck, Pointer, nil, zero_size, at}
use my_posts.Slob.Model.{Holds}
use my_posts.Slob.Alloc.Entry.{NoPage, Served, slob_alloc-Served}
use my_posts.Slob.Front.{
  Arch, KmemCache, SlobRcu, constructed, kmem_cache_create, kmem_cache_alloc_node, free_object,
  kmem_rcu_free, kmem_cache_free,
}

-- Freeing an object of a cache that waits for a grace period changes nothing at once, and queues one
-- callback that later frees this object, whole and with its size, in whatever state it finds; an
-- object of another cache is freed at once.
pub kmem_cache_free_lem :
    (A : Arch) (c : KmemCache) (s s₂ : Slob) (waiting : List SlobRcu) (b : Ptr)
    → let c' = kmem_cache_create A c true in
      (r : SlobRcu) × (kmem_cache_free A s waiting c' b ≡ ok (s, r ∷ waiting))
      × (kmem_rcu_free A s₂ r ≡ free_object A s₂ b (c.size + A.rcu_size))
unfolding kmem_cache_free kmem_rcu_free kmem_cache_create
kmem_cache_free_lem A c s s₂ waiting b = (
  record { head = b * slob_unit + (c.size + A.rcu_size - A.rcu_size); size = c.size + A.rcu_size },
  refl,
  ap (λ p. free_object A s₂ p (c.size + A.rcu_size)) (omega arith),
)

module _ (A : Arch) (s : Slob) (F : ℕ → List Block) (c : KmemCache) (nid : Option ℕ)
    (even : c.align % 2 ≡ 0) (divides : IsAligned c.align page_units) (sized : 1 ≤ c.size)
    (small : c.size < page_size) (h : Holds s F) where
  null-Served :
      (r : Run (Pointer × Slob))
      → NoPage s F c.size c.align nid
      → Served s F c.size c.align nid none r
      → r ≡ ok (nil, s)
  null-Served (ok (nil, s')) no_page v = ap (λ x. ok (nil, x)) v.2
  null-Served (ok (at b, s')) no_page (inl (n, x, y, a)) =
      absurd (no_page n x y b a.aligned a.takes.was_free)
  null-Served (ok (at b, s')) no_page (inr (n, e, v, w)) = absurd (ground arith)
  null-Served (ok (zero_size, s')) no_page v = absurd v
  null-Served bug no_page v = absurd v
  null-Served stuck no_page v = absurd v

  -- The constructor of a cache of small objects is called on NULL when memory is exhausted: no page
  -- on the list has room, and there is no new page.
  pub ctor_on_null :
      (clean : Bool)
      → c.has_ctor ≡ true
      → NoPage s F c.size c.align nid
      → kmem_cache_alloc_node A s c clean nid none ≡ ok (nil, s, some nil)
  unfolding kmem_cache_alloc_node constructed
  ctor_on_null clean ctor no_page =
      let lt : ltb c.size page_size ≡ true = ground arith in
      let v =
        slob_alloc-Served A.align s F c.size c.align nid none even divides sized (omega arith) h
          clean in
      rw (lt, null-Served _ no_page v, ctor)

-- ===== src/Slob/Front.antt =====
-- The front ends over SLOB: kmalloc, kfree, ksize and the kmem caches of ulk_slob/slob.c.
pub mod Kmalloc
pub mod Cache
pub mod Kfree
use my_posts.Prelude.{
  ℕ, ◌+◌, ◌-◌, ◌*◌, ◌/◌, ◌%◌, ◌^◌, Bool, true, false, Option, none, some, List, [], ◌∷◌, ltb, ◌==◌,
  if◌then◌else◌,
}
use my_posts.Prelude.Int.{ℤ, pos, pos_part, neg_part}
use my_posts.Slob.Block.{page_size, slob_unit, units_of, page_units, Ptr, Mem, base, write, to_idx}
use my_posts.Slob.PageAlloc.{Align}
use my_posts.Slob.State.{
  Page, Slob, virt_to_page, update, Run, ok, bug, stuck, Pointer, nil, zero_size, at, slob_alloc,
  slob_free_pages, slob_free,
}

-- The low 16 bits of a unit.
abbrev pub raw : ℤ → ℕ
raw z = (pos_part z + 2 ^ 16 - neg_part z) % 2 ^ 16

-- An `unsigned int` in two units, low half first.
unfoldable pub store_int : Mem → Ptr → ℕ → Mem
unfolding write
store_int m p v =
    write (write m p (to_idx (pos (v % 2 ^ 16)))) (p + 1) (to_idx (pos (v / 2 ^ 16 % 2 ^ 16)))

unfoldable pub load_int : Mem → Ptr → ℕ
load_int m p = raw (m p) + raw (m (p + 1)) * 2 ^ 16

-- What the architecture and the page allocator fix: the larger of ARCH_KMALLOC_MINALIGN and
-- ARCH_SLAB_MINALIGN, `get_order`, and sizeof(struct slob_rcu).
pub record Arch : Type 0 where
  pub align : Align
  pub minalign : ℕ
  pub get_order : ℕ → ℕ
  pub rcu_size : ℕ

-- A cache; `by_rcu` is SLAB_DESTROY_BY_RCU.
pub record KmemCache : Type 0 where
  pub size : ℕ
  pub align : ℕ
  pub by_rcu : Bool
  pub has_ctor : Bool

-- A `slob_rcu` at the end of an object that waits for the grace period: its byte address, and the
-- size of the object.
pub record SlobRcu : Type 0 where
  pub head : ℕ
  pub size : ℕ

module _ (A : Arch) where
  -- `slob_new_pages` of the given order; a compound page knows its order.
  unfoldable pub slob_new_pages : Slob → ℕ → Option ℕ → Pointer × Slob
  slob_new_pages s order none = (nil, s)
  slob_new_pages s order (some n) =
      (at (base n), record s { page = update s.page n (record (s.page n) { order = order }) })

  -- Store the size in front of the object.
  unfoldable pub with_header : ℕ → Run (Pointer × Slob) → Run (Pointer × Slob)
  with_header size (ok (at m, s)) =
      ok (at (m + A.minalign / slob_unit), record s { mem = store_int s.mem m size })
  with_header size (ok (zero_size, s)) = ok (zero_size, s)
  with_header size (ok (nil, s)) = ok (nil, s)
  with_header size bug = bug
  with_header size stuck = stuck

  -- `__do_kmalloc_node`
  unfoldable pub kmalloc :
      Slob → (size : ℕ) → (clean : Bool) → Option ℕ → Option ℕ → Run (Pointer × Slob)
  kmalloc s size clean wanted fresh =
      let m = slob_alloc A.align s (size + A.minalign) clean A.minalign wanted fresh in
      if ltb size (page_size - A.minalign)
      then (if size == 0 then ok (zero_size, s) else with_header size m)
      else ok (slob_new_pages s (A.get_order size) fresh)

  unfoldable pub kfree : Slob → Pointer → Run Slob
  kfree s nil = ok s
  kfree s zero_size = ok s
  kfree s (at block) =
      let n = virt_to_page block in
      let sp = s.page n in
      let m = block - A.minalign / slob_unit in
      if sp.slab
      then slob_free s (at m) (load_int s.mem m + A.minalign)
      else ok (slob_free_pages s n sp.order)

  unfoldable pub ksize : Slob → Pointer → Run ℕ
  ksize s nil = bug
  ksize s zero_size = ok 0
  ksize s (at block) =
      let sp = s.page (virt_to_page block) in
      let m = block - A.minalign / slob_unit in
      if sp.slab
      then ok (units_of (load_int s.mem m) * slob_unit)
      else ok (page_size * 2 ^ sp.order)

  -- `__kmem_cache_create`: leave room for rcu footer at the end of object.
  unfoldable pub kmem_cache_create : KmemCache → Bool → KmemCache
  kmem_cache_create c by_rcu = record c {
    size = if by_rcu then c.size + A.rcu_size else c.size;
    by_rcu = by_rcu;
  }

  -- The object and the state, with the constructor's argument if there is a constructor.
  unfoldable pub constructed :
      KmemCache → Run (Pointer × Slob) → Run (Pointer × Slob × Option Pointer)
  constructed c (ok (b, s)) = ok (b, s, if c.has_ctor then some b else none)
  constructed c bug = bug
  constructed c stuck = stuck

  unfoldable pub kmem_cache_alloc_node :
      Slob → KmemCache → Bool → Option ℕ → Option ℕ → Run (Pointer × Slob × Option Pointer)
  kmem_cache_alloc_node s c clean wanted fresh = constructed c (
      if ltb c.size page_size
      then slob_alloc A.align s c.size clean c.align wanted fresh
      else ok (slob_new_pages s (A.get_order c.size) fresh))

  -- `__kmem_cache_free`
  unfoldable pub free_object : Slob → Ptr → ℕ → Run Slob
  free_object s b size =
      if ltb size page_size
      then slob_free s (at b) size
      else ok (slob_free_pages s (virt_to_page b) (A.get_order size))

  -- `kmem_rcu_free`, once the grace period is over.
  unfoldable pub kmem_rcu_free : Slob → SlobRcu → Run Slob
  kmem_rcu_free s r = free_object s ((r.head - (r.size - A.rcu_size)) / slob_unit) r.size

  -- The state and the callbacks that wait for a grace period.
  unfoldable pub kmem_cache_free : Slob → List SlobRcu → KmemCache → Ptr → Run (Slob × List SlobRcu)
  kmem_cache_free s waiting c b =
      if c.by_rcu
      then ok (s, record { head = b * slob_unit + (c.size - A.rcu_size); size = c.size } ∷ waiting)
      else elim (free_object s b c.size) [ ok s' ↦ ok (s', waiting) | bug ↦ bug | stuck ↦ stuck ]

-- ===== src/Slob/Alloc/Zero.antt =====
-- Clearing an allocated block (`__GFP_ZERO`) touches no free block.
use native.Mathlib.Decide.{dec_lt}
use my_posts.Prelude.{
  ℕ, ◌+◌, ◌-◌, ◌≤◌, ◌<◌, ◌≡◌, ◌≢◌, ◌⊎◌, inl, inr, List, [], ◌∷◌, arith, ◌==◌, Bool-cases,
}
use my_posts.Slob.Block.{page_units, units_of, Ptr, Mem, base, Header-frame}
use my_posts.Slob.FreeList.{Block, first, Encodes, Ordered, Free, Free_bounds}
use my_posts.Slob.State.{Slob, clear, update}
use my_posts.Slob.Model.{PageHolds, Holds}
use my_posts.Slob.Alloc.Search.{Allocated}

pub Encodes-spare :
    (m m' : Mem) (n lo : ℕ) (bs : List Block)
    → Ordered n lo bs
    → ((x : Ptr) → Free x bs → m' x ≡ m x)
    → Encodes m n bs
    → Encodes m' n bs
Encodes-spare m m' n lo [] o same e = tt
Encodes-spare m m' n lo ((a, s) ∷ bs) o same (h, e) = (
  Header-frame m m' n a s (first n bs) o.1 (λ q p r. same q (inl (p, r))) h,
  Encodes-spare m m' n (a + s + 1) bs o.2 (λ x f. same x (inr f)) e,
)

-- A write that spares the free units keeps the abstract view.
pub Holds-spare :
    (s : Slob) (m : Mem) (F : ℕ → List Block)
    → ((n : ℕ) (x : Ptr) → Free x (F n) → m x ≡ s.mem x)
    → Holds s F
    → Holds (record s { mem = m }) F
Holds-spare s m F same h = record { pages = λ n. page n (h.pages n); flagged = h.flagged }
  where
    page : (n : ℕ) → PageHolds s.mem (s.page n) n (F n) → PageHolds m (s.page n) n (F n)
    page n (inr u) = inr u
    page n (inl l) = inl (record {
      flag = l.flag;
      slab = l.slab;
      some_free = l.some_free;
      starts = l.starts;
      counts = l.counts;
      encodes = Encodes-spare s.mem m n (base n) (F n) l.ordered (same n) l.encodes;
      ordered = l.ordered;
    })

-- The free units of a page lie in the page.
pub Free-page :
    (s : Slob) (F : ℕ → List Block) (n x : ℕ)
    → Holds s F
    → Free x (F n)
    → (base n ≤ x) × (x < base n + page_units)
Free-page s F n x h f = go (h.pages n)
  where
    go : PageHolds s.mem (s.page n) n (F n) → (base n ≤ x) × (x < base n + page_units)
    go (inl l) = Free_bounds n (base n) x (F n) l.ordered f
    go (inr u) = absurd (rw u.nothing at f)

clear_outside :
    (m : Mem) (b size q : ℕ) → (q < b) ⊎ (b + units_of size ≤ q) → clear m b size q ≡ m q
unfolding clear
clear_outside m b size q h = ground arith

-- An allocated block is written.
pub Allocated-write :
    (F : ℕ → List Block) (n units align : ℕ) (bs : List Block) (b : Ptr) (s : Slob) (m : Mem)
    → 1 ≤ units
    → Ordered n (base n) bs
    → ((q : Ptr) → (q < b) ⊎ (b + units ≤ q) → m q ≡ s.mem q)
    → Allocated F n units align bs b s
    → Allocated F n units align bs b (record s { mem = m })
Allocated-write F n units align bs b s m p o same a = record {
  left = a.left;
  takes = a.takes;
  aligned = a.aligned;
  holds = Holds-spare s m (update F n a.left) spared a.holds;
  slab = a.slab;
}
  where
    inside : (x : Ptr) → b ≤ x → x < b + units → (base n ≤ x) × (x < base n + page_units)
    inside x h k = Free_bounds n (base n) x bs o (a.takes.was_free x h k)

    outside : (k : ℕ) (x : Ptr) → Free x (update F n a.left k) → (x < b) ⊎ (b + units ≤ x)
    outside k x f = elim (Bool-cases (k == n)) [
      | inl e ↦ ((a.takes.leaves x).0 (rw e at f)).1
      | inr e ↦
          let y = Free-page s (update F n a.left) k x a.holds f in
          let i = inside b (omega arith) (omega arith) in
          let j = inside (b + units - 1) (omega arith) (omega arith) in
          let ne : k ≢ n = ground arith in
          elim (dec_lt k n) [ yes l ↦ inl (omega arith) | no l ↦ inr (omega arith) ]
    ]

    spared : (k : ℕ) (x : Ptr) → Free x (update F n a.left k) → m x ≡ s.mem x
    spared k x f = same x (outside k x f)

-- An allocated block is cleared.
pub Allocated-clear :
    (F : ℕ → List Block) (n size align : ℕ) (bs : List Block) (b : Ptr) (s : Slob)
    → 1 ≤ size
    → Ordered n (base n) bs
    → Allocated F n (units_of size) align bs b s
    → Allocated F n (units_of size) align bs b (record s { mem = clear s.mem b size })
Allocated-clear F n size align bs b s p o =
    Allocated-write F n (units_of size) align bs b s _ (omega arith) o (clear_outside s.mem b size)

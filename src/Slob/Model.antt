-- ===== src/Slob/Model.antt =====
-- The abstract view of the allocator: the free blocks of each page, in address order.
use native.Mathlib.Decide.{dec_lt}
use mathlib.Core.Path.{subst}
use my_posts.Prelude.{
  ℕ, ◌+◌, ◌≤◌, ◌<◌, ◌≡◌, ◌≢◌, sym, ◌∙◌, ◌⊎◌, inl, inr, true, false, ◌||◌, List, [], ◌∷◌, arith, ap,
  ◌==◌, ==_iff, Bool-cases, if◌then◌else◌, has, has-append, take, drop, take-append-drop,
}
use my_posts.Slob.Block.{page_units, Ptr, Mem, base}
use my_posts.Slob.FreeList.{Block, first, Encodes, Ordered, Encodes-frame, total}
use my_posts.Slob.State.{Page, Slob, Class, class_eq, update, remove, rotate, turn}

-- The page is on a list of partially free pages, and `bs` are its free blocks.
pub record Listed (m : Mem) (sp : Page) (n : ℕ) (bs : List Block) : Type 0 where
  pub flag : sp.slob_free ≡ true
  pub slab : sp.slab ≡ true
  pub some_free : bs ≢ []
  pub starts : sp.freelist ≡ first n bs
  pub counts : sp.units ≡ total bs
  pub encodes : Encodes m n bs
  pub ordered : Ordered n (base n) bs

-- The page has no free block that the allocator could use: it is full, or not the allocator's.
pub record Unlisted (sp : Page) (bs : List Block) : Type 0 where
  pub flag : sp.slob_free ≡ false
  pub nothing : bs ≡ []
  pub full : sp.slab ≡ true → sp.units ≡ 0

abbrev pub PageHolds : Mem → Page → ℕ → List Block → Type 0
PageHolds m sp n bs = Listed m sp n bs ⊎ Unlisted sp bs

-- The state `s` stands for the free blocks `F n` of each page `n`, and only partially free pages are
-- on the lists.
pub record Holds (s : Slob) (F : ℕ → List Block) : Type 0 where
  pub pages : (n : ℕ) → PageHolds s.mem (s.page n) n (F n)
  pub flagged : (c : Class) (n : ℕ) → has n (s.pages c) ≡ true → (s.page n).slob_free ≡ true

-- A page does not see what is written in other pages.
pub PageHolds-frame :
    (m m' : Mem) (sp : Page) (n : ℕ) (bs : List Block)
    → ((q : Ptr) → base n ≤ q → q < base n + page_units → m' q ≡ m q)
    → PageHolds m sp n bs
    → PageHolds m' sp n bs
PageHolds-frame m m' sp n bs same (inr u) = inr u
PageHolds-frame m m' sp n bs same (inl l) = inl (record {
  flag = l.flag;
  slab = l.slab;
  some_free = l.some_free;
  starts = l.starts;
  counts = l.counts;
  encodes = Encodes-frame n m m' (base n) bs same l.ordered l.encodes;
  ordered = l.ordered;
})

-- An operation on page `n` writes in that page only, and lists no other page anew.
pub Holds-update :
    (s s' : Slob) (F : ℕ → List Block) (n : ℕ) (sp : Page) (bs : List Block)
    → Holds s F
    → ((k : ℕ) → s'.page k ≡ update s.page n sp k)
    → ((q : Ptr) → (q < base n) ⊎ (base n + page_units ≤ q) → s'.mem q ≡ s.mem q)
    → ((c : Class) (k : ℕ) → has k (s'.pages c) ≡ true → k ≢ n → has k (s.pages c) ≡ true)
    → ((c : Class) → has n (s'.pages c) ≡ true → sp.slob_free ≡ true)
    → PageHolds s'.mem sp n bs
    → Holds s' (update F n bs)
Holds-update s s' F n sp bs h page mem lists listed new = record {
  pages = λ k. elim (Bool-cases (k == n)) [
    | inl e ↦ rw (page k, e) (subst (λ j. PageHolds s'.mem sp j bs) (sym ((==_iff k n).0 e)) new)
    | inr e ↦
        rw (page k, e)
          (PageHolds-frame s.mem s'.mem (s.page k) k (F k)
            (λ q x y. mem q (other k q (ground arith) x y)) (h.pages k))
  ];
  flagged = λ c k x. elim (Bool-cases (k == n)) [
    | inl e ↦
        rw (page k, e) (listed c (subst (λ j. has j (s'.pages c) ≡ true) ((==_iff k n).0 e) x))
    | inr e ↦ rw (page k, e) (h.flagged c k (lists c k x (ground arith)))
  ];
}
  where
    other :
        (k q : ℕ)
        → k ≢ n
        → base k ≤ q
        → q < base k + page_units
        → (q < base n) ⊎ (base n + page_units ≤ q)
    other k q ne x y = elim (dec_lt k n) [ yes l ↦ inl (omega arith) | no l ↦ inr (omega arith) ]

-- Taking a page off a list, and moving the head of a list, bring no page in.
pub has-remove : (n k : ℕ) (ks : List ℕ) → has k (remove n ks) ≡ true → (has k ks ≡ true) × (k ≢ n)
unfolding remove
has-remove n k [] h = absurd (ground arith)
has-remove n k (j ∷ ks) h = ground (arith, has-remove n k ks)

has-turn : (k : ℕ) (xs ys : List ℕ) → has k (turn xs ys) ≡ (has k xs || has k ys)
unfolding turn
has-turn k xs [] = ground arith
has-turn k xs (y ∷ ys) = has-append k (y ∷ ys) xs ∙ ground arith

pub has-rotate : (i k : ℕ) (ks : List ℕ) → has k (rotate i ks) ≡ true → has k ks ≡ true
unfolding rotate
has-rotate i k ks h =
    let e = has-turn k (take i ks) (drop i ks) in
    let a = has-append k (take i ks) (drop i ks) in
    let t = ap (has k) (take-append-drop i ks) in sym (e ∙ sym a ∙ t) ∙ h

-- A page put at the front of a list is the only one that comes in.
pub has-add :
    (n k : ℕ) (c d : Class) (ks : List ℕ)
    → has k (if class_eq d c then n ∷ ks else ks) ≡ true
    → k ≢ n
    → has k ks ≡ true
has-add n k c d ks h ne = elim (Bool-cases (class_eq d c)) [
  | inl e ↦ let g = rw e at h in ground arith
  | inr e ↦ rw e at h
]

-- The free blocks of each page are in order.
pub Holds-Ordered : (s : Slob) (F : ℕ → List Block) (n : ℕ) → Holds s F → Ordered n (base n) (F n)
Holds-Ordered s F n h = go (h.pages n)
  where
    go : PageHolds s.mem (s.page n) n (F n) → Ordered n (base n) (F n)
    go (inl l) = l.ordered
    go (inr u) = rw u.nothing (omega arith)

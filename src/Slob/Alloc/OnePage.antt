-- ===== src/Slob/Alloc/OnePage.antt =====
-- What one page gives, as the allocator's state sees it.
use my_posts.Prelude.{
  ℕ, ◌+◌, ◌-◌, ◌%◌, ◌≤◌, ◌<◌, ◌≡◌, ◌≢◌, refl, ◌⊎◌, inl, inr, false, eq_self, Option, none, some,
  List, [], ◌∷◌, arith, ap, ◌==◌, Bool-cases,
}
use my_posts.Slob.Block.{page_units, Ptr, Mem, base}
use my_posts.Slob.FreeList.{Block, first, Encodes, Ordered, total}
use my_posts.Slob.PageAlloc.{Align, Scan, null, got, page_scan}
use my_posts.Slob.FirstFit.{first_fit}
use my_posts.Slob.FirstFit.Sound.{Takes}
use my_posts.Slob.FirstFit.Complete.{IsAligned, Run, Answer, first_fit-Answer}
use my_posts.Slob.Scan.{Outcome, page_scan-Outcome}
use my_posts.Slob.State.{Slob, update, take_units, clear_slob_page_free}
use my_posts.Slob.Model.{Listed, Holds, Holds-update, has-remove}

-- A block that a page gives, and what the page is left with.
pub record Got (m : Mem) (n units align : ℕ) (bs : List Block) (r : Scan) : Type 0 where
  pub block : Ptr
  pub mem : Mem
  pub freelist : Ptr
  pub left : List Block
  pub result : r ≡ got block mem freelist
  pub takes : Takes n units (base n) bs block left
  pub aligned : IsAligned align block
  pub encodes : Encodes mem n left
  pub starts : freelist ≡ first n left
  pub same : (q : Ptr) → (q < base n) ⊎ (base n + page_units ≤ q) → mem q ≡ m q

-- No aligned run of free units is long enough.
abbrev pub NoRun : ℕ → ℕ → List Block → Type 0
NoRun units align bs = (p : Ptr) → IsAligned align p → Run units p bs → ⊥

first-ge :
    (n lo : ℕ) (bs : List Block) → lo ≤ base n + page_units → Ordered n lo bs → lo ≤ first n bs
first-ge n lo [] h o = h
first-ge n lo ((a, s) ∷ bs) h o = o.0

-- `slob_page_alloc` gives an aligned block of free units, or NULL if there is none.
pub page_scan_result :
    (K : Align) (m : Mem) (n units align : ℕ) (bs : List Block)
    → align % 2 ≡ 0
    → 1 ≤ units
    → bs ≢ []
    → Encodes m n bs
    → Ordered n (base n) bs
    → ((page_scan K m (first n bs) units align ≡ null) × NoRun units align bs)
      ⊎ Got m n units align bs (page_scan K m (first n bs) units align)
page_scan_result K m n units align bs even u ne e o =
    go (first_fit K units align bs) (page_scan-Outcome K m n units align bs u ne e o)
      (first_fit-Answer K align even n units (base n) bs u o)
  where
    go :
        (found : Option (Ptr × List Block))
        → Outcome m n (first n bs) none (first n bs) found (page_scan K m (first n bs) units align)
        → Answer n units align (base n) bs found
        → ((page_scan K m (first n bs) units align ≡ null) × NoRun units align bs)
          ⊎ Got m n units align bs (page_scan K m (first n bs) units align)
    go none t a = inl (t, a)
    go (some (p, left)) t (takes, al) = inr (record {
      block = p;
      mem = t.mem;
      freelist = t.freelist;
      left = left;
      result = t.result;
      takes = takes;
      aligned = al;
      encodes = t.encodes;
      starts = t.linked;
      same = λ q far. t.same q (let g = first-ge n (base n) bs (omega arith) o in ground arith) tt;
    })

total-zero : (n lo : ℕ) (bs : List Block) → Ordered n lo bs → total bs ≡ 0 → bs ≡ []
total-zero n lo [] o h = refl
total-zero n lo ((a, s) ∷ bs) o h = absurd (omega (arith, o.1))

-- Taking the units keeps the abstract view, with this page's free blocks as they are left.
pub take_units-Holds :
    (s : Slob) (F : ℕ → List Block) (n units align : ℕ) (bs : List Block) (r : Scan)
    → Holds s F
    → Listed s.mem (s.page n) n bs
    → (g : Got s.mem n units align bs r)
    → Holds (take_units s n units g.mem g.freelist) (update F n g.left)
unfolding take_units clear_slob_page_free
take_units-Holds s F n units align bs r h l g = elim (Bool-cases ((s.page n).units - units == 0)) [
  | inl z ↦
      let sp = record (s.page n) {
        units = (s.page n).units - units;
        freelist = g.freelist;
        slob_free = false;
      } in
      rw z (
        Holds-update s _ F n sp g.left h (λ k. ground (arith, eq_self n)) g.same
          (λ c k x ne. (has-remove n k (s.pages c) x).0)
          (λ c x. absurd ((has-remove n n (s.pages c) x).1 refl))
          (inr (record {
            flag = refl;
            nothing =
                total-zero n (base n) g.left g.takes.ordered
                  (ground (arith, g.takes.counted, l.counts));
            full = λ _. ground arith;
          })))
  | inr z ↦
      let sp = record (s.page n) { units = (s.page n).units - units; freelist = g.freelist } in
      rw z (
        Holds-update s _ F n sp g.left h (λ k. refl) g.same (λ c k x ne. x) (λ c x. l.flag)
          (inl (record {
            flag = l.flag;
            slab = l.slab;
            some_free = λ e. ground (arith, ap total e, g.takes.counted, l.counts);
            starts = g.starts;
            counts = omega (arith, g.takes.counted, l.counts);
            encodes = g.encodes;
            ordered = g.takes.ordered;
          })))
]

pub slab-take_units :
    (s : Slob) (n units : ℕ) (m : Mem) (fl : Ptr)
    → ((take_units s n units m fl).page n).slab ≡ (s.page n).slab
unfolding take_units clear_slob_page_free
slab-take_units s n units m fl = elim (Bool-cases ((s.page n).units - units == 0)) [
  | inl z ↦ rw (z, eq_self n)
  | inr z ↦ rw (z, eq_self n)
]

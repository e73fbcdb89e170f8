-- ===== src/Slob/Carve.antt =====
-- Taking units from one free block: what `carve` and `split_head` do to the encoded list.
use my_posts.Prelude.{
  ℕ, ◌+◌, ◌-◌, ◌≤◌, ◌<◌, ◌≡◌, refl, ◌⊎◌, inl, inr, Option, none, some, List, ◌∷◌, arith, ◌==◌, ◌∙◌,
  Bool-cases,
}
use my_posts.Slob.Block.{
  page_units, Ptr, Mem, set_slob, slob_units, base, Header, Fits, set_slob-Header, set_slob_outside,
  slob_units-Header, slob_next-Header, Header-frame,
}
use my_posts.Slob.FreeList.{Block, first, Encodes, Ordered, first_bounds, Encodes-frame}
use my_posts.Slob.PageAlloc.{Scan, got, link, carve}
use my_posts.Slob.FirstFit.{piece}

abbrev pub prev_ptr : Option Block → Option Ptr
prev_ptr none = none
prev_ptr (some (a, s)) = some a

-- The block in front, if there is one, lies in the page, ends at `cur` or earlier, and has its
-- size encoded.
abbrev pub Before : Mem → ℕ → Option Block → Ptr → Type 0
Before m n none cur = base n ≤ cur
Before m n (some (a, s)) cur = (base n ≤ a) × (1 ≤ s) × (a + s ≤ cur) × (slob_units m a ≡ s)

-- What comes before the list leads to `next`: the block in front, or `freelist`.
abbrev pub Linked : Mem → ℕ → Ptr → Ptr → Option Block → Ptr → Type 0
Linked m n fl fl' none next = fl' ≡ next
Linked m n fl fl' (some (a, s)) next = (fl' ≡ fl) × Header m n a s next

abbrev pub Outside : Option Block → Ptr → Type 0
Outside none q = Unit {0}
Outside (some (a, s)) q = (q < a) ⊎ (a + s ≤ q)

module _ (m : Mem) (n : ℕ) (fl : Ptr) (cur : Ptr) where
  pub Outside-after : (pb : Option Block) (q : Ptr) → Before m n pb cur → cur ≤ q → Outside pb q
  Outside-after none q b h = tt
  Outside-after (some (a, s)) q b h = inr (omega arith)

  pub Before-ge : (pb : Option Block) → Before m n pb cur → base n ≤ cur
  Before-ge none b = b
  Before-ge (some (a, s)) b = omega arith

  link-Linked :
      (pb : Option Block) (next : Ptr)
      → Before m n pb cur
      → cur ≤ next
      → next ≤ base n + page_units
      → Linked (link m (prev_ptr pb) fl next).0 n fl (link m (prev_ptr pb) fl next).1 pb next
        × ((q : Ptr) → Outside pb q → (link m (prev_ptr pb) fl next).0 q ≡ m q)
  unfolding link
  link-Linked none next b h k = (refl, λ q o. refl)
  link-Linked (some (a, s)) next b h k =
      let f = fits in
      rw b.3 ((refl, set_slob-Header m n a s next f), λ q o. set_slob_outside m n a s next f q o)
    where
      fits : Fits n a s next
      fits = omega arith

  -- A write behind `cur` leaves the link in place.
  pub Linked-frame :
      (m₁ m₂ : Mem) (fl' : Ptr) (pb : Option Block) (next : Ptr)
      → Before m n pb cur
      → ((q : Ptr) → q < cur → m₂ q ≡ m₁ q)
      → Linked m₁ n fl fl' pb next
      → Linked m₂ n fl fl' pb next
  Linked-frame m₁ m₂ fl' none next b same l = l
  Linked-frame m₁ m₂ fl' (some (a, s)) next b same (e, h) =
      (e, Header-frame m₁ m₂ n a s next b.1 (λ q p r. same q (omega arith)) h)

  -- The link to `cur` stays as it is where the memory in front of `cur` does.
  pub Linked-pass :
      (m' : Mem) (fl' : Ptr) (pb : Option Block)
      → Before m n pb cur
      → Linked m n fl fl pb cur
      → fl' ≡ fl
      → ((q : Ptr) → q < cur → m' q ≡ m q)
      → Linked m' n fl fl' pb cur
  Linked-pass m' fl' none b l e same = e ∙ l
  Linked-pass m' fl' (some (a, t)) b l e same =
      (e, (Linked-frame m m' fl (some (a, t)) cur b same l).1)

-- A block taken out of the page: the memory and `freelist` that are left encode `bs'`.
pub record Taken (m : Mem) (n : ℕ) (fl : Ptr) (pb : Option Block) (lo hi p : Ptr) (bs' : List Block)
    (r : Scan) : Type 0 where
  pub mem : Mem
  pub freelist : Ptr
  pub result : r ≡ got p mem freelist
  pub encodes : Encodes mem n bs'
  pub linked : Linked mem n fl freelist pb (first n bs')
  pub same : (q : Ptr) → (q < lo) ⊎ (hi ≤ q) → Outside pb q → mem q ≡ m q

module _ (m : Mem) (n : ℕ) (fl : Ptr) (pb : Option Block) (cur s units : ℕ) (bs : List Block)
    (b : Before m n pb cur) (h : Header m n cur s (first n bs)) (e : Encodes m n bs)
    (o : Ordered n (cur + s + 1) bs) (u : 1 ≤ units) (room : units ≤ s) where
  bounds : (cur + s ≤ first n bs) × (first n bs ≤ base n + page_units)
  bounds = first_bounds n (cur + s) bs o

  cur-Fits : Fits n cur s (first n bs)
  cur-Fits = let q = bounds in let g = Before-ge m n fl cur pb b in omega arith

  abbrev linked_to : Ptr → Mem × Ptr
  linked_to next = link m (prev_ptr pb) fl next

  carve_exact :
      units ≡ s → Taken m n fl pb cur (cur + s) cur bs (carve m fl (prev_ptr pb) cur units)
  unfolding carve
  carve_exact exact =
      let next = first n bs in
      let (l, same) = link-Linked m n fl cur pb next b (omega (arith, bounds)) (bounds.1) in
      record {
        mem = (linked_to next).0;
        freelist = (linked_to next).1;
        result = ground (
          arith,
          slob_units-Header m n cur s next cur-Fits h,
          slob_next-Header m n cur s next cur-Fits h,
        );
        encodes =
            Encodes-frame n m (linked_to next).0 (cur + s + 1) bs
              (λ q p r. same q (Outside-after m n fl cur pb q b (omega arith))) o e;
        linked = l;
        same = λ q _ out. same q out;
      }

  -- The rest of a block that is larger than what is asked for.
  abbrev rest_at : Ptr
  rest_at = cur + units

  carve_fragment :
      units < s
      → Taken m n fl pb cur
          (cur + s)
          cur
          ((cur + units, s - units) ∷ bs)
          (carve m fl (prev_ptr pb) cur units)
  unfolding carve
  carve_fragment less =
      let next = first n bs in
      let m₁ = (linked_to rest_at).0 in
      let g = Before-ge m n fl cur pb b in
      let (l, same) = link-Linked m n fl cur pb rest_at b (omega arith) (omega (arith, bounds)) in
      let f : Fits n rest_at (s - units) next = omega (arith, bounds) in
      let other = set_slob_outside m₁ n rest_at (s - units) next f in
      let m₂ = set_slob m₁ rest_at (s - units) next in
      record {
        mem = m₂;
        freelist = (linked_to rest_at).1;
        result = ground (
          arith,
          slob_units-Header m n cur s next cur-Fits h,
          slob_next-Header m n cur s next cur-Fits h,
        );
        encodes = (
          set_slob-Header m₁ n rest_at (s - units) next f,
          Encodes-frame n m m₂ (cur + s + 1) bs
              (λ q p r.
                other q (inr (omega arith))
                ∙ same q (Outside-after m n fl cur pb q b (omega arith)))
              o e,
        );
        linked =
            Linked-frame m n fl cur m₁ m₂ (linked_to rest_at).1 pb rest_at b
              (λ q p. other q (inl (omega arith))) l;
        same = λ q far out. other q (ground arith) ∙ same q out;
      }

  pub carve-Taken :
      Taken m n fl pb cur
        (cur + s)
        cur
        (piece (cur + units) (s - units) bs)
        (carve m fl (prev_ptr pb) cur units)
  carve-Taken = elim (Bool-cases (s - units == 0)) [
    | inl z ↦ rw z (carve_exact (ground arith))
    | inr z ↦ rw z (carve_fragment (ground arith))
  ]

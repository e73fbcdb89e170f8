-- ===== src/Slob/Scan.antt =====
-- The loop of `slob_page_alloc` finds what first fit finds in the list that the memory encodes.
use my_posts.Prelude.{
  ℕ, zero, suc, ◌+◌, ◌-◌, ◌*◌, ◌≤◌, ◌<◌, ◌≡◌, ◌≢◌, refl, false, inl, inr, ◌⊎◌, ◌∙◌, Option, none,
  some, List, [], ◌∷◌, arith, leb, ◌==◌, length, lt→ne, Bool-cases, if◌then◌else◌,
}
use native.Mathlib.Nat.{add-zero, sub-zero}
use mathlib.Core.Path.{subst}
use my_posts.Slob.Block.{
  page_units, slob_unit, Ptr, Mem, set_slob, base, Header, Fits, set_slob-Header, set_slob_outside,
  slob_units-Header, slob_next-Header, slob_last-Header, Header-frame,
}
use my_posts.Slob.FreeList.{
  Block, first, Encodes, Ordered, Ordered-weaken, length-le, first_bounds, Fits-cons, Encodes-frame,
}
use my_posts.Slob.PageAlloc.{Align, Scan, null, carve, split_head, align_ptr, scan, page_scan}
use my_posts.Slob.FirstFit.{piece, pieces, keep, first_fit}
use my_posts.Slob.Carve.{prev_ptr, Before, Linked, Before-ge, Linked-pass, Taken, carve-Taken}

module _ (m : Mem) (n : ℕ) (fl : Ptr) (pb : Option Block) (cur s : ℕ) (bs : List Block)
    (b : Before m n pb cur) (l : Linked m n fl fl pb cur) (h : Header m n cur s (first n bs))
    (e : Encodes m n bs) (o : Ordered n (cur + s + 1) bs) where
  split_head_lem :
      (d : ℕ)
      → 1 ≤ s
      → split_head m cur (cur + d)
        ≡ set_slob (set_slob m (cur + d) (s - d) (first n bs)) cur d (cur + d)
  unfolding split_head
  split_head_lem d positive =
      let q = first_bounds n (cur + s) bs o in
      let g = Before-ge m n fl cur pb b in
      let fits : Fits n cur s (first n bs) = omega arith in
      ground (
        arith,
        slob_units-Header m n cur s (first n bs) fits h,
        slob_next-Header m n cur s (first n bs) fits h,
      )

  -- Units from behind the head of a block: the head stays free.
  split-Taken :
      (d units : ℕ)
      → 1 ≤ units
      → 1 ≤ d
      → units + d ≤ s
      → Taken m n fl pb cur
          (cur + s)
          (cur + d)
          ((cur, d) ∷ piece (cur + d + units) (s - d - units) bs)
          (carve (split_head m cur (cur + d)) fl (some cur) (cur + d) units)
  split-Taken d units u p room =
      let next = first n bs in
      let al = cur + d in
      let q = first_bounds n (cur + s) bs o in
      let g = Before-ge m n fl cur pb b in
      let f₁ : Fits n al (s - d) next = omega arith in
      let f₂ : Fits n cur d al = omega arith in
      let m₁ = set_slob m al (s - d) next in
      let m₂ = set_slob m₁ cur d al in
      let w₁ = set_slob_outside m n al (s - d) next f₁ in
      let w₂ = set_slob_outside m₁ n cur d al f₂ in
      let head = set_slob-Header m₁ n cur d al f₂ in
      let size = slob_units-Header m₂ n cur d al f₂ head in
      let tail =
        Header-frame m₁ m₂ n al (s - d) next (omega arith) (λ x p r. w₂ x (inr (omega arith)))
          (set_slob-Header m n al (s - d) next f₁) in
      let e₂ =
        Encodes-frame n m m₂ (cur + s + 1) bs
          (λ x p r. w₂ x (inr (omega arith)) ∙ w₁ x (inr (omega arith))) o e in
      let t =
        carve-Taken m₂ n fl (some (cur, d)) al (s - d) units bs (f₂.inside, p, omega arith, size)
          tail e₂ (Ordered-weaken n _ _ bs (omega arith) o) u (omega arith) in
      rw (split_head_lem d (omega arith)) (record {
        mem = t.mem;
        freelist = t.freelist;
        result = t.result;
        encodes = (t.linked.1, t.encodes);
        linked =
            Linked-pass m n fl cur t.mem t.freelist pb b l t.linked.0
              λ x p. t.same x (inl (omega arith)) (inl p) ∙ w₂ x (inl p) ∙ w₁ x (inl (omega arith));
        same = λ x far out.
            t.same x (ground arith) (ground arith) ∙ w₂ x (ground arith) ∙ w₁ x (ground arith);
      })

  -- The body of the test "room enough?", for the address that the alignment asks for.
  hit-Taken :
      (aligned units : ℕ)
      → cur ≤ aligned
      → 1 ≤ units
      → 1 ≤ s
      → units + (aligned - cur) ≤ s
      → Taken m n fl pb cur
          (cur + s)
          (cur + (aligned - cur))
          (pieces cur s (aligned - cur) units bs)
          (if aligned - cur == 0
            then carve m fl (prev_ptr pb) cur units
            else carve (split_head m cur aligned) fl (some cur) aligned units)
  hit-Taken aligned units le u positive room = elim (Bool-cases (aligned - cur == 0)) [
    | inl z ↦
        let d0 : aligned - cur ≡ 0 = ground arith in
        rw z (
          rw (d0, add-zero, sub-zero)
            (carve-Taken m n fl pb cur s units bs b h e o u (omega arith)))
    | inr z ↦
        let al : cur + (aligned - cur) ≡ aligned = omega arith in
        let t = split-Taken (aligned - cur) units u (ground arith) room in
        rw z (
          subst
            (λ a.
              Taken m n fl pb cur (cur + s) (cur + (aligned - cur))
                ((cur, aligned - cur)
                  ∷ piece (cur + (aligned - cur) + units) (s - (aligned - cur) - units) bs)
                (carve (split_head m cur a) fl (some cur) a units))
            al t)
  ]

-- What the loop has to return for what first fit finds.
abbrev pub Outcome : Mem → ℕ → Ptr → Option Block → Ptr → Option (Ptr × List Block) → Scan → Type 0
Outcome m n fl pb cur none r = r ≡ null
Outcome m n fl pb cur (some (p, bs')) r = Taken m n fl pb cur (base n + page_units) p bs' r

module _ (K : Align) (m : Mem) (n : ℕ) (fl units align : ℕ) (u : 1 ≤ units) where
  align_ptr-ge : (cur : Ptr) → cur ≤ align_ptr K cur align
  align_ptr-ge cur = ground (arith, K.ge (cur * slob_unit) align)

  Taken-widen :
      (pb : Option Block) (lo hi : ℕ) (p : Ptr) (bs' : List Block) (r : Scan)
      → hi ≤ base n + page_units
      → Taken m n fl pb lo hi p bs' r
      → Taken m n fl pb lo (base n + page_units) p bs' r
  Taken-widen pb lo hi p bs' r h t = record {
    mem = t.mem;
    freelist = t.freelist;
    result = t.result;
    encodes = t.encodes;
    linked = t.linked;
    same = λ q far out. t.same q (ground arith) out;
  }

  Outcome-keep :
      (pb : Option Block) (cur s c : ℕ) (found : Option (Ptr × List Block)) (r : Scan)
      → Before m n pb cur
      → Linked m n fl fl pb cur
      → cur + s ≤ c
      → c ≤ base n + page_units
      → Outcome m n fl (some (cur, s)) c found r
      → Outcome m n fl pb cur (keep (cur, s) found) r
  Outcome-keep pb cur s c none r b l h k t = t
  Outcome-keep pb cur s c (some (p, bs')) r b l h k t = record {
    mem = t.mem;
    freelist = t.freelist;
    result = t.result;
    encodes = (t.linked.1, t.encodes);
    linked =
        Linked-pass m n fl cur t.mem t.freelist pb b l t.linked.0
          λ x q. t.same x (inl (omega arith)) (inl q);
    same = λ q far out. t.same q (near far) (beyond far);
  }
    where
      near : {q : Ptr} → (q < cur) ⊎ (base n + page_units ≤ q) → (q < c) ⊎ (base n + page_units ≤ q)
      near (inl x) = inl (omega arith)
      near (inr x) = inr x

      beyond : {q : Ptr} → (q < cur) ⊎ (base n + page_units ≤ q) → (q < cur) ⊎ (cur + s ≤ q)
      beyond (inl x) = inl x
      beyond (inr x) = inr (omega arith)

  scan-Outcome :
      (fuel : ℕ) (pb : Option Block) (cur s : ℕ) (bs : List Block)
      → Before m n pb cur
      → Linked m n fl fl pb cur
      → 1 ≤ s
      → Encodes m n ((cur, s) ∷ bs)
      → Ordered n (cur + s + 1) bs
      → length bs < fuel
      → Outcome m n fl pb cur
          (first_fit K units align ((cur, s) ∷ bs))
          (scan K fuel m fl units align (prev_ptr pb) cur)
  unfolding scan first_fit
  scan-Outcome zero pb cur s bs b l p e o f = absurd (omega arith)
  scan-Outcome (suc fuel) pb cur s [] b l p (h, e) o f =
      let fits = Fits-cons n cur s [] (Before-ge m n fl cur pb b) (omega arith) in
      let su = slob_units-Header m n cur s (first n []) fits h in
      let sl = slob_last-Header m n cur s (first n []) fits h in
      let hit =
        hit-Taken m n fl pb cur s [] b l h e o (align_ptr K cur align) units (align_ptr-ge cur) u
          p in
      rw (su, sl)
        (elim (Bool-cases (leb (units + (align_ptr K cur align - cur)) s)) [
          | inl room ↦ rw room (Taken-widen pb cur (cur + s) _ _ _ fits.before (hit (ground arith)))
          | inr full ↦ rw full (ground arith)
        ])
  scan-Outcome (suc fuel) pb cur s ((c, t) ∷ bs) b l p (h, e) o f =
      let q = first_bounds n (cur + s) ((c, t) ∷ bs) o in
      let r = first_bounds n (c + t) bs o.2 in
      let g = Before-ge m n fl cur pb b in
      let fits : Fits n cur s c = omega arith in
      let su = slob_units-Header m n cur s c fits h in
      let sl = slob_last-Header m n cur s c fits h in
      let sn = slob_next-Header m n cur s c fits h in
      let hit =
        hit-Taken m n fl pb cur s ((c, t) ∷ bs) b l h e o (align_ptr K cur align) units
          (align_ptr-ge cur) u p in
      let further =
        scan-Outcome fuel (some (cur, s)) c t bs (g, p, omega arith, su) (refl, h) o.1 e o.2
          (omega arith) in
      let not_last : (c == base n + page_units) ≡ false = lt→ne c _ (omega arith) in
      rw (su, sl, sn)
        (elim (Bool-cases (leb (units + (align_ptr K cur align - cur)) s)) [
          | inl room ↦
              rw room (Taken-widen pb cur (cur + s) _ _ _ (omega arith) (hit (ground arith)))
          | inr full ↦
              rw (full, not_last)
                (Outcome-keep pb cur s c (first_fit K units align ((c, t) ∷ bs)) _ b l (omega arith)
                  (omega arith) further)
        ])

-- `slob_page_alloc` on one page whose free list the memory encodes ends; it takes the block that
-- first fit finds, and leaves the blocks that stay free encoded, writing in this page only; it
-- returns NULL exactly where no free block has room.
pub page_scan-Outcome :
    (K : Align) (m : Mem) (n units align : ℕ) (bs : List Block)
    → 1 ≤ units
    → bs ≢ []
    → Encodes m n bs
    → Ordered n (base n) bs
    → Outcome m n
        (first n bs)
        none
        (first n bs)
        (first_fit K units align bs)
        (page_scan K m (first n bs) units align)
unfolding page_scan
page_scan-Outcome K m n units align [] u ne e o = absurd (ne refl)
page_scan-Outcome K m n units align ((c, t) ∷ bs) u ne e o =
    let g = length-le n (c + t + 1) bs o.2 in
    scan-Outcome K m n c units align u (page_units + 1) none c t bs o.0 refl o.1 e o.2 (omega arith)

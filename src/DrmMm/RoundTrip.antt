-- ===== src/DrmMm/RoundTrip.antt =====
-- What goes and comes back: the list of nodes after a scan, and a node inserted and removed.
use mathlib.Core.Path.{subst}
use my_posts.Prelude.{
  ℕ, ◌+◌, ◌%◌, ◌^◌, ◌≤◌, ◌<◌, ◌≡◌, ◌≢◌, refl, ap, sym, ◌∙◌, inl, inr, Bool, true, false, List, [],
  ◌∷◌, arith, ◌==◌, Bool-cases, ne_eq, eq_self, has,
}
use my_posts.DrmMm.{
  Node, Mm, ok, word, set_node, prev_in, insert_in, remove, hole_start, hole_end, Adjust,
}
use my_posts.DrmMm.Ops.{init}
use my_posts.DrmMm.Scan.{
  scan_add_block, scan_remove_block, scan_unlink, scan_relink, scan_hits, evicts,
}
use my_posts.DrmMm.Layout.{IsValid, Distinct, has-ne}
use my_posts.DrmMm.Place.{set_node-new, set_node-hole, set_node-other}
use my_posts.DrmMm.Remove.{prev_in-here, prev_in-next, has-prev_in, prev_in-ne, remove-absent}

-- drm_mm_init on a range of at least one byte that does not wrap around gives a valid allocator
-- of that range.
pub init-IsValid :
    (mm : Mm) (start size : ℕ)
    → 1 ≤ size
    → start + size < word
    → IsValid (init mm start size) start (start + size)
unfolding init hole_start
init-IsValid mm start size h w = record {
  low = omega arith;
  high = w;
  head_start = omega arith;
  head_end = omega arith;
  chain = (omega arith, ground arith);
  distinct = (refl, tt);
  on_stack = λ j. elim (Bool-cases (0 == j)) [
    | inl x ↦ let e : j ≡ 0 = ground arith in rw (e, eq_self 0)
    | inr x ↦ rw x
  ];
}

insert_in-here : (n p : ℕ) (ks : List ℕ) → insert_in p n p ks ≡ n ∷ ks
unfolding insert_in
insert_in-here n p [] = refl
insert_in-here n p (k ∷ ks) = rw (eq_self p)

insert_in-next :
    (q n p k : ℕ) (ks : List ℕ) → p ≢ q → insert_in q n p (k ∷ ks) ≡ k ∷ insert_in q n k ks
unfolding insert_in
insert_in-next q n p k ks ne = rw (ne_eq p q ne)

insert_in-prev_in :
    (n p : ℕ) (ks : List ℕ)
    → Distinct (p ∷ ks)
    → has n ks ≡ true
    → insert_in (prev_in n p ks) n p (remove n ks) ≡ ks
unfolding remove
insert_in-prev_in n p [] ds i = ground (arith, i)
insert_in-prev_in n p (k ∷ ks) ds i = elim (Bool-cases (k == n)) [
  | inl x ↦
      let e : k ≡ n = ground arith in
      let absent : has n ks ≡ false = subst (λ z. has z ks ≡ false) e ds.1.0 in
      rw (x, remove-absent n ks absent, prev_in-here n p k ks x, insert_in-here n p ks, e)
  | inr x ↦
      let inside : has n ks ≡ true = ground arith in
      let q = prev_in n k ks in
      let pq : p ≢ q = λ e. has-ne q p (k ∷ ks) (has-prev_in n k ks) ds.0 (sym e) in
      rw (
        x,
        prev_in-next n p k ks x,
        insert_in-next q n p k (remove n ks) pq,
        insert_in-prev_in n k ks ds.1 inside,
      )
]

-- The node is as it was for all that the allocator goes by.
pub record IsBack (f f' : ℕ → Node) (k : ℕ) : Type 0 where
  pub start : (f' k).start ≡ (f k).start
  pub size : (f' k).size ≡ (f k).size
  pub color : (f' k).color ≡ (f k).color
  pub flag : (f' k).hole_follows ≡ (f k).hole_follows
  pub alloc : (f' k).allocated ≡ (f k).allocated
  pub scan : (f' k).scanned_block ≡ (f k).scanned_block

IsBack-by :
    (f f' : ℕ → Node) (k : ℕ) (x : Node)
    → f' k ≡ x
    → (x.start ≡ (f k).start)
      × (x.size ≡ (f k).size)
      × (x.color ≡ (f k).color)
      × (x.hole_follows ≡ (f k).hole_follows)
      × (x.allocated ≡ (f k).allocated)
      × (x.scanned_block ≡ (f k).scanned_block)
    → IsBack f f' k
IsBack-by f f' k x e (a, b, c, d, g, h) = record {
  start = ap (λ (z : Node). z.start) e ∙ a;
  size = ap (λ (z : Node). z.size) e ∙ b;
  color = ap (λ (z : Node). z.color) e ∙ c;
  flag = ap (λ (z : Node). z.hole_follows) e ∙ d;
  alloc = ap (λ (z : Node). z.allocated) e ∙ g;
  scan = ap (λ (z : Node). z.scanned_block) e ∙ h;
}

module _ (mm : Mm) (n p : ℕ) (pn : p ≢ n) (s : (mm.node n).scanned_block ≡ false) where
  abbrev relink_at : (ℕ → Node) → ℕ → ℕ → Node
  relink_at f q =
      set_node (set_node f q (record (f q) { hole_follows = (f n).scanned_preceeds_hole })) n
        (record (f n) { scanned_block = false })

  relink_at-IsBack : (k : ℕ) → IsBack mm.node (relink_at (scan_unlink mm n p).node p) k
  unfolding scan_unlink
  relink_at-IsBack k =
      let before = record (mm.node p) { hole_follows = true } in
      let new = record (mm.node n) {
        scanned_block = true;
        scanned_preceeds_hole = (mm.node p).hole_follows;
        scan_prev = p;
        scan_next = mm.prev_scanned_node;
      } in
      let f = set_node (set_node mm.node p before) n new in
      let at_n : f n ≡ new = set_node-new mm.node p n before new pn in
      let at_p : f p ≡ before = set_node-hole mm.node p n before new pn in
      let again = record (f p) { hole_follows = (f n).scanned_preceeds_hole } in
      let here = record (f n) { scanned_block = false } in
      elim (Bool-cases (k == n)) [
        | inl x ↦
            let e : n ≡ k = ground arith in
            subst (λ z. IsBack mm.node (relink_at f p) z) e
              (IsBack-by mm.node (relink_at f p) n (record new { scanned_block = false })
                (set_node-new f p n again here pn
                  ∙ ap (λ (z : Node). record z { scanned_block = false }) at_n)
                (refl, refl, refl, refl, refl, sym s))
        | inr x ↦ elim (Bool-cases (k == p)) [
          | inl y ↦
              let e : p ≡ k = ground arith in
              subst (λ z. IsBack mm.node (relink_at f p) z) e
                (IsBack-by mm.node (relink_at f p) p
                  (record before { hole_follows = (mm.node p).hole_follows })
                  (set_node-hole f p n again here pn
                    ∙ ap (λ (z : Node). record z { hole_follows = (f n).scanned_preceeds_hole })
                        at_p
                    ∙ ap (λ (z : Node). record before { hole_follows = z.scanned_preceeds_hole })
                        at_n)
                  (refl, refl, refl, refl, refl, refl))
          | inr y ↦
              IsBack-by mm.node (relink_at f p) k (mm.node k)
                (set_node-other f p n again here pn k (ground arith) (ground arith)
                  ∙ set_node-other mm.node p n before new pn k (ground arith) (ground arith))
                (refl, refl, refl, refl, refl, refl)
        ]
      ]

  scan_prev_eq : ((scan_unlink mm n p).node n).scan_prev ≡ p
  unfolding scan_unlink
  scan_prev_eq =
      ap (λ (z : Node). z.scan_prev)
        (set_node-new mm.node p n (record (mm.node p) { hole_follows = true })
          (record (mm.node n) {
            scanned_block = true;
            scanned_preceeds_hole = (mm.node p).hole_follows;
            scan_prev = p;
            scan_next = mm.prev_scanned_node;
          })
          pn)

  scan_block_eq : ((scan_unlink mm n p).node n).scanned_block ≡ true
  unfolding scan_unlink
  scan_block_eq =
      ap (λ (z : Node). z.scanned_block)
        (set_node-new mm.node p n (record (mm.node p) { hole_follows = true })
          (record (mm.node n) {
            scanned_block = true;
            scanned_preceeds_hole = (mm.node p).hole_follows;
            scan_prev = p;
            scan_next = mm.prev_scanned_node;
          })
          pn)

-- The allocator is as before the scan.
pub record IsRelinked (mm mm' : Mm) : Type 0 where
  pub nodes : mm'.nodes ≡ mm.nodes
  pub holes : mm'.holes ≡ mm.holes
  pub back : (k : ℕ) → IsBack mm.node mm'.node k
  pub count : mm'.scanned_blocks ≡ mm.scanned_blocks

module _ (mm : Mm) (lo hi n : ℕ) (v : IsValid mm lo hi) (i : has n mm.nodes ≡ true) where
  scan_relink-IsRelinked :
      (m : Mm)
      → (mm.node n).scanned_block ≡ false
      → mm.scanned_blocks < 2 ^ 32
      → m.node ≡ (scan_unlink mm n (prev_in n 0 mm.nodes)).node
      → m.nodes ≡ remove n mm.nodes
      → m.holes ≡ mm.holes
      → m.scanned_blocks ≡ (mm.scanned_blocks + 1) % 2 ^ 32
      → IsRelinked mm (scan_relink m n)
  unfolding scan_relink
  scan_relink-IsRelinked m s c fe ne he ce =
      let p = prev_in n 0 mm.nodes in
      let pn = prev_in-ne n 0 mm.nodes v.distinct i in
      let sp : (m.node n).scan_prev ≡ p =
        ap (λ (f : ℕ → Node). (f n).scan_prev) fe ∙ scan_prev_eq mm n p pn s in
      record {
        nodes =
            ap (λ q. insert_in q n 0 m.nodes) sp
            ∙ ap (λ ks. insert_in p n 0 ks) ne
            ∙ insert_in-prev_in n 0 mm.nodes v.distinct i;
        holes = he;
        back = λ k.
            subst (λ q. IsBack mm.node (relink_at mm n p pn s m.node q) k) (sym sp)
              (subst (λ f. IsBack mm.node (relink_at mm n p pn s f p) k) (sym fe)
                (relink_at-IsBack mm n p pn s k));
        count = omega (arith, ce, c);
      }

  -- A node on the list of a valid allocator that joins an eviction scan and then leaves it,
  -- whether or not a hole was found, leaves the list, the hole stack, the count of scanned
  -- nodes, and of every node the place, size, color, flag and state as before; no BUG_ON fails.
  -- Fewer than 2 ^ 32 nodes are being scanned.
  pub scan-IsRelinked :
      (adjust : Adjust)
      → (mm.node n).scanned_block ≡ false
      → mm.scanned_blocks < 2 ^ 32
      → (mm1 : Mm) × (mm2 : Mm) × (hit : Bool) × (evict : Bool) × (scan_add_block adjust mm n
          ≡ ok (mm1, hit))
        × (scan_remove_block mm1 n ≡ ok (mm2, evict))
        × IsRelinked mm mm2
  unfolding scan_add_block scan_remove_block scan_unlink
  scan-IsRelinked adjust s c =
      let p = prev_in n 0 mm.nodes in
      let pn = prev_in-ne n 0 mm.nodes v.distinct i in
      let mm1 = scan_unlink mm n p in
      let hit1 = record mm1 { scan_hit_start = hole_start mm1 p; scan_hit_end = hole_end mm1 p } in
      let sb = scan_block_eq mm n p pn s in
      elim (Bool-cases (scan_hits adjust mm1 p)) [
        | inl x ↦ (
          hit1,
          scan_relink hit1 n,
          true,
          evicts hit1 n,
          rw (s, x),
          rw sb,
          scan_relink-IsRelinked hit1 s c refl refl refl refl,
        )
        | inr x ↦ (
          mm1,
          scan_relink mm1 n,
          false,
          evicts mm1 n,
          rw (s, x),
          rw sb,
          scan_relink-IsRelinked mm1 s c refl refl refl refl,
        )
      ]

-- ===== src/Buddy/Pair.antt =====
-- A block and its buddy: the two halves of a block of the next order.
use Prim.Native.Nat.{bit_and, bit_xor}
use my_posts.Prelude.{
  ℕ, zero, suc, ◌+◌, ◌-◌, ◌*◌, ◌/◌, ◌%◌, ◌^◌, ◌≤◌, ◌<◌, ◌≡◌, sym, ap, ◌∙◌, ◌⊎◌, inl, inr, arith,
  Bool-cases, ◌==◌, two_pow-pos, bit_xor-clear, bit_xor-set, bit_and-set, bit_and-clear,
}
use my_posts.Buddy.{index, find_buddy_index}

-- The block is the lower half.
even :
    (o p : ℕ)
    → o < 10
    → index p % 2 ^ o ≡ 0
    → index p / 2 ^ o % 2 ≡ 0
    → (index p ≡ index p / 2 ^ suc o * 2 ^ suc o)
      × (index (p + 2 ^ o) ≡ index p + 2 ^ o)
      × (index p % 2 ^ suc o ≡ 0)
      × (2 ^ suc o ≡ 2 ^ o + 2 ^ o)
      × (index (p + 2 ^ o) % 2 ^ o ≡ 0)
even zero p lt a b = (omega arith, omega arith, omega arith, omega arith, omega arith)
even (suc zero) p lt a b = (omega arith, omega arith, omega arith, omega arith, omega arith)
even (suc (suc zero)) p lt a b = (omega arith, omega arith, omega arith, omega arith, omega arith)
even (suc (suc (suc zero))) p lt a b =
    (omega arith, omega arith, omega arith, omega arith, omega arith)
even (suc (suc (suc (suc zero)))) p lt a b =
    (omega arith, omega arith, omega arith, omega arith, omega arith)
even (suc (suc (suc (suc (suc zero))))) p lt a b =
    (omega arith, omega arith, omega arith, omega arith, omega arith)
even (suc (suc (suc (suc (suc (suc zero)))))) p lt a b =
    (omega arith, omega arith, omega arith, omega arith, omega arith)
even (suc (suc (suc (suc (suc (suc (suc zero))))))) p lt a b =
    (omega arith, omega arith, omega arith, omega arith, omega arith)
even (suc (suc (suc (suc (suc (suc (suc (suc zero)))))))) p lt a b =
    (omega arith, omega arith, omega arith, omega arith, omega arith)
even (suc (suc (suc (suc (suc (suc (suc (suc (suc zero))))))))) p lt a b =
    (omega arith, omega arith, omega arith, omega arith, omega arith)
even (suc (suc (suc (suc (suc (suc (suc (suc (suc (suc o)))))))))) p lt a b = absurd (omega arith)

-- The block is the upper half.
odd :
    (o p : ℕ)
    → o < 10
    → index p % 2 ^ o ≡ 0
    → index p / 2 ^ o % 2 ≡ 1
    → (index p ≡ index p / 2 ^ suc o * 2 ^ suc o + 2 ^ o)
      × (index (p - 2 ^ o) + 2 ^ o ≡ index p)
      × (index (p - 2 ^ o) % 2 ^ suc o ≡ 0)
      × (2 ^ suc o ≡ 2 ^ o + 2 ^ o)
      × (index (p - 2 ^ o) % 2 ^ o ≡ 0)
odd zero p lt a b = (omega arith, omega arith, omega arith, omega arith, omega arith)
odd (suc zero) p lt a b = (omega arith, omega arith, omega arith, omega arith, omega arith)
odd (suc (suc zero)) p lt a b = (omega arith, omega arith, omega arith, omega arith, omega arith)
odd (suc (suc (suc zero))) p lt a b =
    (omega arith, omega arith, omega arith, omega arith, omega arith)
odd (suc (suc (suc (suc zero)))) p lt a b =
    (omega arith, omega arith, omega arith, omega arith, omega arith)
odd (suc (suc (suc (suc (suc zero))))) p lt a b =
    (omega arith, omega arith, omega arith, omega arith, omega arith)
odd (suc (suc (suc (suc (suc (suc zero)))))) p lt a b =
    (omega arith, omega arith, omega arith, omega arith, omega arith)
odd (suc (suc (suc (suc (suc (suc (suc zero))))))) p lt a b =
    (omega arith, omega arith, omega arith, omega arith, omega arith)
odd (suc (suc (suc (suc (suc (suc (suc (suc zero)))))))) p lt a b =
    (omega arith, omega arith, omega arith, omega arith, omega arith)
odd (suc (suc (suc (suc (suc (suc (suc (suc (suc zero))))))))) p lt a b =
    (omega arith, omega arith, omega arith, omega arith, omega arith)
odd (suc (suc (suc (suc (suc (suc (suc (suc (suc (suc o)))))))))) p lt a b = absurd (omega arith)

-- `buddy` in the loop of __free_one_page, and `page` and `page_idx` after a round.
abbrev pub buddy : ℕ → ℕ → ℕ
buddy p o = p + find_buddy_index (index p) o - index p

abbrev pub combined_idx : ℕ → ℕ → ℕ
combined_idx p o = bit_and (find_buddy_index (index p) o) (index p)

abbrev pub combined : ℕ → ℕ → ℕ
combined p o = p + combined_idx p o - index p

-- A block and its buddy have the same parent and are each other's buddies.
pub record IsPair (p o : ℕ) : Type 0 where
  pub halves :
      ((buddy p o ≡ p + 2 ^ o) × (combined p o ≡ p))
      ⊎ ((buddy p o + 2 ^ o ≡ p) × (combined p o ≡ buddy p o))
  pub double : 2 ^ suc o ≡ 2 ^ o + 2 ^ o
  pub aligned : index (combined p o) % 2 ^ suc o ≡ 0
  pub indexed : index (combined p o) ≡ combined_idx p o
  pub back : buddy (buddy p o) o ≡ p
  pub buddy_aligned : index (buddy p o) % 2 ^ o ≡ 0

find_clear : (i q o : ℕ) → i ≡ q * 2 ^ suc o → find_buddy_index i o ≡ i + 2 ^ o
unfolding find_buddy_index
find_clear i q o e = ap (λ t. bit_xor t (2 ^ o)) e ∙ bit_xor-clear q o ∙ ap (λ t. t + 2 ^ o) (sym e)

find_set : (i q o : ℕ) → i ≡ q * 2 ^ suc o + 2 ^ o → find_buddy_index i o + 2 ^ o ≡ i
unfolding find_buddy_index
find_set i q o e =
    ap (λ t. bit_xor t (2 ^ o) + 2 ^ o) e ∙ ap (λ t. t + 2 ^ o) (bit_xor-set q o) ∙ sym e

-- The lower half is combined with the upper one.
lower-IsPair :
    (p o q : ℕ)
    → index p ≡ q * 2 ^ suc o
    → index (p + 2 ^ o) ≡ index p + 2 ^ o
    → index p % 2 ^ suc o ≡ 0
    → 2 ^ suc o ≡ 2 ^ o + 2 ^ o
    → index (p + 2 ^ o) % 2 ^ o ≡ 0
    → IsPair p o
lower-IsPair p o q e up al tw bal =
    let f = find_clear (index p) q o e in
    let c : combined_idx p o ≡ index p =
      ap (λ t. bit_and t (index p)) f
      ∙ ap (λ t. bit_and (t + 2 ^ o) t) e
      ∙ bit_and-set q o
      ∙ sym e in
    let at : buddy p o ≡ p + 2 ^ o = omega (arith, f) in
    let here : combined p o ≡ p = omega (arith, c) in
    let g : find_buddy_index (index p + 2 ^ o) o + 2 ^ o ≡ index p + 2 ^ o =
      find_set (index p + 2 ^ o) q o (ap (λ t. t + 2 ^ o) e) in
    let g' : find_buddy_index (index (p + 2 ^ o)) o ≡ index p =
      ap (λ t. find_buddy_index t o) up ∙ omega (arith, g) in
    record {
      halves = inl (at, here);
      double = tw;
      aligned = ap (λ t. index t % 2 ^ suc o) here ∙ al;
      indexed = ap index here ∙ sym c;
      back = ap (λ t. buddy t o) at ∙ omega (arith, g', up);
      buddy_aligned = ap (λ t. index t % 2 ^ o) at ∙ bal;
    }

upper-IsPair :
    (p o q : ℕ)
    → index p ≡ q * 2 ^ suc o + 2 ^ o
    → index (p - 2 ^ o) + 2 ^ o ≡ index p
    → index (p - 2 ^ o) % 2 ^ suc o ≡ 0
    → 2 ^ suc o ≡ 2 ^ o + 2 ^ o
    → index (p - 2 ^ o) % 2 ^ o ≡ 0
    → IsPair p o
upper-IsPair p o q e down al tw bal =
    let f = find_set (index p) q o e in
    let low : index (p - 2 ^ o) ≡ q * 2 ^ suc o = omega (arith, e, down) in
    let f' : find_buddy_index (index p) o ≡ q * 2 ^ suc o = omega (arith, f, e) in
    let c : combined_idx p o ≡ q * 2 ^ suc o =
      ap (λ t. bit_and t (index p)) f' ∙ ap (bit_and (q * 2 ^ suc o)) e ∙ bit_and-clear q o in
    let le : index p ≤ p = omega arith in
    let at : buddy p o + 2 ^ o ≡ p = omega (arith, f, le) in
    let at' : buddy p o ≡ p - 2 ^ o = omega (arith, at) in
    let here : combined p o ≡ buddy p o = omega (arith, f', c) in
    let g : find_buddy_index (index (p - 2 ^ o)) o ≡ index (p - 2 ^ o) + 2 ^ o =
      find_clear (index (p - 2 ^ o)) q o low in
    let le' : index (p - 2 ^ o) ≤ p - 2 ^ o = omega arith in
    record {
      halves = inr (at, here);
      double = tw;
      aligned = ap (λ t. index t % 2 ^ suc o) (here ∙ at') ∙ al;
      indexed = ap index (here ∙ at') ∙ low ∙ sym c;
      back = ap (λ t. buddy t o) at' ∙ omega (arith, g, le', at);
      buddy_aligned = ap (λ t. index t % 2 ^ o) at' ∙ bal;
    }

-- For a block below the largest order, at a multiple of its size, the bit operations of
-- __find_buddy_index and __free_one_page find the other half of the block of the next order, and
-- that block's first page; the two halves are each other's buddies.
pub buddy-IsPair : (p o : ℕ) → o < 10 → index p % 2 ^ o ≡ 0 → IsPair p o
buddy-IsPair p o lt al = elim (Bool-cases (index p / 2 ^ o % 2 == 0)) [
  | inl x ↦
      let (a, b, c, d, e) = even o p lt al (ground (arith, x)) in
      lower-IsPair p o (index p / 2 ^ suc o) a b c d e
  | inr x ↦
      let (a, b, c, d, e) = odd o p lt al (ground (arith, x)) in
      upper-IsPair p o (index p / 2 ^ suc o) a b c d e
]

-- A multiple of twice the size of a block.
twice :
    (o p : ℕ)
    → o < 10
    → index p % 2 ^ suc o ≡ 0
    → (index p % 2 ^ o ≡ 0) × (index p ≡ index p / 2 ^ suc o * 2 ^ suc o)
twice zero p lt a = (omega arith, omega arith)
twice (suc zero) p lt a = (omega arith, omega arith)
twice (suc (suc zero)) p lt a = (omega arith, omega arith)
twice (suc (suc (suc zero))) p lt a = (omega arith, omega arith)
twice (suc (suc (suc (suc zero)))) p lt a = (omega arith, omega arith)
twice (suc (suc (suc (suc (suc zero))))) p lt a = (omega arith, omega arith)
twice (suc (suc (suc (suc (suc (suc zero)))))) p lt a = (omega arith, omega arith)
twice (suc (suc (suc (suc (suc (suc (suc zero))))))) p lt a = (omega arith, omega arith)
twice (suc (suc (suc (suc (suc (suc (suc (suc zero)))))))) p lt a = (omega arith, omega arith)
twice (suc (suc (suc (suc (suc (suc (suc (suc (suc zero))))))))) p lt a = (omega arith, omega arith)
twice (suc (suc (suc (suc (suc (suc (suc (suc (suc (suc o)))))))))) p lt a = absurd (omega arith)

-- The lower half of a block, and its buddy, which is the upper half.
pub lower_half :
    (p o : ℕ)
    → o < 10
    → index p % 2 ^ suc o ≡ 0
    → (index p % 2 ^ o ≡ 0) × (buddy p o ≡ p + 2 ^ o) × (combined p o ≡ p)
lower_half p o lt a =
    let (b, c) = twice o p lt a in
    let pos = two_pow-pos o in
    let at : buddy p o ≡ p + 2 ^ o =
      omega (arith, find_clear (index p) (index p / 2 ^ suc o) o c) in
    (
      b,
      at,
      elim (buddy-IsPair p o lt b).halves [
        | inl (e, f) ↦ f
        | inr (e, f) ↦ absurd (omega (arith, e, at, pos))
      ],
    )

-- ===== src/Slob/Block.antt =====
-- Free blocks as they lie in memory: `set_slob`, `slob_units`, `slob_next` and `slob_last` of
-- ulk_slob/slob.c. A pointer counts SLOB_UNITs, and a page is PAGE_SIZE / SLOB_UNIT of them.
use my_posts.Prelude.{
  ℕ, ◌+◌, ◌-◌, ◌*◌, ◌/◌, ◌%◌, ◌^◌, ◌≤◌, ◌<◌, ◌≡◌, ◌⊎◌, Bool, arith, ltb, ◌==◌, if◌then◌else◌,
}
use my_posts.Prelude.Int.{ℤ, pos, negsuc, pos_part, neg_part, sub_ℕ, neg}

-- A page of 4096 bytes, for which `slobidx_t` is `s16`.
abbrev pub page_size : ℕ
page_size = 4096

-- sizeof(slob_t)
abbrev pub slob_unit : ℕ
slob_unit = 2

-- SLOB_UNITS(size)
abbrev pub units_of : ℕ → ℕ
units_of size = (size + slob_unit - 1) / slob_unit

-- SLOB_UNITS(PAGE_SIZE)
abbrev pub page_units : ℕ
page_units = 2048

abbrev pub Ptr : Type 0
Ptr = ℕ

-- The `units` field of the `slob_t` at each address.
abbrev pub Mem : Type 0
Mem = Ptr → ℤ

unfoldable pub write : Mem → Ptr → ℤ → Mem
write m p z q = if q == p then z else m q

-- Conversion to `slobidx_t`: the low 16 bits, read as a signed number.
unfoldable pub to_idx : ℤ → ℤ
to_idx z =
    let w = (pos_part z % 2 ^ 16 + 2 ^ 16 - neg_part z % 2 ^ 16) % 2 ^ 16 in
    if ltb w (2 ^ 15) then pos w else negsuc (2 ^ 16 - w - 1)

-- The first unit of the page of an address: `s & PAGE_MASK`.
abbrev pub page_base : Ptr → Ptr
page_base s = s - s % page_units

-- Pointer plus signed offset.
abbrev pub add_ptr : Ptr → ℤ → Ptr
add_ptr b z = b + pos_part z - neg_part z

-- Encode the given size and next info into a free slob block s.
unfoldable pub set_slob : Mem → Ptr → ℕ → Ptr → Mem
unfolding write to_idx
set_slob m s size next =
    let offset = to_idx (sub_ℕ next (page_base s)) in
    let sz = to_idx (pos size) in
    if ltb 1 (pos_part sz)
    then write (write m s sz) (s + 1) offset
    else write m s (to_idx (neg offset))

-- The size of a slob block.
unfoldable pub slob_units : Mem → Ptr → ℕ
slob_units m s = if ltb 0 (pos_part (m s)) then pos_part (m s) else 1

-- The next free slob block after this one.
unfoldable pub slob_next : Mem → Ptr → Ptr
unfolding to_idx
slob_next m s =
    let next = if ltb 0 (neg_part (m s)) then to_idx (neg (m s)) else m (s + 1) in
    add_ptr (page_base s) next

-- True if s is the last free block in its page.
unfoldable pub slob_last : Mem → Ptr → Bool
unfolding slob_next
slob_last m s = slob_next m s % page_units == 0

-- The first unit of page `n`.
abbrev pub base : ℕ → Ptr
base n = n * page_units

-- The block of `size` units at `s`, in page `n`, is encoded with the link `next`.
abbrev pub Header : Mem → ℕ → Ptr → ℕ → Ptr → Type 0
Header m n s size next =
    (if size == 1
      then m s ≡ negsuc (next - base n - 1)
      else (m s ≡ pos size) × (m (s + 1) ≡ pos (next - base n)))

-- A place in page `n` for a block of `size` units with a link that is further on in the page.
pub record Fits (n : ℕ) (s : Ptr) (size : ℕ) (next : Ptr) : Type 0 where
  pub inside : base n ≤ s
  pub some_units : 1 ≤ size
  pub before : s + size ≤ next
  pub ends : next ≤ base n + page_units

module _ (m : Mem) (n : ℕ) (s : Ptr) (size : ℕ) (next : Ptr) (f : Fits n s size next) where
  pub set_slob-Header : Header (set_slob m s size next) n s size next
  unfolding set_slob
  set_slob-Header = ground arith

  pub set_slob_outside : (q : Ptr) → (q < s) ⊎ (s + size ≤ q) → set_slob m s size next q ≡ m q
  unfolding set_slob
  set_slob_outside q h = ground arith

-- What the accessors read from an encoded block.
module _ (m : Mem) (n : ℕ) (s : Ptr) (size : ℕ) (next : Ptr) (f : Fits n s size next)
    (h : Header m n s size next) where
  pub slob_units-Header : slob_units m s ≡ size
  unfolding slob_units
  slob_units-Header = ground arith

  pub slob_next-Header : slob_next m s ≡ next
  unfolding slob_next
  slob_next-Header = ground arith

  pub slob_last-Header : slob_last m s ≡ (next == base n + page_units)
  unfolding slob_last
  slob_last-Header = ground (arith, slob_next-Header)

-- A block stays encoded where its units stay as they are.
pub Header-frame :
    (m m' : Mem) (n : ℕ) (s : Ptr) (size : ℕ) (next : Ptr)
    → 1 ≤ size
    → ((q : Ptr) → s ≤ q → q < s + size → m' q ≡ m q)
    → Header m n s size next
    → Header m' n s size next
Header-frame m m' n s size next positive same h = ground (arith, same s, same (s + 1))

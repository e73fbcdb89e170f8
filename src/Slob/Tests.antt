-- ===== src/Slob/Tests.antt =====
-- The theorems on slob.c at concrete states.
use native.Mathlib.Decide.{dec_le}
use native.Mathlib.Nat.{div-add-mod', mod-lt, mul-mod_left, le_refl}
use my_posts.Prelude.{
  ℕ, ◌+◌, ◌-◌, ◌*◌, ◌/◌, ◌%◌, ◌≤◌, ◌<◌, ◌≡◌, refl, ◌⊎◌, inl, inr, true, false, none, some, List, [],
  ◌∷◌, arith, ◌==◌, if◌then◌else◌, Bool-cases, has,
}
use my_posts.Prelude.Int.{pos}
use my_posts.Slob.Block.{Ptr}
use my_posts.Slob.FreeList.{Block, Free}
use my_posts.Slob.PageAlloc.{Align}
use my_posts.Slob.State.{
  Page, Slob, Class, small, medium, large, update, ok, at, nil, slob_alloc, slob_free,
}
use my_posts.Slob.Model.{Holds, Holds-update}
use my_posts.Slob.Alloc.Entry.{whole, Served, slob_alloc-Served}
use my_posts.Slob.Free.{SlobFreed, slob_free-SlobFreed}
use my_posts.Slob.Front.{Arch, KmemCache, load_int, kfree, kmem_cache_alloc_node}
use my_posts.Slob.Front.Kmalloc.{Object}
use my_posts.Slob.Front.Kfree.{Returned, kfree-Returned}
use my_posts.Slob.Front.Cache.{ctor_on_null}

-- Rounding up, as `ALIGN` does.
abbrev round_up : ℕ → ℕ → ℕ
round_up x a = if a == 0 then x else (x + a - 1) / a * a

mul_mono : (k q a : ℕ) → k ≤ q → k * a ≤ q * a
mul_mono k q a h = grind arith

round_up-ge : (x a : ℕ) → x ≤ round_up x a
round_up-ge x a = elim (Bool-cases (a == 0)) [
  | inl z ↦ rw z (le_refl x)
  | inr z ↦
      let p : 0 < a = ground arith in
      rw z (omega (arith, div-add-mod' (x + a - 1) a, mod-lt (x + a - 1) p))
]

round_up-multiple : (x a : ℕ) → 1 ≤ a → round_up x a % a ≡ 0
round_up-multiple x a h =
    let z : (a == 0) ≡ false = ground arith in rw z (mul-mod_left ((x + a - 1) / a) a)

round_up-least : (x y a : ℕ) → 1 ≤ a → x ≤ y → y % a ≡ 0 → round_up x a ≤ y
round_up-least x y a h le m =
    let z : (a == 0) ≡ false = ground arith in
    let k = (x + a - 1) / a in
    let e = div-add-mod' (x + a - 1) a in
    let f = div-add-mod' y a in
    rw z (elim (dec_le k (y / a)) [
      | yes p ↦ omega (arith, mul_mono k (y / a) a p)
      | no p ↦ omega (arith, mul_mono (y / a + 1) k a (omega arith), mod-lt (x + a - 1) h)
    ])

abbrev ceil : Align
ceil = record {
  align = round_up;
  ge = round_up-ge;
  multiple = round_up-multiple;
  least = round_up-least;
}

abbrev x86 : Arch
x86 = record { align = ceil; minalign = 8; get_order = λ size. 1; rcu_size = 20 }

-- No page belongs to the allocator.
abbrev empty : Slob
empty = record {
  mem = λ q. pos 0;
  page =
      λ n. record { units = 0; freelist = 0; slob_free = false; slab = false; nid = 0; order = 0 };
  pages = λ c. [];
  returned = [];
}

abbrev nothing : ℕ → List Block
nothing n = []

empty-Holds : Holds empty nothing
empty-Holds = record {
  pages = λ n. inr (record { flag = refl; nothing = refl; full = λ e. ground arith });
  flagged = λ c n e. ground arith;
}

-- Page 3 holds one object of 24 bytes, at its start, behind a header of 8 bytes.
abbrev page3 : Page
page3 = record { units = 2032; freelist = 6160; slob_free = true; slab = true; nid = 0; order = 0 }

abbrev small_list : Class → List ℕ
small_list small = 3 ∷ []
small_list medium = []
small_list large = []

abbrev one : Slob
one = record {
  mem = λ q.
      if q == 6144
      then pos 24
      else (if q == 6160 then pos 2032 else if q == 6161 then pos 2048 else pos 0);
  page = update empty.page 3 page3;
  pages = small_list;
  returned = [];
}

abbrev left : List Block
left = (6160, 2032) ∷ []

only_three : (c : Class) (k : ℕ) → has k (small_list c) ≡ true → k ≡ 3
only_three small k h = ground arith
only_three medium k h = ground arith
only_three large k h = ground arith

one-Holds : Holds one (update nothing 3 left)
one-Holds =
    Holds-update empty one nothing 3 page3 left empty-Holds (λ k. refl) (λ q far. ground arith)
      (λ c k x ne. absurd (ne (only_three c k x))) (λ c x. refl)
      (inl (record {
        flag = refl;
        slab = refl;
        some_free = λ e. ground arith;
        starts = refl;
        counts = refl;
        encodes = ((refl, refl), tt);
        ordered = omega arith;
      }))

behind_object : (x : Ptr) → Free x left → Free x (whole 3) × ((x < 6144) ⊎ (6160 ≤ x))
behind_object x (inl h) = (inl (omega arith, h.1), inr h.0)
behind_object x (inr h) = absurd h

free_behind : (x : Ptr) → Free x (whole 3) → (x < 6144) ⊎ (6160 ≤ x) → Free x left
free_behind x (inl h) (inl o) = absurd (omega arith)
free_behind x (inl h) (inr o) = inl (o, h.1)
free_behind x (inr h) o = absurd h

not_free : (x : Ptr) → 6144 ≤ x → x < 6144 + 16 → Free x left → ⊥
not_free x h k (inl f) = omega arith
not_free x h k (inr f) = f

object : Object 8 nothing 3 24 (whole 3) 6148 one
unfolding load_int
object = record {
  block = 6144;
  behind = refl;
  allocated = record {
    left = left;
    takes = record {
      ordered = omega arith;
      was_free = λ x h k. inl (h, omega arith);
      leaves = λ x. (behind_object x, λ f. free_behind x f.0 f.1);
      counted = refl;
      from = omega arith;
    };
    aligned = inr refl;
    holds = one-Holds;
    slab = refl;
  };
  header = refl;
}

slob_alloc-Served_example :
    Served empty nothing 10 4 none (some 3) (slob_alloc ceil empty 10 true 4 none (some 3))
slob_alloc-Served_example =
    slob_alloc-Served ceil empty nothing 10 4 none (some 3) refl (inr refl) (omega arith)
      (omega arith) empty-Holds true

slob_free-SlobFreed_example :
    SlobFreed one (update nothing 3 left) 6144 32 (slob_free one (at 6144) 32)
slob_free-SlobFreed_example =
    slob_free-SlobFreed one (update nothing 3 left) 6144 32 one-Holds refl (omega arith)
      (omega arith) not_free

kfree-Returned_example : Returned nothing 3 (whole 3) one (kfree x86 one (at 6148))
kfree-Returned_example =
    kfree-Returned x86 nothing 3 24 (whole 3) 6148 one refl (omega arith) (omega arith) object

abbrev cache : KmemCache
cache = record { size = 100; align = 4; by_rcu = false; has_ctor = true }

ctor_on_null_example :
    kmem_cache_alloc_node x86 empty cache false none none ≡ ok (nil, empty, some nil)
ctor_on_null_example =
    ctor_on_null x86 empty nothing cache none refl (inr refl) (omega arith) (omega arith)
      empty-Holds false refl (λ n h. absurd (ground arith))

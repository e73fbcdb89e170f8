-- ===== src/Buddy/Valid/Lists.antt =====
-- The lists of a zone and their lengths, when a block is taken from them or put on one.
use my_posts.Prelude.{
  ℕ, zero, suc, ◌+◌, ◌-◌, ◌<◌, ◌≡◌, refl, ap, arith, false, List, [], ◌∷◌, ◌==◌, length, has, set,
  del, length-del,
}
use my_posts.Buddy.Valid.{in_all}

-- A list where `p` is not is left alone.
del-out : (p : ℕ) (js : List ℕ) → has p js ≡ false → del p js ≡ js
unfolding del
del-out p [] out = refl
del-out p (j ∷ js) out =
    let e : (j == p) ≡ false = ground (arith, out) in
    rw e (ap (λ w. j ∷ w) (del-out p js (ground (arith, out))))

-- The only list of four with `p` on it gets shorter.
pub tally-del :
    (p t : ℕ) (list : ℕ → List ℕ)
    → t < 4
    → ((mt : ℕ) → has p (list mt) ≡ (t == mt))
    → in_all list - 1 ≡ in_all (λ mt. del p (list mt))
tally-del p zero list lt e =
    rw (del-out p (list 1) (e 1), del-out p (list 2) (e 2), del-out p (list 3) (e 3)) omega
      (arith, length-del p (list 0) (e 0))
tally-del p (suc zero) list lt e =
    rw (del-out p (list 0) (e 0), del-out p (list 2) (e 2), del-out p (list 3) (e 3)) omega
      (arith, length-del p (list 1) (e 1))
tally-del p (suc (suc zero)) list lt e =
    rw (del-out p (list 0) (e 0), del-out p (list 1) (e 1), del-out p (list 3) (e 3)) omega
      (arith, length-del p (list 2) (e 2))
tally-del p (suc (suc (suc zero))) list lt e =
    rw (del-out p (list 0) (e 0), del-out p (list 1) (e 1), del-out p (list 2) (e 2)) omega
      (arith, length-del p (list 3) (e 3))
tally-del p (suc (suc (suc (suc t)))) list lt e = absurd (omega arith)

-- One list of four gets longer.
pub tally-add :
    (t : ℕ) (list : ℕ → List ℕ) (pages : List ℕ)
    → t < 4
    → length pages ≡ suc (length (list t))
    → in_all list + 1 ≡ in_all (set list t pages)
tally-add zero list pages lt e = omega (arith, e)
tally-add (suc zero) list pages lt e = omega (arith, e)
tally-add (suc (suc zero)) list pages lt e = omega (arith, e)
tally-add (suc (suc (suc zero))) list pages lt e = omega (arith, e)
tally-add (suc (suc (suc (suc t)))) list pages lt e = absurd (omega arith)

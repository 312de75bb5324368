-- ===== src/Task/Ring/Order.antt =====
-- Positions in the order of a round-robin search.
use seng21213_os_se.Base.{
  ℕ, suc, ◌+◌, ◌-◌, ◌≤◌, ◌<◌, ◌≡◌, ◌≢◌, refl, Bool, true, false, ◌||◌, some, none, List, [], ◌∷◌,
  ◌++◌, arith, ◌==◌, ltb, if◌then◌else◌, Ptr, length, length-append, Bool-cases, inl, inr,
}
use seng21213_os_se.Task.Ring.{mem, turn, Distinct, first_ready}
use seng21213_os_se.Task.Ring.Laws.{
  Disjoint, Disjoint-snoc, mem-append, PtrIn, search_order, mem-search_order, first_ready-some,
}

-- The place of the first `a`, or the length.
abbrev pub index : ℕ → List ℕ → ℕ
index a [] = 0
index a (x ∷ xs) = if a == x then 0 else suc (index a xs)

pub index-lt : (a : ℕ) (xs : List ℕ) → mem a xs ≡ true → index a xs < length xs
index-lt a [] m = cc
index-lt a (x ∷ xs) m = ground (arith, index-lt a xs)

index_absent : (a : ℕ) (xs : List ℕ) → mem a xs ≡ false → index a xs ≡ length xs
index_absent a [] m = refl
index_absent a (x ∷ xs) m = ground (arith, index_absent a xs)

index-append :
    (a : ℕ) (xs ys : List ℕ)
    → index a (xs ++ ys) ≡ (if mem a xs then index a xs else length xs + index a ys)
index-append a [] ys = omega arith
index-append a (x ∷ xs) ys = ground (arith, index-append a xs ys)

-- How far behind the element at `c` the one at `a` comes, in a ring of `n`.
abbrev pub behind : ℕ → ℕ → ℕ → ℕ
behind n c a = if ltb c a then a - c - 1 else a + n - c - 1

index-turn :
    (a c : ℕ) (seen xs : List ℕ)
    → Distinct xs
    → Disjoint seen xs
    → mem c xs ≡ true
    → (mem a seen || mem a xs) ≡ true
    → index a (turn seen c xs)
      ≡ behind
          (length seen + length xs)
          (length seen + index c xs)
          (if mem a seen then index a seen else length seen + index a xs)
index-turn a c seen [] d apart mc ma = cc
index-turn a c seen (x ∷ xs) d apart mc ma = elim (Bool-cases (x == c)) [
  | inl here ↦ rw here (
      ground (
        arith,
        index-append a xs (seen ++ (x ∷ [])),
        index-append a seen (x ∷ []),
        length-append seen (x ∷ []),
        index-lt a seen,
        index-lt a xs,
        apart a,
        d.0,
      ))
  | inr there ↦ rw there (
      let rest =
        index-turn a c (seen ++ (x ∷ [])) xs d.1 (Disjoint-snoc x seen xs apart d.0) (ground arith)
          (ground (arith, mem-append a seen (x ∷ []))) in
      ground (
        arith,
        rest,
        mem-append a seen (x ∷ []),
        index-append a seen (x ∷ []),
        length-append seen (x ∷ []),
        index-lt a seen,
        index-lt a xs,
        apart a,
        d.0,
      ))
]

-- What the search finds comes no later than any ready element.
pub first_ready-least :
    (ready : ℕ → Bool) (xs : List ℕ) (t a : ℕ)
    → first_ready ready xs ≡ some t
    → ready a ≡ true
    → mem a xs ≡ true
    → index t xs ≤ index a xs
first_ready-least ready [] t a e r m = cc
first_ready-least ready (x ∷ xs) t a e r m =
    ground (arith, first_ready-least ready xs t a, first_ready-some ready xs t)

pub index-inj : (a b : ℕ) (xs : List ℕ) → mem a xs ≡ true → index a xs ≡ index b xs → a ≡ b
index-inj a b [] m e = cc
index-inj a b (x ∷ xs) m e = ground (arith, index-inj a b xs)

-- The place of an element in the search from behind `c`.
abbrev place : Ptr → List ℕ → ℕ → ℕ
place none xs a = index a xs
place (some b) xs a = behind (length xs) (index b xs) (index a xs)

index-search_order :
    (a : ℕ) (c : Ptr) (xs : List ℕ)
    → Distinct xs
    → PtrIn c xs
    → mem a xs ≡ true
    → index a (search_order c xs) ≡ place c xs a
index-search_order a none xs d i m = refl
index-search_order a (some c) xs d i m = ground (arith, index-turn a c [] xs d (λ b n. cc) i m)

place-earlier :
    (c : Ptr) (xs : List ℕ) (t a : ℕ)
    → PtrIn c xs
    → mem t xs ≡ true
    → mem a xs ≡ true
    → t ≢ a
    → place c xs t ≤ place c xs a
    → place (some t) xs a < place c xs a
place-earlier none xs t a i mt ma other le =
    ground (arith, index-inj a t xs ma, index-lt a xs ma, index-lt t xs mt)
place-earlier (some b) xs t a i mt ma other le =
    ground (arith, index-inj a t xs ma, index-lt a xs ma, index-lt t xs mt, index-lt b xs i)

-- An element that the search has passed over for `t` comes earlier in the next search, from
-- behind `t`.
pub passed_over-earlier :
    (ready : ℕ → Bool) (c : Ptr) (xs : List ℕ) (t a : ℕ)
    → Distinct xs
    → PtrIn c xs
    → first_ready ready (search_order c xs) ≡ some t
    → ready a ≡ true
    → mem a xs ≡ true
    → t ≢ a
    → index a (search_order (some t) xs) < index a (search_order c xs)
passed_over-earlier ready c xs t a d i e r m other =
    let found = first_ready-some ready (search_order c xs) t e in
    let t_in : mem t xs ≡ true = ground (arith, found, mem-search_order t c xs) in
    let a_in : mem a (search_order c xs) ≡ true = ground (arith, mem-search_order a c xs) in
    let least = first_ready-least ready (search_order c xs) t a e r a_in in
    let earlier = place-earlier c xs t a i t_in m other (
      ground (arith, least, index-search_order t c xs d i t_in, index-search_order a c xs d i m)) in
    ground
      (arith, earlier, index-search_order a c xs d i m, index-search_order a (some t) xs d t_in m)

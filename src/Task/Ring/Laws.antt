-- ===== src/Task/Ring/Laws.antt =====
-- Chains and rings under concatenation, rotation and insertion.
use mathlib.Core.Path.{subst, subst₂}
use seng21213_os_se.Base.{
  ℕ, ◌+◌, ◌≤◌, ◌<◌, ◌≡◌, refl, sym, fun_ext, Bool, true, false, ◌||◌, some, none, List, [], ◌∷◌,
  ◌++◌, arith, ◌==◌, Ptr, update, length, length-append, Bool-cases, inl, inr,
}
use seng21213_os_se.Task.Ring.{
  Chain, Distinct, IsRing, mem, turn, last_of, search_from, find_next, first_ready,
  search_from-first,
}

abbrev pub Disjoint : List ℕ → List ℕ → Type 0
Disjoint xs ys = (a : ℕ) → mem a xs ≡ true → mem a ys ≡ false

pub mem-append : (a : ℕ) (xs ys : List ℕ) → mem a (xs ++ ys) ≡ (mem a xs || mem a ys)
mem-append a [] ys = refl
mem-append a (x ∷ xs) ys = ground (arith, mem-append a xs ys)

pub Distinct-append :
    (xs ys : List ℕ) → Distinct xs → Distinct ys → Disjoint xs ys → Distinct (xs ++ ys)
Distinct-append [] ys dx dy apart = dy
Distinct-append (x ∷ xs) ys dx dy apart = (
  ground (arith, mem-append x xs ys, apart x),
  Distinct-append xs ys dx.1 dy (λ a m. apart a (ground arith)),
)

pub Chain-append :
    (next : ℕ → Ptr) (p q r : Ptr) (xs ys : List ℕ)
    → Chain next p xs q
    → Chain next q ys r
    → Chain next p (xs ++ ys) r
Chain-append next p q r [] ys cx cy = ground (arith, cx)
Chain-append next p q r (x ∷ xs) ys cx cy = (cx.0, Chain-append next (next x) q r xs ys cx.1 cy)

-- A write outside a chain leaves it.
pub Chain-update :
    (next : ℕ → Ptr) (a : ℕ) (v p q : Ptr) (xs : List ℕ)
    → Chain next p xs q
    → mem a xs ≡ false
    → Chain (update next a v) p xs q
Chain-update next a v p q [] c out = c
Chain-update next a v p q (x ∷ xs) c out =
    (c.0, ground (arith, Chain-update next a v (next x) q xs c.1))

pub last_of-mem : (x : ℕ) (xs : List ℕ) → mem (last_of x xs) (x ∷ xs) ≡ true
last_of-mem x [] = ground arith
last_of-mem x (y ∷ ys) = ground (arith, last_of-mem y ys)

-- A write to the last element turns the end of the chain elsewhere.
pub Chain-last :
    (next : ℕ → Ptr) (x : ℕ) (r q : Ptr) (xs : List ℕ)
    → Chain next (next x) xs q
    → Distinct (x ∷ xs)
    → Chain (update next (last_of x xs) r) (update next (last_of x xs) r x) xs r
Chain-last next x r q [] c d = ground arith
Chain-last next x r q (y ∷ ys) c d =
    (ground (arith, last_of-mem y ys, c.0, d.0), Chain-last next y r q ys c.1 d.1)

-- The links that `scheduler_add_process` and `scheduler_add_thread` write.
abbrev pub insert_after : (ℕ → Ptr) → ℕ → ℕ → ℕ → ℕ → Ptr
insert_after next last p head = update (update next last (some p)) p (some head)

-- Linking a new element behind the last one puts it at the end of the ring.
pub insert-IsRing :
    (next : ℕ → Ptr) (h p : ℕ) (ys : List ℕ)
    → IsRing next (some h) (h ∷ ys)
    → mem p (h ∷ ys) ≡ false
    → IsRing (insert_after next (last_of h ys) p h) (some h) (h ∷ (ys ++ (p ∷ [])))
insert-IsRing next h p ys (c, d) out =
    let turned = update next (last_of h ys) (some p) in
    let moved = Chain-last next h (some p) (some h) ys c.1 d in
    let kept = Chain-update turned p (some h) (turned h) (some p) ys moved (ground arith) in
    let linked = insert_after next (last_of h ys) p h in
    let first : linked h ≡ turned h = ground arith in
    (
      (
        refl,
        rw first (Chain-append linked (turned h) (some p) (some h) ys (p ∷ []) kept (ground arith)),
      ),
      (
        ground (arith, mem-append h ys (p ∷ [])),
        Distinct-append ys (p ∷ []) d.1 (refl, tt)
            (λ a m. elim (Bool-cases (a == p)) [ inl e ↦ ground arith | inr e ↦ rw e ]),
      ),
    )

-- The rotation of a ring behind one of its elements is a chain from its successor to itself.
pub turn-Chain :
    (next : ℕ → Ptr) (h p : Ptr) (c : ℕ) (seen xs : List ℕ)
    → Chain next h seen p
    → Chain next p xs h
    → mem c xs ≡ true
    → Chain next (next c) (turn seen c xs) (next c)
turn-Chain next h p c seen [] cs cx m = cc
turn-Chain next h p c seen (x ∷ xs) cs cx m = elim (Bool-cases (x == c)) [
  | inl here ↦ rw here (
      let e : c ≡ x = ground arith in
      rw e (
        Chain-append next (next x) h (next x) xs (seen ++ (x ∷ [])) cx.1
          (Chain-append next h p (next x) seen (x ∷ []) cs (cx.0, refl))))
  | inr there ↦ rw there (
      turn-Chain next h (next x) c (seen ++ (x ∷ [])) xs
        (Chain-append next h p (next x) seen (x ∷ []) cs (cx.0, refl)) cx.1 (ground arith))
]

Disjoint-swap : (xs ys : List ℕ) → Disjoint xs ys → Disjoint ys xs
Disjoint-swap xs ys apart a m = ground (arith, apart a)

pub Distinct-snoc :
    (x : ℕ) (seen : List ℕ) → Distinct seen → mem x seen ≡ false → Distinct (seen ++ (x ∷ []))
Distinct-snoc x seen d out =
    Distinct-append seen (x ∷ []) d (refl, tt)
      (λ a m. elim (Bool-cases (a == x)) [ inl e ↦ ground arith | inr e ↦ rw e ])

pub Disjoint-snoc :
    (x : ℕ) (seen xs : List ℕ)
    → Disjoint seen (x ∷ xs)
    → mem x xs ≡ false
    → Disjoint (seen ++ (x ∷ [])) xs
Disjoint-snoc x seen xs apart out a m = ground (arith, mem-append a seen (x ∷ []), apart a)

pub turn-Distinct :
    (c : ℕ) (seen xs : List ℕ)
    → Distinct seen
    → Distinct xs
    → Disjoint seen xs
    → Distinct (turn seen c xs)
turn-Distinct c seen [] ds dx apart = ds
turn-Distinct c seen (x ∷ xs) ds dx apart =
    let snoc = Distinct-snoc x seen ds (ground (arith, apart x)) in
    let parted = Disjoint-snoc x seen xs apart dx.0 in
    elim (Bool-cases (x == c)) [
      | inl here ↦
          rw here (Distinct-append xs (seen ++ (x ∷ [])) dx.1 snoc (Disjoint-swap _ xs parted))
      | inr there ↦ rw there (turn-Distinct c (seen ++ (x ∷ [])) xs snoc dx.1 parted)
    ]

pub length-turn : (c : ℕ) (seen xs : List ℕ) → length (turn seen c xs) ≡ length seen + length xs
length-turn c seen [] = omega arith
length-turn c seen (x ∷ xs) = ground (
  arith,
  length-append xs (seen ++ (x ∷ [])),
  length-append seen (x ∷ []),
  length-turn c (seen ++ (x ∷ [])) xs,
)

-- The rotation holds the same elements.
pub mem-turn : (a c : ℕ) (seen xs : List ℕ) → mem a (turn seen c xs) ≡ (mem a seen || mem a xs)
mem-turn a c seen [] = ground arith
mem-turn a c seen (x ∷ xs) = ground (
  arith,
  mem-append a xs (seen ++ (x ∷ [])),
  mem-append a seen (x ∷ []),
  mem-turn a c (seen ++ (x ∷ [])) xs,
)

search-Chain :
    (fuel : ℕ) (next : ℕ → Ptr) (ready : ℕ → Bool) (start : Ptr) (q : ℕ) (xs : List ℕ)
    → start ≡ some q
    → Chain next start xs start
    → Distinct xs
    → 0 < length xs
    → length xs ≤ fuel
    → search_from fuel next ready q q ≡ some (first_ready ready xs)
search-Chain fuel next ready start q [] e c d pos le = absurd (omega arith)
search-Chain fuel next ready start q (x ∷ xs) e c d pos le =
    let same : q ≡ x = ground arith in
    let rest : Chain next (next x) xs (some x) = ground (arith, c.1) in
    rw same (search_from-first fuel next ready x x xs rest d.0 (omega arith))

-- A search that starts behind element `c` of a ring finds the first ready element in cyclic order
-- from there, `c` itself coming last.
pub search-turn :
    (fuel : ℕ) (next : ℕ → Ptr) (ready : ℕ → Bool) (head : Ptr) (c q : ℕ) (xs : List ℕ)
    → IsRing next head xs
    → mem c xs ≡ true
    → next c ≡ some q
    → length xs ≤ fuel
    → search_from fuel next ready q q ≡ some (first_ready ready (turn [] c xs))
search-turn fuel next ready head c q [] r m e le = cc
search-turn fuel next ready head c q (x ∷ xs) (ch, d) m e le =
    search-Chain fuel next ready (next c) q (turn [] c (x ∷ xs)) e
      (turn-Chain next head head c [] (x ∷ xs) refl ch m)
      (turn-Distinct c [] (x ∷ xs) tt d (λ a m. cc)) (omega (arith, length-turn c [] (x ∷ xs)))
      (omega (arith, length-turn c [] (x ∷ xs)))

-- A search that starts at the head meets the elements in their order.
pub search-head :
    (fuel : ℕ) (next : ℕ → Ptr) (ready : ℕ → Bool) (h : ℕ) (xs : List ℕ)
    → IsRing next (some h) xs
    → length xs ≤ fuel
    → search_from fuel next ready h h ≡ some (first_ready ready xs)
search-head fuel next ready h [] r le = cc
search-head fuel next ready h (x ∷ xs) (ch, d) le =
    search-Chain fuel next ready (some h) h (x ∷ xs) refl ch d (omega arith) le

-- The successor of an element of a ring is not NULL.
pub next_of_ring :
    (next : ℕ → Ptr) (head : Ptr) (c : ℕ) (xs : List ℕ)
    → IsRing next head xs
    → mem c xs ≡ true
    → (q : ℕ) × (next c ≡ some q)
next_of_ring next head c [] r m = cc
next_of_ring next head c (x ∷ xs) (ch, d) m =
    chain_start (next c) (turn [] c (x ∷ xs)) (turn-Chain next head head c [] (x ∷ xs) refl ch m)
      (omega (arith, length-turn c [] (x ∷ xs)))
  where
    chain_start :
        (p : Ptr) (ys : List ℕ) → Chain next p ys p → 0 < length ys → (q : ℕ) × (p ≡ some q)
    chain_start p [] cy pos = absurd (omega arith)
    chain_start p (y ∷ ys) cy pos = (y, cy.0)

-- A ring depends only on the values of its pointers.
pub IsRing-ext :
    (next next' : ℕ → Ptr) (head head' : Ptr) (xs : List ℕ)
    → ((i : ℕ) → next' i ≡ next i)
    → head' ≡ head
    → IsRing next head xs
    → IsRing next' head' xs
IsRing-ext next next' head head' xs same e r =
    subst₂ (λ n h. IsRing n h xs) (sym (fun_ext same)) (sym e) r

-- NULL or an element of the list.
abbrev pub PtrIn : Ptr → List ℕ → Type 0
PtrIn none xs = Unit
PtrIn (some c) xs = mem c xs ≡ true

-- The order of the search: from behind the current element, or from the head if there is none.
abbrev pub search_order : Ptr → List ℕ → List ℕ
search_order none xs = xs
search_order (some c) xs = turn [] c xs

pub find_next-first :
    (fuel : ℕ) (next : ℕ → Ptr) (ready : ℕ → Bool) (head c : Ptr) (xs : List ℕ)
    → IsRing next head xs
    → PtrIn c xs
    → length xs ≤ fuel
    → find_next fuel next ready head c ≡ some (first_ready ready (search_order c xs))
unfolding find_next
find_next-first fuel next ready none none [] r i le = refl
find_next-first fuel next ready none none (x ∷ xs) r i le = cc
find_next-first fuel next ready none (some c) [] r i le = cc
find_next-first fuel next ready none (some c) (x ∷ xs) r i le = cc
find_next-first fuel next ready (some h) none xs r i le = search-head fuel next ready h xs r le
find_next-first fuel next ready (some h) (some c) xs r i le =
    let (q, e) = next_of_ring next (some h) c xs r i in
    rw (e, find_next) (search-turn fuel next ready (some h) c q xs r i e le)

-- What is found is ready and in the list; if nothing is found, nothing in the list is ready.
pub first_ready-some :
    (ready : ℕ → Bool) (xs : List ℕ) (i : ℕ)
    → first_ready ready xs ≡ some i
    → (ready i ≡ true) × (mem i xs ≡ true)
first_ready-some ready [] i e = cc
first_ready-some ready (x ∷ xs) i e = ground (arith, first_ready-some ready xs i)

pub first_ready-none :
    (ready : ℕ → Bool) (xs : List ℕ) (i : ℕ)
    → first_ready ready xs ≡ none
    → mem i xs ≡ true
    → ready i ≡ false
first_ready-none ready [] i e m = cc
first_ready-none ready (x ∷ xs) i e m = ground (arith, first_ready-none ready xs i)

pub mem-search_order : (a : ℕ) (c : Ptr) (xs : List ℕ) → mem a (search_order c xs) ≡ mem a xs
mem-search_order a none xs = refl
mem-search_order a (some c) xs = mem-turn a c [] xs

pub IsRing-update :
    (next : ℕ → Ptr) (a : ℕ) (v head : Ptr) (xs : List ℕ)
    → IsRing next head xs
    → mem a xs ≡ false
    → IsRing (update next a v) head xs
IsRing-update next a v head [] r out = r
IsRing-update next a v head (x ∷ xs) (c, d) out =
    (Chain-update next a v head head (x ∷ xs) c out, d)

pub PtrIn-append : (p : Ptr) (xs ys : List ℕ) → PtrIn p xs → PtrIn p (xs ++ ys)
PtrIn-append none xs ys i = tt
PtrIn-append (some c) xs ys i = ground (arith, mem-append c xs ys)

pub Chain-ext :
    (next next' : ℕ → Ptr) (p q : Ptr) (xs : List ℕ)
    → ((i : ℕ) → next' i ≡ next i)
    → Chain next p xs q
    → Chain next' p xs q
Chain-ext next next' p q xs same c = subst (λ n. Chain n p xs q) (sym (fun_ext same)) c

-- Linking a new element behind the last one of a list that ends in NULL.
pub Chain-snoc :
    (next : ℕ → Ptr) (y c : ℕ) (ys : List ℕ)
    → Chain next (some y) (y ∷ ys) none
    → Distinct (y ∷ ys)
    → mem c (y ∷ ys) ≡ false
    → Chain
        (update (update next c none) (last_of y ys) (some c))
        (some y)
        (y ∷ (ys ++ (c ∷ [])))
        none
Chain-snoc next y c ys (first, rest) d out =
    let cleared = update next c none in
    let linked = update cleared (last_of y ys) (some c) in
    let start : cleared y ≡ next y = ground arith in
    let kept = rw (← start) at (Chain-update next c none (next y) none ys rest (ground arith)) in
    let moved = Chain-last cleared y (some c) none ys kept d in
    (
      refl,
      Chain-append linked (linked y) (some c) none ys (c ∷ []) moved
          (refl, ground (arith, last_of-mem y ys)),
    )

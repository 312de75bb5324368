-- ===== src/Task/Ring.antt =====
-- Circular lists by `next` pointers: the run queues of kernel/scheduler.c, their walk to the last
-- element and their search. The walks run on fuel; `none` is a NULL dereference or lack of fuel.
pub mod Laws
pub mod Order
use seng21213_os_se.Base.{
  ℕ, zero, suc, ◌<◌, ◌≡◌, Bool, true, false, ◌||◌, Option, none, some, List, [], ◌∷◌, ◌++◌, arith,
  ◌==◌, if◌then◌else◌, Ptr, same_ptr, length,
}

-- `while (last->next != head) last = last->next;`
unfoldable pub last_from : ℕ → (ℕ → Ptr) → Ptr → ℕ → Option ℕ
last_from zero next head last = none
last_from (suc fuel) next head last = elim (same_ptr (next last) head) [
  | true ↦ some last
  | false ↦ elim (next last) [ none ↦ none | some q ↦ last_from fuel next head q ]
]

-- `do { if (ready(p)) return p; p = p->next; } while (p && p != start); return 0;`
unfoldable pub search_from : ℕ → (ℕ → Ptr) → (ℕ → Bool) → ℕ → ℕ → Option Ptr
search_from zero next ready start p = none
search_from (suc fuel) next ready start p = elim (ready p) [
  | true ↦ some (some p)
  | false ↦ elim (next p) [
    | none ↦ some none
    | some q ↦ elim (q == start) [ true ↦ some none | false ↦ search_from fuel next ready start q ]
  ]
]

-- The start of that search: the successor of the current element, or else the head.
unfoldable pub find_next : ℕ → (ℕ → Ptr) → (ℕ → Bool) → Ptr → Ptr → Option Ptr
find_next fuel next ready none current = some none
find_next fuel next ready (some h) none = search_from fuel next ready h h
find_next fuel next ready (some h) (some c) = elim (next c) [
  | none ↦ some none
  | some q ↦ search_from fuel next ready q q
]

abbrev pub mem : ℕ → List ℕ → Bool
mem a [] = false
mem a (x ∷ xs) = (a == x) || mem a xs

abbrev pub Distinct : List ℕ → Type 0
Distinct [] = Unit
Distinct (x ∷ xs) = (mem x xs ≡ false) × Distinct xs

-- The `next` pointers lead from `p` through `xs` to `q`.
abbrev pub Chain : (ℕ → Ptr) → Ptr → List ℕ → Ptr → Type 0
Chain next p [] q = p ≡ q
Chain next p (x ∷ xs) q = (p ≡ some x) × Chain next (next x) xs q

-- A circular list of distinct elements; the empty one has a NULL head.
abbrev pub IsRing : (ℕ → Ptr) → Ptr → List ℕ → Type 0
IsRing next head [] = head ≡ none
IsRing next head (x ∷ xs) = Chain next head (x ∷ xs) head × Distinct (x ∷ xs)

-- The first element that is ready.
abbrev pub first_ready : (ℕ → Bool) → List ℕ → Ptr
first_ready ready [] = none
first_ready ready (x ∷ xs) = if ready x then some x else first_ready ready xs

pub search_from-first :
    (fuel : ℕ) (next : ℕ → Ptr) (ready : ℕ → Bool) (start p : ℕ) (xs : List ℕ)
    → Chain next (next p) xs (some start)
    → mem start xs ≡ false
    → length xs < fuel
    → search_from fuel next ready start p ≡ some (first_ready ready (p ∷ xs))
unfolding search_from
search_from-first zero next ready start p xs c out lt = absurd (omega arith)
search_from-first (suc fuel) next ready start p [] c out lt = ground arith
search_from-first (suc fuel) next ready start p (x ∷ xs) c out lt =
    ground (arith, search_from-first fuel next ready start x xs)

-- The order in which a round-robin search meets the elements of a ring, from behind `c` on; `seen`
-- are the elements before the list.
abbrev pub turn : List ℕ → ℕ → List ℕ → List ℕ
turn seen c [] = seen
turn seen c (x ∷ xs) = if x == c then xs ++ (seen ++ (x ∷ [])) else turn (seen ++ (x ∷ [])) c xs

-- The last element of a list that has one.
abbrev pub last_of : ℕ → List ℕ → ℕ
last_of p [] = p
last_of p (x ∷ xs) = last_of x xs

pub last_from-last :
    (fuel : ℕ) (next : ℕ → Ptr) (head p : ℕ) (xs : List ℕ)
    → Chain next (next p) xs (some head)
    → mem head xs ≡ false
    → length xs < fuel
    → last_from fuel next (some head) p ≡ some (last_of p xs)
unfolding last_from
last_from-last zero next head p xs c out lt = absurd (omega arith)
last_from-last (suc fuel) next head p [] c out lt = ground arith
last_from-last (suc fuel) next head p (x ∷ xs) c out lt =
    ground (arith, last_from-last fuel next head x xs)

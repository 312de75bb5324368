-- ===== src/Sync/Mutex/Spec.antt =====
-- What a mutex promises: an owner, and the waiting threads in the order of their calls.
use seng21213_os_se.Base.{ℕ, ◌≡◌, true, false, none, some, List, [], ◌∷◌, ◌++◌, ◌==◌, if◌then◌else◌}
use seng21213_os_se.Task.{Kernel}
use seng21213_os_se.Task.Ring.{mem}
use seng21213_os_se.Sync.Wait.Laws.{IsWaiting, AllBlocked}
use seng21213_os_se.Sync.Mutex.{Mutex}

-- A free lock, or the owner and the queue of a lock that is held.
pub data Lock : Type 0 where
  free : Lock
  held : ℕ → List ℕ → Lock

unfoldable pub acquire : ℕ → Lock → Lock
acquire c free = held c []
acquire c (held o q) = if o == c then held o q else held o (q ++ (c ∷ []))

unfoldable pub release : ℕ → Lock → Lock
release c free = free
release c (held o []) = if o == c then free else held o []
release c (held o (x ∷ q)) = if o == c then held x q else held o (x ∷ q)

-- The mutex `m` in kernel `k` stands for the lock: the queue holds the waiting threads, each of
-- them is BLOCKED, and the owner does not wait.
abbrev pub Stands : Mutex → Kernel → Lock → Type 0
Stands m k free = (m.locked ≡ false) × (m.owner ≡ none) × IsWaiting k m.wait_head m.wait_tail []
Stands m k (held o q) =
    (m.locked ≡ true)
    × (m.owner ≡ some o)
    × IsWaiting k m.wait_head m.wait_tail q
    × AllBlocked k q
    × (mem o q ≡ false)

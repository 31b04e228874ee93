-- ===== src/Proton/Queues.antt =====
-- src/migrator/providers/proton_cli.py, `_Walk`: the queues of the workers, lists of UIDs.
pub mod Laws
use dropbox_mirror.Base.{
  ℕ, zero, suc, Option, none, some, List, [], ◌∷◌, ◌++◌, length, Text, nat_eq, text_eq, option_eq,
  if◌then◌else◌, ltb,
}

-- `deque()` for each worker.
abbrev pub empty_queues : ℕ → List (List Text)
empty_queues zero = []
empty_queues (suc n) = [] ∷ empty_queues n

-- `self.queues[worker].extend(uids)`; no worker is out of range.
unfoldable pub extend_at : ℕ → List Text → List (List Text) → List (List Text)
extend_at worker uids [] = []
extend_at zero uids (q ∷ queues) = (q ++ uids) ∷ queues
extend_at (suc worker) uids (q ∷ queues) = q ∷ extend_at worker uids queues

-- `self.queues[worker].appendleft(uid)`
unfoldable pub return_to : ℕ → Text → List (List Text) → List (List Text)
return_to worker uid [] = []
return_to zero uid (q ∷ queues) = (uid ∷ q) ∷ queues
return_to (suc worker) uid (q ∷ queues) = q ∷ return_to worker uid queues

abbrev pub put_back :
    List Text → Option (Text × List (List Text)) → Option (Text × List (List Text))
put_back q none = none
put_back q (some (uid, rest)) = some (uid, q ∷ rest)

-- `self.queues[worker].popleft()`, and `none` where the queue is empty.
unfoldable pub pop_at : ℕ → List (List Text) → Option (Text × List (List Text))
pop_at worker [] = none
pop_at zero ([] ∷ queues) = none
pop_at zero ((uid ∷ q) ∷ queues) = some (uid, q ∷ queues)
pop_at (suc worker) (q ∷ queues) = put_back q (pop_at worker queues)

-- The length of the first longest queue and its place: `max(self.queues, key=len)`.
unfoldable pub longest : List (List Text) → ℕ × ℕ
longest [] = (0, 0)
longest (q ∷ queues) =
    let (size, place) = longest queues in
    if ltb (length q) size then (size, suc place) else (length q, 0)

abbrev pub or_longest :
    Option (Text × List (List Text))
    → Option (Text × List (List Text))
    → Option (Text × List (List Text))
or_longest (some popped) longest_popped = some popped
or_longest none longest_popped = longest_popped

-- The own queue of the worker, or the longest one.
unfoldable pub next_uid : ℕ → List (List Text) → Option (Text × List (List Text))
unfolding pop_at longest
next_uid worker queues = or_longest (pop_at worker queues) (pop_at (longest queues).1 queues)

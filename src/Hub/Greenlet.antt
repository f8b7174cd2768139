-- ===== src/Hub/Greenlet.antt =====
-- meinheld/server/server.c: greenlets that are started by the scheduler, or that sleep. The greenlet
-- library gives the new greenlet, the current one and its parent.
use meinheld.Base.{
  ℕ, zero, suc, ◌≡◌, refl, ap, ◌∙◌, Bool, Option, none, some, List, [], ◌∷◌, length,
}
use meinheld.Base.Int.{ℤ, pos}
use meinheld.Hub.{Pendings, Hub, internal_schedule_call}

pub data SpawnResult : Type 0 where
  spawned no_greenlet : SpawnResult

-- `meinheld_spawn`, by what `greenlet_new` gives. What `internal_schedule_call` returns is only
-- released.
unfoldable pub spawn : Bool → ℕ → Option ℕ → Hub → SpawnResult × Hub
spawn has_memory func none h = (no_greenlet, h)
spawn has_memory func (some greenlet) h =
    (spawned, (internal_schedule_call has_memory (pos 0) func (some greenlet) h).1)

-- `slept` is the switch to the parent, `same_greenlet` the IOError of a greenlet that has none.
pub data SleepResult : Type 0 where
  slept : ℕ → SleepResult
  same_greenlet : SleepResult

-- `meinheld_sleep`; the timer has no callback and an empty tuple for its arguments, which is `empty`.
unfoldable pub sleep : Bool → ℕ → ℤ → ℕ → Option ℕ → Hub → SleepResult × Hub
sleep has_memory empty sec current none h = (same_greenlet, h)
sleep has_memory empty sec current (some parent) h =
    (slept parent, (internal_schedule_call has_memory sec empty (some current) h).1)

-- The timers that are released, from the first on
unfoldable pub release_first : ℕ → List ℕ → List ℕ
release_first zero q = []
release_first (suc len) [] = []
release_first (suc len) (timer ∷ q) = timer ∷ release_first len q

-- `destroy_pendings`: the references that it releases, and the queue, which is NULL after it
unfoldable pub destroy_pendings : Pendings → List ℕ × Option Pendings
unfolding release_first
destroy_pendings p = (release_first p.size p.q, none)

release_all : (q : List ℕ) → release_first (length q) q ≡ q
unfolding release_first
release_all [] = refl
release_all (timer ∷ q) = ap (λ t. timer ∷ t) (release_all q)

-- All references are released, once each, where `size` counts them.
pub destroy_pendings_lem : (p : Pendings) → p.size ≡ length p.q → (destroy_pendings p).0 ≡ p.q
unfolding destroy_pendings
destroy_pendings_lem p e = ap (λ n. release_first n p.q) e ∙ release_all p.q

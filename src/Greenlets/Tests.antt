-- ===== src/Greenlets/Tests.antt =====
-- The theorem on suspended clients at a concrete run.
use meinheld.Base.{ℕ, ◌+◌, ◌≡◌, refl, true, false, none, some}
use meinheld.Base.Int.{pos}
use meinheld.FreeList.Pools.{ClientObject}
use meinheld.Greenlets.{Loop, client_object, suspend_client, suspend, add_watch, find}
use meinheld.Greenlets.Watches.{Counted}
use meinheld.Greenlets.Awake.{Waker, fd}
use meinheld.Greenlets.Reach.{here, next, suspends, start, Reach-awake}

abbrev object : ℕ → ClientObject
object o = record { client = o; greenlet = some o; args = none; kwargs = none; suspended = false }

abbrev suspended : Loop
suspended = (suspend_client (client_object 1) (pos 9) (start object (λ c. c + 4))).1

Reach-awake_example :
    Counted suspended
    × ((o : ℕ)
        → (suspended.objects o).suspended ≡ true
        → Waker suspended.watched (fd suspended o) o)
Reach-awake_example =
    Reach-awake object (λ c. c + 4) suspended (λ o. refl)
      (next here (suspends (client_object 1) (pos 9) (λ p s. absurd (cc s)) refl))

-- The client is watched after that.
suspended_watched : suspended.activecnt ≡ pos 1
unfolding suspend_client suspend add_watch find
suspended_watched = refl

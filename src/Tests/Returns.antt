-- ===== src/Tests/Returns.antt =====
-- A sync of node-a in which node-b stays silent, and node-c after its commits.
use ded_swarm.Base.{◌≡◌, refl, List, [], ◌∷◌, nat_eq, string_eq, none, some, ok, arith}
use ded_swarm.Float.{Ticks, ticks_float, Ticks-IsOrdered}
use ded_swarm.Protocol.{commit}
use ded_swarm.Swarm.{Tick}
use ded_swarm.Generation.{Synced, do_sync}
use ded_swarm.Generation.Returns.{do_sync_total}
use ded_swarm.Tests.Generation.{in_order, in_order-IsIteration, detector, fresh, program}
use ded_swarm.Tests.Everyone.{a, c, says, commit_by, scores_by}

-- A stranger's message is not one that the code can read, and both deadlines pass at last.
abbrev ticks : List (Tick Ticks)
ticks =
    says 6 "node-c" commit (commit_by c)
    ∷ says 7 "node-x" commit (scores_by 30 30)
    ∷ record { now = 500; env = none; receive_ts = 500 }
    ∷ []

do_sync_total_example :
    (s : Synced Ticks) × (do_sync in_order a [] detector 5 7 ticks fresh ≡ ok (some s))
unfolding program
do_sync_total_example =
    do_sync_total Ticks-IsOrdered in_order in_order-IsIteration a (λ pos tok. ground arith) []
      detector 5 7 ticks fresh (ground arith)
      ((refl, λ _ _. (c.my_commits, refl, ground arith)), ((refl, λ e _. cc), ((tt, tt), tt))) tt
      refl

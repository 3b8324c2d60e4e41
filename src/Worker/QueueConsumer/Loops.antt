-- ===== src/Worker/QueueConsumer/Loops.antt =====
-- apps/worker/queue-consumer.ts: `start`, `stop` and the loops between them, in every order.
use railfog.Prelude.{◌≤◌, ◌≡◌, refl, false, ◌||◌, arith, if◌then◌else◌}
use railfog.Worker.QueueConsumer.{
  Lifecycle, start, stop, Step, starts, stops, polls, settles, loop_ends, stop_ends, Reachable,
  created, goes,
}

-- A running worker has one loop and is not being stopped; one that neither runs nor is being stopped
-- has none; a message is processed only inside a loop.
abbrev IsSound : Lifecycle → Type 0
IsSound w =
    (w.loops ≤ 1)
    × (if w.running then (w.loops ≡ 1) × (w.stopping ≡ false) else Unit)
    × (if w.running || w.stopping then Unit else w.loops ≡ 0)
    × (if w.processing then w.loops ≡ 1 else Unit)

Step-IsSound : {w w' : Lifecycle} → Step w w' → IsSound w → IsSound w'
unfolding start stop
Step-IsSound (starts w) sound = ground (arith, sound)
Step-IsSound (stops w) sound = ground (arith, sound)
Step-IsSound (polls w running looping) sound = ground (arith, sound)
Step-IsSound (settles w processing) sound = ground (arith, sound)
Step-IsSound (loop_ends w n stopped settled one) sound = ground (arith, sound)
Step-IsSound (stop_ends w stopping settled none) sound = ground (arith, sound)

Reachable-IsSound : {w : Lifecycle} → Reachable w → IsSound w
Reachable-IsSound created = (omega arith, tt, refl, tt)
Reachable-IsSound (goes w w' before step) = Step-IsSound step (Reachable-IsSound before)

-- However `start`, `stop`, the polls and the ends of loops interleave, a worker never has two loops;
-- it has one while it runs and while it processes a message, and none when it neither runs nor is
-- being stopped.
pub one_loop :
    (w : Lifecycle)
    → Reachable w
    → (w.loops ≤ 1)
      × (if w.running || w.processing then w.loops ≡ 1 else Unit)
      × (if w.running || w.stopping then Unit else w.loops ≡ 0)
one_loop w reached = ground (arith, Reachable-IsSound reached)

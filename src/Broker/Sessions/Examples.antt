-- ===== src/Broker/Sessions/Examples.antt =====
-- mbroker/mbroker.c: instances of the theorems on the sessions of a publisher and a subscriber.

use tecnico_fs_so.Prelude.{refl, [], arith, ◌≡◌, ◌⊎◌}
use tecnico_fs_so.Broker.Sessions.InOrder.{IsInOrder, Reach-IsInOrder}
use tecnico_fs_so.Broker.Sessions.Samples.{
  at_first-Starts, falls_asleep, later, packet, published, sleeper,
}
use tecnico_fs_so.Broker.Sessions.Steps.{no_step}
use tecnico_fs_so.Broker.Sessions.Progress.{AllSent, Reach-AllSent}
use tecnico_fs_so.Broker.Sessions.{updates_box}

Reach-IsInOrder_example : IsInOrder [] later
Reach-IsInOrder_example = Reach-IsInOrder (omega arith) (at_first-Starts packet) (published no_step)

Reach-AllSent_example : AllSent [] sleeper ⊎ (sleeper.publisher ≡ updates_box)
Reach-AllSent_example = Reach-AllSent (omega arith) (at_first-Starts packet) falls_asleep refl

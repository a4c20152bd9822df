-- ===== src/Tests/Polling.antt =====
-- Waiting in the small world, with a system clock that is set back.
use synapse_network_sdk.Base.{ℕ, ◌-◌, ltb, if◌then◌else◌, ◌+◌, ◌≤◌, ◌≢◌, [], suc, arith}
use synapse_network_sdk.Base.Int.{pos, pos_part}
use synapse_network_sdk.Runtime.{stalled}
use synapse_network_sdk.Runtime.Steps.{occurrences}
use synapse_network_sdk.Client.Polling.{wait_for_invocation}
use synapse_network_sdk.Client.Polling.Ends.{wait_for_invocation-ends}
use synapse_network_sdk.Client.Polling.Lookups.{is_sent, wait_for_invocation_lookups}
use synapse_network_sdk.Host.{Host, ClockLaws, Trace, second}
use synapse_network_sdk.Tests.World.{world, client, ticks, ticks_forward}

-- A system clock that is set back by a second once the first second is over.
abbrev turned_clock : Trace → ℕ
turned_clock u = if ltb (1000 + second) (ticks u) then ticks u - second else ticks u

abbrev turned_world : Host
turned_world = record world { clock = turned_clock }

turned_laws : ClockLaws turned_world 1
turned_laws = record {
  elapsed = ticks;
  forward = ticks_forward;
  sleeps = λ s u. omega arith;
  set_back = λ u v later. ground arith;
}

wait_for_invocation-ends_example :
    (wait_for_invocation turned_world client "inv_1" (pos 90) (pos 1) []).0 ≢ stalled
wait_for_invocation-ends_example =
    wait_for_invocation-ends turned_world client "inv_1" (pos 90) (pos 1) [] 1 turned_laws
      (omega arith)

wait_for_invocation_lookups_example :
    occurrences is_sent (wait_for_invocation turned_world client "inv_1" (pos 90) (pos 1) []).1
    ≤ suc (pos_part (pos 90) + 1) + occurrences is_sent []
wait_for_invocation_lookups_example =
    wait_for_invocation_lookups turned_world client "inv_1" (pos 90) (pos 1) [] 1 turned_laws

-- ===== src/Tests/Alone.antt =====
-- The goroutines of the agent on the sample data, with nothing between their steps.
use tenpm_uptime_monitor.Prelude.{ℕ, ◌++◌, ◌≡◌, refl, []}
use tenpm_uptime_monitor.Prelude.Int.{pos}
use tenpm_uptime_monitor.Store.Buffer.Backlog.{backlog}
use tenpm_uptime_monitor.Client.{post_results, exchanged}
use tenpm_uptime_monitor.System.{System, synced_system, reconciled_system}
use tenpm_uptime_monitor.System.Threads.{resting, purging}
use tenpm_uptime_monitor.System.Alone.Steps.{RoundWorld}
use tenpm_uptime_monitor.System.Drain.{Serves, Reach-can_drain}
use tenpm_uptime_monitor.System.Flush.{Steps}
use tenpm_uptime_monitor.Tests.Interleavings.{
  client, same_headers, runner, taking, begun, begun-Reached, one_row-IsValid,
}
use tenpm_uptime_monitor.Tests.Samples.{one_header}

-- The server takes the backlog of the sample database in one round.
abbrev rounds : ℕ → RoundWorld
rounds n = record { at_list = taking; at_post = taking; at_mark = taking }

serves : Serves client rounds
unfolding post_results exchanged
serves = record { lists = λ n. refl; marks = λ n. refl; takes = λ n results. (pos 0, refl) }

rests : begun.reporter ≡ resting
unfolding synced_system reconciled_system
rests = refl

-- While a check runs and the syncer waits for an answer.
Reach-can_drain_example :
    (t : System) × Steps one_header same_headers client begun t
    × (t.confirmed ≡ begun.confirmed ++ backlog begun.runner.db)
    × (backlog t.runner.db ≡ [])
    × (t.reporter ≡ purging)
    × (t.executions ≡ begun.executions)
Reach-can_drain_example =
    Reach-can_drain one_header same_headers client runner begun rounds one_row-IsValid begun-Reached
      rests serves

-- ===== src/Schedule/Engine/Tests/Runs.antt =====
-- A dispatch that is served, and runs of one and of two ticks.
use openmate.Base.{
  str_dec, ℕ_discrete, codes, some, [], ◌∷◌, true, false, ◌≡◌, refl, ok, ◌+◌, is_empty, trim_space,
}
use openmate.Base.Int.{pos}
use openmate.Schedule.Types.{has, failed}
use openmate.Schedule.Runtime.{
  NodeQueueState, TopicControlState, DispatchRecord, RuntimeDb, find_topic, find_node,
}
use openmate.Schedule.Runtime.Topics.{scan_topics, list_topics}
use openmate.Schedule.Runtime.Work.{running_ids, mark_node_finished}
use openmate.Schedule.Runtime.Finish.{mark_node_finished-topic}
use openmate.Schedule.Engine.Selection.{select_topic}
use openmate.Schedule.Engine.Dispatch.{dispatch_one, WorkerExecuteRequest}
use openmate.Schedule.Engine.Tick.{tick_result, waiting}
use openmate.Schedule.Engine.Loop.{RunFlags, run_loop}
use openmate.Schedule.Engine.Progress.{IsServed, IsAsked, Completed, dispatch_one-completes}
use openmate.Schedule.Engine.Starved.{replicate, run_loop-starves}
use openmate.Schedule.Engine.Ends.{HasEnded, run_loop-HasEnded}
use openmate.Schedule.Engine.Tests.{
  t1, n1, success, answers, tick_answers, config, a_topic, a_node, two_topics, waiting_db, busy,
  a_node_found, a_topic_found,
}

abbrev all_served : IsServed answers
all_served = record {
  session = codes "s";
  event = codes "e";
  response = λ _. success;
  load = refl;
  running = refl;
  session_given = refl;
  stored = refl;
  authorized = refl;
  answers = λ _. refl;
  finished = refl;
  recorded = refl;
}

n1_named : is_empty (trim_space n1) ≡ false
unfolding trim_space
n1_named = refl

dispatch_one-completes_example :
    (q : WorkerExecuteRequest) × (r : DispatchRecord) × (db' : RuntimeDb) × IsAsked t1 n1
      (codes "s")
      (codes "e")
      q
    × (dispatch_one answers (pos 1000) t1 n1 two_topics ≡ (ok r, db'))
    × Completed t1 n1 (codes "s") (codes "e") [] success r db'
dispatch_one-completes_example =
    dispatch_one-completes answers (pos 1000) t1 n1 a_node a_topic two_topics all_served
      a_node_found refl n1_named a_topic_found

a_row_found : find_node t1 n1 two_topics.nodes ≡ some a_node
unfolding find_node str_dec ℕ_discrete
a_row_found = refl

mark_node_finished-topic_example :
    (db' : RuntimeDb) × (t' : TopicControlState) × (row' : NodeQueueState) × (mark_node_finished t1
        n1 failed 200 two_topics
      ≡ ok (tt, db'))
    × (find_node t1 n1 db'.nodes ≡ some row')
    × (row'.status ≡ failed)
    × (row'.last_worked_at ≡ some 200)
    × (find_topic t1 db'.topics ≡ some t')
    × (t'.running_node_ids ≡ running_ids t1 db'.nodes)
    × (has n1 t'.running_node_ids ≡ false)
    × (t'.current_node_id ≡ some n1)
    × (t'.last_worked_node_id ≡ some n1)
    × (t'.switch_count ≡ 0 + 1)
    × (db'.history ≡ [])
mark_node_finished-topic_example =
    mark_node_finished-topic t1 n1 failed 200 two_topics a_topic a_node a_topic_found a_row_found
      n1_named

waiting_listed : list_topics waiting_db ≡ ok (busy ∷ [])
unfolding scan_topics
waiting_listed = refl

waiting_chosen : select_topic waiting_db ≡ ok (some busy)
unfolding select_topic str_dec
waiting_chosen = refl

abbrev two_ticks : RunFlags
two_ticks = record { max_dispatch = pos 1; max_ticks = pos 2; until_idle = false }

abbrev until_idle : RunFlags
until_idle = record { max_dispatch = pos 1; max_ticks = pos 2; until_idle = true }

run_loop-starves_example :
    run_loop config two_ticks (λ i. tick_answers) 2 0 waiting_db
    ≡ (some (ok (replicate 2 (tick_result busy [] (waiting ∷ [])))), waiting_db)
run_loop-starves_example =
    run_loop-starves config two_ticks (λ i. tick_answers) waiting_db (busy ∷ []) busy n1 [] 1 refl
      refl refl waiting_listed waiting_chosen refl refl
      (λ j less. record { age = refl; select = refl; rests = (tt, tt) })

run_loop-HasEnded_example :
    HasEnded true 2 (run_loop config until_idle (λ i. tick_answers) 2 0 two_topics).0
run_loop-HasEnded_example =
    run_loop-HasEnded config until_idle (λ i. tick_answers) 1 two_topics refl

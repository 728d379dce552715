-- ===== src/Examples/Notices.antt =====
-- Notifications, at concrete values.
use web_form.Prelude.{
  Text-comparable, [], ◌∷◌, inl, if◌then◌else◌, true, false, List, none, some, new, ok, codes, ◌≡◌,
  refl, arith, ℕ, nat_eq,
}
use web_form.Prelude.Int.{pos}
use web_form.Schema.Types.{Webhook, Amqp, Template}
use web_form.Notifications.Webhooks.{sends, enqueue, Task, Network, try_send, delivered, send}
use web_form.Notifications.Webhooks.Retries.{Bounded, send-Bounded, send_delivers}
use web_form.Notifications.Webhooks.Queue.{
  Dispatcher, new_dispatcher, enqueued, Reached, new_one, later, calls, leaves, IsOrdered,
  Reached-IsOrdered,
}
use web_form.Notifications.Broker as Broker
use web_form.Notifications.Broker.Connections as Connections
use web_form.Notifications.Broker.Connections.{Worker, send_task, run, new_worker, Received}
use web_form.Notifications.Broker.Pool as Pools
use web_form.Notifications.Broker.Pool.{Pool, new_pool, sending}
use web_form.Notifications.Broker.Pool.Invariant.{IsCoherent, Reached-IsCoherent}
use web_form.Notifications.Broker.Workers.{IsSound, IsSent, IsReset, send_task-IsSent, run-closed}
use web_form.Examples.{blank, hook}

abbrev message : Template
message = record { valid = true; value = codes "hello" }

abbrev ready_hook : Webhook
ready_hook = record hook { message = message }

abbrev task : Task
task = record { webhook = ready_hook; payload = codes "hello" }

-- A service that is down at the first attempt.
abbrev network : Network
network = record {
  parse_url = λ u. none;
  new_request = λ m u. none;
  canonical = λ k. k;
  status = λ n call. if nat_eq n 0 then ok 503 else ok 200;
  stopped = λ n. false;
}

send-Bounded_example :
    Bounded
      (try_send network task)
      network.stopped
      ready_hook.retry
      ready_hook.timeout
      0
      []
      (send network task)
send-Bounded_example = send-Bounded network task refl

second_succeeds : try_send network task 1 ≡ none
unfolding try_send
second_succeeds = refl

send_delivers_example : (send network task).ending ≡ delivered
send_delivers_example =
    send_delivers network task 1 refl (omega arith) second_succeeds (λ j h. refl)

abbrev definition : Amqp
definition = record {
  exchange = [];
  key = blank;
  retry = pos 2;
  timeout = pos 1;
  interval = pos 1;
  headers = [];
  type = [];
  correlation = blank;
  id = blank;
  message = message;
}

abbrev note : Broker.Task
note = record {
  definition = definition;
  key = [];
  correlation_id = [];
  message_id = [];
  payload = codes "hello";
}

-- A broker that refuses every message.
abbrev refusing : ℕ → Connections.Broker
refusing n = record {
  dial = ok n;
  open_channel = λ c. ok c;
  publish = λ ch p. some (new (codes "refused"));
}

new_worker-IsSound : IsSound new_worker
new_worker-IsSound = record { accounted = refl; based = inl refl }

send_task-IsSent_example :
    IsSent refusing note new_worker (send_task refusing (λ n. false) note new_worker)
send_task-IsSent_example = send_task-IsSent refusing (λ n. false) note new_worker

abbrev taken : List Received
taken = record { task = note; broker = refusing; stops = λ n. false } ∷ []

run-closed_example : ((run taken).dialed ≡ (run taken).closed) × IsReset (run taken)
run-closed_example = run-closed taken

abbrev one_room : Dispatcher
one_room = new_dispatcher 1

-- A task waits, and another is refused by the context of its request.
abbrev queued : Dispatcher
queued = record {
  buffer = 1;
  tasks = task ∷ [];
  answers = (task, none) ∷ (task, some (new (codes "context canceled"))) ∷ [];
  deliveries = [];
}

queued_one : Reached 1 queued
unfolding new_dispatcher enqueued enqueue
queued_one =
    later (later new_one (calls {d = one_room} task (omega arith)))
      (leaves {d = enqueued sends task one_room} task (new (codes "context canceled")))

Reached-IsOrdered_example : IsOrdered queued
Reached-IsOrdered_example = Reached-IsOrdered queued_one

abbrev one_worker : Pool
one_worker = new_pool 1 1

-- A message goes straight to the waiting worker.
abbrev at_work : Pool
at_work = record {
  buffer = 1;
  tasks = [];
  accepted = note ∷ [];
  taken = note ∷ [];
  finished = [];
  workers = sending new_worker note ∷ [];
}

handed : Pools.Reached 1 1 at_work
unfolding new_pool
handed = Pools.later Pools.new_one (Pools.hands {s = one_worker} note [] [] new_worker refl refl)

Reached-IsCoherent_example : IsCoherent 1 at_work
Reached-IsCoherent_example = Reached-IsCoherent handed

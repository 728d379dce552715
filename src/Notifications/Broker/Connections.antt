-- ===== src/Notifications/Broker/Connections.antt =====
-- internal/notifications/amqp/amqp.go: the worker that publishes messages over one connection and one
-- channel. A handle of the AMQP library is a number.
use web_form.Prelude.{
  Text, [], ◌∷◌, ◌++◌, Bool, true, false, List, Option, none, some, Error, Result, ok, err, wrap,
  codes, ℕ, zero, suc,
}
use web_form.Prelude.Int.{ℤ, le_counter, pos_part}
use web_form.Prelude.Dict.{Dict, insert}
use web_form.Notifications.Broker.{Task}

-- `worker`, with the connections that it has dialed and those that it has closed.
pub record Worker : Type 0 where
  pub connection : Option ℕ
  pub channel : Option ℕ
  pub dialed : List ℕ
  pub closed : List ℕ

-- A message as it is published, but for its time.
pub record Publishing : Type 0 where
  pub exchange : Text
  pub key : Text
  pub message_id : Text
  pub correlation_id : Text
  pub headers : Dict Text
  pub content_type : Text
  pub body : Text

-- What the broker answers during an attempt.
pub record Broker : Type 0 where
  pub dial : Result ℕ
  pub open_channel : ℕ → Result ℕ
  pub publish : ℕ → Publishing → Option Error

-- `(worker *worker) close`; errors of closing are ignored.
unfoldable pub close : Worker → Worker
close w = record w {
  connection = none;
  channel = none;
  closed = elim w.connection [ none ↦ w.closed | some c ↦ w.closed ++ c ∷ [] ];
}

unfoldable pub get_connection : Broker → Worker → Result ℕ × Worker
get_connection b w = elim w.connection [
  | some c ↦ (ok c, w)
  | none ↦ elim b.dial [
    | err e ↦ (err (wrap (codes "dial broker: %w") [] e), w)
    | ok c ↦ (ok c, record w { connection = some c; dialed = w.dialed ++ c ∷ [] })
  ]
]

-- What `getChannel` does with the connection.
unfoldable pub allocate : Broker → Result ℕ × Worker → Result ℕ × Worker
unfolding close
allocate b (err e, w) = (err (wrap (codes "get connection: %w") [] e), w)
allocate b (ok c, w) = elim (b.open_channel c) [
  | err e ↦ (err (wrap (codes "allocate channel: %w") [] e), close w)
  | ok ch ↦ (ok ch, record w { channel = some ch })
]

unfoldable pub get_channel : Broker → Worker → Result ℕ × Worker
unfolding allocate get_connection
get_channel b w = elim w.channel [ some ch ↦ (ok ch, w) | none ↦ allocate b (get_connection b w) ]

-- The copy of the headers of a definition.
unfoldable pub headers_loop : Dict Text → Dict Text → Dict Text
headers_loop headers [] = headers
headers_loop headers ((k, v) ∷ rest) = headers_loop (insert k v headers) rest

unfoldable pub publishing : Task → Publishing
unfolding headers_loop
publishing t = record {
  exchange = t.definition.exchange;
  key = t.key;
  message_id = t.message_id;
  correlation_id = t.correlation_id;
  headers = headers_loop [] t.definition.headers;
  content_type = t.definition.type;
  body = t.payload;
}

-- What `trySendTask` does with the channel.
abbrev pub publish_on : Broker → Task → Result ℕ × Worker → Option Error × Worker
publish_on b t (err e, w) = (some (wrap (codes "get channel: %w") [] e), w)
publish_on b t (ok ch, w) = (b.publish ch (publishing t), w)

unfoldable pub try_send_task : Broker → Task → Worker → Option Error × Worker
unfolding get_channel
try_send_task b t w = publish_on b t (get_channel b w)

-- How a message ends.
pub data Ending : Type 0 where
  published given_up stopped out_of_fuel : Ending

pub record Sending : Type 0 where
  pub worker : Worker
  pub attempts : ℕ
  pub waits : List ℤ
  pub ending : Ending

-- The loop of `sendTask`, over the broker at each attempt and whether the context stops it then.
unfoldable pub send_loop : (ℕ → Broker) → (ℕ → Bool) → Task → ℕ → ℕ → List ℤ → Worker → Sending
unfolding try_send_task
send_loop broker stops t zero attempt waits w = record {
  worker = w;
  attempts = attempt;
  waits = waits;
  ending = out_of_fuel;
}
send_loop broker stops t (suc fuel) attempt waits w =
    let (failure, tried) = try_send_task (broker attempt) t w in
    elim failure [
      | none ↦ record { worker = tried; attempts = suc attempt; waits = waits; ending = published }
      | some e ↦ elim (le_counter t.definition.retry attempt) [
        | true ↦ record {
          worker = close tried;
          attempts = suc attempt;
          waits = waits;
          ending = given_up;
        }
        | false ↦ elim (stops attempt) [
          | true ↦ record {
            worker = close tried;
            attempts = suc attempt;
            waits = waits;
            ending = stopped;
          }
          | false ↦
              send_loop broker stops t fuel (suc attempt) (waits ++ t.definition.timeout ∷ [])
                (close tried)
        ]
      ]
    ]

unfoldable pub send_task : (ℕ → Broker) → (ℕ → Bool) → Task → Worker → Sending
unfolding send_loop
send_task broker stops t w = send_loop broker stops t (suc (pos_part t.definition.retry)) 0 [] w

abbrev pub new_worker : Worker
new_worker = record { connection = none; channel = none; dialed = []; closed = [] }

-- A task that `Run` takes from its channel, with what the broker and the context do meanwhile.
pub record Received : Type 0 where
  pub task : Task
  pub broker : ℕ → Broker
  pub stops : ℕ → Bool

-- The loop of `Run`, over the tasks that it takes before the context ends or the channel is closed.
unfoldable pub run_loop : List Received → Worker → Worker
unfolding send_task
run_loop [] w = w
run_loop (r ∷ rs) w = run_loop rs (send_task r.broker r.stops r.task w).worker

-- `(amqp *AMQP) Run`, with its deferred `close`.
unfoldable pub run : List Received → Worker
unfolding run_loop
run rs = close (run_loop rs new_worker)

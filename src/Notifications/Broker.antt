-- ===== src/Notifications/Broker.antt =====
-- internal/notifications/amqp/amqp.go: messages for an AMQP broker that tell of a
-- submission.
pub mod Connections
pub mod Workers
pub mod Pool
pub mod Defaults
use web_form.Prelude.{
  Text, [], ◌∷◌, ◌++◌, if◌then◌else◌, Bool, true, false, List, Option, none, some, Error, Result,
  ok, err, wrap, wrapped, codes, is_empty, ℕ, zero, suc, ◌>>=◌,
}
use web_form.Prelude.Int.{ℤ, pos, not_positive, is_zero, le_counter, pos_part}
use web_form.Prelude.Dict.{Dict, insert}
use web_form.Schema.Types.{Amqp, Template, NotifyContext}
use web_form.Schema.Templates.{Externals, must_template, notify_bytes, notify_string}

abbrev pub default_timeout : ℤ
default_timeout = pos 10_000_000_000

abbrev pub default_retries : ℤ
default_retries = pos 3

abbrev pub default_interval : ℤ
default_interval = pos 15_000_000_000

unfoldable pub create_limits : Amqp → Amqp
create_limits d = record d {
  timeout = if not_positive d.timeout then default_timeout else d.timeout;
  retry = if is_zero d.retry then default_retries else d.retry;
  interval = if not_positive d.interval then default_interval else d.interval;
}

-- A definition without a message sends JSON; `none` is a panic.
unfoldable pub create_message : Externals → Amqp → Option Amqp
create_message ext d =
    if d.message.valid then some d else elim (must_template ext (codes "{{.Result | toJson}}")) [
      | none ↦ none
      | some t ↦ some (record d {
        type = if is_empty d.type then codes "application/json" else d.type;
        message = t;
      })
    ]

-- `(amqp *AMQP) Create`: the definition that the notification uses.
unfoldable pub create : Externals → Amqp → Option Amqp
unfolding create_limits create_message
create ext d = create_message ext (create_limits d)

-- `task`
pub record Task : Type 0 where
  pub definition : Amqp
  pub key : Text
  pub correlation_id : Text
  pub message_id : Text
  pub payload : Text

-- The task of an event, or the first error of its templates.
unfoldable pub render_task : Externals → Amqp → NotifyContext → Result Task
render_task ext d event = do
  payload ← wrapped (codes "render payload: %w") [] (notify_bytes ext d.message event)
  key ← wrapped (codes "render routing key: %w") [] (notify_string ext d.key event)
  correlation_id ←
      wrapped (codes "render correlation ID: %w") [] (notify_string ext d.correlation event)
  message_id ← wrapped (codes "render message ID: %w") [] (notify_string ext d.id event)
  ok (record {
    definition = d;
    key = key;
    correlation_id = correlation_id;
    message_id = message_id;
    payload = payload;
  })

-- What `select` does: it sends to the channel, or sees the context done.
pub data Choice : Type 0 where
  sends : Choice
  done : Error → Choice

-- The notification that `Create` returns: the tasks in the channel afterwards, and the error.
unfoldable pub dispatch :
    Externals → Choice → Amqp → NotifyContext → List Task → List Task × Option Error
unfolding render_task
dispatch ext choice d event tasks = elim (render_task ext d event) [
  | err e ↦ (tasks, some e)
  | ok task ↦ elim choice [ sends ↦ (tasks ++ task ∷ [], none) | done e ↦ (tasks, some e) ]
]

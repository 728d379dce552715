-- ===== src/Notifications/Webhooks.antt =====
-- internal/notifications/webhook/webhooks.go: webhooks, their defaults and their delivery. A duration
-- is in nanoseconds. The header map of a webhook is changed in place by `Create`; here the changed
-- webhook is the result.
pub mod Defaults
pub mod Retries
pub mod Queue
use web_form.Prelude.{
  Text, Text-comparable, [], ◌∷◌, ◌++◌, if◌then◌else◌, Bool, true, false, List, Option, none, some,
  Error, Result, ok, err, new, wrap, wrapped, codes, is_empty, ℕ, zero, suc, nat_eq, ◌/◌, ◌>>=◌,
}
use web_form.Prelude.Int.{ℤ, pos, not_positive, is_zero, le_counter, pos_part}
use web_form.Prelude.Dict.{Dict, lookup, insert}
use web_form.Golang.Strconv.{itoa}
use web_form.Schema.Types.{Webhook, Template, NotifyContext}
use web_form.Schema.Templates.{Externals, must_template, notify_bytes}

abbrev pub default_timeout : ℤ
default_timeout = pos 10_000_000_000

abbrev pub default_retries : ℤ
default_retries = pos 3

abbrev pub default_interval : ℤ
default_interval = pos 15_000_000_000

abbrev pub default_method : Text
default_method = codes "POST"

abbrev pub default_message : Text
default_message = codes "{{.Result | toJson}}"

abbrev pub content_type : Text
content_type = codes "Content-Type"

-- A nil map of headers becomes an empty one, and gets a content type if it has none.
abbrev pub json_headers : Option (Dict Text) → Dict Text
json_headers none = (content_type, codes "application/json") ∷ []
json_headers (some headers) = elim (lookup content_type headers) [
  | some v ↦ headers
  | none ↦ insert content_type (codes "application/json") headers
]

-- The first four defaults of `Create`.
unfoldable pub create_limits : Webhook → Webhook
create_limits w = record w {
  timeout = if not_positive w.timeout then default_timeout else w.timeout;
  retry = if is_zero w.retry then default_retries else w.retry;
  interval = if not_positive w.interval then default_interval else w.interval;
  method = if is_empty w.method then default_method else w.method;
}

-- A webhook without a message sends JSON; `none` is a panic.
unfoldable pub create_message : Externals → Webhook → Option Webhook
create_message ext w =
    if w.message.valid then some w else elim (must_template ext default_message) [
      | none ↦ none
      | some t ↦ some (record w { headers = some (json_headers w.headers); message = t })
    ]

-- `(wd *Dispatcher) Create`: the webhook that the notification sends.
unfoldable pub create : Externals → Webhook → Option Webhook
unfolding create_limits create_message
create ext w = create_message ext (create_limits w)

-- `webhookTask`
pub record Task : Type 0 where
  pub webhook : Webhook
  pub payload : Text

-- What `select` does in `enqueue`: it sends to the channel, or sees the context done.
pub data Choice : Type 0 where
  sends : Choice
  done : Error → Choice

-- `enqueue`: the tasks in the channel afterwards, and the error.
unfoldable pub enqueue : Choice → Task → List Task → List Task × Option Error
enqueue sends task tasks = (tasks ++ task ∷ [], none)
enqueue (done e) task tasks = (tasks, some e)

-- The notification that `Create` returns.
unfoldable pub dispatch :
    Externals → Choice → Webhook → NotifyContext → List Task → List Task × Option Error
unfolding enqueue
dispatch ext choice w event tasks = elim (notify_bytes ext w.message event) [
  | err e ↦ (tasks, some (wrap (codes "render webhook: %w") [] e))
  | ok payload ↦ enqueue choice (record { webhook = w; payload = payload }) tasks
]

-- An HTTP request that the client sends.
pub record Call : Type 0 where
  pub method : Text
  pub url : Text
  pub headers : Dict Text
  pub payload : Text
  pub timeout : ℤ

-- The HTTP client: `NewRequest`, the canonical form of the name of a header, the status of the answer
-- to an attempt or an error, and whether the context ends before the wait behind an attempt.
pub record Network : Type 0 where
  pub parse_url : Text → Option Error
  pub new_request : Text → Text → Option Error
  pub canonical : Text → Text
  pub status : ℕ → Call → Result ℕ
  pub stopped : ℕ → Bool

abbrev pub err_non_success_code : Error
err_non_success_code = new (codes "non-2xx response code")

module _ (net : Network) where
  -- The loop that sets the headers.
  unfoldable pub headers_loop : Dict Text → Dict Text → Dict Text
  headers_loop sent [] = sent
  headers_loop sent ((k, v) ∷ headers) = headers_loop (insert (net.canonical k) v sent) headers

  abbrev headers_of : Option (Dict Text) → Dict Text
  headers_of none = []
  headers_of (some headers) = headers

  unfoldable pub call_of : Task → Call
  unfolding headers_loop
  call_of task = record {
    method = task.webhook.method;
    url = task.webhook.url;
    headers = headers_loop [] (headers_of task.webhook.headers);
    payload = task.payload;
    timeout = task.webhook.timeout;
  }

  abbrev pub check_status : Result ℕ → Option Error
  check_status (err e) = some (wrap (codes "execute request: %w") [] e)
  check_status (ok code) =
      if nat_eq (code / 100) 2
      then none
      else some (wrap (codes "%w: %d") (itoa code ∷ []) err_non_success_code)

  -- `trySend`, at an attempt.
  unfoldable pub try_send : Task → ℕ → Option Error
  unfolding call_of
  try_send task attempt = elim (net.new_request task.webhook.method task.webhook.url) [
    | some e ↦ some (wrap (codes "create request: %w") [] e)
    | none ↦ check_status (net.status attempt (call_of task))
  ]

-- How a delivery ends.
pub data Ending : Type 0 where
  delivered given_up stopped invalid_url out_of_fuel : Ending

-- A delivery: the number of its attempts, its waits, and its end.
pub record Delivery : Type 0 where
  pub attempts : ℕ
  pub waits : List ℤ
  pub ending : Ending

-- The loop of `Send`, over whether each attempt fails and whether the context stops it then.
unfoldable pub send_loop : (ℕ → Option Error) → (ℕ → Bool) → ℤ → ℤ → ℕ → ℕ → List ℤ → Delivery
send_loop try stops retry timeout zero attempt waits = record {
  attempts = attempt;
  waits = waits;
  ending = out_of_fuel;
}
send_loop try stops retry timeout (suc fuel) attempt waits = elim (try attempt) [
  | none ↦ record { attempts = suc attempt; waits = waits; ending = delivered }
  | some e ↦ elim (le_counter retry attempt) [
    | true ↦ record { attempts = suc attempt; waits = waits; ending = given_up }
    | false ↦ elim (stops attempt) [
      | true ↦ record { attempts = suc attempt; waits = waits; ending = stopped }
      | false ↦ send_loop try stops retry timeout fuel (suc attempt) (waits ++ timeout ∷ [])
    ]
  ]
]

-- `(wt *webhookTask) Send`
unfoldable pub send : Network → Task → Delivery
unfolding try_send send_loop
send net task = elim (net.parse_url task.webhook.url) [
  | some e ↦ record { attempts = 0; waits = []; ending = invalid_url }
  | none ↦
      send_loop (try_send net task) net.stopped task.webhook.retry task.webhook.timeout
        (suc (pos_part task.webhook.retry)) 0 []
]

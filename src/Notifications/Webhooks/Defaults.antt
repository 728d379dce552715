-- ===== src/Notifications/Webhooks/Defaults.antt =====
-- What `Create` leaves of a webhook.
use web_form.Prelude.{Text-comparable, [], true, false, some, ◌≡◌, ◌≢◌, arith}
use web_form.Prelude.Int.{not_positive, is_zero}
use web_form.Schema.Types.{Webhook}
use web_form.Schema.Templates.{Externals, new_template, must_template}
use web_form.Notifications.Webhooks.{create_limits, create_message, create}

-- What the delivery of a webhook relies on.
abbrev pub IsComplete : Webhook → Type 0
IsComplete w =
    (not_positive w.timeout ≡ false)
    × (is_zero w.retry ≡ false)
    × (not_positive w.interval ≡ false)
    × (w.method ≢ [])
    × (w.message.valid ≡ true)

create_message-IsComplete :
    (ext : Externals) (w : Webhook) {w' : Webhook}
    → create_message ext w ≡ some w'
    → (w'.timeout ≡ w.timeout)
      × (w'.retry ≡ w.retry)
      × (w'.interval ≡ w.interval)
      × (w'.method ≡ w.method)
      × (w'.message.valid ≡ true)
unfolding create_message must_template new_template
create_message-IsComplete ext w h = ground arith

-- A webhook that Create returns has a positive timeout and interval, a retry count that is not 0, a
-- method and a message, and Create changes it no further.
pub create-IsComplete :
    (ext : Externals) (w : Webhook) {w' : Webhook}
    → create ext w ≡ some w'
    → IsComplete w' × (create ext w' ≡ some w')
unfolding create create_limits create_message must_template new_template
create-IsComplete ext w h = ground arith

-- ===== src/Notifications/Broker/Defaults.antt =====
-- What `Create` leaves of an AMQP definition.
use web_form.Prelude.{true, false, some, ◌≡◌, arith}
use web_form.Prelude.Int.{not_positive, is_zero}
use web_form.Schema.Types.{Amqp}
use web_form.Schema.Templates.{Externals, new_template, must_template}
use web_form.Notifications.Broker.{create_limits, create_message, create}

-- What the publishing of messages relies on.
abbrev pub IsComplete : Amqp → Type 0
IsComplete d =
    (not_positive d.timeout ≡ false)
    × (is_zero d.retry ≡ false)
    × (not_positive d.interval ≡ false)
    × (d.message.valid ≡ true)

-- An AMQP definition that Create returns has a positive timeout and interval, a retry count that is
-- not 0 and a message, and Create changes it no further.
pub created-IsComplete :
    (ext : Externals) (d : Amqp) {d' : Amqp}
    → create ext d ≡ some d'
    → IsComplete d' × (create ext d' ≡ some d')
unfolding create create_limits create_message must_template new_template
created-IsComplete ext d h = ground arith

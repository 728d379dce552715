-- ===== src/Program/Notifying.antt =====
-- The notifications of a form, with the factories that the program gives to its engine.
use web_form.Prelude.{
  codes, [], ◌∷◌, ◌++◌, List, Option, none, some, ◌≡◌, ◌≢◌, ◌⊎◌, refl, sym, ap, ◌∙◌, arith, map,
  All, Option-cases, inl, inr,
}
use web_form.Prelude.Dict.{Dict}
use web_form.Schema.Types.{Webhook, Amqp, Stored, NotifyContext}
use web_form.Web.Requests.{HttpRequest, a_form, new_request, set_state, with_captcha}
use web_form.Notifications.Webhooks as Webhooks
use web_form.Notifications.Webhooks.Defaults as HookDefaults
use web_form.Notifications.Webhooks.Defaults.{create-IsComplete}
use web_form.Notifications.Broker as Broker
use web_form.Notifications.Broker.Defaults as BrokerDefaults
use web_form.Notifications.Broker.Defaults.{created-IsComplete}
use web_form.Engine.Config.{
  Platform, FormConfig, Serving, Destination, to_webhook, to_broker, apply_options, create_all,
  destinations, FormOption, FormHandler, handler_of, new_form,
}
use web_form.Engine.Serve.{serve, handle_form}
use web_form.Engine.Serve.Admission.{serve_dispatches}

-- The request as `Serve` gets it from the handler.
abbrev start_of : FormConfig → HttpRequest → Serving
start_of fr http = record {
  request =
      set_state (codes "Form") (a_form fr.definition) (with_captcha fr.captcha (new_request http));
  stores = [];
  dispatched = [];
}

nil_or_not {ℓ} : {A : Type ℓ} (xs : List A) → (xs ≡ []) ⊎ (xs ≢ [])
nil_or_not [] = inl refl
nil_or_not (x ∷ xs) = inr (λ e. cc e)

-- What the loop of NewForm makes: one destination for each definition, by the factory, in order.
create_all-made {ℓ} :
    {A : Type ℓ} (make : A → Option A) (wrap : A → Destination) (ds : List A)
    {made : List Destination}
    → create_all make wrap ds ≡ some made
    → (ms : List A) × (made ≡ map wrap ms) × (map make ds ≡ map some ms)
unfolding create_all
create_all-made make wrap [] {made} h = let same : [] ≡ made = cc in ([], sym same, refl)
create_all-made make wrap (d ∷ ds) {made} h = elim (Option-cases (make d)) [
  | inl e ↦ absurd (ground (arith, h, e))
  | inr (m, e) ↦ elim (Option-cases (create_all make wrap ds)) [
    | inl e' ↦ absurd (ground (arith, h, e, e'))
    | inr (rest, e') ↦
        let (ms, wrapped, all_made) = create_all-made make wrap ds e' in
        let same : wrap m ∷ rest ≡ made = ground (arith, h, e, e') in
        (m ∷ ms, sym same ∙ ap (λ l. wrap m ∷ l) wrapped, rw e (ap (λ l. some m ∷ l) all_made))
  ]
]

All-made {ℓ} :
    {A : Type ℓ} (make : A → Option A) (P : A → Type 0)
    → ((d : A) (m : A) → make d ≡ some m → P m)
    → (ds ms : List A) → map make ds ≡ map some ms
    → All P ms
All-made make P ready ds [] e = tt
All-made make P ready [] (m ∷ ms) e = cc
All-made make P ready (d ∷ ds) (m ∷ ms) e =
    let here : make d ≡ some m = cc in
    let rest : map make ds ≡ map some ms = cc in (ready d m here, All-made make P ready ds ms rest)

module _ (p : Platform) (fr : FormConfig) where
  -- The notifications for a result, to webhooks and to brokers.
  abbrev pub notices : List Webhook → List Amqp → Dict Stored → List (Destination × NotifyContext)
  notices hooks brokers result =
      map (λ d. (d, record { form = fr.definition; result = result }))
        (map to_webhook hooks ++ map to_broker brokers)

  -- The destinations that the factories of the program make, in the order of the definitions.
  abbrev pub AreMade : List Webhook → List Amqp → Type 0
  AreMade hooks brokers =
      (map (Webhooks.create p.externals) fr.definition.webhooks ≡ map some hooks)
      × (map (Broker.create p.externals) fr.definition.amqp ≡ map some brokers)
      × All HookDefaults.IsComplete hooks
      × All BrokerDefaults.IsComplete brokers

  destinations-made :
      {ds : List Destination}
      → fr.webhooks_factory ≡ some (Webhooks.create p.externals)
      → fr.amqp_factory ≡ some (Broker.create p.externals)
      → destinations fr ≡ some ds
      → (hooks : List Webhook) × ((brokers : List Amqp) × AreMade hooks brokers
          × (ds ≡ map to_webhook hooks ++ map to_broker brokers))
  unfolding destinations
  destinations-made {ds} hooks broker h =
      elim (Option-cases
        (create_all (Webhooks.create p.externals) to_webhook fr.definition.webhooks)) [
          | inl e ↦ absurd (ground (arith, hooks, h, e))
          | inr (made, e) ↦
              elim (Option-cases
                (create_all (Broker.create p.externals) to_broker fr.definition.amqp)) [
                  | inl e' ↦ absurd (ground (arith, hooks, broker, h, e, e'))
                  | inr (made', e') ↦
                      let (ws, wrapped, each) =
                        create_all-made (Webhooks.create p.externals) to_webhook
                          fr.definition.webhooks e in
                      let (bs, wrapped', each') =
                        create_all-made (Broker.create p.externals) to_broker fr.definition.amqp
                          e' in
                      let same : made ++ made' ≡ ds = ground (arith, hooks, broker, h, e, e') in
                      let ready =
                        All-made (Webhooks.create p.externals) HookDefaults.IsComplete
                          (λ w m q. (create-IsComplete p.externals w q).0) fr.definition.webhooks ws
                          each in
                      let ready' =
                        All-made (Broker.create p.externals) BrokerDefaults.IsComplete
                          (λ d m q. (created-IsComplete p.externals d q).0) fr.definition.amqp bs
                          each' in
                      (
                        ws,
                        (bs, (each, each', ready, ready'), sym same ∙ rw (wrapped, wrapped') refl),
                      )
                ]
        ]

  -- The notifications of the form with the result of a storage without an error, or none.
  abbrev pub AreNotices : Serving → Type 0
  AreNotices t =
      (t.dispatched ≡ [])
      ⊎ ((values : Dict Stored) × (t.stores ≡ (fr.definition.table, values) ∷ [])
          × ((fr.storage fr.definition.table values).1 ≡ none)
          × ((hooks : List Webhook) × ((brokers : List Amqp) × AreMade hooks brokers
                × (t.dispatched
                    ≡ notices hooks brokers (fr.storage fr.definition.table values).0))))

  serve-AreNotices :
      (ds : List Destination) (http : HttpRequest) (hooks : List Webhook) (brokers : List Amqp)
      → AreMade hooks brokers
      → ds ≡ map to_webhook hooks ++ map to_broker brokers
      → AreNotices (serve p fr ds (start_of fr http))
  serve-AreNotices ds http hooks brokers made same =
      elim (nil_or_not (serve p fr ds (start_of fr http)).dispatched) [
        | inl e ↦ inl e
        | inr some_sent ↦
            let (values, stored, fine, sent) =
              serve_dispatches p fr ds (start_of fr http) some_sent in
            let result = (fr.storage fr.definition.table values).0 in
            inr (
              values,
              stored,
              fine,
              (
                hooks,
                (
                  brokers,
                  made,
                  sent ∙ ap (map (λ d. (d, record { form = fr.definition; result = result }))) same,
                ),
              ),
            )
      ]

handler_of-made :
    (fr : FormConfig) (o : Option (List Destination)) {h : FormHandler}
    → handler_of fr o ≡ some h
    → (h.config ≡ fr) × (o ≡ some h.made)
handler_of-made fr none e = cc
handler_of-made fr (some ds) {h} e =
    let same : record { config = fr; made = ds } ≡ h = cc in
    (ap (λ x. x.config) (sym same), ap (λ x. some x.made) same)

-- A handler that NewForm makes with the factories of the program dispatches, for a request, nothing
-- at all, or, with a row stored without an error, exactly one notification for each webhook and
-- then one for each AMQP definition of its form, in order: to what Create makes of that definition
-- (which has a positive timeout and interval, a retry count that is not 0 and a message), with the
-- form and the result of the storage.
pub handle_form-AreNotices :
    (p : Platform) (config : FormConfig) (options : List FormOption) (http : HttpRequest)
    {h : FormHandler}
    → (apply_options options config).webhooks_factory ≡ some (Webhooks.create p.externals)
    → (apply_options options config).amqp_factory ≡ some (Broker.create p.externals)
    → new_form config options ≡ some h
    → AreNotices p (apply_options options config) (handle_form p h http)
unfolding handle_form new_form
handle_form-AreNotices p config options http {h} hooks broker built =
    let (same, made) = handler_of-made (apply_options options config) _ built in
    let (ws, (bs, each, e)) =
      destinations-made p (apply_options options config) hooks broker made in
    rw (← same) (serve-AreNotices p h.config h.made http ws bs (rw same each) e)

-- ===== src/Notifications/Broker/Workers.antt =====
-- The connections of a worker, and the end of its messages.
use mathlib.Core.Path.{subst}
use web_form.Notifications.Webhooks.Retries.{repeat}
use web_form.Prelude.{
  [], ◌∷◌, ◌++◌, Bool, List, Option, none, some, Error, Result, ok, err, ℕ, zero, suc, ◌+◌, ◌<◌,
  ◌≤◌, ◌≡◌, ◌≢◌, refl, sym, arith, ◌∙◌, Option-cases, Bool-cases, Result-cases, inl, inr, ap,
  append-nil, ◌⊎◌,
}
use web_form.Prelude.Int.{le_counter, pos_part, counter_less}
use web_form.Notifications.Broker.{Task}
use web_form.Notifications.Broker.Connections.{
  Worker, Broker, close, get_connection, allocate, get_channel, try_send_task, published, given_up,
  stopped, Sending, send_loop, send_task, new_worker, Received, run_loop, run, publish_on,
}

-- The connection that a worker still holds.
abbrev pub held : Option ℕ → List ℕ
held none = []
held (some c) = c ∷ []

-- A worker that has closed every connection that it has dialed but the one that it holds, and has a
-- channel only on a connection.
pub record IsSound (w : Worker) : Type 0 where
  pub accounted : w.dialed ≡ w.closed ++ held w.connection
  pub based : (w.channel ≡ none) ⊎ (w.connection ≢ none)

closed_by :
    (o : Option ℕ) (dialed closed : List ℕ)
    → dialed ≡ closed ++ held o
    → dialed ≡ (elim o [ none ↦ closed | some c ↦ closed ++ c ∷ [] ]) ++ []
closed_by none dialed closed h = h
closed_by (some c) dialed closed h = h ∙ sym (append-nil _)

pub close-IsSound : (w : Worker) → IsSound w → IsSound (close w)
unfolding close
close-IsSound w s = record {
  accounted = closed_by w.connection w.dialed w.closed s.accounted;
  based = inl refl;
}

get_connection-IsSound :
    (b : Broker) (w : Worker)
    → IsSound w
    → IsSound (get_connection b w).1
      × (((get_connection b w).1.connection ≢ none)
          ⊎ ((e : Error) × ((get_connection b w).0 ≡ err e)))
unfolding get_connection
get_connection-IsSound b w s = elim (Option-cases w.connection) [
  | inr (c, q) ↦ rw (q, get_connection) (s, inl λ n. cc (q, n))
  | inl q ↦ elim (Result-cases b.dial) [
    | inr (e, d) ↦ rw (q, d, get_connection) (s, inr (_, refl))
    | inl (c, d) ↦
        rw (q, d, get_connection)
          (
            record {
              accounted = ap (λ l. l ++ c ∷ []) (s.accounted ∙ rw (q, append-nil));
              based = inr λ n. cc n;
            },
            inl λ n. cc n,
          )
  ]
]

allocate-IsSound :
    (b : Broker) (x : Result ℕ × Worker)
    → IsSound x.1
    → (x.1.connection ≢ none) ⊎ ((e : Error) × (x.0 ≡ err e))
    → IsSound (allocate b x).1
unfolding allocate
allocate-IsSound b (err e, w) s h = s
allocate-IsSound b (ok c, w) s (inr (e, q)) = cc q
allocate-IsSound b (ok c, w) s (inl h) = elim (Result-cases (b.open_channel c)) [
  | inr (e, q) ↦ rw (q, allocate) (close-IsSound w s)
  | inl (ch, q) ↦ rw (q, allocate) (record { accounted = s.accounted; based = inr h })
]

get_channel-IsSound : (b : Broker) (w : Worker) → IsSound w → IsSound (get_channel b w).1
unfolding get_channel
get_channel-IsSound b w s = elim (Option-cases w.channel) [
  | inr (ch, q) ↦ rw (q, get_channel) s
  | inl q ↦
      let (sound, h) = get_connection-IsSound b w s in
      rw (q, get_channel) (allocate-IsSound b (get_connection b w) sound h)
]

publish_on-IsSound :
    (b : Broker) (t : Task) (x : Result ℕ × Worker) → IsSound x.1 → IsSound (publish_on b t x).1
publish_on-IsSound b t (err e, w) s = s
publish_on-IsSound b t (ok ch, w) s = s

try_send_task-IsSound :
    (b : Broker) (t : Task) (w : Worker) → IsSound w → IsSound (try_send_task b t w).1
unfolding try_send_task
try_send_task-IsSound b t w s = publish_on-IsSound b t (get_channel b w) (get_channel-IsSound b w s)

-- A message that is not published leaves the worker without a connection.
abbrev pub IsReset : Worker → Type 0
IsReset w = (w.connection ≡ none) × (w.channel ≡ none)

-- The worker at an attempt that follows failed ones: each of them is tried, and its worker closed.
abbrev pub worker_at : (ℕ → Broker) → Task → Worker → ℕ → Worker
worker_at broker t w zero = w
worker_at broker t w (suc k) = close (try_send_task (broker k) t (worker_at broker t w k)).1

-- What the broker answers to an attempt that follows failed ones.
abbrev pub failure_at : (ℕ → Broker) → Task → Worker → ℕ → Option Error
failure_at broker t w k = (try_send_task (broker k) t (worker_at broker t w k)).0

-- A message that is tried until it is published, given up or stopped: every attempt but the last
-- fails; the last one succeeds and keeps its connection, or fails and leaves the worker reset.
pub record IsSent (broker : ℕ → Broker) (t : Task) (w : Worker) (s : Sending) : Type 0 where
  pub last : ℕ
  pub counted : s.attempts ≡ suc last
  pub within : last ≤ pos_part t.definition.retry
  pub waited : s.waits ≡ repeat last t.definition.timeout
  pub earlier : (j : ℕ) → j < last → failure_at broker t w j ≢ none
  pub ended :
      ((s.ending ≡ published)
        × (failure_at broker t w last ≡ none)
        × (s.worker ≡ (try_send_task (broker last) t (worker_at broker t w last)).1))
      ⊎ (((s.ending ≡ given_up) ⊎ (s.ending ≡ stopped))
          × (failure_at broker t w last ≢ none)
          × (s.worker ≡ worker_at broker t w (suc last)))

repeat-snoc {ℓ} : {A : Type ℓ} (n : ℕ) (a : A) → repeat n a ++ a ∷ [] ≡ repeat (suc n) a
repeat-snoc zero a = refl
repeat-snoc (suc n) a = ap (λ l. a ∷ l) (repeat-snoc n a)

less-suc : (j k : ℕ) → j < suc k → (j < k) ⊎ (j ≡ k)
less-suc zero zero h = inr refl
less-suc zero (suc k) h = inl (omega arith)
less-suc (suc j) zero h = absurd (omega (arith, h))
less-suc (suc j) (suc k) h = elim (less-suc j k (omega (arith, h))) [
  | inl less ↦ inl (omega (arith, less))
  | inr same ↦ inr (ap suc same)
]

module _ (broker : ℕ → Broker) (stops : ℕ → Bool) (t : Task) (w : Worker) where
  fails_to :
      (k : ℕ)
      → failure_at broker t w k ≢ none
      → ((j : ℕ) → j < k → failure_at broker t w j ≢ none)
      → (j : ℕ) → j < suc k
      → failure_at broker t w j ≢ none
  fails_to k failed before j less = elim (less-suc j k less) [
    | inl earlier' ↦ before j earlier'
    | inr same ↦ rw same failed
  ]

  send_loop-IsSent :
      (fuel attempt : ℕ)
      → pos_part t.definition.retry < attempt + fuel
      → attempt ≤ pos_part t.definition.retry
      → ((j : ℕ) → j < attempt → failure_at broker t w j ≢ none)
      → IsSent broker t w (
          send_loop broker stops t fuel attempt
            (repeat attempt t.definition.timeout)
            (worker_at broker t w attempt))
  unfolding send_loop
  send_loop-IsSent zero attempt h k before = absurd (omega arith)
  send_loop-IsSent (suc fuel) attempt h k before =
      elim (Option-cases (failure_at broker t w attempt)) [
        | inl q ↦
            rw (q, send_loop)
              (record {
                last = attempt;
                counted = refl;
                within = k;
                waited = refl;
                earlier = before;
                ended = inl (refl, q, refl);
              })
        | inr (e, q) ↦
            let failed : failure_at broker t w attempt ≢ none = λ r. cc (q, r) in
            elim (Bool-cases (le_counter t.definition.retry attempt)) [
              | inl last ↦
                  rw (q, last, send_loop)
                    (record {
                      last = attempt;
                      counted = refl;
                      within = k;
                      waited = refl;
                      earlier = before;
                      ended = inr (inl refl, failed, refl);
                    })
              | inr more ↦ elim (Bool-cases (stops attempt)) [
                | inl stop ↦
                    rw (q, more, stop, send_loop)
                      (record {
                        last = attempt;
                        counted = refl;
                        within = k;
                        waited = refl;
                        earlier = before;
                        ended = inr (inr refl, failed, refl);
                      })
                | inr go ↦
                    rw (q, more, go, send_loop, repeat-snoc attempt t.definition.timeout)
                      (send_loop-IsSent fuel (suc attempt) (omega arith)
                        (counter_less t.definition.retry attempt more)
                        (fails_to attempt failed before))
              ]
            ]
      ]

  -- A message is tried at least once and at most once more than it has retries, with a wait of its
  -- timeout between two attempts; every attempt but the last fails, and its worker is closed; the
  -- message is published exactly if the broker takes the last attempt, whose worker is kept, and is
  -- else given up or stopped by the context, with the worker closed. The fuel is enough.
  pub send_task-IsSent : IsSent broker t w (send_task broker stops t w)
  unfolding send_task
  send_task-IsSent =
      send_loop-IsSent (suc (pos_part t.definition.retry)) 0 (omega arith) (omega arith)
        (λ j less. absurd (omega (arith, less)))

  worker_at-IsSound : IsSound w → (k : ℕ) → IsSound (worker_at broker t w k)
  worker_at-IsSound s zero = s
  worker_at-IsSound s (suc k) =
      close-IsSound _ (try_send_task-IsSound (broker k) t _ (worker_at-IsSound s k))

  -- A sound worker is sound after a message.
  pub send_task-IsSound : IsSound w → IsSound (send_task broker stops t w).worker
  send_task-IsSound s =
      let sent = send_task-IsSent in
      elim sent.ended [
        | inl (_, _, e) ↦
            subst IsSound (sym e)
              (try_send_task-IsSound (broker sent.last) t _ (worker_at-IsSound s sent.last))
        | inr (_, _, e) ↦ subst IsSound (sym e) (worker_at-IsSound s (suc sent.last))
      ]

run_loop-IsSound : (rs : List Received) (w : Worker) → IsSound w → IsSound (run_loop rs w)
unfolding run_loop
run_loop-IsSound [] w s = s
run_loop-IsSound (r ∷ rs) w s =
    run_loop-IsSound rs (send_task r.broker r.stops r.task w).worker
      (send_task-IsSound r.broker r.stops r.task w s)

-- Whatever messages a worker publishes, and whatever fails, it has closed every connection that it
-- dialed, in order, and holds neither a connection nor a channel, when Run returns.
pub run-closed : (rs : List Received) → ((run rs).dialed ≡ (run rs).closed) × IsReset (run rs)
unfolding run close
run-closed rs =
    let sound = run_loop-IsSound rs new_worker (record { accounted = refl; based = inl refl }) in
    ((close-IsSound (run_loop rs new_worker) sound).accounted ∙ append-nil _, (refl, refl))

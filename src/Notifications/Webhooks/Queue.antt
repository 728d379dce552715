-- ===== src/Notifications/Webhooks/Queue.antt =====
-- internal/notifications/webhook/webhooks.go: the channel between `enqueue` and `Run`, side by side.
-- A call of `enqueue` by a handler is a step, with what its `select` does; so is each task that `Run`
-- receives, with the delivery of the goroutine that it starts.
use web_form.Prelude.{
  [], ◌∷◌, ◌++◌, List, Option, none, some, Error, ℕ, ◌<◌, ◌≤◌, ◌≡◌, refl, sym, ap, arith, ◌∙◌,
  length, length-append, append_assoc, append-nil, map, All, All-append,
}
use web_form.Notifications.Webhooks.{Task, Choice, sends, done, enqueue, Network, Delivery, send}

-- A call of `enqueue` with what it returned, and a task with its delivery.
abbrev pub Answered : Type 0
Answered = Task × Option Error

abbrev pub Sent : Type 0
Sent = Task × Delivery

pub record Dispatcher : Type 0 where
  pub buffer : ℕ
  pub tasks : List Task
  pub answers : List Answered
  pub deliveries : List Sent

-- `New`
unfoldable pub new_dispatcher : ℕ → Dispatcher
new_dispatcher buffer = record { buffer = buffer; tasks = []; answers = []; deliveries = [] }

-- What a call of `enqueue` does to the channel, and what it returns.
unfoldable pub enqueued : Choice → Task → Dispatcher → Dispatcher
unfolding enqueue
enqueued choice t d =
    let (tasks, e) = enqueue choice t d.tasks in
    record d { tasks = tasks; answers = d.answers ++ (t, e) ∷ [] }

abbrev pub received_of : Network → Dispatcher → List Task → Dispatcher
received_of net d [] = d
received_of net d (t ∷ ts) = record d {
  tasks = ts;
  deliveries = d.deliveries ++ (t, send net t) ∷ [];
}

-- What `Run` does when its channel has a task: it takes the first one, whose delivery it starts.
abbrev pub received : Network → Dispatcher → Dispatcher
received net d = received_of net d d.tasks

-- A handler calls `enqueue` when the channel has room, or sees its context end; `Run` receives; or a
-- task goes from a handler to the waiting `Run` through the empty channel.
pub data Step : Dispatcher → Dispatcher → Type 0 where
  calls : {d : Dispatcher} (t : Task) → length d.tasks < d.buffer → Step d (enqueued sends t d)
  leaves : {d : Dispatcher} (t : Task) (e : Error) → Step d (enqueued (done e) t d)
  receives : {d : Dispatcher} (net : Network) → Step d (received net d)
  hands :
      {d : Dispatcher} (t : Task) (net : Network)
      → d.tasks ≡ []
      → Step d (received net (enqueued sends t d))

-- The states that a dispatcher may come to.
pub data Reached (buffer : ℕ) : Dispatcher → Type 0 where
  new_one : Reached buffer (new_dispatcher buffer)
  later : {d e : Dispatcher} → Reached buffer d → Step d e → Reached buffer e

-- The tasks for which `enqueue` returned no error.
abbrev pub accepted : List Answered → List Task
accepted [] = []
accepted ((t, none) ∷ rest) = t ∷ accepted rest
accepted ((t, some e) ∷ rest) = accepted rest

abbrev pub delivered_tasks : List Sent → List Task
delivered_tasks deliveries = map (λ s. s.0) deliveries

-- A delivery is what Send does with the task, on some network.
abbrev pub IsSend : Sent → Type 0
IsSend (t, x) = (net : Network) × (x ≡ send net t)

-- No accepted task is lost, doubled or overtaken, and every delivery is one of Send.
pub record IsKept (d : Dispatcher) : Type 0 where
  pub in_order : accepted d.answers ≡ delivered_tasks d.deliveries ++ d.tasks
  pub sent : All IsSend d.deliveries

pub record IsOrdered (d : Dispatcher) : Type 0 where
  pub kept : IsKept d
  pub bounded : length d.tasks ≤ d.buffer

accepted-append : (xs ys : List Answered) → accepted (xs ++ ys) ≡ accepted xs ++ accepted ys
accepted-append [] ys = refl
accepted-append ((t, none) ∷ xs) ys = ap (λ l. t ∷ l) (accepted-append xs ys)
accepted-append ((t, some e) ∷ xs) ys = accepted-append xs ys

delivered_tasks-snoc :
    (xs : List Sent) (s : Sent) → delivered_tasks (xs ++ s ∷ []) ≡ delivered_tasks xs ++ s.0 ∷ []
delivered_tasks-snoc [] s = refl
delivered_tasks-snoc (x ∷ xs) s = ap (λ l. x.0 ∷ l) (delivered_tasks-snoc xs s)

enqueued-IsKept :
    (choice : Choice) (t : Task) (d : Dispatcher) → IsKept d → IsKept (enqueued choice t d)
unfolding enqueued enqueue
enqueued-IsKept sends t d k = record {
  in_order =
      accepted-append d.answers ((t, none) ∷ [])
      ∙ ap (λ l. l ++ t ∷ []) k.in_order
      ∙ append_assoc (delivered_tasks d.deliveries) d.tasks (t ∷ []);
  sent = k.sent;
}
enqueued-IsKept (done e) t d k = record {
  in_order =
      accepted-append d.answers ((t, some e) ∷ []) ∙ append-nil (accepted d.answers) ∙ k.in_order;
  sent = k.sent;
}

received_of-IsKept :
    (net : Network) (d : Dispatcher) (ts : List Task)
    → d.tasks ≡ ts
    → IsKept d
    → IsKept (received_of net d ts)
received_of-IsKept net d [] e k = k
received_of-IsKept net d (t ∷ ts) e k = record {
  in_order =
      k.in_order
      ∙ ap (λ l. delivered_tasks d.deliveries ++ l) e
      ∙ sym (append_assoc (delivered_tasks d.deliveries) (t ∷ []) ts)
      ∙ ap (λ l. l ++ ts) (sym (delivered_tasks-snoc d.deliveries (t, send net t)));
  sent = All-append IsSend d.deliveries ((t, send net t) ∷ []) k.sent ((net, refl), tt);
}

received_of-length :
    (net : Network) (d : Dispatcher) (ts : List Task)
    → d.tasks ≡ ts
    → length (received_of net d ts).tasks ≤ length d.tasks
received_of-length net d [] e = omega arith
received_of-length net d (t ∷ ts) e = omega (arith, ap length e)

received_of-buffer :
    (net : Network) (d : Dispatcher) (ts : List Task) → (received_of net d ts).buffer ≡ d.buffer
received_of-buffer net d [] = refl
received_of-buffer net d (t ∷ ts) = refl

handed_over :
    (net : Network) (d : Dispatcher) (t : Task)
    → d.tasks ≡ []
    → (received net (enqueued sends t d)).tasks ≡ []
unfolding enqueued enqueue
handed_over net d t e = ap (λ l. (received_of net (enqueued sends t d) (l ++ t ∷ [])).tasks) e

Step-IsOrdered : {d e : Dispatcher} → Step d e → IsOrdered d → IsOrdered e
unfolding enqueued enqueue
Step-IsOrdered (calls {d} t room) o = record {
  kept = enqueued-IsKept sends t d o.kept;
  bounded = omega (arith, room, length-append d.tasks (t ∷ []));
}
Step-IsOrdered (leaves {d} t e) o = record {
  kept = enqueued-IsKept (done e) t d o.kept;
  bounded = o.bounded;
}
Step-IsOrdered (receives {d} net) o = record {
  kept = received_of-IsKept net d d.tasks refl o.kept;
  bounded =
      rw (received_of-buffer net d d.tasks)
        (omega (arith, received_of-length net d d.tasks refl, o.bounded));
}
Step-IsOrdered (hands {d} t net e) o = record {
  kept = received_of-IsKept net (enqueued sends t d) _ refl (enqueued-IsKept sends t d o.kept);
  bounded =
      rw (handed_over net d t e, received_of-buffer net (enqueued sends t d) (d.tasks ++ t ∷ []))
        (omega arith);
}

-- In every state that the dispatcher of webhooks may come to, by any sequence of calls of enqueue
-- and of steps of Run, the tasks for which enqueue returned no error are those that Run has started
-- a delivery for, in the same order and each once, followed by those that wait in the channel;
-- every delivery is what Send does with its task; and no more tasks wait than the buffer holds.
pub Reached-IsOrdered : {buffer : ℕ} {d : Dispatcher} → Reached buffer d → IsOrdered d
unfolding new_dispatcher
Reached-IsOrdered new_one = record {
  kept = record { in_order = refl; sent = tt };
  bounded = omega arith;
}
Reached-IsOrdered (later r s) = Step-IsOrdered s (Reached-IsOrdered r)

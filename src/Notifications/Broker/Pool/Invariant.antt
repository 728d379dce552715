-- ===== src/Notifications/Broker/Pool/Invariant.antt =====
-- What holds in every state of the publishers and their channel.
use mathlib.Core.Path.{subst}
use web_form.Prelude.{
  [], ◌∷◌, ◌++◌, List, ℕ, zero, suc, ◌+◌, ◌≤◌, ◌≡◌, refl, sym, ap, arith, ◌∙◌, inl, length,
  length-append, append_assoc, append-nil, All,
}
use web_form.Notifications.Broker.Connections.{Worker, send_task, close, new_worker}
use web_form.Notifications.Broker.Workers.{IsSound, IsReset, send_task-IsSound, close-IsSound}
use web_form.Notifications.Broker.Pool.{
  Stage, waiting, sending, returned, Pool, repeat, new_pool, Step, accepts, receives, hands,
  finishes, returns, Reached, new_one, later,
}

-- A worker that waits or sends is sound; one that has returned has closed what it dialed.
abbrev pub IsStageSound : Stage → Type 0
IsStageSound (waiting w) = IsSound w
IsStageSound (sending w t) = IsSound w
IsStageSound (returned w) = (w.dialed ≡ w.closed) × IsReset w

-- The messages that workers are at.
abbrev pub in_flight : List Stage → ℕ
in_flight [] = 0
in_flight (waiting w ∷ ws) = in_flight ws
in_flight (sending w t ∷ ws) = suc (in_flight ws)
in_flight (returned w ∷ ws) = in_flight ws

pub record IsCoherent (workers : ℕ) (s : Pool) : Type 0 where
  pub in_order : s.accepted ≡ s.taken ++ s.tasks
  pub bounded : length s.tasks ≤ s.buffer
  pub in_work : length s.taken ≡ length s.finished + in_flight s.workers
  pub sound : All IsStageSound s.workers
  pub present : length s.workers ≡ workers

in_flight-append : (ws vs : List Stage) → in_flight (ws ++ vs) ≡ in_flight ws + in_flight vs
in_flight-append [] vs = omega arith
in_flight-append (waiting w ∷ ws) vs = in_flight-append ws vs
in_flight-append (sending w t ∷ ws) vs = omega (arith, in_flight-append ws vs)
in_flight-append (returned w ∷ ws) vs = in_flight-append ws vs

-- One worker goes to another stage.
All-replace :
    (before after : List Stage) (a b : Stage)
    → All IsStageSound (before ++ a ∷ after)
    → (IsStageSound a → IsStageSound b)
    → All IsStageSound (before ++ b ∷ after)
All-replace [] after a b (p, h) f = (f p, h)
All-replace (c ∷ before) after a b (p, h) f = (p, All-replace before after a b h f)

length-replace :
    (before after : List Stage) (a b : Stage)
    → length (before ++ b ∷ after) ≡ length (before ++ a ∷ after)
length-replace [] after a b = refl
length-replace (c ∷ before) after a b = ap suc (length-replace before after a b)

close-returned : (w : Worker) → IsSound w → IsStageSound (returned (close w))
unfolding close
close-returned w s = ((close-IsSound w s).accounted ∙ append-nil _, (refl, refl))

in_flight-replace :
    (before after : List Stage) (a b : Stage)
    → in_flight (before ++ b ∷ after) + in_flight (a ∷ [])
      ≡ in_flight (before ++ a ∷ after) + in_flight (b ∷ [])
in_flight-replace before after a b = omega (
  arith,
  in_flight-append before (a ∷ after),
  in_flight-append before (b ∷ after),
  in_flight-append (a ∷ []) after,
  in_flight-append (b ∷ []) after,
)

-- What a change of one worker leaves of the invariant.
record IsReplaced (ws vs : List Stage) (a b : Stage) : Type 0 where
  sound : All IsStageSound vs
  present : length vs ≡ length ws
  in_work : in_flight vs + in_flight (a ∷ []) ≡ in_flight ws + in_flight (b ∷ [])

replaced :
    (ws before after : List Stage) (a b : Stage)
    → ws ≡ before ++ a ∷ after
    → All IsStageSound ws
    → (IsStageSound a → IsStageSound b)
    → IsReplaced ws (before ++ b ∷ after) a b
replaced ws before after a b at h f = record {
  sound = All-replace before after a b (subst (All IsStageSound) at h) f;
  present = length-replace before after a b ∙ ap length (sym at);
  in_work =
      in_flight-replace before after a b ∙ ap (λ l. in_flight l + in_flight (b ∷ [])) (sym at);
}

Step-IsCoherent : {n : ℕ} {s t : Pool} → Step s t → IsCoherent n s → IsCoherent n t
Step-IsCoherent (accepts {s} t room) c = record {
  in_order = ap (λ l. l ++ t ∷ []) c.in_order ∙ append_assoc s.taken s.tasks (t ∷ []);
  bounded = omega (arith, room, length-append s.tasks (t ∷ []));
  in_work = c.in_work;
  sound = c.sound;
  present = c.present;
}
Step-IsCoherent (receives {s} t ts before after w e at) c =
    let r = replaced s.workers before after (waiting w) (sending w t) at c.sound (λ h. h) in
    record {
      in_order = c.in_order ∙ ap (λ l. s.taken ++ l) e ∙ sym (append_assoc s.taken (t ∷ []) ts);
      bounded = omega (arith, c.bounded, ap length e);
      in_work = omega (arith, c.in_work, r.in_work, length-append s.taken (t ∷ []));
      sound = r.sound;
      present = r.present ∙ c.present;
    }
Step-IsCoherent (hands {s} t before after w e at) c =
    let r = replaced s.workers before after (waiting w) (sending w t) at c.sound (λ h. h) in
    record {
      in_order = rw (e, append-nil) (ap (λ l. l ++ t ∷ []) (c.in_order ∙ rw (e, append-nil) refl));
      bounded = c.bounded;
      in_work = omega (arith, c.in_work, r.in_work, length-append s.taken (t ∷ []));
      sound = r.sound;
      present = r.present ∙ c.present;
    }
Step-IsCoherent (finishes {s} t before after w broker stops at) c =
    let r =
      replaced s.workers before after (sending w t) (waiting (send_task broker stops t w).worker) at
        c.sound (send_task-IsSound broker stops t w) in
    record {
      in_order = c.in_order;
      bounded = c.bounded;
      in_work = omega (arith, c.in_work, r.in_work, length-append s.finished (t ∷ []));
      sound = r.sound;
      present = r.present ∙ c.present;
    }
Step-IsCoherent (returns {s} before after w at) c =
    let r =
      replaced s.workers before after (waiting w) (returned (close w)) at c.sound
        (close-returned w) in
    record {
      in_order = c.in_order;
      bounded = c.bounded;
      in_work = omega (arith, c.in_work, r.in_work);
      sound = r.sound;
      present = r.present ∙ c.present;
    }

new_pool_sound : (n : ℕ) → All IsStageSound (repeat n (waiting new_worker))
new_pool_sound zero = tt
new_pool_sound (suc n) = (record { accounted = refl; based = inl refl }, new_pool_sound n)

new_pool-in_flight : (n : ℕ) → in_flight (repeat n (waiting new_worker)) ≡ 0
new_pool-in_flight zero = refl
new_pool-in_flight (suc n) = new_pool-in_flight n

length-repeat {ℓ} : {A : Type ℓ} (n : ℕ) (a : A) → length (repeat n a) ≡ n
length-repeat zero a = refl
length-repeat (suc n) a = ap suc (length-repeat n a)

-- In every state that the publishers of AMQP and their channel may come to, by any interleaving of
-- the handlers and of the workers that run started: the messages accepted are those taken, in the
-- same order, followed by those that wait, and no more wait than the buffer holds; of the messages
-- taken as many are finished as are not at a worker; every worker is there, is sound while it runs,
-- and has closed every connection that it dialed when it has returned.
pub Reached-IsCoherent :
    {buffer workers : ℕ} {s : Pool} → Reached buffer workers s → IsCoherent workers s
unfolding new_pool
Reached-IsCoherent {workers = workers} new_one = record {
  in_order = refl;
  bounded = omega arith;
  in_work = omega (arith, new_pool-in_flight workers);
  sound = new_pool_sound workers;
  present = length-repeat workers (waiting new_worker);
}
Reached-IsCoherent (later r s) = Step-IsCoherent s (Reached-IsCoherent r)

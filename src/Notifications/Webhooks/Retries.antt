-- ===== src/Notifications/Webhooks/Retries.antt =====
-- The attempts to deliver a webhook.
use web_form.Prelude.{
  [], ◌∷◌, ◌++◌, Bool, false, List, Option, none, Error, ℕ, zero, suc, ◌+◌, ◌<◌, ◌≤◌, ◌≡◌, ◌≢◌,
  refl, sym, arith, ◌∙◌, Option-cases, Bool-cases, inl, inr, ap, append_assoc, append-nil, ◌⊎◌,
}
use web_form.Prelude.Int.{ℤ, le_counter, pos_part, counter_less, counter_more}
use web_form.Notifications.Webhooks.{
  Task, Network, Ending, delivered, given_up, stopped, Delivery, try_send, send_loop, send,
}

abbrev pub repeat {ℓ} : {A : Type ℓ} → ℕ → A → List A
repeat zero a = []
repeat (suc n) a = a ∷ repeat n a

plus_zero : (n : ℕ) → n + 0 ≡ n
plus_zero n = omega arith

zero_plus : (n : ℕ) → 0 + n ≡ n
zero_plus n = omega arith

module _ (try : ℕ → Option Error) (stops : ℕ → Bool) (retry timeout : ℤ) where
  -- A delivery from an attempt on: its waits, one before each further attempt, are as long as the
  -- timeout; it stays within the retries; every attempt but the last fails, and the last says how it
  -- ends.
  pub record Bounded (start : ℕ) (waits : List ℤ) (d : Delivery) : Type 0 where
    pub further : ℕ
    pub counted : d.attempts ≡ suc (start + further)
    pub waited : d.waits ≡ waits ++ repeat further timeout
    pub within : start + further ≤ pos_part retry
    pub earlier : (j : ℕ) → j < further → try (start + j) ≢ none
    pub ended :
        ((d.ending ≡ delivered) × (try (start + further) ≡ none))
        ⊎ (((d.ending ≡ given_up) ⊎ (d.ending ≡ stopped)) × (try (start + further) ≢ none))

  -- A delivery that ends with its first attempt.
  single :
      (start : ℕ) (waits : List ℤ) (end : Ending)
      → start ≤ pos_part retry
      → ((end ≡ delivered) × (try start ≡ none))
        ⊎ (((end ≡ given_up) ⊎ (end ≡ stopped)) × (try start ≢ none))
      → Bounded start waits (record { attempts = suc start; waits = waits; ending = end })
  single start waits end k h = record {
    further = 0;
    counted = omega arith;
    waited = sym (append-nil waits);
    within = omega arith;
    earlier = λ j less. absurd (omega (arith, less));
    ended = rw (plus_zero start) h;
  }

  fails_before :
      (start further : ℕ)
      → try start ≢ none
      → ((j : ℕ) → j < further → try (suc start + j) ≢ none)
      → (j : ℕ) → j < suc further
      → try (start + j) ≢ none
  fails_before start further failed later zero less = rw (plus_zero start) failed
  fails_before start further failed later (suc j) less =
      let e : suc start + j ≡ start + suc j = omega arith in
      rw (← e) (later j (omega (arith, less)))

  -- A failed attempt in front of a delivery.
  longer :
      (start : ℕ) (waits : List ℤ) (d : Delivery)
      → try start ≢ none
      → Bounded (suc start) (waits ++ timeout ∷ []) d
      → Bounded start waits d
  longer start waits d failed b =
      let e : suc start + b.further ≡ start + suc b.further = omega arith in
      record {
        further = suc b.further;
        counted = b.counted ∙ omega arith;
        waited = b.waited ∙ append_assoc waits (timeout ∷ []) (repeat b.further timeout);
        within = rw (← e) b.within;
        earlier = fails_before start b.further failed b.earlier;
        ended = rw (← e) b.ended;
      }

  send_loop-Bounded :
      (fuel start : ℕ) (waits : List ℤ)
      → pos_part retry < start + fuel
      → start ≤ pos_part retry
      → Bounded start waits (send_loop try stops retry timeout fuel start waits)
  unfolding send_loop
  send_loop-Bounded zero start waits h k = absurd (omega arith)
  send_loop-Bounded (suc fuel) start waits h k = elim (Option-cases (try start)) [
    | inl q ↦ rw (q, send_loop) (single start waits delivered k (inl (refl, q)))
    | inr (e, q) ↦
        let failed : try start ≢ none = λ r. cc (q, r) in
        elim (Bool-cases (le_counter retry start)) [
          | inl last ↦
              rw (q, last, send_loop) (single start waits given_up k (inr (inl refl, failed)))
          | inr more ↦ elim (Bool-cases (stops start)) [
            | inl stop ↦
                rw (q, more, stop, send_loop)
                  (single start waits stopped k (inr (inr refl, failed)))
            | inr go ↦
                rw (q, more, go, send_loop)
                  (longer start waits _ failed (
                    send_loop-Bounded fuel (suc start) (waits ++ timeout ∷ []) (omega arith)
                      (counter_less retry start more)))
          ]
        ]
  ]

-- A valid webhook is tried at least once and at most once more than it has retries; it is waited
-- for its timeout between two attempts, and for nothing else; every attempt but the last fails, and
-- the delivery is delivered if the last one succeeds, or else given up or stopped by the context;
-- the fuel is enough.
pub send-Bounded :
    (net : Network) (task : Task)
    → net.parse_url task.webhook.url ≡ none
    → Bounded
        (try_send net task)
        net.stopped
        task.webhook.retry
        task.webhook.timeout
        0
        []
        (send net task)
unfolding send
send-Bounded net task h =
    rw (h, send)
      (send_loop-Bounded (try_send net task) net.stopped task.webhook.retry task.webhook.timeout
        (suc (pos_part task.webhook.retry)) 0 [] (omega arith) (omega arith))

-- The attempt at which a delivery succeeds.
send_loop-delivered :
    (try : ℕ → Option Error) (stops : ℕ → Bool) (retry timeout : ℤ) (k fuel start : ℕ)
    (waits : List ℤ)
    → k < fuel
    → start + k ≤ pos_part retry
    → try (start + k) ≡ none
    → ((j : ℕ) → j < start + k → stops j ≡ false)
    → (send_loop try stops retry timeout fuel start waits).ending ≡ delivered
unfolding send_loop
send_loop-delivered try stops retry timeout k zero start waits h b q s = absurd (omega arith)
send_loop-delivered try stops retry timeout zero (suc fuel) start waits h b q s =
    rw (ap try (sym (plus_zero start)) ∙ q, send_loop) refl
send_loop-delivered try stops retry timeout (suc k) (suc fuel) start waits h b q s =
    let e : suc start + k ≡ start + suc k = omega arith in
    elim (Option-cases (try start)) [
      | inl done ↦ rw (done, send_loop) refl
      | inr (x, failed) ↦
          rw (failed, counter_more retry start (omega arith), s start (omega arith), send_loop)
            (send_loop-delivered try stops retry timeout k fuel (suc start) (waits ++ timeout ∷ [])
              (omega arith) (omega arith) (rw e q) (λ j less. s j (omega arith)))
    ]

-- A webhook for which some attempt within its retries succeeds is delivered, unless the context
-- ends before.
pub send_delivers :
    (net : Network) (task : Task) (k : ℕ)
    → net.parse_url task.webhook.url ≡ none
    → k ≤ pos_part task.webhook.retry
    → try_send net task k ≡ none
    → ((j : ℕ) → j < k → net.stopped j ≡ false)
    → (send net task).ending ≡ delivered
unfolding send
send_delivers net task k u h q s =
    rw (u, send)
      (send_loop-delivered (try_send net task) net.stopped task.webhook.retry task.webhook.timeout k
        (suc (pos_part task.webhook.retry)) 0 [] (omega arith) (omega arith) (rw (zero_plus k) q)
        (rw (zero_plus k) s))

-- ===== src/Gateway/Hub/Running.antt =====
-- services/api-gateway/internal/websocket/hub.go: the loops of `Run` and `BroadcastToUser`, which run at the same time. The broadcast
-- and each `BroadcastToUser` hold the lock for reading only, so their turns interleave; registering and unregistering hold
-- it for writing and wait until no loop goes on. A turn of a loop visits one of the clients that the map had
-- when the loop began.
use dantegpu_core.Prelude.{
  ℕ, zero, suc, String, List, [], ◌∷◌, ◌++◌, Option, none, some, Bool, true, false, if◌then◌else◌,
  ltb, length, Params, Json, Fields, Items,
}
use dantegpu_core.Gateway.Hub.{
  Message, Clients, Hub, Stepped, went, panicked, blocked, new_hub, register, unregister,
  send_or_drop, send_or_skip,
}

-- A `BroadcastToUser` that goes on, with the clients that it has still to visit.
pub record Sending (P : Type 0) : Type 0 where
  pub user_id : String
  pub message : Message
  pub left : List P

-- The hub with the channel `broadcast`, the broadcast that `Run` is at, and the sends that go on.
pub record Running (P : Type 0) : Type 0 where
  pub hub : Hub P
  pub queued : List Message
  pub broadcasting : Option (Message × List P)
  pub sending : List (Sending P)

unfoldable pub started : {P : Type 0} → Running P
started = record { hub = new_hub; queued = []; broadcasting = none; sending = [] }

module _ {P : Type 0} where
  -- Whether some loop holds the lock for reading.
  unfoldable pub is_read : Running P → Bool
  is_read r = elim r.broadcasting [
    | some b ↦ true
    | none ↦ elim r.sending [ [] ↦ false | s ∷ ss ↦ true ]
  ]

  -- The state after a step at the hub, none where it panics.
  unfoldable pub after : Running P → (Hub P → Running P) → Stepped P → Option (Running P)
  after r f (went h) = some (f h)
  after r f panicked = none
  after r f blocked = some r

module _ {P : Type 0} ⦃c : Clients P⦄ where
  -- The cases of `Run`. What cannot be done yet waits.
  unfoldable pub take_registration : P → Running P → Option (Running P)
  unfolding is_read after register
  take_registration p r =
      if is_read r then some r else after r (λ h. record r { hub = h }) (register p r.hub)

  unfoldable pub take_unregistration : P → Running P → Option (Running P)
  unfolding is_read after unregister
  take_unregistration p r =
      if is_read r then some r else after r (λ h. record r { hub = h }) (unregister p r.hub)

  unfoldable pub take_message : Running P → Option (Running P)
  take_message r = elim r.broadcasting [
    | some b ↦ some r
    | none ↦ elim r.queued [
      | [] ↦ some r
      | m ∷ ms ↦ some (record r { queued = ms; broadcasting = some (m, r.hub.clients) })
    ]
  ]

  -- One turn of the broadcast.
  unfoldable pub broadcast : Running P → Option (Running P)
  unfolding after send_or_drop
  broadcast r = elim r.broadcasting [
    | none ↦ some r
    | some b ↦ elim b.1 [
      | [] ↦ some (record r { broadcasting = none })
      | p ∷ ps ↦
          after r (λ h. record r { hub = h; broadcasting = some (b.0, ps) })
            (send_or_drop p b.0 r.hub)
    ]
  ]

  -- `BroadcastToAll`, which waits where the channel is full.
  unfoldable pub broadcast_to_all : Message → Running P → Running P
  broadcast_to_all m r =
      if ltb (length r.queued) 256 then record r { queued = r.queued ++ m ∷ [] } else r

  -- The start of `BroadcastToUser`.
  unfoldable pub broadcast_to_user : String → Message → Running P → Running P
  broadcast_to_user user m r = record r {
    sending = record { user_id = user; message = m; left = r.hub.clients } ∷ r.sending;
  }

  -- One turn of the loop of a `BroadcastToUser`: the hub, and what goes on of the loop.
  unfoldable pub visit : Sending P → Running P → List (Sending P) → Option (Running P)
  unfolding after send_or_skip
  visit s r others = elim s.left [
    | [] ↦ some (record r { sending = others })
    | p ∷ ps ↦
        after r (λ h. record r { hub = h; sending = record s { left = ps } ∷ others })
          (send_or_skip s.user_id p s.message r.hub)
  ]

  -- The loop that a number picks, and the others.
  unfoldable pub pick : ℕ → List (Sending P) → Option (Sending P × List (Sending P))
  pick n [] = none
  pick zero (s ∷ ss) = some (s, ss)
  pick (suc n) (s ∷ ss) = elim (pick n ss) [ none ↦ none | some (t, ts) ↦ some (t, s ∷ ts) ]

  unfoldable pub send_on : ℕ → Running P → Option (Running P)
  unfolding visit pick
  send_on n r = elim (pick n r.sending) [ none ↦ some r | some (s, others) ↦ visit s r others ]

  -- `SendJobStatus`
  unfoldable pub send_job_status : ℕ → String → String → String → Fields → Running P → Running P
  unfolding broadcast_to_user
  send_job_status now user job status fields r =
      broadcast_to_user user
        (record {
          type = "job_status";
          body =
              ("job_id", Json.str job)
              ∷ ("status", Json.str status)
              ∷ ("data", Json.obj fields)
              ∷ [];
          timestamp = now;
        })
        r

  -- `SendJobLogs`
  unfoldable pub send_job_logs : ℕ → String → String → Items → Running P → Running P
  unfolding broadcast_to_user
  send_job_logs now user job logs r =
      broadcast_to_user user
        (record {
          type = "job_logs";
          body = ("job_id", Json.str job) ∷ ("logs", Json.arr logs) ∷ [];
          timestamp = now;
        })
        r

  -- `SendGPUMetrics`
  unfoldable pub send_gpu_metrics : ℕ → String → Params → Running P → Running P
  unfolding broadcast_to_user
  send_gpu_metrics now user metrics r =
      broadcast_to_user user (record { type = "gpu_metrics"; body = metrics; timestamp = now }) r

  -- `SendNotification`
  unfoldable pub send_notification : ℕ → String → Params → Running P → Running P
  unfolding broadcast_to_user
  send_notification now user notification r =
      broadcast_to_user user
        (record { type = "notification"; body = notification; timestamp = now }) r

  -- `SendBillingUpdate`
  unfoldable pub send_billing_update : ℕ → String → Params → Running P → Running P
  unfolding broadcast_to_user
  send_billing_update now user billing r =
      broadcast_to_user user (record { type = "billing_update"; body = billing; timestamp = now }) r

  -- `SendProviderStatus`, which goes to all; the provider's id is not used.
  unfoldable pub send_provider_status : ℕ → String → Params → Running P → Running P
  unfolding broadcast_to_all
  send_provider_status now provider fields r =
      broadcast_to_all (record { type = "provider_status"; body = fields; timestamp = now }) r

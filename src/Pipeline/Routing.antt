-- ===== src/Pipeline/Routing.antt =====
-- Where the producer of engine/src/pipeline.rs puts an event.
use telemetry_threat_engine.Base.{
  some_injective, sym, ℕ, zero, suc, ◌+◌, ◌%◌, ◌^◌, ◌<◌, ◌≡◌, refl, ap, List, [], ◌∷◌, ◌++◌, some,
  length, get_elem?, get_elem?-lt, set, Bool, false, ◌==◌, arith,
}
use telemetry_threat_engine.Models.{NetworkEvent, shard_key}
use telemetry_threat_engine.Queue.{MpmcQueue, done}
use telemetry_threat_engine.Queue.Inv.{Holds}
use telemetry_threat_engine.Queue.Push.{Settles, push-Pushed}
use telemetry_threat_engine.Pipeline.{AppState, fetch_inc, after_push, route}

pub set-same {ℓ} :
    {A : Type ℓ} (xs : List A) (i : ℕ) (x : A) → get_elem? xs i ≡ some x → set xs i x ≡ xs
set-same [] i x e = refl
set-same (y ∷ xs) zero x e = ap (λ z. z ∷ xs) (some_injective x y (sym e))
set-same (y ∷ xs) (suc i) x e = ap (λ l. y ∷ l) (set-same xs i x e)

not_zero : (n : ℕ) → 0 < n → (n == 0) ≡ false
not_zero n h = ground arith

module _ (state : AppState) (event : NetworkEvent) (rounds : List Bool) (cap : ℕ)
    (q : MpmcQueue NetworkEvent) (xs : List NetworkEvent)
    (own : get_elem? state.queues (shard_key event % length state.queues) ≡ some q)
    (holds : Holds cap q xs) (settles : Settles rounds)
    (small : q.enqueue_pos + cap + 1 < 2 ^ 63) where
  abbrev shard : ℕ
  shard = shard_key event % length state.queues

  some_queue : (length state.queues == 0) ≡ false
  some_queue = not_zero (length state.queues) (omega (arith, get_elem?-lt state.queues shard q own))

  pub route_pushed :
      length xs < cap
      → (q' : MpmcQueue NetworkEvent) × (route rounds event state
          ≡ done (record state { queues = set state.queues shard q' }))
        × Holds cap q' (xs ++ event ∷ [])
        × (q'.enqueue_pos ≡ q.enqueue_pos + 1)
  unfolding route after_push
  route_pushed room =
      let (q', pushed, holds', next) = (push-Pushed holds rounds event settles small).room room in
      (q', rw (some_queue, own, pushed), holds', next)

  -- If the queue of the event's shard holds `xs` and has room, and the exchange of some round does not
  -- fail spuriously, the producer appends the event to that queue and changes nothing else.
  pub route_room :
      length xs < cap
      → (q' : MpmcQueue NetworkEvent) × (route rounds event state
          ≡ done (record state { queues = set state.queues shard q' }))
        × Holds cap q' (xs ++ event ∷ [])
  route_room room = let (q', pushed, holds', next) = route_pushed room in (q', pushed, holds')

  -- If the queue of the event's shard is full, and the exchange of some round does not fail spuriously,
  -- the producer leaves all queues as they are and counts one event as dropped.
  pub route_full :
      length xs ≡ cap
      → route rounds event state
        ≡ done (record state {
          stats = record state.stats { events_dropped = fetch_inc state.stats.events_dropped };
        })
  unfolding route after_push
  route_full full =
      rw (some_queue, own, (push-Pushed holds rounds event settles small).full full)
        (ap
          (λ qs. done (record state {
            queues = qs;
            stats = record state.stats { events_dropped = fetch_inc state.stats.events_dropped };
          }))
          (set-same state.queues shard q own))

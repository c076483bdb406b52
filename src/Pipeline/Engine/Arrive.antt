-- ===== src/Pipeline/Engine/Arrive.antt =====
-- A step of the producer of engine/src/pipeline.rs beside that of the plan.
use native.Mathlib.Decide.{dec_lt}
use telemetry_threat_engine.Base.{
  ap, ℕ, ◌+◌, ◌%◌, ◌^◌, ◌<◌, ◌≡◌, refl, sym, ◌∙◌, Bool, List, [], ◌∷◌, ◌++◌, length, set,
  length-set, arith,
}
use native.Mathlib.Nat.{mod-lt}
use telemetry_threat_engine.Models.{NetworkEvent, shard_key}
use telemetry_threat_engine.Queue.Push.{Settles}
use telemetry_threat_engine.Detection.Hasher.{FxHasher}
use telemetry_threat_engine.Detection.Float.{Float64}
use telemetry_threat_engine.Detection.Signature.{AhoCorasick}
use telemetry_threat_engine.Pipeline.{fetch_inc}
use telemetry_threat_engine.Pipeline.Routing.{route_pushed, route_full}
use telemetry_threat_engine.Pipeline.Engine.{Engine, arrive, step}
use telemetry_threat_engine.Pipeline.Engine.Plan.{
  Plan, plan_arrive-room, plan_arrive-full, plan_step,
}
use telemetry_threat_engine.Pipeline.Engine.Contents.{
  AllHold-length, AllHold-get_elem?, AllHold-set, AllHold-next,
}
use telemetry_threat_engine.Pipeline.Engine.Refines.{Refines, Next}

module _ (ac : AhoCorasick) (fx : FxHasher) (fl : Float64) where
  module _ {k cap : ℕ} {engine : Engine fl.F} {p : Plan} (r : Refines ac fx fl k cap engine p)
      (some_worker : 0 < length engine.state.queues) (small : k + cap + 1 < 2 ^ 63) where
    same_length : length engine.state.queues ≡ length p.queued
    same_length = AllHold-length k cap engine.state.queues p.queued r.queues

    pub arrive-Next :
        (rounds : List Bool) (event : NetworkEvent)
        → Settles rounds
        → Next ac fx fl k cap engine p (arrive rounds event)
    unfolding step plan_step
    arrive-Next rounds event settles =
        let shard = shard_key event % length engine.state.queues in
        let below : shard < length engine.state.queues = mod-lt (shard_key event) some_worker in
        let (q, xs, at_q, at_xs, (holds, pushes)) =
          AllHold-get_elem? k cap engine.state.queues p.queued shard r.queues below in
        elim (dec_lt (length xs) cap) [
          | yes room ↦
              let (q', routed, holds', next) =
                route_pushed engine.state event rounds cap q xs at_q holds settles (omega arith)
                  room in
              (
                record engine {
                  state = record engine.state { queues = set engine.state.queues shard q' };
                },
                rw routed,
                rw
                    (plan_arrive-room cap event p (length engine.state.queues) same_length xs at_xs
                      room)
                    (record {
                      queues =
                          AllHold-set (k + 1) cap engine.state.queues p.queued shard q'
                            (xs ++ event ∷ [])
                            (AllHold-next k cap engine.state.queues p.queued r.queues)
                            (holds', omega arith);
                      workers = r.workers;
                      one_each = r.one_each ∙ sym (length-set engine.state.queues shard q');
                      handlers = r.handlers ∙ sym (length-set engine.state.queues shard q');
                      processed = r.processed;
                      dropped = r.dropped;
                    }),
                length-set engine.state.queues shard q',
                record {
                  workers = refl;
                  alerts = refl;
                  fired = refl;
                  handled =
                      ap (λ (x : Plan). x.handled)
                        (plan_arrive-room cap event p (length engine.state.queues) same_length xs
                          at_xs room);
                },
              )
          | no full ↦
              let is_full : length xs ≡ cap = omega (arith, holds.fits) in
              (
                record engine {
                  state = record engine.state {
                    stats = record engine.state.stats {
                      events_dropped = fetch_inc engine.state.stats.events_dropped;
                    };
                  };
                },
                rw (
                    route_full engine.state event rounds cap q xs at_q holds settles (omega arith)
                      is_full),
                rw
                    (plan_arrive-full cap event p (length engine.state.queues) same_length xs at_xs
                      is_full)
                    (record {
                      queues = AllHold-next k cap engine.state.queues p.queued r.queues;
                      workers = r.workers;
                      one_each = r.one_each;
                      handlers = r.handlers;
                      processed = r.processed;
                      dropped = omega (arith, r.dropped);
                    }),
                refl,
                record {
                  workers = refl;
                  alerts = refl;
                  fired = refl;
                  handled =
                      ap (λ (x : Plan). x.handled)
                        (plan_arrive-full cap event p (length engine.state.queues) same_length xs
                          at_xs is_full);
                },
              )
        ]

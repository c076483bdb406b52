-- ===== src/Queue/Threads/Runs.antt =====
-- The interleavings of the threads' steps, and the invariant.
use telemetry_threat_engine.Base.{ℕ, ◌+◌, ◌^◌, ◌≤◌, ◌<◌, refl, arith}
use telemetry_threat_engine.Queue.Threads.{
  Ring, Pc, claim_push, claim_pop, write_item, publish_slot, take_item, release_slot, Move,
  win_push, System, initial, pick, Reach, start, later,
}
use telemetry_threat_engine.Queue.Threads.Lap.{Lap}
use telemetry_threat_engine.Queue.Threads.Inv.{Inv}
use telemetry_threat_engine.Queue.Threads.Moves.{Move-Inv}

pub initial-Inv :
    {A : Type 0} {mask cap : ℕ} → Lap mask cap → Inv mask cap (initial A).ring (initial A).pc
unfolding initial
initial-Inv lap = record {
  ordered = omega arith;
  fits = omega arith;
  low = λ t. omega (arith, lap.below t);
  unused = λ t lt ge. (lap.first t lt, refl);
  held = λ t ge lt. absurd (omega arith);
  vacated = λ t lt ge. absurd (omega arith);
  known = λ t lt. absurd (omega arith);
  served = λ t lt. absurd (omega arith);
  unserved = λ t ge. refl;
  fresh = λ i. tt;
  one_writer = λ i j t e f. cc;
  one_taker = λ i j t e f. cc;
}

-- A step claims at most one ticket of `push`.
Move-enqueue_pos :
    {A : Type 0} {mask : ℕ} {m m' : Ring A} {p p' : Pc A}
    → Move mask m p m' p'
    → m'.enqueue_pos ≤ m.enqueue_pos + 1
unfolding claim_push write_item publish_slot claim_pop take_item release_slot
Move-enqueue_pos (win_push _ current) = omega arith
Move-enqueue_pos mv = omega arith

pub Reach-enqueue_pos :
    {A : Type 0} {mask n : ℕ} {s : System A} → Reach mask n s → s.ring.enqueue_pos ≤ n
unfolding initial
Reach-enqueue_pos start = omega arith
Reach-enqueue_pos (later r (pick i mv)) = omega (arith, Move-enqueue_pos mv, Reach-enqueue_pos r)

-- The invariant holds after any run whose steps are too few for a counter to reach 2^63.
pub Reach-Inv :
    {A : Type 0} {mask cap n : ℕ} {s : System A}
    → Lap mask cap
    → n + cap < 2 ^ 63
    → Reach mask n s
    → Inv mask cap s.ring s.pc
Reach-Inv lap small start = initial-Inv lap
Reach-Inv lap small (later r (pick i mv)) =
    Move-Inv lap (Reach-Inv lap (omega arith) r) i (omega (arith, Reach-enqueue_pos r)) mv refl

-- ===== src/Tests/Schedules.antt =====
-- States of Queue.Threads by evaluation: a schedule names the threads that move, one after the other.
use telemetry_threat_engine.Base.{ℕ, suc, refl, List, [], ◌∷◌, Option, none, some}
use telemetry_threat_engine.Queue.Threads.{
  Ring, Pc, idle, push_call, push_at, push_saw, writing, publishing, pushed, pop_call, pop_at,
  pop_saw, taking, releasing, popped, Move, start_push, end_push, start_pop, end_pop, slot_index,
  claim_push, write_item, publish_slot, claim_pop, take_item, release_slot, System, initial, update,
  pick, Reach, start, later,
}
use telemetry_threat_engine.Queue.Threads.Alone.{proceed, proceed-Move}

-- What a thread does: from `idle` it calls `push` with the item, or `pop` where there is none.
pub next_move :
    (mask : ℕ)
    → Option ℕ
    → (m : Ring ℕ) (p : Pc ℕ) → (m' : Ring ℕ) × (p' : Pc ℕ) × Move mask m p m' p'
next_move mask none m idle = (m, pop_call, start_pop)
next_move mask (some x) m idle = (m, push_call x, start_push x)
next_move mask choice m (pushed r) = (m, idle, end_push)
next_move mask choice m (popped item) = (m, idle, end_pop)
next_move mask choice m (push_call x) = (
  (proceed mask m (push_call x)).0,
  (proceed mask m (push_call x)).1,
  proceed-Move mask m (push_call x) refl,
)
next_move mask choice m (push_at x p) = (
  (proceed mask m (push_at x p)).0,
  (proceed mask m (push_at x p)).1,
  proceed-Move mask m (push_at x p) refl,
)
next_move mask choice m (push_saw x p s) = (
  (proceed mask m (push_saw x p s)).0,
  (proceed mask m (push_saw x p s)).1,
  proceed-Move mask m (push_saw x p s) refl,
)
next_move mask choice m (writing x p) = (
  (proceed mask m (writing x p)).0,
  (proceed mask m (writing x p)).1,
  proceed-Move mask m (writing x p) refl,
)
next_move mask choice m (publishing p) = (
  (proceed mask m (publishing p)).0,
  (proceed mask m (publishing p)).1,
  proceed-Move mask m (publishing p) refl,
)
next_move mask choice m pop_call =
    ((proceed mask m pop_call).0, (proceed mask m pop_call).1, proceed-Move mask m pop_call refl)
next_move mask choice m (pop_at p) = (
  (proceed mask m (pop_at p)).0,
  (proceed mask m (pop_at p)).1,
  proceed-Move mask m (pop_at p) refl,
)
next_move mask choice m (pop_saw p s) = (
  (proceed mask m (pop_saw p s)).0,
  (proceed mask m (pop_saw p s)).1,
  proceed-Move mask m (pop_saw p s) refl,
)
next_move mask choice m (taking p) = (
  (proceed mask m (taking p)).0,
  (proceed mask m (taking p)).1,
  proceed-Move mask m (taking p) refl,
)
next_move mask choice m (releasing x p) = (
  (proceed mask m (releasing x p)).0,
  (proceed mask m (releasing x p)).1,
  proceed-Move mask m (releasing x p) refl,
)

pub record Run (mask : ℕ) : Type 0 where
  pub steps : ℕ
  pub state : System ℕ
  pub reach : Reach mask steps state

pub turn : {mask : ℕ} → Run mask → ℕ → Option ℕ → Run mask
unfolding next_move proceed slot_index claim_push write_item publish_slot claim_pop take_item
    release_slot
turn {mask} r i choice =
    let mv = next_move mask choice r.state.ring (r.state.pc i) in
    record {
      steps = suc r.steps;
      state = record { ring = mv.0; pc = update r.state.pc i mv.1 };
      reach = later r.reach (pick i mv.2);
    }

pub turns_from : {mask : ℕ} → Run mask → List (ℕ × Option ℕ) → Run mask
unfolding turn
turns_from r [] = r
turns_from r ((i, choice) ∷ schedule) = turns_from (turn r i choice) schedule

unfoldable pub turns : (mask : ℕ) → List (ℕ × Option ℕ) → Run mask
unfolding turns_from initial
turns mask schedule = turns_from (record { steps = 0; state = initial ℕ; reach = start }) schedule

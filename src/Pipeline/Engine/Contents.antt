-- ===== src/Pipeline/Engine/Contents.antt =====
-- The queues of all workers, and what each of them holds.
use telemetry_threat_engine.Base.{
  some_injective, ℕ, zero, suc, ◌+◌, ◌-◌, ◌≤◌, ◌<◌, ◌≡◌, refl, ap, List, [], ◌∷◌, some, length,
  get_elem?, set, replicate, arith,
}
use telemetry_threat_engine.Models.{NetworkEvent}
use telemetry_threat_engine.Queue.{MpmcQueue}
use telemetry_threat_engine.Pipeline.Engine.Plan.{total}
use telemetry_threat_engine.Queue.Inv.{Holds}

-- A queue that holds `xs` after at most `k` successful pushes.
abbrev pub HoldsBy : ℕ → ℕ → MpmcQueue NetworkEvent → List NetworkEvent → Type 0
HoldsBy k cap q xs = Holds cap q xs × (q.enqueue_pos ≤ k)

abbrev pub AllHold : ℕ → ℕ → List (MpmcQueue NetworkEvent) → List (List NetworkEvent) → Type 0
AllHold k cap [] [] = Unit
AllHold k cap [] (xs ∷ xss) = ⊥
AllHold k cap (q ∷ qs) [] = ⊥
AllHold k cap (q ∷ qs) (xs ∷ xss) = HoldsBy k cap q xs × AllHold k cap qs xss

-- The number of items that the counters of all queues announce.
abbrev pub in_flight : List (MpmcQueue NetworkEvent) → ℕ
in_flight [] = 0
in_flight (q ∷ qs) = q.enqueue_pos - q.dequeue_pos + in_flight qs

module _ (k cap : ℕ) where
  pub AllHold-length :
      (qs : List (MpmcQueue NetworkEvent)) (xss : List (List NetworkEvent))
      → AllHold k cap qs xss
      → length qs ≡ length xss
  AllHold-length [] [] h = refl
  AllHold-length [] (xs ∷ xss) h = elim h [ ]
  AllHold-length (q ∷ qs) [] h = elim h [ ]
  AllHold-length (q ∷ qs) (xs ∷ xss) h = ap suc (AllHold-length qs xss h.1)

  pub AllHold-get_elem? :
      (qs : List (MpmcQueue NetworkEvent)) (xss : List (List NetworkEvent)) (i : ℕ)
      → AllHold k cap qs xss
      → i < length qs
      → (q : MpmcQueue NetworkEvent) × (xs : List NetworkEvent) × (get_elem? qs i ≡ some q)
        × (get_elem? xss i ≡ some xs)
        × HoldsBy k cap q xs
  AllHold-get_elem? [] xss i h lt = elim lt [ ]
  AllHold-get_elem? (q ∷ qs) [] i h lt = elim h [ ]
  AllHold-get_elem? (q ∷ qs) (xs ∷ xss) zero h lt = (q, xs, refl, refl, h.0)
  AllHold-get_elem? (q ∷ qs) (xs ∷ xss) (suc i) h lt = AllHold-get_elem? qs xss i h.1 (omega arith)

  pub AllHold-set :
      (qs : List (MpmcQueue NetworkEvent)) (xss : List (List NetworkEvent)) (i : ℕ)
      (q' : MpmcQueue NetworkEvent) (xs' : List NetworkEvent)
      → AllHold k cap qs xss
      → HoldsBy k cap q' xs'
      → AllHold k cap (set qs i q') (set xss i xs')
  AllHold-set [] [] i q' xs' h new = tt
  AllHold-set [] (xs ∷ xss) i q' xs' h new = elim h [ ]
  AllHold-set (q ∷ qs) [] i q' xs' h new = elim h [ ]
  AllHold-set (q ∷ qs) (xs ∷ xss) zero q' xs' h new = (new, h.1)
  AllHold-set (q ∷ qs) (xs ∷ xss) (suc i) q' xs' h new = (h.0, AllHold-set qs xss i q' xs' h.1 new)

  pub AllHold-next :
      (qs : List (MpmcQueue NetworkEvent)) (xss : List (List NetworkEvent))
      → AllHold k cap qs xss
      → AllHold (k + 1) cap qs xss
  AllHold-next [] [] h = tt
  AllHold-next [] (xs ∷ xss) h = elim h [ ]
  AllHold-next (q ∷ qs) [] h = elim h [ ]
  AllHold-next (q ∷ qs) (xs ∷ xss) ((holds, le), rest) =
      ((holds, omega arith), AllHold-next qs xss rest)

  pub AllHold-replicate :
      (n : ℕ) (q : MpmcQueue NetworkEvent)
      → HoldsBy k cap q []
      → AllHold k cap (replicate n q) (replicate n [])
  AllHold-replicate zero q h = tt
  AllHold-replicate (suc n) q h = (h, AllHold-replicate n q h)

  pub AllHold-fits :
      (qs : List (MpmcQueue NetworkEvent)) (xss : List (List NetworkEvent))
      → AllHold k cap qs xss
      → (i : ℕ) (xs : List NetworkEvent) → get_elem? xss i ≡ some xs
      → length xs ≤ cap
  AllHold-fits [] [] h i xs at = cc
  AllHold-fits [] (ys ∷ xss) h i xs at = elim h [ ]
  AllHold-fits (q ∷ qs) [] h i xs at = elim h [ ]
  AllHold-fits (q ∷ qs) (ys ∷ xss) h zero xs at =
      omega (arith, h.0.0.fits, ap length (some_injective ys xs at))
  AllHold-fits (q ∷ qs) (ys ∷ xss) h (suc i) xs at = AllHold-fits qs xss h.1 i xs at

  pub in_flight-total :
      (qs : List (MpmcQueue NetworkEvent)) (xss : List (List NetworkEvent))
      → AllHold k cap qs xss
      → in_flight qs ≡ total xss
  in_flight-total [] [] h = refl
  in_flight-total [] (ys ∷ xss) h = elim h [ ]
  in_flight-total (q ∷ qs) [] h = elim h [ ]
  in_flight-total (q ∷ qs) (ys ∷ xss) h = omega (arith, h.0.0.counters, in_flight-total qs xss h.1)

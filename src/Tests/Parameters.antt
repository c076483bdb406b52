-- ===== src/Tests/Parameters.antt =====
-- Concrete code for the parameters: a hasher, a number type for `f64`, and a search for patterns.
use telemetry_threat_engine.Base.{
  ℕ, zero, suc, ◌+◌, ◌*◌, ◌/◌, ◌%◌, ◌^◌, ◌<◌, ◌≡◌, refl, sym, ◌∙◌, ◌↔◌, Bool, true, false, List, [],
  ◌∷◌, none, some, map, foldl, contains, get_elem?, ltb, leb, if◌then◌else◌, arith,
}
use telemetry_threat_engine.Base.Text.{codes, decimal}
use telemetry_threat_engine.Models.{ℤ, pos, negsuc, NetworkEvent, tcp}
use telemetry_threat_engine.Detection.Hasher.{FxHasher}
use telemetry_threat_engine.Detection.Float.{Float64}
use telemetry_threat_engine.Detection.Utf8.{contains_text}
use telemetry_threat_engine.Detection.Signature.{AhoCorasick}

abbrev mixed : ℕ → List ℕ → ℕ
mixed h key = foldl (λ a b. a * 31 + b) h key % 2 ^ 64

pub mixed-lt : (h : ℕ) (key : List ℕ) → mixed h key < 2 ^ 64
mixed-lt h key = omega arith

abbrev pub sums : FxHasher
sums = record { seeded = mixed; plain = mixed 7; seeded_lt = mixed-lt; plain_lt = mixed-lt 7 }

abbrev power : ℕ → ℤ → ℕ
power x (pos n) = x ^ n
power x (negsuc n) = 0

-- Numbers rounded down.
abbrev pub rounded : Float64
rounded = record {
  F = ℕ;
  of_nat = λ n. n;
  literal = λ n k. n / 10 ^ k;
  add = λ a b. a + b;
  mul = λ a b. a * b;
  div = λ a b. a / b;
  ln = λ a. a;
  powi = power;
  gt = λ a b. ltb b a;
  ge = λ a b. leb b a;
  show0 = decimal;
}

-- The numbers of the patterns that stand in a text, one search for each.
abbrev pub naive : List (List ℕ) → List ℕ → List ℕ
naive [] s = []
naive (p ∷ ps) s = let rest = map suc (naive ps s) in if contains_text p s then 0 ∷ rest else rest

contains_zero-map : (l : List ℕ) → contains (map suc l) 0 ≡ false
contains_zero-map [] = refl
contains_zero-map (i ∷ l) = ground (arith, contains_zero-map l)

contains-map-suc : (l : List ℕ) (j : ℕ) → contains (map suc l) (suc j) ≡ contains l j
contains-map-suc [] j = refl
contains-map-suc (i ∷ l) j = ground (arith, contains-map-suc l j)

abbrev stands_at : List (List ℕ) → List ℕ → ℕ → Bool
stands_at patterns s i = elim (get_elem? patterns i) [ none ↦ false | some p ↦ contains_text p s ]

pub contains-naive :
    (patterns : List (List ℕ)) (s : List ℕ) (i : ℕ)
    → contains (naive patterns s) i ≡ stands_at patterns s i
contains-naive [] s i = refl
contains-naive (p ∷ ps) s zero = ground (arith, contains_zero-map (naive ps s))
contains-naive (p ∷ ps) s (suc i) =
    ground (arith, contains-map-suc (naive ps s) i, contains-naive ps s i)

pub stands_at_iff :
    (patterns : List (List ℕ)) (s : List ℕ) (i : ℕ)
    → (stands_at patterns s i ≡ true)
      ↔ ((p : List ℕ) × (get_elem? patterns i ≡ some p) × (contains_text p s ≡ true))
stands_at_iff [] s i = (λ h. cc, λ h. cc (h.1))
stands_at_iff (p ∷ ps) s zero = (λ h. (p, refl, h), λ h. cc (h.1, h.2))
stands_at_iff (p ∷ ps) s (suc i) = stands_at_iff ps s i

abbrev pub searches : AhoCorasick
searches = record {
  find_overlapping = naive;
  find_overlapping_iff = λ patterns s i. (
    λ h. (stands_at_iff patterns s i).0 (sym (contains-naive patterns s i) ∙ h),
    λ h. contains-naive patterns s i ∙ (stands_at_iff patterns s i).1 h,
  );
}

-- A SYN from 10.0.0.5 to port 80, and a packet with a payload.
abbrev pub syn_event : NetworkEvent
syn_event = record {
  timestamp_ms = pos 1000;
  src_ip = 0x0A000005;
  dst_ip = 0xC0A80001;
  src_port = 40000;
  dst_port = 80;
  protocol = tcp;
  flags = 1;
  payload_sample = [];
}

abbrev pub payload_event : NetworkEvent
payload_event = record syn_event { flags = 2; payload_sample = codes "GET /etc/passwd" }

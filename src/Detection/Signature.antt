-- ===== src/Detection/Signature.antt =====
-- engine/src/detection/signature.rs: known byte patterns in the payload. The automaton of the crate
-- aho_corasick is a parameter. A `none` is an index out of range.
pub mod Scan
use telemetry_threat_engine.Base.{
  ℕ, ◌+◌, ◌%◌, ◌^◌, ◌≡◌, ◌↔◌, true, List, [], ◌∷◌, ◌++◌, Option, some, get_elem?, contains,
  if◌then◌else◌, ◌>>=◌,
}
use telemetry_threat_engine.Base.Text.{codes}
use telemetry_threat_engine.Models.{
  NetworkEvent, Alert, Severity, medium, high, critical, signature, src_ip_str, dst_ip_str,
}
use telemetry_threat_engine.Detection.Utf8.{contains_text}
use telemetry_threat_engine.Detection.Cep.{is_empty}

-- The pattern numbers of the matches that `find_overlapping_iter` gives, for an automaton of the
-- given patterns. Overlapping search reports a pattern exactly when it stands in the haystack.
pub record AhoCorasick : Type 0 where
  pub find_overlapping : List (List ℕ) → List ℕ → List ℕ
  pub find_overlapping_iff :
      (patterns : List (List ℕ)) (haystack : List ℕ) (i : ℕ)
      → (contains (find_overlapping patterns haystack) i ≡ true)
        ↔ ((p : List ℕ) × (get_elem? patterns i ≡ some p) × (contains_text p haystack ≡ true))

pub record SignatureDetector : Type 0 where
  pub patterns : List (List ℕ)  -- of the automaton
  pub rule_names : List (List ℕ)
  pub severities : List Severity
  pub next_id : ℕ

-- `SignatureDetector::with_default_rules`.
abbrev pub with_default_rules : SignatureDetector
with_default_rules = record {
  patterns =
      codes "/etc/passwd"
      ∷ codes "UNION SELECT"
      ∷ codes "<script>alert("
      ∷ codes "cmd.exe"
      ∷ codes "../../"
      ∷ [];
  rule_names =
      codes "path-traversal-passwd"
      ∷ codes "sql-injection-union"
      ∷ codes "xss-script-tag"
      ∷ codes "windows-cmd-exec"
      ∷ codes "path-traversal-generic"
      ∷ [];
  severities = high ∷ high ∷ medium ∷ critical ∷ medium ∷ [];
  next_id = 1;
}

unfoldable pub match_alert : NetworkEvent → ℕ → List ℕ → Severity → Alert
match_alert event id name severity = record {
  id = id;
  timestamp_ms = event.timestamp_ms;
  rule_name = name;
  severity = severity;
  src_ip = src_ip_str event;
  dst_ip = dst_ip_str event;
  detail = codes "signature match for rule '" ++ (name ++ codes "' in payload sample");
  detector = signature;
}

-- The loop of `scan` over the pattern numbers of the matches, with the next alert number.
unfoldable pub scan_matches :
    SignatureDetector → NetworkEvent → ℕ → List ℕ → Option (List Alert × ℕ)
unfolding match_alert
scan_matches d event id [] = some ([], id)
scan_matches d event id (idx ∷ matches) = do
  name ← get_elem? d.rule_names idx
  severity ← get_elem? d.severities idx
  rest ← scan_matches d event ((id + 1) % 2 ^ 64) matches
  some (match_alert event id name severity ∷ rest.0, rest.1)

-- `scan`.
unfoldable pub scan :
    AhoCorasick → SignatureDetector → NetworkEvent → Option (List Alert × SignatureDetector)
unfolding scan_matches
scan ac d event =
    if is_empty event.payload_sample
    then some ([], d)
    else (scan_matches d event d.next_id (ac.find_overlapping d.patterns event.payload_sample)
        >>= λ r. some (r.0, record d { next_id = r.1 }))

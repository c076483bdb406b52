-- ===== src/Ingestion/Sequences.antt =====
-- The probe and the exploit of the simulator of engine/src/ingestion.rs, and the default sequence rule.
use telemetry_threat_engine.Base.{
  ℕ, ◌+◌, ◌-◌, ◌*◌, ◌%◌, ◌^◌, ◌≤◌, ◌≡◌, refl, sym, ap, ◌∙◌, subst, true, false, List, [], ◌∷◌, ◌++◌,
  append_assoc, some, filter_by, filter_by-append, leb, ◌==◌, arith,
}
use telemetry_threat_engine.Models.{NetworkEvent}
use telemetry_threat_engine.Detection.Cep.{
  is_syn_only, has_signature_payload, matches, default_rule, process_rule,
}
use telemetry_threat_engine.Detection.Cep.TwoSteps.{waiting, some_wait, process_rule-two_steps}
use telemetry_threat_engine.Ingestion.{Environment, Simulator, next_batch}
use telemetry_threat_engine.Ingestion.Shapes.{SynFrom, Exploit, ProbeExploit, OrNone}
use telemetry_threat_engine.Ingestion.Batches.{next_batch-Batch}

some_wait-snoc : (ts : List ℕ) (t : ℕ) → some_wait (ts ++ t ∷ []) ≡ true
some_wait-snoc [] t = refl
some_wait-snoc (u ∷ ts) t = refl

-- A time of the window is still there, after the older ones.
still_waits :
    (now t : ℕ) (ts : List ℕ)
    → now - t ≤ 5 * 10 ^ 9
    → some_wait (filter_by (λ u. leb (now - u) (5 * 10 ^ 9)) (ts ++ t ∷ [])) ≡ true
still_waits now t ts near =
    let in_window : leb (now - t) (5 * 10 ^ 9) ≡ true = ground (arith, near) in
    ap some_wait (filter_by-append (λ u. leb (now - u) (5 * 10 ^ 9)) ts (t ∷ []))
    ∙ rw in_window (some_wait-snoc (filter_by (λ u. leb (now - u) (5 * 10 ^ 9)) ts) t)

matches-SynFrom :
    (s : ℕ) (probe : NetworkEvent)
    → SynFrom s probe
    → probe.payload_sample ≡ []
    → (matches is_syn_only probe ≡ true) × (matches has_signature_payload probe ≡ false)
unfolding matches
matches-SynFrom s probe (valid, same, syn) empty = (syn, rw empty refl)

matches-Exploit :
    (s : ℕ) (exploit : NetworkEvent)
    → Exploit s exploit
    → matches has_signature_payload exploit ≡ true
unfolding matches
matches-Exploit s exploit (valid, same, no_syn, payload) = rw payload refl

process_rule-ProbeExploit :
    (s : ℕ) (probe exploit : NetworkEvent) (t0 t1 : ℕ) (ts : List ℕ)
    → SynFrom s probe
    → probe.payload_sample ≡ []
    → Exploit s exploit
    → t1 - t0 ≤ 5 * 10 ^ 9
    → (process_rule t1 exploit default_rule (process_rule t0 probe default_rule (waiting ts)).1).0
      ≡ true
process_rule-ProbeExploit s probe exploit t0 t1 ts is_probe empty is_exploit near =
    let (first, not_second) = matches-SynFrom s probe is_probe empty in
    let second = matches-Exploit s exploit is_exploit in
    let live = filter_by (λ t. leb (t0 - t) (5 * 10 ^ 9)) ts in
    rw
      (
        process_rule-two_steps default_rule is_syn_only has_signature_payload refl t0 probe ts,
        not_second,
        first,
        process_rule-two_steps default_rule is_syn_only has_signature_payload refl t1 exploit
            (live ++ t0 ∷ []),
        second,
      )
      (still_waits t1 t0 live near)

module _ (env : Environment) (after_epoch : (i : ℕ) → (ms : ℕ) × (env.clock i ≡ some ms)) where
  -- If the clock is never before the epoch, then at every 900th tick the batch has, one after the
  -- other, a SYN and an exploit of one source, and they complete the default sequence rule for that
  -- source, if the clock of the sequence engine advances by at most five seconds between them,
  -- whatever times were waiting before.
  pub next_batch-sequence :
      (t0 t1 : ℕ) (ts : List ℕ) (sim : Simulator env.Rng)
      → t1 - t0 ≤ 5 * 10 ^ 9
      → (sim.tick + 1) % 2 ^ 64 % 900 ≡ 0
      → (events : List NetworkEvent) × (sim' : Simulator env.Rng) × (before : List NetworkEvent)
        × (after : List NetworkEvent) × (probe : NetworkEvent) × (exploit : NetworkEvent)
        × (next_batch env sim ≡ some (events, sim'))
        × (events ≡ before ++ (probe ∷ exploit ∷ after))
        × (probe.src_ip ≡ exploit.src_ip)
        × ((process_rule t1 exploit default_rule
              (process_rule t0 probe default_rule (waiting ts)).1).0
            ≡ true)
  next_batch-sequence t0 t1 ts sim near due =
      let (events, sim', made, tick, b) = next_batch-Batch env after_epoch sim in
      let is_due : ((sim.tick + 1) % 2 ^ 64 % 900 == 0) ≡ true = ground (arith, due) in
      let (s, probe, exploit, inside, same, is_probe, empty, is_exploit) =
        subst (λ d. OrNone d ProbeExploit b.sequence) is_due b.sequences in
      let before = b.normal ++ (b.flood ++ b.payload) in
      (
        events,
        sim',
        before,
        b.scan,
        probe,
        exploit,
        made,
        b.whole
            ∙ ap (λ l. b.normal ++ (b.flood ++ (b.payload ++ (l ++ b.scan)))) same
            ∙ ap (λ l. b.normal ++ l)
                (sym (append_assoc b.flood b.payload (probe ∷ exploit ∷ b.scan)))
            ∙ sym (append_assoc b.normal (b.flood ++ b.payload) (probe ∷ exploit ∷ b.scan)),
        is_probe.1 ∙ sym is_exploit.1,
        process_rule-ProbeExploit s probe exploit t0 t1 ts is_probe empty is_exploit near,
      )

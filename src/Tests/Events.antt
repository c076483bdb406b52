-- ===== src/Tests/Events.antt =====
-- The printed form of an address.
use telemetry_threat_engine.Base.{◌≡◌, arith}
use telemetry_threat_engine.Models.{ip_to_string}
use telemetry_threat_engine.Models.Address.{parse_ip, parse_ip-ip_to_string}

parse_ip-ip_to_string_example : parse_ip (ip_to_string 0x0A000005) ≡ 0x0A000005
parse_ip-ip_to_string_example = parse_ip-ip_to_string 0x0A000005 (omega arith)

-- ===== src/Models/Address.antt =====
-- The printed form of an address (`ip_to_string` of engine/src/models.rs), and how it is read back.
use Prim.Native.Nat.{bit_and}
use telemetry_threat_engine.Base.{
  ℕ, ◌+◌, ◌*◌, ◌%◌, ◌^◌, ◌<◌, ◌≡◌, sym, ap, ◌∙◌, List, ◌∷◌, ◌++◌, append-nil, arith,
}
use telemetry_threat_engine.Base.Bits.{bit_and-mask}
use telemetry_threat_engine.Base.Text.{
  decimal, read_decimal, read_decimal-decimal, read_decimal-point, read_decimal-nil,
}
use telemetry_threat_engine.Models.{ip_to_string}

-- An independent reader of dotted addresses: four numbers with a point between them.
abbrev pub parse_ip : List ℕ → ℕ
parse_ip s =
    let (a, s1) = read_decimal 0 s in
    let (b, s2) = read_decimal 0 s1 in
    let (c, s3) = read_decimal 0 s2 in
    let (d, s4) = read_decimal 0 s3 in ((a * 256 + b) * 256 + c) * 256 + d

read_octet :
    (n : ℕ) (rest : List ℕ)
    → read_decimal 0 (decimal (bit_and n 0xFF) ++ (b'.' ∷ rest)) ≡ (n % 256, rest)
read_octet n rest =
    read_decimal-decimal (bit_and n 0xFF) (b'.' ∷ rest) (omega (arith, bit_and-mask 8 n))
    ∙ read_decimal-point (bit_and n 0xFF) rest
    ∙ ap (λ k. (k, rest)) (bit_and-mask 8 n)

read_last_octet : (n : ℕ) → (read_decimal 0 (decimal (bit_and n 0xFF))).0 ≡ n % 256
read_last_octet n =
    ap (λ s. (read_decimal 0 s).0) (sym (append-nil (decimal (bit_and n 0xFF))))
    ∙ ap (λ r. r.0) (read_decimal-decimal (bit_and n 0xFF) _ (omega (arith, bit_and-mask 8 n)))
    ∙ ap (λ r. r.0) (read_decimal-nil (bit_and n 0xFF))
    ∙ bit_and-mask 8 n

-- Reading the printed form of a u32 address gives the address back.
pub parse_ip-ip_to_string : (ip : ℕ) → ip < 2 ^ 32 → parse_ip (ip_to_string ip) ≡ ip
unfolding ip_to_string
parse_ip-ip_to_string ip h = simp (read_octet, read_last_octet) (omega arith)

-- Two u32 addresses with the same printed form are the same.
pub ip_to_string-injective :
    (a b : ℕ) → a < 2 ^ 32 → b < 2 ^ 32 → ip_to_string a ≡ ip_to_string b → a ≡ b
ip_to_string-injective a b ha hb e =
    sym (parse_ip-ip_to_string a ha) ∙ ap parse_ip e ∙ parse_ip-ip_to_string b hb

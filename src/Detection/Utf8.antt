-- ===== src/Detection/Utf8.antt =====
-- `String::from_utf8_lossy` and `str::contains` of the standard library, which
-- engine/src/detection/cep.rs calls on a payload. The bytes are read one by one: `Pending` is a
-- sequence that has begun, with how many bytes are to come and the range of the next one.
use telemetry_threat_engine.Base.{
  ℕ, ◌-◌, Bool, true, false, ◌&&◌, ◌||◌, List, [], ◌∷◌, ◌++◌, ◌≡◌, refl, leb, ltb, ◌==◌,
  if◌then◌else◌,
}
use telemetry_threat_engine.Base.Text.{codes}

pub data Pending : Type 0 where
  idle : Pending
  more : (seen : List ℕ) (left low high : ℕ) → Pending

-- U+FFFD, which stands for each maximal invalid piece.
abbrev pub replacement : List ℕ
replacement = 0xEF ∷ 0xBF ∷ 0xBD ∷ []

-- What the first byte of a sequence opens, with what is put out at once.
unfoldable pub open_sequence : ℕ → List ℕ × Pending
open_sequence b =
    if ltb b 0x80
    then (b ∷ [], idle)
    else if leb 0xC2 b && leb b 0xDF
    then ([], more (b ∷ []) 1 0x80 0xBF)
    else if b == 0xE0
    then ([], more (b ∷ []) 2 0xA0 0xBF)
    else if b == 0xED
    then ([], more (b ∷ []) 2 0x80 0x9F)
    else if leb 0xE1 b && leb b 0xEF
    then ([], more (b ∷ []) 2 0x80 0xBF)
    else if b == 0xF0
    then ([], more (b ∷ []) 3 0x90 0xBF)
    else if b == 0xF4
    then ([], more (b ∷ []) 3 0x80 0x8F)
    else if leb 0xF1 b && leb b 0xF3
    then ([], more (b ∷ []) 3 0x80 0xBF)
    else (replacement, idle)

-- The next byte: it goes on with the sequence, or ends it as invalid and opens another.
unfoldable pub read_byte : Pending → ℕ → List ℕ × Pending
unfolding open_sequence
read_byte idle b = open_sequence b
read_byte (more seen left low high) b =
    if leb low b && leb b high
    then (if left == 1
        then (seen ++ b ∷ [], idle)
        else ([], more (seen ++ b ∷ []) (left - 1) 0x80 0xBF))
    else (replacement ++ (open_sequence b).0, (open_sequence b).1)

unfoldable pub lossy_from : Pending → List ℕ → List ℕ
unfolding read_byte
lossy_from idle [] = []
lossy_from (more seen left low high) [] = replacement
lossy_from p (b ∷ bytes) = (read_byte p b).0 ++ lossy_from (read_byte p b).1 bytes

unfoldable pub from_utf8_lossy : List ℕ → List ℕ
unfolding lossy_from
from_utf8_lossy bytes = lossy_from idle bytes

unfoldable pub starts_with : List ℕ → List ℕ → Bool
starts_with [] s = true
starts_with (n ∷ needle) [] = false
starts_with (n ∷ needle) (b ∷ s) = n == b && starts_with needle s

unfoldable pub contains_text : List ℕ → List ℕ → Bool
unfolding starts_with
contains_text needle [] = starts_with needle []
contains_text needle (b ∷ s) = starts_with needle (b ∷ s) || contains_text needle s

lossy_tests :
    (from_utf8_lossy (codes "ok") ≡ codes "ok")
    × (from_utf8_lossy (0xE2 ∷ 0x82 ∷ 0xAC ∷ []) ≡ 0xE2 ∷ 0x82 ∷ 0xAC ∷ [])
    × (from_utf8_lossy (0xE2 ∷ 0x82 ∷ b'a' ∷ []) ≡ replacement ++ b'a' ∷ [])
    × (from_utf8_lossy (0xF0 ∷ 0x80 ∷ []) ≡ replacement ++ replacement)
unfolding from_utf8_lossy
lossy_tests = (refl, refl, refl, refl)

-- ===== src/Tests/Reads.antt =====
-- Runs of the read service.
use Prim.Native.String.{String, ◌++◌ as join}
use virtual_waiting_room.Prelude.{
  ℕ, ◌+◌, ◌-◌, ◌*◌, ◌/◌, ◌%◌, get_or, leb, if◌then◌else◌, ◌≡◌, refl, none, some, List, [], ◌∷◌,
}
use virtual_waiting_room.Prelude.Text.{codes}
use virtual_waiting_room.Read.{PollPolicy, status, queue_num}
use virtual_waiting_room.Read.Audit.{audit, queue_num-status}
use virtual_waiting_room.Tests.{sample_hmac, sample_seed, opened_counters, sample_row}

abbrev policy : PollPolicy
policy = record { floor_ms = 2000; ceiling_ms = 60000; divisor = 10 }

abbrev digits : List String
digits =
    "0" ∷ "1" ∷ "2" ∷ "3" ∷ "4" ∷ "5" ∷ "6" ∷ "7" ∷ "8" ∷ "9" ∷ "a" ∷ "b" ∷ "c" ∷ "d" ∷ "e" ∷ "f"
    ∷ []

hex_encode : List ℕ → String
hex_encode [] = ""
hex_encode (b ∷ bytes) =
    join (get_or digits (b / 16) "") (join (get_or digits (b % 16) "") (hex_encode bytes))

abbrev digit_value : ℕ → ℕ
digit_value c = if leb c b'9' then c - b'0' else c - b'a' + 10

hex_values : List ℕ → List ℕ
hex_values [] = []
hex_values (c ∷ []) = []
hex_values (c ∷ d ∷ cs) = (digit_value c * 16 + digit_value d) ∷ hex_values cs

hex_decode : String → List ℕ
unfolding hex_values
hex_decode text = hex_values (codes text)

sample_decoded : hex_decode (hex_encode sample_seed) ≡ sample_seed
unfolding hex_encode hex_decode
sample_decoded = refl

decoded :
    (bytes : List ℕ)
    → opened_counters.shuffle_seed ≡ some bytes
    → hex_decode (hex_encode bytes) ≡ bytes
decoded bytes e = let same : sample_seed ≡ bytes = cc in rw (← same) sample_decoded

queue_num-status_example :
    queue_num sample_hmac opened_counters (sample_row "a" 2 1)
    ≡ audit sample_hmac hex_encode hex_decode (status hex_encode opened_counters none 200) 2 1
queue_num-status_example =
    queue_num-status sample_hmac hex_encode hex_decode opened_counters (sample_row "a" 2 1) none 200
      decoded

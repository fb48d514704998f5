-- ===== src/Mqtt/Commands/Cycle.antt =====
-- The numbers of a run of commands, from the value that the module starts with.
use bambu_gateway.Prelude.{ℕ, zero, suc, ◌+◌, ◌%◌, ◌≤◌, ◌<◌, ◌≡◌, ◌≢◌, refl, arith}
use bambu_gateway.Mqtt.Commands.{seq_start, next_sequence_id}

-- The value after so many commands, and the number of the command after them.
unfoldable pub value_after : ℕ → ℕ
value_after zero = seq_start
value_after (suc n) = (next_sequence_id (value_after n)).1

unfoldable pub id_after : ℕ → ℕ
id_after n = (next_sequence_id (value_after n)).0

value_after-mod : (n : ℕ) → value_after n ≡ 20000 + n % 10000
unfolding value_after next_sequence_id
value_after-mod zero = refl
value_after-mod (suc n) = let e = value_after-mod n in ground (arith, e)

id_after-mod : (n : ℕ) → id_after n ≡ 20000 + n % 10000
unfolding id_after next_sequence_id
id_after-mod n = value_after-mod n

-- The number of every command is at least 20,000 and below 30,000, and it differs from that of each
-- of the 9,999 commands after it.
pub next_sequence_id-distinct :
    (i j : ℕ)
    → i < j
    → j < i + 10000
    → (20000 ≤ id_after i) × (id_after i < 30000) × (id_after i ≢ id_after j)
next_sequence_id-distinct i j h k =
    let e = id_after-mod i in
    let f = id_after-mod j in
    (omega (arith, e), omega (arith, e), λ same. omega (arith, e, f, same))

-- ===== src/Tests/Transfers.antt =====
-- Transfers to linear memory, and byte encodings, at concrete inputs.
use zephyr_vm.Prelude.{ℕ, ⊤, ◌≡◌, refl, List, [], ◌∷◌, arith}
use zephyr_vm.Errors.{ok, err, foreign}
use zephyr_vm.Exec.{◌>>=◌}
use zephyr_vm.Database.{read_only}
use zephyr_vm.Host.{Host, MemoryManager}
use zephyr_vm.Host.Memory.{
  with_manager, write_to_memory, read_segment_from_memory, memory_manager, checked_add,
  grow_memory_pages_if_needed, zero_bytes,
}
use zephyr_vm.Host.Memory.Transfer.{write_to_memory-delivers, write_to_memory-moves_on_failure}
use zephyr_vm.Utils.{i64_to_bytes}
use zephyr_vm.Utils.Bytes.{from_le_bytes, from_le_bytes-i64_to_bytes, point_bytes-determines}
use zephyr_vm.Host.Instructions.{point_bytes}
use zephyr_vm.Tests.Sample.{sample, memory, host_with}
use zephyr_vm.Tests.Laws.{sample_laws}

abbrev idle : Host sample
idle = host_with read_only []

abbrev manager : MemoryManager sample
manager = record { memory = memory; offset = 0 }

-- The two bytes go to the offset 2, which is their number.
abbrev after : List ℕ
after = 10 ∷ 11 ∷ 1 ∷ 2 ∷ 14 ∷ 15 ∷ 0 ∷ 0 ∷ 0 ∷ 0 ∷ []

write_to_memory-delivers_example :
    (written : List ℕ) × (write_to_memory (1 ∷ 2 ∷ []) idle
      ≡ (ok (2, 2), with_manager (record { memory = written; offset = 2 }) idle))
    × (read_segment_from_memory sample written (2, 2) ≡ ok (1 ∷ 2 ∷ []))
unfolding grow_memory_pages_if_needed zero_bytes
write_to_memory-delivers_example =
    write_to_memory-delivers sample_laws (1 ∷ 2 ∷ []) idle manager refl (omega arith) (omega arith)
      (omega arith)

write_to_memory-moves_on_failure_example :
    (e : ⊤) × (write_to_memory (1 ∷ 2 ∷ 3 ∷ 4 ∷ 5 ∷ 6 ∷ []) idle
      ≡ (err (foreign e), with_manager (record { memory = memory; offset = 6 }) idle))
unfolding grow_memory_pages_if_needed zero_bytes
write_to_memory-moves_on_failure_example =
    write_to_memory-moves_on_failure sample_laws (1 ∷ 2 ∷ 3 ∷ 4 ∷ 5 ∷ 6 ∷ []) idle manager refl
      (omega arith) (omega arith)

written :
    write_to_memory (1 ∷ 2 ∷ []) idle
    ≡ (ok (2, 2), with_manager (record { memory = after; offset = 2 }) idle)
unfolding write_to_memory memory_manager checked_add grow_memory_pages_if_needed zero_bytes ◌>>=◌
written = refl

abbrev place : ℕ × ℕ
place = (2, 2)

from_le_bytes-i64_to_bytes_example : from_le_bytes (i64_to_bytes 1025) ≡ 1025
from_le_bytes-i64_to_bytes_example = from_le_bytes-i64_to_bytes 1025 (omega arith)

abbrev table : ℕ
table = 5

abbrev user : ℕ
user = 7

same_bytes : point_bytes table user ≡ point_bytes table user
same_bytes = refl

point_bytes-determines_example : (table ≡ table) × (user ≡ user)
point_bytes-determines_example =
    point_bytes-determines table table user user (omega arith) (omega arith) (omega arith)
      (omega arith) same_bytes

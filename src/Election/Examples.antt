-- ===== src/Election/Examples.antt =====
-- The theorems on election IDs at concrete values.
use p4runtime_go_controller.Common.{◌≡◌, refl, arith, true}
use p4runtime_go_controller.Common.Int.{negsuc}
use p4runtime_go_controller.Election.{ElectionId, max_word, cmp, increment}
use p4runtime_go_controller.Election.Order.{cmp_exact, Increments, increment-Increments}

abbrev carry : ElectionId
carry = record { high = 1; low = max_word }

abbrev carried : ElectionId
carried = record { high = 2; low = 0 }

increment-carry : increment carry ≡ (carried, true)
unfolding increment
increment-carry = refl

cmp_exact_example : cmp carry carried ≡ negsuc 0
cmp_exact_example = cmp_exact carry carried (omega arith) (omega arith)

increment-Increments_example : Increments carry (increment carry)
increment-Increments_example = increment-Increments carry (omega arith)

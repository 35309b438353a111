-- ===== src/Tests/Rings.antt =====
-- The rings' theorems on a ring of 8192 descriptors.
use aws_neuron_driver.Common.{ℕ, List, [], ◌∷◌, ◌+◌, ◌-◌, ◌%◌, ◌^◌, ◌≡◌, arith}
use aws_neuron_driver.Udma.Ring.{available_get, ack_loop, cdesc_ack}
use aws_neuron_driver.Udma.Ring.View.{Tracks, available_get-Tracks}
use aws_neuron_driver.Udma.Ring.Ack.{ack_loop-sum, cdesc_ack-Tracks, sum}
use aws_neuron_driver.Tests.Data.{busy_ring, busy_ring-Tracks}

available_get-Tracks_example : available_get busy_ring ≡ 2 ^ 13 - 16 - (8190 - 8180)
available_get-Tracks_example = available_get-Tracks busy_ring-Tracks

-- Two other CPUs acknowledge 3 and 1 in between.
abbrev between : List ℕ
between = 3 ∷ 1 ∷ []

ack_loop-sum_example :
    ack_loop (2 ^ 13 - 1) 5 between (8190 % 2 ^ 13) (8190 % 2 ^ 13)
    ≡ (8190 + sum between + 5) % 2 ^ 13
ack_loop-sum_example = ack_loop-sum 13 8190 5 between (omega arith)

cdesc_ack-Tracks_example : Tracks (cdesc_ack busy_ring 7) 13 8190 (8180 + 7)
cdesc_ack-Tracks_example = cdesc_ack-Tracks 7 busy_ring-Tracks (omega arith)

-- ===== src/Udma/Init/Frame.antt =====
-- Reading the queue arrays after one entry is replaced.
use aws_neuron_driver.Common.{ℕ, ◌≡◌, ◌≢◌, ◌⊎◌, refl, arith}
use aws_neuron_driver.Udma.Types.{UdmaType, tx, rx, UdmaQ, Udma, queue, with_queue}

pub queue-with_queue :
    (u : Udma) (t : UdmaType) (i : ℕ) (q : UdmaQ) → queue (with_queue u t i q) t i ≡ q
queue-with_queue u tx i q = ground arith
queue-with_queue u rx i q = ground arith

pub queue-with_queue_other :
    (u : Udma) (t : UdmaType) (i : ℕ) (q : UdmaQ) (s : UdmaType) (j : ℕ)
    → (s ≢ t) ⊎ (j ≢ i)
    → queue (with_queue u t i q) s j ≡ queue u s j
queue-with_queue_other u tx i q tx j d = ground arith
queue-with_queue_other u tx i q rx j d = refl
queue-with_queue_other u rx i q tx j d = refl
queue-with_queue_other u rx i q rx j d = ground arith

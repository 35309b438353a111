-- ===== src/FwIo/Request/Laws.antt =====
-- Sequence numbers, the size guards, timeouts and the size of a response.
use aws_neuron_driver.Common.{
  ℕ, zero, suc, false, List, ◌∷◌, ◌+◌, ◌-◌, ◌/◌, ◌%◌, ◌^◌, ◌≤◌, ◌<◌, ◌≡◌, ◌≢◌, refl, ◌∙◌, ap, sym,
  arith, u32, u64, ◌==◌, ltb, length, ok, err, ◌>>=◌, bind_out-ok, minus_one, ne→==-false, eq→==,
  ==_iff, Bool-cases, inl, inr,
}
use aws_neuron_driver.FwIo.Request.{
  FwIoCtx, FwEvent, seq_read, udelay, response_clear, dma_rmb, request_write, reg_write, Firmware,
  Channel, bump_seq, max_size, await_response, copy_bytes, take_response, execute_request,
  make_request, new_ctx, misc_ram_offset, trigger_offset, read_polls, buffer_bytes,
}

-- After a byte the next sequence number is a byte, is not 0, the value that the driver clears a
-- response to, and is not the number before.
bump_seq_fresh :
    (seq : ℕ) → seq < 256 → (0 < bump_seq seq) × (bump_seq seq < 256) × (bump_seq seq ≢ seq)
unfolding bump_seq
bump_seq_fresh seq h = (ground arith, ground arith, ground arith)

-- The number of the `n`th request of a context.
seq_after : ℕ → ℕ
seq_after zero = 1
seq_after (suc n) = bump_seq (seq_after n)

-- The number of the nth request of a new context is n modulo 255, plus 1.
seq_after_cycle : (n : ℕ) → seq_after n ≡ n % 255 + 1
unfolding seq_after bump_seq
seq_after_cycle zero = refl
seq_after_cycle (suc n) = ground (arith, seq_after_cycle n)

-- The context that `fw_io_setup` makes has no buffer size: both size guards let through every
-- length up to 2 ^ 32 - 9.
new_ctx_guards :
    (request_addr response_addr n : ℕ)
    → n ≤ 2 ^ 32 - 9
    → (ltb (max_size (new_ctx request_addr response_addr) 8) n ≡ false)
      × (ltb (max_size (new_ctx request_addr response_addr) 4) n ≡ false)
unfolding new_ctx
new_ctx_guards request_addr response_addr n h = (ground arith, ground arith)

length-copy_bytes :
    (fw : Firmware) (t : List FwEvent) (n from : ℕ) → length (copy_bytes fw t n from) ≡ n
unfolding copy_bytes
length-copy_bytes fw t zero from = refl
length-copy_bytes fw t (suc n) from = ap suc (length-copy_bytes fw t n (from + 1))

take_response-fits :
    (fw : Firmware) (resp_size : ℕ) (c : Channel) {bytes : List ℕ} {c' : Channel}
    → take_response fw resp_size c ≡ ok bytes c'
    → length bytes ≤ resp_size
unfolding take_response
take_response-fits fw resp_size c e =
    ground (arith, length-copy_bytes fw c.trace (u64 (fw.size c.trace % 2 ^ 16 + 2 ^ 64 - 4)) 0)

-- The channel when the doorbell has been rung: the queue addresses, the request, then the doorbell.
unfoldable pub posted : (command_id : ℕ) → List ℕ → Channel → Channel
posted command_id req c =
    let seq : ℕ = bump_seq c.ctx.next_seq_num in
    record {
      ctx = record c.ctx { next_seq_num = seq };
      trace =
          reg_write (misc_ram_offset + trigger_offset) 1
          ∷ dma_rmb
          ∷ response_clear
          ∷ request_write (make_request seq command_id req)
          ∷ reg_write (misc_ram_offset + 0x1f8) (u32 (c.ctx.response_addr / 2 ^ 32))
          ∷ reg_write (misc_ram_offset + 0x1fc) (u32 c.ctx.response_addr)
          ∷ reg_write (misc_ram_offset + 0x1f0) (u32 (c.ctx.request_addr / 2 ^ 32))
          ∷ reg_write (misc_ram_offset + 0x1f4) (u32 c.ctx.request_addr)
          ∷ c.trace;
    }

-- The effects of `j` polls.
pub waited : ℕ → List FwEvent → List FwEvent
waited zero t = t
waited (suc j) t = waited j (udelay 1000 ∷ seq_read ∷ t)

-- Both guards of a request pass, and its buffer is large enough.
pub record Fits (ctx : FwIoCtx) (req : List ℕ) (resp_size : ℕ) : Type 0 where
  pub request : ltb (max_size ctx 8) (length req) ≡ false
  pub response : ltb (max_size ctx 4) resp_size ≡ false
  pub buffer : ltb buffer_bytes (8 + length req) ≡ false

module _ (fw : Firmware) where
  execute-posted :
      (command_id : ℕ) (req : List ℕ) (resp_size : ℕ) (c : Channel)
      → Fits c.ctx req resp_size
      → execute_request fw command_id req resp_size c
        ≡ (await_response fw read_polls (bump_seq c.ctx.next_seq_num) >>= λ _.
              take_response fw resp_size)
            (posted command_id req c)
  unfolding execute_request posted
  execute-posted command_id req resp_size c fits = rw (fits.request, fits.response, fits.buffer)

  await_answered :
      (rounds j seq : ℕ) (ctx : FwIoCtx) (t : List FwEvent)
      → j < rounds
      → fw.sequence_number (waited j t) ≡ seq
      → (t' : List FwEvent) × (await_response fw rounds seq (record { ctx = ctx; trace = t })
          ≡ ok tt (record { ctx = ctx; trace = seq_read ∷ t' }))
        × (fw.sequence_number t' ≡ seq)
  unfolding await_response waited
  await_answered zero j seq ctx t lt e = absurd (omega arith)
  await_answered (suc rounds) zero seq ctx t lt e = (t, rw (eq→== _ _ e), e)
  await_answered (suc rounds) (suc j) seq ctx t lt e =
      elim (Bool-cases (fw.sequence_number t == seq)) [
        | inl hit ↦ (t, rw hit, (==_iff _ _).0 hit)
        | inr miss ↦
            rw (miss, ◌>>=◌)
              (await_answered rounds j seq ctx (udelay 1000 ∷ seq_read ∷ t) (omega arith) e)
      ]

  await_silent :
      (rounds seq : ℕ) (ctx : FwIoCtx) (t : List FwEvent)
      → ((s : List FwEvent) → fw.sequence_number s ≢ seq)
      → await_response fw rounds seq (record { ctx = ctx; trace = t })
        ≡ err minus_one (record { ctx = ctx; trace = waited rounds t })
  unfolding await_response waited
  await_silent zero seq ctx t never = refl
  await_silent (suc rounds) seq ctx t never =
      rw (ne→==-false _ _ (never t), ◌>>=◌)
        (await_silent rounds seq ctx (udelay 1000 ∷ seq_read ∷ t) never)

  -- A request that passes both size guards and fits its buffer, and that the firmware answers under its number within
  -- 15000 polls after the queue addresses, the request and the doorbell are written, ends with
  -- what is made of a response seen under that number.
  pub execute_request-answered :
      (command_id : ℕ) (req : List ℕ) (resp_size j : ℕ) (c : Channel)
      → Fits c.ctx req resp_size
      → j < read_polls
      → fw.sequence_number (waited j (posted command_id req c).trace) ≡ bump_seq c.ctx.next_seq_num
      → (t : List FwEvent) × (fw.sequence_number t ≡ bump_seq c.ctx.next_seq_num)
        × (execute_request fw command_id req resp_size c
            ≡ take_response fw resp_size
                (record { ctx = (posted command_id req c).ctx; trace = seq_read ∷ t }))
  execute_request-answered command_id req resp_size j c fits soon answer =
      let p : Channel = posted command_id req c in
      let (t, runs, same) =
        await_answered read_polls j (bump_seq c.ctx.next_seq_num) p.ctx p.trace soon answer in
      (t, same, execute-posted command_id req resp_size c fits ∙ rw (runs, ◌>>=◌))

  -- A request that passes both size guards and fits its buffer and is never answered under its number ends with -1
  -- after 15000 polls, and its number is used up.
  execute_request-timeout :
      (command_id : ℕ) (req : List ℕ) (resp_size : ℕ) (c : Channel)
      → Fits c.ctx req resp_size
      → ((s : List FwEvent) → fw.sequence_number s ≢ bump_seq c.ctx.next_seq_num)
      → execute_request fw command_id req resp_size c
        ≡ err minus_one (record {
          ctx = record c.ctx { next_seq_num = bump_seq c.ctx.next_seq_num };
          trace = waited 15000 (posted command_id req c).trace;
        })
  execute_request-timeout command_id req resp_size c fits never =
      let p : Channel = posted command_id req c in
      execute-posted command_id req resp_size c fits
      ∙ rw (await_silent read_polls (bump_seq c.ctx.next_seq_num) p.ctx p.trace never, ◌>>=◌)
          (unfold posted in refl)

  -- Whatever the firmware answers, a request that succeeds hands out no more than `resp_size`
  -- bytes.
  execute_request_fits :
      (command_id : ℕ) (req : List ℕ) (resp_size : ℕ) (c : Channel) {bytes : List ℕ} {c' : Channel}
      → execute_request fw command_id req resp_size c ≡ ok bytes c'
      → length bytes ≤ resp_size
  execute_request_fits command_id req resp_size c e =
      elim (Bool-cases (ltb (max_size c.ctx 8) (length req))) [
        | inl over ↦ absurd (unfold execute_request in ground (arith, over))
        | inr request ↦ elim (Bool-cases (ltb (max_size c.ctx 4) resp_size)) [
          | inl over ↦ absurd (unfold execute_request in ground (arith, over, request))
          | inr response ↦ elim (Bool-cases (ltb buffer_bytes (8 + length req))) [
            | inl over ↦ absurd (unfold execute_request in ground (arith, over, request, response))
            | inr buffer ↦
                let fits : Fits c.ctx req resp_size = record {
                  request = request;
                  response = response;
                  buffer = buffer;
                } in
                let got =
                  bind_out-ok
                    (await_response fw read_polls (bump_seq c.ctx.next_seq_num)
                      (posted command_id req c))
                    (λ _. take_response fw resp_size)
                    (sym (execute-posted command_id req resp_size c fits) ∙ e) in
                take_response-fits fw resp_size got.1 got.3
          ]
        ]
      ]

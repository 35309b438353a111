-- ===== src/FwIo/Request.antt =====
-- One request to the firmware and its response, `fw_io_execute_request` of v1/fw_io.c. The mutex of the
-- context leaves one request at a time on the channel.
use aws_neuron_driver.Common.{
  ℕ, zero, suc, Bool, true, false, List, [], ◌∷◌, ◌++◌, ◌+◌, ◌-◌, ◌*◌, ◌/◌, ◌%◌, ◌^◌, u8, u32, u64,
  ◌>>>◌, ◌==◌, ltb, if◌then◌else◌, length, M, ok, err, bug, ◌>>=◌, ◌>>◌, pure, fail, fail_if,
  einval, minus_one,
}
use aws_neuron_driver.FwIo.Crc.{crc32c}
pub mod Wire
pub mod Laws

-- The fields of `struct fw_io_ctx` that a request reads. The two buffers are the events below.
pub record FwIoCtx : Type 0 where
  pub next_seq_num : ℕ
  pub request_addr : ℕ
  pub response_addr : ℕ
  pub request_response_size : ℕ

-- What a request does to the world. Registers are offsets from BAR0.
pub data FwEvent : Type 0 where
  reg_write : ℕ → ℕ → FwEvent
  request_write : List ℕ → FwEvent
  response_clear : FwEvent
  dma_rmb : FwEvent
  seq_read : FwEvent
  udelay : ℕ → FwEvent
  msleep : ℕ → FwEvent
  mb : FwEvent

-- The response buffer as the firmware fills it, a function of the effects so far.
pub record Firmware : Type 0 where
  pub sequence_number : List FwEvent → ℕ
  pub error_code : List FwEvent → ℕ
  pub size : List FwEvent → ℕ
  pub byte : List FwEvent → ℕ → ℕ

pub record Channel : Type 0 where
  pub ctx : FwIoCtx
  pub trace : List FwEvent

abbrev pub emit : FwEvent → M Channel (Unit {0})
emit e c = ok tt (record c { trace = e ∷ c.trace })

-- sizeof(struct fw_io_request) and sizeof(struct fw_io_response)
abbrev request_bytes : ℕ
request_bytes = 8

abbrev response_bytes : ℕ
response_bytes = 4

-- MMAP_APB_MISC_RAM_OFFSET and the registers in it
abbrev pub misc_ram_offset : ℕ
misc_ram_offset = 0x78e000

abbrev pub trigger_offset : ℕ
trigger_offset = 0x800

-- The bytes of each of the two buffers that `fw_io_setup` allocates, UINT16_MAX.
abbrev pub buffer_bytes : ℕ
buffer_bytes = 65535

-- A `memcpy` to the request's buffer that ends at byte `n` of it; past its end it is a bug.
abbrev pub in_buffer : (n : ℕ) → M Channel (Unit {0})
in_buffer n = if ltb buffer_bytes n then (λ c. bug) else pure tt

-- FW_IO_RD_TIMEOUT / 1000
abbrev pub read_polls : ℕ
read_polls = 1000 * 1000 * 15 / 1000

-- `fw_io_init`
unfoldable fw_io_init : (request_addr response_addr : ℕ) → M Channel (Unit {0})
fw_io_init request_addr response_addr = do
  emit (reg_write (misc_ram_offset + 0x1f4) (u32 request_addr))
  emit (reg_write (misc_ram_offset + 0x1f0) (u32 (request_addr >>> 32)))
  emit (reg_write (misc_ram_offset + 0x1fc) (u32 response_addr))
  emit (reg_write (misc_ram_offset + 0x1f8) (u32 (response_addr >>> 32)))

-- `fw_io_trigger`
unfoldable pub fw_io_trigger : M Channel (Unit {0})
fw_io_trigger = emit (reg_write (misc_ram_offset + trigger_offset) 1)

-- `if (++ctx->next_seq_num == 0) ctx->next_seq_num = 1`
unfoldable pub bump_seq : ℕ → ℕ
bump_seq seq = let next = u8 (seq + 1) in if next == 0 then 1 else next

-- A little-endian number of `n` bytes.
unfoldable pub le_bytes : (n value : ℕ) → List ℕ
le_bytes zero value = []
le_bytes (suc n) value = value % 256 ∷ le_bytes n (value / 256)

-- `struct fw_io_request` in memory.
unfoldable pub encode : (seq command_id size crc : ℕ) (payload : List ℕ) → List ℕ
unfolding le_bytes
encode seq command_id size crc payload =
    seq ∷ command_id ∷ (le_bytes 2 size ++ (le_bytes 4 crc ++ payload))

-- The first `n` bytes of a buffer; what the checksum reads.
unfoldable pub first_bytes : ℕ → List ℕ → List ℕ
first_bytes zero bytes = []
first_bytes (suc n) [] = []
first_bytes (suc n) (b ∷ bytes) = b ∷ first_bytes n bytes

-- The request with its size, a `u16`, and its checksum, taken with the checksum field 0.
unfoldable pub make_request : (seq command_id : ℕ) (payload : List ℕ) → List ℕ
unfolding encode first_bytes
make_request seq command_id payload =
    let size : ℕ = (length payload + request_bytes) % 2 ^ 16 in
    let crc : ℕ = crc32c (first_bytes size (encode seq command_id size 0 payload)) in
    encode seq command_id size crc payload

-- `ctx->request_response_size - sizeof(...)`, computed on `size_t` and stored in a `u32`
abbrev pub max_size : FwIoCtx → ℕ → ℕ
max_size ctx header = u32 (u64 (ctx.request_response_size + 2 ^ 64 - header))

module _ (fw : Firmware) where
  -- The wait for the response, with `rounds` polls left.
  unfoldable pub await_response : (rounds seq : ℕ) → M Channel (Unit {0})
  await_response zero seq = fail minus_one
  await_response (suc rounds) seq = λ c.
      let seen : Channel = record c { trace = seq_read ∷ c.trace } in
      let again = (do emit (udelay 1000); await_response rounds seq) seen in
      if fw.sequence_number c.trace == seq then ok tt seen else again

  -- `memcpy` of the response's data.
  unfoldable pub copy_bytes : List FwEvent → (n from : ℕ) → List ℕ
  copy_bytes t zero from = []
  copy_bytes t (suc n) from = fw.byte t from ∷ copy_bytes t n (from + 1)

  -- What is done with a response, whose size is a `u16`: its bytes if it succeeded and fits.
  unfoldable pub take_response : (resp_size : ℕ) → M Channel (List ℕ)
  unfolding copy_bytes
  take_response resp_size = λ c.
      let data_size : ℕ = u64 (fw.size c.trace % 2 ^ 16 + 2 ^ 64 - response_bytes) in
      let bytes : List ℕ = copy_bytes c.trace data_size 0 in
      if fw.error_code c.trace == 0
      then if ltb resp_size data_size then err minus_one c else ok bytes c
      else err minus_one c

  -- `fw_io_execute_request`; `req_size` is the length of `req`, and the result is what is copied to
  -- `resp`.
  unfoldable pub execute_request :
      (command_id : ℕ) (req : List ℕ) (resp_size : ℕ) → M Channel (List ℕ)
  unfolding fw_io_init fw_io_trigger
  execute_request command_id req resp_size = λ c.
      let seq : ℕ = bump_seq c.ctx.next_seq_num in
      (do
        fail_if (ltb (max_size c.ctx request_bytes) (length req)) einval
        fail_if (ltb (max_size c.ctx response_bytes) resp_size) einval
        fw_io_init c.ctx.request_addr c.ctx.response_addr
        (λ d. ok tt (record d { ctx = record c.ctx { next_seq_num = seq } }))
        in_buffer (request_bytes + length req)
        emit (request_write (make_request seq command_id req))
        emit response_clear
        emit dma_rmb
        fw_io_trigger
        await_response read_polls seq
        take_response resp_size)
        c

-- `fw_io_setup`: a zeroed context; the addresses are those of its two buffers.
unfoldable pub new_ctx : (request_addr response_addr : ℕ) → FwIoCtx
new_ctx request_addr response_addr = record {
  next_seq_num = 1;
  request_addr = request_addr;
  response_addr = response_addr;
  request_response_size = 0;
}

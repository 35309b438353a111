-- ===== src/FwIo/Services/Words.antt =====
-- Words and bytes of the firmware's answers and of a metric.
use aws_neuron_driver.Common.{
  ℕ, zero, suc, false, List, [], ◌∷◌, Option, none, some, ◌+◌, ◌-◌, ◌*◌, ◌/◌, ◌%◌, ◌^◌, ◌≤◌, ◌<◌,
  ◌≡◌, ◌⊎◌, inl, inr, get_elem?, refl, ap, ◌∙◌, arith, u32, u64, ◌==◌, ltb, length, ok, ◌>>=◌,
  if◌then◌else◌, ne→==-false, eq→==,
}
use aws_neuron_driver.FwIo.Crc.Table.{IsBytes}
use aws_neuron_driver.FwIo.Request.{
  FwEvent, seq_read, reg_write, Firmware, Channel, le_bytes, first_bytes, bump_seq, copy_bytes,
  take_response, execute_request, read_polls, misc_ram_offset,
}
use aws_neuron_driver.FwIo.Request.Laws.{Fits, posted, waited, execute_request-answered}
use aws_neuron_driver.FwIo.Services.{
  cmd_read, cmd_post_to_cw, metric_offset, fw_io_post_metric, le_value, array_bytes, u32s, overlay,
  metric_words, write_words, fw_io_read,
}

-- Every value is a `u32`.
unfoldable pub AreU32 : List ℕ → Type 0
AreU32 [] = Unit {0}
AreU32 (v ∷ values) = (v < 2 ^ 32) × AreU32 values

u32s-array_bytes : (values : List ℕ) → AreU32 values → u32s (array_bytes 4 values) ≡ values
unfolding u32s array_bytes le_bytes le_value AreU32
u32s-array_bytes [] small = refl
u32s-array_bytes (v ∷ values) (v_small, small) =
    rw (u32s-array_bytes values small) (ap (λ x. x ∷ values) value)
  where
    value :
        v % 256
          + 256
            * (v / 256 % 256
                + 256 * (v / 256 / 256 % 256 + 256 * (v / 256 / 256 / 256 % 256 + 256 * 0)))
        ≡ v
    value = omega arith

length-array_bytes : (values : List ℕ) → length (array_bytes 4 values) ≡ 4 * length values
unfolding array_bytes le_bytes
length-array_bytes [] = refl
length-array_bytes (v ∷ values) = omega (arith, length-array_bytes values)

length-array_bytes8 : (addrs : List ℕ) → length (array_bytes 8 addrs) ≡ 8 * length addrs
unfolding array_bytes le_bytes
length-array_bytes8 [] = refl
length-array_bytes8 (v ∷ addrs) = omega (arith, length-array_bytes8 addrs)

overlay-whole :
    (bytes buffer : List ℕ) → length bytes ≡ length buffer → overlay bytes buffer ≡ bytes
unfolding overlay
overlay-whole [] [] e = refl
overlay-whole [] (o ∷ buffer) e = absurd (omega arith)
overlay-whole (b ∷ bytes) [] e = absurd (omega arith)
overlay-whole (b ∷ bytes) (o ∷ buffer) e =
    ap (λ t. b ∷ t) (overlay-whole bytes buffer (omega arith))

-- The firmware's response, whenever it is looked at, is the words.
pub record AnswersWith (fw : Firmware) (values : List ℕ) : Type 0 where
  pub success : (t : List FwEvent) → fw.error_code t ≡ 0
  pub size : (t : List FwEvent) → fw.size t ≡ 4 + 4 * length values
  pub data_bytes : (t : List FwEvent) → copy_bytes fw t (4 * length values) 0 ≡ array_bytes 4 values

take_response-words :
    (fw : Firmware) (values : List ℕ) (n : ℕ) (c : Channel)
    → AnswersWith fw values
    → n ≡ 4 * length values
    → 4 + n < 2 ^ 16
    → take_response fw n c ≡ ok (array_bytes 4 values) c
unfolding take_response
take_response-words fw values n c a e small =
    let size : u64 (fw.size c.trace % 2 ^ 16 + 2 ^ 64 - 4) ≡ 4 * length values =
      omega (arith, a.size c.trace) in
    let fits : ltb n (u64 (fw.size c.trace % 2 ^ 16 + 2 ^ 64 - 4)) ≡ false = ground (arith, size) in
    rw (a.success c.trace, fits, size, a.data_bytes c.trace) refl

-- A read of registers that passes the size guards, fits the request buffer of 65535 bytes, and
-- that the firmware answers under its number within 15000 polls with success and one little-
-- endian word for each register, succeeds with those words, whatever the buffer held.
pub fw_io_read-answered :
    (fw : Firmware) (addrs values answer : List ℕ) (j : ℕ) (c : Channel)
    → length values ≡ length addrs
    → length answer ≡ length addrs
    → AreU32 answer
    → AnswersWith fw answer
    → Fits c.ctx (array_bytes 8 addrs) (4 * length addrs)
    → j < read_polls
    → fw.sequence_number (waited j (posted cmd_read (array_bytes 8 addrs) c).trace)
      ≡ bump_seq c.ctx.next_seq_num
    → (c' : Channel) × (fw_io_read fw addrs values c ≡ ok answer c')
unfolding fw_io_read
fw_io_read-answered fw addrs values answer j c values_length answer_length small a fits soon
      number =
    let n : ℕ = 4 * length addrs in
    let few : 4 + n < 2 ^ 16 = ground (arith, fits.buffer, length-array_bytes8 addrs) in
    let (t, same, runs) =
      execute_request-answered fw cmd_read (array_bytes 8 addrs) n j c fits soon number in
    let c' : Channel = record {
      ctx = (posted cmd_read (array_bytes 8 addrs) c).ctx;
      trace = seq_read ∷ t;
    } in
    let taken = take_response-words fw answer n c' a (omega arith) few in
    let whole =
      overlay-whole (array_bytes 4 answer) (array_bytes 4 values)
        (omega (arith, length-array_bytes answer, length-array_bytes values)) in
    let narrow : u32 n ≡ n = omega arith in
    (c', rw (narrow, runs ∙ taken, ◌>>=◌, whole, u32s-array_bytes answer small) refl)

-- What a register holds after the effects, if they wrote it.
unfoldable pub last_write : List FwEvent → ℕ → Option ℕ
last_write [] a = none
last_write (reg_write b v ∷ trace) a =
    let before = last_write trace a in if b == a then some v else before
last_write (e ∷ trace) a = last_write trace a

unfoldable words_from : (c : Channel) (offset : ℕ) → List ℕ → Channel
words_from c offset [] = c
words_from c offset (v ∷ values) =
    words_from (record c { trace = reg_write offset v ∷ c.trace }) (offset + 4) values

write_words-words_from :
    (offset : ℕ) (values : List ℕ) (c : Channel)
    → write_words offset values c ≡ ok tt (words_from c offset values)
unfolding write_words words_from
write_words-words_from offset [] c = refl
write_words-words_from offset (v ∷ values) c = write_words-words_from (offset + 4) values _

words_from-outside :
    (offset : ℕ) (values : List ℕ) (c : Channel) (a : ℕ)
    → (a < offset) ⊎ (offset + 4 * length values ≤ a)
    → last_write (words_from c offset values).trace a ≡ last_write c.trace a
unfolding words_from last_write
words_from-outside offset [] c a out = refl
words_from-outside offset (v ∷ values) c a (inl below) =
    words_from-outside (offset + 4) values _ a (inl (omega arith))
    ∙ rw (ne→==-false offset a (omega arith)) refl
words_from-outside offset (v ∷ values) c a (inr above) =
    words_from-outside (offset + 4) values _ a (inr (omega arith))
    ∙ rw (ne→==-false offset a (omega arith)) refl

words_from-inside :
    (offset : ℕ) (values : List ℕ) (c : Channel) (i : ℕ)
    → i < length values
    → last_write (words_from c offset values).trace (offset + 4 * i) ≡ get_elem? values i
unfolding words_from last_write
words_from-inside offset [] c i lt = absurd (omega arith)
words_from-inside offset (v ∷ values) c zero lt =
    words_from-outside (offset + 4) values _ (offset + 4 * 0) (inl (omega arith))
    ∙ rw (eq→== offset (offset + 4 * 0) (omega arith)) refl
words_from-inside offset (v ∷ values) c (suc i) lt =
    ap
      (λ (x : ℕ).
        last_write
          (words_from (record c { trace = reg_write offset v ∷ c.trace }) (offset + 4) values).trace
          x)
      place
    ∙ words_from-inside (offset + 4) values _ i (omega arith)
  where
    place : offset + 4 * suc i ≡ offset + 4 + 4 * i
    place = omega arith

length-metric_words : (bytes : List ℕ) → length (metric_words bytes) ≡ (length bytes + 3) / 4
unfolding metric_words
length-metric_words [] = refl
length-metric_words (a ∷ []) = refl
length-metric_words (a ∷ b ∷ []) = refl
length-metric_words (a ∷ b ∷ c ∷ []) = refl
length-metric_words (a ∷ b ∷ c ∷ d ∷ bytes) = omega (arith, length-metric_words bytes)

cons_eq : {x y : ℕ} {xs ys : List ℕ} → x ≡ y → xs ≡ ys → x ∷ xs ≡ y ∷ ys
cons_eq e es = cc

-- The bytes of the words are those of the metric, and zeros after them.
first_bytes-metric_words :
    (bytes : List ℕ)
    → IsBytes bytes
    → first_bytes (length bytes) (array_bytes 4 (metric_words bytes)) ≡ bytes
unfolding first_bytes array_bytes metric_words le_bytes le_value
first_bytes-metric_words [] small = refl
first_bytes-metric_words (a ∷ []) small = let h0 : a < 256 = small.0 in cons_eq (omega arith) refl
first_bytes-metric_words (a ∷ b ∷ []) small =
    let h0 : a < 256 = small.0 in
    let h1 : b < 256 = small.1.0 in cons_eq (omega arith) (cons_eq (omega arith) refl)
first_bytes-metric_words (a ∷ b ∷ c ∷ []) small =
    let h0 : a < 256 = small.0 in
    let h1 : b < 256 = small.1.0 in
    let h2 : c < 256 = small.1.1.0 in
    cons_eq (omega arith) (cons_eq (omega arith) (cons_eq (omega arith) refl))
first_bytes-metric_words (a ∷ b ∷ c ∷ d ∷ bytes) small =
    let h0 : a < 256 = small.0 in
    let h1 : b < 256 = small.1.0 in
    let h2 : c < 256 = small.1.1.0 in
    let h3 : d < 256 = small.1.1.1.0 in
    let rest = first_bytes-metric_words bytes small.1.1.1.1 in
    cons_eq (omega arith)
      (cons_eq (omega arith) (cons_eq (omega arith) (cons_eq (omega arith) rest)))

-- The channel with a metric in its registers: the words are there, they hold the metric's bytes, and no
-- other register is written.
pub record HasMetric (bytes : List ℕ) (before after : Channel) : Type 0 where
  same_ctx : after.ctx ≡ before.ctx
  pub stored :
      (i : ℕ)
      → i < (length bytes + 3) / 4
      → last_write after.trace (misc_ram_offset + metric_offset + 4 * i)
        ≡ get_elem? (metric_words bytes) i
  pub contents : first_bytes (length bytes) (array_bytes 4 (metric_words bytes)) ≡ bytes
  pub others :
      (a : ℕ)
      → (a < misc_ram_offset + metric_offset)
        ⊎ (misc_ram_offset + metric_offset + (length bytes + 3) / 4 * 4 ≤ a)
      → last_write after.trace a ≡ last_write before.trace a

same_ctx_words_from :
    (offset : ℕ) (values : List ℕ) (c : Channel) → (words_from c offset values).ctx ≡ c.ctx
unfolding words_from
same_ctx_words_from offset [] c = refl
same_ctx_words_from offset (v ∷ values) c = same_ctx_words_from (offset + 4) values _

-- `fw_io_post_metric` of a list of bytes is a request with these bytes from a channel whose
-- context is unchanged, in which the registers from the metric offset on hold as many words as
-- the bytes need, their bytes are those of the metric, and no other register is written.
pub fw_io_post_metric-HasMetric :
    (fw : Firmware) (bytes : List ℕ) (c : Channel)
    → IsBytes bytes
    → (c' : Channel) × HasMetric bytes c c'
      × (fw_io_post_metric fw bytes c ≡ execute_request fw cmd_post_to_cw bytes (length bytes) c')
unfolding fw_io_post_metric
fw_io_post_metric-HasMetric fw bytes c small =
    let base : ℕ = misc_ram_offset + metric_offset in
    let count = length-metric_words bytes in
    (
      words_from c base (metric_words bytes),
      record {
        same_ctx = same_ctx_words_from base (metric_words bytes) c;
        stored = λ i lt. words_from-inside base (metric_words bytes) c i (omega arith);
        contents = first_bytes-metric_words bytes small;
        others = λ a out.
            words_from-outside base (metric_words bytes) c a
              (elim out [ inl below ↦ inl below | inr above ↦ inr (omega arith) ]);
      },
      rw (write_words-words_from base (metric_words bytes) c, ◌>>=◌) refl,
    )

-- ===== src/Hal/UsbMsp/Device.antt =====
-- trikHal/src/trik/usbMsp/usbMSP430Interface.cpp: the device file, the global variables, and the
-- exchange of packets. The operating system is a parameter.
pub mod Polling
pub mod Exchange
use trik_runtime.Prelude.{
  ℕ, zero, suc, ◌+◌, ◌-◌, ◌%◌, ◌^◌, ◌≡◌, Bool, true, false, Option, none, some, List, [], ◌∷◌,
  if◌then◌else◌, ◌==◌, ◌&&◌, ◌||◌, not, ltb, length, take, drop,
}
use trik_runtime.Prelude.Int.{is_negative, ℤ, pos, negsuc}
use trik_runtime.Text.{Bytes}
use trik_runtime.Hal.UsbMsp.Defines.Registers.{
  no_error, device_error, packet_error, recv_pack_len, max_string_length, time_out,
}
use trik_runtime.Hal.UsbMsp.Packets.{
  Fields, make_write_reg_packet, make_read_reg_packet, decode_received_packet, strlen,
}

-- The calls of the operating system on the device file, over its own state.
pub record Tty : Type 1 where
  pub World : Type 0
  pub open_device : World → ℤ × World  -- the descriptor, negative on an error
  pub set_attributes : World → World  -- tcgetattr, tcflush and tcsetattr of the serial line
  pub write : Bytes → World → ℤ × World  -- the number of bytes written
  pub read : World → Option Bytes × World  -- at most MAX_STRING_LENGTH bytes; `none` is the result -1
  pub close : World → World

-- The global variables, with the state of the operating system.
pub record Device (World : Type 0) : Type 0 where
  pub mper : ℕ
  pub sper : ℕ
  pub usb_out_descr : ℤ
  pub alt_func_flag : ℕ
  pub world : World

-- Undefined behaviour: a variable that is not initialized is read, or a float does not fit into
-- uint16_t. The third is no behaviour of the program: the fuel of a loop of the model was short.
pub data Fault : Type 0 where
  uninitialized : Fault
  conversion : Fault
  out_of_fuel : Fault

pub data Outcome (A : Type 0) : Type 0 where
  ok : A → Outcome A
  fault : Fault → Outcome A

infixl 5 ◌>>=◌
abbrev pub ◌>>=◌ : {A B : Type 0} → Outcome A → (A → Outcome B) → Outcome B
ok a >>= f = f a
fault e >>= f = fault e

-- A local buffer for a text, up to the 0 that ends it; `none` while it has not been written.
abbrev pub Buffer : Type 0
Buffer = Option Bytes

-- out_msp_packet[0] = 0; out_msp_packet[1] = 0. A byte of the buffer beyond these that was not written
-- is left out: nothing reads it, since the packet does not start with ':' any more.
abbrev pub blank : Buffer → Bytes
blank none = 0 ∷ 0 ∷ []
blank (some b) = 0 ∷ 0 ∷ drop 2 b

abbrev pub uint32 : ℤ → ℕ
uint32 (pos n) = n % 2 ^ 32
uint32 (negsuc n) = 2 ^ 32 - 1 - n % 2 ^ 32

-- n_read < RECV_PACK_LEN, with -1 where the read failed.
abbrev pub is_short : Option Bytes → Bool
is_short none = true
is_short (some b) = ltb (length b) recv_pack_len

-- n_read != RECV_PACK_LEN.
abbrev pub is_wrong : Option Bytes → Bool
is_wrong none = true
is_wrong (some b) = not (length b == recv_pack_len)

abbrev pub bytes_of : Option Bytes → Bytes
bytes_of none = []
bytes_of (some b) = b

module _ (os : Tty) where
  -- The loop that reads the answer: the last result, tout, and the state. A round has passed when
  -- the test is made, so the loop starts with tout = 1 after the first read.
  unfoldable pub read_answer : ℕ → ℕ → Option Bytes × os.World → Option Bytes × ℕ × os.World
  read_answer zero tout (answer, w) = (answer, tout, w)
  read_answer (suc rounds) tout (answer, w) =
      let rest = read_answer rounds (tout + 1) (os.read w) in
      if is_short answer && ltb tout time_out then rest else (answer, tout, w)

  -- The result, out_msp_packet, and the state.
  unfoldable pub send_usb_packet : Bytes → Buffer → Device os.World → ℕ × Buffer × Device os.World
  send_usb_packet packet out d =
      let written = os.write packet d.world in
      let first = os.read written.1 in
      let answer = read_answer (time_out - 1) 1 first in
      if is_negative d.usb_out_descr
      then (device_error, out, d)
      else if not (uint32 written.0 == strlen packet)
      then (packet_error, out, record d { world = written.1 })
      else if is_wrong answer.0 || answer.1 == time_out
      then (packet_error, some (blank out), record d { world = answer.2 })
      else (no_error, some (bytes_of answer.0), record d { world = answer.2 })

  -- makeWriteRegPacket(s1, ...); sendUSBPacket(s1, s1); the result is dropped.
  unfoldable pub write_register : ℕ → ℕ → ℕ → Device os.World → Device os.World
  write_register dev_addr reg_addr reg_val d =
      let packet = make_write_reg_packet dev_addr reg_addr reg_val in
      (send_usb_packet packet (some packet) d).2

  -- A sequence of such writes.
  unfoldable pub write_registers : List (ℕ × ℕ × ℕ) → Device os.World → Device os.World
  write_registers [] d = d
  write_registers ((dev_addr, reg_addr, reg_val) ∷ ws) d =
      write_registers ws (write_register dev_addr reg_addr reg_val d)

-- The local variables of a reading loop: s2, what the last packet with fields said (`none` while
-- devaddr, funccode and regaddr are not assigned; regval is UINT32_MAX till then), and tmout.
pub record Poll : Type 0 where
  pub s2 : Buffer
  pub seen : Option Fields
  pub tmout : ℕ

abbrev pub fresh : Buffer → Poll
fresh s2 = record { s2 = s2; seen = none; tmout = 0 }

abbrev pub regval_of : Option Fields → ℕ
regval_of none = 2 ^ 32 - 1
regval_of (some f) = f.reg_val

abbrev pub assigned : Option Fields → Option Fields → Option Fields
assigned none old = old
assigned (some f) old = some f

-- The condition of the loop: (devaddr != dev || regaddr != reg) && tmout < TIME_OUT.
unfoldable pub goes_on : ℕ → ℕ → Option Fields → ℕ → Outcome Bool
goes_on dev reg none tmout = fault uninitialized
goes_on dev reg (some f) tmout =
    ok ((not (f.dev_addr == dev) || not (f.reg_addr == reg)) && ltb tmout time_out)

-- Another round, the rest of the loop, if the condition holds.
abbrev pub if_more : {A : Type 0} → Outcome Bool → Outcome A → A → Outcome A
if_more (ok true) rest s = rest
if_more (ok false) rest s = ok s
if_more (fault e) rest s = fault e

module _ (os : Tty) where
  decoded : Poll → Buffer → Device os.World → Outcome (Poll × Device os.World)
  decoded l none d = fault uninitialized
  decoded l (some p) d = ok (
    record {
      s2 = some p;
      seen = assigned (decode_received_packet p).1 l.seen;
      tmout = (l.tmout + 1) % 2 ^ 16;
    },
    d,
  )

  -- The body of the loop.
  unfoldable pub poll_round : ℕ → ℕ → Poll → Device os.World → Outcome (Poll × Device os.World)
  unfolding decoded
  poll_round dev reg l d =
      let sent = send_usb_packet os (make_read_reg_packet dev reg) l.s2 d in decoded l sent.1 sent.2

  unfoldable pub poll : ℕ → ℕ → ℕ → Poll → Device os.World → Outcome (Poll × Device os.World)
  poll zero dev reg l d = fault out_of_fuel
  poll (suc rounds) dev reg l d = poll_round dev reg l d >>= λ s.
      let rest = poll rounds dev reg s.0 s.1 in if_more (goes_on dev reg s.0.seen s.0.tmout) rest s

-- As many rounds as tmout has values.
abbrev pub poll_fuel : ℕ
poll_fuel = 2 ^ 16

-- ===== src/Hal/UsbMsp/Packets/Decoding.antt =====
-- What decodeReceivedPacket makes of the packets of the microcontroller.
use trik_runtime.Prelude.{
  ℕ, suc, ◌+◌, ◌%◌, ◌^◌, ◌<◌, ◌≡◌, refl, ◌∙◌, ap, ap₂, Bool-cases, inl, inr, some, List, map, false,
  [], ◌∷◌, ◌++◌, if◌then◌else◌, ◌==◌, arith, length, length-append, length-map, drop,
}
use trik_runtime.Text.{Bytes}
use trik_runtime.Hal.UsbMsp.Defines.Registers.{write_func, crc_error, no_error, num_byte, num_dword}
use trik_runtime.Hal.UsbMsp.Hex.{
  hex_text, hex2num, hex_loop, hex_loop-hex_text, hex_digit, hex_digits, length-hex_digits,
}
use trik_runtime.Hal.UsbMsp.Packets.{
  Fields, frame, check_crc, checksum, strlen, read_fields, decode_received_packet,
  make_write_reg_packet, make_read_reg_packet,
}

-- The fields of a packet are bytes, and the value of a register has 32 bits.
abbrev pub IsPacket : Fields → Type 0
IsPacket f =
    (f.dev_addr < 2 ^ 8) × (f.func_code < 2 ^ 8) × (f.reg_addr < 2 ^ 8) × (f.reg_val < 2 ^ 32)

skip_byte : (k n : ℕ) (rest : Bytes) → drop (suc (suc k)) (hex_text 2 n ++ rest) ≡ drop k rest
unfolding hex_text
skip_byte k n rest = refl

skip_value : (n : ℕ) (rest : Bytes) → drop 8 (hex_text 8 n ++ rest) ≡ rest
unfolding hex_text
skip_value n rest = refl

byte_at :
    (p rest : Bytes) (at n : ℕ)
    → n < 2 ^ 8
    → drop at p ≡ hex_text 2 n ++ rest
    → hex2num p at num_byte % 2 ^ 8 ≡ n
unfolding hex2num
byte_at p rest at n h e =
    ap (λ q. hex_loop q 2 0 % 2 ^ 8) e
    ∙ ap (λ v. v % 2 ^ 8) (hex_loop-hex_text 2 n rest (omega arith) h)
    ∙ omega arith

value_at :
    (p rest : Bytes) (at n : ℕ)
    → n < 2 ^ 32
    → drop at p ≡ hex_text 8 n ++ rest
    → hex2num p at num_dword ≡ n
unfolding hex2num
value_at p rest at n h e = ap (λ q. hex_loop q 8 0) e ∙ hex_loop-hex_text 8 n rest (omega arith) h

-- What follows each field.
abbrev from_crc : ℕ → Bytes
from_crc c = hex_text 2 c ++ (b'\n' ∷ [])

abbrev from_value : Fields → ℕ → Bytes
from_value f c = hex_text 8 f.reg_val ++ from_crc c

abbrev from_register : Fields → ℕ → Bytes
from_register f c = hex_text 2 f.reg_addr ++ from_value f c

abbrev from_function : Fields → ℕ → Bytes
from_function f c = hex_text 2 f.func_code ++ from_register f c

at_register :
    (k : ℕ) (f : Fields) (c : ℕ)
    → drop (suc (suc (suc (suc (suc k))))) (frame f c) ≡ drop k (from_register f c)
at_register k f c =
    skip_byte (suc (suc k)) f.dev_addr (from_function f c)
    ∙ skip_byte k f.func_code (from_register f c)

read_fields-frame : (f : Fields) (c : ℕ) → IsPacket f → read_fields (frame f c) ≡ f
read_fields-frame f c h =
    let a = byte_at (frame f c) (from_function f c) 1 f.dev_addr h.0 refl in
    let b =
      byte_at (frame f c) (from_register f c) 3 f.func_code h.1
        (skip_byte 0 f.dev_addr (from_function f c)) in
    let r = byte_at (frame f c) (from_value f c) 5 f.reg_addr h.2 (at_register 0 f c) in
    let v =
      value_at (frame f c) (from_crc c) 7 f.reg_val h.3
        (at_register 2 f c ∙ skip_byte 0 f.reg_addr (from_value f c)) in
    cc (a, b, r, v)

checksum_field : (f : Fields) (c : ℕ) → c < 2 ^ 8 → hex2num (frame f c) 15 num_byte % 2 ^ 8 ≡ c
checksum_field f c h = byte_at (frame f c) (b'\n' ∷ []) 15 c h (
    at_register 10 f c
    ∙ skip_byte 8 f.reg_addr (from_value f c)
    ∙ skip_value f.reg_val (from_crc c))

strlen_digits :
    (ds : List ℕ) (rest : Bytes) → strlen (map hex_digit ds ++ rest) ≡ length ds + strlen rest
strlen_digits [] rest = omega arith
strlen_digits (d ∷ ds) rest =
    let text : (hex_digit d == 0) ≡ false = ground arith in
    rw text (omega (arith, strlen_digits ds rest))

strlen-hex_text : (w n : ℕ) (rest : Bytes) → strlen (hex_text w n ++ rest) ≡ w + strlen rest
unfolding hex_text
strlen-hex_text w n rest = strlen_digits (hex_digits w n) rest ∙ rw length-hex_digits

strlen-frame : (f : Fields) (c : ℕ) → strlen (frame f c) ≡ 18
strlen-frame f c = simp strlen-hex_text

check_crc_lem :
    (crc : ℕ) (f : Fields)
    → check_crc crc f ≡ (if crc == checksum f then (no_error, some f) else (crc_error, some f))
unfolding check_crc
check_crc_lem crc f = elim (Bool-cases (crc == checksum f)) [
  | inl e ↦ rw e refl
  | inr e ↦ rw e refl
]

-- A packet with a right checksum is accepted, any other is refused with its fields assigned.
pub decode_received_packet-frame :
    (f : Fields) (crc : ℕ)
    → IsPacket f
    → crc < 2 ^ 8
    → decode_received_packet (frame f crc)
      ≡ (if crc == checksum f then (no_error, some f) else (crc_error, some f))
unfolding decode_received_packet
decode_received_packet-frame f crc h k =
    rw strlen-frame
      (ap₂ check_crc (checksum_field f crc k) (read_fields-frame f crc h) ∙ check_crc_lem crc f)

-- What is written to a register is read as such.
pub decode_received_packet-make_write_reg_packet :
    (dev_addr reg_addr reg_val : ℕ)
    → dev_addr < 2 ^ 8
    → reg_addr < 2 ^ 8
    → reg_val < 2 ^ 32
    → decode_received_packet (make_write_reg_packet dev_addr reg_addr reg_val) ≡ (
      no_error,
      some (record {
        dev_addr = dev_addr;
        func_code = write_func;
        reg_addr = reg_addr;
        reg_val = reg_val;
      }),
    )
unfolding make_write_reg_packet
decode_received_packet-make_write_reg_packet a r v ha hr hv =
    decode_received_packet-frame _ _ (ha, omega arith, hr, hv) (omega arith) ∙ ground arith

-- The fields are assigned whatever the checksum says.
pub decode_received_packet-fields :
    (f : Fields) (crc : ℕ)
    → IsPacket f
    → crc < 2 ^ 8
    → (decode_received_packet (frame f crc)).1 ≡ some f
decode_received_packet-fields f crc h k =
    ap (λ r. r.1) (decode_received_packet-frame f crc h k)
    ∙ elim (Bool-cases (crc == checksum f)) [ inl e ↦ rw e refl | inr e ↦ rw e refl ]

length-hex_text : (w n : ℕ) (rest : Bytes) → length (hex_text w n ++ rest) ≡ w + length rest
unfolding hex_text
length-hex_text w n rest =
    length-append (map hex_digit (hex_digits w n)) rest
    ∙ rw (length-map hex_digit (hex_digits w n), length-hex_digits)

pub length-frame : (f : Fields) (crc : ℕ) → length (frame f crc) ≡ 18
length-frame f crc = simp length-hex_text

pub strlen-make_read_reg_packet : (dev reg : ℕ) → strlen (make_read_reg_packet dev reg) ≡ 10
unfolding make_read_reg_packet
strlen-make_read_reg_packet dev reg = simp strlen-hex_text

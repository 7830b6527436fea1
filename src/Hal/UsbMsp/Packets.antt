-- ===== src/Hal/UsbMsp/Packets.antt =====
-- trikHal/src/trik/usbMsp/usbMSP430Interface.cpp: the packets that are exchanged with the
-- microcontroller. A buffer is the list of its bytes.
pub mod Decoding
use trik_runtime.Prelude.{
  ℕ, zero, suc, ◌+◌, ◌-◌, ◌*◌, ◌/◌, ◌%◌, ◌^◌, ◌≡◌, refl, Bool, true, false, Option, none, some,
  List, [], ◌∷◌, ◌++◌, if◌then◌else◌, ◌==◌, not,
}
use trik_runtime.Text.{Bytes}
use trik_runtime.Hal.UsbMsp.Defines.Registers.{
  write_func, read_func, start_error, length_error, crc_error, no_error, recv_pack_len, num_byte,
  num_dword,
}
use trik_runtime.Hal.UsbMsp.Hex.{hex_text, hex2num}

-- What a packet says.
pub record Fields : Type 0 where
  pub dev_addr : ℕ
  pub func_code : ℕ
  pub reg_addr : ℕ
  pub reg_val : ℕ

-- The sum of the bytes of a register value, each as uint8_t.
abbrev pub sum_of_bytes : ℕ → ℕ
sum_of_bytes v = v % 2 ^ 8 + v / 2 ^ 8 % 2 ^ 8 + v / 2 ^ 16 % 2 ^ 8 + v / 2 ^ 24 % 2 ^ 8

-- (0xFF - sum + 1) & 0xFF: the sum is an int of at most seven bytes, and 0x700 keeps the difference
-- a natural number without changing its last byte.
abbrev pub negated_sum : ℕ → ℕ
negated_sum sum = (0xff + 0x700 - sum + 1) % 0x100

abbrev pub checksum : Fields → ℕ
checksum f = negated_sum (f.dev_addr + f.func_code + f.reg_addr + sum_of_bytes f.reg_val)

-- ":%02X%02X%02X%08X%02X\n".
abbrev pub frame : Fields → ℕ → Bytes
frame f crc =
    b':'
    ∷ (hex_text 2 f.dev_addr
        ++ (hex_text 2 f.func_code
            ++ (hex_text 2 f.reg_addr
                ++ (hex_text 8 f.reg_val ++ (hex_text 2 crc ++ (b'\n' ∷ []))))))

unfoldable pub make_write_reg_packet : ℕ → ℕ → ℕ → Bytes
make_write_reg_packet dev_addr reg_addr reg_val =
    let f : Fields = record {
      dev_addr = dev_addr;
      func_code = write_func;
      reg_addr = reg_addr;
      reg_val = reg_val;
    } in
    frame f (checksum f)

unfoldable pub make_read_reg_packet : ℕ → ℕ → Bytes
make_read_reg_packet dev_addr reg_addr =
    b':'
    ∷ (hex_text 2 dev_addr
        ++ (hex_text 2 read_func
            ++ (hex_text 2 reg_addr
                ++ (hex_text 2 (negated_sum (dev_addr + read_func + reg_addr)) ++ (b'\n' ∷ [])))))

-- The bytes before the first 0.
abbrev pub strlen : Bytes → ℕ
strlen [] = 0
strlen (c ∷ cs) = if c == 0 then 0 else suc (strlen cs)

abbrev pub starts_with_colon : Bytes → Bool
starts_with_colon [] = false
starts_with_colon (c ∷ cs) = c == b':'

abbrev pub read_fields : Bytes → Fields
read_fields p = record {
  dev_addr = hex2num p 1 num_byte % 2 ^ 8;
  func_code = hex2num p 3 num_byte % 2 ^ 8;
  reg_addr = hex2num p 5 num_byte % 2 ^ 8;
  reg_val = hex2num p 7 num_dword;
}

-- The test of the checksum, when the fields have been assigned.
unfoldable pub check_crc : ℕ → Fields → ℕ × Option Fields
check_crc crc f = if not (crc == checksum f) then (crc_error, some f) else (no_error, some f)

-- The result, and the fields where they are assigned.
unfoldable pub decode_received_packet : Bytes → ℕ × Option Fields
decode_received_packet p =
    if not (starts_with_colon p)
    then (start_error, none)
    else if not (strlen p == recv_pack_len)
    then (length_error, none)
    else check_crc (hex2num p 15 num_byte % 2 ^ 8) (read_fields p)

-- ===== src/Hal/UsbMsp/Tests.antt =====
-- Packets of an encoder, and a microcontroller that always gives the same answer.
use trik_runtime.Prelude.{
  ℕ, ◌≡◌, refl, true, none, some, [], ◌∷◌, ◌-◌, ◌*◌, ◌/◌, ◌<◌, arith, if◌then◌else◌, ◌==◌,
}
use trik_runtime.Prelude.Int.{pos, negsuc}
use trik_runtime.Text.{codes}
use trik_runtime.Hal.UsbMsp.Defines.Registers.{no_error, crc_error, length_error, mmdut, mmctl}
use trik_runtime.Hal.UsbMsp.Hex.{hex_text, hex2num}
use trik_runtime.Hal.UsbMsp.Packets.{
  Fields, frame, checksum, strlen, make_read_reg_packet, decode_received_packet,
}
use trik_runtime.Hal.UsbMsp.Packets.Decoding.{decode_received_packet-frame}
use trik_runtime.Hal.UsbMsp.Device.{Tty, Device, ok, fresh, poll, poll_fuel, write_registers}
use trik_runtime.Hal.UsbMsp.Device.Polling.{Settled, poll-Settled}
use trik_runtime.Hal.UsbMsp.Motors.{usb_address, run_motor, read_encoder}
use trik_runtime.Hal.UsbMsp.Motors.Power.{run_motor_lem, control_word, percent}
use trik_runtime.Hal.UsbMsp.Motors.Readings.{read_encoder_unchecked}
use trik_runtime.Hal.UsbMsp.Commands.{connect, connect_usbmsp}
use trik_runtime.Hal.UsbMsp.Commands.Histories.{sends, Tuned, sends-connect}

abbrev encoder_value : Fields
encoder_value = record { dev_addr = 0x16; func_code = 5; reg_addr = 1; reg_val = 0x12ab }

encoder_text : frame encoder_value 0x27 ≡ codes ":160501000012AB27\n"
unfolding hex_text
encoder_text = refl

question_text : make_read_reg_packet 0x16 1 ≡ codes ":160501E4\n"
unfolding make_read_reg_packet hex_text
question_text = refl

lower_case : hex2num (codes "12aB") 0 4 ≡ 0x12ab
unfolding hex2num
lower_case = refl

short_packet : decode_received_packet (codes ":160501E4\n") ≡ (length_error, none)
unfolding decode_received_packet
short_packet = refl

decode_received_packet-frame_example : decode_received_packet (frame encoder_value 0x28) ≡ (
    if 0x28 == checksum encoder_value
    then (no_error, some encoder_value)
    else (crc_error, some encoder_value))
decode_received_packet-frame_example =
    decode_received_packet-frame encoder_value 0x28
      (omega arith, omega arith, omega arith, omega arith) (omega arith)

-- Each packet is taken, and the answer is the value with a wrong checksum.
abbrev wrong : Tty
wrong = record {
  World = ℕ;
  open_device = λ w. (pos 3, w);
  set_attributes = λ w. w;
  write = λ p w. (pos (strlen p), w);
  read = λ w. (some (frame encoder_value 0x28), w);
  close = λ w. w;
}

abbrev plugged : Device ℕ
plugged = record { mper = 36864; sper = 200; usb_out_descr = pos 3; alt_func_flag = 0; world = 0 }

abbrev empty : Device ℕ
empty = record { mper = 0; sper = 0; usb_out_descr = pos 0; alt_func_flag = 0; world = 0 }

poll-Settled_example : Settled 0x16 1 (poll wrong poll_fuel 0x16 1 (fresh none) plugged)
poll-Settled_example = poll-Settled wrong 0x16 1 (fresh none) plugged (omega arith)

encoder_address : 0x16 ≡ usb_address 0x30
unfolding usb_address
encoder_address = refl

connected : (connect wrong true empty).0 ≡ true
unfolding connect connect_usbmsp
connected = refl

read_encoder_unchecked_example :
    (d' : Device ℕ) × (read_encoder wrong (0x30 ∷ 0 ∷ 0 ∷ 0 ∷ 0 ∷ []) plugged ≡ ok (0x12ab, d'))
read_encoder_unchecked_example =
    read_encoder_unchecked wrong (0x30 ∷ 0 ∷ 0 ∷ 0 ∷ 0 ∷ []) encoder_value 0x28 plugged refl
      (omega arith, omega arith, omega arith, omega arith) (omega arith) encoder_address refl
      (record { takes = λ p w. refl; says = λ w. refl }) refl

run_motor_lem_example :
    (run_motor wrong 0x14 (negsuc 49) plugged
      ≡ ok (
        no_error,
        write_registers wrong
            ((usb_address 0x14, mmdut, percent (negsuc 49) * (36864 - 1) / 100)
              ∷ (usb_address 0x14, mmctl, control_word (negsuc 49))
              ∷ [])
            plugged,
      ))
    × (percent (negsuc 49) * (36864 - 1) / 100 < 36864)
run_motor_lem_example = run_motor_lem wrong 0x14 (negsuc 49) plugged (omega arith)

sends-connect_example : Tuned (
    sends wrong
      ((0x14 ∷ 0 ∷ 50 ∷ []) ∷ (0x10 ∷ 0 ∷ 0xff ∷ 0x0f ∷ []) ∷ [])
      (connect wrong true empty).1)
sends-connect_example =
    sends-connect wrong ((0x14 ∷ 0 ∷ 50 ∷ []) ∷ (0x10 ∷ 0 ∷ 0xff ∷ 0x0f ∷ []) ∷ []) empty connected
      (omega arith, (omega arith, tt))

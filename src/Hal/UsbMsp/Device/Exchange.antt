-- ===== src/Hal/UsbMsp/Device/Exchange.antt =====
-- What an exchange of packets leaves alone, and an exchange that succeeds.
use trik_runtime.Prelude.{
  ℕ, zero, suc, ◌-◌, ◌^◌, ◌<◌, ◌≡◌, refl, false, Option, some, List, [], ◌∷◌, arith, not, ◌==◌,
  ◌||◌, Bool-cases, inl, inr, length,
}
use trik_runtime.Prelude.Int.{pos}
use trik_runtime.Text.{Bytes}
use trik_runtime.Prelude.Int.{is_negative}
use trik_runtime.Hal.UsbMsp.Defines.Registers.{time_out, no_error, recv_pack_len}
use trik_runtime.Hal.UsbMsp.Packets.{make_write_reg_packet, strlen}
use trik_runtime.Hal.UsbMsp.Device.{
  Tty, Device, Buffer, send_usb_packet, write_register, write_registers, uint32, is_wrong, is_short,
  read_answer,
}

module _ (os : Tty) where
  -- Only the operating system changes its state.
  send_usb_packet-globals :
      (p : Bytes) (out : Buffer) (d : Device os.World)
      → (send_usb_packet os p out d).2 ≡ record d { world = (send_usb_packet os p out d).2.world }
  unfolding send_usb_packet
  send_usb_packet-globals p out d =
      let written = os.write p d.world in
      let answer = read_answer os (time_out - 1) 1 (os.read written.1) in
      elim (Bool-cases (is_negative d.usb_out_descr)) [
        | inl e ↦ rw e refl
        | inr e ↦ rw e (elim (Bool-cases (not (uint32 written.0 == strlen p))) [
          | inl w ↦ rw w refl
          | inr w ↦ rw w (elim (Bool-cases (is_wrong answer.0 || answer.1 == time_out)) [
            | inl a ↦ rw a refl
            | inr a ↦ rw a refl
          ])
        ])
      ]

  pub write_register-globals :
      (dev reg v : ℕ) (d : Device os.World)
      → write_register os dev reg v d ≡ record d { world = (write_register os dev reg v d).world }
  unfolding write_register
  write_register-globals dev reg v d =
      let p = make_write_reg_packet dev reg v in send_usb_packet-globals p (some p) d

  pub write_registers-globals :
      (ws : List (ℕ × ℕ × ℕ)) (d : Device os.World)
      → write_registers os ws d ≡ record d { world = (write_registers os ws d).world }
  unfolding write_registers
  write_registers-globals [] d = refl
  write_registers-globals ((dev, reg, v) ∷ ws) d = cc (
    write_register-globals dev reg v d,
    write_registers-globals ws (write_register os dev reg v d),
  )

  read_answer_prompt :
      (rounds : ℕ) (r : Option Bytes × os.World)
      → is_short r.0 ≡ false
      → read_answer os rounds 1 r ≡ (r.0, 1, r.1)
  unfolding read_answer
  read_answer_prompt zero r h = refl
  read_answer_prompt (suc rounds) r h = rw h refl

  -- An answer of the right length that comes at once.
  pub send_usb_packet_answered :
      (p : Bytes) (out : Buffer) (d : Device os.World) (b : Bytes)
      → is_negative d.usb_out_descr ≡ false
      → (os.write p d.world).0 ≡ pos (strlen p)
      → strlen p < 2 ^ 32
      → (os.read (os.write p d.world).1).0 ≡ some b
      → length b ≡ recv_pack_len
      → (d' : Device os.World) × (send_usb_packet os p out d ≡ (no_error, some b, d'))
        × (d'.usb_out_descr ≡ d.usb_out_descr)
  unfolding send_usb_packet
  send_usb_packet_answered p out d b open_ whole short answer len =
      let written = os.write p d.world in
      let first = os.read written.1 in
      let long : is_short first.0 ≡ false = rw answer (rw len refl) in
      let all : not (uint32 written.0 == strlen p) ≡ false = rw whole (ground arith) in
      let right : is_wrong first.0 ≡ false = rw answer (rw len refl) in
      (
        record d { world = first.1 },
        rw open_ (
            rw all (rw (read_answer_prompt (time_out - 1) first long) (rw right (rw answer refl)))),
        refl,
      )

-- ===== src/Hal/I2c/Common/Transfers.antt =====
-- CommonI2c::transfer, which is meant for sequences of messages.
use trik_runtime.Prelude.{
  ℕ, ◌%◌, ◌^◌, ◌≡◌, refl, false, Option, none, some, List, [], ◌∷◌, ltb, length, replicate, set,
}
use trik_runtime.Hal.I2c.{I2cBus, I2cMsg}
use trik_runtime.Hal.I2c.Common.{CommonI2c, Message, fill_messages, max_msgs, transfer}

fill_messages_counter :
    (addr counter : ℕ) (ms : List Message) (msgs : List (Option I2cMsg))
    → (fill_messages addr counter ms msgs).0 ≡ counter
unfolding fill_messages
fill_messages_counter addr counter [] msgs = refl
fill_messages_counter addr counter (m ∷ ms) msgs = fill_messages_counter addr counter ms (
    set msgs counter (
      some (record {
        addr = addr;
        is_read = m.is_read;
        len = length m.bytes % 2 ^ 16;
        buf = m.bytes;
      })))

-- A transfer of messages that are not too many hands no message at all to the bus: counter stays 0.
pub transfer_nothing :
    (bus : I2cBus) (messages : List Message) (s : CommonI2c bus.World)
    → ltb max_msgs (length messages) ≡ false
    → transfer bus messages s
      ≡ ((bus.rdwr [] s.world).0, record s { world = (bus.rdwr [] s.world).2 })
unfolding transfer
transfer_nothing bus messages s h =
    rw h (rw (fill_messages_counter s.device_address 0 messages (replicate max_msgs none)) refl)

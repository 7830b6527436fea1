-- ===== src/Control/FifoWorker.antt =====
-- trikControl/src/fifoworker.cpp and fifo.cpp: what a FIFO has brought, for the script.
pub mod Histories
mod Tests
use trik_runtime.Prelude.{
  ℕ, ◌+◌, ◌*◌, ◌^◌, ◌≡◌, Bool, true, false, Option, none, some, List, [], ◌∷◌, ◌++◌, if◌then◌else◌,
  ltb, length, is_empty, not, map,
}
use trik_runtime.Text.{Bytes}
use trik_runtime.Hal.Fifo
use trik_runtime.Hal.Fifo.{
  TrikFifo, ReadResult, Signal, new_data, new_line, read_error, read_file, open_file,
}
use trik_runtime.Control.DeviceState.{Status, off, fail, start, become_ready, settled}

pub record FifoWorker : Type 0 where
  pub fifo : TrikFifo
  pub current_line : Bytes
  pub current_data : Bytes
  pub status : Status

unfoldable pub new : FifoWorker
new = record {
  fifo = record { is_open = false; buffer = [] };
  current_line = [];
  current_data = [];
  status = off;
}

-- init, where the file opens in the one or the other way.
unfoldable pub init : Bool → Bool → FifoWorker → FifoWorker
init read_write read_only w =
    let opened = open_file read_write read_only Fifo.new in
    let started = settled w.status (start w.status) in
    record w {
      fifo = opened.1;
      status = settled started (if opened.0 then become_ready started else fail started);
    }

unfoldable pub has_line : FifoWorker → Bool
has_line w = not (is_empty w.current_line)

unfoldable pub has_data : FifoWorker → Bool
has_data w = not (is_empty w.current_data)

-- read waits in an event loop while there is no line: that is `none`.
unfoldable pub read : FifoWorker → Option (Bytes × FifoWorker)
read w =
    if is_empty w.current_line then none else some (w.current_line, record w { current_line = [] })

unfoldable pub read_raw : FifoWorker → Option (Bytes × FifoWorker)
read_raw w =
    if is_empty w.current_data then none else some (w.current_data, record w { current_data = [] })

-- A line ends the wait of read if it is not empty: the wait goes on for an empty one.
unfoldable pub on_new_line : Bytes → FifoWorker → FifoWorker
on_new_line line w = record w { current_line = line }

abbrev pub data_limit : ℕ
data_limit = 1024 * 1024

unfoldable pub on_new_data : Bytes → FifoWorker → FifoWorker
on_new_data bytes w =
    let data_ = w.current_data ++ bytes in
    record w { current_data = if ltb data_limit (length data_) then [] else data_ }

unfoldable pub on_read_error : FifoWorker → FifoWorker
on_read_error w = record w { status = settled w.status (fail w.status) }

unfoldable pub on_signal : Signal → FifoWorker → FifoWorker
unfolding on_new_data on_new_line on_read_error
on_signal (new_data bytes) w = on_new_data bytes w
on_signal (new_line line) w = on_new_line line w
on_signal read_error w = on_read_error w

unfoldable pub on_signals : List Signal → FifoWorker → FifoWorker
on_signals [] w = w
on_signals (s ∷ ss) w = on_signals ss (on_signal s w)

-- The file has something to read: its signals come to the worker, which lives in the same thread.
unfoldable pub on_readable : (Bytes → Bytes) → ReadResult → FifoWorker → FifoWorker
on_readable decode result w =
    let r = read_file decode result w.fifo in on_signals r.1 (record w { fifo = r.0 })

abbrev answer_of : FifoWorker → Option (Bytes × FifoWorker) → Bytes × FifoWorker
answer_of w none = ([], w)
answer_of w (some r) = r

-- Fifo::read and Fifo::readRaw ask the worker only where it has something, and answer with nothing
-- otherwise.
unfoldable pub fifo_read : FifoWorker → Bytes × FifoWorker
fifo_read w = answer_of w (read w)

unfoldable pub fifo_read_raw : FifoWorker → Bytes × FifoWorker
fifo_read_raw w = answer_of w (read_raw w)

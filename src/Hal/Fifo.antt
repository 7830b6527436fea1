-- ===== src/Hal/Fifo.antt =====
-- trikHal/src/trik/trikFifo.cpp: the file of a FIFO.
use trik_runtime.Prelude.{Bool, true, false, List, [], ◌∷◌, map, if◌then◌else◌}
use trik_runtime.Text.{Bytes}
use trik_runtime.Network.Lines.{read_line_chunk}

pub record TrikFifo : Type 0 where
  pub is_open : Bool  -- mFileDescriptor != -1
  pub buffer : Bytes

-- What ::read gives: some bytes, EAGAIN, or another error.
pub data ReadResult : Type 0 where
  got : Bytes → ReadResult
  try_again : ReadResult
  failed : ReadResult

pub data Signal : Type 0 where
  new_data : Bytes → Signal
  new_line : Bytes → Signal
  read_error : Signal

unfoldable pub new : TrikFifo
new = record { is_open = false; buffer = [] }

-- Whether the file opens for reading and writing, and whether it does for reading only.
unfoldable pub open_file : Bool → Bool → TrikFifo → Bool × TrikFifo
open_file read_write read_only f =
    let opened = if read_write then true else read_only in (opened, record f { is_open = opened })

unfoldable pub read_file : (Bytes → Bytes) → ReadResult → TrikFifo → TrikFifo × List Signal
read_file decode (got bytes) f =
    let taken = read_line_chunk decode f.buffer bytes in
    (record f { buffer = taken.0 }, new_data bytes ∷ map new_line taken.1)
read_file decode try_again f = (f, [])
read_file decode failed f = (f, read_error ∷ [])

-- `closed` is the answer of ::close.
unfoldable pub close_file : Bool → TrikFifo → Bool × TrikFifo
close_file closed f = if f.is_open then (closed, record f { is_open = false }) else (false, f)

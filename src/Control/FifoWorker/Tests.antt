-- ===== src/Control/FifoWorker/Tests.antt =====
-- A script that reads a FIFO.
use trik_runtime.Prelude.{◌≡◌, true, List, [], ◌∷◌, ◌++◌, arith}
use trik_runtime.Text.{Bytes}
use trik_runtime.Hal.Fifo.{got}
use trik_runtime.Control.DeviceState.{ready}
use trik_runtime.Control.FifoWorker.{FifoWorker}
use trik_runtime.Control.FifoWorker.Histories.{
  raws, arrived, readable, asks_line, asks_raw, Event, raws_conserve,
}

abbrev opened : FifoWorker
opened = record {
  fifo = record { is_open = true; buffer = [] };
  current_line = [];
  current_data = [];
  status = ready;
}

abbrev story : List Event
story = readable (got (1 ∷ 2 ∷ [])) ∷ asks_raw ∷ asks_line ∷ readable (got (3 ∷ [])) ∷ []

-- ASCII.
abbrev unchanged : Bytes → Bytes
unchanged b = b

raws_conserve_example :
    (raws unchanged opened story).1 ++ (raws unchanged opened story).0.current_data
    ≡ [] ++ arrived story
raws_conserve_example = raws_conserve unchanged story opened (omega arith)

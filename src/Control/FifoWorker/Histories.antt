-- ===== src/Control/FifoWorker/Histories.antt =====
-- What a script gets of the bytes that a FIFO brings.
use trik_runtime.Prelude.{
  ◌≤◌, ◌≡◌, refl, sym, ◌∙◌, ap, ap₂, true, false, List, [], ◌∷◌, ◌++◌, append-nil, append_assoc,
  arith, ltb, length, length-append, is_empty, map, Bool-cases, inl, inr, flatten,
}
use trik_runtime.Text.{Bytes}
use trik_runtime.Network.Lines.{take_lines, read_line_chunk, read_line_chunks}
use trik_runtime.Network.Lines.Laws.{read_line_chunks-flatten}
use trik_runtime.Hal.Fifo.{ReadResult, got, try_again, failed, new_line, read_file}
use trik_runtime.Control.FifoWorker.{
  FifoWorker, on_new_line, on_signal, on_signals, on_readable, fifo_read, fifo_read_raw, read,
  read_raw, data_limit,
}

-- The file has something, or a script asks for a line, or for data.
pub data Event : Type 0 where
  readable : ReadResult → Event
  asks_line : Event
  asks_raw : Event

-- The state after a history, and all the data that the script has got.
unfoldable pub raws : (Bytes → Bytes) → FifoWorker → List Event → FifoWorker × Bytes
raws decode w [] = (w, [])
raws decode w (readable r ∷ es) = raws decode (on_readable decode r w) es
raws decode w (asks_line ∷ es) = raws decode (fifo_read w).1 es
raws decode w (asks_raw ∷ es) =
    let answer = fifo_read_raw w in
    let rest = raws decode answer.1 es in (rest.0, answer.0 ++ rest.1)

abbrev pub bytes_of : ReadResult → Bytes
bytes_of (got bytes) = bytes
bytes_of try_again = []
bytes_of failed = []

-- All the bytes that the file has brought.
abbrev pub arrived : List Event → Bytes
arrived [] = []
arrived (readable r ∷ es) = bytes_of r ++ arrived es
arrived (asks_line ∷ es) = arrived es
arrived (asks_raw ∷ es) = arrived es

lines-data :
    (ls : List Bytes) (w : FifoWorker)
    → (on_signals (map new_line ls) w).current_data ≡ w.current_data
unfolding on_signals on_signal
lines-data [] w = refl
lines-data (l ∷ ls) w = lines-data ls (on_new_line l w)

on_readable-data :
    (decode : Bytes → Bytes) (r : ReadResult) (w : FifoWorker)
    → length (w.current_data ++ bytes_of r) ≤ data_limit
    → (on_readable decode r w).current_data ≡ w.current_data ++ bytes_of r
unfolding on_readable read_file on_signals on_signal
on_readable-data decode (got bytes) w h =
    let fits : ltb data_limit (length (w.current_data ++ bytes)) ≡ false = ground arith in
    lines-data (read_line_chunk decode w.fifo.buffer bytes).1 _ ∙ rw fits refl
on_readable-data decode try_again w h = sym (append-nil w.current_data)
on_readable-data decode failed w h = sym (append-nil w.current_data)

fifo_read-data : (w : FifoWorker) → (fifo_read w).1.current_data ≡ w.current_data
unfolding fifo_read read
fifo_read-data w = elim (Bool-cases (is_empty w.current_line)) [
  | inl e ↦ rw e refl
  | inr e ↦ rw e refl
]

empty-nil : (b : Bytes) → is_empty b ≡ true → b ≡ []
empty-nil [] h = refl
empty-nil (x ∷ xs) h = absurd (let e = h in cc e)

fifo_read_raw-data :
    (w : FifoWorker) → (fifo_read_raw w).0 ++ (fifo_read_raw w).1.current_data ≡ w.current_data
unfolding fifo_read_raw read_raw
fifo_read_raw-data w = elim (Bool-cases (is_empty w.current_data)) [
  | inl e ↦ rw e refl
  | inr e ↦ rw e (append-nil w.current_data)
]

-- Whatever a script asks for in between, what it has got of the data, with what is still kept, is all
-- that the file has brought, in order and without gaps. The file brings no more than the limit.
pub raws_conserve :
    (decode : Bytes → Bytes) (es : List Event) (w : FifoWorker)
    → length (w.current_data ++ arrived es) ≤ data_limit
    → (raws decode w es).1 ++ (raws decode w es).0.current_data ≡ w.current_data ++ arrived es
unfolding raws
raws_conserve decode [] w h = sym (append-nil w.current_data)
raws_conserve decode (readable r ∷ es) w h =
    let all = append_assoc w.current_data (bytes_of r) (arrived es) in
    let first : length (w.current_data ++ bytes_of r) ≤ data_limit = omega (
      arith,
      length-append {0} w.current_data (bytes_of r ++ arrived es),
      length-append {0} w.current_data (bytes_of r),
      length-append {0} (bytes_of r) (arrived es),
    ) in
    let e = on_readable-data decode r w first in
    raws_conserve decode es (on_readable decode r w) (rw (e, all) h) ∙ rw e all
raws_conserve decode (asks_line ∷ es) w h =
    let e = fifo_read-data w in
    raws_conserve decode es (fifo_read w).1 (rw e h) ∙ ap (λ d. d ++ arrived es) e
raws_conserve decode (asks_raw ∷ es) w h =
    let (a, w1) = fifo_read_raw w in
    let e : a ++ w1.current_data ≡ w.current_data = fifo_read_raw-data w in
    let fits : length (w1.current_data ++ arrived es) ≤ data_limit = omega (
      arith,
      ap length e,
      length-append {0} a w1.current_data,
      length-append {0} w.current_data (arrived es),
      length-append {0} w1.current_data (arrived es),
    ) in
    append_assoc a (raws decode w1 es).1 (raws decode w1 es).0.current_data
    ∙ ap (λ d. a ++ d) (raws_conserve decode es w1 fits)
    ∙ sym (append_assoc a w1.current_data (arrived es))
    ∙ ap (λ d. d ++ arrived es) e

-- The line that is kept of several.
abbrev pub last_line : Bytes → List Bytes → Bytes
last_line old [] = old
last_line old (l ∷ ls) = last_line l ls

-- The file brings these bytes one read after the other, and nobody asks in between.
unfoldable pub on_reads : (Bytes → Bytes) → List Bytes → FifoWorker → FifoWorker
on_reads decode [] w = w
on_reads decode (c ∷ cs) w = on_reads decode cs (on_readable decode (got c) w)

lines-line :
    (ls : List Bytes) (w : FifoWorker)
    → (on_signals (map new_line ls) w).current_line ≡ last_line w.current_line ls
unfolding on_signals on_signal
lines-line [] w = refl
lines-line (l ∷ ls) w = lines-line ls (on_new_line l w)

lines-fifo : (ls : List Bytes) (w : FifoWorker) → (on_signals (map new_line ls) w).fifo ≡ w.fifo
unfolding on_signals on_signal
lines-fifo [] w = refl
lines-fifo (l ∷ ls) w = lines-fifo ls (on_new_line l w)

last_line-append :
    (old : Bytes) (xs ys : List Bytes) → last_line old (xs ++ ys) ≡ last_line (last_line old xs) ys
last_line-append old [] ys = refl
last_line-append old (x ∷ xs) ys = last_line-append x xs ys

got-line :
    (decode : Bytes → Bytes) (c : Bytes) (w : FifoWorker)
    → (on_readable decode (got c) w).current_line
      ≡ last_line w.current_line (read_line_chunk decode w.fifo.buffer c).1
unfolding on_readable read_file on_signals on_signal
got-line decode c w = lines-line (read_line_chunk decode w.fifo.buffer c).1 _

got-buffer :
    (decode : Bytes → Bytes) (c : Bytes) (w : FifoWorker)
    → (on_readable decode (got c) w).fifo.buffer ≡ (read_line_chunk decode w.fifo.buffer c).0
unfolding on_readable read_file on_signals on_signal
got-buffer decode c w = ap (λ f. f.buffer) (lines-fifo (read_line_chunk decode w.fifo.buffer c).1 _)

reads-line :
    (decode : Bytes → Bytes) (cs : List Bytes) (w : FifoWorker)
    → (on_reads decode cs w).current_line
      ≡ last_line w.current_line (read_line_chunks decode w.fifo.buffer cs).1
unfolding on_reads read_line_chunks
reads-line decode [] w = refl
reads-line decode (c ∷ cs) w =
    let w' = on_readable decode (got c) w in
    let lines = (read_line_chunk decode w.fifo.buffer c).1 in
    let more = λ (b : Bytes). (read_line_chunks decode b cs).1 in
    reads-line decode cs w'
    ∙ ap₂ (λ old b. last_line old (more b)) (got-line decode c w) (got-buffer decode c w)
    ∙ sym (last_line-append w.current_line lines (more (read_line_chunk decode w.fifo.buffer c).0))

-- Of the lines that come while nobody asks only the last one is kept, however the reads cut the
-- text: an earlier line is lost, also where the last one is empty. The buffer holds no whole line at
-- the start.
pub on_reads_last :
    (decode : Bytes → Bytes) (cs : List Bytes) (w : FifoWorker)
    → take_lines w.fifo.buffer ≡ (w.fifo.buffer, [])
    → (on_reads decode cs w).current_line
      ≡ last_line w.current_line (take_lines (w.fifo.buffer ++ flatten (map decode cs))).1
on_reads_last decode cs w h =
    reads-line decode cs w
    ∙ ap (λ l. last_line w.current_line l.1) (read_line_chunks-flatten decode w.fifo.buffer cs h)

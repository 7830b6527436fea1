-- ===== src/Control/Lidar/Tests.antt =====
-- A packet with one probe, a header without data, and means of a circle.
use trik_runtime.Prelude.{ℕ, ◌≡◌, refl, true, false, some, List, [], ◌∷◌, arith}
use trik_runtime.Control.Lidar.{Lidar, be16, header_ok, process_data, read_byte, read_data, new}
use trik_runtime.Control.Lidar.Chunks.{IsPacket, stream, complete_all, read_data-stream}
use trik_runtime.Control.Lidar.Sectors.{at, sector, process_data-at}

abbrev packet : List ℕ
packet = 170 ∷ 0 ∷ 16 ∷ 1 ∷ 97 ∷ 173 ∷ 0 ∷ 8 ∷ 0 ∷ 0 ∷ 0 ∷ 0 ∷ 90 ∷ 5 ∷ 1 ∷ 0 ∷ 2 ∷ 49 ∷ []

packet-IsPacket : IsPacket packet
unfolding be16 header_ok
packet-IsPacket = record { header = refl; size = refl; long = omega arith; fits = omega arith }

abbrev frames : List (List ℕ × List ℕ)
frames = (1 ∷ 2 ∷ [], packet) ∷ ([], packet) ∷ []

read_data-stream_example : read_data new (stream frames) ≡ complete_all new frames
unfolding new
read_data-stream_example =
    read_data-stream new frames refl
      (((refl, (refl, tt)), packet-IsPacket), ((tt, packet-IsPacket), tt))

process_data-at_example : at 90 (process_data packet (λ i. 7)) ≡ some (sector packet (λ i. 7) 90)
unfolding be16
process_data-at_example = process_data-at packet (λ i. 7) 90 (omega arith)

-- A header that announces three bytes of data.
abbrev empty_header : Lidar
empty_header = record {
  chunk = 170 ∷ 0 ∷ 11 ∷ 1 ∷ 97 ∷ 173 ∷ 0 ∷ 3 ∷ 0 ∷ 0 ∷ 0 ∷ 0 ∷ 0 ∷ [];
  flag_hunt = false;
  result = λ i. 0;
}

header_run :
    read_data (record empty_header { chunk = []; flag_hunt = true }) empty_header.chunk
    ≡ some empty_header
unfolding read_data read_byte header_ok be16
header_run = refl

-- ===== src/Control/Lidar.antt =====
-- trikControl/src/lidarWorker.cpp: packets of the lidar and the distances that they carry. `none`
-- stands for a write outside of an array, which C++ leaves undefined.
pub mod Bytes
pub mod Chunks
pub mod Overflow
pub mod Means
pub mod Sectors
mod Tests
use trik_runtime.Text.{byte}
use trik_runtime.Prelude.{
  ℕ, zero, suc, ◌+◌, ◌-◌, ◌*◌, ◌/◌, ◌%◌, ◌^◌, ◌≡◌, Bool, true, false, Option, none, some, List, [],
  ◌∷◌, ◌++◌, if◌then◌else◌, ◌==◌, ◌&&◌, not, ltb, leb, length, get_elem?, take, min, max, and_then,
}

-- mResult has a value for each of its `angles_raw_number` indices.
pub record Lidar : Type 0 where
  pub chunk : List ℕ  -- the first mLidarChunkBytes bytes of mLidarChunk
  pub flag_hunt : Bool
  pub result : ℕ → ℕ

abbrev pub header_magic : ℕ
header_magic = 170

abbrev pub angles_raw_number : ℕ
angles_raw_number = 36000

abbrev pub angle_step : ℕ
angle_step = 2250

abbrev pub chunk_size : ℕ
chunk_size = 4096

-- sizeof(Delta2ALayout)
abbrev pub header_size : ℕ
header_size = 13

-- get_unaligned_be16.
unfoldable pub be16 : List ℕ → ℕ → ℕ
be16 c i = (byte c i * 2 ^ 8 + byte c (suc i)) % 2 ^ 16

-- Fields of the header by their offsets.
abbrev pub pkg_hdr_length : List ℕ → ℕ
pkg_hdr_length c = be16 c 1

abbrev pub data_hdr_length : List ℕ → ℕ
data_hdr_length c = be16 c 6

abbrev pub start_angle : List ℕ → ℕ
start_angle c = be16 c 11

-- The sanity checks of readData.
unfoldable pub header_ok : List ℕ → Bool
header_ok c =
    (byte c 0 == header_magic)
    && ((byte c 3 == 1)
        && ((byte c 4 == 97)
            && ((byte c 5 == 173)
                && (leb (pkg_hdr_length c + 2) chunk_size
                    && (pkg_hdr_length c == data_hdr_length c + 8)))))

abbrev pub add_bytes : ℕ → List ℕ → ℕ
add_bytes acc [] = acc
add_bytes acc (b ∷ bs) = add_bytes ((acc + b) % 2 ^ 16) bs

-- checkChecksum.
unfoldable pub check_checksum : List ℕ → ℕ → Bool
check_checksum c size = add_bytes 0 (take size c) == be16 c size

abbrev pub write : ℕ → ℕ → (ℕ → ℕ) → Option (ℕ → ℕ)
write i v r = if ltb i angles_raw_number then some (λ j. if i == j then v else r j) else none

-- The first loop of processData, from index i on.
unfoldable pub clear_sector : ℕ → ℕ → (ℕ → ℕ) → Option (ℕ → ℕ)
clear_sector zero i r = some r
clear_sector (suc n) i r = and_then (write i 0 r) (clear_sector n (suc i))

-- A negative difference gives no entries.
abbrev pub entries_of : List ℕ → ℕ
entries_of c = (data_hdr_length c - 5) / 3

abbrev pub angle_of : List ℕ → ℕ → ℕ
angle_of c i = start_angle c + angle_step * i / entries_of c

abbrev pub distance_of : List ℕ → ℕ → ℕ
distance_of c i = be16 c (header_size + 3 * i + 1) / 4

-- The second loop, for the probes from i on.
unfoldable pub store_probes : List ℕ → ℕ → ℕ → (ℕ → ℕ) → Option (ℕ → ℕ)
store_probes c zero i r = some r
store_probes c (suc n) i r =
    and_then (write (angle_of c i) (distance_of c i) r) (store_probes c n (suc i))

unfoldable pub process_data : List ℕ → (ℕ → ℕ) → Option (ℕ → ℕ)
process_data c r =
    and_then (clear_sector angle_step (start_angle c) r) (store_probes c (entries_of c) 0)

-- A chunk that has been read whole.
unfoldable pub complete : List ℕ → Lidar → Option Lidar
complete c s =
    if check_checksum c (pkg_hdr_length c)
    then and_then (process_data c s.result)
        (λ r. some (record { chunk = c; flag_hunt = true; result = r }))
    else some (record s { chunk = c; flag_hunt = true })

-- The body of the loop of readData for one byte.
unfoldable pub read_byte : Lidar → ℕ → Option Lidar
read_byte s b =
    let c = s.chunk ++ (b ∷ []) in
    if s.flag_hunt
    then some (if b == header_magic then record s { chunk = b ∷ []; flag_hunt = false } else s)
    else if leb chunk_size (length s.chunk)
    then none
    else if (length c == header_size) && not (header_ok c)
    then some (record s { chunk = c; flag_hunt = true })
    else if ltb header_size (length c) && (length c == pkg_hdr_length c + 2)
    then complete c s
    else some (record s { chunk = c })

unfoldable pub read_data : Lidar → List ℕ → Option Lidar
read_data s [] = some s
read_data s (b ∷ bs) = and_then (read_byte s b) (λ s'. read_data s' bs)

-- The constructor.
unfoldable pub new : Lidar
new = record { chunk = []; flag_hunt = true; result = λ i. 0 }

-- What the loop of countMean gathers over distances that are not 0.
pub record Stats : Type 0 where
  pub max : ℕ
  pub min : ℕ
  pub mean : ℕ
  pub counter : ℕ

abbrev pub no_stats : Stats
no_stats = record { max = 0; min = 1000 * 1000 * 1000; mean = 0; counter = 0 }

abbrev pub gather : ℕ → Stats → Stats
gather d t =
    if d == 0
    then t
    else record { max = max t.max d; min = min t.min d; mean = t.mean + d; counter = suc t.counter }

-- The loop, for n indices from j on.
unfoldable pub scan : ℕ → ℕ → (ℕ → ℕ) → Stats → Stats
scan zero j r t = t
scan (suc n) j r t = scan n (suc j) r (gather (r (j % angles_raw_number)) t)

unfoldable pub mean_of : Stats → ℕ
mean_of t =
    if ltb 2 t.counter
    then (t.mean - t.min - t.max) / (t.counter - 2)
    else if t.counter == 0
    then t.mean
    else t.mean / t.counter

-- countMean: the loop ends where j reaches (i + window) % angles_raw_number.
unfoldable pub count_mean : (ℕ → ℕ) → ℕ → ℕ → ℕ
count_mean r i window = mean_of (scan ((i + window) % angles_raw_number - i) i r no_stats)

-- read: the value for one of the 360 degrees.
unfoldable pub read : Lidar → ℕ → ℕ
read s degree = count_mean s.result (50 + 100 * degree) 100

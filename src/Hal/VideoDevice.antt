-- ===== src/Hal/VideoDevice.antt =====
-- trikHal/src/trik/videoDeviceFileBase.cpp: the file of a camera, with its buffers. The answers of the
-- kernel are arguments.
use trik_runtime.Prelude.{
  ℕ, zero, suc, Bool, true, false, Option, none, some, List, [], ◌∷◌, ◌++◌, if◌then◌else◌, ltb, leb,
  ◌==◌, min, ◌&&◌, ◌||◌, not,
}

pub record VideoDevice : Type 0 where
  pub is_open : Bool  -- mFd >= 0
  pub is_streaming : Bool
  pub is_webcam : Bool
  pub exposure_fixed : Bool
  pub use_user_ptr : Bool
  pub user_ptr_count : ℕ  -- mUserPtrBuffers.size()
  pub user_ptr_size : ℕ
  pub buffer_count : ℕ  -- what the constructor was given
  pub buffers : ℕ  -- mMmapBufs.size()
  pub size_image : ℕ

-- The calls that change something in the driver.
pub data Action : Type 0 where
  queues : ℕ → Action  -- VIDIOC_QBUF that succeeds
  streams_on : Action
  streams_off : Action  -- VIDIOC_STREAMOFF that succeeds
  frees : Action  -- VIDIOC_REQBUFS of 0 buffers
  sets_webcam_defaults : Action
  fixes_exposure : Action
  closes : Action

abbrev pub Step : Type 0
Step = VideoDevice × List Action

unfoldable pub new : ℕ → Bool → VideoDevice
new buffer_count is_webcam = record {
  is_open = false;
  is_streaming = false;
  is_webcam = is_webcam;
  exposure_fixed = false;
  use_user_ptr = false;
  user_ptr_count = 0;
  user_ptr_size = 0;
  buffer_count = buffer_count;
  buffers = 0;
  size_image = 0;
}

unfoldable pub set_user_ptr_buffers : ℕ → ℕ → VideoDevice → VideoDevice
set_user_ptr_buffers count size d = record d {
  user_ptr_count = count;
  user_ptr_size = size;
  use_user_ptr = ltb 0 count;
}

-- What the kernel answers to open.
pub record OpenAnswers : Type 0 where
  pub opens : Bool
  pub capable : Bool  -- QUERYCAP fails, or reports capture and streaming
  pub sets_format : Bool  -- S_FMT
  pub size_image : ℕ
  pub requested : Option ℕ  -- the count of REQBUFS, if it succeeds
  pub maps : ℕ → Bool  -- QUERYBUF and mmap of a buffer
  pub stops : Bool  -- STREAMOFF, in the close after a failure

abbrev pub all_below : ℕ → (ℕ → Bool) → Bool
all_below zero p = true
all_below (suc n) p = p n && all_below n p

abbrev pub stop_actions : Bool → List Action
stop_actions true = streams_off ∷ []
stop_actions false = []

-- stopStreaming, where STREAMOFF succeeds or is only logged.
unfoldable pub stop_streaming : Bool → VideoDevice → Step
stop_streaming stops d =
    if d.is_streaming && d.is_open
    then (record d { is_streaming = false }, stop_actions stops)
    else (d, [])

abbrev pub free_actions : Bool → List Action
free_actions true = frees ∷ []
free_actions false = []

unfoldable pub free_buffers : VideoDevice → Step
free_buffers d = (record d { buffers = 0 }, free_actions d.is_open)

abbrev pub close_actions : Bool → List Action
close_actions true = closes ∷ []
close_actions false = []

unfoldable pub close : Bool → VideoDevice → Step
unfolding stop_streaming free_buffers
close stops d =
    let s = stop_streaming stops d in
    let f = free_buffers s.0 in
    (
      record f.0 {
        is_open = false;
        use_user_ptr = false;
        user_ptr_count = 0;
        user_ptr_size = 0;
        exposure_fixed = false;
      },
      s.1 ++ f.1 ++ close_actions f.0.is_open,
    )

-- allocateBuffers, for a positive count of REQBUFS; the buffers that were mapped before a failure are
-- freed.
abbrev pub allocate : OpenAnswers → ℕ → VideoDevice → Bool × Step
allocate a count d =
    let mapped = min count d.buffer_count in
    if d.use_user_ptr
    then (if ltb d.user_ptr_size d.size_image
        then (false, (d, []))
        else (true, (record d { buffers = d.user_ptr_count }, [])))
    else if all_below mapped a.maps
    then (true, (record d { buffers = mapped }, []))
    else (false, free_buffers d)

unfoldable pub allocate_buffers : OpenAnswers → VideoDevice → Bool × Step
unfolding free_buffers
allocate_buffers a d = elim a.requested [
  | none ↦ (false, (d, []))
  | some count ↦ if count == 0 then (false, (d, [])) else allocate a count d
]

-- open(), with the actions of a close after a failure.
abbrev pub close_after : Bool → List Action → VideoDevice → Bool × Step
unfolding close
close_after stops actions d = let c = close stops d in (false, (c.0, actions ++ c.1))

abbrev pub webcam_defaults : Bool → List Action
webcam_defaults true = sets_webcam_defaults ∷ []
webcam_defaults false = []

unfoldable pub open_device : OpenAnswers → VideoDevice → Bool × Step
unfolding allocate_buffers close
open_device a d =
    if d.is_open
    then (true, (d, []))
    else if not a.opens
    then (false, (d, []))
    else (let o = record d { is_open = true } in
        if not a.capable
        then close_after a.stops [] o
        else if not a.sets_format
        then close_after a.stops [] o
        else (let b = allocate_buffers a (record o { size_image = a.size_image }) in
            if b.0
            then (true, (b.1.0, b.1.1 ++ webcam_defaults d.is_webcam))
            else close_after a.stops b.1.1 b.1.0))

unfoldable pub fix_exposure : VideoDevice → Step
fix_exposure d =
    if not d.is_webcam || d.exposure_fixed
    then (d, [])
    else (record d { exposure_fixed = true }, fixes_exposure ∷ [])

-- The loop of startStreaming: `count` buffers from the i-th one on, up to the first that the driver
-- refuses.
abbrev pub queue_from : (ℕ → Bool) → ℕ → ℕ → Bool × List Action
queue_from accepts i zero = (true, [])
queue_from accepts i (suc count) =
    let rest = queue_from accepts (suc i) count in
    if accepts i then (rest.0, queues i ∷ rest.1) else (false, [])

unfoldable pub start_streaming : (ℕ → Bool) → Bool → VideoDevice → Bool × Step
start_streaming accepts streams d =
    let q = queue_from accepts 0 d.buffers in
    if q.0
    then (if streams
        then (true, (record d { is_streaming = true }, q.1 ++ streams_on ∷ []))
        else (false, (d, q.1)))
    else (false, (d, q.1))

-- release, where the driver accepts the buffer or not.
unfoldable pub release : Bool → ℕ → VideoDevice → List Action
release accepts i d =
    if not d.is_streaming
    then []
    else if leb d.buffers i
    then []
    else if accepts
    then queues i ∷ []
    else []

-- onActivated, for a DQBUF that gives a buffer: whether frameReady is emitted for it.
unfoldable pub on_activated : ℕ → VideoDevice → Option ℕ
on_activated i d = if leb d.buffers i then none else some i

-- ===== src/Control/CameraManager/Devices.antt =====
-- trikHal/src/trik/videoDeviceFileBase.cpp: what opening a camera and closing it do to the buffers.
use trik_runtime.Prelude.{
  ℕ, ◌≤◌, ◌≡◌, refl, arith, Bool, true, false, none, some, List, [], ◌∷◌, ◌++◌, ltb, ◌==◌,
  Bool-cases, inl, inr, map, min,
}
use trik_runtime.Hal.VideoDevice
use trik_runtime.Hal.VideoDevice.{
  VideoDevice, OpenAnswers, queue_from, all_below, allocate_buffers, free_buffers, queues,
  webcam_defaults,
}
use trik_runtime.Control.CameraManager.{device}
use trik_runtime.Control.CameraManager.Frames.{after_actions}

-- An open camera has at most three buffers, is open and has no stream.
pub record Opened (d : VideoDevice) : Type 0 where
  pub few : d.buffers ≤ 3
  pub opened : d.is_open ≡ true
  pub silent : d.is_streaming ≡ false

-- The buffers are few for a device that was made for three.
allocated :
    (a : OpenAnswers) (d : VideoDevice)
    → d.is_open ≡ true
    → d.is_streaming ≡ false
    → d.buffer_count ≤ 3
    → d.user_ptr_count ≤ 3
    → (allocate_buffers a d).0 ≡ true
    → Opened (allocate_buffers a d).1.0
unfolding allocate_buffers
allocated a d o s b u =
    elim a.requested
      as (λ r.
        (allocate_buffers (record a { requested = r }) d).0 ≡ true
        → Opened (allocate_buffers (record a { requested = r }) d).1.0) [
          | none ↦ λ h. cc
          | some count ↦ elim (Bool-cases (count == 0)) [
            | inl z ↦ rw z (λ h. cc)
            | inr z ↦ rw z (elim (Bool-cases d.use_user_ptr) [
              | inl p ↦ rw p (elim (Bool-cases (ltb d.user_ptr_size d.size_image)) [
                | inl q ↦ rw q (λ h. cc)
                | inr q ↦ rw q (λ h. record { few = u; opened = o; silent = s })
              ])
              | inr p ↦ rw p (elim (Bool-cases (all_below (min count d.buffer_count) a.maps)) [
                | inl q ↦ rw q (λ h. record { few = omega arith; opened = o; silent = s })
                | inr q ↦ rw q (λ h. cc)
              ])
            ])
          ]
        ]

pub open_device-Opened :
    (a : OpenAnswers) (d : VideoDevice)
    → d.is_open ≡ false
    → d.is_streaming ≡ false
    → d.buffer_count ≤ 3
    → d.user_ptr_count ≤ 3
    → (VideoDevice.open_device a d).0 ≡ true
    → Opened (VideoDevice.open_device a d).1.0
unfolding VideoDevice.open_device
open_device-Opened a d o s b u = rw o (elim (Bool-cases a.opens) [
  | inr x ↦ rw x (λ h. cc)
  | inl x ↦ rw x (elim (Bool-cases a.capable) [
    | inr y ↦ rw y (λ h. cc)
    | inl y ↦ rw y (elim (Bool-cases a.sets_format) [
      | inr z ↦ rw z (λ h. cc)
      | inl z ↦
          let e = record d { is_open = true; size_image = a.size_image } in
          rw z (elim (Bool-cases (allocate_buffers a e).0) [
            | inr w ↦ rw w (λ h. cc)
            | inl w ↦ rw w (λ h. allocated a e refl s b u w)
          ])
    ])
  ])
])

-- Actions that give the driver no buffer.
abbrev pub quiet : List VideoDevice.Action → Bool
quiet [] = true
quiet (queues i ∷ actions) = false
quiet (_ ∷ actions) = quiet actions

pub quiet-append :
    (a b : List VideoDevice.Action) → quiet a ≡ true → quiet b ≡ true → quiet (a ++ b) ≡ true
quiet-append [] b h k = k
quiet-append (queues i ∷ a) b h k = cc
quiet-append (VideoDevice.streams_on ∷ a) b h k = quiet-append a b h k
quiet-append (VideoDevice.streams_off ∷ a) b h k = quiet-append a b h k
quiet-append (VideoDevice.frees ∷ a) b h k = quiet-append a b h k
quiet-append (VideoDevice.sets_webcam_defaults ∷ a) b h k = quiet-append a b h k
quiet-append (VideoDevice.fixes_exposure ∷ a) b h k = quiet-append a b h k
quiet-append (VideoDevice.closes ∷ a) b h k = quiet-append a b h k

pub after-quiet :
    (a : List VideoDevice.Action) (q : ℕ → Bool)
    → quiet a ≡ true
    → ((j : ℕ) → q j ≡ false)
    → (j : ℕ) → after_actions (map device a) q j ≡ false
after-quiet [] q h f j = f j
after-quiet (queues i ∷ a) q h f j = cc
after-quiet (VideoDevice.streams_on ∷ a) q h f j = after-quiet a q h f j
after-quiet (VideoDevice.streams_off ∷ a) q h f j = after-quiet a (λ i. false) h (λ i. refl) j
after-quiet (VideoDevice.frees ∷ a) q h f j = after-quiet a (λ i. false) h (λ i. refl) j
after-quiet (VideoDevice.sets_webcam_defaults ∷ a) q h f j = after-quiet a q h f j
after-quiet (VideoDevice.fixes_exposure ∷ a) q h f j = after-quiet a q h f j
after-quiet (VideoDevice.closes ∷ a) q h f j = after-quiet a (λ i. false) h (λ i. refl) j

quiet-stop :
    (b : Bool)
    → quiet (VideoDevice.stop_actions b ++ VideoDevice.frees ∷ [] ++ VideoDevice.closes ∷ []) ≡ true
quiet-stop true = refl
quiet-stop false = refl

quiet-close : (b : Bool) (d : VideoDevice) → quiet (VideoDevice.close b d).1 ≡ true
unfolding VideoDevice.close VideoDevice.stop_streaming free_buffers
quiet-close b d = elim (Bool-cases d.is_streaming) [
  | inl s ↦ elim (Bool-cases d.is_open) [
    | inl o ↦ rw (s, o) (quiet-stop b)
    | inr o ↦ rw (s, o) refl
  ]
  | inr s ↦ elim (Bool-cases d.is_open) [ inl o ↦ rw (s, o) refl | inr o ↦ rw (s, o) refl ]
]

quiet-allocate : (a : OpenAnswers) (d : VideoDevice) → quiet (allocate_buffers a d).1.1 ≡ true
unfolding allocate_buffers free_buffers
quiet-allocate a d =
    elim a.requested as (λ r. quiet (allocate_buffers (record a { requested = r }) d).1.1 ≡ true) [
      | none ↦ refl
      | some count ↦ elim (Bool-cases (count == 0)) [
        | inl z ↦ rw z refl
        | inr z ↦ rw z (elim (Bool-cases d.use_user_ptr) [
          | inl p ↦ rw p (elim (Bool-cases (ltb d.user_ptr_size d.size_image)) [
            | inl q ↦ rw q refl
            | inr q ↦ rw q refl
          ])
          | inr p ↦ rw p (elim (Bool-cases (all_below (min count d.buffer_count) a.maps)) [
            | inl q ↦ rw q refl
            | inr q ↦ rw q (elim (Bool-cases d.is_open) [ inl o ↦ rw o refl | inr o ↦ rw o refl ])
          ])
        ])
      ]
    ]

quiet_defaults : (b : Bool) → quiet (webcam_defaults b) ≡ true
quiet_defaults true = refl
quiet_defaults false = refl

pub quiet-open :
    (a : OpenAnswers) (d : VideoDevice) → quiet (VideoDevice.open_device a d).1.1 ≡ true
unfolding VideoDevice.open_device
quiet-open a d = elim (Bool-cases d.is_open) [
  | inl o ↦ rw o refl
  | inr o ↦ rw o (elim (Bool-cases a.opens) [
    | inr x ↦ rw x refl
    | inl x ↦ rw x (elim (Bool-cases a.capable) [
      | inr y ↦ rw y (quiet-close a.stops (record d { is_open = true }))
      | inl y ↦ rw y (elim (Bool-cases a.sets_format) [
        | inr z ↦ rw z (quiet-close a.stops (record d { is_open = true }))
        | inl z ↦
            let e = record d { is_open = true; size_image = a.size_image } in
            let b = allocate_buffers a e in
            rw z (elim (Bool-cases b.0) [
              | inr w ↦ rw w (
                  quiet-append b.1.1 (VideoDevice.close a.stops b.1.0).1 (quiet-allocate a e)
                    (quiet-close a.stops b.1.0))
              | inl w ↦ rw w (
                  quiet-append b.1.1 (webcam_defaults d.is_webcam) (quiet-allocate a e)
                    (quiet_defaults d.is_webcam))
            ])
      ])
    ])
  ])
]

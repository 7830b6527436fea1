-- ===== src/Control/CameraManager/Fills.antt =====
-- trikControl/src/cameraManager.cpp: onDeviceFrame, for a buffer that the driver has filled.
use trik_runtime.Prelude.{
  ℕ, suc, ◌+◌, ◌-◌, ◌≤◌, ◌≡◌, refl, fun_ext, ap, subst, sym, ◌∙◌, arith, Bool, true, false, Option,
  none, some, [], if◌then◌else◌, ltb, leb, ◌==◌, ==_iff, ◌%◌, ◌^◌, put, Bool-cases, inl, inr,
}
use trik_runtime.Hal.VideoDevice
use trik_runtime.Hal.VideoDevice.{VideoDevice}
use trik_runtime.Control.CameraManager.{
  Token, Entry, Step, on_device_frame, replace_latest, return_buffer, with_refs,
}
use trik_runtime.Control.CameraManager.Frames.{Port, stepped, accepts, after_actions}
use trik_runtime.Control.CameraManager.States.{
  Inv, closed, parked, flowing, Balanced, refs_of, refits, bit, sign, streaming_entry, port_of,
}
use trik_runtime.Control.CameraManager.Captures.{filled, first_frame, next_frame, given_back, taken}
use trik_runtime.Control.CameraManager.Claims.{with_refs-at}

-- The balance is one of the counts, not of the tokens.
pub recount :
    {w : Bool} (n : ℕ) (latest : Option ℕ) (refs other held posted : ℕ → ℕ) (q : ℕ → Bool) (i : ℕ)
    → other i ≡ refs i
    → Balanced w n latest refs held posted q i
    → Balanced w n latest other held posted q i
recount n latest refs other held posted q i h b = record {
  counts = h ∙ b.counts;
  one_place = refits b.one_place (ap (λ r. posted i + bit (q i) + sign r) h);
}

put-same : (i : ℕ) (q : ℕ → Bool) → q i ≡ false → put i false q ≡ q
put-same i q h = fun_ext (λ j. elim (Bool-cases (i == j)) [
  | inl e ↦ rw e (sym h ∙ ap q ((==_iff i j).0 e))
  | inr e ↦ rw e refl
])

pub return_buffer-flowing :
    (e : Entry) (d : VideoDevice) (latest : Option ℕ) (tokens : ℕ → Token) (a : ℕ → Bool) (i : ℕ)
    (q : ℕ → Bool)
    → q i ≡ false
    → ltb i d.buffers ≡ true
    → after_actions (return_buffer (accepts a q) i (streaming_entry e d latest tokens)) q
      ≡ put i (a i) q
unfolding return_buffer VideoDevice.release
return_buffer-flowing e d latest tokens a i q h l =
    let inside : leb d.buffers i ≡ false = ground arith in
    elim (Bool-cases (a i)) [
      | inl y ↦ rw (inside, y, h) refl
      | inr y ↦ rw (inside, y) (sym (put-same i q h))
    ]

put-refs :
    (tokens : ℕ → Token) (t : Token) (i j : ℕ)
    → refs_of (put i t tokens) j ≡ put i t.refs (refs_of tokens) j
put-refs tokens t i j = elim (Bool-cases (i == j)) [
  | inl h ↦ rw (refs_of, h) refl
  | inr h ↦ rw (refs_of, h) refl
]

unmarked-refs :
    (tokens : ℕ → Token) (i j : ℕ)
    → refs_of (put i (record (tokens i) { captured = false }) tokens) j ≡ refs_of tokens j
unmarked-refs tokens i j = elim (Bool-cases (i == j)) [
  | inl h ↦ rw (refs_of, h) (ap (refs_of tokens) ((==_iff i j).0 h))
  | inr h ↦ rw (refs_of, h) refl
]

put-both : (i m n : ℕ) (f g : ℕ → ℕ) (j : ℕ) → m ≡ n → f j ≡ g j → put i m f j ≡ put i n g j
put-both i m n f g j h k =
    ap (λ x. if i == j then x else f j) h ∙ ap (λ x. if i == j then n else x) k

abbrev capture : Entry → ℕ → Token
capture e size = record { refs = 1; captured = true; seq = suc e.capture_seq % 2 ^ 32; size = size }

abbrev numbered : Entry → Entry
numbered e = record e { capture_seq = suc e.capture_seq % 2 ^ 32 }

first-Inv :
    {w : Bool} (a : ℕ → Bool) (e : Entry) (d : VideoDevice) (tokens : ℕ → Token)
    (held posted : ℕ → ℕ) (q : ℕ → Bool) (i size : ℕ)
    → d.buffers ≤ 3
    → ((j : ℕ) → Balanced w d.buffers none (refs_of tokens) held posted q j)
    → q i ≡ true
    → Inv w (
        stepped
          (port_of (streaming_entry e d none tokens) held posted (put i false q))
          (replace_latest (accepts a (put i false q)) i size (streaming_entry e d none tokens)))
first-Inv a e d tokens held posted q i size n b h =
    flowing (numbered e) d (some i) (put i (capture e size) tokens) held posted (put i false q) n
      (λ j.
        recount d.buffers (some i) (put i 1 (refs_of tokens))
          (refs_of (put i (capture e size) tokens)) held posted (put i false q) j
          (put-refs tokens (capture e size) i j)
          (first_frame d.buffers i (refs_of tokens) held posted q h b j))

-- The claim of the frame before is dropped: whether it was the last one is `l`.
dropped-Inv :
    {w : Bool} (a : ℕ → Bool) (l : Bool) (e : Entry) (d : VideoDevice) (tokens : ℕ → Token)
    (held posted : ℕ → ℕ) (q : ℕ → Bool) (i old : ℕ)
    → d.buffers ≤ 3
    → ((j : ℕ)
        → Balanced w d.buffers
            (some i)
            (refs_of tokens)
            held
            posted
            (if l then put old (a old) q else q)
            j)
    → q old ≡ false
    → ltb old d.buffers ≡ true
    → (let t = streaming_entry e d (some i) tokens in
        Inv w (
          stepped (port_of t held posted q) (
            if l
            then (
              record t { tokens = put old (record (tokens old) { captured = false }) tokens },
              return_buffer (accepts a q) old t,
            )
            else (t, []))))
dropped-Inv a false e d tokens held posted q i old n b o k =
    flowing e d (some i) tokens held posted q n b
dropped-Inv {w = w} a true e d tokens held posted q i old n b o k =
    let gone = record (tokens old) { captured = false } in
    subst (λ x. Inv w (port_of (streaming_entry e d (some i) (put old gone tokens)) held posted x))
      (sym (return_buffer-flowing e d (some i) tokens a old q o k))
      (flowing e d (some i) (put old gone tokens) held posted (put old (a old) q) n (λ j.
        recount d.buffers (some i) (refs_of tokens) (refs_of (put old gone tokens)) held posted
          (put old (a old) q) j (unmarked-refs tokens old j) (b j)))

-- The claims and the places of a port whose driver has filled `i`, when `old` is the frame of the manager.
next-Inv :
    {w : Bool} (a : ℕ → Bool) (e : Entry) (d : VideoDevice) (tokens : ℕ → Token)
    (held posted : ℕ → ℕ) (q : ℕ → Bool) (i old size : ℕ)
    → (w ≡ true → (j : ℕ) → a j ≡ true)
    → d.buffers ≤ 3
    → ((j : ℕ) → Balanced w d.buffers (some old) (refs_of tokens) held posted q j)
    → q i ≡ true
    → Inv w (
        stepped (port_of (streaming_entry e d (some old) tokens) held posted (put i false q)) (
          replace_latest
            (accepts a (put i false q))
            i
            size
            (streaming_entry e d (some old) tokens)))
next-Inv {w = w} a e d tokens held posted q i old size y n b h =
    let refs = refs_of tokens in
    let f = filled d.buffers i refs held posted q (some old) h b in
    let apart : i == old ≡ false = ground (arith, f.3) in
    let total = (b old).counts ∙ ap (λ x. bit x + held old) ((==_iff old old).1 refl) in
    let at =
      taken (posted old) (refs old) (q old) (ltb old d.buffers) (omega arith)
        (b old).one_place.below in
    let t = put i (capture e size) tokens in
    let same : refs_of t old ≡ refs old = put-refs tokens (capture e size) i old ∙ rw apart refl in
    let q' = put i false q in
    let is_out : q' old ≡ false = rw apart at.1 in
    dropped-Inv a (refs_of t old == 1) (numbered e) d (with_refs old (refs_of t old - 1) t) held
      posted q' i old n
      (λ j.
        recount d.buffers (some i) (put old (refs old - 1) (put i 1 refs))
          (refs_of (with_refs old (refs_of t old - 1) t)) held posted
          (given_back (a old) (refs_of t old) old q') j
          (with_refs-at t old (refs_of t old - 1) j
            ∙ put-both old (refs_of t old - 1) (refs old - 1) (refs_of t) (put i 1 refs) j
                (ap (λ r. r - 1) same) (put-refs tokens (capture e size) i j))
          (subst
            (λ r.
              Balanced w d.buffers (some i) (put old (refs old - 1) (put i 1 refs)) held posted
                (given_back (a old) r old q') j)
            (sym same)
            (next_frame (a old) d.buffers i old refs held posted q (λ r. y r old) h b j)))
      is_out at.2

flowing-captures :
    {w : Bool} (a : ℕ → Bool) (e : Entry) (d : VideoDevice) (tokens : ℕ → Token)
    (held posted : ℕ → ℕ) (q : ℕ → Bool) (i size : ℕ) (latest : Option ℕ)
    → (w ≡ true → (j : ℕ) → a j ≡ true)
    → d.buffers ≤ 3
    → ((j : ℕ) → Balanced w d.buffers latest (refs_of tokens) held posted q j)
    → q i ≡ true
    → Inv w (
        stepped
          (port_of (streaming_entry e d latest tokens) held posted (put i false q))
          (replace_latest (accepts a (put i false q)) i size (streaming_entry e d latest tokens)))
flowing-captures a e d tokens held posted q i size none y n b h =
    first-Inv a e d tokens held posted q i size n b h
flowing-captures a e d tokens held posted q i size (some old) y n b h =
    next-Inv a e d tokens held posted q i old size y n b h

pub captures-Inv :
    {w : Bool} (a : ℕ → Bool) (p : Port) (i size : ℕ) (s : Step)
    → (w ≡ true → (j : ℕ) → a j ≡ true)
    → Inv w p
    → p.queued i ≡ true
    → p.entry.is_streaming ≡ true
    → on_device_frame (accepts a (put i false p.queued)) i size p.entry ≡ some s
    → Inv w (stepped (record p { queued = put i false p.queued }) s)
unfolding on_device_frame
captures-Inv a p i size s y (closed e held posted q f b c) h v r = cc
captures-Inv a p i size s y (parked e d held posted q n f b) h v r = cc
captures-Inv {w = w} a p i size s y (flowing e d latest tokens held posted q n b) h v r =
    let f = filled d.buffers i (refs_of tokens) held posted q latest h b in
    let inside : ltb i 3 ≡ true = ground (arith, f.2) in
    let t = streaming_entry e d latest tokens in
    let g : on_device_frame (accepts a (put i false q)) i size t
        ≡ some (replace_latest (accepts a (put i false q)) i size t) =
      rw inside refl in
    let same : replace_latest (accepts a (put i false q)) i size t ≡ s = cc in
    subst (λ x. Inv w (stepped (port_of t held posted (put i false q)) x)) same
      (flowing-captures a e d tokens held posted q i size latest y n b h)

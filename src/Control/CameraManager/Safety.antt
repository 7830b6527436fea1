-- ===== src/Control/CameraManager/Safety.antt =====
-- trikControl/src/cameraManager.cpp: the buffers of a port over any time.
use trik_runtime.Prelude.{
  ℕ, suc, ◌+◌, ◌-◌, ◌<◌, ◌≤◌, ◌≡◌, refl, ap, subst, sym, ◌∙◌, arith, Bool, true, false, Option,
  none, some, ltb, ◌==◌, ==_iff, put, Bool-cases, inl, inr,
}
use trik_runtime.Hal.VideoDevice.{VideoDevice}
use trik_runtime.Control.CameraManager.{
  Token, Entry, Answers, Step, get_frame, copy_frame, release_frame, return_buffer, acquire,
  open_device_locked, with_refs,
}
use trik_runtime.Control.CameraManager.Stopping.{release, stop_streaming}
use trik_runtime.Control.CameraManager.Frames.{
  Port, stepped, after_actions, accepts, Allows, posts, Next, captures, gets, copies, drops,
  returns, acquires, releases, stops, closes,
}
use trik_runtime.Control.CameraManager.States.{
  Inv, closed, parked, flowing, IsFree, Balanced, refs_of, bit, streaming_entry, port_of,
}
use trik_runtime.Control.CameraManager.Fills.{recount, return_buffer-flowing, captures-Inv}
use trik_runtime.Control.CameraManager.Claims.{with_refs-at, claimed_more, claimed_less, returned}
use trik_runtime.Control.CameraManager.Acquisitions.{acquire-closed, acquire-parked}
use trik_runtime.Control.CameraManager.Releases.{release-Succeeds}
use trik_runtime.Control.CameraManager.Stops.{Succeeds, stop_streaming-Succeeds, tear_down_port-Inv}

-- Without a stream no client has a frame.
free-Balanced :
    (tokens : ℕ → Token) (held posted : ℕ → ℕ) (i : ℕ)
    → IsFree tokens held posted i
    → 0 < held i
    → ⊥
free-Balanced tokens held posted i f h = ground (arith, f.not_held)

more-Inv :
    {w : Bool} (e : Entry) (d : VideoDevice) (latest : Option ℕ) (tokens : ℕ → Token)
    (held posted : ℕ → ℕ) (q : ℕ → Bool) (i : ℕ)
    → d.buffers ≤ 3
    → ((j : ℕ) → Balanced w d.buffers latest (refs_of tokens) held posted q j)
    → 0 < (tokens i).refs
    → (j : ℕ)
    → Balanced w d.buffers latest
        (refs_of (with_refs i (suc (tokens i).refs) tokens))
        (put i (suc (held i)) held)
        posted
        q
        j
more-Inv e d latest tokens held posted q i n b h j =
    recount d.buffers latest (put i (suc (tokens i).refs) (refs_of tokens))
      (refs_of (with_refs i (suc (tokens i).refs) tokens)) (put i (suc (held i)) held) posted q j
      (with_refs-at tokens i (suc (tokens i).refs) j)
      (claimed_more d.buffers i (refs_of tokens) held posted q latest h b j)

acquire-flowing :
    {w : Bool} (a : Answers) (e : Entry) (d : VideoDevice) (latest : Option ℕ) (tokens : ℕ → Token)
    (held posted : ℕ → ℕ) (q : ℕ → Bool) (ready : Bool)
    → d.buffers ≤ 3
    → ((j : ℕ) → Balanced w d.buffers latest (refs_of tokens) held posted q j)
    → Inv w (
        stepped
          (record {
            entry = streaming_entry (record e { is_ready = ready }) d latest tokens;
            held = held;
            posted = posted;
            queued = q;
          })
          (acquire a (streaming_entry (record e { is_ready = ready }) d latest tokens)))
unfolding acquire open_device_locked
acquire-flowing a e d latest tokens held posted q false n b =
    flowing (record e { is_ready = false }) d latest tokens held posted q n b
acquire-flowing a e d latest tokens held posted q true n b =
    flowing (record e { is_ready = true; ref_count = suc e.ref_count }) d latest tokens held posted
      q n b

acquires-Inv : {w : Bool} (p : Port) (a : Answers) → Inv w p → Inv w (stepped p (acquire a p.entry))
acquires-Inv p a (closed e held posted q f b c) = acquire-closed a e held posted q f b c
acquires-Inv p a (parked e d held posted q n f b) = acquire-parked a e d held posted q n f b
acquires-Inv p a (flowing e d latest tokens held posted q n b) =
    acquire-flowing a e d latest tokens held posted q e.is_ready n b

succeeded :
    {w : Bool} (p : Port) (o : Option Step) (s : Step)
    → Succeeds w o p.held p.posted p.queued
    → o ≡ some s
    → Inv w (stepped p s)
succeeded {w = w} p o s k h =
    let r = k.result in
    let same : k.step ≡ s = cc in subst (λ t. Inv w (stepped p t)) same k.in_order

drops-Inv :
    {w : Bool} (p : Port) (i : ℕ)
    → Inv w p
    → 0 < p.held i
    → Inv w (record p {
      entry = (release_frame i p.entry).0;
      held = put i (p.held i - 1) p.held;
      posted = posts (release_frame i p.entry).1 i p.posted;
    })
unfolding release_frame
drops-Inv p i (closed e held posted q f b c) h =
    absurd (free-Balanced e.tokens held posted i (f i) h)
drops-Inv p i (parked e d held posted q n f b) h =
    absurd (free-Balanced e.tokens held posted i (f i) h)
drops-Inv p i (flowing e d latest tokens held posted q n b) h =
    let r = (tokens i).refs in
    flowing e d latest (with_refs i (r - 1) tokens) (put i (held i - 1) held)
      (posts (r == 1) i posted) q n
      (λ j.
        recount d.buffers latest (put i (r - 1) (refs_of tokens))
          (refs_of (with_refs i (r - 1) tokens)) (put i (held i - 1) held) (posts (r == 1) i posted)
          q j (with_refs-at tokens i (r - 1) j)
          (claimed_less d.buffers i (refs_of tokens) held posted q latest h b j))

returns-Inv :
    {w : Bool} (a : ℕ → Bool) (p : Port) (i : ℕ)
    → Allows w a
    → Inv w p
    → 0 < p.posted i
    → Inv w (record p {
      posted = put i (p.posted i - 1) p.posted;
      queued = after_actions (return_buffer (accepts a p.queued) i p.entry) p.queued;
    })
returns-Inv a p i y (closed e held posted q f b c) h = absurd (ground (arith, (f i).not_posted))
returns-Inv a p i y (parked e d held posted q n f b) h = absurd (ground (arith, (f i).not_posted))
returns-Inv {w = w} a p i y (flowing e d latest tokens held posted q n b) h =
    let r = returned (a i) d.buffers i (refs_of tokens) held posted q latest (λ z. y z i) h b in
    subst
      (λ x.
        Inv w (port_of (streaming_entry e d latest tokens) held (put i (posted i - 1) posted) x))
      (sym (return_buffer-flowing e d latest tokens a i q r.0 r.1))
      (flowing e d latest tokens held (put i (posted i - 1) posted) (put i (a i) q) n r.2)

-- The frame that a client gets, counted.
abbrev gotten : Port → ℕ × Entry → Port
gotten p r = record p { entry = r.1; held = put r.0 (suc (p.held r.0)) p.held }

gets-flowing :
    {w : Bool} (e : Entry) (d : VideoDevice) (k : ℕ) (tokens : ℕ → Token) (held posted : ℕ → ℕ)
    (q : ℕ → Bool)
    → d.buffers ≤ 3
    → ((j : ℕ) → Balanced w d.buffers (some k) (refs_of tokens) held posted q j)
    → Inv w (record {
      entry = streaming_entry e d (some k) (with_refs k (suc (tokens k).refs) tokens);
      held = put k (suc (held k)) held;
      posted = posted;
      queued = q;
    })
gets-flowing e d k tokens held posted q n b =
    let total = (b k).counts ∙ ap (λ x. bit x + held k) ((==_iff k k).1 refl) in
    flowing e d (some k) (with_refs k (suc (tokens k).refs) tokens) (put k (suc (held k)) held)
      posted q n (more-Inv e d (some k) tokens held posted q k n b (omega arith))

gets-Inv :
    {w : Bool} (p : Port) (after_seq : ℕ) (r : ℕ × Entry)
    → Inv w p
    → get_frame after_seq p.entry ≡ some r
    → Inv w (gotten p r)
unfolding get_frame
gets-Inv p after_seq r (closed e held posted q f b c) h = cc
gets-Inv p after_seq r (parked e d held posted q n f b) h = cc
gets-Inv p after_seq r (flowing e d none tokens held posted q n b) h = cc
gets-Inv {w = w} p after_seq r (flowing e d (some k) tokens held posted q n b) h =
    let t = streaming_entry e d (some k) tokens in
    let u = streaming_entry e d (some k) (with_refs k (suc (tokens k).refs) tokens) in
    elim (Bool-cases (ltb after_seq (tokens k).seq)) [
      | inl l ↦
          let g : get_frame after_seq t ≡ some (k, u) = rw l refl in
          let same : (k, u) ≡ r = cc in
          subst
            (λ x. Inv w (gotten (record { entry = t; held = held; posted = posted; queued = q }) x))
            same (gets-flowing e d k tokens held posted q n b)
      | inr l ↦ let g : get_frame after_seq t ≡ none = rw l refl in cc
    ]

pub step-Inv : {w : Bool} (p p' : Port) → Inv w p → Next w p p' → Inv w p'
unfolding copy_frame
step-Inv p p' k (acquires a y) =
    acquires-Inv p (record a { accepts = accepts a.accepts p.queued }) k
step-Inv p p' k (releases o s r h) = succeeded p (release o p.entry) s (release-Succeeds o p k h) r
step-Inv p p' k (stops o s r h) =
    succeeded p (stop_streaming o p.entry) s (stop_streaming-Succeeds o p k h) r
step-Inv p p' k (closes o h) = tear_down_port-Inv o p k h
step-Inv p p' (flowing e d latest tokens held posted q n b) (copies i h) =
    flowing e d latest (with_refs i (suc (tokens i).refs) tokens) (put i (suc (held i)) held) posted
      q n (more-Inv e d latest tokens held posted q i n b (omega (arith, (b i).counts)))
step-Inv p p' (closed e held posted q f b c) (copies i h) =
    absurd (free-Balanced e.tokens held posted i (f i) h)
step-Inv p p' (parked e d held posted q n f b) (copies i h) =
    absurd (free-Balanced e.tokens held posted i (f i) h)
step-Inv p p' k (drops i h) = drops-Inv p i k h
step-Inv p p' k (returns a i y h) = returns-Inv a p i y k h
step-Inv p p' k (gets after_seq i e r) = gets-Inv p after_seq (i, e) k r
step-Inv p p' k (captures a i size s y q v r) = captures-Inv a p i size s y k q v r

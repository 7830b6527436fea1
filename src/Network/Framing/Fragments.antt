-- ===== src/Network/Framing/Fragments.antt =====
-- How the bytes are cut into reads does not matter.
use trik_runtime.Prelude.{
  ℕ, zero, suc, ◌≤◌, ◌<◌, ◌≡◌, ap, sym, ◌∙◌, inl, inr, none, some, List, [], ◌∷◌, ◌++◌, length,
  arith, length-append, length-drop-le, take-append, drop-append, append_assoc, flatten,
  Option-cases, drop, append-nil,
}
use trik_runtime.Prelude.Int.{ℤ, pos, negsuc}
use trik_runtime.Text.{Bytes, Decimal, index_of, left}
use trik_runtime.Network.Framing.{
  Buffer, Run, emit, colon, or_zero, round, rounds, measure, process_buffer, on_ready_read, reads,
}

index_of-append :
    (c i : ℕ) (xs ys : Bytes) → index_of c xs ≡ some i → index_of c (xs ++ ys) ≡ some i
index_of-append c i [] ys h = ground arith
index_of-append c zero (x ∷ xs) ys h = ground (arith, index_of-append c zero xs ys)
index_of-append c (suc i) (x ∷ xs) ys h = ground (arith, index_of-append c i xs ys)

index_of-lt : (c i : ℕ) (xs : Bytes) → index_of c xs ≡ some i → i < length xs
index_of-lt c i [] h = ground arith
index_of-lt c zero (x ∷ xs) h = omega arith
index_of-lt c (suc i) (x ∷ xs) h = ground (arith, index_of-lt c i xs)

length-drop-suc : (i : ℕ) (xs : Bytes) → i < length xs → suc (length (drop (suc i) xs)) ≤ length xs
length-drop-suc i [] h = absurd (omega arith)
length-drop-suc i (x ∷ xs) h = omega (arith, length-drop-le i xs)

abbrev pub append : Buffer → Bytes → Buffer
append s c = record s { buffer = s.buffer ++ c }

module _ (d : Decimal) where
  round-measure_parts :
      (b : Bytes) (e : ℤ) (t : Buffer) (out : List Bytes)
      → round d (record { buffer = b; expected_bytes = e }) ≡ some (t, out)
      → measure t < measure (record { buffer = b; expected_bytes = e })
  unfolding round
  round-measure_parts [] e t out h = ground arith
  round-measure_parts (x ∷ xs) (pos zero) t out h = elim (Option-cases (index_of colon (x ∷ xs))) [
    | inl n ↦ ground arith
    | inr (i, e) ↦ ground (
      arith,
      length-drop-suc i (x ∷ xs) (index_of-lt colon i (x ∷ xs) e),
      or_zero (d.to_int (left (pos i) (x ∷ xs))),
    )
  ]
  round-measure_parts (x ∷ xs) (pos (suc n)) t out h =
      ground (arith, length-drop-le (suc n) (x ∷ xs))
  round-measure_parts (x ∷ xs) (negsuc n) t out h = ground arith

  round-append_parts :
      (b : Bytes) (e : ℤ) (t : Buffer) (out : List Bytes) (c : Bytes)
      → round d (record { buffer = b; expected_bytes = e }) ≡ some (t, out)
      → round d (record { buffer = b ++ c; expected_bytes = e }) ≡ some (append t c, out)
  unfolding round
  round-append_parts [] e t out c h = ground arith
  round-append_parts (x ∷ xs) (pos zero) t out c h = elim (Option-cases (index_of colon (x ∷ xs))) [
    | inl n ↦ ground arith
    | inr (i, e) ↦
        let within = index_of-lt colon i (x ∷ xs) e in
        ground (
          arith,
          index_of-append colon i (x ∷ xs) c e,
          take-append i (x ∷ xs) c (omega (arith, within)),
          drop-append (suc i) (x ∷ xs) c within,
        )
  ]
  round-append_parts (x ∷ xs) (pos (suc n)) t out c h = ground (
    arith,
    length-append (x ∷ xs) c,
    take-append (suc n) (x ∷ xs) c,
    drop-append (suc n) (x ∷ xs) c,
  )
  round-append_parts (x ∷ xs) (negsuc n) t out c h = ground arith

  round-measure :
      (s t : Buffer) (out : List Bytes) → round d s ≡ some (t, out) → measure t < measure s
  round-measure s t out h = round-measure_parts s.buffer s.expected_bytes t out h

  round-append :
      (s t : Buffer) (out : List Bytes) (c : Bytes)
      → round d s ≡ some (t, out)
      → round d (append s c) ≡ some (append t c, out)
  round-append s t out c h = round-append_parts s.buffer s.expected_bytes t out c h

  rounds_stop : (f : ℕ) (s : Buffer) → round d s ≡ none → rounds d (suc f) s ≡ (s, [])
  unfolding rounds
  rounds_stop f s e = rw (e, rounds)

  rounds_go :
      (f : ℕ) (s t : Buffer) (out : List Bytes)
      → round d s ≡ some (t, out)
      → rounds d (suc f) s ≡ emit out (rounds d f t)
  unfolding rounds
  rounds_go f s t out e = rw (e, rounds)

  -- More fuel than the measure changes nothing.
  rounds_fuel : (f g : ℕ) (s : Buffer) → measure s < f → measure s < g → rounds d f s ≡ rounds d g s
  rounds_fuel zero g s hf hg = absurd (omega arith)
  rounds_fuel (suc f) zero s hf hg = absurd (omega arith)
  rounds_fuel (suc f) (suc g) s hf hg = elim (Option-cases (round d s)) [
    | inl e ↦ rw (rounds_stop f s e, rounds_stop g s e)
    | inr ((t, out), e) ↦
        let less = round-measure s t out e in
        rw (rounds_go f s t out e, rounds_go g s t out e)
          (ap (emit out) (rounds_fuel f g t (omega (arith, less)) (omega (arith, less))))
  ]

  pub process_buffer_stop : (s : Buffer) → round d s ≡ none → process_buffer d s ≡ (s, [])
  unfolding process_buffer
  process_buffer_stop s e = rounds_stop (measure s) s e

  pub process_buffer-round :
      (s t : Buffer) (out : List Bytes)
      → round d s ≡ some (t, out)
      → process_buffer d s ≡ emit out (process_buffer d t)
  unfolding process_buffer
  process_buffer-round s t out e =
      rounds_go (measure s) s t out e
      ∙ ap (emit out)
          (rounds_fuel (measure s) (suc (measure t)) t (round-measure s t out e) (omega arith))

  -- Where the first bytes are processed before the others arrive.
  abbrev then_read : Bytes → Run → Run
  then_read c (s, out) = emit out (process_buffer d (append s c))

  emit-then_read :
      (out : List Bytes) (c : Bytes) (r : Run) → emit out (then_read c r) ≡ then_read c (emit out r)
  emit-then_read out c (s, rest) =
      let (t, more) = process_buffer d (append s c) in
      ap (λ o. (t, o)) (sym (append_assoc out rest more))

  rounds-append :
      (f : ℕ) (s : Buffer) (c : Bytes)
      → measure s < f
      → process_buffer d (append s c) ≡ then_read c (rounds d f s)
  rounds-append zero s c h = absurd (omega arith)
  rounds-append (suc f) s c h = elim (Option-cases (round d s)) [
    | inl e ↦ rw (rounds_stop f s e)
    | inr ((t, out), e) ↦ rw (rounds_go f s t out e) (
        process_buffer-round (append s c) (append t c) out (round-append s t out c e)
        ∙ ap (emit out) (rounds-append f t c (omega (arith, round-measure s t out e)))
        ∙ emit-then_read out c (rounds d f t))
  ]

  process_buffer-append :
      (s : Buffer) (c : Bytes) → process_buffer d (append s c) ≡ then_read c (process_buffer d s)
  unfolding process_buffer
  process_buffer-append s c = rounds-append (suc (measure s)) s c (omega arith)

  -- The loop never stops with work left: what remains is empty, or has no delimiter or no whole
  -- message yet.
  rounds-round : (f : ℕ) (s : Buffer) → measure s < f → round d (rounds d f s).0 ≡ none
  rounds-round zero s h = absurd (omega arith)
  rounds-round (suc f) s h = elim (Option-cases (round d s)) [
    | inl e ↦ rw (rounds_stop f s e) e
    | inr ((t, out), e) ↦
        rw (rounds_go f s t out e) (rounds-round f t (omega (arith, round-measure s t out e)))
  ]

  pub on_ready_read-round : (s : Buffer) (c : Bytes) → round d (on_ready_read d s c).0 ≡ none
  unfolding on_ready_read process_buffer
  on_ready_read-round s c = rounds-round (suc (measure (append s c))) (append s c) (omega arith)

  on_ready_read-append :
      (s : Buffer) (b c : Bytes)
      → on_ready_read d s (b ++ c)
        ≡ (let (t, out) = on_ready_read d s b in emit out (on_ready_read d t c))
  unfolding on_ready_read
  on_ready_read-append s b c =
      rw (← append_assoc s.buffer b c) (process_buffer-append (append s b) c)

  pub reads-flatten :
      (s : Buffer) (cs : List Bytes)
      → round d s ≡ none
      → reads d s cs ≡ on_ready_read d s (flatten cs)
  unfolding reads on_ready_read flatten
  reads-flatten s [] e = rw append-nil (sym (process_buffer_stop s e))
  reads-flatten s (c ∷ cs) e =
      let t = (on_ready_read d s c).0 in
      ap (emit (on_ready_read d s c).1) (reads-flatten t cs (on_ready_read-round s c))
      ∙ sym (on_ready_read-append s c (flatten cs))

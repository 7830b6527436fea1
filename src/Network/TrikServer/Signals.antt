-- ===== src/Network/TrikServer/Signals.antt =====
-- A server tells when its first connection comes and when its last one goes.
use trik_runtime.Prelude.{
  ℕ, ◌≡◌, refl, ap, sym, ◌∙◌, Bool, true, false, Option, none, some, List, [], ◌∷◌, ◌++◌, not,
  is_empty, arith,
}
use trik_runtime.Network.TrikServer.{
  Link, TrikServer, Signal, connected, disconnected, new, on_started, on_connection_closed, put,
  thread_of,
}

-- What listeners have been told last: `none` where a signal came twice in a row.
abbrev pub told : Bool → Signal → Option Bool
told false connected = some true
told true connected = none
told false disconnected = none
told true disconnected = some false

abbrev pub follow : Bool → List Signal → Option Bool
follow b [] = some b
follow b (s ∷ ss) = elim (told b s) [ none ↦ none | some c ↦ follow c ss ]

follow-append :
    (b c : Bool) (xs ys : List Signal) → follow b xs ≡ some c → follow b (xs ++ ys) ≡ follow c ys
follow-append b c [] ys h = ground arith
follow-append false c (connected ∷ xs) ys h = follow-append true c xs ys h
follow-append true c (connected ∷ xs) ys h = ground arith
follow-append false c (disconnected ∷ xs) ys h = ground arith
follow-append true c (disconnected ∷ xs) ys h = follow-append false c xs ys h

module _ {Host : Type 0} where
  -- The histories of a server: connections start, and connections that it keeps are closed.
  pub data History : TrikServer Host → List Signal → Type 0 where
    begin : (s : TrikServer Host) → s ≡ new → History s []
    start :
        {s : TrikServer Host} {signals : List Signal} (thread : ℕ) (l : Link Host)
        → History s signals
        → History (on_started s thread l).0 (signals ++ (on_started s thread l).1)
    close :
        {s : TrikServer Host} {signals : List Signal} (thread : ℕ) (l : Link Host)
        → thread_of l.id s.connections ≡ some thread
        → History s signals
        → History (on_connection_closed s l).0 (signals ++ (on_connection_closed s l).2)

  is_empty-put :
      (thread : ℕ) (l : Link Host) (cs : List (ℕ × Link Host)) → is_empty (put thread l cs) ≡ false
  is_empty-put thread l [] = refl
  is_empty-put thread l ((t, c) ∷ cs) = ground arith

  is_empty-thread_of :
      (id thread : ℕ) (cs : List (ℕ × Link Host))
      → thread_of id cs ≡ some thread
      → is_empty cs ≡ false
  is_empty-thread_of id thread [] h = ground arith
  is_empty-thread_of id thread (c ∷ cs) h = refl

  -- The two signals alternate, beginning with `connected`, and the last one tells whether the
  -- server has connections; every connection that is closed was kept.
  pub follow-History :
      {s : TrikServer Host} {signals : List Signal}
      → History s signals
      → follow false signals ≡ some (not (is_empty s.connections))
  unfolding new on_started on_connection_closed
  follow-History (begin s e) = ap (λ t. some (not (is_empty t.connections))) (sym e)
  follow-History (start {s = s} {signals = signals} thread l h) =
      follow-append false _ signals _ (follow-History h)
      ∙ ground (arith, is_empty-put thread l s.connections)
  follow-History (close {s = s} {signals = signals} thread l k h) =
      follow-append false _ signals _ (follow-History h)
      ∙ ground (arith, is_empty-thread_of l.id thread s.connections k)

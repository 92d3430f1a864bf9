-- ===== src/Client/History.antt =====
-- What every call of a client of src/client/mod.rs keeps.
use dummy_h.Prelude.{
  ℕ, ◌≤◌, ◌≡◌, refl, sym, subst, inl, inr, true, Option, none, some, List, [], ◌∷◌, ◌++◌, arith,
  ltb, Bool-cases, length, All, length-append,
}
use dummy_h.Error.{Result, ok, err}
use dummy_h.Http.{HttpLib, H3Request}
use dummy_h.Connection
use dummy_h.Connection.{QuicConnection, Stop, Sending}
use dummy_h.Client.{
  channel_size, Schedule, RequestMessage, ResponseMessage, Session, rounds, take_response,
  process_response, assign, send_now, send_over, send_request, drop_channels, finish_close,
  close_over, close,
}
use dummy_h.Client.Machine.{
  if_both, Step, worked, stopped, asked, closed, IsPlaceholder, Holds, Linked, round-Holds,
  rounds-Holds, round-client, rounds-client,
}

module _ (L : HttpLib) {C S : Type 0} (c : QuicConnection C S) where
  abbrev pub IsSound : Session L C S → Type 0
  IsSound s = Linked L c s.client × Holds L s

  abbrev SoundAfter {ℓ} : {A : Type ℓ} → Session L C S × A → Type 0
  SoundAfter r = IsSound r.0

  rounds-IsSound : (n : ℕ) (s : Session L C S) → IsSound s → IsSound (rounds L n s)
  rounds-IsSound n s (l, h) =
      (subst (Linked L c) (sym (rounds-client L n s)) l, rounds-Holds L n s h)

  take_response-IsSound :
      (s : Session L C S) (id : ℕ) (ms : List (ResponseMessage L))
      → ms ≡ s.responses
      → IsSound s
      → IsSound (take_response L s id ms).0
  unfolding take_response
  take_response-IsSound s id (m ∷ ms) e (l, (a, h, p, q)) =
      let (x, y) =
        subst (λ rs. All (IsPlaceholder L) rs × (length rs ≤ channel_size)) (sym e) (a, q) in
      (l, (x.1, h, p, omega arith))
  take_response-IsSound s id [] e h = if_both SoundAfter s.running h h

  process_response-IsSound :
      (s : Session L C S) (id n : ℕ) → IsSound s → IsSound (process_response L s id n).0
  unfolding process_response
  process_response-IsSound s id n h =
      if_both SoundAfter s.client.response_receiver
        (take_response-IsSound (rounds L n s) id _ refl (rounds-IsSound n s h)) h

  send_now-IsSound :
      (s : Session L C S) (id : ℕ) (m : RequestMessage L) (n : ℕ)
      → IsSound s
      → IsSound (send_now L s id m n).0
  unfolding send_now
  send_now-IsSound s id m n h =
      if_both SoundAfter s.running
        (elim (Bool-cases (ltb (length s.requests) channel_size)) [
          | inl e ↦ rw e (process_response-IsSound _ id n (queued e h))
          | inr e ↦ rw e h
        ])
        h
    where
      queued :
          ltb (length s.requests) channel_size ≡ true
          → IsSound s
          → IsSound (record s { requests = s.requests ++ m ∷ [] })
      queued e (l, (a, k, p, q)) = (l, (a, k, ground (arith, length-append s.requests (m ∷ [])), q))

  send_over-IsSound :
      (s : Session L C S) (o : Option (QuicConnection C S)) (request : H3Request L) (w : Schedule)
      → IsSound s
      → IsSound (send_over L s o request w).0
  unfolding send_over assign
  send_over-IsSound s none request w h = h
  send_over-IsSound s (some d) request w h =
      if_both SoundAfter s.client.request_sender
        (send_now-IsSound _ s.client.next_request_id _ w.before_answer
          (rounds-IsSound w.before_send (assign L s) h))
        h

  finish_close-IsSound :
      (s : Session L C S) (r : Result Stop (Unit {0}))
      → s.client.connection ≡ none
      → IsSound s
      → IsSound (finish_close L s r).0
  unfolding finish_close drop_channels
  finish_close-IsSound s (ok u) e (l, (a, h, p, q)) = (inl e, (tt, h, p, omega arith))
  finish_close-IsSound s (err x) e h = h

  close_over-IsSound :
      (s : Session L C S) (o : Option (QuicConnection C S)) (w : Sending)
      → o ≡ s.client.connection
      → IsSound s
      → IsSound (close_over L s o w).0
  unfolding close_over
  close_over-IsSound s none w e h = finish_close-IsSound s (ok tt) (sym e) h
  close_over-IsSound s (some d) w e h =
      finish_close-IsSound (record s { client = record s.client { connection = none } })
        (Connection.close d w).1 refl (inl refl, h.1)

  pub Step-IsSound : (s t : Session L C S) → Step L C S s t → IsSound s → IsSound t
  unfolding send_request close
  Step-IsSound s _ (worked _) (l, h) =
      (subst (Linked L c) (sym (round-client L s)) l, round-Holds L s h)
  Step-IsSound s _ (stopped _) (l, (a, h, p, q)) = (l, (a, tt, omega arith, q))
  Step-IsSound s _ (asked _ request w) h = send_over-IsSound s s.client.connection request w h
  Step-IsSound s _ (closed _ w) h = close_over-IsSound s s.client.connection w refl h

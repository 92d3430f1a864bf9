-- ===== src/Client/Machine.antt =====
-- Histories of a client of src/client/mod.rs with its task: what its calls answer.
use dummy_h.Prelude.{
  ℕ, zero, suc, ◌≤◌, ◌≡◌, refl, ◌∙◌, ◌⊎◌, inl, inr, Bool, true, false, Option, none, some, List, [],
  ◌∷◌, ◌++◌, arith, ltb, if◌then◌else◌, Bool-cases, length, All, length-append,
}
use dummy_h.Error.{ok}
use dummy_h.Http.{HttpLib, H3Request}
use dummy_h.Http.Build.{ok_response}
use dummy_h.Connection.{QuicConnection, Sending}
use dummy_h.Client.{
  channel_size, Schedule, RequestMessage, ResponseMessage, H3Client, Session, respond, round_with,
  round, rounds, send_request, close,
}

-- What holds of both branches holds of a test.
pub if_both :
    {A : Type 0} (P : A → Type 0) (b : Bool) {x y : A} → P x → P y → P (if b then x else y)
if_both P true h k = h
if_both P false h k = k

pub if_true :
    {A : Type 0} (P : A → Type 0) (b : Bool) {x : A} (y : A)
    → b ≡ true
    → P x
    → P (if b then x else y)
if_true P true y e h = h
if_true P false y e h = absurd (ground arith)

module _ (L : HttpLib) (C S : Type 0) where
  -- The runtime that runs the task is shut down.
  abbrev pub stop : Session L C S → Session L C S
  stop s = record s { running = false; requests = []; in_hand = none }

  -- One round of the task, or one call; a call that waits may be given up.
  pub data Step : Session L C S → Session L C S → Type 0 where
    worked : (s : Session L C S) → Step s (round L s)
    stopped : (s : Session L C S) → Step s (stop s)
    asked :
        (s : Session L C S) (request : H3Request L) (w : Schedule)
        → Step s (send_request L s request w).0
    closed : (s : Session L C S) (w : Sending) → Step s (close L s w).0

  pub data Reach : Session L C S → Session L C S → Type 0 where
    at_first : (s : Session L C S) → Reach s s
    next : (s t u : Session L C S) → Reach s t → Step t u → Reach s u

  pub along :
      (P : Session L C S → Type 0) (keep : (s t : Session L C S) → Step s t → P s → P t)
      (s t : Session L C S)
      → Reach s t
      → P s
      → P t
  along P keep s _ (at_first _) p = p
  along P keep s u (next _ t _ r st) p = keep t u st (along P keep s t r p)

module _ (L : HttpLib) where
  abbrev pub IsPlaceholder : ResponseMessage L → Type 0
  IsPlaceholder m = m.response ≡ ok (ok_response L)

  abbrev pub HandHolds : Option (ResponseMessage L) → Type 0
  HandHolds none = Unit {0}
  HandHolds (some m) = IsPlaceholder m

  All-end :
      (ms : List (ResponseMessage L)) (m : ResponseMessage L)
      → All IsPlaceholder ms
      → IsPlaceholder m
      → All IsPlaceholder (ms ++ m ∷ [])
  All-end [] m a h = (h, tt)
  All-end (x ∷ ms) m (a, b) h = (a, All-end ms m b h)

  module _ {C S : Type 0} where
    -- The channels hold placeholders alone, and no more than they have room for.
    abbrev pub Holds : Session L C S → Type 0
    Holds s =
        All IsPlaceholder s.responses
        × HandHolds s.in_hand
        × (length s.requests ≤ channel_size)
        × (length s.responses ≤ channel_size)

    -- The connection that a client has is the one it was made with, and it then has its channels.
    abbrev pub Linked : QuicConnection C S → H3Client L C S → Type 0
    Linked c k =
        (k.connection ≡ none)
        ⊎ ((k.connection ≡ some c) × (k.request_sender ≡ true) × (k.response_receiver ≡ true))

    put-Holds :
        (s : Session L C S) (r : ResponseMessage L)
        → Holds s
        → IsPlaceholder r
        → ltb (length s.responses) channel_size ≡ true
        → Holds (record s { in_hand = none; responses = s.responses ++ r ∷ [] })
    put-Holds s r (a, h, p, q) k room =
        (All-end s.responses r a k, tt, p, ground (arith, length-append s.responses (r ∷ [])))

    round_with-Holds :
        (s : Session L C S) (o : Option (ResponseMessage L)) (ms : List (RequestMessage L))
        → Holds s
        → HandHolds o
        → length ms ≤ channel_size
        → Holds (round_with L s o ms)
    unfolding round_with respond
    round_with-Holds s (some r) ms h k l =
        if_both Holds s.client.response_receiver
          (elim (Bool-cases (ltb (length s.responses) channel_size)) [
            | inl e ↦ rw e (put-Holds s r h k e)
            | inr e ↦ rw e h
          ])
          (h.0, tt, h.2, h.3)
    round_with-Holds s none (m ∷ ms) h k l = (h.0, refl, omega arith, h.3)
    round_with-Holds s none [] h k l = if_both Holds s.client.request_sender h h

    pub round-Holds : (s : Session L C S) → Holds s → Holds (round L s)
    unfolding round
    round-Holds s h = if_both Holds s.running (round_with-Holds s s.in_hand s.requests h h.1 h.2) h

    pub rounds-Holds : (n : ℕ) (s : Session L C S) → Holds s → Holds (rounds L n s)
    unfolding rounds
    rounds-Holds zero s h = h
    rounds-Holds (suc n) s h = rounds-Holds n (round L s) (round-Holds s h)

    round_with-client :
        (s : Session L C S) (o : Option (ResponseMessage L)) (ms : List (RequestMessage L))
        → (round_with L s o ms).client ≡ s.client
    unfolding round_with
    round_with-client s (some r) ms =
        if_both Same s.client.response_receiver
          (if_both Same (ltb (length s.responses) channel_size) refl refl) refl
      where
        Same : Session L C S → Type 0
        Same t = t.client ≡ s.client
    round_with-client s none (m ∷ ms) = refl
    round_with-client s none [] = ground arith

    pub round-client : (s : Session L C S) → (round L s).client ≡ s.client
    unfolding round
    round-client s =
        if_both (λ (t : Session L C S). t.client ≡ s.client) s.running
          (round_with-client s s.in_hand s.requests) refl

    pub rounds-client : (n : ℕ) (s : Session L C S) → (rounds L n s).client ≡ s.client
    unfolding rounds
    rounds-client zero s = refl
    rounds-client (suc n) s = rounds-client n (round L s) ∙ round-client s

-- ===== src/Manager/Feed.antt =====
-- How `StreamManager::process_frame` of src/protocol/stream.rs hands frames on to its streams.
use dummy_h.Prelude.{
  ℕ, ◌≡◌, refl, ap, ◌∙◌, subst, inl, inr, Bool, false, Option, none, some, List, [], ◌∷◌, arith,
  ◌==◌, if◌then◌else◌, ==_iff, Bool-cases,
}
use dummy_h.Prelude.Table.{get, get-insert}
use dummy_h.Error.{ok}
use dummy_h.Frame.{H3Frame, stream_id}
use dummy_h.Stream
use dummy_h.Stream.{StreamConfig, StreamState, StreamEvent, opened}
use dummy_h.Stream.Calls.{receive}
use dummy_h.Stream.Calls
use dummy_h.Manager.{
  StreamManager, Call, process_frame, ensure_stream, deliver, stream_exists, open_state,
}
use dummy_h.Manager.Streams.{deliver-known}

-- The state that a frame finds: the one of the stream, or an open one if it was not known.
abbrev pub state_or_open : StreamConfig → ℕ → ℕ → Option StreamState → StreamState
state_or_open config id now none = record (Stream.new id config now) { state = opened }
state_or_open config id now (some s) = s

-- The manager keeps its configuration and flow controller, and `o` stands under `k`.
abbrev Shows : StreamManager → ℕ → Option StreamState → StreamManager → Type 0
Shows m k o n =
    (n.config ≡ m.config) × (n.flow_controller ≡ m.flow_controller) × (get n.streams k ≡ o)

ensure-Shows :
    (m : StreamManager) (id now k : ℕ)
    → Shows m k
        (if id == k
          then some (state_or_open m.config id now (get m.streams id))
          else get m.streams k)
        (ensure_stream m id now)
unfolding ensure_stream stream_exists open_state
ensure-Shows m id now k = ground (arith, get-insert m.streams id k (open_state m id now))

module _ {H : Type 0} where
  -- The frame is one of stream `k`.
  abbrev pub names : H3Frame H → ℕ → Bool
  names f k = elim (stream_id f) [ none ↦ false | some id ↦ id == k ]

  -- What one stream makes of the frames that arrive, each with its time: it takes those that name it as
  -- steps of its own machine, and the first of them opens it if it was not known.
  pub follow : StreamConfig → ℕ → Option StreamState → List (H3Frame H × ℕ) → Option StreamState
  follow config id o [] = o
  follow config id o ((f, now) ∷ fs) =
      let next = some (Calls.step (state_or_open config id now o) (receive f)) in
      follow config id (if names f id then next else o) fs

  -- The manager's part: it is handed one frame after the other.
  pub feed : StreamManager → List (H3Frame H × ℕ) → StreamManager
  feed m [] = m
  feed m ((f, now) ∷ fs) = feed (process_frame m f now).0 fs

  deliver-Shows :
      (m : StreamManager) (f : H3Frame H) (id now k : ℕ)
      → Shows m k
          (if id == k
            then some (Calls.step (state_or_open m.config id now (get m.streams id)) (receive f))
            else get m.streams k)
          (deliver (ensure_stream m id now) id f).0
  unfolding Calls.step
  deliver-Shows m f id now k =
      let n = ensure_stream m id now in
      let s = state_or_open m.config id now (get m.streams id) in
      let t = (Stream.process_frame s f).0 in
      let here = ensure-Shows m id now id in
      let there = ensure-Shows m id now k in
      let known : get n.streams id ≡ some s = ground (arith, here) in
      rw (deliver-known n f id s known)
        (here.0, here.1, ground (arith, get-insert n.streams id k t, there))

  process-Shows :
      (m : StreamManager) (f : H3Frame H) (now k : ℕ)
      → Shows m k
          (if names f k
            then some (Calls.step (state_or_open m.config k now (get m.streams k)) (receive f))
            else get m.streams k)
          (process_frame m f now).0
  unfolding process_frame
  process-Shows m f now k = handled (stream_id f)
    where
      handled :
          (o : Option ℕ)
          → Shows m k
              (if elim o as (λ o. Bool) [ none ↦ false | some id ↦ id == k ]
                then some (Calls.step (state_or_open m.config k now (get m.streams k)) (receive f))
                else get m.streams k)
              (elim o as (λ o. Call (List StreamEvent)) [
                | none ↦ (m, ok [])
                | some id ↦ deliver (ensure_stream m id now) id f
              ]).0
      handled none = (refl, refl, refl)
      handled (some id) = elim (Bool-cases (id == k)) [
        | inl e ↦
            let same : id ≡ k = (==_iff id k).0 e in
            subst
              (λ j.
                Shows m k
                  (if id == k
                    then some
                        (Calls.step (state_or_open m.config j now (get m.streams j)) (receive f))
                    else get m.streams k)
                  (deliver (ensure_stream m id now) id f).0)
              same (deliver-Shows m f id now k)
        | inr e ↦ rw e (rw e at (deliver-Shows m f id now k))
      ]

  -- Whatever frames a manager is handed, each stream becomes what its own machine makes of the frames
  -- that name it, in their order and opened by the first of them if it was not known; the others do not
  -- touch it. The flow controller is told of none of them.
  pub feed-follow :
      (m : StreamManager) (fs : List (H3Frame H × ℕ)) (id : ℕ)
      → (get (feed m fs).streams id ≡ follow m.config id (get m.streams id) fs)
        × ((feed m fs).flow_controller ≡ m.flow_controller)
  unfolding feed follow
  feed-follow m [] id = (refl, refl)
  feed-follow m ((f, now) ∷ fs) id =
      let (settings, windows, here) = process-Shows m f now id in
      let (rest, same) = feed-follow (process_frame m f now).0 fs id in
      (
        rest
            ∙ ap (λ (c : StreamConfig). follow c id (get (process_frame m f now).0.streams id) fs)
                settings
            ∙ ap (λ (o : Option StreamState). follow m.config id o fs) here,
        same ∙ windows,
      )

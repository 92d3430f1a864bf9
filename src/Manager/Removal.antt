-- ===== src/Manager/Removal.antt =====
-- What `cleanup_closed_streams` in src/protocol/stream.rs removes.
use dummy_h.Prelude.{ℕ, ◌≡◌, false, some, [], ◌∷◌, arith}
use dummy_h.Prelude.Table.{Table, get}
use dummy_h.Stream.{StreamState, is_closed}
use dummy_h.Manager.{StreamManager}
use dummy_h.Manager.Cleanup.{retain_open, cleanup_closed_streams}

retained :
    (t : Table StreamState) (k : ℕ) (s : StreamState)
    → get t k ≡ some s
    → is_closed s ≡ false
    → get (retain_open t) k ≡ some s
unfolding get retain_open
retained [] k s h o = cc
retained ((j, u) ∷ t) k s h o = ground (arith, retained t k s)

none_closed :
    (t : Table StreamState) (k : ℕ) (s : StreamState)
    → get (retain_open t) k ≡ some s
    → is_closed s ≡ false
unfolding get retain_open
none_closed [] k s h = cc
none_closed ((j, u) ∷ t) k s h = ground (arith, none_closed t k s)

-- `cleanup_closed_streams` keeps every stream that is not closed as it is, and no closed one.
pub cleanup_closed_streams_lem :
    (m : StreamManager) (k : ℕ) (s : StreamState)
    → (get m.streams k ≡ some s
        → is_closed s ≡ false
        → get (cleanup_closed_streams m).streams k ≡ some s)
      × (get (cleanup_closed_streams m).streams k ≡ some s → is_closed s ≡ false)
unfolding cleanup_closed_streams
cleanup_closed_streams_lem m k s = (retained m.streams k s, none_closed m.streams k s)

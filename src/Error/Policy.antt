-- ===== src/Error/Policy.antt =====
-- How the two classifications of an error in src/error.rs lie to each other.
use dummy_h.Prelude.{◌≡◌, ◌↔◌, true, arith}
use dummy_h.Error.{H3Error, connection, ConnectionError, is_recoverable, should_close_connection}

-- An error that may be recovered from and that also closes the connection is the idle timeout, and
-- no other.
pub recoverable_closing :
    (e : H3Error)
    → ((is_recoverable e ≡ true) × (should_close_connection e ≡ true))
      ↔ (e ≡ connection ConnectionError.idle_timeout)
unfolding is_recoverable should_close_connection
recoverable_closing e = grind arith

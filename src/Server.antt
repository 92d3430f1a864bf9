-- ===== src/Server.antt =====
-- `H3Server` of src/server/mod.rs. The code binds no socket, serves no request and logs only.
use dummy_h.Error.{H3Error, Result, ok}
use dummy_h.Config.{ServerConfig}
use dummy_h.Http.{HttpLib, H3Request, H3Response}

-- A placeholder without fields.
pub record ConnectionPool : Type 0 where

unfoldable pub new_pool : ConnectionPool
new_pool = record {}

pub record H3Server : Type 0 where
  pub config : ServerConfig
  pub connection_pool : ConnectionPool

unfoldable pub bind_server : ServerConfig → Result H3Error H3Server
unfolding new_pool
bind_server settings = ok (record { config = settings; connection_pool = new_pool })

unfoldable pub shutdown : H3Server → H3Server × Result H3Error (Unit {0})
shutdown s = (s, ok tt)

module _ (L : HttpLib) where
  -- The trait, as what a handler makes of a request when its future is awaited.
  pub record RequestHandler : Type 0 where
    pub handle_request : H3Request L → Result H3Error (H3Response L)

  pub record FunctionHandler : Type 0 where
    pub handler : H3Request L → Result H3Error (H3Response L)

  -- `impl RequestHandler for FunctionHandler`
  unfoldable pub as_handler : FunctionHandler → RequestHandler
  as_handler f = record { handle_request = f.handler }

  unfoldable pub make_handler : (H3Request L → Result H3Error (H3Response L)) → FunctionHandler
  make_handler f = record { handler = f }

  unfoldable pub serve : H3Server → RequestHandler → H3Server × Result H3Error (Unit {0})
  serve s handler = (s, ok tt)

-- ===== src/Grpc/Incoming.antt =====
-- sdk/grpc/src/incoming.rs and incoming/options.rs: how a listener is bound.
pub mod Bound
use knot_ops.Prelude.{ℕ, Text}
use knot_ops.Core.Consts.{Build, unix, windows}
use knot_ops.Sys.Errors.{IoError, Result, ok, err, Action, ◌>>=◌, ◌>>◌, pure}
use knot_ops.Grpc.Resolver.{SocketNames, resolve}

pub record IncomingOptions : Type 0 where
  pub buffer_size : ℕ

-- `Default`
unfoldable pub default_options : IncomingOptions
default_options = record { buffer_size = 64 }

-- What `bind` does to the outside world `W`: `L` is a listener, `R` the receiver of the channel that
-- the spawned accept loop fills.
pub record Server (W N L R : Type 0) : Type 0 where
  pub remove_file : Text → Action W IoError (Unit {0})
  pub create_listener : N → Action W IoError L
  pub set_permissions : Text → ℕ → Action W IoError (Unit {0})
  -- `mpsc::channel` of a capacity, and `tokio::spawn` of the loop on a listener
  pub spawn_acceptor : ℕ → L → W → R × W

module _ {W N L R : Type 0} (names : SocketNames N) (server : Server W N L R) where
  -- An error of the removal is logged only.
  try_remove : Text → W → W
  try_remove path w = (server.remove_file path w).1

  listen : Result N IoError → Action W IoError L
  listen (ok name) w = server.create_listener name w
  listen (err e) w = (err e, w)

  -- Under `cfg(unix)`.
  restrict : Build → Text → Action W IoError (Unit {0})
  restrict unix path = server.set_permissions path 0o600
  restrict windows path = pure tt

  unfoldable pub bind : Text → IncomingOptions → Action W IoError R
  unfolding try_remove listen restrict
  bind path opts w =
      (listen (resolve names path) >>= λ l. restrict names.target path >> λ w1.
      let (r, w2) = server.spawn_acceptor opts.buffer_size l w1 in (ok r, w2))
        (try_remove path w)

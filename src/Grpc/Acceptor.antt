-- ===== src/Grpc/Acceptor.antt =====
-- sdk/grpc/src/incoming.rs and incoming/stream.rs: the accept loop, the stream that reads from it, and
-- the end of both, as a step relation. `C` is a connection of interprocess.
pub mod Order
pub mod Delivery
use knot_ops.Prelude.{ℕ, Option, none, some, List, [], ◌∷◌, ◌++◌, ◌≡◌}
use knot_ops.Sys.Errors.{IoError, Result, ok, err}
use knot_ops.Grpc.Incoming.{IncomingOptions}

pub record IpcServerStream (C : Type 0) : Type 0 where
  pub inner : C

abbrev pub Item : Type 0 → Type 0
Item C = Result (IpcServerStream C) IoError

-- `conn_res.map(IpcServerStream::new)`
unfoldable pub mapped_res : {C : Type 0} → Result C IoError → Item C
mapped_res (ok inner) = ok (record { inner = inner })
mapped_res (err e) = err e

-- A bounded `mpsc` channel of tokio that has its receiver.
pub record Channels (C M : Type 0) : Type 0 where
  pub channel : ℕ → M
  -- a send that need not wait, and a receive that finds something
  pub send : M → Item C → Option M
  pub recv : M → Option (Item C × M)

-- Where the spawned task is: in `select!`, in the `send` of an item, or after the loop.
pub data Acceptor (C : Type 0) : Type 0 where
  selecting : Acceptor C
  sending : Item C → Acceptor C
  finished : Acceptor C

-- `channel` is `none` when `IpcIncoming` is dropped, and with it the receiver.
pub record Listening (C M : Type 0) : Type 0 where
  pub acceptor : Acceptor C
  pub receiver : Option M

-- What a step shows: a result of `accept`, an item that `poll_next` gives, or nothing.
pub data Event (C : Type 0) : Type 0 where
  accepted : Result C IoError → Event C
  given : Item C → Event C
  silent : Event C

module _ {C M : Type 0} (channels : Channels C M) where
  unfoldable pub listening : IncomingOptions → Listening C M
  listening opts = record {
    acceptor = selecting;
    receiver = some (channels.channel opts.buffer_size);
  }

  pub data Step : Listening C M → Event C → Listening C M → Type 0 where
    -- the branch `listener.accept()`
    accept :
        {receiver : Option M} (conn_res : Result C IoError)
        → Step
            (record { acceptor = selecting; receiver = receiver })
            (accepted conn_res)
            (record { acceptor = sending (mapped_res conn_res); receiver = receiver })
    -- `tx.send` is done
    sent :
        {item : Item C} {m m' : M}
        → channels.send m item ≡ some m'
        → Step
            (record { acceptor = sending item; receiver = some m })
            silent
            (record { acceptor = selecting; receiver = some m' })
    -- `tx.send` fails
    refused :
        {item : Item C}
        → Step
            (record { acceptor = sending item; receiver = none })
            silent
            (record { acceptor = finished; receiver = none })
    -- the branch `tx.closed()`
    closed :
        Step
          (record { acceptor = selecting; receiver = none })
          silent
          (record { acceptor = finished; receiver = none })
    -- `poll_next`
    polled :
        {acceptor : Acceptor C} {item : Item C} {m m' : M}
        → channels.recv m ≡ some (item, m')
        → Step
            (record { acceptor = acceptor; receiver = some m })
            (given item)
            (record { acceptor = acceptor; receiver = some m' })
    -- `drop`, which loses the receiver, and the abort of the task
    dropped :
        {acceptor : Acceptor C} {m : M}
        → Step
            (record { acceptor = acceptor; receiver = some m })
            silent
            (record { acceptor = acceptor; receiver = none })
    aborted :
        {acceptor : Acceptor C}
        → Step
            (record { acceptor = acceptor; receiver = none })
            silent
            (record { acceptor = finished; receiver = none })

  infixl 5 ◌then◌
  pub data Run (opts : IncomingOptions) : List (Event C) → Listening C M → Type 0 where
    start : Run opts [] (listening opts)
    ◌then◌ :
        {events : List (Event C)} {event : Event C} {s s' : Listening C M}
        → Run opts events s
        → Step s event s'
        → Run opts (events ++ (event ∷ [])) s'

-- ===== src/Grpc/Incoming/Bound.antt =====
-- What stands behind a listener that `bind` gave.
use knot_ops.Prelude.{◌≤◌, false, Text, length, is_empty_text, ◌≡◌, refl, sym, ap, ◌∙◌, arith}
use knot_ops.Core.Consts.{Build, unix, windows}
use knot_ops.Sys.Errors.{IoError, Result, ok, err, Action, ◌>>◌, after-eq-ok, ok-eq-ok, ok-ne-err}
use knot_ops.Grpc.Resolver.{SocketNames, resolve, resolve_on, resolve_unix, resolve_windows}
use knot_ops.Grpc.Incoming.{IncomingOptions, Server, try_remove, listen, restrict, bind}

module _ {W N L R : Type 0} (names : SocketNames N) (server : Server W N L R) where
  -- What is done to the permissions of the socket on each target.
  abbrev Restricts : Build → Text → W → W → Type 0
  Restricts unix path w w' = server.set_permissions path 0o600 w ≡ (ok tt, w')
  Restricts windows path w w' = w ≡ w'

  -- A path that the target has a socket for.
  abbrev Names : Build → Text → Type 0
  Names unix path = (is_empty_text path ≡ false) × (length path ≤ 100)
  Names windows path = is_empty_text path ≡ false

  -- The path was resolved to a name, a listener was created there after the attempt to remove an old
  -- socket, the socket was then restricted to its owner, and only then the accept loop was spawned on
  -- the listener, with the buffer of the options.
  pub record IsListening (path : Text) (opts : IncomingOptions) (w : W) (r : R) (w' : W)
      : Type 0 where
    pub name : N
    pub resolved : resolve names path ≡ ok name
    pub names_path : Names names.target path
    pub listener : L
    pub w1 : W
    pub created : server.create_listener name (server.remove_file path w).1 ≡ (ok listener, w1)
    pub w2 : W
    pub restricted : Restricts names.target path w1 w2
    pub spawned : server.spawn_acceptor opts.buffer_size listener w2 ≡ (r, w')

  resolve_on-Names :
      (build : Build) (path : Text) {n : N} → resolve_on names build path ≡ ok n → Names build path
  unfolding resolve_on resolve_unix resolve_windows
  resolve_on-Names unix path h = ground (arith, h)
  resolve_on-Names windows path h = ground (arith, h)

  listen-ok :
      (x : Result N IoError) (w : W) {l : L} {w1 : W}
      → listen names server x w ≡ (ok l, w1)
      → (n : N) × (x ≡ ok n) × (server.create_listener n w ≡ (ok l, w1))
  unfolding listen
  listen-ok (ok n) w h = (n, refl, h)
  listen-ok (err e) w h = absurd (ok-ne-err (sym h))

  restrict-Restricts :
      (build : Build) (path : Text) (w : W) {u : Unit {0}} {w' : W}
      → restrict names server build path w ≡ (ok u, w')
      → Restricts build path w w'
  unfolding restrict
  restrict-Restricts unix path w h = h
  restrict-Restricts windows path w h = (ok-eq-ok h).1

  -- If bind gives a listener, the path was not empty, and outside Windows at most 100 bytes long;
  -- it was resolved to a name, a listener was created there after the attempt to remove an old
  -- socket, outside Windows the socket was then restricted to its owner, and only then the accept
  -- loop was spawned on that listener, with the buffer of the options.
  pub bind-IsListening :
      (path : Text) (opts : IncomingOptions) (w : W) (r : R) (w' : W)
      → bind names server path opts w ≡ (ok r, w')
      → IsListening path opts w r w'
  unfolding bind resolve try_remove
  bind-IsListening path opts w r w' h =
      let w0 = (server.remove_file path w).1 in
      let spawn : L → Action W IoError R =
        λ l w2. let (r', w3) = server.spawn_acceptor opts.buffer_size l w2 in (ok r', w3) in
      let (l, w1, listened, more) =
        after-eq-ok (listen names server (resolve names path) w0)
          (λ l. restrict names server names.target path >> spawn l) h in
      let (u, w2, restricted, end) =
        after-eq-ok (restrict names server names.target path w1) (λ _. spawn l) more in
      let (n, resolved, created) = listen-ok (resolve names path) w0 listened in
      record {
        name = n;
        resolved = resolved;
        names_path = resolve_on-Names names.target path resolved;
        listener = l;
        w1 = w1;
        created = created;
        w2 = w2;
        restricted = restrict-Restricts names.target path w1 restricted;
        spawned =
            ap (λ x. (x, (server.spawn_acceptor opts.buffer_size l w2).1)) (ok-eq-ok end).0
            ∙ ap (λ y. (r, y)) (ok-eq-ok end).1;
      }

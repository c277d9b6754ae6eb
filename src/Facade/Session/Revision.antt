-- ===== src/Facade/Session/Revision.antt =====
-- Which session a handshake opens, and which revision the requests behind it carry.
use knot_ops.Prelude.{
  ℕ, zero, suc, ◌==◌, Bool, ◌||◌, Text, Option, none, some, List, ◌≡◌, refl, sym, ap, ◌∙◌, arith,
  if◌then◌else◌,
}
use knot_ops.Sys.Errors.{Result, ok, err}
use knot_ops.Facade.Errors.{ClientError}
use knot_ops.Facade.Protocol.{
  HandshakeRequest, HandshakeResponse, CommitRequest, CommitResponse, Daemon,
}
use knot_ops.Facade.Client
use knot_ops.Facade.Client.{TaskHandle}
use knot_ops.Facade.Session.{
  ConnectedHandle, ControlHandle, UncommittedHandle, DaemonSession, ready, uncommitted, sync_state,
  opened, set_revision, summary_of, Committed, committed, handshake, commit, up,
}

-- The control handle of a session, and the manifest that is still to be committed.
unfoldable pub parts :
    {M : Type 0} → Result (DaemonSession M) ClientError → Option (ControlHandle × Option M)
parts (ok (ready c)) = some (c, none)
parts (ok (uncommitted u)) = some (u.controller, some u.to_commit)
parts (err e) = none

parts-opened :
    {M : Type 0} (c : ControlHandle) (m : M) (n state : ℕ)
    → parts (opened c m state (sync_state n))
      ≡ (if n == 1 then some (c, none) else if n == 2 || n == 3 then some (c, some m) else none)
unfolding parts opened sync_state
parts-opened c m zero state = refl
parts-opened c m (suc zero) state = refl
parts-opened c m (suc (suc zero)) state = refl
parts-opened c m (suc (suc (suc zero))) state = refl
parts-opened c m (suc (suc (suc (suc n)))) state = ground arith

module _ {W M S : Type 0} (server : Daemon W M S) (h : ConnectedHandle) (id : Text) (m : M) where
  -- The request of the handshake, and the control handle for its answer.
  abbrev pub greeting : HandshakeRequest M
  greeting = record { workspace_id = id; manifest = some m }

  abbrev pub control_for : HandshakeResponse → ControlHandle
  control_for res = record {
    workspace_id = id;
    expected_revision = res.revision;
    policy = h.policy;
  }

  -- If the daemon answers a handshake, the session has the workspace, the revision of the answer
  -- and the policy of the connection: it is ready for the state 1, it keeps the manifest to be
  -- committed for the states 2 and 3, and there is none for any other number.
  pub handshake-parts :
      (w : W) (res : HandshakeResponse) (w' : W)
      → Client.handshake server h.policy greeting w ≡ (ok res, w')
      → parts (handshake server h id m w).0 ≡ (
          if res.state == 1
          then some (control_for res, none)
          else if res.state == 2 || res.state == 3
          then some (control_for res, some m)
          else none)
  unfolding handshake
  handshake-parts w res w' answered =
      rw (answered, handshake) (parts-opened (control_for res) m res.state res.state)

  -- The request that commits the manifest in a session of this handshake.
  abbrev pub commit_request : HandshakeResponse → CommitRequest M
  commit_request res = record {
    workspace_id = id;
    expected_revision = res.revision;
    manifest = some m;
  }

  uncommitted_of :
      (u : UncommittedHandle M) (res : HandshakeResponse)
      → parts (ok (uncommitted u)) ≡ (
          if res.state == 1
          then some (control_for res, none)
          else if res.state == 2 || res.state == 3
          then some (control_for res, some m)
          else none)
      → u ≡ record { controller = control_for res; to_commit = m }
  unfolding parts
  uncommitted_of u res e = ground (arith, e)

  -- If a handshake opened an uncommitted session and the daemon accepts a commit request with the
  -- manifest and the revision of that handshake, then committing the session sends just this
  -- request and succeeds, and a later up asks for the revision that the commit gave, with the same
  -- workspace and policy.
  pub commit-up :
      (w w1 w2 w3 w4 : W) (res : HandshakeResponse) (u : UncommittedHandle M)
      (answer : CommitResponse) (services : List Text) (prune : Bool)
      → Client.handshake server h.policy greeting w ≡ (ok res, w1)
      → handshake server h id m w ≡ (ok (uncommitted u), w1)
      → Client.commit server h.policy (commit_request res) w2 ≡ (ok answer, w3)
      → (c : Committed) × (commit server u w2 ≡ (ok c, w3))
        × (up server c.control services prune w4
            ≡ Client.up server h.policy
                (record {
                  services = services;
                  expected_revision = answer.revision;
                  workspace_id = id;
                  prune = prune;
                })
                w4)
  unfolding commit committed up set_revision summary_of
  commit-up w w1 w2 w3 w4 res u answer services prune greeted opens accepted =
      let u0 : UncommittedHandle M = record { controller = control_for res; to_commit = m } in
      let is_u : u ≡ u0 =
        uncommitted_of u res (ap (λ r. parts r.0) (sym opens) ∙ handshake-parts w res w1 greeted) in
      (
        record {
          control = set_revision answer.revision (control_for res);
          summary = summary_of answer;
        },
        ap (λ q. commit server q w2) is_u ∙ ap (committed server u0) accepted,
        refl,
      )

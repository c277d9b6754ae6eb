-- ===== src/Sys/Macos/Waiting.antt =====
-- The polling of `wait`: it ends, and what its answers mean.
use knot_ops.Prelude.{
  ℕ, zero, suc, ◌+◌, ◌-◌, ◌≤◌, ◌<◌, Bool, true, false, leb, Option, none, some, some-eq-some, ◌≡◌,
  refl, subst, ap, sym, ◌∙◌, inl, inr, arith, Bool-cases, if_true, if_false,
}
use knot_ops.Sys.Errors.{is_not_found, IoError, ProcessError, Result, ok, err, ok-eq-ok, ok-ne-err}
use knot_ops.Sys.Process.{ProcessMetadata}
use knot_ops.Sys.Macos.{
  Machine, still_there, check_identity, joined, looked, pause, after_look, wait_loop, wait,
}

-- The clock does not go back, and a pause of `n` milliseconds takes that long at least.
pub record IsClock {W : Type 0} (m : Machine W) : Type 0 where
  pub looking : (pid : ℕ) (w : W) → m.now w ≤ m.now (m.extract pid w).1
  pub sleeping : (n : ℕ) (w : W) → m.now w + n ≤ m.now (m.sleep n w)

joined_world :
    {W : Type 0} (m : Machine W) (lost : Option IoError) (x : Result Bool ProcessError × W)
    → (joined m lost x).1 ≡ x.1
unfolding joined
joined_world m none x = refl
joined_world m (some e) x = refl

still_there-false :
    (fingerprint : ProcessMetadata) (x : Result ProcessMetadata IoError)
    → still_there fingerprint x ≡ ok false
    → (e : IoError) × (x ≡ err e) × (is_not_found e.kind ≡ true)
unfolding still_there
still_there-false fingerprint (ok metadata) h = absurd (ground arith)
still_there-false fingerprint (err e) h = (e, refl, ground arith)

module _ {W : Type 0} (m : Machine W) (fingerprint : ProcessMetadata) where
  looked_world : (w : W) → (looked m fingerprint w).1 ≡ (m.extract fingerprint.pid w).1
  unfolding looked check_identity
  looked_world w = joined_world m (m.join_failure w) (check_identity m fingerprint w)

  -- An answer that does not come from the loop further on.
  after_look_returns :
      (again : W → Option (Result Bool ProcessError × W)) (deadline left : ℕ)
      (x : Result Bool ProcessError × W)
      → IsClock m
      → deadline ≤ m.now x.1 + left
      → ((w1 : W)
          → 0 < left
          → deadline < m.now w1 + left
          → (r : Result Bool ProcessError × W) × (again w1 ≡ some r))
      → (r : Result Bool ProcessError × W) × (after_look m again deadline x ≡ some r)
  unfolding after_look
  after_look_returns again deadline left (err e, w) clock near next = ((err e, w), refl)
  after_look_returns again deadline left (ok false, w) clock near next = ((ok true, w), refl)
  after_look_returns again deadline left (ok true, w) clock near next =
      elim (Bool-cases (leb deadline (m.now w))) [
        | inl late ↦ ((ok false, w), if_true _ _ late)
        | inr early ↦
            let n = pause (deadline - m.now w) in
            let slept = clock.sleeping n w in
            let moved : 1 ≤ n = ground arith in
            let (r, same) = next (m.sleep n w) (ground arith) (omega arith) in
            (r, if_false _ _ early ∙ same)
      ]

  wait_loop_returns :
      (fuel deadline : ℕ) (w : W)
      → IsClock m
      → 0 < fuel
      → deadline < m.now w + fuel
      → (r : Result Bool ProcessError × W) × (wait_loop m fuel deadline fingerprint w ≡ some r)
  unfolding wait_loop
  wait_loop_returns zero deadline w clock fueled near = elim fueled [ ]
  wait_loop_returns (suc fuel) deadline w clock fueled near =
      let later : m.now w ≤ m.now (looked m fingerprint w).1 =
        subst (λ w1. m.now w ≤ m.now w1) (sym (looked_world w)) (clock.looking fingerprint.pid w) in
      after_look_returns (wait_loop m fuel deadline fingerprint) deadline fuel
        (looked m fingerprint w) clock (omega arith)
        (λ w1 fueled1 near1. wait_loop_returns fuel deadline w1 clock fueled1 near1)

  -- With a clock that does not go back and pauses that take their time at least, wait of the macOS
  -- handle ends, after at most one round more than the timeout has milliseconds.
  pub wait_returns :
      (fuel timeout : ℕ) (w : W)
      → IsClock m
      → timeout < fuel
      → (r : Result Bool ProcessError × W) × (wait m fuel fingerprint timeout w ≡ some r)
  unfolding wait
  wait_returns fuel timeout w clock enough =
      wait_loop_returns fuel (m.now w + timeout) w clock (omega arith) (omega arith)

  -- What an answer of the loop rests on.
  abbrev pub Grounds : ℕ → Result Bool ProcessError × W → Type 0
  Grounds deadline r =
      ((w' : W)
        → r ≡ (ok true, w')
        → (w1 : W) × (e : IoError) × (m.extract fingerprint.pid w1 ≡ (err e, w'))
          × (is_not_found e.kind ≡ true))
      × ((w' : W) → r ≡ (ok false, w') → deadline ≤ m.now w')

  joined-ok :
      (lost : Option IoError) (x : Result Bool ProcessError × W) {b : Bool} {w' : W}
      → joined m lost x ≡ (ok b, w')
      → x ≡ (ok b, w')
  unfolding joined
  joined-ok none x h = h
  joined-ok (some e) x h = absurd (ok-ne-err (sym h))

  looked_ended :
      (w : W) {w' : W}
      → looked m fingerprint w ≡ (ok false, w')
      → (e : IoError) × (m.extract fingerprint.pid w ≡ (err e, w')) × (is_not_found e.kind ≡ true)
  unfolding looked check_identity
  looked_ended w h =
      let found = joined-ok (m.join_failure w) (check_identity m fingerprint w) h in
      let (e, failed, missing) =
        still_there-false fingerprint (m.extract fingerprint.pid w).0 (ap (λ q. q.0) found) in
      (
        e,
        ap (λ r. (r, (m.extract fingerprint.pid w).1)) failed ∙ ap (λ q. (err e, q.1)) found,
        missing,
      )

  after_look-Grounds :
      (again : W → Option (Result Bool ProcessError × W)) (deadline : ℕ) (w : W)
      (x r : Result Bool ProcessError × W)
      → looked m fingerprint w ≡ x
      → ((w1 : W) (r1 : Result Bool ProcessError × W) → again w1 ≡ some r1 → Grounds deadline r1)
      → after_look m again deadline x ≡ some r
      → Grounds deadline r
  unfolding after_look
  after_look-Grounds again deadline w (err e, w1) r seen next h = (
    λ w' e'. absurd (ok-ne-err (sym (some-eq-some h ∙ e'))),
    λ w' e'. absurd (ok-ne-err (sym (some-eq-some h ∙ e'))),
  )
  after_look-Grounds again deadline w (ok false, w1) r seen next h = (
    λ w' e'.
        let (e, failed, missing) =
          looked_ended w (seen ∙ ap (λ q. (ok false, q)) (ok-eq-ok (some-eq-some h ∙ e')).1) in
        (w, e, failed, missing),
    λ w' e'. cc (ok-eq-ok (some-eq-some h ∙ e')).0,
  )
  after_look-Grounds again deadline w (ok true, w1) r seen next h =
      elim (Bool-cases (leb deadline (m.now w1))) [
        | inl late ↦
            let same : ◌≡◌ {A = Result Bool ProcessError × W} (ok false, w1) r =
              some-eq-some (sym (if_true _ _ late) ∙ h) in
            (
              λ w' e'. cc (ok-eq-ok (same ∙ e')).0,
              λ w' e'.
                  subst (λ q. deadline ≤ m.now q) (ok-eq-ok (same ∙ e')).1 (ground (arith, late)),
            )
        | inr early ↦ next _ r (sym (if_false _ _ early) ∙ h)
      ]

  wait_loop-Grounds :
      (fuel deadline : ℕ) (w : W) (r : Result Bool ProcessError × W)
      → wait_loop m fuel deadline fingerprint w ≡ some r
      → Grounds deadline r
  unfolding wait_loop
  wait_loop-Grounds zero deadline w r h = cc
  wait_loop-Grounds (suc fuel) deadline w r h =
      after_look-Grounds (wait_loop m fuel deadline fingerprint) deadline w (looked m fingerprint w)
        r refl (wait_loop-Grounds fuel deadline) h

  -- If wait of the macOS handle answers true, a lookup found no process of the id, and left the
  -- state of the system in which wait answers; if it answers false, the clock stands at its start
  -- plus the timeout or later.
  pub wait-Grounds :
      (fuel timeout : ℕ) (w : W) (r : Result Bool ProcessError × W)
      → wait m fuel fingerprint timeout w ≡ some r
      → Grounds (m.now w + timeout) r
  unfolding wait
  wait-Grounds fuel timeout w r h = wait_loop-Grounds fuel (m.now w + timeout) w r h

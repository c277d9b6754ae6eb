-- ===== src/Sys/Process/Retries.antt =====
-- Which attempt after a spawn decides, and what came before it.
use knot_ops.Prelude.{
  ℕ, zero, suc, ◌≤◌, ◌<◌, ◌==◌, Bool, true, false, Text, Option, none, some, ◌≡◌, refl, sym, ap,
  ◌∙◌, ◌⊎◌, inl, inr, arith, Bool-cases, if_true, if_false,
}
use knot_ops.Sys.Errors.{ProcessError, Result, ok, err}
use knot_ops.Sys.Process.{
  Host, ProcessControl, PlatformProcess, is_retryable, bind, bind_loop, bind_after_spawn,
}
use knot_ops.Sys.Process.Attempts.{Result-cases, loop_ok, loop_err, ends_here}

-- The outcomes of `bind` after which the source tries again.
unfoldable pub tries_again : {A : Type 0} → Result A ProcessError → Bool
tries_again (ok a) = false
tries_again (err e) = is_retryable e

module _ {W T : Type 0} (host : Host W) (control : ProcessControl W T) (pid : ℕ) (name : Text) where
  -- The state of the system before the attempt with this number, the first being 0, if all before it
  -- were to be tried again.
  unfoldable pub before : ℕ → W → W
  before zero w = w
  before (suc k) w = before k (host.sleep 5 (bind host control pid name w).1)

  abbrev pub attempt : ℕ → W → Result (PlatformProcess T) ProcessError × W
  attempt k w = bind host control pid name (before k w)

  -- Attempt `k` decides, of `n + 1` that there are: those before it are tried again, and it is not, or it
  -- is the last.
  pub record Decides (n : ℕ) (w : W) (o : Option (Result (PlatformProcess T) ProcessError × W))
      (k : ℕ) : Type 0 where
    pub in_time : k ≤ n
    pub earlier : (j : ℕ) → j < k → tries_again (attempt j w).0 ≡ true
    pub final : (k ≡ n) ⊎ (tries_again (attempt k w).0 ≡ false)
    pub outcome : o ≡ some (attempt k w)

  first-Decides :
      (n : ℕ) (last_err : Option ProcessError) (w : W)
      → (n ≡ 0) ⊎ (tries_again (attempt 0 w).0 ≡ false)
      → bind_loop host control (suc n) last_err pid name w ≡ some (bind host control pid name w)
      → Decides n w (bind_loop host control (suc n) last_err pid name w) 0
  unfolding before
  first-Decides n last_err w stops there = record {
    in_time = omega arith;
    earlier = λ j h. absurd (omega arith);
    final = elim stops [ inl e ↦ inl (sym e) | inr h ↦ inr h ];
    outcome = there;
  }

  earlier_too :
      (w : W) (k : ℕ)
      → tries_again (attempt 0 w).0 ≡ true
      → ((j : ℕ) → j < k → tries_again (attempt (suc j) w).0 ≡ true)
      → (j : ℕ) → j < suc k
      → tries_again (attempt j w).0 ≡ true
  earlier_too w k first rest zero h = first
  earlier_too w k first rest (suc j) h = rest j (omega arith)

  loop-Decides :
      (n : ℕ) (last_err : Option ProcessError) (w : W)
      → (k : ℕ) × Decides n w (bind_loop host control (suc n) last_err pid name w) k
  unfolding before tries_again
  loop-Decides zero last_err w = elim (Result-cases (bind host control pid name w)) [
    | inl (p, w', ends) ↦ (
      0,
      first-Decides zero last_err w (inl refl) (loop_ok host control pid name zero last_err w ends),
    )
    | inr (e, w', ends) ↦ (
      0,
      first-Decides zero last_err w (inl refl)
          (ends_here host control pid name zero last_err w ends (inr refl)),
    )
  ]
  loop-Decides (suc n) last_err w = elim (Result-cases (bind host control pid name w)) [
    | inl (p, w', ends) ↦ (
      0,
      first-Decides (suc n) last_err w (inr (ap (λ x. tries_again x.0) ends))
          (loop_ok host control pid name (suc n) last_err w ends),
    )
    | inr (e, w', ends) ↦ elim (Bool-cases (is_retryable e)) [
      | inr stop ↦ (
        0,
        first-Decides (suc n) last_err w (inr (ap (λ x. tries_again x.0) ends ∙ stop))
            (ends_here host control pid name (suc n) last_err w ends (inl stop)),
      )
      | inl again ↦
          let w1 = (bind host control pid name w).1 in
          let (k, d) = loop-Decides n (some e) (host.sleep 5 w1) in
          let goes_on =
            loop_err host control pid name (suc n) last_err w ends
            ∙ if_true _ _ again
            ∙ ap (λ v. bind_loop host control (suc n) (some e) pid name v)
                (if_false {b = suc n == 0} _ _ (ground arith)
                  ∙ ap (host.sleep 5) (sym (ap (λ x. x.1) ends))) in
          (
            suc k,
            record {
              in_time = omega (arith, d.in_time);
              earlier = earlier_too w k (ap (λ x. tries_again x.0) ends ∙ again) d.earlier;
              final = elim d.final [ inl e' ↦ inl (ap suc e') | inr h ↦ inr h ];
              outcome = goes_on ∙ d.outcome;
            },
          )
    ]
  ]

  -- In a build for another system than Windows, bind_after_spawn never panics: one of its 20 calls
  -- of bind, each but the first made after a pause of 5 milliseconds in the state that the last
  -- one left, decides, and its outcome, a process or an error, is that of the function; all before
  -- it failed with an error that is tried again, and it did not, or it is the last.
  pub bind_after_spawn-Decides :
      (w : W) → (k : ℕ) × Decides 19 w (bind_after_spawn host control pid name w) k
  unfolding bind_after_spawn
  bind_after_spawn-Decides w = loop-Decides 19 none w

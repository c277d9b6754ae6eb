-- ===== src/Sys/Process/Attempts.antt =====
-- How the attempts after a spawn end.
use knot_ops.Prelude.{
  ℕ, zero, suc, false, Text, List, Option, none, some, ◌≡◌, refl, sym, ap, ◌∙◌, ◌⊎◌, inl, inr,
  arith, ◌==◌, if◌then◌else◌, Bool-cases, Option-cases,
}
use knot_ops.Sys.Errors.{ProcessError, Result, ok, err}
use knot_ops.Sys.Process.{
  Host, ProcessControl, PlatformProcess, is_retryable, bind, bind_loop, bind_after_spawn, spawned,
  named, spawn_with_args,
}
use knot_ops.Sys.Process.Bind.{IsBound, bind-IsBound}

pub Result-cases :
    {A E W : Type 0} (x : Result A E × W)
    → ((a : A) × (w : W) × (x ≡ (ok a, w))) ⊎ ((e : E) × (w : W) × (x ≡ (err e, w)))
Result-cases (ok a, w) = inl (a, w, refl)
Result-cases (err e, w) = inr (e, w, refl)

some_injective : {A : Type 0} {a b : A} → some a ≡ some b → a ≡ b
some_injective h = cc

module _ {W T : Type 0} (host : Host W) (control : ProcessControl W T) (pid : ℕ) (name : Text) where
  -- The outcome of one `bind`, on some state of the system.
  abbrev pub IsAttempt : Option (Result (PlatformProcess T) ProcessError × W) → Type 0
  IsAttempt o = (w : W) × (o ≡ some (bind host control pid name w))

  pub loop_ok :
      (n : ℕ) (last_err : Option ProcessError) (w : W) {p : PlatformProcess T} {w' : W}
      → bind host control pid name w ≡ (ok p, w')
      → bind_loop host control (suc n) last_err pid name w ≡ some (bind host control pid name w)
  unfolding bind_loop
  loop_ok n last_err w ends = ground (arith, ends)

  pub loop_err :
      (n : ℕ) (last_err : Option ProcessError) (w : W) {e : ProcessError} {w' : W}
      → bind host control pid name w ≡ (err e, w')
      → bind_loop host control (suc n) last_err pid name w ≡ (
          if is_retryable e
          then bind_loop host control n (some e) pid name (if n == 0 then w' else host.sleep 5 w')
          else some (err e, w'))
  unfolding bind_loop
  loop_err n last_err w ends = ground (arith, ends)

  loop_end :
      (e : ProcessError) (w' : W)
      → (if is_retryable e
          then bind_loop host control zero (some e) pid name w'
          else some (err e, w'))
        ≡ some (err e, w')
  unfolding bind_loop
  loop_end e w' = ground arith

  -- Attempts that end by themselves, or at an error that is not tried again.
  pub ends_here :
      (n : ℕ) (last_err : Option ProcessError) (w : W) {e : ProcessError} {w' : W}
      → bind host control pid name w ≡ (err e, w')
      → (is_retryable e ≡ false) ⊎ (n ≡ zero)
      → bind_loop host control (suc n) last_err pid name w ≡ some (bind host control pid name w)
  ends_here n last_err w ends (inl stop) =
      loop_err n last_err w ends ∙ rw stop (ap (λ x. some x) (sym ends))
  ends_here n last_err w {e} {w'} ends (inr last) =
      loop_err n last_err w ends ∙ rw last (loop_end e w' ∙ ap (λ x. some x) (sym ends))

  bind_loop-IsAttempt :
      (n : ℕ) (last_err : Option ProcessError) (w : W)
      → IsAttempt (bind_loop host control (suc n) last_err pid name w)
  bind_loop-IsAttempt zero last_err w = elim (Result-cases (bind host control pid name w)) [
    | inl (p, w', ends) ↦ (w, loop_ok zero last_err w ends)
    | inr (e, w', ends) ↦ (w, ends_here zero last_err w ends (inr refl))
  ]
  bind_loop-IsAttempt (suc n) last_err w = elim (Result-cases (bind host control pid name w)) [
    | inl (p, w', ends) ↦ (w, loop_ok (suc n) last_err w ends)
    | inr (e, w', ends) ↦ elim (Bool-cases (is_retryable e)) [
      | inl again ↦
          let next = if suc n == 0 then w' else host.sleep 5 w' in
          let (v, there) = bind_loop-IsAttempt n (some e) next in
          (v, loop_err (suc n) last_err w ends ∙ rw again there)
      | inr stop ↦ (w, ends_here (suc n) last_err w ends (inl stop))
    ]
  ]

  -- Outside Windows bind_after_spawn never panics; it gives the outcome of a call of bind, a process or
  -- an error, in the state of the system that this call left.
  pub bind_after_spawn-IsAttempt : (w : W) → IsAttempt (bind_after_spawn host control pid name w)
  unfolding bind_after_spawn
  bind_after_spawn-IsAttempt w = bind_loop-IsAttempt 19 none w

-- What led to a spawned process: the name of the binary's file, the child, and the binding of it.
pub record IsSpawned {W T : Type 0} (host : Host W) (control : ProcessControl W T) (binary : Text)
    (args : List Text) (w : W) (p : PlatformProcess T) (w' : W) : Type 0 where
  pub name : Text
  pub child : ℕ
  pub started : W
  pub bound_from : W
  pub of_name : host.file_name binary ≡ some name
  pub spawns : host.spawn_child binary args w ≡ (ok child, started)
  pub binds : IsBound host control child name bound_from p w'

module _ {W T : Type 0} (host : Host W) (control : ProcessControl W T) (binary : Text)
    (args : List Text) (w : W) (p : PlatformProcess T) (w' : W) where
  named-IsSpawned :
      (name : Text)
      → host.file_name binary ≡ some name
      → named host control (some name) binary args w ≡ some (ok p, w')
      → IsSpawned host control binary args w p w'
  unfolding named spawned
  named-IsSpawned name of_name h = elim (Result-cases (host.spawn_child binary args w)) [
    | inl (id, w1, runs) ↦
        let (v, attempt) = bind_after_spawn-IsAttempt host control id name w1 in
        record {
          name = name;
          child = id;
          started = w1;
          bound_from = v;
          of_name = of_name;
          spawns = runs;
          binds =
              bind-IsBound host control id name v p w' (
                some_injective
                  (sym attempt ∙ ap (λ x. spawned host control name x) (sym runs) ∙ h));
        }
    | inr (e, w1, fails) ↦ absurd (ground (arith, h, fails))
  ]

  -- In a build for another system than Windows, a process that spawn_with_args returns is bound to
  -- the child that was spawned for the binary, under the name of its file: it came from a
  -- successful bind of the id of the child and that name.
  pub spawn_with_args-IsSpawned :
      spawn_with_args host control binary args w ≡ some (ok p, w')
      → IsSpawned host control binary args w p w'
  unfolding spawn_with_args named
  spawn_with_args-IsSpawned h = elim (Option-cases (host.file_name binary)) [
    | inl absent ↦ absurd (ground (arith, h, absent))
    | inr (name, of_name) ↦ named-IsSpawned name of_name (ground (arith, h, of_name))
  ]

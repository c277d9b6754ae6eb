-- ===== src/Sys/Macos/Fingerprint.antt =====
-- The check of the fingerprint before every signal.
use knot_ops.Prelude.{ℕ, ◌≡◌, ap, ◌⊎◌, inl, inr, Bool-cases, if_true, if_false}
use knot_ops.Sys.Errors.{
  is_not_found, IoError, ProcessError, not_running, reused, io, Result, ok, err, Action, after,
}
use knot_ops.Sys.Process.{ProcessMetadata, metadata_eq}
use knot_ops.Sys.Process.Bind.{metadata_eq_iff}
use knot_ops.Sys.Macos.{Machine, not_reused, ensure_pid_not_reused, signal, mapped}

not_reused-cases :
    (fingerprint : ProcessMetadata) (x : Result ProcessMetadata IoError)
    → (x ≡ ok fingerprint) ⊎ ((e : ProcessError) × (not_reused fingerprint x ≡ err e))
unfolding not_reused
not_reused-cases fingerprint (ok metadata) = elim (Bool-cases (metadata_eq metadata fingerprint)) [
  | inl same ↦ inl (ap (λ q. ok q) (metadata_eq_iff metadata fingerprint same))
  | inr differs ↦ inr (reused, if_false _ _ differs)
]
not_reused-cases fingerprint (err e) = elim (Bool-cases (is_not_found e.kind)) [
  | inl missing ↦ inr (not_running, if_true _ _ missing)
  | inr failed ↦ inr (io e, if_false _ _ failed)
]

module _ {W : Type 0} (m : Machine W) where
  -- For kill, terminate and check_permissions of the macOS handle: either the lookup of the
  -- process id shows the fingerprint, or the operation fails with an error that is the same for
  -- every implementation of the sending of a signal, in the state that the lookup left.
  pub signal_guarded :
      (number : ℕ) (fingerprint : ProcessMetadata) (w : W)
      → (m.extract fingerprint.pid w ≡ (ok fingerprint, (m.extract fingerprint.pid w).1))
        ⊎ ((e : ProcessError) × ((other : ℕ → ℕ → Action W IoError (Unit {0}))
              → signal (record m { send_signal = other }) number fingerprint w
                ≡ (err e, (m.extract fingerprint.pid w).1)))
  unfolding signal ensure_pid_not_reused
  signal_guarded number fingerprint w =
      let x = m.extract fingerprint.pid w in
      elim (not_reused-cases fingerprint x.0) [
        | inl confirmed ↦ inl (ap (λ r. (r, x.1)) confirmed)
        | inr (e, refused) ↦ inr (
          e,
          λ other.
              ap
                (λ r.
                  after (r, x.1)
                    (λ _ w1.
                      mapped (record m { send_signal = other }) (other fingerprint.pid number w1)))
                refused,
        )
      ]

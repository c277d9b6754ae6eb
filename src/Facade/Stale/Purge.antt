-- ===== src/Facade/Stale/Purge.antt =====
-- What `clean` leaves of the files of a dead daemon.
use knot_ops.Prelude.{
  true, false, Text, ◌≡◌, refl, sym, ap, ◌∙◌, ◌⊎◌, inl, inr, Bool-cases, if_true, if_false,
}
use knot_ops.Sys.Errors.{
  is_not_found, ErrorKind, not_found, permission_denied, already_exists, addr_in_use, invalid_input,
  would_block, other, IoError, Result, ok, err, after-eq-ok, ok-eq-ok, ok-ne-err, ◌>>◌, pure,
}
use knot_ops.Core.Consts.{Build, unix, windows}
use knot_ops.Facade.Stale.{
  Files, StaleHandle, OfflineHandle, offline, missing_is_fine, socket_path, socket_there, lock_path,
  remove_socket, remove_lock, clean,
}

-- What `remove_file` and `exists` promise: a removed or missing file is not there, and the removal of
-- a file makes no other appear.
pub record IsFileSystem {W : Type 0} (fs : Files W) : Type 0 where
  pub removed :
      (path : Text) (w : W) {u : Unit {0}} {w' : W}
      → fs.remove_file path w ≡ (ok u, w')
      → fs.exists path w' ≡ false
  pub missing :
      (path : Text) (w : W) {e : IoError} {w' : W}
      → fs.remove_file path w ≡ (err e, w')
      → e.kind ≡ not_found
      → fs.exists path w' ≡ false
  pub no_other :
      (path q : Text) (w : W)
      → fs.exists q w ≡ false
      → fs.exists q (fs.remove_file path w).1 ≡ false

is_not_found-kind : (k : ErrorKind) → is_not_found k ≡ true → k ≡ not_found
is_not_found-kind not_found h = refl
is_not_found-kind permission_denied h = cc
is_not_found-kind already_exists h = cc
is_not_found-kind addr_in_use h = cc
is_not_found-kind invalid_input h = cc
is_not_found-kind would_block h = cc
is_not_found-kind other h = cc

module _ {W : Type 0} (fs : Files W) (v : IsFileSystem fs) where
  missing_is_fine-eq-ok :
      (x : Result (Unit {0}) IoError × W) {u : Unit {0}} {w' : W}
      → missing_is_fine x ≡ (ok u, w')
      → (x ≡ (ok u, w')) ⊎ ((e : IoError) × (e.kind ≡ not_found) × (x ≡ (err e, w')))
  unfolding missing_is_fine
  missing_is_fine-eq-ok (ok u, w) h = inl h
  missing_is_fine-eq-ok (err e, w) {u} {w'} h = elim (Bool-cases (is_not_found e.kind)) [
    | inl absent ↦ inr (
      e,
      is_not_found-kind e.kind absent,
      ap (λ x. (err e, x)) (ok-eq-ok (sym (if_true _ _ absent) ∙ h)).1,
    )
    | inr there ↦ absurd (ok-ne-err (sym h ∙ if_false _ _ there))
  ]

  -- After its removal the lock is not there.
  remove_lock_gone :
      (dir : Text) (w : W) {u : Unit {0}} {w' : W}
      → remove_lock fs dir w ≡ (ok u, w')
      → fs.exists (lock_path fs dir) w' ≡ false
  unfolding remove_lock
  remove_lock_gone dir w h = elim (missing_is_fine-eq-ok (fs.remove_file (lock_path fs dir) w) h) [
    | inl gone ↦ v.removed (lock_path fs dir) w gone
    | inr (e, absent, fails) ↦ v.missing (lock_path fs dir) w fails absent
  ]

  remove_lock_keeps :
      (dir q : Text) (w : W) {u : Unit {0}} {w' : W}
      → fs.exists q w ≡ false
      → remove_lock fs dir w ≡ (ok u, w')
      → fs.exists q w' ≡ false
  unfolding remove_lock
  remove_lock_keeps dir q w {u} {w'} absent h =
      elim (missing_is_fine-eq-ok (fs.remove_file (lock_path fs dir) w) h) [
        | inl gone ↦
            ap (fs.exists q) (sym (ap (λ y. y.1) gone)) ∙ v.no_other (lock_path fs dir) q w absent
        | inr (e, _, fails) ↦
            ap (fs.exists q) (sym (ap (λ y. y.1) fails)) ∙ v.no_other (lock_path fs dir) q w absent
      ]

  remove_socket_gone :
      (build : Build) (dir : Text) (w : W) {u : Unit {0}} {w' : W}
      → remove_socket fs build dir w ≡ (ok u, w')
      → socket_there fs build dir w' ≡ false
  unfolding remove_socket socket_there
  remove_socket_gone windows dir w h = refl
  remove_socket_gone unix dir w {u} {w'} h = elim (Bool-cases (fs.exists (socket_path fs dir) w)) [
    | inl there ↦ v.removed (socket_path fs dir) w (sym (if_true _ _ there) ∙ h)
    | inr absent ↦
        ap (fs.exists (socket_path fs dir)) (sym (ok-eq-ok (sym (if_false _ _ absent) ∙ h)).1)
        ∙ absent
  ]

  remove_lock_keeps_socket :
      (build : Build) (dir : Text) (w : W) {u : Unit {0}} {w' : W}
      → socket_there fs build dir w ≡ false
      → remove_lock fs dir w ≡ (ok u, w')
      → socket_there fs build dir w' ≡ false
  unfolding socket_there
  remove_lock_keeps_socket windows dir w absent h = refl
  remove_lock_keeps_socket unix dir w absent h =
      remove_lock_keeps dir (socket_path fs dir) w absent h

  -- On a file system that keeps the promises of IsFileSystem, a successful clean leaves neither
  -- the socket nor the lock, and hands the data of the handle on.
  pub clean_purges :
      (build : Build) (h : StaleHandle) (w : W) (off : OfflineHandle) (w' : W)
      → clean fs build h w ≡ (ok off, w')
      → (socket_there fs build h.runtime_dir w' ≡ false)
        × (fs.exists (lock_path fs h.runtime_dir) w' ≡ false)
        × (off ≡ offline h)
  unfolding clean
  clean_purges build h w off w' e =
      let (u1, w1, first, more) =
        after-eq-ok (remove_socket fs build h.runtime_dir w)
          (λ _. remove_lock fs h.runtime_dir >> pure (offline h)) e in
      let (u2, w2, second, end) =
        after-eq-ok (remove_lock fs h.runtime_dir w1) (λ _. pure (offline h)) more in
      let same : w2 ≡ w' = (ok-eq-ok end).1 in
      (
        ap (socket_there fs build h.runtime_dir) (sym same)
            ∙ remove_lock_keeps_socket build h.runtime_dir w1
                (remove_socket_gone build h.runtime_dir w first) second,
        ap (fs.exists (lock_path fs h.runtime_dir)) (sym same)
            ∙ remove_lock_gone h.runtime_dir w1 second,
        sym (ok-eq-ok end).0,
      )

-- ===== src/Sys/Process.antt =====
-- sys/src/process.rs, sys/src/metadata.rs and sys/src/traits.rs. `W` is the operating system; what
-- sysinfo and tokio do on it is the record `Host`, what a platform's handle does is the record
-- `ProcessControl`, as in the source. The names are compared as in the builds for other
-- systems than Windows, where the comparison cannot panic; that of the build for Windows, which can,
-- is in Sys.Names. Times are milliseconds.
pub mod Bind
pub mod Attempts
pub mod Retries
pub mod Truthful
use knot_ops.Prelude.{
  ℕ, zero, suc, Bool, true, false, ◌&&◌, Text, Option, none, some, List, [], ◌++◌, ◌==◌,
  if◌then◌else◌, text_eq, codes,
}
use knot_ops.Sys.Errors.{
  IoError, other_error, ProcessError, not_running, mismatch, reused, io, Result, ok, err, Action,
  pure, raise, ◌>>=◌, ◌>>◌,
}
use knot_ops.Sys.Errors
use knot_ops.Sys.Names.{match_unix}

pub record ProcessMetadata : Type 0 where
  pub pid : ℕ
  pub name : Text
  pub start_time : ℕ

-- `PartialEq` is derived.
unfoldable pub metadata_eq : ProcessMetadata → ProcessMetadata → Bool
metadata_eq a b = a.pid == b.pid && text_eq a.name b.name && a.start_time == b.start_time

-- What a blocking task that reads the process table ends with.
pub data Snapshot : Type 0 where
  join_failed : IoError → Snapshot
  absent : Snapshot
  present : Text → ℕ → Snapshot

pub record ProcessControl (W T : Type 0) : Type 0 where
  pub bind : ProcessMetadata → Action W ProcessError T
  pub kill : T → Action W ProcessError (Unit {0})
  pub terminate : T → Action W ProcessError (Unit {0})
  pub wait : T → ℕ → Action W ProcessError Bool
  pub check_permissions : T → Action W ProcessError (Unit {0})

pub record Host (W : Type 0) : Type 0 where
  -- the name and start time that sysinfo knows of a process
  pub snapshot : ℕ → W → Snapshot × W
  -- `Path::file_name`, `Command::spawn` and the id of the child, with the reaper task started
  pub file_name : Text → Option Text
  pub spawn_child : Text → List Text → Action W IoError ℕ
  pub sleep : ℕ → W → W

pub record PlatformProcess (T : Type 0) : Type 0 where
  pub handle : T
  pub metadata : ProcessMetadata

abbrev pub is_retryable : ProcessError → Bool
is_retryable not_running = true
is_retryable (mismatch expected actual) = true
is_retryable reused = false
is_retryable (io e) = false

module _ {W T : Type 0} (host : Host W) (control : ProcessControl W T) where
  -- `ProcessMetadata::extract`, and the errors as `spawn_extract_metadata` maps them
  extracted : ℕ → Snapshot × W → Result ProcessMetadata ProcessError × W
  extracted pid (join_failed e, w) = (err (io e), w)
  extracted pid (absent, w) = (err not_running, w)
  extracted pid (present name start_time, w) =
      (ok (record { pid = pid; name = name; start_time = start_time }), w)

  unfoldable pub spawn_extract_metadata : ℕ → Action W ProcessError ProcessMetadata
  unfolding extracted
  spawn_extract_metadata pid w = extracted pid (host.snapshot pid w)

  -- `compare`, with `process_names_match` of `cfg(not(windows))`.
  unfoldable pub compare_names : Text → Text → Action W ProcessError (Unit {0})
  compare_names expected_name actual_name =
      if match_unix actual_name expected_name
      then pure tt
      else raise (mismatch expected_name actual_name)

  confirm : Text → T → ProcessMetadata → ProcessMetadata → Action W ProcessError (PlatformProcess T)
  confirm expected_name handle metadata metadata_after =
      if metadata_eq metadata metadata_after
      then pure (record { handle = handle; metadata = metadata_after })
      else raise (mismatch expected_name metadata_after.name)

  -- `bind` from the second look at the process table on, and from the handle on.
  looked_again : ℕ → Text → ProcessMetadata → T → Action W ProcessError (PlatformProcess T)
  unfolding confirm
  looked_again pid expected_name metadata handle =
      spawn_extract_metadata pid >>= confirm expected_name handle metadata

  opened : ℕ → Text → ProcessMetadata → Action W ProcessError (PlatformProcess T)
  unfolding looked_again
  opened pid expected_name metadata =
      control.bind metadata >>= looked_again pid expected_name metadata

  compared : ℕ → Text → ProcessMetadata → Action W ProcessError (PlatformProcess T)
  unfolding opened
  compared pid expected_name metadata =
      compare_names expected_name metadata.name >> opened pid expected_name metadata

  unfoldable pub bind : ℕ → Text → Action W ProcessError (PlatformProcess T)
  unfolding compared
  bind pid expected_name = spawn_extract_metadata pid >>= compared pid expected_name

  -- The loop with `attempts` rounds to go; `none` is the panic of `expect`.
  unfoldable pub bind_loop :
      ℕ → Option ProcessError → ℕ → Text → W → Option (Result (PlatformProcess T) ProcessError × W)
  bind_loop zero none pid name w = none
  bind_loop zero (some last_err) pid name w = some (err last_err, w)
  bind_loop (suc attempts) last_err pid name w =
      let (r, w1) = bind pid name w in
      elim r [
        | ok p ↦ some (ok p, w1)
        | err e ↦
            let again =
              bind_loop attempts (some e) pid name
                (if attempts == 0 then w1 else host.sleep 5 w1) in
            if is_retryable e then again else some (err e, w1)
      ]

  unfoldable pub bind_after_spawn :
      ℕ → Text → W → Option (Result (PlatformProcess T) ProcessError × W)
  unfolding bind_loop
  bind_after_spawn pid expected_name w = bind_loop 20 none pid expected_name w

  spawned : Text → Result ℕ IoError × W → Option (Result (PlatformProcess T) ProcessError × W)
  unfolding bind_after_spawn
  spawned name (ok id, w) = bind_after_spawn id name w
  spawned name (err e, w) = some (err (io e), w)

  named : Option Text → Text → List Text → W → Option (Result (PlatformProcess T) ProcessError × W)
  unfolding spawned
  named none binary args w =
      some (err (io (other_error (codes "failed to get file name: " ++ binary))), w)
  named (some name) binary args w = spawned name (host.spawn_child binary args w)

  unfoldable pub spawn_with_args :
      Text → List Text → W → Option (Result (PlatformProcess T) ProcessError × W)
  unfolding named
  spawn_with_args binary args w = named (host.file_name binary) binary args w

  unfoldable pub spawn : Text → W → Option (Result (PlatformProcess T) ProcessError × W)
  unfolding spawn_with_args
  spawn binary w = spawn_with_args binary [] w

module _ {W T : Type 0} (control : ProcessControl W T) where
  unfoldable pub kill : PlatformProcess T → ℕ → Action W ProcessError Bool
  kill p timeout = do
    control.check_permissions p.handle
    control.kill p.handle
    control.wait p.handle timeout

  unfoldable pub terminate : PlatformProcess T → ℕ → Action W ProcessError Bool
  terminate p timeout = do
    control.check_permissions p.handle
    control.terminate p.handle
    control.wait p.handle timeout

  unfoldable pub wait : PlatformProcess T → ℕ → Action W ProcessError Bool
  wait p timeout = do control.check_permissions p.handle; control.wait p.handle timeout

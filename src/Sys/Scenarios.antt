-- ===== src/Sys/Scenarios.antt =====
-- A host with one process, and what the theorems about components/sdk/sys say of it.
mod Handles
use knot_ops.Prelude.{
  ℕ, suc, ◌-◌, true, Text, codes, some, none, [], ◌∷◌, ◌≡◌, refl, length, drop, text_eq,
}
use knot_ops.Sys.Errors.{ok, pure}
use knot_ops.Sys.Names.{match_unix, fold_text, fold_case}
use knot_ops.Sys.Process.{
  Host, ProcessControl, PlatformProcess, present, bind, bind_after_spawn, spawn_with_args,
  spawn_extract_metadata, compare_names, metadata_eq,
}
use knot_ops.Sys.Process.Attempts.{IsSpawned, spawn_with_args-IsSpawned}
use knot_ops.Sys.Process.Retries.{Decides, bind_after_spawn-Decides}
use knot_ops.Sys.Process.Bind.{IsBound, bind-IsBound}

-- The world counts the looks at the process table.
abbrev host : Host ℕ
host = record {
  snapshot = λ pid w. (present (codes "Nginx") 5, suc w);
  file_name = λ path. some path;
  spawn_child = λ name args. pure 7;
  sleep = λ ms w. w;
}

-- A handle is a number; every signal reaches its process.
abbrev control : ProcessControl ℕ ℕ
control = record {
  bind = λ m. pure m.pid;
  kill = λ handle. pure tt;
  terminate = λ handle. pure tt;
  wait = λ handle timeout. pure true;
  check_permissions = λ handle. pure tt;
}

abbrev nginx : PlatformProcess ℕ
nginx = record { handle = 7; metadata = record { pid = 7; name = codes "Nginx"; start_time = 5 } }

binds : bind host control 7 (codes "nginx") 0 ≡ (ok nginx, 2)
unfolding bind spawn_extract_metadata compare_names match_unix text_eq fold_text fold_case
    metadata_eq
binds = refl

bind-IsBound_example : IsBound host control 7 (codes "nginx") 0 nginx 2
bind-IsBound_example = bind-IsBound host control 7 (codes "nginx") 0 nginx 2 binds

bind_after_spawn-Decides_example :
    (k : ℕ) × Decides host control 7
      (codes "nginx")
      19
      0
      (bind_after_spawn host control 7 (codes "nginx") 0)
      k
bind_after_spawn-Decides_example = bind_after_spawn-Decides host control 7 (codes "nginx") 0

spawns_nginx : spawn_with_args host control (codes "nginx") [] 0 ≡ some (ok nginx, 2)
unfolding spawn_with_args bind_after_spawn bind spawn_extract_metadata compare_names match_unix
    text_eq fold_text fold_case metadata_eq
spawns_nginx = refl

spawn_with_args-IsSpawned_example : IsSpawned host control (codes "nginx") [] 0 nginx 2
spawn_with_args-IsSpawned_example =
    spawn_with_args-IsSpawned host control (codes "nginx") [] 0 nginx 2 spawns_nginx

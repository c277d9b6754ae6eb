-- ===== src/Facade/Scenarios/Connecting.antt =====
-- A daemon that hangs and daemons that are launched, and what the theorems about `connect` and `launch`
-- say of them.
use knot_ops.Prelude.{
  ℕ, suc, ltb, Bool, true, false, Text, codes, some, [], ◌++◌, ◌∷◌, text_eq, text_eq_refl, ◌≡◌,
  refl, sym, ap, ◌∙◌, arith, if_true, trim, if◌then◌else◌, decimal, is_whitespace,
}
use knot_ops.Core.Consts.{unix}
use knot_ops.Sys.Errors.{ok, err, pure, ok-ne-err}
use knot_ops.Sys.Names.{match_unix, fold_text, fold_case}
use knot_ops.Sys.Process.{
  Host, ProcessControl, PlatformProcess, present, bind, spawn, spawn_with_args, bind_after_spawn,
  spawn_extract_metadata, compare_names, metadata_eq, terminate,
}
use knot_ops.Facade.Policies.{default_policy, default_kill}
use knot_ops.Facade.Stale.{Files, OfflineHandle, socket_path, lock_path, clean, missing_is_fine}
use knot_ops.Facade.Stale.Purge.{IsFileSystem}
use knot_ops.Facade.Pid.{pid_of_text}
use knot_ops.Facade.Pid.RoundTrip.{pid_of_text-decimal}
use knot_ops.Facade.Kill.{kill_daemon, graceful, try_terminate}
use knot_ops.Facade.Dial.{Dialer, dial}
use knot_ops.Facade.Offline.{launch}
use knot_ops.Facade.Offline.Total.{Launched, launch-Launched}
use knot_ops.Facade.Connect.{
  offline, hung, ClientBuilder, as_stale, as_offline, as_hung, connect, read_as_u32,
}
use knot_ops.Facade.Connect.Outcome.{Reason, connect-Reason}
use knot_ops.Facade.Recovery.{hung_recovers}

-- The world of files: which paths there are.
abbrev Disk : Type 0
Disk = Text → Bool

abbrev files : Files Disk
files = record {
  join = λ dir name. dir ++ (b'/' ∷ name);
  exists = λ path w. w path;
  remove_file = λ path w. (ok tt, λ q. if text_eq q path then false else w q);
  read_to_string = λ path w. (ok (codes "7"), w);
}

files-IsFileSystem : IsFileSystem files
files-IsFileSystem = record {
  removed = λ path w h. sym (ap (λ q. q.1 path) h) ∙ if_true _ _ (text_eq_refl path);
  missing = λ path w h. absurd (ok-ne-err h);
  no_other = λ path q w absent. ground (arith, absent);
}

abbrev host : {W : Type 0} → (W → W) → Host W
host later = record {
  snapshot = λ pid w. (present (codes "knotd") 5, w);
  file_name = λ path. some path;
  spawn_child = λ name args. pure 7;
  sleep = λ ms w. later w;
}

abbrev control : {W : Type 0} → ProcessControl W ℕ
control = record {
  bind = λ m. pure m.pid;
  kill = λ handle. pure tt;
  terminate = λ handle. pure tt;
  wait = λ handle timeout. pure true;
  check_permissions = λ handle. pure tt;
}

-- The socket answers in the states that are named.
abbrev dialer : {W : Type 0} → (W → Bool) → Dialer W Text (Unit {0})
dialer ready = record {
  names = record {
    target = unix;
    show_path = λ path. path;
    to_fs_name = λ path. ok path;
    to_ns_name = λ name. ok name;
    file_name = λ path. some path;
  };
  connect = λ name. pure tt;
  connect_with_connector =
      λ uri connector w. if ready w then (ok tt, w) else (err (codes "refused"), w);
}

abbrev builder : ClientBuilder
builder = record {
  runtime_dir = codes "/run";
  daemon_path = codes "knotd";
  expected_daemon_name = codes "knotd";
  policy = default_policy;
}

abbrev silent : Dialer Disk Text (Unit {0})
silent = dialer (λ w. false)

abbrev all_there : Disk
all_there path = true

connect-Reason_example :
    Reason
      (host (λ w. w))
      control
      files
      silent
      builder
      all_there
      (connect (host (λ w. w)) control files silent builder all_there).0
      (connect (host (λ w. w)) control files silent builder all_there).1
connect-Reason_example = connect-Reason (host (λ w. w)) control files silent builder all_there

abbrev process : PlatformProcess ℕ
process = record { handle = 7; metadata = record { pid = 7; name = codes "knotd"; start_time = 5 } }

hangs :
    connect (host (λ w. w)) control files silent builder all_there
    ≡ (ok (hung (as_hung builder process)), all_there)
unfolding connect dial read_as_u32 pid_of_text bind spawn_extract_metadata compare_names match_unix
    text_eq fold_text fold_case metadata_eq trim is_whitespace
hangs = refl

abbrev socket_gone : Disk
socket_gone = (files.remove_file (socket_path files (codes "/run")) all_there).1

abbrev both_gone : Disk
both_gone = (files.remove_file (lock_path files (codes "/run")) socket_gone).1

killed :
    kill_daemon control (as_hung builder process) all_there ≡ (ok (as_stale builder), all_there)
unfolding kill_daemon try_terminate graceful terminate default_policy default_kill as_hung as_stale
killed = refl

cleaned : clean files unix (as_stale builder) all_there ≡ (ok (as_offline builder), both_gone)
unfolding clean missing_is_fine as_offline as_stale
cleaned = refl

hung_recovers_example :
    (as_offline builder ≡ as_offline builder)
    × (connect (host (λ w. w)) control files silent builder both_gone
        ≡ (ok (offline (as_offline builder)), both_gone))
hung_recovers_example =
    hung_recovers (host (λ w. w)) control files silent builder files-IsFileSystem all_there
      all_there all_there all_there all_there both_gone (as_hung builder process) (as_stale builder)
      (as_offline builder) hangs killed cleaned

pid_of_text-decimal_example :
    pid_of_text (codes " " ++ (decimal 4294967295 ++ codes " ")) ≡ some 4294967295
unfolding is_whitespace
pid_of_text-decimal_example =
    pid_of_text-decimal 4294967295 (codes " ") (codes " ") (omega arith) refl refl

-- For a launch the world is the number of pauses.
abbrev nothing : Files ℕ
nothing = record {
  join = λ dir name. dir ++ (b'/' ∷ name);
  exists = λ path w. false;
  remove_file = λ path w. (ok tt, w);
  read_to_string = λ path w. (ok [], w);
}

abbrev at_start : OfflineHandle
at_start = record {
  runtime_dir = codes "/run";
  daemon_path = codes "knotd";
  policy = default_policy;
}

abbrev second : Dialer ℕ Text (Unit {0})
second = dialer (λ w. ltb 0 w)

launch-Launched_example :
    Launched
      (host suc)
      control
      nothing
      second
      at_start
      0
      (launch (host suc) control nothing second at_start 0)
launch-Launched_example = launch-Launched (host suc) control nothing second at_start 0

-- The second attempt is answered.
connects :
    launch (host suc) control nothing second at_start 0
    ≡ some (ok (record { policy = default_policy }), 1)
unfolding launch spawn spawn_with_args bind_after_spawn bind spawn_extract_metadata compare_names
    match_unix text_eq fold_text fold_case metadata_eq dial
connects = refl

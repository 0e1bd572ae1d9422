-- ===== src/Examples/Extensions.antt =====
-- A Memcached run whose server answers at the fourth try.
use memory_tiering.Prelude.{ℕ, zero, suc, ◌≡◌, refl, true, false, some}
use memory_tiering.Prelude.Int.{ℤ, pos, negsuc}
use memory_tiering.Extension.{
  memcached, Setting, Manifest, complete, Poll, refused, connected, World, metadata, finished,
  run_workload, start_server,
}
use memory_tiering.Extension.Laws.{IsUsable, run_workload-IsUsable}

abbrev setting : Setting
setting = record {
  machine = "x86_64";
  pin = "pin";
  tool = "hotskew.so";
  server = λ w. "server";
  user = "user";
  data_file = "kdda";
  model_file = "kdda.model";
  prefix = "out/memcached";
  port = 4000;
  records = 2000000;
  ops = 10000000;
}

abbrev polls : ℕ → Poll
polls zero = refused
polls (suc zero) = refused
polls (suc (suc zero)) = refused
polls _ = connected

-- The server ends on its signal with a code that is not 0.
abbrev host : World
host = record {
  out_exists = false;
  polls = polls;
  training_code = pos 1;
  client_code = pos 0;
  server_end = some (negsuc 14);
  gzip_end = some (pos 0);
  says_complete = true;
  says_capped = false;
}

run_workload-IsUsable_example :
    ((m : Manifest)
      → run_workload setting host memcached ≡ finished m
      → (rc : ℤ) × IsUsable host memcached rc)
    × ((rc : ℤ)
        → IsUsable host memcached rc
        → run_workload setting host memcached
          ≡ finished
              (record (metadata setting memcached) { status = complete; returncode = some rc }))
run_workload-IsUsable_example = run_workload-IsUsable setting host memcached

ends :
    run_workload setting host memcached
    ≡ finished
        (record (metadata setting memcached) { status = complete; returncode = some (negsuc 14) })
unfolding run_workload start_server
ends = refl

-- ===== src/Examples/Deletion.antt =====
-- The deletion job on the services in memory.
use portal_conductor.Base.{◌≡◌, refl, false, some, [], ◌∷◌, inr}
use portal_conductor.Base.Int.{pos}
use portal_conductor.Config.File.{unreadable}
use portal_conductor.External.Effect.{ok, Done}
use portal_conductor.PortalDb.Connection.{Driver}
use portal_conductor.DeleteUser.Phases.{Deleter, delete_user}
use portal_conductor.DeleteUser.DryRun.{TransactionsKeep}
use portal_conductor.DeleteUser.Complete.{IsSeparate, Outcome, delete_user-Outcome}
use portal_conductor.DeleteUser.Arguments.Flags.{asks_dry_run}
use portal_conductor.DeleteUser.Run.{Machine, run}
use portal_conductor.DeleteUser.Run.Unchanged.{run-keeps}
use portal_conductor.Examples.World.{World, start}
use portal_conductor.Examples.Ldap
use portal_conductor.Examples.Tables.{database, committed, pending, is_relational}
use portal_conductor.Examples.Services.{
  irods, http, data_store, Rows, ldap_reads_keep, ldap_calls_keep, irods_reads_keep,
}

abbrev deleter : Deleter World Done Done Done
deleter = record {
  http = http;
  ldap_server = Ldap.server;
  irods_server = irods;
  database = database;
  mailman = some (record { base_url = "https://h/mailman"; password = "pw" });
  ldap = Ldap.client;
  ds = data_store;
  home_protected = pos 0;
  fuel = 3;
}

is_separate : IsSeparate deleter Ldap.view committed pending
is_separate = record {
  directory = Ldap.is_directory;
  relational = is_relational;
  ldap_apart = ldap_calls_keep;
  rows_apart = λ v. record {
    begin_keeps = record { after = λ w h. h };
    commit_keeps = λ tx. record { after = λ w h. h };
    rollback_keeps = λ tx w h. h;
    delete_keeps = λ tx s id. record { after = λ w h. h };
  };
  look_up_reads = λ t v. record {
    begin_keeps = record { after = λ w h. h };
    begin_read_only_keeps = record { after = λ w h. h };
    rollback_keeps = λ tx w h. h;
    select_user_keeps = λ tx username. record { after = λ w h. h };
  };
  irods_apart = λ t v. record {
    reads = record {
      connect_keeps = λ d. record { after = λ w h. h };
      remember_keeps = λ fs w h. h;
      get_user_keeps = λ fs username zone. record { after = λ w h. h };
    };
    exists_dir_keeps = λ fs path w h. h;
    list_dir_keeps = λ fs path. record { after = λ w h. h };
    remove_dir_keeps = λ fs path recurse force. record { after = λ w h. h };
    remove_file_keeps = λ fs path force. record { after = λ w h. h };
    remove_user_keeps = λ fs username zone kind. record { after = λ w h. h };
  };
  mail_apart = λ t v r. record { after = λ w h. h };
}

delete_user-Outcome_example :
    Outcome deleter Ldap.view committed pending "ann" start
      (delete_user deleter "ann" false start).0
      (delete_user deleter "ann" false start).1
delete_user-Outcome_example =
    delete_user-Outcome deleter Ldap.view committed pending is_separate "ann" start

abbrev driver : Driver World Done
driver = record {
  open_pool = λ source w. (ok database, w);
  ping = λ db w. (ok tt, w);
  close_pool = λ db w. w;
}

-- Every variable of the environment is set, and there is no file.
abbrev machine : Machine World Done Done Done
machine = record {
  http = http;
  ldap_server = Ldap.server;
  irods_server = irods;
  driver = driver;
  parse_url = λ s. ok tt;
  env = λ key. some "1";
  files = λ path. unreadable;
  home_protected = pos 0;
  fuel = 3;
}

IsHarmless-database : TransactionsKeep database (Rows start.rows)
IsHarmless-database = record {
  begin_keeps = record { after = λ w h. h };
  begin_read_only_keeps = record { after = λ w h. h };
  rollback_keeps = λ tx w h. h;
  select_user_keeps = λ tx username. record { after = λ w h. h };
}

run-keeps_example : (run machine ("ann" ∷ "--dry-run" ∷ []) start).1.rows ≡ start.rows
unfolding asks_dry_run
run-keeps_example =
    run-keeps machine (ldap_reads_keep start.rows) (irods_reads_keep start.rows)
      (record {
        opens = λ source. record { run = λ w h. (h, IsHarmless-database) };
        ping_keeps = λ db. record { after = λ w h. h };
        close_keeps = λ db w h. h;
      })
      ("ann" ∷ "--dry-run" ∷ []) start refl (inr refl)

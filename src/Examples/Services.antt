-- ===== src/Examples/Services.antt =====
-- iRODS, Terrain and Mailman in memory: they answer, and remember nothing but a token.
use portal_conductor.Base.{◌≡◌, refl, ◌∙◌, true, false, none, some, []}
use portal_conductor.Base.Int.{pos}
use portal_conductor.Json.{null}
use portal_conductor.External.{message}
use portal_conductor.External.Effect.{ok, err, Done}
use portal_conductor.Http.{Http}
use portal_conductor.LdapClient.Frame as LdapFrame
use portal_conductor.DataStore
use portal_conductor.DataStore.{DataStore}
use portal_conductor.DataStore.Frame as DataStoreFrame
use portal_conductor.Terrain
use portal_conductor.PortalDb.Tables.{Tables}
use portal_conductor.Api.Portal.Creation.{Services}
use portal_conductor.Api.Portal.Creation.Compensation.{CallsKeep}
use portal_conductor.Examples.World.{World}
use portal_conductor.Examples.Ldap

abbrev pub irods : DataStore.Server World Done
irods = record {
  cached = λ w. none;
  remember = λ fs w. w;
  check_account = λ d. none;
  new_file_system = λ d w. (ok tt, w);
  get_server_version = λ fs w. (ok tt, w);
  get_user = λ fs username zone w. (ok "rodsuser", w);
  is_user_not_found = λ e. false;
  create_user = λ fs username zone w. (ok tt, w);
  remove_user = λ fs username zone kind w. (ok tt, w);
  change_user_password = λ fs username zone password w. (ok tt, w);
  exists = λ fs path w. (true, w);
  exists_dir = λ fs path w. (true, w);
  make_dir = λ fs path w. (ok tt, w);
  remove_dir = λ fs path recurse force w. (ok tt, w);
  remove_file = λ fs path force w. (ok tt, w);
  list_dir = λ fs path w. (ok [], w);
  list_acls = λ fs path w. (ok [], w);
  set_owner = λ fs path user zone w. (ok tt, w);
  get_inheritance = λ fs path w. (ok none, w);
  set_inheritance = λ fs path w. (ok tt, w);
}

-- iRODS where no access list can be read.
abbrev pub failing_irods : DataStore.Server World Done
failing_irods = record irods { list_acls = λ fs path w. (err (message "no permission"), w) }

abbrev pub http : Http World
http = record {
  send = λ r w. (ok (record { url = "u"; status = 200; body = ""; json = some null }), w);
  url_text = λ u. "u";
  limited = λ s. s;
}

abbrev pub memory : Terrain.Memory World
memory = record {
  token = λ w. w.token;
  expiry = λ w. w.expiry;
  set_token = λ s t w. record w { token = s; expiry = t };
  now = λ w. pos 0;
  claims = λ s. none;
  token-set_token = λ s t w. refl;
  expiry-set_token = λ s t w. refl;
}

abbrev pub services : DataStore.Server World Done → Services World Done Done
services server = record {
  ldap_server = Ldap.server;
  irods_server = server;
  http = http;
  terrain_memory = memory;
  random_password = λ w. (ok "cmFuZG9t", w);
  parse_address = λ s. some s;
  describe = λ j. "json";
}

abbrev pub data_store : DataStore
data_store = record { host = "h"; port = pos 1247; user = "rods"; password = "pw"; zone = "zone" }

abbrev pub Rows : Tables → World → Type 0
Rows t w = w.rows ≡ t

pub ldap_reads_keep : (t : Tables) → LdapFrame.ReadsKeep Ldap.server (Rows t)
ldap_reads_keep t = record {
  dial_keeps = λ url. record { after = λ w h. h };
  bind_keeps = λ conn dn pw. record { after = λ w h. h };
  close_keeps = λ conn w h. h;
  search_keeps = λ conn r. record { after = λ w h. h };
}

pub ldap_calls_keep : (t : Tables) → LdapFrame.CallsKeep Ldap.server (Rows t)
ldap_calls_keep t = record {
  reads = ldap_reads_keep t;
  add_keeps = λ conn r. record { after = λ w h. h };
  modify_keeps = λ conn r. record { after = λ w h. Ldap.modified_rows _ r.changes w ∙ h };
  del_keeps = λ conn dn. record { after = λ w h. h };
  password_keeps = λ conn dn old new. record { after = λ w h. h };
}

pub irods_reads_keep : (t : Tables) → DataStoreFrame.ReadsKeep irods (Rows t)
irods_reads_keep t = record {
  connect_keeps = λ d. record { after = λ w h. h };
  remember_keeps = λ fs w h. h;
  get_user_keeps = λ fs username zone. record { after = λ w h. h };
}

failing_reads_keep : (t : Tables) → DataStoreFrame.ReadsKeep failing_irods (Rows t)
failing_reads_keep t = record {
  connect_keeps = λ d. record { after = λ w h. h };
  remember_keeps = λ fs w h. h;
  get_user_keeps = λ fs username zone. record { after = λ w h. h };
}

pub calls_keep : (t : Tables) → CallsKeep (services failing_irods) (Rows t)
calls_keep t = record {
  ldap_keeps = ldap_calls_keep t;
  irods_keeps = record {
    reads = failing_reads_keep t;
    create_user_keeps = λ fs username zone. record { after = λ w h. h };
    password_keeps = λ fs username zone password. record { after = λ w h. h };
    exists_dir_keeps = λ fs path w h. h;
    make_dir_keeps = λ fs path. record { after = λ w h. h };
    list_acls_keeps = λ fs path. record { after = λ w h. h };
    set_owner_keeps = λ fs path user zone. record { after = λ w h. h };
  };
  terrain_keeps = record {
    send_keeps = λ r. record { after = λ w h. h };
    set_token_keeps = λ s t' w h. h;
  };
  random_keeps = record { after = λ w h. h };
}

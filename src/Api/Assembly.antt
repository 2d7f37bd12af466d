-- ===== src/Api/Assembly.antt =====
-- api/server.go: `API` and `New`, and the handlers over their clients.
pub mod Disabled
use portal_conductor.Base.{ℕ, String, Bool, Option, some, List}
use portal_conductor.Base.Int.{ℤ}
use portal_conductor.Json.{Members}
use portal_conductor.Config.{Config}
use portal_conductor.LdapClient
use portal_conductor.DataStore
use portal_conductor.DataStore.{DataStore}
use portal_conductor.DataStore.Session.{user_home}
use portal_conductor.Terrain
use portal_conductor.Mailman
use portal_conductor.EmailService
use portal_conductor.PortalDb.{Database}
use portal_conductor.Api.Users as Users
use portal_conductor.Api.Directory as Directory
use portal_conductor.Api.Directory.{SortFunc}
use portal_conductor.Api.Datastore as Storage
use portal_conductor.Api.Portal as Portal
use portal_conductor.Api.Portal.Creation.{Services, Clients, create_portal_user}
use portal_conductor.Api.Async as Async
use portal_conductor.Api.Async.{AppMemory}
use portal_conductor.Api.Async.Parameter.{Floats}
use portal_conductor.Api.MailingLists as Lists
use portal_conductor.Api.JobLimits as Limits
use portal_conductor.Api.Emails as Emails
use portal_conductor.Api.Router.Table.{Handlers}

-- The fields of `API`, as main fills them: every client is there, and the portal database where it is
-- configured.
pub record Api (W Tx : Type 0) : Type 0 where
  pub cfg : Config
  pub ldap : LdapClient.Client
  pub ds : DataStore
  pub terrain : Terrain.Client
  pub mailman : Mailman.Client
  pub email : EmailService.Service
  pub portal_db : Option (Database W Tx)

-- What the handlers use beside the services of a registration: a mail server, the memory of the app's
-- id, and functions of Go's library.
pub record Surroundings (W Conn Session : Type 0) : Type 0 where
  pub mail_server : EmailService.Server W Conn Session
  pub app_memory : AppMemory W
  pub floats : Floats
  pub sort_func : SortFunc
  pub equal_fold : String → String → Bool
  pub shown : Members → String
  -- the order in which the roster pages are fetched
  pub page_order : List String
  pub home_protected : ℤ
  pub fuel : ℕ

module _ {W LdapConn Fs Tx Conn Session : Type 0} (S : Services W LdapConn Fs)
    (O : Surroundings W Conn Session) (a : Api W Tx) where
  abbrev clients : Clients W Tx
  clients = record {
    ldap = some a.ldap;
    ds = some a.ds;
    terrain = some a.terrain;
    portal_db = a.portal_db;
  }

  -- The methods of an `API` by their names.
  unfoldable pub handlers : Handlers W
  handlers = record {
    add_user = Users.add_user S.ldap_server a.ldap S.irods_server a.ds a.cfg S.describe;
    validate_credentials =
        Users.validate_credentials S.ldap_server a.ldap S.irods_server a.ds a.cfg S.describe;
    change_password =
        Users.change_password S.ldap_server a.ldap S.irods_server a.ds a.cfg S.describe;
    delete_user =
        Users.delete_user S.ldap_server a.ldap S.irods_server a.ds a.cfg S.describe O.home_protected
          O.fuel;
    delete_user_async =
        Async.delete_user_async S.http S.terrain_memory O.app_memory a.terrain a.cfg O.floats
          O.equal_fold O.shown (user_home S.irods_server a.ds);
    get_deletion_status =
        Async.get_deletion_status S.http S.terrain_memory O.app_memory a.terrain a.cfg O.floats
          O.equal_fold O.shown;
    list_analyses =
        Async.list_deletion_analyses S.http S.terrain_memory O.app_memory a.terrain a.cfg O.floats
          O.equal_fold O.shown;
    get_analysis_details =
        Async.get_analysis_details S.http S.terrain_memory O.app_memory a.terrain a.cfg O.floats
          O.equal_fold O.shown;
    create_ldap_user = Directory.create_ldap_user S.ldap_server a.ldap a.cfg S.describe;
    add_user_to_ldap_group = Directory.add_user_to_ldap_group S.ldap_server a.ldap a.cfg S.describe;
    get_user_ldap_groups = Directory.get_user_ldap_groups S.ldap_server a.ldap a.cfg S.describe;
    remove_user_from_ldap_group =
        Directory.remove_user_from_ldap_group S.ldap_server a.ldap a.cfg S.describe;
    get_user_ldap_info = Directory.get_user_ldap_info S.ldap_server a.ldap a.cfg S.describe;
    check_user_exists_in_ldap =
        Directory.check_user_exists_in_ldap S.ldap_server a.ldap a.cfg S.describe;
    get_ldap_groups = Directory.get_ldap_groups S.ldap_server a.ldap a.cfg S.describe O.sort_func;
    modify_user_ldap_attribute =
        Directory.modify_user_ldap_attribute S.ldap_server a.ldap a.cfg S.describe;
    send_email = Emails.send_email O.mail_server a.email S.describe;
    list_mailing_list_members =
        Lists.list_mailing_list_members S.http a.mailman a.cfg S.describe O.page_order;
    add_to_mailing_list = Lists.add_to_mailing_list S.http a.mailman a.cfg S.describe;
    remove_from_mailing_list = Lists.remove_from_mailing_list S.http a.mailman a.cfg S.describe;
    check_email_in_mailing_list =
        Lists.check_email_in_mailing_list S.http a.mailman a.cfg S.describe;
    create_datastore_user = Storage.create_datastore_user S.irods_server a.ds a.cfg S.describe;
    check_user_exists_in_datastore =
        Storage.check_user_exists_in_datastore S.irods_server a.ds a.cfg S.describe;
    register_datastore_service =
        Storage.register_datastore_service S.irods_server a.ds a.cfg S.describe;
    get_job_limits = Limits.get_job_limits S.http S.terrain_memory a.terrain O.floats S.describe;
    set_job_limits = Limits.set_job_limits S.http S.terrain_memory a.terrain O.floats S.describe;
    check_portal_user_exists = Portal.check_portal_user_exists a.portal_db;
    check_portal_email_exists = Portal.check_portal_email_exists a.portal_db;
    validate_portal_username = Portal.validate_portal_username a.portal_db;
    create_portal_user = create_portal_user S a.cfg clients;
  }

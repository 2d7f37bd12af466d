-- ===== src/DeleteUser/Complete.antt =====
-- The deletion as a whole: what it leaves in the directory and in the portal database.
use portal_conductor.Base.{
  String, ◌≡◌, refl, ap, ◌∙◌, Bool, true, false, Option, none, some, List, if◌then◌else◌,
}
use portal_conductor.Base.Int.{ℤ}
use portal_conductor.External.Effect.{Result, ok, err, proceed, ◌>>=◌}
use portal_conductor.External.Effect.Keeps.{Keeps, Keeps-pure, Keeps-if}
use portal_conductor.External.Effect.Triple.{
  Triple, Ends, Triple-intro, Triple-bind, Triple-pure, Triple-of_keeps, Triple-weaken,
}
use portal_conductor.Http.{Request}
use portal_conductor.Mailman
use portal_conductor.LdapClient.Directory.{Directory, IsDirectory}
use portal_conductor.LdapClient.Frame.{CallsKeep}
use portal_conductor.DataStore.Contents.Frame.{RemovalsKeep}
use portal_conductor.PortalDb.{UserInfo, EmailInfo}
use portal_conductor.PortalDb.Tables.{Tables, IsRelational}
use portal_conductor.PortalDb.Deletion.{delete_steps}
use portal_conductor.PortalDb.Deletion.Order.{after}
use portal_conductor.PortalDb.Deletion.Commit.{is_ok, planned, delete_from_portal_database-atomic}
use portal_conductor.UserDel.{from_datastore, from_ldap}
use portal_conductor.UserDel.Frame.{Keeps-from_datastore, Keeps-from_ldap}
use portal_conductor.UserDel.Removal.{removed, from_ldap-removed}
use portal_conductor.DeleteUser.DryRun.{TransactionsKeep, Keeps-lookup_user}
use portal_conductor.DeleteUser.Frame.{
  StatementsKeep, Keeps-remove_from_mailing_lists, Keeps-delete_from_portal_database,
}
use portal_conductor.DeleteUser.Phases.{
  Deleter, mailing_lists, lookup_user, delete_from_portal_database, phases, run_phases, success_of,
  delete_user,
}

module _ {W Conn Fs Tx : Type 0} (d : Deleter W Conn Fs Tx) (view : W → Directory)
    (committed : W → Tables) (pending : Tx → W → Tables) where
  -- The directory and the committed tables.
  abbrev pub Both : Tables → Directory → W → Type 0
  Both t v w = (committed w ≡ t) × (view w ≡ v)

  -- A lawful directory and a lawful database that do not share their data, with each other or with
  -- iRODS and Mailman.
  pub record IsSeparate : Type 0 where
    pub directory : IsDirectory d.ldap_server d.ldap view
    pub relational : IsRelational d.database committed pending
    pub ldap_apart : (t : Tables) → CallsKeep d.ldap_server (λ w. committed w ≡ t)
    pub rows_apart : (v : Directory) → StatementsKeep d.database (λ w. view w ≡ v)
    pub look_up_reads : (t : Tables) (v : Directory) → TransactionsKeep d.database (Both t v)
    pub irods_apart : (t : Tables) (v : Directory) → RemovalsKeep d.irods_server (Both t v)
    pub mail_apart : (t : Tables) (v : Directory) (r : Request) → Keeps (Both t v) (d.http.send r)

  -- What a deletion that was begun in a world has done, by its answer.
  abbrev pub Outcome : String → W → Bool → W → Type 0
  Outcome u w true w' =
      (user : UserInfo) × ((lookup_user d.database u w).0 ≡ ok (some user))
      × (committed w' ≡ after delete_steps user.id (committed w))
      × (view w' ≡ removed u (view w))
  Outcome u w false w' = committed w' ≡ committed w

  module _ (I : IsSeparate) where
    Keeps-mailing_lists :
        (t : Tables) (v : Directory) (o : Option Mailman.Client) (emails : List EmailInfo)
        → Keeps (Both t v) (mailing_lists d o emails false)
    Keeps-mailing_lists t v none emails = Keeps-pure tt
    Keeps-mailing_lists t v (some client) emails =
        Keeps-if _ _ _ (Keeps-pure tt)
          (Keeps-remove_from_mailing_lists d.http client (I.mail_apart t v) emails false)

    Triple-ldap :
        (u : String) (t : Tables) (v : Directory)
        → Triple
            (Both t v)
            (from_ldap d.ldap_server d.ldap u false)
            (λ _. Both t (removed u v))
            (λ e w. committed w ≡ t)
    Triple-ldap u t v =
        let kept = Keeps-from_ldap d.ldap_server d.ldap (I.ldap_apart t) u false in
        Triple-intro _
          (λ w h a e. (
            kept.after w h.0,
            from_ldap-removed d.ldap_server d.ldap view I.directory u w e ∙ ap (removed u) h.1,
          ))
          (λ w h x e. kept.after w h.0)

    Triple-rows :
        (id : ℤ) (t : Tables) (v : Directory)
        → Triple
            (Both t v)
            (delete_from_portal_database d.database id false)
            (λ _. Both (after delete_steps id t) v)
            (λ e w. committed w ≡ t)
    Triple-rows id t v =
        let kept = Keeps-delete_from_portal_database d.database (I.rows_apart v) id false in
        let atomic =
          delete_from_portal_database-atomic d.database committed pending I.relational id false in
        Triple-intro _
          (λ w h a e. (
            atomic w
                ∙ ap (λ r. if is_ok r then after (planned false) id (committed w) else committed w)
                    e
                ∙ ap (after delete_steps id) h.0,
            kept.after w h.1,
          ))
          (λ w h x e.
            atomic w
            ∙ ap (λ r. if is_ok r then after (planned false) id (committed w) else committed w) e
            ∙ h.0)

    Triple-phases :
        (u : String) (w : W) (o : Option UserInfo)
        → (lookup_user d.database u w).0 ≡ ok o
        → Triple
            (Both (committed w) (view w))
            (phases d u false o)
            (Outcome u w)
            (λ e w'. committed w' ≡ committed w)
    unfolding phases
    Triple-phases u w none found = Triple-pure false (λ w' h. h.0)
    Triple-phases u w (some user) found =
        Triple-bind (λ a. Both (committed w) (view w)) _ _
          (unharmed (Keeps-mailing_lists (committed w) (view w) d.mailman user.emails))
          λ lists.
            Triple-bind (λ a. Both (committed w) (view w)) _ _ (unharmed datastore)
              λ collections.
                Triple-bind (λ a. Both (committed w) (removed u (view w))) _ _
                  (Triple-ldap u (committed w) (view w))
                  λ entry.
                    Triple-bind
                      (λ a. Both (after delete_steps user.id (committed w)) (removed u (view w))) _
                      _ (Triple-rows user.id (committed w) (removed u (view w)))
                      λ rows. Triple-pure true (λ w' h. (user, found, h.0, h.1))
      where
        unharmed :
            {A : Type 0} {m : W → Result A × W}
            → Keeps (Both (committed w) (view w)) m
            → Triple
                (Both (committed w) (view w))
                m
                (λ a. Both (committed w) (view w))
                (λ e w'. committed w' ≡ committed w)
        unharmed k = Triple-weaken (λ w' h. h) (λ a w' h. h) (λ e w' h. h.0) (Triple-of_keeps k)

        datastore :
            Keeps
              (Both (committed w) (view w))
              (from_datastore d.irods_server d.ds d.home_protected d.fuel u false)
        datastore =
            Keeps-from_datastore d.irods_server d.ds d.home_protected d.fuel
              (I.irods_apart (committed w) (view w)) u false

    after_look_up :
        (u : String) (w : W) (r : Result (Option UserInfo)) (w' : W)
        → (lookup_user d.database u w).0 ≡ r
        → Both (committed w) (view w) w'
        → Outcome u w
            (success_of d (proceed r (phases d u false) w').0)
            (proceed r (phases d u false) w').1
    after_look_up u w (err x) w' e h = h.0
    after_look_up u w (ok o) w' e h =
        by_result (phases d u false o w').0 (phases d u false o w').1
          ((Triple-phases u w o e).run w' h)
      where
        by_result :
            (r : Result Bool) (x : W)
            → Ends (Outcome u w) (λ e w'. committed w' ≡ committed w) r x
            → Outcome u w (success_of d r) x
        by_result (ok b) x h = h
        by_result (err e) x h = h

    -- Over a lawful directory and database that share no data with each other or with iRODS and
    -- Mailman: a deletion that is not dry and succeeds has found the user in the portal database and
    -- has taken the rows of the user out of the tables by all the steps. A user that had an entry in
    -- the directory has lost it and is in no group; where there was no entry, the directory is as it
    -- was, memberships included. Where the deletion does not succeed, whatever has failed, the portal
    -- database is as it was.
    pub delete_user-Outcome :
        (u : String) (w : W) → Outcome u w (delete_user d u false w).0 (delete_user d u false w).1
    unfolding delete_user run_phases ◌>>=◌
    delete_user-Outcome u w =
        after_look_up u w (lookup_user d.database u w).0 (lookup_user d.database u w).1 refl (
          (Keeps-lookup_user d.database (I.look_up_reads (committed w) (view w)) u).after w
            (refl, refl))

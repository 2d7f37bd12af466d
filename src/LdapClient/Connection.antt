-- ===== src/LdapClient/Connection.antt =====
-- Connections of the LDAP client: `dialOnly`, `dial`, `do`, `search`, `New` and the names of entries.
use portal_conductor.Base.{String, ◌<>◌, List}
use portal_conductor.External.Effect.{Call, pure, context, ◌>>=◌, ◌>>◌, deferring, on_error}
use portal_conductor.LdapClient.{Server, Client, Entry}

module _ {W Conn : Type 0} (S : Server W Conn) (c : Client) where
  unfoldable pub dial_only : Call W Conn
  dial_only =
      context ("dialing LDAP server " <> c.url <> " failed (server down or unreachable?)")
        (S.dial_url c.url)

  unfoldable pub dial : Call W Conn
  dial = do
    conn ← dial_only
    on_error (S.close conn) (
        context ("LDAP bind as " <> c.bind_dn <> " failed (bad service credentials?)")
          (S.bind conn c.bind_dn c.bind_password))
    pure conn

  -- `do`: a fresh connection for each operation, closed at its end.
  unfoldable pub with_connection : {A : Type 0} → (Conn → Call W A) → Call W A
  with_connection fn = do conn ← dial; deferring (S.close conn) (fn conn)

  -- `New` verifies connectivity by binding once.
  unfoldable pub new : Call W Client
  new = do conn ← dial; deferring (S.close conn) (pure c)

  unfoldable pub search_entries : Conn → String → List String → Call W (List Entry)
  search_entries conn filter attrs =
      S.search conn (record { base_dn = c.base_dn; filter = filter; attributes = attrs })

  unfoldable pub user_dn : String → String
  user_dn username = "uid=" <> S.escape_dn username <> ",ou=People," <> c.base_dn

  unfoldable pub group_dn : String → String
  group_dn group = "cn=" <> S.escape_dn group <> ",ou=Groups," <> c.base_dn

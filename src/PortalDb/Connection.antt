-- ===== src/PortalDb/Connection.antt =====
-- portaldb/portaldb.go: `Connect`.
use portal_conductor.Base.{String, ◌<>◌, ◌==◌, if◌then◌else◌}
use portal_conductor.Base.Int.{pos}
use portal_conductor.Base.Text.{itoa}
use portal_conductor.Config
use portal_conductor.Config.{flex_int}
use portal_conductor.External.Effect.{Call, Done, pure, context, on_error, ◌>>=◌, ◌>>◌}
use portal_conductor.PortalDb.{Database}

-- `sql.Open` with the driver for PostgreSQL, and the pool that it opens.
pub record Driver (W Tx : Type 0) : Type 0 where
  pub open_pool : String → Call W (Database W Tx)
  pub ping : Database W Tx → Call W Done
  pub close_pool : Database W Tx → W → W

abbrev pub ssl_mode : Config.PortalDb → String
ssl_mode cfg = if cfg.sslmode == "" then "disable" else cfg.sslmode

abbrev pub data_source : Config.PortalDb → String
data_source cfg =
    "host="
    <> cfg.host
    <> " port="
    <> itoa (flex_int cfg.port (pos 5432))
    <> " dbname="
    <> cfg.name
    <> " user="
    <> cfg.user
    <> " password="
    <> cfg.password
    <> " sslmode="
    <> ssl_mode cfg

module _ {W Tx : Type 0} (D : Driver W Tx) where
  unfoldable pub connect : Config.PortalDb → Call W (Database W Tx)
  connect cfg = do
    db ← D.open_pool (data_source cfg)
    on_error (D.close_pool db) (
        context
          ("connecting to portal database at " <> cfg.host
            <> " failed (server down or bad credentials?)")
          (D.ping db))
    pure db

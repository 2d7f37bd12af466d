-- ===== src/Examples/World.antt =====
-- The state of the services in memory.
use portal_conductor.Base.{String, Bool, List, [], ◌∷◌, ◌==◌, if◌then◌else◌}
use portal_conductor.Base.Int.{ℤ, pos}
use portal_conductor.EmailService.Delivery.{Mailbox}
use portal_conductor.PortalDb.Tables.{Tables, Row, int, other}

pub record World : Type 0 where
  pub has_entry : String → Bool
  pub groups_of : String → List String
  pub rows : Tables
  pub draft : Tables
  pub next_id : ℤ
  pub token : String
  pub expiry : ℤ
  pub app_id : String
  pub mailbox : Mailbox

-- A row by the id that one of its columns holds.
abbrev pub row : String → ℤ → Row
row col id name = if name == col then int id else other

-- Ann has an entry, two groups, and rows in the portal database under the id 7.
abbrev pub start : World
start = record {
  has_entry = λ u. u == "ann";
  groups_of = λ u. if u == "ann" then "everyone" ∷ "staff" ∷ [] else [];
  rows = λ t. if t == "account_user" then row "id" (pos 7) ∷ row "id" (pos 8) ∷ [] else [];
  draft = λ t. [];
  next_id = pos 9;
  token = "";
  expiry = pos 0;
  app_id = "";
  mailbox = record { accepted = []; draft = record { sender = ""; recipients = []; text = "" } };
}

-- ===== src/Json.antt =====
-- JSON documents as values. The text of a document is not modelled: where the program parses a
-- text, the model starts from the value that the text stands for.
pub mod Decode
use portal_conductor.Base.{String, ◌==◌, Bool, Option, none, some, if◌then◌else◌}

mutual
  pub data Json : Type 0 where
    null : Json
    bool : Bool → Json
    number : String → Json  -- the literal
    text : String → Json
    array : Items → Json
    object : Members → Json

  pub data Items : Type 0 where
    nil : Items
    item : Json → Items → Items

  pub data Members : Type 0 where
    end : Members
    member : String → Json → Members → Members

-- A key of a `map[string]any`: the last member of that name counts.
unfoldable pub value_of : String → Members → Option Json
value_of key end = none
value_of key (member name v ms) = elim (value_of key ms) [
  | some later ↦ some later
  | none ↦ if name == key then some v else none
]

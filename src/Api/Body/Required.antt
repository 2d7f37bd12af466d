-- ===== src/Api/Body/Required.antt =====
-- When a body is accepted.
use Prim.{absurd}
use portal_conductor.Base.{
  String, ◌≡◌, refl, sym, ap, ◌∙◌, Bool, true, false, Option, none, some, List, [], ◌∷◌, All, inl,
  inr, ◌↔◌, Option-cases,
}
use portal_conductor.Json.{Json, Members, null, bool, number, text, array, object, value_of}
use portal_conductor.Json.Decode.{overlay_struct}
use portal_conductor.External.{Error, ValidationError}
use portal_conductor.External.Effect.{Result, ok, err}
use portal_conductor.Api.{RequestBody, unreadable, not_json, document}
use portal_conductor.Api.Body.{
  error_at, field_error, field_errors, raw_fields, accepted, add_error, onto, decode_document,
  decode_body, json_invalid, unprocessable, entry,
}

-- The key is there and its value is not null.
abbrev pub is_given : Option Json → Bool
is_given none = false
is_given (some null) = false
is_given (some _) = true

abbrev pub Given : Members → String → Type 0
Given ms key = is_given (value_of key ms) ≡ true

-- A document with every required key, which the fields of the struct read as `a`.
abbrev pub Accepts :
    {A : Type 0} → (Members → A → Option A) → A → List String → RequestBody → A → Type 0
Accepts fields dst required body a =
    (j : Json) × (ms : Members) × (body ≡ document j)
    × (raw_fields j ≡ some ms)
    × (overlay_struct fields dst j ≡ some a)
    × All (Given ms) required

-- No error stands for a key that is given, and one for any other.
no_error :
    (key : String) (o : Option Json) (rest : List ValidationError)
    → (add_error (error_at key o) rest ≡ []) ↔ ((is_given o ≡ true) × (rest ≡ []))
no_error key none rest = (λ h. cc, λ h. cc)
no_error key (some null) rest = (λ h. cc, λ h. cc)
no_error key (some (bool b)) rest = (λ h. (refl, h), λ h. h.1)
no_error key (some (number n)) rest = (λ h. (refl, h), λ h. h.1)
no_error key (some (text s)) rest = (λ h. (refl, h), λ h. h.1)
no_error key (some (array js)) rest = (λ h. (refl, h), λ h. h.1)
no_error key (some (object ks)) rest = (λ h. (refl, h), λ h. h.1)

field_errors-Given :
    (ms : Members) (required : List String)
    → (field_errors ms required ≡ []) ↔ All (Given ms) required
unfolding field_errors field_error
field_errors-Given ms [] = (λ h. tt, λ h. refl)
field_errors-Given ms (key ∷ keys) =
    let rest = field_errors-Given ms keys in
    let here = no_error key (value_of key ms) (field_errors ms keys) in
    (λ h. let (a, b) = here.0 h in (a, rest.0 b), λ h. here.1 (h.0, rest.1 h.1))

module _ {A : Type 0} (fields : Members → A → Option A) (describe : Json → String) (dst : A)
    (required : List String) where
  accepted-ok :
      (a b : A) (vs : List ValidationError) → (accepted a vs ≡ ok b) ↔ ((vs ≡ []) × (a ≡ b))
  accepted-ok a b [] = (λ h. (refl, cc), λ h. cc)
  accepted-ok a b (v ∷ vs) = (λ h. cc, λ h. cc)

  no_ok : {B C : Type 0} {b : B} (r : Result B) (e : Error) → r ≡ ok b → r ≡ err e → C
  no_ok r e h k = absurd cc

  no_members :
      (j : Json)
      → raw_fields j ≡ none
      → decode_document fields describe dst required j (raw_fields j)
        ≡ err (json_invalid "JSON decode error")
  no_members j n = rw n refl

  no_value :
      (j : Json) (ms : Members)
      → raw_fields j ≡ some ms
      → overlay_struct fields dst j ≡ none
      → decode_document fields describe dst required j (raw_fields j)
        ≡ err (unprocessable (entry "value_error" ("body" ∷ []) (describe j) ∷ []))
  no_value j ms m n = rw (m, onto, n) refl

  value :
      (j : Json) (ms : Members) (b : A)
      → raw_fields j ≡ some ms
      → overlay_struct fields dst j ≡ some b
      → decode_document fields describe dst required j (raw_fields j)
        ≡ accepted b (field_errors ms required)
  value j ms b m o = rw (m, onto, o) refl

  same_members :
      (j k : Json) (ms ls : Members)
      → document j ≡ document k
      → raw_fields j ≡ some ms
      → raw_fields k ≡ some ls
      → ms ≡ ls
  same_members j k ms ls e m r = cc

  -- A body is decoded to a value exactly where it is a JSON object (or null) whose members fill the
  -- struct with that value and hold each required key with a value that is not null.
  pub decode_body-Accepts :
      (body : RequestBody) (a : A)
      → (decode_body fields describe body dst required ≡ ok a) ↔ Accepts fields dst required body a
  unfolding decode_body
  decode_body-Accepts unreadable a = (λ h. cc, λ (j, ms, e, _, _, _). cc)
  decode_body-Accepts not_json a = (λ h. cc, λ (j, ms, e, _, _, _). cc)
  decode_body-Accepts (document j) a = elim (Option-cases (raw_fields j)) [
    | inl n ↦ (λ h. no_ok _ _ h (no_members j n), λ (k, ms, e, r, _, _). absurd cc)
    | inr (ms, m) ↦ elim (Option-cases (overlay_struct fields dst j)) [
      | inl n ↦ (λ h. no_ok _ _ h (no_value j ms m n), λ (k, ls, e, r, o, _). absurd cc)
      | inr (b, o) ↦ (
        λ h.
            let (v, q) =
              (accepted-ok b a (field_errors ms required)).0 (sym (value j ms b m o) ∙ h) in
            (j, ms, refl, m, o ∙ ap some q, (field_errors-Given ms required).0 v),
        λ (k, ls, e, r, p, g).
            value j ms b m o
            ∙ (accepted-ok b a (field_errors ms required)).1
                ((field_errors-Given ms required).1 (rw (same_members j k ms ls e m r) g), cc),
      )
    ]
  ]

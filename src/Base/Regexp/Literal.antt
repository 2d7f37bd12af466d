-- ===== src/Base/Regexp/Literal.antt =====
-- Searches for a text between the edges of words.
use Prim.Native.Nat.{ℕ}
use Prim.Native.Char.{Char, code}
use Prim.Native.String.{String}
use mathlib.Core.Path.{◌≡◌, refl, sym, ap, ◌∙◌}
use mathlib.Core.Logic.{◌⊎◌, inl, inr}
use mathlib.Core.Bool.{Bool, true, false, ◌||◌}
use mathlib.Core.Option.{Option, none, some}
use mathlib.Core.List.{List, [], ◌∷◌, ◌++◌}
use native.Mathlib.Omega.{arith}
use portal_conductor.Base.Tests.{nat_eq, Bool-cases, if◌then◌else◌}
use portal_conductor.Base.Text.{codes}
use portal_conductor.Base.Regexp.{
  Pattern, boundary, is_word, begins_word, differ, is_match, match_at, match_anywhere,
}
use portal_conductor.Base.Regexp.Words.{literal}

-- Whether the last of some characters is one of a word; the flag is the answer if there is none.
abbrev pub ends_word : Bool → List ℕ → Bool
ends_word w [] = w
ends_word w (c ∷ cs) = ends_word (is_word c) cs

-- Whether the first one is.
abbrev pub starts_word : List ℕ → Bool
starts_word [] = false
starts_word (c ∷ cs) = is_word c

-- A text stands in another one with the edge of a word at its beginning and at its end.
pub record Occurs (w : Bool) (t s : String) : Type 0 where
  pub before : List ℕ
  pub after : List ℕ
  pub splits : codes s ≡ before ++ (codes t ++ after)
  pub left_edge : differ (ends_word w before) (starts_word (codes t ++ after)) ≡ true
  pub right_edge : differ (ends_word (ends_word w before) (codes t)) (starts_word after) ≡ true

begins_word-codes : (s : String) → begins_word s ≡ starts_word (codes s)
begins_word-codes String.[] = refl
begins_word-codes (String.◌∷◌ c s) = refl

codes_of_nil : (s : String) → codes s ≡ [] → s ≡ String.[]
codes_of_nil String.[] h = refl
codes_of_nil (String.◌∷◌ c s) h = cc

-- What a literal that matches has read.
literal_read :
    (t : String) (p : Pattern) (w : Bool) (s r : String)
    → match_at w (literal t ++ p) s ≡ some r
    → (rest : String) × (codes s ≡ codes t ++ codes rest)
      × (match_at (ends_word w (codes t)) p rest ≡ some r)
unfolding match_at literal
literal_read String.[] p w s r h = (s, refl, h)
literal_read (String.◌∷◌ d t) p w String.[] r h = cc
literal_read (String.◌∷◌ d t) p w (String.◌∷◌ c s) r h =
    elim (Bool-cases (nat_eq (code d) (code c))) [
      | inl e ↦
          let same : code c ≡ code d = ground arith in
          let (rest, k, m) = literal_read t p (is_word (code c)) s r (rw e at h) in
          (
            rest,
            ap (λ n. n ∷ codes s) same ∙ ap (λ cs. code d ∷ cs) k,
            ap (λ n. match_at (ends_word (is_word n) (codes t)) p rest) (sym same) ∙ m,
          )
      | inr e ↦ cc
    ]

read_literal :
    (t : String) (p : Pattern) (w : Bool) (s : String) (later : List ℕ)
    → codes s ≡ codes t ++ later
    → (rest : String) × (codes rest ≡ later)
      × (match_at w (literal t ++ p) s ≡ match_at (ends_word w (codes t)) p rest)
unfolding match_at literal
read_literal String.[] p w s later h = (s, h, refl)
read_literal (String.◌∷◌ d t) p w String.[] later h = cc
read_literal (String.◌∷◌ d t) p w (String.◌∷◌ c s) later h =
    let same : code c ≡ code d = cc in
    let (rest, k, m) = read_literal t p (is_word (code c)) s later (cc) in
    let e : nat_eq (code d) (code c) ≡ true = ground arith in
    (rest, k, rw e (m ∙ ap (λ n. match_at (ends_word (is_word n) (codes t)) p rest) same))

edge : (b : Bool) (o : Option String) {r : String} → (if b then o else none) ≡ some r → b ≡ true
edge true o h = refl
edge false o h = cc

edged : (b : Bool) (o : Option String) {r : String} → (if b then o else none) ≡ some r → o ≡ some r
edged true o h = h
edged false o h = cc

-- The characters of a text between word boundaries.
abbrev pub between_edges : String → Pattern
between_edges t = boundary ∷ (literal t ++ boundary ∷ [])

Occurs-match_at :
    (t : String) (w : Bool) (s r : String) → match_at w (between_edges t) s ≡ some r → Occurs w t s
unfolding match_at
Occurs-match_at t w s r h =
    let b = edge (differ w (begins_word s)) _ h in
    let (rest, k, m) =
      literal_read t (boundary ∷ []) w s r (edged (differ w (begins_word s)) _ h) in
    let e = edge (differ (ends_word w (codes t)) (begins_word rest)) _ m in
    record {
      before = [];
      after = codes rest;
      splits = k;
      left_edge = sym (ap (differ w) (begins_word-codes s ∙ ap starts_word k)) ∙ b;
      right_edge = sym (ap (differ (ends_word w (codes t))) (begins_word-codes rest)) ∙ e;
    }

match_here :
    (t : String) (w : Bool) (s : String) (after : List ℕ)
    → codes s ≡ codes t ++ after
    → differ w (starts_word (codes t ++ after)) ≡ true
    → differ (ends_word w (codes t)) (starts_word after) ≡ true
    → is_match (match_at w (between_edges t) s) ≡ true
unfolding match_at
match_here t w s after k l r =
    let (rest, e, m) = read_literal t (boundary ∷ []) w s after k in
    let b : differ w (begins_word s) ≡ true =
      ap (differ w) (begins_word-codes s ∙ ap starts_word k) ∙ l in
    let b' : differ (ends_word w (codes t)) (begins_word rest) ≡ true =
      ap (differ (ends_word w (codes t))) (begins_word-codes rest ∙ ap starts_word e) ∙ r in
    rw (b, m, b') refl

or_cases : (a b : Bool) → (a || b) ≡ true → (a ≡ true) ⊎ (b ≡ true)
or_cases true b h = inl refl
or_cases false b h = inr h

or_right : (a b : Bool) → b ≡ true → (a || b) ≡ true
or_right true b h = refl
or_right false b h = h

here_or_not :
    (t : String) (w : Bool) (s : String) (o : Option String)
    → match_at w (between_edges t) s ≡ o
    → is_match o ≡ true
    → Occurs w t s
here_or_not t w s (some r) e h = Occurs-match_at t w s r e
here_or_not t w s none e h = cc

-- One character more before the place.
Occurs-later :
    (w : Bool) (t : String) (c : Char) (s : String)
    → Occurs (is_word (code c)) t s
    → Occurs w t (String.◌∷◌ c s)
Occurs-later w t c s o = record {
  before = code c ∷ o.before;
  after = o.after;
  splits = ap (λ cs. code c ∷ cs) o.splits;
  left_edge = o.left_edge;
  right_edge = o.right_edge;
}

pub Occurs-match_anywhere :
    (t : String) (w : Bool) (s : String)
    → match_anywhere w (between_edges t) s ≡ true
    → Occurs w t s
unfolding match_anywhere
Occurs-match_anywhere t w String.[] h = here_or_not t w String.[] _ refl h
Occurs-match_anywhere t w (String.◌∷◌ c s) h =
    elim (or_cases (is_match (match_at w (between_edges t) (String.◌∷◌ c s)))
      (match_anywhere (is_word (code c)) (between_edges t) s) h) [
        | inl e ↦ here_or_not t w (String.◌∷◌ c s) _ refl e
        | inr e ↦ Occurs-later w t c s (Occurs-match_anywhere t (is_word (code c)) s e)
      ]

pub match_anywhere-at :
    (t : String) (w : Bool) (s : String) (before after : List ℕ)
    → codes s ≡ before ++ (codes t ++ after)
    → differ (ends_word w before) (starts_word (codes t ++ after)) ≡ true
    → differ (ends_word (ends_word w before) (codes t)) (starts_word after) ≡ true
    → match_anywhere w (between_edges t) s ≡ true
unfolding match_anywhere
match_anywhere-at t w String.[] [] after k l r = match_here t w String.[] after k l r
match_anywhere-at t w String.[] (b ∷ before) after k l r = cc
match_anywhere-at t w (String.◌∷◌ c s) [] after k l r =
    rw (match_here t w (String.◌∷◌ c s) after k l r) refl
match_anywhere-at t w (String.◌∷◌ c s) (b ∷ before) after k l r =
    let same : b ≡ code c = cc in
    or_right _ _ (
      match_anywhere-at t (is_word (code c)) s before after (cc)
        (sym (ap (λ n. differ (ends_word (is_word n) before) (starts_word (codes t ++ after))) same)
          ∙ l)
        (sym (
            ap
              (λ n. differ (ends_word (ends_word (is_word n) before) (codes t)) (starts_word after))
              same)
          ∙ r))

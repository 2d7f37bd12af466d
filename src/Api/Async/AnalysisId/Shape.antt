-- ===== src/Api/Async/AnalysisId/Shape.antt =====
-- What an identifier of an analysis looks like.
use Prim.{⊥}
use mathlib.Core.List.{append-nil}
use Prim.Native.Char.{code}
use portal_conductor.Base.{
  ℕ, zero, suc, String, ◌≡◌, refl, sym, ap, ◌∙◌, Bool, true, false, Option, none, some, List, [],
  ◌∷◌, ◌++◌, length, All, nat_eq, inl, inr, Bool-cases, if◌then◌else◌, arith,
}
use portal_conductor.Base.Text.{codes}
use portal_conductor.Base.Regexp.{Class, Pattern, is_word, ends, match_at, match_whole}
use portal_conductor.Base.Regexp.Words.{times, is_hex}
use portal_conductor.External.Effect.{Result, ok, err}
use portal_conductor.Api.{Request}
use portal_conductor.Api.Async.AnalysisId.{uuid_pattern, no_uuid, analysis_id_param}

-- Characters that begin with a match of so many of a class, and those behind it.
record Run (n : ℕ) (test : Class) (p : Pattern) (cs : List ℕ) (out : Option String) : Type 0 where
  run : List ℕ
  rest : String
  flag : Bool
  splits : cs ≡ run ++ codes rest
  size : length run ≡ n
  fits : All (λ c. test c ≡ true) run
  onward : match_at flag p rest ≡ out

Run-match_at :
    (n : ℕ) (test : Class) (p : Pattern) (w : Bool) (s left : String)
    → match_at w (times n test ++ p) s ≡ some left
    → Run n test p (codes s) (some left)
unfolding match_at
Run-match_at zero test p w s left h = record {
  run = [];
  rest = s;
  flag = w;
  splits = refl;
  size = refl;
  fits = tt;
  onward = h;
}
Run-match_at (suc n) test p w String.[] left h = cc
Run-match_at (suc n) test p w (String.◌∷◌ c s) left h = elim (Bool-cases (test (code c))) [
  | inl e ↦
      let r = Run-match_at n test p _ s left (rw e at h) in
      record {
        run = code c ∷ r.run;
        rest = r.rest;
        flag = r.flag;
        splits = ap (λ cs. code c ∷ cs) r.splits;
        size = ap suc r.size;
        fits = (e, r.fits);
        onward = r.onward;
      }
  | inr e ↦ cc
]

-- The other way: a text that begins so is matched so far.
matched_run :
    (n : ℕ) (test : Class) (p : Pattern) (w : Bool) (s : String) (run later : List ℕ)
    → codes s ≡ run ++ later
    → length run ≡ n
    → All (λ c. test c ≡ true) run
    → (rest : String) × (flag : Bool) × (codes rest ≡ later)
      × (match_at w (times n test ++ p) s ≡ match_at flag p rest)
unfolding match_at
matched_run zero test p w s [] later e l f = (s, w, e, refl)
matched_run zero test p w s (c ∷ run) later e l f = absurd (omega arith)
matched_run (suc n) test p w s [] later e l f = absurd (omega arith)
matched_run (suc n) test p w String.[] (c ∷ run) later e l f = cc
matched_run (suc n) test p w (String.◌∷◌ d s) (c ∷ run) later e l f =
    let (rest, flag, e', m) =
      matched_run n test p (is_word (code d)) s run later (cc) (omega arith) f.1 in
    (rest, flag, e', rw (same_test (cc) f.0) m)
  where
    same_test : code d ≡ c → test c ≡ true → test (code d) ≡ true
    same_test k t = rw k t

-- Groups of hexadecimal digits of given sizes, with a dash between one and the next.
abbrev pub Grouped : List ℕ → List ℕ → Type 0
Grouped [] cs = cs ≡ []
Grouped (n ∷ []) cs = (length cs ≡ n) × All (λ c. is_hex c ≡ true) cs
Grouped (n ∷ m ∷ ns) cs =
    (run : List ℕ) × (rest : List ℕ) × (cs ≡ run ++ b'-' ∷ rest)
    × (length run ≡ n)
    × All (λ c. is_hex c ≡ true) run
    × Grouped (m ∷ ns) rest

abbrev pattern_of : List ℕ → Pattern
pattern_of [] = []
pattern_of (n ∷ []) = times n is_hex ++ []
pattern_of (n ∷ m ∷ ns) = times n is_hex ++ (times 1 (nat_eq b'-') ++ pattern_of (m ∷ ns))

at_end : (s : String) → Path (Option String) (some s) (some String.[]) → codes s ≡ []
at_end String.[] h = refl
at_end (String.◌∷◌ c s) h = cc

whole_run :
    (n : ℕ) (cs run : List ℕ)
    → cs ≡ run ++ []
    → length run ≡ n
    → All (λ c. is_hex c ≡ true) run
    → Grouped (n ∷ []) cs
whole_run n cs run e l f = let same : cs ≡ run = e ∙ append-nil run in rw same (l, f)

one_dash : (run : List ℕ) → length run ≡ 1 → All (λ c. nat_eq b'-' c ≡ true) run → run ≡ b'-' ∷ []
one_dash [] l f = absurd (omega arith)
one_dash (c ∷ []) l f = ap (λ d. d ∷ []) (ground arith)
one_dash (c ∷ d ∷ run) l f = absurd (omega arith)

matched-Grouped :
    (ns : List ℕ) (w : Bool) (s : String)
    → match_at w (pattern_of ns) s ≡ some String.[]
    → Grouped ns (codes s)
unfolding match_at
matched-Grouped [] w s h = at_end s h
matched-Grouped (n ∷ []) w s h =
    let r = Run-match_at n is_hex [] w s String.[] h in
    whole_run n (codes s) r.run (r.splits ∙ ap (λ t. r.run ++ t) (at_end r.rest r.onward)) r.size
      r.fits
matched-Grouped (n ∷ m ∷ ns) w s h =
    let r = Run-match_at n is_hex (times 1 (nat_eq b'-') ++ pattern_of (m ∷ ns)) w s String.[] h in
    let d = Run-match_at 1 (nat_eq b'-') (pattern_of (m ∷ ns)) r.flag r.rest String.[] r.onward in
    (
      r.run,
      codes d.rest,
      r.splits
          ∙ ap (λ t. r.run ++ t)
              (d.splits ∙ ap (λ (t : List ℕ). t ++ codes d.rest) (one_dash d.run d.size d.fits)),
      r.size,
      r.fits,
      matched-Grouped (m ∷ ns) d.flag d.rest d.onward,
    )

empty_text : (s : String) → codes s ≡ [] → s ≡ String.[]
empty_text String.[] h = refl
empty_text (String.◌∷◌ c s) h = cc

match_at-Grouped :
    (ns : List ℕ) (w : Bool) (s : String)
    → Grouped ns (codes s)
    → match_at w (pattern_of ns) s ≡ some String.[]
unfolding match_at
match_at-Grouped [] w s h = ap some (empty_text s h)
match_at-Grouped (n ∷ []) w s (l, f) =
    let (rest, flag, e, m) =
      matched_run n is_hex [] w s (codes s) [] (sym (append-nil (codes s))) l f in
    m ∙ ap some (empty_text rest e)
match_at-Grouped (n ∷ m ∷ ns) w s (run, later, e, l, f, g) =
    let (rest, flag, e', k) =
      matched_run n is_hex (times 1 (nat_eq b'-') ++ pattern_of (m ∷ ns)) w s run (b'-' ∷ later) e l
        f in
    let (rest', flag', e'', k') =
      matched_run 1 (nat_eq b'-') (pattern_of (m ∷ ns)) flag rest (b'-' ∷ []) later e' refl
        (refl, tt) in
    k ∙ k' ∙ match_at-Grouped (m ∷ ns) flag' rest' (rw e'' g)

abbrev pub uuid_sizes : List ℕ
uuid_sizes = 8 ∷ 4 ∷ 4 ∷ 4 ∷ 12 ∷ []

abbrev pub IsUuid : String → Type 0
IsUuid s = Grouped uuid_sizes (codes s)

abbrev pub Checked : String → Result String → Type 0
Checked id (ok s) = (s ≡ id) × IsUuid id
Checked id (err e) = (e ≡ no_uuid) × ¬ IsUuid id

by_match :
    (id : String) (o : Option String)
    → match_at false uuid_pattern id ≡ o
    → Checked id (if ends o then ok id else err no_uuid)
by_match id none e = (refl, λ h. absurd_match (match_at-Grouped uuid_sizes false id h) e)
  where
    absurd_match :
        match_at false uuid_pattern id ≡ some String.[] → match_at false uuid_pattern id ≡ none → ⊥
    absurd_match p q = cc
by_match id (some String.[]) e = (refl, matched-Grouped uuid_sizes false id e)
by_match id (some (String.◌∷◌ c s)) e =
    (refl, λ h. absurd_match (match_at-Grouped uuid_sizes false id h) e)
  where
    absurd_match :
        match_at false uuid_pattern id ≡ some String.[]
        → match_at false uuid_pattern id ≡ some (String.◌∷◌ c s)
        → ⊥
    absurd_match p q = cc

-- The identifier of an analysis is accepted, as it is, exactly where it has five groups of 8, 4, 4, 4
-- and 12 hexadecimal digits with dashes between them; any other one gets the 422 response.
pub analysis_id_param-IsUuid :
    (r : Request) → Checked (r.path_value "analysis_id") (analysis_id_param r)
unfolding analysis_id_param match_whole
analysis_id_param-IsUuid r = by_match (r.path_value "analysis_id") _ refl

-- ===== src/Api/Router/Overlap.antt =====
-- Patterns that have a request in common.
use text.Mathlib.TextEquality.{eq_iff}
use portal_conductor.Base.{
  String, ◌==◌, ◌≡◌, refl, sym, ◌∙◌, Bool, true, false, ◌&&◌, ◌||◌, Option, none, some, List, [],
  ◌∷◌, ◌⊎◌, and_first, and_second, inl, inr, Bool-cases, if◌then◌else◌,
}
use portal_conductor.Api.Router.{
  Segment, lit, wildcard, Ending, plain, slash, subtree, Pattern, UrlPath, method_fits, ending_fits,
  path_fits, fits,
}

-- Whether two methods have a request in common. `GET` and `HEAD` are no two patterns of the table, so
-- that the methods of two patterns are either the same or apart.
methods_meet : Option String → Option String → Bool
methods_meet none n = true
methods_meet (some m) none = true
methods_meet (some m) (some n) =
    m == n || (m == "GET" && n == "HEAD") || (m == "HEAD" && n == "GET")

-- Whether a pattern's end, behind the same elements, has a path in common with another one.
unfoldable pub endings_meet : Ending → Ending → Bool
endings_meet plain plain = true
endings_meet plain slash = false
endings_meet plain subtree = false
endings_meet slash plain = false
endings_meet slash slash = true
endings_meet slash subtree = true
endings_meet subtree plain = false
endings_meet subtree slash = true
endings_meet subtree subtree = true

unfoldable pub is_subtree : Ending → Bool
is_subtree subtree = true
is_subtree _ = false

segments_meet : List Segment → Ending → List Segment → Ending → Bool
segments_meet [] e [] f = endings_meet e f
segments_meet [] e (s ∷ q) f = is_subtree e
segments_meet (s ∷ p) e [] f = is_subtree f
segments_meet (lit s ∷ p) e (lit t ∷ q) f =
    let rest = segments_meet p e q f in if s == t then rest else false
segments_meet (lit s ∷ p) e (wildcard y ∷ q) f = segments_meet p e q f
segments_meet (wildcard x ∷ p) e (lit t ∷ q) f = segments_meet p e q f
segments_meet (wildcard x ∷ p) e (wildcard y ∷ q) f = segments_meet p e q f

unfoldable pub meet : Pattern → Pattern → Bool
unfolding methods_meet segments_meet
meet p q = methods_meet p.method q.method && segments_meet p.segments p.ending q.segments q.ending

endings_meet_lem :
    (e f : Ending) (rest : List String) (b : Bool)
    → ending_fits e rest b ≡ true
    → ending_fits f rest b ≡ true
    → endings_meet e f ≡ true
unfolding ending_fits endings_meet
endings_meet_lem plain plain rest b h k = refl
endings_meet_lem plain slash [] true h k = cc
endings_meet_lem plain slash [] false h k = cc
endings_meet_lem plain slash (x ∷ rest) b h k = cc
endings_meet_lem plain subtree [] true h k = cc
endings_meet_lem plain subtree [] false h k = cc
endings_meet_lem plain subtree (x ∷ rest) b h k = cc
endings_meet_lem slash plain [] true h k = cc
endings_meet_lem slash plain [] false h k = cc
endings_meet_lem slash plain (x ∷ rest) b h k = cc
endings_meet_lem slash slash rest b h k = refl
endings_meet_lem slash subtree rest b h k = refl
endings_meet_lem subtree plain [] true h k = cc
endings_meet_lem subtree plain [] false h k = cc
endings_meet_lem subtree plain (x ∷ rest) b h k = cc
endings_meet_lem subtree slash rest b h k = refl
endings_meet_lem subtree subtree rest b h k = refl

subtree_of_rest :
    (e : Ending) (x : String) (rest : List String) (b : Bool)
    → ending_fits e (x ∷ rest) b ≡ true
    → is_subtree e ≡ true
unfolding ending_fits is_subtree
subtree_of_rest plain x rest b h = cc
subtree_of_rest slash x rest b h = cc
subtree_of_rest subtree x rest b h = refl

if_true : (b c : Bool) → (if b then c else false) ≡ true → (b ≡ true) × (c ≡ true)
if_true true c h = (refl, h)
if_true false c h = cc

same_literal : (s t e : String) → (s == e) ≡ true → (t == e) ≡ true → (s == t) ≡ true
same_literal s t e h k = (eq_iff s t).1 ((eq_iff s e).0 h ∙ sym ((eq_iff t e).0 k))

segments_meet_lem :
    (p : List Segment) (e : Ending) (q : List Segment) (f : Ending) (es : List String) (b : Bool)
    → path_fits p e es b ≡ true
    → path_fits q f es b ≡ true
    → segments_meet p e q f ≡ true
unfolding path_fits segments_meet
segments_meet_lem [] e [] f es b h k = endings_meet_lem e f es b h k
segments_meet_lem [] e (lit t ∷ q) f [] b h k = cc
segments_meet_lem [] e (wildcard y ∷ q) f [] b h k = cc
segments_meet_lem [] e (s ∷ q) f (x ∷ es) b h k = subtree_of_rest e x es b h
segments_meet_lem (lit t ∷ p) e [] f [] b h k = cc
segments_meet_lem (wildcard y ∷ p) e [] f [] b h k = cc
segments_meet_lem (s ∷ p) e [] f (x ∷ es) b h k = subtree_of_rest f x es b k
segments_meet_lem (lit s ∷ p) e (lit t ∷ q) f [] b h k = cc
segments_meet_lem (lit s ∷ p) e (lit t ∷ q) f (x ∷ es) b h k =
    let (h₁, h₂) = if_true (s == x) _ h in
    let (k₁, k₂) = if_true (t == x) _ k in
    rw (same_literal s t x h₁ k₁) (segments_meet_lem p e q f es b h₂ k₂)
segments_meet_lem (lit s ∷ p) e (wildcard y ∷ q) f [] b h k = cc
segments_meet_lem (lit s ∷ p) e (wildcard y ∷ q) f (x ∷ es) b h k =
    segments_meet_lem p e q f es b (if_true (s == x) _ h).1 k
segments_meet_lem (wildcard x ∷ p) e (lit t ∷ q) f [] b h k = cc
segments_meet_lem (wildcard z ∷ p) e (lit t ∷ q) f (x ∷ es) b h k =
    segments_meet_lem p e q f es b h (if_true (t == x) _ k).1
segments_meet_lem (wildcard x ∷ p) e (wildcard y ∷ q) f [] b h k = cc
segments_meet_lem (wildcard z ∷ p) e (wildcard y ∷ q) f (x ∷ es) b h k =
    segments_meet_lem p e q f es b h k

fits_cases :
    (p m : String)
    → (p == m || (p == "GET" && m == "HEAD")) ≡ true
    → ((p == m) ≡ true) ⊎ (((p == "GET") ≡ true) × ((m == "HEAD") ≡ true))
fits_cases p m h = elim (Bool-cases (p == m)) [
  | inl e ↦ inl e
  | inr e ↦ inr (
    and_first (p == "GET") (m == "HEAD") (rw e at h),
    and_second (p == "GET") (m == "HEAD") (rw e at h),
  )
]

either : (a b c : Bool) → (a ≡ true) ⊎ ((b ≡ true) ⊎ (c ≡ true)) → (a || b || c) ≡ true
either a b c (inl h) = rw h refl
either true b c (inr (inl h)) = refl
either false b c (inr (inl h)) = rw h refl
either true b c (inr (inr h)) = refl
either false true c (inr (inr h)) = refl
either false false c (inr (inr h)) = h

methods_meet_lem :
    (p q : Option String) (m : String)
    → method_fits p m ≡ true
    → method_fits q m ≡ true
    → methods_meet p q ≡ true
unfolding method_fits methods_meet
methods_meet_lem none q m h k = refl
methods_meet_lem (some p) none m h k = refl
methods_meet_lem (some p) (some q) m h k =
    either (p == q) (p == "GET" && q == "HEAD") (p == "HEAD" && q == "GET")
      (meeting (fits_cases p m h) (fits_cases q m k))
  where
    both : (a b : Bool) → a ≡ true → b ≡ true → (a && b) ≡ true
    both a b h k = rw (h, k) refl

    meeting :
        ((p == m) ≡ true) ⊎ (((p == "GET") ≡ true) × ((m == "HEAD") ≡ true))
        → ((q == m) ≡ true) ⊎ (((q == "GET") ≡ true) × ((m == "HEAD") ≡ true))
        → ((p == q) ≡ true)
          ⊎ (((p == "GET" && q == "HEAD") ≡ true) ⊎ ((p == "HEAD" && q == "GET") ≡ true))
    meeting (inl a) (inl b) = inl (same_literal p q m a b)
    meeting (inl a) (inr (b, c)) =
        inr (inr (both _ _ ((eq_iff p "HEAD").1 ((eq_iff p m).0 a ∙ (eq_iff m "HEAD").0 c)) b))
    meeting (inr (a, c)) (inl b) =
        inr (inl (both _ _ a ((eq_iff q "HEAD").1 ((eq_iff q m).0 b ∙ (eq_iff m "HEAD").0 c))))
    meeting (inr (a, c)) (inr (b, d)) =
        inl ((eq_iff p q).1 ((eq_iff p "GET").0 a ∙ sym ((eq_iff q "GET").0 b)))

pub meet_lem :
    (p q : Pattern) (m : String) (path : UrlPath)
    → fits p m path ≡ true
    → fits q m path ≡ true
    → meet p q ≡ true
unfolding fits meet
meet_lem p q m path h k =
    rw
      (
        methods_meet_lem p.method q.method m (and_first (method_fits p.method m) _ h)
            (and_first (method_fits q.method m) _ k),
        segments_meet_lem p.segments p.ending q.segments q.ending path.elements path.slash
            (and_second (method_fits p.method m) _ h) (and_second (method_fits q.method m) _ k),
      )
      refl

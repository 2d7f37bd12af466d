-- ===== src/Mailman/Roster/Shown.antt =====
-- What a roster page shows, apart from the code that reads it.
use Prim.{⊥, absurd}
use text.Mathlib.TextLemmas.{nil-append, cons-append}
use portal_conductor.Base.{
  String, ◌<>◌, ◌==◌, ◌≡◌, refl, sym, ap, ◌∙◌, Bool, true, false, not, ◌||◌, List, [], ◌∷◌, ◌⊎◌,
  ◌↔◌, map, keep, inl, inr, eq_iff, Bool-cases,
}
use portal_conductor.Base.Regexp.{find_all}
use portal_conductor.Base.Regexp.Words.{email_pattern}
use portal_conductor.Base.SortedSet.Laws.{Among}
use portal_conductor.Base.Text.{to_lower}
use portal_conductor.Base.Text.Search.{has_suffix}
use portal_conductor.External.Effect.{Result, ok, err}
use portal_conductor.Mailman.Roster.{emails_of, page_emails, is_boilerplate}

abbrev EndsIn : String → String → Type 0
EndsIn s end = (start : String) × (s ≡ start <> end)

has_suffix-EndsIn : (s end : String) → has_suffix s end ≡ true → EndsIn s end
unfolding has_suffix
has_suffix-EndsIn String.[] end h = (String.[], (eq_iff "" end).0 h ∙ sym (nil-append end))
has_suffix-EndsIn (String.◌∷◌ c s) end h = elim (Bool-cases ((String.◌∷◌ c s) == end)) [
  | inl e ↦ (String.[], (eq_iff (String.◌∷◌ c s) end).0 e ∙ sym (nil-append end))
  | inr e ↦
      let (start, k) = has_suffix-EndsIn s end (rw e at h) in
      (String.◌∷◌ c start, ap (String.◌∷◌ c) k ∙ sym (cons-append c start end))
]

has_suffix-whole : (s : String) → has_suffix s s ≡ true
unfolding has_suffix
has_suffix-whole String.[] = refl
has_suffix-whole (String.◌∷◌ c s) =
    ap (λ b. b || has_suffix s (String.◌∷◌ c s)) ((eq_iff (String.◌∷◌ c s) (String.◌∷◌ c s)).1 refl)

or_right : (a b : Bool) → b ≡ true → (a || b) ≡ true
or_right true b h = refl
or_right false b h = h

has_suffix-append : (start end : String) → has_suffix (start <> end) end ≡ true
unfolding has_suffix
has_suffix-append String.[] end = rw (nil-append end) (has_suffix-whole end)
has_suffix-append (String.◌∷◌ c start) end =
    rw (cons-append c start end) (or_right _ _ (has_suffix-append start end))

-- The addresses of Mailman itself.
abbrev pub IsOwn : String → Type 0
IsOwn email = EndsIn email "@mailman.org" ⊎ EndsIn email "@example.com"

or_cases : (a b : Bool) → (a || b) ≡ true → (a ≡ true) ⊎ (b ≡ true)
or_cases true b h = inl refl
or_cases false b h = inr h

is_boilerplate-IsOwn : (email : String) → is_boilerplate email ≡ true → IsOwn email
is_boilerplate-IsOwn email h = elim (or_cases _ _ h) [
  | inl e ↦ inl (has_suffix-EndsIn email "@mailman.org" e)
  | inr e ↦ inr (has_suffix-EndsIn email "@example.com" e)
]

IsOwn-is_boilerplate : (email : String) → IsOwn email → is_boilerplate email ≡ true
IsOwn-is_boilerplate email (inl (start, e)) = rw (e, has_suffix-append start "@mailman.org") refl
IsOwn-is_boilerplate email (inr (start, e)) =
    or_right (has_suffix email "@mailman.org") (has_suffix email "@example.com")
      (rw e (has_suffix-append start "@example.com"))

-- An address that stands on a list in some case, and is not one of Mailman itself.
abbrev pub Shown : List String → String → Type 0
Shown raws email = (raw : String) × Among raw raws × (email ≡ to_lower raw) × ¬ IsOwn email

more :
    (raw : String) (raws : List String) (email : String)
    → Shown raws email
    → Shown (raw ∷ raws) email
more raw raws email (r, m, e, n) = (r, inr m, e, n)

Among-Shown :
    (email : String) (raws : List String)
    → Among email (keep (λ e. not (is_boilerplate e)) (map to_lower raws))
    → Shown raws email
Among-Shown email [] m = absurd m
Among-Shown email (raw ∷ raws) m = elim (Bool-cases (is_boilerplate (to_lower raw))) [
  | inl e ↦ more raw raws email (Among-Shown email raws (rw e at m))
  | inr e ↦ elim (rw e at m) [
    | inl k ↦
        (raw, inl refl, k, λ own. clash (IsOwn-is_boilerplate email own) (ap is_boilerplate k ∙ e))
    | inr k ↦ more raw raws email (Among-Shown email raws k)
  ]
]
  where
    clash : {b : Bool} → b ≡ true → b ≡ false → ⊥
    clash p q = cc

Shown-Among :
    (email : String) (raws : List String)
    → Shown raws email
    → Among email (keep (λ e. not (is_boilerplate e)) (map to_lower raws))
Shown-Among email [] s = absurd s.1
Shown-Among email (raw ∷ raws) (r, m, k, n) = elim (Bool-cases (is_boilerplate (to_lower raw))) [
  | inl e ↦ rw e (elim m [
    | inl h ↦ absurd (n (is_boilerplate-IsOwn email (ap is_boilerplate (k ∙ ap to_lower h) ∙ e)))
    | inr h ↦ Shown-Among email raws (r, h, k, n)
  ])
  | inr e ↦ rw e (elim m [
    | inl h ↦ inl (k ∙ ap to_lower h)
    | inr h ↦ inr (Shown-Among email raws (r, h, k, n))
  ])
]

-- The address stands, in some case, on a page that has been fetched.
abbrev pub ShownOn : Result String → String → Type 0
ShownOn (ok text) email = Shown (find_all email_pattern text) email
ShownOn (err e) email = ⊥

pub Among-emails_of :
    (page : Result String) (email : String) → Among email (emails_of page) ↔ ShownOn page email
unfolding page_emails
Among-emails_of (ok text) email = (
  Among-Shown email (find_all email_pattern text),
  Shown-Among email (find_all email_pattern text),
)
Among-emails_of (err e) email = (λ m. m, λ m. m)

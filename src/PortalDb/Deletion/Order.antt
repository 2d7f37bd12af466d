-- ===== src/PortalDb/Deletion/Order.antt =====
-- The order of `deleteSteps`.
use mathlib.Core.Path.{fun_ext}
use portal_conductor.Base.{
  String, ◌==◌, ◌≡◌, refl, sym, ap, ◌∙◌, Bool, true, false, not, ◌&&◌, ◌||◌, List, [], ◌∷◌, keep,
  Bool-cases, inl, inr, or_first, or_second, and_first, and_second, not-true,
}
use portal_conductor.Base.Int.{ℤ}
use portal_conductor.PortalDb.{Delete, delete_where, delete_where_in}
use portal_conductor.PortalDb.Tables.{Row, Tables, target, matches, apply}
use portal_conductor.PortalDb.Deletion.{DeleteStep, delete_steps}

-- The steps, one after another.
abbrev pub after : List DeleteStep → ℤ → Tables → Tables
after [] id t = t
after (s ∷ ss) id t = after ss id (apply s.statement id t)

-- A row that some step matches, judged by the tables `t`.
abbrev hits : ℤ → Tables → String → Row → DeleteStep → Bool
hits id t name r s = (target s.statement == name) && matches s.statement id t r

abbrev pub owned : List DeleteStep → ℤ → Tables → String → Row → Bool
owned [] id t name r = false
owned (s ∷ ss) id t name r = hits id t name r s || owned ss id t name r

-- The statement does not read the table that the name stands for.
abbrev reads : String → Delete → Bool
reads name (delete_where table col) = false
reads name (delete_where_in table col parent parent_col) = name == parent

abbrev read_later : String → List DeleteStep → Bool
read_later name [] = false
read_later name (s ∷ ss) = reads name s.statement || read_later name ss

-- No step reads a table that an earlier one has deleted from.
abbrev is_ordered : List DeleteStep → Bool
is_ordered [] = true
is_ordered (s ∷ ss) = not (read_later (target s.statement) ss) && is_ordered ss

keep-keep :
    (p q : Row → Bool) (rs : List Row)
    → keep (λ r. not (p r)) (keep (λ r. not (q r)) rs) ≡ keep (λ r. not (q r || p r)) rs
keep-keep p q [] = refl
keep-keep p q (r ∷ rs) = elim (Bool-cases (q r)) [
  | inl e ↦ rw e (keep-keep p q rs)
  | inr e ↦ rw (e, keep-keep p q rs) refl
]

keep_all : (rs : List Row) → keep (λ r. true) rs ≡ rs
keep_all [] = refl
keep_all (r ∷ rs) = ap (λ l. r ∷ l) (keep_all rs)

-- Deleting from a table that a statement does not read changes nothing of what it matches.
matches-apply :
    (d s : Delete) (id : ℤ) (t : Tables)
    → reads (target d) s ≡ false
    → matches s id (apply d id t) ≡ matches s id t
matches-apply d (delete_where table col) id t h = refl
matches-apply d (delete_where_in table col parent parent_col) id t h = fun_ext λ r. rw h refl

owned-apply :
    (d : Delete) (ss : List DeleteStep) (id : ℤ) (t : Tables) (name : String) (r : Row)
    → read_later (target d) ss ≡ false
    → owned ss id (apply d id t) name r ≡ owned ss id t name r
owned-apply d [] id t name r h = refl
owned-apply d (s ∷ ss) id t name r h =
    ap (λ m. (target s.statement == name) && m r || owned ss id (apply d id t) name r)
      (matches-apply d s.statement id t
        (or_first (reads (target d) s.statement) (read_later (target d) ss) h))
    ∙ ap (λ o. hits id t name r s || o)
        (owned-apply d ss id t name r
          (or_second (reads (target d) s.statement) (read_later (target d) ss) h))

apply-keep :
    (d : Delete) (id : ℤ) (t : Tables) (name : String)
    → apply d id t name ≡ keep (λ r. not ((target d == name) && matches d id t r)) (t name)
apply-keep d id t name = elim (Bool-cases (target d == name)) [
  | inl e ↦ rw e refl
  | inr e ↦ rw e (sym (keep_all (t name)))
]

after_ordered :
    (ss : List DeleteStep) (id : ℤ) (t : Tables) (name : String)
    → is_ordered ss ≡ true
    → after ss id t name ≡ keep (λ r. not (owned ss id t name r)) (t name)
after_ordered [] id t name h = sym (keep_all (t name))
after_ordered (s ∷ ss) id t name h =
    after_ordered ss id (apply s.statement id t) name (and_second _ _ h)
    ∙ ap (λ p. keep (λ r. not (p r)) (apply s.statement id t name))
        (fun_ext λ r.
          owned-apply s.statement ss id t name r
            (not-true _ (and_first (not (read_later (target s.statement) ss)) _ h)))
    ∙ ap (keep (λ r. not (owned ss id t name r))) (apply-keep s.statement id t name)
    ∙ keep-keep (owned ss id t name) (λ r. hits id t name r s) (t name)

-- The sixteen steps, run one after another, take out of every table exactly the rows that a step
-- matches in the tables as they were at the start: no step loses a row because an earlier one has
-- deleted what leads to it.
pub after-delete_steps :
    (id : ℤ) (t : Tables) (name : String)
    → after delete_steps id t name ≡ keep (λ r. not (owned delete_steps id t name r)) (t name)
after-delete_steps id t name = after_ordered delete_steps id t name refl

-- ===== src/OpenDal/Scan/Order.antt =====
-- The order of the wakes that a scan gives.
use temporaless.Prelude.{
  ◌≡◌, refl, sym, subst, ℕ, ◌<◌, ◌⊎◌, inl, inr, Bool, true, false, not, List, [], ◌∷◌, Text,
  text_lt, text_eq, text_eq_sound, text_eq_sym, text_lt_asymm, ltb, ◌==◌, if◌then◌else◌,
  sort_by-IsSorted, IsSorted, arith,
}
use temporaless.Action.{Result, ok, bind-ok, lift, require, plain}
use temporaless.Key.{TimerKey}
use temporaless.Message.{Time}
use temporaless.Env.{Env}
use temporaless.Validate.Listed.{DueTimer}
use temporaless.OpenDal.Scan.{due_less, key_less, wake_time, due_timers, due_roots, scan_roots}

-- A lexicographic test is asymmetric where the tests of its parts are.
lexicographic_asymm :
    (same same' first first' rest rest' : Bool)
    → same' ≡ same
    → (first ≡ true → first' ≡ false)
    → (rest ≡ true → rest' ≡ false)
    → (if not same then first else rest) ≡ true
    → (if not same' then first' else rest') ≡ false
lexicographic_asymm same same' first first' rest rest' sym_eq hf hr h = ground arith

pub key_less_asymm : (a b : TimerKey) → key_less a b ≡ true → key_less b a ≡ false
unfolding key_less
key_less_asymm a b =
    lexicographic_asymm (text_eq a.namespace b.namespace) (text_eq b.namespace a.namespace) _ _ _ _
      (text_eq_sym b.namespace a.namespace) (text_lt_asymm a.namespace b.namespace)
      (lexicographic_asymm (text_eq a.workflow_id b.workflow_id)
        (text_eq b.workflow_id a.workflow_id) _ _ _ _ (text_eq_sym b.workflow_id a.workflow_id)
        (text_lt_asymm a.workflow_id b.workflow_id)
        (lexicographic_asymm (text_eq a.run_id b.run_id) (text_eq b.run_id a.run_id) _ _ _ _
          (text_eq_sym b.run_id a.run_id) (text_lt_asymm a.run_id b.run_id)
          (text_lt_asymm a.id b.id)))

-- The strict order of texts is total.
text_lt-or : (a b : Text) → text_eq a b ≡ false → text_lt a b ≡ false → text_lt b a ≡ true
unfolding text_eq text_lt
text_lt-or [] [] h later = cc
text_lt-or [] (y ∷ ys) h later = cc
text_lt-or (x ∷ xs) [] h later = refl
text_lt-or (x ∷ xs) (y ∷ ys) h later = ground (arith, text_lt-or xs ys)

-- A key comes before another one: the first of namespace, workflow id and run id that differs is
-- less, or they are the same and the timer id is not greater.
pub data KeyBefore (a b : TimerKey) : Type 0 where
  by_namespace : text_lt a.namespace b.namespace ≡ true → KeyBefore a b
  by_workflow :
      a.namespace ≡ b.namespace → text_lt a.workflow_id b.workflow_id ≡ true → KeyBefore a b
  by_run :
      a.namespace ≡ b.namespace
      → a.workflow_id ≡ b.workflow_id
      → text_lt a.run_id b.run_id ≡ true
      → KeyBefore a b
  by_id :
      a.namespace ≡ b.namespace
      → a.workflow_id ≡ b.workflow_id
      → a.run_id ≡ b.run_id
      → text_lt b.id a.id ≡ false
      → KeyBefore a b

same_text : (a b : Text) → text_eq b a ≡ true → a ≡ b
same_text a b h = sym (text_eq_sound b a h)

-- A lexicographic test that fails leaves the other order.
unless_less :
    (same first rest : Bool)
    → (if not same then first else rest) ≡ false
    → ((same ≡ false) × (first ≡ false)) ⊎ ((same ≡ true) × (rest ≡ false))
unless_less true first rest h = inr (refl, h)
unless_less false first rest h = inl (refl, h)

KeyBefore-key_less : (a b : TimerKey) → key_less b a ≡ false → KeyBefore a b
unfolding key_less
KeyBefore-key_less a b h = elim (unless_less (text_eq b.namespace a.namespace) _ _ h) [
  | inl (ne, later) ↦ by_namespace (text_lt-or b.namespace a.namespace ne later)
  | inr (n, h1) ↦ elim (unless_less (text_eq b.workflow_id a.workflow_id) _ _ h1) [
    | inl (ne, later) ↦
        by_workflow (same_text a.namespace b.namespace n)
          (text_lt-or b.workflow_id a.workflow_id ne later)
    | inr (w, h2) ↦ elim (unless_less (text_eq b.run_id a.run_id) _ _ h2) [
      | inl (ne, later) ↦
          by_run (same_text a.namespace b.namespace n) (same_text a.workflow_id b.workflow_id w)
            (text_lt-or b.run_id a.run_id ne later)
      | inr (r, h3) ↦
          by_id (same_text a.namespace b.namespace n) (same_text a.workflow_id b.workflow_id w)
            (same_text a.run_id b.run_id r) h3
    ]
  ]
]

ltb_asymm : (a b : ℕ) → ltb a b ≡ true → ltb b a ≡ false
ltb_asymm a b h = ground arith

==-sym : (a b : ℕ) → (a == b) ≡ (b == a)
==-sym a b = ground arith

module _ ⦃e : Env⦄ where
  open e use {World, ctx_err}

  pub due_less_asymm : (a b : DueTimer) → due_less a b ≡ true → due_less b a ≡ false
  unfolding due_less
  due_less_asymm a b =
      lexicographic_asymm (wake_time a == wake_time b) (wake_time b == wake_time a) _ _ _ _
        (==-sym (wake_time b) (wake_time a)) (ltb_asymm (wake_time a) (wake_time b))
        (key_less_asymm a.key b.key)

  -- A wake comes before another one: it is earlier, or at the same time and its key comes before.
  pub data Precedes (a b : DueTimer) : Type 0 where
    earlier : wake_time a < wake_time b → Precedes a b
    same_time : wake_time a ≡ wake_time b → KeyBefore a.key b.key → Precedes a b

  -- Every wake comes before the next one.
  abbrev pub IsInOrder : List DueTimer → Type 0
  IsInOrder [] = Unit
  IsInOrder (a ∷ []) = Unit
  IsInOrder (a ∷ b ∷ rest) = Precedes a b × IsInOrder (b ∷ rest)

  Precedes-due_less : (a b : DueTimer) → due_less b a ≡ false → Precedes a b
  unfolding due_less
  Precedes-due_less a b h = elim (unless_less (wake_time b == wake_time a) _ _ h) [
    | inl (ne, later) ↦ earlier (ground arith)
    | inr (t, h1) ↦ same_time (ground arith) (KeyBefore-key_less a.key b.key h1)
  ]

  IsSorted-IsInOrder : (due : List DueTimer) → IsSorted due_less due → IsInOrder due
  IsSorted-IsInOrder [] h = tt
  IsSorted-IsInOrder (a ∷ []) h = tt
  IsSorted-IsInOrder (a ∷ b ∷ rest) h =
      (Precedes-due_less a b h.0, IsSorted-IsInOrder (b ∷ rest) h.1)

  -- The wakes of a scan that succeeds come in the order of their times and, at one time, of the
  -- namespace, the workflow id, the run id and the timer id of their keys.
  pub due_timers-IsInOrder :
      (fuel : ℕ) (asked : Text) (now : Time) (s : World) {due : List DueTimer}
      → (due_timers fuel asked now s).0 ≡ ok due
      → IsInOrder due
  unfolding due_timers
  due_timers-IsInOrder fuel asked now s {due} h =
      let (_, (_, h1)) = bind-ok _ (ctx_err s) h in
      let (_, (_, h2)) = bind-ok _ (lift (require (not (now == 0)) plain) (ctx_err s).1) h1 in
      let (roots, (_, h3)) = bind-ok _ (due_roots asked (ctx_err s).1) h2 in
      let (found, (_, h4)) =
        bind-ok _ (scan_roots fuel now roots (due_roots asked (ctx_err s).1).1) h3 in
      IsSorted-IsInOrder due (
        subst (IsSorted due_less) (ok-injective h4)
          (sort_by-IsSorted due_less due_less_asymm found))
    where
      ok-injective :
          {xs ys : List DueTimer} → ◌≡◌ {A = Result (List DueTimer)} (ok xs) (ok ys) → xs ≡ ys
      ok-injective same = cc

-- ===== src/Runtime/FanOut.antt =====
-- core/go/workflow/fanout.go: `AllActivities`. The branches run concurrently and all of them settle;
-- their outcomes, in the order of the calls, are an argument here, `none` for a call that is nil.
use temporaless.Prelude.{
  ◌≡◌, refl, sym, ap, ◌∙◌, subst, Bool, true, false, not, ◌&&◌, ◌||◌, Option, none, some, List, [],
  ◌∷◌, map, if◌then◌else◌, Bool-cases, inl, inr, arith, All,
}
use temporaless.Action.{Error, Result, ok, err, plain, joined, and_then}
use temporaless.Runtime.Errors.{
  is_workflow_continuation_error, wraps, is_claim_release, is_activity_failed, is_conflict,
  is_pending,
}

-- `errors.Join` of the failures of two branches or more; one failure stays as it is.
unfoldable pub join_failures : Error → List Error → Error
join_failures e [] = e
join_failures e (d ∷ ds) = joined e (join_failures d ds)

module _ {P : Type 0} where
  -- The first failure, in the order of the calls, that leaves the run in progress.
  unfoldable pub first_continuation : List (Result P) → Option Error
  first_continuation [] = none
  first_continuation (ok p ∷ rest) = first_continuation rest
  first_continuation (err e ∷ rest) =
      let later = first_continuation rest in
      if is_workflow_continuation_error e then some e else later

  unfoldable pub failures_of : List (Result P) → List Error
  failures_of [] = []
  failures_of (ok p ∷ rest) = failures_of rest
  failures_of (err e ∷ rest) = e ∷ failures_of rest

  -- The results, which the code gives if there is no failure.
  unfoldable pub results_of : List (Result P) → List P
  results_of [] = []
  results_of (ok p ∷ rest) = p ∷ results_of rest
  results_of (err e ∷ rest) = results_of rest

  abbrev pub terminal : List Error → List P → Result (List P)
  terminal [] results = ok results
  terminal (e ∷ es) results = err (join_failures e es)

  abbrev pub continued : Option Error → Result (List P) → Result (List P)
  continued none rest = rest
  continued (some e) rest = err e

  -- After `group.Wait()`.
  unfoldable pub settle : List (Result P) → Result (List P)
  settle outcomes =
      continued (first_continuation outcomes)
        (terminal (failures_of outcomes) (results_of outcomes))

  unfoldable pub given_calls : List (Option (Result P)) → Result (List (Result P))
  given_calls [] = ok []
  given_calls (none ∷ rest) = err plain
  given_calls (some r ∷ rest) = let others = given_calls rest in and_then others (λ rs. ok (r ∷ rs))

  -- `AllActivities`
  unfoldable pub all_activities : List (Option (Result P)) → Result (List P)
  all_activities calls = and_then (given_calls calls) settle

  -- Some branch asks for the run to be left in progress.
  unfoldable pub any_continuation : List (Result P) → Bool
  any_continuation [] = false
  any_continuation (ok p ∷ rest) = any_continuation rest
  any_continuation (err e ∷ rest) = is_workflow_continuation_error e || any_continuation rest

-- The four tests of two errors that are joined.
both_terminal :
    (ra rb aa ab ca cb pa pb : Bool)
    → (if ra then true else not (aa || ca) && pa) ≡ false
    → (if rb then true else not (ab || cb) && pb) ≡ false
    → (if ra || rb then true else not ((aa || ab) || (ca || cb)) && (pa || pb)) ≡ false
both_terminal ra rb aa ab ca cb pa pb ha hb = ground arith

is_continuation-joined :
    (a b : Error)
    → is_workflow_continuation_error a ≡ false
    → is_workflow_continuation_error b ≡ false
    → is_workflow_continuation_error (joined a b) ≡ false
unfolding is_workflow_continuation_error
is_continuation-joined a b ha hb =
    both_terminal (wraps is_claim_release a) (wraps is_claim_release b) (wraps is_activity_failed a)
      (wraps is_activity_failed b) (wraps is_conflict a) (wraps is_conflict b) (wraps is_pending a)
      (wraps is_pending b) ha hb

abbrev Terminal : Error → Type 0
Terminal e = is_workflow_continuation_error e ≡ false

Terminal-join_failures :
    (e : Error) (es : List Error) → Terminal e → All Terminal es → Terminal (join_failures e es)
unfolding join_failures
Terminal-join_failures e [] h hs = h
Terminal-join_failures e (d ∷ ds) h hs =
    is_continuation-joined e (join_failures d ds) h (Terminal-join_failures d ds hs.0 hs.1)

or_false : (a b : Bool) → (a || b) ≡ false → (a ≡ false) × (b ≡ false)
or_false a b h = ground arith

module _ {P : Type 0} where
  Terminal-failures_of :
      (outcomes : List (Result P))
      → any_continuation outcomes ≡ false
      → All Terminal (failures_of outcomes) × (first_continuation outcomes ≡ none)
  unfolding any_continuation failures_of first_continuation
  Terminal-failures_of [] h = (tt, refl)
  Terminal-failures_of (ok p ∷ rest) h = Terminal-failures_of rest h
  Terminal-failures_of (err e ∷ rest) h =
      let (here, later) = or_false (is_workflow_continuation_error e) (any_continuation rest) h in
      let (others, last) = Terminal-failures_of rest later in ((here, others), rw (here, last))

  first_of :
      (outcomes : List (Result P))
      → any_continuation outcomes ≡ true
      → (e : Error) × (first_continuation outcomes ≡ some e)
        × (is_workflow_continuation_error e ≡ true)
  unfolding any_continuation first_continuation
  first_of [] h = cc
  first_of (ok p ∷ rest) h = first_of rest h
  first_of (err e ∷ rest) h = elim (Bool-cases (is_workflow_continuation_error e)) [
    | inl here ↦ (e, rw here, here)
    | inr other ↦ let (x, there, is) = first_of rest (rw other at h) in (x, rw (other, there), is)
  ]

  no_failures :
      (outcomes : List (Result P))
      → failures_of outcomes ≡ []
      → outcomes ≡ map ok (results_of outcomes)
  unfolding failures_of results_of
  no_failures [] h = refl
  no_failures (ok p ∷ rest) h = ap (λ xs. ok p ∷ xs) (no_failures rest h)
  no_failures (err e ∷ rest) h = cc

  terminal-ok :
      (es : List Error) (results ps : List P)
      → terminal es results ≡ ok ps
      → (es ≡ []) × (results ≡ ps)
  terminal-ok [] results ps h = (refl, cc)
  terminal-ok (e ∷ es) results ps h = cc

  terminal-err :
      (es : List Error) (results : List P) (e : Error)
      → All Terminal es
      → terminal es results ≡ err e
      → Terminal e
  terminal-err [] results e hs h = cc
  terminal-err (d ∷ ds) results e hs h =
      let same : join_failures d ds ≡ e = cc in
      subst Terminal same (Terminal-join_failures d ds hs.0 hs.1)

  -- `AllActivities` with calls of which none is nil. If it succeeds, every branch has succeeded and
  -- the results are theirs, in the order of the calls. If it fails, its error leaves the run in
  -- progress exactly if the failure of some branch does, whatever the other branches fail with.
  pub settle-continuation :
      (outcomes : List (Result P))
      → ((ps : List P) → settle outcomes ≡ ok ps → outcomes ≡ map ok ps)
        × ((e : Error)
            → settle outcomes ≡ err e
            → is_workflow_continuation_error e ≡ any_continuation outcomes)
  unfolding settle
  settle-continuation outcomes = elim (Bool-cases (any_continuation outcomes)) [
    | inl wanted ↦
        let (x, first, is) = first_of outcomes wanted in
        (
          λ ps h. let wrong : ◌≡◌ {A = Result (List P)} (err x) (ok ps) = rw first at h in cc,
          λ e h.
              let same : ◌≡◌ {A = Result (List P)} (err x) (err e) = rw first at h in
              let same' : x ≡ e = cc in
              sym (ap is_workflow_continuation_error same') ∙ is ∙ sym wanted,
        )
    | inr unwanted ↦
        let (terminals, none_first) = Terminal-failures_of outcomes unwanted in
        (
          λ ps h.
              let (empty, same) =
                terminal-ok (failures_of outcomes) (results_of outcomes) ps (rw none_first at h) in
              no_failures outcomes empty ∙ ap (map ok) same,
          λ e h.
              terminal-err (failures_of outcomes) (results_of outcomes) e terminals
                (rw none_first at h)
              ∙ sym unwanted,
        )
  ]

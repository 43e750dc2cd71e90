-- ===== src/OpenDal/View/Found.antt =====
-- `GetTimer` and the fault `NotFound`.
use temporaless.Prelude.{
  ◌≡◌, ◌≢◌, sym, ap, ◌∙◌, Bool, true, false, ◌⊎◌, inl, inr, Option, none, some, Text, if◌then◌else◌,
  is_some,
}
use temporaless.Action.{
  Error, Result, ok, err, Action, done, lift, ◌>>=◌, ◌>>◌, bind-ne-err, and_then, not_found,
  invalid_key, is_fault, require,
}
use temporaless.Key.{
  TimerKey, timer, record_path, due_entry_path, validate_key, valid_key, with_defaults,
  record_object, due_object,
}
use temporaless.Message.{TimerRecord, DueTimerEntry, timer_record, due_timer_entry}
use temporaless.Env.{Env, Lawful, Finds}
use temporaless.Validate.{check, validate_timer_record}
use temporaless.OpenDal.Point.{decode, or_corrupt, read_point, get_timer_point}
use temporaless.OpenDal.Due.{decode_due_entry, get_due_entry, prepared_record}
use temporaless.OpenDal.Timers.{shown, get_timer}
use temporaless.OpenDal.View.{timer_on, get_timer_lem}

ok-ne : {A : Type 0} {a : A} → ◌≡◌ {A = Result A} (ok a) (err not_found) → ⊥
ok-ne h = cc

check-ne : (b : Bool) → check b ≢ err not_found
check-ne true h = cc
check-ne false h = cc

or_corrupt-ne : {A : Type 0} (r : Result A) → or_corrupt r ≢ err not_found
or_corrupt-ne (ok a) h = cc
or_corrupt-ne (err x) h = cc

and_then-ne :
    {A B : Type 0} (r : Result A) (f : A → Result B)
    → r ≢ err not_found
    → ((a : A) → f a ≢ err not_found)
    → and_then r f ≢ err not_found
and_then-ne (ok a) f first rest h = rest a h
and_then-ne (err x) f first rest h = first cc

require-ne : (b : Bool) → require b invalid_key ≢ err not_found
require-ne true h = cc
require-ne false h = cc

validate_key-ne : (key : TimerKey) → validate_key timer key ≢ err not_found
unfolding validate_key
validate_key-ne key h = require-ne (valid_key timer (with_defaults key)) h

checked-ne :
    {A : Type 0} (a b : Bool) (x : A)
    → and_then (check a) (λ _. and_then (check b) (λ _. ok x)) ≢ err not_found
checked-ne true true x h = cc
checked-ne true false x h = cc
checked-ne false true x h = cc
checked-ne false false x h = cc

record_path-ne : (key : TimerKey) → record_path timer key ≢ err not_found
unfolding record_path
record_path-ne key h =
    and_then-ne (validate_key timer (with_defaults key))
      (λ _. ok (record_object timer (with_defaults key))) (validate_key-ne (with_defaults key))
      (λ _ wrong. ok-ne wrong) h

due_entry_path-ne : (key : TimerKey) → due_entry_path key ≢ err not_found
unfolding due_entry_path
due_entry_path-ne key h =
    and_then-ne (validate_key timer (with_defaults key)) (λ _. ok (due_object (with_defaults key)))
      (validate_key-ne (with_defaults key)) (λ _ wrong. ok-ne wrong) h

validate_timer_record-ne :
    (r : TimerRecord) (key : TimerKey) → validate_timer_record (some r) key ≢ err not_found
unfolding validate_timer_record
validate_timer_record-ne r key h = check-ne _ h

module _ ⦃e : Env⦄ where
  open e use {World, Data, objects, is_exist, read, ctx_err, unmarshal}

  decode_due_entry-ne :
      (key : TimerKey) (path : Text) (d : Data) → decode_due_entry key path d ≢ err not_found
  unfolding decode_due_entry
  decode_due_entry-ne key path d h =
      and_then-ne (or_corrupt (unmarshal due_timer_entry d)) _ (or_corrupt-ne _)
        (λ entry wrong. checked-ne _ _ entry wrong) h

  decode-ne :
      (key : TimerKey) (d : Data)
      → decode timer_record (λ r. validate_timer_record (some r) key) d ≢ err not_found
  unfolding decode
  decode-ne key d h = cases (or_corrupt (unmarshal timer_record d)) (or_corrupt-ne _) h
    where
      checked :
          (r : TimerRecord) (v : Result (Unit {0}))
          → v ≢ err not_found
          → (elim v [ ok _ ↦ ok r | err x ↦ err x ]) ≢ err not_found
      checked r (ok u) valid h = cc
      checked r (err x) valid h = valid cc

      cases :
          (found : Result TimerRecord)
          → found ≢ err not_found
          → (elim found as (λ _. Result TimerRecord) [
            | ok b ↦ elim (validate_timer_record (some b) key) [ ok _ ↦ ok b | err x ↦ err x ]
            | err x ↦ err x
          ])
            ≢ err not_found
      cases (ok r) decoded h =
          checked r (validate_timer_record (some r) key) (validate_timer_record-ne r key) h
      cases (err x) decoded h = decoded cc

  -- From `IsExist` to the end of a read.
  abbrev reading : {A : Type 0} → Text → (Data → Result A) → Action World (Option A)
  reading path f = do
    exists ← is_exist path
    if exists then (do ctx_err; d ← read path; a ← lift (f d); done (some a)) else done none

  module _ (laws : Lawful e) (finds : Finds e) where
    exists-stored :
        (path : Text) (s : World)
        → (is_exist path s).0 ≡ ok true
        → objects (ctx_err (is_exist path s).1).1 path ≢ none
    exists-stored path s said absent = elim (laws.is_exist_result path s) [
      | inl answer ↦
          let kept : objects s path ≡ none =
            sym (
              ap (λ o. o path)
                (laws.ctx_err_quiet (is_exist path s).1 ∙ laws.is_exist_quiet path s))
            ∙ absent in
          let there : ok true ≡ ok (is_some (objects s path)) = sym said ∙ answer in
          let wrong : ok true ≡ ok false = there ∙ ap (λ x. ok (is_some x)) kept in cc
      | inr (x, wrong, _) ↦ cc
    ]

    reading-ne :
        {A : Type 0} (path : Text) (f : Data → Result A)
        → ((d : Data) → f d ≢ err not_found)
        → (s : World) → (reading path f s).0 ≢ err not_found
    reading-ne path f decoded s h =
        bind-ne-err not_found _ (is_exist path s) (finds.is_exist_found path s) found h
      where
        found :
            (b : Bool)
            → (is_exist path s).0 ≡ ok b
            → ((if b then (do ctx_err; d ← read path; a ← lift (f d); done (some a)) else done none)
                (is_exist path s).1).0
              ≡ err not_found
            → ⊥
        found false said h = cc
        found true said h =
            let s1 = (is_exist path s).1 in
            bind-ne-err not_found _ (ctx_err s1) (finds.ctx_err_found s1)
              (λ _ _.
                bind-ne-err not_found _ (read path (ctx_err s1).1)
                  (λ wrong. exists-stored path s said (finds.read_not_found path _ wrong))
                  (λ d _. bind-ne-err not_found _ (f d, _) (decoded d) (λ _ _ wrong. ok-ne wrong)))
              h

    get_due_entry-ne : (key : TimerKey) (s : World) → (get_due_entry key s).0 ≢ err not_found
    unfolding get_due_entry
    get_due_entry-ne key s h =
        bind-ne-err not_found _ (ctx_err s) (finds.ctx_err_found s)
          (λ _ _.
            bind-ne-err not_found _ (due_entry_path key, (ctx_err s).1) (due_entry_path-ne key)
              (λ path _.
                reading-ne path (decode_due_entry key path) (decode_due_entry-ne key path)
                  (ctx_err s).1))
          h

    get_timer_point-ne : (key : TimerKey) (s : World) → (get_timer_point key s).0 ≢ err not_found
    unfolding get_timer_point read_point
    get_timer_point-ne key s h =
        bind-ne-err not_found _ (ctx_err s) (finds.ctx_err_found s)
          (λ _ _.
            bind-ne-err not_found _ (record_path timer key, (ctx_err s).1) (record_path-ne key)
              (λ path _.
                reading-ne path (decode timer_record (λ r. validate_timer_record (some r) key))
                  (decode-ne key) (ctx_err s).1))
          h

    get_timer-ne : (key : TimerKey) (s : World) → (get_timer key s).0 ≢ err not_found
    unfolding get_timer
    get_timer-ne key s h =
        bind-ne-err not_found _ (get_due_entry key s) (get_due_entry-ne key s)
          (λ entry _ wrong. shown_or_point entry (get_due_entry key s).1 wrong) h
      where
        shown_or_point :
            (entry : Option DueTimerEntry) (s : World)
            → ((elim entry as (λ _. Action World (Option TimerRecord)) [
              | some x ↦ done (shown (prepared_record x))
              | none ↦ get_timer_point key
            ])
                s).0
              ≢ err not_found
        shown_or_point none s h = get_timer_point-ne key s h
        shown_or_point (some x) s h = cc

    -- `GetTimer` changes no object. It gives the record of the ledger entry, nothing if that is
    -- canceled, the canonical point if there is no entry, nothing if there is neither, and an error
    -- where one of the two does not validate; or it gives a fault, which is never `NotFound`. Of the
    -- operator: a read gives `NotFound` only where the object is absent, and `IsExist` never does.
    pub get_timer-timer_on :
        (key : TimerKey) (s : World)
        → (objects (get_timer key s).1 ≡ objects s)
          × (((get_timer key s).0 ≡ timer_on key (objects s))
              ⊎ ((x : Error) × ((get_timer key s).0 ≡ err x)
                  × (is_fault x ≡ true)
                  × (x ≢ not_found)))
    get_timer-timer_on key s =
        let reads = get_timer_lem laws key in
        (
          reads.quiet s,
          elim (reads.result s) [
            | inl same ↦ inl same
            | inr (x, wrong, fault) ↦
                inr (x, wrong, fault, λ absent. get_timer-ne key s (wrong ∙ ap err absent))
          ],
        )

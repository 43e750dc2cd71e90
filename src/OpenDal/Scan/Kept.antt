-- ===== src/OpenDal/Scan/Kept.antt =====
-- What a scan leaves as it was: every timer, and every record that is not part of a timer.
use temporaless.Prelude.{
  ◌≡◌, ◌≢◌, refl, fun_ext, sym, ap, subst, ◌∙◌, ◌⊎◌, inl, inr, true, Bool-cases, Option, some, Text,
}
use temporaless.Action.{Result, ok, err, and_then}
use temporaless.Key.{TimerKey, timer, with_defaults, record_path, due_entry_path, key_eq}
use temporaless.OpenDal.Point.{decode}
use temporaless.Validate.{validate_timer_record}
use temporaless.Key.Distinct.{Address}
use temporaless.Key.Located.{Located}
use temporaless.Message.{timer_record}
use temporaless.Env.{Env}
use temporaless.Env.Ensures.{Objects}
use temporaless.OpenDal.Due.{decode_due_entry}
use temporaless.OpenDal.View.{timer_on, optional}
use temporaless.OpenDal.Timers.Frame.{entry_or_point-same, Owns, entry, point}
use temporaless.OpenDal.Timers.Keys.{timer_on-with_defaults, key_eq_sound}
use temporaless.OpenDal.Ledger.{key_eq_refl}

-- The object of another kind of record.
abbrev pub IsForeign : Text → Type 0
IsForeign q = ((a : Address) × Located q a) × ((key : TimerKey) → Owns key q → ⊥)

pub keys_same_or_not : (a b : TimerKey) → (a ≡ b) ⊎ (a ≢ b)
keys_same_or_not a b = elim (Bool-cases (key_eq a b)) [
  | inl same ↦ inl (key_eq_sound a b same)
  | inr differ ↦ inr (λ same.
      let t : key_eq a b ≡ true = subst (λ x. key_eq a x ≡ true) same (key_eq_refl a) in cc)
]

module _ ⦃e : Env⦄ where
  open e use {Data}

  pub record Kept (o o' : Objects e) : Type 0 where
    pub timers : (key : TimerKey) → timer_on key o' ≡ timer_on key o
    pub records : (q : Text) → IsForeign q → o' q ≡ o q

  pub Kept-refl : (o : Objects e) → Kept o o
  Kept-refl o = record { timers = λ key. refl; records = λ q h. refl }

  pub Kept-trans : {a b c : Objects e} → Kept a b → Kept b c → Kept a c
  Kept-trans h k = record {
    timers = λ key. k.timers key ∙ h.timers key;
    records = λ q f. k.records q f ∙ h.records q f;
  }

  and_then-agree :
      {A : Type 0} (o o' : Objects e) (path : Result Text) (f : Text → Option Data → Result A)
      → ((q : Text) → path ≡ ok q → o' q ≡ o q)
      → and_then path (λ q. f q (o' q)) ≡ and_then path (λ q. f q (o q))
  and_then-agree o o' (ok q) f same = ap (f q) (same q refl)
  and_then-agree o o' (err x) f same = refl

  -- Two buckets with the same objects of a timer have the same timer.
  pub timer_on-agree :
      (key : TimerKey) (o o' : Objects e)
      → ((q : Text) → Owns key q → o' q ≡ o q)
      → timer_on key o' ≡ timer_on key o
  timer_on-agree key o o' same =
      let dues =
        and_then-agree o o' (due_entry_path key) (λ q. optional (decode_due_entry key q))
          (λ q at. same q (entry at)) in
      let points =
        and_then-agree o o' (record_path timer key)
          (λ q. optional (decode timer_record (λ r. validate_timer_record (some r) key)))
          (λ q at. same q (point at)) in
      λ i. and_then (dues i) (fun_ext (entry_or_point-same key o' o points) i)

  -- A change of a timer that shows the same timer after it.
  pub Kept-of_timer :
      (key : TimerKey) {o o' : Objects e}
      → timer_on key o' ≡ timer_on key o
      → ((other : TimerKey)
          → with_defaults other ≢ with_defaults key
          → timer_on other o' ≡ timer_on other o)
      → ((q : Text) → (Owns key q → ⊥) → o' q ≡ o q)
      → Kept o o'
  Kept-of_timer key {o} {o'} same others untouched = record {
    timers = λ k. elim (keys_same_or_not (with_defaults k) (with_defaults key)) [
      | inl one ↦
          sym (timer_on-with_defaults k o')
          ∙ ap (λ z. timer_on z o') one
          ∙ timer_on-with_defaults key o'
          ∙ same
          ∙ sym (timer_on-with_defaults key o)
          ∙ ap (λ z. timer_on z o) (sym one)
          ∙ timer_on-with_defaults k o
      | inr differ ↦ others k differ
    ];
    records = λ q (_, foreign). untouched q (foreign key);
  }

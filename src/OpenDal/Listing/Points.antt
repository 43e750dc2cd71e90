-- ===== src/OpenDal/Listing/Points.antt =====
-- The loop of `ListTimers` over the canonical points of a run.
use temporaless.Prelude.{
  ◌≡◌, refl, sym, subst, ◌∙◌, inl, inr, false, some, List, [], ◌∷◌, Text, has_suffix, Bool-cases,
  ◌&&◌,
}
use temporaless.Action.{Error, Result, ok, err, lift, ◌>>=◌, and_then, and_then-ok, is_corrupt}
use temporaless.Key.{
  WorkflowKey, timer, key_from_proto, workflow_key_with_defaults, run_of, record_path, extension,
}
use temporaless.Message.{TimerRecord, timer_record}
use temporaless.Env.{Env, Lawful}
use temporaless.Env.Ensures.{
  Objects, Ensures, ensures-reads, ensures-bind, ensures-result, ensures-attempt, ensures-read_last,
  Reads, Reads-lift, Reads-bind, Reads-done,
}
use temporaless.Validate.{validate_timer_record}
use temporaless.Validate.Listed.{validate_listed, validate_listed_timer}
use temporaless.Validate.Sound.{validate_listed-located}
use temporaless.OpenDal.Point.{decode, or_corrupt}
use temporaless.OpenDal.View.{timer_point_on, optional}
use temporaless.OpenDal.Timers.Put.{timer_key}
use temporaless.OpenDal.Entry.{listed_on, listed_on-ok, Reads-read_listed_proto}
use temporaless.OpenDal.Listing.{
  read_points, read_listed_timer, note_point, Found, assign, timer_id_of, is_shadowed,
}
use temporaless.OpenDal.Listing.Timers.{AllFound, AllFound-assign, run_of-timer_key, IsTimerOf}

module _ ⦃e : Env⦄ where
  open e use {World, objects, ctx_err, unmarshal}

  module _ (laws : Lawful e) (o : Objects e) (key : WorkflowKey) where
    -- The loop over the points keeps the covered paths.
    module _ (shadows : List Text) where
      abbrev pub Timers : Found → Type 0
      Timers found =
          (found.shadow_point_paths ≡ shadows)
          × AllFound (IsTimerOf key o shadows) found.records_by_id

      -- The end of the loop over the points.
      abbrev Collects : Result Found → Objects e → Type 0
      Collects result o' = (o' ≡ o) × ((found : Found) → result ≡ ok found → Timers found)

      no_found : (x : Error) → Collects (err x) o
      no_found x = (refl, λ found wrong. cc)

      collected : (found : Found) → Timers found → Collects (ok found) o
      collected found h = (refl, λ f same. subst Timers (ok-injective same) h)
        where
          ok-injective : {a b : Found} → ◌≡◌ {A = Result Found} (ok a) (ok b) → a ≡ b
          ok-injective same = cc

      abbrev IsPoint : TimerRecord → Type 0
      IsPoint r =
          (timer_point_on (key_from_proto r.key) o ≡ ok (some r))
          × (workflow_key_with_defaults key ≡ workflow_key_with_defaults (run_of (timer_key r)))

      listed-IsPoint :
          (p : Text) (r : TimerRecord)
          → listed_on timer_record p o ≡ ok r
          → validate_listed_timer p key (some r) ≡ ok tt
          → IsPoint r
      unfolding validate_listed_timer validate_listed decode
      listed-IsPoint p r found valid =
          let own = key_from_proto {k = timer} r.key in
          let (d, there, read) = listed_on-ok timer_record p o found in
          let (_, checked, _) = and_then-ok (validate_timer_record (some r) own) _ valid in
          let (at, run) =
            validate_listed-located timer (validate_timer_record (some r) own) p key own valid in
          (
            rw (at, and_then, there, optional, read, or_corrupt, checked),
            run ∙ sym (run_of-timer_key r),
          )

      note_point-Timers :
          (p : Text) (read : Result TimerRecord) (found found' : Found)
          → ((r : TimerRecord) → read ≡ ok r → IsPoint r)
          → note_point p read found ≡ ok found'
          → Timers found
          → Timers found'
      note_point-Timers p (err x) found found' good h all =
          elim (Bool-cases (is_shadowed p found.shadow_point_paths && is_corrupt x)) [
            | inl skip ↦
                let same : found ≡ found' = (let h' = rw skip at h in cc) in subst Timers same all
            | inr wrong ↦ let h' = rw wrong at h in cc
          ]
      note_point-Timers p (ok r) found found' good h all =
          let (point_path, located, h1) =
            and_then-ok (record_path timer (key_from_proto r.key)) _ h in
          elim (Bool-cases (is_shadowed point_path found.shadow_point_paths)) [
            | inl skip ↦
                let same : found ≡ found' = (let h' = rw skip at h1 in cc) in subst Timers same all
            | inr show ↦
                let same : record found {
                  records_by_id = assign (timer_id_of r) r found.records_by_id;
                }
                    ≡ found' =
                  (let h' = rw show at h1 in cc) in
                let (point, run) = good r refl in
                subst Timers same (
                  all.0,
                  AllFound-assign (IsTimerOf key o shadows) (timer_id_of r) r found.records_by_id
                      (inr (
                        point,
                        run,
                        (
                          point_path,
                          located,
                          subst (λ z. is_shadowed point_path z ≡ false) all.0 show,
                        ),
                      ))
                      all.1,
                )
          ]

      abbrev read_listed_timer_on : Text → Objects e → Result TimerRecord
      read_listed_timer_on p o =
          and_then (listed_on timer_record p o)
            (λ r. and_then (validate_listed_timer p key (some r)) (λ _. ok r))

      Reads-read_listed_timer :
          (p : Text) → Reads (read_listed_timer key p) (read_listed_timer_on p)
      unfolding read_listed_timer
      Reads-read_listed_timer p =
          Reads-bind (Reads-read_listed_proto laws timer_record p) (λ r.
            Reads-bind (Reads-lift (validate_listed_timer p key (some r))) (λ _. Reads-done r))

      read_listed_timer_on-IsPoint :
          (p : Text) (r : TimerRecord) → read_listed_timer_on p o ≡ ok r → IsPoint r
      read_listed_timer_on-IsPoint p r h =
          let (r', found, h1) = and_then-ok (listed_on timer_record p o) _ h in
          let (_, valid, h2) = and_then-ok (validate_listed_timer p key (some r')) _ h1 in
          let same : r' ≡ r = cc in subst IsPoint same (listed-IsPoint p r' found valid)

      ensures-noted :
          (p : Text) (ps : List Text) (found : Found) (read : Result TimerRecord)
          → ((found' : Found) → Timers found' → Ensures o (read_points key ps found') Collects)
          → Timers found
          → ((r : TimerRecord) → read ≡ ok r → IsPoint r)
          → Ensures o
              (do found' ← lift (note_point p read found); read_points key ps found')
              Collects
      ensures-noted p ps found read again h good =
          ensures-reads (Reads-lift (note_point p read found)) no_found
            λ found' noted. again found' (note_point-Timers p read found found' good noted h)

      pub ensures-read_points :
          (ps : List Text) (found : Found)
          → Timers found
          → Ensures o (read_points key ps found) Collects
      unfolding read_points
      ensures-read_points [] found h = ensures-result (ok found) (collected found h)
      ensures-read_points (p ∷ ps) found h = elim (Bool-cases (has_suffix extension p)) [
        | inl record_file ↦ rw record_file (
            ensures-bind
              {k = λ read. do found' ← lift (note_point p read found); read_points key ps found'}
              (ensures-attempt (
                ensures-read_last (Reads-read_listed_timer p)
                  (ensures-noted p ps found (read_listed_timer_on p o) (ensures-read_points ps) h
                    (read_listed_timer_on-IsPoint p))
                  (λ x.
                    ensures-noted p ps found (err x) (ensures-read_points ps) h (λ r wrong. cc)))))
        | inr other ↦ rw other (ensures-read_points ps found h)
      ]

-- ===== src/Cache/Lists.antt =====
-- Every list through the cache, and the prefetch, leave it coherent.
use temporaless.Prelude.{
  ◌≡◌, refl, sym, ap, ◌∙◌, subst, Bool, true, false, Option, none, some, List, [], ◌∷◌, Text,
  text_eq_sound, if◌then◌else◌, Bool-cases, inl, inr, arith, map, All, All-map,
}
use temporaless.Action.{Result, ok, err, ◌>>=◌, ◌>>◌, proceed, done, lift, and_then-ok}
use temporaless.Key.{WorkflowKey}
use temporaless.Message.{TimerStatus}
use temporaless.Store.{
  Part, activities, timers, events, RecordOf, KeyOf, key_of, Store, validate_record,
}
use temporaless.Cache.{
  Cache, in_scope, list, list_missed, keep_list, keeps, prefetch, present, checked_fetch,
}
use temporaless.Cache.Checks.{checked_list, validate_list_entry}
use temporaless.Cache.Laws.{StoreLaws, key_in, unlisted}
use temporaless.Cache.Coherent.{Stale, Coherent, Coherent-listed}
use temporaless.Cache.Trace.{Sound}
use temporaless.Cache.Reads.{quiet_call}

pub checked_list-ok :
    (p : Part) (run : WorkflowKey) (status : TimerStatus) (rs : List (Option (RecordOf p)))
    {rs' : List (RecordOf p)}
    → checked_list p run status rs ≡ ok rs'
    → rs ≡ map some rs'
unfolding checked_list
checked_list-ok p run status [] h = cc
checked_list-ok p run status (none ∷ rs) h =
    let (_, _, wrong) = and_then-ok (validate_record p none (key_of p none)) _ h in cc
checked_list-ok p run status (some r ∷ rs) h =
    let (_, _, h1) = and_then-ok (validate_list_entry p run status r) _ h in
    let (rest, checked, h2) = and_then-ok (checked_list p run status rs) _ h1 in
    let same = checked_list-ok p run status rs checked in cc

module _ {W : Type 0} (inner : Store W) (scope : WorkflowKey) (laws : StoreLaws inner) where
  -- What the store holds of the part is what the list says.
  abbrev Complete : (p : Part) → W → List (RecordOf p) → Type 0
  Complete p w rs =
      All (λ r. laws.view w p (key_in p scope (key_of p (some r)).id) ≡ ok (some r)) rs
      × ((id : Text) → unlisted p id rs ≡ true → laws.view w p (key_in p scope id) ≡ ok none)

  complete :
      (p : Part) (status : TimerStatus) (w : W) (xs : List (Option (RecordOf p)))
      (rs : List (RecordOf p))
      → keeps p status ≡ true
      → (inner.list p scope status w).0 ≡ ok xs
      → checked_list p scope status xs ≡ ok rs
      → Complete p w rs
  complete p status w xs rs kept answered checked =
      let whole : (inner.list p scope status w).0 ≡ ok (map some rs) =
        answered ∙ ap ok (checked_list-ok p scope status xs checked) in
      (
        laws.list_listed p scope status w rs kept whole,
        λ id. laws.list_unlisted p scope status w rs id kept whole,
      )

  Coherent-complete :
      (p : Part) (w : W) (c : Cache) (stale : Stale) (rs : List (RecordOf p))
      → Complete p w rs
      → Coherent scope (laws.view w) stale c
      → Coherent scope (laws.view w) stale (keep_list inner scope p rs (w, c)).1.1
  Coherent-complete p w c stale rs (held, missing) h =
      Coherent-listed scope (laws.view w) stale p rs c held missing h

  in_scope-run : (key : WorkflowKey) → in_scope inner scope key ≡ true → key ≡ scope
  in_scope-run key h = ground (
    arith,
    text_eq_sound key.namespace scope.namespace,
    text_eq_sound key.workflow_id scope.workflow_id,
    text_eq_sound key.run_id scope.run_id,
  )

  -- A list through the store, from the result of the store on.
  through :
      (p : Part) (key : WorkflowKey) (status : TimerStatus)
      (r : Result (List (Option (RecordOf p))) × W) (c : Cache) (stale : Stale)
      → Coherent scope (laws.view r.1) stale c
      → Sound inner scope laws
          ((proceed (λ xs. lift (checked_list p key status xs)) (r.0, (r.1, c))).1, stale)
  through p key status (ok xs, w') c stale h = h
  through p key status (err x, w') c stale h = h

  kept_checked :
      (p : Part) (w' : W) (l : Result (List (RecordOf p))) (c : Cache) (stale : Stale)
      → ((rs : List (RecordOf p)) → l ≡ ok rs → Complete p w' rs)
      → Coherent scope (laws.view w') stale c
      → Sound inner scope laws
          ((proceed (λ rs. do keep_list inner scope p rs; done rs) (l, (w', c))).1, stale)
  kept_checked p w' (ok rs) c stale whole h = Coherent-complete p w' c stale rs (whole rs refl) h
  kept_checked p w' (err x) c stale whole h = h

  Complete-quiet :
      (p : Part) (w w' : W) (rs : List (RecordOf p))
      → ((q : Part) (k : KeyOf q) → laws.view w' q k ≡ laws.view w q k)
      → Complete p w rs
      → Complete p w' rs
  Complete-quiet p w w' rs quiet (held, missing) = (
    All-map (λ r h. quiet p (key_in p scope (key_of p (some r)).id) ∙ h) rs held,
    λ id h. quiet p (key_in p scope id) ∙ missing id h,
  )

  kept_through :
      (p : Part) (status : TimerStatus) (r : Result (List (Option (RecordOf p))) × W) (c : Cache)
      (stale : Stale)
      → ((xs : List (Option (RecordOf p))) (rs : List (RecordOf p))
          → r.0 ≡ ok xs
          → checked_list p scope status xs ≡ ok rs
          → Complete p r.1 rs)
      → Coherent scope (laws.view r.1) stale c
      → Sound inner scope laws (
        (proceed
            (λ rs. do keep_list inner scope p rs; done rs)
            (proceed (λ xs. lift (checked_list p scope status xs)) (r.0, (r.1, c)))).1,
        stale,
      )
  kept_through p status (ok xs, w') c stale whole h =
      kept_checked p w' (checked_list p scope status xs) c stale (λ rs. whole xs rs refl) h
  kept_through p status (err x, w') c stale whole h = h

  listed_at :
      (p : Part) (status : TimerStatus) (w : W) (xs : List (Option (RecordOf p)))
      (rs : List (RecordOf p))
      → keeps p status ≡ true
      → (inner.list p scope status w).0 ≡ ok xs
      → checked_list p scope status xs ≡ ok rs
      → Complete p (inner.list p scope status w).1 rs
  listed_at p status w xs rs kept answered checked =
      Complete-quiet p w (inner.list p scope status w).1 rs (laws.list_quiet p scope status w)
        (complete p status w xs rs kept answered checked)

  after_list :
      (p : Part) (key : WorkflowKey) (status : TimerStatus) (w : W) (c : Cache) (stale : Stale)
      → Coherent scope (laws.view w) stale c
      → Coherent scope (laws.view (inner.list p key status w).1) stale c
  after_list p key status w c stale h =
      quiet_call inner scope laws w (inner.list p key status w).1 c stale
        (laws.list_quiet p key status w) h

  missed :
      (p : Part) (status : TimerStatus) (w : W) (c : Cache) (stale : Stale)
      → Coherent scope (laws.view w) stale c
      → Sound inner scope laws ((list_missed inner scope p scope status (w, c)).1, stale)
  unfolding list_missed
  missed p status w c stale h = elim (Bool-cases (keeps p status)) [
    | inl kept ↦ rw kept (
        kept_through p status (inner.list p scope status w) c stale
          (λ xs rs. listed_at p status w xs rs kept) (after_list p scope status w c stale h))
    | inr filtered ↦ rw filtered (
        through p scope status (inner.list p scope status w) c stale
          (after_list p scope status w c stale h))
  ]

  from_table :
      (b : Bool) (p : Part) (status : TimerStatus) (w : W) (c : Cache) (stale : Stale)
      (rs : List (RecordOf p))
      → Coherent scope (laws.view w) stale c
      → Sound inner scope laws
          ((if b then (ok rs, (w, c)) else list_missed inner scope p scope status (w, c)).1, stale)
  from_table true p status w c stale rs h = h
  from_table false p status w c stale rs h = missed p status w c stale h

  pub Sound-list :
      (p : Part) (key : WorkflowKey) (status : TimerStatus) (w : W) (c : Cache) (stale : Stale)
      → Coherent scope (laws.view w) stale c
      → Sound inner scope laws ((list inner scope p key status (w, c)).1, stale)
  unfolding list
  Sound-list p key status w c stale h = elim (Bool-cases (in_scope inner scope key)) [
    | inl own ↦ rw own (
        subst
          (λ k. Sound inner scope laws (
            (if (c.tables p).listed
                then (ok (present p status (c.tables p).entries), (w, c))
                else list_missed inner scope p k status (w, c)).1,
            stale,
          ))
          (sym (in_scope-run key own))
          (from_table (c.tables p).listed p status w c stale (present p status (c.tables p).entries)
            h))
    | inr far ↦ rw far (
        through p key status (inner.list p key status w) c stale
          (after_list p key status w c stale h))
  ]

  -- The end of the prefetch, from the results of the checks on.
  merged :
      (w : W) (c : Cache) (stale : Stale) (as' : Result (List (RecordOf activities)))
      (ts : Result (List (RecordOf timers))) (es : Result (List (RecordOf events)))
      → ((rs : List (RecordOf activities)) → as' ≡ ok rs → Complete activities w rs)
      → ((rs : List (RecordOf timers)) → ts ≡ ok rs → Complete timers w rs)
      → ((rs : List (RecordOf events)) → es ≡ ok rs → Complete events w rs)
      → Coherent scope (laws.view w) stale c
      → Sound inner scope laws (
        ((do
          a ← lift as'
          t ← lift ts
          e ← lift es
          keep_list inner scope activities a
          keep_list inner scope timers t
          keep_list inner scope events e)
            (w, c)).1,
        stale,
      )
  merged w c stale (err x) ts es ha ht he h = h
  merged w c stale (ok a) (err x) es ha ht he h = h
  merged w c stale (ok a) (ok t) (err x) ha ht he h = h
  merged w c stale (ok a) (ok t) (ok e) ha ht he h =
      let c1 = (keep_list inner scope activities a (w, c)).1.1 in
      let c2 = (keep_list inner scope timers t (w, c1)).1.1 in
      Coherent-complete events w c2 stale e (he e refl) (
        Coherent-complete timers w c1 stale t (ht t refl)
          (Coherent-complete activities w c stale a (ha a refl) h))

  -- The same from the results of the calls on.
  fetched :
      (w : W) (c : Cache) (stale : Stale) (acts : Result (List (Option (RecordOf activities))))
      (tims : Result (List (Option (RecordOf timers))))
      (evts : Result (List (Option (RecordOf events))))
      → ((xs : _) (rs : List (RecordOf activities))
          → acts ≡ ok xs
          → checked_list activities scope TimerStatus.unspecified xs ≡ ok rs
          → Complete activities w rs)
      → ((xs : _) (rs : List (RecordOf timers))
          → tims ≡ ok xs
          → checked_list timers scope TimerStatus.unspecified xs ≡ ok rs
          → Complete timers w rs)
      → ((xs : _) (rs : List (RecordOf events))
          → evts ≡ ok xs
          → checked_list events scope TimerStatus.unspecified xs ≡ ok rs
          → Complete events w rs)
      → Coherent scope (laws.view w) stale c
      → Sound inner scope laws (
        ((do
          acts' ← lift acts
          tims' ← lift tims
          evts' ← lift evts
          a ← checked_fetch inner scope activities acts'
          t ← checked_fetch inner scope timers tims'
          e ← checked_fetch inner scope events evts'
          keep_list inner scope activities a
          keep_list inner scope timers t
          keep_list inner scope events e)
            (w, c)).1,
        stale,
      )
  fetched w c stale (err x) tims evts ha ht he h = h
  fetched w c stale (ok a) (err x) evts ha ht he h = h
  fetched w c stale (ok a) (ok t) (err x) ha ht he h = h
  fetched w c stale (ok a) (ok t) (ok e) ha ht he h =
      merged w c stale (checked_list activities scope TimerStatus.unspecified a)
        (checked_list timers scope TimerStatus.unspecified t)
        (checked_list events scope TimerStatus.unspecified e) (λ rs. ha a rs refl)
        (λ rs. ht t rs refl) (λ rs. he e rs refl) h

  pub Sound-prefetch :
      (w : W) (c : Cache) (stale : Stale)
      → Coherent scope (laws.view w) stale c
      → Sound inner scope laws ((prefetch inner scope (w, c)).1, stale)
  unfolding prefetch
  Sound-prefetch w c stale h =
      let every = TimerStatus.unspecified in
      let w1 = (inner.list activities scope every w).1 in
      let w2 = (inner.list timers scope every w1).1 in
      let w3 = (inner.list events scope every w2).1 in
      let quiet2 = laws.list_quiet timers scope every w1 in
      let quiet3 = laws.list_quiet events scope every w2 in
      fetched w3 c stale (inner.list activities scope every w).0
        (inner.list timers scope every w1).0 (inner.list events scope every w2).0
        (λ xs rs got checked. Complete-quiet activities w2 w3 rs quiet3 (
          Complete-quiet activities w1 w2 rs quiet2
            (listed_at activities every w xs rs refl got checked)))
        (λ xs rs got checked.
          Complete-quiet timers w2 w3 rs quiet3 (listed_at timers every w1 xs rs refl got checked))
        (λ xs rs got checked. listed_at events every w2 xs rs refl got checked)
        (after_list events scope every w2 c stale (
          after_list timers scope every w1 c stale (after_list activities scope every w c stale h)))

-- ===== src/Cache/Prefetched.antt =====
-- The reads of a run whose records were prefetched, and what a failed call does to the cache.
use temporaless.Prelude.{
  ◌≡◌, refl, ◌∙◌, Bool, true, false, Option, none, some, List, [], ◌∷◌, Text, if◌then◌else◌,
  Bool-cases, ◌⊎◌, inl, inr, lookup,
}
use temporaless.Action.{Error, Result, ok, err, ◌>>=◌, ◌>>◌, proceed, done, lift}
use temporaless.Key.{WorkflowKey, run_of}
use temporaless.Message.{TimerStatus}
use temporaless.Store.{Part, activities, timers, events, RecordOf, KeyOf, key_of, Store}
use temporaless.Cache.{
  Cache, State, in_scope, get, get_missed, put, delete, refresh, prefetch, keep, keep_list,
  keep_all, on_cache, checked_fetch,
}
use temporaless.Cache.Checks.{load, checked_list}

abbrev Listed : Cache → Type 0
Listed c = (q : Part) → (c.tables q).listed ≡ true

listed-keep :
    (p : Part) (id : Text) (v : Option (RecordOf p)) (c : Cache) (q : Part)
    → ((keep p id v c).tables q).listed ≡ (c.tables q).listed
unfolding keep
listed-keep activities id v c activities = refl
listed-keep activities id v c timers = refl
listed-keep activities id v c events = refl
listed-keep timers id v c activities = refl
listed-keep timers id v c timers = refl
listed-keep timers id v c events = refl
listed-keep events id v c activities = refl
listed-keep events id v c timers = refl
listed-keep events id v c events = refl

listed-keep_all :
    (p : Part) (rs : List (RecordOf p)) (c : Cache) (q : Part)
    → ((keep_all p rs c).tables q).listed ≡ (c.tables q).listed
unfolding keep_all
listed-keep_all p [] c q = refl
listed-keep_all p (r ∷ rs) c q =
    let id = (key_of p (some r)).id in
    listed-keep_all p rs (keep p id (some r) c) q ∙ listed-keep p id (some r) c q

module _ {W : Type 0} (inner : Store W) (scope : WorkflowKey) where
  -- A call that keeps what it found, or fails and leaves the cache as it was.
  abbrev Settled : Result (Unit {0}) × State inner scope → Cache → Type 0
  Settled x c = ((x.0 ≡ ok tt) × Listed x.1.1) ⊎ ((e : Error) × (x.0 ≡ err e) × (x.1.1 ≡ c))

  Listed-keep_lists :
      (w : W) (c : Cache) (a : List (RecordOf activities)) (t : List (RecordOf timers))
      (e : List (RecordOf events))
      → Listed
          ((do
            keep_list inner scope activities a
            keep_list inner scope timers t
            keep_list inner scope events e)
            (w, c)).1.1
  Listed-keep_lists w c a t e activities =
      let c1 = (keep_list inner scope activities a (w, c)).1.1 in
      let c2 = (keep_list inner scope timers t (w, c1)).1.1 in
      listed-keep_all events e c2 activities ∙ listed-keep_all timers t c1 activities
  Listed-keep_lists w c a t e timers =
      let c1 = (keep_list inner scope activities a (w, c)).1.1 in
      let c2 = (keep_list inner scope timers t (w, c1)).1.1 in listed-keep_all events e c2 timers
  Listed-keep_lists w c a t e events = refl

  Settled-checked_fetch :
      (w : W) (c : Cache) (acts : Result (List (RecordOf activities)))
      (tims : Result (List (RecordOf timers))) (evts : Result (List (RecordOf events)))
      → Settled
          ((do
            a ← lift acts
            t ← lift tims
            e ← lift evts
            keep_list inner scope activities a
            keep_list inner scope timers t
            keep_list inner scope events e)
            (w, c))
          c
  Settled-checked_fetch w c (err x) tims evts = inr (x, refl, refl)
  Settled-checked_fetch w c (ok a) (err x) evts = inr (x, refl, refl)
  Settled-checked_fetch w c (ok a) (ok t) (err x) = inr (x, refl, refl)
  Settled-checked_fetch w c (ok a) (ok t) (ok e) = inl (refl, Listed-keep_lists w c a t e)

  Settled-fetch_list :
      (w : W) (c : Cache) (acts : Result (List (Option (RecordOf activities))))
      (tims : Result (List (Option (RecordOf timers))))
      (evts : Result (List (Option (RecordOf events))))
      → Settled
          ((do
            acts' ← lift acts
            tims' ← lift tims
            evts' ← lift evts
            a ← checked_fetch inner scope activities acts'
            t ← checked_fetch inner scope timers tims'
            e ← checked_fetch inner scope events evts'
            keep_list inner scope activities a
            keep_list inner scope timers t
            keep_list inner scope events e)
            (w, c))
          c
  Settled-fetch_list w c (err x) tims evts = inr (x, refl, refl)
  Settled-fetch_list w c (ok a) (err x) evts = inr (x, refl, refl)
  Settled-fetch_list w c (ok a) (ok t) (err x) = inr (x, refl, refl)
  Settled-fetch_list w c (ok a) (ok t) (ok e) =
      Settled-checked_fetch w c (checked_list activities scope TimerStatus.unspecified a)
        (checked_list timers scope TimerStatus.unspecified t)
        (checked_list events scope TimerStatus.unspecified e)

  prefetch-Settled : (s : State inner scope) → Settled (prefetch inner scope s) s.1
  unfolding prefetch
  prefetch-Settled (w, c) =
      let every = TimerStatus.unspecified in
      let w1 = (inner.list activities scope every w).1 in
      let w2 = (inner.list timers scope every w1).1 in
      Settled-fetch_list (inner.list events scope every w2).1 c
        (inner.list activities scope every w).0 (inner.list timers scope every w1).0
        (inner.list events scope every w2).0

  served :
      (p : Part) (key : KeyOf p) (o : Option (Option (RecordOf p))) (listed : Bool)
      (s : State inner scope)
      → listed ≡ true
      → (v : Option (RecordOf p)) × (get_missed inner scope p key o listed s ≡ (ok v, s))
  unfolding get_missed
  served p key (some v) listed s h = (v, refl)
  served p key none true s h = (none, refl)
  served p key none false s h = cc

  -- After a prefetch that succeeds, every read of a record of the run answers, without a call of the
  -- store and without a change of the cache.
  pub get-prefetch :
      (p : Part) (key : KeyOf p) (s : State inner scope)
      → (prefetch inner scope s).0 ≡ ok tt
      → in_scope inner scope (run_of key) ≡ true
      → let s' = (prefetch inner scope s).1 in
        (v : Option (RecordOf p)) × (get inner scope p key s' ≡ (ok v, s'))
  unfolding get
  get-prefetch p key s done own = elim (prefetch-Settled s) [
    | inl (_, listed) ↦
        let s' = (prefetch inner scope s).1 in
        let t = s'.1.tables p in
        rw own (served p key (lookup key.id t.entries) t.listed s' (listed p))
    | inr (x, wrong, _) ↦ cc
  ]

  put_failed :
      (b : Bool) (p : Part) (v : Option (RecordOf p)) (id : Text) (r : Result Unit × W) (c : Cache)
      (x : Error)
      → let y =
          proceed
            (λ _. if b then on_cache inner scope (keep p id v) else done tt)
            (r.0, (r.1, c)) in
        y.0 ≡ err x → (y.1.1 ≡ c) × (r.0 ≡ err x)
  put_failed true p v id (ok a, w) c x h = cc
  put_failed false p v id (ok a, w) c x h = cc
  put_failed b p v id (err y, w) c x h = (refl, h)

  delete_failed :
      (b : Bool) (p : Part) (id : Text) (r : Result Bool × W) (c : Cache) (x : Error)
      → let y =
          proceed
            (λ a. do if b then on_cache inner scope (keep p id none) else done tt; done a)
            (r.0, (r.1, c)) in
        y.0 ≡ err x → (y.1.1 ≡ c) × (r.0 ≡ err x)
  delete_failed true p id (ok a, w) c x h = cc
  delete_failed false p id (ok a, w) c x h = cc
  delete_failed b p id (err y, w) c x h = (refl, h)

  refresh_failed :
      (p : Part) (id : Text) (r : Result (Option (RecordOf p)) × W) (c : Cache) (x : Error)
      → let y =
          proceed (λ rec. do on_cache inner scope (keep p id rec); done rec) (r.0, (r.1, c)) in
        y.0 ≡ err x → (y.1.1 ≡ c) × (r.0 ≡ err x)
  refresh_failed p id (ok a, w) c x h = cc
  refresh_failed p id (err y, w) c x h = (refl, h)

  refresh_failed_in :
      (p : Part) (key : KeyOf p) (w : W) (c : Cache) (x : Error)
      → (refresh inner scope p key (w, c)).0 ≡ err x
      → ((refresh inner scope p key (w, c)).1.1 ≡ c) × ((load inner p key w).0 ≡ err x)
  unfolding refresh
  refresh_failed_in p key w c x h = elim (Bool-cases (in_scope inner scope (run_of key))) [
    | inl own ↦ rw own (refresh_failed p key.id (load inner p key w) c x (rw own at h))
    | inr far ↦ rw far (refl, rw far at h)
  ]

  -- A put, a delete, a refresh or a prefetch that fails leaves the cache as it was. The error of the
  -- first three is that of the call of the store, or of the check of what it gave.
  pub failed-unchanged :
      (p : Part) (key : KeyOf p) (r : Option (RecordOf p)) (w : W) (c : Cache) (x : Error)
      → ((put inner scope p r (w, c)).0 ≡ err x
          → ((put inner scope p r (w, c)).1.1 ≡ c) × ((inner.put p r w).0 ≡ err x))
        × ((delete inner scope p key (w, c)).0 ≡ err x
            → ((delete inner scope p key (w, c)).1.1 ≡ c) × ((inner.delete p key w).0 ≡ err x))
        × ((refresh inner scope p key (w, c)).0 ≡ err x
            → ((refresh inner scope p key (w, c)).1.1 ≡ c) × ((load inner p key w).0 ≡ err x))
        × ((prefetch inner scope (w, c)).0 ≡ err x → (prefetch inner scope (w, c)).1.1 ≡ c)
  unfolding put delete
  failed-unchanged p key r w c x = (
    put_failed (in_scope inner scope (run_of (key_of p r))) p r (key_of p r).id (inner.put p r w) c
        x,
    delete_failed (in_scope inner scope (run_of key)) p key.id (inner.delete p key w) c x,
    refresh_failed_in p key w c x,
    λ h. elim (prefetch-Settled (w, c)) [ inl (wrong, _) ↦ cc | inr (_, _, same) ↦ same ],
  )

-- ===== src/Cache/Reads.antt =====
-- Every read through the cache leaves it coherent.
use temporaless.Prelude.{
  ◌≡◌, refl, sym, ap, ◌∙◌, subst, Bool, true, false, not, ◌&&◌, Option, none, some, Text,
  if◌then◌else◌, Bool-cases, inl, inr, arith, lookup,
}
use temporaless.Action.{Result, ok, err, Action, ◌>>=◌, ◌>>◌, done}
use temporaless.Key.{WorkflowKey, run_of}
use temporaless.Validate.{is_ok}
use temporaless.Store.{Part, RecordOf, KeyOf, Store}
use temporaless.Cache.{Cache, in_scope, refresh, get, get_missed, keep, on_store, on_cache}
use temporaless.Cache.Checks.{load}
use temporaless.Cache.Laws.{StoreLaws, key_in}
use temporaless.Cache.Says.{same_slot}
use temporaless.Cache.Coherent.{Stale, clear, Coherent, Coherent-moved, Coherent-keep}
use temporaless.Cache.Trace.{after_refresh, in_scope-key, Sound, load_view, load_quiet}

module _ {W : Type 0} (inner : Store W) (scope : WorkflowKey) (laws : StoreLaws inner) where
  -- The reading of a record that the cache then keeps.
  pub clear_other : (same old : Bool) → same ≡ false → (not same && old) ≡ false → old ≡ false
  clear_other same old other h = ground arith

  -- The reading of a record that the cache then keeps.
  kept :
      (p : Part) (key : KeyOf p) (w : W) (r : Result (Option (RecordOf p)) × W) (c : Cache)
      (stale : Stale)
      → key ≡ key_in p scope key.id
      → ((q : Part) (k : KeyOf q) → laws.view r.1 q k ≡ laws.view w q k)
      → ((v : Option (RecordOf p)) → r.0 ≡ ok v → laws.view w p key ≡ ok v)
      → Coherent scope (laws.view w) stale c
      → let x =
          (do
            rec ← on_store inner scope (λ _. r)
            on_cache inner scope (keep p key.id rec)
            done rec)
            (w, c) in
        Sound inner scope laws (x.1, after_refresh inner scope (is_ok x.0 && true) p key stale)
  kept p key w (ok v, w') c stale own quiet found h =
      Coherent-keep scope (laws.view w) (laws.view w') stale (clear p key.id stale) c p key.id v
        (λ _. ap (laws.view w' p) (sym own) ∙ quiet p key ∙ found v refl)
        (λ q j other fine.
          (clear_other (same_slot p key.id q j) (stale q j) other fine, quiet q (key_in q scope j)))
        h
  kept p key w (err x, w') c stale own quiet found h =
      Coherent-moved scope (laws.view w) (laws.view w') stale stale c
        (λ q j fine. (fine, quiet q (key_in q scope j))) h

  -- A call of the store that changes no record of it.
  pub quiet_call :
      (w w' : W) (c : Cache) (stale : Stale)
      → ((q : Part) (k : KeyOf q) → laws.view w' q k ≡ laws.view w q k)
      → Coherent scope (laws.view w) stale c
      → Coherent scope (laws.view w') stale c
  quiet_call w w' c stale quiet h =
      Coherent-moved scope (laws.view w) (laws.view w') stale stale c
        (λ q j fine. (fine, quiet q (key_in q scope j))) h

  not_refreshed :
      (a : Bool) (p : Part) (key : KeyOf p) (stale : Stale)
      → after_refresh inner scope (a && false) p key stale ≡ stale
  not_refreshed true p key stale = refl
  not_refreshed false p key stale = refl

  refreshed :
      (b : Bool) (p : Part) (key : KeyOf p) (w : W) (m : Action W (Option (RecordOf p))) (c : Cache)
      (stale : Stale)
      → (b ≡ true → key ≡ key_in p scope key.id)
      → ((q : Part) (k : KeyOf q) → laws.view (m w).1 q k ≡ laws.view w q k)
      → ((v : Option (RecordOf p)) → (m w).0 ≡ ok v → laws.view w p key ≡ ok v)
      → Coherent scope (laws.view w) stale c
      → let x =
          (if b
              then (do
                rec ← on_store inner scope m
                on_cache inner scope (keep p key.id rec)
                done rec)
              else on_store inner scope m)
            (w, c) in
        Sound inner scope laws (x.1, after_refresh inner scope (is_ok x.0 && b) p key stale)
  refreshed true p key w m c stale own quiet found h =
      kept p key w (m w) c stale (own refl) quiet found h
  refreshed false p key w m c stale own quiet found h =
      subst (λ z. Coherent scope (laws.view (m w).1) z c)
        (sym (not_refreshed (is_ok (m w).0) p key stale)) (quiet_call w (m w).1 c stale quiet h)

  pub Sound-refresh :
      (p : Part) (key : KeyOf p) (w : W) (c : Cache) (stale : Stale)
      → Coherent scope (laws.view w) stale c
      → let x = refresh inner scope p key (w, c) in
        Sound inner scope laws (
          x.1,
          after_refresh inner scope (is_ok x.0 && in_scope inner scope (run_of key)) p key stale,
        )
  unfolding refresh
  Sound-refresh p key w c stale =
      refreshed (in_scope inner scope (run_of key)) p key w (load inner p key) c stale
        (in_scope-key inner scope p key) (load_quiet inner scope laws p key w)
        (λ v. load_view inner scope laws p key w)

  -- Less is stale after a refresh than before.
  clear_less :
      (b : Bool) (p : Part) (key : KeyOf p) (stale : Stale) (q : Part) (j : Text)
      → stale q j ≡ false
      → after_refresh inner scope b p key stale q j ≡ false
  clear_less true p key stale q j h = ground arith
  clear_less false p key stale q j h = h

  -- Nothing is stale that was not.
  Coherent-less :
      (w : W) (c : Cache) (stale stale' : Stale)
      → ((q : Part) (j : Text) → stale q j ≡ false → stale' q j ≡ false)
      → Coherent scope (laws.view w) stale' c
      → Coherent scope (laws.view w) stale c
  Coherent-less w c stale stale' less h =
      Coherent-moved scope (laws.view w) (laws.view w) stale' stale c
        (λ q j fine. (less q j fine, refl)) h

  got :
      (p : Part) (o : Option (Option (RecordOf p))) (listed : Bool) (key : KeyOf p) (w : W)
      (c : Cache) (stale : Stale)
      → Coherent scope (laws.view w) stale c
      → Sound inner scope laws ((get_missed inner scope p key o listed (w, c)).1, stale)
  unfolding get_missed
  got p (some v) listed key w c stale h = h
  got p none true key w c stale h = h
  got p none false key w c stale h =
      let x = refresh inner scope p key (w, c) in
      Coherent-less x.1.0 x.1.1 stale _
        (clear_less (is_ok x.0 && in_scope inner scope (run_of key)) p key stale)
        (Sound-refresh p key w c stale h)

  pub Sound-get :
      (p : Part) (key : KeyOf p) (w : W) (c : Cache) (stale : Stale)
      → Coherent scope (laws.view w) stale c
      → Sound inner scope laws ((get inner scope p key (w, c)).1, stale)
  unfolding get
  Sound-get p key w c stale h = elim (Bool-cases (in_scope inner scope (run_of key))) [
    | inl own ↦
        rw own (got p (lookup key.id (c.tables p).entries) (c.tables p).listed key w c stale h)
    | inr far ↦
        rw far (quiet_call w (load inner p key w).1 c stale (load_quiet inner scope laws p key w) h)
  ]

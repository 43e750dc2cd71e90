-- ===== src/Cache/Coherent.antt =====
-- What the cache says of a record of its run is what the store holds, except for the records that
-- are stale: those that were written without the cache knowing the outcome.
use temporaless.Prelude.{
  ◌≡◌, refl, sym, ap, ◌∙◌, Bool, true, false, not, ◌&&◌, ◌||◌, Option, none, some, List, [], ◌∷◌,
  Text, inl, inr, Bool-cases, All,
}
use temporaless.Action.{ok}
use temporaless.Key.{WorkflowKey}
use temporaless.Store.{Part, activities, timers, events, RecordOf, key_of}
use temporaless.Cache.{Cache, keep, keep_all, mark_listed}
use temporaless.Cache.Laws.{View, same_part, key_in, unlisted}
use temporaless.Cache.Says.{
  says, same_slot, same_slot-elim, says-keep, says-keep_other, says-mark_listed,
  says-mark_listed_other, unlisted-keep_all,
}

-- Which records of the run are stale.
abbrev pub Stale : Type 0
Stale = Part → Text → Bool

abbrev pub fresh : Stale
fresh p id = false

-- The record is stale, the record is not stale, the others as before.
abbrev pub mark : Part → Text → Stale → Stale
mark p id stale q j = same_slot p id q j || stale q j

abbrev pub clear : Part → Text → Stale → Stale
clear p id stale q j = not (same_slot p id q j) && stale q j

module _ (run : WorkflowKey) where
  unfoldable pub Coherent : View → Stale → Cache → Type 0
  Coherent view stale c =
      (q : Part) (j : Text) (v : Option (RecordOf q))
      → says (c.tables q) j ≡ some v
      → stale q j ≡ false
      → view q (key_in q run j) ≡ ok v

  -- A change of the store, of the stale records, or of both.
  pub Coherent-moved :
      (view view' : View) (stale stale' : Stale) (c : Cache)
      → ((q : Part) (j : Text)
          → stale' q j ≡ false
          → (stale q j ≡ false) × (view' q (key_in q run j) ≡ view q (key_in q run j)))
      → Coherent view stale c
      → Coherent view' stale' c
  unfolding Coherent
  Coherent-moved view view' stale stale' c move h q j v said fine =
      let (fine', same) = move q j fine in same ∙ h q j v said fine'

  pub Coherent-keep :
      (view view' : View) (stale stale' : Stale) (c : Cache) (p : Part) (id : Text)
      (v : Option (RecordOf p))
      → (stale' p id ≡ false → view' p (key_in p run id) ≡ ok v)
      → ((q : Part) (j : Text)
          → same_slot p id q j ≡ false
          → stale' q j ≡ false
          → (stale q j ≡ false) × (view' q (key_in q run j) ≡ view q (key_in q run j)))
      → Coherent view stale c
      → Coherent view' stale' (keep p id v c)
  unfolding Coherent
  Coherent-keep view view' stale stale' c p id v new move h q j =
      elim (Bool-cases (same_slot p id q j)) [
        | inl same ↦
            same_slot-elim
              (λ q j.
                (x : Option (RecordOf q))
                → says ((keep p id v c).tables q) j ≡ some x
                → stale' q j ≡ false
                → view' q (key_in q run j) ≡ ok x)
              p q id j same
              (λ x said fine.
                let same : v ≡ x = cc (sym (says-keep p id v c) ∙ said) in new fine ∙ ap ok same)
        | inr other ↦ λ x said fine.
            let (fine', same) = move q j other fine in
            same ∙ h q j x (sym (says-keep_other p id v c q j other) ∙ said) fine'
      ]

  -- Keeping a list of records that the store holds.
  pub Coherent-keep_all :
      (view : View) (stale : Stale) (p : Part) (rs : List (RecordOf p)) (c : Cache)
      → All (λ r. view p (key_in p run (key_of p (some r)).id) ≡ ok (some r)) rs
      → Coherent view stale c
      → Coherent view stale (keep_all p rs c)
  unfolding keep_all
  Coherent-keep_all view stale p [] c held h = h
  Coherent-keep_all view stale p (r ∷ rs) c held h =
      let id = (key_of p (some r)).id in
      Coherent-keep_all view stale p rs (keep p id (some r) c) held.1 (
        Coherent-keep view view stale stale c p id (some r) (λ _. held.0)
          (λ q j _ fine. (fine, refl)) h)

  part-elim {κ} : (C : Part → Type κ) (p q : Part) → same_part p q ≡ true → C p → C q
  part-elim C activities activities h c = c
  part-elim C timers timers h c = c
  part-elim C events events h c = c
  part-elim C activities timers h c = cc
  part-elim C activities events h c = cc
  part-elim C timers activities h c = cc
  part-elim C timers events h c = cc
  part-elim C events activities h c = cc
  part-elim C events timers h c = cc

  -- Keeping a whole list: what is not on it is missing in the store.
  pub Coherent-listed :
      (view : View) (stale : Stale) (p : Part) (rs : List (RecordOf p)) (c : Cache)
      → All (λ r. view p (key_in p run (key_of p (some r)).id) ≡ ok (some r)) rs
      → ((id : Text) → unlisted p id rs ≡ true → view p (key_in p run id) ≡ ok none)
      → Coherent view stale c
      → Coherent view stale (mark_listed p (keep_all p rs c))
  unfolding Coherent
  Coherent-listed view stale p rs c held missing h =
      let kept : Coherent view stale (keep_all p rs c) =
        Coherent-keep_all view stale p rs c held h in
      λ q j. elim (Bool-cases (same_part p q)) [
        | inl same ↦
            part-elim
              (λ q.
                (v : Option (RecordOf q))
                → says ((mark_listed p (keep_all p rs c)).tables q) j ≡ some v
                → stale q j ≡ false
                → view q (key_in q run j) ≡ ok v)
              p q same
              (λ v said fine. elim (says-mark_listed p j (keep_all p rs c) said) [
                | inl before ↦ kept p j v before fine
                | inr (absent, gone) ↦
                    missing j (unlisted-keep_all p j rs c absent).0 ∙ ap ok (sym gone)
              ])
        | inr other ↦ λ v said fine.
            kept q j v (sym (says-mark_listed_other p q j (keep_all p rs c) other) ∙ said) fine
      ]

-- ===== src/Cache/Says.antt =====
-- What a table of the cache says of an id, and how the changes of the cache move it.
use temporaless.Prelude.{
  ◌≡◌, refl, sym, ◌∙◌, subst, Bool, true, false, ◌&&◌, Option, none, some, List, [], ◌∷◌, Text,
  text_eq, text_eq_sound, text_eq_refl, if◌then◌else◌, lookup, insert, lookup-insert, ◌⊎◌, inl, inr,
  Bool-cases,
}
use temporaless.Store.{Part, activities, timers, events, RecordOf, key_of}
use temporaless.Cache.{Table, Cache, keep, keep_all, mark_listed}
use temporaless.Cache.Laws.{same_part, unlisted}

module _ {R : Type 0} where
  abbrev pub answer : Option (Option R) → Bool → Option (Option R)
  answer (some v) listed = some v
  answer none true = some none
  answer none false = none

  -- `some` record or `some none`, no record, without a call of the store; `none`, a miss.
  abbrev pub says : Table R → Text → Option (Option R)
  says t id = answer (lookup id t.entries) t.listed

-- Two ids are of one record of the run.
abbrev pub same_slot : Part → Text → Part → Text → Bool
same_slot p id q j = same_part p q && text_eq id j

pub same_slot_refl : (p : Part) (id : Text) → same_slot p id p id ≡ true
same_slot_refl activities id = text_eq_refl id
same_slot_refl timers id = text_eq_refl id
same_slot_refl events id = text_eq_refl id

pub same_slot-elim {κ} :
    (C : (q : Part) → Text → Type κ) (p q : Part) (id j : Text)
    → same_slot p id q j ≡ true
    → C p id
    → C q j
same_slot-elim C activities activities id j h c = subst (C activities) (text_eq_sound id j h) c
same_slot-elim C timers timers id j h c = subst (C timers) (text_eq_sound id j h) c
same_slot-elim C events events id j h c = subst (C events) (text_eq_sound id j h) c
same_slot-elim C activities timers id j h c = cc
same_slot-elim C activities events id j h c = cc
same_slot-elim C timers activities id j h c = cc
same_slot-elim C timers events id j h c = cc
same_slot-elim C events activities id j h c = cc
same_slot-elim C events timers id j h c = cc

answer-insert :
    {R : Type 0} (id j : Text) (v : Option R) (m : List (Text × Option R)) (listed : Bool)
    → answer (lookup j (insert id v m)) listed
      ≡ (if text_eq id j then some v else answer (lookup j m) listed)
answer-insert id j v m listed = elim (Bool-cases (text_eq id j)) [
  | inl h ↦ rw (lookup-insert id j v m, h)
  | inr h ↦ rw (lookup-insert id j v m, h)
]

pub says-keep :
    (p : Part) (id : Text) (v : Option (RecordOf p)) (c : Cache)
    → says ((keep p id v c).tables p) id ≡ some v
unfolding keep
says-keep activities id v c = rw (answer-insert, text_eq_refl id)
says-keep timers id v c = rw (answer-insert, text_eq_refl id)
says-keep events id v c = rw (answer-insert, text_eq_refl id)

pub says-keep_other :
    (p : Part) (id : Text) (v : Option (RecordOf p)) (c : Cache) (q : Part) (j : Text)
    → same_slot p id q j ≡ false
    → says ((keep p id v c).tables q) j ≡ says (c.tables q) j
unfolding keep
says-keep_other activities id v c activities j h = rw (answer-insert, h)
says-keep_other timers id v c timers j h = rw (answer-insert, h)
says-keep_other events id v c events j h = rw (answer-insert, h)
says-keep_other activities id v c timers j h = refl
says-keep_other activities id v c events j h = refl
says-keep_other timers id v c activities j h = refl
says-keep_other timers id v c events j h = refl
says-keep_other events id v c activities j h = refl
says-keep_other events id v c timers j h = refl

pub says-mark_listed_other :
    (p q : Part) (j : Text) (c : Cache)
    → same_part p q ≡ false
    → says ((mark_listed p c).tables q) j ≡ says (c.tables q) j
says-mark_listed_other activities activities j c h = cc
says-mark_listed_other timers timers j c h = cc
says-mark_listed_other events events j c h = cc
says-mark_listed_other activities timers j c h = refl
says-mark_listed_other activities events j c h = refl
says-mark_listed_other timers activities j c h = refl
says-mark_listed_other timers events j c h = refl
says-mark_listed_other events activities j c h = refl
says-mark_listed_other events timers j c h = refl

listed_answer :
    {R : Type 0} (o : Option (Option R)) (listed : Bool) {v : Option R}
    → answer o true ≡ some v
    → (answer o listed ≡ some v) ⊎ ((o ≡ none) × (v ≡ none))
listed_answer (some x) listed h = inl h
listed_answer none listed h = inr (refl, cc)

-- The flag adds what is not in the table, as missing.
pub says-mark_listed :
    (p : Part) (j : Text) (c : Cache) {v : Option (RecordOf p)}
    → says ((mark_listed p c).tables p) j ≡ some v
    → (says (c.tables p) j ≡ some v) ⊎ ((lookup j (c.tables p).entries ≡ none) × (v ≡ none))
says-mark_listed activities j c h =
    listed_answer (lookup j (c.tables activities).entries) (c.tables activities).listed h
says-mark_listed timers j c h =
    listed_answer (lookup j (c.tables timers).entries) (c.tables timers).listed h
says-mark_listed events j c h =
    listed_answer (lookup j (c.tables events).entries) (c.tables events).listed h

insert_kept :
    {R : Type 0} (k j : Text) (v : Option R) (m : List (Text × Option R))
    → lookup j (insert k v m) ≡ none
    → (text_eq k j ≡ false) × (lookup j m ≡ none)
insert_kept k j v m h = elim (Bool-cases (text_eq k j)) [
  | inl at ↦ let wrong : some v ≡ none = sym (rw (lookup-insert k j v m, at)) ∙ h in cc
  | inr off ↦ (off, sym (rw (lookup-insert k j v m, off)) ∙ h)
]

entries_keep :
    (p : Part) (id : Text) (v : Option (RecordOf p)) (c : Cache)
    → ((keep p id v c).tables p).entries ≡ insert id v (c.tables p).entries
unfolding keep
entries_keep activities id v c = refl
entries_keep timers id v c = refl
entries_keep events id v c = refl

-- What is not in the table after a list is kept is not on the list.
pub unlisted-keep_all :
    (p : Part) (j : Text) (rs : List (RecordOf p)) (c : Cache)
    → lookup j ((keep_all p rs c).tables p).entries ≡ none
    → (unlisted p j rs ≡ true) × (lookup j (c.tables p).entries ≡ none)
unfolding keep_all unlisted
unlisted-keep_all p j [] c h = (refl, h)
unlisted-keep_all p j (r ∷ rs) c h =
    let id = (key_of p (some r)).id in
    let (rest, before) = unlisted-keep_all p j rs (keep p id (some r) c) h in
    let (off, absent) =
      insert_kept id j (some r) (c.tables p).entries
        (subst (λ m. lookup j m ≡ none) (entries_keep p id (some r) c) before) in
    (rw (off, rest), absent)

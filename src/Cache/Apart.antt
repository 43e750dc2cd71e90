-- ===== src/Cache/Apart.antt =====
-- Records of the store that a write of a record leaves alone: those of other parts, other ids and
-- other runs.
use temporaless.Prelude.{◌≡◌, refl, Bool, true, false, not, ◌&&◌, Text, text_eq, text_eq_sym, arith}
use temporaless.Key.{
  WorkflowKey, Kind, RecordKey, run_of, or_default, same_workflow_run, workflow_key_eq, key_eq,
  with_defaults,
}
use temporaless.Store.{Part, activities, timers, events, KeyOf}
use temporaless.Cache.Laws.{other_record, key_in}
use temporaless.Cache.Says.{same_slot}

differ_last : (a b c d : Bool) → d ≡ false → not (a && b && c && d) ≡ true
differ_last a b c d h = ground arith

differ_first : (a b c d : Bool) → (a && b && c) ≡ false → not (a && b && c && d) ≡ true
differ_first a b c d h = ground arith

pub key_other_id :
    {k : Kind} (a b : RecordKey k)
    → text_eq a.id b.id ≡ false
    → not (key_eq (with_defaults a) (with_defaults b)) ≡ true
unfolding key_eq
key_other_id a b h =
    differ_last (text_eq (or_default a.namespace) (or_default b.namespace))
      (text_eq a.workflow_id b.workflow_id) (text_eq a.run_id b.run_id) (text_eq a.id b.id) h

key_other_run :
    {k : Kind} (a b : RecordKey k)
    → same_workflow_run (run_of b) (run_of a) ≡ false
    → not (key_eq (with_defaults a) (with_defaults b)) ≡ true
unfolding key_eq same_workflow_run workflow_key_eq
key_other_run a b h =
    differ_first (text_eq (or_default a.namespace) (or_default b.namespace))
      (text_eq a.workflow_id b.workflow_id) (text_eq a.run_id b.run_id) (text_eq a.id b.id)
      (rw (
        text_eq_sym (or_default a.namespace) (or_default b.namespace),
        text_eq_sym a.workflow_id b.workflow_id,
        text_eq_sym a.run_id b.run_id,
        h,
      ))

module _ (scope : WorkflowKey) where
  pub other_id :
      (p : Part) (key : KeyOf p) (q : Part) (j : Text)
      → same_slot p key.id q j ≡ false
      → other_record p key q (key_in q scope j) ≡ true
  other_id activities key activities j h = key_other_id key _ h
  other_id timers key timers j h = key_other_id key _ h
  other_id events key events j h = key_other_id key _ h
  other_id activities key timers j h = refl
  other_id activities key events j h = refl
  other_id timers key activities j h = refl
  other_id timers key events j h = refl
  other_id events key activities j h = refl
  other_id events key timers j h = refl

  pub other_run :
      (p : Part) (key : KeyOf p) (q : Part) (j : Text)
      → same_workflow_run scope (run_of key) ≡ false
      → other_record p key q (key_in q scope j) ≡ true
  other_run activities key activities j h = key_other_run key (key_in activities scope j) h
  other_run timers key timers j h = key_other_run key (key_in timers scope j) h
  other_run events key events j h = key_other_run key (key_in events scope j) h
  other_run activities key timers j h = refl
  other_run activities key events j h = refl
  other_run timers key activities j h = refl
  other_run timers key events j h = refl
  other_run events key activities j h = refl
  other_run events key timers j h = refl

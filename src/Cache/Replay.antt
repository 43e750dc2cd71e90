-- ===== src/Cache/Replay.antt =====
-- What a run reads through its cache.
use temporaless.Prelude.{lookup}
use temporaless.Action.{◌>>◌}
use temporaless.Key.{WorkflowKey}
use temporaless.Store.{key_of, Store}
use temporaless.Cache.{Cache}
use temporaless.Cache.Laws.{StoreLaws}
use temporaless.Cache.Coherent.{Coherent}
use temporaless.Cache.Trace.{
  Call, Snapshot, Sound, reads, refreshes, deletes, puts, lists, prefetches, others_put,
  others_delete, step, start,
}
use temporaless.Cache.Reads.{Sound-get, Sound-refresh}
use temporaless.Cache.Writes.{Sound-put, Sound-delete, outcome_unknown}
use temporaless.Cache.Lists.{Sound-list, Sound-prefetch}

module _ {W : Type 0} (inner : Store W) (scope : WorkflowKey) (laws : StoreLaws inner) where
  -- Every call keeps the cache sound: what it says of a record that is not stale is what the store
  -- holds.
  pub step-Sound :
      (call : Call) (x : Snapshot inner scope)
      → Sound inner scope laws x
      → Sound inner scope laws (step inner scope call x)
  unfolding step
  step-Sound (reads p key) ((w, c), stale) h = Sound-get inner scope laws p key w c stale h
  step-Sound (refreshes p key) ((w, c), stale) h = Sound-refresh inner scope laws p key w c stale h
  step-Sound (puts p r) ((w, c), stale) h = Sound-put inner scope laws p r w c stale h
  step-Sound (deletes p key) ((w, c), stale) h = Sound-delete inner scope laws p key w c stale h
  step-Sound (lists p key status) ((w, c), stale) h =
      Sound-list inner scope laws p key status w c stale h
  step-Sound prefetches ((w, c), stale) h = Sound-prefetch inner scope laws w c stale h
  step-Sound (others_put p r) ((w, c), stale) h =
      outcome_unknown inner scope laws p (key_of p r) w (inner.put p r w).1 c stale
        (laws.put_others p r w) h
  step-Sound (others_delete p key) ((w, c), stale) h =
      outcome_unknown inner scope laws p key w (inner.delete p key w).1 c stale
        (laws.delete_others p key w) h

  pub start-Sound : (w : W) → Sound inner scope laws (start inner scope w)
  unfolding Coherent lookup
  start-Sound w q j v said fine = cc

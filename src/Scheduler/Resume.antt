-- ===== src/Scheduler/Resume.antt =====
-- `resume` of `scheduler_ordered` on a valid list.
use mathlib.Core.Path.{ap₂}
use mathlib.Core.List.{append_assoc, map-append}
use baremetal_cxx_coro.Common.{
  ℕ, zero, suc, ◌+◌, ◌%◌, ◌^◌, ◌<◌, ◌≡◌, refl, sym, ◌∙◌, ap, subst, Bool, true, false, Option, none,
  some, List, [], ◌∷◌, ◌++◌, arith, length, length-append, All,
}
use baremetal_cxx_coro.StaticList.{Ptr, null, StaticList, begin}
use baremetal_cxx_coro.StaticList.Chain.{Cells, head_or}
use baremetal_cxx_coro.StaticList.Validity.{IsValid, Holds}
use baremetal_cxx_coro.StaticList.Erase.{erase-IsValid}
use baremetal_cxx_coro.StaticList.Iterate.{dereference-value, increment-next, not_end}
use baremetal_cxx_coro.Scheduler.{
  Entry, Handle, UpdateTrace, entry_ready, keep_priority, keep_trace, take_ready, resume_scan,
  resume, after_run, trace_start, flag,
}
use baremetal_cxx_coro.StaticList.Values.{values, values-Split}

-- The entry is not due, or is due, at the condition `ready`.
abbrev pub Waits : {W : Type 0} → (W → W → Bool) → W → Entry W → Type 0
Waits ready_to_wake ready e = ready_to_wake e.wake_condition ready ≡ false

abbrev pub Due : {W : Type 0} → (W → W → Bool) → W → Entry W → Type 0
Due ready_to_wake ready e = ready_to_wake e.wake_condition ready ≡ true

module _ {W : Type 0} (ready_to_wake : W → W → Bool) where
  -- What `priority_condition` is after a run over entries that are not due.
  unfoldable pub priority_after : Option W → List (Entry W) → Option W
  priority_after p [] = p
  priority_after p (e ∷ es) = priority_after (keep_priority ready_to_wake p e) es

  abbrev pub nonempty : List (Entry W) → Bool → Bool
  nonempty [] b = b
  nonempty (e ∷ es) b = true

  nonempty-true : (es : List (Entry W)) → nonempty es true ≡ true
  nonempty-true [] = refl
  nonempty-true (e ∷ es) = refl

  entry_ready_lem :
      (e : Entry W) (ready : W)
      → entry_ready ready_to_wake e ready ≡ ready_to_wake e.wake_condition ready
  unfolding entry_ready
  entry_ready_lem e ready = refl

  -- No entry is due: the scan ends at the end of the list and changes nothing.
  scan-idle :
      (fuel n : ℕ) (ready : W) (l : StaticList (Entry W)) (pre post fs : Cells (Entry W)) (b : Bool)
      (p : Option W) (j : ℕ) (t : UpdateTrace)
      → IsValid n l (pre ++ post) fs
      → length post < fuel
      → All (Waits ready_to_wake ready) (values post)
      → (t' : UpdateTrace) × (resume_scan ready_to_wake fuel ready (head_or post null) b p j t l
          ≡ some (
            (
              record {
                pending = nonempty (values post) b;
                next_wake = priority_after p (values post);
                trace = t';
              },
              none,
            ),
            l,
          ))
  unfolding resume_scan priority_after
  scan-idle zero n ready l pre post fs b p j t valid lt ws = absurd (omega arith)
  scan-idle (suc fuel) n ready l pre [] fs b p j t valid lt ws = (_, refl)
  scan-idle (suc fuel) n ready l pre ((a, e) ∷ post) fs b p j t valid lt ws =
      let next =
        scan-idle fuel n ready l (pre ++ (a, e) ∷ []) post fs true (keep_priority ready_to_wake p e)
          ((j + 1) % 2 ^ 16) (keep_trace ready_to_wake p e j t)
          (rw (append_assoc pre ((a, e) ∷ []) post) valid) (omega arith) ws.1 in
      (
        next.0,
        rw
            (
              not_end n l pre post fs a e valid,
              dereference-value n l pre post fs a e valid,
              entry_ready_lem e ready ∙ ws.0,
              increment-next n l pre post fs a e valid,
            )
            (rw nonempty-true at next.1),
      )

  -- The first entry that is due is taken off the list.
  scan-take :
      (fuel n : ℕ) (ready : W) (l : StaticList (Entry W)) (pre mid rest fs : Cells (Entry W))
      (i : Ptr) (x : Entry W) (b : Bool) (p : Option W) (j : ℕ) (t : UpdateTrace)
      → IsValid n l (pre ++ (mid ++ (i, x) ∷ rest)) fs
      → length mid < fuel
      → All (Waits ready_to_wake ready) (values mid)
      → Due ready_to_wake ready x
      → (t' : UpdateTrace) × ((l' : StaticList (Entry W)) × (resume_scan ready_to_wake fuel ready
              (head_or (mid ++ (i, x) ∷ rest) null)
              b
              p
              j
              t
              l
            ≡ some (
              (
                record { pending = true; next_wake = priority_after p (values mid); trace = t' },
                some x.handle,
              ),
              l',
            ))
          × IsValid n l' (pre ++ (mid ++ rest)) ((i, x) ∷ fs))
  unfolding resume_scan priority_after take_ready
  scan-take zero n ready l pre mid rest fs i x b p j t valid lt ws due = absurd (omega arith)
  scan-take (suc fuel) n ready l pre [] rest fs i x b p j t valid lt ws due =
      let (l', run, is) = erase-IsValid n l pre rest fs i x valid in
      (
        flag t 1,
        (
          l',
          rw
              (
                not_end n l pre rest fs i x valid,
                dereference-value n l pre rest fs i x valid,
                entry_ready_lem x ready ∙ due,
                run,
              )
              refl,
          is,
        ),
      )
  scan-take (suc fuel) n ready l pre ((a, e) ∷ mid) rest fs i x b p j t valid lt ws due =
      let post = mid ++ (i, x) ∷ rest in
      let next =
        scan-take fuel n ready l (pre ++ (a, e) ∷ []) mid rest fs i x true
          (keep_priority ready_to_wake p e) ((j + 1) % 2 ^ 16) (keep_trace ready_to_wake p e j t)
          (rw (append_assoc pre ((a, e) ∷ []) post) valid) (omega arith) ws.1 due in
      (
        next.0,
        (
          next.1.0,
          rw
              (
                not_end n l pre post fs a e valid,
                dereference-value n l pre post fs a e valid,
                entry_ready_lem e ready ∙ ws.0,
                increment-next n l pre post fs a e valid,
              )
              next.1.1,
          rw (append_assoc pre ((a, e) ∷ []) (mid ++ rest)) at next.1.2,
        ),
      )

  module _ {S : Type 0}
      (run : Handle → S → StaticList (Entry W) → Option (S × StaticList (Entry W))) where
    -- On a valid list of n nodes, with more than n rounds of fuel and no entry due, `resume` runs
    -- nothing and changes nothing. It reports whether entries wait, and the condition that
    -- `priority_after` finds among them.
    pub resume-idle :
        (fuel n : ℕ) (ready : W) (s : S) (l : StaticList (Entry W)) (es : List (Entry W))
        → Holds n l es
        → n < fuel
        → All (Waits ready_to_wake ready) es
        → (t : UpdateTrace) × (resume ready_to_wake run fuel ready s l
            ≡ some (
              record { pending = nonempty es false; next_wake = priority_after none es; trace = t },
              s,
              l,
            ))
    unfolding resume begin
    resume-idle fuel n ready s l es holds enough ws =
        let scan =
          scan-idle fuel n ready l [] holds.cells holds.spares false none 0 trace_start holds.valid
            (omega (arith, holds.valid.size))
            (subst (All (Waits ready_to_wake ready)) (sym holds.values) ws) in
        (
          scan.0,
          rw
              (
                ap (λ i. resume_scan ready_to_wake fuel ready i false none 0 trace_start l)
                      holds.valid.first
                    ∙ scan.1,
                holds.values,
              )
              refl,
        )

    -- On a valid list of n nodes, with more than n rounds of fuel, whose first entry that is due is
    -- `x`: `resume` takes `x` off the list and resumes its handle on the valid list of the others.
    -- If that returns, `resume` reports true, and the condition that `priority_after` finds among
    -- the entries in front of `x`.
    pub resume-Due :
        (fuel n : ℕ) (ready : W) (s : S) (l : StaticList (Entry W)) (ms : List (Entry W))
        (x : Entry W) (rs : List (Entry W))
        → Holds n l (ms ++ x ∷ rs)
        → n < fuel
        → All (Waits ready_to_wake ready) ms
        → Due ready_to_wake ready x
        → (t : UpdateTrace) × ((l' : StaticList (Entry W)) × Holds n l' (ms ++ rs)
            × (resume ready_to_wake run fuel ready s l
                ≡ after_run ready_to_wake run
                    (record { pending = true; next_wake = priority_after none ms; trace = t })
                    (run x.handle s l')))
    unfolding resume begin
    resume-Due fuel n ready s l ms x rs holds enough ws due =
        let split = values-Split holds.cells ms x rs holds.values in
        let valid = subst (λ t. IsValid n l t holds.spares) split.whole holds.valid in
        let scan =
          scan-take fuel n ready l [] split.front split.rear holds.spares split.address x false none
            0 trace_start valid
            (omega (arith, valid.size, length-append split.front ((split.address, x) ∷ split.rear)))
            (subst (All (Waits ready_to_wake ready)) (sym split.front_values) ws) due in
        (
          scan.0,
          (
            scan.1.0,
            record {
              cells = split.front ++ split.rear;
              spares = (split.address, x) ∷ holds.spares;
              valid = scan.1.2;
              values =
                  map-append (λ c. c.1) split.front split.rear
                  ∙ ap₂ ◌++◌ split.front_values split.rear_values;
            },
            rw
                (
                  ap (λ i. resume_scan ready_to_wake fuel ready i false none 0 trace_start l)
                        valid.first
                      ∙ scan.1.1,
                  split.front_values,
                )
                refl,
          ),
        )

-- ===== src/Session/Requests.antt =====
-- session.py, Session._done_request, request and close. A call of the plug-in's code is a parameter.
use cwhost.Base.{
  ℕ, ◌≡◌, refl, ap, Bool, true, false, not, ◌||◌, Option, none, some, List, [], ◌∷◌, ◌==◌,
  if◌then◌else◌,
}
use cwhost.Base.Int.{ℤ, pos, negsuc}
use cwhost.Base.Result.{Result, ok, err}
use cwhost.Base.Action.{pure, raise_if, ◌>>=◌, ◌>>◌}
use cwhost.Base.Map.{int_eq}
use cwhost.Guest.{Emulator}
use cwhost.Session.{
  SessionError, done_twice, not_loaded, after_termination, not_done, termination_failed, Fragment,
  Phase, initialized, terminated, Session, Call, free_request_handles,
}

abbrev pub req_initialize : ℤ
req_initialize = negsuc 1

abbrev pub req_terminate : ℤ
req_terminate = negsuc 0

abbrev pub is_terminated : Phase → Bool
is_terminated terminated = true
is_terminated _ = false

abbrev pub is_initialized : Phase → Bool
is_initialized initialized = true
is_initialized _ = false

abbrev pub done_or : Option ℤ → ℕ → ℤ
done_or none result = pos result
done_or (some done) result = done

-- the state after a request was served
abbrev pub next_phase : ℤ → Phase → Phase
next_phase code phase =
    if int_eq.beq code req_initialize
    then initialized
    else (if int_eq.beq code req_terminate then terminated else phase)

module _ (u : Emulator) where
  -- Session._done_request
  unfoldable pub done_request : ℤ → Call u (Unit {0})
  done_request result s =
      (raise_if (not (s.progress.done_count == 0)) done_twice >> λ s.
      (ok tt, record s { progress = record s.progress { done = some result; done_count = 1 } }))
        s

  -- guest.call of a routine with arguments, which runs the plug-in's code
  abbrev pub Runs : Type 0
  Runs = ℕ → List ℕ → Call u ℕ

  abbrev pub begin : ℤ → Call u (Unit {0})
  begin code s =
      (ok tt, record s { progress = record { current = some code; done = none; done_count = 0 } })

  abbrev pub check_done : Call u (Unit {0})
  check_done s = raise_if (not (s.progress.done_count == 1)) not_done s

  abbrev pub conclude : ℤ → Call u (Unit {0})
  conclude code s = (
    ok tt,
    record s { phase = next_phase code s.phase; progress = record s.progress { current = none } },
  )

  abbrev pub serve : Runs → ℤ → Fragment → ℕ → Call u ℤ
  serve guest_call code fragment ctx = do
    begin code
    result ← guest_call fragment.main_tvector (ctx ∷ [])
    check_done
    done ← λ s. (ok (done_or s.progress.done result), s)
    free_request_handles u
    conclude code
    pure done

  abbrev pub request_of : Runs → ℤ → Option Fragment → Option ℕ → Call u ℤ
  request_of guest_call code none ctx s = (err not_loaded, s)
  request_of guest_call code (some fragment) none s = (err not_loaded, s)
  request_of guest_call code (some fragment) (some ctx) s =
      (raise_if (is_terminated s.phase) after_termination >> serve guest_call code fragment ctx) s

  -- Session.request
  unfoldable pub request : Runs → ℤ → Call u ℤ
  unfolding free_request_handles
  request guest_call code s = request_of guest_call code s.fragment s.ctx_ptr s

  abbrev pub run_termination : Runs → Option Fragment → Call u (Unit {0})
  run_termination guest_call none s = (ok tt, s)
  run_termination guest_call (some fragment) s = elim fragment.term_tvector [
    | none ↦ (ok tt, s)
    | some tvector ↦
        (guest_call tvector [] >>= λ result. raise_if (not (result == 0)) termination_failed) s
  ]

  abbrev pub terminate_first : Runs → Call u (Unit {0})
  unfolding request
  terminate_first guest_call s =
      if is_initialized s.phase then (request guest_call req_terminate >> pure tt) s else (ok tt, s)

  abbrev pub terminate_routine : Runs → Call u (Unit {0})
  terminate_routine guest_call s =
      if is_initialized s.phase || is_terminated s.phase
      then run_termination guest_call s.fragment s
      else (ok tt, s)

  -- the `finally` of Session.close; closing the guest is a method of the emulator
  abbrev pub finally_closed :
      {A : Type 0} → Result SessionError A × Session u → Result SessionError A × Session u
  finally_closed (r, s) = (r, record s { closed = true })

  -- Session.close
  unfoldable pub close : Runs → Call u (Unit {0})
  unfolding request
  close guest_call s =
      if s.closed
      then (ok tt, s)
      else finally_closed ((terminate_first guest_call >> terminate_routine guest_call) s)

  finally_lem :
      {A : Type 0} (r : Result SessionError A × Session u) → (finally_closed r).1.closed ≡ true
  finally_lem (r, s) = refl

  close_ends :
      (b : Bool) (guest_call : Runs) (s : Session u)
      → s.closed ≡ b
      → (close guest_call s).1.closed ≡ true
  unfolding close
  close_ends true guest_call s q = rw q refl
  close_ends false guest_call s q =
      rw q (finally_lem ((terminate_first guest_call >> terminate_routine guest_call) s))

  closed_again :
      (guest_call : Runs) (s : Session u) → s.closed ≡ true → close guest_call s ≡ (ok tt, s)
  unfolding close
  closed_again guest_call s q =
      ap
        (λ b.
          if b
          then (ok tt, s)
          else finally_closed ((terminate_first guest_call >> terminate_routine guest_call) s))
        q

  -- After `close` a session is closed, also where the plug-in's termination raised, and closing it once
  -- more does nothing.
  pub close-close :
      (guest_call again : Runs) (s : Session u)
      → ((close guest_call s).1.closed ≡ true)
        × (close again (close guest_call s).1 ≡ (ok tt, (close guest_call s).1))
  close-close guest_call again s =
      let done = close_ends s.closed guest_call s refl in
      (done, closed_again again (close guest_call s).1 done)

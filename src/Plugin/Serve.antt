-- ===== src/Plugin/Serve.antt =====
-- session.py, Session.request: how a request ends, by what the plug-in's code did.
use Prim.Native.String.{String}
use cwhost.Base.{ℕ, ◌≡◌, false, Option, some, List, [], ◌∷◌, refl, ap}
use cwhost.Base.Int.{ℤ}
use cwhost.Base.Result.{Result, ok, err}
use cwhost.Base.Action.{pure, ◌>>◌}
use cwhost.Base.Bytes.{Bytes}
use cwhost.Guest.{Emulator}
use cwhost.Session.{SessionError, not_done, Session, Fragment, free_request_handles}
use cwhost.Session.Requests.{is_terminated, Runs, begin, conclude, request, request_of, serve}
use cwhost.Plugin.Table.{Calls}
use cwhost.Plugin.Protocol.{Tracks, Calls-Tracks}

module _ (u : Emulator) (decode : Bytes → String) where
  -- What is assumed of the emulator: it runs the plug-in's code, which changes the request's state only
  -- by the calls of CWDonePluginRequest that the list has.
  pub record Traced (guest_call : Runs u) : Type 0 where
    pub results : (tvector : ℕ) (arguments : List ℕ) (s : Session u) → List ℤ
    pub traced :
        (tvector : ℕ) (arguments : List ℕ) (s : Session u)
        → Calls u decode (results tvector arguments s) s (guest_call tvector arguments s).1

  -- the session when the plug-in's main routine is called
  abbrev pub begun : ℤ → Session u → Session u
  begun code s = (begin u code s).1

  -- A request's end, by the end of the main routine and the calls of CWDonePluginRequest that
  -- succeeded: the routine's exception; the protocol's, where there was no such call; else the result
  -- of the one call, after the request's handles are freed.
  abbrev pub Served :
      ℤ → Result SessionError ℕ × Session u → List ℤ → Result SessionError ℤ × Session u → Type 0
  Served code (err e, mid) results out = out ≡ (err e, mid)
  Served code (ok result, mid) [] out = out ≡ (err not_done, mid)
  Served code (ok result, mid) (done ∷ []) out =
      out ≡ (free_request_handles u >> (conclude u code >> pure done)) mid
  Served code (ok result, mid) (_ ∷ _ ∷ _) out = ⊥

  serve-Served :
      (guest_call : Runs u) (code : ℤ) (f : Fragment) (ctx : ℕ) (s : Session u)
      (run : Result SessionError ℕ × Session u) (results : List ℤ)
      → guest_call f.main_tvector (ctx ∷ []) (begun code s) ≡ run
      → Tracks u decode results (begun code s).progress run.1.progress
      → Served code run results (serve u guest_call code f ctx s)
  serve-Served guest_call code f ctx s (err e, mid) results q tracks = rw q refl
  serve-Served guest_call code f ctx s (ok result, mid) [] q tracks =
      let none_done : mid.progress.done_count ≡ 0 = ap (λ p. p.done_count) tracks in
      rw q (rw none_done refl)
  serve-Served guest_call code f ctx s (ok result, mid) (done ∷ []) q tracks =
      let one : mid.progress.done_count ≡ 1 = ap (λ p. p.done_count) tracks in
      let last : mid.progress.done ≡ some done = ap (λ p. p.done) tracks in
      rw q (rw (one, last) refl)
  serve-Served guest_call code f ctx s (ok result, mid) (_ ∷ _ ∷ _) q tracks = tracks

  request_lem :
      (guest_call : Runs u) (code : ℤ) (f : Fragment) (ctx : ℕ) (s : Session u)
      (loaded : Option Fragment) (context : Option ℕ)
      → loaded ≡ some f
      → context ≡ some ctx
      → is_terminated s.phase ≡ false
      → request_of u guest_call code loaded context s ≡ serve u guest_call code f ctx s
  request_lem guest_call code f ctx s loaded context has_fragment has_context runs =
      rw (has_fragment, has_context) (rw runs refl)

  -- Let the plug-in's code change the request's state (_current, _done, _done_count, _state, fragment,
  -- ctx_ptr, _closed) by no other way than CWDonePluginRequest. Then a request of a loaded plug-in that
  -- was not terminated ends as its code does: with the exception of its main routine, with the
  -- protocol's where the routine returns and CWDonePluginRequest did not succeed, and else with the
  -- result of the only call that did, after the request's handles are freed. A second call never
  -- succeeds.
  pub request-Served :
      (guest_call : Runs u) (t : Traced guest_call) (code : ℤ) (f : Fragment) (ctx : ℕ)
      (s : Session u)
      → s.fragment ≡ some f
      → s.ctx_ptr ≡ some ctx
      → is_terminated s.phase ≡ false
      → Served code
          (guest_call f.main_tvector (ctx ∷ []) (begun code s))
          (t.results f.main_tvector (ctx ∷ []) (begun code s))
          (request u guest_call code s)
  unfolding request
  request-Served guest_call t code f ctx s has_fragment has_context runs =
      let tracks =
        (Calls-Tracks u decode refl (t.traced f.main_tvector (ctx ∷ []) (begun code s))).0 in
      let e =
        request_lem guest_call code f ctx s s.fragment s.ctx_ptr has_fragment has_context runs in
      rw e (
        serve-Served guest_call code f ctx s (guest_call f.main_tvector (ctx ∷ []) (begun code s))
          (t.results f.main_tvector (ctx ∷ []) (begun code s)) refl tracks)

-- ===== src/Plugin/Protocol.antt =====
-- session.py, Session.request, over any run of the plug-in's code: the calls of CWDonePluginRequest
-- that a request needs.
use Prim.Native.String.{String}
use cwhost.Base.{
  ℕ, ◌≡◌, ◌%◌, ◌==◌, if◌then◌else◌, ◌∙◌, ◌⊎◌, Bool-cases, inl, inr, some, List, [], ◌∷◌, refl, ap,
  arith,
}
use cwhost.Base.Int.{ℤ}
use cwhost.Base.Result.{Result, ok, err}
use cwhost.Base.Bytes.{Bytes}
use cwhost.Guest.{Emulator}
use cwhost.Guest.Arguments.{args, args_from}
use cwhost.Session.{SessionError, bad_context, done_twice, Session, Progress, is_context}
use cwhost.Session.Requests.{done_request}
use cwhost.Plugin.{signed32, take_args, enter}
use cwhost.Plugin.Callbacks.{done_plugin_request}
use cwhost.Plugin.Serving.{callback-Keeps}
use cwhost.Plugin.Table.{Calls, idle, computes, serves, finishes, refuses}

module _ (u : Emulator) (decode : Bytes → String) where
  -- the end of a call of CWDonePluginRequest
  abbrev finished : Session u → Session u
  finished s = record s {
    progress = record s.progress {
      done = some (signed32 (s.gprs 4 % 0x1_0000_0000));
      done_count = 1;
    };
    gprs = λ n. if n == 3 then 0 else s.gprs n;
  }

  abbrev Ends : Session u → Result SessionError ℕ × Session u → Type 0
  Ends s out =
      ((e : SessionError) × (out ≡ (err e, s)))
      ⊎ ((s.progress.done_count ≡ 0) × (out ≡ (ok 0, finished s)))

  done_Ends : (s : Session u) → Ends s (done_plugin_request u decode s)
  unfolding done_plugin_request enter take_args args args_from done_request
  done_Ends s = elim (Bool-cases (is_context u s.ctx_ptr (s.gprs 3 % 0x1_0000_0000))) [
    | inr wrong ↦ inl (bad_context, rw wrong refl)
    | inl right ↦ elim (Bool-cases (s.progress.done_count == 0)) [
      | inr again ↦ inl (done_twice, rw (right, again) refl)
      | inl once ↦ inr (ground arith, rw (right, once) refl)
    ]
  ]

  -- what the calls of CWDonePluginRequest that succeeded leave in the request's state
  abbrev pub Tracks : List ℤ → Progress → Progress → Type 0
  Tracks [] before after = after ≡ before
  Tracks (result ∷ []) before after = after ≡ record before { done = some result; done_count = 1 }
  Tracks (_ ∷ _ ∷ _) before after = ⊥

  -- what a run of the plug-in's code keeps of the session
  pub record Control (s out : Session u) : Type 0 where
    pub phase : out.phase ≡ s.phase
    pub fragment : out.fragment ≡ s.fragment
    pub ctx_ptr : out.ctx_ptr ≡ s.ctx_ptr
    pub closed : out.closed ≡ s.closed

  Tracks-count :
      (results : List ℤ) (before after : Progress)
      → before.done_count ≡ 0
      → Tracks results before after
      → after.done_count ≡ 0
      → results ≡ []
  Tracks-count [] before after open_yet h q = refl
  Tracks-count (d ∷ []) before after open_yet h q =
      let one = ap (λ p. p.done_count) h in absurd (omega (arith, one, q))
  Tracks-count (d ∷ _ ∷ _) before after open_yet h q = elim h [ ]

  same_Tracks :
      (results : List ℤ) (before : Progress) {after later : Progress}
      → later ≡ after
      → Tracks results before after
      → Tracks results before later
  same_Tracks results before e h = rw e h

  pub Calls-Tracks :
      {results : List ℤ} {s out : Session u}
      → s.progress.done_count ≡ 0
      → Calls u decode results s out
      → Tracks results s.progress out.progress × Control s out
  Calls-Tracks open_yet idle =
      (refl, record { phase = refl; fragment = refl; ctx_ptr = refl; closed = refl })
  Calls-Tracks {results = results} open_yet (computes {s = s} {out = out} same run) =
      let (tracks, kept) = Calls-Tracks open_yet run in
      (
        same_Tracks results s.progress same.progress tracks,
        record {
          phase = same.phase ∙ kept.phase;
          fragment = same.fragment ∙ kept.fragment;
          ctx_ptr = same.ctx_ptr ∙ kept.ctx_ptr;
          closed = same.closed ∙ kept.closed;
        },
      )
  Calls-Tracks {results = results} open_yet (serves {s = s} {out = out} c run) =
      let (tracks, kept) = Calls-Tracks open_yet run in
      let same = (callback-Keeps u decode c).at out in
      (
        same_Tracks results s.progress same.progress tracks,
        record {
          phase = same.phase ∙ kept.phase;
          fragment = same.fragment ∙ kept.fragment;
          ctx_ptr = same.ctx_ptr ∙ kept.ctx_ptr;
          closed = same.closed ∙ kept.closed;
        },
      )
  Calls-Tracks open_yet (refuses {results = results} {s = s} {out = out} q run) =
      let (tracks, kept) = Calls-Tracks open_yet run in
      elim (done_Ends out) [
        | inl (e, is) ↦ rw is (tracks, kept)
        | inr (once, is) ↦ let clash = ap (λ r. r.0) is in absurd cc
      ]
  Calls-Tracks open_yet (finishes {results = results} {s = s} {out = out} q run) =
      let (tracks, kept) = Calls-Tracks open_yet run in
      elim (done_Ends out) [
        | inl (e, is) ↦ let clash = ap (λ r. r.0) is in absurd cc
        | inr (once, is) ↦
            let first = Tracks-count results s.progress out.progress open_yet tracks once in
            let before : out.progress ≡ s.progress = rw first at tracks in
            let with_result : Progress → Progress = λ p. record p {
              done = some (signed32 (out.gprs 4 % 0x1_0000_0000));
              done_count = 1;
            } in
            rw (is, first)
              (
                ap with_result before,
                record {
                  phase = kept.phase;
                  fragment = kept.fragment;
                  ctx_ptr = kept.ctx_ptr;
                  closed = kept.closed;
                },
              )
      ]

-- ===== src/Protocol/Session.antt =====
-- A whole session of the reference client: the lines of calls that the runner writes, up to STOP.
use madkv.Prelude.{
  ℕ, suc, ◌≡◌, refl, sym, ap, ◌∙◌, false, List, [], ◌∷◌, ◌++◌, append_assoc, subst, Option, none,
  All, length,
}
use madkv.Prelude.Results.{done, Ensures}
use madkv.Text.{Text}
use madkv.BTree
use madkv.BTree.Sorted.{IsSorted}
use madkv.Runner.Call
use madkv.Runner.Call.{call_line}
use madkv.RefCli.Types.{KvCall, KvResp}
use madkv.RefCli.Main.{State, Client, is_stop, handle_kv_call, serve_call, main_loop}
use madkv.RefCli.Handler.{View, Answered, IsForward, handle_kv_call-Answered}
use madkv.Protocol.Wire.{IsWireCall, to_client}
use madkv.Protocol.Calls.{skip_blank-call_line, parse_input_call-call_line}
use madkv.Protocol.Lines.{resp_text, write_response-resp_text}

abbrev pub calls_text : List Call.KvCall → Text
calls_text [] = []
calls_text (c ∷ cs) = call_line c ++ calls_text cs

abbrev pub resps_text : List KvResp → Text
resps_text [] = []
resps_text (r ∷ rs) = resp_text r ++ resps_text rs

-- A call of a session, other than its end.
abbrev IsOpen : KvCall → Type 0
IsOpen KvCall.stop = ⊥
IsOpen _ = Unit

abbrev pub IsServed : Call.KvCall → Type 0
IsServed c = IsWireCall c × IsForward (to_client c) × IsOpen (to_client c)

-- The specification: each call answered, in order, on the state that the one before left.
abbrev pub AllAnswered : State → List Call.KvCall → List KvResp → State → Type 0
AllAnswered s [] rs s' = (rs ≡ []) × (s' ≡ s)
AllAnswered s (c ∷ cs) rs s' =
    (resp : KvResp) × (later : List KvResp) × (mid : State) × (rs ≡ resp ∷ later)
    × Answered (BTree.get s) (to_client c) resp (BTree.get mid)
    × AllAnswered mid cs later s'

pub Answered-is_stop :
    (m : View) (c : KvCall) (resp : KvResp) (m' : View)
    → IsOpen c
    → Answered m c resp m'
    → is_stop resp ≡ false
Answered-is_stop m (KvCall.put key value) resp m' h a = ap is_stop a.0
Answered-is_stop m (KvCall.swap key value) resp m' h a = ap is_stop a.0
Answered-is_stop m (KvCall.get key) resp m' h a = ap is_stop a.0
Answered-is_stop m (KvCall.scan key_start key_end) resp m' h a = ap is_stop a.1
Answered-is_stop m (KvCall.delete key) resp m' h a = ap is_stop a.0
Answered-is_stop m KvCall.stop resp m' h a = absurd h

module _ (fault : Option Text) where
  -- The client before the input `pending`, after the output `written`.
  abbrev pub at : Text → Text → State → Client
  at pending written state = record {
    stdin = record { pending = pending; fault = fault };
    stdout = record { written = written; fault = none };
    state = state;
  }

  module _ (lines : ℕ) where
    pub serve_call-call_line :
        (c : Call.KvCall) (rest written : Text) (s s' : State) (resp : KvResp)
        → IsWireCall c
        → handle_kv_call (to_client c) s ≡ done (resp, s')
        → serve_call (suc lines) (at (call_line c ++ rest) written s)
          ≡ done (is_stop resp, at rest (written ++ resp_text resp) s')
    unfolding serve_call
    serve_call-call_line c rest written s s' resp h e =
        rw
          (
            skip_blank-call_line lines c rest fault h,
            parse_input_call-call_line c h,
            e,
            write_response-resp_text resp (record { written = written; fault = none }) refl,
          )
          refl

    main_loop-stop :
        (fuel : ℕ) (rest written : Text) (s : State)
        → main_loop (suc lines) (suc fuel) (at (call_line Call.stop ++ rest) written s)
          ≡ done (at rest (written ++ resp_text KvResp.stop) s)
    unfolding main_loop
    main_loop-stop fuel rest written s =
        rw
          (
            main_loop,
            serve_call-call_line Call.stop rest written s s KvResp.stop tt
                (unfold handle_kv_call to_client in refl),
          )
          refl

    main_loop-call_line :
        (fuel : ℕ) (c : Call.KvCall) (rest written : Text) (s s' : State) (resp : KvResp)
        → IsWireCall c
        → handle_kv_call (to_client c) s ≡ done (resp, s')
        → is_stop resp ≡ false
        → main_loop (suc lines) (suc fuel) (at (call_line c ++ rest) written s)
          ≡ main_loop (suc lines) fuel (at rest (written ++ resp_text resp) s')
    unfolding main_loop
    main_loop-call_line fuel c rest written s s' resp h e more =
        rw (main_loop, serve_call-call_line c rest written s s' resp h e, more) refl

    -- A session, in which the client keeps `P` of its state and gives responses with `R`.
    module _ (Ok : Call.KvCall → Type 0) (P : State → Type 0) (R : KvResp → Type 0)
        (keeps : (c : Call.KvCall) (s : State)
          → Ok c
          → P s
          → Ensures (λ r. R r.0 × P r.1) (handle_kv_call (to_client c) s)) where
      pub main_loop-calls :
          (cs : List Call.KvCall) (rest written : Text) (s : State)
          → All IsServed cs
          → All Ok cs
          → IsSorted s
          → P s
          → (rs : List KvResp) × (s' : State) × AllAnswered s cs rs s'
            × IsSorted s'
            × All R rs
            × (main_loop
                  (suc lines)
                  (suc (length cs))
                  (at (calls_text cs ++ (call_line Call.stop ++ rest)) written s)
                ≡ done (at rest (written ++ (resps_text rs ++ resp_text KvResp.stop)) s'))
      unfolding to_client
      main_loop-calls [] rest written s h oks sorted p =
          ([], s, (refl, refl), sorted, tt, main_loop-stop 0 rest written s)
      main_loop-calls (c ∷ cs) rest written s ((wire, forward, open_call), h) oks sorted p =
          let (resp, mid, handled, answered, sorted') =
            handle_kv_call-Answered (to_client c) s sorted forward in
          let kept = subst (Ensures (λ r. R r.0 × P r.1)) handled (keeps c s oks.0 p) in
          let (rs, s', all_answered, sorted'', good, ends) =
            main_loop-calls cs rest (written ++ resp_text resp) mid h oks.1 sorted' kept.1 in
          let first =
            main_loop-call_line (suc (length cs)) c (calls_text cs ++ (call_line Call.stop ++ rest))
              written s mid resp wire handled
              (Answered-is_stop (BTree.get s) (to_client c) resp (BTree.get mid) open_call
                answered) in
          let input : calls_text (c ∷ cs) ++ (call_line Call.stop ++ rest)
              ≡ call_line c ++ (calls_text cs ++ (call_line Call.stop ++ rest)) =
            append_assoc (call_line c) (calls_text cs) (call_line Call.stop ++ rest) in
          let output : (written ++ resp_text resp) ++ (resps_text rs ++ resp_text KvResp.stop)
              ≡ written ++ (resps_text (resp ∷ rs) ++ resp_text KvResp.stop) =
            append_assoc written (resp_text resp) (resps_text rs ++ resp_text KvResp.stop)
            ∙ ap (λ t. written ++ t)
                (sym (append_assoc (resp_text resp) (resps_text rs) (resp_text KvResp.stop))) in
          (
            resp ∷ rs,
            s',
            (resp, rs, mid, refl, answered, all_answered),
            sorted'',
            (kept.0, good),
            ap (λ t. main_loop (suc lines) (suc (suc (length cs))) (at t written s)) input
                ∙ first
                ∙ ends
                ∙ ap (λ t. done (at rest t s')) output,
          )

    any_state :
        (c : Call.KvCall) (s : State)
        → Ensures (λ r. Unit {0} × Unit {0}) (handle_kv_call (to_client c) s)
    any_state c s = elim (handle_kv_call (to_client c) s) as (Ensures (λ r. Unit {0} × Unit {0})) [
      | done r ↦ (tt, tt)
      | _ ↦ tt
    ]

    all_calls : (cs : List Call.KvCall) → All (λ c. Unit {0}) cs
    all_calls [] = tt
    all_calls (c ∷ cs) = (tt, all_calls cs)

    -- Calls whose arguments are words, with no scan backwards and no STOP among them, written to
    -- the reference client one after the other and followed by STOP, are all answered in order as
    -- the abstract map says, on whatever sorted state and with an output that takes every write:
    -- after one round for each call and one more, the client has ended, on a sorted state, has
    -- written the responses and the one to STOP, and has read no further. A scan of that map leaves
    -- out its end key.
    pub main_loop-session :
        (cs : List Call.KvCall) (rest written : Text) (s : State)
        → All IsServed cs
        → IsSorted s
        → (rs : List KvResp) × (s' : State) × AllAnswered s cs rs s'
          × IsSorted s'
          × (main_loop
                (suc lines)
                (suc (length cs))
                (at (calls_text cs ++ (call_line Call.stop ++ rest)) written s)
              ≡ done (at rest (written ++ (resps_text rs ++ resp_text KvResp.stop)) s'))
    main_loop-session cs rest written s h sorted =
        let (rs, s', all_answered, sorted', good, ends) =
          main_loop-calls (λ c. Unit) (λ s. Unit) (λ r. Unit) (λ c s ok p. any_state c s) cs rest
            written s h (all_calls cs) sorted tt in
        (rs, s', all_answered, sorted', ends)

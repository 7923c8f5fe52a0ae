-- ===== src/Protocol/System/Drains.antt =====
-- The driver thread and the client answer every call that was sent.
use madkv.Prelude.{
  ◌≡◌, refl, sym, ap, ◌∙◌, subst, List, [], ◌∷◌, ◌++◌, map, append-nil, true, false, ◌≢◌,
  Bool-cases, inl, inr,
}
use madkv.Runner.Call
use madkv.Runner.Call.{call_line}
use madkv.RefCli.Types.{KvResp}
use madkv.Protocol.Wire.{to_runner}
use madkv.Protocol.Session.{AllAnswered}
use madkv.Protocol.System.{System, Work, writes, serves, reads, Works, rest, and_then, Reachable}
use madkv.Protocol.System.Parts.{write_call-taken}
use madkv.Protocol.System.Able.{can_write, can_serve, can_read}
use madkv.Protocol.System.Stages.{idle, asked, replied, Inv, Work-Inv}
use madkv.Protocol.System.Invariant.{Reachable-Inv}

-- All the calls of `s` are answered, and their responses got or in the channel.
abbrev pub Drained : System → System → Type 0
Drained s t =
    (rs : List KvResp) × (t.sent ≡ s.sent)
    × AllAnswered [] s.sent rs t.state
    × (t.got ≡ s.got)
    × (t.got ++ t.resps ≡ map to_runner rs)

abbrev CanDrain : System → Type 0
CanDrain s = (t : System) × Works t s × Drained s t

drain_after : (s t : System) → Work s t → s.sent ≡ t.sent → s.got ≡ t.got → CanDrain t → CanDrain s
drain_after s t w sent got (u, ws, (rs, same, answered, kept, all)) = (
  u,
  and_then w ws,
  (
    rs,
    same ∙ sym sent,
    subst (λ l. AllAnswered [] l rs u.state) (sym sent) answered,
    kept ∙ sym got,
    all,
  ),
)

call_line-nonempty : (c : Call.KvCall) → call_line c ≢ []
unfolding call_line
call_line-nonempty (Call.KvCall.put key value) e = cc
call_line-nonempty (Call.KvCall.swap key value) e = cc
call_line-nonempty (Call.KvCall.get key) e = cc
call_line-nonempty (Call.KvCall.scan key_start key_end) e = cc
call_line-nonempty (Call.KvCall.delete key) e = cc
call_line-nonempty Call.KvCall.stop e = cc

-- Between two iterations of the driver, with these calls in the channel.
Idles : List Call.KvCall → Type 0
Idles left = (s : System) → Inv s → s.calls ≡ left → s.busy ≡ false → CanDrain s

module _ (left : List Call.KvCall) (idles : Idles left) where
  replied_drains :
      (s : System) → Inv s → s.calls ≡ left → s.busy ≡ true → s.to_stdin ≡ [] → CanDrain s
  unfolding Idles
  replied_drains s inv q busy no_call = elim inv.stage [
    | idle b t f sent got ↦ absurd (cc (busy, b))
    | asked c b t f sent got fine ↦ absurd (call_line-nonempty c (sym t ∙ no_call))
    | replied earlier r b t f sent last wire got ↦
        let (d, e) = can_read s r wire f in
        drain_after s _ (reads d busy e) refl refl
          (idles _ (Work-Inv s _ inv (reads d busy e)) q refl)
  ]

  busy_drains : (s : System) → Inv s → s.calls ≡ left → s.busy ≡ true → CanDrain s
  busy_drains s inv q busy = elim inv.stage [
    | idle b t f sent got ↦ absurd (cc (busy, b))
    | replied earlier r b t f sent last wire got ↦ replied_drains s inv q busy t
    | asked c b t f sent got fine ↦
        let (client, e, taken) = can_serve s c fine inv.sorted t in
        drain_after s _ (serves client e) refl refl
          (replied_drains _ (Work-Inv s _ inv (serves client e)) q busy taken)
  ]

idle_drains : (left : List Call.KvCall) → Idles left
unfolding Idles
idle_drains [] s inv q free = elim inv.stage [
  | idle b t f sent got ↦ (
    s,
    rest,
    (
      inv.rs,
      refl,
      subst (λ l. AllAnswered [] l inv.rs s.state)
          (sym (sent ∙ ap (λ l. inv.served ++ l) q ∙ append-nil inv.served)) inv.answered,
      refl,
      got,
    ),
  )
  | asked c b t f sent got fine ↦ absurd (cc (free, b))
  | replied earlier r b t f sent last wire got ↦ absurd (cc (free, b))
]
idle_drains (c ∷ left) s inv q free =
    let (d, e) = can_write s c left q in
    let (c', left', same, taken, written) = write_call-taken (c ∷ left) s d q e in
    drain_after s _ (writes d free e) refl refl (
      busy_drains left (idle_drains left) _ (Work-Inv s _ inv (writes d free e)) (cc (same, taken))
        refl)

-- From wherever the system has come, the driver thread and the reference client can answer every
-- call that was sent, with nothing more done by the caller: the responses that it has got and those
-- that are then in the channel are those of an atomic map to its calls, in order. A scan of that
-- map leaves out its end key.
pub drains : (s : System) → Reachable s → (t : System) × Works t s × Drained s t
unfolding Idles
drains s r =
    let inv = Reachable-Inv s r in
    elim (Bool-cases s.busy) [
      | inl busy ↦ busy_drains s.calls (idle_drains s.calls) s inv refl busy
      | inr free ↦ idle_drains s.calls s inv refl free
    ]

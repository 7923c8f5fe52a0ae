-- ===== src/Fuzzer/Forward.antt =====
-- The calls that the fuzz tester makes never panic the reference client.
use madkv.Prelude.{
  ℕ, ◌≡◌, arith, Option, none, some, [], get_elem?, Bool-cases, inl, inr, List, if◌then◌else◌,
  length, subst,
}
use madkv.Prelude.Results.{done, Ensures}
use madkv.Text.{Text, text_lt}
use madkv.Text.Order.{text_lt_asymm}
use madkv.Runner.Call
use madkv.BTree
use madkv.BTree.Sorted.{IsSorted}
use madkv.RefCli.Types.{KvResp}
use madkv.RefCli.Main.{State, handle_kv_call}
use madkv.RefCli.Handler.{Answered, IsForward, handle_kv_call-Answered}
use madkv.Protocol.Wire.{to_client}
use madkv.Fuzzer.Outside.{Rng}
use madkv.Fuzzer.Random

module _ (rand : Rng) where
  abbrev Made : Call.KvCall × Random.Stats × rand.State → Type 0
  Made (call, stats, rng) = IsForward (to_client call)

  ordered_scan-IsForward : (a b : Text) → IsForward (to_client (Random.ordered_scan rand a b))
  unfolding Random.ordered_scan to_client
  ordered_scan-IsForward a b = elim (Bool-cases (text_lt b a)) [
    | inl e ↦ rw (Random.ordered_scan, e, if◌then◌else◌) (text_lt_asymm b a e)
    | inr e ↦ rw (Random.ordered_scan, e, if◌then◌else◌) e
  ]

  gen_put-Made :
      (keys : List Text) (stats : Random.Stats) (cidx : ℕ) (rng : rand.State)
      → Ensures Made (Random.gen_put rand keys stats cidx rng)
  unfolding Random.gen_put to_client
  gen_put-Made keys stats cidx rng = ground arith

  gen_swap-Made :
      (keys : List Text) (stats : Random.Stats) (cidx : ℕ) (rng : rand.State)
      → Ensures Made (Random.gen_swap rand keys stats cidx rng)
  unfolding Random.gen_swap to_client
  gen_swap-Made keys stats cidx rng = ground arith

  gen_get-Made :
      (keys : List Text) (stats : Random.Stats) (cidx : ℕ) (rng : rand.State)
      → Ensures Made (Random.gen_get rand keys stats cidx rng)
  unfolding Random.gen_get to_client
  gen_get-Made keys stats cidx rng = ground arith

  gen_delete-Made :
      (keys : List Text) (stats : Random.Stats) (cidx : ℕ) (rng : rand.State)
      → Ensures Made (Random.gen_delete rand keys stats cidx rng)
  unfolding Random.gen_delete to_client
  gen_delete-Made keys stats cidx rng = ground arith

  abbrev key_or_none : Option Text → Text
  key_or_none none = []
  key_or_none (some key) = key

  gen_scan-Made :
      (keys : List Text) (stats : Random.Stats) (cidx : ℕ) (rng : rand.State)
      → Ensures Made (Random.gen_scan rand keys stats cidx rng)
  unfolding Random.gen_scan
  gen_scan-Made keys stats cidx rng =
      let start = rand.random_range rng (length keys) in
      let end = rand.random_range start.1 (length keys) in
      ground (
        arith,
        ordered_scan-IsForward (key_or_none (get_elem? keys start.0))
            (key_or_none (get_elem? keys end.0)),
      )

  gen_rand_kvcall-Made :
      (keys : List Text) (stats : Random.Stats) (cidx : ℕ) (rng : rand.State)
      → Ensures Made (Random.gen_rand_kvcall rand keys stats cidx rng)
  unfolding Random.gen_rand_kvcall
  gen_rand_kvcall-Made keys stats cidx rng = ground (
    arith,
    gen_put-Made keys stats cidx (rand.random_range rng 10).1,
    gen_swap-Made keys stats cidx (rand.random_range rng 10).1,
    gen_get-Made keys stats cidx (rand.random_range rng 10).1,
    gen_scan-Made keys stats cidx (rand.random_range rng 10).1,
    gen_delete-Made keys stats cidx (rand.random_range rng 10).1,
  )

  -- A call that `gen_rand_kvcall` returns is answered by the reference client as the abstract map
  -- says, on every sorted state: no scan that the fuzz tester makes begins after its end, on
  -- which the client would panic. A scan of that map leaves out its end key.
  pub gen_rand_kvcall-Answered :
      (keys : List Text) (stats stats' : Random.Stats) (cidx : ℕ) (rng rng' : rand.State)
      (call : Call.KvCall) (s : State)
      → Random.gen_rand_kvcall rand keys stats cidx rng ≡ done (call, stats', rng')
      → IsSorted s
      → (resp : KvResp) × (s' : State) × (handle_kv_call (to_client call) s ≡ done (resp, s'))
        × Answered (BTree.get s) (to_client call) resp (BTree.get s')
        × IsSorted s'
  gen_rand_kvcall-Answered keys stats stats' cidx rng rng' call s e sorted =
      handle_kv_call-Answered (to_client call) s sorted
        (subst (Ensures Made) e (gen_rand_kvcall-Made keys stats cidx rng))

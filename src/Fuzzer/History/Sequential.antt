-- ===== src/Fuzzer/History/Sequential.antt =====
-- What it means that acknowledged calls are linearizable, over an atomic map.
use madkv.Prelude.{
  ◌<◌, ◌≡◌, refl, sym, ap, ◌∙◌, List, [], ◌∷◌, ◌++◌, ◌⊎◌, inl, inr, Option, none, some, true,
  Option-cases, All, is_some,
}
use madkv.Prelude.Any.{Any, All-right}
use madkv.Text.{Text}
use madkv.HashMap
use madkv.Runner.Resp.{KvResp, put, swap, get, scan, delete, stop}
use madkv.Fuzzer.History.Scan.{in_range, InRange, AreFresh}
use madkv.Fuzzer.History.Whole.{Ack}
use madkv.Fuzzer.History.Pushed.{update_at}

-- An atomic map.
abbrev pub Store : Type 0
Store = Text → Option Text

abbrev pub no_keys : Store
no_keys = λ j. none

abbrev pub effect : Store → Option (Text × Option Text) → Store
effect m o = λ j. elim (update_at j o) [ none ↦ m j | some value ↦ value ]

-- A response that the map gives before the call's own update. The keys of a scan are those in
-- range, its last key included.
abbrev pub Answers : Store → KvResp → Type 0
Answers m (put key found) = is_some (m key) ≡ found
Answers m (swap key old_value) = m key ≡ old_value
Answers m (get key value) = m key ≡ value
Answers m (scan key_start key_end entries) =
    All (InRange key_start key_end) entries
    × AreFresh [] entries
    × ((j : Text) → in_range key_start key_end j ≡ true → HashMap.get entries j ≡ m j)
Answers m (delete key found) = is_some (m key) ≡ found
Answers m stop = ⊥

-- The calls, run one after the other on the map, give the responses.
abbrev pub IsLegal : Store → List Ack → Type 0
IsLegal m [] = Unit
IsLegal m (a ∷ seq) = Answers m a.resp × IsLegal (effect m a.update_info) seq

-- No call stands after one that began when it was already over.
abbrev pub KeepsOrder : List Ack → Type 0
KeepsOrder [] = Unit
KeepsOrder (a ∷ seq) = All (λ b. a.ts_call < b.ts_resp) seq × KeepsOrder seq

-- An order of the same calls that is legal for a map and keeps the order of calls that do not
-- overlap.
pub record Linearization (acks seq : List Ack) : Type 0 where
  pub all_of : All (λ a. Any (λ b. b ≡ a) seq) acks
  pub only_of : All (λ a. Any (λ b. b ≡ a) acks) seq
  pub legal : IsLegal no_keys seq
  pub ordered : KeepsOrder seq

-- The map after some calls.
unfoldable pub effects : Store → List Ack → Store
unfolding update_at
effects m [] = m
effects m (a ∷ seq) = effects (effect m a.update_info) seq

pub IsLegal-split :
    (m : Store) (before after : List Ack)
    → IsLegal m (before ++ after)
    → IsLegal (effects m before) after
unfolding effects
IsLegal-split m [] after h = h
IsLegal-split m (a ∷ before) after h = IsLegal-split (effect m a.update_info) before after h.1

pub KeepsOrder-right : (before after : List Ack) → KeepsOrder (before ++ after) → KeepsOrder after
KeepsOrder-right [] after h = h
KeepsOrder-right (a ∷ before) after h = KeepsOrder-right before after h.1

-- Every call of the first part precedes every one of the second.
pub KeepsOrder-split :
    (before after : List Ack)
    → KeepsOrder (before ++ after)
    → All (λ a. All (λ b. a.ts_call < b.ts_resp) after) before
KeepsOrder-split [] after h = tt
KeepsOrder-split (a ∷ before) after h =
    (All-right (λ b. a.ts_call < b.ts_resp) before after h.0, KeepsOrder-split before after h.1)

abbrev pub Silent : Text → List Ack → Type 0
Silent key seq = All (λ a. update_at key a.update_info ≡ none) seq

-- The last of the calls that write a key.
pub record Written (key : Text) (seq : List Ack) (value : Option Text) : Type 0 where
  pub before : List Ack
  pub writer : Ack
  pub between : List Ack
  pub parts : seq ≡ before ++ (writer ∷ between)
  pub writes : update_at key writer.update_info ≡ some value
  pub silent : Silent key between

-- The value of a key after some calls is the one that was written last, or the first.
pub last_write :
    (m : Store) (key : Text) (seq : List Ack)
    → ((effects m seq key ≡ m key) × Silent key seq) ⊎ Written key seq (effects m seq key)
unfolding effects
last_write m key [] = inl (refl, tt)
last_write m key (a ∷ seq) = elim (last_write (effect m a.update_info) key seq) [
  | inr w ↦ inr (record {
    before = a ∷ w.before;
    writer = w.writer;
    between = w.between;
    parts = ap (λ l. a ∷ l) w.parts;
    writes = w.writes;
    silent = w.silent;
  })
  | inl (same, silent) ↦ elim (Option-cases (update_at key a.update_info)) [
    | inl e ↦ inl (same ∙ rw (effect, e) refl, (e, silent))
    | inr (value, e) ↦ inr (record {
      before = [];
      writer = a;
      between = seq;
      parts = refl;
      writes = e ∙ ap some (sym (same ∙ rw (effect, e) refl));
      silent = silent;
    })
  ]
]

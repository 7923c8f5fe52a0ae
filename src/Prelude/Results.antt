-- ===== src/Prelude/Results.antt =====
-- Results of fallible code: `Result` for the `Result<T, E>` of the sources, and `Outcome` for code
-- with a loop that may never end or a call that may panic.

pub data Result {ℓ κ} (E : Type ℓ) (A : Type κ) : Type (ℓ ⊔ κ) where
  ok : A → Result E A
  err : E → Result E A

-- The bind of `?` on a `Result`.
abbrev pub and_then {ℓ κ μ} :
    {E : Type ℓ} {A : Type κ} {B : Type μ} → Result E A → (A → Result E B) → Result E B
and_then (ok a) f = f a
and_then (err e) f = err e

-- `spin`: the fuel ran out, so the loop has not ended. `panic`: the thread is aborted.
pub data Outcome {ℓ κ} (E : Type ℓ) (A : Type κ) : Type (ℓ ⊔ κ) where
  done : A → Outcome E A
  fail : E → Outcome E A
  spin : Outcome E A
  panic : Outcome E A

abbrev pub lift {ℓ κ} : {E : Type ℓ} {A : Type κ} → Result E A → Outcome E A
lift (ok a) = done a
lift (err e) = fail e

infixl 5 ◌>>=◌ ◌>>◌
abbrev pub ◌>>=◌ {ℓ κ μ} :
    {E : Type ℓ} {A : Type κ} {B : Type μ} → Outcome E A → (A → Outcome E B) → Outcome E B
done a >>= f = f a
fail e >>= f = fail e
spin >>= f = spin
panic >>= f = panic

abbrev pub ◌>>◌ {ℓ κ μ} :
    {E : Type ℓ} {A : Type κ} {B : Type μ} → Outcome E A → Outcome E B → Outcome E B
m >> k = m >>= λ _. k

-- If the code returns, what it returns satisfies `P`.
abbrev pub Ensures {ℓ κ μ} : {E : Type ℓ} {A : Type κ} → (A → Type μ) → Outcome E A → Type μ
Ensures P (done a) = P a
Ensures P _ = Unit

pub bind-Ensures {ℓ κ μ ν ξ} :
    {E : Type ℓ} {A : Type κ} {B : Type μ} (Q : A → Type ν) (P : B → Type ξ) (m : Outcome E A)
    (f : A → Outcome E B)
    → Ensures Q m
    → ((a : A) → Q a → Ensures P (f a))
    → Ensures P (m >>= f)
bind-Ensures Q P (done a) f q k = k a q
bind-Ensures Q P (fail e) f q k = tt
bind-Ensures Q P spin f q k = tt
bind-Ensures Q P panic f q k = tt

-- Where nothing needs to be known of the first part.
pub bind-Ensures_any {ℓ κ μ ξ} :
    {E : Type ℓ} {A : Type κ} {B : Type μ} (P : B → Type ξ) (m : Outcome E A) (f : A → Outcome E B)
    → ((a : A) → Ensures P (f a))
    → Ensures P (m >>= f)
bind-Ensures_any P (done a) f k = k a
bind-Ensures_any P (fail e) f k = tt
bind-Ensures_any P spin f k = tt
bind-Ensures_any P panic f k = tt

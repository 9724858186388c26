-- ===== src/Common/Outcome.antt =====
-- The outcome of a run that may fail, panic or wait, and the state monad over it.

-- `ok` and `err` are Rust's `Result`, with the state that the call leaves behind.
-- `panic` is an index out of range or a failed `unwrap`.
-- `pending` is a call that has not returned within its fuel.
pub data Outcome {ℓ} (S E A : Type ℓ) : Type ℓ where
  ok : A → S → Outcome S E A
  err : E → S → Outcome S E A
  panic : Outcome S E A
  pending : Outcome S E A

abbrev pub M {ℓ} : Type ℓ → Type ℓ → Type ℓ → Type ℓ
M S E A = S → Outcome S E A

module _ {ℓ} {S E : Type ℓ} where
  abbrev pub pure : {A : Type ℓ} → A → M S E A
  pure a s = ok a s

  abbrev pub bind : {A B : Type ℓ} → Outcome S E A → (A → M S E B) → Outcome S E B
  bind (ok a s) f = f a s
  bind (err e s) f = err e s
  bind panic f = panic
  bind pending f = pending

  infixl 5 ◌>>=◌ ◌>>◌
  abbrev pub ◌>>=◌ : {A B : Type ℓ} → M S E A → (A → M S E B) → M S E B
  ◌>>=◌ m f = λ s. bind (m s) f

  abbrev pub ◌>>◌ : {A B : Type ℓ} → M S E A → M S E B → M S E B
  m >> k = m >>= λ _. k

  abbrev pub throw : {A : Type ℓ} → E → M S E A
  throw e s = err e s

-- The call returns a result, which satisfies `Q`, or an error: it neither panics nor runs on.
abbrev pub Ended : {S E A : Type 0} → (A → S → Type 0) → Outcome S E A → Type 0
Ended Q (ok a s) = Q a s
Ended Q (err e s) = Unit
Ended Q panic = ⊥
Ended Q pending = ⊥

pub bind-Ended :
    {S E A B : Type 0} (Q : A → S → Type 0) (R : B → S → Type 0) (o : Outcome S E A)
    (f : A → M S E B)
    → Ended Q o
    → ((a : A) (s : S) → Q a s → Ended R (f a s))
    → Ended R (bind o f)
bind-Ended Q R (ok a s) f q next = next a s q
bind-Ended Q R (err e s) f q next = tt
bind-Ended Q R panic f q next = absurd q
bind-Ended Q R pending f q next = absurd q

pub weaken-Ended :
    {S E A : Type 0} (Q R : A → S → Type 0) (o : Outcome S E A)
    → Ended Q o
    → ((a : A) (s : S) → Q a s → R a s)
    → Ended R o
weaken-Ended Q R (ok a s) q more = more a s q
weaken-Ended Q R (err e s) q more = tt
weaken-Ended Q R panic q more = q
weaken-Ended Q R pending q more = q

-- ===== src/Worker/Exec/Triple.antt =====
-- What an action guarantees: from a state with P it returns into Q or throws into E.
use shore_sentinel_app.Base.{
  ℕ, String, Bool, true, false, ◌≡◌, refl, ap, Option, some, none, if◌then◌else◌,
}
use shore_sentinel_app.Value.{Value}
use shore_sentinel_app.Runtime.{Runtime}
use shore_sentinel_app.Worker.Exec.{
  Call, Settled, resolved, rejected, World, Session, Outcome, returned, thrown, Exec, pure, throw,
  continue, final, ◌>>=◌, require, record_call, settled, raced, call, with_timeout,
}

module _ {A : Type 0} where
  abbrev pub Post : (A → Session → Type 0) → (Session → Type 0) → Outcome A → Type 0
  Post Q E (returned a s) = Q a s
  Post Q E (thrown e s) = E s

  pub final-Post : (P : Session → Type 0) (o : Outcome A) → Post (λ _. P) P o → P (final o)
  final-Post P (returned a s) h = h
  final-Post P (thrown e s) h = h

  pub record Triple (P : Session → Type 0) (m : Exec A) (Q : A → Session → Type 0)
      (E : Session → Type 0) : Type 0 where
    pub at : (s : Session) → P s → Post Q E (m s)

module _ {A : Type 0} {Q : A → Session → Type 0} {E : Session → Type 0} where
  pub Triple-pure : (a : A) → Triple (Q a) (pure a) Q E
  unfolding pure
  Triple-pure a = record { at = λ s h. h }

  pub Triple-throw : (e : String) → Triple E (throw {A = A} e) Q E
  unfolding throw
  Triple-throw e = record { at = λ s h. h }

module _ {A B : Type 0} {E : Session → Type 0} {Q : A → Session → Type 0}
    {R : B → Session → Type 0} where
  continue-Post :
      (o : Outcome A) (f : A → Exec B)
      → Post Q E o
      → ((a : A) → Triple (Q a) (f a) R E)
      → Post R E (continue o f)
  continue-Post (returned a s) f h k = (k a).at s h
  continue-Post (thrown e s) f h k = h

  pub bind-Post :
      (m : Exec A) (f : A → Exec B) (s : Session)
      → Post Q E (m s)
      → ((a : A) → Triple (Q a) (f a) R E)
      → Post R E ((m >>= f) s)
  unfolding ◌>>=◌
  bind-Post m f s h k = continue-Post (m s) f h k

  pub Triple-bind :
      {P : Session → Type 0} (m : Exec A) (f : A → Exec B)
      → Triple P m Q E
      → ((a : A) → Triple (Q a) (f a) R E)
      → Triple P (m >>= f) R E
  unfolding ◌>>=◌
  Triple-bind m f h k = record { at = λ s p. continue-Post (m s) f (h.at s p) k }

module _ {A B : Type 0} {E : Session → Type 0} {R : B → Session → Type 0} where
  pub Triple-pure_bind :
      {P : Session → Type 0} (a : A) (f : A → Exec B)
      → Triple P (f a) R E
      → Triple P (pure a >>= f) R E
  unfolding ◌>>=◌
  Triple-pure_bind a f h = record { at = λ s p. h.at s p }

module _ {P E : Session → Type 0} where
  pub Triple-require :
      (b : Bool) (e : String)
      → ((s : Session) → P s → E s)
      → Triple P (require b e) (λ _ s. P s × (b ≡ true)) E
  unfolding require
  Triple-require true e h = record { at = λ s p. (p, refl) }
  Triple-require false e h = record { at = λ s p. h s p }

module _ {A : Type 0} {E E' : Session → Type 0} {Q Q' : A → Session → Type 0} where
  pub Post-weaken :
      (o : Outcome A)
      → ((a : A) (s : Session) → Q a s → Q' a s)
      → ((s : Session) → E s → E' s)
      → Post Q E o
      → Post Q' E' o
  Post-weaken (returned a s) hq he h = hq a s h
  Post-weaken (thrown e s) hq he h = he s h

  pub Triple-weaken :
      {P P' : Session → Type 0} (m : Exec A)
      → ((s : Session) → P' s → P s)
      → ((a : A) (s : Session) → Q a s → Q' a s)
      → ((s : Session) → E s → E' s)
      → Triple P m Q E
      → Triple P' m Q' E'
  Triple-weaken m hp hq he t = record { at = λ s p. Post-weaken (m s) hq he (t.at s (hp s p)) }

module _ (Q : Value → Session → Type 0) (E : Session → Type 0) where
  pub settled-Post :
      (r : Settled) (s : Session)
      → ((v : Value) → r ≡ resolved v → Q v s)
      → E s
      → Post Q E (settled r s)
  settled-Post (resolved v) s q e = q v refl
  settled-Post (rejected m) s q e = e

  raced-Post :
      (b : Bool) (message invalid : String) (o : Option Settled) (s : Session)
      → ((v : Value) → o ≡ some (resolved v) → Q v s)
      → E s
      → Post Q E (if b then raced message o s else thrown invalid s)
  raced-Post true message invalid (some r) s q e = settled-Post r s (λ v h. q v (ap some h)) e
  raced-Post true message invalid none s q e = e
  raced-Post false message invalid o s q e = e

  module _ (rt : Runtime) (w : World) where
    pub with_timeout-Post :
        (c : Call) (timeout_ms : ℕ) (label : String) (s : Session)
        → ((v : Value) → w.answer s.log c ≡ some (resolved v) → Q v (record_call c s))
        → E (record_call c s)
        → Post Q E (with_timeout rt w c timeout_ms label s)
    unfolding with_timeout
    with_timeout-Post c timeout_ms label s q e = raced-Post _ _ _ _ _ q e

    pub call-Post :
        (c : Call) (s : Session)
        → ((v : Value) → Q v (record_call c s))
        → E (record_call c s)
        → Post Q E (call rt w c s)
    unfolding call
    call-Post c s q e = settled-Post _ _ (λ v _. q v) e

-- An action that makes no call and leaves the state as it is.
module _ {A : Type 0} where
  abbrev pub Still : Exec A → Type 0
  Still m = (s : Session) → Post (λ _ s'. s' ≡ s) (λ s'. s' ≡ s) (m s)

  still_Post :
      (P E : Session → Type 0) (o : Outcome A) (s : Session)
      → P s
      → E s
      → Post (λ _ s'. s' ≡ s) (λ s'. s' ≡ s) o
      → Post (λ _. P) E o
  still_Post P E (returned a s') s p e h = rw h p
  still_Post P E (thrown m s') s p e h = rw h e

  pub Triple-still :
      (P E : Session → Type 0) (m : Exec A)
      → Still m
      → ((s : Session) → P s → E s)
      → Triple P m (λ _. P) E
  Triple-still P E m h k = record { at = λ s p. still_Post P E (m s) s p (k s p) (h s) }

  -- The same, where something is known of the result.
  known_Post :
      (Q : A → Type 0) (P E : Session → Type 0) (o : Outcome A) (s : Session)
      → P s
      → E s
      → Post (λ a s'. (s' ≡ s) × Q a) (λ s'. s' ≡ s) o
      → Post (λ a s'. P s' × Q a) E o
  known_Post Q P E (returned a s') s p e h = (rw h.0 p, h.1)
  known_Post Q P E (thrown m s') s p e h = rw h e

  pub Triple-known :
      (Q : A → Type 0) (P E : Session → Type 0) (m : Exec A)
      → ((s : Session) → Post (λ a s'. (s' ≡ s) × Q a) (λ s'. s' ≡ s) (m s))
      → ((s : Session) → P s → E s)
      → Triple P m (λ a s. P s × Q a) E
  Triple-known Q P E m h k = record { at = λ s p. known_Post Q P E (m s) s p (k s p) (h s) }

  -- A fact that does not depend on the state moves out of the precondition.
  pub Triple-assume :
      {F : Type 0} {P E : Session → Type 0} {Q : A → Session → Type 0} (m : Exec A)
      → (F → Triple P m Q E)
      → Triple (λ s. P s × F) m Q E
  Triple-assume m h = record { at = λ s p. (h p.1).at s p.0 }

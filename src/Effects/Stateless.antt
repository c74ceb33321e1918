-- ===== src/Effects/Stateless.antt =====
-- Actions that answer alike in every world and change none: what runs over a deterministic executor
-- comes to.
use coding_agent_support.Base.{Bool, true, false, ◌≡◌, refl, if◌then◌else◌}
use coding_agent_support.Effects.{Error, Result, ok, err, Eff, pure, raise, lift, continue, ◌>>=◌}

pub record IsStateless {W A : Type 0} (m : Eff W A) : Type 0 where
  pub answer : Result A
  pub same : (w : W) → m w ≡ (answer, w)

module _ {W A : Type 0} where
  pub pure-IsStateless : (a : A) → IsStateless {W = W} (pure a)
  pure-IsStateless a = record { answer = ok a; same = λ w. refl }

  pub raise-IsStateless : (e : Error) → IsStateless {W = W} {A = A} (raise e)
  raise-IsStateless e = record { answer = err e; same = λ w. refl }

  pub lift-IsStateless : (r : Result A) → IsStateless {W = W} (lift r)
  lift-IsStateless r = record { answer = r; same = λ w. refl }

  pub if-IsStateless :
      (b : Bool) (m n : Eff W A)
      → IsStateless m
      → IsStateless n
      → IsStateless {W = W} (if b then m else n)
  if-IsStateless true m n hm hn = hm
  if-IsStateless false m n hm hn = hn

module _ {W A B : Type 0} where
  continue-IsStateless :
      (r : Result A) (f : A → Eff W B)
      → ((a : A) → IsStateless (f a))
      → IsStateless (λ w. continue r f w)
  continue-IsStateless (ok a) f hf = record { answer = (hf a).answer; same = (hf a).same }
  continue-IsStateless (err e) f hf = record { answer = err e; same = λ w. refl }

  pub bind-IsStateless :
      (m : Eff W A) (f : A → Eff W B)
      → IsStateless m
      → ((a : A) → IsStateless (f a))
      → IsStateless (m >>= f)
  bind-IsStateless m f hm hf =
      let rest = continue-IsStateless hm.answer f hf in
      record { answer = rest.answer; same = λ w. rw (hm.same w) (rest.same w) }

pub ruleset stateless_rules =
    (pure-IsStateless, raise-IsStateless, lift-IsStateless, if-IsStateless, bind-IsStateless)

-- ===== src/Clr/Runs.antt =====
-- The runs of the host's actions that return.
use clr_profiling.Base.{◌≡◌, refl, ap, false, ◌∷◌, arith}
use clr_profiling.Base.Hresult.{failed}
use clr_profiling.Clr.{
  ApiCall, Clr, called, Host, Outcome, gives, throws, runtime_error, crashes, out_of_fuel, Action,
  ◌>>=◌, ask,
}

gives_injective : {A : Type 0} {a b : A} → Path (Outcome A) (gives a) (gives b) → a ≡ b
gives_injective h = ground arith

-- A chain goes on with what its first part returned.
module _ {W A B : Type 0} (f : A → Action W B) (a : A) (h : Host W) where
  bind_at : (r : Outcome A) (h' : Host W) → r ≡ gives a → ◌>>=◌ (λ _. (r, h')) f h ≡ f a h'
  bind_at (gives b) h' e = ap (λ x. f x h') (gives_injective e)
  bind_at (throws hr) h' e = absurd (ground arith)
  bind_at runtime_error h' e = absurd (ground arith)
  bind_at crashes h' e = absurd (ground arith)
  bind_at out_of_fuel h' e = absurd (ground arith)

  pub bind_gives : (m : Action W A) → (m h).0 ≡ gives a → (m >>= f) h ≡ f a (m h).1
  bind_gives m e = bind_at (m h).0 (m h).1 e

-- A call that succeeds.
pub ask_good :
    {W : Type 0} ⦃clr : Clr W⦄ (q : ApiCall) (h : Host W)
    → failed (clr.call q h.world).0.result ≡ false
    → ask q h ≡ (
      gives (clr.call q h.world).0,
      record h {
        world = (clr.call q h.world).1;
        events = called q (clr.call q h.world).0.result (clr.call q h.world).0.token ∷ h.events;
      },
    )
unfolding ask
ask_good q h e = rw e refl

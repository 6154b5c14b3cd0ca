-- ===== src/World/Keeps.antt =====
-- What a run keeps, in an environment that is known to behave: one rule for each way to build a
-- program.
use openwatch.Base.{◌≡◌, refl, Bool, true, false, Option, none, some, List, ◌∷◌, if◌then◌else◌}
use openwatch.Base.Errors.{Error, Result, ok, err}
use openwatch.World.{
  Call, Env, World, Outcome, done, panic, stuck, M, pure, fault, ask, continue, ◌>>=◌, if_ok,
  if_some,
}

-- The world after a run satisfies `I`; `S` is what running out of fuel would prove.
unfoldable pub Leaves {ℓ} : {A : Type ℓ} → Type 0 → (World → Type 0) → Outcome A × World → Type 0
Leaves S I (done a, w) = I w
Leaves S I (panic, w) = I w
Leaves S I (stuck, w) = S × I w

-- From a world in which `I` holds, where the environment satisfies `E`.
pub record Keeps {ℓ} {A : Type ℓ} (E : Env → Type 0) (S : Type 0) (I : World → Type 0) (m : M A)
    : Type 0 where
  pub at : (env : Env) → E env → (w : World) → I w → Leaves S I (m env w)

-- Recording the call keeps `I`.
pub record Admits (I : World → Type 0) (c : Call) : Type 0 where
  pub at : (w : World) → I w → I (record w { trace = c ∷ w.trace })

module _ {ℓ} {A : Type ℓ} (S : Type 0) (I : World → Type 0) where
  pub Leaves-world : (p : Outcome A × World) → Leaves S I p → I p.1
  unfolding Leaves
  Leaves-world (done a, w) h = h
  Leaves-world (panic, w) h = h
  Leaves-world (stuck, w) h = h.1

  pub Leaves-if :
      (b : Bool) (p q : Outcome A × World)
      → Leaves S I p
      → Leaves S I q
      → Leaves S I (if b then p else q)
  Leaves-if true p q hp hq = hp
  Leaves-if false p q hp hq = hq

module _ {ℓ} {A : Type ℓ} {E : Env → Type 0} {S : Type 0} {I : World → Type 0} where
  pub Keeps-pure : (a : A) → Keeps E S I (pure a)
  unfolding pure Leaves
  Keeps-pure a = record { at = λ env e w h. h }

  pub Keeps-fault : Keeps E S I (fault {A = A})
  unfolding fault Leaves
  Keeps-fault = record { at = λ env e w h. h }

  pub Keeps-ask : (c : Call) (f : Env → List Call → A) → Admits I c → Keeps E S I (ask c f)
  unfolding ask Leaves
  Keeps-ask c f q = record { at = λ env e w h. q.at w h }

  -- A program that reads the environment alone.
  pub Keeps-env : (f : Env → A) → Keeps E S I (λ env w. pure (f env) env w)
  Keeps-env f = record { at = λ env e w h. (Keeps-pure (f env)).at env e w h }

  pub Keeps-if :
      (b : Bool) (m n : M A) → Keeps E S I m → Keeps E S I n → Keeps E S I (if b then m else n)
  Keeps-if true m n hm hn = hm
  Keeps-if false m n hm hn = hn

  -- Each branch knows its test.
  pub Keeps-test :
      (b : Bool) (m n : M A)
      → (b ≡ true → Keeps E S I m)
      → (b ≡ false → Keeps E S I n)
      → Keeps E S I (if b then m else n)
  Keeps-test true m n hm hn = hm refl
  Keeps-test false m n hm hn = hn refl

module _ {ℓ κ} {A : Type ℓ} {B : Type κ} {E : Env → Type 0} {S : Type 0} {I : World → Type 0} where
  Leaves-continue :
      (r : Outcome A) (f : A → M B) (env : Env) (w : World)
      → E env
      → ((a : A) → Keeps E S I (f a))
      → Leaves S I (r, w)
      → Leaves S I (continue r f env w)
  unfolding Leaves
  Leaves-continue (done a) f env w e hf h = (hf a).at env e w h
  Leaves-continue panic f env w e hf h = h
  Leaves-continue stuck f env w e hf h = h

  pub Keeps-bind :
      (m : M A) (f : A → M B)
      → Keeps E S I m
      → ((a : A) → Keeps E S I (f a))
      → Keeps E S I (m >>= f)
  unfolding ◌>>=◌
  Keeps-bind m f hm hf = record {
    at = λ env e w h. Leaves-continue (m env w).0 f env (m env w).1 e hf (hm.at env e w h);
  }

  pub Keeps-if_ok :
      (r : Result A) (failed : Error → M B) (go : A → M B)
      → ((e : Error) → Keeps E S I (failed e))
      → ((a : A) → Keeps E S I (go a))
      → Keeps E S I (if_ok r failed go)
  unfolding if_ok
  Keeps-if_ok (ok a) failed go hf hg = hg a
  Keeps-if_ok (err e) failed go hf hg = hf e

  pub Keeps-if_some :
      (o : Option A) (absent : M B) (go : A → M B)
      → Keeps E S I absent
      → ((a : A) → Keeps E S I (go a))
      → Keeps E S I (if_some o absent go)
  unfolding if_some
  Keeps-if_some none absent go hf hg = hf
  Keeps-if_some (some a) absent go hf hg = hg a

pub ruleset keeps_rules =
    (Keeps-pure, Keeps-fault, Keeps-ask, Keeps-if, Keeps-bind, Keeps-if_ok, Keeps-if_some)

-- ===== src/Calls/Always.antt =====
-- Userland/libsys/libsys.c: what holds of every call that a program makes.
use tp2_sistemas_operativos.Calls.{Request, Answer, Prog, ret, call, ◌>>=◌}

-- `Ok` is a demand on each call, `Fits` what is known of the answers, `Post` a demand on the result.
module _ (Ok : Request → Type 0) (Fits : (r : Request) → Answer r → Type 0) where
  abbrev pub Always : {A : Type 0} → (A → Type 0) → Prog A → Type 0
  Always Post (ret a) = Post a
  Always Post (call r k) = Ok r × ((a : Answer r) → Fits r a → Always Post (k a))

  pub Always-bind :
      {A B : Type 0} (Q : A → Type 0) (R : B → Type 0) (p : Prog A) (f : A → Prog B)
      → Always Q p
      → ((a : A) → Q a → Always R (f a))
      → Always R (p >>= f)
  Always-bind Q R (ret a) f h then = then a h
  Always-bind Q R (call r k) f h then = (h.0, λ a fits. Always-bind Q R (k a) f (h.1 a fits) then)

-- ===== src/Exec/Ends.antt =====
-- How a call ends: from a state that meets `P` it gives the result `r` and a state that meets `Q`.
-- It is total correctness, since a call is a function. The rules chain the calls of a handler.
use metered_compute.Base.{◌≡◌, refl}
use metered_compute.Exec.{
  Error, Result, ok, err, Exec, pure, raise, gets, modify, ◌>>=◌, try_except,
}

pub record Ends {S A : Type 0} (P : S → Type 0) (m : Exec S A) (r : Result A) (Q : S → Type 0)
    : Type 0 where
  pub at : (s : S) → P s → ((m s).0 ≡ r) × Q (m s).1

module _ {S A : Type 0} {P : S → Type 0} where
  pub Ends-pure : (a : A) → Ends P (pure a) (ok a) P
  unfolding pure
  Ends-pure a = record { at = λ s h. (refl, h) }

  pub Ends-raise : (e : Error) → Ends P (raise {A = A} e) (err e) P
  unfolding raise
  Ends-raise e = record { at = λ s h. (refl, h) }

  pub Ends-gets : (f : S → A) (a : A) → ((s : S) → P s → f s ≡ a) → Ends P (gets f) (ok a) P
  unfolding gets
  Ends-gets f a h = record { at = λ s p. (cc (h s p), p) }

module _ {S : Type 0} {P Q : S → Type 0} where
  pub Ends-modify : (f : S → S) → ((s : S) → P s → Q (f s)) → Ends P (modify f) (ok tt) Q
  unfolding modify
  Ends-modify f h = record { at = λ s p. (refl, h s p) }

module _ {S A B : Type 0} {P Q : S → Type 0} where
  pub Ends-bind_err :
      {m : Exec S A} {e : Error} (f : A → Exec S B)
      → Ends P m (err e) Q
      → Ends P (m >>= f) (err e) Q
  unfolding ◌>>=◌
  Ends-bind_err {m} {e} f hm = record { at = λ s p. let (x, q) = hm.at s p in (rw x, rw x q) }

module _ {S A B : Type 0} {P Q R : S → Type 0} where
  pub Ends-bind :
      {m : Exec S A} {a : A} (f : A → Exec S B) {r : Result B}
      → Ends P m (ok a) Q
      → Ends Q (f a) r R
      → Ends P (m >>= f) r R
  unfolding ◌>>=◌
  Ends-bind {m} {a} f {r} hm hf = record {
    at = λ s p.
        let (e, q) = hm.at s p in let t = (m s).1 in (rw e (hf.at t q).0, rw e (hf.at t q).1);
  }

  pub Ends-try :
      {m : Exec S A} {a : A} (f : A → Exec S B) (g : Error → Exec S B) {r : Result B}
      → Ends P m (ok a) Q
      → Ends Q (f a) r R
      → Ends P (try_except m f g) r R
  unfolding try_except
  Ends-try {m} f g hm hf = record {
    at = λ s p.
        let (e, q) = hm.at s p in let t = (m s).1 in (rw e (hf.at t q).0, rw e (hf.at t q).1);
  }

  pub Ends-except :
      {m : Exec S A} {e : Error} (f : A → Exec S B) (g : Error → Exec S B) {r : Result B}
      → Ends P m (err e) Q
      → Ends Q (g e) r R
      → Ends P (try_except m f g) r R
  unfolding try_except
  Ends-except {m} f g hm hg = record {
    at = λ s p.
        let (x, q) = hm.at s p in let t = (m s).1 in (rw x (hg.at t q).0, rw x (hg.at t q).1);
  }

module _ {S A : Type 0} {P Q R : S → Type 0} where
  -- The precondition may be strengthened and the postcondition weakened.
  pub Ends-weaken :
      {m : Exec S A} {r : Result A} → Ends P m r Q → ((s : S) → Q s → R s) → Ends P m r R
  Ends-weaken hm h = record { at = λ s p. ((hm.at s p).0, h _ (hm.at s p).1) }

  pub Ends-from :
      {m : Exec S A} {r : Result A} → ((s : S) → R s → P s) → Ends P m r Q → Ends R m r Q
  Ends-from h hm = record { at = λ s p. hm.at s (h s p) }

module _ {S A : Type 0} {P P' Q Q' : S → Type 0} where
  pub Ends-both :
      {m : Exec S A} {r : Result A}
      → Ends P m r Q
      → ((s : S) → P s → P' s → Q' (m s).1)
      → Ends (λ s. P s × P' s) m r (λ s. Q s × Q' s)
  Ends-both hm h = record { at = λ s p. ((hm.at s p.0).0, ((hm.at s p.0).1, h s p.0 p.1)) }

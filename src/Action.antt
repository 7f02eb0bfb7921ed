-- ===== src/Action.antt =====
-- A method that takes `&mut self` and returns `Result`: what it did to the state before an error
-- stays done, and `?` is the bind.
use ssh_bench.Common.{◌≡◌, ap, Bool, true, false, if◌then◌else◌}
use ssh_bench.Error.{Result, ok, err}

abbrev pub Action : Type 0 → Type 0 → Type 0
Action S A = S → Result A × S

abbrev pub bind_result : {S A B : Type 0} → Result A × S → (A → Action S B) → Result B × S
bind_result (ok a, s) f = f a s
bind_result (err e, s) f = (err e, s)

infixl 5 ◌>>=◌ ◌>>◌
unfoldable pub ◌>>=◌ : {S A B : Type 0} → Action S A → (A → Action S B) → Action S B
(m >>= f) s = bind_result (m s) f

unfoldable pub ◌>>◌ : {S B : Type 0} → Action S (Unit {0}) → Action S B → Action S B
(m >> k) s = bind_result (m s) (λ _. k)

unfoldable pub lift : {S A : Type 0} → Result A → Action S A
lift r s = (r, s)

unfoldable pub done : {S : Type 0} → Action S (Unit {0})
done s = (ok tt, s)

unfoldable pub state : {S : Type 0} → Action S S
state s = (ok s, s)

unfoldable pub modify : {S : Type 0} → (S → S) → Action S (Unit {0})
modify f s = (ok tt, f s)

-- Every state that satisfies `P` is left in one that does, whatever the result.
pub record Keeps {S A : Type 0} (P : S → Type 0) (m : Action S A) : Type 0 where
  pub keeps : (s : S) → P s → P (m s).1

bind_result-keeps :
    {S A B : Type 0} (P : S → Type 0) (x : Result A × S) (f : A → Action S B)
    → P x.1
    → ((a : A) → Keeps P (f a))
    → P (bind_result x f).1
bind_result-keeps P (ok a, s) f h hf = (hf a).keeps s h
bind_result-keeps P (err e, s) f h hf = h

pub bind-Keeps :
    {S A B : Type 0} {P : S → Type 0} {m : Action S A} {f : A → Action S B}
    → Keeps P m
    → ((a : A) → Keeps P (f a))
    → Keeps P (m >>= f)
unfolding ◌>>=◌
bind-Keeps {P = P} {m} {f} hm hf = record {
  keeps = λ s h. bind_result-keeps P (m s) f (hm.keeps s h) hf;
}

pub then-Keeps :
    {S B : Type 0} {P : S → Type 0} {m : Action S (Unit {0})} {k : Action S B}
    → Keeps P m
    → Keeps P k
    → Keeps P (m >> k)
unfolding ◌>>◌
then-Keeps {P = P} {m} {k} hm hk = record {
  keeps = λ s h. bind_result-keeps P (m s) (λ _. k) (hm.keeps s h) λ _. hk;
}

pub lift-Keeps : {S A : Type 0} {P : S → Type 0} (r : Result A) → Keeps P (lift {S = S} r)
unfolding lift
lift-Keeps r = record { keeps = λ s h. h }

pub done-Keeps : {S : Type 0} {P : S → Type 0} → Keeps P done
unfolding done
done-Keeps = record { keeps = λ s h. h }

pub state-Keeps : {S : Type 0} {P : S → Type 0} → Keeps P state
unfolding state
state-Keeps = record { keeps = λ s h. h }

pub modify-Keeps :
    {S : Type 0} {P : S → Type 0} (f : S → S) → ((s : S) → P s → P (f s)) → Keeps P (modify f)
unfolding modify
modify-Keeps f h = record { keeps = h }

pub if-Keeps :
    {S A : Type 0} {P : S → Type 0} (c : Bool) {a b : Action S A}
    → Keeps P a
    → Keeps P b
    → Keeps P (if c then a else b)
if-Keeps true ha hb = ha
if-Keeps false ha hb = hb

-- A first part that succeeds hands its value and its state on.
pub bind-ok :
    {S A B : Type 0} (m : Action S A) (f : A → Action S B) (s s' : S) (a : A)
    → m s ≡ (ok a, s')
    → (m >>= f) s ≡ f a s'
unfolding ◌>>=◌
bind-ok m f s s' a e = ap (λ x. bind_result x f) e

pub then-ok :
    {S B : Type 0} (m : Action S (Unit {0})) (k : Action S B) (s s' : S)
    → m s ≡ (ok tt, s')
    → (m >> k) s ≡ k s'
unfolding ◌>>◌
then-ok m k s s' e = ap (λ x. bind_result x (λ _. k)) e

pub lift-ok : {S A : Type 0} (r : Result A) (s : S) (a : A) → r ≡ ok a → lift r s ≡ (ok a, s)
unfolding lift
lift-ok r s a e = ap (λ x. (x, s)) e

-- ===== src/Prelude/Keeps.antt =====
-- Methods that keep a property of the state, whether they return or raise.
use mathlib.Core.Bool.{Bool, true, false}
use mathlib.Core.List.{List, [], ◌∷◌, ◌++◌}
use mathlib.Core.Option.{Option, none, some}
use ksec.Prelude.Exec.{
  Exec, Outcome, returned, raised, blocked, Error, continue, on_error, try_except, or_raise,
  assert_some, ◌>>=◌,
}
use ksec.Prelude.Lists.{All, update_where}
use ksec.Prelude.Tests.{if◌then◌else◌}

module _ {S : Type 0} where
  abbrev pub Keeps : {A : Type 0} → (S → Type 0) → Exec S A → Type 0
  Keeps P m = (s : S) → P s → P (m s).1

  -- What goes on after a method that keeps the property.
  pub keeps_continue :
      {A B : Type 0} (P : S → Type 0) (o : Outcome A) (k : A → Exec S B) (s : S)
      → P s
      → ((a : A) → Keeps P (k a))
      → P (continue o k s).1
  keeps_continue P (returned a) k s p h = h a s p
  keeps_continue P (raised e) k s p h = p
  keeps_continue P blocked k s p h = p

  pub >>=-Keeps :
      {A B : Type 0} (P : S → Type 0) (m : Exec S A) (k : A → Exec S B)
      → Keeps P m
      → ((a : A) → Keeps P (k a))
      → Keeps P (m >>= k)
  >>=-Keeps P m k first rest s p = keeps_continue P (m s).0 k (m s).1 (first s p) rest

  on_error-Keeps :
      {A : Type 0} (P : S → Type 0) (o : Outcome A) (handle : Error → Exec S A) (s : S)
      → P s
      → ((e : Error) → Keeps P (handle e))
      → P (on_error o handle s).1
  on_error-Keeps P (returned a) handle s p h = p
  on_error-Keeps P (raised e) handle s p h = h e s p
  on_error-Keeps P blocked handle s p h = p

  pub try_except-Keeps :
      {A : Type 0} (P : S → Type 0) (m : Exec S A) (handle : Error → Exec S A)
      → Keeps P m
      → ((e : Error) → Keeps P (handle e))
      → Keeps P (try_except m handle)
  try_except-Keeps P m handle first rest s p =
      on_error-Keeps P (m s).0 handle (m s).1 (first s p) rest

  pub keeps_or_raise :
      {A : Type 0} (P : S → Type 0) (o : Option A) (e : Error) (s : S) → P s → P (or_raise o e s).1
  keeps_or_raise P none e s p = p
  keeps_or_raise P (some a) e s p = p

  pub keeps_assert_some :
      {A : Type 0} (P : S → Type 0) (o : Option A) (s : S) → P s → P (assert_some o s).1
  keeps_assert_some P none s p = p
  keeps_assert_some P (some a) s p = p

module _ {A : Type 0} where
  pub All-append : (P : A → Type 0) (xs : List A) (x : A) → All P xs → P x → All P (xs ++ x ∷ [])
  All-append P [] x h p = (p, tt)
  All-append P (y ∷ ys) x h p = (h.0, All-append P ys x h.1 p)

  pub All-update_where :
      (P : A → Type 0) (p : A → Bool) (f : A → A) (xs : List A)
      → ((x : A) → P x → P (f x))
      → All P xs
      → All P (update_where p f xs)
  unfolding update_where
  All-update_where P p f [] h all = tt
  All-update_where P p f (x ∷ xs) h all =
      (either (p x) x (h x all.0) all.0, All-update_where P p f xs h all.1)
    where
      either : (b : Bool) (x : A) → P (f x) → P x → P (if b then f x else x)
      either true x u v = u
      either false x u v = v

-- ===== src/Exec/Follows.antt =====
-- How a method moves the state, one rule for each way to build a method: `Follows R m` says that
-- the state after `m`, whether it returned or threw, is related by `R` to the state before.
use loyalty_interchange_prot.Base.{
  ℕ, Bool, true, false, Option, none, some, List, [], ◌∷◌, if◌then◌else◌,
}
use loyalty_interchange_prot.Exec.{
  ErrorCode, Outcome, returned, threw, Exec, pure, throw, gets, settle, proceed, ◌>>=◌, throw_if,
  or_throw, do_if, branch, map_each, for_each,
}

pub record IsPreorder {S : Type 0} (R : S → S → Type 0) : Type 0 where
  pub reflexive : (s : S) → R s s
  pub transitive : (s t u : S) → R s t → R t u → R s u

pub record Follows {S A : Type 0} (R : S → S → Type 0) (m : Exec S A) : Type 0 where
  pub from : (s : S) → R s (m s).1

module _ {S : Type 0} {R : S → S → Type 0} (p : IsPreorder R) where
  pub Follows-pure : {A : Type 0} (a : A) → Follows R (pure a)
  unfolding pure
  Follows-pure a = record { from = p.reflexive }

  pub Follows-throw : {A : Type 0} (c : ErrorCode) (n : ℕ) → Follows {A = A} R (throw c n)
  unfolding throw
  Follows-throw c n = record { from = p.reflexive }

  pub Follows-gets : {A : Type 0} (f : S → A) → Follows R (gets f)
  unfolding gets
  Follows-gets f = record { from = p.reflexive }

  pub Follows-settle : {A : Type 0} (o : Outcome A) → Follows R (settle o)
  unfolding settle
  Follows-settle o = record { from = p.reflexive }

  pub Follows-proceed :
      {A B : Type 0} (r : Outcome A) (f : A → Exec S B)
      → ((a : A) → Follows R (f a))
      → (s : S) → R s (proceed r f s).1
  Follows-proceed (returned a) f h s = (h a).from s
  Follows-proceed (threw e) f h s = p.reflexive s

  pub Follows-bind :
      {A B : Type 0} (m : Exec S A) (f : A → Exec S B)
      → Follows R m
      → ((a : A) → Follows R (f a))
      → Follows R (m >>= f)
  unfolding ◌>>=◌
  Follows-bind m f hm hf = record {
    from = λ s. p.transitive s (m s).1 _ (hm.from s) (Follows-proceed (m s).0 f hf (m s).1);
  }

  pub Follows-throw_if : (b : Bool) (c : ErrorCode) (n : ℕ) → Follows R (throw_if b c n)
  unfolding throw_if
  Follows-throw_if true c n = record { from = p.reflexive }
  Follows-throw_if false c n = record { from = p.reflexive }

  pub Follows-or_throw :
      {A : Type 0} (o : Option A) (c : ErrorCode) (n : ℕ) → Follows R (or_throw o c n)
  unfolding or_throw
  Follows-or_throw none c n = record { from = p.reflexive }
  Follows-or_throw (some a) c n = record { from = p.reflexive }

  pub Follows-if :
      {A : Type 0} (b : Bool) (m n : Exec S A)
      → Follows R m
      → Follows R n
      → Follows R (if b then m else n)
  Follows-if true m n hm hn = hm
  Follows-if false m n hm hn = hn

  pub Follows-do_if : (b : Bool) (m : Exec S (Unit {0})) → Follows R m → Follows R (do_if b m)
  unfolding do_if
  Follows-do_if true m hm = hm
  Follows-do_if false m hm = record { from = p.reflexive }

  pub Follows-branch :
      {A B : Type 0} (o : Option A) (m : Exec S B) (f : A → Exec S B)
      → Follows R m
      → ((a : A) → Follows R (f a))
      → Follows R (branch o m f)
  unfolding branch
  Follows-branch none m f hm hf = hm
  Follows-branch (some a) m f hm hf = hf a

module _ {S : Type 0} {R : S → S → Type 0} (p : IsPreorder R) where
  pub Follows-map_each :
      {A B : Type 0} (f : A → Exec S B) (xs : List A)
      → ((a : A) → Follows R (f a))
      → Follows R (map_each f xs)
  unfolding map_each
  Follows-map_each f [] h = Follows-pure p []
  Follows-map_each f (x ∷ xs) h =
      Follows-bind p (f x) _ (h x) λ y.
        Follows-bind p (map_each f xs) _ (Follows-map_each f xs h) λ ys. Follows-pure p (y ∷ ys)

  pub Follows-for_each :
      {A : Type 0} (f : A → Exec S (Unit {0})) (xs : List A)
      → ((a : A) → Follows R (f a))
      → Follows R (for_each f xs)
  unfolding for_each
  Follows-for_each f [] h = Follows-pure p tt
  Follows-for_each f (x ∷ xs) h = Follows-bind p (f x) _ (h x) λ _. Follows-for_each f xs h

pub ruleset follows_rules = (
  Follows-pure, Follows-throw, Follows-gets, Follows-settle, Follows-bind, Follows-throw_if,
  Follows-or_throw, Follows-if, Follows-do_if, Follows-branch, Follows-map_each, Follows-for_each,
)

-- ===== src/Forward/Action/Laws.antt =====
-- What steps keep, and when a chain of steps succeeds (fwDCS/internal/forwarder/forwarder.go).
use dcim_data_reader.Prelude.{
  ◌≡◌, ◌∙◌, refl, sym, ap, subst, Option, none, some, String, Run, ok, err, panic, hang, List, [],
  ◌++◌, append_assoc, append-nil, arith,
}
use dcim_data_reader.Forward.Payload.{AggPayload}
use dcim_data_reader.Forward.Action.{World, PushError, Action, return, after, ◌>>=◌, ask}

-- A relation between the states before and after, which holds in a chain of steps.
pub record Relation (V : Type 0) : Type 1 where
  pub Holds : World V → World V → Type 0
  pub holds_refl : (w : World V) → Holds w w
  pub holds_trans : (a b c : World V) → Holds a b → Holds b c → Holds a c

module _ {V : Type 0} where
  unfoldable pub Keeps : {A : Type 0} → Relation V → Action V A → Type 0
  Keeps R m = (w : World V) → R.Holds w (m w).1

  after-Keeps :
      {A B : Type 0} (R : Relation V) (start : World V) (r : Run PushError A × World V)
      (f : A → Action V B)
      → R.Holds start r.1
      → ((a : A) → Keeps R (f a))
      → R.Holds start (after r f).1
  unfolding after Keeps
  after-Keeps R start (ok a, w) f h keep = R.holds_trans start w (f a w).1 h (keep a w)
  after-Keeps R start (err e, w) f h keep = h
  after-Keeps R start (panic, w) f h keep = h
  after-Keeps R start (hang, w) f h keep = h

  pub bind-Keeps :
      {A B : Type 0} (R : Relation V) (m : Action V A) (f : A → Action V B)
      → Keeps R m
      → ((a : A) → Keeps R (f a))
      → Keeps R (m >>= f)
  unfolding ◌>>=◌ Keeps
  bind-Keeps R m f first next w = after-Keeps R w (m w) f (first w) next

  pub return-Keeps : {A : Type 0} (R : Relation V) (a : A) → Keeps R (return {V = V} a)
  unfolding return Keeps
  return-Keeps R a w = R.holds_refl w

  pub ask-Keeps :
      {A : Type 0} (R : Relation V) (what : String) (o : Option A) → Keeps R (ask {V = V} what o)
  unfolding ask Keeps
  ask-Keeps R what none w = R.holds_refl w
  ask-Keeps R what (some a) w = R.holds_refl w

  -- The cursors stay.
  abbrev pub same_cursors : Relation V
  same_cursors = record {
    Holds = λ w w'. w'.cursors ≡ w.cursors;
    holds_refl = λ w. refl;
    holds_trans = λ a b c ab bc. bc ∙ ab;
  }

  -- The Aggregator has accepted more, and nothing less.
  abbrev pub more_sent : Relation V
  more_sent = record {
    Holds = λ w w'. (more : List (AggPayload V)) × (w'.sent ≡ w.sent ++ more);
    holds_refl = λ w. ([], sym (append-nil w.sent));
    holds_trans = λ a b c ab bc.
        (ab.0 ++ bc.0, bc.1 ∙ ap (λ front. front ++ bc.0) ab.1 ∙ append_assoc a.sent ab.0 bc.0);
  }

  -- The step changes the cursors only where it succeeds.
  abbrev pub FailsClean : {A : Type 0} → Action V A → Type 0
  FailsClean m = (w w' : World V) (e : PushError) → m w ≡ (err e, w') → w'.cursors ≡ w.cursors

  after-FailsClean :
      {A B : Type 0} (r : Run PushError A × World V) (f : A → Action V B)
      → ((a : A) → FailsClean (f a))
      → (w' : World V) (e : PushError) → after r f ≡ (err e, w')
      → w'.cursors ≡ r.1.cursors
  unfolding after
  after-FailsClean (ok a, w) f clean w' e h = clean a w w' e h
  after-FailsClean (err e', w) f clean w' e h = ap (λ r. r.1.cursors) (sym h)
  after-FailsClean (panic, w) f clean w' e h = ap (λ r. r.1.cursors) (sym h)
  after-FailsClean (hang, w) f clean w' e h = ap (λ r. r.1.cursors) (sym h)

  pub bind-FailsClean :
      {A B : Type 0} (m : Action V A) (f : A → Action V B)
      → Keeps same_cursors m
      → ((a : A) → FailsClean (f a))
      → FailsClean (m >>= f)
  unfolding ◌>>=◌ Keeps
  bind-FailsClean m f keep clean w w' e h = after-FailsClean (m w) f clean w' e h ∙ keep w

  after-ok :
      {A B : Type 0} (r : Run PushError A × World V) (f : A → Action V B) (b : B) (w' : World V)
      → after r f ≡ (ok b, w')
      → (a : A) × ((w1 : World V) × ((r ≡ (ok a, w1)) × (f a w1 ≡ (ok b, w'))))
  unfolding after
  after-ok (ok a, w) f b w' h = (a, (w, (refl, h)))
  after-ok (err e, w) f b w' h = absurd (ground (arith, ap (λ r. r.0) h))
  after-ok (panic, w) f b w' h = absurd (ground (arith, ap (λ r. r.0) h))
  after-ok (hang, w) f b w' h = absurd (ground (arith, ap (λ r. r.0) h))

  -- Where the step succeeds, `P` holds of its value and of the state after it.
  unfoldable pub Yields : {A : Type 0} → Action V A → World V → (A → World V → Type 0) → Type 0
  Yields {A} m w P = (a : A) (w' : World V) → m w ≡ (ok a, w') → P a w'

  pub bind-Yields :
      {A B : Type 0} (m : Action V A) (f : A → Action V B) (w : World V) (P : A → World V → Type 0)
      (Q : B → World V → Type 0)
      → Yields m w P
      → ((a : A) (w1 : World V) → P a w1 → Yields (f a) w1 Q)
      → Yields (m >>= f) w Q
  unfolding ◌>>=◌ Yields
  bind-Yields m f w P Q first next b w' h =
      let (a, (w1, (e, e'))) = after-ok (m w) f b w' h in next a w1 (first a w1 e) b w' e'

  pub ask-Yields :
      {A : Type 0} (what : String) (o : Option A) (w : World V)
      → Yields (ask what o) w (λ a w'. w' ≡ w)
  unfolding ask Yields
  ask-Yields what none w a w' h = absurd (ground (arith, ap (λ r. r.0) h))
  ask-Yields what (some x) w a w' h = ap (λ r. r.1) (sym h)

  pub return-Yields :
      {A : Type 0} (x : A) (w : World V) (P : A → World V → Type 0) → P x w → Yields (return x) w P
  unfolding return Yields
  return-Yields {A} x w P h a w' e =
      let value : some x ≡ some a =
        ap (λ r. elim r.0 [ ok y ↦ some y | err why ↦ none | panic ↦ none | hang ↦ none ]) e in
      subst (λ v. P v w') (cc value) (subst (P x) (ap (λ r. r.1) e) h)

  after-Invariant :
      {A B : Type 0} (I : World V → Type 0) (r : Run PushError A × World V) (f : A → Action V B)
      → I r.1
      → ((a : A) → r ≡ (ok a, r.1) → I (f a r.1).1)
      → I (after r f).1
  unfolding after
  after-Invariant I (ok a, w) f h next = next a refl
  after-Invariant I (err e, w) f h next = h
  after-Invariant I (panic, w) f h next = h
  after-Invariant I (hang, w) f h next = h

  -- What holds after the first step, and after the rest where that one succeeds.
  pub bind-Invariant :
      {A B : Type 0} (I : World V → Type 0) (m : Action V A) (f : A → Action V B) (w : World V)
      → I (m w).1
      → ((a : A) → m w ≡ (ok a, (m w).1) → I (f a (m w).1).1)
      → I ((m >>= f) w).1
  unfolding ◌>>=◌
  bind-Invariant I m f w h next = after-Invariant I (m w) f h next
